-- ===== src/Frames/Probe/Metadata.antt =====
-- How the reading of ffprobe's answer ends.
use Prim.Native.String.{String}
use mathlib.Core.Option.{some-injective}
use ansuman_nsfw_detection_s.Base.{
  subst, ◌≡◌, refl, ap, inl, inr, Bool, true, false, Option, none, some, List, [], ◌∷◌, ◌++◌, ◌⊎◌,
  any, ◌≢◌, Bool-cases, Option-cases, if◌then◌else◌,
}
use ansuman_nsfw_detection_s.Float.{Double, FloatOps}
use ansuman_nsfw_detection_s.Errors.{
  Outcome, ok, raised, app, no_video_stream_error, video_probe_error,
}
use ansuman_nsfw_detection_s.Json.{
  Json, null, bool, int, float, string, array, object, Items, Fields, get_field, items, is_truthy,
}
use ansuman_nsfw_detection_s.Models.{VideoMetadata}
use ansuman_nsfw_detection_s.Frames.Probe.{
  Numbers, got, is_video_type, first_video, int_or_none, parse_rate, or_zero, dict_or_empty,
  float_or_none, duration_of, nonzero, metadata_of, metadata_with, rate_field, of_streams,
  parse_ffprobe_metadata,
}
use ansuman_nsfw_detection_s.Frames.Probe.Rates.{
  Readable, Answers, Total, value, overflow, bind_lem, float_or_none-Total, int_or_none-Total,
  parse_rate-Total,
}

module _ (ops : FloatOps) (numbers : Numbers) (readable : Readable numbers) where
  -- What is read under a key, which may raise.
  abbrev duration_in : Fields → Outcome (Option Double)
  duration_in fields = float_or_none ops numbers (got (get_field "duration" fields))

  -- The duration is the stream's, unless that is none or zero; then it is the format's, or zero.
  pub data Lasts (stream format : Fields) (d : Double) : Type 0 where
    of_stream :
        duration_in stream ≡ ok (some d)
        → nonzero ops numbers (some d) ≡ true
        → Lasts stream format d
    of_format :
        (a b : Option Double)
        → duration_in stream ≡ ok a
        → nonzero ops numbers a ≡ false
        → duration_in format ≡ ok b
        → d ≡ or_zero ops numbers b
        → Lasts stream format d

  Second : Fields → Option Double → Option Double → Type 0
  Second format a b =
      ((nonzero ops numbers a ≡ true) × (b ≡ a))
      ⊎ ((nonzero ops numbers a ≡ false) × (duration_in format ≡ ok b))

  read-Second :
      (format : Fields) (a : Option Double)
      → nonzero ops numbers a ≡ false
      → Total (duration_in format)
      → Answers (Second format a) (duration_in format)
  unfolding Second
  read-Second format a blank (value b _ e) = value b (inr (blank, e)) e
  read-Second format a blank (overflow x c e) = overflow x c e

  Answers-Second :
      (format : Fields) (a : Option Double)
      → Answers (Second format a) (if nonzero ops numbers a then ok a else duration_in format)
  unfolding Second
  Answers-Second format a = elim (Bool-cases (nonzero ops numbers a)) [
    | inl given ↦ value a (inl (given, refl)) (rw given)
    | inr blank ↦
        subst (λ o. Answers (Second format a) o) (rw blank)
          (read-Second format a blank (float_or_none-Total ops numbers readable _))
  ]

  Second-Lasts :
      (stream format : Fields) (a b : Option Double)
      → duration_in stream ≡ ok a
      → Second format a b
      → Lasts stream format (or_zero ops numbers b)
  unfolding Second
  Second-Lasts stream format none b e (inl (given, same)) = absurd (cc)
  Second-Lasts stream format (some d) b e (inl (given, same)) = rw same (of_stream e given)
  Second-Lasts stream format a b e (inr (blank, e')) = of_format a b e blank e' refl

  duration_of-Lasts :
      (stream format : Fields)
      → Answers (Lasts stream format) (duration_of ops numbers stream format)
  unfolding duration_of
  duration_of-Lasts stream format =
      bind_lem _ _ (float_or_none-Total ops numbers readable (got (get_field "duration" stream)))
        (λ a _ e.
          bind_lem _ _ (Answers-Second format a)
            (λ b second _. value _ (Second-Lasts stream format a b e second) refl))

  some-ne-none : {fs : Fields} → ◌≡◌ {A = Option Fields} (some fs) none → ⊥
  some-ne-none h = cc

  module _ (job_id video_id : String) where
    -- Metadata of the job that is what a stream and the format say, with no frames yet.
    pub record IsRead (stream format : Fields) (m : VideoMetadata) : Type 0 where
      pub job_id_kept : m.job_id ≡ job_id
      pub video_id_kept : m.video_id ≡ video_id
      pub duration : Lasts stream format m.duration_seconds
      pub width : int_or_none ops numbers (got (get_field "width" stream)) ≡ ok m.width
      pub height : int_or_none ops numbers (got (get_field "height" stream)) ≡ ok m.height
      pub rate : parse_rate ops numbers (rate_field ops numbers stream) ≡ ok m.fps
      pub codec :
          (v : Json)
          → get_field "codec_name" stream ≡ some v
          → is_truthy ops v ≡ true
          → m.codec_name ≡ some (numbers.str_of v)
      pub has_stream : m.has_video_stream ≡ true
      pub no_frames : m.frames_extracted ≡ 0

    metadata_of-IsRead :
        (stream format : Fields)
        → Answers (IsRead stream format) (metadata_of ops numbers job_id video_id stream format)
    unfolding metadata_of
    metadata_of-IsRead stream format = bind_lem _ _ (duration_of-Lasts stream format) (λ d lasts _.
        bind_lem _ _ (int_or_none-Total ops numbers readable (got (get_field "width" stream)))
          (λ w _ ew.
            bind_lem _ _ (int_or_none-Total ops numbers readable (got (get_field "height" stream)))
              (λ h _ eh.
                bind_lem _ (λ r. ok (metadata_with ops numbers job_id video_id stream d w h r))
                  (parse_rate-Total ops numbers readable (rate_field ops numbers stream))
                  (λ r _ er.
                    value _
                      (record {
                        job_id_kept = refl;
                        video_id_kept = refl;
                        duration = lasts;
                        width = ew;
                        height = eh;
                        rate = er;
                        codec = λ v there full. rw (there, full);
                        has_stream = refl;
                        no_frames = refl;
                      })
                      refl))))

    abbrev pub is_video : Fields → Bool
    is_video stream = is_video_type ops numbers (get_field "codec_type" stream)

    abbrev pub is_video_stream : Json → Bool
    is_video_stream (object stream) = is_video stream
    is_video_stream _ = false

    first_video-none :
        (l : List Json) → first_video ops numbers l ≡ none → any is_video_stream l ≡ false
    unfolding first_video
    first_video-none [] h = refl
    first_video-none (object fs ∷ l) h = elim (Bool-cases (is_video fs)) [
      | inl here ↦ absurd (some-ne-none (rw here at h))
      | inr there ↦ rw there (first_video-none l (rw there at h))
    ]
    first_video-none (null ∷ l) h = first_video-none l h
    first_video-none (bool b ∷ l) h = first_video-none l h
    first_video-none (int z ∷ l) h = first_video-none l h
    first_video-none (float x ∷ l) h = first_video-none l h
    first_video-none (string t ∷ l) h = first_video-none l h
    first_video-none (array t ∷ l) h = first_video-none l h

    -- The stream is the first of a video in the list.
    pub record IsFirst (l : List Json) (stream : Fields) : Type 0 where
      pub before : List Json
      pub after : List Json
      pub split : l ≡ before ++ object stream ∷ after
      pub none_before : any is_video_stream before ≡ false
      pub video : is_video stream ≡ true

    behind :
        (v : Json) (l : List Json) (stream : Fields)
        → is_video_stream v ≡ false
        → IsFirst l stream
        → IsFirst (v ∷ l) stream
    behind v l stream other first = record {
      before = v ∷ first.before;
      after = first.after;
      split = ap (λ t. v ∷ t) first.split;
      none_before = rw (other, first.none_before);
      video = first.video;
    }

    first_video-some :
        (l : List Json) (stream : Fields)
        → first_video ops numbers l ≡ some stream
        → IsFirst l stream
    unfolding first_video
    first_video-some [] stream h = absurd (cc)
    first_video-some (object fs ∷ l) stream h = elim (Bool-cases (is_video fs)) [
      | inl here ↦
          let same : fs ≡ stream = some-injective fs stream (rw here at h) in
          record {
            before = [];
            after = l;
            split = ap (λ t. object t ∷ l) same;
            none_before = refl;
            video = subst (λ x. is_video x ≡ true) same here;
          }
      | inr there ↦ behind (object fs) l stream there (first_video-some l stream (rw there at h))
    ]
    first_video-some (null ∷ l) stream h = behind (null) l stream refl (first_video-some l stream h)
    first_video-some (bool b ∷ l) stream h =
        behind (bool b) l stream refl (first_video-some l stream h)
    first_video-some (int z ∷ l) stream h =
        behind (int z) l stream refl (first_video-some l stream h)
    first_video-some (float x ∷ l) stream h =
        behind (float x) l stream refl (first_video-some l stream h)
    first_video-some (string t ∷ l) stream h =
        behind (string t) l stream refl (first_video-some l stream h)
    first_video-some (array t ∷ l) stream h =
        behind (array t) l stream refl (first_video-some l stream h)

    -- How the reading of a payload ends: with an error if its streams are no list, with another if none of
    -- them is a video's, or else with the metadata of the first such stream or an OverflowError.
    pub data Ending (payload : Fields) (out : Outcome VideoMetadata) : Type 0 where
      no_list :
          ((l : Items) → got (get_field "streams" payload) ≢ array l)
          → out ≡ raised (app (video_probe_error "ffprobe response missing streams"))
          → Ending payload out
      no_video :
          (l : Items)
          → got (get_field "streams" payload) ≡ array l
          → any is_video_stream (items l) ≡ false
          → out ≡ raised (app no_video_stream_error)
          → Ending payload out
      some_video :
          (l : Items) (stream : Fields)
          → got (get_field "streams" payload) ≡ array l
          → IsFirst (items l) stream
          → Answers (IsRead stream (dict_or_empty ops numbers (get_field "format" payload))) out
          → Ending payload out

    list-Ending :
        (payload : Fields) (l : Items)
        → got (get_field "streams" payload) ≡ array l
        → Ending payload (of_streams ops numbers job_id video_id payload (array l))
    list-Ending payload l given = elim (Option-cases (first_video ops numbers (items l))) [
      | inl nothing ↦ rw nothing (no_video l given (first_video-none (items l) nothing) refl)
      | inr (stream, found) ↦ rw found (
          some_video l stream given (first_video-some (items l) stream found)
            (metadata_of-IsRead stream _))
    ]

    streams-Ending :
        (payload : Fields) (v : Json)
        → got (get_field "streams" payload) ≡ v
        → Ending payload (of_streams ops numbers job_id video_id payload v)
    streams-Ending payload (array l) given = list-Ending payload l given
    streams-Ending payload null given = no_list (λ l e. absurd (cc (given, e))) refl
    streams-Ending payload (bool b) given = no_list (λ l e. absurd (cc (given, e))) refl
    streams-Ending payload (int z) given = no_list (λ l e. absurd (cc (given, e))) refl
    streams-Ending payload (float x) given = no_list (λ l e. absurd (cc (given, e))) refl
    streams-Ending payload (string t) given = no_list (λ l e. absurd (cc (given, e))) refl
    streams-Ending payload (object fs) given = no_list (λ l e. absurd (cc (given, e))) refl

    -- If `float` and `int` raise nothing but TypeError, ValueError and OverflowError, an answer of ffprobe is refused if its streams are no list, or if none of them is a video's; else the first video stream gives the job's metadata or an OverflowError: its width, height and rate, its duration or else that of the format or zero, its codec if it names one, and no frames yet. No other error is raised, and nothing is divided by zero.
    pub parse_ffprobe_metadata-Ending :
        (payload : Fields)
        → Ending payload (parse_ffprobe_metadata ops numbers job_id video_id payload)
    unfolding parse_ffprobe_metadata
    parse_ffprobe_metadata-Ending payload =
        streams-Ending payload (got (get_field "streams" payload)) refl
