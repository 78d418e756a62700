-- ===== src/Gpu/Batch.antt =====
-- What a moderated batch is.
use ansuman_nsfw_detection_s.Base.{
  ℕ, zero, suc, ◌+◌, ◌≡◌, refl, inl, inr, String, Option, none, some, List, [], ◌∷◌, map, ◌==◌,
  ==_iff, length, arith, Bool-cases, Option-cases,
}
use ansuman_nsfw_detection_s.Float.{FloatOps}
use ansuman_nsfw_detection_s.Settings.{Settings}
use ansuman_nsfw_detection_s.Base.Int.{pos, ltb_ℤ}
use ansuman_nsfw_detection_s.Errors.{
  PyException, app, http_status, timeout, request, other, max_connections, redis_connection,
  redis_timeout, Outcome, ok, raised,
}
use ansuman_nsfw_detection_s.Json.{Json, null, bool, int, float, string, items, array, object}
use ansuman_nsfw_detection_s.Models.{FrameModerationResult}
use ansuman_nsfw_detection_s.Frames.{ExtractedFrame}
use ansuman_nsfw_detection_s.ModelOutput.{
  RawFrame, FrameModerationOutput, validate_frame, validate_output, overall_severity, is_nsfw,
}
use ansuman_nsfw_detection_s.ModelOutput.Checks.{IsChecked, validate_output_sound}
use ansuman_nsfw_detection_s.ModelOutput.Extraction.{Decoder, load_model_json}
use ansuman_nsfw_detection_s.ModelOutput.Parsing.{
  Reader, parse_visual_batch_response, read_frames, with_frame, validated, counted, read_batch,
  in_front,
}
use ansuman_nsfw_detection_s.Gpu
use ansuman_nsfw_detection_s.Gpu.{
  GpuModerationService, built, parsed_frames, moderate_frames, moderate_frame_batch, retry,
  after_attempt, raise_model_failure, max_attempts, to_results, to_frame_moderation_result,
}

-- Where an answer comes from: an item of JSON is read as a raw frame, which the validators pass.
pub record IsFrom (reader : Reader) (f : FrameModerationOutput) : Type 0 where
  pub item : Json
  pub raw : RawFrame
  pub was_read : reader.read_frame item ≡ some raw
  pub passed : validate_frame raw ≡ some f
  pub checked : IsChecked raw.output f.output

-- The answers to frames, numbered from an index on, each of them validated.
abbrev pub Answers : Reader → ℕ → List FrameModerationOutput → Type 0
Answers reader index [] = Unit
Answers reader index (f ∷ fs) =
    (f.frame_index ≡ index) × IsFrom reader f × Answers reader (index + 1) fs

-- An outcome that is no result, or a list with the property.
abbrev pub IfOk : {A : Type 0} → (A → Type 0) → Outcome A → Type 0
IfOk P (ok a) = P a
IfOk P (raised x) = Unit

validate_frame-IsChecked :
    (raw : RawFrame) (f : FrameModerationOutput)
    → validate_frame raw ≡ some f
    → IsChecked raw.output f.output
unfolding validate_frame
validate_frame-IsChecked raw f h = elim (Option-cases (validate_output raw.output)) [
  | inl bad ↦ absurd (ground (arith, bad))
  | inr (o, good) ↦
      let same : f.output ≡ o = ground (arith, good) in
      rw (same) (validate_output_sound raw.output o good)
]

module _ (reader : Reader) where
  front-Answers :
      (index n : ℕ) (f : FrameModerationOutput) (rest : Outcome (List FrameModerationOutput))
      → f.frame_index ≡ index
      → IsFrom reader f
      → IfOk (λ fs. Answers reader (index + 1) fs × (length fs ≡ n)) rest
      → IfOk (λ fs. Answers reader index fs × (length fs ≡ suc n)) (in_front f rest)
  front-Answers index n f (raised x) named checked h = tt
  front-Answers index n f (ok fs) named checked (answers, count) =
      ((named, checked, answers), omega arith)

  with_frame-Answers :
      (index n : ℕ) (frame : Option FrameModerationOutput)
      (rest : Outcome (List FrameModerationOutput))
      → ((f : FrameModerationOutput) → frame ≡ some f → IsFrom reader f)
      → IfOk (λ fs. Answers reader (index + 1) fs × (length fs ≡ n)) rest
      → IfOk
          (λ fs. Answers reader index fs × (length fs ≡ suc n))
          (with_frame reader index frame rest)
  with_frame-Answers index n none rest checked h = tt
  with_frame-Answers index n (some f) rest checked h = elim (Bool-cases (f.frame_index == index)) [
    | inl same ↦
        rw (same)
          (front-Answers index n f rest ((==_iff f.frame_index index).0 same) (checked f refl) h)
    | inr ne ↦ rw (ne) tt
  ]

  validated-IsFrom :
      (item : Json) (raw : Option RawFrame) (f : FrameModerationOutput)
      → reader.read_frame item ≡ raw
      → validated reader raw ≡ some f
      → IsFrom reader f
  validated-IsFrom item none f e h = absurd (ground arith)
  validated-IsFrom item (some raw) f e h = record {
    item = item;
    raw = raw;
    was_read = e;
    passed = h;
    checked = validate_frame-IsChecked raw f h;
  }

  read_frames-Answers :
      (index : ℕ) (values : List Json)
      → IfOk
          (λ fs. Answers reader index fs × (length fs ≡ length values))
          (read_frames reader index values)
  unfolding read_frames
  read_frames-Answers index [] = (tt, refl)
  read_frames-Answers index (v ∷ vs) =
      with_frame-Answers index (length vs) (validated reader (reader.read_frame v))
        (read_frames reader (index + 1) vs)
        (λ f h. validated-IsFrom v (reader.read_frame v) f refl h)
        (read_frames-Answers (index + 1) vs)

  counted-Answers :
      (n : ℕ) (payload : Json)
      → IfOk (λ fs. Answers reader 0 fs × (length fs ≡ n)) (counted reader n payload)
  counted-Answers n (array values) = elim (Bool-cases (length (items values) == n)) [
    | inl same ↦
        rw (same)
          (rw (← (==_iff (length (items values)) n).0 same) (read_frames-Answers 0 (items values)))
    | inr ne ↦ rw (ne) tt
  ]
  counted-Answers n null = tt
  counted-Answers n (bool b) = tt
  counted-Answers n (int i) = tt
  counted-Answers n (float f) = tt
  counted-Answers n (string s) = tt
  counted-Answers n (object fs) = tt

  read_batch-Answers :
      (n : ℕ) (r : Outcome Json)
      → IfOk (λ fs. Answers reader 0 fs × (length fs ≡ n)) (read_batch reader n r)
  read_batch-Answers n (raised x) = tt
  read_batch-Answers n (ok payload) = counted-Answers n _

  -- Whatever the model answers, the frames that are read from it are as many as were asked for, numbered
  -- from 0 in their order, and each has passed the validators.
  pub parse_visual_batch_response_sound :
      (decoder : Decoder) (text : String) (n : ℕ)
      → IfOk
          (λ fs. Answers reader 0 fs × (length fs ≡ n))
          (parse_visual_batch_response reader decoder text n)
  unfolding parse_visual_batch_response
  parse_visual_batch_response_sound decoder text n =
      read_batch-Answers n (load_model_json decoder text)

-- The result of a frame is about that frame, and tells the validated answer of the given number.
pub record Judged (reader : Reader) (dump : FrameModerationOutput → Json) (number : ℕ)
    (frame : ExtractedFrame) (r : FrameModerationResult) : Type 0 where
  pub index : r.frame_index ≡ frame.frame_index
  pub timestamp : r.frame_timestamp_seconds ≡ frame.timestamp_seconds
  pub answer : FrameModerationOutput
  pub numbered : answer.frame_index ≡ number
  pub source : IsFrom reader answer
  pub top : r.top_category ≡ answer.output.top_category
  pub scores : r.categories ≡ answer.output.categories
  pub reason : r.reason ≡ answer.output.reason
  pub verdict : r.is_nsfw ≡ is_nsfw answer.output
  pub severity : r.overall_severity ≡ overall_severity answer.output
  pub response : r.raw_response ≡ dump answer

-- The results are those of the frames in order, by the answers that are numbered from an index on.
abbrev pub Moderated :
    Reader
    → (FrameModerationOutput → Json)
    → ℕ
    → List ExtractedFrame
    → List FrameModerationResult
    → Type 0
Moderated reader dump number [] [] = Unit
Moderated reader dump number [] (r ∷ rs) = ⊥
Moderated reader dump number (f ∷ fs) [] = ⊥
Moderated reader dump number (f ∷ fs) (r ∷ rs) =
    Judged reader dump number f r × Moderated reader dump (number + 1) fs rs

cons-Moderated :
    (reader : Reader) (dump : FrameModerationOutput → Json) (number : ℕ) (frame : ExtractedFrame)
    (frames : List ExtractedFrame) (r : FrameModerationResult)
    (rs : Outcome (List FrameModerationResult))
    → Judged reader dump number frame r
    → IfOk (Moderated reader dump (number + 1) frames) rs
    → IfOk (Moderated reader dump number (frame ∷ frames)) (Gpu.in_front r rs)
cons-Moderated reader dump number frame frames r (raised x) j h = tt
cons-Moderated reader dump number frame frames r (ok rs) j h = (j, h)

to_results-Moderated :
    (reader : Reader) (dump : FrameModerationOutput → Json) (index : ℕ)
    (frames : List ExtractedFrame) (parsed : List FrameModerationOutput)
    → Answers reader index parsed
    → length parsed ≡ length frames
    → IfOk (Moderated reader dump index frames) (to_results dump frames parsed)
unfolding to_results to_frame_moderation_result
to_results-Moderated reader dump index [] [] a n = tt
to_results-Moderated reader dump index (f ∷ fs) [] a n = absurd (omega arith)
to_results-Moderated reader dump index [] (p ∷ ps) a n = tt
to_results-Moderated reader dump index (f ∷ fs) (p ∷ ps) (named, source, a) n =
    cons-Moderated reader dump index f fs _ (to_results dump fs ps)
      (record {
        index = refl;
        timestamp = refl;
        answer = p;
        numbered = named;
        source = source;
        top = refl;
        scores = refl;
        reason = refl;
        verdict = refl;
        severity = refl;
        response = refl;
      })
      (to_results-Moderated reader dump (index + 1) fs ps a (omega arith))

raise_model_failure-IfOk :
    {A : Type 0} (P : A → Type 0) (x : PyException) → IfOk P (raise_model_failure {A = A} x)
unfolding raise_model_failure
raise_model_failure-IfOk P (app a) = tt
raise_model_failure-IfOk P (http_status n t) = tt
raise_model_failure-IfOk P (timeout c t) = tt
raise_model_failure-IfOk P (request c t) = tt
raise_model_failure-IfOk P (other c t) = tt
raise_model_failure-IfOk P (max_connections t) = tt
raise_model_failure-IfOk P (redis_connection t) = tt
raise_model_failure-IfOk P (redis_timeout t) = tt

module _ {E : Type 0} (float : FloatOps) (settings : Settings)
    (service : GpuModerationService E) where
  built-Moderated :
      (frames : List ExtractedFrame) (r : Outcome (List FrameModerationOutput))
      → IfOk (λ fs. Answers service.reader 0 fs × (length fs ≡ length frames)) r
      → IfOk
          (Moderated service.reader service.model_dump 0 frames)
          (built float settings service frames r)
  built-Moderated frames (raised x) h = tt
  built-Moderated frames (ok parsed) (a, n) =
      to_results-Moderated service.reader service.model_dump 0 frames parsed a n

  parsed_frames-Moderated :
      (frames : List ExtractedFrame) (r : Outcome String × E)
      → IfOk
          (Moderated service.reader service.model_dump 0 frames)
          (parsed_frames float settings service frames r).0
  parsed_frames-Moderated frames (raised x, e) = tt
  parsed_frames-Moderated frames (ok text, e) =
      built-Moderated frames
        (parse_visual_batch_response service.reader service.decoder text (length frames))
        (parse_visual_batch_response_sound service.reader service.decoder text (length frames))

  moderate_frames-Moderated :
      (prompt : String) (frames : List ExtractedFrame) (e : E)
      → IfOk
          (Moderated service.reader service.model_dump 0 frames)
          (moderate_frames float settings service prompt frames e).0
  unfolding moderate_frames
  moderate_frames-Moderated prompt frames e =
      parsed_frames-Moderated frames
        (service.moderate_images prompt (map (λ (f : ExtractedFrame). f.path) frames) e)

  module _ (operation message : String) (attempts : ℕ) (prompt : String)
      (frames : List ExtractedFrame) where
    after_attempt-Moderated :
        (attempt : ℕ) (r : Outcome (List FrameModerationResult) × E)
        (again : PyException → E → Outcome (List FrameModerationResult) × E)
        → IfOk (Moderated service.reader service.model_dump 0 frames) r.0
        → ((x : PyException) (e : E)
            → IfOk (Moderated service.reader service.model_dump 0 frames) (again x e).0)
        → IfOk
            (Moderated service.reader service.model_dump 0 frames)
            (after_attempt float settings service operation message attempts
              (moderate_frames float settings service prompt frames)
              attempt
              r
              again).0
    after_attempt-Moderated attempt (ok rs, e) again h rest = h
    after_attempt-Moderated attempt (raised x, e) again h rest = rest x _

    retry-Moderated :
        (n attempt : ℕ) (last : Option PyException) (e : E)
        → IfOk
            (Moderated service.reader service.model_dump 0 frames)
            (retry float settings service operation message attempts
              (moderate_frames float settings service prompt frames)
              n
              attempt
              last
              e).0
    unfolding retry raise_model_failure
    retry-Moderated zero attempt none e = tt
    retry-Moderated zero attempt (some x) e =
        raise_model_failure-IfOk (Moderated service.reader service.model_dump 0 frames) x
    retry-Moderated (suc n) attempt last e =
        after_attempt-Moderated attempt (moderate_frames float settings service prompt frames e) _
          (moderate_frames-Moderated prompt frames e)
          (λ x e'. retry-Moderated n (attempt + 1) (some x) e')

  -- Whatever the model answers and however many attempts it takes, a batch that is moderated has one
  -- result for each frame, in order: the result of the n-th frame has the frame's index and time, and the
  -- fields and the dump of an answer numbered n, from 0 on, which is an item of JSON that
  -- was read and has passed the validators.
  pub moderate_frame_batch_sound :
      (frames : List ExtractedFrame) (e : E)
      → IfOk
          (Moderated service.reader service.model_dump 0 frames)
          (moderate_frame_batch float settings service frames e).0
  unfolding moderate_frame_batch
  moderate_frame_batch_sound [] e = tt
  moderate_frame_batch_sound (f ∷ fs) e =
      elim (Bool-cases (ltb_ℤ settings.frame_batch_size (pos (length (f ∷ fs))))) [
        | inl large ↦ rw (large) tt
        | inr fits ↦ rw (fits) (
            retry-Moderated "visual_batch" _ (max_attempts settings.gpu_max_attempts)
              service.visual_prompt (f ∷ fs) (max_attempts settings.gpu_max_attempts) 1 none e)
      ]
