-- ===== src/Frames/Probe.antt =====
-- app/services/frame_extraction_service.py: what is read from the answer of ffprobe, and the calls of
-- ffprobe and ffmpeg.
pub mod Rates
pub mod Metadata
use Prim.Native.Char.{Char, code}
use Prim.Native.String.{String}
use ansuman_nsfw_detection_s.Base.{
  ℕ, Bool, true, false, not, ◌&&◌, ◌||◌, Option, none, some, List, [], ◌∷◌, str_eq, ◌==◌,
  if◌then◌else◌,
}
use ansuman_nsfw_detection_s.Base.Int.{ℤ}
use ansuman_nsfw_detection_s.Float.{Double, FloatOps}
use ansuman_nsfw_detection_s.Errors.{
  Outcome, ok, raised, PyException, app, other, class_name, text_of, no_video_stream_error,
  video_probe_error, video_extraction_error, ◌>>=◌,
}
use ansuman_nsfw_detection_s.Effects
use ansuman_nsfw_detection_s.Effects.{M, lift, catching}
use ansuman_nsfw_detection_s.Settings.{Settings}
use ansuman_nsfw_detection_s.Json.{
  Json, null, bool, int, float, string, array, object, Fields, end, get_field, items, is_truthy,
}
use ansuman_nsfw_detection_s.Models.{VideoMetadata}
use ansuman_nsfw_detection_s.Frames.{ExtractedFrame, frames_from_paths, require_frames}

-- Python's `float` and `int` of a decoded value, which may raise, and `str`.
pub record Numbers : Type 0 where
  pub float_of : Json → Outcome Double
  pub int_of : Json → Outcome ℤ
  pub str_of : Json → String

-- except (TypeError, ValueError): return None
abbrev pub or_none {ℓ} : {A : Type ℓ} → Outcome A → Outcome (Option A)
or_none (ok a) = ok (some a)
or_none (raised x) =
    if str_eq (class_name x) "TypeError" || str_eq (class_name x) "ValueError"
    then ok none
    else raised x

abbrev pub is_null : Json → Bool
is_null null = true
is_null _ = false

abbrev unless_null {ℓ} : {A : Type ℓ} → (Json → Outcome A) → Json → Outcome (Option A)
unless_null read v = if is_null v then ok none else or_none (read v)

-- `dict.get(key)`, with None as null.
abbrev pub got : Option Json → Json
got none = null
got (some v) = v

abbrev in_front : Char → Option (String × String) → Option (String × String)
in_front c none = none
in_front c (some (before, rest)) = some (String.◌∷◌ c before, rest)

-- `value.split("/", 1)`, or None where "/" is not in the text.
unfoldable pub split_slash : String → Option (String × String)
split_slash String.[] = none
split_slash (String.◌∷◌ c s) =
    let later = in_front c (split_slash s) in if code c == 47 then some (String.[], s) else later

module _ (ops : FloatOps) (numbers : Numbers) where
  unfoldable pub float_or_none : Json → Outcome (Option Double)
  float_or_none v = unless_null numbers.float_of v

  unfoldable pub int_or_none : Json → Outcome (Option ℤ)
  int_or_none v = unless_null numbers.int_of v

  abbrev pub is_zero : Double → Bool
  is_zero x = ops.leb x (ops.of_int 0) && ops.leb (ops.of_int 0) x

  -- numerator / denominator
  unfoldable pub divide : Double → Double → Outcome Double
  divide a b =
      if is_zero b
      then raised (other "ZeroDivisionError" "float division by zero")
      else ok (ops.div a b)

  abbrev pub over : Double → Option Double → Outcome (Option Double)
  over b none = ok none
  over b (some a) = do r ← divide a b; ok (some r)

  abbrev pub with_denominator : String → Option Double → Outcome (Option Double)
  with_denominator numerator none = ok none
  with_denominator numerator (some b) =
      if is_zero b then ok none else (do a ← float_or_none (string numerator); over b a)

  abbrev pub rate_of_parts : String → Option (String × String) → Outcome (Option Double)
  rate_of_parts s none = float_or_none (string s)
  rate_of_parts s (some (numerator, denominator)) = do
    b ← float_or_none (string denominator)
    with_denominator numerator b

  -- `_parse_rate`
  unfoldable pub parse_rate : Json → Outcome (Option Double)
  unfolding float_or_none divide split_slash
  parse_rate (string s) =
      if str_eq s "0/0" || str_eq s "" then ok none else rate_of_parts s (split_slash s)
  parse_rate _ = ok none

  -- `isinstance(stream, dict) and stream.get("codec_type") == "video"`
  abbrev pub is_video_type : Option Json → Bool
  is_video_type (some (string s)) = str_eq s "video"
  is_video_type _ = false

  unfoldable pub first_video : List Json → Option Fields
  first_video [] = none
  first_video (object stream ∷ rest) =
      let later = first_video rest in
      if is_video_type (get_field "codec_type" stream) then some stream else later
  first_video (_ ∷ rest) = first_video rest

  -- payload.get("format") if it is a dict, else {}
  abbrev pub dict_or_empty : Option Json → Fields
  dict_or_empty (some (object fs)) = fs
  dict_or_empty _ = end

  -- a or b, on values that may be None
  abbrev pub or_else_value : Json → Json → Json
  or_else_value a b = if is_truthy ops a then a else b

  abbrev pub nonzero : Option Double → Bool
  nonzero none = false
  nonzero (some x) = not (is_zero x)

  abbrev pub or_zero : Option Double → Double
  or_zero none = ops.of_int 0
  or_zero (some x) = x

  unfoldable pub duration_of : Fields → Fields → Outcome Double
  unfolding float_or_none
  duration_of stream format = do
    a ← float_or_none (got (get_field "duration" stream))
    b ← (if nonzero a then ok a else float_or_none (got (get_field "duration" format)))
    ok (or_zero b)

  abbrev pub metadata_with :
      String → String → Fields → Double → Option ℤ → Option ℤ → Option Double → VideoMetadata
  metadata_with job_id video_id stream duration width height fps =
      let codec = got (get_field "codec_name" stream) in
      record {
        job_id = job_id;
        video_id = video_id;
        duration_seconds = duration;
        width = width;
        height = height;
        fps = fps;
        codec_name = if is_truthy ops codec then some (numbers.str_of codec) else none;
        has_video_stream = true;
        frames_extracted = 0;
      }

  -- video_stream.get("avg_frame_rate") or video_stream.get("r_frame_rate")
  abbrev pub rate_field : Fields → Json
  rate_field stream =
      or_else_value (got (get_field "avg_frame_rate" stream))
        (got (get_field "r_frame_rate" stream))

  unfoldable pub metadata_of : String → String → Fields → Fields → Outcome VideoMetadata
  unfolding duration_of int_or_none parse_rate is_truthy
  metadata_of job_id video_id stream format = do
    duration ← duration_of stream format
    width ← int_or_none (got (get_field "width" stream))
    height ← int_or_none (got (get_field "height" stream))
    fps ← parse_rate (rate_field stream)
    ok (metadata_with job_id video_id stream duration width height fps)

  abbrev pub of_stream : String → String → Fields → Option Fields → Outcome VideoMetadata
  of_stream job_id video_id payload none = raised (app no_video_stream_error)
  of_stream job_id video_id payload (some stream) =
      metadata_of job_id video_id stream (dict_or_empty (get_field "format" payload))

  abbrev pub of_streams : String → String → Fields → Json → Outcome VideoMetadata
  of_streams job_id video_id payload (array streams) =
      of_stream job_id video_id payload (first_video (items streams))
  of_streams job_id video_id payload _ =
      raised (app (video_probe_error "ffprobe response missing streams"))

  unfoldable pub parse_ffprobe_metadata : String → String → Fields → Outcome VideoMetadata
  unfolding first_video metadata_of
  parse_ffprobe_metadata job_id video_id payload =
      of_streams job_id video_id payload (got (get_field "streams" payload))
