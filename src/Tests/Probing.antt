-- ===== src/Tests/Probing.antt =====
-- The theorem on ffprobe's answers at a concrete input.
use ansuman_nsfw_detection_s.Base.{
  refl, inl, inr, Bool-cases, if◌then◌else◌, String, none, some, str_eq,
}
use ansuman_nsfw_detection_s.Base.Int.{ℤ, pos}
use ansuman_nsfw_detection_s.Errors.{Outcome, ok, raised, other, class_name}
use ansuman_nsfw_detection_s.Float.{Double}
use ansuman_nsfw_detection_s.Json.{
  Json, null, bool, int, float, string, array, object, nil, cons, Fields, end, field,
}
use ansuman_nsfw_detection_s.Frames.Probe.{Numbers, or_none, parse_ffprobe_metadata}
use ansuman_nsfw_detection_s.Frames.Probe.Rates.{Readable, Total, value, overflow}
use ansuman_nsfw_detection_s.Frames.Probe.Metadata.{Ending, parse_ffprobe_metadata-Ending}
use ansuman_nsfw_detection_s.Tests.Fixtures.{thousandths}

-- `float` of texts that are "30" or "1", `int` of integers; a float is too large for `int`.
abbrev float_of : Json → Outcome Double
float_of (string s) =
    if str_eq s "30"
    then ok (thousandths.of_int 30)
    else if str_eq s "1"
    then ok (thousandths.of_int 1)
    else raised (other "ValueError" s)
float_of (float x) = ok x
float_of _ = raised (other "TypeError" "float")

abbrev int_of : Json → Outcome ℤ
int_of (int z) = ok z
int_of (float x) = raised (other "OverflowError" "int")
int_of _ = raised (other "TypeError" "int")

abbrev numbers : Numbers
numbers = record { float_of = float_of; int_of = int_of; str_of = λ v. "text" }

texts_readable : (s : String) → Total (or_none (float_of (string s)))
unfolding class_name
texts_readable s = elim (Bool-cases (str_eq s "30")) [
  | inl thirty ↦ rw thirty (value _ tt refl)
  | inr unlike ↦ elim (Bool-cases (str_eq s "1")) [
    | inl unit ↦ rw (unlike, unit) (value _ tt refl)
    | inr other_text ↦ rw (unlike, other_text) (value _ tt refl)
  ]
]

floats_readable : (v : Json) → Total (or_none (float_of v))
unfolding class_name
floats_readable (string s) = texts_readable s
floats_readable null = value none tt refl
floats_readable (bool b) = value none tt refl
floats_readable (int z) = value none tt refl
floats_readable (float x) = value (some x) tt refl
floats_readable (array l) = value none tt refl
floats_readable (object fs) = value none tt refl

ints_readable : (v : Json) → Total (or_none (int_of v))
unfolding class_name
ints_readable (int z) = value (some z) tt refl
ints_readable (float x) = overflow _ refl refl
ints_readable null = value none tt refl
ints_readable (bool b) = value none tt refl
ints_readable (string s) = value none tt refl
ints_readable (array l) = value none tt refl
ints_readable (object fs) = value none tt refl

numbers-Readable : Readable numbers
numbers-Readable = record { floats = floats_readable; ints = ints_readable }

-- A sound stream before a video's.
abbrev payload : Fields
payload =
    field "streams"
      (array (
        cons (object (field "codec_type" (string "audio") end)) (
          cons
            (object (
              field "codec_type" (string "video")
                (field "width" (int (pos 640)) (field "avg_frame_rate" (string "30/1") end))))
            nil)))
      end

parse_ffprobe_metadata-Ending_example :
    Ending thousandths numbers numbers-Readable "job" "video" payload
      (parse_ffprobe_metadata thousandths numbers "job" "video" payload)
parse_ffprobe_metadata-Ending_example =
    parse_ffprobe_metadata-Ending thousandths numbers numbers-Readable "job" "video" payload
