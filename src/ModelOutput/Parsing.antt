-- ===== src/ModelOutput/Parsing.antt =====
-- app/schemas/model_output.py, the readers of an answer. How the validation library reads the fields of a
-- frame or of a text from JSON is a parameter, with None for a ValidationError.
use Prim.Native.String.{◌++◌ as text_append}
use ansuman_nsfw_detection_s.Base.{
  ℕ, ◌+◌, String, not, ◌&&◌, Option, none, some, List, [], ◌∷◌, str_eq, ◌==◌, any, is_some, length,
  if◌then◌else◌,
}
use ansuman_nsfw_detection_s.Base.Text.{str}
use ansuman_nsfw_detection_s.Errors.Codes
use ansuman_nsfw_detection_s.Errors.{Outcome, ok, raised, app}
use ansuman_nsfw_detection_s.Json.{Json, Items, end, field, array, object, get_field, items}
use ansuman_nsfw_detection_s.ModelOutput.{
  RawOutput, RawFrame, ModerationModelOutput, FrameModerationOutput, validate_output,
  validate_frame,
}
use ansuman_nsfw_detection_s.ModelOutput.Extraction.{Decoder, load_model_json}

-- The validation library: a JSON value as the fields of a frame, or of a text.
pub record Reader : Type 0 where
  pub read_frame : Json → Option RawFrame
  pub read_output : Json → Option RawOutput

abbrev invalid_schema : {A : Type 0} → String → Outcome A
invalid_schema message = raised (
    app
      (record { code = Codes.model_response_invalid_schema; message = message; status_code = 502 }))

abbrev pub in_front :
    FrameModerationOutput
    → Outcome (List FrameModerationOutput)
    → Outcome (List FrameModerationOutput)
in_front frame (ok frames) = ok (frame ∷ frames)
in_front frame (raised x) = raised x

-- An object with one of the keys and no other stands for its value.
unfoldable pub unwrap_envelope : Json → List String → Json
unwrap_envelope (object (field key value end)) keys =
    if any (λ k. str_eq k key) keys then value else object (field key value end)
unwrap_envelope payload keys = payload

-- A single frame may come without its array.
unfoldable pub as_array : Json → ℕ → Json
unfolding get_field
as_array (object fields) expected_count =
    if expected_count == 1 && is_some (get_field "frame_index" fields)
    then array (Items.cons (object fields) Items.nil)
    else object fields
as_array payload expected_count = payload

module _ (reader : Reader) where
  abbrev pub with_frame :
      ℕ
      → Option FrameModerationOutput
      → Outcome (List FrameModerationOutput)
      → Outcome (List FrameModerationOutput)
  with_frame index none rest =
      invalid_schema (text_append "invalid frame response at index " (str index))
  with_frame index (some frame) rest =
      if frame.frame_index == index
      then in_front frame rest
      else invalid_schema "frame_index did not match response order"

  abbrev pub validated : Option RawFrame → Option FrameModerationOutput
  validated none = none
  validated (some raw) = validate_frame raw

  unfoldable pub read_frames : ℕ → List Json → Outcome (List FrameModerationOutput)
  read_frames index [] = ok []
  read_frames index (item ∷ rest) =
      with_frame index (validated (reader.read_frame item)) (read_frames (index + 1) rest)

  abbrev pub counted : ℕ → Json → Outcome (List FrameModerationOutput)
  counted expected_count (array elements) =
      if not (length (items elements) == expected_count)
      then invalid_schema "model response count did not match request count"
      else read_frames 0 (items elements)
  counted expected_count payload = invalid_schema "model response must be a JSON array"

  abbrev pub read_batch : ℕ → Outcome Json → Outcome (List FrameModerationOutput)
  read_batch expected_count (raised x) = raised x
  read_batch expected_count (ok payload) =
      counted expected_count
        (as_array (unwrap_envelope payload ("results" ∷ "frames" ∷ "result" ∷ [])) expected_count)

  unfoldable pub parse_visual_batch_response :
      Decoder → String → ℕ → Outcome (List FrameModerationOutput)
  unfolding unwrap_envelope as_array read_frames load_model_json items
  parse_visual_batch_response decoder raw_response expected_count =
      read_batch expected_count (load_model_json decoder raw_response)

  abbrev validated_text : Option RawOutput → Option ModerationModelOutput
  validated_text none = none
  validated_text (some raw) = validate_output raw

  abbrev read_text : Option ModerationModelOutput → Outcome ModerationModelOutput
  read_text none = invalid_schema "invalid text moderation response"
  read_text (some output) = ok output

  abbrev object_only : Json → Outcome ModerationModelOutput
  object_only (object fields) = read_text (validated_text (reader.read_output (object fields)))
  object_only payload = invalid_schema "text model response must be a JSON object"

  abbrev unwrapped_text : Outcome Json → Outcome ModerationModelOutput
  unwrapped_text (raised x) = raised x
  unwrapped_text (ok payload) = object_only (unwrap_envelope payload ("result" ∷ "moderation" ∷ []))

  unfoldable pub parse_text_moderation_response : Decoder → String → Outcome ModerationModelOutput
  unfolding unwrap_envelope load_model_json
  parse_text_moderation_response decoder raw_response =
      unwrapped_text (load_model_json decoder raw_response)
