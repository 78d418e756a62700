-- ===== src/ModelOutput/Extraction.antt =====
-- app/schemas/model_output.py, how a JSON document is found in the text of an answer. `json.loads` and
-- `JSONDecoder.raw_decode` are parameters: with None for a JSONDecodeError, and for `raw_decode`, which
-- reads one document at a position, the position behind it.
use Prim.Native.Char.{Char, code}
use ansuman_nsfw_detection_s.Base.{
  ℕ, zero, suc, ◌+◌, ◌<◌, ◌≡◌, String, Bool, true, false, Option, none, some, leb, ◌==◌, ◌&&◌, min,
  if◌then◌else◌,
}
use ansuman_nsfw_detection_s.Base.Text.{strip}
use ansuman_nsfw_detection_s.Errors.{Outcome, ok, raised, app}
use ansuman_nsfw_detection_s.Errors.Codes
use ansuman_nsfw_detection_s.Json.{Json, array, object}

pub record Decoder : Type 0 where
  pub loads : String → Option Json
  pub raw_decode : String → ℕ → Option (Json × ℕ)

-- `s.find(c, start)`, where `i` is the position of the first character of `s`.
unfoldable pub find_from : Char → ℕ → ℕ → String → Option ℕ
find_from c i start String.[] = none
find_from c i start (String.◌∷◌ d s) =
    let rest = find_from c (i + 1) start s in
    if leb start i && code d == code c then some i else rest

-- The least of two positions that may be missing.
abbrev pub least : Option ℕ → Option ℕ → Option ℕ
least none b = b
least (some a) none = some a
least (some a) (some b) = some (min a b)

unfoldable pub next_json_start : String → ℕ → Option ℕ
unfolding find_from
next_json_start value start = least (find_from "{" 0 start value) (find_from "[" 0 start value)

-- `isinstance(payload, (dict, list))`
abbrev pub is_document : Json → Bool
is_document (array _) = true
is_document (object _) = true
is_document _ = false

abbrev pub size : String → ℕ
size String.[] = 0
size (String.◌∷◌ c s) = suc (size s)

module _ (decoder : Decoder) (text : String) where
  -- The next cursor, or None at a second document.
  abbrev pub past_extra : ℕ → Option (Json × ℕ) → Option ℕ
  past_extra next_start none = some (next_start + 1)
  past_extra next_start (some (payload, end)) = if is_document payload then none else some end

  abbrev pub continue_extra : Option ℕ → (ℕ → Bool) → Bool
  continue_extra none rest = false
  continue_extra (some cursor) rest = rest cursor

  abbrev pub step_extra : Option ℕ → (ℕ → Bool) → Bool
  step_extra none rest = true
  step_extra (some start) rest =
      continue_extra (past_extra start (decoder.raw_decode text start)) rest

  -- Whether no further document follows the cursor; the loop runs on fuel.
  unfoldable pub is_alone : ℕ → ℕ → Bool
  unfolding next_json_start
  is_alone zero cursor = false
  is_alone (suc fuel) cursor = step_extra (next_json_start text cursor) (λ c. is_alone fuel c)

  -- `_extract_single_json_document`, with None for `_MISSING_JSON`. The cursor moves on in every round,
  -- so the fuel, one more than the characters, is enough.
  abbrev pub single : Option (Json × ℕ) → Option Json
  single none = none
  single (some (payload, end)) =
      if is_document payload
      then (if is_alone (suc (size text)) end then some payload else none)
      else none

  abbrev pub first_document : Option ℕ → Option Json
  first_document none = none
  first_document (some start) = single (decoder.raw_decode text start)

  unfoldable pub extract_single_json_document : Option Json
  unfolding is_alone
  extract_single_json_document = first_document (next_json_start text 0)

  abbrev pub loaded : Option Json → Option Json → Outcome Json
  loaded (some payload) extracted = ok payload
  loaded none (some payload) = ok payload
  loaded none none = raised (
      app (record {
        code = Codes.model_response_invalid_json;
        message = "model response was not valid JSON";
        status_code = 502;
      }))

-- `raw_response.lstrip("\ufeff")`
unfoldable pub lstrip_marks : String → String
lstrip_marks String.[] = String.[]
lstrip_marks (String.◌∷◌ c s) =
    let rest = lstrip_marks s in if code c == 65279 then rest else String.◌∷◌ c s

unfoldable pub load_model_json : Decoder → String → Outcome Json
unfolding lstrip_marks extract_single_json_document
load_model_json decoder raw_response =
    let candidate = strip (lstrip_marks raw_response) in
    loaded decoder candidate (decoder.loads candidate)
      (extract_single_json_document decoder candidate)

-- What the loop relies on: `raw_decode` reads at least one character.
abbrev pub Progress : Decoder → String → Type 0
Progress decoder text =
    (start : ℕ) (payload : Json) (end : ℕ)
    → decoder.raw_decode text start ≡ some (payload, end)
    → start < end
