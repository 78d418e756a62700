-- ===== src/Auth.antt =====
-- app/core/security.py and app/services/auth_service.py: signed requests. The two digests of the
-- standard library, in hexadecimal, and `str.upper` are parameters. A body is a value of the type
-- `Bytes`. `hmac.compare_digest` compares texts, here of hexadecimal digits.
pub mod Signed
use Prim.Native.String.{◌++◌ as text_append}
use Prim.Native.Char.{Char, code}
use ansuman_nsfw_detection_s.Base.{
  ℕ, zero, suc, ◌+◌, String, Bool, true, false, not, ◌&&◌, ◌||◌, Option, none, some, List, [], ◌∷◌,
  str_eq, leb, ◌==◌, any, select, if◌then◌else◌,
}
use ansuman_nsfw_detection_s.Base.Int.{ℤ, pos, ◌-ℤ◌, nat_abs, ltb_ℤ}
use ansuman_nsfw_detection_s.Base.Text.{int_of}
use ansuman_nsfw_detection_s.Settings.{Settings, internal_request_secret, truthy}
use ansuman_nsfw_detection_s.Errors.Codes
use ansuman_nsfw_detection_s.Errors.{AppError, app, Outcome, ok, raised}

-- The digests: of a body, and of a message under a secret.
pub record Digests (Bytes : Type 0) : Type 0 where
  pub sha256_hexdigest : Bytes → String
  pub hmac_sha256_hexdigest : String → String → String
  pub upper : String → String

abbrev pub signature_hex_length : ℕ
signature_hex_length = 64

-- `character in HEX_DIGITS`
abbrev pub is_hex_digit : Char → Bool
is_hex_digit c =
    leb 48 (code c) && leb (code c) 57
    || leb 65 (code c) && leb (code c) 70
    || leb 97 (code c) && leb (code c) 102

-- The length of a text, and a test of its characters.
unfoldable pub text_length : String → ℕ
text_length String.[] = 0
text_length (String.◌∷◌ c s) = suc (text_length s)

unfoldable pub all_characters : (Char → Bool) → String → Bool
all_characters p String.[] = true
all_characters p (String.◌∷◌ c s) = p c && all_characters p s

unfoldable pub signature_has_valid_shape : String → Bool
unfolding text_length all_characters
signature_has_valid_shape signature =
    text_length signature == signature_hex_length && all_characters is_hex_digit signature

module _ {Bytes : Type 0} (digests : Digests Bytes) where
  abbrev lines : List String → String
  lines [] = ""
  lines (s ∷ []) = s
  lines (s ∷ t ∷ ts) = text_append s (text_append "\n" (lines (t ∷ ts)))

  unfoldable pub build_signature_message : String → String → String → Bytes → String
  build_signature_message timestamp method path body =
      lines (timestamp ∷ digests.upper method ∷ path ∷ digests.sha256_hexdigest body ∷ [])

  unfoldable pub sign_request : String → String → String → String → Bytes → String
  unfolding build_signature_message
  sign_request secret timestamp method path body =
      digests.hmac_sha256_hexdigest secret (build_signature_message timestamp method path body)

  unfoldable pub verify_signature : String → String → String → String → Bytes → String → Bool
  unfolding signature_has_valid_shape sign_request
  verify_signature secret timestamp method path body signature =
      if not (signature_has_valid_shape signature)
      then false
      else str_eq (sign_request secret timestamp method path body) signature

abbrev pub timestamp_header : String
timestamp_header = "x-internal-timestamp"

abbrev pub signature_header : String
signature_header = "x-internal-signature"

pub record SignedRequestContext : Type 0 where
  pub timestamp : ℤ

-- Every refusal has the status 401.
abbrev pub refused : String → String → Outcome SignedRequestContext
refused code message = raised (app (record { code = code; message = message; status_code = 401 }))

-- `headers.get`
abbrev pub Headers : Type 0
Headers = String → Option String

module _ {Bytes : Type 0} (digests : Digests Bytes) (settings : Settings) (now : ℤ) where
  abbrev pub checked_signature :
      String → String → String → ℤ → String → String → Bytes → Outcome SignedRequestContext
  checked_signature secret timestamp_raw signature timestamp method path body =
      if ltb_ℤ settings.internal_request_max_skew_sec (pos (nat_abs (now -ℤ timestamp)))
      then refused Codes.auth_timestamp_out_of_range "stale internal request timestamp"
      else if not (verify_signature digests secret timestamp_raw method path body signature)
      then refused Codes.auth_bad_signature "invalid internal signature"
      else ok (record { timestamp = timestamp })

  abbrev pub checked_timestamp :
      String → String → String → Option ℤ → String → String → Bytes → Outcome SignedRequestContext
  checked_timestamp secret timestamp_raw signature none method path body =
      refused Codes.auth_bad_timestamp "timestamp must be unix seconds"
  checked_timestamp secret timestamp_raw signature (some timestamp) method path body =
      checked_signature secret timestamp_raw signature timestamp method path body

  abbrev pub checked_secret :
      Option String → String → String → String → String → Bytes → Outcome SignedRequestContext
  checked_secret none timestamp_raw signature method path body =
      refused Codes.auth_bad_signature "invalid internal signature"
  checked_secret (some secret) timestamp_raw signature method path body =
      checked_timestamp secret timestamp_raw signature (int_of timestamp_raw) method path body

  -- The two headers, of which neither may be missing or empty.
  abbrev pub checked_headers :
      Option String → Option String → String → String → Bytes → Outcome SignedRequestContext
  checked_headers (some timestamp_raw) (some signature) method path body =
      if str_eq timestamp_raw "" || str_eq signature ""
      then refused Codes.auth_missing_headers "missing internal auth headers"
      else checked_secret (internal_request_secret settings) timestamp_raw signature method path
          body
  checked_headers _ _ method path body =
      refused Codes.auth_missing_headers "missing internal auth headers"

  -- `AuthService.authenticate`, with `int(time.time())`
  unfoldable pub authenticate : String → String → Headers → Bytes → Outcome SignedRequestContext
  unfolding verify_signature internal_request_secret
  authenticate method path headers body =
      checked_headers (headers timestamp_header) (headers signature_header) method path body
