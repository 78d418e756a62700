-- ===== src/Tests/Requests.antt =====
-- The theorems at concrete inputs: signed requests and buffers.
use ansuman_nsfw_detection_s.Base.{
  ◌≡◌, refl, String, true, some, List, [], ◌∷◌, ◌++◌, if◌then◌else◌, str_eq, length, drop,
}
use ansuman_nsfw_detection_s.Base.Int.{pos}
use ansuman_nsfw_detection_s.Base.Dict.{string_eq}
use ansuman_nsfw_detection_s.Errors.{ok}
use ansuman_nsfw_detection_s.Settings.{internal_request_secret}
use ansuman_nsfw_detection_s.Base.Text.{int_of}
use ansuman_nsfw_detection_s.Auth.{Digests, Headers, authenticate, verify_signature}
use ansuman_nsfw_detection_s.Auth.Signed.{
  Admitted, Right, authenticate_sound, authenticate_complete,
}
use ansuman_nsfw_detection_s.Buffer.{Buffers, contents, trim_batch, read_batch, flush_table}
use ansuman_nsfw_detection_s.Buffer.Flushing.{
  Taken, flush_table_lem, trim-read_batch, push_all, pushed,
}
use ansuman_nsfw_detection_s.Json.{Fields, end}
use ansuman_nsfw_detection_s.Tests.Fixtures.{settings, differ}

abbrev signature : String
signature = "aaaaaaaaaaaaaaaabbbbbbbbbbbbbbbbccccccccccccccccdddddddddddddddd"

abbrev digests : Digests String
digests = record {
  sha256_hexdigest = λ b. b;
  hmac_sha256_hexdigest = λ secret message. signature;
  upper = λ s. s;
}

abbrev headers : Headers
headers name = if str_eq name "x-internal-timestamp" then some "100" else some signature

authenticate_sound_example :
    Right digests settings
      (pos 150)
      "POST"
      "/v1"
      headers
      "{}"
      (authenticate digests settings (pos 150) "POST" "/v1" headers "{}")
authenticate_sound_example = authenticate_sound digests settings (pos 150) "POST" "/v1" headers "{}"

timestamp_read : int_of "100" ≡ some (pos 100)
unfolding int_of
timestamp_read = refl

signature_verified : verify_signature digests "secret" "100" "POST" "/v1" "{}" signature ≡ true
unfolding verify_signature
signature_verified = refl

secret_set : internal_request_secret settings ≡ some "secret"
unfolding internal_request_secret
secret_set = refl

abbrev signed :
    Admitted digests settings (pos 150) "POST" "/v1" headers "{}" (record { timestamp = pos 100 })
signed = record {
  timestamp_raw = "100";
  signature = signature;
  secret = "secret";
  has_timestamp = refl;
  has_signature = refl;
  has_secret = secret_set;
  is_number = timestamp_read;
  is_fresh = refl;
  is_signed = signature_verified;
}

authenticate_complete_example :
    authenticate digests settings (pos 150) "POST" "/v1" headers "{}"
    ≡ ok (record { timestamp = pos 100 })
authenticate_complete_example =
    authenticate_complete digests settings (pos 150) "POST" "/v1" headers "{}"
      (record { timestamp = pos 100 }) signed (differ "100" "" refl) (differ signature "" refl)

abbrev rows : List Fields
rows = end ∷ end ∷ []

abbrev buffers : Buffers
buffers = ("videos", rows) ∷ []

flush_table_lem_example :
    Taken {E = Unit} {Row = Fields}
      (λ f. ok f)
      (λ t rs e. (ok tt, e))
      "videos"
      "nsfw"
      1
      buffers
      tt
      (flush_table {E = Unit} {Row = Fields}
        (λ f. ok f)
        (λ t rs e. (ok tt, e))
        "videos"
        "nsfw"
        1
        buffers
        tt)
flush_table_lem_example =
    flush_table_lem {E = Unit} {Row = Fields} (λ f. ok f) (λ t rs e. (ok tt, e)) "videos" "nsfw" 1
      buffers tt

trim-read_batch_example :
    contents "videos" (
      trim_batch "videos"
        (length (read_batch "videos" 1 buffers))
        (push_all (("videos", end) ∷ []) buffers))
    ≡ drop 1 (contents "videos" buffers) ++ pushed "videos" (("videos", end) ∷ [])
trim-read_batch_example = trim-read_batch "videos" 1 (("videos", end) ∷ []) buffers
