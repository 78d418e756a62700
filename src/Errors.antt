-- ===== src/Errors.antt =====
-- app/errors/base.py and app/errors/video.py: the application's exceptions, the exceptions of the
-- libraries that the program tells apart, and the result of a call that may raise.
pub mod Codes
use ansuman_nsfw_detection_s.Base.{ℕ, String, ◌≡◌}
use ansuman_nsfw_detection_s.Base.Text.{str}
use ansuman_nsfw_detection_s.Errors.Codes
use Prim.Native.String.{◌++◌ as text_append}

pub record AppError : Type 0 where
  pub code : String
  pub message : String
  pub status_code : ℕ

-- `AppError(code, message)`: the default of `status_code` is 400.
abbrev pub bad_request : String → String → AppError
bad_request code message = record { code = code; message = message; status_code = 400 }

-- The subclasses of app/errors/video.py.
abbrev pub empty_video_download_error : AppError
empty_video_download_error =
    bad_request Codes.video_download_empty "video download returned no bytes"

abbrev pub video_too_large_error : ℕ → AppError
video_too_large_error bytes_written =
    bad_request Codes.video_too_large
      (text_append "video exceeded max size after " (text_append (str bytes_written) " bytes"))

abbrev pub no_video_stream_error : AppError
no_video_stream_error = bad_request Codes.video_no_stream "video has no usable video stream"

abbrev pub video_probe_error : String → AppError
video_probe_error message = bad_request Codes.video_probe_failed message

abbrev pub video_extraction_error : String → AppError
video_extraction_error message = bad_request Codes.video_extraction_failed message

-- An exception, by the classes that some handler tells apart. `timeout` is a subclass of
-- httpx.TimeoutException, which is a RequestError; `request` is any other httpx.RequestError;
-- `other` is any other class. A class that a handler names by `__class__.__name__` carries its
-- name, and the text is `str(exc)`.
pub data PyException : Type 0 where
  app : AppError → PyException
  http_status : ℕ → String → PyException
  timeout request other : String → String → PyException
  max_connections redis_connection redis_timeout : String → PyException

pub data Outcome {ℓ} (A : Type ℓ) : Type ℓ where
  ok : A → Outcome A
  raised : PyException → Outcome A

infixl 5 ◌>>=◌ ◌>>◌
abbrev pub ◌>>=◌ {ℓ κ} : {A : Type ℓ} {B : Type κ} → Outcome A → (A → Outcome B) → Outcome B
ok a >>= f = f a
raised e >>= f = raised e

abbrev pub ◌>>◌ {ℓ κ} : {A : Type ℓ} {B : Type κ} → Outcome A → Outcome B → Outcome B
m >> k = m >>= λ _. k

-- What `ok` holds is determined by the result.
pub ok-injective {ℓ} : {A : Type ℓ} {a b : A} → ◌≡◌ {A = Outcome A} (ok a) (ok b) → a ≡ b
ok-injective e = cc

-- exc.__class__.__name__; the subclasses of AppError are never asked for theirs.
unfoldable pub class_name : PyException → String
class_name (app e) = "AppError"
class_name (http_status status text) = "HTTPStatusError"
class_name (timeout name text) = name
class_name (request name text) = name
class_name (other name text) = name
class_name (max_connections text) = "MaxConnectionsError"
class_name (redis_connection text) = "ConnectionError"
class_name (redis_timeout text) = "TimeoutError"

-- str(exc)
unfoldable pub text_of : PyException → String
text_of (app e) = e.message
text_of (http_status status text) = text
text_of (timeout name text) = text
text_of (request name text) = text
text_of (other name text) = text
text_of (max_connections text) = text
text_of (redis_connection text) = text
text_of (redis_timeout text) = text
