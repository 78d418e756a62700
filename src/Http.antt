-- ===== src/Http.antt =====
-- app/errors/http.py, and what app/main.py registers there: an exception that a route lets through
-- becomes a response. The report to Sentry is a parameter.
use ansuman_nsfw_detection_s.Base.{
  ℕ, String, Bool, false, List, [], ◌∷◌, ◌&&◌, ◌||◌, any, str_eq, leb, if◌then◌else◌,
}
use ansuman_nsfw_detection_s.Base.Text.{str}
use ansuman_nsfw_detection_s.Errors.Codes
use ansuman_nsfw_detection_s.Errors.{Outcome, ok, raised, AppError, PyException, app}
use ansuman_nsfw_detection_s.Json.{Json, end, field, string, object}

pub record Response : Type 0 where
  pub status_code : ℕ
  pub content : Json

-- {"error": {"code": code, "message": message}}
unfoldable pub error_content : String → String → Json
error_content code message =
    object (
      field "error" (object (field "code" (string code) (field "message" (string message) end)))
        end)

abbrev pub error_response : ℕ → String → String → Response
error_response status code message = record {
  status_code = status;
  content = error_content code message;
}

-- The method and the path of the request.
pub record Target : Type 0 where
  pub method : String
  pub path : String

-- An error of a request's validation: where it is, and of which type.
pub record RequestError : Type 0 where
  pub location : List String
  pub error_type : String

-- `capture_exception` with the tags and the context that the handler gives it.
module _ {E : Type 0}
    (capture : PyException → List (String × String) → List (String × String) → E → E)
    (lower : String → String) where
  unfoldable pub app_error_handler : Target → AppError → E → Response × E
  app_error_handler target e w =
      let tags =
        ("component", "api") ∷ ("error_code", e.code) ∷ ("http_status", str e.status_code) ∷ [] in
      let context =
        ("method", target.method)
        ∷ ("path", target.path)
        ∷ ("error_code", e.code)
        ∷ ("error_message", e.message)
        ∷ [] in
      let w' = if leb 500 e.status_code then capture (app e) tags context w else w in
      (error_response e.status_code e.code e.message, w')

  unfoldable pub http_error_handler : ℕ → String → E → Response × E
  http_error_handler status detail w = (error_response status (str status) detail, w)

  unfoldable pub validation_error_handler : String → E → Response × E
  validation_error_handler text w = (error_response 422 Codes.validation_error text, w)

  -- An error says that an authentication header is missing.
  abbrev pub is_missing_auth : RequestError → Bool
  is_missing_auth e = missing_header e.location e.error_type
    where
      missing_header : List String → String → Bool
      missing_header (place ∷ name ∷ rest) kind =
          str_eq place "header"
          && (str_eq kind "missing"
              && (str_eq (lower name) "x-internal-timestamp"
                  || str_eq (lower name) "x-internal-signature"))
      missing_header _ kind = false

  unfoldable pub request_validation_error_handler : List RequestError → String → E → Response × E
  request_validation_error_handler errors text w =
      if any is_missing_auth errors
      then (error_response 401 Codes.auth_missing_headers "missing internal auth headers", w)
      else (error_response 422 Codes.validation_error text, w)

  unfoldable pub unhandled_error_handler : Target → PyException → E → Response × E
  unhandled_error_handler target x w = (
    error_response 500 Codes.service_unavailable "internal server error",
    capture x (("component", "api") ∷ ("operation", "unhandled_exception") ∷ [])
        (("method", target.method) ∷ ("path", target.path) ∷ []) w,
  )

  -- The handler of an exception's class: `AppError` has its own, and `Exception` takes the others.
  unfoldable pub handle_exception : Target → PyException → E → Response × E
  unfolding app_error_handler unhandled_error_handler
  handle_exception target (app e) w = app_error_handler target e w
  handle_exception target x w = unhandled_error_handler target x w

  -- What a route's outcome is answered with: its value, by its dump and its status, or an exception's
  -- response.
  unfoldable pub respond : {A : Type 0} → Target → ℕ → (A → Json) → Outcome A × E → Response × E
  respond target status dump (ok a, w) = (record { status_code = status; content = dump a }, w)
  respond target status dump (raised x, w) = handle_exception target x w
