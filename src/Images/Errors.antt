-- ===== src/Images/Errors.antt =====
-- The errors that a download of an image ends with.
use ansuman_nsfw_detection_s.Base.{
  ℕ, ◌≤◌, ◌<◌, arith, zero, suc, ◌+◌, ◌≡◌, refl, inl, inr, String, Bool, true, false, Option, none,
  some, List, leb, ltb, Bool-cases,
}
use ansuman_nsfw_detection_s.Errors.Codes
use ansuman_nsfw_detection_s.Errors.{
  PyException, app, http_status, timeout, request, other, max_connections, redis_connection,
  redis_timeout, Outcome, ok, raised,
}
use ansuman_nsfw_detection_s.Float.{FloatOps}
use ansuman_nsfw_detection_s.Settings.{Settings}
use ansuman_nsfw_detection_s.Gpu.{max_attempts}
use ansuman_nsfw_detection_s.Images.{
  ImageServices, last_failure, after_get, download_rounds, download_image_with_retries,
}

-- `httpx` raised it: one of the classes that the download catches.
abbrev pub is_caught : PyException → Bool
is_caught (http_status status text) = true
is_caught (timeout name text) = true
is_caught (request name text) = true
is_caught _ = false

-- What is reported for what the request raised in the last attempt: 504 for a time-out, 502 for the
-- host's own failure, 400 for another status or failure, and what is not caught as it is.
pub data Reported : PyException → PyException → Type 0 where
  timed_out :
      (name text message : String)
      → Reported (timeout name text) (
          app
            (record { code = Codes.image_download_timeout; message = message; status_code = 504 }))
  upstream :
      (status : ℕ) (text message : String)
      → 500 ≤ status
      → Reported (http_status status text) (
          app (record {
            code = Codes.image_download_upstream_error;
            message = message;
            status_code = 502;
          }))
  refused :
      (status : ℕ) (text message : String)
      → status < 500
      → Reported (http_status status text) (
          app (record { code = Codes.image_download_failed; message = message; status_code = 400 }))
  failed :
      (name text message : String)
      → Reported (request name text) (
          app (record { code = Codes.image_download_failed; message = message; status_code = 400 }))
  uncaught : (x : PyException) → is_caught x ≡ false → Reported x x

last_failure-Reported : (x : PyException) → is_caught x ≡ true → Reported x (last_failure (some x))
unfolding last_failure
last_failure-Reported (timeout name text) h = timed_out name text _
last_failure-Reported (http_status status text) h = elim (Bool-cases (leb 500 status)) [
  | inl server ↦ rw (server) (upstream status text _ (ground arith))
  | inr below ↦ rw (below) (refused status text _ (ground arith))
]
last_failure-Reported (request name text) h = failed name text _
last_failure-Reported (app a) h = absurd (cc)
last_failure-Reported (other name text) h = absurd (cc)
last_failure-Reported (max_connections text) h = absurd (cc)
last_failure-Reported (redis_connection text) h = absurd (cc)
last_failure-Reported (redis_timeout text) h = absurd (cc)

module _ {E : Type 0} (float : FloatOps) (settings : Settings) (s : ImageServices E)
    (image_url : String) where
  -- An attempt, in some state, ended so.
  abbrev pub Attempted : Outcome (List ℕ) → Type 0
  Attempted out = (e : E) × ((s.get image_url e).0 ≡ out)

  -- The bytes of an attempt, or what is reported for the exception of one.
  abbrev pub Explained : Outcome (List ℕ) × E → Type 0
  Explained (ok bytes, e) = Attempted (ok bytes)
  Explained (raised y, e) = (x : PyException) × Attempted (raised x) × Reported x y

  -- An attempt is left, or one has raised the last error.
  abbrev Seen : ℕ → Option PyException → Type 0
  Seen left none = 0 < left
  Seen left (some x) = (is_caught x ≡ true) × Attempted (raised x)

  after_get-Explained :
      (attempt attempts : ℕ) (r : Outcome (List ℕ) × E)
      (again : PyException → E → Outcome (List ℕ) × E)
      → Attempted r.0
      → ((x : PyException) (e : E)
          → is_caught x ≡ true
          → Attempted (raised x)
          → Explained (again x e))
      → Explained (after_get float settings s image_url attempt attempts r again)
  unfolding after_get
  after_get-Explained attempt attempts (ok bytes, e) again a h = a
  after_get-Explained attempt attempts (raised (timeout name text), e) again a h = h _ _ refl a
  after_get-Explained attempt attempts (raised (request name text), e) again a h = h _ _ refl a
  after_get-Explained attempt attempts (raised (http_status status text), e) again a h =
      elim (Bool-cases (ltb status 500)) [
        | inl client ↦
            rw (client) (http_status status text, a, refused status text _ (ground arith))
        | inr server ↦ rw (server) (h _ _ refl a)
      ]
  after_get-Explained attempt attempts (raised (app x), e) again a h = (_, a, uncaught _ refl)
  after_get-Explained attempt attempts (raised (other name text), e) again a h =
      (_, a, uncaught _ refl)
  after_get-Explained attempt attempts (raised (max_connections text), e) again a h =
      (_, a, uncaught _ refl)
  after_get-Explained attempt attempts (raised (redis_connection text), e) again a h =
      (_, a, uncaught _ refl)
  after_get-Explained attempt attempts (raised (redis_timeout text), e) again a h =
      (_, a, uncaught _ refl)

  rounds-Explained :
      (attempts left attempt : ℕ) (last : Option PyException) (e : E)
      → Seen left last
      → Explained (download_rounds float settings s image_url attempts left attempt last e)
  unfolding download_rounds
  rounds-Explained attempts zero attempt none e h = absurd (omega arith)
  rounds-Explained attempts zero attempt (some x) e (caught, a) =
      (x, a, last_failure-Reported x caught)
  rounds-Explained attempts (suc left) attempt last e h =
      after_get-Explained attempt attempts (s.get image_url e) _ (e, refl)
        (λ x e' caught a. rounds-Explained attempts left (attempt + 1) (some x) e' (caught, a))

  -- Whatever the host answers in whichever attempt, a download of an image ends with the bytes of an
  -- attempt, or with what is reported for the exception of one: 504 for a time-out, 502 for a status of 500
  -- or more, 400 for a lower one and for a request that failed, and an exception of a class that is not
  -- caught as it is.
  pub download_image_with_retries_lem :
      (e : E) → Explained (download_image_with_retries float settings s image_url e)
  unfolding download_image_with_retries
  download_image_with_retries_lem e =
      let attempts = max_attempts settings.image_download_max_attempts in
      rounds-Explained attempts attempts 1 none e (omega arith)
