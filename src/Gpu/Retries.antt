-- ===== src/Gpu/Retries.antt =====
-- How the retries end.
use ansuman_nsfw_detection_s.Base.{
  ℕ, zero, suc, ◌+◌, ◌<◌, ◌≡◌, refl, String, Option, none, some, arith,
}
use ansuman_nsfw_detection_s.Float.{FloatOps}
use ansuman_nsfw_detection_s.Settings.{Settings}
use ansuman_nsfw_detection_s.Errors.{
  PyException, app, http_status, timeout, request, other, max_connections, redis_connection,
  redis_timeout, Outcome, ok, raised,
}
use ansuman_nsfw_detection_s.Gpu.{
  GpuModerationService, after_failure, after_attempt, retry, raise_model_failure,
}

module _ {E A : Type 0} (float : FloatOps) (settings : Settings) (service : GpuModerationService E)
    (operation message : String) (attempts : ℕ) (call : E → Outcome A × E) where
  -- `k` attempts fail in turn, the first under a number, with the report and the pause after each; the
  -- last of their errors is kept.
  pub data Failures : ℕ → ℕ → Option PyException → E → Option PyException → E → Type 0 where
    no_more :
        (attempt : ℕ) (last : Option PyException) (e : E) → Failures zero attempt last e last e
    one_more :
        (k attempt : ℕ) (before : Option PyException) (x : PyException) (last : Option PyException)
        (e e' e'' : E)
        → call e ≡ (raised x, e')
        → Failures k
            (attempt + 1)
            (some x)
            (after_failure float settings service operation attempt attempts x e')
            last
            e''
        → Failures (suc k) attempt before e last e''

  -- The loop with `n` rounds left.
  abbrev pub Ended : ℕ → ℕ → Option PyException → E → Outcome A × E → Type 0
  Ended n attempt last e (ok a, e') =
      (k : ℕ) × (x : Option PyException) × (e'' : E) × (k < n)
      × Failures k attempt last e x e''
      × (call e'' ≡ (ok a, e'))
  Ended n attempt last e (raised y, e') =
      (x : PyException) × Failures n attempt last e (some x) e'
      × (raised y ≡ raise_model_failure {A = A} x)

  later :
      (n attempt : ℕ) (last : Option PyException) (x : PyException) (e e' : E) (r : Outcome A × E)
      → call e ≡ (raised x, e')
      → Ended n
          (attempt + 1)
          (some x)
          (after_failure float settings service operation attempt attempts x e')
          r
      → Ended (suc n) attempt last e r
  later n attempt last x e e' (ok a, e2) went (k, y, e'', less, before, done) =
      (suc k, y, e'', omega arith, one_more k attempt last x y e e' e'' went before, done)
  later n attempt last x e e' (raised z, e2) went (y, before, same) =
      (y, one_more n attempt last x (some y) e e' e2 went before, same)

  abbrev tried : ℕ → ℕ → Option PyException → E → Outcome A × E → Outcome A × E
  tried n attempt last e r =
      after_attempt float settings service operation message attempts call attempt r (λ x e'.
        retry float settings service operation message attempts call n (attempt + 1) (some x) e')

  round-Ended :
      (n attempt : ℕ) (last : Option PyException) (e : E) (r : Outcome A × E)
      → ((x : PyException) (e' : E)
          → Ended n (attempt + 1) (some x) e' (
              retry float settings service operation message attempts call n
                (attempt + 1)
                (some x)
                e'))
      → call e ≡ r
      → Ended (suc n) attempt last e (tried n attempt last e r)
  round-Ended n attempt last e (ok a, e') rest went =
      (zero, last, e, omega arith, no_more attempt last e, went)
  round-Ended n attempt last e (raised x, e') rest went =
      later n attempt last x e e' _ went
        (rest x (after_failure float settings service operation attempt attempts x e'))

  raised-Ended :
      (attempt : ℕ) (x : PyException) (e : E)
      → Ended zero attempt (some x) e (raise_model_failure x, e)
  unfolding raise_model_failure
  raised-Ended attempt (app a) e = (app a, no_more attempt (some (app a)) e, refl)
  raised-Ended attempt (http_status n t) e =
      (http_status n t, no_more attempt (some (http_status n t)) e, refl)
  raised-Ended attempt (timeout c t) e = (timeout c t, no_more attempt (some (timeout c t)) e, refl)
  raised-Ended attempt (request c t) e = (request c t, no_more attempt (some (request c t)) e, refl)
  raised-Ended attempt (other c t) e = (other c t, no_more attempt (some (other c t)) e, refl)
  raised-Ended attempt (max_connections t) e =
      (max_connections t, no_more attempt (some (max_connections t)) e, refl)
  raised-Ended attempt (redis_connection t) e =
      (redis_connection t, no_more attempt (some (redis_connection t)) e, refl)
  raised-Ended attempt (redis_timeout t) e =
      (redis_timeout t, no_more attempt (some (redis_timeout t)) e, refl)

  retry-some :
      (n attempt : ℕ) (x : PyException) (e : E)
      → Ended n attempt
          (some x)
          e
          (retry float settings service operation message attempts call n attempt (some x) e)
  unfolding retry
  retry-some zero attempt x e = raised-Ended attempt x e
  retry-some (suc n) attempt x e =
      round-Ended n attempt (some x) e (call e) (λ y e'. retry-some n (attempt + 1) y e') refl

  -- With at least one attempt to make, a call that is retried returns the result of the first attempt
  -- that succeeds, all those before it having failed; if it raises, then every attempt has failed, and
  -- the error is the one that the last failure stands for.
  pub retry_lem :
      (n : ℕ) (e : E)
      → Ended
          (suc n)
          1
          none
          e
          (retry float settings service operation message attempts call (suc n) 1 none e)
  unfolding retry
  retry_lem n e = round-Ended n 1 none e (call e) (λ y e'. retry-some n 2 y e') refl
