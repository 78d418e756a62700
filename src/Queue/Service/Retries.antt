-- ===== src/Queue/Service/Retries.antt =====
-- How the retries of a read end.
use ansuman_nsfw_detection_s.Base.{
  ℕ, zero, suc, ◌+◌, ◌<◌, ◌≡◌, ◌⊎◌, ◌-◌, none, some, subst, sym, refl, inl, inr, Bool, true, false,
  Option, arith, leb, Bool-cases,
}
use ansuman_nsfw_detection_s.Float.{Double, FloatOps}
use ansuman_nsfw_detection_s.Errors.{Outcome, ok, raised, PyException}
use ansuman_nsfw_detection_s.Effects.{M}
use ansuman_nsfw_detection_s.Settings.{Settings}
use ansuman_nsfw_detection_s.Queue.Service.{
  pool_max_attempts, is_exhausted, pause, after_attempt, pool_retry, read_with_pool_retry,
}

pub positive : (s : Option Settings) → pool_max_attempts s ≡ suc (pool_max_attempts s - 1)
positive none = omega arith
positive (some s) = omega arith

module _ {E A : Type 0} (float : FloatOps) (settings : Option Settings) (sleep : Double → E → E)
    (operation : M E A) where
  -- `k` attempts in turn, the first under a number, find the pool exhausted, with a pause after each.
  pub data Exhausted : ℕ → ℕ → E → E → Type 0 where
    no_more : (attempt : ℕ) (e : E) → Exhausted zero attempt e e
    one_more :
        (k attempt : ℕ) (x : PyException) (e e' e'' : E)
        → operation e ≡ (raised x, e')
        → is_exhausted x ≡ true
        → Exhausted k (attempt + 1) (pause float settings sleep attempt e') e''
        → Exhausted (suc k) attempt e e''

  abbrev pub was_exhausted : Outcome A → Bool
  was_exhausted (ok a) = false
  was_exhausted (raised x) = is_exhausted x

  -- `n` attempts end with the outcome of one of them, after `k` that found the pool exhausted; it is
  -- the last one, if its own outcome is that too.
  pub data Ended (n attempt : ℕ) (e : E) (r : Outcome A × E) : Type 0 where
    ended :
        (k : ℕ) (e' : E)
        → k < n
        → Exhausted k attempt e e'
        → operation e' ≡ r
        → (was_exhausted r.0 ≡ false) ⊎ (k + 1 ≡ n)
        → Ended n attempt e r

  later :
      (n attempt : ℕ) (x : PyException) (e e' : E) (r : Outcome A × E)
      → operation e ≡ (raised x, e')
      → is_exhausted x ≡ true
      → Ended n (attempt + 1) (pause float settings sleep attempt e') r
      → Ended (suc n) attempt e r
  later n attempt x e e' r went full (ended k e'' less before last stop) =
      ended (suc k) e'' (omega arith) (one_more k attempt x e e' e'' went full before) last
        (next stop)
    where
      next :
          (was_exhausted r.0 ≡ false) ⊎ (k + 1 ≡ n)
          → (was_exhausted r.0 ≡ false) ⊎ (suc k + 1 ≡ suc n)
      next (inl h) = inl h
      next (inr h) = inr (omega (arith, h))

  abbrev tried : ℕ → ℕ → Outcome A × E → Outcome A × E
  tried left attempt r =
      after_attempt float settings sleep operation attempt r
        (λ e'. pool_retry float settings sleep operation left (attempt + 1) e')

  -- The last round.
  last-Ended :
      (attempt : ℕ) (e : E) (r : Outcome A × E)
      → operation e ≡ r
      → leb (pool_max_attempts settings) attempt ≡ true
      → Ended 1 attempt e (tried 0 attempt r)
  last-Ended attempt e (ok a, e') went spent =
      ended 0 e (omega arith) (no_more attempt e) went (inl refl)
  last-Ended attempt e (raised x, e') went spent = elim (Bool-cases (is_exhausted x)) [
    | inl full ↦
        rw (full, spent) (ended 0 e (omega arith) (no_more attempt e) went (inr (omega arith)))
    | inr apart ↦ rw apart (ended 0 e (omega arith) (no_more attempt e) went (inl apart))
  ]

  mid-Ended :
      (left attempt : ℕ) (e : E) (r : Outcome A × E)
      → operation e ≡ r
      → leb (pool_max_attempts settings) attempt ≡ false
      → ((e' : E)
          → Ended
              (suc left)
              (attempt + 1)
              e'
              (pool_retry float settings sleep operation (suc left) (attempt + 1) e'))
      → Ended (suc (suc left)) attempt e (tried (suc left) attempt r)
  mid-Ended left attempt e (ok a, e') went more again =
      ended 0 e (omega arith) (no_more attempt e) went (inl refl)
  mid-Ended left attempt e (raised x, e') went more again = elim (Bool-cases (is_exhausted x)) [
    | inl full ↦
        rw (full, more)
          (later (suc left) attempt x e e' _ went full
            (again (pause float settings sleep attempt e')))
    | inr apart ↦ rw apart (ended 0 e (omega arith) (no_more attempt e) went (inl apart))
  ]

  pool_retry-Ended :
      (left attempt : ℕ) (e : E)
      → attempt + left ≡ pool_max_attempts settings
      → Ended (suc left) attempt e (pool_retry float settings sleep operation (suc left) attempt e)
  unfolding pool_retry
  pool_retry-Ended zero attempt e budget =
      last-Ended attempt e (operation e) refl (ground (arith, budget))
  pool_retry-Ended (suc left) attempt e budget =
      mid-Ended left attempt e (operation e) refl (ground (arith, budget))
        (λ e'. pool_retry-Ended left (attempt + 1) e' (omega (arith, budget)))

  -- A read of a job ends, in as many attempts as the settings allow and at least one, with the outcome of one of them: the attempts before it all found the connection pool exhausted, with a pause after each, and it did not, unless it is the last. It never ends by running out of the loop.
  pub read_with_pool_retry-Ended :
      (e : E)
      → Ended
          (pool_max_attempts settings)
          1
          e
          (read_with_pool_retry float settings sleep operation e)
  unfolding read_with_pool_retry
  read_with_pool_retry-Ended e =
      subst (λ n. Ended n 1 e (pool_retry float settings sleep operation n 1 e))
        (sym (positive settings))
        (pool_retry-Ended (pool_max_attempts settings - 1) 1 e (omega (arith, positive settings)))
