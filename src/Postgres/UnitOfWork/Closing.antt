-- ===== src/Postgres/UnitOfWork/Closing.antt =====
-- A unit of work that was entered closes its session.
use ansuman_nsfw_detection_s.Base.{◌≡◌, refl, true, Option, ap}
use ansuman_nsfw_detection_s.Errors.{Outcome, ok, raised, PyException}
use ansuman_nsfw_detection_s.Effects.{M, after, ensured}
use ansuman_nsfw_detection_s.Postgres.UnitOfWork.{Contexts, UnitOfWork, on_world, exit}

module _ {E : Type 0} (contexts : Contexts E) where
  -- Both contexts are there.
  pub record IsEntered (u : UnitOfWork E) : Type 0 where
    pub with_session_context : u.has_session_context ≡ true
    pub with_transaction_context : u.has_transaction_context ≡ true
    pub with_open_session : u.has_session ≡ true

  after_world :
      {F A B : Type 0} (p : Outcome A × F) (r : Outcome B) → (after p (λ _ f. (r, f))).1 ≡ p.1
  after_world (ok a, e) r = refl
  after_world (raised x, e) r = refl

  ensured_world : {F A B : Type 0} (p : Outcome A × F) (k : M F B) → (ensured p k).1 ≡ (k p.1).1
  ensured_world (ok a, e) k = after_world (k e) (ok a)
  ensured_world (raised x, e) k = after_world (k e) _

  -- A unit of work that was entered ends the transaction and then, even if that raises, closes its session, each with the exception of its body.
  pub exit-IsEntered :
      (x : Option PyException) (u : UnitOfWork E)
      → IsEntered u
      → (exit contexts x u).1.world ≡ (contexts.session_exit x (contexts.begin_exit x u.world).1).1
  unfolding exit
  exit-IsEntered x u h =
      rw (h.with_transaction_context, h.with_session_context, exit)
        (ap (λ (v : UnitOfWork E). v.world) (ensured_world _ (on_world (contexts.session_exit x))))
