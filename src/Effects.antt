-- ===== src/Effects.antt =====
-- A call that changes the world: from the world before to the result, a value or an exception, and the
-- world after.
use ansuman_nsfw_detection_s.Errors.{Outcome, ok, raised, PyException}

abbrev pub M {ℓ κ} : Type ℓ → Type κ → Type (ℓ ⊔ κ)
M E A = E → Outcome A × E

abbrev pub after {ℓ κ ι} :
    {E : Type ℓ} {A : Type κ} {B : Type ι} → Outcome A × E → (A → M E B) → Outcome B × E
after (ok a, e) f = f a e
after (raised x, e) f = (raised x, e)

infixl 5 ◌>>=◌ ◌>>◌
abbrev pub ◌>>=◌ {ℓ κ ι} : {E : Type ℓ} {A : Type κ} {B : Type ι} → M E A → (A → M E B) → M E B
(m >>= f) e = after (m e) f

abbrev pub ◌>>◌ {ℓ κ ι} : {E : Type ℓ} {A : Type κ} {B : Type ι} → M E A → M E B → M E B
m >> k = m >>= λ _. k

abbrev pub pure {ℓ κ} : {E : Type ℓ} {A : Type κ} → A → M E A
pure a e = (ok a, e)

abbrev pub raise {ℓ κ} : {E : Type ℓ} {A : Type κ} → PyException → M E A
raise x e = (raised x, e)

-- A value that may be an exception, with no effect.
abbrev pub lift {ℓ κ} : {E : Type ℓ} {A : Type κ} → Outcome A → M E A
lift o e = (o, e)

abbrev pub handle {ℓ κ} :
    {E : Type ℓ} {A : Type κ} → Outcome A × E → (PyException → M E A) → Outcome A × E
handle (ok a, e) f = (ok a, e)
handle (raised x, e) f = f x e

-- try: m except Exception as exc: f(exc)
abbrev pub catching {ℓ κ} : {E : Type ℓ} {A : Type κ} → M E A → (PyException → M E A) → M E A
catching m f e = handle (m e) f

abbrev pub ensured {ℓ κ ι} :
    {E : Type ℓ} {A : Type κ} {B : Type ι} → Outcome A × E → M E B → Outcome A × E
ensured (ok a, e) k = after (k e) (λ _. pure a)
ensured (raised x, e) k = after (k e) (λ _. raise x)

-- try: m finally: k, where an exception of `k` takes the place of the one of `m`
abbrev pub finally {ℓ κ ι} : {E : Type ℓ} {A : Type κ} {B : Type ι} → M E A → M E B → M E A
finally m k e = ensured (m e) k
