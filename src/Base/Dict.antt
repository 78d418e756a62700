-- ===== src/Base/Dict.antt =====
-- Python's `dict`, as an association list in insertion order, over any key with a Boolean equality.
use Prim.Native.String.{String}
use mathlib.Core.Path.{◌≡◌, refl, ◌∙◌}
use mathlib.Core.Logic.{◌↔◌}
use mathlib.Core.Bool.{Bool, true, false, ◌&&◌}
use mathlib.Core.Option.{Option, none, some}
use mathlib.Core.List.{List, [], ◌∷◌}
use native.Mathlib.Omega.{arith}
use text.Mathlib.Text.{◌==◌ as str_eq}
use text.Mathlib.TextEquality.{eq_iff}
use ansuman_nsfw_detection_s.Base.Tests.{if◌then◌else◌}

-- Equality of keys, with its law.
pub record Eq {ℓ} (K : Type ℓ) : Type ℓ where
  pub beq : K → K → Bool
  pub beq_iff : (a b : K) → (beq a b ≡ true) ↔ (a ≡ b)

instance abbrev pub string_eq : Eq String
string_eq = record { beq = str_eq; beq_iff = eq_iff }

-- `key in the tuple (a, b, c)`, such as a key of three strings
abbrev pub Triple : Type 0
Triple = String × String × String

abbrev pub triple_beq : Triple → Triple → Bool
triple_beq (a, b, c) (a', b', c') = str_eq a a' && (str_eq b b' && str_eq c c')

pub triple_beq_iff : (s t : Triple) → (triple_beq s t ≡ true) ↔ (s ≡ t)
triple_beq_iff (a, b, c) (a', b', c') = ground (arith, eq_iff a a', eq_iff b b', eq_iff c c')

instance abbrev pub triple_eq : Eq Triple
triple_eq = record { beq = triple_beq; beq_iff = triple_beq_iff }

abbrev pub Dict {ℓ κ} : Type ℓ → Type κ → Type (ℓ ⊔ κ)
Dict K V = List (K × V)

module _ {ℓ κ} {K : Type ℓ} {V : Type κ} ⦃e : Eq K⦄ where
  -- d.get(k)
  unfoldable pub lookup : K → Dict K V → Option V
  lookup k [] = none
  lookup k ((j, v) ∷ d) = if e.beq j k then some v else lookup k d

  -- d[k] = v
  unfoldable pub insert : K → V → Dict K V → Dict K V
  insert k v [] = (k, v) ∷ []
  insert k v ((j, w) ∷ d) = if e.beq j k then (j, v) ∷ d else (j, w) ∷ insert k v d

  pub lookup-insert :
      (k j : K) (v : V) (d : Dict K V)
      → lookup j (insert k v d) ≡ (if e.beq k j then some v else lookup j d)
  unfolding lookup insert
  lookup-insert k j v [] = refl
  lookup-insert k j v ((i, w) ∷ d) =
      ground (arith, e.beq_iff k j, e.beq_iff i k, e.beq_iff i j, lookup-insert k j v d)

pub lookup-insert_self {ℓ κ} :
    {K : Type ℓ} {V : Type κ} ⦃e : Eq K⦄ (k : K) (v : V) (d : Dict K V)
    → lookup k (insert k v d) ≡ some v
lookup-insert_self ⦃e⦄ k v d = rw lookup-insert (ground (arith, e.beq_iff k k))

module _ {ℓ κ} {K : Type ℓ} {V : Type κ} ⦃e : Eq K⦄ where
  pub lookup-insert_eq :
      (k j : K) (v : V) (d : Dict K V) → e.beq k j ≡ true → lookup j (insert k v d) ≡ some v
  lookup-insert_eq k j v d h = lookup-insert k j v d ∙ rw h refl

  pub lookup-insert_ne :
      (k j : K) (v : V) (d : Dict K V) → e.beq k j ≡ false → lookup j (insert k v d) ≡ lookup j d
  lookup-insert_ne k j v d h = lookup-insert k j v d ∙ rw h refl
