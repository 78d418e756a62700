-- ===== src/Base/Lists.antt =====
-- Lists measured by native numbers, under the library's names, and Python's `all` and `any`.
use Prim.Native.Nat.{ℕ, zero, suc, ◌+◌, ◌-◌, ◌≤◌, min, max}
use mathlib.Core.Path.{◌≡◌, refl, ap, subst}
use mathlib.Core.Logic.{◌⊎◌, inl, inr}
use mathlib.Core.List.{List, [], ◌∷◌, ◌++◌, map}
use mathlib.Core.Option.{Option, none, some}
use mathlib.Core.Bool.{Bool, true, false, ◌&&◌, ◌||◌}
use native.Mathlib.Omega.{arith}
use native.Mathlib.Decide.{dec_le}
use ansuman_nsfw_detection_s.Base.Tests.{Bool-cases, if◌then◌else◌}

module _ {ℓ} {A : Type ℓ} where
  abbrev pub length : List A → ℕ
  length [] = 0
  length (x ∷ xs) = suc (length xs)

  abbrev pub take : ℕ → List A → List A
  take zero xs = []
  take (suc n) [] = []
  take (suc n) (x ∷ xs) = x ∷ take n xs

  abbrev pub drop : ℕ → List A → List A
  drop zero xs = xs
  drop (suc n) [] = []
  drop (suc n) (x ∷ xs) = drop n xs

  abbrev pub get_elem? : List A → ℕ → Option A
  get_elem? [] i = none
  get_elem? (x ∷ xs) zero = some x
  get_elem? (x ∷ xs) (suc i) = get_elem? xs i

  abbrev pub any : (A → Bool) → List A → Bool
  any p [] = false
  any p (x ∷ xs) = p x || any p xs

  abbrev pub all : (A → Bool) → List A → Bool
  all p [] = true
  all p (x ∷ xs) = p x && all p xs

  -- A comprehension with an `if`.
  abbrev pub select : (A → Bool) → List A → List A
  select p [] = []
  select p (x ∷ xs) = let rest = select p xs in if p x then x ∷ rest else rest

  -- The concatenation of a list of lists.
  abbrev pub concat : List (List A) → List A
  concat [] = []
  concat (xs ∷ xss) = xs ++ concat xss

  pub length-append : (xs ys : List A) → length (xs ++ ys) ≡ length xs + length ys
  length-append [] ys = omega arith
  length-append (x ∷ xs) ys = omega (arith, length-append xs ys)

  pub take-append-drop : (n : ℕ) (xs : List A) → take n xs ++ drop n xs ≡ xs
  take-append-drop zero xs = refl
  take-append-drop (suc n) [] = refl
  take-append-drop (suc n) (x ∷ xs) = ap (λ r. x ∷ r) (take-append-drop n xs)

  pub length-take : (n : ℕ) (xs : List A) → length (take n xs) ≡ min n (length xs)
  length-take zero xs = omega arith
  length-take (suc n) [] = omega arith
  length-take (suc n) (x ∷ xs) = omega (arith, length-take n xs)

  pub length-drop : (n : ℕ) (xs : List A) → length (drop n xs) ≡ length xs - n
  length-drop zero xs = omega arith
  length-drop (suc n) [] = omega arith
  length-drop (suc n) (x ∷ xs) = omega (arith, length-drop n xs)

  pub drop-length-take : (n : ℕ) (xs : List A) → drop (length (take n xs)) xs ≡ drop n xs
  drop-length-take zero xs = refl
  drop-length-take (suc n) [] = refl
  drop-length-take (suc n) (x ∷ xs) = drop-length-take n xs

-- Every element satisfies the predicate; it computes to a product.
abbrev pub All {ℓ κ} : {A : Type ℓ} → (A → Type κ) → List A → Type κ
All P [] = Unit
All P (x ∷ xs) = P x × All P xs

-- The empty type, at any level.
pub data Never {ℓ} : Type ℓ where

-- Membership as a computed sum.
abbrev pub In {ℓ} : {A : Type ℓ} → A → List A → Type ℓ
In a [] = Never
In a (x ∷ xs) = (x ≡ a) ⊎ In a xs

-- `max` of a list of severities; the program never takes it of an empty list.
abbrev pub maximum : List ℕ → ℕ
maximum [] = 0
maximum (x ∷ xs) = max x (maximum xs)

module _ {ℓ} {A : Type ℓ} where
  pub le-maximum-map : (f : A → ℕ) (a : A) (xs : List A) → In a xs → f a ≤ maximum (map f xs)
  le-maximum-map f a [] h = elim h [ ]
  le-maximum-map f a (x ∷ xs) (inl e) = rw (← e) (omega arith)
  le-maximum-map f a (x ∷ xs) (inr h) = omega (arith, le-maximum-map f a xs h)

  pub maximum-map-le :
      (f : A → ℕ) (n : ℕ) (xs : List A) → ((a : A) → In a xs → f a ≤ n) → maximum (map f xs) ≤ n
  maximum-map-le f n [] h = omega arith
  maximum-map-le f n (x ∷ xs) h =
      omega (arith, h x (inl refl), maximum-map-le f n xs (λ a i. h a (inr i)))

  pub maximum-map-attained :
      (f : A → ℕ) (x : A) (xs : List A) → (a : A) × In a (x ∷ xs) × (f a ≡ maximum (map f (x ∷ xs)))
  maximum-map-attained f x [] = (x, inl refl, omega arith)
  maximum-map-attained f x (y ∷ ys) =
      let (a, i, e) = maximum-map-attained f y ys in
      elim (dec_le (f x) (f a)) [
        | yes h ↦ (a, inr i, omega (arith, e))
        | no h ↦ (x, inl refl, omega (arith, e))
      ]

  -- What holds of all elements holds of each.
  pub all_at : (p : A → Bool) (a : A) (xs : List A) → all p xs ≡ true → In a xs → p a ≡ true
  all_at p a [] h i = elim i [ ]
  all_at p a (x ∷ xs) h (inl e) = subst (λ y. p y ≡ true) e (ground arith)
  all_at p a (x ∷ xs) h (inr i) = all_at p a xs (ground arith) i

  pub all_of : (p : A → Bool) (xs : List A) → ((a : A) → In a xs → p a ≡ true) → all p xs ≡ true
  all_of p [] h = refl
  all_of p (x ∷ xs) h = rw (h x (inl refl)) (all_of p xs (λ a i. h a (inr i)))

  pub any_at : (p : A → Bool) (xs : List A) → any p xs ≡ true → (a : A) × In a xs × (p a ≡ true)
  any_at p [] h = cc
  any_at p (x ∷ xs) h = elim (Bool-cases (p x)) [
    | inl here ↦ (x, inl refl, here)
    | inr there ↦ (let (a, i, e) = any_at p xs (rw there at h) in (a, inr i, e))
  ]

  pub any_of : (p : A → Bool) (a : A) (xs : List A) → In a xs → p a ≡ true → any p xs ≡ true
  any_of p a [] i h = elim i [ ]
  any_of p a (x ∷ xs) (inl e) h = rw (e, h)
  any_of p a (x ∷ xs) (inr i) h = ground (arith, any_of p a xs i h)
