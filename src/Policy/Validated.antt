-- ===== src/Policy/Validated.antt =====
-- What the validation of a dict of scores says of the scores that come out of it.
use ansuman_nsfw_detection_s.Base.{
  any_of, leb→le, le→leb, ◌↔◌, ℕ, ◌≤◌, ◌≡◌, subst, String, true, inl, inr, some, [], ◌∷◌, arith,
  str_eq, eq_iff, is_some, In, Bool-cases, Option-cases, all_at, any_at,
}
use ansuman_nsfw_detection_s.Base.Int.{ℤ, pos, negsuc}
use ansuman_nsfw_detection_s.Base.Dict.{Dict, lookup, string_eq}
use ansuman_nsfw_detection_s.Constants.{moderation_categories}
use ansuman_nsfw_detection_s.Policy.{
  blocks, category_block_thresholds, compute_is_nsfw, score, Scores, is_category,
  severities_in_range, validate_category_scores,
}

-- A category is one of the listed ones.
pub category-In : (c : String) → is_category c ≡ true → In c moderation_categories
unfolding is_category
category-In c h =
    let (k, i, e) = any_at (λ k. str_eq k c) moderation_categories h in
    subst (λ x. In x moderation_categories) ((eq_iff k c).0 e) i

severities-cons :
    (k : String) (n : ℕ) (v : Dict String ℤ) (r : Scores)
    → severities_in_range ((k, pos n) ∷ v) ≡ some r
    → (s : Scores) × (severities_in_range v ≡ some s) × (r ≡ (k, n) ∷ s) × (n ≤ 5)
unfolding severities_in_range
severities-cons k n v r h = elim (Option-cases (severities_in_range v)) [
  | inl e ↦ absurd (ground arith)
  | inr (s, e) ↦ (s, e, ground arith, ground arith)
]

-- What comes out under a key is what went in under it, between 0 and 5.
pub lookup-severities :
    (c : String) (v : Dict String ℤ) (r : Scores) {z : ℤ}
    → severities_in_range v ≡ some r
    → lookup c v ≡ some z
    → (n : ℕ) × (lookup c r ≡ some n) × (z ≡ pos n) × (n ≤ 5)
unfolding severities_in_range lookup
lookup-severities c [] r h e = cc
lookup-severities c ((k, negsuc n) ∷ v) r h e = cc
lookup-severities c ((k, pos n) ∷ v) r {z} h e =
    let (s, tail, shape, small) = severities-cons k n v r h in
    elim (Bool-cases (str_eq k c)) [
      | inl same ↦ (n, rw (shape, same), ground arith, small)
      | inr other ↦ rw (shape, other) (lookup-severities c v s tail (rw other at e))
    ]

-- Every category has a score between 0 and 5.
abbrev pub IsScores : Scores → Type 0
IsScores r = (c : String) → is_category c ≡ true → (n : ℕ) × (lookup c r ≡ some n) × (n ≤ 5)

-- Validation keeps every score, and finds one for every category.
pub validate_lem :
    (v : Dict String ℤ) (r : Scores)
    → validate_category_scores v ≡ some r
    → (c : String) → is_category c ≡ true
    → (n : ℕ) × (lookup c v ≡ some (pos n)) × (lookup c r ≡ some n) × (n ≤ 5)
unfolding validate_category_scores
validate_lem v r h c k =
    let present : is_some (lookup c v) ≡ true =
      all_at (λ j. is_some (lookup j v)) c moderation_categories (ground arith) (category-In c k) in
    elim (Option-cases (lookup c v)) [
      | inl e ↦ absurd (ground arith)
      | inr (z, e) ↦
          let (n, out, same, small) = lookup-severities c v r {z = z} (ground arith) e in
          (n, cc (e, same), out, small)
    ]

-- The policy blocks scores exactly when one of them reaches its category's threshold.
pub compute_is_nsfw_iff :
    (scores : Scores)
    → (compute_is_nsfw scores ≡ true)
      ↔ ((c : String) × (t : ℕ) × In (c, t) category_block_thresholds × (t ≤ score scores c))
unfolding compute_is_nsfw
compute_is_nsfw_iff scores = (
  λ h.
      let ((c, t), i, e) = any_at (blocks scores) category_block_thresholds h in
      (c, t, i, leb→le t (score scores c) e),
  λ (c, t, i, le).
      any_of (blocks scores) (c, t) category_block_thresholds i (le→leb t (score scores c) le),
)
