-- ===== src/Float.antt =====
-- Python's floats: 64-bit patterns, whose operations are the machine's and are taken as a record.
-- The laws say what IEEE 754 promises of them for the small numbers that the program computes with.
use ansuman_nsfw_detection_s.Base.{ℕ, ◌≤◌, ◌<◌, ◌≡◌, Bool, true}

pub record Double : Type 0 where
  pub bits : ℕ

pub record FloatOps : Type 0 where
  -- float(n)
  pub of_int : ℕ → Double
  -- a / b, a * b
  pub div : Double → Double → Double
  pub mul : Double → Double → Double
  -- a <= b, a < b
  pub leb : Double → Double → Bool
  pub ltb : Double → Double → Bool

-- Division of a small integer by a positive one is monotone, and the order is transitive.
pub record FloatLaws (f : FloatOps) : Type 0 where
  pub leb_trans : (a b c : Double) → f.leb a b ≡ true → f.leb b c ≡ true → f.leb a c ≡ true
  pub div_mono :
      (m n d : ℕ)
      → m ≤ n
      → 0 < d
      → f.leb (f.div (f.of_int m) (f.of_int d)) (f.div (f.of_int n) (f.of_int d)) ≡ true
