-- ===== src/Frames/Probe/Rates.antt =====
-- The numbers of ffprobe's answer are read to an end.
use Prim.Native.String.{String}
use ansuman_nsfw_detection_s.Base.{
  ◌≡◌, refl, ◌||◌, inl, inr, false, Option, none, some, str_eq, Bool-cases,
}
use ansuman_nsfw_detection_s.Float.{Double, FloatOps}
use ansuman_nsfw_detection_s.Errors.{Outcome, ok, raised, PyException, class_name, ◌>>=◌}
use ansuman_nsfw_detection_s.Json.{Json, null, bool, int, float, string, array, object}
use ansuman_nsfw_detection_s.Frames.Probe.{
  Numbers, or_none, is_null, split_slash, float_or_none, int_or_none, is_zero, divide, over,
  with_denominator, rate_of_parts, parse_rate,
}

-- What a reading gives: a value with a property, or an OverflowError, which its callers do not catch.
pub data Answers {A : Type 0} (P : A → Type 0) (out : Outcome A) : Type 0 where
  value : (a : A) → P a → out ≡ ok a → Answers P out
  overflow : (x : PyException) → class_name x ≡ "OverflowError" → out ≡ raised x → Answers P out

abbrev pub Total : {A : Type 0} → Outcome A → Type 0
Total out = Answers (λ _. Unit {0}) out

pub bind_lem :
    {A B : Type 0} {P : A → Type 0} {Q : B → Type 0} (m : Outcome A) (f : A → Outcome B)
    → Answers P m
    → ((a : A) → P a → m ≡ ok a → Answers Q (f a))
    → Answers Q (m >>= f)
bind_lem m f (value a p e) k = rw e (k a p e)
bind_lem m f (overflow x c e) k = overflow x c (rw e)

-- `float` and `int` raise nothing but TypeError, ValueError and OverflowError.
pub record Readable (numbers : Numbers) : Type 0 where
  pub floats : (v : Json) → Total (or_none (numbers.float_of v))
  pub ints : (v : Json) → Total (or_none (numbers.int_of v))

module _ (ops : FloatOps) (numbers : Numbers) (readable : Readable numbers) where
  pub float_or_none-Total : (v : Json) → Total (float_or_none ops numbers v)
  unfolding float_or_none
  float_or_none-Total v = elim (Bool-cases (is_null v)) [
    | inl none_given ↦ value none tt (rw (none_given, float_or_none))
    | inr given ↦ rw (given, float_or_none) (readable.floats v)
  ]

  pub int_or_none-Total : (v : Json) → Total (int_or_none ops numbers v)
  unfolding int_or_none
  int_or_none-Total v = elim (Bool-cases (is_null v)) [
    | inl none_given ↦ value none tt (rw (none_given, int_or_none))
    | inr given ↦ rw (given, int_or_none) (readable.ints v)
  ]

  over-Total :
      (b : Double) (a : Option Double)
      → is_zero ops numbers b ≡ false
      → Total (over ops numbers b a)
  unfolding divide
  over-Total b none h = value none tt refl
  over-Total b (some a) h = value (some (ops.div a b)) tt (rw (h, divide))

  with_denominator-Total :
      (numerator : String) (b : Option Double) → Total (with_denominator ops numbers numerator b)
  with_denominator-Total numerator none = value none tt refl
  with_denominator-Total numerator (some b) = elim (Bool-cases (is_zero ops numbers b)) [
    | inl zero_given ↦ value none tt (rw zero_given)
    | inr apart ↦
        rw apart
          (bind_lem _ _ (float_or_none-Total (string numerator)) (λ a _ _. over-Total b a apart))
  ]

  rate_of_parts-Total :
      (s : String) (parts : Option (String × String)) → Total (rate_of_parts ops numbers s parts)
  rate_of_parts-Total s none = float_or_none-Total (string s)
  rate_of_parts-Total s (some (numerator, denominator)) =
      bind_lem _ _ (float_or_none-Total (string denominator))
        (λ b _ _. with_denominator-Total numerator b)

  -- A rate is read, or there is none, or a number is too large: nothing is divided by zero.
  pub parse_rate-Total : (v : Json) → Total (parse_rate ops numbers v)
  unfolding parse_rate
  parse_rate-Total (string s) = elim (Bool-cases (str_eq s "0/0" || str_eq s "")) [
    | inl no_rate ↦ value none tt (rw (no_rate, parse_rate))
    | inr rate ↦ rw (rate, parse_rate) (rate_of_parts-Total s (split_slash s))
  ]
  parse_rate-Total null = value none tt refl
  parse_rate-Total (bool b) = value none tt refl
  parse_rate-Total (int z) = value none tt refl
  parse_rate-Total (float x) = value none tt refl
  parse_rate-Total (array l) = value none tt refl
  parse_rate-Total (object fs) = value none tt refl
