-- ===== src/Base/Text.antt =====
-- Python's `str` and `int` on numbers, and `strip`. `str` writes decimal digits; `int` reads an
-- optional sign, ASCII digits and single underscores between digits, with white space around.
-- (`int` also takes the decimal digits of other scripts, which are not modelled.)
use Prim.Native.Nat.{ℕ, zero, suc, ◌+◌, ◌-◌, ◌*◌, ◌/◌, ◌%◌, ◌<◌}
use Prim.Native.Char.{Char, code}
use Prim.Native.String.{String}
use mathlib.Core.Path.{◌≡◌, refl, ap, ◌∙◌}
use mathlib.Core.Logic.{inl, inr}
use mathlib.Core.Bool.{Bool, true, false, ◌&&◌, ◌||◌}
use mathlib.Core.Option
use mathlib.Core.Option.{Option, none, some}
use native.Mathlib.Omega.{arith}
use native.Mathlib.Nat.{zero-add}
use ansuman_nsfw_detection_s.Base.Tests.{ltb, leb, ◌==◌, ==_iff, Bool-cases, if◌then◌else◌}
use ansuman_nsfw_detection_s.Base.Int.{ℤ, pos, negsuc}

digit : ℕ → Char
digit d =
    if d == 0
    then "0"
    else if d == 1
    then "1"
    else if d == 2
    then "2"
    else if d == 3
    then "3"
    else if d == 4
    then "4"
    else if d == 5
    then "5"
    else if d == 6
    then "6"
    else if d == 7
    then "7"
    else if d == 8
    then "8"
    else "9"

-- The digits of `n` in front of a text; the fuel is at least the number of digits.
str_onto : ℕ → ℕ → String → String
str_onto zero n acc = acc
str_onto (suc f) n acc =
    let more = str_onto f (n / 10) (String.◌∷◌ (digit (n % 10)) acc) in
    if ltb n 10 then String.◌∷◌ (digit n) acc else more

-- str(n)
unfoldable pub str : ℕ → String
unfolding str_onto digit
str n = str_onto (suc n) n String.[]

-- str.isspace, the characters that `strip` removes
pub is_space : Char → Bool
is_space c =
    let n = code c in
    leb 9 n && leb n 13
    || leb 28 n && leb n 32
    || n == 133
    || n == 160
    || n == 5760
    || leb 8192 n && leb n 8202
    || n == 8232
    || n == 8233
    || n == 8239
    || n == 8287
    || n == 12288

unfoldable pub lstrip : String → String
unfolding is_space
lstrip String.[] = String.[]
lstrip (String.◌∷◌ c s) = let rest = lstrip s in if is_space c then rest else String.◌∷◌ c s

snoc_unless_space : Char → String → String
snoc_unless_space c String.[] = if is_space c then String.[] else String.◌∷◌ c String.[]
snoc_unless_space c (String.◌∷◌ d s) = String.◌∷◌ c (String.◌∷◌ d s)

unfoldable pub rstrip : String → String
unfolding is_space snoc_unless_space
rstrip String.[] = String.[]
rstrip (String.◌∷◌ c s) = snoc_unless_space c (rstrip s)

-- s.strip()
unfoldable pub strip : String → String
unfolding lstrip rstrip
strip s = rstrip (lstrip s)

is_digit : Char → Bool
is_digit c = leb 48 (code c) && leb (code c) 57

-- The digits behind a sign; the flag says that the character before was a digit.
read_digits : ℕ → Bool → String → Option ℕ
read_digits acc seen String.[] = if seen then some acc else none
read_digits acc seen (String.◌∷◌ c s) =
    let next = read_digits (acc * 10 + (code c - 48)) true s in
    let gap = read_digits acc false s in
    if is_digit c then next else if seen && code c == 95 then gap else none

negate : ℕ → ℤ
negate zero = pos 0
negate (suc n) = negsuc n

read_signed : String → Option ℤ
read_signed String.[] = none
read_signed (String.◌∷◌ c s) =
    if code c == 45
    then Option.map negate (read_digits 0 false s)
    else if code c == 43
    then Option.map pos (read_digits 0 false s)
    else Option.map pos (read_digits 0 false (String.◌∷◌ c s))

-- int(s), with None for the ValueError
unfoldable pub int_of : String → Option ℤ
unfolding strip read_signed read_digits negate is_digit
int_of s = read_signed (strip s)

-- A test passes at each of the numbers under a bound.
passes_under : (ℕ → Bool) → ℕ → Bool
passes_under test zero = true
passes_under test (suc bound) = if test bound then passes_under test bound else false

passes_under_lem :
    (test : ℕ → Bool) (bound k : ℕ) → k < bound → passes_under test bound ≡ true → test k ≡ true
unfolding passes_under
passes_under_lem test zero k under passed = absurd (omega arith)
passes_under_lem test (suc bound) k under passed = ground (arith, passes_under_lem test bound k)

digit_table : passes_under (λ d. code (digit d) == 48 + d) 10 ≡ true
unfolding passes_under digit
digit_table = refl

code-digit : (d : ℕ) → d < 10 → code (digit d) ≡ 48 + d
code-digit d h = (==_iff _ _).0 (passes_under_lem _ 10 d h digit_table)

-- Every character is a digit.
abbrev Digits : String → Type 0
Digits String.[] = Unit
Digits (String.◌∷◌ c s) = (is_digit c ≡ true) × Digits s

is_digit-digit : (d : ℕ) → d < 10 → is_digit (digit d) ≡ true
unfolding is_digit
is_digit-digit d h = ground (arith, code-digit d h)

str_onto-Digits : (f n : ℕ) (acc : String) → Digits acc → Digits (str_onto f n acc)
unfolding str_onto
str_onto-Digits zero n acc h = h
str_onto-Digits (suc f) n acc h = ground (
  arith,
  is_digit-digit n,
  is_digit-digit (n % 10),
  str_onto-Digits f (n / 10) (String.◌∷◌ (digit (n % 10)) acc),
)

read_digit :
    (acc d : ℕ) (seen : Bool) (s : String)
    → d < 10
    → read_digits acc seen (String.◌∷◌ (digit d) s) ≡ read_digits (acc * 10 + d) true s
unfolding read_digits
read_digit acc d seen s h =
    rw (is_digit-digit d h)
      (ap (λ (k : ℕ). read_digits (acc * 10 + k) true s) (omega (arith, code-digit d h)))

-- Reading the digits of `n` gives `n`, and goes on behind them.
read_digits-str_onto :
    (f n : ℕ) (seen : Bool) (s : String)
    → n < f
    → read_digits 0 seen (str_onto f n s) ≡ read_digits n true s
unfolding str_onto
read_digits-str_onto zero n seen s h = absurd (omega arith)
read_digits-str_onto (suc f) n seen s h = elim (Bool-cases (ltb n 10)) [
  | inl one ↦ rw one (rw (read_digit 0 n seen s (ground arith)) (rw zero-add refl))
  | inr more ↦ rw more (
      read_digits-str_onto f (n / 10) seen (String.◌∷◌ (digit (n % 10)) s) (ground arith)
      ∙ read_digit (n / 10) (n % 10) true s (omega arith)
      ∙ ap (λ (k : ℕ). read_digits k true s) (omega arith))
]

not_space : (c : Char) → is_digit c ≡ true → is_space c ≡ false
unfolding is_digit is_space
not_space c h = ground arith

rstrip-Digits : (s : String) → Digits s → rstrip s ≡ s
unfolding rstrip snoc_unless_space
rstrip-Digits String.[] h = refl
rstrip-Digits (String.◌∷◌ c String.[]) h = rw (not_space c h.0)
rstrip-Digits (String.◌∷◌ c (String.◌∷◌ d s)) h = rw (rstrip-Digits (String.◌∷◌ d s) h.1)

strip-Digits : (s : String) → Digits s → strip s ≡ s
unfolding strip
strip-Digits String.[] h = rstrip-Digits String.[] h
strip-Digits (String.◌∷◌ c s) h =
    unfold lstrip in rw (not_space c h.0) (rstrip-Digits (String.◌∷◌ c s) h)

read_signed-Digits :
    (s : String) → Digits s → read_signed s ≡ Option.map pos (read_digits 0 false s)
unfolding read_signed read_digits is_digit
read_signed-Digits String.[] h = refl
read_signed-Digits (String.◌∷◌ c s) h = ground arith

-- int(str(n)) == n
pub int_of-str : (n : ℕ) → int_of (str n) ≡ some (pos n)
int_of-str n =
    let digits = str_onto-Digits (suc n) n String.[] tt in
    unfold str int_of in
    rw (strip-Digits (str_onto (suc n) n String.[]) digits) (
      rw (read_signed-Digits (str_onto (suc n) n String.[]) digits) (
        rw (read_digits-str_onto (suc n) n false String.[] (omega arith))
          (unfold read_digits in refl)))

pub str-injective : (m n : ℕ) → str m ≡ str n → m ≡ n
str-injective m n e = cc (ap int_of e, int_of-str m, int_of-str n)

-- s[:n]
unfoldable pub first_chars : ℕ → String → String
first_chars zero s = String.[]
first_chars (suc n) String.[] = String.[]
first_chars (suc n) (String.◌∷◌ c s) = String.◌∷◌ c (first_chars n s)
