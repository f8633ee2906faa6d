-- ===== src/Prelude/Decimal.antt =====
-- `String(n)` for a natural number: its decimal digits.
use Prim.Native.Char.{Char, code}
use Prim.Native.String.{String, [], ◌∷◌, char_at}
use Prim.Native.Nat.{ℕ, zero, suc, ◌+◌, ◌*◌, ◌-◌, ◌/◌, ◌%◌, ◌<◌}
use mathlib.Core.Path.{◌≡◌, refl, sym, ap, ◌∙◌}
use mathlib.Core.Logic.{inl, inr}
use mathlib.Core.Bool.{Bool, true, ◌&&◌}
use native.Mathlib.Omega.{arith}
use fullstack_starter.Prelude.Tests.{ltb, eqb, Bool-cases, if◌then◌else◌, eqb_iff}

digit : ℕ → Char
digit n = char_at "0123456789" n

-- the digits of a number before a text, with fuel
decimal_from : ℕ → ℕ → String → String
decimal_from zero n s = s
decimal_from (suc fuel) n s =
    let more = decimal_from fuel (n / 10) (digit (n % 10) ∷ s) in
    if ltb n 10 then digit n ∷ s else more

unfoldable pub decimal : ℕ → String
unfolding decimal_from digit
decimal n = decimal_from (suc n) n []

prints : decimal 1203 ≡ "1203"
unfolding decimal
prints = refl

-- the number that a text of digits continues
value_from : ℕ → String → ℕ
value_from n [] = n
value_from n (c ∷ s) = value_from (n * 10 + (code c - 48)) s

-- a digit whose code gives the number back
is_read_back : ℕ → Bool
unfolding digit
is_read_back n = eqb (code (digit n) - 48) n

read_back_up_to : ℕ → Bool
read_back_up_to zero = true
read_back_up_to (suc bound) = read_back_up_to bound && is_read_back bound

read_back_at :
    (bound digits : ℕ) → digits < bound → read_back_up_to bound ≡ true → is_read_back digits ≡ true
unfolding read_back_up_to
read_back_at (suc bound) n below tested = ground (arith, tested, read_back_at bound n)
read_back_at zero n below tested = absurd (omega (arith, below))

all_digits : read_back_up_to 10 ≡ true
unfolding read_back_up_to is_read_back digit
all_digits = refl

code-digit : (n : ℕ) → n < 10 → code (digit n) - 48 ≡ n
unfolding is_read_back
code-digit n h = (eqb_iff _ n).0 (read_back_at 10 n h all_digits)

-- The fuel is enough: the number can be read back.
value-decimal_from :
    (fuel n : ℕ) (s : String) → n < fuel → value_from 0 (decimal_from fuel n s) ≡ value_from n s
unfolding decimal_from value_from
value-decimal_from zero n s h = absurd (omega arith)
value-decimal_from (suc fuel) n s h = elim (Bool-cases (ltb n 10)) [
  | inl small ↦
      rw small (
        ap (λ k. value_from k s) (ap (λ d. 0 * 10 + d) (code-digit n (ground arith)) ∙ omega arith))
  | inr large ↦ rw large (
      value-decimal_from fuel (n / 10) (digit (n % 10) ∷ s) (ground arith)
      ∙ ap (λ k. value_from k s)
          (ap (λ d. n / 10 * 10 + d) (code-digit (n % 10) (omega arith)) ∙ omega arith))
]

value-decimal : (n : ℕ) → value_from 0 (decimal n) ≡ n
unfolding decimal value_from
value-decimal n = value-decimal_from (suc n) n [] (omega arith)

-- Two numbers have one text only if they are equal.
pub decimal-injective : (m n : ℕ) → decimal m ≡ decimal n → m ≡ n
decimal-injective m n h = sym (value-decimal m) ∙ ap (value_from 0) h ∙ value-decimal n
