-- ===== src/Base/Decimal.antt =====
-- Decimal text: `std::to_string`, `"%03d"` and `std::from_chars`.
use Prim.Native.Nat.{ℕ, zero, suc, ◌+◌, ◌-◌, ◌*◌, ◌/◌, ◌%◌, ◌^◌, ◌<◌}
use mathlib.Core.Path.{◌≡◌, ap, sym, ◌∙◌}
use mathlib.Core.Logic.{inl, inr}
use mathlib.Core.Bool.{Bool, true, false}
use mathlib.Core.List.{[], ◌∷◌, ◌++◌}
use mathlib.Core.Option.{Option, none, some}
use native.Mathlib.Omega.{arith}
use bw_fetcher.Base.Tests.{ltb, ◌==◌, if◌then◌else◌, Bool-cases}
use bw_fetcher.Base.Lists.{length, before, from, replicate}
use bw_fetcher.Base.Text.{Bytes, is_digit}
use bw_fetcher.Base.Int.{ℤ, pos, negsuc}

-- Digits from the last to the first; the fuel bounds their number.
unfoldable pub digits_onto : ℕ → ℕ → Bytes → Bytes
digits_onto zero n out = out
digits_onto (suc f) n out =
    let rest = digits_onto f (n / 10) ((b'0' + n % 10) ∷ out) in
    if ltb n 10 then (b'0' + n) ∷ out else rest

unfoldable pub to_string : ℕ → Bytes
unfolding digits_onto
to_string n = digits_onto (suc n) n []

unfoldable pub int_to_string : ℤ → Bytes
unfolding to_string
int_to_string (pos n) = to_string n
int_to_string (negsuc n) = b'-' ∷ to_string (suc n)

-- `snprintf("%03d")`: at least three characters, a sign among them.
unfoldable pub zero_padded : ℕ → Bytes → Bytes
zero_padded w s = replicate (w - length s) b'0' ++ s

unfoldable pub three_digits : ℤ → Bytes
unfolding zero_padded to_string
three_digits (pos n) = zero_padded 3 (to_string n)
three_digits (negsuc n) = b'-' ∷ zero_padded 2 (to_string (suc n))

-- The value of a row of digits, behind what was read before.
unfoldable pub value_onto : ℕ → Bytes → ℕ
value_onto v [] = v
value_onto v (c ∷ s) = value_onto (v * 10 + (c - b'0')) s

-- `std::from_chars` into an `int`: the value, unless there is no digit or it does not fit, and the
-- text from the first byte that is not read.
abbrev pub int_max : ℕ
int_max = 2 ^ 31 - 1

abbrev not_digit : ℕ → Bool
not_digit c = if is_digit c then false else true

unfoldable pub unsigned_chars : ℕ → Bytes → Option (ℕ × Bytes)
unsigned_chars limit s = elim (before not_digit s) [
  | [] ↦ none
  | c ∷ ds ↦
      if ltb limit (value_onto 0 (c ∷ ds))
      then none
      else some (value_onto 0 (c ∷ ds), from not_digit s)
]

abbrev negated : Option (ℕ × Bytes) → Option (ℤ × Bytes)
negated none = none
negated (some (zero, rest)) = some (pos 0, rest)
negated (some (suc n, rest)) = some (negsuc n, rest)

abbrev positive : Option (ℕ × Bytes) → Option (ℤ × Bytes)
positive none = none
positive (some (n, rest)) = some (pos n, rest)

unfoldable pub from_chars : Bytes → Option (ℤ × Bytes)
unfolding unsigned_chars value_onto
from_chars [] = none
from_chars (c ∷ s) =
    if c == b'-'
    then negated (unsigned_chars (suc int_max) s)
    else positive (unsigned_chars int_max (c ∷ s))

-- `from_chars` into a variable that holds `d`: what the variable holds afterwards.
unfoldable pub from_chars_or : ℤ → Bytes → ℤ
from_chars_or d s = elim (from_chars s) [ none ↦ d | some (v, rest) ↦ v ]

value_onto-digits_onto :
    (f n : ℕ) (out : Bytes) → n < f → value_onto 0 (digits_onto f n out) ≡ value_onto n out
unfolding value_onto digits_onto
value_onto-digits_onto zero n out h = absurd (omega arith)
value_onto-digits_onto (suc f) n out h = elim (Bool-cases (ltb n 10)) [
  | inl small ↦ rw small (ap (λ k. value_onto k out) (omega arith))
  | inr large ↦ rw large (
      value_onto-digits_onto f (n / 10) ((b'0' + n % 10) ∷ out) (ground arith)
      ∙ ap (λ k. value_onto k out) (omega arith))
]

pub value-to_string : (n : ℕ) → value_onto 0 (to_string n) ≡ n
unfolding to_string value_onto
value-to_string n = value_onto-digits_onto (suc n) n [] (omega arith)

pub to_string-injective : (m n : ℕ) → to_string m ≡ to_string n → m ≡ n
to_string-injective m n e = sym (value-to_string m) ∙ ap (value_onto 0) e ∙ value-to_string n
