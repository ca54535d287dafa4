-- ===== src/Base/Text.antt =====
-- `std::string` as a list of byte values, with the members of the class that the program calls.
-- Text literals of the source are ASCII, and are written through `codes`.
use Prim.Native.Nat.{ℕ, suc, ◌+◌}
use Prim.Native.Char.{code}
use Prim.Native.String.{String}
use mathlib.Core.Path.{◌≡◌}
use mathlib.Core.Logic.{◌↔◌}
use mathlib.Core.Bool.{Bool, true, false, ◌&&◌, ◌||◌, not}
use mathlib.Core.List.{List, [], ◌∷◌}
use mathlib.Core.Option
use mathlib.Core.Option.{Option, none, some}
use native.Mathlib.Omega.{arith}
use bw_fetcher.Base.Tests.{ltb, leb, ◌==◌, if◌then◌else◌}
use bw_fetcher.Base.Lists.{length, take, drop, every}

abbrev pub Bytes : Type 0
Bytes = List ℕ

abbrev pub codes : String → Bytes
codes String.[] = []
codes (String.◌∷◌ c s) = code c ∷ codes s

-- `operator==`
unfoldable pub beq : Bytes → Bytes → Bool
beq [] [] = true
beq (x ∷ xs) (y ∷ ys) = x == y && beq xs ys
beq _ _ = false

pub beq_iff : (a b : Bytes) → (beq a b ≡ true) ↔ (a ≡ b)
unfolding beq
beq_iff (x ∷ a) (y ∷ b) = ground (arith, beq_iff a b)
beq_iff _ _ = ground arith

-- `operator<`, lexicographic by byte value
unfoldable pub blt : Bytes → Bytes → Bool
blt _ [] = false
blt [] (y ∷ ys) = true
blt (x ∷ xs) (y ∷ ys) = ltb x y || x == y && blt xs ys

-- `empty()`
abbrev pub is_empty : Bytes → Bool
is_empty [] = true
is_empty (x ∷ xs) = false

abbrev pub within : ℕ → ℕ → ℕ → Bool
within lo hi c = leb lo c && leb c hi

-- `<cctype>` in the C locale
unfoldable pub is_alpha : ℕ → Bool
is_alpha c = within b'a' b'z' c || within b'A' b'Z' c

unfoldable pub is_digit : ℕ → Bool
is_digit c = within b'0' b'9' c

unfoldable pub is_alnum : ℕ → Bool
unfolding is_alpha is_digit
is_alnum c = is_alpha c || is_digit c

unfoldable pub to_lower : ℕ → ℕ
to_lower c = if within b'A' b'Z' c then c + 32 else c

-- `find(c)`: the place of the first occurrence; `none` is `npos`.
unfoldable pub find : ℕ → Bytes → Option ℕ
find c [] = none
find c (x ∷ xs) = if x == c then some 0 else Option.map suc (find c xs)

-- `rfind(c)`: the place of the last occurrence.
unfoldable pub rfind : ℕ → Bytes → Option ℕ
rfind c [] = none
rfind c (x ∷ xs) = elim (rfind c xs) [
  | some i ↦ some (suc i)
  | none ↦ if x == c then some 0 else none
]

-- `substr(i)` is `drop i`, and `substr(i, n)` this.
abbrev pub substr : ℕ → ℕ → Bytes → Bytes
substr i n s = take n (drop i s)

-- `rfind(p, 0) == 0`
unfoldable pub starts_with : Bytes → Bytes → Bool
starts_with [] s = true
starts_with (p ∷ ps) [] = false
starts_with (p ∷ ps) (x ∷ s) = x == p && starts_with ps s

-- `find(p) != npos`
unfoldable pub contains : Bytes → Bytes → Bool
unfolding starts_with
contains p [] = starts_with p []
contains p (x ∷ s) = starts_with p (x ∷ s) || contains p s

-- `find(p)`, with the rest of the text behind the first occurrence.
unfoldable pub after_first : Bytes → Bytes → Option Bytes
unfolding starts_with
after_first p [] = if starts_with p [] then some [] else none
after_first p (x ∷ s) =
    let rest = after_first p s in
    if starts_with p (x ∷ s) then some (drop (length p) (x ∷ s)) else rest

-- The byte does not occur.
abbrev pub free : ℕ → Bytes → Bool
free c = every (λ x. not (x == c))
