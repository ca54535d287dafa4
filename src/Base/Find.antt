-- ===== src/Base/Find.antt =====
-- `find` and `rfind` on a text that is known around the place looked for.
use Prim.Native.Nat.{ℕ}
use mathlib.Core.Path.{◌≡◌, refl}
use mathlib.Core.Bool.{true}
use mathlib.Core.List.{[], ◌∷◌, ◌++◌}
use mathlib.Core.Option.{none, some}
use native.Mathlib.Omega.{arith}
use bw_fetcher.Base.Lists.{length, every}
use bw_fetcher.Base.Text.{Bytes, find, rfind, free}

pub find-free : (c : ℕ) (s : Bytes) → free c s ≡ true → find c s ≡ none
unfolding find every
find-free c [] h = refl
find-free c (x ∷ s) h = ground (arith, find-free c s)

pub rfind-free : (c : ℕ) (s : Bytes) → free c s ≡ true → rfind c s ≡ none
unfolding rfind every
rfind-free c [] h = refl
rfind-free c (x ∷ s) h = ground (arith, rfind-free c s)

pub find-append : (c : ℕ) (s t : Bytes) → free c s ≡ true → find c (s ++ (c ∷ t)) ≡ some (length s)
unfolding find every
find-append c [] t h = ground arith
find-append c (x ∷ s) t h = ground (arith, find-append c s t)

pub rfind-append :
    (c : ℕ) (s t : Bytes) → free c t ≡ true → rfind c (s ++ (c ∷ t)) ≡ some (length s)
unfolding rfind
rfind-append c [] t h = ground (arith, rfind-free c t)
rfind-append c (x ∷ s) t h = ground (arith, rfind-append c s t h)
