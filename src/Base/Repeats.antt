-- ===== src/Base/Repeats.antt =====
-- Lists without repetition, and the order in which a set was filled.
use mathlib.Core.Path.{◌≡◌, refl}
use mathlib.Core.Bool.{Bool, true, false, not}
use mathlib.Core.List.{List, [], ◌∷◌, ◌++◌}
use native.Mathlib.Omega.{arith}
use bw_fetcher.Base.Lists.{every}
use bw_fetcher.Base.Maps.{Key, member}

-- The items of a list put in front of another, one by one.
abbrev pub rev_onto {ℓ} : {A : Type ℓ} → List A → List A → List A
rev_onto [] s = s
rev_onto (x ∷ xs) s = rev_onto xs (x ∷ s)

pub rev_onto-append {ℓ} :
    {A : Type ℓ} (xs ys s : List A) → rev_onto (xs ++ ys) s ≡ rev_onto ys (rev_onto xs s)
rev_onto-append [] ys s = refl
rev_onto-append (x ∷ xs) ys s = rev_onto-append xs ys (x ∷ s)

module _ {ℓ} {K : Type ℓ} ⦃key : Key K⦄ where
  abbrev pub Distinct : List K → Type 0
  Distinct [] = Unit
  Distinct (x ∷ xs) = (member x xs ≡ false) × Distinct xs

  abbrev pub outside : List K → K → Bool
  outside s x = not (member x s)

  Distinct-tail :
      (xs : List K) (x : K) (s : List K)
      → every (outside (x ∷ s)) xs ≡ true
      → (member x xs ≡ false) × (every (outside s) xs ≡ true)
  unfolding every member
  Distinct-tail [] x s h = (refl, refl)
  Distinct-tail (y ∷ xs) x s h =
      ground (arith, Distinct-tail xs x s, key.eq_iff x y, key.eq_iff y x)

  -- What was put in front one by one, if nothing stands twice in the end, stood nowhere before.
  pub Distinct-rev_onto :
      (xs s : List K)
      → Distinct (rev_onto xs s)
      → Distinct xs × (every (outside s) xs ≡ true) × Distinct s
  unfolding every
  Distinct-rev_onto [] s h = (tt, refl, h)
  Distinct-rev_onto (x ∷ xs) s h =
      let (d, e, t) = Distinct-rev_onto xs (x ∷ s) h in
      let (m, r) = Distinct-tail xs x s e in ((m, d), ground arith, t.1)
