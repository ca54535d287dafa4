-- ===== src/Base/Sorted.antt =====
-- A `std::map` stays in the order of its keys, so that a key stands in it once.
use mathlib.Core.Path.{◌≡◌, refl}
use mathlib.Core.Logic.{inl, inr}
use mathlib.Core.Bool.{true}
use mathlib.Core.List.{[], ◌∷◌}
use mathlib.Core.Option.{none}
use native.Mathlib.Omega.{arith}
use bw_fetcher.Base.Tests.{Bool-cases}
use bw_fetcher.Base.Maps.{Key, Dict, lookup, insert}

module _ {ℓ κ} {K : Type ℓ} {V : Type κ} ⦃key : Key K⦄ where
  abbrev pub Above : K → Dict K V → Type 0
  Above k [] = Unit
  Above k ((j, v) ∷ m) = (key.lt k j ≡ true) × Above k m

  abbrev pub IsSorted : Dict K V → Type 0
  IsSorted [] = Unit
  IsSorted ((k, v) ∷ m) = Above k m × IsSorted m

  Above-trans : (i k : K) (m : Dict K V) → key.lt i k ≡ true → Above k m → Above i m
  Above-trans i k [] h a = tt
  Above-trans i k ((j, v) ∷ m) h a = (key.lt_trans i k j h a.0, Above-trans i k m h a.1)

  Above-insert :
      (i k : K) (v : V) (m : Dict K V) → key.lt i k ≡ true → Above i m → Above i (insert k v m)
  unfolding insert
  Above-insert i k v [] h a = (h, tt)
  Above-insert i k v ((j, w) ∷ m) h a = elim (Bool-cases (key.eq j k)) [
    | inl same ↦ rw same (h, a.1)
    | inr other ↦ elim (Bool-cases (key.lt k j)) [
      | inl less ↦ rw (other, less) (h, a)
      | inr more ↦ rw (other, more) (a.0, Above-insert i k v m h a.1)
    ]
  ]

  pub insert-IsSorted : (k : K) (v : V) (m : Dict K V) → IsSorted m → IsSorted (insert k v m)
  unfolding insert
  insert-IsSorted k v [] s = (tt, tt)
  insert-IsSorted k v ((j, w) ∷ m) s = elim (Bool-cases (key.eq j k)) [
    | inl same ↦ rw same (rw ((key.eq_iff j k).0 same) at s.0, s.1)
    | inr other ↦ elim (Bool-cases (key.lt k j)) [
      | inl less ↦ rw (other, less) ((less, Above-trans k j m less s.0), s)
      | inr more ↦
          rw (other, more)
            (Above-insert j k v m (key.lt_total k j more other) s.0, insert-IsSorted k v m s.1)
    ]
  ]

  pub lookup-Above : (k : K) (m : Dict K V) → Above k m → lookup k m ≡ none
  unfolding lookup
  lookup-Above k [] a = refl
  lookup-Above k ((j, v) ∷ m) a = ground (arith, key.lt_irrefl k, key.eq_iff j k, lookup-Above k m)
