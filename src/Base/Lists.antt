-- ===== src/Base/Lists.antt =====
-- Lists measured and indexed by native numbers, and predicates over all their items.
use Prim.Native.Nat.{ℕ, zero, suc, ◌+◌, ◌-◌, min}
use mathlib.Core.Path.{◌≡◌, refl, ap}
use mathlib.Core.Bool.{Bool, true, ◌&&◌, not}
use mathlib.Core.List.{List, [], ◌∷◌, ◌++◌}
use mathlib.Core.Option.{Option, none, some}
use native.Mathlib.Omega.{arith}
use mathlib.Core.Logic.{inl, inr}
use bw_fetcher.Base.Tests.{if◌then◌else◌, Bool-cases}

module _ {ℓ} {A : Type ℓ} where
  abbrev pub length : List A → ℕ
  length [] = 0
  length (x ∷ xs) = suc (length xs)

  abbrev pub take : ℕ → List A → List A
  take zero xs = []
  take (suc n) [] = []
  take (suc n) (x ∷ xs) = x ∷ take n xs

  abbrev pub drop : ℕ → List A → List A
  drop zero xs = xs
  drop (suc n) [] = []
  drop (suc n) (x ∷ xs) = drop n xs

  abbrev pub get_elem? : List A → ℕ → Option A
  get_elem? [] i = none
  get_elem? (x ∷ xs) zero = some x
  get_elem? (x ∷ xs) (suc i) = get_elem? xs i

  abbrev pub replicate : ℕ → A → List A
  replicate zero a = []
  replicate (suc n) a = a ∷ replicate n a

  -- Every item passes the test.
  unfoldable pub every : (A → Bool) → List A → Bool
  every p [] = true
  every p (x ∷ xs) = p x && every p xs

  -- The items before the first one that passes the test, and the rest from there on.
  unfoldable pub before : (A → Bool) → List A → List A
  before p [] = []
  before p (x ∷ xs) = if p x then [] else x ∷ before p xs

  unfoldable pub from : (A → Bool) → List A → List A
  from p [] = []
  from p (x ∷ xs) = if p x then x ∷ xs else from p xs

module _ {ℓ} {A : Type ℓ} where
  pub length-append : (xs ys : List A) → length (xs ++ ys) ≡ length xs + length ys
  length-append [] ys = omega arith
  length-append (x ∷ xs) ys = omega (arith, length-append xs ys)

  pub take-append : (xs ys : List A) → take (length xs) (xs ++ ys) ≡ xs
  take-append [] ys = refl
  take-append (x ∷ xs) ys = ap (◌∷◌ x) (take-append xs ys)

  pub drop-append : (xs ys : List A) → drop (length xs) (xs ++ ys) ≡ ys
  drop-append [] ys = refl
  drop-append (x ∷ xs) ys = drop-append xs ys

  pub drop-append-suc :
      (xs : List A) (y : A) (ys : List A) → drop (suc (length xs)) (xs ++ (y ∷ ys)) ≡ ys
  drop-append-suc [] y ys = refl
  drop-append-suc (x ∷ xs) y ys = drop-append-suc xs y ys

  pub drop-append-two :
      (xs : List A) (y z : A) (ys : List A) → drop (suc (suc (length xs))) (xs ++ (y ∷ z ∷ ys)) ≡ ys
  drop-append-two [] y z ys = refl
  drop-append-two (x ∷ xs) y z ys = drop-append-two xs y z ys

  pub get_elem?-append-suc :
      (xs : List A) (y z : A) (ys : List A)
      → get_elem? (xs ++ (y ∷ z ∷ ys)) (suc (length xs)) ≡ some z
  get_elem?-append-suc [] y z ys = refl
  get_elem?-append-suc (x ∷ xs) y z ys = get_elem?-append-suc xs y z ys

  pub length-take : (n : ℕ) (xs : List A) → length (take n xs) ≡ min n (length xs)
  length-take zero xs = omega arith
  length-take (suc n) [] = omega arith
  length-take (suc n) (x ∷ xs) = omega (arith, length-take n xs)

  pub length-drop : (n : ℕ) (xs : List A) → length (drop n xs) ≡ length xs - n
  length-drop zero xs = omega arith
  length-drop (suc n) [] = omega arith
  length-drop (suc n) (x ∷ xs) = omega (arith, length-drop n xs)

  pub take-append-drop : (n : ℕ) (xs : List A) → take n xs ++ drop n xs ≡ xs
  take-append-drop zero xs = refl
  take-append-drop (suc n) [] = refl
  take-append-drop (suc n) (x ∷ xs) = ap (◌∷◌ x) (take-append-drop n xs)

module _ {ℓ} {A : Type ℓ} (p : A → Bool) where
  pub every-append : (xs ys : List A) → every p (xs ++ ys) ≡ (every p xs && every p ys)
  unfolding every
  every-append [] ys = refl
  every-append (x ∷ xs) ys = ground (arith, every-append xs ys)

  pub every-take : (n : ℕ) (xs : List A) → every p xs ≡ true → every p (take n xs) ≡ true
  unfolding every
  every-take zero xs h = refl
  every-take (suc n) [] h = refl
  every-take (suc n) (x ∷ xs) h = ground (arith, every-take n xs)

  pub every-drop : (n : ℕ) (xs : List A) → every p xs ≡ true → every p (drop n xs) ≡ true
  unfolding every
  every-drop zero xs h = h
  every-drop (suc n) [] h = refl
  every-drop (suc n) (x ∷ xs) h = every-drop n xs (ground arith)

  pub before-append-from : (xs : List A) → before p xs ++ from p xs ≡ xs
  unfolding before from
  before-append-from [] = refl
  before-append-from (x ∷ xs) = ground (arith, before-append-from xs)

  pub every-before : (xs : List A) → every (λ x. not (p x)) (before p xs) ≡ true
  unfolding before every
  every-before [] = refl
  every-before (x ∷ xs) = ground (arith, every-before xs)

  -- A stretch that fails the test, up to an item that passes it or to the end.
  pub before-stop :
      (xs : List A) (y : A) (ys : List A)
      → every (λ x. not (p x)) xs ≡ true
      → p y ≡ true
      → before p (xs ++ (y ∷ ys)) ≡ xs
  unfolding before every
  before-stop [] y ys h e = ground arith
  before-stop (x ∷ xs) y ys h e = ground (arith, before-stop xs y ys)

  pub from-stop :
      (xs : List A) (y : A) (ys : List A)
      → every (λ x. not (p x)) xs ≡ true
      → p y ≡ true
      → from p (xs ++ (y ∷ ys)) ≡ y ∷ ys
  unfolding from every
  from-stop [] y ys h e = ground arith
  from-stop (x ∷ xs) y ys h e = ground (arith, from-stop xs y ys)

  pub before-none : (xs : List A) → every (λ x. not (p x)) xs ≡ true → before p xs ≡ xs
  unfolding before every
  before-none [] h = refl
  before-none (x ∷ xs) h = ground (arith, before-none xs)

  pub from-none : (xs : List A) → every (λ x. not (p x)) xs ≡ true → from p xs ≡ []
  unfolding from every
  from-none [] h = refl
  from-none (x ∷ xs) h = ground (arith, from-none xs)

  -- What the rest begins with passes the test.
  pub from-head : (xs : List A) {y : A} {ys : List A} → from p xs ≡ y ∷ ys → p y ≡ true
  unfolding from
  from-head [] h = cc
  from-head (x ∷ xs) h = elim (Bool-cases (p x)) [
    | inl e ↦ ground arith
    | inr e ↦ from-head xs (rw e at h)
  ]
