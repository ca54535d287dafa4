-- ===== src/Base/Maps.antt =====
-- `std::map`, an association list kept in the order of its keys, and `std::unordered_set`, of
-- which the program only asks membership.
use mathlib.Core.Path.{◌≡◌, refl}
use mathlib.Core.Logic.{◌↔◌}
use mathlib.Core.Bool.{Bool, true, false, ◌||◌, ◌&&◌}
use mathlib.Core.List.{List, [], ◌∷◌}
use mathlib.Core.Option.{Option, none, some}
use Prim.Native.Nat.{ℕ}
use native.Mathlib.Omega.{arith}
use bw_fetcher.Base.Tests.{ltb, ◌==◌, ==_iff, if◌then◌else◌}
use bw_fetcher.Base.Text.{Bytes, beq, beq_iff, blt}

-- What a key type offers: equality and an order.
pub record Key {ℓ} (K : Type ℓ) : Type ℓ where
  pub eq : K → K → Bool
  pub lt : K → K → Bool
  pub eq_iff : (a b : K) → (eq a b ≡ true) ↔ (a ≡ b)
  pub lt_irrefl : (a : K) → lt a a ≡ false
  pub lt_trans : (a b c : K) → lt a b ≡ true → lt b c ≡ true → lt a c ≡ true
  pub lt_total : (a b : K) → lt a b ≡ false → eq b a ≡ false → lt b a ≡ true

pub blt_irrefl : (a : Bytes) → blt a a ≡ false
unfolding blt
blt_irrefl [] = refl
blt_irrefl (x ∷ a) = ground (arith, blt_irrefl a)

pub blt_trans : (a b c : Bytes) → blt a b ≡ true → blt b c ≡ true → blt a c ≡ true
unfolding blt
blt_trans a b [] h k = cc
blt_trans a [] (z ∷ c) h k = cc
blt_trans [] (y ∷ b) (z ∷ c) h k = refl
blt_trans (x ∷ a) (y ∷ b) (z ∷ c) h k = ground (arith, blt_trans a b c)

pub blt_total : (a b : Bytes) → blt a b ≡ false → beq b a ≡ false → blt b a ≡ true
unfolding blt beq
blt_total [] [] h k = cc
blt_total [] (y ∷ b) h k = cc
blt_total (x ∷ a) [] h k = refl
blt_total (x ∷ a) (y ∷ b) h k = ground (arith, blt_total a b)

pub ltb_irrefl : (a : ℕ) → ltb a a ≡ false
ltb_irrefl a = ground arith

pub ltb_trans : (a b c : ℕ) → ltb a b ≡ true → ltb b c ≡ true → ltb a c ≡ true
ltb_trans a b c h k = ground arith

pub ltb_total : (a b : ℕ) → ltb a b ≡ false → (b == a) ≡ false → ltb b a ≡ true
ltb_total a b h k = ground arith

instance abbrev pub bytes_key : Key Bytes
bytes_key = record {
  eq = beq;
  lt = blt;
  eq_iff = beq_iff;
  lt_irrefl = blt_irrefl;
  lt_trans = blt_trans;
  lt_total = blt_total;
}

abbrev nat_eq : ℕ → ℕ → Bool
nat_eq a b = a == b

instance abbrev pub nat_key : Key ℕ
nat_key = record {
  eq = nat_eq;
  lt = ltb;
  eq_iff = ==_iff;
  lt_irrefl = ltb_irrefl;
  lt_trans = ltb_trans;
  lt_total = ltb_total;
}

abbrev pub Dict {ℓ κ} : Type ℓ → Type κ → Type (ℓ ⊔ κ)
Dict K V = List (K × V)

module _ {ℓ κ} {K : Type ℓ} {V : Type κ} ⦃key : Key K⦄ where
  -- `find(k)`
  unfoldable pub lookup : K → Dict K V → Option V
  lookup k [] = none
  lookup k ((j, v) ∷ m) = if key.eq j k then some v else lookup k m

  -- `m[k] = v`
  unfoldable pub insert : K → V → Dict K V → Dict K V
  insert k v [] = (k, v) ∷ []
  insert k v ((j, w) ∷ m) =
      if key.eq j k
      then (k, v) ∷ m
      else if key.lt k j
      then (k, v) ∷ (j, w) ∷ m
      else (j, w) ∷ insert k v m

  -- `erase(k)`; the loop has no early exit here, since a key stands once.
  unfoldable pub erase : K → Dict K V → Dict K V
  erase k [] = []
  erase k ((j, w) ∷ m) = let rest = erase k m in if key.eq j k then rest else (j, w) ∷ rest

  pub lookup-head :
      (k : K) (v : V) (j : K) (m : Dict K V) → key.eq k j ≡ true → lookup j ((k, v) ∷ m) ≡ some v
  unfolding lookup
  lookup-head k v j m h = rw h

  pub lookup-tail :
      (k : K) (v : V) (j : K) (m : Dict K V)
      → key.eq k j ≡ false
      → lookup j ((k, v) ∷ m) ≡ lookup j m
  unfolding lookup
  lookup-tail k v j m h = rw h

  pub lookup-insert :
      (k j : K) (v : V) (m : Dict K V)
      → lookup j (insert k v m) ≡ (if key.eq k j then some v else lookup j m)
  unfolding lookup insert
  lookup-insert k j new [] = refl
  lookup-insert k j new ((i, old) ∷ rest) =
      ground (arith, key.eq_iff k j, key.eq_iff i k, key.eq_iff i j, lookup-insert k j new rest)

  pub lookup-erase :
      (k j : K) (m : Dict K V) → lookup j (erase k m) ≡ (if key.eq k j then none else lookup j m)
  unfolding lookup erase
  lookup-erase k j [] = ground arith
  lookup-erase k j ((i, w) ∷ m) =
      ground (arith, key.eq_iff k j, key.eq_iff i k, key.eq_iff i j, lookup-erase k j m)

-- `count(x)` of a set, as a list of what was inserted.
module _ {ℓ} {K : Type ℓ} ⦃key : Key K⦄ where
  unfoldable pub member : K → List K → Bool
  member k [] = false
  member k (j ∷ s) = key.eq j k || member k s

-- Pairs of texts, in lexicographic order.
abbrev pub Text2 : Type 0
Text2 = Bytes × Bytes

unfoldable pub pair_eq : Text2 → Text2 → Bool
pair_eq (a, b) (c, d) = beq a c && beq b d

unfoldable pub pair_lt : Text2 → Text2 → Bool
pair_lt (a, b) (c, d) = blt a c || beq a c && blt b d

pub pair_eq_iff : (p q : Text2) → (pair_eq p q ≡ true) ↔ (p ≡ q)
unfolding pair_eq
pair_eq_iff (a, b) (c, d) = ground (arith, beq_iff a c, beq_iff b d)

pub pair_lt_irrefl : (p : Text2) → pair_lt p p ≡ false
unfolding pair_lt
pair_lt_irrefl (a, b) = ground (arith, blt_irrefl a, blt_irrefl b)

pub pair_lt_trans : (p q r : Text2) → pair_lt p q ≡ true → pair_lt q r ≡ true → pair_lt p r ≡ true
unfolding pair_lt
pair_lt_trans (a, b) (c, d) (e, f) h k =
    ground (arith, blt_trans a c e, blt_trans b d f, beq_iff a c, beq_iff c e, beq_iff a e)

pub pair_lt_total : (p q : Text2) → pair_lt p q ≡ false → pair_eq q p ≡ false → pair_lt q p ≡ true
unfolding pair_lt pair_eq
pair_lt_total (a, b) (c, d) h k =
    ground (arith, blt_total a c, blt_total b d, beq_iff a c, beq_iff c a, beq_iff b d, beq_iff d b)

instance abbrev pub pair_key : Key Text2
pair_key = record {
  eq = pair_eq;
  lt = pair_lt;
  eq_iff = pair_eq_iff;
  lt_irrefl = pair_lt_irrefl;
  lt_trans = pair_lt_trans;
  lt_total = pair_lt_total;
}
