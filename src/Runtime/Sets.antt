-- ===== src/Runtime/Sets.antt =====
-- The sets and queues of the requests of a page: membership under `remove`, `filter` and `rev_onto`.
use bw_fetcher.Runtime.{remove}
use bw_fetcher.Base.{
  ◌≡◌, inl, inr, refl, ap, Bool, true, false, not, ◌&&◌, ◌||◌, List, [], ◌∷◌, ◌++◌, arith,
  if◌then◌else◌, Bool-cases, Bytes, bytes_key, nat_key, pair_key, member, Distinct, rev_onto,
  beq_iff, beq,
}

pub member-remove :
    (u x : Bytes) (s : List Bytes) → member u (remove x s) ≡ (member u s && not (beq x u))
unfolding member remove
member-remove u x [] = refl
member-remove u x (y ∷ s) =
    ground (arith, member-remove u x s, beq_iff y x, beq_iff y u, beq_iff x u)

pub member-rev_onto :
    (u : Bytes) (xs s : List Bytes) → member u (rev_onto xs s) ≡ (member u xs || member u s)
unfolding member
member-rev_onto u [] s = refl
member-rev_onto u (x ∷ xs) s = ground (arith, member-rev_onto u xs (x ∷ s))

pub member-append :
    (u : Bytes) (xs ys : List Bytes) → member u (xs ++ ys) ≡ (member u xs || member u ys)
unfolding member
member-append u [] ys = refl
member-append u (x ∷ xs) ys = ground (arith, member-append u xs ys)

pub Distinct-snoc :
    (xs : List Bytes) (x : Bytes) → Distinct xs → member x xs ≡ false → Distinct (xs ++ (x ∷ []))
unfolding member
Distinct-snoc [] x d n = (refl, tt)
Distinct-snoc (y ∷ xs) x d n = (
  ground (arith, member-append y xs (x ∷ []), d.0, beq_iff y x, beq_iff x y),
  Distinct-snoc xs x d.1 (ground arith),
)

-- The items for which a test of the URL holds.
unfoldable pub keep : (Bytes → Bool) → List Bytes → List Bytes
keep p [] = []
keep p (x ∷ xs) = let rest = keep p xs in if p x then x ∷ rest else rest

pub member-keep :
    (p : Bytes → Bool) (u : Bytes) (xs : List Bytes) → member u (keep p xs) ≡ (member u xs && p u)
unfolding member keep
member-keep p u [] = refl
member-keep p u (x ∷ xs) = ground (arith, member-keep p u xs, beq_iff x u)

pub Distinct-keep : (p : Bytes → Bool) (xs : List Bytes) → Distinct xs → Distinct (keep p xs)
unfolding keep
Distinct-keep p [] d = tt
Distinct-keep p (x ∷ xs) d = elim (Bool-cases (p x)) [
  | inl kept ↦ rw kept (ground (arith, member-keep p x xs, d.0), Distinct-keep p xs d.1)
  | inr dropped ↦ rw dropped (Distinct-keep p xs d.1)
]

-- Distinct items put in front of distinct others.
pub Distinct-onto :
    (xs s : List Bytes)
    → Distinct xs
    → Distinct s
    → ((u : Bytes) → member u xs ≡ true → member u s ≡ false)
    → Distinct (rev_onto xs s)
unfolding member
Distinct-onto [] s d e a = e
Distinct-onto (x ∷ xs) s d e a =
    Distinct-onto xs (x ∷ s) d.1 (a x (ground (arith, beq_iff x x)), e)
      (λ u m. elim (Bool-cases (beq x u)) [
        | inl same ↦
            let same' : x ≡ u = (beq_iff x u).0 same in
            ground (arith, d.0, m, ap (λ y. member y xs) same')
        | inr other ↦ ground (arith, a u, other, m)
      ])
