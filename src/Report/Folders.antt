-- ===== src/Report/Folders.antt =====
-- Where present entries go.
use bw_fetcher.Catalog.{PresentCatalogEntry}
use bw_fetcher.Report.{add_part, split_slashes, present_category_dir, PresentCatalogEntry}
use bw_fetcher.Base.{
  sym, ℕ, ◌≡◌, ◌≢◌, inl, inr, refl, ap, ◌∙◌, true, false, not, List, [], ◌∷◌, ◌++◌, arith, ◌==◌,
  if◌then◌else◌, Bool-cases, Bytes, bytes_key, nat_key, pair_key, free, every, every-append,
  append_assoc, subst, append-nil, ==_iff,
}

-- Every part is a path component: not empty, and without a slash.
abbrev pub AreParts : List Bytes → Type 0
AreParts [] = Unit
AreParts (p ∷ ps) = (p ≢ []) × (free b'/' p ≡ true) × AreParts ps

-- The parts in one text, without the slashes.
abbrev pub joined_parts : List Bytes → Bytes
joined_parts [] = []
joined_parts (p ∷ ps) = p ++ joined_parts ps

-- A text without its slashes.
unfoldable pub unslashed : Bytes → Bytes
unslashed [] = []
unslashed (c ∷ s) = let rest = unslashed s in if c == b'/' then rest else c ∷ rest

add_part-AreParts :
    (p : Bytes) (ps : List Bytes) → free b'/' p ≡ true → AreParts ps → AreParts (add_part p ps)
unfolding add_part
add_part-AreParts [] ps f a = a
add_part-AreParts (c ∷ p) ps f a = ((λ e. cc), f, a)

add_part-joined :
    (p : Bytes) (ps : List Bytes) → joined_parts (add_part p ps) ≡ p ++ joined_parts ps
unfolding add_part
add_part-joined [] ps = refl
add_part-joined (c ∷ p) ps = refl

free-snoc :
    (p : Bytes) (c : ℕ)
    → free b'/' p ≡ true
    → (c == b'/') ≡ false
    → free b'/' (p ++ (c ∷ [])) ≡ true
unfolding every
free-snoc p c f n = ground (arith, every-append (λ x. not (x == b'/')) p (c ∷ []))

split_slashes-slash :
    (begun : Bytes) (c : ℕ) (s : Bytes)
    → (c == b'/') ≡ true
    → split_slashes begun (c ∷ s) ≡ add_part begun (split_slashes [] s)
unfolding split_slashes
split_slashes-slash begun c s slash = rw (split_slashes, slash)

split_slashes-other :
    (begun : Bytes) (c : ℕ) (s : Bytes)
    → (c == b'/') ≡ false
    → split_slashes begun (c ∷ s) ≡ split_slashes (begun ++ (c ∷ [])) s
unfolding split_slashes
split_slashes-other begun c s other = rw (split_slashes, other)

split_slashes-AreParts :
    (begun s : Bytes)
    → free b'/' begun ≡ true
    → AreParts (split_slashes begun s)
      × (joined_parts (split_slashes begun s) ≡ begun ++ unslashed s)
unfolding unslashed every
split_slashes-AreParts begun [] f =
    unfold split_slashes in (add_part-AreParts begun [] f tt, add_part-joined begun [])
split_slashes-AreParts begun (c ∷ s) f = elim (Bool-cases (c == b'/')) [
  | inl slash ↦
      let (a, e) = split_slashes-AreParts [] s refl in
      rw (split_slashes-slash begun c s slash, slash)
        (
          add_part-AreParts begun (split_slashes [] s) f a,
          add_part-joined begun (split_slashes [] s) ∙ ap (λ t. begun ++ t) e,
        )
  | inr other ↦
      let (a, e) = split_slashes-AreParts (begun ++ (c ∷ [])) s (free-snoc begun c f other) in
      rw (split_slashes-other begun c s other, other)
        (a, e ∙ append_assoc begun (c ∷ []) (unslashed s))
]

-- The parts of a text between its slashes, without the empty ones.
pub data Splits : Bytes → List Bytes → Type 0 where
  nothing : Splits [] []
  skipped : (s : Bytes) (ps : List Bytes) → Splits s ps → Splits (b'/' ∷ s) ps
  last_part : (p : Bytes) → p ≢ [] → free b'/' p ≡ true → Splits p (p ∷ [])
  first_part :
      (p s : Bytes) (ps : List Bytes)
      → p ≢ []
      → free b'/' p ≡ true
      → Splits s ps
      → Splits (p ++ (b'/' ∷ s)) (p ∷ ps)

add_part-last : (p : Bytes) → free b'/' p ≡ true → Splits p (add_part p [])
unfolding add_part
add_part-last [] f = nothing
add_part-last (c ∷ p) f = last_part (c ∷ p) (λ e. cc) f

add_part-first :
    (p s : Bytes) (ps : List Bytes)
    → free b'/' p ≡ true
    → Splits s ps
    → Splits (p ++ (b'/' ∷ s)) (add_part p ps)
unfolding add_part
add_part-first [] s ps f w = skipped s ps w
add_part-first (c ∷ p) s ps f w = first_part (c ∷ p) s ps (λ e. cc) f w

split_slashes-Splits :
    (begun s : Bytes) → free b'/' begun ≡ true → Splits (begun ++ s) (split_slashes begun s)
split_slashes-Splits begun [] f =
    subst (λ t. Splits t (split_slashes begun [])) (sym (append-nil begun))
      (unfold split_slashes in add_part-last begun f)
split_slashes-Splits begun (c ∷ s) f = elim (Bool-cases (c == b'/')) [
  | inl slash ↦
      subst (λ d. Splits (begun ++ (d ∷ s)) (split_slashes begun (c ∷ s)))
        (sym ((==_iff c b'/').0 slash))
        (rw (split_slashes-slash begun c s slash)
          (add_part-first begun s _ f (split_slashes-Splits [] s (unfold every in refl))))
  | inr other ↦ rw (split_slashes-other begun c s other) (
      subst (λ t. Splits t (split_slashes (begun ++ (c ∷ [])) s)) (append_assoc begun (c ∷ []) s)
        (split_slashes-Splits (begun ++ (c ∷ [])) s (free-snoc begun c f other)))
]

-- The folder of a present entry has components that are not empty and hold no slash, and they are, in their order,
-- the parts of the entry's discovery source between its slashes, none left out but the empty ones.
pub present_category_dir-AreParts :
    (entry : PresentCatalogEntry)
    → AreParts (present_category_dir entry)
      × (joined_parts (present_category_dir entry) ≡ unslashed entry.discovery_source)
      × Splits entry.discovery_source (present_category_dir entry)
unfolding present_category_dir every
present_category_dir-AreParts entry =
    let (parts, joined) = split_slashes-AreParts [] entry.discovery_source refl in
    (parts, joined, split_slashes-Splits [] entry.discovery_source refl)
