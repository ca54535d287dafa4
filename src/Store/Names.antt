-- ===== src/Store/Names.antt =====
-- The names that `sanitize_path_label`, `url_path_slug` and `request_folder_name` make are single,
-- harmless path components.
use bw_fetcher.Base.{
  ℕ, ◌≤◌, ◌<◌, ◌≡◌, ◌≢◌, inl, inr, refl, ap, Bool, true, false, not, ◌||◌, [], ◌∷◌, map, arith, ltb,
  if◌then◌else◌, Bool-cases, Bytes, codes, length, every, every-take, take, is_empty, beq, catch,
  subst, length-take, ok, err,
}
use bw_fetcher.Url.{parse_url, ParsedUrl}
use bw_fetcher.Store.{
  is_forbidden, replace_byte, is_trailing, keep_unless_last, pop_trailing, or_default,
  sanitize_path_label, last_segment, slug_of, url_path_slug,
}

abbrev pub allowed : ℕ → Bool
allowed c = not (is_forbidden c)

-- One path component that is neither empty nor a relative directory.
pub record IsLabel (s : Bytes) : Type 0 where
  pub ne_nil : s ≢ []
  pub chars : every allowed s ≡ true
  pub ne_dot : s ≢ codes "."
  pub ne_dots : s ≢ codes ".."

-- The last byte is not one that is popped.
abbrev EndsWell : Bytes → Type 0
EndsWell [] = Unit
EndsWell (c ∷ []) = is_trailing c ≡ false
EndsWell (c ∷ d ∷ s) = EndsWell (d ∷ s)

replace_byte-allowed : (c : ℕ) → allowed (replace_byte c) ≡ true
unfolding replace_byte
replace_byte-allowed c = ground arith

every-map-replace_byte : (s : Bytes) → every allowed (map replace_byte s) ≡ true
unfolding every
every-map-replace_byte [] = refl
every-map-replace_byte (c ∷ s) = ground (arith, replace_byte-allowed c, every-map-replace_byte s)

every-keep_unless_last :
    (c : ℕ) (s : Bytes)
    → allowed c ≡ true
    → every allowed s ≡ true
    → every allowed (keep_unless_last c s) ≡ true
unfolding every keep_unless_last
every-keep_unless_last c [] h k = ground arith
every-keep_unless_last c (d ∷ s) h k = ground arith

every-pop_trailing : (s : Bytes) → every allowed s ≡ true → every allowed (pop_trailing s) ≡ true
unfolding every pop_trailing
every-pop_trailing [] h = refl
every-pop_trailing (c ∷ s) h =
    every-keep_unless_last c (pop_trailing s) (ground arith) (every-pop_trailing s (ground arith))

keep_unless_last-EndsWell : (c : ℕ) (s : Bytes) → EndsWell s → EndsWell (keep_unless_last c s)
unfolding keep_unless_last
keep_unless_last-EndsWell c [] h = elim (Bool-cases (is_trailing c)) [
  | inl e ↦ rw e tt
  | inr e ↦ rw e e
]
keep_unless_last-EndsWell c (d ∷ s) h = h

pop_trailing-EndsWell : (s : Bytes) → EndsWell (pop_trailing s)
unfolding pop_trailing
pop_trailing-EndsWell [] = tt
pop_trailing-EndsWell (c ∷ s) =
    keep_unless_last-EndsWell c (pop_trailing s) (pop_trailing-EndsWell s)

or_default-ne-nil : (d s : Bytes) → d ≢ [] → or_default d s ≢ []
unfolding or_default
or_default-ne-nil d [] h = h
or_default-ne-nil d (c ∷ s) h = λ e. cc

EndsWell-ne_dots : (s : Bytes) → EndsWell s → (s ≢ codes ".") × (s ≢ codes "..")
unfolding is_trailing
EndsWell-ne_dots s h = (
  λ e. let h' : is_trailing b'.' ≡ false = subst EndsWell e h in cc,
  λ e. let h' : is_trailing b'.' ≡ false = subst EndsWell e h in cc,
)

or_default-IsLabel :
    (d s : Bytes) → IsLabel d → EndsWell s → every allowed s ≡ true → IsLabel (or_default d s)
unfolding or_default
or_default-IsLabel d [] l h k = l
or_default-IsLabel d (c ∷ s) l h k = record {
  ne_nil = λ e. cc;
  chars = k;
  ne_dot = (EndsWell-ne_dots (c ∷ s) h).0;
  ne_dots = (EndsWell-ne_dots (c ∷ s) h).1;
}

unknown-IsLabel : IsLabel (codes "unknown")
unfolding every is_forbidden
unknown-IsLabel = record { ne_nil = λ e. cc; chars = refl; ne_dot = λ e. cc; ne_dots = λ e. cc }

resource-IsLabel : IsLabel (codes "resource")
unfolding every is_forbidden
resource-IsLabel = record { ne_nil = λ e. cc; chars = refl; ne_dot = λ e. cc; ne_dots = λ e. cc }

-- Every label is one harmless path component: not empty, without any of the replaced characters,
-- and neither "." nor "..".
pub sanitize_path_label-IsLabel : (s : Bytes) → IsLabel (sanitize_path_label s)
unfolding sanitize_path_label
sanitize_path_label-IsLabel s =
    or_default-IsLabel (codes "unknown") (pop_trailing (map replace_byte s)) unknown-IsLabel
      (pop_trailing-EndsWell (map replace_byte s))
      (every-pop_trailing (map replace_byte s) (every-map-replace_byte s))

ne_of_length : (s t : Bytes) → length t < length s → s ≢ t
ne_of_length s t h = λ e. absurd (omega (arith, ap (λ u. length u) e))

-- Cutting a long label leaves a label.
take-IsLabel : (s : Bytes) → IsLabel s → 56 < length s → IsLabel (take 56 s)
take-IsLabel s l h = record {
  ne_nil = ne_of_length (take 56 s) [] (omega (arith, length-take 56 s));
  chars = every-take allowed 56 s l.chars;
  ne_dot = ne_of_length (take 56 s) (codes ".") (omega (arith, length-take 56 s));
  ne_dots = ne_of_length (take 56 s) (codes "..") (omega (arith, length-take 56 s));
}

abbrev cut : Bytes → Bytes
cut label = if ltb 56 (length label) then take 56 label else label

cut-IsLabel : (s : Bytes) → IsLabel s → IsLabel (cut s) × (length (cut s) ≤ 56)
cut-IsLabel s l = elim (Bool-cases (ltb 56 (length s))) [
  | inl e ↦ rw e (take-IsLabel s l (ground arith), omega (arith, length-take 56 s))
  | inr e ↦ rw e (l, ground arith)
]

or_default-of_IsLabel : (d s : Bytes) → IsLabel s → or_default d s ≡ s
unfolding or_default
or_default-of_IsLabel d [] l = absurd (l.ne_nil refl)
or_default-of_IsLabel d (c ∷ s) l = refl

abbrev IsSlug : Bytes → Type 0
IsSlug s = IsLabel s × (length s ≤ 56)

or_default-IsSlug : (d s : Bytes) → IsSlug s → IsSlug (or_default d s)
or_default-IsSlug d s h = rw (or_default-of_IsLabel d s h.0) h

slug_of-IsSlug : (u : ParsedUrl) → IsSlug (slug_of u)
unfolding slug_of
slug_of-IsSlug u =
    let named =
      if is_empty (last_segment u.path) || beq (last_segment u.path) (codes "/")
      then u.host
      else last_segment u.path in
    or_default-IsSlug (codes "resource") (cut (sanitize_path_label named))
      (cut-IsLabel (sanitize_path_label named) (sanitize_path_label-IsLabel named))

-- Whatever the URL, parsed or not, its slug is a harmless path component of at most 56 bytes.
pub url_path_slug-IsSlug :
    (url : Bytes) → IsLabel (url_path_slug url) × (length (url_path_slug url) ≤ 56)
unfolding url_path_slug
url_path_slug-IsSlug url =
    elim (parse_url url) as (λ r. IsSlug (catch r slug_of (codes "resource"))) [
      | ok u ↦ slug_of-IsSlug u
      | err e ↦ (resource-IsLabel, omega arith)
    ]
