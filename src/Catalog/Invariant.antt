-- ===== src/Catalog/Invariant.antt =====
-- What every scan keeps: the numbering, the keys, and that nothing fetched is listed.
use bw_fetcher.Base.{
  ℕ, suc, ◌+◌, ◌≡◌, inl, inr, refl, sym, ap₂, ◌∙◌, Bool, true, false, not, ◌||◌, List, [], ◌∷◌,
  ◌++◌, map, arith, ltb, if◌then◌else◌, Bool-cases, Bytes, codes, length, bytes_key, nat_key,
  pair_key, drop, member, every, every-append, rev_onto, rev_onto-append, Distinct, beq,
  length-append, map-append, starts_with, to_string,
}
use bw_fetcher.Scripts.{Match, group}
use bw_fetcher.Catalog.{
  PresentCatalogEntry, Catalog, SeenKey, push_entry, add_url_entry, scan_regex_urls, scan_api_path,
  scan_api_paths, scan_hints, push_inline, scan_inline, is_catalogable_url, resolve_abs, is_blank,
  hint_of, list_inline, append_blob,
}

abbrev pub is_inline : PresentCatalogEntry → Bool
is_inline e = beq e.content_kind (codes "js")

-- The key under which an entry was listed: an inline script goes by the number in its label.
unfoldable pub key_of : PresentCatalogEntry → SeenKey
key_of e =
    if is_inline e
    then (e.discovery_source, codes "inline:" ++ drop 7 e.label)
    else (e.discovery_source, e.url)

-- Sequence numbers without a gap, from `n` on.
abbrev pub Numbered : ℕ → List PresentCatalogEntry → Type 0
Numbered n [] = Unit
Numbered n (e ∷ es) = (e.catalog_seq ≡ n) × Numbered (suc n) es

unfoldable pub not_fetched : List Bytes → PresentCatalogEntry → Bool
not_fetched fetched_abs e = is_inline e || not (member e.url fetched_abs)

pub record IsCatalog (start : ℕ) (fetched_abs : List Bytes) (c : Catalog) : Type 0 where
  pub seq_is : c.seq ≡ start + length c.out
  pub seqs : Numbered start c.out
  pub keys_are : c.seen ≡ rev_onto (map key_of c.out) []
  pub distinct : Distinct c.seen
  pub none_fetched : every (not_fetched fetched_abs) c.out ≡ true

Numbered-append :
    (n : ℕ) (es : List PresentCatalogEntry) (e : PresentCatalogEntry)
    → Numbered n es
    → e.catalog_seq ≡ n + length es
    → Numbered n (es ++ (e ∷ []))
Numbered-append n [] e h k = (omega (arith, k), tt)
Numbered-append n (x ∷ es) e h k = (h.0, Numbered-append (suc n) es e h.1 (omega (arith, k)))

map-key_of-append :
    (es : List PresentCatalogEntry) (e : PresentCatalogEntry)
    → rev_onto (map key_of (es ++ (e ∷ []))) [] ≡ key_of e ∷ rev_onto (map key_of es) []
map-key_of-append es e = rw map-append (rev_onto-append (map key_of es) (key_of e ∷ []) [])

module _ {start : ℕ} {fetched_abs : List Bytes} where
  push_entry-IsCatalog :
      (c : Catalog) (key : SeenKey) (e : PresentCatalogEntry)
      → IsCatalog start fetched_abs c
      → key_of e ≡ key
      → member key c.seen ≡ false
      → e.catalog_seq ≡ c.seq
      → not_fetched fetched_abs e ≡ true
      → IsCatalog start fetched_abs (push_entry c key e)
  unfolding every
  push_entry-IsCatalog c key e v k new q n = record {
    seq_is = omega (arith, v.seq_is, length-append c.out (e ∷ []));
    seqs = Numbered-append start c.out e v.seqs (q ∙ v.seq_is);
    keys_are = ap₂ (λ a b. a ∷ b) (sym k) v.keys_are ∙ sym (map-key_of-append c.out e);
    distinct = (new, v.distinct);
    none_fetched =
        ground (arith, every-append (not_fetched fetched_abs) c.out (e ∷ []), v.none_fetched);
  }

module _ {start : ℕ} (page_url : Bytes) (fetched_abs : List Bytes) where
  pub add_url_entry-IsCatalog :
      (source label : Bytes) (c : Catalog) (src : Bytes)
      → IsCatalog start fetched_abs c
      → IsCatalog start fetched_abs (add_url_entry page_url fetched_abs source label c src)
  unfolding add_url_entry
  add_url_entry-IsCatalog source label c src v = elim (Bool-cases (is_catalogable_url src)) [
    | inr off ↦ rw off v
    | inl on ↦ elim (Bool-cases (member (resolve_abs src page_url) fetched_abs)) [
      | inl old ↦ rw (on, old) v
      | inr new ↦
          let key : SeenKey = (source, resolve_abs src page_url) in
          elim (Bool-cases (member key c.seen)) [
            | inl seen ↦ rw (on, new, seen) v
            | inr fresh ↦
                rw (on, new, fresh)
                  (push_entry-IsCatalog c key _ v (unfold key_of beq in refl) fresh refl
                    (unfold not_fetched beq in rw new))
          ]
    ]
  ]

  pub scan_regex_urls-IsCatalog :
      (source : Bytes) (c : Catalog) (ms : List Match)
      → IsCatalog start fetched_abs c
      → IsCatalog start fetched_abs (scan_regex_urls page_url fetched_abs source c ms)
  unfolding scan_regex_urls
  scan_regex_urls-IsCatalog source c [] v = v
  scan_regex_urls-IsCatalog source c (m ∷ ms) v =
      scan_regex_urls-IsCatalog source (add_url_entry page_url fetched_abs source [] c (group 1 m))
        ms (add_url_entry-IsCatalog source [] c (group 1 m) v)

  pub scan_hints-IsCatalog :
      (c : Catalog) (ms : List Match)
      → IsCatalog start fetched_abs c
      → IsCatalog start fetched_abs (scan_hints page_url fetched_abs c ms)
  unfolding scan_hints
  scan_hints-IsCatalog c [] v = v
  scan_hints-IsCatalog c (m ∷ ms) v =
      scan_hints-IsCatalog
        (add_url_entry page_url fetched_abs (codes "fetch/hint") [] c (hint_of m)) ms
        (add_url_entry-IsCatalog (codes "fetch/hint") [] c (hint_of m) v)

  scan_api_path-IsCatalog :
      (c : Catalog) (path : Bytes)
      → IsCatalog start fetched_abs c
      → IsCatalog start fetched_abs (scan_api_path page_url fetched_abs c path)
  unfolding scan_api_path
  scan_api_path-IsCatalog c path v = elim (Bool-cases (ltb (length path) 3)) [
    | inl short ↦ rw short v
    | inr long ↦ elim (Bool-cases (starts_with (codes "/sportsbook-static/") path)) [
      | inl static_path ↦ rw (long, static_path) v
      | inr other ↦ rw (long, other) (add_url_entry-IsCatalog (codes "api/path") _ c path v)
    ]
  ]

  pub scan_api_paths-IsCatalog :
      (c : Catalog) (ms : List Match)
      → IsCatalog start fetched_abs c
      → IsCatalog start fetched_abs (scan_api_paths page_url fetched_abs c ms)
  unfolding scan_api_paths
  scan_api_paths-IsCatalog c [] v = v
  scan_api_paths-IsCatalog c (m ∷ ms) v =
      scan_api_paths-IsCatalog (scan_api_path page_url fetched_abs c (group 1 m)) ms
        (scan_api_path-IsCatalog c (group 1 m) v)

  push_inline-IsCatalog :
      (c : Catalog) (idx : ℕ) (body : Bytes)
      → IsCatalog start fetched_abs c
      → member (codes "inline_script", codes "inline:" ++ to_string idx) c.seen ≡ false
      → IsCatalog start fetched_abs (push_inline c idx body)
  unfolding push_inline
  push_inline-IsCatalog c idx body v new =
      push_entry-IsCatalog c _ _ v (unfold key_of beq in refl) new refl
        (unfold not_fetched beq in refl)

  list_inline-IsCatalog :
      (c : Catalog) (idx : ℕ) (body : Bytes)
      → IsCatalog start fetched_abs c
      → IsCatalog start fetched_abs (list_inline c idx body)
  unfolding list_inline
  list_inline-IsCatalog c idx body v = elim (Bool-cases (is_blank body)) [
    | inl blank ↦ rw blank v
    | inr full ↦
        let key : SeenKey = (codes "inline_script", codes "inline:" ++ to_string idx) in
        elim (Bool-cases (member key c.seen)) [
          | inl seen ↦ rw (full, seen) v
          | inr fresh ↦ rw (full, fresh) (push_inline-IsCatalog c idx body v fresh)
        ]
  ]

  pub scan_inline-IsCatalog :
      (c : Catalog) (idx : ℕ) (blob : Bytes) (ms : List Match)
      → IsCatalog start fetched_abs c
      → IsCatalog start fetched_abs (scan_inline c idx blob ms).0
  unfolding scan_inline
  scan_inline-IsCatalog c idx blob [] v = v
  scan_inline-IsCatalog c idx blob (m ∷ ms) v =
      scan_inline-IsCatalog (list_inline c (idx + 1) (group 1 m))
        (if is_blank (group 1 m) then idx else idx + 1) (append_blob c (idx + 1) (group 1 m) blob)
        ms (list_inline-IsCatalog c (idx + 1) (group 1 m) v)
