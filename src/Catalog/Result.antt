-- ===== src/Catalog/Result.antt =====
-- The catalogue of a page: `catalog_present_resources` from its empty start.
use bw_fetcher.Catalog.Patterns.{link_href_re, inline_script_re}
use bw_fetcher.Catalog.{
  PresentCatalogEntry, catalog_present_resources, scan_link_tag, scan_link_tags, scan_markup,
  scan_scripts, Catalog, is_fetched_link_tag, Match, search_group, group, link_href_re, link_label,
  inline_script_re,
}
use bw_fetcher.Catalog.Invariant.{
  IsCatalog, Numbered, key_of, not_fetched, add_url_entry-IsCatalog, scan_regex_urls-IsCatalog,
  scan_api_paths-IsCatalog, scan_inline-IsCatalog, scan_hints-IsCatalog,
}
use bw_fetcher.Scripts.{Engine, Match, group}
use bw_fetcher.Base.{
  ℕ, ◌≡◌, inl, inr, refl, true, List, [], ◌∷◌, map, arith, Bool-cases, Option-cases, Bytes, codes,
  bytes_key, nat_key, pair_key, every, Distinct, Distinct-rev_onto, subst,
}

module _ {start : ℕ} (matches : Engine) (page_url : Bytes) (fetched_abs : List Bytes) where
  scan_link_tag-IsCatalog :
      (c : Catalog) (tag : Bytes)
      → IsCatalog start fetched_abs c
      → IsCatalog start fetched_abs (scan_link_tag matches page_url fetched_abs c tag)
  unfolding scan_link_tag
  scan_link_tag-IsCatalog c tag v = elim (Bool-cases (is_fetched_link_tag matches tag)) [
    | inl fetched ↦ rw fetched v
    | inr other ↦ elim (Option-cases (search_group matches link_href_re tag)) [
      | inl absent ↦ rw (other, absent) v
      | inr (href, found) ↦
          rw (other, found)
            (add_url_entry-IsCatalog page_url fetched_abs (codes "links/link")
              (link_label matches tag) c href v)
    ]
  ]

  scan_link_tags-IsCatalog :
      (c : Catalog) (ms : List Match)
      → IsCatalog start fetched_abs c
      → IsCatalog start fetched_abs (scan_link_tags matches page_url fetched_abs c ms)
  unfolding scan_link_tags
  scan_link_tags-IsCatalog c [] v = v
  scan_link_tags-IsCatalog c (m ∷ ms) v =
      scan_link_tags-IsCatalog (scan_link_tag matches page_url fetched_abs c (group 0 m)) ms
        (scan_link_tag-IsCatalog c (group 0 m) v)

  scan_markup-IsCatalog :
      (html : Bytes) (c : Catalog)
      → IsCatalog start fetched_abs c
      → IsCatalog start fetched_abs (scan_markup matches page_url fetched_abs html c)
  unfolding scan_markup
  scan_markup-IsCatalog html c v = do
    let v = scan_regex_urls-IsCatalog page_url fetched_abs _ _ _ v
    let v = scan_regex_urls-IsCatalog page_url fetched_abs _ _ _ v
    let v = scan_regex_urls-IsCatalog page_url fetched_abs _ _ _ v
    let v = scan_regex_urls-IsCatalog page_url fetched_abs _ _ _ v
    let v = scan_regex_urls-IsCatalog page_url fetched_abs _ _ _ v
    let v = scan_regex_urls-IsCatalog page_url fetched_abs _ _ _ v
    let v = scan_regex_urls-IsCatalog page_url fetched_abs _ _ _ v
    let v = scan_regex_urls-IsCatalog page_url fetched_abs _ _ _ v
    let v = scan_regex_urls-IsCatalog page_url fetched_abs _ _ _ v
    let v = scan_link_tags-IsCatalog _ _ v
    scan_regex_urls-IsCatalog page_url fetched_abs _ _ _ v

  scan_scripts-IsCatalog :
      (html : Bytes) (c : Catalog × Bytes)
      → IsCatalog start fetched_abs c.0
      → IsCatalog start fetched_abs (scan_scripts matches page_url fetched_abs html c)
  unfolding scan_scripts
  scan_scripts-IsCatalog html (c, blob) v = scan_api_paths-IsCatalog page_url fetched_abs _ _ (
      scan_api_paths-IsCatalog page_url fetched_abs _ _
        (scan_hints-IsCatalog page_url fetched_abs c _ v))

no_entries-IsCatalog :
    (start : ℕ) (fetched_abs : List Bytes)
    → IsCatalog start fetched_abs (record { out = []; seen = []; seq = start })
no_entries-IsCatalog start fetched_abs = record {
  seq_is = omega arith;
  seqs = tt;
  keys_are = refl;
  distinct = tt;
  none_fetched = unfold every in refl;
}

pub record IsListing (start : ℕ) (fetched_abs : List Bytes) (es : List PresentCatalogEntry)
    : Type 0 where
  pub seqs : Numbered start es
  pub distinct : Distinct (map key_of es)
  pub none_fetched : every (not_fetched fetched_abs) es ≡ true

-- The catalogue of a page, whatever its text and whatever the regular expressions match, is numbered
-- from `start_seq` without a gap; no URL is listed twice under one discovery source and no inline
-- script number twice; and none of the listed URLs was fetched.
pub catalog_present_resources-IsListing :
    (matches : Engine) (html page_url : Bytes) (start_seq : ℕ) (fetched_abs : List Bytes)
    → IsListing start_seq fetched_abs
        (catalog_present_resources matches page_url fetched_abs html start_seq)
unfolding catalog_present_resources
catalog_present_resources-IsListing matches html page_url start_seq fetched_abs =
    let v = scan_scripts-IsCatalog matches page_url fetched_abs html _ (
      scan_inline-IsCatalog page_url fetched_abs _ 0 [] (matches inline_script_re html) (
        scan_markup-IsCatalog matches page_url fetched_abs html _
          (no_entries-IsCatalog start_seq fetched_abs))) in
    record {
      seqs = v.seqs;
      distinct = (Distinct-rev_onto _ [] (subst Distinct v.keys_are v.distinct)).0;
      none_fetched = v.none_fetched;
    }
