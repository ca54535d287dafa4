-- ===== src/Catalog.antt =====
-- html_catalog.cpp: what a page refers to and was not fetched. The regular expressions are run by
-- the parameter `matches`, as in Scripts.
use mathlib.Core.Bool.{◌&&◌}
mod Patterns
pub mod Invariant
pub mod Result
use bw_fetcher.Catalog.Patterns.{
  inline_script_re, fetch_hint_re, a_href_re, area_href_re, iframe_src_re, img_src_re,
  form_action_re, embed_src_re, object_data_re, media_src_re, base_href_re, link_tag_re,
  link_href_re, link_rel_re, link_type_re, link_hreflang_re, api_path_re, script_src_in_html_re,
}
use bw_fetcher.Base.{
  pair_key, ℕ, zero, suc, ◌+◌, ◌-◌, ◌*◌, ◌≤◌, ◌<◌, ◌≡◌, ◌≢◌, ◌↔◌, ◌⊎◌, inl, inr, refl, sym, ap, ap₂,
  ◌∙◌, Bool, true, false, not, ◌&&◌, ◌||◌, Option, none, some, List, [], ◌∷◌, ◌++◌, map, arith, ltb,
  leb, ◌==◌, if◌then◌else◌, Bool-cases, Option-cases, Bytes, codes, length, bytes_key, nat_key,
  String, ℤ, pos, catch, drop, take, rfind, starts_with, contains, member, is_empty, every,
  to_string, Key,
}
use bw_fetcher.Headers.{lower}
use bw_fetcher.Scripts.{Match, Engine, group, is_anchor, ci_starts_with, resolve_url}

pub record PresentCatalogEntry : Type 0 where
  pub url : Bytes
  pub discovery_source : Bytes
  pub content_kind : Bytes
  pub body : Bytes
  pub label : Bytes
  pub catalog_seq : ℕ

unfoldable pub ci_contains : Bytes → Bytes → Bool
ci_contains hay needle = contains (lower needle) (lower hay)

unfoldable pub is_catalogable_url : Bytes → Bool
is_catalogable_url src = not (
    is_empty src
    || is_anchor src
    || ci_starts_with src (codes "data:")
    || ci_starts_with src (codes "blob:")
    || ci_starts_with src (codes "javascript:")
    || ci_starts_with src (codes "mailto:")
    || ci_starts_with src (codes "tel:"))

-- `resolve_abs` has the text of `resolve_url` of challenge_scripts.cpp.
unfoldable pub resolve_abs : Bytes → Bytes → Bytes
resolve_abs src page_url = resolve_url src page_url

-- A discovery source and a URL.
abbrev pub SeenKey : Type 0
SeenKey = Bytes × Bytes

-- `out`, `seen` and `seq`, which every scan changes. `out` grows at its end.
pub record Catalog : Type 0 where
  pub out : List PresentCatalogEntry
  pub seen : List SeenKey
  pub seq : ℕ

abbrev pub push_entry : Catalog → SeenKey → PresentCatalogEntry → Catalog
push_entry c key entry = record {
  out = c.out ++ (entry ∷ []);
  seen = key ∷ c.seen;
  seq = c.seq + 1;
}

-- `find_first_not_of(" \t\r\n") == npos`
unfoldable pub is_blank : Bytes → Bool
is_blank body = every (λ c. c == b' ' || c == b'\t' || c == b'\r' || c == b'\n') body

-- An inline script with its number.
unfoldable pub push_inline : Catalog → ℕ → Bytes → Catalog
push_inline c idx body =
    push_entry c (codes "inline_script", codes "inline:" ++ to_string idx)
      (record {
        url = [];
        discovery_source = codes "inline_script";
        content_kind = codes "js";
        body = body;
        label = codes "inline-" ++ to_string idx;
        catalog_seq = c.seq;
      })

-- The entry of one match with a body, unless its key was seen.
unfoldable pub list_inline : Catalog → ℕ → Bytes → Catalog
unfolding push_inline
list_inline c idx body =
    let key : SeenKey = (codes "inline_script", codes "inline:" ++ to_string idx) in
    if is_blank body || member key c.seen then c else push_inline c idx body

-- The text that the later scans for hints read.
unfoldable pub append_blob : Catalog → ℕ → Bytes → Bytes → Bytes
append_blob c idx body inline_blob =
    let key : SeenKey = (codes "inline_script", codes "inline:" ++ to_string idx) in
    if is_blank body || member key c.seen then inline_blob else inline_blob ++ (body ++ codes "\n")

-- The loop, with `inline_idx` and `inline_blob`.
unfoldable pub scan_inline : Catalog → ℕ → Bytes → List Match → Catalog × Bytes
unfolding list_inline append_blob
scan_inline c inline_idx inline_blob [] = (c, inline_blob)
scan_inline c inline_idx inline_blob (m ∷ ms) =
    let body = group 1 m in
    let idx = inline_idx + 1 in
    scan_inline (list_inline c idx body) (if is_blank body then inline_idx else idx)
      (append_blob c idx body inline_blob) ms

unfoldable pub hint_of : Match → Bytes
hint_of m =
    if not (is_empty (group 1 m))
    then group 1 m
    else if not (is_empty (group 2 m))
    then group 2 m
    else group 3 m

-- `rel`, and `-` and `hreflang` behind it.
unfoldable pub add_hreflang : Bytes → Option Bytes → Bytes
add_hreflang label none = label
add_hreflang label (some lang) = (if is_empty label then [] else label ++ codes "-") ++ lang

module _ (page_url : Bytes) (fetched_abs : List Bytes) where
  unfoldable pub add_url_entry : Bytes → Bytes → Catalog → Bytes → Catalog
  add_url_entry discovery_source label c src =
      let abs = resolve_abs src page_url in
      let key : SeenKey = (discovery_source, abs) in
      if not (is_catalogable_url src)
      then c
      else if member abs fetched_abs
      then c
      else if member key c.seen
      then c
      else push_entry c key (record {
        url = abs;
        discovery_source = discovery_source;
        content_kind = codes "url";
        body = [];
        label = label;
        catalog_seq = c.seq;
      })

  unfoldable pub scan_api_path : Catalog → Bytes → Catalog
  unfolding add_url_entry
  scan_api_path c path =
      if ltb (length path) 3
      then c
      else if starts_with (codes "/sportsbook-static/") path
      then c
      else add_url_entry (codes "api/path") (if ltb 48 (length path) then take 48 path else path) c
          path

  unfoldable pub scan_api_paths : Catalog → List Match → Catalog
  scan_api_paths c [] = c
  scan_api_paths c (m ∷ ms) = scan_api_paths (scan_api_path c (group 1 m)) ms

  -- `scan_regex_urls`, and the loop over `SCRIPT_SRC_IN_HTML_RE`.
  unfoldable pub scan_regex_urls : Bytes → Catalog → List Match → Catalog
  scan_regex_urls discovery_source c [] = c
  scan_regex_urls discovery_source c (m ∷ ms) =
      scan_regex_urls discovery_source (add_url_entry discovery_source [] c (group 1 m)) ms

  unfoldable pub scan_hints : Catalog → List Match → Catalog
  scan_hints c [] = c
  scan_hints c (m ∷ ms) = scan_hints (add_url_entry (codes "fetch/hint") [] c (hint_of m)) ms

module _ (matches : Engine) where
  -- `regex_search(tag, m, re)`, and `m[1].str()`.
  unfoldable pub search_group : String → Bytes → Option Bytes
  search_group re tag = elim (matches re tag) [ [] ↦ none | m ∷ ms ↦ some (group 1 m) ]

  unfoldable pub is_stylesheet_link : Bytes → Bool
  unfolding search_group ci_contains
  is_stylesheet_link tag =
      ci_contains tag (codes "stylesheet") || elim (search_group link_type_re tag) [
        | none ↦ false
        | some t ↦ ci_contains t (codes "css")
      ]

  unfoldable pub is_fetched_link_tag : Bytes → Bool
  unfolding is_stylesheet_link ci_contains
  is_fetched_link_tag tag =
      is_stylesheet_link tag
      || ci_contains tag (codes "modulepreload")
      || ci_contains tag (codes "preload") && ci_contains tag (codes "script")

  unfoldable pub link_label : Bytes → Bytes
  unfolding search_group add_hreflang
  link_label tag =
      add_hreflang (elim (search_group link_rel_re tag) [ none ↦ [] | some rel ↦ rel ])
        (search_group link_hreflang_re tag)

module _ (matches : Engine) (page_url : Bytes) (fetched_abs : List Bytes) where
  unfoldable pub scan_link_tag : Catalog → Bytes → Catalog
  unfolding is_fetched_link_tag search_group link_label add_url_entry
  scan_link_tag c tag =
      if is_fetched_link_tag matches tag then c else elim (search_group matches link_href_re tag) [
        | none ↦ c
        | some href ↦
            add_url_entry page_url fetched_abs (codes "links/link") (link_label matches tag) c href
      ]

  unfoldable pub scan_link_tags : Catalog → List Match → Catalog
  scan_link_tags c [] = c
  scan_link_tags c (m ∷ ms) = scan_link_tags (scan_link_tag c (group 0 m)) ms

  -- The scans of the markup, in their order.
  unfoldable pub scan_markup : Bytes → Catalog → Catalog
  scan_markup html c = do
    let c = scan_regex_urls page_url fetched_abs (codes "links/a") c (matches a_href_re html)
    let c = scan_regex_urls page_url fetched_abs (codes "links/area") c (matches area_href_re html)
    let c =
        scan_regex_urls page_url fetched_abs (codes "links/iframe") c (matches iframe_src_re html)
    let c = scan_regex_urls page_url fetched_abs (codes "links/img") c (matches img_src_re html)
    let c =
        scan_regex_urls page_url fetched_abs (codes "links/form") c (matches form_action_re html)
    let c = scan_regex_urls page_url fetched_abs (codes "links/embed") c (matches embed_src_re html)
    let c =
        scan_regex_urls page_url fetched_abs (codes "links/object") c (matches object_data_re html)
    let c = scan_regex_urls page_url fetched_abs (codes "links/media") c (matches media_src_re html)
    let c = scan_regex_urls page_url fetched_abs (codes "links/base") c (matches base_href_re html)
    let c = scan_link_tags c (matches link_tag_re html)
    scan_regex_urls page_url fetched_abs (codes "links/script") c
        (matches script_src_in_html_re html)

  unfoldable pub scan_scripts : Bytes → Catalog × Bytes → Catalog
  scan_scripts html (c, inline_blob) = do
    let c = scan_hints page_url fetched_abs c (matches fetch_hint_re inline_blob)
    let c = scan_api_paths page_url fetched_abs c (matches api_path_re inline_blob)
    scan_api_paths page_url fetched_abs c (matches api_path_re html)

  unfoldable pub catalog_present_resources : Bytes → ℕ → List PresentCatalogEntry
  unfolding scan_markup scan_scripts
  catalog_present_resources html start_seq =
      let marked = scan_markup html (record { out = []; seen = []; seq = start_seq }) in
      (scan_scripts html (scan_inline marked 0 [] (matches inline_script_re html))).out
