-- ===== src/Scripts.antt =====
-- challenge_scripts.cpp: the script URLs of a page. `std::regex` is the parameter `matches`: the
-- matches of a pattern in a text, in the order of `sregex_iterator`, each with its groups from 0
-- on. `regex_search` is the first of them.
pub mod Candidates
pub mod Scanner
pub mod Once
pub mod Relative
use bw_fetcher.Base.{
  pair_key, ℕ, zero, suc, ◌+◌, ◌-◌, ◌*◌, ◌≤◌, ◌<◌, ◌≡◌, ◌≢◌, ◌↔◌, ◌⊎◌, inl, inr, refl, sym, ap, ap₂,
  ◌∙◌, Bool, true, false, not, ◌&&◌, ◌||◌, Option, none, some, List, [], ◌∷◌, ◌++◌, map, arith, ltb,
  leb, ◌==◌, if◌then◌else◌, Bool-cases, Option-cases, Bytes, codes, length, bytes_key, nat_key,
  String, ℤ, pos, catch, drop, take, rfind, starts_with, member, is_empty, get_elem?,
}
use bw_fetcher.Url.{ParsedUrl, parse_url}
use bw_fetcher.Headers.{lower}

abbrev pub Match : Type 0
Match = List Bytes

abbrev pub Engine : Type 0
Engine = String → Bytes → List Match

-- `(*it)[k].str()`: a group that did not take part is the empty text.
unfoldable pub group : ℕ → Match → Bytes
group k m = elim (get_elem? m k) [ none ↦ [] | some s ↦ s ]

abbrev pub script_src_re : String
script_src_re = "<script[^>]+src\\s*=\\s*[\"']([^\"']+)[\"']"

abbrev pub link_modulepreload_re : String
link_modulepreload_re =
    "<link\\b[^>]*\\b(?:rel\\s*=\\s*[\"'][^\"']*\\bmodulepreload\\b[^\"']*[\"'][^>]*\\bhref\\s*=\\s*[\"']([^\"']+)[\"']|href\\s*=\\s*[\"']([^\"']+)[\"'][^>]*\\brel\\s*=\\s*[\"'][^\"']*\\bmodulepreload\\b[^\"']*[\"'])"

abbrev pub link_preload_script_re : String
link_preload_script_re =
    "<link\\b[^>]*\\b(?:rel\\s*=\\s*[\"'][^\"']*\\bpreload\\b[^\"']*[\"'][^>]*\\bas\\s*=\\s*[\"']script[\"'][^>]*\\bhref\\s*=\\s*[\"']([^\"']+)[\"']|href\\s*=\\s*[\"']([^\"']+)[\"'][^>]*\\brel\\s*=\\s*[\"'][^\"']*\\bpreload\\b[^\"']*[\"'][^>]*\\bas\\s*=\\s*[\"']script[\"'])"

abbrev pub challenge_patterns : List String
challenge_patterns =
    "/cdn-cgi/challenge-platform/" ∷ "challenges\\.cloudflare\\.com" ∷ "/akam/" ∷ "bmak\\.js"
    ∷ "/datadome/" ∷ "datadome\\.co" ∷ "px-cloud\\.net" ∷ "perimeterx\\.net" ∷ "/149e9513-"
    ∷ "kasada\\.io" ∷ "/botjs/" ∷ "/_Incapsula_Resource" ∷ "recaptcha/api" ∷ "hcaptcha\\.com"
    ∷ "challenges\\.cloudflare\\.com/turnstile" ∷ "/js/[A-Za-z0-9_-]{8,}\\.js" ∷ []

-- The prefixes given are in lower case.
unfoldable pub ci_starts_with : Bytes → Bytes → Bool
ci_starts_with s prefix = starts_with prefix (lower s)

-- `src[0] == '#'`
unfoldable pub is_anchor : Bytes → Bool
is_anchor [] = false
is_anchor (c ∷ s) = c == b'#'

unfoldable pub is_fetchable_subresource : Bytes → Bool
unfolding ci_starts_with is_anchor
is_fetchable_subresource src = not (
    is_empty src
    || is_anchor src
    || ci_starts_with src (codes "data:")
    || ci_starts_with src (codes "blob:")
    || ci_starts_with src (codes "javascript:")
    || ci_starts_with src (codes "vbscript:")
    || ci_starts_with src (codes "mailto:")
    || ci_starts_with src (codes "tel:"))

abbrev pub up_to_slash : Bytes → Option ℕ → Bytes
up_to_slash path none = path
up_to_slash path (some slash) = take (slash + 1) path

unfoldable pub directory_of : Bytes → Bytes
directory_of path = up_to_slash path (rfind b'/' path)

unfoldable pub resolve_against : Bytes → ParsedUrl → Bytes
unfolding directory_of
resolve_against src base =
    if starts_with (codes "http://") src || starts_with (codes "https://") src
    then src
    else if starts_with (codes "/") src
    then codes "https://" ++ (base.host ++ src)
    else if starts_with (codes "//") src
    then codes "https:" ++ src
    else codes "https://" ++ (base.host ++ (directory_of base.path ++ src))

unfoldable pub resolve_url : Bytes → Bytes → Bytes
resolve_url src page_url = catch (parse_url page_url) (resolve_against src) src

pub record DiscoveredSubresource : Type 0 where
  pub url : Bytes
  pub discovery_source : Bytes

-- `max_count > 0 && found >= max_count`
abbrev pub capped : ℤ → ℕ → Bool
capped (pos (suc n)) found = leb (suc n) found
capped _ found = false

-- `seen_abs` and `found` of the loop.
pub record Progress : Type 0 where
  pub seen : List Bytes
  pub found : ℕ

-- A candidate that neither `continue` skips.
unfoldable pub is_new : Bytes → Progress → Bytes → Bool
is_new page_url p src =
    is_fetchable_subresource src && not (member (resolve_url src page_url) p.seen)

unfoldable pub advance : Bytes → Progress → Bytes → Progress
unfolding is_new
advance page_url p src =
    if is_new page_url p src
    then record { seen = resolve_url src page_url ∷ p.seen; found = p.found + 1 }
    else p

unfoldable pub resolve_new_candidates :
    Bytes → ℤ → List (Bytes × Bytes) → Progress → List DiscoveredSubresource × Progress
resolve_new_candidates page_url max_count [] p = ([], p)
resolve_new_candidates page_url max_count ((src, source) ∷ raw) p =
    let p' = advance page_url p src in
    let rest = resolve_new_candidates page_url max_count raw p' in
    let item : DiscoveredSubresource = record {
      url = resolve_url src page_url;
      discovery_source = source;
    } in
    if not (is_new page_url p src)
    then rest
    else if capped max_count p'.found
    then (item ∷ [], p')
    else (item ∷ rest.0, rest.1)

-- The first group that is not empty, of the first two.
unfoldable pub link_href : Match → Bytes
unfolding group
link_href m = if is_empty (group 1 m) then group 2 m else group 1 m

unfoldable pub link_hrefs : Bytes → List Match → List (Bytes × Bytes)
unfolding link_href
link_hrefs discovery_source [] = []
link_hrefs discovery_source (m ∷ ms) =
    let rest = link_hrefs discovery_source ms in
    if is_empty (link_href m) then rest else (link_href m, discovery_source) ∷ rest

module _ (matches : Engine) where
  unfoldable pub extract_script_srcs : Bytes → List Bytes
  extract_script_srcs html = map (group 1) (matches script_src_re html)

  unfoldable pub collect_raw_candidates : Bytes → List (Bytes × Bytes)
  unfolding group link_hrefs
  collect_raw_candidates window =
      map (λ m. (group 1 m, codes "script")) (matches script_src_re window)
      ++ (link_hrefs (codes "link/modulepreload") (matches link_modulepreload_re window)
          ++ link_hrefs (codes "link/preload") (matches link_preload_script_re window))

  unfoldable pub discover_subresource_urls : Bytes → Bytes → ℤ → List DiscoveredSubresource
  unfolding collect_raw_candidates resolve_new_candidates
  discover_subresource_urls html page_url max_count =
      (resolve_new_candidates page_url max_count (collect_raw_candidates html)
        (record { seen = []; found = 0 })).0

  unfoldable pub matches_any : List String → Bytes → Bool
  matches_any [] url = false
  matches_any (re ∷ res) url = elim (matches re url) [ [] ↦ matches_any res url | m ∷ ms ↦ true ]

  unfoldable pub is_challenge_url : Bytes → Bool
  unfolding matches_any
  is_challenge_url url = matches_any challenge_patterns url

  -- The loop over `srcs`, with `seen`.
  unfoldable pub filter_onto : Bytes → List Bytes → List Bytes → List Bytes
  filter_onto page_url seen [] = []
  filter_onto page_url seen (src ∷ srcs) =
      let abs = resolve_url src page_url in
      let keep = not (member abs seen) && (is_challenge_url abs || is_challenge_url src) in
      let rest = filter_onto page_url (if keep then abs ∷ seen else seen) srcs in
      if keep then abs ∷ rest else rest

  unfoldable pub filter_challenge_script_urls : List Bytes → Bytes → List Bytes
  unfolding filter_onto
  filter_challenge_script_urls srcs page_url = filter_onto page_url [] srcs

  unfoldable pub resize_to : ℤ → List Bytes → List Bytes
  resize_to (pos (suc n)) urls = if ltb (suc n) (length urls) then take (suc n) urls else urls
  resize_to _ urls = urls

  unfoldable pub discover_challenge_scripts : Bytes → Bytes → ℤ → List Bytes
  unfolding extract_script_srcs filter_challenge_script_urls resize_to
  discover_challenge_scripts html page_url max_count =
      resize_to max_count (filter_challenge_script_urls (extract_script_srcs html) page_url)
