-- ===== src/Store.antt =====
-- main.cpp: the names under which a capture is stored. A `filesystem::path` is the list of its
-- components; what exists on disk is a test on names, a parameter.
pub mod Names
pub mod Unique
use bw_fetcher.Base.{
  ℕ, zero, suc, ◌+◌, ◌-◌, ◌*◌, ◌≤◌, ◌<◌, ◌≡◌, ◌≢◌, ◌↔◌, ◌⊎◌, inl, inr, refl, sym, ap, ap₂, ◌∙◌,
  Bool, true, false, not, ◌&&◌, ◌||◌, Option, none, some, List, [], ◌∷◌, ◌++◌, map, arith, ltb, leb,
  ◌==◌, if◌then◌else◌, Bool-cases, Option-cases, Bytes, codes, length, ℤ, beq, is_empty, rfind,
  drop, take, to_string, three_digits, catch,
}
use bw_fetcher.Url.{parse_url, ParsedUrl}
use bw_fetcher.Types.{FetchResult}

-- The characters that the loop of `sanitize_path_label` replaces.
unfoldable pub is_forbidden : ℕ → Bool
is_forbidden c =
    c == b'/'
    || c == b'\\'
    || c == b':'
    || c == b'*'
    || c == b'?'
    || c == b'"'
    || c == b'<'
    || c == b'>'
    || c == b'|'
    || c == b'&'
    || c == b'='

unfoldable pub replace_byte : ℕ → ℕ
unfolding is_forbidden
replace_byte c = if is_forbidden c then b'_' else c

unfoldable pub is_trailing : ℕ → Bool
is_trailing c = c == b'.' || c == b' ' || c == b'_'

-- `while (!s.empty() && …s.back()…) s.pop_back();` drops the longest end of such characters.
unfoldable pub keep_unless_last : ℕ → Bytes → Bytes
unfolding is_trailing
keep_unless_last c [] = if is_trailing c then [] else c ∷ []
keep_unless_last c (d ∷ s) = c ∷ d ∷ s

unfoldable pub pop_trailing : Bytes → Bytes
unfolding keep_unless_last
pop_trailing [] = []
pop_trailing (c ∷ s) = keep_unless_last c (pop_trailing s)

unfoldable pub or_default : Bytes → Bytes → Bytes
or_default d [] = d
or_default d (c ∷ s) = c ∷ s

unfoldable pub sanitize_path_label : Bytes → Bytes
unfolding replace_byte pop_trailing or_default
sanitize_path_label s = or_default (codes "unknown") (pop_trailing (map replace_byte s))

-- `slug = path`, cut behind its last slash unless nothing follows.
unfoldable pub last_segment : Bytes → Bytes
last_segment path = elim (rfind b'/' path) [
  | some slash ↦ if ltb (slash + 1) (length path) then drop (slash + 1) path else path
  | none ↦ path
]

unfoldable pub slug_of : ParsedUrl → Bytes
unfolding last_segment sanitize_path_label
slug_of parsed =
    let slug = last_segment parsed.path in
    let named = if is_empty slug || beq slug (codes "/") then parsed.host else slug in
    let label = sanitize_path_label named in
    let cut = if ltb 56 (length label) then take 56 label else label in
    or_default (codes "resource") cut

unfoldable pub url_path_slug : Bytes → Bytes
unfolding slug_of
url_path_slug url = catch (parse_url url) slug_of (codes "resource")

unfoldable pub host_from_url : Bytes → Bytes
host_from_url url = catch (parse_url url) (λ u. u.host) (codes "unknown")

unfoldable pub or_binary : Bytes → Bytes
unfolding or_default
or_binary kind = or_default (codes "binary") kind

abbrev is_primary : FetchResult → Bool
is_primary res = beq res.role (codes "primary") || beq res.discovery_source (codes "primary")

unfoldable pub capture_category_dir : FetchResult → List Bytes
unfolding or_binary
capture_category_dir res =
    let kind = or_binary res.content_kind in
    if is_primary res
    then codes "primary" ∷ kind ∷ []
    else if beq res.discovery_source (codes "script")
    then codes "script" ∷ kind ∷ []
    else if beq res.discovery_source (codes "link/preload")
    then codes "link" ∷ codes "preload" ∷ kind ∷ []
    else if beq res.discovery_source (codes "link/modulepreload")
    then codes "link" ∷ codes "modulepreload" ∷ kind ∷ []
    else if beq res.discovery_source (codes "manual")
    then codes "manual" ∷ kind ∷ []
    else codes "other" ∷ kind ∷ []

unfoldable pub body_file_of : Bytes → Bytes
body_file_of kind =
    if beq kind (codes "html")
    then codes "body.html"
    else if beq kind (codes "js")
    then codes "body.js"
    else if beq kind (codes "json")
    then codes "body.json"
    else if beq kind (codes "css")
    then codes "body.css"
    else if beq kind (codes "wasm")
    then codes "body.wasm"
    else if beq kind (codes "text")
    then codes "body.txt"
    else codes "body.bin"

unfoldable pub body_filename : FetchResult → Bytes
unfolding or_binary body_file_of
body_filename res = body_file_of (or_binary res.content_kind)

-- `seq_buf` holds seven characters and the terminator.
unfoldable pub request_folder_name : FetchResult → Bytes
request_folder_name res =
    take 7 (three_digits res.request_seq)
    ++ (b'-'
        ∷ (if beq res.role (codes "primary") then codes "primary" else url_path_slug res.final_url))

unfoldable pub numbered : Bytes → ℕ → Bytes
numbered base_name n = base_name ++ (b'_' ∷ to_string n)

-- The loop `for (int n = 2; n < 1000; ++n)`, with the rounds that are left.
module _ (exists : Bytes → Bool) (base_name : Bytes) where
  unfoldable pub try_numbered : ℕ → ℕ → Bytes
  unfolding numbered
  try_numbered zero n = base_name ++ codes "_dup"
  try_numbered (suc rounds) n =
      let rest = try_numbered rounds (n + 1) in
      if exists (numbered base_name n) then rest else numbered base_name n

  unfoldable pub unique_request_dir : Bytes
  unique_request_dir = if exists base_name then try_numbered 998 2 else base_name
