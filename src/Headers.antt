-- ===== src/Headers.antt =====
-- The header tables of fetcher.cpp and main.cpp: look-up without regard to case, the kind of a
-- response, request headers, and the result that a response becomes.
pub mod Requests
use bw_fetcher.Base.{
  bytes_key, nat_key, ℕ, zero, suc, ◌+◌, ◌-◌, ◌*◌, ◌≤◌, ◌<◌, ◌≡◌, ◌≢◌, ◌↔◌, ◌⊎◌, inl, inr, refl,
  sym, ap, ap₂, ◌∙◌, Bool, true, false, not, ◌&&◌, ◌||◌, Option, none, some, List, [], ◌∷◌, ◌++◌,
  map, arith, ltb, leb, ◌==◌, if◌then◌else◌, Bool-cases, Option-cases, Bytes, codes, length, ℤ, pos,
  negsuc, Dict, lookup, insert, beq, is_empty, to_lower, contains, starts_with, from_chars_or,
  int_to_string,
}
use bw_fetcher.Types.{Headers, FetchResult}

abbrev pub lower : Bytes → Bytes
lower s = map to_lower s

-- fetcher.cpp. An absent header is the empty text.
unfoldable pub header_value_ci : Headers → Bytes → Bytes
header_value_ci [] key = []
header_value_ci ((k, v) ∷ headers) key =
    if beq (lower k) key then v else header_value_ci headers key

-- main.cpp: the exact name first. The loop compares sizes and then byte by byte, which is the same
-- test as that of `header_value_ci`.
unfoldable pub header_ci : Headers → Bytes → Bytes
header_ci h lower_key = elim (lookup lower_key h) [
  | some v ↦ v
  | none ↦ header_value_ci h lower_key
]

unfoldable pub kind_of_type : Bytes → Bytes → Bytes
kind_of_type ct role =
    if contains (codes "javascript") ct || contains (codes "ecmascript") ct
    then codes "js"
    else if contains (codes "json") ct
    then codes "json"
    else if contains (codes "css") ct
    then codes "css"
    else if contains (codes "html") ct
    then codes "html"
    else if contains (codes "wasm") ct
    then codes "wasm"
    else if contains (codes "text/plain") ct
    then codes "text"
    else if starts_with (codes "text/") ct
    then codes "text"
    else if beq role (codes "primary")
    then codes "html"
    else codes "binary"

unfoldable pub classify_content_kind : Headers → Bytes → Bytes
unfolding kind_of_type
classify_content_kind headers role =
    kind_of_type (lower (header_value_ci headers (codes "content-type"))) role

-- main.cpp
unfoldable pub kind_of : FetchResult → Bytes
kind_of r =
    let ct = lower (header_ci r.headers (codes "content-type")) in
    if not (is_empty r.content_kind)
    then r.content_kind
    else if contains (codes "html") ct
    then codes "html"
    else if contains (codes "javascript") ct
    then codes "js"
    else if contains (codes "json") ct
    then codes "json"
    else if contains (codes "css") ct
    then codes "css"
    else if contains (codes "wasm") ct
    then codes "wasm"
    else if starts_with (codes "text/") ct
    then codes "text"
    else if is_empty ct
    then codes "?"
    else codes "binary"

-- `out = profile.headers`, then every override is written over it.
unfoldable pub merge_request_headers : Headers → Headers → Headers
merge_request_headers out [] = out
merge_request_headers out ((k, v) ∷ overrides) = merge_request_headers (insert k v out) overrides

abbrev pub navigation_headers : Headers
navigation_headers = []

unfoldable pub subresource_headers : Bytes → Bytes → Bytes → Bytes → Headers
subresource_headers referer page_host resource_host cookie =
    let site = if beq page_host resource_host then codes "same-origin" else codes "cross-site" in
    let h = insert (codes "sec-fetch-site") site (
      insert (codes "sec-fetch-mode") (codes "no-cors")
        (insert (codes "sec-fetch-dest") (codes "script") (insert (codes "referer") referer []))) in
    if is_empty cookie then h else insert (codes "cookie") cookie h

-- The `:status` pseudo-header as a number; the number stays as it was without the header.
unfoldable pub status_of : Headers → ℤ → ℤ
status_of headers status = elim (lookup (codes ":status") headers) [
  | some v ↦ from_chars_or (pos 0) v
  | none ↦ status
]

-- `nghttp2_response_class`
pub record Response : Type 0 where
  pub headers : Headers
  pub body : Bytes

abbrev pub no_response : Response
no_response = record { headers = []; body = [] }

unfoldable pub source_of : Bytes → Bytes → Bytes
source_of role discovery_source =
    if beq role (codes "primary")
    then codes "primary"
    else if is_empty discovery_source
    then codes "other"
    else discovery_source

unfoldable pub response_to_result : Response → Bytes → ℕ → ℕ → ℤ → Bytes → Bytes → FetchResult
response_to_result resp url ttfb_ms stream_id request_seq role discovery_source = record {
  ok = true;
  error = [];
  status = status_of resp.headers (pos 0);
  headers = resp.headers;
  body = resp.body;
  final_url = url;
  ttfb_ms = ttfb_ms;
  h2_stream_id = pos stream_id;
  request_seq = request_seq;
  role = role;
  discovery_source = source_of role discovery_source;
  content_kind = classify_content_kind resp.headers role;
}

-- main.cpp: the verdict of the run report. `ltb_ℤ a b` is `a < b`.
unfoldable pub verdict_of_status : ℤ → Bytes
verdict_of_status (negsuc n) = codes "HTTP " ++ int_to_string (negsuc n)
verdict_of_status (pos s) =
    if leb 200 s && ltb s 300
    then codes "PASSED"
    else if s == 401 || s == 403
    then codes "BLOCKED"
    else if s == 429
    then codes "RATE-LIMITED"
    else if s == 503
    then codes "CHALLENGED"
    else if leb 400 s
    then codes "FAILED"
    else codes "HTTP " ++ int_to_string (pos s)

unfoldable pub verdict_for : FetchResult → Bytes
unfolding verdict_of_status
verdict_for r = if r.ok then verdict_of_status r.status else codes "ERROR (no response)"
