-- ===== src/Url.antt =====
-- URL_to_DNS/URL_Parser.cc: `parse_url`. The source's cursor `i` into `uri` is here the rest of the
-- text from `i` on; `find_first_of` is the first place where a test holds. The trace that
-- BW_FETCHER_VERBOSE switches on writes to stderr only, and is left out.
pub mod Fields
pub mod Print
pub mod RoundTrip
pub mod Total
pub mod Tests
use bw_fetcher.Base.{
  ℕ, zero, suc, ◌+◌, ◌-◌, Bool, true, false, not, ◌&&◌, ◌||◌, List, [], ◌∷◌, ◌++◌, Option, none,
  some, ◌==◌, if◌then◌else◌, Bytes, codes, beq, is_empty, is_alpha, is_alnum, find, rfind, take,
  drop, substr, before, from, get_elem?, Result, ok, err, ◌>>=◌,
}

pub record ParsedUrl : Type 0 where
  pub scheme : Bytes
  pub userinfo : Bytes
  pub host : Bytes
  pub port : Bytes
  pub path : Bytes
  pub query : Bytes
  pub fragment : Bytes

-- The `std::runtime_error`s of the parser.
pub data UriError : Type 0 where
  invalid_scheme missing_colon invalid_ipv6 : UriError

-- `e.what()`
unfoldable pub what : UriError → Bytes
what invalid_scheme = codes "Invalid URI: scheme"
what missing_colon = codes "Invalid URI: missing ':'"
what invalid_ipv6 = codes "Invalid IPv6 literal"

unfoldable pub is_scheme_char : ℕ → Bool
is_scheme_char c = is_alnum c || c == b'+' || c == b'-' || c == b'.'

-- The character sets of `find_first_of("/?#")` and `find_first_of("?#")`, and `find('#')`.
abbrev pub ends_authority : ℕ → Bool
ends_authority c = c == b'/' || c == b'?' || c == b'#'

abbrev pub ends_path : ℕ → Bool
ends_path c = c == b'?' || c == b'#'

abbrev pub ends_query : ℕ → Bool
ends_query c = c == b'#'

abbrev pub ends_scheme : ℕ → Bool
ends_scheme c = not (is_scheme_char c)

-- Section 1: the scheme, and what follows its colon.
unfoldable pub skip_colon : Bytes → Bytes → Result UriError (Bytes × Bytes)
skip_colon scheme [] = err missing_colon
skip_colon scheme (c ∷ rest) = if c == b':' then ok (scheme, rest) else err missing_colon

unfoldable pub split_scheme : Bytes → Result UriError (Bytes × Bytes)
split_scheme [] = err invalid_scheme
split_scheme (c ∷ s) =
    if is_alpha c
    then skip_colon (before ends_scheme (c ∷ s)) (from ends_scheme (c ∷ s))
    else err invalid_scheme

-- Section 2: userinfo, host and port of an authority. A section without authority has all empty.
pub record Authority : Type 0 where
  pub userinfo : Bytes
  pub host : Bytes
  pub port : Bytes

abbrev pub no_authority : Authority
no_authority = record { userinfo = []; host = []; port = [] }

unfoldable pub split_userinfo : Bytes → Bytes × Bytes
split_userinfo authority = elim (find b'@' authority) [
  | some at ↦ (take at authority, drop (suc at) authority)
  | none ↦ ([], authority)
]

-- `close + 1 < authority.size() && authority[close + 1] == ':'`
unfoldable pub bracket_port : ℕ → Bytes → Bytes
bracket_port close authority = elim (get_elem? authority (suc close)) [
  | some c ↦ if c == b':' then drop (suc (suc close)) authority else []
  | none ↦ []
]

unfoldable pub bracket_host : Bytes → Bytes → Result UriError Authority
bracket_host userinfo authority = elim (find b']' authority) [
  | some close ↦ ok (record {
    userinfo = userinfo;
    host = substr 1 (close - 1) authority;
    port = bracket_port close authority;
  })
  | none ↦ err invalid_ipv6
]

-- `colon != npos && authority.find(':') == colon`
unfoldable pub only_colon : Bytes → Option ℕ
only_colon authority = elim (rfind b':' authority) [
  | some colon ↦ elim (find b':' authority) [
    | some first ↦ if first == colon then some colon else none
    | none ↦ none
  ]
  | none ↦ none
]

unfoldable pub plain_host : Bytes → Bytes → Authority
plain_host userinfo authority = elim (only_colon authority) [
  | some colon ↦ record {
    userinfo = userinfo;
    host = take colon authority;
    port = drop (suc colon) authority;
  }
  | none ↦ record { userinfo = userinfo; host = authority; port = [] }
]

unfoldable pub parse_host_port : Bytes → Bytes → Result UriError Authority
parse_host_port userinfo [] = ok (plain_host userinfo [])
parse_host_port userinfo (c ∷ s) =
    if c == b'[' then bracket_host userinfo (c ∷ s) else ok (plain_host userinfo (c ∷ s))

unfoldable pub parse_authority : Bytes → Result UriError Authority
parse_authority authority =
    parse_host_port (split_userinfo authority).0 (split_userinfo authority).1

unfoldable pub split_authority : Bytes → Result UriError (Authority × Bytes)
split_authority (a ∷ b ∷ rest) =
    if a == b'/' && b == b'/'
    then (do
      auth ← parse_authority (before ends_authority rest)
      ok (auth, from ends_authority rest))
    else ok (no_authority, a ∷ b ∷ rest)
split_authority rest = ok (no_authority, rest)

-- Sections 3 to 5: path, query and fragment.
unfoldable pub path_or_root : Bytes → Bytes
path_or_root [] = b'/' ∷ []
path_or_root (c ∷ s) = c ∷ s

unfoldable pub split_query : Bytes → Bytes × Bytes
split_query [] = ([], [])
split_query (c ∷ rest) =
    if c == b'?' then (before ends_query rest, from ends_query rest) else ([], c ∷ rest)

unfoldable pub take_fragment : Bytes → Bytes
take_fragment [] = []
take_fragment (c ∷ rest) = if c == b'#' then rest else []

-- Section 6.
unfoldable pub assign_port : Bytes → Bytes → Bytes → Bytes
assign_port default_port scheme port =
    if not (is_empty port)
    then port
    else if not (is_empty default_port)
    then default_port
    else if beq scheme (codes "https")
    then codes "443"
    else if beq scheme (codes "http")
    then codes "80"
    else []

abbrev pub https_port : Bytes
https_port = codes "443"

unfoldable pub assemble : Bytes → Bytes → Authority → Bytes → ParsedUrl
assemble default_port scheme auth rest =
    let (query, behind) = split_query (from ends_path rest) in
    record {
      scheme = scheme;
      userinfo = auth.userinfo;
      host = auth.host;
      port = assign_port default_port scheme auth.port;
      path = path_or_root (before ends_path rest);
      query = query;
      fragment = take_fragment behind;
    }

unfoldable pub parse_url_with : Bytes → Bytes → Result UriError ParsedUrl
parse_url_with uri default_port = do
  s ← split_scheme uri
  a ← split_authority s.1
  ok (assemble default_port s.0 a.0 a.1)

-- The header's default argument.
unfoldable pub parse_url : Bytes → Result UriError ParsedUrl
unfolding parse_url_with
parse_url uri = parse_url_with uri https_port
