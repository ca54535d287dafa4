-- ===== src/Url/Print.antt =====
-- A text for the components of a URL, and the components that can be read back from it.
use bw_fetcher.Base.{true, not, [], ◌∷◌, ◌++◌, ◌≡◌, ◌≢◌, if◌then◌else◌, Bytes, every, free}
use bw_fetcher.Url.{ParsedUrl, ends_authority, ends_path}
use bw_fetcher.Url.Fields.{IsScheme}

unfoldable pub print_userinfo : Bytes → Bytes → Bytes
print_userinfo [] host_port = host_port
print_userinfo (c ∷ s) host_port = (c ∷ s) ++ (b'@' ∷ host_port)

-- A host with a colon is an IPv6 literal, and is put in brackets.
unfoldable pub print_host : Bytes → Bytes → Bytes
print_host host port =
    if free b':' host then host ++ (b':' ∷ port) else b'[' ∷ (host ++ (b']' ∷ b':' ∷ port))

unfoldable pub print_fragment : Bytes → Bytes
print_fragment [] = []
print_fragment (c ∷ s) = b'#' ∷ c ∷ s

unfoldable pub print_query : Bytes → Bytes → Bytes
print_query [] rest = rest
print_query (c ∷ s) rest = b'?' ∷ ((c ∷ s) ++ rest)

abbrev pub print_authority : ParsedUrl → Bytes
print_authority u = print_userinfo u.userinfo (print_host u.host u.port)

abbrev pub print_tail : ParsedUrl → Bytes
print_tail u = u.path ++ print_query u.query (print_fragment u.fragment)

unfoldable pub print : ParsedUrl → Bytes
print u = u.scheme ++ (b':' ∷ b'/' ∷ b'/' ∷ (print_authority u ++ print_tail u))

-- No delimiter of the authority, and no '@'.
abbrev pub IsPlain : Bytes → Type 0
IsPlain s = (every (λ c. not (ends_authority c)) s ≡ true) × (free b'@' s ≡ true)

pub record IsPrintable (u : ParsedUrl) : Type 0 where
  pub scheme : IsScheme u.scheme
  pub userinfo : IsPlain u.userinfo
  pub host : IsPlain u.host
  pub host_open : free b'[' u.host ≡ true
  pub host_close : free b']' u.host ≡ true
  pub port : IsPlain u.port
  pub port_colon : free b':' u.port ≡ true
  pub port_ne_nil : u.port ≢ []
  pub path_tail : Bytes
  pub path : u.path ≡ b'/' ∷ path_tail
  pub path_stops : every (λ c. not (ends_path c)) u.path ≡ true
  pub query : free b'#' u.query ≡ true
