-- ===== src/Url/Fields.antt =====
-- What the components of a parsed URL contain, whatever the text was.
use bw_fetcher.Base.{
  ℕ, true, not, [], ◌∷◌, ◌≡◌, ◌≢◌, refl, arith, Bytes, every, before, from, every-before, free, ok,
  >>=-eq-ok, ok-injective, is_alpha, is_alnum,
}
use bw_fetcher.Url.{
  ParsedUrl, Authority, is_scheme_char, ends_scheme, ends_path, ends_query, skip_colon,
  split_scheme, split_authority, split_query, path_or_root, assign_port, assemble, parse_url_with,
}

-- A scheme: a letter, then scheme characters.
abbrev pub IsScheme : Bytes → Type 0
IsScheme [] = ⊥
IsScheme (c ∷ s) = (is_alpha c ≡ true) × (every is_scheme_char (c ∷ s) ≡ true)

pub record HasFields (default_port : Bytes) (u : ParsedUrl) : Type 0 where
  pub scheme_chars : IsScheme u.scheme
  pub path_ne_nil : u.path ≢ []
  pub path_stops : every (λ c. not (ends_path c)) u.path ≡ true
  pub query_stops : free b'#' u.query ≡ true
  pub port_given : default_port ≢ [] → u.port ≢ []

every-is_scheme_char :
    (s : Bytes) → every (λ c. not (ends_scheme c)) s ≡ true → every is_scheme_char s ≡ true
unfolding every
every-is_scheme_char [] h = refl
every-is_scheme_char (c ∷ s) h = ground (arith, every-is_scheme_char s)

alpha-is_scheme_char : (c : ℕ) → is_alpha c ≡ true → is_scheme_char c ≡ true
unfolding is_scheme_char is_alnum
alpha-is_scheme_char c h = ground arith

split_scheme-IsScheme : (uri : Bytes) {p : Bytes × Bytes} → split_scheme uri ≡ ok p → IsScheme p.0
unfolding split_scheme skip_colon before
split_scheme-IsScheme [] h = cc
split_scheme-IsScheme (c ∷ s) h = ground (
  arith,
  alpha-is_scheme_char c,
  every-before ends_scheme (c ∷ s),
  every-is_scheme_char (before ends_scheme (c ∷ s)),
)

path_or_root_lem :
    (s : Bytes)
    → every (λ c. not (ends_path c)) s ≡ true
    → (path_or_root s ≢ []) × (every (λ c. not (ends_path c)) (path_or_root s) ≡ true)
unfolding path_or_root every
path_or_root_lem [] h = (λ e. cc, refl)
path_or_root_lem (c ∷ s) h = (λ e. cc, h)

free-split_query : (s : Bytes) → free b'#' (split_query s).0 ≡ true
unfolding split_query every
free-split_query [] = refl
free-split_query (c ∷ s) = ground (arith, every-before ends_query s)

assign_port-ne-nil : (d scheme port : Bytes) → d ≢ [] → assign_port d scheme port ≢ []
unfolding assign_port
assign_port-ne-nil [] scheme port h = absurd (h refl)
assign_port-ne-nil (c ∷ d) scheme [] h = λ e. cc
assign_port-ne-nil (c ∷ d) scheme (p ∷ port) h = λ e. cc

assemble-HasFields :
    (d scheme : Bytes) (a : Authority) (rest : Bytes)
    → IsScheme scheme
    → HasFields d (assemble d scheme a rest)
unfolding assemble
assemble-HasFields d scheme a rest h =
    let path = path_or_root_lem (before ends_path rest) (every-before ends_path rest) in
    record {
      scheme_chars = h;
      path_ne_nil = path.0;
      path_stops = path.1;
      query_stops = free-split_query (from ends_path rest);
      port_given = assign_port-ne-nil d scheme a.port;
    }

-- Whatever text parses: the scheme is a letter and then scheme characters, the path is not empty
-- and holds no '?' and no '#', the query holds no '#', and with a default port there is a port.
pub parse_url-HasFields :
    (uri d : Bytes) {u : ParsedUrl} → parse_url_with uri d ≡ ok u → HasFields d u
unfolding parse_url_with
parse_url-HasFields uri d h =
    let (s, e, h') = >>=-eq-ok (split_scheme uri) _ h in
    let (a, e', h'') = >>=-eq-ok (split_authority s.1) _ h' in
    rw (← ok-injective h'') (assemble-HasFields d s.0 a.0 a.1 (split_scheme-IsScheme uri e))
