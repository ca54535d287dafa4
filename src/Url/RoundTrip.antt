-- ===== src/Url/RoundTrip.antt =====
-- `parse_url` reads back what `print` writes.
use bw_fetcher.Base.{
  ℕ, Bool, true, not, [], ◌∷◌, ◌++◌, ◌≡◌, ◌≢◌, refl, ap, ◌∙◌, inl, inr, arith, Bool-cases, Bytes,
  every, free, find, before, from, before-stop, from-stop, before-none, from-none, every-append,
  take-append, find-free, find-append, rfind-append, append-nil, ok, is_alnum, drop-append-suc,
  drop-append-two, get_elem?-append-suc, ap₂,
}
use bw_fetcher.Url.{
  ParsedUrl, is_scheme_char, ends_scheme, ends_authority, ends_path, ends_query, skip_colon,
  split_scheme, split_authority, split_query, take_fragment, path_or_root, assign_port, assemble,
  parse_url_with, split_userinfo, bracket_port, bracket_host, only_colon, plain_host,
  parse_host_port, parse_authority,
}
use bw_fetcher.Url.Fields.{IsScheme}
use bw_fetcher.Url.Print.{
  print_userinfo, print_host, print_fragment, print_query, print_authority, print_tail, print,
  IsPrintable,
}

not-ends_scheme :
    (s : Bytes) → every is_scheme_char s ≡ true → every (λ c. not (ends_scheme c)) s ≡ true
unfolding every
not-ends_scheme [] h = refl
not-ends_scheme (c ∷ s) h = ground (arith, not-ends_scheme s)

colon_ends_scheme : ends_scheme b':' ≡ true
unfolding is_scheme_char is_alnum
colon_ends_scheme = refl

pub split_scheme-append :
    (scheme rest : Bytes)
    → IsScheme scheme
    → split_scheme (scheme ++ (b':' ∷ rest)) ≡ ok (scheme, rest)
unfolding split_scheme skip_colon
split_scheme-append [] rest h = absurd h
split_scheme-append (c ∷ s) rest h =
    let clean = not-ends_scheme (c ∷ s) h.1 in
    rw (
      h.0,
      before-stop ends_scheme (c ∷ s) b':' rest clean colon_ends_scheme,
      from-stop ends_scheme (c ∷ s) b':' rest clean colon_ends_scheme,
    )

-- Plain host and port: one colon between them.
plain_host-append :
    (userinfo host port : Bytes)
    → free b':' host ≡ true
    → free b':' port ≡ true
    → plain_host userinfo (host ++ (b':' ∷ port))
      ≡ record { userinfo = userinfo; host = host; port = port }
unfolding plain_host only_colon
plain_host-append userinfo host port h p = ground (
  arith,
  rfind-append b':' host port p,
  find-append b':' host port h,
  take-append host (b':' ∷ port),
  drop-append-suc host b':' port,
)

bracket_host-append :
    (userinfo host port : Bytes)
    → free b']' host ≡ true
    → bracket_host userinfo (b'[' ∷ (host ++ (b']' ∷ b':' ∷ port)))
      ≡ ok (record { userinfo = userinfo; host = host; port = port })
unfolding bracket_host bracket_port find
bracket_host-append userinfo host port h = ground (
  arith,
  find-append b']' host (b':' ∷ port) h,
  take-append host (b']' ∷ b':' ∷ port),
  drop-append-two host b']' b':' port,
  get_elem?-append-suc host b']' b':' port,
)

parse_host_port_plain :
    (userinfo host rest : Bytes)
    → free b'[' host ≡ true
    → parse_host_port userinfo (host ++ (b':' ∷ rest))
      ≡ ok (plain_host userinfo (host ++ (b':' ∷ rest)))
unfolding parse_host_port every
parse_host_port_plain userinfo [] rest h = refl
parse_host_port_plain userinfo (c ∷ s) rest h = ground arith

parse_host_port-print :
    (userinfo host port : Bytes)
    → free b'[' host ≡ true
    → free b']' host ≡ true
    → free b':' port ≡ true
    → parse_host_port userinfo (print_host host port)
      ≡ ok (record { userinfo = userinfo; host = host; port = port })
unfolding parse_host_port print_host
parse_host_port-print userinfo host port o c p = elim (Bool-cases (free b':' host)) [
  | inl plain ↦ rw plain (
      parse_host_port_plain userinfo host port o
      ∙ ap ok (plain_host-append userinfo host port plain p))
  | inr colon ↦ rw colon (bracket_host-append userinfo host port c)
]

-- The userinfo is what stands before the first '@'.
split_userinfo-print :
    (userinfo host_port : Bytes)
    → free b'@' userinfo ≡ true
    → free b'@' host_port ≡ true
    → split_userinfo (print_userinfo userinfo host_port) ≡ (userinfo, host_port)
unfolding split_userinfo print_userinfo
split_userinfo-print [] hp h k = ground (arith, find-free b'@' hp k)
split_userinfo-print (c ∷ s) hp h k = ground (
  arith,
  find-append b'@' (c ∷ s) hp h,
  take-append (c ∷ s) (b'@' ∷ hp),
  drop-append-suc (c ∷ s) b'@' hp,
)

-- Any test that passes on the parts and on the brackets and the colon passes on the text.
every-print_host :
    (q : ℕ → Bool) (host port : Bytes)
    → every q host ≡ true
    → every q port ≡ true
    → every q (b'[' ∷ b']' ∷ b':' ∷ []) ≡ true
    → every q (print_host host port) ≡ true
unfolding print_host every
every-print_host q host port h p m =
    ground (arith, every-append q host (b':' ∷ port), every-append q host (b']' ∷ b':' ∷ port))

every-print_userinfo :
    (q : ℕ → Bool) (userinfo rest : Bytes)
    → every q userinfo ≡ true
    → every q rest ≡ true
    → q b'@' ≡ true
    → every q (print_userinfo userinfo rest) ≡ true
unfolding print_userinfo every
every-print_userinfo q [] rest h p m = p
every-print_userinfo q (c ∷ s) rest h p m = ground (arith, every-append q s (b'@' ∷ rest))

module _ (u : ParsedUrl) (p : IsPrintable u) where
  parse_authority-print :
      parse_authority (print_authority u)
      ≡ ok (record { userinfo = u.userinfo; host = u.host; port = u.port })
  unfolding parse_authority every
  parse_authority-print =
      rw
        (split_userinfo-print u.userinfo (print_host u.host u.port) p.userinfo.1
          (every-print_host _ u.host u.port p.host.1 p.port.1 refl))
        (parse_host_port-print u.userinfo u.host u.port p.host_open p.host_close p.port_colon)

  authority_clean : every (λ c. not (ends_authority c)) (print_authority u) ≡ true
  unfolding every
  authority_clean =
      every-print_userinfo _ u.userinfo _ p.userinfo.0
        (every-print_host _ u.host u.port p.host.0 p.port.0 refl) refl

  split_authority-print :
      split_authority (b'/' ∷ b'/' ∷ (print_authority u ++ print_tail u))
      ≡ ok (record { userinfo = u.userinfo; host = u.host; port = u.port }, print_tail u)
  unfolding split_authority
  split_authority-print =
      let rest = p.path_tail ++ print_query u.query (print_fragment u.fragment) in
      rw (
        p.path,
        before-stop ends_authority (print_authority u) b'/' rest authority_clean refl,
        from-stop ends_authority (print_authority u) b'/' rest authority_clean refl,
        parse_authority-print,
      )

-- The path ends at the query, at the fragment, or at the end of the text.
path-print :
    (path query fragment : Bytes)
    → every (λ c. not (ends_path c)) path ≡ true
    → (before ends_path (path ++ print_query query (print_fragment fragment)) ≡ path)
      × (from ends_path (path ++ print_query query (print_fragment fragment))
          ≡ print_query query (print_fragment fragment))
unfolding print_query print_fragment
path-print path [] [] h = rw append-nil (before-none ends_path path h, from-none ends_path path h)
path-print path [] (f ∷ fs) h =
    (before-stop ends_path path b'#' (f ∷ fs) h refl, from-stop ends_path path b'#' (f ∷ fs) h refl)
path-print path (q ∷ qs) fragment h =
    (before-stop ends_path path b'?' _ h refl, from-stop ends_path path b'?' _ h refl)

query-print :
    (query fragment : Bytes)
    → free b'#' query ≡ true
    → (split_query (print_query query (print_fragment fragment)) ≡ (query, print_fragment fragment))
unfolding split_query print_query print_fragment
query-print [] [] h = refl
query-print [] (f ∷ fs) h = refl
query-print (q ∷ qs) [] h =
    rw append-nil
      (ap₂ (λ a b. (a, b)) (before-none ends_query (q ∷ qs) h) (from-none ends_query (q ∷ qs) h))
query-print (q ∷ qs) (f ∷ fs) h =
    ap₂ (λ a b. (a, b)) (before-stop ends_query (q ∷ qs) b'#' (f ∷ fs) h refl)
      (from-stop ends_query (q ∷ qs) b'#' (f ∷ fs) h refl)

fragment-print : (fragment : Bytes) → take_fragment (print_fragment fragment) ≡ fragment
unfolding take_fragment print_fragment
fragment-print [] = refl
fragment-print (c ∷ s) = refl

assign_port-given : (d scheme port : Bytes) → port ≢ [] → assign_port d scheme port ≡ port
unfolding assign_port
assign_port-given d scheme [] h = absurd (h refl)
assign_port-given d scheme (c ∷ s) h = refl

path_or_root-slash : {q : Bytes} (p : Bytes) → q ≡ b'/' ∷ p → path_or_root q ≡ q
unfolding path_or_root
path_or_root-slash p e = rw e

module _ (u : ParsedUrl) (p : IsPrintable u) (d : Bytes) where
  assemble-print :
      assemble d u.scheme
        (record { userinfo = u.userinfo; host = u.host; port = u.port })
        (print_tail u)
      ≡ u
  unfolding assemble
  assemble-print =
      let path = path-print u.path u.query u.fragment p.path_stops in
      rw (
        path.0,
        path.1,
        query-print u.query u.fragment p.query,
        fragment-print u.fragment,
        assign_port-given d u.scheme u.port p.port_ne_nil,
        path_or_root-slash p.path_tail p.path,
      )

  -- Any URL with an authority whose components are printable (no delimiter inside a component, a
  -- port, a path from '/', an IPv6 host without brackets) is parsed back, component by component,
  -- from its text.
  pub parse_url-print : parse_url_with (print u) d ≡ ok u
  unfolding parse_url_with print
  parse_url-print = rw (
    split_scheme-append u.scheme (b'/' ∷ b'/' ∷ (print_authority u ++ print_tail u)) p.scheme,
    split_authority-print u p,
    assemble-print,
  )
