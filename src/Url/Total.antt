-- ===== src/Url/Total.antt =====
-- The texts that `parse_url` accepts for certain.
use bw_fetcher.Url.RoundTrip.{split_scheme-append}
use bw_fetcher.Url.{
  parse_host_port, split_userinfo, parse_authority, ends_authority, split_authority, parse_url_with,
  Authority, assemble, ParsedUrl, plain_host, no_authority,
}
use bw_fetcher.Base.{
  refl, [], Bytes, every, before, free, ◌≡◌, true, ℕ, ◌∷◌, ok, Option-cases, arith, find, ◌++◌, inl,
  Bool-cases, inr, ◌==◌, every-drop, ◌&&◌, not, from, suc,
}
use bw_fetcher.Url.Fields.{IsScheme}

parse_host_port_total :
    (userinfo s : Bytes)
    → free b'[' s ≡ true
    → (a : Authority) × (parse_host_port userinfo s ≡ ok a)
unfolding parse_host_port every
parse_host_port_total userinfo [] h = (plain_host userinfo [], refl)
parse_host_port_total userinfo (c ∷ s) h = (plain_host userinfo (c ∷ s), ground arith)

split_userinfo-free : (c : ℕ) (s : Bytes) → free c s ≡ true → free c (split_userinfo s).1 ≡ true
unfolding split_userinfo
split_userinfo-free c s h = elim (Option-cases (find b'@' s)) [
  | inl e ↦ ground arith
  | inr (at, e) ↦ ground (arith, every-drop (λ x. not (x == c)) (suc at) s h)
]

parse_authority_total :
    (s : Bytes) → free b'[' s ≡ true → (a : Authority) × (parse_authority s ≡ ok a)
unfolding parse_authority
parse_authority_total s h =
    parse_host_port_total (split_userinfo s).0 (split_userinfo s).1 (split_userinfo-free b'[' s h)

free-before : (s : Bytes) → free b'[' s ≡ true → free b'[' (before ends_authority s) ≡ true
unfolding every before
free-before [] h = refl
free-before (c ∷ s) h = ground (arith, free-before s)

split_authority_total :
    (rest : Bytes) → free b'[' rest ≡ true → (a : Authority × Bytes) × (split_authority rest ≡ ok a)
unfolding split_authority every
split_authority_total [] h = ((no_authority, []), refl)
split_authority_total (a ∷ []) h = ((no_authority, a ∷ []), refl)
split_authority_total (a ∷ b ∷ rest) h = elim (Bool-cases (a == b'/' && b == b'/')) [
  | inl slashes ↦
      let (auth, e) =
        parse_authority_total (before ends_authority rest) (free-before rest (ground arith)) in
      ((auth, from ends_authority rest), rw (slashes, e))
  | inr other ↦ ((no_authority, a ∷ b ∷ rest), rw other)
]

-- A text with a scheme, a colon and no '[' behind it always parses.
pub parse_url_total :
    (scheme rest d : Bytes)
    → IsScheme scheme
    → free b'[' rest ≡ true
    → (u : ParsedUrl) × (parse_url_with (scheme ++ (b':' ∷ rest)) d ≡ ok u) × (u.scheme ≡ scheme)
unfolding parse_url_with assemble
parse_url_total scheme rest d h k =
    let (a, e) = split_authority_total rest k in
    (assemble d scheme a.0 a.1, rw (split_scheme-append scheme rest h, e), refl)
