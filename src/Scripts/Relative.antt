-- ===== src/Scripts/Relative.antt =====
-- Where a relative `src` leads.
use bw_fetcher.Base.{
  ◌+◌, ◌≡◌, inl, inr, refl, sym, ap, ◌∙◌, true, false, ◌||◌, [], ◌∷◌, ◌++◌, arith, ◌==◌,
  if◌then◌else◌, Bool-cases, Bytes, codes, length, bytes_key, nat_key, pair_key, ok, every, take,
  free, ==_iff, length-append, rfind-append, append_assoc, take-append,
}
use bw_fetcher.Url.{ParsedUrl, parse_url}
use bw_fetcher.Scripts.{
  resolve_url, resolve_against, ParsedUrl, parse_url, directory_of, up_to_slash,
}
use bw_fetcher.Base.{
  ◌≡◌, inl, inr, refl, false, ◌||◌, [], ◌∷◌, ◌++◌, arith, Bool-cases, Bytes, codes, bytes_key,
  nat_key, pair_key, starts_with, ok,
}

starts_with-slashes :
    (s : Bytes) → starts_with (codes "/") s ≡ false → starts_with (codes "//") s ≡ false
unfolding starts_with
starts_with-slashes [] h = refl
starts_with-slashes (c ∷ s) h = ground arith

-- A text with a slash, cut at its last one.
last_slash :
    (s : Bytes)
    → free b'/' s ≡ false
    → (dir : Bytes) × (file : Bytes) × (s ≡ dir ++ (b'/' ∷ file)) × (free b'/' file ≡ true)
unfolding every
last_slash [] h = cc
last_slash (c ∷ s) h = elim (Bool-cases (free b'/' s)) [
  | inl last ↦
      let here : (c == b'/') ≡ true = unfold every in ground (arith, h, last) in
      ([], s, ap (λ d. d ∷ s) ((==_iff c b'/').0 here), last)
  | inr later ↦ let (dir, file, e, f) = last_slash s later in (c ∷ dir, file, ap (λ t. c ∷ t) e, f)
]

take-slash : (dir file : Bytes) → take (length dir + 1) (dir ++ (b'/' ∷ file)) ≡ dir ++ (b'/' ∷ [])
take-slash dir file =
    let n : length dir + 1 ≡ length (dir ++ (b'/' ∷ [])) =
      omega (arith, length-append dir (b'/' ∷ [])) in
    rw (n, sym (append_assoc dir (b'/' ∷ []) file), take-append (dir ++ (b'/' ∷ [])) file) refl

directory_of-cut :
    (dir file : Bytes)
    → free b'/' file ≡ true
    → directory_of (dir ++ (b'/' ∷ file)) ≡ dir ++ (b'/' ∷ [])
unfolding directory_of
directory_of-cut dir file f =
    ap (up_to_slash (dir ++ (b'/' ∷ file))) (rfind-append b'/' dir file f) ∙ take-slash dir file

-- On a page whose URL parses, with a path that begins with "/", every `src` that does not begin with "http://" or
-- "https://" resolves to an https URL on the page's own host, also where it begins with "//" and names another host:
-- with `src` as the path where it begins with "/", and else with the page's path up to its last slash before it.
pub resolve_url-own_host :
    (src page_url : Bytes) (base : ParsedUrl)
    → parse_url page_url ≡ ok base
    → (path : Bytes) → base.path ≡ b'/' ∷ path
    → (starts_with (codes "http://") src || starts_with (codes "https://") src) ≡ false
    → (dir : Bytes) × (file : Bytes) × (base.path ≡ dir ++ (b'/' ∷ file))
      × (free b'/' file ≡ true)
      × (resolve_url src page_url
          ≡ codes "https://"
            ++ (base.host ++ (if starts_with (codes "/") src then src else dir ++ (b'/' ∷ src))))
unfolding resolve_url resolve_against
resolve_url-own_host src page_url base e path rooted relative =
    let slashed : free b'/' base.path ≡ false = rw rooted (unfold every in refl) in
    let (dir, file, cut, f) = last_slash base.path slashed in
    (
      dir,
      file,
      cut,
      f,
      elim (Bool-cases (starts_with (codes "/") src)) [
        | inl root ↦ rw (e, relative, root) refl
        | inr plain ↦
            let folder = ap directory_of cut ∙ directory_of-cut dir file f in
            rw (e, relative, plain, starts_with-slashes src plain)
              (ap (λ t. codes "https://" ++ (base.host ++ t))
                (ap (λ t. t ++ src) folder ∙ append_assoc dir (b'/' ∷ []) src))
      ],
    )
