-- ===== src/Cookies/Header.antt =====
-- A server that splits the Cookie header at "; " and each piece at its first '=' gets the jar.
use bw_fetcher.Base.{
  ℕ, zero, suc, ◌≤◌, ◌<◌, ◌≡◌, ◌≢◌, refl, ◌∙◌, true, false, not, Option, none, some, [], ◌∷◌, ◌++◌,
  arith, ◌==◌, Bytes, length, bytes_key, nat_key, every, every-append, free, before, from, drop,
  take, find, find-append, take-append, drop-append-suc, before-stop, before-none, from-stop,
  from-none, append-nil, length-append,
}
use bw_fetcher.Cookies.{Jar, is_semicolon, pair, cookie_pairs, build_cookie_header}
use bw_fetcher.Cookies.Jar.{AllCookies}

-- One piece of the header, and the rest behind its ';' and the space.
pub split_pair : Bytes → Option (Bytes × Bytes)
split_pair s = elim (find b'=' s) [ none ↦ none | some i ↦ some (take i s, drop (suc i) s) ]

abbrev pub cons_pair : Option (Bytes × Bytes) → Option Jar → Option Jar
cons_pair (some p) (some jar) = some (p ∷ jar)
cons_pair _ _ = none

-- The reader; each round takes one piece, so the length of the text is fuel enough.
pub read_pairs : ℕ → Bytes → Option Jar
read_pairs zero s = none
read_pairs (suc fuel) s = elim (from is_semicolon s) [
  | [] ↦ cons_pair (split_pair (before is_semicolon s)) (some [])
  | c ∷ rest ↦ cons_pair (split_pair (before is_semicolon s)) (read_pairs fuel (drop 1 rest))
]

abbrev pub read_cookie_header : Bytes → Option Jar
read_cookie_header [] = some []
read_cookie_header (c ∷ s) = read_pairs (suc (suc (length s))) (c ∷ s)

-- Names that a server can tell apart from values: no ';' in them.
abbrev pub NamesFree : Jar → Type 0
NamesFree [] = Unit
NamesFree ((name, value) ∷ jar) = (free b';' name ≡ true) × NamesFree jar

split_pair-pair :
    (name value : Bytes) → free b'=' name ≡ true → split_pair (pair name value) ≡ some (name, value)
unfolding split_pair
split_pair-pair name value h = ground (
  arith,
  find-append b'=' name value h,
  take-append name (b'=' ∷ value),
  drop-append-suc name b'=' value,
)

free-pair :
    (name value : Bytes)
    → free b';' name ≡ true
    → free b';' value ≡ true
    → free b';' (pair name value) ≡ true
unfolding every
free-pair name value h k = ground (arith, every-append (λ x. not (x == b';')) name (b'=' ∷ value))

read_pairs-end :
    (fuel : ℕ) (s : Bytes)
    → free b';' s ≡ true
    → read_pairs (suc fuel) (s ++ []) ≡ cons_pair (split_pair s) (some [])
unfolding read_pairs
read_pairs-end fuel s h =
    let e = append-nil s in
    rw (e, from-none is_semicolon s h, read_pairs, e, before-none is_semicolon s h)

read_pairs-stop :
    (fuel : ℕ) (s rest : Bytes)
    → free b';' s ≡ true
    → read_pairs (suc fuel) (s ++ (b';' ∷ b' ' ∷ rest))
      ≡ cons_pair (split_pair s) (read_pairs fuel rest)
unfolding read_pairs
read_pairs-stop fuel s rest h = rw (
  from-stop is_semicolon s b';' (b' ' ∷ rest) h refl,
  read_pairs,
  before-stop is_semicolon s b';' (b' ' ∷ rest) h refl,
)

read_pairs-cookie_pairs :
    (fuel : ℕ) (name value : Bytes) (jar : Jar)
    → length jar < fuel
    → AllCookies ((name, value) ∷ jar)
    → NamesFree ((name, value) ∷ jar)
    → read_pairs fuel (pair name value ++ cookie_pairs false jar) ≡ some ((name, value) ∷ jar)
unfolding cookie_pairs
read_pairs-cookie_pairs zero name value jar f a n = absurd (omega arith)
read_pairs-cookie_pairs (suc fuel) name value [] f a n = rw (
  read_pairs-end fuel (pair name value) (free-pair name value n.0 a.0.2),
  split_pair-pair name value a.0.1,
)
read_pairs-cookie_pairs (suc fuel) name value ((k, v) ∷ jar) f a n = rw (
  read_pairs-stop fuel (pair name value) (pair k v ++ cookie_pairs false jar)
      (free-pair name value n.0 a.0.2),
  split_pair-pair name value a.0.1,
  read_pairs-cookie_pairs fuel k v jar (omega arith) a.1 n.1,
)

length-cookie_pairs : (jar : Jar) → length jar ≤ length (cookie_pairs false jar)
unfolding cookie_pairs
length-cookie_pairs [] = omega arith
length-cookie_pairs ((k, v) ∷ jar) =
    omega (arith, length-append (pair k v) (cookie_pairs false jar), length-cookie_pairs jar)

read_cookie_header-of_pair :
    (name value rest : Bytes)
    → name ≢ []
    → read_cookie_header (pair name value ++ rest)
      ≡ read_pairs (suc (length (pair name value ++ rest))) (pair name value ++ rest)
read_cookie_header-of_pair [] value rest h = absurd (h refl)
read_cookie_header-of_pair (c ∷ name) value rest h = refl

-- Of a jar of cookies, with names that are not empty and have no '=', and values that have no ';', a server reads back
-- exactly the jar's cookies, in their order, if no name has a ';' either.
pub read-build_cookie_header :
    (jar : Jar)
    → AllCookies jar
    → NamesFree jar
    → read_cookie_header (build_cookie_header jar) ≡ some jar
unfolding build_cookie_header cookie_pairs
read-build_cookie_header [] a n = refl
read-build_cookie_header ((name, value) ∷ jar) a n =
    read_cookie_header-of_pair name value (cookie_pairs false jar) a.0.0
    ∙ read_pairs-cookie_pairs _ name value jar
        (omega (
          arith,
          length-append (pair name value) (cookie_pairs false jar),
          length-cookie_pairs jar,
        ))
        a n
