-- ===== src/Cookies/Jar.antt =====
-- What the jar holds, and what a server reads back from the header.
use bw_fetcher.Base.{
  ℕ, zero, suc, ◌≡◌, ◌≢◌, inl, inr, refl, true, false, some, [], ◌∷◌, arith, ◌==◌, Bool-cases,
  Option-cases, Bytes, codes, bytes_key, nat_key, insert, IsSorted, insert-IsSorted, beq, find,
  every, free, every-before, drop, take, blt, subst, some-injective,
}
use bw_fetcher.Types.{Headers}
use bw_fetcher.Headers.{lower}
use bw_fetcher.Cookies.{
  Jar, is_semicolon, cookie_at, cookie_of, store_cookie, absorb_set_cookie, absorb_header,
}

-- A name is not empty and has no '='; a value has no ';'.
abbrev pub IsCookie : Bytes × Bytes → Type 0
IsCookie (name, value) = (name ≢ []) × (free b'=' name ≡ true) × (free b';' value ≡ true)

abbrev pub AllCookies : Jar → Type 0
AllCookies [] = Unit
AllCookies (c ∷ jar) = IsCookie c × AllCookies jar

find-suc :
    (c x : ℕ) (s : Bytes) {i : ℕ}
    → find c (x ∷ s) ≡ some (suc i)
    → ((x == c) ≡ false) × (find c s ≡ some i)
unfolding find
find-suc c x s h = elim (Option-cases (find c s)) [
  | inl e ↦ ground arith
  | inr (k, e) ↦ ground arith
]

-- The text before the first occurrence has none.
take-find : (c : ℕ) (s : Bytes) (i : ℕ) → find c s ≡ some i → free c (take i s) ≡ true
unfolding every
take-find c [] i h = unfold find in cc
take-find c (x ∷ s) zero h = refl
take-find c (x ∷ s) (suc i) h =
    ground (arith, find-suc c x s h, take-find c s i (find-suc c x s h).1)

take-ne-nil : (c : ℕ) (s : Bytes) (i : ℕ) → find c s ≡ some (suc i) → take (suc i) s ≢ []
unfolding find
take-ne-nil c [] i h = cc
take-ne-nil c (x ∷ s) i h = λ e. cc

cookie_at-IsCookie :
    (raw : Bytes) (eq : ℕ) {c : Bytes × Bytes}
    → find b'=' raw ≡ some eq
    → cookie_at raw eq ≡ some c
    → IsCookie c
unfolding cookie_at
cookie_at-IsCookie raw zero f h = cc
cookie_at-IsCookie raw (suc eq) f h = subst IsCookie (some-injective h) (
  take-ne-nil b'=' raw eq f,
  take-find b'=' raw (suc eq) f,
  every-before is_semicolon (drop (suc (suc eq)) raw),
)

cookie_of-IsCookie : (raw : Bytes) {c : Bytes × Bytes} → cookie_of raw ≡ some c → IsCookie c
unfolding cookie_of
cookie_of-IsCookie raw h = elim (Option-cases (find b'=' raw)) [
  | inl e ↦ ground arith
  | inr (eq, e) ↦ cookie_at-IsCookie raw eq e (rw (e, cookie_of) at h)
]

insert-AllCookies :
    (name value : Bytes) (jar : Jar)
    → IsCookie (name, value)
    → AllCookies jar
    → AllCookies (insert name value jar)
unfolding insert
insert-AllCookies name value [] c a = (c, tt)
insert-AllCookies name value ((j, w) ∷ jar) c a = elim (Bool-cases (beq j name)) [
  | inl same ↦ rw same (c, a.1)
  | inr other ↦ elim (Bool-cases (blt name j)) [
    | inl less ↦ rw (other, less) (c, a)
    | inr more ↦ rw (other, more) (a.0, insert-AllCookies name value jar c a.1)
  ]
]

-- A jar: in order, so that each name stands once, and of well-formed cookies.
abbrev pub IsJar : Jar → Type 0
IsJar jar = IsSorted jar × AllCookies jar

store_cookie-IsJar :
    (jar : Jar) (raw : Bytes) → IsJar jar → IsJar (store_cookie jar (cookie_of raw))
unfolding store_cookie
store_cookie-IsJar jar raw h = elim (Option-cases (cookie_of raw)) [
  | inl e ↦ rw e h
  | inr ((name, value), e) ↦ rw e (
    insert-IsSorted name value jar h.0,
    insert-AllCookies name value jar (cookie_of-IsCookie raw e) h.1,
  )
]

absorb_header-IsJar : (jar : Jar) (key raw : Bytes) → IsJar jar → IsJar (absorb_header jar key raw)
unfolding absorb_header
absorb_header-IsJar jar key raw h = elim (Bool-cases (beq (lower key) (codes "set-cookie"))) [
  | inl e ↦ rw e (store_cookie-IsJar jar raw h)
  | inr e ↦ rw e h
]

-- Absorbing any response headers keeps the jar in order, with each name once, every name not empty
-- and without '=', and every value without ';'.
pub absorb_set_cookie-IsJar :
    (jar : Jar) (headers : Headers) → IsJar jar → IsJar (absorb_set_cookie jar headers)
unfolding absorb_set_cookie
absorb_set_cookie-IsJar jar [] h = h
absorb_set_cookie-IsJar jar ((key, raw) ∷ headers) h =
    absorb_set_cookie-IsJar (absorb_header jar key raw) headers (absorb_header-IsJar jar key raw h)
