-- ===== src/Cookies.antt =====
-- fetcher.cpp: the cookie jar of a connection, `absorb_set_cookie` and `build_cookie_header`.
pub mod Jar
pub mod Header
use bw_fetcher.Base.{
  ℕ, zero, suc, ◌+◌, ◌-◌, ◌*◌, ◌≤◌, ◌<◌, ◌≡◌, ◌≢◌, ◌↔◌, ◌⊎◌, inl, inr, refl, sym, ap, ap₂, ◌∙◌,
  Bool, true, false, not, ◌&&◌, ◌||◌, Option, none, some, List, [], ◌∷◌, ◌++◌, map, arith, ltb, leb,
  ◌==◌, if◌then◌else◌, Bool-cases, Option-cases, Bytes, codes, length, bytes_key, nat_key, Dict,
  insert, beq, find, before, drop, take,
}
use bw_fetcher.Types.{Headers}
use bw_fetcher.Headers.{lower}

abbrev pub Jar : Type 0
Jar = Dict Bytes Bytes

abbrev pub is_semicolon : ℕ → Bool
is_semicolon c = c == b';'

-- The name and the value; `none` where the header is skipped.
unfoldable pub cookie_at : Bytes → ℕ → Option (Bytes × Bytes)
cookie_at raw zero = none
cookie_at raw (suc eq) = some (take (suc eq) raw, before is_semicolon (drop (suc (suc eq)) raw))

unfoldable pub cookie_of : Bytes → Option (Bytes × Bytes)
unfolding cookie_at
cookie_of raw = elim (find b'=' raw) [ none ↦ none | some eq ↦ cookie_at raw eq ]

unfoldable pub store_cookie : Jar → Option (Bytes × Bytes) → Jar
store_cookie jar none = jar
store_cookie jar (some (name, value)) = insert name value jar

-- The body of the loop.
unfoldable pub absorb_header : Jar → Bytes → Bytes → Jar
absorb_header jar key raw =
    if beq (lower key) (codes "set-cookie") then store_cookie jar (cookie_of raw) else jar

unfoldable pub absorb_set_cookie : Jar → Headers → Jar
absorb_set_cookie jar [] = jar
absorb_set_cookie jar ((key, raw) ∷ headers) = absorb_set_cookie (absorb_header jar key raw) headers

abbrev pub pair : Bytes → Bytes → Bytes
pair name value = name ++ (b'=' ∷ value)

-- The loop, with its flag `first`.
unfoldable pub cookie_pairs : Bool → Jar → Bytes
cookie_pairs first [] = []
cookie_pairs first ((name, value) ∷ jar) =
    (if first then [] else codes "; ") ++ (pair name value ++ cookie_pairs false jar)

unfoldable pub build_cookie_header : Jar → Bytes
unfolding cookie_pairs
build_cookie_header jar = cookie_pairs true jar
