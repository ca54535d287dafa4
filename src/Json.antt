-- ===== src/Json.antt =====
-- The JSON writing and reading of main.cpp: `json_escape`, `write_headers_json`, and the scan by
-- which `write_catalog_json` reads a string back out of a meta.json.
pub mod Decode
pub mod Extract
pub mod RoundTrip
use bw_fetcher.Base.{
  ℕ, zero, suc, ◌+◌, ◌-◌, ◌*◌, ◌≤◌, ◌<◌, ◌≡◌, ◌≢◌, ◌↔◌, ◌⊎◌, inl, inr, refl, sym, ap, ap₂, ◌∙◌,
  Bool, true, false, not, ◌&&◌, ◌||◌, Option, none, some, List, [], ◌∷◌, ◌++◌, map, arith, ltb, leb,
  ◌==◌, if◌then◌else◌, Bool-cases, Option-cases, Bytes, codes, length, ◌/◌, ◌%◌, Dict, drop, before,
  from, after_first,
}

abbrev pub hex : ℕ → ℕ
hex d = if ltb d 10 then b'0' + d else b'a' + (d - 10)

-- The `switch` of `json_escape`; the nibbles are `(c >> 4) & 0xF` and `c & 0xF`.
unfoldable pub escape_byte : ℕ → Bytes
escape_byte c =
    if c == b'"'
    then b'\\' ∷ b'"' ∷ []
    else if c == b'\\'
    then b'\\' ∷ b'\\' ∷ []
    else if c == b'\n'
    then b'\\' ∷ b'n' ∷ []
    else if c == b'\r'
    then b'\\' ∷ b'r' ∷ []
    else if c == b'\t'
    then b'\\' ∷ b't' ∷ []
    else if ltb c 0x20
    then b'\\' ∷ b'u' ∷ b'0' ∷ b'0' ∷ hex (c / 16 % 16) ∷ hex (c % 16) ∷ []
    else c ∷ []

-- The loop appends to `out`.
unfoldable pub json_escape_onto : Bytes → Bytes → Bytes
json_escape_onto out [] = out
json_escape_onto out (c ∷ s) = json_escape_onto (out ++ escape_byte c) s

unfoldable pub json_escape : Bytes → Bytes
unfolding json_escape_onto
json_escape s = json_escape_onto [] s

-- `!kv.first.empty() && kv.first[0] == ':'`
unfoldable pub is_pseudo : Bytes → Bool
is_pseudo [] = false
is_pseudo (c ∷ k) = c == b':'

abbrev pub quoted : Bytes → Bytes
quoted s = b'"' ∷ (json_escape s ++ (b'"' ∷ []))

unfoldable pub write_pairs : Bool → Dict Bytes Bytes → Bytes
unfolding is_pseudo
write_pairs first [] = []
write_pairs first ((k, v) ∷ headers) =
    let rest = write_pairs (is_pseudo k && first) headers in
    if is_pseudo k
    then rest
    else (if first then [] else b',' ∷ []) ++ (quoted k ++ (b':' ∷ (quoted v ++ rest)))

unfoldable pub write_headers_json : Dict Bytes Bytes → Bytes
unfolding write_pairs
write_headers_json headers = codes ",\"headers\":{" ++ (write_pairs true headers ++ codes "}")

-- `extract_string`: what stands between `"key": "` and the next quote.
abbrev pub needle : Bytes → Bytes
needle key = b'"' ∷ (key ++ codes "\": \"")

abbrev pub is_quote : ℕ → Bool
is_quote c = c == b'"'

unfoldable pub up_to_quote : Bytes → Bytes
up_to_quote rest = elim (from is_quote rest) [ [] ↦ [] | c ∷ s ↦ before is_quote rest ]

unfoldable pub extract_string : Bytes → Bytes → Bytes
unfolding up_to_quote
extract_string content key = elim (after_first (needle key) content) [
  | none ↦ []
  | some rest ↦ up_to_quote rest
]
