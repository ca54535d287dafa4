-- ===== src/Json/Decode.antt =====
-- What a JSON reader makes of the inside of a string literal (RFC 8259, section 7), byte by byte.
-- Escapes above "\u007f" stand for several bytes and are refused here; the program writes none.
use mathlib.Core.Option
use bw_fetcher.Base.{
  ℕ, suc, ◌+◌, ◌-◌, ◌*◌, ◌&&◌, ◌||◌, Option, none, some, [], ◌∷◌, ltb, leb, ◌==◌, if◌then◌else◌,
  Bytes, zero,
}

-- In a plain stretch, behind a backslash, or with hex digits still to read and the value so far.
pub data Mode : Type 0 where
  plain escaped : Mode
  hex_digits : ℕ → ℕ → Mode

unfoldable pub simple_escape : ℕ → Option ℕ
simple_escape c =
    if c == b'"' || c == b'\\' || c == b'/'
    then some c
    else if c == b'b'
    then some 8
    else if c == b'f'
    then some 12
    else if c == b'n'
    then some 10
    else if c == b'r'
    then some 13
    else if c == b't'
    then some 9
    else none

unfoldable pub hex_value : ℕ → Option ℕ
hex_value c =
    if leb b'0' c && leb c b'9'
    then some (c - b'0')
    else if leb b'a' c && leb c b'f'
    then some (c - b'a' + 10)
    else if leb b'A' c && leb c b'F'
    then some (c - b'A' + 10)
    else none

-- The next mode, and the byte that is complete.
abbrev hex_step : ℕ → ℕ → Option (Mode × Option ℕ)
hex_step zero v = if ltb v 128 then some (plain, some v) else none
hex_step (suc n) v = some (hex_digits (suc n) v, none)

unfoldable pub step : Mode → ℕ → Option (Mode × Option ℕ)
unfolding simple_escape hex_value
step plain c =
    if c == b'\\'
    then some (escaped, none)
    else if c == b'"' || ltb c 0x20
    then none
    else some (plain, some c)
step escaped c =
    if c == b'u'
    then some (hex_digits 4 0, none)
    else Option.map (λ d. (plain, some d)) (simple_escape c)
step (hex_digits zero v) c = none
step (hex_digits (suc n) v) c = elim (hex_value c) [
  | none ↦ none
  | some d ↦ hex_step n (v * 16 + d)
]

abbrev emit : Option ℕ → Bytes → Bytes
emit none s = s
emit (some c) s = c ∷ s

-- `none` where the text is no inside of a string literal.
unfoldable pub decode : Mode → Bytes → Option Bytes
decode plain [] = some []
decode _ [] = none
decode m (c ∷ s) = elim (step m c) [
  | none ↦ none
  | some (m', e) ↦ Option.map (emit e) (decode m' s)
]
