-- ===== src/Json/RoundTrip.antt =====
-- A JSON reader gets back what `json_escape` was given.
use bw_fetcher.Base.{
  ℕ, ◌≡◌, refl, sym, ◌∙◌, some, [], ◌∷◌, ◌++◌, arith, Bytes, append-nil, append_assoc,
}
use bw_fetcher.Json.{escape_byte, json_escape_onto, json_escape}
use bw_fetcher.Json.Decode.{plain, step, decode}

-- The escaped text with no accumulator.
unfoldable pub escaped_text : Bytes → Bytes
escaped_text [] = []
escaped_text (c ∷ s) = escape_byte c ++ escaped_text s

json_escape_onto-escaped_text : (s out : Bytes) → json_escape_onto out s ≡ out ++ escaped_text s
unfolding json_escape_onto escaped_text
json_escape_onto-escaped_text [] out = sym (append-nil out)
json_escape_onto-escaped_text (c ∷ s) out =
    json_escape_onto-escaped_text s (out ++ escape_byte c)
    ∙ append_assoc out (escape_byte c) (escaped_text s)

pub json_escape-escaped_text : (s : Bytes) → json_escape s ≡ escaped_text s
unfolding json_escape
json_escape-escaped_text s = json_escape_onto-escaped_text s []

decode-escape_byte :
    (c : ℕ) (s t : Bytes)
    → decode plain s ≡ some t
    → decode plain (escape_byte c ++ s) ≡ some (c ∷ t)
unfolding decode step escape_byte
decode-escape_byte c s t h = ground arith

decode-escaped_text : (s : Bytes) → decode plain (escaped_text s) ≡ some s
unfolding escaped_text
decode-escaped_text [] = unfold decode in refl
decode-escaped_text (c ∷ s) = decode-escape_byte c (escaped_text s) s (decode-escaped_text s)

-- For every text, control characters, quotes and backslashes included, a JSON reader decodes what
-- `json_escape` wrote to that text.
pub decode-json_escape : (s : Bytes) → decode plain (json_escape s) ≡ some s
decode-json_escape s = rw (json_escape-escaped_text s) (decode-escaped_text s)
