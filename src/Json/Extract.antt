-- ===== src/Json/Extract.antt =====
-- What `extract_string` finds where a value was written by `json_escape`.
use bw_fetcher.Base.{
  ℕ, ◌≡◌, ◌⊎◌, inl, inr, refl, sym, ap, ◌∙◌, true, false, not, some, [], ◌∷◌, ◌++◌, arith, ◌==◌,
  Bool-cases, Bytes, every, free, before, from, before-append-from, every-before, before-stop,
  from-stop, every-append, append_assoc, after_first, append-nil,
}
use bw_fetcher.Json.{escape_byte, json_escape, up_to_quote, is_quote, needle, extract_string}
use bw_fetcher.Json.RoundTrip.{escaped_text, json_escape-escaped_text}

free-escape_byte : (c : ℕ) → (c == b'"') ≡ false → free b'"' (escape_byte c) ≡ true
unfolding escape_byte every
free-escape_byte c h = ground arith

-- Escaping brings in no quote.
free-escaped_text : (s : Bytes) → free b'"' s ≡ true → free b'"' (escaped_text s) ≡ true
unfolding escaped_text every
free-escaped_text [] h = refl
free-escaped_text (c ∷ s) h = ground (
  arith,
  every-append (λ x. not (x == b'"')) (escape_byte c) (escaped_text s),
  free-escape_byte c,
  free-escaped_text s,
)

escaped_text-append : (s t : Bytes) → escaped_text (s ++ t) ≡ escaped_text s ++ escaped_text t
unfolding escaped_text
escaped_text-append [] t = refl
escaped_text-append (c ∷ s) t = rw (escaped_text-append s t, append_assoc)

up_to_quote-stop : (s t : Bytes) → free b'"' s ≡ true → up_to_quote (s ++ (b'"' ∷ t)) ≡ s
unfolding up_to_quote
up_to_quote-stop s t h =
    rw (from-stop is_quote s b'"' t h refl, up_to_quote, before-stop is_quote s b'"' t h refl)

-- A value with a quote leaves its backslash at the end.
abbrev pub cut_mark : Bytes → Bytes
cut_mark [] = []
cut_mark (c ∷ s) = b'\\' ∷ []

escaped_quote : (t : Bytes) → escaped_text (b'"' ∷ t) ≡ b'\\' ∷ b'"' ∷ escaped_text t
unfolding escaped_text escape_byte
escaped_quote t = refl

free-slash_end :
    (a : Bytes) → free b'"' a ≡ true → free b'"' (escaped_text a ++ (b'\\' ∷ [])) ≡ true
unfolding every
free-slash_end a h = ground (
  arith,
  every-append (λ x. not (x == b'"')) (escaped_text a) (b'\\' ∷ []),
  free-escaped_text a h,
)

up_to_quote-escaped :
    (a b post : Bytes)
    → free b'"' a ≡ true
    → ((b ≡ []) ⊎ ((t : Bytes) × (b ≡ b'"' ∷ t)))
    → up_to_quote (escaped_text (a ++ b) ++ (b'"' ∷ post)) ≡ escaped_text a ++ cut_mark b
up_to_quote-escaped a b post h (inl e) =
    rw (e, append-nil, append-nil) (up_to_quote-stop (escaped_text a) post (free-escaped_text a h))
up_to_quote-escaped a b post h (inr (t, e)) =
    let cut = escaped_text a ++ (b'\\' ∷ []) in
    ap (λ s. up_to_quote s)
      (rw (e, escaped_text-append a (b'"' ∷ t), escaped_quote t, append_assoc)
        (sym
          (append_assoc (escaped_text a) (b'\\' ∷ []) (b'"' ∷ (escaped_text t ++ (b'"' ∷ post))))))
    ∙ up_to_quote-stop cut (escaped_text t ++ (b'"' ∷ post)) (free-slash_end a h)
    ∙ ap (λ x. escaped_text a ++ cut_mark x) (sym e)

before-free : (s : Bytes) → free b'"' (before is_quote s) ≡ true
before-free s = every-before is_quote s

from-cases : (s : Bytes) → (from is_quote s ≡ []) ⊎ ((t : Bytes) × (from is_quote s ≡ b'"' ∷ t))
unfolding from
from-cases [] = inl refl
from-cases (c ∷ s) = elim (Bool-cases (c == b'"')) [
  | inl e ↦ inr (s, ground arith)
  | inr e ↦ rw e (from-cases s)
]

-- Where a meta file has `"key": "` for the first time in front of a value that `json_escape` wrote,
-- `extract_string` returns the escaped value up to the value's first quote, and a backslash more if
-- there is one: never the value itself when it has a quote.
pub extract_string-json_escape :
    (content key v post : Bytes)
    → after_first (needle key) content ≡ some (json_escape v ++ (b'"' ∷ post))
    → extract_string content key ≡ json_escape (before is_quote v) ++ cut_mark (from is_quote v)
unfolding extract_string
extract_string-json_escape content key v post h =
    rw (h, extract_string, json_escape-escaped_text v, json_escape-escaped_text (before is_quote v))
      (ap (λ u. up_to_quote (escaped_text u ++ (b'"' ∷ post))) (sym (before-append-from is_quote v))
        ∙ up_to_quote-escaped (before is_quote v) (from is_quote v) post (before-free v)
            (from-cases v))
