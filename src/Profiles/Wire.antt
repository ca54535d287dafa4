-- ===== src/Profiles/Wire.antt =====
-- The wire formats, against readers of them.
use bw_fetcher.Profiles.{H2Setting, build_alpn_wire, setting, build_h2_settings_blob, setting_bytes}
use bw_fetcher.Base.{
  ℕ, zero, suc, ◌+◌, ◌*◌, ◌<◌, ◌≡◌, refl, ap, ap₂, Option, none, some, List, [], ◌∷◌, ◌++◌, arith,
  ltb, if◌then◌else◌, Bytes, length, bytes_key, nat_key, pair_key, drop, ◌^◌, drop-append, take,
  take-append, ◌%◌, length-append,
}

-- A reader of the ALPN list of RFC 7301: a length, then as many bytes. The fuel bounds the entries.
unfoldable pub read_alpn : ℕ → Bytes → Option (List Bytes)
read_alpn fuel [] = some []
read_alpn zero (n ∷ rest) = none
read_alpn (suc fuel) (n ∷ rest) =
    let later = read_alpn fuel (drop n rest) in
    if ltb (length rest) n
    then none
    else elim later [ none ↦ none | some ps ↦ some (take n rest ∷ ps) ]

-- A reader of the SETTINGS payload of RFC 9113: six bytes for an entry.
unfoldable pub read_settings : Bytes → Option (List H2Setting)
read_settings [] = some []
read_settings (a ∷ b ∷ c ∷ d ∷ e ∷ f ∷ rest) = elim (read_settings rest) [
  | none ↦ none
  | some ss ↦ some (setting (a * 2 ^ 8 + b) (c * 2 ^ 24 + d * 2 ^ 16 + e * 2 ^ 8 + f) ∷ ss)
]
read_settings (_ ∷ _) = none

-- Protocol names of at most 255 bytes.
abbrev pub AreShort : List Bytes → Type 0
AreShort [] = Unit
AreShort (p ∷ ps) = (length p < 2 ^ 8) × AreShort ps

-- What fits the fields' types, `uint16_t` and `uint32_t`.
abbrev pub AreWords : List H2Setting → Type 0
AreWords [] = Unit
AreWords (s ∷ ss) = (s.id < 2 ^ 16) × (s.value < 2 ^ 32) × AreWords ss

read_alpn-cons :
    (fuel n : ℕ) (p w : Bytes) {ps : List Bytes}
    → n ≡ length p
    → read_alpn fuel w ≡ some ps
    → read_alpn (suc fuel) (n ∷ (p ++ w)) ≡ some (p ∷ ps)
unfolding read_alpn
read_alpn-cons fuel n p w e h =
    rw (e, drop-append p w, h, e, take-append p w) (ground (arith, length-append p w))

-- Of protocol names of at most 255 bytes, in any number, the wire form is read back to the same names
-- in the same order.
pub read_alpn-build_alpn_wire :
    (ps : List Bytes) → AreShort ps → read_alpn (length ps) (build_alpn_wire ps) ≡ some ps
unfolding build_alpn_wire
read_alpn-build_alpn_wire [] s = unfold read_alpn in refl
read_alpn-build_alpn_wire (p ∷ ps) s =
    read_alpn-cons (length ps) (length p % 2 ^ 8) p (build_alpn_wire ps) (omega (arith, s.0))
      (read_alpn-build_alpn_wire ps s.1)

setting-eq : {a b c d : ℕ} → a ≡ c → b ≡ d → setting a b ≡ setting c d
setting-eq e f = ap₂ setting e f

-- SETTINGS entries are read back from the blob, if they fit their 16 and 32 bits.
pub read_settings-build_h2_settings_blob :
    (ss : List H2Setting) → AreWords ss → read_settings (build_h2_settings_blob ss) ≡ some ss
unfolding build_h2_settings_blob setting_bytes read_settings
read_settings-build_h2_settings_blob [] w = refl
read_settings-build_h2_settings_blob (s ∷ ss) w =
    rw (read_settings-build_h2_settings_blob ss w.2)
      (ap (λ x. some (x ∷ ss)) (setting-eq (omega (arith, w.0)) (omega (arith, w.1))))
