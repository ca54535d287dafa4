-- ===== src/Profiles/Registry.antt =====
-- The registry of profiles.
use bw_fetcher.Types.{Headers}
use bw_fetcher.Profiles.Wire.{AreShort, AreWords}
use bw_fetcher.Profiles.{
  TlsConfig, load_browser_profile, known_or_throw, registry, H2Setting, Headers, list_profiles,
}
use bw_fetcher.Headers.{lower}
use bw_fetcher.Base.{
  ◌≤◌, ◌<◌, ◌≡◌, inl, inr, refl, sym, ap, ◌∙◌, Bool, true, ◌&&◌, Option, none, some, List, [], ◌∷◌,
  arith, ltb, leb, Bool-cases, Bytes, length, bytes_key, nat_key, pair_key, catch, to_lower, ◌^◌,
  blt, IsSorted, lookup, Dict, beq, subst, some-injective, insert, ok, Above, ok-injective,
}

known_or_throw-catch :
    (name : Bytes) (found : Option TlsConfig)
    → catch (known_or_throw name found) (λ cfg. some cfg) none ≡ found
unfolding known_or_throw
known_or_throw-catch name none = refl
known_or_throw-catch name (some cfg) = refl

-- A profile is found whatever the case of its name: spellings that agree in lower case give the same
-- profile, or fail both.
pub load_browser_profile-case :
    (name other : Bytes)
    → lower name ≡ lower other
    → catch (load_browser_profile name) (λ cfg. some cfg) none
      ≡ catch (load_browser_profile other) (λ cfg. some cfg) none
unfolding load_browser_profile
load_browser_profile-case name other e =
    known_or_throw-catch name _ ∙ ap (λ k. lookup k registry) e ∙ sym (known_or_throw-catch other _)

-- What the wire formats need of a profile.
pub record IsWireable (cfg : TlsConfig) : Type 0 where
  pub short : AreShort cfg.alpn_protocols
  pub frame_words : AreWords cfg.h2.frame_settings
  pub alps_words : AreWords cfg.h2.alps_settings
  pub increment : cfg.h2.connection_window_increment < 2 ^ 31
  pub weight : (1 ≤ cfg.h2.priority_weight) × (cfg.h2.priority_weight ≤ 256)
  pub headers_sorted : IsSorted cfg.headers

abbrev AllWireable : Dict Bytes TlsConfig → Type 0
AllWireable [] = Unit
AllWireable ((k, cfg) ∷ m) = IsWireable cfg × AllWireable m

lookup-IsWireable :
    (k : Bytes) (m : Dict Bytes TlsConfig) {cfg : TlsConfig}
    → AllWireable m
    → lookup k m ≡ some cfg
    → IsWireable cfg
unfolding lookup
lookup-IsWireable k [] a h = cc
lookup-IsWireable k ((j, c) ∷ m) a h = elim (Bool-cases (beq j k)) [
  | inl same ↦ subst IsWireable (some-injective (rw same at h)) a.0
  | inr other ↦ lookup-IsWireable k m a.1 (rw other at h)
]

-- Tests for these, and that they are sound.
unfoldable all_short : List Bytes → Bool
all_short [] = true
all_short (p ∷ ps) = ltb (length p) (2 ^ 8) && all_short ps

all_short-AreShort : (ps : List Bytes) → all_short ps ≡ true → AreShort ps
unfolding all_short
all_short-AreShort [] h = tt
all_short-AreShort (p ∷ ps) h = (ground arith, all_short-AreShort ps (ground arith))

unfoldable all_words : List H2Setting → Bool
all_words [] = true
all_words (s ∷ ss) = ltb s.id (2 ^ 16) && ltb s.value (2 ^ 32) && all_words ss

all_words-AreWords : (ss : List H2Setting) → all_words ss ≡ true → AreWords ss
unfolding all_words
all_words-AreWords [] h = tt
all_words-AreWords (s ∷ ss) h = (ground arith, ground arith, all_words-AreWords ss (ground arith))

unfoldable all_above : Bytes → Headers → Bool
all_above k [] = true
all_above k ((j, v) ∷ m) = blt k j && all_above k m

all_above-Above : (k : Bytes) (m : Headers) → all_above k m ≡ true → Above k m
unfolding all_above
all_above-Above k [] h = tt
all_above-Above k ((j, v) ∷ m) h = (ground arith, all_above-Above k m (ground arith))

unfoldable all_sorted : Headers → Bool
all_sorted [] = true
all_sorted ((k, v) ∷ m) = all_above k m && all_sorted m

all_sorted-IsSorted : (m : Headers) → all_sorted m ≡ true → IsSorted m
unfolding all_sorted
all_sorted-IsSorted [] h = tt
all_sorted-IsSorted ((k, v) ∷ m) h =
    (all_above-Above k m (ground arith), all_sorted-IsSorted m (ground arith))

unfoldable is_wireable : TlsConfig → Bool
unfolding all_short all_words all_sorted all_above blt
is_wireable cfg =
    all_short cfg.alpn_protocols
    && all_words cfg.h2.frame_settings
    && all_words cfg.h2.alps_settings
    && ltb cfg.h2.connection_window_increment (2 ^ 31)
    && leb 1 cfg.h2.priority_weight
    && leb cfg.h2.priority_weight 256
    && all_sorted cfg.headers

is_wireable-IsWireable : (cfg : TlsConfig) → is_wireable cfg ≡ true → IsWireable cfg
unfolding is_wireable
is_wireable-IsWireable cfg h = record {
  short = all_short-AreShort cfg.alpn_protocols (ground arith);
  frame_words = all_words-AreWords cfg.h2.frame_settings (ground arith);
  alps_words = all_words-AreWords cfg.h2.alps_settings (ground arith);
  increment = ground arith;
  weight = (ground arith, ground arith);
  headers_sorted = all_sorted-IsSorted cfg.headers (ground arith);
}

registry-AllWireable : AllWireable registry
unfolding registry is_wireable insert beq
registry-AllWireable = (
  is_wireable-IsWireable _ refl,
  (
    is_wireable-IsWireable _ refl,
    (
      is_wireable-IsWireable _ refl,
      (is_wireable-IsWireable _ refl, (is_wireable-IsWireable _ refl, tt)),
    ),
  ),
)

known_or_throw-ok :
    (name : Bytes) (found : Option TlsConfig) {cfg : TlsConfig}
    → known_or_throw name found ≡ ok cfg
    → found ≡ some cfg
unfolding known_or_throw
known_or_throw-ok name none h = cc
known_or_throw-ok name (some c) h = ap some (ok-injective h)

-- Whatever profile loads fits the wire: protocol names of a byte's length, settings of 16 and 32
-- bits, a window increment and a weight that HTTP/2 allows, and headers in the order of a map.
pub load_browser_profile-IsWireable :
    (name : Bytes) {cfg : TlsConfig} → load_browser_profile name ≡ ok cfg → IsWireable cfg
unfolding load_browser_profile
load_browser_profile-IsWireable name h =
    lookup-IsWireable (lower name) registry registry-AllWireable (known_or_throw-ok name _ h)

-- Every name of the list stands for a profile of that name.
abbrev AllLoad : List Bytes → Type 0
AllLoad [] = Unit
AllLoad (name ∷ names) =
    (catch (load_browser_profile name) (λ cfg. some cfg.name) none ≡ some name) × AllLoad names

list_profiles-AllLoad : AllLoad list_profiles
unfolding list_profiles load_browser_profile registry known_or_throw lookup beq to_lower
list_profiles-AllLoad = (refl, (refl, (refl, tt)))
