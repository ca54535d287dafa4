-- ===== src/Tls/Offers.antt =====
-- What the TLS client offers, frees and accepts.
use bw_fetcher.Profiles.Registry.{load_browser_profile-IsWireable}
use bw_fetcher.Profiles.Wire.{
  AreWords, read_settings, read_alpn, read_settings-build_h2_settings_blob,
  read_alpn-build_alpn_wire,
}
use bw_fetcher.Profiles.{TlsConfig, load_browser_profile, build_h2_settings_blob}
use bw_fetcher.Base.{
  inl, inr, ◌++◌, Bool-cases, ℕ, zero, suc, ◌+◌, ◌-◌, ◌*◌, ◌≤◌, ◌≡◌, refl, sym, ap, ◌∙◌, Bool, true,
  false, Option, none, some, List, [], ◌∷◌, arith, ltb, if◌then◌else◌, Bytes, codes, length,
  bytes_key, nat_key, pair_key, catch, ok, replicate, length-append, some-injective, Result,
}
use bw_fetcher.Tls.{
  host_name, alpn_protos, application_settings_for, new_ssl_client, ssl_handshake, TlsConfig,
  ssl_calls, BoringSsl, brotli_decompress_cb, SslCall, keep_buffer, set_up_ctx, connect_ssl,
}

-- From a number of live objects on, one more is left where an object is handed out, and none where not.
abbrev pub Balanced : {E A : Type 0} → ℕ → Result E A × ℕ → Type 0
Balanced live w = w.1 ≡ live + catch w.0 (λ a. 1) 0

new_ssl_client-Balanced :
    (lib : BoringSsl) (cfg : TlsConfig) (live : ℕ) → Balanced live (new_ssl_client lib cfg live)
unfolding new_ssl_client set_up_ctx
new_ssl_client-Balanced lib cfg live = elim (Bool-cases lib.ctx_new) [
  | inr absent ↦ rw absent (omega arith)
  | inl made ↦ elim (Bool-cases (lib.set1_sigalgs_list cfg.sigalgs_list)) [
    | inr refused ↦ rw (made, refused) (omega arith)
    | inl kept ↦ elim (Bool-cases (lib.set_cipher_list cfg.cipher_list)) [
      | inr refused ↦ rw (made, kept, refused) (omega arith)
      | inl all_set ↦ rw (made, kept, all_set) (omega arith)
    ]
  ]
]

ssl_handshake-Balanced :
    (lib : BoringSsl) (host : Bytes) (cfg : TlsConfig) (live : ℕ)
    → Balanced live (ssl_handshake lib host cfg live)
unfolding ssl_handshake connect_ssl
ssl_handshake-Balanced lib host cfg live = elim (Bool-cases lib.ssl_new) [
  | inr absent ↦ rw absent (omega arith)
  | inl made ↦ elim (Bool-cases lib.ssl_connect) [
    | inr refused ↦ rw (made, refused) (omega arith)
    | inl done ↦ rw (made, done) (omega arith)
  ]
]

-- What a peer reads in the offer: the name of the host, the protocols, and the settings where there are some.
abbrev ReadsSettings : TlsConfig → List SslCall → Type 0
ReadsSettings cfg (application_settings_for proto blob ∷ []) =
    (cfg.application_settings ≡ true)
    × (proto ≡ codes "h2")
    × (read_settings blob ≡ some cfg.h2.alps_settings)
ReadsSettings cfg _ = cfg.application_settings ≡ false

abbrev pub OfferReads : Bytes → TlsConfig → List SslCall → Type 0
OfferReads host cfg (host_name name ∷ alpn_protos wire ∷ alps) =
    (name ≡ host)
    × (read_alpn (length cfg.alpn_protocols) wire ≡ some cfg.alpn_protocols)
    × ReadsSettings cfg alps
OfferReads host cfg _ = ⊥

settings-Reads :
    (cfg : TlsConfig) (b : Bool)
    → cfg.application_settings ≡ b
    → AreWords cfg.h2.alps_settings
    → ReadsSettings cfg (
        if b
        then application_settings_for (codes "h2") (build_h2_settings_blob cfg.h2.alps_settings)
          ∷ []
        else [])
settings-Reads cfg true e w = (e, refl, read_settings-build_h2_settings_blob cfg.h2.alps_settings w)
settings-Reads cfg false e w = e

-- With any profile that loads, the TLS client offers the host's name, the profile's protocols, and its settings
-- exactly where the profile has application settings, all in a form that a peer reads back.
pub ssl_calls-OfferReads :
    (name host : Bytes) (cfg : TlsConfig)
    → load_browser_profile name ≡ ok cfg
    → OfferReads host cfg (ssl_calls host cfg)
unfolding ssl_calls
ssl_calls-OfferReads name host cfg h =
    let fits = load_browser_profile-IsWireable name h in
    (
      refl,
      read_alpn-build_alpn_wire cfg.alpn_protocols fits.short,
      settings-Reads cfg cfg.application_settings refl fits.alps_words,
    )

-- However BoringSSL answers, the context and the TLS object that are made are freed again, once, exactly where they
-- are not handed out: as many objects are left as before, and one more for each that is handed out.
pub new_ssl_client-ssl_handshake :
    (lib : BoringSsl) (host : Bytes) (cfg : TlsConfig) (live : ℕ)
    → Balanced live (new_ssl_client lib cfg live) × Balanced live (ssl_handshake lib host cfg live)
new_ssl_client-ssl_handshake lib host cfg live =
    (new_ssl_client-Balanced lib cfg live, ssl_handshake-Balanced lib host cfg live)

length-replicate : (n a : ℕ) → length (replicate n a) ≡ n
length-replicate zero a = refl
length-replicate (suc n) a = let h = length-replicate n a in omega (arith, h)

keep_buffer-written :
    (uncompressed_len : ℕ) (w : Option Bytes) (out : Bytes)
    → keep_buffer true uncompressed_len w ≡ some out
    → (written : Bytes) × (w ≡ some written)
      × (out ≡ written ++ replicate (uncompressed_len - length written) 0)
unfolding keep_buffer
keep_buffer-written uncompressed_len none out h = cc
keep_buffer-written uncompressed_len (some written) out h = (written, refl, sym (some-injective h))

small_enough :
    (b : Bool) (m : Option Bytes) (out : Bytes)
    → (if b then none else m) ≡ some out
    → (b ≡ false) × (m ≡ some out)
small_enough true m out h = cc
small_enough false m out h = (refl, h)

-- A certificate that is accepted is what the decoder wrote, with zeros for what is missing up to the
-- announced length, and it has that length, which is at most 16 megabytes.
pub brotli_decompress_cb_lem :
    (decode : Bytes → ℕ → Option Bytes)
    → ((input : Bytes) (cap : ℕ) (written : Bytes)
        → decode input cap ≡ some written
        → length written ≤ cap)
    → (uncompressed_len : ℕ) (input out : Bytes)
    → brotli_decompress_cb decode true uncompressed_len input ≡ some out
    → (written : Bytes) × (decode input uncompressed_len ≡ some written)
      × (out ≡ written ++ replicate (uncompressed_len - length written) 0)
      × (length out ≡ uncompressed_len)
      × (uncompressed_len ≤ 16 * 1024 * 1024)
unfolding brotli_decompress_cb
brotli_decompress_cb_lem decode within uncompressed_len input out h =
    let (small, same) = small_enough (ltb (16 * 1024 * 1024) uncompressed_len) _ out h in
    let (written, e, whole) =
      keep_buffer-written uncompressed_len (decode input uncompressed_len) out same in
    let most = within input uncompressed_len written e in
    let all = length-append written (replicate (uncompressed_len - length written) 0) in
    let pad = length-replicate (uncompressed_len - length written) 0 in
    (
      written,
      e,
      whole,
      ap (λ t. length t) whole ∙ omega (arith, most, all, pad),
      ground (arith, small),
    )
