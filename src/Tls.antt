-- ===== src/Tls.antt =====
-- BORING_SSL/Boring_SSL_Client_.cpp and compresser/brotili_cert_compress.cpp: what the TLS client asks of BoringSSL,
-- in its order, and what it frees. The answers of BoringSSL are input. A call whose failure is only reported on
-- stderr has no answer here.
pub mod Offers
use bw_fetcher.Profiles.{TlsConfig, build_alpn_wire, build_h2_settings_blob}
use bw_fetcher.Base.{
  ℕ, zero, suc, ◌+◌, ◌-◌, ◌*◌, ◌≤◌, ◌<◌, ◌≡◌, ◌≢◌, ◌↔◌, ◌⊎◌, inl, inr, refl, sym, ap, ap₂, ◌∙◌,
  Bool, true, false, not, ◌&&◌, ◌||◌, Option, none, some, List, [], ◌∷◌, ◌++◌, map, arith, ltb, leb,
  ◌==◌, if◌then◌else◌, Bool-cases, Option-cases, Bytes, codes, length, bytes_key, nat_key, pair_key,
  ◌%◌, Result, err, replicate, ◌^◌, ok,
}

-- `strtol` of two hexadecimal digits is a parameter.
unfoldable pub hex_to_bytes : (Bytes → ℕ) → Bytes → Bytes
hex_to_bytes strtol [] = []
hex_to_bytes strtol (a ∷ []) = strtol (a ∷ []) % 2 ^ 8 ∷ []
hex_to_bytes strtol (a ∷ b ∷ hex) = strtol (a ∷ b ∷ []) % 2 ^ 8 ∷ hex_to_bytes strtol hex

-- The answers of BoringSSL: whether a call gives an object, or returns 1.
pub record BoringSsl : Type 0 where
  pub ctx_new : Bool
  pub set1_sigalgs_list : Bytes → Bool
  pub set_cipher_list : Bytes → Bool
  pub ssl_new : Bool
  pub ssl_connect : Bool
  pub alpn_selected : Option Bytes

-- What is set on the context: `tls1_2` is 0x0303.
pub data CtxCall : Type 0 where
  min_proto_version max_proto_version : ℕ → CtxCall
  sigalgs_list cipher_list curves_list : Bytes → CtxCall
  signed_cert_timestamps ocsp_stapling : CtxCall
  grease_enabled : Bool → CtxCall
  cert_compression_alg : ℕ → CtxCall

-- `SSL_CTX_free` and `SSL_free`: of the objects that were made, one less is left.
abbrev pub free_one : ℕ → ℕ
free_one live = live - 1

abbrev ctx_calls : TlsConfig → List CtxCall
ctx_calls cfg =
    min_proto_version 0x0303
    ∷ max_proto_version 0x0304
    ∷ CtxCall.sigalgs_list cfg.sigalgs_list
    ∷ CtxCall.cipher_list cfg.cipher_list
    ∷ signed_cert_timestamps
    ∷ ocsp_stapling
    ∷ grease_enabled cfg.grease_switch
    ∷ curves_list cfg.curve_list
    ∷ cert_compression_alg 2
    ∷ []

-- The constructor once the context is there; every exception behind that frees it first.
unfoldable pub set_up_ctx : BoringSsl → TlsConfig → ℕ → Result Bytes (List CtxCall) × ℕ
set_up_ctx lib cfg live =
    if not (lib.set1_sigalgs_list cfg.sigalgs_list)
    then (err (codes "Failed to set signature algorithms"), free_one live)
    else if not (lib.set_cipher_list cfg.cipher_list)
    then (err (codes "Failed to set cipher list"), free_one live)
    else (ok (ctx_calls cfg), live)

-- `Boring_SSL_Client::Boring_SSL_Client`, from a number of objects that were made and not freed.
unfoldable pub new_ssl_client : BoringSsl → TlsConfig → ℕ → Result Bytes (List CtxCall) × ℕ
unfolding set_up_ctx
new_ssl_client lib cfg live =
    if not lib.ctx_new
    then (err (codes "Failed to create SSL_CTX"), live)
    else set_up_ctx lib cfg (live + 1)

pub data SslCall : Type 0 where
  host_name : Bytes → SslCall
  alpn_protos : Bytes → SslCall
  application_settings_for : (proto settings : Bytes) → SslCall

unfoldable pub ssl_calls : Bytes → TlsConfig → List SslCall
ssl_calls host cfg =
    host_name host
    ∷ alpn_protos (build_alpn_wire cfg.alpn_protocols)
    ∷ (if cfg.application_settings
        then application_settings_for (codes "h2") (build_h2_settings_blob cfg.h2.alps_settings)
          ∷ []
        else [])

abbrev pub selected : Option Bytes → Bytes
selected none = []
selected (some protocol) = protocol

-- `SSL_Handshake` once the TLS object is there.
unfoldable pub connect_ssl :
    BoringSsl → Bytes → TlsConfig → ℕ → Result (Unit {0}) (List SslCall × Bytes) × ℕ
unfolding ssl_calls
connect_ssl lib host cfg live =
    if not lib.ssl_connect
    then (err tt, free_one live)
    else (ok (ssl_calls host cfg, selected lib.alpn_selected), live)

-- `SSL_Handshake`: the calls before `SSL_connect`, with the protocol; the error stands for a null pointer.
unfoldable pub ssl_handshake :
    BoringSsl → Bytes → TlsConfig → ℕ → Result (Unit {0}) (List SslCall × Bytes) × ℕ
unfolding connect_ssl
ssl_handshake lib host cfg live =
    if not lib.ssl_new then (err tt, live) else connect_ssl lib host cfg (live + 1)

-- The buffer keeps the size that was announced.
unfoldable pub keep_buffer : Bool → ℕ → Option Bytes → Option Bytes
keep_buffer buffer_new uncompressed_len none = none
keep_buffer buffer_new uncompressed_len (some written) =
    if buffer_new then some (written ++ replicate (uncompressed_len - length written) 0) else none

-- `brotli_decompress_cb`. The decoder writes at most the given number of bytes, or fails.
unfoldable pub brotli_decompress_cb : (Bytes → ℕ → Option Bytes) → Bool → ℕ → Bytes → Option Bytes
unfolding keep_buffer
brotli_decompress_cb decode buffer_new uncompressed_len input =
    if ltb (16 * 1024 * 1024) uncompressed_len
    then none
    else keep_buffer buffer_new uncompressed_len (decode input uncompressed_len)
