-- ===== src/Tests/Networks.antt =====
-- Runs of the races and of the decoders.
use bw_fetcher.Profiles.{
  load_browser_profile, registry, firefox_131_profile, known_or_throw, chrome_143_profile,
}
use bw_fetcher.Tls.Offers.{
  Balanced, brotli_decompress_cb_lem, new_ssl_client-ssl_handshake, OfferReads, OfferReads,
  ssl_calls-OfferReads,
}
use bw_fetcher.Tls.{BoringSsl, brotli_decompress_cb, new_ssl_client, ssl_handshake, ssl_calls}
use bw_fetcher.Dns.Race.{tally, tally_one}
use bw_fetcher.Dns.Accounts.{sockets_of, handed, happy_eyeballs_connect-accounts}
use bw_fetcher.Decompress.Loops.{
  Writes, kept, whole, decompress_gzip_deflate_lem, decompress_brotli_lem,
}
use bw_fetcher.Base.{
  ◌-◌, ◌++◌, ℕ, zero, suc, ◌+◌, ◌*◌, ◌≤◌, ◌<◌, ◌≡◌, refl, true, false, Option, none, some, List, [],
  ◌∷◌, arith, Bytes, codes, length, bytes_key, nat_key, pair_key, Result, subst, some-injective,
  lookup, beq, to_lower, replicate,
}
use bw_fetcher.Dns.{
  connected_now, refused_now, in_progress, Attempt, ResolvedHost, happy_eyeballs_connect,
}
use bw_fetcher.Decompress.{
  z_ok, z_stream_end, more_output, more_input, Inflated, Decoder, BrotliResult,
  decompress_gzip_deflate, decompress_brotli,
}

-- Address 0 refuses, 1 connects after two polls, all others after three.
abbrev some_attempt : ℕ → Attempt
some_attempt zero = record { sockfd = some 10; reply = refused_now; ready_at = 0 }
some_attempt (suc zero) = record { sockfd = some 11; reply = in_progress true 0; ready_at = 2 }
some_attempt (suc (suc a)) = record { sockfd = some 12; reply = connected_now; ready_at = 3 }

abbrev some_host : ResolvedHost ℕ
some_host = record { ip4 = 2 ∷ 2 ∷ []; ip6 = 0 ∷ 1 ∷ [] }

some_attempt-ready : (a : ℕ) → (some_attempt a).ready_at ≤ 3
some_attempt-ready zero = omega arith
some_attempt-ready (suc zero) = omega arith
some_attempt-ready (suc (suc a)) = omega arith

abbrev race_result : Option (Result Bytes ℕ × List ℕ)
race_result = happy_eyeballs_connect some_attempt some_host 4

happy_eyeballs_connect-accounts_example :
    (answer : Result Bytes ℕ) × (closed : List ℕ) × (happy_eyeballs_connect some_attempt some_host 4
      ≡ some (answer, closed))
    × ((x : ℕ)
        → tally x (sockets_of some_attempt (0 ∷ 1 ∷ 2 ∷ 2 ∷ []))
          ≡ tally_one x (handed answer) + tally x closed)
    × (handed answer ≡ none → closed ≡ [])
happy_eyeballs_connect-accounts_example =
    happy_eyeballs_connect-accounts some_attempt some_host 3 some_attempt-ready

-- Decoders over the parts of a text.
abbrev inflate_parts : List Bytes → Bytes × Inflated × List Bytes
inflate_parts [] = ([], z_stream_end, [])
inflate_parts (c ∷ []) = (c, z_stream_end, [])
inflate_parts (c ∷ p ∷ parts) = (c, z_ok, p ∷ parts)

abbrev gzip_decoder : Decoder (List Bytes) Inflated
gzip_decoder = record { start = λ input. some (input ∷ codes "b" ∷ []); step = inflate_parts }

inflate_parts-progress :
    (zs : List Bytes) → (inflate_parts zs).1 ≡ z_ok → length (inflate_parts zs).2 < length zs
inflate_parts-progress [] h = cc
inflate_parts-progress (c ∷ []) h = cc
inflate_parts-progress (c ∷ p ∷ parts) h = omega arith

decompress_gzip_deflate_lem_example :
    (before : Bytes) × (chunk : Bytes) × (answer : Inflated) × Writes gzip_decoder z_ok
      (codes "a" ∷ codes "b" ∷ [])
      before
      chunk
      answer
    × (decompress_gzip_deflate gzip_decoder 3 (codes "a") ≡ some (kept before chunk answer))
decompress_gzip_deflate_lem_example =
    decompress_gzip_deflate_lem gzip_decoder (λ zs. length zs) inflate_parts-progress 3 (codes "a")
      (codes "a" ∷ codes "b" ∷ []) refl (omega arith)

-- The input ends before the text does.
abbrev unpack_parts : List Bytes → Bytes × BrotliResult × List Bytes
unpack_parts [] = ([], more_input, [])
unpack_parts (c ∷ parts) = (c, more_output, parts)

abbrev brotli_decoder : Decoder (List Bytes) BrotliResult
brotli_decoder = record { start = λ input. some (input ∷ []); step = unpack_parts }

unpack_parts-progress :
    (zs : List Bytes) → (unpack_parts zs).1 ≡ more_output → length (unpack_parts zs).2 < length zs
unpack_parts-progress [] h = cc
unpack_parts-progress (c ∷ parts) h = omega arith

decompress_brotli_lem_example :
    (before : Bytes) × (chunk : Bytes) × (answer : BrotliResult) × Writes brotli_decoder more_output
      (codes "a" ∷ [])
      before
      chunk
      answer
    × (decompress_brotli brotli_decoder 2 (codes "a") ≡ some (whole before chunk answer))
decompress_brotli_lem_example =
    decompress_brotli_lem brotli_decoder (λ zs. length zs) unpack_parts-progress 2 (codes "a")
      (codes "a" ∷ []) refl (omega arith)

-- BoringSSL that accepts everything but the connection.
abbrev some_lib : BoringSsl
some_lib = record {
  ctx_new = true;
  set1_sigalgs_list = λ l. true;
  set_cipher_list = λ l. true;
  ssl_new = true;
  ssl_connect = false;
  alpn_selected = none;
}

new_ssl_client-ssl_handshake_example :
    Balanced 0 (new_ssl_client some_lib firefox_131_profile 0)
    × Balanced 0 (ssl_handshake some_lib (codes "h") firefox_131_profile 0)
new_ssl_client-ssl_handshake_example =
    new_ssl_client-ssl_handshake some_lib (codes "h") firefox_131_profile 0

ssl_calls-OfferReads_example :
    OfferReads (codes "h") chrome_143_profile (ssl_calls (codes "h") chrome_143_profile)
unfolding load_browser_profile registry known_or_throw lookup beq to_lower
ssl_calls-OfferReads_example =
    ssl_calls-OfferReads (codes "Chrome143") (codes "h") chrome_143_profile refl

-- A decoder that writes nothing.
abbrev empty_decoder : Bytes → ℕ → Option Bytes
empty_decoder input cap = some []

empty_decoder-within :
    (input : Bytes) (cap : ℕ) (written : Bytes)
    → empty_decoder input cap ≡ some written
    → length written ≤ cap
empty_decoder-within input cap written h =
    subst (λ w. length w ≤ cap) (some-injective h) (omega arith)

brotli_decompress_cb_lem_example :
    (written : Bytes) × (empty_decoder (codes "x") 3 ≡ some written)
    × ((0 ∷ 0 ∷ 0 ∷ []) ≡ written ++ replicate (3 - length written) 0)
    × (length {A = ℕ} (0 ∷ 0 ∷ 0 ∷ []) ≡ 3)
    × (3 ≤ 16 * 1024 * 1024)
unfolding brotli_decompress_cb
brotli_decompress_cb_lem_example =
    brotli_decompress_cb_lem empty_decoder empty_decoder-within 3 (codes "x") (0 ∷ 0 ∷ 0 ∷ []) refl
