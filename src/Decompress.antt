-- ===== src/Decompress.antt =====
-- decompress.cpp: the loops around the decoders of zlib and brotli. A decoder is a parameter: how it starts, and
-- what one call with an empty buffer writes and answers. A call is a step of at most a buffer.
pub mod Loops
use bw_fetcher.Base.{
  ℕ, zero, suc, ◌+◌, ◌-◌, ◌*◌, ◌≤◌, ◌<◌, ◌≡◌, ◌≢◌, ◌↔◌, ◌⊎◌, inl, inr, refl, sym, ap, ap₂, ◌∙◌,
  Bool, true, false, not, ◌&&◌, ◌||◌, Option, none, some, List, [], ◌∷◌, ◌++◌, map, arith, ltb, leb,
  ◌==◌, if◌then◌else◌, Bool-cases, Option-cases, Bytes, codes, length, bytes_key, nat_key, pair_key,
}

-- `Z_OK`, `Z_STREAM_END`, `Z_BUF_ERROR`, or an error.
pub data Inflated : Type 0 where
  z_ok z_stream_end z_buf_error z_failed : Inflated

-- `BrotliDecoderResult`
pub data BrotliResult : Type 0 where
  more_output more_input brotli_success brotli_error : BrotliResult

-- A decoder `Z` over its input, with answers `R`.
pub record Decoder (Z R : Type 0) : Type 0 where
  pub start : Bytes → Option Z
  pub step : Z → Bytes × R × Z

-- What the answer of `inflate` makes of the loop.
abbrev pub after_inflate : Bytes → (Bytes → Option Bytes) → Bytes → Inflated → Option Bytes
after_inflate out more chunk z_failed = some out
after_inflate out more chunk z_buf_error = some (out ++ chunk)
after_inflate out more chunk z_stream_end = some (out ++ chunk)
after_inflate out more chunk z_ok = more (out ++ chunk)

abbrev pub after_brotli : Bytes → (Bytes → Option Bytes) → BrotliResult → Option Bytes
after_brotli out more more_output = more out
after_brotli out more brotli_success = some out
after_brotli out more more_input = some []
after_brotli out more brotli_error = some []

-- Without a decoder the result is empty.
abbrev pub from_start : {Z : Type 0} → Option Z → (Z → Option Bytes) → Option Bytes
from_start none run = some []
from_start (some zs) run = run zs

-- `none`: the calls given are used up.
module _ {Z : Type 0} where
  unfoldable pub inflate_loop : Decoder Z Inflated → ℕ → Z → Bytes → Option Bytes
  inflate_loop d zero zs out = none
  inflate_loop d (suc calls) zs out =
      let answer = d.step zs in after_inflate out (inflate_loop d calls answer.2) answer.0 answer.1

  unfoldable pub decompress_gzip_deflate : Decoder Z Inflated → ℕ → Bytes → Option Bytes
  unfolding inflate_loop
  decompress_gzip_deflate d calls input =
      from_start (d.start input) (λ zs. inflate_loop d calls zs [])

  unfoldable pub brotli_loop : Decoder Z BrotliResult → ℕ → Z → Bytes → Option Bytes
  brotli_loop d zero state out = none
  brotli_loop d (suc calls) state out =
      let answer = d.step state in
      after_brotli (out ++ answer.0) (brotli_loop d calls answer.2) answer.1

  unfoldable pub decompress_brotli : Decoder Z BrotliResult → ℕ → Bytes → Option Bytes
  unfolding brotli_loop
  decompress_brotli d calls input =
      from_start (d.start input) (λ state. brotli_loop d calls state [])
