-- ===== src/Decompress/Loops.antt =====
-- decompress.cpp: the loops end, with what the decoder wrote.

use bw_fetcher.Decompress.{
  Decoder, Inflated, BrotliResult, z_ok, inflate_loop, after_inflate, decompress_gzip_deflate,
  brotli_loop, decompress_brotli, after_brotli, from_start,
}
use bw_fetcher.Base.{
  ℕ, zero, suc, ◌<◌, ◌≡◌, ◌≢◌, refl, sym, ap, ap₂, ◌∙◌, Option, some, [], ◌++◌, arith, Bytes,
  bytes_key, nat_key, pair_key, append-nil, append_assoc,
}
use bw_fetcher.Decompress.{
  z_ok, z_failed, z_stream_end, z_buf_error, more_output, more_input, brotli_success, brotli_error,
}

-- The calls of a decoder from a state on: what they write before the last one, what the last one writes, and its
-- answer, the first one that is not to go on.
pub data Writes {Z R : Type 0} (d : Decoder Z R) (go_on : R) : Z → Bytes → Bytes → R → Type 0 where
  last : (zs : Z) → (d.step zs).1 ≢ go_on → Writes d go_on zs [] (d.step zs).0 (d.step zs).1
  next :
      (zs : Z) (before chunk : Bytes) (answer : R)
      → (d.step zs).1 ≡ go_on
      → Writes d go_on (d.step zs).2 before chunk answer
      → Writes d go_on zs ((d.step zs).0 ++ before) chunk answer

-- What is kept of a gzip or deflate body: all that was written, but for the call that fails.
abbrev pub kept : Bytes → Bytes → Inflated → Bytes
kept before chunk z_failed = before
kept before chunk z_ok = before ++ chunk
kept before chunk z_stream_end = before ++ chunk
kept before chunk z_buf_error = before ++ chunk

-- What is kept of a brotli body: all of it or nothing.
abbrev pub whole : Bytes → Bytes → BrotliResult → Bytes
whole before chunk brotli_success = before ++ chunk
whole before chunk more_output = []
whole before chunk more_input = []
whole before chunk brotli_error = []

module _ {Z : Type 0} (d : Decoder Z Inflated) (todo : Z → ℕ)
    (progress : (zs : Z) → (d.step zs).1 ≡ z_ok → todo (d.step zs).2 < todo zs) where
  abbrev pub Inflates : Z → Bytes → Option Bytes → Type 0
  Inflates zs out r =
      (before : Bytes) × (chunk : Bytes) × (answer : Inflated) × Writes d z_ok zs before chunk
        answer
      × (r ≡ some (kept (out ++ before) chunk answer))

  inflate_loop-last :
      (zs : Z) (out : Bytes) (a : Inflated) (r : Option Bytes)
      → (d.step zs).1 ≡ a
      → a ≢ z_ok
      → r ≡ some (kept out (d.step zs).0 a)
      → Inflates zs out r
  inflate_loop-last zs out a r e ended h = (
    [],
    (d.step zs).0,
    (d.step zs).1,
    last zs (λ f. ended (sym e ∙ f)),
    h ∙ ap₂ (λ t x. some (kept t (d.step zs).0 x)) (sym (append-nil out)) (sym e),
  )

  inflate_loop-Inflates :
      (calls : ℕ) (zs : Z) (out : Bytes)
      → todo zs < calls
      → Inflates zs out (inflate_loop d calls zs out)
  unfolding inflate_loop
  inflate_loop-Inflates zero zs out h = ground (arith, h)
  inflate_loop-Inflates (suc calls) zs out h =
      let c = (d.step zs).0 in
      elim (d.step zs).1
          as (λ a.
            (d.step zs).1 ≡ a
            → Inflates zs out (after_inflate out (inflate_loop d calls (d.step zs).2) c a)) [
              | z_ok ↦ λ e.
                  let less = progress zs e in
                  let (before, chunk, answer, w, same) =
                    inflate_loop-Inflates calls (d.step zs).2 (out ++ c) (omega (arith, h, less)) in
                  (
                    c ++ before,
                    chunk,
                    answer,
                    next zs before chunk answer e w,
                    same ∙ ap (λ t. some (kept t chunk answer)) (append_assoc out c before),
                  )
              | z_failed ↦ λ e. inflate_loop-last zs out z_failed _ e (λ f. cc) refl
              | z_stream_end ↦ λ e. inflate_loop-last zs out z_stream_end _ e (λ f. cc) refl
              | z_buf_error ↦ λ e. inflate_loop-last zs out z_buf_error _ e (λ f. cc) refl
            ]
        refl

  -- A decoder that comes nearer to its end with each Z_OK ends the loop, in no more calls than it has left to do and
  -- one. The result is all that it wrote, also where the input is cut off; only what a failing call wrote is
  -- left out.
  pub decompress_gzip_deflate_lem :
      (calls : ℕ) (input : Bytes) (zs : Z)
      → d.start input ≡ some zs
      → todo zs < calls
      → (before : Bytes) × (chunk : Bytes) × (answer : Inflated) × Writes d z_ok zs before chunk
          answer
        × (decompress_gzip_deflate d calls input ≡ some (kept before chunk answer))
  unfolding decompress_gzip_deflate
  decompress_gzip_deflate_lem calls input zs e h =
      let (before, chunk, answer, w, same) = inflate_loop-Inflates calls zs [] h in
      (before, chunk, answer, w, ap (λ m. from_start m (λ s. inflate_loop d calls s [])) e ∙ same)

module _ {Z : Type 0} (d : Decoder Z BrotliResult) (todo : Z → ℕ)
    (progress : (zs : Z) → (d.step zs).1 ≡ more_output → todo (d.step zs).2 < todo zs) where
  abbrev pub Unpacks : Z → Bytes → Option Bytes → Type 0
  Unpacks zs out r =
      (before : Bytes) × (chunk : Bytes) × (answer : BrotliResult) × Writes d more_output zs before
        chunk answer
      × (r ≡ some (whole (out ++ before) chunk answer))

  brotli_loop-last :
      (zs : Z) (out : Bytes) (a : BrotliResult) (r : Option Bytes)
      → (d.step zs).1 ≡ a
      → a ≢ more_output
      → r ≡ some (whole out (d.step zs).0 a)
      → Unpacks zs out r
  brotli_loop-last zs out a r e ended h = (
    [],
    (d.step zs).0,
    (d.step zs).1,
    last zs (λ f. ended (sym e ∙ f)),
    h ∙ ap₂ (λ t x. some (whole t (d.step zs).0 x)) (sym (append-nil out)) (sym e),
  )

  brotli_loop-Unpacks :
      (calls : ℕ) (zs : Z) (out : Bytes)
      → todo zs < calls
      → Unpacks zs out (brotli_loop d calls zs out)
  unfolding brotli_loop
  brotli_loop-Unpacks zero zs out h = ground (arith, h)
  brotli_loop-Unpacks (suc calls) zs out h =
      let c = (d.step zs).0 in
      elim (d.step zs).1
          as (λ a.
            (d.step zs).1 ≡ a
            → Unpacks zs out (after_brotli (out ++ c) (brotli_loop d calls (d.step zs).2) a)) [
              | more_output ↦ λ e.
                  let less = progress zs e in
                  let (before, chunk, answer, w, same) =
                    brotli_loop-Unpacks calls (d.step zs).2 (out ++ c) (omega (arith, h, less)) in
                  (
                    c ++ before,
                    chunk,
                    answer,
                    next zs before chunk answer e w,
                    same ∙ ap (λ t. some (whole t chunk answer)) (append_assoc out c before),
                  )
              | more_input ↦ λ e. brotli_loop-last zs out more_input _ e (λ f. cc) refl
              | brotli_success ↦ λ e. brotli_loop-last zs out brotli_success _ e (λ f. cc) refl
              | brotli_error ↦ λ e. brotli_loop-last zs out brotli_error _ e (λ f. cc) refl
            ]
        refl

  -- A decoder that comes nearer to its end with each call that needs more output ends the loop. The result is all
  -- that it wrote where it ends in success, and empty where the input is cut off or wrong.
  pub decompress_brotli_lem :
      (calls : ℕ) (input : Bytes) (zs : Z)
      → d.start input ≡ some zs
      → todo zs < calls
      → (before : Bytes) × (chunk : Bytes) × (answer : BrotliResult) × Writes d more_output zs
          before chunk answer
        × (decompress_brotli d calls input ≡ some (whole before chunk answer))
  unfolding decompress_brotli
  decompress_brotli_lem calls input zs e h =
      let (before, chunk, answer, w, same) = brotli_loop-Unpacks calls zs [] h in
      (before, chunk, answer, w, ap (λ m. from_start m (λ s. brotli_loop d calls s [])) e ∙ same)
