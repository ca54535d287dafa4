-- ===== src/Fetch/Answers.antt =====
-- fetcher.cpp: the result of `fetch_one` is a response or an error, and never both.
use bw_fetcher.Url.{ParsedUrl}
use bw_fetcher.Profiles.{TlsConfig}
use bw_fetcher.Fetch.Exchange.{IsKept, Ends, event_loop-kept}
use bw_fetcher.Headers.{Response}
use bw_fetcher.Fetch.{
  Outside, Frame, header_came, body_came, frame_came, Net, FetchOptions, TlsConfig, Turn, ParsedUrl,
}
use bw_fetcher.Http2.{
  Client, before_callback, call_back, stopped, on_end_stream, perform_decompression, Frame, stop_if,
  on_header, stream_frame, on_body_rec, on_frame_recv,
}
use bw_fetcher.Fetch.One.{
  Capture, take_response, one_listener, Hop, conclude_result, on_response, deliver_one, returned,
  finished, redirected, after_loop, after_submit, ask, timeout_error, ask_over, with_client,
  fail_with,
}
use bw_fetcher.Types.{FetchResult, FetchOptions, Headers}
use bw_fetcher.Base.{
  ℕ, zero, suc, ◌≡◌, inl, inr, refl, Bool, true, false, not, ◌&&◌, Option, none, some, List, ◌++◌,
  arith, if◌then◌else◌, Bool-cases, Bytes, codes, bytes_key, nat_key, pair_key, is_empty, ℤ, negsuc,
  pos, beq,
}
use bw_fetcher.Http2.{goaway_frame, other_frame, stream_frame}

-- `ok` says whether there is no error.
abbrev pub IsDecided : FetchResult → Type 0
IsDecided r = r.ok ≡ is_empty r.error

abbrev pub IsFresh : FetchResult → Type 0
IsFresh r = (r.ok ≡ false) × (is_empty r.error ≡ true)

-- No error, and no response while the loop goes on.
abbrev IsWaiting : {Session : Type 0} → Capture Session → Type 0
IsWaiting c = (is_empty c.result.error ≡ true) × (c.client.running ≡ true → c.result.ok ≡ false)

module _ {Session : Type 0} (gunzip unbrotli : Bytes → Bytes) where
  ended_running-if :
      (b : Bool) (x y : Client Session × Option Response) (r : Bool)
      → x.0.running ≡ false
      → y.0.running ≡ r
      → (if b then x else y).0.running ≡ true
      → r ≡ true
  ended_running-if true x y r e f h = cc
  ended_running-if false x y r e f h = cc

  -- A frame does not start the loop again.
  pub before_callback-running :
      (c : Client Session) (f : Frame)
      → (before_callback gunzip unbrotli c f).0.running ≡ true
      → c.running ≡ true
  unfolding before_callback on_end_stream perform_decompression
  before_callback-running c goaway_frame h = cc
  before_callback-running c other_frame h = h
  before_callback-running c (stream_frame zero e) h = h
  before_callback-running c (stream_frame (suc n) false) h = h
  before_callback-running c (stream_frame (suc n) true) h =
      ended_running-if _ _ _ c.running refl refl h

module _ {Session : Type 0} (o : Outside Session) where
  take_response-IsWaiting :
      (r : FetchResult) (duration : ℕ) (c : Client Session)
      (w : Client Session × Option (ℕ × Response))
      → is_empty r.error ≡ true
      → (w.0.running ≡ true → r.ok ≡ false)
      → IsWaiting (
          call_back
            (λ c. c.client)
            (λ client c. record c { client = client })
            (take_response duration)
            (record { client = c; result = r })
            w)
  unfolding call_back stopped take_response on_response stop_if
  take_response-IsWaiting r duration c (client, none) e h = (e, h)
  take_response-IsWaiting r duration c (client, some (sid, resp)) e h = (e, λ on. cc)

  one_listener-kept : IsKept (one_listener o) IsWaiting
  unfolding one_listener deliver_one on_header on_body_rec on_frame_recv
  one_listener-kept = record {
    over_deliver = λ c d w. elim d as (λ d. IsWaiting (deliver_one o c d)) [
      | header_came sid name value ↦ (w.0, λ h. w.1 h)
      | body_came sid chunk ↦ (w.0, λ h. w.1 h)
      | frame_came frame duration ↦
          take_response-IsWaiting c.result duration c.client _ w.0
            (λ h. w.1 (before_callback-running o.gunzip o.unbrotli c.client frame h))
    ];
    over_receive = λ c w. (w.0, λ h. w.1 h);
    over_flush = λ c w. (w.0, λ h. w.1 h);
  }

  -- What a hop leaves: a decided result, one with no error beside a response, or a fresh one.
  abbrev pub HopDecides : Option (Hop Session) → Type 0
  HopDecides none = Unit
  HopDecides (some (returned net r)) = IsDecided r
  HopDecides (some (finished net r)) = r.ok ≡ true → is_empty r.error ≡ true
  HopDecides (some (redirected target net r)) = IsFresh r

  pub conclude_result-IsDecided :
      (r : FetchResult) → (r.ok ≡ true → is_empty r.error ≡ true) → IsDecided (conclude_result r)
  unfolding conclude_result
  conclude_result-IsDecided r h = elim (Bool-cases (not r.ok && is_empty r.error)) [
    | inl silent ↦ rw silent (ground (arith, silent))
    | inr said ↦ rw said (elim (Bool-cases r.ok) [
      | inl answered ↦ ground (arith, h answered, answered)
      | inr unanswered ↦ ground (arith, said, unanswered)
    ])
  ]

  module _ (opt : FetchOptions) (profile : TlsConfig) where
    after_loop-HopDecides :
        (net : Net Session) (w : Option (Bool × Capture Session))
        → Ends (one_listener o) IsWaiting w
        → HopDecides (after_loop o opt profile net w)
    unfolding after_loop timeout_error one_listener
    after_loop-HopDecides net none e = tt
    after_loop-HopDecides net (some (false, c)) e = e.0.1 (e.1 refl)
    after_loop-HopDecides net (some (true, c)) e =
        elim (is_empty c.client.redirect_url)
          as (λ b. HopDecides (
            if b
            then some (finished (with_client net c.client) c.result)
            else some (
                redirected c.client.redirect_url (with_client net c.client)
                  (record c.result { ok = false })))) [ true ↦ λ h. e.0.0 | false ↦ (refl, e.0.0) ]

    after_submit-HopDecides :
        (r : FetchResult) (net : Net Session) (sent : ℤ × Client Session) (turns : List Turn)
        → IsFresh r
        → HopDecides (after_submit o opt profile r net sent turns)
    unfolding after_submit
    after_submit-HopDecides r net (negsuc e, client) turns fresh = fresh.0
    after_submit-HopDecides r net (pos sid, client) turns fresh = after_loop-HopDecides net _ (
        event_loop-kept (one_listener o) IsWaiting one_listener-kept opt.timeout_ms _ turns
          (fresh.1, λ on. fresh.0))

    pub ask-HopDecides :
        (overrides : Headers) (url : ParsedUrl) (r : FetchResult) (net : Net Session)
        → IsFresh r
        → HopDecides (ask o opt profile overrides url r net)
    unfolding ask ask_over
    ask-HopDecides overrides url r net fresh =
        elim (not (beq net.conn.protocol (codes "h2")))
          as (λ b. HopDecides (
            if b
            then some
                (finished net (fail_with r (codes "unsupported protocol: " ++ net.conn.protocol)))
            else elim net.conn.h2 [
              | none ↦ none
              | some client ↦ ask_over o opt profile overrides url r net client
            ])) [
              | true ↦ λ h. cc
              | false ↦
                  elim net.conn.h2
                    as (λ m. HopDecides (elim m [
                      | none ↦ none
                      | some client ↦ ask_over o opt profile overrides url r net client
                    ])) [
                      | none ↦ tt
                      | some client ↦ after_submit-HopDecides r _ _ (o.turns net.asked) fresh
                    ]
            ]
