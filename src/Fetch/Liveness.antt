-- ===== src/Fetch/Liveness.antt =====
-- fetcher.cpp: with a timeout, `fetch_one` comes to an end.
use bw_fetcher.Fetch.Lifecycle.Hops.{Sound, hop_to-Sound, Leaves, fetch_one-Leaves}
use bw_fetcher.Fetch.Lifecycle.Connect.{Ready, ensure_connection-Ready}
use bw_fetcher.Fetch.Lifecycle.{InStep}
use bw_fetcher.Fetch.Answers.{IsFresh, IsDecided}
use bw_fetcher.Url.{ParsedUrl, UriError, parse_url}
use bw_fetcher.Http2.{Client}
use bw_fetcher.Fetch.One.{
  after_loop, after_submit, ask_over, ask, after_connect, hop_to, fetch_hops, fetch_one, Capture,
  Hop, finished, with_client, one_listener, after_hop, hop_limit, returned, redirected,
}
use bw_fetcher.Profiles.{TlsConfig}
use bw_fetcher.Http2.Loop.{timed_out, breaks}
use bw_fetcher.Types.{FetchOptions, FetchResult, Headers, no_result}
use bw_fetcher.Fetch.Exchange.{event_loop, Listener, received_turn}
use bw_fetcher.Fetch.{
  is_some, Outside, Turn, FetchOptions, TlsConfig, Net, no_tunnel_port, Client, ParsedUrl,
}
use bw_fetcher.Base.{
  ◌&&◌, ltb, leb, ℕ, zero, suc, ◌≡◌, inl, inr, refl, ◌∙◌, Bool, true, false, not, ◌||◌, Option,
  none, some, List, [], ◌∷◌, arith, if◌then◌else◌, Bool-cases, Bytes, codes, bytes_key, nat_key,
  pair_key, ℤ, if_both, Result, is_empty, negsuc, beq, pos, err, ok,
}

-- There is a timeout, and at one of the rounds as many milliseconds have passed.
abbrev pub past : ℤ → ℕ → Bool
past (pos t) elapsed = ltb 0 t && leb t elapsed
past (negsuc n) elapsed = false

abbrev pub some_turn_late : ℤ → List Turn → Bool
some_turn_late timeout_ms [] = false
some_turn_late timeout_ms (turn ∷ turns) =
    past timeout_ms turn.elapsed || some_turn_late timeout_ms turns

past-timed_out :
    (timeout_ms : ℤ) (elapsed : ℕ)
    → timed_out timeout_ms elapsed ≡ false
    → past timeout_ms elapsed ≡ false
unfolding timed_out
past-timed_out (pos zero) elapsed h = ground arith
past-timed_out (pos (suc t)) elapsed h = ground (arith, h)
past-timed_out (negsuc n) elapsed h = refl

round-returns :
    {S : Type 0}
    → (running late bad unsent : Bool) (s y z : S) (w : Option (Bool × S))
    → (late ≡ false → is_some w ≡ true)
    → is_some (
        if not running
        then some (true, s)
        else if late
        then some (false, s)
        else if bad
        then some (true, y)
        else if unsent
        then some (true, z)
        else w)
      ≡ true
round-returns false late bad unsent s y z w h = refl
round-returns true true bad unsent s y z w h = refl
round-returns true false true unsent s y z w h = refl
round-returns true false false true s y z w h = refl
round-returns true false false false s y z w h = h refl

pub event_loop-returns :
    {S : Type 0}
    → (l : Listener S) (timeout_ms : ℤ) (s : S) (turns : List Turn)
    → some_turn_late timeout_ms turns ≡ true
    → is_some (event_loop l timeout_ms s turns) ≡ true
unfolding event_loop
event_loop-returns l timeout_ms s [] h = cc
event_loop-returns l timeout_ms s (turn ∷ turns) h =
    round-returns (l.is_running s) (timed_out timeout_ms turn.elapsed) (breaks turn.received)
      (breaks turn.flushed) s (received_turn l s turn) (l.flush (received_turn l s turn)) _
      (λ early.
        event_loop-returns l timeout_ms (l.flush (received_turn l s turn)) turns
          (ground (arith, h, past-timed_out timeout_ms turn.elapsed early)))

pub is_some-if :
    {A : Type 0}
    → (b : Bool) (x y : Option A) → is_some x ≡ true
    → is_some y ≡ true
    → is_some (if b then x else y) ≡ true
is_some-if b x y p q = if_both (λ m. is_some m ≡ true) b x y p q

module _ {Session : Type 0} (o : Outside Session) (opt : FetchOptions) (profile : TlsConfig) where
  after_loop-returns :
      (net : Net Session) (w : Option (Bool × Capture Session))
      → is_some w ≡ true
      → is_some (after_loop o opt profile net w) ≡ true
  unfolding after_loop
  after_loop-returns net none h = h
  after_loop-returns net (some (false, c)) h = refl
  after_loop-returns net (some (true, c)) h =
      is_some-if (is_empty c.client.redirect_url)
        (some (finished (with_client net c.client) c.result)) _ refl refl

  module _ (late : (n : ℕ) → some_turn_late opt.timeout_ms (o.turns n) ≡ true) where
    after_submit-returns :
        (r : FetchResult) (net : Net Session) (sent : ℤ × Client Session) (n : ℕ)
        → is_some (after_submit o opt profile r net sent (o.turns n)) ≡ true
    unfolding after_submit
    after_submit-returns r net (negsuc e, client) n = refl
    after_submit-returns r net (pos sid, client) n =
        after_loop-returns net _
          (event_loop-returns (one_listener o) opt.timeout_ms _ (o.turns n) (late n))

    client-returns :
        (overrides : Headers) (url : ParsedUrl) (r : FetchResult) (net : Net Session)
        (m : Option (Client Session))
        → is_some m ≡ true
        → is_some (elim m [
          | none ↦ none
          | some client ↦ ask_over o opt profile overrides url r net client
        ])
          ≡ true
    unfolding ask_over
    client-returns overrides url r net none h = cc
    client-returns overrides url r net (some client) h = after_submit-returns r _ _ net.asked

    -- A client is there where the protocol is h2.
    ask-returns :
        (overrides : Headers) (url : ParsedUrl) (r : FetchResult) (net : Net Session)
        → InStep net
        → is_some (ask o opt profile overrides url r net) ≡ true
    unfolding ask
    ask-returns overrides url r net s = elim (Bool-cases (beq net.conn.protocol (codes "h2"))) [
      | inl spoken ↦
          rw spoken (client-returns overrides url r net net.conn.h2 (s.client_is_h2 ∙ spoken))
      | inr other ↦ rw other refl
    ]

    after_connect-returns :
        (overrides : Headers) (url : ParsedUrl) (r : FetchResult) (w : Net Session × Option Bytes)
        → Ready url w
        → is_some (after_connect o opt profile overrides url r w) ≡ true
    unfolding after_connect
    after_connect-returns overrides url r (net, some error) ready = refl
    after_connect-returns overrides url r (net, none) ready =
        ask-returns overrides url r net ready.0

    hop_to-returns :
        (overrides : Headers) (parsed : Result UriError ParsedUrl) (r : FetchResult)
        (net : Net Session)
        → InStep net
        → is_some (hop_to o opt profile overrides parsed r net) ≡ true
    unfolding hop_to no_tunnel_port
    hop_to-returns overrides (err e) r net s = refl
    hop_to-returns overrides (ok url) r net s =
        after_connect-returns overrides url r _
          (ensure_connection-Ready o profile url (no_tunnel_port url) opt net refl s)

    after_hop-returns :
        (next : Bytes → FetchResult → Net Session → Option (Net Session × FetchResult))
        → ((target : Bytes) (r : FetchResult) (net : Net Session)
            → IsFresh r
            → InStep net
            → is_some (next target r net) ≡ true)
        → (h : Option (Hop Session)) → is_some h ≡ true
        → Sound o opt profile h
        → is_some (after_hop next h) ≡ true
    after_hop-returns next later none h p = cc
    after_hop-returns next later (some (returned net r)) h p = refl
    after_hop-returns next later (some (finished net r)) h p = refl
    after_hop-returns next later (some (redirected target net r)) h p = later target r net p.1 p.0

    fetch_hops-returns :
        (overrides : Headers) (hops : ℕ) (target : Bytes) (r : FetchResult) (net : Net Session)
        → IsFresh r
        → InStep net
        → is_some (fetch_hops o opt profile overrides hops target r net) ≡ true
    unfolding fetch_hops
    fetch_hops-returns overrides zero target r net fresh s = refl
    fetch_hops-returns overrides (suc hops) target r net fresh s =
        after_hop-returns (fetch_hops o opt profile overrides hops)
          (fetch_hops-returns overrides hops) _
          (hop_to-returns overrides (parse_url target) _ net s)
          (hop_to-Sound o opt profile overrides (parse_url target) _ net fresh s)

    -- Where each request meets its deadline, and the connection is in step, `fetch_one` returns: it follows no null
    -- pointer, and its loop ends. The connection is in step again, and the result is ok exactly when it has no error.
    pub fetch_one-returns :
        (start_url : Bytes) (overrides : Headers) (net : Net Session)
        → InStep net
        → (after : Net Session) × (r : FetchResult) × (fetch_one o opt profile start_url overrides
              net
            ≡ some (after, r))
          × InStep after
          × IsDecided r
    unfolding fetch_one
    fetch_one-returns start_url overrides net s =
        (elim (fetch_one o opt profile start_url overrides net)
            as (λ m.
              is_some m ≡ true
              → Leaves o opt profile m
              → (after : Net Session) × (r : FetchResult) × (m ≡ some (after, r))
                × InStep after
                × IsDecided r) [
                  | none ↦ λ h p. cc
                  | some (after, r) ↦ λ h p. (after, r, refl, p.0, p.1)
                ])
          (fetch_hops-returns overrides (hop_limit opt.max_redirects) start_url no_result net
            (refl, refl) s)
          (fetch_one-Leaves o opt profile start_url overrides net s)
