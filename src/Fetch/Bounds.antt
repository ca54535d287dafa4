-- ===== src/Fetch/Bounds.antt =====
-- fetcher.cpp: how many requests `fetch_one` sends.
use bw_fetcher.Fetch.Lifecycle.{InStep}
use bw_fetcher.Fetch.Liveness.{some_turn_late, fetch_one-returns}
use bw_fetcher.Http2.{Client}
use bw_fetcher.Url.{ParsedUrl, parse_url, UriError}
use bw_fetcher.Types.{FetchResult, FetchOptions, Headers, no_result}
use bw_fetcher.Profiles.{TlsConfig}
use bw_fetcher.Fetch.One.{
  Hop, conclude_net, returned, finished, after_loop, after_submit, ask_over, after_connect, hop_to,
  fetch_hops, fetch_one, redirected, noted, ask, after_hop, Capture, hop_limit, with_client,
}
use bw_fetcher.Base.{
  ℕ, zero, suc, ◌+◌, ◌≤◌, ◌≡◌, refl, Bool, true, false, not, Option, none, some, List, ◌∷◌, ◌++◌,
  arith, Bytes, codes, bytes_key, nat_key, pair_key, if_both, beq, ℤ, Result, err, is_empty, subst,
  ok, negsuc, pos,
}
use bw_fetcher.Fetch.{
  socket_opened, tls_opened, Outside, TlsConfig, FetchOptions, ParsedUrl, Net, client_for,
  after_handshake, after_tunnel, connected, ensure_connection, teardown_connection, Dial, connect,
  Client, reuse, Turn, tunnel, no_tunnel_port, endpoint_host, endpoint_port,
}

abbrev StillAsked : {Session : Type 0} → ℕ → Net Session × Option Bytes → Type 0
StillAsked n w = w.0.asked ≡ n

module _ {Session : Type 0} (o : Outside Session) (profile : TlsConfig) (url : ParsedUrl) where
  client_for-asked :
      (session : Session) (net : Net Session)
      → (client_for o profile session url net).asked ≡ net.asked
  unfolding client_for
  client_for-asked session net =
      if_both (λ n. n.asked ≡ net.asked) (beq net.conn.protocol (codes "h2")) _ net refl refl

  after_handshake-asked :
      (d : Dial Session) (net : Net Session)
      → (after_handshake o profile d url net).0.asked ≡ net.asked
  unfolding after_handshake teardown_connection
  after_handshake-asked d net =
      elim d.tls_protocol
        as (λ p. StillAsked {Session = Session} net.asked (elim p [
          | none ↦ (teardown_connection net, some (codes "SSL handshake failed"))
          | some protocol ↦ (
            client_for o profile d.new_session url (record net {
              conn = record net.conn {
                ssl = true;
                protocol = protocol;
                conn_host = url.host;
                conn_port = url.port;
              };
              trace = tls_opened url.host url.port ∷ net.trace;
            }),
            none,
          )
        ])) [
          | none ↦ refl
          | some protocol ↦ client_for-asked d.new_session (record net {
            conn = record net.conn {
              ssl = true;
              protocol = protocol;
              conn_host = url.host;
              conn_port = url.port;
            };
            trace = tls_opened url.host url.port ∷ net.trace;
          })
        ]

  after_tunnel-asked :
      (d : Dial Session) (net : Net Session)
      → (after_tunnel o profile d url net).0.asked ≡ net.asked
  unfolding after_tunnel teardown_connection
  after_tunnel-asked d net =
      elim d.tls_client_error
        as (λ p. StillAsked {Session = Session} net.asked (elim p [
          | some what ↦ (teardown_connection net, some (codes "TLS client init failed: " ++ what))
          | none ↦
              after_handshake o profile d url
                (record net { conn = record net.conn { ssl_client = true } })
        ])) [
          | some what ↦ refl
          | none ↦
              after_handshake-asked d (record net { conn = record net.conn { ssl_client = true } })
        ]

  connected-asked :
      (port_error : Bytes) (opt : FetchOptions) (d : Dial Session) (net : Net Session)
      → (connected o port_error opt profile d url net).0.asked ≡ net.asked
  unfolding connected teardown_connection
  connected-asked port_error opt d net =
      elim d.reached
        as (λ p. StillAsked {Session = Session} net.asked (elim p [
          | err what ↦ (net, some (codes "connect failed: " ++ what))
          | ok sock ↦
              let open_net = record net {
                conn = record net.conn { sock = some sock };
                trace = socket_opened ∷ net.trace;
              } in
              elim (tunnel port_error opt url sock) [
                | err what ↦ (teardown_connection open_net, some what)
                | ok through ↦
                    after_tunnel o profile d url
                      (record open_net { conn = record open_net.conn { sock = some through } })
              ]
        ])) [
          | err what ↦ refl
          | ok sock ↦
              let open_net : Net Session = record net {
                conn = record net.conn { sock = some sock };
                trace = socket_opened ∷ net.trace;
              } in
              elim (tunnel port_error opt url sock)
                as (λ t. StillAsked {Session = Session} net.asked (elim t [
                  | err what ↦ (teardown_connection open_net, some what)
                  | ok through ↦
                      after_tunnel o profile d url
                        (record open_net { conn = record open_net.conn { sock = some through } })
                ])) [
                  | err what ↦ refl
                  | ok through ↦
                      after_tunnel-asked d
                        (record open_net { conn = record open_net.conn { sock = some through } })
                ]
        ]

  -- Connecting sends no request.
  ensure_connection-asked :
      (port_error : Bytes) (opt : FetchOptions) (net : Net Session)
      → (ensure_connection o port_error opt profile url net).0.asked ≡ net.asked
  unfolding ensure_connection connect teardown_connection
  ensure_connection-asked port_error opt net =
      if_both (λ w. w.0.asked ≡ net.asked) (reuse opt url net.conn) (net, none)
        (connect o port_error opt profile url net) refl
        (connected-asked port_error opt
          (o.dial net.dialled (endpoint_host opt url) (endpoint_port opt url))
          (record (teardown_connection net) { dialled = net.dialled + 1 }))

-- The requests so far after a hop.
abbrev HopAsks : {Session : Type 0} → ℕ → Option (Hop Session) → Type 0
HopAsks n none = Unit
HopAsks n (some (returned net r)) = net.asked ≤ n
HopAsks n (some (finished net r)) = net.asked ≤ n
HopAsks n (some (redirected target net r)) = net.asked ≤ n

conclude_net-asked :
    {Session : Type 0}
    → (r : FetchResult) (net : Net Session) → (conclude_net r net).asked ≡ net.asked
unfolding conclude_net
conclude_net-asked r net = if_both (λ n. n.asked ≡ net.asked) r.ok _ net refl refl

module _ {Session : Type 0} (o : Outside Session) (opt : FetchOptions) (profile : TlsConfig) where
  after_loop-HopAsks :
      (net : Net Session) (w : Option (Bool × Capture Session))
      → HopAsks net.asked (after_loop o opt profile net w)
  unfolding after_loop teardown_connection
  after_loop-HopAsks net none = tt
  after_loop-HopAsks net (some (false, c)) = omega arith
  after_loop-HopAsks net (some (true, c)) =
      if_both (HopAsks net.asked) (is_empty c.client.redirect_url)
        (some (finished (with_client net c.client) c.result)) _ (omega arith) (omega arith)

  after_submit-HopAsks :
      (r : FetchResult) (net : Net Session) (sent : ℤ × Client Session) (turns : List Turn)
      → HopAsks net.asked (after_submit o opt profile r net sent turns)
  unfolding after_submit teardown_connection
  after_submit-HopAsks r net (negsuc e, client) turns = omega arith
  after_submit-HopAsks r net (pos sid, client) turns = after_loop-HopAsks net _

  client-HopAsks :
      (overrides : Headers) (url : ParsedUrl) (r : FetchResult) (net : Net Session)
      (m : Option (Client Session))
      → HopAsks
          (net.asked + 1)
          (elim m [ none ↦ none | some client ↦ ask_over o opt profile overrides url r net client ])
  unfolding ask_over noted
  client-HopAsks overrides url r net none = tt
  client-HopAsks overrides url r net (some client) = after_submit-HopAsks r _ _ (o.turns net.asked)

  after_connect-HopAsks :
      (overrides : Headers) (url : ParsedUrl) (r : FetchResult) (w : Net Session × Option Bytes)
      → HopAsks (w.0.asked + 1) (after_connect o opt profile overrides url r w)
  unfolding after_connect ask
  after_connect-HopAsks overrides url r (net, some error) = omega arith
  after_connect-HopAsks overrides url r (net, none) =
      if_both (HopAsks (net.asked + 1)) (not (beq net.conn.protocol (codes "h2"))) _ _ (omega arith)
        (client-HopAsks overrides url r net net.conn.h2)

  hop_to-HopAsks :
      (overrides : Headers) (parsed : Result UriError ParsedUrl) (r : FetchResult)
      (net : Net Session)
      → HopAsks (net.asked + 1) (hop_to o opt profile overrides parsed r net)
  unfolding hop_to teardown_connection
  hop_to-HopAsks overrides (err e) r net = omega arith
  hop_to-HopAsks overrides (ok url) r net =
      subst
        (λ n. HopAsks (n + 1) (
          after_connect o opt profile overrides url r
            (ensure_connection o (no_tunnel_port url) opt profile url net)))
        (ensure_connection-asked o profile url (no_tunnel_port url) opt net)
        (after_connect-HopAsks overrides url r _)

  abbrev Asks : ℕ → Option (Net Session × FetchResult) → Type 0
  Asks n none = Unit
  Asks n (some (net, r)) = net.asked ≤ n

  weaken : {m n : ℕ} → (w : Option (Net Session × FetchResult)) → Asks m w → m ≤ n → Asks n w
  weaken none p l = tt
  weaken (some (net, r)) p l = omega (arith, p, l)

  after_hop-Asks :
      (next : Bytes → FetchResult → Net Session → Option (Net Session × FetchResult)) (n hops : ℕ)
      → ((target : Bytes) (r : FetchResult) (net : Net Session)
          → Asks (net.asked + hops) (next target r net))
      → (h : Option (Hop Session)) → HopAsks (n + 1) h
      → Asks (n + suc hops) (after_hop next h)
  after_hop-Asks next n hops later none p = tt
  after_hop-Asks next n hops later (some (returned net r)) p = omega (arith, p)
  after_hop-Asks next n hops later (some (finished net r)) p =
      let e = conclude_net-asked r net in omega (arith, p, e)
  after_hop-Asks next n hops later (some (redirected target net r)) p =
      weaken (next target r net) (later target r net) (omega (arith, p))

  fetch_hops-Asks :
      (overrides : Headers) (hops : ℕ) (target : Bytes) (r : FetchResult) (net : Net Session)
      → Asks (net.asked + hops) (fetch_hops o opt profile overrides hops target r net)
  unfolding fetch_hops
  fetch_hops-Asks overrides zero target r net = let e = conclude_net-asked r net in omega (arith, e)
  fetch_hops-Asks overrides (suc hops) target r net =
      after_hop-Asks (fetch_hops o opt profile overrides hops) net.asked hops
        (fetch_hops-Asks overrides hops) _ (hop_to-HopAsks overrides (parse_url target) _ net)

  asked_within :
      (start_url : Bytes) (overrides : Headers) (net after : Net Session) (r : FetchResult)
      → fetch_one o opt profile start_url overrides net ≡ some (after, r)
      → after.asked ≤ net.asked + hop_limit opt.max_redirects
  unfolding fetch_one
  asked_within start_url overrides net after r h =
      subst (Asks (net.asked + hop_limit opt.max_redirects)) h
        (fetch_hops-Asks overrides (hop_limit opt.max_redirects) start_url no_result net)

  -- Whatever redirects the peers answer with, if the clock reaches the deadline in each request and the connection
  -- is in step at the start: `fetch_one` returns after no more requests than `max_redirects`.
  pub fetch_one-asked :
      ((n : ℕ) → some_turn_late opt.timeout_ms (o.turns n) ≡ true)
      → (start_url : Bytes) (overrides : Headers) (net : Net Session) → InStep net
      → (after : Net Session) × (r : FetchResult) × (fetch_one o opt profile start_url overrides net
          ≡ some (after, r))
        × (after.asked ≤ net.asked + hop_limit opt.max_redirects)
  fetch_one-asked late start_url overrides net s =
      let (after, r, e, in_step, decided) =
        fetch_one-returns o opt profile late start_url overrides net s in
      (after, r, e, asked_within start_url overrides net after r e)
