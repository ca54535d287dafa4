-- ===== src/Fetch/Lifecycle/Hops.antt =====
-- fetcher.cpp: `fetch_one` keeps the order, and its result is a response or an error.
use bw_fetcher.Headers.{merge_request_headers}
use bw_fetcher.Fetch.Addressed.{request-addressed, OneAddressed, one_listener-addressed}
use bw_fetcher.Fetch.Exchange.{Ends, event_loop-kept}
use bw_fetcher.Fetch.Lifecycle.Connect.{Ready, ensure_connection-Ready}
use bw_fetcher.Url.{ParsedUrl, UriError, parse_url}
use bw_fetcher.Fetch.Answers.{
  HopDecides, IsDecided, IsFresh, conclude_result-IsDecided, ask-HopDecides,
}
use bw_fetcher.Profiles.{TlsConfig}
use bw_fetcher.Types.{FetchResult, FetchOptions, Headers, no_result}
use bw_fetcher.Http2.{Client, all_to, send_header, reset_for_request}
use bw_fetcher.Fetch.One.{
  Hop, noted, conclude_net, returned, finished, with_client, after_loop, after_submit, ask_over,
  ask, after_connect, hop_to, fetch_hops, fetch_one, redirected, Capture, after_hop, hop_limit,
  one_listener,
}
use bw_fetcher.Base.{
  ap₂, ℕ, zero, suc, ◌≡◌, refl, sym, ap, ◌∙◌, Bool, true, false, not, Option, none, some, List,
  Bytes, codes, bytes_key, nat_key, pair_key, if_both, ℤ, beq_iff, beq, Result, is_empty, negsuc,
  pos, err, ok,
}
use bw_fetcher.Fetch.{
  Net, Outside, Client, FetchOptions, is_some, TlsConfig, ParsedUrl, no_tunnel_port, Turn,
  submitted_of,
}
use bw_fetcher.Fetch.Lifecycle.{
  phase_after, InStep, next_phase, phase_at, teardown_connection-InStep, all_to,
}

abbrev HopInStep : {Session : Type 0} → Option (Hop Session) → Type 0
HopInStep none = Unit
HopInStep (some (returned net r)) = InStep net
HopInStep (some (finished net r)) = InStep net
HopInStep (some (redirected target net r)) = InStep net

module _ {Session : Type 0} where
  -- A request on a connection of its own host and port.
  pub noted-InStep :
      (url : ParsedUrl) (before after : Client Session) (net : Net Session)
      → net.conn.h2 ≡ some before
      → net.conn.conn_host ≡ url.host
      → net.conn.conn_port ≡ url.port
      → all_to url.host after.submitted ≡ true
      → InStep net
      → InStep (noted url after net)
  unfolding noted phase_after next_phase phase_at
  noted-InStep url before after net there host port own s =
      let has_client : is_some net.conn.h2 ≡ true = rw there refl in
      let has_ssl = s.client_on_ssl has_client in
      let has_sock = s.ssl_on_sock has_ssl in
      let same_host = (beq_iff url.host url.host).1 refl in
      let same_port = (beq_iff url.port url.port).1 refl in
      record {
        in_order =
            rw (s.in_order, has_sock, has_ssl, has_client, host, port, same_host, same_port) refl;
        ssl_on_sock = λ t. has_sock;
        client_on_ssl = λ t. has_ssl;
        client_is_h2 = sym has_client ∙ s.client_is_h2;
        addressed = ap (λ h. all_to h after.submitted) host ∙ own;
      }

  -- The client in its new state.
  pub with_client-InStep :
      (net : Net Session) (client : Client Session)
      → is_some net.conn.h2 ≡ true
      → all_to net.conn.conn_host client.submitted ≡ true
      → InStep net
      → InStep (with_client net client)
  with_client-InStep net client there own s = record {
    in_order =
        s.in_order
        ∙ ap
            (λ b. some (
              phase_at (is_some net.conn.sock) net.conn.ssl b net.conn.conn_host
                net.conn.conn_port))
            there;
    ssl_on_sock = s.ssl_on_sock;
    client_on_ssl = λ t. s.client_on_ssl there;
    client_is_h2 = sym there ∙ s.client_is_h2;
    addressed = own;
  }

  pub conclude_net-InStep :
      (r : FetchResult) (net : Net Session) → InStep net → InStep (conclude_net r net)
  unfolding conclude_net
  conclude_net-InStep r net s =
      if_both InStep r.ok _ net
        (record {
          in_order = s.in_order;
          ssl_on_sock = s.ssl_on_sock;
          client_on_ssl = s.client_on_ssl;
          client_is_h2 = s.client_is_h2;
          addressed = s.addressed;
        })
        s

module _ {Session : Type 0} (o : Outside Session) (opt : FetchOptions) (profile : TlsConfig) where
  after_loop-HopInStep :
      (net : Net Session) (w : Option (Bool × Capture Session))
      → is_some net.conn.h2 ≡ true
      → Ends (one_listener o) (OneAddressed net.conn.conn_host) w
      → InStep net
      → HopInStep (after_loop o opt profile net w)
  unfolding after_loop
  after_loop-HopInStep net none there w s = tt
  after_loop-HopInStep net (some (false, c)) there w s = teardown_connection-InStep net s
  after_loop-HopInStep net (some (true, c)) there w s =
      if_both HopInStep (is_empty c.client.redirect_url)
        (some (finished (with_client net c.client) c.result)) _
        (with_client-InStep net c.client there w.0 s) (with_client-InStep net c.client there w.0 s)

  after_submit-HopInStep :
      (r : FetchResult) (net : Net Session) (sent : ℤ × Client Session) (turns : List Turn)
      → is_some net.conn.h2 ≡ true
      → all_to net.conn.conn_host sent.1.submitted ≡ true
      → InStep net
      → HopInStep (after_submit o opt profile r net sent turns)
  unfolding after_submit
  after_submit-HopInStep r net (negsuc e, client) turns there own s =
      teardown_connection-InStep net s
  after_submit-HopInStep r net (pos sid, client) turns there own s =
      after_loop-HopInStep net _ there
        (event_loop-kept (one_listener o) (OneAddressed net.conn.conn_host)
          (one_listener-addressed o net.conn.conn_host) opt.timeout_ms
          (record { client = client; result = r }) turns own)
        s

  client-HopInStep :
      (overrides : Headers) (url : ParsedUrl) (r : FetchResult) (net : Net Session)
      (m : Option (Client Session))
      → net.conn.h2 ≡ m
      → net.conn.conn_host ≡ url.host
      → net.conn.conn_port ≡ url.port
      → InStep net
      → HopInStep
          (elim m [ none ↦ none | some client ↦ ask_over o opt profile overrides url r net client ])
  unfolding ask_over noted
  client-HopInStep overrides url r net none e host port s = tt
  client-HopInStep overrides url r net (some client) e host port s =
      let sent =
        send_header o.submit_request o.session_send (reset_for_request client) url
          (merge_request_headers profile.headers overrides) in
      let own =
        request-addressed o url client (merge_request_headers profile.headers overrides)
          (sym (ap₂ (λ h m. all_to h (submitted_of m)) host e) ∙ s.addressed) in
      after_submit-HopInStep r (noted url sent.1 net) sent (o.turns net.asked) refl
        (ap (λ h. all_to h sent.1.submitted) host ∙ own)
        (noted-InStep url client sent.1 net e host port own s)

  ask-HopInStep :
      (overrides : Headers) (url : ParsedUrl) (r : FetchResult) (net : Net Session)
      → net.conn.conn_host ≡ url.host
      → net.conn.conn_port ≡ url.port
      → InStep net
      → HopInStep (ask o opt profile overrides url r net)
  unfolding ask
  ask-HopInStep overrides url r net host port s =
      if_both HopInStep (not (beq net.conn.protocol (codes "h2"))) _ _ s
        (client-HopInStep overrides url r net net.conn.h2 refl host port s)

  abbrev pub Sound : Option (Hop Session) → Type 0
  Sound h = HopInStep h × HopDecides o h

  after_connect-Sound :
      (overrides : Headers) (url : ParsedUrl) (r : FetchResult) (w : Net Session × Option Bytes)
      → IsFresh r
      → Ready url w
      → Sound (after_connect o opt profile overrides url r w)
  unfolding after_connect
  after_connect-Sound overrides url r (net, some error) fresh ready =
      (ready.0, fresh.0 ∙ sym ready.1)
  after_connect-Sound overrides url r (net, none) fresh (s, host, port) = (
    ask-HopInStep overrides url r net host port s,
    ask-HopDecides o opt profile overrides url r net fresh,
  )

  pub hop_to-Sound :
      (overrides : Headers) (parsed : Result UriError ParsedUrl) (r : FetchResult)
      (net : Net Session)
      → IsFresh r
      → InStep net
      → Sound (hop_to o opt profile overrides parsed r net)
  unfolding hop_to no_tunnel_port
  hop_to-Sound overrides (err e) r net fresh s = (teardown_connection-InStep net s, fresh.0)
  hop_to-Sound overrides (ok url) r net fresh s =
      after_connect-Sound overrides url r _ fresh
        (ensure_connection-Ready o profile url (no_tunnel_port url) opt net refl s)

  -- What `fetch_one` leaves, where it has a result.
  abbrev pub Leaves : Option (Net Session × FetchResult) → Type 0
  Leaves none = Unit
  Leaves (some (net, r)) = InStep net × IsDecided r

  after_hop-Leaves :
      (next : Bytes → FetchResult → Net Session → Option (Net Session × FetchResult))
      → ((target : Bytes) (r : FetchResult) (net : Net Session)
          → IsFresh r
          → InStep net
          → Leaves (next target r net))
      → (h : Option (Hop Session)) → Sound h
      → Leaves (after_hop next h)
  after_hop-Leaves next later none p = tt
  after_hop-Leaves next later (some (returned net r)) p = p
  after_hop-Leaves next later (some (finished net r)) p =
      (conclude_net-InStep r net p.0, conclude_result-IsDecided o r p.1)
  after_hop-Leaves next later (some (redirected target net r)) p = later target r net p.1 p.0

  fetch_hops-Leaves :
      (overrides : Headers) (hops : ℕ) (target : Bytes) (r : FetchResult) (net : Net Session)
      → IsFresh r
      → InStep net
      → Leaves (fetch_hops o opt profile overrides hops target r net)
  unfolding fetch_hops
  fetch_hops-Leaves overrides zero target r net fresh s =
      (conclude_net-InStep r net s, conclude_result-IsDecided o r (λ h. cc))
  fetch_hops-Leaves overrides (suc hops) target r net fresh s =
      after_hop-Leaves (fetch_hops o opt profile overrides hops) (fetch_hops-Leaves overrides hops)
        _ (hop_to-Sound overrides (parse_url target) _ net fresh s)

  pub fetch_one-Leaves :
      (start_url : Bytes) (overrides : Headers) (net : Net Session)
      → InStep net
      → Leaves (fetch_one o opt profile start_url overrides net)
  unfolding fetch_one
  fetch_one-Leaves start_url overrides net s =
      fetch_hops-Leaves overrides (hop_limit opt.max_redirects) start_url no_result net (refl, refl)
        s
