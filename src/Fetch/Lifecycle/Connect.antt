-- ===== src/Fetch/Lifecycle/Connect.antt =====
-- fetcher.cpp: a connection attempt keeps the order.
use bw_fetcher.Http2.{Client, all_to}
use bw_fetcher.Socket.{Socket}
use bw_fetcher.Types.{FetchOptions}
use bw_fetcher.Profiles.{TlsConfig}
use bw_fetcher.Url.{ParsedUrl}
use bw_fetcher.Base.{
  ◌+◌, ◌≡◌, inl, inr, refl, sym, ap, true, false, ◌||◌, Option, none, some, ◌∷◌, ◌++◌, arith, ltb,
  ◌==◌, Bool-cases, Bytes, codes, bytes_key, nat_key, pair_key, is_empty, ℤ, err, negsuc, pos, beq,
  Result, if_both, ok, beq_iff, from_chars_or, every,
}
use bw_fetcher.Fetch.{
  socket_opened, tls_opened, ParsedUrl, tunnel_to, Outside, Net, tunnelled, TlsConfig, FetchOptions,
  client_for, Socket, is_some, tunnel, after_handshake, after_tunnel, connected, connect,
  ensure_connection, Dial, teardown_connection, reuse, endpoint_host, endpoint_port, new_client,
  Client, submitted_of,
}
use bw_fetcher.Fetch.Lifecycle.{
  down, connected_to, secured_to, InStep, phase_at, phase_after, next_phase,
  teardown_connection-InStep, then_phase, teardown_connection-down, all_to,
}

-- After an attempt: a connection to the host and port of the URL, or an error.
abbrev pub Ready : {Session : Type 0} → ParsedUrl → Net Session × Option Bytes → Type 0
Ready url (net, none) =
    InStep net × (net.conn.conn_host ≡ url.host) × (net.conn.conn_port ≡ url.port)
Ready url (net, some error) = InStep net × (is_empty error ≡ false)

-- An error has a text.
abbrev Speaks : Result Bytes Socket → Type 0
Speaks (ok sock) = Unit
Speaks (err error) = is_empty error ≡ false

no_client-addressed :
    {Session : Type 0}
    → (host : Bytes) (m : Option (Client Session)) → is_some m ≡ false
    → all_to host (submitted_of m) ≡ true
unfolding every
no_client-addressed host none h = refl
no_client-addressed host (some client) h = cc

tunnelled-Speaks : (w : Option (Unit {0} × Socket)) → Speaks (tunnelled w)
unfolding tunnelled
tunnelled-Speaks none = refl
tunnelled-Speaks (some (u, sock)) = tt

tunnel_to-Speaks :
    (port_error : Bytes) (opt : FetchOptions) (host : Bytes) (port : ℤ) (sock : Socket)
    → is_empty port_error ≡ false
    → Speaks (tunnel_to port_error opt host port sock)
unfolding tunnel_to
tunnel_to-Speaks port_error opt host (negsuc n) sock h = h
tunnel_to-Speaks port_error opt host (pos port) sock h =
    if_both Speaks (port == 0 || ltb 65535 port) (err port_error) _ h (tunnelled-Speaks _)

tunnel-Speaks :
    (port_error : Bytes) (opt : FetchOptions) (url : ParsedUrl) (sock : Socket)
    → is_empty port_error ≡ false
    → Speaks (tunnel port_error opt url sock)
unfolding tunnel
tunnel-Speaks port_error opt url sock h =
    if_both Speaks opt.proxy.enabled _ (ok sock)
      (tunnel_to-Speaks port_error opt url.host (from_chars_or (pos 0) url.port) sock h) tt

module _ {Session : Type 0} (o : Outside Session) (profile : TlsConfig) (url : ParsedUrl) where
  client_for-Ready :
      (session : Session) (net : Net Session)
      → phase_after net.trace ≡ some (secured_to url.host url.port)
      → is_some net.conn.sock ≡ true
      → net.conn.ssl ≡ true
      → is_some net.conn.h2 ≡ false
      → net.conn.conn_host ≡ url.host
      → net.conn.conn_port ≡ url.port
      → Ready url (client_for o profile session url net, none)
  unfolding client_for new_client every phase_at phase_after next_phase
  client_for-Ready session net h on_sock on_ssl no_client host port =
      elim (Bool-cases (beq net.conn.protocol (codes "h2"))) [
        | inl spoken ↦ rw spoken (
          record {
            in_order = rw (h, on_sock, on_ssl, host, port) refl;
            ssl_on_sock = λ t. on_sock;
            client_on_ssl = λ t. on_ssl;
            client_is_h2 = rw spoken refl;
            addressed = refl;
          },
          host,
          port,
        )
        | inr other ↦ rw other (
          record {
            in_order = rw (h, on_sock, on_ssl, no_client, host, port) refl;
            ssl_on_sock = λ t. on_sock;
            client_on_ssl = λ t. on_ssl;
            client_is_h2 = rw (no_client, other) refl;
            addressed = no_client-addressed _ _ no_client;
          },
          host,
          port,
        )
      ]

  -- What is there when the socket is: no TLS connection and no client.
  abbrev OnlySocket : Net Session → Type 0
  OnlySocket net =
      (phase_after net.trace ≡ some connected_to)
      × (is_some net.conn.sock ≡ true)
      × (net.conn.ssl ≡ false)
      × (is_some net.conn.h2 ≡ false)
      × (beq net.conn.protocol (codes "h2") ≡ false)

  OnlySocket-InStep : (net : Net Session) → OnlySocket net → InStep net
  unfolding phase_at
  OnlySocket-InStep net (h, on_sock, no_ssl, no_client, no_protocol) = record {
    in_order = rw (h, on_sock, no_ssl) refl;
    ssl_on_sock = λ t. on_sock;
    client_on_ssl = λ t. cc;
    client_is_h2 = cc;
    addressed = no_client-addressed _ _ no_client;
  }

  after_handshake-Ready :
      (d : Dial Session) (net : Net Session)
      → OnlySocket net
      → Ready url (after_handshake o profile d url net)
  unfolding after_handshake phase_after next_phase
  after_handshake-Ready d net s =
      elim d.tls_protocol
        as (λ p. Ready {Session = Session} url (elim p [
          | none ↦ (teardown_connection net, some (codes "SSL handshake failed"))
          | some protocol ↦ (
            client_for o profile d.new_session url (record net {
              conn = record net.conn {
                ssl = true;
                protocol = protocol;
                conn_host = url.host;
                conn_port = url.port;
              };
              trace = tls_opened url.host url.port ∷ net.trace;
            }),
            none,
          )
        ])) [
          | none ↦ (teardown_connection-InStep net (OnlySocket-InStep net s), refl)
          | some protocol ↦
              client_for-Ready d.new_session _
                (ap (λ p. then_phase p (tls_opened url.host url.port)) s.0) s.1 refl s.3 refl refl
        ]

  after_tunnel-Ready :
      (d : Dial Session) (net : Net Session)
      → OnlySocket net
      → Ready url (after_tunnel o profile d url net)
  unfolding after_tunnel
  after_tunnel-Ready d net s =
      elim d.tls_client_error
        as (λ p. Ready {Session = Session} url (elim p [
          | some what ↦ (teardown_connection net, some (codes "TLS client init failed: " ++ what))
          | none ↦
              after_handshake o profile d url
                (record net { conn = record net.conn { ssl_client = true } })
        ])) [
          | some what ↦ (teardown_connection-InStep net (OnlySocket-InStep net s), refl)
          | none ↦ after_handshake-Ready d _ s
        ]

  connected-Ready :
      (port_error : Bytes) (opt : FetchOptions) (d : Dial Session) (net : Net Session)
      → is_empty port_error ≡ false
      → phase_after net.trace ≡ some down
      → InStep net
      → net.conn.ssl ≡ false
      → is_some net.conn.h2 ≡ false
      → beq net.conn.protocol (codes "h2") ≡ false
      → Ready url (connected o port_error opt profile d url net)
  unfolding connected phase_after next_phase
  connected-Ready port_error opt d net h closed s no_ssl no_client no_protocol =
      elim d.reached
        as (λ p. Ready {Session = Session} url (elim p [
          | err what ↦ (net, some (codes "connect failed: " ++ what))
          | ok sock ↦
              let open_net = record net {
                conn = record net.conn { sock = some sock };
                trace = socket_opened ∷ net.trace;
              } in
              elim (tunnel port_error opt url sock) [
                | err what ↦ (teardown_connection open_net, some what)
                | ok through ↦
                    after_tunnel o profile d url
                      (record open_net { conn = record open_net.conn { sock = some through } })
              ]
        ])) [
          | err what ↦ (s, refl)
          | ok sock ↦
              let open_net : Net Session = record net {
                conn = record net.conn { sock = some sock };
                trace = socket_opened ∷ net.trace;
              } in
              let opened : OnlySocket open_net = (
                ap (λ p. then_phase p socket_opened) closed,
                refl,
                no_ssl,
                no_client,
                no_protocol,
              ) in
              (elim (tunnel port_error opt url sock)
                  as (λ t.
                    Speaks t
                    → Ready {Session = Session} url (elim t [
                      | err what ↦ (teardown_connection open_net, some what)
                      | ok through ↦
                          after_tunnel o profile d url (record open_net {
                            conn = record open_net.conn { sock = some through };
                          })
                    ])) [
                      | err what ↦ λ spoken. (
                        teardown_connection-InStep open_net (OnlySocket-InStep open_net opened),
                        spoken,
                      )
                      | ok through ↦ λ spoken. after_tunnel-Ready d _ opened
                    ])
                (tunnel-Speaks port_error opt url sock h)
        ]

  connect-Ready :
      (port_error : Bytes) (opt : FetchOptions) (net : Net Session)
      → is_empty port_error ≡ false
      → InStep net
      → Ready url (connect o port_error opt profile url net)
  unfolding connect teardown_connection beq
  connect-Ready port_error opt net h s =
      let closed = teardown_connection-InStep net s in
      let next : Net Session = record (teardown_connection net) { dialled = net.dialled + 1 } in
      let d = o.dial net.dialled (endpoint_host opt url) (endpoint_port opt url) in
      connected-Ready port_error opt d next h (teardown_connection-down net s)
        (record {
          in_order = closed.in_order;
          ssl_on_sock = closed.ssl_on_sock;
          client_on_ssl = closed.client_on_ssl;
          client_is_h2 = closed.client_is_h2;
          addressed = closed.addressed;
        })
        refl refl refl

  -- A connection is reused for its own host and port only.
  pub ensure_connection-Ready :
      (port_error : Bytes) (opt : FetchOptions) (net : Net Session)
      → is_empty port_error ≡ false
      → InStep net
      → Ready url (ensure_connection o port_error opt profile url net)
  unfolding ensure_connection reuse
  ensure_connection-Ready port_error opt net h s = elim (Bool-cases (reuse opt url net.conn)) [
    | inl again ↦
        let host : beq url.host net.conn.conn_host ≡ true = ground (arith, again) in
        let port : beq url.port net.conn.conn_port ≡ true = ground (arith, again) in
        rw again (
          s,
          sym ((beq_iff url.host net.conn.conn_host).0 host),
          sym ((beq_iff url.port net.conn.conn_port).0 port),
        )
    | inr anew ↦ rw anew (connect-Ready port_error opt net h s)
  ]
