-- ===== src/Fetch.antt =====
-- fetcher.cpp: the connection of a fetch. What lies outside of the program is a record of functions:
-- the sessions of nghttp2, and what the network and the clock do at each connection attempt and at each
-- request, both counted from the start. What the program does to its connection is noted in a trace.
pub mod Exchange
pub mod One
pub mod Page
pub mod Batch
pub mod Answers
pub mod Addressed
pub mod Lifecycle
pub mod Liveness
pub mod Bounds
use bw_fetcher.Socks.{proxy_handshake}
use bw_fetcher.Scripts.{Engine}
use bw_fetcher.Url.{ParsedUrl}
use bw_fetcher.Profiles.{H2Profile, TlsConfig, H2Setting}
use bw_fetcher.Types.{FetchOptions}
use bw_fetcher.Cookies.{Jar}
use bw_fetcher.Socket.{Socket}
use bw_fetcher.Http2.Loop.{Outcome}
use bw_fetcher.Http2.{Frame, Priority, Client}
use bw_fetcher.Base.{
  ℕ, zero, suc, ◌+◌, ◌-◌, ◌*◌, ◌≤◌, ◌<◌, ◌≢◌, ◌↔◌, ◌⊎◌, inl, inr, refl, sym, ap, ap₂, ◌∙◌, Bool,
  true, false, not, ◌&&◌, ◌||◌, Option, none, some, List, [], ◌∷◌, ◌++◌, map, arith, ltb, leb, ◌==◌,
  if◌then◌else◌, Bool-cases, Option-cases, Bytes, codes, length, bytes_key, nat_key, pair_key, ◌≡◌,
  Result, ℤ, beq, err, from_chars_or, ok, negsuc, pos, to_string,
}

-- What comes of one connection attempt: the socket of `happy_eyeballs_connect` or the message of an exception,
-- the message of an exception of the TLS client, the protocol of the TLS handshake where it succeeds, and the
-- session of the HTTP/2 client.
pub record Dial (Session : Type 0) : Type 0 where
  pub reached : Result Bytes Socket
  pub tls_client_error : Option Bytes
  pub tls_protocol : Option Bytes
  pub new_session : Session

-- What nghttp2 reports, with the milliseconds since the request where a callback reads the clock.
pub data Delivery : Type 0 where
  header_came : (sid : ℕ) (name value : Bytes) → Delivery
  body_came : (sid : ℕ) (chunk : Bytes) → Delivery
  frame_came : (frame : Frame) (duration : ℕ) → Delivery

-- A round of `run_event_loop`: the clock at its start, and the results of `nghttp2_session_recv`, with the
-- callbacks that it makes, and of `nghttp2_session_send`.
pub record Turn : Type 0 where
  pub elapsed : ℕ
  pub received : Outcome
  pub deliveries : List Delivery
  pub flushed : Outcome

pub record Outside (Session : Type 0) : Type 0 where
  pub dial : ℕ → (host port : Bytes) → Dial Session
  pub turns : ℕ → List Turn
  pub submit_request : Session → Option Priority → List (Bytes × Bytes) → ℤ × Session
  pub session_send : Session → Session
  pub session_recv : Session → Session
  pub submit_settings : Session → List H2Setting → Session
  pub submit_window_update : Session → ℕ → Session
  pub gunzip : Bytes → Bytes
  pub unbrotli : Bytes → Bytes
  pub matches : Engine

-- What is done to the connection. A client that is closed leaves what it submitted.
pub data Effect : Type 0 where
  socket_opened socket_closed tls_closed client_opened : Effect
  client_closed : (submitted : List ParsedUrl) → Effect
  tls_opened request_sent : (host port : Bytes) → Effect

-- `SSL*` and the TLS client are there or not.
pub record ConnectionState (Session : Type 0) : Type 0 where
  pub sock : Option Socket
  pub ssl : Bool
  pub protocol : Bytes
  pub conn_host : Bytes
  pub conn_port : Bytes
  pub ssl_client : Bool
  pub h2 : Option (Client Session)
  pub cookies : Jar

-- The trace has the newest effect first.
pub record Net (Session : Type 0) : Type 0 where
  pub conn : ConnectionState Session
  pub dialled : ℕ
  pub asked : ℕ
  pub trace : List Effect

abbrev pub no_connection : {Session : Type 0} → Jar → ConnectionState Session
no_connection cookies = record {
  sock = none;
  ssl = false;
  protocol = [];
  conn_host = [];
  conn_port = [];
  ssl_client = false;
  h2 = none;
  cookies = cookies;
}

abbrev pub no_net : {Session : Type 0} → Net Session
no_net = record { conn = no_connection []; dialled = 0; asked = 0; trace = [] }

-- The effects of `teardown_connection`: the client before the TLS connection before the socket.
abbrev pub note_if : Bool → Effect → List Effect → List Effect
note_if b e trace = if b then e ∷ trace else trace

abbrev pub is_some : {A : Type 0} → Option A → Bool
is_some none = false
is_some (some a) = true

abbrev pub submitted_of : {Session : Type 0} → Option (Client Session) → List ParsedUrl
submitted_of none = []
submitted_of (some client) = client.submitted

unfoldable pub teardown_trace :
    {Session : Type 0} → ConnectionState Session → List Effect → List Effect
teardown_trace conn trace = note_if (is_some conn.sock) socket_closed (
    note_if conn.ssl tls_closed
      (note_if (is_some conn.h2) (client_closed (submitted_of conn.h2)) trace))

unfoldable pub teardown_connection : {Session : Type 0} → Net Session → Net Session
unfolding teardown_trace
teardown_connection net = record net {
  conn = no_connection net.conn.cookies;
  trace = teardown_trace net.conn net.trace;
}

-- `goaway_received`
unfoldable pub live_client : {Session : Type 0} → Option (Client Session) → Bool
live_client none = false
live_client (some c) = not c.goaway

unfoldable pub reuse :
    {Session : Type 0} → FetchOptions → ParsedUrl → ConnectionState Session → Bool
unfolding live_client
reuse opt url conn =
    conn.ssl
    && beq conn.protocol (codes "h2")
    && not opt.proxy.enabled
    && (beq url.host conn.conn_host && beq url.port conn.conn_port)
    && live_client conn.h2

-- The SOCKS5 tunnel, where there is a proxy. `port_error` is the message for a port out of range.
unfoldable pub tunnelled : Option (Unit {0} × Socket) → Result Bytes Socket
tunnelled none = err (codes "proxy handshake failed")
tunnelled (some (u, sock)) = ok sock

unfoldable pub tunnel_to : Bytes → FetchOptions → Bytes → ℤ → Socket → Result Bytes Socket
unfolding tunnelled
tunnel_to port_error opt host (negsuc n) sock = err port_error
tunnel_to port_error opt host (pos port) sock =
    if port == 0 || ltb 65535 port
    then err port_error
    else tunnelled (proxy_handshake host port opt.proxy.user opt.proxy.pass sock)

unfoldable pub tunnel : Bytes → FetchOptions → ParsedUrl → Socket → Result Bytes Socket
unfolding tunnel_to
tunnel port_error opt url sock =
    if opt.proxy.enabled
    then tunnel_to port_error opt url.host (from_chars_or (pos 0) url.port) sock
    else ok sock

-- `H2Profile` as the requests read it.
unfoldable pub priority_of : H2Profile → Option Priority
priority_of h2 =
    if h2.send_priority
    then some (record {
      dep = h2.priority_dep;
      weight = h2.priority_weight;
      exclusive = h2.priority_exclusive;
    })
    else none

unfoldable pub endpoint_host : FetchOptions → ParsedUrl → Bytes
endpoint_host opt url = if opt.proxy.enabled then opt.proxy.host else url.host

unfoldable pub endpoint_port : FetchOptions → ParsedUrl → Bytes
endpoint_port opt url = if opt.proxy.enabled then to_string opt.proxy.port else url.port

unfoldable pub no_tunnel_port : ParsedUrl → Bytes
no_tunnel_port url = codes "invalid target port: " ++ url.port

module _ {Session : Type 0} (o : Outside Session) where
  -- `nghttp2_client::nghttp2_client`: the settings of the profile, and a window update if it has one.
  unfoldable pub new_client : Bytes → H2Profile → Session → Client Session
  unfolding priority_of
  new_client host h2 session =
      let settled = o.submit_settings session h2.frame_settings in
      let widened =
        if ltb 0 h2.connection_window_increment
        then o.submit_window_update settled h2.connection_window_increment
        else settled in
      record {
        session = o.session_send widened;
        submitted = [];
        host = host;
        priority = priority_of h2;
        running = true;
        goaway = false;
        redirect_url = [];
        responses = [];
      }

  -- The TLS connection is there; over `h2` it gets a client.
  unfoldable pub client_for : TlsConfig → Session → ParsedUrl → Net Session → Net Session
  unfolding new_client
  client_for profile session url net =
      if beq net.conn.protocol (codes "h2")
      then record net {
        conn = record net.conn { h2 = some (new_client url.host profile.h2 session) };
        trace = client_opened ∷ net.trace;
      }
      else net

  unfoldable pub after_handshake :
      TlsConfig → Dial Session → ParsedUrl → Net Session → Net Session × Option Bytes
  unfolding client_for
  after_handshake profile d url net = elim d.tls_protocol [
    | none ↦ (teardown_connection net, some (codes "SSL handshake failed"))
    | some protocol ↦ (
      client_for profile d.new_session url (record net {
        conn = record net.conn {
          ssl = true;
          protocol = protocol;
          conn_host = url.host;
          conn_port = url.port;
        };
        trace = tls_opened url.host url.port ∷ net.trace;
      }),
      none,
    )
  ]

  unfoldable pub after_tunnel :
      TlsConfig → Dial Session → ParsedUrl → Net Session → Net Session × Option Bytes
  unfolding after_handshake
  after_tunnel profile d url net = elim d.tls_client_error [
    | some what ↦ (teardown_connection net, some (codes "TLS client init failed: " ++ what))
    | none ↦
        after_handshake profile d url (record net { conn = record net.conn { ssl_client = true } })
  ]

  -- The connection attempt of number `dialled`; the answer is the error, if there is one.
  unfoldable pub connected :
      Bytes
      → FetchOptions
      → TlsConfig
      → Dial Session
      → ParsedUrl
      → Net Session
      → Net Session × Option Bytes
  unfolding after_tunnel tunnel
  connected port_error opt profile d url net = elim d.reached [
    | err what ↦ (net, some (codes "connect failed: " ++ what))
    | ok sock ↦
        let open_net = record net {
          conn = record net.conn { sock = some sock };
          trace = socket_opened ∷ net.trace;
        } in
        elim (tunnel port_error opt url sock) [
          | err what ↦ (teardown_connection open_net, some what)
          | ok through ↦
              after_tunnel profile d url
                (record open_net { conn = record open_net.conn { sock = some through } })
        ]
  ]

  unfoldable pub connect :
      Bytes → FetchOptions → TlsConfig → ParsedUrl → Net Session → Net Session × Option Bytes
  unfolding connected endpoint_host endpoint_port
  connect port_error opt profile url net =
      let closed = teardown_connection net in
      connected port_error opt profile
        (o.dial net.dialled (endpoint_host opt url) (endpoint_port opt url)) url
        (record closed { dialled = net.dialled + 1 })

  -- `if (!reuse) …`
  unfoldable pub ensure_connection :
      Bytes → FetchOptions → TlsConfig → ParsedUrl → Net Session → Net Session × Option Bytes
  unfolding reuse connect
  ensure_connection port_error opt profile url net =
      if reuse opt url net.conn then (net, none) else connect port_error opt profile url net
