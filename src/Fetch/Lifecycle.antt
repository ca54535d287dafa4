-- ===== src/Fetch/Lifecycle.antt =====
-- fetcher.cpp: in which order a connection is opened, used and closed. The phases are the specification; the
-- code keeps no phase, only its pointers.
pub mod Connect
pub mod Hops
pub mod Pages
pub mod Multi
pub mod Decided
pub mod Complete
use bw_fetcher.Url.{ParsedUrl}
use bw_fetcher.Http2.{all_to}
use bw_fetcher.Fetch.{
  socket_opened, socket_closed, tls_opened, tls_closed, client_opened, client_closed, request_sent,
  no_net, ParsedUrl, submitted_of,
}
use bw_fetcher.Fetch.{
  Effect, ConnectionState, Net, teardown_connection, tls_opened, is_some, note_if, teardown_trace,
  no_connection, request_sent, socket_closed, tls_closed, client_closed,
}
use bw_fetcher.Base.{
  ℕ, zero, suc, ◌+◌, ◌-◌, ◌*◌, ◌≤◌, ◌<◌, ◌≡◌, ◌≢◌, ◌↔◌, ◌⊎◌, inl, inr, refl, sym, ap, ap₂, ◌∙◌,
  Bool, true, false, not, ◌&&◌, ◌||◌, Option, none, some, List, [], ◌∷◌, ◌++◌, map, arith, ltb, leb,
  ◌==◌, if◌then◌else◌, Bool-cases, Option-cases, Bytes, codes, length, bytes_key, nat_key, pair_key,
  beq, every,
}

pub data Phase : Type 0 where
  down connected_to : Phase
  secured_to talking_to : (host port : Bytes) → Phase

-- What may happen when: a page or an extra URL is requested from the host and port that the connection was made for,
-- and a client that is closed has submitted requests for that host only.
unfoldable pub next_phase : Phase → Effect → Option Phase
next_phase down socket_opened = some connected_to
next_phase connected_to socket_closed = some down
next_phase connected_to (tls_opened host port) = some (secured_to host port)
next_phase (secured_to host port) tls_closed = some connected_to
next_phase (secured_to host port) client_opened = some (talking_to host port)
next_phase (talking_to host port) (client_closed submitted) =
    if all_to host submitted then some (secured_to host port) else none
next_phase (talking_to host port) (request_sent to_host to_port) =
    if beq to_host host && beq to_port port then some (talking_to host port) else none
next_phase _ _ = none

abbrev pub then_phase : Option Phase → Effect → Option Phase
then_phase none e = none
then_phase (some p) e = next_phase p e

-- The phase after a trace, the newest effect first; `none` where something happened out of order.
unfoldable pub phase_after : List Effect → Option Phase
phase_after [] = some down
phase_after (e ∷ trace) = then_phase (phase_after trace) e

unfoldable pub phase_at : (has_sock has_ssl has_client : Bool) (host port : Bytes) → Phase
phase_at false _ _ host port = down
phase_at true false _ host port = connected_to
phase_at true true false host port = secured_to host port
phase_at true true true host port = talking_to host port

abbrev pub phase_of : {Session : Type 0} → ConnectionState Session → Phase
phase_of conn =
    phase_at (is_some conn.sock) conn.ssl (is_some conn.h2) conn.conn_host conn.conn_port

-- The pointers agree with the trace, no TLS connection is without a socket, and there is a client where there is
-- a TLS connection over h2. What that client has submitted is all for the connection's host.
pub record InStep {Session : Type 0} (net : Net Session) : Type 0 where
  pub in_order : phase_after net.trace ≡ some (phase_of net.conn)
  pub ssl_on_sock : net.conn.ssl ≡ true → is_some net.conn.sock ≡ true
  pub client_on_ssl : is_some net.conn.h2 ≡ true → net.conn.ssl ≡ true
  pub client_is_h2 : is_some net.conn.h2 ≡ beq net.conn.protocol (codes "h2")
  pub addressed : all_to net.conn.conn_host (submitted_of net.conn.h2) ≡ true

note_if-down :
    (a b c : Bool) (host port : Bytes) (submitted : List ParsedUrl) (trace : List Effect)
    → all_to host submitted ≡ true
    → phase_after trace ≡ some (phase_at a b c host port)
    → (b ≡ true → a ≡ true)
    → (c ≡ true → b ≡ true)
    → phase_after
        (note_if a socket_closed (note_if b tls_closed (note_if c (client_closed submitted) trace)))
      ≡ some down
unfolding phase_after next_phase phase_at
note_if-down false false false host port l trace t h f g = h
note_if-down true false false host port l trace t h f g = rw h refl
note_if-down true true false host port l trace t h f g = rw h refl
note_if-down true true true host port l trace t h f g = rw (h, t) refl
note_if-down false true c host port l trace t h f g = let x = f refl in cc
note_if-down a false true host port l trace t h f g = let x = g refl in cc

-- A torn down connection is closed in order, whatever of it was there.
pub teardown_connection-down :
    {Session : Type 0}
    → (net : Net Session) → InStep net
    → phase_after (teardown_connection net).trace ≡ some down
unfolding teardown_connection teardown_trace
teardown_connection-down net s =
    note_if-down (is_some net.conn.sock) net.conn.ssl (is_some net.conn.h2) net.conn.conn_host
      net.conn.conn_port (submitted_of net.conn.h2) net.trace s.addressed s.in_order s.ssl_on_sock
      s.client_on_ssl

pub no_net-InStep : {Session : Type 0} → InStep (no_net {Session = Session})
unfolding phase_after phase_at beq every
no_net-InStep = record {
  in_order = refl;
  ssl_on_sock = λ t. cc;
  client_on_ssl = λ t. cc;
  client_is_h2 = refl;
  addressed = refl;
}

pub teardown_connection-InStep :
    {Session : Type 0} → (net : Net Session) → InStep net → InStep (teardown_connection net)
unfolding teardown_connection phase_at beq every
teardown_connection-InStep net s = record {
  in_order = teardown_connection-down net s;
  ssl_on_sock = λ t. cc;
  client_on_ssl = λ t. cc;
  client_is_h2 = refl;
  addressed = refl;
}
