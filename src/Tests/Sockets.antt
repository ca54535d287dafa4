-- ===== src/Tests/Sockets.antt =====
-- Sockets and the proxy.
use bw_fetcher.Socket.Talks.{Succeeds}
use bw_fetcher.Socks.Tunnel.{
  proxy_handshake-too_long, credentials, no_auth, proxy_handshake_lem, ipv4,
}
use bw_fetcher.Socks.{greeting, proxy_handshake, have_creds, connect_request, too_long}
use bw_fetcher.Socket.Exact.{Reads, Sends, recv_exact-Reads, send_all-Sends}
use bw_fetcher.Socket.{Socket, recv_exact, send_all}
use bw_fetcher.Base.{
  inr, ◌≡◌, refl, none, [], ◌∷◌, ◌++◌, arith, Bytes, codes, bytes_key, nat_key, pair_key, replicate,
}

-- Two segments, the first of one byte.
abbrev two_segments : Socket
two_segments = record { incoming = (1 ∷ []) ∷ (2 ∷ 3 ∷ []) ∷ []; accepts = 1 ∷ 9 ∷ []; sent = [] }

recv_exact-Reads_example : Reads 2 (recv_exact 2) two_segments
recv_exact-Reads_example =
    recv_exact-Reads 2 two_segments ((λ e. cc), ((λ e. cc), tt)) (omega arith)

send_all-Sends_example : Sends (7 ∷ 8 ∷ []) (send_all (7 ∷ 8 ∷ [])) two_segments
send_all-Sends_example =
    send_all-Sends (7 ∷ 8 ∷ []) two_segments (omega arith, (omega arith, tt)) (omega arith)

-- A proxy that asks for nothing and grants, with a byte of TLS behind its answers.
abbrev granting : Socket
granting = record {
  incoming =
      (0x05 ∷ [])
      ∷ (0x00 ∷ 0x05 ∷ 0x00 ∷ 0x00 ∷ 0x01 ∷ 1 ∷ 2 ∷ 3 ∷ [])
      ∷ (4 ∷ 5 ∷ 6 ∷ 0x16 ∷ [])
      ∷ [];
  accepts = replicate 11 1;
  sent = [];
}

proxy_handshake_lem_example :
    Succeeds
      (proxy_handshake (codes "h") 443 [] [])
      tt
      (0x16 ∷ [])
      (greeting (have_creds [] [])
        ++ (credentials no_auth [] [] ++ connect_request (codes "h") 443))
      0
      granting
unfolding greeting have_creds connect_request
proxy_handshake_lem_example =
    proxy_handshake_lem (codes "h") 443 [] [] no_auth (ipv4 (1 ∷ 2 ∷ 3 ∷ 4 ∷ 5 ∷ 6 ∷ [])) granting
      (0x16 ∷ []) 0 (unfold too_long in refl) tt refl
      (record {
        still_open = ((λ e. cc), ((λ e. cc), ((λ e. cc), tt)));
        arrives = refl;
        positive = (
          omega arith,
          (
            omega arith,
            (
              omega arith,
              (
                omega arith,
                (
                  omega arith,
                  (
                    omega arith,
                    (omega arith, (omega arith, (omega arith, (omega arith, (omega arith, tt))))),
                  ),
                ),
              ),
            ),
          ),
        );
        enough = omega arith;
      })

abbrev long_host : Bytes
long_host = replicate 256 b'h'

proxy_handshake-too_long_example : proxy_handshake long_host 443 [] [] granting ≡ none
proxy_handshake-too_long_example =
    proxy_handshake-too_long long_host 443 [] [] granting (inr (inr (omega arith)))
