-- ===== src/Socks.antt =====
-- PROXY/proxy_socket5_handshake.cpp: `proxy_handshake`. The messages on stderr are left out; a
-- failed step is `fail`, where the function returns false.
pub mod Tunnel
use bw_fetcher.Base.{
  ℕ, zero, suc, ◌+◌, ◌-◌, ◌*◌, ◌≤◌, ◌<◌, ◌≡◌, ◌≢◌, ◌↔◌, ◌⊎◌, inl, inr, refl, sym, ap, ap₂, ◌∙◌,
  Bool, true, false, not, ◌&&◌, ◌||◌, Option, none, some, List, [], ◌∷◌, ◌++◌, map, arith, ltb, leb,
  ◌==◌, if◌then◌else◌, Bool-cases, Option-cases, Bytes, codes, length, bytes_key, nat_key, ◌/◌, ◌%◌,
  is_empty,
}
use bw_fetcher.Socket.{Socket, M, ◌>>=◌, ◌>>◌, pure, fail, recv_exact, send_all}

abbrev pub guard : Bool → M (Unit {0})
guard b = if b then pure tt else fail

-- A byte of a buffer that `recv_exact` filled.
unfoldable pub byte_at : ℕ → Bytes → ℕ
byte_at i [] = 0
byte_at zero (c ∷ s) = c
byte_at (suc i) (c ∷ s) = byte_at i s

unfoldable pub have_creds : Bytes → Bytes → Bool
have_creds user pass = not (is_empty user) || not (is_empty pass)

unfoldable pub too_long : Bytes → Bytes → Bytes → Bool
too_long user pass target_host =
    ltb 255 (length user) || ltb 255 (length pass) || ltb 255 (length target_host)

-- 1. The greeting.
unfoldable pub greeting : Bool → Bytes
greeting creds = if creds then 0x05 ∷ 0x02 ∷ 0x00 ∷ 0x02 ∷ [] else 0x05 ∷ 0x01 ∷ 0x00 ∷ []

unfoldable pub choose_method : Bool → M ℕ
unfolding greeting byte_at
choose_method creds = do
  send_all (greeting creds)
  method_resp ← recv_exact 2
  guard (byte_at 0 method_resp == 0x05)
  guard (not (byte_at 1 method_resp == 0xff))
  pure (byte_at 1 method_resp)

-- 2. The sub-negotiation.
unfoldable pub auth_packet : Bytes → Bytes → Bytes
auth_packet user pass = 0x01 ∷ length user ∷ (user ++ (length pass ∷ pass))

unfoldable pub authenticate : Bytes → Bytes → M (Unit {0})
unfolding auth_packet byte_at
authenticate user pass = do
  send_all (auth_packet user pass)
  auth_resp ← recv_exact 2
  guard (byte_at 1 auth_resp == 0x00)

unfoldable pub follow_method : Bytes → Bytes → ℕ → M (Unit {0})
unfolding have_creds
follow_method user pass chosen =
    if chosen == 0x02
    then (do guard (have_creds user pass); authenticate user pass)
    else guard (chosen == 0x00)

-- 3. The request; the port in network order.
unfoldable pub connect_request : Bytes → ℕ → Bytes
connect_request target_host target_port =
    0x05
    ∷ 0x01
    ∷ 0x00
    ∷ 0x03
    ∷ length target_host
    ∷ (target_host ++ (target_port / 256 ∷ target_port % 256 ∷ []))

-- 4. The bound address is read and dropped.
unfoldable pub skip : ℕ → M (Unit {0})
skip n = do recv_exact n >>= λ _. pure tt

unfoldable pub skip_address : ℕ → M (Unit {0})
unfolding skip byte_at
skip_address atyp =
    if atyp == 0x01
    then skip 6
    else if atyp == 0x03
    then (do domain_len ← recv_exact 1; skip (byte_at 0 domain_len + 2))
    else if atyp == 0x04
    then skip 18
    else fail

unfoldable pub connect_through : Bytes → ℕ → M (Unit {0})
unfolding connect_request skip_address byte_at
connect_through target_host target_port = do
  send_all (connect_request target_host target_port)
  resp_hdr ← recv_exact 4
  guard (byte_at 1 resp_hdr == 0x00)
  skip_address (byte_at 3 resp_hdr)

unfoldable pub proxy_handshake : Bytes → ℕ → Bytes → Bytes → M (Unit {0})
unfolding too_long
proxy_handshake target_host target_port user pass = do
  guard (not (too_long user pass target_host))
  chosen ← choose_method (have_creds user pass)
  follow_method user pass chosen
  connect_through target_host target_port
