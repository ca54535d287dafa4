-- ===== src/Socks/Tunnel.antt =====
-- The handshake against a proxy that follows RFC 1928 and RFC 1929.
use bw_fetcher.Base.{
  ◌<◌, ◌⊎◌, pair_key, ℕ, ◌+◌, ◌≡◌, refl, Bool, true, false, not, none, [], ◌∷◌, ◌++◌, arith, ◌==◌,
  Bytes, length, bytes_key, nat_key, subst, length-append, append-nil,
}
use bw_fetcher.Socket.{Socket, M, ◌>>=◌, pure, recv_exact}
use bw_fetcher.Socket.Talks.{
  IsReady, Succeeds, Talks, pure-Talks, bind-Talks, recv_exact-Talks, send_then-Talks,
}
use bw_fetcher.Socks.{
  guard, byte_at, have_creds, too_long, greeting, choose_method, auth_packet, authenticate,
  follow_method, connect_request, skip, skip_address, connect_through, proxy_handshake,
}

-- BND.ADDR and BND.PORT of a reply: an address with its port, or a name and a port.
pub data Bound : Type 0 where
  ipv4 ipv6 : Bytes → Bound
  domain : Bytes → Bytes → Bound

abbrev pub IsBound : Bound → Type 0
IsBound (ipv4 b) = length b ≡ 6
IsBound (ipv6 b) = length b ≡ 18
IsBound (domain name port) = length port ≡ 2

abbrev pub atyp : Bound → ℕ
atyp (ipv4 b) = 0x01
atyp (ipv6 b) = 0x04
atyp (domain name port) = 0x03

-- A name goes behind its length.
abbrev pub wire : Bound → Bytes
wire (ipv4 b) = b
wire (ipv6 b) = b
wire (domain name port) = length name ∷ (name ++ port)

abbrev pub granted : Bound → Bytes
granted bound = 0x05 ∷ 0x00 ∷ 0x00 ∷ atyp bound ∷ wire bound

guard-Talks : (b : Bool) → b ≡ true → Talks (guard b) tt [] []
guard-Talks true e = pure-Talks tt
guard-Talks false e = cc

-- A guard that holds, and what follows.
guard_then-Talks :
    {B : Type 0} (c : Bool) (k : M B) (b : B) (read sent : Bytes)
    → c ≡ true
    → Talks k b read sent
    → Talks (guard c >>= λ _. k) b read sent
guard_then-Talks true k b read sent e h = h
guard_then-Talks false k b read sent e h = cc

skip-Talks : (b : Bytes) (n : ℕ) → length b ≡ n → Talks (skip n) tt b []
unfolding skip
skip-Talks b n e =
    let t =
      bind-Talks (recv_exact (length b)) (λ _. pure tt) b tt b [] [] [] (recv_exact-Talks b)
        (pure-Talks tt) in
    subst (λ k. Talks (skip k) tt b []) e (rw append-nil at t)

skip_address-Talks :
    (bound : Bound) → IsBound bound → Talks (skip_address (atyp bound)) tt (wire bound) []
unfolding skip_address
skip_address-Talks (ipv4 b) h = skip-Talks b 6 h
skip_address-Talks (ipv6 b) h = skip-Talks b 18 h
skip_address-Talks (domain name port) h =
    bind-Talks (recv_exact 1) (λ l. skip (byte_at 0 l + 2)) (length name ∷ []) tt (length name ∷ [])
      (name ++ port) [] [] (recv_exact-Talks (length name ∷ []))
      (skip-Talks (name ++ port) (length name + 2) (omega (arith, length-append name port)))

choose_method-Talks :
    (creds : Bool) (m : ℕ)
    → (m == 0xff) ≡ false
    → Talks (choose_method creds) m (0x05 ∷ m ∷ []) (greeting creds)
unfolding choose_method
choose_method-Talks creds m h =
    let reply : Bytes = 0x05 ∷ m ∷ [] in
    send_then-Talks (greeting creds) _ m reply (
      bind-Talks (recv_exact 2) _ reply m reply [] [] [] (recv_exact-Talks reply) (
        guard_then-Talks true _ m [] [] refl
          (guard_then-Talks (not (m == 0xff)) _ m [] [] (rw h) (pure-Talks m))))

authenticate-Talks :
    (user pass : Bytes) (ver : ℕ)
    → Talks (authenticate user pass) tt (ver ∷ 0x00 ∷ []) (auth_packet user pass)
unfolding authenticate
authenticate-Talks user pass ver =
    let reply : Bytes = ver ∷ 0x00 ∷ [] in
    send_then-Talks (auth_packet user pass) _ tt reply (
      bind-Talks (recv_exact 2) _ reply tt reply [] [] [] (recv_exact-Talks reply)
        (guard-Talks true refl))

connect_through-Talks :
    (host : Bytes) (port : ℕ) (bound : Bound)
    → IsBound bound
    → Talks (connect_through host port) tt (granted bound) (connect_request host port)
unfolding connect_through
connect_through-Talks host port bound h =
    let header : Bytes = 0x05 ∷ 0x00 ∷ 0x00 ∷ atyp bound ∷ [] in
    send_then-Talks (connect_request host port) _ tt (granted bound) (
      bind-Talks (recv_exact 4) _ header tt header (wire bound) [] [] (recv_exact-Talks header)
        (guard_then-Talks true _ tt (wire bound) [] refl (skip_address-Talks bound h)))

-- What a proxy answers when it takes a method, with the credentials accepted.
pub data Method : Type 0 where
  no_auth : Method
  user_pass : ℕ → Method

abbrev pub code_of : Method → ℕ
code_of no_auth = 0x00
code_of (user_pass ver) = 0x02

abbrev pub accepted : Method → Bytes
accepted no_auth = []
accepted (user_pass ver) = ver ∷ 0x00 ∷ []

abbrev pub credentials : Method → Bytes → Bytes → Bytes
credentials no_auth user pass = []
credentials (user_pass ver) user pass = auth_packet user pass

-- A client without credentials is never asked for them.
abbrev pub MayChoose : Method → Bool → Type 0
MayChoose no_auth creds = Unit
MayChoose (user_pass ver) creds = creds ≡ true

follow_method-Talks :
    (user pass : Bytes) (m : Method)
    → MayChoose m (have_creds user pass)
    → Talks (follow_method user pass (code_of m)) tt (accepted m) (credentials m user pass)
unfolding follow_method
follow_method-Talks user pass no_auth h = guard-Talks true refl
follow_method-Talks user pass (user_pass ver) h =
    guard_then-Talks (have_creds user pass) (authenticate user pass) tt (ver ∷ 0x00 ∷ [])
      (auth_packet user pass) h (authenticate-Talks user pass ver)

code_of-ne-rejected : (m : Method) → (code_of m == 0xff) ≡ false
code_of-ne-rejected no_auth = refl
code_of-ne-rejected (user_pass ver) = refl

proxy_handshake-Talks :
    (host : Bytes) (port : ℕ) (user pass : Bytes) (m : Method) (bound : Bound)
    → too_long user pass host ≡ false
    → MayChoose m (have_creds user pass)
    → IsBound bound
    → Talks
        (proxy_handshake host port user pass)
        tt
        ((0x05 ∷ code_of m ∷ []) ++ (accepted m ++ granted bound))
        (greeting (have_creds user pass) ++ (credentials m user pass ++ connect_request host port))
unfolding proxy_handshake
proxy_handshake-Talks host port user pass m bound l c h =
    guard_then-Talks (not (too_long user pass host)) _ tt
      ((0x05 ∷ code_of m ∷ []) ++ (accepted m ++ granted bound))
      (greeting (have_creds user pass) ++ (credentials m user pass ++ connect_request host port))
      (rw l)
      (bind-Talks (choose_method (have_creds user pass)) _ (code_of m) tt (0x05 ∷ code_of m ∷ [])
        (accepted m ++ granted bound) (greeting (have_creds user pass))
        (credentials m user pass ++ connect_request host port)
        (choose_method-Talks (have_creds user pass) (code_of m) (code_of-ne-rejected m))
        (bind-Talks (follow_method user pass (code_of m)) _ tt tt (accepted m) (granted bound)
          (credentials m user pass) (connect_request host port) (follow_method-Talks user pass m c)
          (connect_through-Talks host port bound h)))

-- Against a proxy that takes a method that was offered, accepts the credentials if it asks for
-- them, and grants the request with any bound address, on a connection that stays open and takes the
-- bytes, the handshake succeeds however the bytes are divided into segments. It sends exactly the
-- greeting, the credentials if asked for, and the request, and it reads exactly the answers: what
-- follows them is left for TLS.
pub proxy_handshake_lem :
    (host : Bytes) (port : ℕ) (user pass : Bytes) (m : Method) (bound : Bound) (s : Socket)
    (rest : Bytes) (n : ℕ)
    → too_long user pass host ≡ false
    → MayChoose m (have_creds user pass)
    → IsBound bound
    → IsReady
        ((0x05 ∷ code_of m ∷ (accepted m ++ granted bound)) ++ rest)
        (length (
            greeting (have_creds user pass)
            ++ (credentials m user pass ++ connect_request host port))
          + n)
        s
    → Succeeds
        (proxy_handshake host port user pass)
        tt
        rest
        (greeting (have_creds user pass) ++ (credentials m user pass ++ connect_request host port))
        n
        s
proxy_handshake_lem host port user pass m bound s rest n l c h r =
    proxy_handshake-Talks host port user pass m bound l c h s rest n r

-- A user, a password or a host of more than 255 bytes is refused, whatever the socket.
pub proxy_handshake-too_long :
    (host : Bytes) (port : ℕ) (user pass : Bytes) (s : Socket)
    → (255 < length user) ⊎ ((255 < length pass) ⊎ (255 < length host))
    → proxy_handshake host port user pass s ≡ none
unfolding proxy_handshake
proxy_handshake-too_long host port user pass s h =
    let long : too_long user pass host ≡ true = unfold too_long in ground (arith, h) in rw long refl
