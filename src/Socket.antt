-- ===== src/Socket.antt =====
-- A blocking socket as the two loops of PROXY/proxy_socket5_handshake.cpp see it: `recv_exact` and
-- `send_all`. What the peer and the kernel do is part of the state: the segments in which the
-- peer's bytes arrive (an empty one, or none left, is a closed or failed connection), and how many
-- bytes each `send` accepts (0, or none left, is an error).
pub mod Exact
pub mod Talks
use bw_fetcher.Base.{
  ℕ, zero, suc, ◌+◌, ◌-◌, ◌*◌, ◌≤◌, ◌<◌, ◌≡◌, ◌≢◌, ◌↔◌, ◌⊎◌, inl, inr, refl, sym, ap, ap₂, ◌∙◌,
  Bool, true, false, not, ◌&&◌, ◌||◌, Option, none, some, List, [], ◌∷◌, ◌++◌, map, arith, ltb, leb,
  ◌==◌, if◌then◌else◌, Bool-cases, Option-cases, Bytes, codes, length, bytes_key, nat_key, take,
  drop, length-append, is_empty,
}

pub record Socket : Type 0 where
  pub incoming : List Bytes
  pub accepts : List ℕ
  pub sent : Bytes

-- An action that may fail (the program returns false, and its callers close the socket).
abbrev pub M : Type 0 → Type 0
M A = Socket → Option (A × Socket)

infixl 5 ◌>>=◌ ◌>>◌
abbrev pub ◌>>=◌ : {A : Type 0} → {B : Type 0} → M A → (A → M B) → M B
◌>>=◌ m f s = elim (m s) [ none ↦ none | some (a, t) ↦ f a t ]

abbrev pub ◌>>◌ : {B : Type 0} → M (Unit {0}) → M B → M B
m >> k = m >>= λ _. k

abbrev pub pure : {A : Type 0} → A → M A
pure a s = some (a, s)

abbrev pub fail : {A : Type 0} → M A
fail s = none

unfoldable pub left_over : Bytes → List Bytes → List Bytes
left_over [] rest = rest
left_over (c ∷ cs) rest = (c ∷ cs) ∷ rest

unfoldable pub recv_from : ℕ → List Bytes → Option (Bytes × List Bytes)
unfolding left_over
recv_from n [] = none
recv_from n ([] ∷ rest) = none
recv_from n ((c ∷ cs) ∷ rest) = some (take n (c ∷ cs), left_over (drop n (c ∷ cs)) rest)

-- `recv(sock, buf, n, 0)`: some of what has arrived, `none` for a result that is not positive.
unfoldable pub recv : ℕ → M Bytes
recv n s = elim (recv_from n s.incoming) [
  | none ↦ none
  | some (b, incoming) ↦ some (b, record s { incoming = incoming })
]

-- The loop reads at least a byte in each round, so `len` rounds are enough.
unfoldable pub recv_rounds : ℕ → ℕ → M Bytes
recv_rounds fuel zero = pure []
recv_rounds zero (suc n) = fail
recv_rounds (suc fuel) (suc n) = do
  b ← recv (suc n)
  bs ← recv_rounds fuel (suc n - length b)
  pure (b ++ bs)

unfoldable pub recv_exact : ℕ → M Bytes
recv_exact len = recv_rounds len len

abbrev pub shorter : ℕ → ℕ → ℕ
shorter a b = if leb a b then a else b

unfoldable pub send_to : List ℕ → Bytes → Option (ℕ × List ℕ)
send_to [] bytes = none
send_to (zero ∷ rest) bytes = none
send_to (suc k ∷ rest) bytes = some (shorter (suc k) (length bytes), rest)

-- `send(sock, buf, len, 0)`: the number of bytes taken.
unfoldable pub send : Bytes → M ℕ
send bytes s = elim (send_to s.accepts bytes) [
  | none ↦ none
  | some (n, accepts) ↦ some (n, record s { accepts = accepts; sent = s.sent ++ take n bytes })
]

unfoldable pub send_rounds : ℕ → Bytes → M (Unit {0})
send_rounds fuel [] = pure tt
send_rounds zero (c ∷ cs) = fail
send_rounds (suc fuel) (c ∷ cs) = do n ← send (c ∷ cs); send_rounds fuel (drop n (c ∷ cs))

unfoldable pub send_all : Bytes → M (Unit {0})
send_all bytes = send_rounds (length bytes) bytes
