-- ===== src/Socket/Talks.antt =====
-- Dialogues: an action that reads some bytes and sends some, however the socket cuts them up.
use bw_fetcher.Base.{
  ℕ, ◌+◌, ◌≤◌, ◌≡◌, refl, sym, ap, ap₂, ◌∙◌, some, [], ◌∷◌, ◌++◌, arith, Bytes, length, bytes_key,
  nat_key, length-append, append-nil, append_assoc, subst,
}
use bw_fetcher.Socket.{Socket, M, ◌>>=◌, pure, recv_exact, send_all}
use bw_fetcher.Socket.Exact.{joined, Open, AllPositive, bind-some, recv_exact-Reads, send_all-Sends}

-- A socket on which the peer's bytes are `bytes`, and that takes `n` bytes.
pub record IsReady (bytes : Bytes) (n : ℕ) (s : Socket) : Type 0 where
  pub still_open : Open s.incoming
  pub arrives : joined s.incoming ≡ bytes
  pub positive : AllPositive s.accepts
  pub enough : n ≤ length s.accepts

-- The action succeeds, and leaves the bytes `rest` unread and `n` more to be taken.
pub record Succeeds {A : Type 0} (m : M A) (a : A) (rest sent : Bytes) (n : ℕ) (s : Socket)
    : Type 0 where
  pub after : Socket
  pub is_some : m s ≡ some (a, after)
  pub ready : IsReady rest n after
  pub sends : after.sent ≡ s.sent ++ sent

-- The action returns `a`, reads exactly `read` and sends exactly `sent`, on every ready socket.
abbrev pub Talks : {A : Type 0} → M A → A → Bytes → Bytes → Type 0
Talks m a read sent =
    (s : Socket) (rest : Bytes) (n : ℕ)
    → IsReady (read ++ rest) (length sent + n) s
    → Succeeds m a rest sent n s

pub pure-Talks : {A : Type 0} (a : A) → Talks (pure a) a [] []
pure-Talks a s rest n r = record {
  after = s;
  is_some = refl;
  ready = record {
    still_open = r.still_open;
    arrives = r.arrives;
    positive = r.positive;
    enough = omega (arith, r.enough);
  };
  sends = sym (append-nil s.sent);
}

pub bind-Talks :
    {A B : Type 0} (m : M A) (f : A → M B) (a : A) (b : B) (r₁ r₂ w₁ w₂ : Bytes)
    → Talks m a r₁ w₁
    → Talks (f a) b r₂ w₂
    → Talks (m >>= f) b (r₁ ++ r₂) (w₁ ++ w₂)
bind-Talks m f a b r₁ r₂ w₁ w₂ h k s rest n r =
    let x = h s (r₂ ++ rest) (length w₂ + n) (record {
      still_open = r.still_open;
      arrives = r.arrives ∙ append_assoc r₁ r₂ rest;
      positive = r.positive;
      enough = omega (arith, r.enough, length-append w₁ w₂);
    }) in
    let y = k x.after rest n x.ready in
    record {
      after = y.after;
      is_some = bind-some m f x.is_some ∙ y.is_some;
      ready = y.ready;
      sends = y.sends ∙ ap (λ u. u ++ w₂) x.sends ∙ append_assoc s.sent w₁ w₂;
    }

pub send_all-Talks : (bytes : Bytes) → Talks (send_all bytes) tt [] bytes
send_all-Talks bytes s rest n r =
    let x = send_all-Sends bytes s r.positive (omega (arith, r.enough)) in
    record {
      after = record s { accepts = x.accepts; sent = s.sent ++ bytes };
      is_some = x.is_some;
      ready = record {
        still_open = r.still_open;
        arrives = r.arrives;
        positive = x.positive;
        enough = omega (arith, r.enough, x.enough);
      };
      sends = refl;
    }

-- Sending, and then reading only.
pub send_then-Talks :
    {B : Type 0} (bytes : Bytes) (k : M B) (b : B) (read : Bytes)
    → Talks k b read []
    → Talks (send_all bytes >>= λ _. k) b read bytes
send_then-Talks bytes k b read h =
    subst (λ w. Talks (send_all bytes >>= λ _. k) b read w) (append-nil bytes)
      (bind-Talks (send_all bytes) (λ _. k) tt b [] read bytes [] (send_all-Talks bytes) h)

-- Two texts of one length at the front of one text are one.
append-prefix : (a b c d : Bytes) → length a ≡ length b → a ++ c ≡ b ++ d → (a ≡ b) × (c ≡ d)
append-prefix [] [] c d l e = (refl, e)
append-prefix [] (y ∷ b) c d l e = absurd (omega arith)
append-prefix (x ∷ a) [] c d l e = absurd (omega arith)
append-prefix (x ∷ a) (y ∷ b) c d l e =
    let h = append-prefix a b c d (omega arith) cc in (ap₂ (λ u v. u ∷ v) (cc) h.0, h.1)

pub recv_exact-Talks : (bytes : Bytes) → Talks (recv_exact (length bytes)) bytes bytes []
recv_exact-Talks bytes s rest n r =
    let x =
      recv_exact-Reads (length bytes) s r.still_open
        (rw r.arrives (omega (arith, length-append bytes rest))) in
    let (same, later) =
      append-prefix x.bytes bytes (joined x.left) rest x.exact (sym x.splits ∙ r.arrives) in
    record {
      after = record s { incoming = x.left };
      is_some = x.is_some ∙ ap (λ b. some (b, record s { incoming = x.left })) same;
      ready = record {
        still_open = x.still_open;
        arrives = later;
        positive = r.positive;
        enough = omega (arith, r.enough);
      };
      sends = sym (append-nil s.sent);
    }
