-- ===== src/Socket/Exact.antt =====
-- `recv_exact` and `send_all` do not depend on how the bytes are cut into pieces.
use bw_fetcher.Base.{
  ℕ, zero, suc, ◌+◌, ◌-◌, ◌≤◌, ◌≡◌, ◌≢◌, refl, sym, ap, ◌∙◌, none, some, List, [], ◌∷◌, ◌++◌, arith,
  Bytes, length, bytes_key, nat_key, take, drop, length-append, length-drop, length-take,
  take-append-drop, append-nil, append_assoc,
}
use bw_fetcher.Socket.{
  Socket, M, recv, recv_rounds, recv_exact, send, send_rounds, send_all, ◌>>=◌, left_over,
  recv_from, send_to, shorter,
}

-- What has arrived, in one piece.
abbrev pub joined : List Bytes → Bytes
joined [] = []
joined (seg ∷ rest) = seg ++ joined rest

-- No segment is empty: the connection stays open.
abbrev pub Open : List Bytes → Type 0
Open [] = Unit
Open (seg ∷ rest) = (seg ≢ []) × Open rest

joined-left_over : (l : Bytes) (rest : List Bytes) → joined (left_over l rest) ≡ l ++ joined rest
unfolding left_over
joined-left_over [] rest = refl
joined-left_over (c ∷ cs) rest = refl

left_over-Open : (l : Bytes) (rest : List Bytes) → Open rest → Open (left_over l rest)
unfolding left_over
left_over-Open [] rest o = o
left_over-Open (c ∷ cs) rest o = (λ e. cc, o)

-- One `recv`: a piece that is not empty, and the rest stays.
record Received (n : ℕ) (incoming : List Bytes) (b : Bytes) (left : List Bytes) : Type 0 where
  is_some : recv_from n incoming ≡ some (b, left)
  some_bytes : 1 ≤ length b
  not_more : length b ≤ n
  splits : joined incoming ≡ b ++ joined left
  still_open : Open left

recv_from_lem :
    (n : ℕ) (incoming : List Bytes)
    → Open incoming
    → 1 ≤ length (joined incoming)
    → (b : Bytes) × (left : List Bytes) × Received (suc n) incoming b left
unfolding recv_from
recv_from_lem n [] o l = absurd (omega arith)
recv_from_lem n ([] ∷ rest) o l = absurd (o.0 refl)
recv_from_lem n ((c ∷ cs) ∷ rest) o l = (
  c ∷ take n cs,
  left_over (drop n cs) rest,
  record {
    is_some = refl;
    some_bytes = omega arith;
    not_more = omega (arith, length-take n cs);
    splits = rw (
      joined-left_over (drop n cs) rest,
      ← append_assoc (take n cs) (drop n cs) (joined rest),
      take-append-drop n cs,
    );
    still_open = left_over-Open (drop n cs) rest o.1;
  },
)

-- The result of reading `n` bytes exactly.
pub record Reads (n : ℕ) (m : M Bytes) (s : Socket) : Type 0 where
  pub bytes : Bytes
  pub left : List Bytes
  pub is_some : m s ≡ some (bytes, record s { incoming = left })
  pub exact : length bytes ≡ n
  pub splits : joined s.incoming ≡ bytes ++ joined left
  pub still_open : Open left

pub bind-some :
    {A B : Type 0} (m : M A) (f : A → M B) {a : A} {s t : Socket}
    → m s ≡ some (a, t)
    → (m >>= f) s ≡ f a t
bind-some m f {s = s} e = ap (λ o. elim o [ none ↦ none | some (a, t) ↦ f a t ]) e

recv-some :
    (n : ℕ) (s : Socket) {b : Bytes} {left : List Bytes}
    → recv_from n s.incoming ≡ some (b, left)
    → recv n s ≡ some (b, record s { incoming = left })
unfolding recv
recv-some n s e =
    ap (λ o. elim o [ none ↦ none | some (b, left) ↦ some (b, record s { incoming = left }) ]) e

recv_rounds-Reads :
    (fuel n : ℕ) (s : Socket)
    → n ≤ fuel
    → Open s.incoming
    → n ≤ length (joined s.incoming)
    → Reads n (recv_rounds fuel n) s
unfolding recv_rounds
recv_rounds-Reads fuel zero s f o l = record {
  bytes = [];
  left = s.incoming;
  is_some = refl;
  exact = refl;
  splits = refl;
  still_open = o;
}
recv_rounds-Reads zero (suc n) s f o l = absurd (omega arith)
recv_rounds-Reads (suc fuel) (suc n) s f o l =
    let (b, left, r) = recv_from_lem n s.incoming o (omega arith) in
    let total : length (joined s.incoming) ≡ length b + length (joined left) =
      ap (λ t. length t) r.splits ∙ length-append b (joined left) in
    let rest =
      recv_rounds-Reads fuel (suc n - length b) (record s { incoming = left })
        (omega (arith, r.some_bytes)) r.still_open (omega (arith, total)) in
    record {
      bytes = b ++ rest.bytes;
      left = rest.left;
      is_some =
          bind-some (recv (suc n)) _ (recv-some (suc n) s r.is_some)
          ∙ bind-some (recv_rounds fuel (suc n - length b)) _ rest.is_some;
      exact = omega (arith, rest.exact, length-append b rest.bytes, r.not_more);
      splits =
          r.splits
          ∙ ap (λ t. b ++ t) rest.splits
          ∙ sym (append_assoc b rest.bytes (joined rest.left));
      still_open = rest.still_open;
    }

-- If the connection stays open and `n` bytes arrive, then `recv_exact` ends with exactly `n` bytes,
-- the first ones, and leaves all the others, however they were cut into segments.
pub recv_exact-Reads :
    (n : ℕ) (s : Socket)
    → Open s.incoming
    → n ≤ length (joined s.incoming)
    → Reads n (recv_exact n) s
unfolding recv_exact
recv_exact-Reads n s o l = recv_rounds-Reads n n s (omega arith) o l

-- Every `send` takes a byte at least.
abbrev pub AllPositive : List ℕ → Type 0
AllPositive [] = Unit
AllPositive (k ∷ rest) = (1 ≤ k) × AllPositive rest

-- The result of sending all of `bytes`: each call of `send` took a byte at least.
pub record Sends (bytes : Bytes) (m : M (Unit {0})) (s : Socket) : Type 0 where
  pub accepts : List ℕ
  pub is_some : m s ≡ some (tt, record s { accepts = accepts; sent = s.sent ++ bytes })
  pub positive : AllPositive accepts
  pub enough : length s.accepts ≤ length accepts + length bytes

-- One `send`.
record Taken (bytes : Bytes) (accepts : List ℕ) : Type 0 where
  count : ℕ
  later : List ℕ
  is_some : send_to accepts bytes ≡ some (count, later)
  some_bytes : 1 ≤ count
  not_more : count ≤ length bytes
  positive : AllPositive later
  one_call : length accepts ≡ suc (length later)

send_to-Taken :
    (bytes : Bytes) (accepts : List ℕ)
    → 1 ≤ length bytes
    → AllPositive accepts
    → 1 ≤ length accepts
    → Taken bytes accepts
unfolding send_to
send_to-Taken bytes [] l p n = absurd (omega arith)
send_to-Taken bytes (zero ∷ rest) l p n = absurd (omega (arith, p.0))
send_to-Taken bytes (suc k ∷ rest) l p n = record {
  count = shorter (suc k) (length bytes);
  later = rest;
  is_some = refl;
  some_bytes = ground arith;
  not_more = ground arith;
  positive = p.1;
  one_call = refl;
}

send-some :
    (bytes : Bytes) (s : Socket) {n : ℕ} {accepts : List ℕ}
    → send_to s.accepts bytes ≡ some (n, accepts)
    → send bytes s ≡ some (n, record s { accepts = accepts; sent = s.sent ++ take n bytes })
unfolding send
send-some bytes s e =
    ap
      (λ o. elim o [
        | none ↦ none
        | some (n, accepts) ↦
            some (n, record s { accepts = accepts; sent = s.sent ++ take n bytes })
      ])
      e

send_rounds-Sends :
    (fuel : ℕ) (bytes : Bytes) (s : Socket)
    → length bytes ≤ fuel
    → AllPositive s.accepts
    → length bytes ≤ length s.accepts
    → Sends bytes (send_rounds fuel bytes) s
unfolding send_rounds
send_rounds-Sends fuel [] s f p l = record {
  accepts = s.accepts;
  is_some = ap (λ t. some (tt, record s { sent = t })) (sym (append-nil s.sent));
  positive = p;
  enough = omega arith;
}
send_rounds-Sends zero (c ∷ cs) s f p l = absurd (omega arith)
send_rounds-Sends (suc fuel) (c ∷ cs) s f p l =
    let t = send_to-Taken (c ∷ cs) s.accepts (omega arith) p (omega arith) in
    let s' : Socket = record s { accepts = t.later; sent = s.sent ++ take t.count (c ∷ cs) } in
    let left : length (drop t.count (c ∷ cs)) ≡ length (c ∷ cs) - t.count =
      length-drop t.count (c ∷ cs) in
    let rest =
      send_rounds-Sends fuel (drop t.count (c ∷ cs)) s' (omega (arith, left, t.some_bytes))
        t.positive (omega (arith, left, t.some_bytes, t.one_call)) in
    record {
      accepts = rest.accepts;
      is_some =
          bind-some (send (c ∷ cs)) (λ n. send_rounds fuel (drop n (c ∷ cs)))
            (send-some (c ∷ cs) s t.is_some)
          ∙ rest.is_some
          ∙ ap (λ u. some (tt, record s { accepts = rest.accepts; sent = u }))
              (append_assoc s.sent (take t.count (c ∷ cs)) (drop t.count (c ∷ cs))
                ∙ ap (λ u. s.sent ++ u) (take-append-drop t.count (c ∷ cs)));
      positive = rest.positive;
      enough = omega (arith, rest.enough, left, t.some_bytes, t.not_more, t.one_call);
    }

-- If every `send` takes a byte at least, and there are as many of them as bytes, then `send_all`
-- ends, and all of the bytes are sent, in order.
pub send_all-Sends :
    (bytes : Bytes) (s : Socket)
    → AllPositive s.accepts
    → length bytes ≤ length s.accepts
    → Sends bytes (send_all bytes) s
unfolding send_all
send_all-Sends bytes s p l = send_rounds-Sends (length bytes) bytes s (omega arith) p l
