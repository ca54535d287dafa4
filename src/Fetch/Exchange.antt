-- ===== src/Fetch/Exchange.antt =====
-- HTTP2_Client/http2_client.cpp: `run_event_loop` with the callbacks that a round makes, for the two kinds of
-- request that fetcher.cpp sends.
use bw_fetcher.Fetch.{Delivery, Turn}
use bw_fetcher.Base.{
  ◌≡◌, refl, Bool, true, false, not, Option, none, some, List, [], ◌∷◌, if◌then◌else◌, bytes_key,
  nat_key, pair_key, ℤ,
}
use bw_fetcher.Http2.Loop.{timed_out, breaks}

-- A request that is under way: what a delivery does to it, and its client.
pub record Listener (S : Type 0) : Type 0 where
  pub deliver : S → Delivery → S
  pub is_running : S → Bool
  pub receive : S → S
  pub flush : S → S

module _ {S : Type 0} (l : Listener S) where
  unfoldable pub deliver_all : S → List Delivery → S
  deliver_all s [] = s
  deliver_all s (d ∷ ds) = deliver_all (l.deliver s d) ds

  unfoldable pub received_turn : S → Turn → S
  unfolding deliver_all
  received_turn s turn = deliver_all (l.receive s) turn.deliveries

  -- The answer is the result of `run_event_loop`; `none`: the rounds given are used up and the loop goes on.
  unfoldable pub event_loop : ℤ → S → List Turn → Option (Bool × S)
  event_loop timeout_ms s [] = if l.is_running s then none else some (true, s)
  event_loop timeout_ms s (turn ∷ turns) =
      let came = received_turn s turn in
      let later = event_loop timeout_ms (l.flush came) turns in
      if not (l.is_running s)
      then some (true, s)
      else if timed_out timeout_ms turn.elapsed
      then some (false, s)
      else if breaks turn.received
      then some (true, came)
      else if breaks turn.flushed
      then some (true, l.flush came)
      else later

  -- What holds of the answer of the loop.
  abbrev pub Ends : (S → Type 0) → Option (Bool × S) → Type 0
  Ends P none = Unit
  Ends P (some (b, s)) = P s × (b ≡ false → l.is_running s ≡ true)

  pub record IsKept (P : S → Type 0) : Type 0 where
    pub over_deliver : (s : S) (d : Delivery) → P s → P (l.deliver s d)
    pub over_receive : (s : S) → P s → P (l.receive s)
    pub over_flush : (s : S) → P s → P (l.flush s)

  module _ (P : S → Type 0) (kept : IsKept P) where
    deliver_all-kept : (s : S) (ds : List Delivery) → P s → P (deliver_all s ds)
    unfolding deliver_all
    deliver_all-kept s [] p = p
    deliver_all-kept s (d ∷ ds) p = deliver_all-kept (l.deliver s d) ds (kept.over_deliver s d p)

    round-Ends :
        (running late bad unsent : Bool) (s y z : S) (w : Option (Bool × S))
        → l.is_running s ≡ running
        → P s
        → P y
        → P z
        → Ends P w
        → Ends P (
            if not running
            then some (true, s)
            else if late
            then some (false, s)
            else if bad
            then some (true, y)
            else if unsent
            then some (true, z)
            else w)
    round-Ends false late bad unsent s y z w e p q r h = (p, λ f. cc)
    round-Ends true true bad unsent s y z w e p q r h = (p, λ f. e)
    round-Ends true false true unsent s y z w e p q r h = (q, λ f. cc)
    round-Ends true false false true s y z w e p q r h = (r, λ f. cc)
    round-Ends true false false false s y z w e p q r h = h

    -- What the callbacks keep holds when the loop returns; it returns false only while it is running.
    pub event_loop-kept :
        (timeout_ms : ℤ) (s : S) (turns : List Turn) → P s → Ends P (event_loop timeout_ms s turns)
    unfolding event_loop
    event_loop-kept timeout_ms s [] p =
        elim (l.is_running s) as (λ b. Ends P (if b then none else some (true, s))) [
          | true ↦ tt
          | false ↦ (p, λ f. cc)
        ]
    event_loop-kept timeout_ms s (turn ∷ turns) p =
        let q : P (received_turn s turn) =
          unfold received_turn in
          deliver_all-kept (l.receive s) turn.deliveries (kept.over_receive s p) in
        let r = kept.over_flush _ q in
        round-Ends (l.is_running s) (timed_out timeout_ms turn.elapsed) (breaks turn.received)
          (breaks turn.flushed) s _ _ _ refl p q r
          (event_loop-kept timeout_ms (l.flush (received_turn s turn)) turns r)
