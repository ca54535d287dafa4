-- ===== src/Http2/Loop.antt =====
-- HTTP2_Client/http2_client.cpp: `run_event_loop`. What a round meets is its input: the clock, the
-- results of nghttp2, and whether a callback has stopped the loop.
use bw_fetcher.Base.{
  zero, ◌⊎◌, ℕ, suc, ◌+◌, ◌-◌, ◌≤◌, ◌≡◌, inl, inr, refl, Bool, true, false, ◌||◌, Option, none,
  some, List, [], ◌∷◌, arith, leb, if◌then◌else◌, Bool-cases, bytes_key, nat_key, pair_key, ℤ, pos,
  negsuc,
}

-- 0, `NGHTTP2_ERR_WOULDBLOCK`, or any other result of `nghttp2_session_recv` and `_send`.
pub data Outcome : Type 0 where
  progressed would_block failed : Outcome

pub record Round : Type 0 where
  pub elapsed : ℕ
  pub received : Outcome
  pub flushed : Outcome
  pub running : Bool

-- `timeout_ms > 0 && elapsed >= timeout_ms`
unfoldable pub timed_out : ℤ → ℕ → Bool
timed_out (pos (suc t)) elapsed = leb (suc t) elapsed
timed_out _ elapsed = false

abbrev pub breaks : Outcome → Bool
breaks failed = true
breaks _ = false

-- `none`: the rounds given are used up and the loop goes on.
unfoldable pub run_event_loop : ℤ → Bool → List Round → Option Bool
unfolding timed_out
run_event_loop timeout_ms false rounds = some true
run_event_loop timeout_ms true [] = none
run_event_loop timeout_ms true (r ∷ rounds) =
    let later = run_event_loop timeout_ms r.running rounds in
    if timed_out timeout_ms r.elapsed
    then some false
    else if breaks r.received || breaks r.flushed
    then some true
    else later

-- `wait_ms`; `none` where the code goes back to the deadline without waiting.
unfoldable pub wait_ms : ℤ → ℕ → Option ℕ
wait_ms (pos (suc t)) elapsed =
    if leb (suc t) elapsed
    then none
    else some (if leb 1000 (suc t - elapsed) then 1000 else suc t - elapsed)
wait_ms _ elapsed = some 1000

-- At one of the rounds, `t` milliseconds or more have passed.
abbrev pub Reaches : ℕ → List Round → Type 0
Reaches t [] = ⊥
Reaches t (r ∷ rounds) = (t ≤ r.elapsed) ⊎ Reaches t rounds

-- With a timeout, the loop returns as soon as the clock has reached the timeout at some round, whatever the connection
-- does.
pub run_event_loop-ends :
    (t : ℕ) (running : Bool) (rounds : List Round)
    → Reaches (suc t) rounds
    → (b : Bool) × (run_event_loop (pos (suc t)) running rounds ≡ some b)
unfolding run_event_loop timed_out
run_event_loop-ends t false rounds h = (true, refl)
run_event_loop-ends t true [] h = absurd h
run_event_loop-ends t true (r ∷ rounds) h = elim (Bool-cases (leb (suc t) r.elapsed)) [
  | inl late ↦ (false, rw late refl)
  | inr early ↦ elim (Bool-cases (breaks r.received || breaks r.flushed)) [
    | inl broken ↦ (true, rw (early, broken) refl)
    | inr whole ↦ elim h [
      | inl reached ↦ absurd (ground (arith, reached, early))
      | inr rest ↦
          let (b, e) = run_event_loop-ends t r.running rounds rest in (b, rw (early, whole) e)
    ]
  ]
]

never_late-false :
    (timeout_ms : ℤ)
    → ((elapsed : ℕ) → timed_out timeout_ms elapsed ≡ false)
    → (running : Bool) (rounds : List Round) → run_event_loop timeout_ms running rounds ≡ some false
    → ⊥
unfolding run_event_loop
never_late-false timeout_ms never false rounds h = cc
never_late-false timeout_ms never true [] h = cc
never_late-false timeout_ms never true (r ∷ rounds) h =
    elim (Bool-cases (breaks r.received || breaks r.flushed)) [
      | inl broken ↦ ground (arith, h, never r.elapsed, broken)
      | inr whole ↦
          never_late-false timeout_ms never r.running rounds (rw (never r.elapsed, whole) at h)
    ]

-- The loop returns false only if there is a timeout, and the clock had reached it at some round.
pub run_event_loop-false :
    (timeout_ms : ℤ) (running : Bool) (rounds : List Round)
    → run_event_loop timeout_ms running rounds ≡ some false
    → (t : ℕ) × (timeout_ms ≡ pos (suc t)) × Reaches (suc t) rounds
unfolding run_event_loop timed_out
run_event_loop-false timeout_ms false rounds h = cc
run_event_loop-false timeout_ms true [] h = cc
run_event_loop-false (pos (suc t)) true (r ∷ rounds) h = elim (Bool-cases (leb (suc t) r.elapsed)) [
  | inl late ↦ (t, refl, inl (ground (arith, late)))
  | inr early ↦ elim (Bool-cases (breaks r.received || breaks r.flushed)) [
    | inl broken ↦ ground (arith, h, early, broken)
    | inr whole ↦
        let (t, e, rest) =
          run_event_loop-false (pos (suc t)) r.running rounds (rw (early, whole) at h) in
        (t, e, inr rest)
  ]
]
run_event_loop-false (pos zero) true (r ∷ rounds) h =
    absurd (never_late-false (pos zero) (λ e. refl) true (r ∷ rounds) h)
run_event_loop-false (negsuc n) true (r ∷ rounds) h =
    absurd (never_late-false (negsuc n) (λ e. refl) true (r ∷ rounds) h)

-- Before the deadline the loop waits, between one millisecond and a second, and until the deadline at
-- the latest.
pub wait_ms-within :
    (t elapsed : ℕ)
    → elapsed ≤ t
    → (w : ℕ) × (wait_ms (pos (suc t)) elapsed ≡ some w)
      × (1 ≤ w)
      × (w ≤ 1000)
      × (elapsed + w ≤ suc t)
unfolding wait_ms
wait_ms-within t elapsed h =
    let early : leb (suc t) elapsed ≡ false = ground arith in
    elim (Bool-cases (leb 1000 (suc t - elapsed))) [
      | inl long ↦ (1000, rw (early, long) refl, omega arith, omega arith, ground arith)
      | inr short ↦ (
        suc t - elapsed,
        rw (early, short) refl,
        omega (arith, h),
        ground arith,
        omega (arith, h),
      )
    ]
