-- ===== src/Dns/Race.antt =====
-- URL_to_DNS/resolve_host.cpp: the passes of the race, and the sockets that they leave to come.
use bw_fetcher.Dns.{
  drain, Attempt, poll, Futures, outcome, Pass, all_done, settle, behind, race, next_pass,
}
use bw_fetcher.Base.{
  ℕ, zero, suc, ◌+◌, ◌≤◌, ◌<◌, ◌≡◌, inl, inr, refl, ap, ◌∙◌, true, false, Option, none, some, List,
  [], ◌∷◌, arith, leb, ◌==◌, if◌then◌else◌, Bool-cases, bytes_key, nat_key, pair_key, if_both,
}

-- How often a socket is among some.
abbrev pub tally_one : ℕ → Option ℕ → ℕ
tally_one x none = 0
tally_one x (some s) = if x == s then 1 else 0

abbrev pub tally : ℕ → List ℕ → ℕ
tally x [] = 0
tally x (s ∷ socks) = tally_one x (some s) + tally x socks

drain-first :
    (x : ℕ) (a : Attempt) (futures : Futures)
    → tally x (drain ((false, a) ∷ futures)) ≡ tally_one x (outcome a) + tally x (drain futures)
unfolding drain
drain-first x a futures =
    elim (outcome a)
      as (λ o.
        tally x (elim o [ none ↦ drain futures | some sock ↦ sock ∷ drain futures ])
        ≡ tally_one x o + tally x (drain futures)) [ none ↦ omega arith | some sock ↦ refl ]

settle-tally :
    (x : ℕ) (a : Attempt) (futures : Futures) (polls : ℕ) (rest : Pass) (o : Option ℕ)
    → tally x (drain futures) ≡ tally_one x rest.winner + tally x (drain rest.futures)
    → tally_one x o + tally x (drain futures)
      ≡ tally_one x (settle a futures polls rest o).winner
        + tally x (drain (settle a futures polls rest o).futures)
unfolding drain
settle-tally x a futures polls rest none h = omega (arith, h)
settle-tally x a futures polls rest (some sock) h = refl

behind-tally :
    (x : ℕ) (a : Attempt) (futures : Futures) (rest : Pass)
    → tally x (drain futures) ≡ tally_one x rest.winner + tally x (drain rest.futures)
    → tally_one x (outcome a) + tally x (drain futures)
      ≡ tally_one x rest.winner + tally x (drain ((false, a) ∷ rest.futures))
behind-tally x a futures rest h = rw (drain-first x a rest.futures) (omega (arith, h))

-- A pass loses no socket that is still to come, and makes none.
poll-tally :
    (x polls : ℕ) (futures : Futures)
    → tally x (drain futures)
      ≡ tally_one x (poll polls futures).winner + tally x (drain (poll polls futures).futures)
unfolding poll drain
poll-tally x polls [] = omega arith
poll-tally x polls ((true, a) ∷ futures) = poll-tally x polls futures
poll-tally x polls ((false, a) ∷ futures) =
    let rest = poll (polls + 1) futures in
    let h = poll-tally x (polls + 1) futures in
    drain-first x a futures
    ∙ if_both
        (λ p.
          tally_one x (outcome a) + tally x (drain futures)
          ≡ tally_one x p.winner + tally x (drain p.futures))
        (leb a.ready_at polls) (settle a futures (polls + 1) rest (outcome a))
        (behind (false, a) rest) (settle-tally x a futures (polls + 1) rest (outcome a) h)
        (behind-tally x a futures rest h)

-- Every attempt ends within some number of polls, which its own timeout bounds.
abbrev pub AllReady : ℕ → Futures → Type 0
AllReady bound [] = Unit
AllReady bound ((done, a) ∷ futures) = (a.ready_at ≤ bound) × AllReady bound futures

-- What a pass leaves, seen from its start.
record Passed (bound polls : ℕ) (futures : Futures) (p : Pass) : Type 0 where
  still_ready : AllReady bound p.futures
  later : polls ≤ p.polls
  advances : all_done futures ≡ false → polls + 1 ≤ p.polls
  finishes : bound ≤ polls → p.winner ≡ none → all_done p.futures ≡ true

settle-Passed :
    (bound polls : ℕ) (a : Attempt) (futures : Futures) (rest : Pass) (o : Option ℕ)
    → a.ready_at ≤ bound
    → AllReady bound futures
    → Passed bound (polls + 1) futures rest
    → Passed bound polls ((false, a) ∷ futures) (settle a futures (polls + 1) rest o)
unfolding all_done
settle-Passed bound polls a futures rest none r rs q = record {
  still_ready = (r, q.still_ready);
  later = let l = q.later in omega (arith, l);
  advances = λ h. q.later;
  finishes = λ b w. q.finishes (omega (arith, b)) w;
}
settle-Passed bound polls a futures rest (some sock) r rs q = record {
  still_ready = (r, rs);
  later = omega arith;
  advances = λ h. omega arith;
  finishes = λ b w. cc;
}

behind-Passed :
    (bound polls : ℕ) (a : Attempt) (futures : Futures) (rest : Pass)
    → a.ready_at ≤ bound
    → polls < a.ready_at
    → Passed bound (polls + 1) futures rest
    → Passed bound polls ((false, a) ∷ futures) (behind (false, a) rest)
unfolding all_done
behind-Passed bound polls a futures rest r early q = record {
  still_ready = (r, q.still_ready);
  later = let l = q.later in omega (arith, l);
  advances = λ h. q.later;
  finishes = λ b w. ground (arith, b, r, early);
}

poll-Passed :
    (bound polls : ℕ) (futures : Futures)
    → AllReady bound futures
    → Passed bound polls futures (poll polls futures)
unfolding poll all_done
poll-Passed bound polls [] r = record {
  still_ready = tt;
  later = omega arith;
  advances = λ h. cc;
  finishes = λ b w. refl;
}
poll-Passed bound polls ((true, a) ∷ futures) r =
    let q = poll-Passed bound polls futures r.1 in
    record {
      still_ready = (r.0, q.still_ready);
      later = q.later;
      advances = q.advances;
      finishes = q.finishes;
    }
poll-Passed bound polls ((false, a) ∷ futures) r =
    let rest = poll (polls + 1) futures in
    let q = poll-Passed bound (polls + 1) futures r.1 in
    elim (leb a.ready_at polls)
        as (λ b.
          leb a.ready_at polls ≡ b
          → Passed bound polls ((false, a) ∷ futures) (
              if b
              then settle a futures (polls + 1) rest (outcome a)
              else behind (false, a) rest)) [
                | true ↦ λ e. settle-Passed bound polls a futures rest (outcome a) r.0 r.1 q
                | false ↦ λ e. behind-Passed bound polls a futures rest r.0 (ground (arith, e)) q
              ]
      refl

-- What the race shows at its end.
pub record Raced (futures : Futures) (p : Pass) : Type 0 where
  pub accounted :
      (x : ℕ) → tally x (drain futures) ≡ tally_one x p.winner + tally x (drain p.futures)
  pub no_winner : p.winner ≡ none → all_done p.futures ≡ true

abbrev pub Races : Futures → Option Pass → Type 0
Races futures o = (p : Pass) × (o ≡ some p) × Raced futures p

done-Races :
    (polls : ℕ) (futures : Futures)
    → all_done futures ≡ true
    → Races futures (some (record { polls = polls; futures = futures; winner = none }))
done-Races polls futures h = (_, refl, record { accounted = λ x. omega arith; no_winner = λ w. h })

-- After a pass without a winner.
onwards-Races :
    (polls : ℕ) (futures : Futures) (o : Option Pass)
    → (poll polls futures).winner ≡ none
    → Races (poll polls futures).futures o
    → Races futures o
onwards-Races polls futures o w (p, e, raced) = (
  p,
  e,
  record {
    accounted = λ x.
        let before =
          poll-tally x polls futures
          ∙ ap (λ o. tally_one x o + tally x (drain (poll polls futures).futures)) w in
        let after = raced.accounted x in omega (arith, before, after);
    no_winner = raced.no_winner;
  },
)

pass-Races :
    (passes polls : ℕ) (futures : Futures)
    → ((poll polls futures).winner ≡ none
        → Races
            (poll polls futures).futures
            (race passes (poll polls futures).polls (poll polls futures).futures))
    → Races futures (next_pass (race passes) (poll polls futures))
pass-Races passes polls futures later =
    let p = poll polls futures in
    elim p.winner
        as (λ w.
          p.winner ≡ w
          → Races futures (elim w [ none ↦ race passes p.polls p.futures | some sock ↦ some p ])) [
            | none ↦ λ w. onwards-Races polls futures _ w (later w)
            | some sock ↦ λ w. (
              p,
              refl,
              record { accounted = λ x. poll-tally x polls futures; no_winner = λ n. cc },
            )
          ]
      refl

race-step :
    (passes polls : ℕ) (futures : Futures)
    → (all_done futures ≡ false
        → (poll polls futures).winner ≡ none
        → Races
            (poll polls futures).futures
            (race passes (poll polls futures).polls (poll polls futures).futures))
    → Races futures (race (suc passes) polls futures)
unfolding race
race-step passes polls futures later = elim (Bool-cases (all_done futures)) [
  | inl e ↦ rw e (done-Races polls futures e)
  | inr e ↦ rw e (pass-Races passes polls futures (later e))
]

-- Enough passes are as many as the polls that the slowest attempt takes, and one.
pub race-Races :
    (bound passes polls : ℕ) (futures : Futures)
    → AllReady bound futures
    → bound ≤ polls + passes
    → Races futures (race (suc passes) polls futures)
race-Races bound zero polls futures r h = race-step zero polls futures (λ e w.
    let q = poll-Passed bound polls futures r in
    let e = q.finishes (omega (arith, h)) w in
    unfold race in rw e (done-Races (poll polls futures).polls (poll polls futures).futures e))
race-Races bound (suc passes) polls futures r h = race-step (suc passes) polls futures (λ e w.
    let q = poll-Passed bound polls futures r in
    let l = q.advances e in
    race-Races bound passes (poll polls futures).polls (poll polls futures).futures q.still_ready
      (omega (arith, h, l)))
