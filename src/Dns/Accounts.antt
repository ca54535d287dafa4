-- ===== src/Dns/Accounts.antt =====
-- URL_to_DNS/resolve_host.cpp: the race ends, and every socket that connected is handed out or closed.
use bw_fetcher.Dns.Race.{AllReady, tally, tally_one, race-Races}
use bw_fetcher.Dns.{
  Attempt, all_done, drain, endpoint_of, happy_eyeballs_connect, launch, Futures, outcome,
  ResolvedHost, race_answer, race,
}
use bw_fetcher.Base.{
  ℕ, suc, ◌+◌, ◌≤◌, ◌≡◌, refl, sym, ap, ◌∙◌, true, false, Option, none, some, List, [], ◌∷◌, ◌++◌,
  arith, Bytes, bytes_key, nat_key, pair_key, Result, ok, err,
}

launch-append :
    {Addr : Type 0}
    → (attempt : Addr → Attempt) (xs ys : List Addr)
    → launch attempt xs ++ launch attempt ys ≡ launch attempt (xs ++ ys)
launch-append attempt [] ys = refl
launch-append attempt (x ∷ xs) ys = ap (λ fs. (false, attempt x) ∷ fs) (launch-append attempt xs ys)

launch-AllReady :
    {Addr : Type 0}
    → (attempt : Addr → Attempt) (bound : ℕ) → ((a : Addr) → (attempt a).ready_at ≤ bound)
    → (addrs : List Addr) → AllReady bound (launch attempt addrs)
launch-AllReady attempt bound h [] = tt
launch-AllReady attempt bound h (a ∷ addrs) = (h a, launch-AllReady attempt bound h addrs)

drain-all_done : (futures : Futures) → all_done futures ≡ true → drain futures ≡ []
unfolding all_done drain
drain-all_done [] h = refl
drain-all_done ((true, a) ∷ futures) h = drain-all_done futures h
drain-all_done ((false, a) ∷ futures) h = cc

-- The sockets of the attempts that connect.
abbrev pub and_socket : Option ℕ → List ℕ → List ℕ
and_socket none socks = socks
and_socket (some sock) socks = sock ∷ socks

abbrev pub sockets_of : {Addr : Type 0} → (Addr → Attempt) → List Addr → List ℕ
sockets_of attempt [] = []
sockets_of attempt (a ∷ addrs) = and_socket (outcome (attempt a)) (sockets_of attempt addrs)

drain-and_socket :
    (a : Attempt) (futures : Futures)
    → drain ((false, a) ∷ futures) ≡ and_socket (outcome a) (drain futures)
unfolding drain
drain-and_socket a futures =
    elim (outcome a)
      as (λ o.
        ◌≡◌ {A = List ℕ} (elim o [ none ↦ drain futures | some sock ↦ sock ∷ drain futures ])
          (and_socket o (drain futures))) [ none ↦ refl | some sock ↦ refl ]

drain-launch :
    {Addr : Type 0}
    → (attempt : Addr → Attempt) (addrs : List Addr)
    → drain (launch attempt addrs) ≡ sockets_of attempt addrs
drain-launch attempt [] = unfold drain in refl
drain-launch attempt (a ∷ addrs) =
    drain-and_socket (attempt a) (launch attempt addrs)
    ∙ ap (λ l. and_socket (outcome (attempt a)) l) (drain-launch attempt addrs)

abbrev pub handed : Result Bytes ℕ → Option ℕ
handed (ok sock) = some sock
handed (err what) = none

handed-endpoint_of : (w : Option ℕ) → handed (endpoint_of w) ≡ w
handed-endpoint_of none = refl
handed-endpoint_of (some sock) = refl

-- Where every attempt ends within some number of polls, the race ends, after no more passes than that and one.
-- Of the sockets of the attempts that connect, each is closed but the one that is handed out; and if none is
-- handed out, no attempt connects.
pub happy_eyeballs_connect-accounts :
    {Addr : Type 0}
    → (attempt : Addr → Attempt) (host_res : ResolvedHost Addr) (bound : ℕ)
    → ((a : Addr) → (attempt a).ready_at ≤ bound)
    → (answer : Result Bytes ℕ) × (closed : List ℕ) × (happy_eyeballs_connect attempt host_res
          (suc bound)
        ≡ some (answer, closed))
      × ((x : ℕ)
          → tally x (sockets_of attempt (host_res.ip6 ++ host_res.ip4))
            ≡ tally_one x (handed answer) + tally x closed)
      × (handed answer ≡ none → closed ≡ [])
unfolding happy_eyeballs_connect
happy_eyeballs_connect-accounts attempt host_res bound h =
    let together = launch-append attempt host_res.ip6 host_res.ip4 in
    let (p, e, raced) =
      race-Races bound bound 0 (launch attempt (host_res.ip6 ++ host_res.ip4))
        (launch-AllReady attempt bound h (host_res.ip6 ++ host_res.ip4)) (omega arith) in
    (
      endpoint_of p.winner,
      drain p.futures,
      ap race_answer (ap (race (suc bound) 0) together ∙ e),
      λ x.
          ap (λ l. tally x l) (sym (drain-launch attempt (host_res.ip6 ++ host_res.ip4)))
          ∙ raced.accounted x
          ∙ ap (λ w. tally_one x w + tally x (drain p.futures)) (sym (handed-endpoint_of p.winner)),
      λ none_handed.
          drain-all_done p.futures
            (raced.no_winner (sym (handed-endpoint_of p.winner) ∙ none_handed)),
    )
