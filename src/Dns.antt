-- ===== src/Dns.antt =====
-- URL_to_DNS/resolve_host.cpp: the addresses of a host, and the race of the connection attempts. What
-- getaddrinfo answers, and how and when each attempt ends, is input; a socket is a number.
pub mod Race
pub mod Accounts
use bw_fetcher.Base.{
  ℕ, zero, suc, ◌+◌, ◌-◌, ◌*◌, ◌≤◌, ◌<◌, ◌≡◌, ◌≢◌, ◌↔◌, ◌⊎◌, inl, inr, refl, sym, ap, ap₂, ◌∙◌,
  Bool, true, false, not, ◌&&◌, ◌||◌, Option, none, some, List, [], ◌∷◌, ◌++◌, map, arith, ltb, leb,
  ◌==◌, if◌then◌else◌, Bool-cases, Option-cases, Bytes, codes, length, bytes_key, nat_key, pair_key,
  Result, err, ok,
}

-- `ai_family`: `AF_INET`, `AF_INET6` or another one.
pub data Family : Type 0 where
  inet inet6 other_family : Family

pub record ResolvedHost (Addr : Type 0) : Type 0 where
  pub ip4 : List Addr
  pub ip6 : List Addr

-- The body of the loop over the answers of getaddrinfo, in their order.
unfoldable pub add_address : {Addr : Type 0} → ResolvedHost Addr → Family → Addr → ResolvedHost Addr
add_address res inet a = record res { ip4 = res.ip4 ++ (a ∷ []) }
add_address res inet6 a = record res { ip6 = res.ip6 ++ (a ∷ []) }
add_address res other_family a = res

unfoldable pub add_addresses :
    {Addr : Type 0} → ResolvedHost Addr → List (Family × Addr) → ResolvedHost Addr
unfolding add_address
add_addresses res [] = res
add_addresses res ((family, a) ∷ info) = add_addresses (add_address res family a) info

-- `none`: getaddrinfo fails.
unfoldable pub dns_lookup_host :
    {Addr : Type 0} → Bytes → Option (List (Family × Addr)) → Result Bytes (ResolvedHost Addr)
unfolding add_addresses
dns_lookup_host host none = err (codes "DNS resolution failed for: " ++ host)
dns_lookup_host host (some info) = ok (add_addresses (record { ip4 = []; ip6 = [] }) info)

-- How `connect` goes: at once, later, where `select` and `SO_ERROR` tell, or not at all.
pub data Reply : Type 0 where
  connected_now refused_now : Reply
  in_progress : (selected : Bool) (soerr : ℕ) → Reply

unfoldable pub has_connected : Reply → Bool
has_connected connected_now = true
has_connected refused_now = false
has_connected (in_progress selected soerr) = selected && soerr == 0

-- The socket that is handed out, and those that are closed.
unfoldable pub try_connect : Option ℕ → Reply → Option ℕ × List ℕ
unfolding has_connected
try_connect none reply = (none, [])
try_connect (some sockfd) reply =
    if has_connected reply then (some sockfd, []) else (none, sockfd ∷ [])

-- An attempt on its own thread: `socket`, `connect`, and the number of polls until its future is ready.
pub record Attempt : Type 0 where
  pub sockfd : Option ℕ
  pub reply : Reply
  pub ready_at : ℕ

abbrev pub outcome : Attempt → Option ℕ
outcome a = (try_connect a.sockfd a.reply).0

-- The futures, each with its flag of `done`.
abbrev pub Futures : Type 0
Futures = List (Bool × Attempt)

unfoldable pub all_done : Futures → Bool
all_done [] = true
all_done ((done, a) ∷ futures) = done && all_done futures

-- What a pass of the inner loop leaves: the number of polls so far, the futures, and the winner.
pub record Pass : Type 0 where
  pub polls : ℕ
  pub futures : Futures
  pub winner : Option ℕ

abbrev pub behind : Bool × Attempt → Pass → Pass
behind f p = record p { futures = f ∷ p.futures }

-- A future that is ready: its socket wins, or the pass goes on.
abbrev pub settle : Attempt → Futures → ℕ → Pass → Option ℕ → Pass
settle a futures polls rest none = behind (true, a) rest
settle a futures polls rest (some sock) = record {
  polls = polls;
  futures = (true, a) ∷ futures;
  winner = some sock;
}

-- The loop over the futures: each that is not done is polled.
unfoldable pub poll : ℕ → Futures → Pass
poll polls [] = record { polls = polls; futures = []; winner = none }
poll polls ((true, a) ∷ futures) = behind (true, a) (poll polls futures)
poll polls ((false, a) ∷ futures) =
    let rest = poll (polls + 1) futures in
    if leb a.ready_at polls
    then settle a futures (polls + 1) rest (outcome a)
    else behind (false, a) rest

-- `completed < n` is that some future is not done. `none`: the passes given are used up.
abbrev pub next_pass : (ℕ → Futures → Option Pass) → Pass → Option Pass
next_pass next p = elim p.winner [ none ↦ next p.polls p.futures | some sock ↦ some p ]

unfoldable pub race : ℕ → ℕ → Futures → Option Pass
unfolding poll all_done
race zero polls futures =
    if all_done futures
    then some (record { polls = polls; futures = futures; winner = none })
    else none
race (suc passes) polls futures =
    let later = next_pass (race passes) (poll polls futures) in
    if all_done futures
    then some (record { polls = polls; futures = futures; winner = none })
    else later

-- The detached thread: the sockets of the attempts still in flight, which it closes.
unfoldable pub drain : Futures → List ℕ
drain [] = []
drain ((true, a) ∷ futures) = drain futures
drain ((false, a) ∷ futures) = elim (outcome a) [
  | none ↦ drain futures
  | some sock ↦ sock ∷ drain futures
]

abbrev pub launch : {Addr : Type 0} → (Addr → Attempt) → List Addr → Futures
launch attempt [] = []
launch attempt (a ∷ addrs) = (false, attempt a) ∷ launch attempt addrs

abbrev pub endpoint_of : Option ℕ → Result Bytes ℕ
endpoint_of none = err (codes "No IP could be connected (both IPv6 and IPv4 failed)")
endpoint_of (some sock) = ok sock

abbrev pub race_answer : Option Pass → Option (Result Bytes ℕ × List ℕ)
race_answer none = none
race_answer (some p) = some (endpoint_of p.winner, drain p.futures)

-- The endpoint or the exception, and the sockets that are closed behind it. IPv6 is polled first.
unfoldable pub happy_eyeballs_connect :
    {Addr : Type 0} → (Addr → Attempt) → ResolvedHost Addr → ℕ → Option (Result Bytes ℕ × List ℕ)
unfolding race
happy_eyeballs_connect attempt host_res passes =
    race_answer (race passes 0 (launch attempt host_res.ip6 ++ launch attempt host_res.ip4))
