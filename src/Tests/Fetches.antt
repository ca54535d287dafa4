-- ===== src/Tests/Fetches.antt =====
-- Whole fetches against a network that answers, one that redirects, and one that is silent.
use bw_fetcher.Fetch.Bounds.{fetch_one-asked}
use bw_fetcher.Fetch.Answers.{IsDecided}
use bw_fetcher.Fetch.Lifecycle.{InStep, no_net-InStep}
use bw_fetcher.Profiles.{chrome_143_profile}
use bw_fetcher.Fetch.One.{fetch_one}
use bw_fetcher.Fetch.Lifecycle.Decided.{AllDecided}
use bw_fetcher.Fetch.Lifecycle.Complete.{Closed, fetch_multi-Closed, fetch_multi-AllDecided}
use bw_fetcher.Fetch.Liveness.{some_turn_late, fetch_one-returns}
use bw_fetcher.Fetch.Batch.{BatchRun, fetch_multi}
use bw_fetcher.Types.{FetchOptions, FetchResult, default_options, MultiFetchResult}
use bw_fetcher.Socket.{Socket}
use bw_fetcher.Base.{
  ◌≤◌, ℕ, zero, suc, ◌+◌, ◌≡◌, refl, true, none, some, List, [], ◌∷◌, Bytes, codes, bytes_key,
  nat_key, pair_key, ok, pos, ℤ,
}
use bw_fetcher.Fetch.{
  header_came, body_came, frame_came, Dial, Delivery, Turn, Outside, Effect, Net, no_net,
}
use bw_fetcher.Http2.{stream_frame}
use bw_fetcher.Http2.Loop.{would_block, timed_out}

abbrev no_socket : Socket
no_socket = record { incoming = []; accepts = []; sent = [] }

-- Every host answers over h2; the sessions number their requests.
abbrev answering_dial : Dial ℕ
answering_dial = record {
  reached = ok no_socket;
  tls_client_error = none;
  tls_protocol = some (codes "h2");
  new_session = 1;
}

abbrev quiet_turn : ℕ → List Delivery → Turn
quiet_turn elapsed deliveries = record {
  elapsed = elapsed;
  received = would_block;
  deliveries = deliveries;
  flushed = would_block;
}

abbrev page_of : (sid : ℕ) (status : Bytes) → List Delivery
page_of sid status =
    header_came sid (codes ":status") status
    ∷ header_came sid (codes "set-cookie") (codes "a=1; Path=/")
    ∷ body_came sid (codes "<html>")
    ∷ frame_came (stream_frame sid true) 12
    ∷ []

abbrev redirect_of : ℕ → List Delivery
redirect_of sid =
    header_came sid (codes ":status") (codes "302")
    ∷ header_came sid (codes "location") (codes "/next")
    ∷ frame_came (stream_frame sid true) 5
    ∷ []

-- The first request is redirected on the host, the second is answered, all others get nothing.
abbrev some_turns : ℕ → List Turn
some_turns zero = quiet_turn 0 (redirect_of 1) ∷ quiet_turn 30000 [] ∷ []
some_turns (suc zero) = quiet_turn 0 (page_of 3 (codes "200")) ∷ quiet_turn 30000 [] ∷ []
some_turns (suc (suc n)) = quiet_turn 0 [] ∷ quiet_turn 30000 [] ∷ []

abbrev network : Outside ℕ
network = record {
  dial = λ n host port. answering_dial;
  turns = some_turns;
  submit_request = λ next priority headers. (pos next, next + 2);
  session_send = λ next. next;
  session_recv = λ next. next;
  submit_settings = λ next settings. next;
  submit_window_update = λ next increment. next;
  gunzip = λ body. body;
  unbrotli = λ body. body;
  matches = λ pattern text. [];
}

abbrev plain_options : FetchOptions
plain_options = record default_options {
  url = codes "https://h/";
  also_fetch = codes "https://h/x.js" ∷ codes "bad" ∷ [];
}

abbrev page_options : FetchOptions
page_options = record plain_options { fetch_subresources = true }

always_late : (n : ℕ) → some_turn_late (pos 30000) (some_turns n) ≡ true
unfolding timed_out
always_late zero = refl
always_late (suc zero) = refl
always_late (suc (suc n)) = refl

abbrev statuses : List FetchResult → List ℤ
statuses [] = []
statuses (r ∷ rs) = r.status ∷ statuses rs

abbrev statuses_of : BatchRun ℕ → List ℤ
statuses_of none = []
statuses_of (some (net, batch)) = statuses (batch.primary ∷ batch.also)

abbrev trace_of : BatchRun ℕ → List Effect
trace_of none = []
trace_of (some (net, batch)) = net.trace

abbrev plain_statuses : List ℤ
plain_statuses = statuses_of (fetch_multi network plain_options)

abbrev plain_trace : List Effect
plain_trace = trace_of (fetch_multi network plain_options)

abbrev page_statuses : List ℤ
page_statuses = statuses_of (fetch_multi network page_options)

fetch_multi-Closed_example : Closed (fetch_multi network page_options)
fetch_multi-Closed_example = fetch_multi-Closed network page_options always_late

fetch_one-returns_example :
    (after : Net ℕ) × (r : FetchResult) × (fetch_one network plain_options chrome_143_profile
        (codes "https://h/")
        []
        no_net
      ≡ some (after, r))
    × InStep after
    × IsDecided r
fetch_one-returns_example =
    fetch_one-returns network plain_options chrome_143_profile always_late (codes "https://h/") []
      no_net no_net-InStep

fetch_multi-AllDecided_example :
    (net : Net ℕ) × (batch : MultiFetchResult) × (fetch_multi network plain_options
      ≡ some (net, batch))
    × AllDecided (batch.primary ∷ batch.also)
fetch_multi-AllDecided_example = fetch_multi-AllDecided network plain_options always_late refl

fetch_one-asked_example :
    (after : Net ℕ) × (r : FetchResult) × (fetch_one network plain_options chrome_143_profile
        (codes "https://h/")
        []
        no_net
      ≡ some (after, r))
    × (after.asked ≤ 0 + 5)
fetch_one-asked_example =
    fetch_one-asked network plain_options chrome_143_profile always_late (codes "https://h/") []
      no_net no_net-InStep
