-- ===== src/Tests/Streams.antt =====
-- The client, and the requests of a page, with a session that counts the requests.
use bw_fetcher.Runtime.Sent.{parsed_of}
use bw_fetcher.Http2.Loop.{
  Round, run_event_loop, wait_ms, would_block, run_event_loop-ends, run_event_loop-false,
  wait_ms-within, progressed, timed_out, Reaches,
}
use bw_fetcher.Headers.{no_response, Response}
use bw_fetcher.Runtime.Sets.{keep}
use bw_fetcher.Scripts.Scanner.{new_scanner}
use bw_fetcher.Types.{no_batch}
use bw_fetcher.Http2.Reports.{Report, header_arrived, body_arrived, gather, receive_all}
use bw_fetcher.Http2.Streams.{on_frame_recv_lem, HandsOut, receive_frame}
use bw_fetcher.Runtime.Queue.{HasQueue, urls_of}
use bw_fetcher.Runtime.Run.{Event, chunk_arrived, stream_ended, dispatch_same_host_lem}
use bw_fetcher.Scripts.{Engine}
use bw_fetcher.Runtime.{RuntimeState, dispatch_same_host, url_same_host}
use bw_fetcher.Http2.{Priority, Client, touch_status, reset_for_request, stream_frame}
use bw_fetcher.Base.{
  inl, inr, ◌&&◌, ◌||◌, suc, ◌≤◌, Bool, some, ℕ, ◌+◌, ◌*◌, ◌≡◌, refl, true, false, not, Option,
  none, List, [], ◌∷◌, arith, Bytes, codes, bytes_key, nat_key, pair_key, member, ℤ, pos, rev_onto,
  beq,
}

abbrev submit : ℕ → Option Priority → List (Bytes × Bytes) → ℤ × ℕ
submit n priority headers = (pos (2 * n + 1), n + 1)

abbrev flush : ℕ → ℕ
flush n = n

abbrev idle_client : Client ℕ
idle_client = record {
  session = 1;
  submitted = [];
  host = codes "h";
  priority = none;
  running = true;
  goaway = false;
  redirect_url = [];
  responses = [];
}

abbrev loading : RuntimeState ℕ
loading = record {
  client = idle_client;
  cookies = [];
  conn_host = codes "h";
  profile_headers = [];
  batch = no_batch;
  scanner = new_scanner (codes "https://h/") (pos 3);
  pending =
      record { url = codes "https://h/a.js"; discovery_source = codes "script" }
      ∷ record { url = codes "https://x/b.js"; discovery_source = codes "script" }
      ∷ [];
  pending_urls = codes "https://h/a.js" ∷ codes "https://x/b.js" ∷ [];
  dispatched = [];
  url_sources = [];
  sid_url = [];
  sid_discovery = [];
  sid_seq = [];
  primary_sid = 1;
  primary_seq = 0;
  next_seq = 1;
  active_streams = 1;
  primary_done = false;
  page_url = codes "https://h/";
}

loading-HasQueue : HasQueue loading
unfolding member beq
loading-HasQueue = record {
  agrees = λ u. refl;
  apart = λ u. ground arith;
  once = (refl, (refl, tt));
  never_again = tt;
}

abbrev finds_none : Engine
finds_none re html = []

abbrev arrivals : List Event
arrivals = chunk_arrived 1 (codes "<html>") ∷ stream_ended 1 no_response 9 ∷ []

dispatch_same_host_lem_example :
    ((dispatch_same_host submit flush loading).client.submitted
      ≡ rev_onto (parsed_of (keep (λ u. url_same_host u (codes "h")) (urls_of loading.pending))) [])
    × ((u : Bytes)
        → member u (dispatch_same_host submit flush loading).dispatched
          ≡ (member u (urls_of loading.pending) && url_same_host u (codes "h") || member u []))
    × (urls_of (dispatch_same_host submit flush loading).pending
        ≡ keep (λ u. not (url_same_host u (codes "h"))) (urls_of loading.pending))
dispatch_same_host_lem_example = dispatch_same_host_lem submit flush loading refl loading-HasQueue

abbrev identity : Bytes → Bytes
identity s = s

abbrev interleaved : List Report
interleaved =
    header_arrived 1 (codes ":status") (codes "200")
    ∷ body_arrived 3 (codes "x")
    ∷ body_arrived 1 (codes "y")
    ∷ []

-- A callback that keeps the bodies, and lets the loop run on.
abbrev keep_body : ℕ → Response → List Bytes → Bool × List Bytes
keep_body sid resp bodies = (false, resp.body ∷ bodies)

on_frame_recv_lem_example :
    HandsOut identity identity keep_body 1
      (touch_status (gather 1 no_response interleaved))
      (reset_for_request idle_client)
      []
      (receive_frame identity identity keep_body
        (receive_all (reset_for_request idle_client) interleaved, [])
        (stream_frame 1 true))
on_frame_recv_lem_example =
    on_frame_recv_lem identity identity keep_body idle_client [] interleaved 0

-- A server that sends nothing: the third round is past the deadline.
abbrev stalled : List Round
stalled =
    record { elapsed = 0; received = would_block; flushed = progressed; running = true }
    ∷ record { elapsed = 600; received = would_block; flushed = would_block; running = true }
    ∷ record { elapsed = 1001; received = would_block; flushed = would_block; running = true }
    ∷ []

run_event_loop-ends_example : (b : Bool) × (run_event_loop (pos 1000) true stalled ≡ some b)
run_event_loop-ends_example = run_event_loop-ends 999 true stalled (inr (inr (inl (omega arith))))

run_event_loop-false_example : (t : ℕ) × (pos 1000 ≡ pos (suc t)) × Reaches (suc t) stalled
run_event_loop-false_example =
    run_event_loop-false (pos 1000) true stalled (unfold run_event_loop timed_out in refl)

wait_ms-within_example :
    (w : ℕ) × (wait_ms (pos (suc 999)) 600 ≡ some w) × (1 ≤ w) × (w ≤ 1000) × (600 + w ≤ suc 999)
wait_ms-within_example = wait_ms-within 999 600 (omega arith)
