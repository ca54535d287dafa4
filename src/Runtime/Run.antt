-- ===== src/Runtime/Run.antt =====
-- The requests of a page over all that its connection reports.
use bw_fetcher.Url.{ParsedUrl}
use bw_fetcher.Runtime.Sent.{parsed_of, dispatch_items-submitted}
use bw_fetcher.Runtime.Sets.{member-keep, member-rev_onto, keep}
use bw_fetcher.Runtime.Dispatch.{dispatch_items-pending, dispatch_items-dispatched}
use bw_fetcher.Runtime.Queue.{HasQueue, urls_of, not_requested}
use bw_fetcher.Scripts.{Engine}
use bw_fetcher.Runtime.{
  dispatch_same_host, RuntimeState, on_body_chunk, on_stream_complete, url_same_host,
  dispatch_items, ParsedUrl,
}
use bw_fetcher.Http2.{Priority}
use bw_fetcher.Headers.{Response}
use bw_fetcher.Base.{
  ◌&&◌, ℕ, ◌≡◌, ap, ◌∙◌, Bool, false, not, ◌||◌, Option, List, [], ◌∷◌, arith, if◌then◌else◌, Bytes,
  bytes_key, nat_key, pair_key, ℤ, rev_onto, member,
}

-- What the client reports: a part of a body, or the end of a stream, with the time it took.
pub data Event : Type 0 where
  chunk_arrived : (sid : ℕ) (chunk : Bytes) → Event
  stream_ended : (sid : ℕ) (resp : Response) (duration : ℕ) → Event

module _ {Session : Type 0}
    (submit_request : Session → Option Priority → List (Bytes × Bytes) → ℤ × Session)
    (session_send : Session → Session) where
  -- On a connection that was not closed, with a sound queue, a pass submits one request for each waiting URL of the
  -- connection's host, in their order, and no other; it marks those URLs and no others; and it leaves the other URLs
  -- waiting, in their order.
  pub dispatch_same_host_lem :
      (s : RuntimeState Session)
      → s.client.goaway ≡ false
      → HasQueue s
      → ((dispatch_same_host submit_request session_send s).client.submitted
          ≡ rev_onto
              (parsed_of (keep (λ u. url_same_host u s.conn_host) (urls_of s.pending)))
              s.client.submitted)
        × ((u : Bytes)
            → member u (dispatch_same_host submit_request session_send s).dispatched ≡ (
                member u (urls_of s.pending) && url_same_host u s.conn_host
                || member u s.dispatched))
        × (urls_of (dispatch_same_host submit_request session_send s).pending
            ≡ keep (λ u. not (url_same_host u s.conn_host)) (urls_of s.pending))
  dispatch_same_host_lem s live q =
      let here : Bytes → Bool = λ u. url_same_host u s.conn_host in
      let ps = urls_of s.pending in
      let e : dispatch_same_host submit_request session_send s
          ≡ dispatch_items submit_request session_send s s.pending [] =
        unfold dispatch_same_host in
        ap (λ b. if b then s else dispatch_items submit_request session_send s s.pending []) live in
      (
        ap (λ t. t.client.submitted) e
            ∙ dispatch_items-submitted submit_request session_send s s.pending [] q.once
                (not_requested q),
        λ u.
            ap (λ t. member u t.dispatched) e
            ∙ (ap (member u) (
                  dispatch_items-dispatched submit_request session_send s s.pending [] q.once
                    (not_requested q))
                ∙ ground
                    (arith, member-rev_onto u (keep here ps) s.dispatched, member-keep here u ps)),
        ap (λ t. urls_of t.pending) e
            ∙ dispatch_items-pending submit_request session_send s s.pending [],
      )

  module _ (matches : Engine) where
    -- The callbacks, one report after the other.
    unfoldable pub handle : RuntimeState Session → Event → RuntimeState Session
    handle s (chunk_arrived sid chunk) =
        on_body_chunk submit_request session_send matches s sid chunk
    handle s (stream_ended sid resp duration) =
        (on_stream_complete submit_request session_send matches s sid resp duration).1

    unfoldable pub handle_all : RuntimeState Session → List Event → RuntimeState Session
    handle_all s [] = s
    handle_all s (e ∷ es) = handle_all (handle s e) es
