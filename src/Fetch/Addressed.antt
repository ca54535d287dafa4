-- ===== src/Fetch/Addressed.antt =====
-- fetcher.cpp: for which host a client submits requests while a loop runs.
use bw_fetcher.Fetch.Exchange.{IsKept}
use bw_fetcher.Headers.{Response}
use bw_fetcher.Runtime.Sent.{IsSent, on_stream_complete-IsSent, on_body_chunk-IsSent}
use bw_fetcher.Types.{Headers}
use bw_fetcher.Runtime.{RuntimeState}
use bw_fetcher.Fetch.Page.{page_listener, deliver_page, complete_stream}
use bw_fetcher.Url.{ParsedUrl}
use bw_fetcher.Fetch.One.{Capture, one_listener, deliver_one, take_response}
use bw_fetcher.Base.{
  ℕ, zero, suc, ◌≡◌, refl, ap, ◌∙◌, Bool, true, false, Option, none, some, List, Bytes, bytes_key,
  nat_key, pair_key, every, if_both, beq_iff,
}
use bw_fetcher.Http2.{
  goaway_frame, stream_frame, other_frame, before_callback, stop_if, on_end_stream, Client,
  reset_for_request, call_back, perform_decompression, all_to, stopped, Frame, on_header,
  send_header, on_body_rec, is_redirect, send_header-submitted, on_frame_recv, touch_status,
  response_at,
}
use bw_fetcher.Fetch.{header_came, body_came, frame_came, Outside, Client, ParsedUrl, Frame}

abbrev pub OneAddressed : {Session : Type 0} → Bytes → Capture Session → Type 0
OneAddressed host c = all_to host c.client.submitted ≡ true

module _ {Session : Type 0} where
  -- The log of a client is not touched by what nghttp2 reports.
  before_callback-submitted :
      (gunzip unbrotli : Bytes → Bytes) (c : Client Session) (f : Frame)
      → (before_callback gunzip unbrotli c f).0.submitted ≡ c.submitted
  unfolding before_callback on_end_stream perform_decompression
  before_callback-submitted gunzip unbrotli c goaway_frame = refl
  before_callback-submitted gunzip unbrotli c other_frame = refl
  before_callback-submitted gunzip unbrotli c (stream_frame zero e) = refl
  before_callback-submitted gunzip unbrotli c (stream_frame (suc n) false) = refl
  before_callback-submitted gunzip unbrotli c (stream_frame (suc n) true) =
      if_both (λ (w : Client Session × Option Response). w.0.submitted ≡ c.submitted)
        (is_redirect (touch_status (response_at (suc n) c.responses)).headers) _ _ refl refl

  stop_if-submitted : (b : Bool) (c : Client Session) → (stop_if b c).submitted ≡ c.submitted
  unfolding stop_if
  stop_if-submitted true c = refl
  stop_if-submitted false c = refl

module _ {Session : Type 0} (o : Outside Session) where
  -- A request for a URL, by a client that submitted requests for the URL's host only.
  pub request-addressed :
      (url : ParsedUrl) (c : Client Session) (headers : Headers)
      → all_to url.host c.submitted ≡ true
      → all_to url.host
          (send_header o.submit_request o.session_send
            (reset_for_request c)
            url
            headers).1.submitted
        ≡ true
  unfolding reset_for_request every
  request-addressed url c headers own =
      ap (all_to url.host)
        (send_header-submitted o.submit_request o.session_send (reset_for_request c) url headers)
      ∙ rw ((beq_iff url.host url.host).1 refl, own) refl

  one_frame-addressed :
      (host : Bytes) (duration : ℕ) (c : Capture Session)
      (w : Client Session × Option (ℕ × Response))
      → all_to host w.0.submitted ≡ true
      → OneAddressed host (
          call_back
            (λ c. c.client)
            (λ client c. record c { client = client })
            (take_response duration)
            c
            w)
  unfolding call_back stopped take_response
  one_frame-addressed host duration c (client, none) p = p
  one_frame-addressed host duration c (client, some (sid, resp)) p =
      ap (all_to host) (stop_if-submitted true client) ∙ p

  pub one_listener-addressed : (host : Bytes) → IsKept (one_listener o) (OneAddressed host)
  unfolding one_listener deliver_one on_header on_body_rec on_frame_recv
  one_listener-addressed host = record {
    over_deliver = λ c d p. elim d as (λ d. OneAddressed host (deliver_one o c d)) [
      | header_came sid name value ↦ p
      | body_came sid chunk ↦ p
      | frame_came frame duration ↦
          one_frame-addressed host duration c _
            (ap (all_to host) (before_callback-submitted o.gunzip o.unbrotli c.client frame) ∙ p)
    ];
    over_receive = λ c p. p;
    over_flush = λ c p. p;
  }

  IsSent-client :
      (host : Bytes) (before : List ParsedUrl) (s : RuntimeState Session) (client : Client Session)
      → client.submitted ≡ s.client.submitted
      → IsSent host before s
      → IsSent host before (record s { client = client })
  IsSent-client host before s client same p = record {
    same_host = p.same_host;
    requested = same ∙ p.requested;
    addressed = ap (all_to host) same ∙ p.addressed;
  }

  page_frame-IsSent :
      (host : Bytes) (before : List ParsedUrl) (duration : ℕ) (s : RuntimeState Session)
      (w : Client Session × Option (ℕ × Response))
      → w.0.submitted ≡ s.client.submitted
      → IsSent host before s
      → IsSent host before (
          call_back
            (λ s. s.client)
            (λ client s. record s { client = client })
            (complete_stream o duration)
            s
            w)
  unfolding call_back stopped complete_stream
  page_frame-IsSent host before duration s (client, none) same p =
      IsSent-client host before s client same p
  page_frame-IsSent host before duration s (client, some (sid, resp)) same p =
      IsSent-client host before _ _ (stop_if-submitted _ _) (
        on_stream_complete-IsSent o.submit_request o.session_send o.matches host before _ sid resp
          duration (IsSent-client host before s client same p))

  -- While a page arrives, every request is for the connection's host.
  pub page_listener-IsSent :
      (host : Bytes) (before : List ParsedUrl) → IsKept (page_listener o) (IsSent host before)
  unfolding page_listener deliver_page on_header on_body_rec on_frame_recv
  page_listener-IsSent host before = record {
    over_deliver = λ s d p. elim d as (λ d. IsSent host before (deliver_page o s d)) [
      | header_came sid name value ↦ IsSent-client host before s _ refl p
      | body_came sid chunk ↦
          on_body_chunk-IsSent o.submit_request o.session_send o.matches host before _ sid chunk
            (IsSent-client host before s _ refl p)
      | frame_came frame duration ↦
          page_frame-IsSent host before duration s
            (before_callback o.gunzip o.unbrotli s.client frame)
            (before_callback-submitted o.gunzip o.unbrotli s.client frame) p
    ];
    over_receive = λ s p. IsSent-client host before s _ refl p;
    over_flush = λ s p. IsSent-client host before s _ refl p;
  }
