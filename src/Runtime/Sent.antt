-- ===== src/Runtime/Sent.antt =====
-- What a page submits to nghttp2 while it arrives, beside what it marks as requested.
use bw_fetcher.Headers.{Response}
use bw_fetcher.Runtime.Queue.{urls_of}
use bw_fetcher.Runtime.Dispatch.{
  dispatch_item-Keeps, dispatch_items-other, dispatch_items-same, dispatch_item-apart,
}
use bw_fetcher.Runtime.Sets.{keep}
use bw_fetcher.Scripts.{DiscoveredSubresource, Engine}
use bw_fetcher.Runtime.{
  track, enqueue_item, enqueue, parse_url, RuntimeState, PendingSubresource, DiscoveredSubresource,
  request_item, dispatch_item, dispatch_same_host, Engine, url_same_host, dispatch_items,
  on_body_chunk, on_stream_complete, remove, complete_primary, complete_subresource, Response,
}
use bw_fetcher.Url.{ParsedUrl, UriError, parse_url}
use bw_fetcher.Base.{
  ℕ, ◌≡◌, inl, inr, refl, sym, ap, ap₂, ◌∙◌, true, false, not, ◌||◌, Option, List, [], ◌∷◌, ◌++◌,
  arith, ◌==◌, Bool-cases, Bytes, bytes_key, nat_key, pair_key, Result, rev_onto, every, ℤ, ok,
  catch, err, beq, pos, if_both, member, negsuc, Distinct, beq_iff,
}
use bw_fetcher.Http2.{send_header-submitted, all_to, Priority}

-- The requests of URLs.
abbrev pub onto : Result UriError ParsedUrl → List ParsedUrl → List ParsedUrl
onto (ok parsed) l = parsed ∷ l
onto (err e) l = l

unfoldable pub parsed_of : List Bytes → List ParsedUrl
parsed_of [] = []
parsed_of (u ∷ us) = onto (parse_url u) (parsed_of us)

-- What was submitted since `before` is one request for each URL that is marked, in the order of the marks, and
-- everything that was submitted is for the host.
pub record IsSent {Session : Type 0} (host : Bytes) (before : List ParsedUrl)
    (s : RuntimeState Session) : Type 0 where
  pub same_host : s.conn_host ≡ host
  pub requested : s.client.submitted ≡ parsed_of s.dispatched ++ before
  pub addressed : all_to host s.client.submitted ≡ true

onto-append :
    (r : Result UriError ParsedUrl) (a b : List ParsedUrl) → onto r (a ++ b) ≡ onto r a ++ b
onto-append (ok parsed) a b = refl
onto-append (err e) a b = refl

rev_onto-onto :
    (r : Result UriError ParsedUrl) (a b : List ParsedUrl)
    → rev_onto (onto r a) b ≡ rev_onto a (onto r b)
rev_onto-onto (ok parsed) a b = refl
rev_onto-onto (err e) a b = refl

onto-addressed :
    (r : Result UriError ParsedUrl) (host : Bytes) (l : List ParsedUrl)
    → catch r (λ parsed. beq parsed.host host) false ≡ true
    → all_to host l ≡ true
    → all_to host (onto r l) ≡ true
unfolding every
onto-addressed (ok parsed) host l h a = rw (h, a) refl
onto-addressed (err e) host l h a = a

module _ {Session : Type 0} where
  track-client :
      (s : RuntimeState Session) (item : PendingSubresource) (sid : ℤ)
      → (track s item sid).client ≡ s.client
  unfolding track
  track-client s item (pos n) = refl
  track-client s item (negsuc e) = refl

  enqueue_item-IsSent :
      (host : Bytes) (before : List ParsedUrl) (s : RuntimeState Session)
      (item : DiscoveredSubresource)
      → IsSent host before s
      → IsSent host before (enqueue_item s item)
  unfolding enqueue_item
  enqueue_item-IsSent host before s item p =
      if_both (IsSent host before) (member item.url s.dispatched || member item.url s.pending_urls)
        s _ p (record { same_host = p.same_host; requested = p.requested; addressed = p.addressed })

  enqueue-IsSent :
      (host : Bytes) (before : List ParsedUrl) (s : RuntimeState Session)
      (items : List DiscoveredSubresource)
      → IsSent host before s
      → IsSent host before (enqueue s items)
  unfolding enqueue
  enqueue-IsSent host before s [] p = p
  enqueue-IsSent host before s (item ∷ items) p =
      enqueue-IsSent host before (enqueue_item s item) items
        (enqueue_item-IsSent host before s item p)

  module _ (submit_request : Session → Option Priority → List (Bytes × Bytes) → ℤ × Session)
      (session_send : Session → Session) where
    request_item-submitted :
        (s : RuntimeState Session) (item : PendingSubresource) (parsed : ParsedUrl)
        → (request_item submit_request session_send s item parsed).client.submitted
          ≡ parsed ∷ s.client.submitted
    unfolding request_item
    request_item-submitted s item parsed =
        ap (λ c. c.submitted) (track-client _ item _)
        ∙ send_header-submitted submit_request session_send s.client parsed _

    catch-submitted :
        (s : RuntimeState Session) (item : PendingSubresource) (r : Result UriError ParsedUrl)
        → (catch r (request_item submit_request session_send s item) s).client.submitted
          ≡ onto r s.client.submitted
    catch-submitted s item (ok parsed) = request_item-submitted s item parsed
    catch-submitted s item (err e) = refl

    dispatch_item-submitted :
        (s : RuntimeState Session) (item : PendingSubresource)
        → member item.url s.dispatched ≡ false
        → (dispatch_item submit_request session_send s item).client.submitted
          ≡ onto (parse_url item.url) s.client.submitted
    unfolding dispatch_item
    dispatch_item-submitted s item fresh =
        let marked = record s {
          dispatched = item.url ∷ s.dispatched;
          pending_urls = remove item.url s.pending_urls;
        } in
        rw fresh (catch-submitted marked item (parse_url item.url))

    dispatch_item-IsSent :
        (host : Bytes) (before : List ParsedUrl) (s : RuntimeState Session)
        (item : PendingSubresource)
        → url_same_host item.url s.conn_host ≡ true
        → IsSent host before s
        → IsSent host before (dispatch_item submit_request session_send s item)
    dispatch_item-IsSent host before s item same p =
        elim (Bool-cases (member item.url s.dispatched)) [
          | inl old ↦ unfold dispatch_item in rw old p
          | inr fresh ↦
              let k = dispatch_item-Keeps submit_request session_send s item fresh in
              let sent = dispatch_item-submitted s item fresh in
              let here : url_same_host item.url host ≡ true =
                sym (ap (url_same_host item.url) p.same_host) ∙ same in
              record {
                same_host = k.same_host ∙ p.same_host;
                requested =
                    unfold parsed_of in
                    sent
                    ∙ (ap (onto (parse_url item.url)) p.requested
                        ∙ (onto-append (parse_url item.url) (parsed_of s.dispatched) before
                            ∙ sym (ap (λ ds. parsed_of ds ++ before) k.same_dispatched)));
                addressed =
                    ap (all_to host) sent
                    ∙ onto-addressed (parse_url item.url) host s.client.submitted
                        (unfold url_same_host in here) p.addressed;
              }
        ]

    dispatch_items-IsSent :
        (host : Bytes) (before : List ParsedUrl) (s : RuntimeState Session)
        (items deferred : List PendingSubresource)
        → IsSent host before s
        → IsSent host before (dispatch_items submit_request session_send s items deferred)
    dispatch_items-IsSent host before s [] deferred p =
        unfold dispatch_items in
        record { same_host = p.same_host; requested = p.requested; addressed = p.addressed }
    dispatch_items-IsSent host before s (item ∷ items) deferred p =
        elim (Bool-cases (url_same_host item.url s.conn_host)) [
          | inr other ↦
              rw (dispatch_items-other submit_request session_send s item items deferred other)
                (dispatch_items-IsSent host before s items (deferred ++ (item ∷ [])) p)
          | inl same ↦
              rw (dispatch_items-same submit_request session_send s item items deferred same) (
                dispatch_items-IsSent host before (dispatch_item submit_request session_send s item)
                  items deferred (dispatch_item-IsSent host before s item same p))
        ]

    pub dispatch_same_host-IsSent :
        (host : Bytes) (before : List ParsedUrl) (s : RuntimeState Session)
        → IsSent host before s
        → IsSent host before (dispatch_same_host submit_request session_send s)
    unfolding dispatch_same_host
    dispatch_same_host-IsSent host before s p =
        if_both (IsSent host before) s.client.goaway s _ p
          (dispatch_items-IsSent host before s s.pending [] p)

    -- The URLs of this host are submitted in their order, once each.
    pub dispatch_items-submitted :
        (s : RuntimeState Session) (items deferred : List PendingSubresource)
        → Distinct (urls_of items)
        → ((u : Bytes) → member u (urls_of items) ≡ true → member u s.dispatched ≡ false)
        → (dispatch_items submit_request session_send s items deferred).client.submitted
          ≡ rev_onto
              (parsed_of (keep (λ u. url_same_host u s.conn_host) (urls_of items)))
              s.client.submitted
    unfolding keep member parsed_of
    dispatch_items-submitted s [] deferred d a = unfold dispatch_items in refl
    dispatch_items-submitted s (item ∷ items) deferred d a =
        elim (Bool-cases (url_same_host item.url s.conn_host)) [
          | inr other ↦
              rw
                (
                  dispatch_items-other submit_request session_send s item items deferred other,
                  other,
                )
                (dispatch_items-submitted s items (deferred ++ (item ∷ [])) d.1
                  (λ u m. a u (ground (arith, m))))
          | inl same ↦
              let fresh = a item.url (ground (arith, beq_iff item.url item.url)) in
              let k = dispatch_item-Keeps submit_request session_send s item fresh in
              rw (dispatch_items-same submit_request session_send s item items deferred same, same)
                (dispatch_items-submitted (dispatch_item submit_request session_send s item) items
                    deferred d.1
                    (dispatch_item-apart submit_request session_send s item items d.0 a k)
                  ∙ (ap₂
                        (λ h l.
                          rev_onto (parsed_of (keep (λ u. url_same_host u h) (urls_of items))) l)
                        k.same_host (dispatch_item-submitted s item fresh)
                      ∙ sym (rev_onto-onto (parse_url item.url) _ s.client.submitted)))
        ]

    module _ (matches : Engine) (host : Bytes) (before : List ParsedUrl) where
      pub on_body_chunk-IsSent :
          (s : RuntimeState Session) (sid : ℕ) (chunk : Bytes)
          → IsSent host before s
          → IsSent host before (on_body_chunk submit_request session_send matches s sid chunk)
      unfolding on_body_chunk
      on_body_chunk-IsSent s sid chunk p =
          if_both (IsSent host before) (not (sid == s.primary_sid) || s.primary_done) s _ p (
            dispatch_same_host-IsSent host before _ (
              enqueue-IsSent host before _ _ (record {
                same_host = p.same_host;
                requested = p.requested;
                addressed = p.addressed;
              })))

      pub on_stream_complete-IsSent :
          (s : RuntimeState Session) (sid : ℕ) (resp : Response) (duration : ℕ)
          → IsSent host before s
          → IsSent host before
              (on_stream_complete submit_request session_send matches s sid resp duration).1
      unfolding on_stream_complete complete_primary complete_subresource
      on_stream_complete-IsSent s sid resp duration p = dispatch_same_host-IsSent host before _ (
          if_both (IsSent host before) (sid == s.primary_sid) _ _
            (enqueue-IsSent host before _ _ (record {
              same_host = p.same_host;
              requested = p.requested;
              addressed = p.addressed;
            }))
            (record { same_host = p.same_host; requested = p.requested; addressed = p.addressed }))
