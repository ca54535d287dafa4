-- ===== src/Runtime/Dispatch.antt =====
-- What one pass over the waiting scripts changes.
use bw_fetcher.Runtime.Queue.{urls_of, urls_of-append, url_same_host-eq}
use bw_fetcher.Url.{ParsedUrl, parse_url, UriError}
use bw_fetcher.Runtime.Sets.{keep, member-remove}
use bw_fetcher.Http2.{Priority}
use bw_fetcher.Runtime.{
  PendingSubresource, RuntimeState, track, request_item, dispatch_item, ParsedUrl, remove,
  parse_url, dispatch_items, url_same_host,
}
use bw_fetcher.Base.{
  ◌≡◌, inl, inr, refl, sym, ap, ap₂, ◌∙◌, true, false, not, ◌&&◌, Option, List, [], ◌∷◌, ◌++◌,
  arith, Bool-cases, Bytes, bytes_key, nat_key, pair_key, member, Distinct, ℤ, negsuc, beq_iff, pos,
  Result, catch, ok, err, append-nil, append_assoc, rev_onto, beq,
}

-- A request leaves the sets and the host as they are.
pub record Keeps {Session : Type 0} (s t : RuntimeState Session) : Type 0 where
  pub same_dispatched : t.dispatched ≡ s.dispatched
  pub same_pending_urls : t.pending_urls ≡ s.pending_urls
  pub same_host : t.conn_host ≡ s.conn_host

track-Keeps :
    {Session : Type 0} (s : RuntimeState Session) (item : PendingSubresource) (sid : ℤ)
    → Keeps s (track s item sid)
unfolding track
track-Keeps s item (negsuc e) = record {
  same_dispatched = refl;
  same_pending_urls = refl;
  same_host = refl;
}
track-Keeps s item (pos n) = record {
  same_dispatched = refl;
  same_pending_urls = refl;
  same_host = refl;
}

module _ {Session : Type 0}
    (submit_request : Session → Option Priority → List (Bytes × Bytes) → ℤ × Session)
    (session_send : Session → Session) where
  request_item-Keeps :
      (s : RuntimeState Session) (item : PendingSubresource) (parsed : ParsedUrl)
      → Keeps s (request_item submit_request session_send s item parsed)
  unfolding request_item
  request_item-Keeps s item parsed =
      let k = track-Keeps _ item _ in
      record {
        same_dispatched = k.same_dispatched;
        same_pending_urls = k.same_pending_urls;
        same_host = k.same_host;
      }

  catch-Keeps :
      (s : RuntimeState Session) (item : PendingSubresource) (r : Result UriError ParsedUrl)
      → Keeps s (catch r (request_item submit_request session_send s item) s)
  catch-Keeps s item (ok parsed) = request_item-Keeps s item parsed
  catch-Keeps s item (err e) = record {
    same_dispatched = refl;
    same_pending_urls = refl;
    same_host = refl;
  }

  pub dispatch_item-Keeps :
      (s : RuntimeState Session) (item : PendingSubresource)
      → member item.url s.dispatched ≡ false
      → Keeps
          (record s {
            dispatched = item.url ∷ s.dispatched;
            pending_urls = remove item.url s.pending_urls;
          })
          (dispatch_item submit_request session_send s item)
  unfolding dispatch_item
  dispatch_item-Keeps s item fresh =
      let marked = record s {
        dispatched = item.url ∷ s.dispatched;
        pending_urls = remove item.url s.pending_urls;
      } in
      rw fresh (catch-Keeps marked item (parse_url item.url))

  pub dispatch_items-same :
      (s : RuntimeState Session) (item : PendingSubresource)
      (items deferred : List PendingSubresource)
      → url_same_host item.url s.conn_host ≡ true
      → dispatch_items submit_request session_send s (item ∷ items) deferred
        ≡ dispatch_items submit_request session_send
            (dispatch_item submit_request session_send s item)
            items
            deferred
  unfolding dispatch_items
  dispatch_items-same s item items deferred same = rw (dispatch_items, same)

  pub dispatch_items-other :
      (s : RuntimeState Session) (item : PendingSubresource)
      (items deferred : List PendingSubresource)
      → url_same_host item.url s.conn_host ≡ false
      → dispatch_items submit_request session_send s (item ∷ items) deferred
        ≡ dispatch_items submit_request session_send s items (deferred ++ (item ∷ []))
  unfolding dispatch_items
  dispatch_items-other s item items deferred other = rw (dispatch_items, other)

  dispatch_item-same_host :
      (s : RuntimeState Session) (item : PendingSubresource)
      → (dispatch_item submit_request session_send s item).conn_host ≡ s.conn_host
  dispatch_item-same_host s item = elim (Bool-cases (member item.url s.dispatched)) [
    | inl old ↦ unfold dispatch_item in rw old
    | inr fresh ↦ (dispatch_item-Keeps s item fresh).same_host
  ]

  pub dispatch_items-pending :
      (s : RuntimeState Session) (items deferred : List PendingSubresource)
      → urls_of (dispatch_items submit_request session_send s items deferred).pending
        ≡ urls_of deferred ++ keep (λ u. not (url_same_host u s.conn_host)) (urls_of items)
  unfolding keep
  dispatch_items-pending s [] deferred = unfold dispatch_items in sym (append-nil _)
  dispatch_items-pending s (item ∷ items) deferred =
      elim (Bool-cases (url_same_host item.url s.conn_host)) [
        | inr other ↦
            rw
              (
                dispatch_items-other s item items deferred other,
                dispatch_items-pending s items (deferred ++ (item ∷ [])),
                other,
                urls_of-append deferred (item ∷ []),
              )
              (append_assoc (urls_of deferred) (item.url ∷ []) _)
        | inl same ↦ rw (
          dispatch_items-same s item items deferred same,
          dispatch_items-pending (dispatch_item submit_request session_send s item) items deferred,
          dispatch_item-same_host s item,
          same,
        )
      ]

  pub dispatch_item-apart :
      (s : RuntimeState Session) (item : PendingSubresource) (items : List PendingSubresource)
      → member item.url (urls_of items) ≡ false
      → ((u : Bytes) → member u (urls_of (item ∷ items)) ≡ true → member u s.dispatched ≡ false)
      → Keeps
          (record s {
            dispatched = item.url ∷ s.dispatched;
            pending_urls = remove item.url s.pending_urls;
          })
          (dispatch_item submit_request session_send s item)
      → (u : Bytes) → member u (urls_of items) ≡ true
      → member u (dispatch_item submit_request session_send s item).dispatched ≡ false
  unfolding member
  dispatch_item-apart s item items n a k u m = elim (Bool-cases (beq item.url u)) [
    | inl e ↦
        let e' : item.url ≡ u = (beq_iff item.url u).0 e in
        ground (arith, n, m, ap (λ x. member x (urls_of items)) e')
    | inr e ↦ rw (k.same_dispatched, e) (a u (ground (arith, m)))
  ]

  -- The URLs of this host are requested in their order, and those alone.
  pub dispatch_items-dispatched :
      (s : RuntimeState Session) (items deferred : List PendingSubresource)
      → Distinct (urls_of items)
      → ((u : Bytes) → member u (urls_of items) ≡ true → member u s.dispatched ≡ false)
      → (dispatch_items submit_request session_send s items deferred).dispatched
        ≡ rev_onto (keep (λ u. url_same_host u s.conn_host) (urls_of items)) s.dispatched
  unfolding keep member
  dispatch_items-dispatched s [] deferred d a = unfold dispatch_items in refl
  dispatch_items-dispatched s (item ∷ items) deferred d a =
      elim (Bool-cases (url_same_host item.url s.conn_host)) [
        | inr other ↦
            rw (dispatch_items-other s item items deferred other, other)
              (dispatch_items-dispatched s items (deferred ++ (item ∷ [])) d.1
                (λ u m. a u (ground (arith, m))))
        | inl same ↦
            let fresh = a item.url (ground (arith, beq_iff item.url item.url)) in
            let k = dispatch_item-Keeps s item fresh in
            rw (dispatch_items-same s item items deferred same, same)
              (dispatch_items-dispatched (dispatch_item submit_request session_send s item) items
                  deferred d.1 (dispatch_item-apart s item items d.0 a k)
                ∙ ap₂ (λ h ds. rev_onto (keep (λ u. url_same_host u h) (urls_of items)) ds)
                    k.same_host k.same_dispatched)
      ]

  pub dispatch_items-pending_urls :
      (s : RuntimeState Session) (items deferred : List PendingSubresource) (u : Bytes)
      → Distinct (urls_of items)
      → ((u : Bytes) → member u (urls_of items) ≡ true → member u s.dispatched ≡ false)
      → member u (dispatch_items submit_request session_send s items deferred).pending_urls
        ≡ (member u s.pending_urls && not (member u (urls_of items) && url_same_host u s.conn_host))
  unfolding member
  dispatch_items-pending_urls s [] deferred u d a = unfold dispatch_items in ground arith
  dispatch_items-pending_urls s (item ∷ items) deferred u d a =
      elim (Bool-cases (url_same_host item.url s.conn_host)) [
        | inr other ↦
            let rest =
              dispatch_items-pending_urls s items (deferred ++ (item ∷ [])) u d.1
                (λ u m. a u (ground (arith, m))) in
            rw (dispatch_items-other s item items deferred other)
              (ground (arith, rest, other, url_same_host-eq item.url u s.conn_host))
        | inl same ↦
            let fresh = a item.url (ground (arith, beq_iff item.url item.url)) in
            let k = dispatch_item-Keeps s item fresh in
            let rest =
              dispatch_items-pending_urls (dispatch_item submit_request session_send s item) items
                deferred u d.1 (dispatch_item-apart s item items d.0 a k) in
            rw (dispatch_items-same s item items deferred same) (
              rest
              ∙ ap₂ (λ h ps. member u ps && not (member u (urls_of items) && url_same_host u h))
                  k.same_host k.same_pending_urls
              ∙ ground (
                arith,
                member-remove u item.url s.pending_urls,
                same,
                url_same_host-eq item.url u s.conn_host,
              ))
      ]
