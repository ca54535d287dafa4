-- ===== src/Runtime.antt =====
-- fetcher.cpp: `RuntimeSubresourceState`, which requests the scripts of a page while it arrives.
-- The regular expressions, the session of nghttp2 and the clock are parameters.
pub mod Sets
pub mod Queue
pub mod Dispatch
pub mod Sent
pub mod Run
use bw_fetcher.Headers.{Response, subresource_headers, response_to_result, merge_request_headers}
use bw_fetcher.Scripts.Scanner.{feed, Scanner, finalize}
use bw_fetcher.Types.{Headers, MultiFetchResult}
use bw_fetcher.Url.{parse_url, ParsedUrl}
use bw_fetcher.Cookies.{Jar, build_cookie_header, absorb_set_cookie}
use bw_fetcher.Scripts.{DiscoveredSubresource, Engine}
use bw_fetcher.Http2.{Client, Priority, header_at, response_at, send_header}
use bw_fetcher.Base.{
  ℕ, zero, suc, ◌+◌, ◌-◌, ◌*◌, ◌≤◌, ◌<◌, ◌≡◌, ◌≢◌, ◌↔◌, ◌⊎◌, inl, inr, refl, sym, ap, ap₂, ◌∙◌,
  Bool, true, false, not, ◌&&◌, ◌||◌, Option, none, some, List, [], ◌∷◌, ◌++◌, map, arith, ltb, leb,
  ◌==◌, if◌then◌else◌, Bool-cases, Option-cases, Bytes, codes, length, bytes_key, nat_key, pair_key,
  catch, beq, ℤ, member, negsuc, insert, pos, lookup, erase, Dict,
}

pub record PendingSubresource : Type 0 where
  pub url : Bytes
  pub discovery_source : Bytes

-- `conn` is the client, the cookies and the host, and is always there; `profile` is its headers.
pub record RuntimeState (Session : Type 0) : Type 0 where
  pub client : Client Session
  pub cookies : Jar
  pub conn_host : Bytes
  pub profile_headers : Headers
  pub batch : MultiFetchResult
  pub scanner : Scanner
  pub pending : List PendingSubresource
  pub pending_urls : List Bytes
  pub dispatched : List Bytes
  pub url_sources : Dict Bytes Bytes
  pub sid_url : Dict ℕ Bytes
  pub sid_discovery : Dict ℕ Bytes
  pub sid_seq : Dict ℕ ℕ
  pub primary_sid : ℕ
  pub primary_seq : ℕ
  pub next_seq : ℕ
  pub active_streams : ℕ
  pub primary_done : Bool
  pub page_url : Bytes

unfoldable pub url_same_host : Bytes → Bytes → Bool
url_same_host url host = catch (parse_url url) (λ parsed. beq parsed.host host) false

unfoldable pub host_of : Bytes → Bytes
host_of url = catch (parse_url url) (λ parsed. parsed.host) []

-- `erase` of a set.
unfoldable pub remove : Bytes → List Bytes → List Bytes
remove x [] = []
remove x (y ∷ s) = let rest = remove x s in if beq y x then rest else y ∷ rest

-- What `enqueue` does with one item.
unfoldable pub enqueue_item :
    {Session : Type 0} → RuntimeState Session → DiscoveredSubresource → RuntimeState Session
enqueue_item s item =
    if member item.url s.dispatched || member item.url s.pending_urls then s else record s {
      pending_urls = item.url ∷ s.pending_urls;
      url_sources = insert item.url item.discovery_source s.url_sources;
      pending =
          s.pending ++ (record { url = item.url; discovery_source = item.discovery_source } ∷ []);
    }

unfoldable pub enqueue :
    {Session : Type 0} → RuntimeState Session → List DiscoveredSubresource → RuntimeState Session
enqueue s [] = s
enqueue s (item ∷ items) = enqueue (enqueue_item s item) items

-- The maps by stream, once a request was accepted.
unfoldable pub track :
    {Session : Type 0} → RuntimeState Session → PendingSubresource → ℤ → RuntimeState Session
track s item (negsuc e) = s
track s item (pos sid) = record s {
  sid_url = insert sid item.url s.sid_url;
  sid_discovery = insert sid item.discovery_source s.sid_discovery;
  sid_seq = insert sid s.next_seq s.sid_seq;
  next_seq = s.next_seq + 1;
  active_streams = s.active_streams + 1;
}

-- `--active_streams`, which stays at 0.
abbrev pub count_down : {Session : Type 0} → RuntimeState Session → RuntimeState Session
count_down s = record s { active_streams = s.active_streams - 1 }

unfoldable pub complete_primary :
    {Session : Type 0} → Engine → RuntimeState Session → ℕ → Response → ℕ → RuntimeState Session
complete_primary matches s sid resp duration =
    let result =
      response_to_result resp s.page_url duration sid (pos s.primary_seq) (codes "primary")
        (codes "primary") in
    let rest = finalize matches s.scanner in
    enqueue
      (record s {
        primary_done = true;
        cookies = absorb_set_cookie s.cookies resp.headers;
        batch = record { primary = result; also = s.batch.also };
        scanner = rest.1;
      })
      rest.0

unfoldable pub complete_subresource :
    {Session : Type 0} → RuntimeState Session → ℕ → Response → ℕ → RuntimeState Session
complete_subresource s sid resp duration =
    let url : Bytes = elim (lookup sid s.sid_url) [ none ↦ s.page_url | some url ↦ url ] in
    let source : Bytes = elim (lookup sid s.sid_discovery) [
      | none ↦ codes "other"
      | some source ↦ source
    ] in
    let seq : ℕ = elim (lookup sid s.sid_seq) [ none ↦ s.primary_seq | some seq ↦ seq ] in
    let result = response_to_result resp url duration sid (pos seq) (codes "subresource") source in
    record s {
      sid_url = erase sid s.sid_url;
      sid_discovery = erase sid s.sid_discovery;
      sid_seq = erase sid s.sid_seq;
      batch = record { primary = s.batch.primary; also = s.batch.also ++ (result ∷ []) };
    }

module _ {Session : Type 0}
    (submit_request : Session → Option Priority → List (Bytes × Bytes) → ℤ × Session)
    (session_send : Session → Session) where
  -- The request of an item that parses.
  unfoldable pub request_item :
      RuntimeState Session → PendingSubresource → ParsedUrl → RuntimeState Session
  unfolding track host_of
  request_item s item parsed =
      let cookie = build_cookie_header s.cookies in
      let hdrs = subresource_headers s.page_url s.conn_host (host_of item.url) cookie in
      let sent =
        send_header submit_request session_send s.client parsed
          (merge_request_headers s.profile_headers hdrs) in
      track (record s { client = sent.1 }) item sent.0

  -- An item of this host: it is marked, and requested.
  unfoldable pub dispatch_item : RuntimeState Session → PendingSubresource → RuntimeState Session
  unfolding request_item
  dispatch_item s item =
      let marked = record s {
        dispatched = item.url ∷ s.dispatched;
        pending_urls = remove item.url s.pending_urls;
      } in
      if member item.url s.dispatched
      then s
      else catch (parse_url item.url) (request_item marked item) marked

  -- The loop over the items, with `deferred`.
  unfoldable pub dispatch_items :
      RuntimeState Session
      → List PendingSubresource
      → List PendingSubresource
      → RuntimeState Session
  dispatch_items s [] deferred = record s { pending = deferred }
  dispatch_items s (item ∷ items) deferred = elim (url_same_host item.url s.conn_host) [
    | true ↦ dispatch_items (dispatch_item s item) items deferred
    | false ↦ dispatch_items s items (deferred ++ (item ∷ []))
  ]

  unfoldable pub dispatch_same_host : RuntimeState Session → RuntimeState Session
  dispatch_same_host s = if s.client.goaway then s else dispatch_items s s.pending []

  module _ (matches : Engine) where
    unfoldable pub on_body_chunk : RuntimeState Session → ℕ → Bytes → RuntimeState Session
    on_body_chunk s sid chunk =
        let fed = feed matches s.scanner chunk in
        if not (sid == s.primary_sid) || s.primary_done
        then s
        else dispatch_same_host (enqueue (record s { scanner = fed.1 }) fed.0)

    -- The answer is whether the event loop stops.
    unfoldable pub on_stream_complete :
        RuntimeState Session → ℕ → Response → ℕ → Bool × RuntimeState Session
    unfolding complete_primary complete_subresource
    on_stream_complete s sid resp duration =
        let completed =
          if sid == s.primary_sid
          then complete_primary matches (count_down s) sid resp duration
          else complete_subresource (count_down s) sid resp duration in
        let next = dispatch_same_host completed in
        (next.primary_done && next.active_streams == 0, next)
