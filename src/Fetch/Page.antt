-- ===== src/Fetch/Page.antt =====
-- fetcher.cpp: the page of `fetch_with_runtime_subresources`, whose scripts are requested while it arrives.
use bw_fetcher.Url.{ParsedUrl, UriError, what}
use bw_fetcher.Headers.{Response, merge_request_headers, navigation_headers}
use bw_fetcher.Cookies.{Jar}
use bw_fetcher.Fetch.Exchange.{Listener, event_loop}
use bw_fetcher.Profiles.{TlsConfig}
use bw_fetcher.Http2.{Client, on_header, send_header, reset_for_request, on_body_rec, on_frame_recv}
use bw_fetcher.Fetch.{
  Net, Outside, TlsConfig, Client, Delivery, Jar, header_came, teardown_connection, ParsedUrl, Turn,
  body_came, frame_came, ensure_connection,
}
use bw_fetcher.Fetch.One.{fail_with, timeout_error, noted}
use bw_fetcher.Base.{
  ℕ, Bool, true, false, not, Option, none, some, List, [], ◌++◌, if◌then◌else◌, Bytes, codes,
  bytes_key, nat_key, pair_key, ℤ, Result, beq, is_empty, negsuc, err, pos, ok,
}
use bw_fetcher.Runtime.{RuntimeState, on_body_chunk, on_stream_complete}
use bw_fetcher.Scripts.Scanner.{new_scanner}
use bw_fetcher.Types.{MultiFetchResult, FetchOptions}

-- `batch.primary.error = …`
abbrev pub batch_error : MultiFetchResult → Bytes → MultiFetchResult
batch_error batch error = record batch { primary = fail_with batch.primary error }

-- A round of the loop over the redirects of the page.
pub data PageHop (Session : Type 0) : Type 0 where
  page_returned : Net Session → MultiFetchResult → PageHop Session
  page_arrived : Net Session → RuntimeState Session → PageHop Session
  page_redirected : Bytes → Net Session → MultiFetchResult → PageHop Session

-- `RuntimeSubresourceState`, as it is when the request of the page is sent.
unfoldable pub new_state :
    {Session : Type 0}
    → FetchOptions
    → TlsConfig
    → MultiFetchResult
    → Bytes
    → Jar
    → Bytes
    → Client Session
    → ℕ
    → RuntimeState Session
new_state opt profile batch target cookies conn_host client sid = record {
  client = client;
  cookies = cookies;
  conn_host = conn_host;
  profile_headers = profile.headers;
  batch = batch;
  scanner = new_scanner target opt.max_subresources;
  pending = [];
  pending_urls = [];
  dispatched = [];
  url_sources = [];
  sid_url = [];
  sid_discovery = [];
  sid_seq = [];
  primary_sid = sid;
  primary_seq = 0;
  next_seq = 1;
  active_streams = 1;
  primary_done = false;
  page_url = target;
}

-- The connection after the loop, which the state shares.
abbrev pub share : {Session : Type 0} → Net Session → RuntimeState Session → Net Session
share net s = record net { conn = record net.conn { h2 = some s.client; cookies = s.cookies } }

module _ {Session : Type 0} (o : Outside Session) where
  -- `stream_complete_cb`
  unfoldable pub complete_stream :
      ℕ → ℕ → Response → RuntimeState Session → Bool × RuntimeState Session
  complete_stream duration sid resp s =
      on_stream_complete o.submit_request o.session_send o.matches s sid resp duration

  unfoldable pub deliver_page : RuntimeState Session → Delivery → RuntimeState Session
  unfolding complete_stream on_frame_recv
  deliver_page s (header_came sid name value) = record s {
    client = on_header s.client sid name value;
  }
  deliver_page s (body_came sid chunk) =
      on_body_chunk o.submit_request o.session_send o.matches
        (record s { client = on_body_rec s.client sid chunk }) sid chunk
  deliver_page s (frame_came frame duration) =
      on_frame_recv (λ s. s.client) (λ client s. record s { client = client })
        (complete_stream duration) o.gunzip o.unbrotli s frame

  unfoldable pub page_listener : Listener (RuntimeState Session)
  page_listener = record {
    deliver = deliver_page;
    is_running = λ s. s.client.running;
    receive =
        λ s. record s { client = record s.client { session = o.session_recv s.client.session } };
    flush =
        λ s. record s { client = record s.client { session = o.session_send s.client.session } };
  }

  module _ (opt : FetchOptions) (profile : TlsConfig) where
    unfoldable pub page_after_loop :
        Net Session → Option (Bool × RuntimeState Session) → Option (PageHop Session)
    page_after_loop net none = none
    page_after_loop net (some (false, s)) = some (
        page_returned (teardown_connection (share net s))
          (batch_error s.batch (timeout_error o opt profile)))
    page_after_loop net (some (true, s)) =
        if is_empty s.client.redirect_url
        then some (page_arrived (share net s) s)
        else some (page_redirected s.client.redirect_url (share net s) s.batch)

    unfoldable pub page_after_submit :
        Bytes
        → MultiFetchResult
        → Net Session
        → ℤ × Client Session
        → List Turn
        → Option (PageHop Session)
    unfolding page_after_loop page_listener new_state
    page_after_submit target batch net (negsuc e, client) turns = some (
        page_returned (teardown_connection net)
          (batch_error batch (codes "failed to submit HTTP/2 request")))
    page_after_submit target batch net (pos sid, client) turns = page_after_loop net (
        event_loop page_listener opt.timeout_ms
          (new_state opt profile batch target net.conn.cookies net.conn.conn_host client sid) turns)

    unfoldable pub ask_page_over :
        Bytes
        → ParsedUrl
        → MultiFetchResult
        → Net Session
        → Client Session
        → Option (PageHop Session)
    unfolding page_after_submit
    ask_page_over target url batch net client =
        let sent =
          send_header o.submit_request o.session_send (reset_for_request client) url
            (merge_request_headers profile.headers navigation_headers) in
        page_after_submit target batch (noted url sent.1 net) sent (o.turns net.asked)

    unfoldable pub unsupported : MultiFetchResult → Net Session → PageHop Session
    unsupported batch net =
        page_returned net (batch_error batch (codes "unsupported protocol: " ++ net.conn.protocol))

    unfoldable pub ask_page :
        Bytes → ParsedUrl → MultiFetchResult → Net Session → Option (PageHop Session)
    unfolding ask_page_over unsupported
    ask_page target url batch net =
        if not (beq net.conn.protocol (codes "h2"))
        then some (unsupported batch net)
        else elim net.conn.h2 [
          | none ↦ some (unsupported batch net)
          | some client ↦ ask_page_over target url batch net client
        ]

    unfoldable pub page_after_connect :
        Bytes → ParsedUrl → MultiFetchResult → Net Session × Option Bytes → Option (PageHop Session)
    unfolding ask_page
    page_after_connect target url batch (net, some error) =
        some (page_returned net (batch_error batch error))
    page_after_connect target url batch (net, none) = ask_page target url batch net

    unfoldable pub page_hop :
        Bytes
        → Result UriError ParsedUrl
        → MultiFetchResult
        → Net Session
        → Option (PageHop Session)
    unfolding page_after_connect
    page_hop target (err e) batch net = some (
        page_returned (teardown_connection net)
          (batch_error batch (codes "URL parse failed: " ++ what e)))
    page_hop target (ok url) batch net =
        page_after_connect target url batch
          (ensure_connection o (codes "proxy handshake failed") opt profile url net)
