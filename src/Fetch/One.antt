-- ===== src/Fetch/One.antt =====
-- fetcher.cpp: `fetch_one`. A null pointer that would be followed and an event loop without an end have no
-- result.
use bw_fetcher.Profiles.{TlsConfig}
use bw_fetcher.Fetch.Exchange.{Listener, event_loop}
use bw_fetcher.Url.{ParsedUrl, parse_url, UriError, what}
use bw_fetcher.Cookies.{absorb_set_cookie}
use bw_fetcher.Headers.{Response, status_of, merge_request_headers}
use bw_fetcher.Types.{FetchResult, FetchOptions, Headers, no_result}
use bw_fetcher.Fetch.{
  Net, Outside, ParsedUrl, Delivery, FetchOptions, request_sent, header_came, TlsConfig,
  teardown_connection, Turn, no_tunnel_port, body_came, frame_came, ensure_connection,
}
use bw_fetcher.Http2.{Client, on_header, send_header, on_body_rec, reset_for_request, on_frame_recv}
use bw_fetcher.Base.{
  ℕ, zero, suc, ◌+◌, Bool, true, false, not, ◌&&◌, Option, none, some, List, ◌∷◌, ◌++◌,
  if◌then◌else◌, Bytes, codes, bytes_key, nat_key, pair_key, ℤ, is_empty, pos, negsuc,
  int_to_string, beq, Result, err, ok,
}

-- The client, and the result that the callback writes.
pub record Capture (Session : Type 0) : Type 0 where
  pub client : Client Session
  pub result : FetchResult

-- What follows a round of the loop over the redirects: a `return` of an error, the end of the loop, or the
-- next hop.
pub data Hop (Session : Type 0) : Type 0 where
  returned finished : Net Session → FetchResult → Hop Session
  redirected : Bytes → Net Session → FetchResult → Hop Session

unfoldable pub on_response : FetchResult → Response → ℕ → FetchResult
on_response r resp duration = record r {
  ok = true;
  headers = resp.headers;
  body = resp.body;
  ttfb_ms = duration;
  status = status_of resp.headers r.status;
}

-- A response ends the loop.
unfoldable pub take_response :
    {Session : Type 0} → ℕ → ℕ → Response → Capture Session → Bool × Capture Session
unfolding on_response
take_response duration sid resp c = (true, record c { result = on_response c.result resp duration })

abbrev pub fail_with : FetchResult → Bytes → FetchResult
fail_with r error = record r { error = error }

-- `for (int hop = 0; hop < max_redirects; ++hop)`
abbrev pub hop_limit : ℤ → ℕ
hop_limit (pos n) = n
hop_limit (negsuc n) = 0

-- The end of the function.
unfoldable pub conclude_result : FetchResult → FetchResult
conclude_result r =
    if not r.ok && is_empty r.error
    then fail_with r (codes "no response captured (redirect limit reached?)")
    else r

unfoldable pub conclude_net : {Session : Type 0} → FetchResult → Net Session → Net Session
conclude_net r net =
    if r.ok
    then record net {
      conn = record net.conn { cookies = absorb_set_cookie net.conn.cookies r.headers };
    }
    else net

abbrev pub after_hop :
    {Session : Type 0}
    → (Bytes → FetchResult → Net Session → Option (Net Session × FetchResult))
    → Option (Hop Session)
    → Option (Net Session × FetchResult)
after_hop next none = none
after_hop next (some (returned net r)) = some (net, r)
after_hop next (some (finished net r)) = some (conclude_net r net, conclude_result r)
after_hop next (some (redirected target net r)) = next target r net

-- The request of number `asked` was given to the client.
unfoldable pub noted : {Session : Type 0} → ParsedUrl → Client Session → Net Session → Net Session
noted url client net = record net {
  conn = record net.conn { h2 = some client };
  asked = net.asked + 1;
  trace = request_sent url.host url.port ∷ net.trace;
}

abbrev pub with_client : {Session : Type 0} → Net Session → Client Session → Net Session
with_client net client = record net { conn = record net.conn { h2 = some client } }

module _ {Session : Type 0} (o : Outside Session) where
  unfoldable pub deliver_one : Capture Session → Delivery → Capture Session
  unfolding take_response on_frame_recv
  deliver_one c (header_came sid name value) = record c {
    client = on_header c.client sid name value;
  }
  deliver_one c (body_came sid chunk) = record c { client = on_body_rec c.client sid chunk }
  deliver_one c (frame_came frame duration) =
      on_frame_recv (λ c. c.client) (λ client c. record c { client = client })
        (take_response duration) o.gunzip o.unbrotli c frame

  unfoldable pub one_listener : Listener (Capture Session)
  one_listener = record {
    deliver = deliver_one;
    is_running = λ c. c.client.running;
    receive =
        λ c. record c { client = record c.client { session = o.session_recv c.client.session } };
    flush =
        λ c. record c { client = record c.client { session = o.session_send c.client.session } };
  }

  module _ (opt : FetchOptions) (profile : TlsConfig) where
    unfoldable pub timeout_error : Bytes
    timeout_error = codes "request timed out after " ++ (int_to_string opt.timeout_ms ++ codes "ms")

    unfoldable pub after_loop : Net Session → Option (Bool × Capture Session) → Option (Hop Session)
    unfolding timeout_error
    after_loop net none = none
    after_loop net (some (false, c)) =
        some (returned (teardown_connection net) (fail_with c.result timeout_error))
    after_loop net (some (true, c)) =
        if is_empty c.client.redirect_url
        then some (finished (with_client net c.client) c.result)
        else some (
            redirected c.client.redirect_url (with_client net c.client)
              (record c.result { ok = false }))

    unfoldable pub after_submit :
        FetchResult → Net Session → ℤ × Client Session → List Turn → Option (Hop Session)
    unfolding after_loop one_listener
    after_submit r net (negsuc e, client) turns =
        some (
          returned (teardown_connection net)
            (fail_with r (codes "failed to submit HTTP/2 request")))
    after_submit r net (pos sid, client) turns =
        after_loop net
          (event_loop one_listener opt.timeout_ms (record { client = client; result = r }) turns)

    unfoldable pub ask_over :
        Headers → ParsedUrl → FetchResult → Net Session → Client Session → Option (Hop Session)
    unfolding noted after_submit
    ask_over overrides url r net client =
        let sent =
          send_header o.submit_request o.session_send (reset_for_request client) url
            (merge_request_headers profile.headers overrides) in
        after_submit r (noted url sent.1 net) sent (o.turns net.asked)

    unfoldable pub ask : Headers → ParsedUrl → FetchResult → Net Session → Option (Hop Session)
    unfolding ask_over
    ask overrides url r net =
        if not (beq net.conn.protocol (codes "h2"))
        then some (finished net (fail_with r (codes "unsupported protocol: " ++ net.conn.protocol)))
        else elim net.conn.h2 [ none ↦ none | some client ↦ ask_over overrides url r net client ]

    unfoldable pub after_connect :
        Headers → ParsedUrl → FetchResult → Net Session × Option Bytes → Option (Hop Session)
    unfolding ask
    after_connect overrides url r (net, some error) = some (returned net (fail_with r error))
    after_connect overrides url r (net, none) = ask overrides url r net

    unfoldable pub hop_to :
        Headers → Result UriError ParsedUrl → FetchResult → Net Session → Option (Hop Session)
    unfolding after_connect no_tunnel_port
    hop_to overrides (err e) r net =
        some
          (returned (teardown_connection net) (fail_with r (codes "URL parse failed: " ++ what e)))
    hop_to overrides (ok url) r net =
        after_connect overrides url r (ensure_connection o (no_tunnel_port url) opt profile url net)

    unfoldable pub fetch_hops :
        Headers → ℕ → Bytes → FetchResult → Net Session → Option (Net Session × FetchResult)
    unfolding hop_to conclude_result conclude_net
    fetch_hops overrides zero target r net = some (conclude_net r net, conclude_result r)
    fetch_hops overrides (suc hops) target r net =
        after_hop (fetch_hops overrides hops)
          (hop_to overrides (parse_url target) (record r { final_url = target }) net)

    unfoldable pub fetch_one : Bytes → Headers → Net Session → Option (Net Session × FetchResult)
    unfolding fetch_hops
    fetch_one start_url overrides net =
        fetch_hops overrides (hop_limit opt.max_redirects) start_url no_result net
