-- ===== src/Http2.antt =====
-- HTTP2_Client/http2_client.cpp: the client's requests and the callbacks of nghttp2. The session of
-- nghttp2 and the decompressors of zlib and brotli are parameters.
pub mod Reports
pub mod Streams
pub mod Loop
use bw_fetcher.Headers.{Response, no_response}
use bw_fetcher.Url.{ParsedUrl}
use bw_fetcher.Types.{Headers}
use bw_fetcher.Base.{
  ℕ, zero, suc, ◌+◌, ◌-◌, ◌*◌, ◌≤◌, ◌<◌, ◌≡◌, ◌≢◌, ◌↔◌, ◌⊎◌, inl, inr, refl, sym, ap, ap₂, ◌∙◌,
  Bool, true, false, not, ◌&&◌, ◌||◌, Option, none, some, List, [], ◌∷◌, ◌++◌, map, arith, ltb, leb,
  ◌==◌, if◌then◌else◌, Bool-cases, Option-cases, Bytes, codes, length, bytes_key, nat_key, pair_key,
  Dict, starts_with, find, insert, ℤ, beq, lookup, take, is_empty, pos, negsuc, every,
}

-- `H2Profile`, as far as a request reads it.
pub record Priority : Type 0 where
  pub dep : ℕ
  pub weight : ℕ
  pub exclusive : Bool

-- `submitted` is a log and no field of the code: the URLs of the requests that were given to nghttp2, the newest first.
pub record Client (Session : Type 0) : Type 0 where
  pub session : Session
  pub submitted : List ParsedUrl
  pub host : Bytes
  pub priority : Option Priority
  pub running : Bool
  pub goaway : Bool
  pub redirect_url : Bytes
  pub responses : Dict ℕ Response

-- The frames that the callbacks tell apart: `end_stream` is `NGHTTP2_FLAG_END_STREAM`.
pub data Frame : Type 0 where
  goaway_frame : Frame
  stream_frame : (sid : ℕ) (end_stream : Bool) → Frame
  other_frame : Frame

-- All requests are for one host.
abbrev pub all_to : Bytes → List ParsedUrl → Bool
all_to host = every (λ url. beq url.host host)

abbrev pub response_or_new : Option Response → Response
response_or_new none = no_response
response_or_new (some r) = r

-- `http2_responses[sid]`, which makes an entry where there is none.
unfoldable pub response_at : ℕ → Dict ℕ Response → Response
response_at sid m = response_or_new (lookup sid m)

-- `headers[name]`
unfoldable pub header_at : Bytes → Headers → Bytes
header_at name headers = elim (lookup name headers) [ none ↦ [] | some v ↦ v ]

abbrev pub has : Bytes → Headers → Bool
has name headers = elim (lookup name headers) [ none ↦ false | some v ↦ true ]

-- `resp.headers[":status"]`, which makes an empty header where there is none.
unfoldable pub touch_status : Response → Response
touch_status resp =
    if has (codes ":status") resp.headers
    then resp
    else record resp { headers = insert (codes ":status") [] resp.headers }

unfoldable pub is_redirect : Headers → Bool
unfolding header_at
is_redirect headers =
    let status = header_at (codes ":status") headers in
    (beq status (codes "301")
      || beq status (codes "302")
      || beq status (codes "303")
      || beq status (codes "307")
      || beq status (codes "308"))
    && has (codes "location") headers

unfoldable pub resolve_location : Bytes → Bytes → Bytes
resolve_location host loc =
    if starts_with (codes "//") loc
    then codes "https:" ++ loc
    else if starts_with (codes "/") loc
    then codes "https://" ++ (host ++ loc)
    else loc

unfoldable pub content_encoding : Headers → Bytes
unfolding header_at
content_encoding headers =
    if has (codes "content-encoding") headers
    then header_at (codes "content-encoding") headers
    else header_at (codes "Content-Encoding") headers

-- `:authority`, without a port.
unfoldable pub authority : Bytes → Bytes
authority host = elim (find b':' host) [ none ↦ host | some colon ↦ take colon host ]

-- The pseudo-headers in the order of the browser, and the headers behind them.
unfoldable pub request_headers : Bytes → ParsedUrl → Headers → List (Bytes × Bytes)
unfolding authority
request_headers host url headers =
    (codes ":method", codes "GET")
    ∷ (codes ":scheme", codes "https")
    ∷ (codes ":authority", authority host)
    ∷ (codes ":path", if is_empty url.query then url.path else url.path ++ (codes "?" ++ url.query))
    ∷ headers

-- `perform_decompression`, for the body: an encoding it does not know leaves the body as it is.
unfoldable pub decode_body : (Bytes → Bytes) → (Bytes → Bytes) → Bytes → Bytes → Bytes
decode_body decompress_gzip_deflate decompress_brotli encoding body =
    if beq encoding (codes "gzip") || beq encoding (codes "deflate")
    then decompress_gzip_deflate body
    else if beq encoding (codes "br")
    then decompress_brotli body
    else body

-- The arguments of the callback.
abbrev pub with_sid : ℕ → Option Response → Option (ℕ × Response)
with_sid sid none = none
with_sid sid (some resp) = some (sid, resp)

module _ {Session : Type 0} where
  unfoldable pub reset_for_request : Client Session → Client Session
  reset_for_request c = record c { running = true; redirect_url = []; responses = [] }

  unfoldable pub on_header : Client Session → ℕ → Bytes → Bytes → Client Session
  on_header c sid k v =
      let resp = response_at sid c.responses in
      record c {
        responses = insert sid (record resp { headers = insert k v resp.headers }) c.responses;
      }

  unfoldable pub on_body_rec : Client Session → ℕ → Bytes → Client Session
  on_body_rec c sid chunk =
      let resp = response_at sid c.responses in
      record c { responses = insert sid (record resp { body = resp.body ++ chunk }) c.responses }

  module _ (submit_request : Session → Option Priority → List (Bytes × Bytes) → ℤ × Session)
      (session_send : Session → Session) where
    -- What `nghttp2_submit_request` answers, with the log of what it was given.
    unfoldable pub sent_as : Client Session → ParsedUrl → ℤ × Session → ℤ × Client Session
    sent_as c url (pos sid, session) =
        (pos sid, record c { session = session_send session; submitted = url ∷ c.submitted })
    sent_as c url (negsuc e, session) =
        (negsuc e, record c { session = session; submitted = url ∷ c.submitted })

    unfoldable pub send_header : Client Session → ParsedUrl → Headers → ℤ × Client Session
    unfolding request_headers sent_as
    send_header c url headers =
        sent_as c url (submit_request c.session c.priority (request_headers c.host url headers))

    sent_as-submitted :
        (c : Client Session) (url : ParsedUrl) (w : ℤ × Session)
        → (sent_as c url w).1.submitted ≡ url ∷ c.submitted
    unfolding sent_as
    sent_as-submitted c url (pos sid, session) = refl
    sent_as-submitted c url (negsuc e, session) = refl

    pub send_header-submitted :
        (c : Client Session) (url : ParsedUrl) (headers : Headers)
        → (send_header c url headers).1.submitted ≡ url ∷ c.submitted
    unfolding send_header
    send_header-submitted c url headers =
        sent_as-submitted c url
          (submit_request c.session c.priority (request_headers c.host url headers))

  module _ (decompress_gzip_deflate decompress_brotli : Bytes → Bytes) where
    unfoldable pub perform_decompression : Client Session → ℕ → Client Session
    perform_decompression c sid =
        let resp = response_at sid c.responses in
        let encoding = content_encoding resp.headers in
        record c {
          responses =
              insert sid
                (record resp {
                  body = decode_body decompress_gzip_deflate decompress_brotli encoding resp.body;
                })
                c.responses;
        }

    -- The end of a stream: a redirect is noted, or a response is there for the callback.
    unfoldable pub on_end_stream : Client Session → ℕ → Client Session × Option Response
    on_end_stream c sid =
        let resp = touch_status (response_at sid c.responses) in
        let touched = record c { responses = insert sid resp c.responses } in
        let location = resolve_location c.host (header_at (codes "location") resp.headers) in
        let decoded = perform_decompression touched sid in
        if is_redirect resp.headers
        then (record touched { redirect_url = location; running = false }, none)
        else (decoded, some (response_at sid decoded.responses))

    -- Up to the callback: the response that it is called with, where it is called.
    unfoldable pub before_callback : Client Session → Frame → Client Session × Option (ℕ × Response)
    before_callback c goaway_frame = (record c { goaway = true; running = false }, none)
    before_callback c other_frame = (c, none)
    before_callback c (stream_frame zero end_stream) = (c, none)
    before_callback c (stream_frame (suc n) false) = (c, none)
    before_callback c (stream_frame (suc n) true) =
        let ended = on_end_stream c (suc n) in (ended.0, with_sid (suc n) ended.1)

  -- `if (stop) _running = false`
  unfoldable pub stop_if : Bool → Client Session → Client Session
  stop_if stop c = if stop then record c { running = false } else c

  -- The callback may change more than the client, which is a part of the state `S`, and answers whether to stop.
  module _ {S : Type 0} (client_of : S → Client Session) (with_client : Client Session → S → S)
      (callback : ℕ → Response → S → Bool × S) where
    unfoldable pub stopped : Bool × S → S
    unfolding stop_if
    stopped (stop, s) = with_client (stop_if stop (client_of s)) s

    unfoldable pub call_back : S → Client Session × Option (ℕ × Response) → S
    unfolding stopped
    call_back s (c, none) = with_client c s
    call_back s (c, some (sid, resp)) = stopped (callback sid resp (with_client c s))

    unfoldable pub on_frame_recv : (Bytes → Bytes) → (Bytes → Bytes) → S → Frame → S
    unfolding before_callback call_back
    on_frame_recv decompress_gzip_deflate decompress_brotli s frame =
        call_back s (before_callback decompress_gzip_deflate decompress_brotli (client_of s) frame)
