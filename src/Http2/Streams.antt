-- ===== src/Http2/Streams.antt =====
-- Interleaved streams: what the client hands out at the end of one of them.
use bw_fetcher.Http2.Reports.{
  response_at-insert-same, Report, gather, receive_all, receive_all-Keeps, receive_all-gather,
}
use bw_fetcher.Headers.{Response, no_response}
use bw_fetcher.Http2.{
  Client, response_at, perform_decompression, on_end_stream, decode_body, is_redirect,
  content_encoding, touch_status, resolve_location, header_at, on_frame_recv, reset_for_request,
  stream_frame, with_sid, before_callback, Frame, stop_if, call_back, stopped,
}
use bw_fetcher.Base.{
  ℕ, suc, ◌≡◌, inl, inr, refl, ap, ap₂, ◌∙◌, Bool, true, false, Option, none, some, List,
  if◌then◌else◌, Bool-cases, Bytes, codes, bytes_key, nat_key, pair_key, insert, lookup,
  some-injective,
}

with_sid-if :
    (b : Bool) (sid : ℕ) (resp : Response)
    → with_sid sid (if b then none else some resp) ≡ (if b then none else some (sid, resp))
with_sid-if true sid resp = refl
with_sid-if false sid resp = refl

module _ (gunzip unbrotli : Bytes → Bytes) where
  -- A response as it is handed out.
  unfoldable pub decoded : Response → Response
  decoded resp = record resp {
    body = decode_body gunzip unbrotli (content_encoding resp.headers) resp.body;
  }

  module _ {Session : Type 0} where
    perform_decompression-response :
        (c : Client Session) (sid : ℕ) (resp : Response)
        → response_at sid
            (perform_decompression gunzip unbrotli
              (record c { responses = insert sid resp c.responses })
              sid).responses
          ≡ decoded resp
    unfolding perform_decompression decoded
    perform_decompression-response c sid resp =
        response_at-insert-same sid _ (insert sid resp c.responses)
        ∙ ap (λ (r : Response). decoded r) (response_at-insert-same sid resp c.responses)

    -- The client at the end of a stream, when it holds `resp` for it.
    pub record EndsWith (sid : ℕ) (resp : Response) (c : Client Session)
        (ended : Client Session × Option (ℕ × Response)) : Type 0 where
      pub handed : ended.1 ≡ (if is_redirect resp.headers then none else some (sid, decoded resp))
      pub runs : ended.0.running ≡ (if is_redirect resp.headers then false else c.running)
      pub target : ended.0.redirect_url ≡ (
          if is_redirect resp.headers
          then resolve_location c.host (header_at (codes "location") resp.headers)
          else c.redirect_url)

    on_end_stream_lem :
        (c : Client Session) (sid : ℕ)
        → let resp = touch_status (response_at sid c.responses) in
          ((on_end_stream gunzip unbrotli c sid).1
            ≡ (if is_redirect resp.headers then none else some (decoded resp)))
          × ((on_end_stream gunzip unbrotli c sid).0.running
              ≡ (if is_redirect resp.headers then false else c.running))
          × ((on_end_stream gunzip unbrotli c sid).0.redirect_url ≡ (
              if is_redirect resp.headers
              then resolve_location c.host (header_at (codes "location") resp.headers)
              else c.redirect_url))
    unfolding on_end_stream perform_decompression
    on_end_stream_lem c sid =
        elim (Bool-cases (is_redirect (touch_status (response_at sid c.responses)).headers)) [
          | inl e ↦ rw e (refl, refl, refl)
          | inr e ↦
              rw e
                (ap (λ (r : Response). some r) (perform_decompression-response c sid _), refl, refl)
        ]

    before_callback-EndsWith :
        (c : Client Session) (n : ℕ)
        → EndsWith
            (suc n)
            (touch_status (response_at (suc n) c.responses))
            c
            (before_callback gunzip unbrotli c (stream_frame (suc n) true))
    unfolding before_callback
    before_callback-EndsWith c n =
        let (handed, runs, target) = on_end_stream_lem c (suc n) in
        record {
          handed = ap (with_sid (suc n)) handed ∙ with_sid-if _ (suc n) _;
          runs = runs;
          target = target;
        }

    reset-EndsWith :
        (c : Client Session) (rs : List Report) (n : ℕ)
        → EndsWith (suc n) (touch_status (gather (suc n) no_response rs)) (reset_for_request c) (
            before_callback gunzip unbrotli
              (receive_all (reset_for_request c) rs)
              (stream_frame (suc n) true))
    unfolding reset_for_request response_at lookup
    reset-EndsWith c rs n =
        let start = reset_for_request c in
        let v = before_callback-EndsWith (receive_all start rs) n in
        let (same_host, same_running, same_target) = receive_all-Keeps start rs in
        let e = ap touch_status (receive_all-gather (suc n) start rs) in
        record {
          handed =
              v.handed
              ∙ ap
                  (λ (r : Response).
                    if is_redirect r.headers then none else some (suc n, decoded r))
                  e;
          runs =
              v.runs
              ∙ ap₂ (λ (r : Response) on. if is_redirect r.headers then false else on) e
                  same_running;
          target =
              v.target
              ∙ ap₂
                  (λ (r : Response) (ht : Bytes × Bytes).
                    if is_redirect r.headers
                    then resolve_location ht.0 (header_at (codes "location") r.headers)
                    else ht.1)
                  e (ap₂ (λ a b. (a, b)) same_host same_target);
        }

    module _ {A : Type 0} (callback : ℕ → Response → A → Bool × A) where
      -- The handler, with a callback that has a state of its own.
      abbrev pub receive_frame : Client Session × A → Frame → Client Session × A
      receive_frame =
          on_frame_recv (λ s. s.0) (λ c s. (c, s.1))
            (λ sid resp s. let answer = callback sid resp s.1 in (answer.0, (s.0, answer.1))) gunzip
            unbrotli

      -- The client and the callback's state at the end of a stream, when the client holds `resp` for it.
      pub record HandsOut (sid : ℕ) (resp : Response) (c : Client Session) (a : A)
          (ended : Client Session × A) : Type 0 where
        pub called :
            ended.1 ≡ (if is_redirect resp.headers then a else (callback sid (decoded resp) a).1)
        pub runs : ended.0.running ≡ (
            if is_redirect resp.headers
            then false
            else if (callback sid (decoded resp) a).0
            then false
            else c.running)
        pub target : ended.0.redirect_url ≡ (
            if is_redirect resp.headers
            then resolve_location c.host (header_at (codes "location") resp.headers)
            else c.redirect_url)

      -- What the callback makes of a client and a response, or of a client alone.
      unfoldable called_with : A → Client Session × Option (ℕ × Response) → Client Session × A
      called_with a (c, none) = (c, a)
      called_with a (c, some (sid, resp)) =
          (stop_if (callback sid resp a).0 c, (callback sid resp a).1)

      called_with-HandsOut :
          (redirected : Bool) (sid : ℕ) (resp : Response) (a : A) (ended : Client Session)
          (handed : Option (ℕ × Response)) (on : Bool)
          → handed ≡ (if redirected then none else some (sid, resp))
          → ended.running ≡ (if redirected then false else on)
          → ((called_with a (ended, handed)).1
              ≡ (if redirected then a else (callback sid resp a).1))
            × ((called_with a (ended, handed)).0.running
                ≡ (if redirected then false else if (callback sid resp a).0 then false else on))
            × ((called_with a (ended, handed)).0.redirect_url ≡ ended.redirect_url)
      unfolding called_with stop_if
      called_with-HandsOut true sid resp a ended none on h r = (refl, r, refl)
      called_with-HandsOut true sid resp a ended (some x) on h r = cc
      called_with-HandsOut false sid resp a ended none on h r = cc
      called_with-HandsOut false sid resp a ended (some x) on h r =
          let e : x ≡ (sid, resp) = some-injective h in
          rw e (elim (Bool-cases (callback sid resp a).0) [
            | inl stop ↦ rw stop (refl, refl, refl)
            | inr on ↦ rw on (refl, r, refl)
          ])

      receive_frame-called_with :
          (c : Client Session) (a : A) (w : Client Session × Option (ℕ × Response))
          → call_back
              (λ s. s.0)
              (λ c s. (c, s.1))
              (λ sid resp s. let answer = callback sid resp s.1 in (answer.0, (s.0, answer.1)))
              (c, a)
              w
            ≡ called_with a w
      unfolding call_back stopped called_with
      receive_frame-called_with c a (d, none) = refl
      receive_frame-called_with c a (d, some (sid, resp)) = refl

      -- A client that was reset receives headers and body parts of any streams, interleaved in any way, and then the
      -- end of one stream. If that stream's own headers are a redirect, the callback is not called, the loop stops,
      -- and the target is the `location` header completed by the host. Otherwise there is no target, the callback is
      -- called once, with exactly that stream's own headers and its own body, decoded, and the loop stops just if the
      -- callback answers that it shall.
      pub on_frame_recv_lem :
          (c : Client Session) (a : A) (rs : List Report) (n : ℕ)
          → HandsOut
              (suc n)
              (touch_status (gather (suc n) no_response rs))
              (reset_for_request c)
              a
              (receive_frame (receive_all (reset_for_request c) rs, a) (stream_frame (suc n) true))
      unfolding on_frame_recv
      on_frame_recv_lem c a rs n =
          let resp = touch_status (gather (suc n) no_response rs) in
          let w =
            before_callback gunzip unbrotli (receive_all (reset_for_request c) rs)
              (stream_frame (suc n) true) in
          let v = reset-EndsWith c rs n in
          let same = receive_frame-called_with (receive_all (reset_for_request c) rs) a w in
          let (called, runs, target) =
            called_with-HandsOut (is_redirect resp.headers) (suc n) (decoded resp) a w.0 w.1
              (reset_for_request c).running v.handed v.runs in
          record {
            called = ap (λ t. t.1) same ∙ called;
            runs = ap (λ t. t.0.running) same ∙ runs;
            target = ap (λ t. t.0.redirect_url) same ∙ (target ∙ v.target);
          }
