-- ===== src/Fetch/Lifecycle/Pages.antt =====
-- fetcher.cpp: `fetch_multi` keeps the order, closes what it opened, comes to an end, and has an answer.
use bw_fetcher.Headers.{merge_request_headers, navigation_headers}
use bw_fetcher.Runtime.Sent.{parsed_of, IsSent}
use bw_fetcher.Fetch.Addressed.{request-addressed, page_listener-IsSent}
use bw_fetcher.Fetch.Exchange.{Ends, event_loop-kept}
use bw_fetcher.Fetch.Lifecycle.Connect.{Ready, ensure_connection-Ready}
use bw_fetcher.Url.{parse_url, UriError}
use bw_fetcher.Http2.{Client, all_to, send_header, reset_for_request}
use bw_fetcher.Fetch.One.{timeout_error, noted}
use bw_fetcher.Fetch.Lifecycle.Hops.{with_client-InStep, Leaves, noted-InStep, fetch_one-Leaves}
use bw_fetcher.Profiles.{TlsConfig}
use bw_fetcher.Runtime.{RuntimeState}
use bw_fetcher.Fetch.Page.{
  PageHop, page_returned, page_arrived, page_redirected, share, page_after_loop, page_after_submit,
  ask_page_over, page_hop, page_after_connect, unsupported, ask_page, batch_error, new_state,
  page_listener,
}
use bw_fetcher.Fetch.Batch.{
  BatchRun, close_primary, close_run, keep_extra, and_then, fetch_extras, page_hops, fetch_extra,
  finish_page, after_page_hop,
}
use bw_fetcher.Types.{MultiFetchResult, FetchOptions, FetchResult}
use bw_fetcher.Base.{
  sym, ap, ap₂, ◌∙◌, ℕ, zero, suc, ◌+◌, ◌≡◌, refl, Bool, true, false, not, ◌&&◌, Option, none, some,
  List, [], ◌∷◌, arith, if◌then◌else◌, Bytes, codes, bytes_key, nat_key, pair_key, is_empty, ℤ,
  if_both, member, Result, negsuc, pos, err, ok, beq,
}
use bw_fetcher.Fetch.{
  Net, Outside, FetchOptions, is_some, TlsConfig, Client, ParsedUrl, Turn, submitted_of,
}
use bw_fetcher.Fetch.Lifecycle.{InStep, teardown_connection-InStep, all_to}

-- No answer without a reason.
abbrev pub IsAnswered : MultiFetchResult → Type 0
IsAnswered batch = batch.primary.ok ≡ false → is_empty batch.primary.error ≡ false

abbrev pub Ran : {Session : Type 0} → BatchRun Session → Type 0
Ran none = Unit
Ran (some (net, batch)) = InStep net × IsAnswered batch

abbrev pub PageRan : {Session : Type 0} → Option (PageHop Session) → Type 0
PageRan none = Unit
PageRan (some (page_returned net batch)) = InStep net × IsAnswered batch
PageRan (some (page_arrived net s)) = InStep net
PageRan (some (page_redirected target net batch)) = InStep net

pub close_primary-IsAnswered : (batch : MultiFetchResult) → IsAnswered (close_primary batch)
unfolding close_primary
close_primary-IsAnswered batch =
    (elim (not batch.primary.ok && is_empty batch.primary.error)
        as (λ b.
          (not batch.primary.ok && is_empty batch.primary.error) ≡ b
          → IsAnswered (if b then batch_error batch (codes "no response captured") else batch)) [
            | true ↦ λ e h. refl
            | false ↦ λ e h. ground (arith, h, e)
          ])
      refl

module _ {Session : Type 0} where
  share-InStep :
      (net : Net Session) (s : RuntimeState Session)
      → is_some net.conn.h2 ≡ true
      → all_to net.conn.conn_host s.client.submitted ≡ true
      → InStep net
      → InStep (share net s)
  share-InStep net s there own i =
      let kept = with_client-InStep net s.client there own i in
      record {
        in_order = kept.in_order;
        ssl_on_sock = kept.ssl_on_sock;
        client_on_ssl = kept.client_on_ssl;
        client_is_h2 = kept.client_is_h2;
        addressed = kept.addressed;
      }

  pub close_run-Ran : (run : BatchRun Session) → Ran run → Ran (close_run run)
  close_run-Ran none p = tt
  close_run-Ran (some (net, batch)) p = (teardown_connection-InStep net p.0, p.1)

module _ {Session : Type 0} (o : Outside Session) (opt : FetchOptions) (profile : TlsConfig) where
  page_after_loop-Ran :
      (net : Net Session) (w : Option (Bool × RuntimeState Session))
      → is_some net.conn.h2 ≡ true
      → (before : List ParsedUrl) → Ends (page_listener o) (IsSent net.conn.conn_host before) w
      → InStep net
      → PageRan (page_after_loop o opt profile net w)
  unfolding page_after_loop timeout_error
  page_after_loop-Ran net none there before w i = tt
  page_after_loop-Ran net (some (false, s)) there before w i = (
    teardown_connection-InStep (share net s) (share-InStep net s there w.0.addressed i),
    λ h. refl,
  )
  page_after_loop-Ran net (some (true, s)) there before w i =
      if_both PageRan (is_empty s.client.redirect_url) (some (page_arrived (share net s) s)) _
        (share-InStep net s there w.0.addressed i) (share-InStep net s there w.0.addressed i)

  page_after_submit-Ran :
      (target : Bytes) (batch : MultiFetchResult) (net : Net Session) (sent : ℤ × Client Session)
      (turns : List Turn)
      → is_some net.conn.h2 ≡ true
      → all_to net.conn.conn_host sent.1.submitted ≡ true
      → InStep net
      → PageRan (page_after_submit o opt profile target batch net sent turns)
  unfolding page_after_submit new_state parsed_of
  page_after_submit-Ran target batch net (negsuc e, client) turns there own i =
      (teardown_connection-InStep net i, λ h. refl)
  page_after_submit-Ran target batch net (pos sid, client) turns there own i =
      page_after_loop-Ran net _ there client.submitted
        (event_loop-kept (page_listener o) (IsSent net.conn.conn_host client.submitted)
          (page_listener-IsSent o net.conn.conn_host client.submitted) opt.timeout_ms
          (new_state opt profile batch target net.conn.cookies net.conn.conn_host client sid) turns
          (record { same_host = refl; requested = refl; addressed = own }))
        i

  page_client-Ran :
      (target : Bytes) (url : ParsedUrl) (batch : MultiFetchResult) (net : Net Session)
      (m : Option (Client Session))
      → net.conn.h2 ≡ m
      → net.conn.conn_host ≡ url.host
      → net.conn.conn_port ≡ url.port
      → InStep net
      → PageRan (elim m [
        | none ↦ some (unsupported o opt profile batch net)
        | some client ↦ ask_page_over o opt profile target url batch net client
      ])
  unfolding ask_page_over noted unsupported
  page_client-Ran target url batch net none e host port i = (i, λ h. refl)
  page_client-Ran target url batch net (some client) e host port i =
      let sent =
        send_header o.submit_request o.session_send (reset_for_request client) url
          (merge_request_headers profile.headers navigation_headers) in
      let own =
        request-addressed o url client (merge_request_headers profile.headers navigation_headers)
          (sym (ap₂ (λ h m. all_to h (submitted_of m)) host e) ∙ i.addressed) in
      page_after_submit-Ran target batch (noted url sent.1 net) sent (o.turns net.asked) refl
        (ap (λ h. all_to h sent.1.submitted) host ∙ own)
        (noted-InStep url client sent.1 net e host port own i)

  page_after_connect-Ran :
      (target : Bytes) (url : ParsedUrl) (batch : MultiFetchResult) (w : Net Session × Option Bytes)
      → Ready url w
      → PageRan (page_after_connect o opt profile target url batch w)
  unfolding page_after_connect ask_page unsupported
  page_after_connect-Ran target url batch (net, some error) ready = (ready.0, λ h. ready.1)
  page_after_connect-Ran target url batch (net, none) ready =
      if_both PageRan (not (beq net.conn.protocol (codes "h2"))) _ _ (ready.0, λ h. refl)
        (page_client-Ran target url batch net net.conn.h2 refl ready.1 ready.2 ready.0)

  pub page_hop-Ran :
      (target : Bytes) (parsed : Result UriError ParsedUrl) (batch : MultiFetchResult)
      (net : Net Session)
      → InStep net
      → PageRan (page_hop o opt profile target parsed batch net)
  unfolding page_hop
  page_hop-Ran target (err e) batch net i = (teardown_connection-InStep net i, λ h. refl)
  page_hop-Ran target (ok url) batch net i =
      page_after_connect-Ran target url batch _
        (ensure_connection-Ready o profile url (codes "proxy handshake failed") opt net refl i)

  pub keep_extra-Ran :
      (seq : ℕ) (source : Bytes) (batch : MultiFetchResult) (w : Option (Net Session × FetchResult))
      → IsAnswered batch
      → Leaves o opt profile w
      → Ran (keep_extra o opt profile seq source batch w)
  unfolding keep_extra
  keep_extra-Ran seq source batch none a p = tt
  keep_extra-Ran seq source batch (some (net, extra)) a p = (p.0, a)

  pub and_then-Ran :
      (next : Net Session → MultiFetchResult → BatchRun Session)
      → ((net : Net Session) (batch : MultiFetchResult)
          → InStep net
          → IsAnswered batch
          → Ran (next net batch))
      → (run : BatchRun Session) → Ran run
      → Ran (and_then next run)
  and_then-Ran next later none p = tt
  and_then-Ran next later (some (net, batch)) p = later net batch p.0 p.1

  pub fetch_extras-Ran :
      (fetched : List Bytes) (extras : List (Bytes × Bytes)) (seq : ℕ) (net : Net Session)
      (batch : MultiFetchResult)
      → InStep net
      → IsAnswered batch
      → Ran (fetch_extras o opt profile fetched extras seq net batch)
  unfolding fetch_extras fetch_extra
  fetch_extras-Ran fetched [] seq net batch i a = (i, a)
  fetch_extras-Ran fetched ((url, source) ∷ extras) seq net batch i a =
      elim (member url fetched)
        as (λ b. Ran (elim b [
          | true ↦ fetch_extras o opt profile fetched extras seq net batch
          | false ↦
              and_then (fetch_extras o opt profile fetched extras (seq + 1))
                (fetch_extra o opt profile seq url source batch net)
        ])) [
          | true ↦ fetch_extras-Ran fetched extras seq net batch i a
          | false ↦
              and_then-Ran (fetch_extras o opt profile fetched extras (seq + 1))
                (fetch_extras-Ran fetched extras (seq + 1)) _
                (keep_extra-Ran seq source batch _ a (fetch_one-Leaves o opt profile url _ net i))
        ]

  pub page_hops-Ran :
      (hops : ℕ) (target : Bytes) (batch : MultiFetchResult) (net : Net Session)
      → InStep net
      → Ran (page_hops o opt profile hops target batch net)
  unfolding page_hops finish_page
  page_hops-Ran zero target batch net i = (i, λ h. refl)
  page_hops-Ran (suc hops) target batch net i =
      (elim (page_hop o opt profile target (parse_url target) batch net)
          as (λ m.
            PageRan m → Ran (after_page_hop o opt profile (page_hops o opt profile hops) m)) [
              | none ↦ λ p. tt
              | some (page_returned after b) ↦ λ p. p
              | some (page_arrived after s) ↦
                  λ p. fetch_extras-Ran _ _ s.next_seq after _ p (close_primary-IsAnswered s.batch)
              | some (page_redirected to after b) ↦ λ p. page_hops-Ran hops to b after p
            ])
        (page_hop-Ran target (parse_url target) batch net i)
