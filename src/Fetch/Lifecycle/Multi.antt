-- ===== src/Fetch/Lifecycle/Multi.antt =====
-- fetcher.cpp: `fetch_multi` comes to an end, closes what it opened, and has an answer.
use bw_fetcher.Fetch.Lifecycle.Hops.{fetch_one-Leaves}
use bw_fetcher.Fetch.One.{fetch_one}
use bw_fetcher.Fetch.Lifecycle.Pages.{
  IsAnswered, Ran, PageRan, keep_extra-Ran, close_primary-IsAnswered, page_hop-Ran,
}
use bw_fetcher.Http2.{Client}
use bw_fetcher.Fetch.Lifecycle.{InStep}
use bw_fetcher.Url.{ParsedUrl, UriError, parse_url}
use bw_fetcher.Runtime.{RuntimeState}
use bw_fetcher.Fetch.Batch.{
  keep_extra, fetch_extras, page_hops, fetch_extra, finish_page, BatchRun, and_then, after_page_hop,
}
use bw_fetcher.Fetch.Page.{
  page_after_loop, page_after_submit, ask_page_over, page_after_connect, page_hop, ask_page,
  unsupported, page_listener, page_returned, page_arrived, page_redirected, share,
}
use bw_fetcher.Fetch.Liveness.{some_turn_late, fetch_one-returns, event_loop-returns, is_some-if}
use bw_fetcher.Profiles.{TlsConfig}
use bw_fetcher.Types.{FetchOptions, Headers, MultiFetchResult, FetchResult}
use bw_fetcher.Fetch.{Outside, FetchOptions, TlsConfig, Net, ParsedUrl, is_some, Client}
use bw_fetcher.Base.{
  ℕ, zero, suc, ◌+◌, ◌≡◌, refl, Bool, true, false, not, Option, none, some, List, [], ◌∷◌, Bytes,
  codes, bytes_key, nat_key, pair_key, Result, ℤ, negsuc, err, member, pos, ok, is_empty, beq,
}

module _ {Session : Type 0} (o : Outside Session) (opt : FetchOptions) (profile : TlsConfig)
    (late : (n : ℕ) → some_turn_late opt.timeout_ms (o.turns n) ≡ true) where
  page_after_loop-returns :
      (net : Net Session) (w : Option (Bool × RuntimeState Session))
      → is_some w ≡ true
      → is_some (page_after_loop o opt profile net w) ≡ true
  unfolding page_after_loop
  page_after_loop-returns net none h = h
  page_after_loop-returns net (some (false, s)) h = refl
  page_after_loop-returns net (some (true, s)) h =
      is_some-if (is_empty s.client.redirect_url) (some (page_arrived (share net s) s)) _ refl refl

  page_after_submit-returns :
      (target : Bytes) (batch : MultiFetchResult) (net : Net Session) (sent : ℤ × Client Session)
      (n : ℕ)
      → is_some (page_after_submit o opt profile target batch net sent (o.turns n)) ≡ true
  unfolding page_after_submit
  page_after_submit-returns target batch net (negsuc e, client) n = refl
  page_after_submit-returns target batch net (pos sid, client) n =
      page_after_loop-returns net _
        (event_loop-returns (page_listener o) opt.timeout_ms _ (o.turns n) (late n))

  page_client-returns :
      (target : Bytes) (url : ParsedUrl) (batch : MultiFetchResult) (net : Net Session)
      (m : Option (Client Session))
      → is_some (elim m [
        | none ↦ some (unsupported o opt profile batch net)
        | some client ↦ ask_page_over o opt profile target url batch net client
      ])
        ≡ true
  unfolding ask_page_over
  page_client-returns target url batch net none = refl
  page_client-returns target url batch net (some client) =
      page_after_submit-returns target batch _ _ net.asked

  page_after_connect-returns :
      (target : Bytes) (url : ParsedUrl) (batch : MultiFetchResult) (w : Net Session × Option Bytes)
      → is_some (page_after_connect o opt profile target url batch w) ≡ true
  unfolding page_after_connect ask_page
  page_after_connect-returns target url batch (net, some error) = refl
  page_after_connect-returns target url batch (net, none) =
      is_some-if (not (beq net.conn.protocol (codes "h2"))) _ _ refl
        (page_client-returns target url batch net net.conn.h2)

  page_hop-returns :
      (target : Bytes) (parsed : Result UriError ParsedUrl) (batch : MultiFetchResult)
      (net : Net Session)
      → is_some (page_hop o opt profile target parsed batch net) ≡ true
  unfolding page_hop
  page_hop-returns target (err e) batch net = refl
  page_hop-returns target (ok url) batch net = page_after_connect-returns target url batch _

  keep_extra-returns :
      (seq : ℕ) (source : Bytes) (batch : MultiFetchResult) (w : Option (Net Session × FetchResult))
      → is_some w ≡ true
      → is_some (keep_extra o opt profile seq source batch w) ≡ true
  unfolding keep_extra
  keep_extra-returns seq source batch none h = h
  keep_extra-returns seq source batch (some (net, extra)) h = refl

  -- One run after the other.
  pub and_then-returns :
      (next : Net Session → MultiFetchResult → BatchRun Session)
      → ((net : Net Session) (batch : MultiFetchResult)
          → InStep net
          → IsAnswered batch
          → is_some (next net batch) ≡ true)
      → (run : BatchRun Session) → Ran run
      → is_some run ≡ true
      → is_some (and_then next run) ≡ true
  and_then-returns next later none p h = h
  and_then-returns next later (some (net, batch)) p h = later net batch p.0 p.1

  pub one-returns :
      (url : Bytes) (hdrs : Headers) (net : Net Session)
      → InStep net
      → is_some (fetch_one o opt profile url hdrs net) ≡ true
  one-returns url hdrs net i =
      let (after, r, e, p, d) = fetch_one-returns o opt profile late url hdrs net i in rw e refl

  fetch_extras-returns :
      (fetched : List Bytes) (extras : List (Bytes × Bytes)) (seq : ℕ) (net : Net Session)
      (batch : MultiFetchResult)
      → InStep net
      → IsAnswered batch
      → is_some (fetch_extras o opt profile fetched extras seq net batch) ≡ true
  unfolding fetch_extras fetch_extra
  fetch_extras-returns fetched [] seq net batch i a = refl
  fetch_extras-returns fetched ((url, source) ∷ extras) seq net batch i a =
      elim (member url fetched)
        as (λ b.
          is_some (elim b [
            | true ↦ fetch_extras o opt profile fetched extras seq net batch
            | false ↦
                and_then (fetch_extras o opt profile fetched extras (seq + 1))
                  (fetch_extra o opt profile seq url source batch net)
          ])
          ≡ true) [
            | true ↦ fetch_extras-returns fetched extras seq net batch i a
            | false ↦
                and_then-returns (fetch_extras o opt profile fetched extras (seq + 1))
                  (fetch_extras-returns fetched extras (seq + 1)) _
                  (keep_extra-Ran o opt profile seq source batch _ a
                    (fetch_one-Leaves o opt profile url _ net i))
                  (keep_extra-returns seq source batch _ (one-returns url _ net i))
          ]

  pub page_hops-returns :
      (hops : ℕ) (target : Bytes) (batch : MultiFetchResult) (net : Net Session)
      → InStep net
      → is_some (page_hops o opt profile hops target batch net) ≡ true
  unfolding page_hops finish_page
  page_hops-returns zero target batch net i = refl
  page_hops-returns (suc hops) target batch net i =
      (elim (page_hop o opt profile target (parse_url target) batch net)
          as (λ m.
            is_some m ≡ true
            → PageRan m
            → is_some (after_page_hop o opt profile (page_hops o opt profile hops) m) ≡ true) [
              | none ↦ λ h p. cc
              | some (page_returned after b) ↦ λ h p. refl
              | some (page_arrived after s) ↦ λ h p.
                  fetch_extras-returns _ _ s.next_seq after _ p (close_primary-IsAnswered s.batch)
              | some (page_redirected to after b) ↦ λ h p. page_hops-returns hops to b after p
            ])
        (page_hop-returns target (parse_url target) batch net)
        (page_hop-Ran o opt profile target (parse_url target) batch net i)
