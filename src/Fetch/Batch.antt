-- ===== src/Fetch/Batch.antt =====
-- fetcher.cpp: the extra URLs behind the page, `fetch_multi` and `fetch`. `WsaGuard` has nothing to do outside
-- of Windows. A result is missing where `fetch_one` has none.
use bw_fetcher.Url.{parse_url}
use bw_fetcher.Cookies.{build_cookie_header}
use bw_fetcher.Scripts.{discover_challenge_scripts}
use bw_fetcher.Fetch.One.{hop_limit, fetch_one}
use bw_fetcher.Profiles.{TlsConfig, load_browser_profile}
use bw_fetcher.Headers.{classify_content_kind, subresource_headers, navigation_headers}
use bw_fetcher.Fetch.Page.{
  batch_error, PageHop, page_hop, page_returned, page_arrived, page_redirected,
}
use bw_fetcher.Fetch.{Net, Outside, FetchOptions, TlsConfig, teardown_connection, no_net}
use bw_fetcher.Base.{
  ℕ, zero, suc, ◌+◌, Bool, true, false, not, ◌&&◌, Option, none, some, List, [], ◌∷◌, ◌++◌,
  if◌then◌else◌, Bytes, codes, bytes_key, nat_key, pair_key, is_empty, pos, member, err, ok,
}
use bw_fetcher.Runtime.{RuntimeState, PendingSubresource, host_of}
use bw_fetcher.Types.{MultiFetchResult, no_batch, FetchResult, FetchOptions}

unfoldable pub close_primary : MultiFetchResult → MultiFetchResult
close_primary batch =
    if not batch.primary.ok && is_empty batch.primary.error
    then batch_error batch (codes "no response captured")
    else batch

-- The `final_url`s that are there before the loops over the extra URLs.
abbrev pub final_urls : List FetchResult → List Bytes
final_urls [] = []
final_urls (r ∷ rs) = r.final_url ∷ final_urls rs

unfoldable pub mark_extra : ℕ → Bytes → FetchResult → FetchResult
mark_extra seq source r = record r {
  request_seq = pos seq;
  role = codes "subresource";
  discovery_source = source;
  content_kind = classify_content_kind r.headers (codes "subresource");
}

abbrev pub pending_extras : List PendingSubresource → List (Bytes × Bytes)
pending_extras [] = []
pending_extras (item ∷ items) = (item.url, item.discovery_source) ∷ pending_extras items

abbrev pub manual_extras : List Bytes → List (Bytes × Bytes)
manual_extras [] = []
manual_extras (url ∷ urls) = (url, codes "manual") ∷ manual_extras urls

abbrev pub no_urls : List Bytes → Bool
no_urls [] = true
no_urls (url ∷ urls) = false

-- The answer of a batch and what becomes of the connection.
abbrev pub BatchRun : Type 0 → Type 0
BatchRun Session = Option (Net Session × MultiFetchResult)

abbrev pub and_then :
    {Session : Type 0}
    → (Net Session → MultiFetchResult → BatchRun Session)
    → BatchRun Session
    → BatchRun Session
and_then next none = none
and_then next (some (net, batch)) = next net batch

-- Every way through the two modes ends with `teardown_connection`.
abbrev pub close_run : {Session : Type 0} → BatchRun Session → BatchRun Session
close_run none = none
close_run (some (net, batch)) = some (teardown_connection net, batch)

module _ {Session : Type 0} (o : Outside Session) where
  module _ (opt : FetchOptions) (profile : TlsConfig) where
    -- One extra URL that was not fetched with the page.
    unfoldable pub keep_extra :
        ℕ → Bytes → MultiFetchResult → Option (Net Session × FetchResult) → BatchRun Session
    unfolding mark_extra
    keep_extra seq source batch none = none
    keep_extra seq source batch (some (net, extra)) =
        some (net, record batch { also = batch.also ++ (mark_extra seq source extra ∷ []) })

    unfoldable pub fetch_extra :
        ℕ → Bytes → Bytes → MultiFetchResult → Net Session → BatchRun Session
    unfolding keep_extra
    fetch_extra seq url source batch net =
        let hdrs =
          subresource_headers batch.primary.final_url net.conn.conn_host (host_of url)
            (build_cookie_header net.conn.cookies) in
        keep_extra seq source batch (fetch_one o opt profile url hdrs net)

    -- The two loops over extra URLs, the one behind the other.
    unfoldable pub fetch_extras :
        List Bytes → List (Bytes × Bytes) → ℕ → Net Session → MultiFetchResult → BatchRun Session
    unfolding fetch_extra
    fetch_extras fetched [] seq net batch = some (net, batch)
    fetch_extras fetched ((url, source) ∷ extras) seq net batch = elim (member url fetched) [
      | true ↦ fetch_extras fetched extras seq net batch
      | false ↦
          and_then (fetch_extras fetched extras (seq + 1)) (fetch_extra seq url source batch net)
    ]

    unfoldable pub finish_page : Net Session → RuntimeState Session → BatchRun Session
    unfolding fetch_extras close_primary
    finish_page net s =
        let batch = close_primary s.batch in
        fetch_extras (final_urls batch.also)
          (pending_extras s.pending ++ manual_extras opt.also_fetch) s.next_seq net batch

    abbrev pub after_page_hop :
        (Bytes → MultiFetchResult → Net Session → BatchRun Session)
        → Option (PageHop Session)
        → BatchRun Session
    after_page_hop next none = none
    after_page_hop next (some (page_returned net batch)) = some (net, batch)
    after_page_hop next (some (page_arrived net s)) = finish_page net s
    after_page_hop next (some (page_redirected target net batch)) = next target batch net

    unfoldable pub page_hops : ℕ → Bytes → MultiFetchResult → Net Session → BatchRun Session
    unfolding page_hop finish_page
    page_hops zero target batch net = some (net, batch_error batch (codes "redirect limit reached"))
    page_hops (suc hops) target batch net =
        after_page_hop (page_hops hops) (page_hop o opt profile target (parse_url target) batch net)

    unfoldable pub fetch_with_runtime_subresources : Net Session → BatchRun Session
    unfolding page_hops
    fetch_with_runtime_subresources net =
        page_hops (hop_limit opt.max_redirects) opt.url no_batch net

    -- The loop of `fetch_multi` over the extra URLs.
    unfoldable pub add_extra :
        MultiFetchResult → Option (Net Session × FetchResult) → BatchRun Session
    add_extra batch none = none
    add_extra batch (some (net, extra)) =
        some (net, record batch { also = batch.also ++ (extra ∷ []) })

    unfoldable pub fetch_also :
        Bytes → List Bytes → Net Session → MultiFetchResult → BatchRun Session
    unfolding add_extra
    fetch_also page_host [] net batch = some (net, batch)
    fetch_also page_host (url ∷ urls) net batch =
        let hdrs =
          subresource_headers batch.primary.final_url page_host (host_of url)
            (build_cookie_header net.conn.cookies) in
        and_then (fetch_also page_host urls)
          (add_extra batch (fetch_one o opt profile url hdrs net))

    unfoldable pub extras_of : FetchResult → List Bytes
    extras_of primary =
        if opt.auto_challenge_scripts && no_urls opt.also_fetch
        then discover_challenge_scripts o.matches primary.body primary.final_url
            opt.max_challenge_scripts
        else opt.also_fetch

    unfoldable pub after_primary : Option (Net Session × FetchResult) → BatchRun Session
    unfolding fetch_also extras_of
    after_primary none = none
    after_primary (some (net, primary)) =
        let batch = record no_batch { primary = primary } in
        if not primary.ok
        then some (net, batch)
        else fetch_also (host_of primary.final_url) (extras_of primary) net batch

    unfoldable pub fetch_with_profile : BatchRun Session
    unfolding fetch_with_runtime_subresources after_primary
    fetch_with_profile =
        if opt.fetch_subresources
        then close_run (fetch_with_runtime_subresources no_net)
        else close_run (after_primary (fetch_one o opt profile opt.url navigation_headers no_net))

  unfoldable pub fetch_multi : FetchOptions → BatchRun Session
  unfolding fetch_with_profile
  fetch_multi opt = elim (load_browser_profile opt.profile) [
    | err what ↦ some (no_net, batch_error no_batch what)
    | ok profile ↦ fetch_with_profile opt profile
  ]

  unfoldable pub fetch : FetchOptions → Option (Net Session × FetchResult)
  unfolding fetch_multi
  fetch opt = elim (fetch_multi opt) [ none ↦ none | some (net, batch) ↦ some (net, batch.primary) ]
