-- ===== src/Fetch/Lifecycle/Complete.antt =====
-- fetcher.cpp: `fetch_multi` as a whole.
use bw_fetcher.Fetch.Lifecycle.Decided.{
  RunDecided-Ran, AllDecided, after_primary-RunDecided, Decides, fetch_with_profile-Decides,
}
use bw_fetcher.Fetch.One.{hop_limit}
use bw_fetcher.Headers.{navigation_headers, lower}
use bw_fetcher.Fetch.Page.{batch_error}
use bw_fetcher.Fetch.Lifecycle.Multi.{and_then-returns, one-returns, page_hops-returns}
use bw_fetcher.Runtime.{host_of}
use bw_fetcher.Fetch.Lifecycle.Hops.{Leaves, fetch_one-Leaves}
use bw_fetcher.Fetch.Liveness.{some_turn_late, is_some-if}
use bw_fetcher.Fetch.Lifecycle.Pages.{IsAnswered, Ran, page_hops-Ran}
use bw_fetcher.Fetch.Lifecycle.{InStep, phase_after, down, teardown_connection-down, no_net-InStep}
use bw_fetcher.Fetch.{Outside, Net, is_some, FetchOptions, TlsConfig, teardown_connection, no_net}
use bw_fetcher.Profiles.{load_browser_profile, known_or_throw, TlsConfig, registry}
use bw_fetcher.Fetch.Batch.{
  BatchRun, close_run, add_extra, fetch_also, after_primary, extras_of, fetch_with_profile,
  fetch_multi, fetch_with_runtime_subresources,
}
use bw_fetcher.Types.{FetchResult, MultiFetchResult, FetchOptions, no_batch}
use bw_fetcher.Base.{
  ℕ, ◌≡◌, refl, sym, ◌∙◌, true, false, not, Option, none, some, List, [], ◌∷◌, Bytes, bytes_key,
  nat_key, pair_key, err, is_empty, if_both, Result, ok, lookup, subst,
}

-- An unknown profile has a message.
abbrev Explained : Result Bytes TlsConfig → Type 0
Explained (ok profile) = Unit
Explained (err what) = is_empty what ≡ false

known_or_throw-Explained : (name : Bytes) (m : Option TlsConfig) → Explained (known_or_throw name m)
unfolding known_or_throw
known_or_throw-Explained name none = refl
known_or_throw-Explained name (some cfg) = tt

-- What the end of `fetch_multi` shows: everything is closed, and no result is without a reason.
abbrev pub Closed : {Session : Type 0} → (w : BatchRun Session) → Type 0
Closed {Session} w =
    (net : Net Session) × (batch : MultiFetchResult) × (w ≡ some (net, batch))
    × (phase_after net.trace ≡ some down)
    × IsAnswered batch

close_run-Closed :
    {Session : Type 0}
    → (run : BatchRun Session) → is_some run ≡ true
    → Ran run
    → Closed (close_run run)
close_run-Closed none h p = cc
close_run-Closed (some (net, batch)) h p =
    (teardown_connection net, batch, refl, teardown_connection-down net p.0, p.1)

module _ {Session : Type 0} (o : Outside Session) (opt : FetchOptions) (profile : TlsConfig)
    (late : (n : ℕ) → some_turn_late opt.timeout_ms (o.turns n) ≡ true) where
  add_extra-returns :
      (batch : MultiFetchResult) (w : Option (Net Session × FetchResult))
      → is_some w ≡ true
      → is_some (add_extra o opt profile batch w) ≡ true
  unfolding add_extra
  add_extra-returns batch none h = h
  add_extra-returns batch (some (net, extra)) h = refl

  add_extra-Ran :
      (batch : MultiFetchResult) (w : Option (Net Session × FetchResult))
      → IsAnswered batch
      → Leaves o opt profile w
      → Ran (add_extra o opt profile batch w)
  unfolding add_extra
  add_extra-Ran batch none a p = tt
  add_extra-Ran batch (some (net, extra)) a p = (p.0, a)

  fetch_also-returns :
      (page_host : Bytes) (urls : List Bytes) (net : Net Session) (batch : MultiFetchResult)
      → InStep net
      → IsAnswered batch
      → is_some (fetch_also o opt profile page_host urls net batch) ≡ true
  unfolding fetch_also
  fetch_also-returns page_host [] net batch i a = refl
  fetch_also-returns page_host (url ∷ urls) net batch i a =
      and_then-returns o opt profile late (fetch_also o opt profile page_host urls)
        (fetch_also-returns page_host urls) _
        (add_extra-Ran batch _ a (fetch_one-Leaves o opt profile url _ net i))
        (add_extra-returns batch _ (one-returns o opt profile late url _ net i))

  after_primary-returns :
      (w : Option (Net Session × FetchResult))
      → is_some w ≡ true
      → Leaves o opt profile w
      → is_some (after_primary o opt profile w) ≡ true
  unfolding after_primary
  after_primary-returns none h p = h
  after_primary-returns (some (net, primary)) h p =
      is_some-if (not primary.ok) (some (net, record no_batch { primary = primary })) _ refl (
        fetch_also-returns (host_of primary.final_url) (extras_of o opt profile primary) net _ p.0
          (λ e. sym p.1 ∙ e))

  fetch_with_profile-Closed : Closed (fetch_with_profile o opt profile)
  unfolding fetch_with_profile fetch_with_runtime_subresources
  fetch_with_profile-Closed =
      let start : InStep (no_net {Session = Session}) = no_net-InStep in
      let first = fetch_one-Leaves o opt profile opt.url navigation_headers no_net start in
      if_both Closed opt.fetch_subresources _ _
        (close_run-Closed _
          (page_hops-returns o opt profile late (hop_limit opt.max_redirects) opt.url no_batch
            no_net start)
          (page_hops-Ran o opt profile (hop_limit opt.max_redirects) opt.url no_batch no_net start))
        (close_run-Closed _
          (after_primary-returns _
            (one-returns o opt profile late opt.url navigation_headers no_net start) first)
          (RunDecided-Ran o opt profile _ (after_primary-RunDecided o opt profile _ first)))

module _ {Session : Type 0} (o : Outside Session) where
  -- Whatever the network and the peers answer, if there is a timeout and the clock reaches it in each request: the
  -- fetch ends with a batch. What happened on the connections happened in order: one socket at a time, TLS on it and
  -- a client on that, each closed before the one below it; a page or an extra URL is requested only from the host and
  -- port that the connection was made for; and at the end everything is closed. Whatever a client submitted until it
  -- was closed, the requests of subresources included, was for the host of its connection; the ports of subresources
  -- are not compared. The primary result is ok or has an error.
  pub fetch_multi-Closed :
      (opt : FetchOptions)
      → ((n : ℕ) → some_turn_late opt.timeout_ms (o.turns n) ≡ true)
      → Closed (fetch_multi o opt)
  unfolding fetch_multi load_browser_profile phase_after
  fetch_multi-Closed opt late =
      (elim (load_browser_profile opt.profile)
          as (λ m.
            Explained m
            → Closed (elim m [
              | err what ↦ some (no_net, batch_error no_batch what)
              | ok profile ↦ fetch_with_profile o opt profile
            ])) [
              | err what ↦ λ h. (no_net, batch_error no_batch what, refl, refl, λ e. h)
              | ok profile ↦ λ h. fetch_with_profile-Closed o opt profile late
            ])
        (known_or_throw-Explained opt.profile (lookup (lower opt.profile) registry))

  fetch_multi-Decides :
      (opt : FetchOptions) (net : Net Session) (batch : MultiFetchResult)
      → opt.fetch_subresources ≡ false
      → fetch_multi o opt ≡ some (net, batch)
      → AllDecided (batch.primary ∷ batch.also)
  unfolding fetch_multi load_browser_profile
  fetch_multi-Decides opt net batch plain h = subst Decides h (
      (elim (load_browser_profile opt.profile)
          as (λ m.
            Explained m
            → Decides (elim m [
              | err what ↦ some (no_net, batch_error no_batch what)
              | ok profile ↦ fetch_with_profile o opt profile
            ])) [
              | err what ↦ λ explained. (sym explained, tt)
              | ok profile ↦ λ explained. fetch_with_profile-Decides o opt profile plain
            ])
        (known_or_throw-Explained opt.profile (lookup (lower opt.profile) registry)))

  -- Without the fetching of subresources, if the clock reaches the deadline in each request, the fetch ends with a
  -- batch in which each result, of the page and of every extra URL, is ok exactly when it has no error.
  pub fetch_multi-AllDecided :
      (opt : FetchOptions)
      → ((n : ℕ) → some_turn_late opt.timeout_ms (o.turns n) ≡ true)
      → opt.fetch_subresources ≡ false
      → (net : Net Session) × (batch : MultiFetchResult) × (fetch_multi o opt ≡ some (net, batch))
        × AllDecided (batch.primary ∷ batch.also)
  fetch_multi-AllDecided opt late plain =
      let (net, batch, e, closed, answered) = fetch_multi-Closed opt late in
      (net, batch, e, fetch_multi-Decides opt net batch plain e)
