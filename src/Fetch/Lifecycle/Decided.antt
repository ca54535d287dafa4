-- ===== src/Fetch/Lifecycle/Decided.antt =====
-- fetcher.cpp: without the fetching of subresources, every result of a batch is decided.
use bw_fetcher.Fetch.One.{fetch_one}
use bw_fetcher.Headers.{navigation_headers}
use bw_fetcher.Runtime.{host_of}
use bw_fetcher.Fetch.Lifecycle.Hops.{Leaves, fetch_one-Leaves}
use bw_fetcher.Fetch.Lifecycle.Pages.{IsAnswered, Ran}
use bw_fetcher.Fetch.Lifecycle.{InStep, no_net-InStep}
use bw_fetcher.Fetch.Answers.{IsDecided}
use bw_fetcher.Fetch.{Outside, Net, FetchOptions, TlsConfig, no_net}
use bw_fetcher.Profiles.{TlsConfig}
use bw_fetcher.Fetch.Batch.{
  BatchRun, close_run, add_extra, and_then, fetch_also, after_primary, extras_of,
  fetch_with_profile, fetch_with_runtime_subresources,
}
use bw_fetcher.Types.{FetchResult, MultiFetchResult, FetchOptions, no_batch}
use bw_fetcher.Base.{
  ◌≡◌, sym, ◌∙◌, false, not, Option, none, some, List, [], ◌∷◌, ◌++◌, if◌then◌else◌, Bytes,
  bytes_key, nat_key, pair_key, if_both, subst,
}

-- A response or an error each, and never both.
abbrev pub AllDecided : List FetchResult → Type 0
AllDecided [] = Unit
AllDecided (r ∷ rs) = IsDecided r × AllDecided rs

append-AllDecided :
    (rs : List FetchResult) (r : FetchResult)
    → AllDecided rs
    → IsDecided r
    → AllDecided (rs ++ (r ∷ []))
append-AllDecided [] r a d = (d, tt)
append-AllDecided (s ∷ rs) r a d = (a.0, append-AllDecided rs r a.1 d)

abbrev pub BatchDecided : MultiFetchResult → Type 0
BatchDecided batch = IsDecided batch.primary × AllDecided batch.also

-- The connection in step, and every result decided.
abbrev pub RunDecided : {Session : Type 0} → BatchRun Session → Type 0
RunDecided none = Unit
RunDecided (some (net, batch)) = InStep net × BatchDecided batch

IsDecided-IsAnswered : (batch : MultiFetchResult) → IsDecided batch.primary → IsAnswered batch
IsDecided-IsAnswered batch d h = sym d ∙ h

abbrev pub Decides : {Session : Type 0} → BatchRun Session → Type 0
Decides none = Unit
Decides (some (net, batch)) = BatchDecided batch

close_run-Decides :
    {Session : Type 0} → (run : BatchRun Session) → RunDecided run → Decides (close_run run)
close_run-Decides none p = tt
close_run-Decides (some (net, batch)) p = p.1

module _ {Session : Type 0} (o : Outside Session) (opt : FetchOptions) (profile : TlsConfig) where
  add_extra-RunDecided :
      (batch : MultiFetchResult) (w : Option (Net Session × FetchResult))
      → BatchDecided batch
      → Leaves o opt profile w
      → RunDecided (add_extra o opt profile batch w)
  unfolding add_extra
  add_extra-RunDecided batch none a p = tt
  add_extra-RunDecided batch (some (net, extra)) a p =
      (p.0, (a.0, append-AllDecided batch.also extra a.1 p.1))

  and_then-RunDecided :
      (next : Net Session → MultiFetchResult → BatchRun Session)
      → ((net : Net Session) (batch : MultiFetchResult)
          → InStep net
          → BatchDecided batch
          → RunDecided (next net batch))
      → (run : BatchRun Session) → RunDecided run
      → RunDecided (and_then next run)
  and_then-RunDecided next later none p = tt
  and_then-RunDecided next later (some (net, batch)) p = later net batch p.0 p.1

  fetch_also-RunDecided :
      (page_host : Bytes) (urls : List Bytes) (net : Net Session) (batch : MultiFetchResult)
      → InStep net
      → BatchDecided batch
      → RunDecided (fetch_also o opt profile page_host urls net batch)
  unfolding fetch_also
  fetch_also-RunDecided page_host [] net batch i a = (i, a)
  fetch_also-RunDecided page_host (url ∷ urls) net batch i a =
      and_then-RunDecided (fetch_also o opt profile page_host urls)
        (fetch_also-RunDecided page_host urls) _
        (add_extra-RunDecided batch _ a (fetch_one-Leaves o opt profile url _ net i))

  pub after_primary-RunDecided :
      (w : Option (Net Session × FetchResult))
      → Leaves o opt profile w
      → RunDecided (after_primary o opt profile w)
  unfolding after_primary
  after_primary-RunDecided none p = tt
  after_primary-RunDecided (some (net, primary)) p =
      if_both RunDecided (not primary.ok) (some (net, record no_batch { primary = primary })) _
        (p.0, (p.1, tt))
        (fetch_also-RunDecided (host_of primary.final_url) (extras_of o opt profile primary) net _
          p.0 (p.1, tt))

  pub RunDecided-Ran : (run : BatchRun Session) → RunDecided run → Ran run
  RunDecided-Ran none p = tt
  RunDecided-Ran (some (net, batch)) p = (p.0, IsDecided-IsAnswered batch p.1.0)

  pub fetch_with_profile-Decides :
      opt.fetch_subresources ≡ false → Decides (fetch_with_profile o opt profile)
  unfolding fetch_with_profile
  fetch_with_profile-Decides plain =
      subst
        (λ b. Decides (
          if b
          then close_run (fetch_with_runtime_subresources o opt profile no_net)
          else close_run (
              after_primary o opt profile
                (fetch_one o opt profile opt.url navigation_headers no_net))))
        (sym plain)
        (close_run-Decides _ (
          after_primary-RunDecided _
            (fetch_one-Leaves o opt profile opt.url navigation_headers no_net no_net-InStep)))
