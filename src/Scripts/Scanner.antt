-- ===== src/Scripts/Scanner.antt =====
-- challenge_scripts.cpp: `IncrementalSubresourceScanner`.
use bw_fetcher.Base.{
  ℕ, ◌-◌, ◌||◌, List, [], ◌∷◌, ◌++◌, ltb, leb, if◌then◌else◌, Bytes, length, bytes_key, nat_key, ℤ,
  substr,
}
use bw_fetcher.Scripts.{
  Engine, DiscoveredSubresource, capped, Progress, collect_raw_candidates, resolve_new_candidates,
}

-- `seen_abs_` and `found_` stand together, as the loop over the candidates changes both.
pub record Scanner : Type 0 where
  pub page_url : Bytes
  pub buffer : Bytes
  pub scan_cursor : ℕ
  pub progress : Progress
  pub max_count : ℤ

abbrev pub new_scanner : Bytes → ℤ → Scanner
new_scanner page_url max_count = record {
  page_url = page_url;
  buffer = [];
  scan_cursor = 0;
  progress = record { seen = []; found = 0 };
  max_count = max_count;
}

-- `kTailGuard`
abbrev pub tail_guard : ℕ
tail_guard = 2048

-- `buffer_.size() > kTailGuard ? buffer_.size() - kTailGuard : 0`
abbrev pub safe_end : Bytes → ℕ
safe_end buffer = if ltb tail_guard (length buffer) then length buffer - tail_guard else 0

module _ (matches : Engine) where
  unfoldable pub scan_window : Scanner → ℕ → ℕ → List DiscoveredSubresource × Scanner
  scan_window s begin end =
      let window = substr begin (end - begin) s.buffer in
      let found =
        resolve_new_candidates s.page_url s.max_count (collect_raw_candidates matches window)
          s.progress in
      if leb end begin || ltb (length s.buffer) end
      then ([], s)
      else if capped s.max_count s.progress.found
      then ([], s)
      else (found.0, record s { progress = found.1 })

  unfoldable pub scan_safe : Scanner → List DiscoveredSubresource × Scanner
  scan_safe s =
      let scanned = scan_window s s.scan_cursor (safe_end s.buffer) in
      if leb (safe_end s.buffer) s.scan_cursor
      then ([], s)
      else (scanned.0, record scanned.1 { scan_cursor = safe_end s.buffer })

  -- The chunk is not null; it may be empty.
  unfoldable pub feed : Scanner → Bytes → List DiscoveredSubresource × Scanner
  unfolding scan_safe
  feed s [] = ([], s)
  feed s (c ∷ chunk) =
      if capped s.max_count s.progress.found
      then ([], s)
      else scan_safe (record s { buffer = s.buffer ++ (c ∷ chunk) })

  unfoldable pub finalize : Scanner → List DiscoveredSubresource × Scanner
  finalize s =
      if leb (length s.buffer) s.scan_cursor
      then ([], s)
      else scan_window s s.scan_cursor (length s.buffer)
