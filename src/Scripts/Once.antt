-- ===== src/Scripts/Once.antt =====
-- However the body arrives, the scanner hands each URL out once, and no more than the cap.
use bw_fetcher.Base.{
  ℕ, zero, suc, ◌+◌, ◌-◌, ◌≤◌, ◌≡◌, inl, inr, refl, sym, ap, ◌∙◌, ◌||◌, List, [], ◌∷◌, ◌++◌, arith,
  ltb, leb, Bool-cases, Bytes, length, bytes_key, nat_key, ℤ, pos, negsuc, substr, rev_onto,
  rev_onto-append, Distinct, Distinct-rev_onto, length-append, subst, append-nil,
}
use bw_fetcher.Scripts.{Engine, DiscoveredSubresource, capped, Progress, collect_raw_candidates}
use bw_fetcher.Scripts.Candidates.{urls, WithinCap, resolve_new_candidates-Extends}
use bw_fetcher.Scripts.Scanner.{
  Scanner, new_scanner, scan_window, scan_safe, safe_end, feed, finalize,
}

urls-append : (a b : List DiscoveredSubresource) → urls (a ++ b) ≡ urls a ++ urls b
urls-append [] b = refl
urls-append (d ∷ a) b = ap (◌∷◌ d.url) (urls-append a b)

pub record IsValid (s : Scanner) : Type 0 where
  pub cursor : s.scan_cursor ≤ length s.buffer
  pub distinct : Distinct s.progress.seen
  pub within : WithinCap s.max_count s.progress.found

-- One step of the scanner, with its output.
pub record Advances (s t : Scanner) (out : List DiscoveredSubresource) : Type 0 where
  pub same_cap : t.max_count ≡ s.max_count
  pub valid : IsValid t
  pub seen_is : t.progress.seen ≡ rev_onto (urls out) s.progress.seen
  pub found_is : t.progress.found ≡ s.progress.found + length out

safe_end-le : (buffer : Bytes) → safe_end buffer ≤ length buffer
safe_end-le buffer = ground arith

WithinCap-zero : (m : ℤ) → WithinCap m 0
WithinCap-zero (pos zero) = tt
WithinCap-zero (pos (suc n)) = omega arith
WithinCap-zero (negsuc n) = tt

module _ (matches : Engine) where
  -- All that the scanner hands out for the chunks of a body, the rest at the end included.
  unfoldable pub scan_all : Scanner → List Bytes → List DiscoveredSubresource
  scan_all s [] = (finalize matches s).0
  scan_all s (chunk ∷ chunks) = (feed matches s chunk).0 ++ scan_all (feed matches s chunk).1 chunks

  Advances-none : (s : Scanner) → IsValid s → Advances s s []
  Advances-none s v = record { same_cap = refl; valid = v; seen_is = refl; found_is = omega arith }

  scan_window-Advances :
      (s : Scanner) (begin end : ℕ)
      → IsValid s
      → Advances s (scan_window matches s begin end).1 (scan_window matches s begin end).0
        × ((scan_window matches s begin end).1.buffer ≡ s.buffer)
  unfolding scan_window
  scan_window-Advances s begin end v =
      elim (Bool-cases (leb end begin || ltb (length s.buffer) end)) [
        | inl out ↦ rw out (Advances-none s v, refl)
        | inr in_range ↦ elim (Bool-cases (capped s.max_count s.progress.found)) [
          | inl full ↦ rw (in_range, full) (Advances-none s v, refl)
          | inr space ↦
              let e =
                resolve_new_candidates-Extends s.page_url s.max_count
                  (collect_raw_candidates matches (substr begin (end - begin) s.buffer)) s.progress
                  v.distinct v.within space in
              rw (in_range, space)
                (
                  record {
                    same_cap = refl;
                    valid = record { cursor = v.cursor; distinct = e.distinct; within = e.within };
                    seen_is = e.seen_is;
                    found_is = e.found_is;
                  },
                  refl,
                )
        ]
      ]

  scan_safe-Advances :
      (s : Scanner) → IsValid s → Advances s (scan_safe matches s).1 (scan_safe matches s).0
  unfolding scan_safe
  scan_safe-Advances s v = elim (Bool-cases (leb (safe_end s.buffer) s.scan_cursor)) [
    | inl short ↦ rw short (Advances-none s v)
    | inr long ↦
        let (a, e) = scan_window-Advances s s.scan_cursor (safe_end s.buffer) v in
        rw long (record {
          same_cap = a.same_cap;
          valid = record {
            cursor = subst (λ b. safe_end s.buffer ≤ length b) (sym e) (safe_end-le s.buffer);
            distinct = a.valid.distinct;
            within = a.valid.within;
          };
          seen_is = a.seen_is;
          found_is = a.found_is;
        })
  ]

  feed-Advances :
      (s : Scanner) (chunk : Bytes)
      → IsValid s
      → Advances s (feed matches s chunk).1 (feed matches s chunk).0
  unfolding feed
  feed-Advances s [] v = Advances-none s v
  feed-Advances s (c ∷ chunk) v = elim (Bool-cases (capped s.max_count s.progress.found)) [
    | inl full ↦ rw full (Advances-none s v)
    | inr space ↦
        let s' = record s { buffer = s.buffer ++ (c ∷ chunk) } in
        let a = scan_safe-Advances s' (record {
          cursor = omega (arith, v.cursor, length-append s.buffer (c ∷ chunk));
          distinct = v.distinct;
          within = v.within;
        }) in
        rw space (record {
          same_cap = a.same_cap;
          valid = a.valid;
          seen_is = a.seen_is;
          found_is = a.found_is;
        })
  ]

  finalize-Advances :
      (s : Scanner) → IsValid s → Advances s (finalize matches s).1 (finalize matches s).0
  unfolding finalize
  finalize-Advances s v = elim (Bool-cases (leb (length s.buffer) s.scan_cursor)) [
    | inl done ↦ rw done (Advances-none s v)
    | inr more ↦ rw more (scan_window-Advances s s.scan_cursor (length s.buffer) v).0
  ]

  -- The set and the counter at the end, by what was handed out.
  abbrev Ends : ℤ → Progress → List DiscoveredSubresource → Type 0
  Ends max_count p out =
      Distinct (rev_onto (urls out) p.seen) × WithinCap max_count (p.found + length out)

  Ends-of_Advances :
      {s t : Scanner} (out rest : List DiscoveredSubresource)
      → Advances s t out
      → Ends t.max_count t.progress rest
      → Ends s.max_count s.progress (out ++ rest)
  Ends-of_Advances {s} {t} out rest a e = (
    subst Distinct
        (ap (rev_onto (urls rest)) a.seen_is
          ∙ sym (rev_onto-append (urls out) (urls rest) s.progress.seen)
          ∙ ap (λ u. rev_onto u s.progress.seen) (sym (urls-append out rest)))
        e.0,
    subst (WithinCap s.max_count) (omega (arith, a.found_is, length-append out rest))
        (subst (λ m. WithinCap m (t.progress.found + length rest)) a.same_cap e.1),
  )

  new-IsValid : (page_url : Bytes) (max_count : ℤ) → IsValid (new_scanner page_url max_count)
  new-IsValid page_url max_count = record {
    cursor = omega arith;
    distinct = tt;
    within = WithinCap-zero max_count;
  }

  Ends-nil : (s : Scanner) → IsValid s → Ends s.max_count s.progress []
  Ends-nil s v = (v.distinct, subst (WithinCap s.max_count) (omega arith) v.within)

  scan_all-Ends :
      (s : Scanner) (chunks : List Bytes)
      → IsValid s
      → Ends s.max_count s.progress (scan_all s chunks)
  unfolding scan_all
  scan_all-Ends s [] v =
      let a = finalize-Advances s v in
      let e =
        Ends-of_Advances (finalize matches s).0 [] a (Ends-nil (finalize matches s).1 a.valid) in
      rw append-nil at e
  scan_all-Ends s (chunk ∷ chunks) v =
      let a = feed-Advances s chunk v in
      Ends-of_Advances (feed matches s chunk).0 _ a
        (scan_all-Ends (feed matches s chunk).1 chunks a.valid)

  -- For every engine, page, cap and division of the body into chunks: no URL is handed out twice,
  -- and with a cap at most that many are.
  pub scan_all-Distinct :
      (page_url : Bytes) (max_count : ℤ) (chunks : List Bytes)
      → Distinct (urls (scan_all (new_scanner page_url max_count) chunks))
        × WithinCap max_count (length (scan_all (new_scanner page_url max_count) chunks))
  scan_all-Distinct page_url max_count chunks =
      let e =
        scan_all-Ends (new_scanner page_url max_count) chunks (new-IsValid page_url max_count) in
      ((Distinct-rev_onto _ [] e.0).0, subst (WithinCap max_count) (omega arith) e.1)
