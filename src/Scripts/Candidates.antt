-- ===== src/Scripts/Candidates.antt =====
-- What `resolve_new_candidates` lets through.
use bw_fetcher.Base.{
  ℕ, zero, suc, ◌+◌, ◌≤◌, ◌≡◌, inl, inr, refl, ap, ◌∙◌, true, false, List, [], ◌∷◌, arith,
  Bool-cases, Bytes, length, bytes_key, nat_key, ℤ, pos, negsuc, member, rev_onto, Distinct,
}
use bw_fetcher.Scripts.{
  DiscoveredSubresource, capped, Progress, resolve_url, is_new, advance, resolve_new_candidates,
}

abbrev pub urls : List DiscoveredSubresource → List Bytes
urls [] = []
urls (d ∷ ds) = d.url ∷ urls ds

-- At most `max_count` in all, if there is a cap.
abbrev pub WithinCap : ℤ → ℕ → Type 0
WithinCap (pos (suc n)) found = found ≤ suc n
WithinCap _ found = Unit

-- What the output `out` and the new progress `q` have to do with the old progress `p`.
pub record Extends (max_count : ℤ) (p q : Progress) (out : List DiscoveredSubresource)
    : Type 0 where
  pub seen_is : q.seen ≡ rev_onto (urls out) p.seen
  pub found_is : q.found ≡ p.found + length out
  pub distinct : Distinct q.seen
  pub within : WithinCap max_count q.found

is_new-member :
    (page_url : Bytes) (p : Progress) (src : Bytes)
    → is_new page_url p src ≡ true
    → member (resolve_url src page_url) p.seen ≡ false
unfolding is_new
is_new-member page_url p src h = ground arith

capped-false : (m : ℤ) (n : ℕ) → WithinCap m n → capped m n ≡ false → WithinCap m (n + 1)
capped-false (pos zero) n w h = tt
capped-false (pos (suc k)) n w h = ground arith
capped-false (negsuc k) n w h = tt

module _ (page_url : Bytes) (max_count : ℤ) where
  Extends-nil :
      (p : Progress) → Distinct p.seen → WithinCap max_count p.found → Extends max_count p p []
  Extends-nil p d w = record { seen_is = refl; found_is = omega arith; distinct = d; within = w }

  Extends-cons :
      {p q r : Progress} {d : DiscoveredSubresource} {out : List DiscoveredSubresource}
      → Extends max_count p q (d ∷ [])
      → Extends max_count q r out
      → Extends max_count p r (d ∷ out)
  Extends-cons {d = d} {out = out} a b = record {
    seen_is = b.seen_is ∙ ap (rev_onto (urls out)) a.seen_is;
    found_is = omega (arith, a.found_is, b.found_is);
    distinct = b.distinct;
    within = b.within;
  }

  abbrev item : Bytes → Bytes → DiscoveredSubresource
  item src source = record { url = resolve_url src page_url; discovery_source = source }

  advance-old :
      (p : Progress) (src : Bytes) → is_new page_url p src ≡ false → advance page_url p src ≡ p
  unfolding advance
  advance-old p src e = rw e

  advance-Extends :
      (p : Progress) (src source : Bytes)
      → Distinct p.seen
      → WithinCap max_count p.found
      → capped max_count p.found ≡ false
      → is_new page_url p src ≡ true
      → Extends max_count p (advance page_url p src) (item src source ∷ [])
  unfolding advance
  advance-Extends p src source d w c e = rw e (record {
    seen_is = refl;
    found_is = omega arith;
    distinct = (is_new-member page_url p src e, d);
    within = capped-false max_count p.found w c;
  })

  -- Whatever is let through is new, is counted, and stays within the cap.
  pub resolve_new_candidates-Extends :
      (raw : List (Bytes × Bytes)) (p : Progress)
      → Distinct p.seen
      → WithinCap max_count p.found
      → capped max_count p.found ≡ false
      → Extends max_count p
          (resolve_new_candidates page_url max_count raw p).1
          (resolve_new_candidates page_url max_count raw p).0
  unfolding resolve_new_candidates
  resolve_new_candidates-Extends [] p d w c = Extends-nil p d w
  resolve_new_candidates-Extends ((src, source) ∷ raw) p d w c =
      elim (Bool-cases (is_new page_url p src)) [
        | inl new ↦
            let first = advance-Extends p src source d w c new in
            elim (Bool-cases (capped max_count (advance page_url p src).found)) [
              | inl full ↦ rw (new, full) first
              | inr space ↦
                  rw (new, space)
                    (Extends-cons first (
                      resolve_new_candidates-Extends raw (advance page_url p src) first.distinct
                        first.within space))
            ]
        | inr old ↦ rw (old, advance-old p src old) (resolve_new_candidates-Extends raw p d w c)
      ]
