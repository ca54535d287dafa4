-- ===== src/Headers/Requests.antt =====
-- The headers of a request: what the profile gives, overridden.
use bw_fetcher.Base.{
  pair_key, ◌≡◌, inl, inr, refl, ◌∙◌, Option, none, some, [], ◌∷◌, if◌then◌else◌, Bool-cases, Bytes,
  bytes_key, nat_key, lookup, insert, lookup-insert, lookup-Above, IsSorted, insert-IsSorted, beq,
  beq_iff, lookup-head, lookup-tail,
}
use bw_fetcher.Types.{Headers}
use bw_fetcher.Headers.{merge_request_headers}

abbrev pub or_else : Option Bytes → Option Bytes → Option Bytes
or_else (some v) d = some v
or_else none d = d

or_else_head :
    (k v j : Bytes) (overrides : Headers) (d : Option Bytes)
    → lookup k overrides ≡ none
    → or_else (lookup j overrides) (if beq k j then some v else d)
      ≡ or_else (lookup j ((k, v) ∷ overrides)) d
or_else_head k v j overrides d h = elim (Bool-cases (beq k j)) [
  | inl same ↦ rw (same, lookup-head k v j overrides same, ← (beq_iff k j).0 same, h)
  | inr other ↦ rw (other, lookup-tail k v j overrides other)
]

lookup-merged :
    (profile overrides : Headers) (j : Bytes)
    → IsSorted overrides
    → lookup j (merge_request_headers profile overrides)
      ≡ or_else (lookup j overrides) (lookup j profile)
unfolding merge_request_headers
lookup-merged profile [] j s = unfold lookup in refl
lookup-merged profile ((k, v) ∷ overrides) j s =
    lookup-merged (insert k v profile) overrides j s.1
    ∙ rw (lookup-insert k j v profile)
        (or_else_head k v j overrides (lookup j profile) (lookup-Above k overrides s.0))

merge_request_headers-IsSorted :
    (profile overrides : Headers)
    → IsSorted profile
    → IsSorted (merge_request_headers profile overrides)
unfolding merge_request_headers
merge_request_headers-IsSorted profile [] s = s
merge_request_headers-IsSorted profile ((k, v) ∷ overrides) s =
    merge_request_headers-IsSorted (insert k v profile) overrides (insert-IsSorted k v profile s)

-- The merged headers are a map in order again, and each name has the override's value where there
-- is one, and the profile's otherwise.
pub lookup-merge_request_headers :
    (profile overrides : Headers)
    → IsSorted profile
    → IsSorted overrides
    → IsSorted (merge_request_headers profile overrides)
      × ((j : Bytes)
          → lookup j (merge_request_headers profile overrides)
            ≡ or_else (lookup j overrides) (lookup j profile))
lookup-merge_request_headers profile overrides p s =
    (merge_request_headers-IsSorted profile overrides p, λ j. lookup-merged profile overrides j s)
