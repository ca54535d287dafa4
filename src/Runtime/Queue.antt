-- ===== src/Runtime/Queue.antt =====
-- The queue of the scripts of a page: what waits, and what is marked as requested.
use bw_fetcher.Runtime.Sets.{member-append, Distinct-snoc}
use bw_fetcher.Scripts.{DiscoveredSubresource}
use bw_fetcher.Runtime.{
  PendingSubresource, RuntimeState, enqueue_item, enqueue, DiscoveredSubresource, url_same_host,
}
use bw_fetcher.Base.{
  ◌≡◌, inl, inr, refl, sym, ap, true, false, ◌&&◌, ◌||◌, List, [], ◌∷◌, ◌++◌, map, arith,
  Bool-cases, Bytes, bytes_key, nat_key, pair_key, member, Distinct, beq_iff, beq,
}

abbrev pub urls_of : List PendingSubresource → List Bytes
urls_of = map (λ p. p.url)

-- What waits stands in `pending_urls`, once, and is not marked as requested; nothing is marked twice.
pub record IsQueue (pending pending_urls dispatched : List Bytes) : Type 0 where
  pub agrees : (u : Bytes) → member u pending_urls ≡ member u pending
  pub apart : (u : Bytes) → (member u pending && member u dispatched) ≡ false
  pub once : Distinct pending
  pub never_again : Distinct dispatched

pub not_requested :
    {pending pending_urls dispatched : List Bytes}
    → IsQueue pending pending_urls dispatched
    → (u : Bytes) → member u pending ≡ true
    → member u dispatched ≡ false
not_requested q u m = ground (arith, q.apart u)

abbrev pub HasQueue : {Session : Type 0} → RuntimeState Session → Type 0
HasQueue s = IsQueue (urls_of s.pending) s.pending_urls s.dispatched

pub url_same_host-eq :
    (x u host : Bytes) → beq x u ≡ true → url_same_host u host ≡ url_same_host x host
url_same_host-eq x u host e = ap (λ y. url_same_host y host) (sym ((beq_iff x u).0 e))

pub urls_of-append : (a b : List PendingSubresource) → urls_of (a ++ b) ≡ urls_of a ++ urls_of b
urls_of-append [] b = refl
urls_of-append (p ∷ a) b = ap (◌∷◌ p.url) (urls_of-append a b)

module _ {Session : Type 0} where
  enqueue_item-HasQueue :
      (s : RuntimeState Session) (item : DiscoveredSubresource)
      → HasQueue s
      → HasQueue (enqueue_item s item)
  unfolding enqueue_item member
  enqueue_item-HasQueue s item q =
      elim (Bool-cases (member item.url s.dispatched || member item.url s.pending_urls)) [
        | inl known ↦ rw known q
        | inr fresh ↦
            let e =
              urls_of-append s.pending
                (record { url = item.url; discovery_source = item.discovery_source } ∷ []) in
            rw (fresh, e)
              (record {
                agrees = λ u.
                    ground (arith, q.agrees u, member-append u (urls_of s.pending) (item.url ∷ []));
                apart = λ u. ground (
                  arith,
                  q.apart u,
                  member-append u (urls_of s.pending) (item.url ∷ []),
                  beq_iff item.url u,
                );
                once =
                    Distinct-snoc (urls_of s.pending) item.url q.once
                      (ground (arith, q.agrees item.url));
                never_again = q.never_again;
              })
      ]

  pub enqueue-HasQueue :
      (s : RuntimeState Session) (items : List DiscoveredSubresource)
      → HasQueue s
      → HasQueue (enqueue s items)
  unfolding enqueue
  enqueue-HasQueue s [] q = q
  enqueue-HasQueue s (item ∷ items) q =
      enqueue-HasQueue (enqueue_item s item) items (enqueue_item-HasQueue s item q)
