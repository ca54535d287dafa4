-- ===== src/Http2/Reports.antt =====
-- Interleaved streams: the headers and body parts that the client gathers for one of them.
use bw_fetcher.Headers.{Response}
use bw_fetcher.Http2.{Client, response_at, on_header, on_body_rec, response_or_new}
use bw_fetcher.Base.{
  ℕ, ◌≡◌, inl, inr, refl, ap, ◌∙◌, false, some, List, [], ◌∷◌, ◌++◌, ◌==◌, if◌then◌else◌,
  Bool-cases, Bytes, bytes_key, nat_key, pair_key, insert, Dict, lookup-insert, ==_iff, lookup,
  subst,
}

-- What nghttp2 reports of a stream before its end.
pub data Report : Type 0 where
  header_arrived : (sid : ℕ) (k v : Bytes) → Report
  body_arrived : (sid : ℕ) (chunk : Bytes) → Report

unfoldable pub receive : {Session : Type 0} → Client Session → Report → Client Session
receive c (header_arrived sid k v) = on_header c sid k v
receive c (body_arrived sid chunk) = on_body_rec c sid chunk

unfoldable pub receive_all : {Session : Type 0} → Client Session → List Report → Client Session
receive_all c [] = c
receive_all c (r ∷ rs) = receive_all (receive c r) rs

-- The reports of one stream, applied to its response alone.
unfoldable pub gather_one : ℕ → Response → Report → Response
gather_one sid resp (header_arrived from k v) =
    if from == sid then record resp { headers = insert k v resp.headers } else resp
gather_one sid resp (body_arrived from chunk) =
    if from == sid then record resp { body = resp.body ++ chunk } else resp

unfoldable pub gather : ℕ → Response → List Report → Response
gather sid resp [] = resp
gather sid resp (r ∷ rs) = gather sid (gather_one sid resp r) rs

pub response_at-insert-same :
    (sid : ℕ) (resp : Response) (m : Dict ℕ Response) → response_at sid (insert sid resp m) ≡ resp
unfolding response_at
response_at-insert-same sid resp m = ap response_or_new (
    lookup-insert sid sid resp m
    ∙ ap (λ b. if b then some resp else lookup sid m) ((==_iff sid sid).1 refl))

response_at-insert :
    (from sid : ℕ) (resp : Response) (m : Dict ℕ Response)
    → (from == sid) ≡ false
    → response_at sid (insert from resp m) ≡ response_at sid m
unfolding response_at
response_at-insert from sid resp m n =
    ap response_or_new
      (lookup-insert from sid resp m ∙ ap (λ b. if b then some resp else lookup sid m) n)

module _ {Session : Type 0} where
  response_at-receive :
      (sid : ℕ) (c : Client Session) (r : Report)
      → response_at sid (receive c r).responses ≡ gather_one sid (response_at sid c.responses) r
  unfolding receive gather_one on_header on_body_rec
  response_at-receive sid c (header_arrived from k v) = elim (Bool-cases (from == sid)) [
    | inr n ↦ rw n (response_at-insert from sid _ c.responses n)
    | inl e ↦
        let same : from ≡ sid = (==_iff from sid).0 e in
        rw e (
          subst
            (λ i.
              response_at i (
                insert from
                  (record (response_at from c.responses) {
                    headers = insert k v (response_at from c.responses).headers;
                  })
                  c.responses)
              ≡ record (response_at i c.responses) {
                headers = insert k v (response_at i c.responses).headers;
              })
            same (response_at-insert-same from _ c.responses))
  ]
  response_at-receive sid c (body_arrived from chunk) = elim (Bool-cases (from == sid)) [
    | inr n ↦ rw n (response_at-insert from sid _ c.responses n)
    | inl e ↦
        let same : from ≡ sid = (==_iff from sid).0 e in
        rw e (
          subst
            (λ i.
              response_at i (
                insert from
                  (record (response_at from c.responses) {
                    body = (response_at from c.responses).body ++ chunk;
                  })
                  c.responses)
              ≡ record (response_at i c.responses) {
                body = (response_at i c.responses).body ++ chunk;
              })
            same (response_at-insert-same from _ c.responses))
  ]

  -- Among any interleaving of headers and body parts of all streams, what the client holds for a
  -- stream is what that stream's own headers and parts make of what it held before.
  pub receive_all-gather :
      (sid : ℕ) (c : Client Session) (rs : List Report)
      → response_at sid (receive_all c rs).responses ≡ gather sid (response_at sid c.responses) rs
  unfolding receive_all gather
  receive_all-gather sid c [] = refl
  receive_all-gather sid c (r ∷ rs) =
      receive_all-gather sid (receive c r) rs
      ∙ ap (λ resp. gather sid resp rs) (response_at-receive sid c r)

  -- Nothing but the responses changes before the end of a stream.
  pub receive_all-Keeps :
      (c : Client Session) (rs : List Report)
      → ((receive_all c rs).host ≡ c.host)
        × ((receive_all c rs).running ≡ c.running)
        × ((receive_all c rs).redirect_url ≡ c.redirect_url)
  unfolding receive_all receive on_header on_body_rec
  receive_all-Keeps c [] = (refl, refl, refl)
  receive_all-Keeps c (header_arrived sid k v ∷ rs) = receive_all-Keeps (on_header c sid k v) rs
  receive_all-Keeps c (body_arrived sid chunk ∷ rs) = receive_all-Keeps (on_body_rec c sid chunk) rs
