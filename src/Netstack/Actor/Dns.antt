-- ===== src/Netstack/Actor/Dns.antt =====
-- `service_dns` of crates/warp-masque/src/netstack.rs.
use warp_proxy.Base.{
  ℕ, zero, suc, ◌+◌, ◌≤◌, ◌≡◌, refl, ap, sym, ◌∙◌, arith, List, [], ◌∷◌, ◌++◌, Option, none, some,
  append-nil, append_assoc,
}
use warp_proxy.Base.{Option-cases, inl, inr, length, get_elem?, length-append}
use warp_proxy.Socks.{IpAddr}
use warp_proxy.Netstack.{Smoltcp, QueryResult, addresses, pending, failed}
use warp_proxy.Netstack.Actor.{Actor, answer, Reply, resolved, no_address, resolution_failed}

-- `Vec::remove`
pub remove_at : {A : Type 0} → ℕ → List A → List A
remove_at i [] = []
remove_at zero (x ∷ xs) = xs
remove_at (suc i) (x ∷ xs) = x ∷ remove_at i xs

unfoldable pub first_address : List IpAddr → Reply
first_address [] = no_address
first_address (ip ∷ ips) = resolved ip

-- What a query's result answers; `none` while it is pending.
unfoldable pub dns_answer : QueryResult → Option Reply
unfolding first_address
dns_answer (addresses ips) = some (first_address ips)
dns_answer pending = none
dns_answer failed = some resolution_failed

module _ (S : Smoltcp) where
  -- The `while` loop from the index `i` on.
  unfoldable pub dns_loop : ℕ → Actor S → ℕ → Actor S
  unfolding remove_at dns_answer answer
  dns_loop zero a i = a
  dns_loop (suc fuel) a i = elim (get_elem? a.dns_pending i) [
    | none ↦ a
    | some (q, r) ↦
        let (result, net) = S.get_query_result a.net q in
        let asked : Actor S = record a { net = net } in
        elim (dns_answer result) [
          | none ↦ dns_loop fuel asked (i + 1)
          | some what ↦
              dns_loop fuel
                (answer S (record asked { dns_pending = remove_at i a.dns_pending }) r what) i
        ]
  ]

  unfoldable pub service_dns : Actor S → Actor S
  unfolding dns_loop
  service_dns a = dns_loop (length a.dns_pending) a 0

  -- The same by recursion on the list: each query is asked once, in order; the pending ones stay, and the
  -- others are answered.
  unfoldable pub sweep : S.Net → List (ℕ × ℕ) → S.Net × List (ℕ × ℕ) × List (ℕ × Reply)
  unfolding dns_answer
  sweep net [] = (net, [], [])
  sweep net ((q, r) ∷ queries) =
      let (result, net') = S.get_query_result net q in
      let (end, kept, replies) = sweep net' queries in
      elim (dns_answer result) [
        | none ↦ (end, (q, r) ∷ kept, replies)
        | some what ↦ (end, kept, (r, what) ∷ replies)
      ]

  -- What `sweep` makes of the actor, behind the queries that are kept already.
  swept : Actor S → List (ℕ × ℕ) → S.Net × List (ℕ × ℕ) × List (ℕ × Reply) → Actor S
  swept a front (net, kept, replies) = record a {
    net = net;
    dns_pending = front ++ kept;
    replies = a.replies ++ replies;
  }

  get_elem?-middle :
      {A : Type 0} (front : List A) (x : A) (back : List A)
      → get_elem? (front ++ x ∷ back) (length front) ≡ some x
  get_elem?-middle [] x back = refl
  get_elem?-middle (y ∷ front) x back = get_elem?-middle front x back

  get_elem?-end : {A : Type 0} (front : List A) → get_elem? front (length front) ≡ none
  get_elem?-end [] = refl
  get_elem?-end (y ∷ front) = get_elem?-end front

  remove_at-middle :
      {A : Type 0} (front : List A) (x : A) (back : List A)
      → remove_at (length front) (front ++ x ∷ back) ≡ front ++ back
  unfolding remove_at
  remove_at-middle [] x back = refl
  remove_at-middle (y ∷ front) x back = ap (λ l. y ∷ l) (remove_at-middle front x back)

  swept-nil :
      (a : Actor S) (front : List (ℕ × ℕ))
      → a.dns_pending ≡ front ++ []
      → a ≡ swept a front (a.net, [], [])
  unfolding swept
  swept-nil a front e = λ j. record a { dns_pending = e j; replies = sym (append-nil a.replies) j }

  -- One turn of the loop.
  dns_loop-none :
      (fuel i : ℕ) (a : Actor S) → get_elem? a.dns_pending i ≡ none → dns_loop (suc fuel) a i ≡ a
  unfolding dns_loop
  dns_loop-none fuel i a e = rw (dns_loop, e) refl

  dns_loop-pending :
      (fuel i q r : ℕ) (a : Actor S)
      → get_elem? a.dns_pending i ≡ some (q, r)
      → dns_answer (S.get_query_result a.net q).0 ≡ none
      → dns_loop (suc fuel) a i
        ≡ dns_loop fuel (record a { net = (S.get_query_result a.net q).1 }) (i + 1)
  unfolding dns_loop
  dns_loop-pending fuel i q r a e wait = ground (arith, e, wait)

  dns_loop-answered :
      (fuel i q r : ℕ) (a : Actor S) (what : Reply)
      → get_elem? a.dns_pending i ≡ some (q, r)
      → dns_answer (S.get_query_result a.net q).0 ≡ some what
      → dns_loop (suc fuel) a i
        ≡ dns_loop fuel
            (answer S
              (record a {
                net = (S.get_query_result a.net q).1;
                dns_pending = remove_at i a.dns_pending;
              })
              r
              what)
            i
  unfolding dns_loop
  dns_loop-answered fuel i q r a what e got = ground (arith, e, got)

  pub sweep-pending :
      (net : S.Net) (q r : ℕ) (queries : List (ℕ × ℕ))
      → dns_answer (S.get_query_result net q).0 ≡ none
      → sweep net ((q, r) ∷ queries) ≡ (
          let (end, kept, replies) = sweep (S.get_query_result net q).1 queries in
          (end, (q, r) ∷ kept, replies))
  unfolding sweep
  sweep-pending net q r queries wait = ground (arith, wait)

  pub sweep-answered :
      (net : S.Net) (q r : ℕ) (queries : List (ℕ × ℕ)) (what : Reply)
      → dns_answer (S.get_query_result net q).0 ≡ some what
      → sweep net ((q, r) ∷ queries) ≡ (
          let (end, kept, replies) = sweep (S.get_query_result net q).1 queries in
          (end, kept, (r, what) ∷ replies))
  unfolding sweep
  sweep-answered net q r queries what got = ground (arith, got)

  swept-keep :
      (a : Actor S) (net : S.Net) (front : List (ℕ × ℕ)) (x : ℕ × ℕ)
      (t : S.Net × List (ℕ × ℕ) × List (ℕ × Reply))
      → swept (record a { net = net }) (front ++ x ∷ []) t ≡ swept a front (t.0, x ∷ t.1, t.2)
  unfolding swept
  swept-keep a net front x (end, kept, replies) = λ j. record a {
    net = end;
    dns_pending = append_assoc front (x ∷ []) kept j;
    replies = a.replies ++ replies;
  }

  swept-answer :
      (a : Actor S) (net : S.Net) (left front : List (ℕ × ℕ)) (r : ℕ) (what : Reply)
      (t : S.Net × List (ℕ × ℕ) × List (ℕ × Reply))
      → swept (answer S (record a { net = net; dns_pending = left }) r what) front t
        ≡ swept a front (t.0, t.1, (r, what) ∷ t.2)
  unfolding swept answer
  swept-answer a net left front r what (end, kept, replies) = λ j. record a {
    net = end;
    dns_pending = front ++ kept;
    replies = append_assoc a.replies ((r, what) ∷ []) replies j;
  }

  dns_loop-sweep :
      (queries : List (ℕ × ℕ)) (a : Actor S) (front : List (ℕ × ℕ)) (fuel : ℕ)
      → length queries ≤ fuel
      → a.dns_pending ≡ front ++ queries
      → dns_loop fuel a (length front) ≡ swept a front (sweep a.net queries)
  unfolding sweep answer
  dns_loop-sweep [] a front zero enough e = unfold dns_loop in swept-nil a front e
  dns_loop-sweep [] a front (suc fuel) enough e =
      dns_loop-none fuel (length front) a
        (ap (λ l. get_elem? l (length front)) (e ∙ append-nil front) ∙ get_elem?-end front)
      ∙ swept-nil a front e
  dns_loop-sweep ((q, r) ∷ queries) a front zero enough e = absurd (omega arith)
  dns_loop-sweep ((q, r) ∷ queries) a front (suc fuel) enough e =
      let at : get_elem? a.dns_pending (length front) ≡ some (q, r) =
        ap (λ l. get_elem? l (length front)) e ∙ get_elem?-middle front (q, r) queries in
      elim (Option-cases (dns_answer (S.get_query_result a.net q).0)) [
        | inl wait ↦
            let next : Actor S = record a { net = (S.get_query_result a.net q).1 } in
            let longer : length front + 1 ≡ length (front ++ (q, r) ∷ []) =
              sym (length-append front ((q, r) ∷ [])) in
            dns_loop-pending fuel (length front) q r a at wait
            ∙ ap (λ i. dns_loop fuel next i) longer
            ∙ dns_loop-sweep queries next (front ++ (q, r) ∷ []) fuel (omega arith)
                (e ∙ sym (append_assoc front ((q, r) ∷ []) queries))
            ∙ swept-keep a _ front (q, r) _
            ∙ ap (swept a front) (sym (sweep-pending a.net q r queries wait))
        | inr (what, got) ↦
            let next : Actor S =
              answer S
                (record a {
                  net = (S.get_query_result a.net q).1;
                  dns_pending = remove_at (length front) a.dns_pending;
                })
                r what in
            dns_loop-answered fuel (length front) q r a what at got
            ∙ dns_loop-sweep queries next front fuel (omega arith)
                (ap (remove_at (length front)) e ∙ remove_at-middle front (q, r) queries)
            ∙ swept-answer a _ _ front r what _
            ∙ ap (swept a front) (sym (sweep-answered a.net q r queries what got))
      ]

  -- `service_dns`, which removes from the vector that it walks, ends and asks each pending query once, in
  -- order: it answers those that have a result, and keeps the others in their order.
  pub service_dns-sweep :
      (a : Actor S)
      → service_dns a ≡ (
          let (net, kept, replies) = sweep a.net a.dns_pending in
          record a { net = net; dns_pending = kept; replies = a.replies ++ replies })
  unfolding service_dns swept
  service_dns-sweep a = dns_loop-sweep a.dns_pending a [] (length a.dns_pending) (omega arith) refl
