-- ===== src/Netstack/Actor/Carried/Pass.antt =====
-- A pass over the sockets, the queries and a command, seen from one connection.
use warp_proxy.Base.{
  ℕ, ◌≡◌, ◌≢◌, ◌⊎◌, refl, ap, subst, sym, ◌∙◌, arith, Bool, ◌||◌, List, [], ◌∷◌, ◌++◌, none, some,
}
use warp_proxy.Base.{◌==◌, ==_iff, Bool-cases, Option-cases, inl, inr}
use warp_proxy.Base.Table.{
  lookup, erase, Unique, lookup-insert_self, lookup-insert_ne, lookup-erase_self, lookup-erase_ne,
}
use warp_proxy.Netstack.{Smoltcp, is_closed}
use warp_proxy.Netstack.Actor.{
  Actor, Conn, answer, verdict, settle, pump, discard, finish, service_conn, service_handle,
  service_sockets,
}
use warp_proxy.Netstack.Actor.Streams.{Buffered}
use warp_proxy.Netstack.Actor.Dns.{
  service_dns, service_dns-sweep, sweep, dns_answer, sweep-pending, sweep-answered,
}
use warp_proxy.Netstack.Actor.Lifetime.{Handles, Tracked}
use warp_proxy.Netstack.Actor.Lifetime.Transfer.{settle-same, service_handle-Tracked}
use warp_proxy.Netstack.Actor.Carried.{
  Apart, Untouched, Untouched-then, Carries, Carries-move, pump-Untouched, pump-Carries,
}

module _ (S : Smoltcp) (L : Buffered S) (A : Apart S L) (H : Handles S) (h : ℕ)
    (out got : List ℕ) where
  -- The connection goes on, or it has left the map.
  abbrev pub Goes : Actor S → Type 0
  Goes a = Carries S L h out got a.net a.conns ⊎ (lookup h a.conns ≡ none)

  discard-lookup : (a : Actor S) (k : ℕ) (c : Conn) → (discard S a k c).conns ≡ erase k a.conns
  unfolding discard answer
  discard-lookup a k c = elim (Option-cases c.connect_reply) [
    | inl idle ↦ rw (discard, idle) refl
    | inr (q, waiting) ↦ rw (discard, waiting) refl
  ]

  discard-net : (a : Actor S) (k : ℕ) (c : Conn) → (discard S a k c).net ≡ S.remove a.net k
  unfolding discard answer
  discard-net a k c = elim (Option-cases c.connect_reply) [
    | inl idle ↦ rw (discard, idle) refl
    | inr (q, waiting) ↦ rw (discard, waiting) refl
  ]

  -- The end of a pass over the connection.
  finish_own :
      (a : Actor S) (c : Conn) (remove : Bool)
      → Unique a.conns
      → (i : Carries S L h out got a.net a.conns) → c.out_buf ≡ i.conn.out_buf
      → c.from_net ≡ i.conn.from_net
      → Goes (finish S a h c remove)
  unfolding finish
  finish_own a c remove unique i same_out same_in =
      let (net, c') = pump S a.net h c in
      elim (Bool-cases (remove || is_closed (S.state net h))) [
        | inl gone ↦
            rw (finish, gone)
              (inr (
                ap (lookup h) (discard-lookup (record a { net = net }) h c')
                ∙ lookup-erase_self h a.conns unique))
        | inr stays ↦
            rw (finish, stays)
              (inl (
                pump-Carries S L h out got a.net a.conns _ c i same_out same_in
                  (lookup-insert_self h c' a.conns)))
      ]

  -- The end of a pass over another.
  finish_other :
      (a : Actor S) (k : ℕ) (c : Conn) (remove : Bool)
      → h ≢ k
      → Untouched S L h a.net (finish S a k c remove).net
        × (lookup h (finish S a k c remove).conns ≡ lookup h a.conns)
  unfolding finish
  finish_other a k c remove apart =
      let (net, c') = pump S a.net k c in
      let moved = record a { net = net } in
      let pumped = pump-Untouched S L A h k apart a.net c in
      elim (Bool-cases (remove || is_closed (S.state net k))) [
        | inl gone ↦
            rw (finish, gone, discard-net moved k c', discard-lookup moved k c')
              (
                Untouched-then S L h a.net net _ pumped (A.remove-keeps net k h apart),
                lookup-erase_ne h k a.conns apart,
              )
        | inr stays ↦ rw (finish, stays) (pumped, lookup-insert_ne h k c' a.conns apart)
      ]

  settle-buffers :
      (a : Actor S) (k : ℕ) (c : Conn)
      → ((settle S a k c).1.out_buf ≡ c.out_buf) × ((settle S a k c).1.from_net ≡ c.from_net)
  unfolding settle
  settle-buffers a k c = elim (Option-cases (verdict S a.net k c)) [
    | inl waits ↦ rw (settle, waits) (refl, refl)
    | inr ((q, what), resolved) ↦ rw (settle, resolved) (refl, refl)
  ]

  Goes-move :
      (a b : Actor S)
      → Untouched S L h a.net b.net
      → lookup h b.conns ≡ lookup h a.conns
      → Goes a
      → Goes b
  Goes-move a b same found (inl i) =
      inl (Carries-move S L h out got a.net b.net a.conns b.conns same found i)
  Goes-move a b same found (inr gone) = inr (found ∙ gone)

  service_own :
      (a : Actor S) (c : Conn)
      → lookup h a.conns ≡ some c
      → Unique a.conns
      → Carries S L h out got a.net a.conns
      → Goes (service_conn S a h c)
  unfolding service_conn
  service_own a c found unique i =
      let (nets, dicts) = settle-same S H a h c in
      let (same_out, same_in) = settle-buffers a h c in
      let a' = (settle S a h c).0 in
      let c_is : c ≡ i.conn = ground (arith, found, i.found) in
      let i' : Carries S L h out got a'.net a'.conns = record {
        conn = i.conn;
        found = ap (lookup h) dicts ∙ i.found;
        outgoing = ap (λ net. L.sent net h ++ i.conn.out_buf) nets ∙ i.outgoing;
        incoming = ap (λ net. L.taken net h) nets ∙ i.incoming;
        chunks = i.chunks;
        bounded = i.bounded;
      } in
      finish_own a' (settle S a h c).1 (settle S a h c).2 (subst Unique (sym dicts) unique) i'
        (same_out ∙ ap (λ (d : Conn). d.out_buf) c_is)
        (same_in ∙ ap (λ (d : Conn). d.from_net) c_is)

  service_other : (a : Actor S) (k : ℕ) (c : Conn) → h ≢ k → Goes a → Goes (service_conn S a k c)
  unfolding service_conn
  service_other a k c apart goes =
      let (nets, dicts) = settle-same S H a k c in
      let a' = (settle S a k c).0 in
      let (same, found) = finish_other a' k (settle S a k c).1 (settle S a k c).2 apart in
      Goes-move a' (finish S a' k (settle S a k c).1 (settle S a k c).2) same found (
        Goes-move a a' (ap (λ net. L.sent net h) nets, ap (λ net. L.taken net h) nets)
          (ap (lookup h) dicts) goes)

  service_handle_own :
      (a : Actor S) (c : Conn)
      → lookup h a.conns ≡ some c
      → Unique a.conns
      → Goes a
      → Goes (service_handle S a h)
  unfolding service_handle
  service_handle_own a c found unique (inl i) =
      rw (service_handle, found) (service_own a c found unique i)
  service_handle_own a c found unique (inr gone) = absurd (ground (arith, found, gone))

  service_handle-Goes :
      (a : Actor S) (k : ℕ) → Unique a.conns → Goes a → Goes (service_handle S a k)
  unfolding service_handle
  service_handle-Goes a k unique goes = elim (Option-cases (lookup k a.conns)) [
    | inl missing ↦ rw (service_handle, missing) goes
    | inr (c, found) ↦ elim (Bool-cases (h == k)) [
      | inr other ↦ rw (service_handle, found) (service_other a k c (ground (arith, other)) goes)
      | inl own ↦
          let k_is = (==_iff h k).0 own in
          subst (λ j. Goes (service_handle S a j)) k_is
            (service_handle_own a c (ap (λ j. lookup j a.conns) k_is ∙ found) unique goes)
    ]
  ]

  pub service_sockets-Goes :
      (a : Actor S) (handles : List ℕ)
      → Tracked S H a.net a.conns
      → Goes a
      → Goes (service_sockets S a handles)
  unfolding service_sockets
  service_sockets-Goes a [] t goes = goes
  service_sockets-Goes a (k ∷ handles) t goes =
      service_sockets-Goes (service_handle S a k) handles (service_handle-Tracked S H a k t)
        (service_handle-Goes a k t.unique goes)

  sweep-Untouched :
      (net : S.Net) (queries : List (ℕ × ℕ)) → Untouched S L h net (sweep S net queries).0
  unfolding sweep
  sweep-Untouched net [] = (refl, refl)
  sweep-Untouched net ((q, r) ∷ queries) =
      let net' = (S.get_query_result net q).1 in
      let after =
        Untouched-then S L h net net' _ (A.get_query_result-keeps net q h)
          (sweep-Untouched net' queries) in
      elim (Option-cases (dns_answer (S.get_query_result net q).0)) [
        | inl wait ↦ rw (sweep-pending S net q r queries wait) after
        | inr (what, answered) ↦ rw (sweep-answered S net q r queries what answered) after
      ]

  pub service_dns-Goes : (a : Actor S) → Goes a → Goes (service_dns S a)
  service_dns-Goes a goes =
      let swept = service_dns-sweep S a in
      Goes-move a (service_dns S a)
        (subst (λ (b : Actor S). Untouched S L h a.net b.net) (sym swept)
          (sweep-Untouched a.net a.dns_pending))
        (ap (λ (b : Actor S). lookup h b.conns) swept) goes
