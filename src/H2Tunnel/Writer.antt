-- ===== src/H2Tunnel/Writer.antt =====
-- What `writer_loop` puts on the stream, and what a reader at the other end gets from it.
use warp_proxy.Base.{ℕ, zero, suc, ◌≤◌, ◌≡◌, refl, ap, ◌∙◌, sym, inl, inr, ◌⊎◌, arith}
use warp_proxy.Base.{List, [], ◌∷◌, ◌++◌, append-nil, append_assoc, Option-cases}
use warp_proxy.Base.{Bool-cases, ltb, map, length, take}
use warp_proxy.H2Tunnel.{SendStream, Written, drained, closed, pending, await_capacity, writer_loop}
use warp_proxy.H2Tunnel.{encode_datagram_capsule}
use mathlib.Core.List.{flatten}

-- The state in which the writer left the stream.
abbrev pub final : {S : Type 0} → Written S → S
final (drained s) = s
final (closed s) = s
final (pending s) = s

-- The bytes of the first packets of a queue.
unfoldable pub framed : List (List ℕ) → List ℕ
framed pkts = flatten (map encode_datagram_capsule pkts)

Written-cases :
    {S : Type 0} (w : Written S)
    → ((s : S) × (w ≡ drained s)) ⊎ ((s : S) × (w ≡ closed s)) ⊎ ((s : S) × (w ≡ pending s))
Written-cases (drained s) = inl (s, refl)
Written-cases (closed s) = inr (inl (s, refl))
Written-cases (pending s) = inr (inr (s, refl))

module _ (h2 : SendStream) where
  open h2 use {State, reserve_capacity, capacity, poll_capacity, send_data, accepted}
  open h2 use {accepted-reserve_capacity, accepted-poll_capacity, accepted-send_data}

  -- Waiting for capacity sends nothing.
  accepted-await_capacity :
      (polls : ℕ) (s : State) (n : ℕ) → accepted (final (await_capacity h2 polls s n)) ≡ accepted s
  unfolding await_capacity
  accepted-await_capacity zero s n = elim (Bool-cases (ltb (capacity s) n)) [
    | inl short ↦ rw short
    | inr enough ↦ rw enough
  ]
  accepted-await_capacity (suc polls) s n = elim (Bool-cases (ltb (capacity s) n)) [
    | inr enough ↦ rw enough
    | inl short ↦ rw short (elim (Option-cases (poll_capacity s)) [
      | inl e ↦ rw e
      | inr (t, e) ↦ rw e (accepted-await_capacity polls t n ∙ accepted-poll_capacity s t e)
    ])
  ]

  -- The wait for capacity ends, other than by a closed stream, only with room for what is to be sent.
  pub await_capacity_enough :
      (polls : ℕ) (s : State) (n : ℕ) (t : State)
      → await_capacity h2 polls s n ≡ drained t
      → n ≤ capacity t
  unfolding await_capacity
  await_capacity_enough zero s n t e = ground arith
  await_capacity_enough (suc polls) s n t e = elim (Bool-cases (ltb (capacity s) n)) [
    | inr enough ↦ ground arith
    | inl short ↦ elim (Option-cases (poll_capacity s)) [
      | inl shut ↦ ground arith
      | inr (u, polled) ↦
          let later : await_capacity h2 polls u n ≡ drained t = ground arith in
          await_capacity_enough polls u n t later
    ]
  ]

  -- The outcome of one packet.
  writer_loop_round :
      (polls : ℕ) (pkt : List ℕ) (pkts : List (List ℕ)) (s : State)
      → ((t : State) × ((writer_loop h2 polls s (pkt ∷ pkts) ≡ closed t)
            ⊎ (writer_loop h2 polls s (pkt ∷ pkts) ≡ pending t))
          × (accepted t ≡ accepted s))
        ⊎ ((u : State) × (writer_loop h2 polls s (pkt ∷ pkts) ≡ writer_loop h2 polls u pkts)
            × (accepted u ≡ accepted s ++ encode_datagram_capsule pkt))
  unfolding writer_loop
  writer_loop_round polls pkt pkts s =
      let cap = encode_datagram_capsule pkt in
      let r = reserve_capacity s (length cap) in
      let kept : accepted (final (await_capacity h2 polls r (length cap))) ≡ accepted s =
        accepted-await_capacity polls r (length cap) ∙ accepted-reserve_capacity s (length cap) in
      elim (Written-cases (await_capacity h2 polls r (length cap))) [
        | inr (inl (t, e)) ↦ inl (t, inl (rw (e, writer_loop)), (rw e at kept))
        | inr (inr (t, e)) ↦ inl (t, inr (rw (e, writer_loop)), (rw e at kept))
        | inl (t, e) ↦
            let same : accepted t ≡ accepted s = rw e at kept in
            elim (Option-cases (send_data t cap)) [
              | inl shut ↦ inl (t, inl (rw (e, writer_loop, shut)), same)
              | inr (u, ok) ↦
                  inr (u, rw (e, writer_loop, ok), accepted-send_data t u cap ok ∙ rw same)
            ]
      ]

  -- Whatever the stream does, the peer is to receive the capsules of the first packets of the queue,
  -- in order and each of them whole.
  pub writer_loop_prefix :
      (polls : ℕ) (pkts : List (List ℕ)) (s : State)
      → (k : ℕ) × (k ≤ length pkts)
        × (accepted (final (writer_loop h2 polls s pkts)) ≡ accepted s ++ framed (take k pkts))
  unfolding framed flatten encode_datagram_capsule
  writer_loop_prefix polls [] s = (0, omega arith, unfold writer_loop in sym (append-nil _))
  writer_loop_prefix polls (pkt ∷ pkts) s = elim (writer_loop_round polls pkt pkts s) [
    | inl (t, inl e, same) ↦ (0, omega arith, rw (e, same) (sym (append-nil _)))
    | inl (t, inr e, same) ↦ (0, omega arith, rw (e, same) (sym (append-nil _)))
    | inr (u, e, sent) ↦
        let (k, le, eq) = writer_loop_prefix polls pkts u in
        (
          suc k,
          omega arith,
          rw e (eq ∙ rw sent (append_assoc (accepted s) (encode_datagram_capsule pkt) _)),
        )
  ]

  -- A writer that ends since the queue is closed has written every packet.
  pub writer_loop_complete :
      (polls : ℕ) (pkts : List (List ℕ)) (s t : State)
      → writer_loop h2 polls s pkts ≡ drained t
      → accepted t ≡ accepted s ++ framed pkts
  unfolding framed flatten encode_datagram_capsule
  writer_loop_complete polls [] s t e =
      unfold writer_loop in ap accepted (sym (ap final e)) ∙ sym (append-nil _)
  writer_loop_complete polls (pkt ∷ pkts) s t e = elim (writer_loop_round polls pkt pkts s) [
    | inl (u, inl shut, same) ↦ cc
    | inl (u, inr waits, same) ↦ cc
    | inr (u, next, sent) ↦
        writer_loop_complete polls pkts u t (sym next ∙ e)
        ∙ rw sent (append_assoc (accepted s) (encode_datagram_capsule pkt) _)
  ]
