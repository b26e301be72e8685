-- ===== src/Netstack/Actor/Flush.antt =====
-- The loops over a socket's buffers: enough fuel, and a rule for what their turns keep.
use warp_proxy.Base.{
  ℕ, zero, suc, ◌+◌, ◌-◌, ◌&&◌, ◌≤◌, ◌<◌, ◌≡◌, refl, subst, sym, ◌∙◌, arith, Bool, List, [], ◌∷◌,
  Option, none, some,
}
use warp_proxy.Base.{length, length-append, length-drop, ltb, Bool-cases, inl, inr}
use warp_proxy.Netstack.{Smoltcp}
use warp_proxy.Netstack.Actor.{
  after_send, after_recv, Conn, chan_depth, Turn, stop, more, send_turn, recv_turn, flush, receive,
  is_empty,
}

-- Where a turn leaves the sockets and the buffer.
abbrev pub net_after : {N B : Type 0} → Turn N B → N
net_after (stop net b) = net
net_after (more net b) = net

abbrev pub left_after : {N B : Type 0} → Turn N B → B
left_after (stop net b) = b
left_after (more net b) = b

-- A turn that goes on leaves less to do, by a measure.
abbrev pub Shrinks : {N B : Type 0} → (B → ℕ) → ℕ → Turn N B → Type 0
Shrinks size before (stop net b) = Unit
Shrinks size before (more net b) = size b < before

module _ (S : Smoltcp) where
  after_send-Shrinks :
      (net : S.Net) (b : ℕ) (bs : List ℕ) (r : Option (ℕ × S.Net))
      → Shrinks (length {0}) (length (b ∷ bs)) (after_send S net (b ∷ bs) r)
  unfolding after_send
  after_send-Shrinks net b bs none = tt
  after_send-Shrinks net b bs (some (zero, net')) = tt
  after_send-Shrinks net b bs (some (suc n, net')) = omega (arith, length-drop n bs)

  send_turn-Shrinks :
      (net : S.Net) (h : ℕ) (out : List ℕ)
      → Shrinks (length {0}) (length out) (send_turn S net h out)
  unfolding send_turn is_empty
  send_turn-Shrinks net h [] = elim (Bool-cases (S.can_send net h)) [
    | inl ready ↦ rw ready tt
    | inr busy ↦ rw busy tt
  ]
  send_turn-Shrinks net h (b ∷ bs) = elim (Bool-cases (S.can_send net h)) [
    | inl ready ↦ rw ready (after_send-Shrinks net b bs _)
    | inr busy ↦ rw busy tt
  ]

  flush_on : ℕ → ℕ → Turn S.Net (List ℕ) → S.Net × List ℕ
  flush_on fuel h (stop net out) = (net, out)
  flush_on fuel h (more net out) = flush S fuel net h out

  flush-suc :
      (fuel : ℕ) (net : S.Net) (h : ℕ) (out : List ℕ)
      → flush S (suc fuel) net h out ≡ flush_on fuel h (send_turn S net h out)
  unfolding flush flush_on
  flush-suc fuel net h out = ground arith

  flush_on_same :
      (fuel fuel' h : ℕ) {size : ℕ} (t : Turn S.Net (List ℕ))
      → Shrinks (length {0}) size t
      → size ≤ fuel
      → size ≤ fuel'
      → ((net : S.Net) (out : List ℕ)
          → length out < fuel
          → length out < fuel'
          → flush S fuel net h out ≡ flush S fuel' net h out)
      → flush_on fuel h t ≡ flush_on fuel' h t
  unfolding flush_on
  flush_on_same fuel fuel' h (stop net out) shrinks le le' later = refl
  flush_on_same fuel fuel' h (more net out) shrinks le le' later =
      later net out (omega arith) (omega arith)

  -- The fuel given to the loop is enough: more of it changes nothing.
  pub flush_fuel :
      (fuel fuel' : ℕ) (net : S.Net) (h : ℕ) (out : List ℕ)
      → length out < fuel
      → length out < fuel'
      → flush S fuel net h out ≡ flush S fuel' net h out
  flush_fuel zero fuel' net h out lt lt' = absurd (omega arith)
  flush_fuel (suc fuel) zero net h out lt lt' = absurd (omega arith)
  flush_fuel (suc fuel) (suc fuel') net h out lt lt' =
      flush-suc fuel net h out
      ∙ flush_on_same fuel fuel' h (send_turn S net h out) (send_turn-Shrinks net h out)
          (omega arith) (omega arith) (λ net' out' a b. flush_fuel fuel fuel' net' h out' a b)
      ∙ sym (flush-suc fuel' net h out)

  flush_on-keeps :
      (P : S.Net → List ℕ → Type 0) (h : ℕ) (fuel : ℕ) (t : Turn S.Net (List ℕ))
      → P (net_after t) (left_after t)
      → ((net : S.Net) (out : List ℕ)
          → P net out
          → P (flush S fuel net h out).0 (flush S fuel net h out).1)
      → P (flush_on fuel h t).0 (flush_on fuel h t).1
  unfolding flush_on
  flush_on-keeps P h fuel (stop net out) p later = p
  flush_on-keeps P h fuel (more net out) p later = later net out p

  -- A relation of the sockets and the buffer that each turn keeps is kept by the loop.
  pub flush-keeps :
      (P : S.Net → List ℕ → Type 0) (h : ℕ)
      → ((net : S.Net) (out : List ℕ)
          → P net out
          → P (net_after (send_turn S net h out)) (left_after (send_turn S net h out)))
      → (fuel : ℕ) (net : S.Net) (out : List ℕ) → P net out
      → P (flush S fuel net h out).0 (flush S fuel net h out).1
  unfolding flush
  flush-keeps P h turn zero net out p = p
  flush-keeps P h turn (suc fuel) net out p =
      subst (λ r. P r.0 r.1) (sym (flush-suc fuel net h out))
        (flush_on-keeps P h fuel (send_turn S net h out) (turn net out p)
          (λ net' out' q. flush-keeps P h turn fuel net' out' q))

  receive_on : ℕ → ℕ → Bool → Turn S.Net (List (List ℕ)) → S.Net × List (List ℕ)
  receive_on fuel h alive (stop net chunks) = (net, chunks)
  receive_on fuel h alive (more net chunks) = receive S fuel net h alive chunks

  receive-suc :
      (fuel : ℕ) (net : S.Net) (h : ℕ) (alive : Bool) (chunks : List (List ℕ))
      → receive S (suc fuel) net h alive chunks
        ≡ receive_on fuel h alive (recv_turn S net h alive chunks)
  unfolding receive receive_on
  receive-suc fuel net h alive chunks = ground arith

  receive_on-keeps :
      (P : S.Net → List (List ℕ) → Type 0) (h : ℕ) (alive : Bool) (fuel : ℕ)
      (t : Turn S.Net (List (List ℕ)))
      → P (net_after t) (left_after t)
      → ((net : S.Net) (chunks : List (List ℕ))
          → P net chunks
          → P (receive S fuel net h alive chunks).0 (receive S fuel net h alive chunks).1)
      → P (receive_on fuel h alive t).0 (receive_on fuel h alive t).1
  unfolding receive_on
  receive_on-keeps P h alive fuel (stop net chunks) p later = p
  receive_on-keeps P h alive fuel (more net chunks) p later = later net chunks p

  pub receive-keeps :
      (P : S.Net → List (List ℕ) → Type 0) (h : ℕ) (alive : Bool)
      → ((net : S.Net) (chunks : List (List ℕ))
          → P net chunks
          → P
              (net_after (recv_turn S net h alive chunks))
              (left_after (recv_turn S net h alive chunks)))
      → (fuel : ℕ) (net : S.Net) (chunks : List (List ℕ)) → P net chunks
      → P (receive S fuel net h alive chunks).0 (receive S fuel net h alive chunks).1
  unfolding receive
  receive-keeps P h alive turn zero net chunks p = p
  receive-keeps P h alive turn (suc fuel) net chunks p =
      subst (λ r. P r.0 r.1) (sym (receive-suc fuel net h alive chunks))
        (receive_on-keeps P h alive fuel (recv_turn S net h alive chunks) (turn net chunks p)
          (λ net' chunks' q. receive-keeps P h alive turn fuel net' chunks' q))

  -- The places that are left in the channel.
  pub room : List (List ℕ) → ℕ
  room chunks = chan_depth - length chunks

  after_recv-Shrinks :
      (net : S.Net) (chunks : List (List ℕ)) (r : Option (List ℕ × S.Net))
      → length chunks < chan_depth
      → Shrinks room (room chunks) (after_recv S net chunks r)
  unfolding after_recv room
  after_recv-Shrinks net chunks none places = tt
  after_recv-Shrinks net chunks (some ([], net')) places = tt
  after_recv-Shrinks net chunks (some (b ∷ bytes, net')) places =
      omega (arith, length-append chunks ((b ∷ bytes) ∷ []))

  recv_turn-Shrinks :
      (net : S.Net) (h : ℕ) (alive : Bool) (chunks : List (List ℕ))
      → Shrinks room (room chunks) (recv_turn S net h alive chunks)
  unfolding recv_turn
  recv_turn-Shrinks net h alive chunks =
      elim (Bool-cases (S.can_recv net h && (alive && ltb (length chunks) chan_depth))) [
        | inl go ↦ rw go (after_recv-Shrinks net chunks _ (ground (arith, go)))
        | inr halt ↦ rw halt tt
      ]

  receive_on_same :
      (fuel fuel' h : ℕ) (alive : Bool) {size : ℕ} (t : Turn S.Net (List (List ℕ)))
      → Shrinks room size t
      → size ≤ fuel
      → size ≤ fuel'
      → ((net : S.Net) (chunks : List (List ℕ))
          → room chunks < fuel
          → room chunks < fuel'
          → receive S fuel net h alive chunks ≡ receive S fuel' net h alive chunks)
      → receive_on fuel h alive t ≡ receive_on fuel' h alive t
  unfolding receive_on
  receive_on_same fuel fuel' h alive (stop net chunks) shrinks le le' later = refl
  receive_on_same fuel fuel' h alive (more net chunks) shrinks le le' later =
      later net chunks (omega arith) (omega arith)

  -- The same of the loop that fills the channel.
  pub receive_fuel :
      (fuel fuel' : ℕ) (net : S.Net) (h : ℕ) (alive : Bool) (chunks : List (List ℕ))
      → room chunks < fuel
      → room chunks < fuel'
      → receive S fuel net h alive chunks ≡ receive S fuel' net h alive chunks
  receive_fuel zero fuel' net h alive chunks lt lt' = absurd (omega arith)
  receive_fuel (suc fuel) zero net h alive chunks lt lt' = absurd (omega arith)
  receive_fuel (suc fuel) (suc fuel') net h alive chunks lt lt' =
      receive-suc fuel net h alive chunks
      ∙ receive_on_same fuel fuel' h alive (recv_turn S net h alive chunks)
          (recv_turn-Shrinks net h alive chunks) (omega arith) (omega arith)
          (λ net' chunks' a b. receive_fuel fuel fuel' net' h alive chunks' a b)
      ∙ sym (receive-suc fuel' net h alive chunks)

  -- The two loops of a pass end within the fuel that `pump` gives them: from the same connection, more
  -- fuel for either changes nothing, whatever the sockets do.
  pub pump_fuel :
      (extra extra' : ℕ) (net : S.Net) (h : ℕ) (c : Conn)
      → (flush S (suc (length c.out_buf) + extra) net h c.out_buf
          ≡ flush S (suc (length c.out_buf)) net h c.out_buf)
        × (receive S (suc chan_depth + extra') net h c.receiver_alive c.from_net
            ≡ receive S (suc chan_depth) net h c.receiver_alive c.from_net)
  unfolding room
  pump_fuel extra extra' net h c = (
    flush_fuel _ _ net h c.out_buf (omega arith) (omega arith),
    receive_fuel _ _ net h c.receiver_alive c.from_net (omega arith) (omega arith),
  )
