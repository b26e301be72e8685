-- ===== src/Netstack/Actor/Streams.antt =====
-- What a pass moves between a connection's buffers and its socket.
use warp_proxy.Base.{
  ℕ, zero, suc, ◌≤◌, ◌<◌, ◌≡◌, refl, ap, sym, ◌∙◌, arith, Bool, true, false, ◌&&◌, not, List, [],
  ◌∷◌, ◌++◌, Option, none, some,
}
use warp_proxy.Base.{
  append_assoc, append-nil, take-append-drop, length, length-append, take, drop, All, All-append,
  Bool-cases, inl, inr, if◌then◌else◌, ltb,
}
use warp_proxy.Netstack.{Smoltcp}
use warp_proxy.Netstack.Actor.{
  after_send, after_recv, Conn, send_turn, recv_turn, flush, receive, pump, is_empty, recv_chunk,
  chan_depth,
}
use warp_proxy.Netstack.Actor.Flush.{net_after, left_after, flush-keeps, receive-keeps}
use mathlib.Core.List.{flatten}

-- What the buffers' loops rely on in smoltcp: `sent` and `taken` are the bytes that a socket has accepted
-- and handed out so far.
pub record Buffered (S : Smoltcp) : Type 0 where
  pub sent : S.Net → ℕ → List ℕ
  pub taken : S.Net → ℕ → List ℕ
  pub send_slice-sent :
      (net net' : S.Net) (h n : ℕ) (bytes : List ℕ)
      → S.send_slice net h bytes ≡ some (n, net')
      → (sent net' h ≡ sent net h ++ take n bytes)
        × (n ≤ length bytes)
        × (taken net' h ≡ taken net h)
  pub recv_slice-taken :
      (net net' : S.Net) (h most : ℕ) (bytes : List ℕ)
      → S.recv_slice net h most ≡ some (bytes, net')
      → (taken net' h ≡ taken net h ++ bytes) × (sent net' h ≡ sent net h)
  pub close-keeps :
      (net : S.Net) (h : ℕ)
      → (sent (S.close net h) h ≡ sent net h) × (taken (S.close net h) h ≡ taken net h)

take-take : (n m : ℕ) (xs : List ℕ) → n ≤ length (take m xs) → take n (take m xs) ≡ take n xs
take-take zero m xs h = refl
take-take (suc n) zero xs h = absurd (omega arith)
take-take (suc n) (suc m) [] h = refl
take-take (suc n) (suc m) (x ∷ xs) h = ap (λ l. x ∷ l) (take-take n m xs (omega arith))

flatten-snoc : (xss : List (List ℕ)) (xs : List ℕ) → flatten (xss ++ xs ∷ []) ≡ flatten xss ++ xs
unfolding flatten
flatten-snoc [] xs = append-nil xs
flatten-snoc (ys ∷ xss) xs =
    ap (λ l. ys ++ l) (flatten-snoc xss xs) ∙ sym (append_assoc ys (flatten xss) xs)

module _ (S : Smoltcp) (L : Buffered S) where
  open L use {sent, taken}

  -- The bytes on their way out, from the client's first to its last.
  abbrev Outgoing : ℕ → List ℕ → List ℕ → S.Net → List ℕ → Type 0
  Outgoing h stream got net out = (sent net h ++ out ≡ stream) × (taken net h ≡ got)

  after_send-Outgoing :
      (h f : ℕ) (stream got : List ℕ) (net : S.Net) (out : List ℕ) (r : Option (ℕ × S.Net))
      → S.send_slice net h (take f out) ≡ r
      → Outgoing h stream got net out
      → Outgoing h stream got
          (net_after (after_send S net out r))
          (left_after (after_send S net out r))
  unfolding after_send
  after_send-Outgoing h f stream got net out none e p = p
  after_send-Outgoing h f stream got net out (some (zero, net')) e p =
      let (moved, le, same) = L.send_slice-sent net net' h 0 (take f out) e in
      (ap (λ l. l ++ out) (moved ∙ append-nil _) ∙ p.0, same ∙ p.1)
  after_send-Outgoing h f stream got net out (some (suc n, net')) e p =
      let (moved, le, same) = L.send_slice-sent net net' h (suc n) (take f out) e in
      (
        ap (λ l. l ++ drop (suc n) out)
              (moved ∙ ap (λ l. sent net h ++ l) (take-take (suc n) f out le))
            ∙ append_assoc (sent net h) (take (suc n) out) _
            ∙ ap (λ l. sent net h ++ l) (take-append-drop (suc n) out)
            ∙ p.0,
        same ∙ p.1,
      )

  send_turn-Outgoing :
      (h : ℕ) (stream got : List ℕ) (net : S.Net) (out : List ℕ)
      → Outgoing h stream got net out
      → Outgoing h stream got
          (net_after (send_turn S net h out))
          (left_after (send_turn S net h out))
  unfolding send_turn
  send_turn-Outgoing h stream got net out p =
      elim (Bool-cases (S.can_send net h && not (is_empty out))) [
        | inl go ↦
            rw go
              (after_send-Outgoing h (S.first_slice net h (length out)) stream got net out _ refl p)
        | inr halt ↦ rw halt p
      ]

  -- The chunks that a pass has put behind those that waited.
  record Incoming (h : ℕ) (sofar got : List ℕ) (before : List (List ℕ)) (net : S.Net)
      (chunks : List (List ℕ)) : Type 0 where
    fresh : List (List ℕ)
    queued : chunks ≡ before ++ fresh
    handed : taken net h ≡ got ++ flatten fresh
    full : All (λ v. 1 ≤ length v) fresh
    bounded : length before ≤ chan_depth → length chunks ≤ chan_depth
    outgoing : sent net h ≡ sofar

  after_recv-Incoming :
      (h : ℕ) (sofar got : List ℕ) (before : List (List ℕ)) (net : S.Net) (chunks : List (List ℕ))
      (r : Option (List ℕ × S.Net))
      → S.recv_slice net h recv_chunk ≡ r
      → length chunks < chan_depth
      → Incoming h sofar got before net chunks
      → Incoming h sofar got before
          (net_after (after_recv S net chunks r))
          (left_after (after_recv S net chunks r))
  unfolding after_recv flatten
  after_recv-Incoming h sofar got before net chunks none e room p = p
  after_recv-Incoming h sofar got before net chunks (some ([], net')) e room p =
      let (moved, same) = L.recv_slice-taken net net' h recv_chunk [] e in
      record {
        fresh = p.fresh;
        queued = p.queued;
        handed = moved ∙ append-nil _ ∙ p.handed;
        full = p.full;
        bounded = p.bounded;
        outgoing = same ∙ p.outgoing;
      }
  after_recv-Incoming h sofar got before net chunks (some (b ∷ bytes, net')) e room p =
      let (moved, same) = L.recv_slice-taken net net' h recv_chunk (b ∷ bytes) e in
      record {
        fresh = p.fresh ++ (b ∷ bytes) ∷ [];
        queued = ap (λ l. l ++ (b ∷ bytes) ∷ []) p.queued ∙ append_assoc before p.fresh _;
        handed =
            moved
            ∙ ap (λ l. l ++ b ∷ bytes) p.handed
            ∙ append_assoc got (flatten p.fresh) (b ∷ bytes)
            ∙ ap (λ l. got ++ l) (sym (flatten-snoc p.fresh (b ∷ bytes)));
        full = All-append (λ v. 1 ≤ length v) p.fresh _ p.full (omega arith, tt);
        bounded = λ le. omega (arith, length-append chunks ((b ∷ bytes) ∷ []));
        outgoing = same ∙ p.outgoing;
      }

  recv_turn-Incoming :
      (h : ℕ) (alive : Bool) (sofar got : List ℕ) (before : List (List ℕ)) (net : S.Net)
      (chunks : List (List ℕ))
      → Incoming h sofar got before net chunks
      → Incoming h sofar got before
          (net_after (recv_turn S net h alive chunks))
          (left_after (recv_turn S net h alive chunks))
  unfolding recv_turn
  recv_turn-Incoming h alive sofar got before net chunks p =
      elim (Bool-cases (S.can_recv net h && (alive && ltb (length chunks) chan_depth))) [
        | inl go ↦
            rw go (after_recv-Incoming h sofar got before net chunks _ refl (ground (arith, go)) p)
        | inr halt ↦ rw halt p
      ]

  -- What the transfer of a connection does.
  pub record Pumped (h : ℕ) (net net' : S.Net) (c c' : Conn) : Type 0 where
    pub outgoing : sent net' h ++ c'.out_buf ≡ sent net h ++ c.out_buf
    pub fresh : List (List ℕ)
    pub queued : c'.from_net ≡ c.from_net ++ fresh
    pub handed : taken net' h ≡ taken net h ++ flatten fresh
    pub full : All (λ v. 1 ≤ length v) fresh
    pub bounded : length c.from_net ≤ chan_depth → length c'.from_net ≤ chan_depth
    pub connect_reply : c'.connect_reply ≡ c.connect_reply

  close_if :
      (b : Bool) (net : S.Net) (h : ℕ)
      → (sent (if b then S.close net h else net) h ≡ sent net h)
        × (taken (if b then S.close net h else net) h ≡ taken net h)
  close_if true net h = L.close-keeps net h
  close_if false net h = (refl, refl)

  -- A pass over a connection loses, adds and reorders no byte: what the socket has accepted and what is
  -- left in the buffer together stay the same stream, and what the socket hands out stands in the
  -- channel, in chunks that are not empty, behind what waits there; the channel stays within its bound.
  pub pump-Pumped :
      (net : S.Net) (h : ℕ) (c : Conn) → Pumped h net (pump S net h c).0 c (pump S net h c).1
  unfolding pump flatten
  pump-Pumped net h c =
      let flushed = flush S (suc (length c.out_buf)) net h c.out_buf in
      let (left, idle) =
        flush-keeps S (Outgoing h (sent net h ++ c.out_buf) (taken net h)) h
          (send_turn-Outgoing h (sent net h ++ c.out_buf) (taken net h)) (suc (length c.out_buf))
          net c.out_buf (refl, refl) in
      let filled = receive S (suc chan_depth) flushed.0 h c.receiver_alive c.from_net in
      let i : Incoming h (sent flushed.0 h) (taken net h) c.from_net filled.0 filled.1 =
        receive-keeps S (Incoming h (sent flushed.0 h) (taken net h) c.from_net) h c.receiver_alive
          (recv_turn-Incoming h c.receiver_alive (sent flushed.0 h) (taken net h) c.from_net)
          (suc chan_depth) flushed.0 c.from_net
          (record {
            fresh = [];
            queued = sym (append-nil _);
            handed = idle ∙ sym (append-nil _);
            full = tt;
            bounded = λ le. le;
            outgoing = refl;
          }) in
      let (sent_same, taken_same) = close_if (c.closing && is_empty flushed.1) filled.0 h in
      record {
        outgoing = ap (λ l. l ++ flushed.1) (sent_same ∙ i.outgoing) ∙ left;
        fresh = i.fresh;
        queued = i.queued;
        handed = taken_same ∙ i.handed;
        full = i.full;
        bounded = i.bounded;
        connect_reply = refl;
      }
