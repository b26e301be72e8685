-- ===== src/Netstack/Actor/Carried.antt =====
-- The streams of one connection through the actor's calls: what a socket has accepted and what waits for
-- it, and what it has handed out and what waits for the client.
pub mod Pass
pub mod Commands
pub mod Life
mod Tests
use warp_proxy.Base.{
  ℕ, zero, suc, ◌≤◌, ◌≡◌, ◌≢◌, refl, ap, subst, sym, ◌∙◌, arith, Bool, true, false, ◌&&◌, not, List,
  [], ◌∷◌, ◌++◌, Option, none, some, append_assoc, append-nil,
}
use warp_proxy.Base.{
  length, All, All-append, take, ltb, Bool-cases, Option-cases, inl, inr, if◌then◌else◌,
}
use warp_proxy.Base.Table.{Table, lookup}
use warp_proxy.Socks.{IpAddr}
use warp_proxy.Netstack.{Smoltcp}
use warp_proxy.Netstack.Actor.{
  Actor, Conn, after_send, after_recv, send_turn, recv_turn, flush, receive, pump, is_empty,
  chan_depth, recv_chunk,
}
use warp_proxy.Netstack.Actor.Flush.{net_after, flush-keeps, receive-keeps}
use warp_proxy.Netstack.Actor.Streams.{Buffered, Pumped, pump-Pumped}
use mathlib.Core.List.{flatten}

-- What one connection relies on in a `SocketSet`: a new socket has accepted and handed out nothing, and a
-- call for another socket, a query or a poll changes neither.
pub record Apart (S : Smoltcp) (L : Buffered S) : Type 0 where
  pub add-opens :
      (net : S.Net)
      → (L.sent (S.add net).1 (S.add net).0 ≡ []) × (L.taken (S.add net).1 (S.add net).0 ≡ [])
  pub add-keeps :
      (net : S.Net) (h : ℕ)
      → h ≢ (S.add net).0
      → (L.sent (S.add net).1 h ≡ L.sent net h) × (L.taken (S.add net).1 h ≡ L.taken net h)
  pub connect-keeps :
      (net net' : S.Net) (k : ℕ) (remote : IpAddr) (port local h : ℕ)
      → S.connect net k remote port local ≡ some net'
      → (L.sent net' h ≡ L.sent net h) × (L.taken net' h ≡ L.taken net h)
  pub remove-keeps :
      (net : S.Net) (k h : ℕ)
      → h ≢ k
      → (L.sent (S.remove net k) h ≡ L.sent net h) × (L.taken (S.remove net k) h ≡ L.taken net h)
  pub send_slice-keeps :
      (net net' : S.Net) (k n : ℕ) (bytes : List ℕ) (h : ℕ)
      → h ≢ k
      → S.send_slice net k bytes ≡ some (n, net')
      → (L.sent net' h ≡ L.sent net h) × (L.taken net' h ≡ L.taken net h)
  pub recv_slice-keeps :
      (net net' : S.Net) (k most : ℕ) (bytes : List ℕ) (h : ℕ)
      → h ≢ k
      → S.recv_slice net k most ≡ some (bytes, net')
      → (L.sent net' h ≡ L.sent net h) × (L.taken net' h ≡ L.taken net h)
  pub close_other-keeps :
      (net : S.Net) (k h : ℕ)
      → h ≢ k
      → (L.sent (S.close net k) h ≡ L.sent net h) × (L.taken (S.close net k) h ≡ L.taken net h)
  pub start_query-keeps :
      (net net' : S.Net) (name : List ℕ) (q h : ℕ)
      → S.start_query net name ≡ some (q, net')
      → (L.sent net' h ≡ L.sent net h) × (L.taken net' h ≡ L.taken net h)
  pub get_query_result-keeps :
      (net : S.Net) (q h : ℕ)
      → (L.sent (S.get_query_result net q).1 h ≡ L.sent net h)
        × (L.taken (S.get_query_result net q).1 h ≡ L.taken net h)
  pub poll-keeps :
      (net : S.Net) (rx : List (List ℕ)) (h : ℕ)
      → (L.sent (S.poll net rx).0 h ≡ L.sent net h) × (L.taken (S.poll net rx).0 h ≡ L.taken net h)

flatten-append : (xss yss : List (List ℕ)) → flatten (xss ++ yss) ≡ flatten xss ++ flatten yss
unfolding flatten
flatten-append [] yss = refl
flatten-append (xs ∷ xss) yss =
    ap (λ l. xs ++ l) (flatten-append xss yss) ∙ sym (append_assoc xs (flatten xss) (flatten yss))

module _ (S : Smoltcp) (L : Buffered S) where
  open L use {sent, taken}

  -- The socket's two streams are the same.
  abbrev pub Untouched : ℕ → S.Net → S.Net → Type 0
  Untouched h net net' = (sent net' h ≡ sent net h) × (taken net' h ≡ taken net h)

  pub Untouched-refl : (h : ℕ) (net : S.Net) → Untouched h net net
  Untouched-refl h net = (refl, refl)

  pub Untouched-then :
      (h : ℕ) (net net' net'' : S.Net)
      → Untouched h net net'
      → Untouched h net' net''
      → Untouched h net net''
  Untouched-then h net net' net'' (s, t) (s', t') = (s' ∙ s, t' ∙ t)

  -- The connection of a handle, after the client has sent `out` and taken `got`.
  pub record Carries (h : ℕ) (out got : List ℕ) (net : S.Net) (conns : Table Conn) : Type 0 where
    pub conn : Conn
    pub found : lookup h conns ≡ some conn
    pub outgoing : sent net h ++ conn.out_buf ≡ out
    pub incoming : taken net h ≡ got ++ flatten conn.from_net
    pub chunks : All (λ v. 1 ≤ length v) conn.from_net
    pub bounded : length conn.from_net ≤ chan_depth

  pub Carries-move :
      (h : ℕ) (out got : List ℕ) (net net' : S.Net) (conns conns' : Table Conn)
      → Untouched h net net'
      → lookup h conns' ≡ lookup h conns
      → Carries h out got net conns
      → Carries h out got net' conns'
  Carries-move h out got net net' conns conns' (s, t) same i = record {
    conn = i.conn;
    found = same ∙ i.found;
    outgoing = ap (λ l. l ++ i.conn.out_buf) s ∙ i.outgoing;
    incoming = t ∙ i.incoming;
    chunks = i.chunks;
    bounded = i.bounded;
  }

  module _ (A : Apart S L) (h k : ℕ) (apart : h ≢ k) where
    after_send-Untouched :
        (bytes out : List ℕ) (net : S.Net) (r : Option (ℕ × S.Net))
        → S.send_slice net k bytes ≡ r
        → Untouched h net (net_after (after_send S net out r))
    unfolding after_send
    after_send-Untouched bytes out net none e = (refl, refl)
    after_send-Untouched bytes out net (some (zero, net')) e =
        A.send_slice-keeps net net' k 0 bytes h apart e
    after_send-Untouched bytes out net (some (suc n, net')) e =
        A.send_slice-keeps net net' k (suc n) bytes h apart e

    send_turn-Untouched :
        (net : S.Net) (out : List ℕ) → Untouched h net (net_after (send_turn S net k out))
    unfolding send_turn
    send_turn-Untouched net out = elim (Bool-cases (S.can_send net k && not (is_empty out))) [
      | inl go ↦
          rw go (after_send-Untouched (take (S.first_slice net k (length out)) out) out net _ refl)
      | inr halt ↦ rw halt (refl, refl)
    ]

    after_recv-Untouched :
        (chunks : List (List ℕ)) (net : S.Net) (r : Option (List ℕ × S.Net))
        → S.recv_slice net k recv_chunk ≡ r
        → Untouched h net (net_after (after_recv S net chunks r))
    unfolding after_recv
    after_recv-Untouched chunks net none e = (refl, refl)
    after_recv-Untouched chunks net (some ([], net')) e =
        A.recv_slice-keeps net net' k recv_chunk [] h apart e
    after_recv-Untouched chunks net (some (b ∷ bytes, net')) e =
        A.recv_slice-keeps net net' k recv_chunk (b ∷ bytes) h apart e

    recv_turn-Untouched :
        (alive : Bool) (net : S.Net) (chunks : List (List ℕ))
        → Untouched h net (net_after (recv_turn S net k alive chunks))
    unfolding recv_turn
    recv_turn-Untouched alive net chunks =
        elim (Bool-cases (S.can_recv net k && (alive && ltb (length chunks) chan_depth))) [
          | inl go ↦ rw go (after_recv-Untouched chunks net _ refl)
          | inr halt ↦ rw halt (refl, refl)
        ]

    close_if-Untouched :
        (b : Bool) (net : S.Net) → Untouched h net (if b then S.close net k else net)
    close_if-Untouched true net = A.close_other-keeps net k h apart
    close_if-Untouched false net = (refl, refl)

    -- The transfer of another connection.
    pub pump-Untouched : (net : S.Net) (c : Conn) → Untouched h net (pump S net k c).0
    unfolding pump
    pump-Untouched net c =
        let flushed = flush S (suc (length c.out_buf)) net k c.out_buf in
        let filled = receive S (suc chan_depth) flushed.0 k c.receiver_alive c.from_net in
        let first =
          flush-keeps S (λ net' out. Untouched h net net') k
            (λ net' out u. Untouched-then h net net' _ u (send_turn-Untouched net' out))
            (suc (length c.out_buf)) net c.out_buf (refl, refl) in
        let second =
          receive-keeps S (λ net' chunks. Untouched h net net') k c.receiver_alive
            (λ net' chunks u.
              Untouched-then h net net' _ u (recv_turn-Untouched c.receiver_alive net' chunks))
            (suc chan_depth) flushed.0 c.from_net first in
        Untouched-then h net filled.0 _ second
          (close_if-Untouched (c.closing && is_empty flushed.1) filled.0)

  -- The transfer of the connection itself.
  pub pump-Carries :
      (h : ℕ) (out got : List ℕ) (net : S.Net) (conns conns' : Table Conn) (c : Conn)
      → (i : Carries h out got net conns) → c.out_buf ≡ i.conn.out_buf
      → c.from_net ≡ i.conn.from_net
      → lookup h conns' ≡ some (pump S net h c).1
      → Carries h out got (pump S net h c).0 conns'
  pump-Carries h out got net conns conns' c i same_out same_in found =
      let p = pump-Pumped S L net h c in
      let queued : (pump S net h c).1.from_net ≡ i.conn.from_net ++ p.fresh =
        p.queued ∙ ap (λ l. l ++ p.fresh) same_in in
      record {
        conn = (pump S net h c).1;
        found = found;
        outgoing = p.outgoing ∙ ap (λ l. sent net h ++ l) same_out ∙ i.outgoing;
        incoming =
            p.handed
            ∙ ap (λ l. l ++ flatten p.fresh) i.incoming
            ∙ append_assoc got (flatten i.conn.from_net) (flatten p.fresh)
            ∙ ap (λ l. got ++ l) (sym (flatten-append i.conn.from_net p.fresh))
            ∙ ap (λ l. got ++ flatten l) (sym queued);
        chunks =
            subst (λ l. All (λ v. 1 ≤ length v) l) (sym queued)
              (All-append (λ v. 1 ≤ length v) i.conn.from_net p.fresh i.chunks p.full);
        bounded = p.bounded (subst (λ l. length l ≤ chan_depth) (sym same_in) i.bounded);
      }
