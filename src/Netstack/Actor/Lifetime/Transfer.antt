-- ===== src/Netstack/Actor/Lifetime/Transfer.antt =====
-- A pass over the sockets keeps each socket with its entry.
use warp_proxy.Base.{
  ℕ, zero, suc, ◌≡◌, refl, ap, ◌∙◌, Bool, true, false, ◌&&◌, ◌||◌, not, List, [], ◌∷◌, Option, none,
  some,
}
use warp_proxy.Base.{Bool-cases, Option-cases, inl, inr, if◌then◌else◌, length, ltb, take}
use warp_proxy.Base.Table.{lookup}
use warp_proxy.Netstack.{Smoltcp, is_closed}
use warp_proxy.Netstack.Actor.{
  Actor, Conn, after_send, after_recv, send_turn, recv_turn, flush, receive, pump, is_empty,
  chan_depth, recv_chunk, answer, verdict, settle, discard, finish, service_conn, service_handle,
  service_sockets,
}
use warp_proxy.Netstack.Actor.Flush.{net_after, flush-keeps, receive-keeps}
use warp_proxy.Netstack.Actor.Lifetime.{
  Handles, Tracked, SameSockets, Tracked-move, Tracked-insert, Tracked-erase,
}

module _ (S : Smoltcp) (L : Handles S) where
  open L use {live}

  after_send-same :
      (h : ℕ) (bytes out : List ℕ) (net : S.Net) (r : Option (ℕ × S.Net))
      → S.send_slice net h bytes ≡ r
      → SameSockets S L net (net_after (after_send S net out r))
  unfolding after_send
  after_send-same h bytes out net none e j = refl
  after_send-same h bytes out net (some (zero, net')) e j = L.send_slice-live net net' h 0 bytes j e
  after_send-same h bytes out net (some (suc n, net')) e j =
      L.send_slice-live net net' h (suc n) bytes j e

  send_turn-same :
      (h : ℕ) (net : S.Net) (out : List ℕ) → SameSockets S L net (net_after (send_turn S net h out))
  unfolding send_turn
  send_turn-same h net out = elim (Bool-cases (S.can_send net h && not (is_empty out))) [
    | inl go ↦
        rw go (after_send-same h (take (S.first_slice net h (length out)) out) out net _ refl)
    | inr halt ↦ rw halt (λ j. refl)
  ]

  after_recv-same :
      (h : ℕ) (chunks : List (List ℕ)) (net : S.Net) (r : Option (List ℕ × S.Net))
      → S.recv_slice net h recv_chunk ≡ r
      → SameSockets S L net (net_after (after_recv S net chunks r))
  unfolding after_recv
  after_recv-same h chunks net none e j = refl
  after_recv-same h chunks net (some ([], net')) e j =
      L.recv_slice-live net net' h recv_chunk [] j e
  after_recv-same h chunks net (some (b ∷ bytes, net')) e j =
      L.recv_slice-live net net' h recv_chunk (b ∷ bytes) j e

  recv_turn-same :
      (h : ℕ) (alive : Bool) (net : S.Net) (chunks : List (List ℕ))
      → SameSockets S L net (net_after (recv_turn S net h alive chunks))
  unfolding recv_turn
  recv_turn-same h alive net chunks =
      elim (Bool-cases (S.can_recv net h && (alive && ltb (length chunks) chan_depth))) [
        | inl go ↦ rw go (after_recv-same h chunks net _ refl)
        | inr halt ↦ rw halt (λ j. refl)
      ]

  close_if-same :
      (b : Bool) (net : S.Net) (h : ℕ) → SameSockets S L net (if b then S.close net h else net)
  close_if-same true net h = L.close-live net h
  close_if-same false net h = λ j. refl

  pump-same : (net : S.Net) (h : ℕ) (c : Conn) → SameSockets S L net (pump S net h c).0
  unfolding pump
  pump-same net h c j =
      let flushed = flush S (suc (length c.out_buf)) net h c.out_buf in
      let filled = receive S (suc chan_depth) flushed.0 h c.receiver_alive c.from_net in
      close_if-same (c.closing && is_empty flushed.1) filled.0 h j
      ∙ receive-keeps S (λ net' chunks. SameSockets S L net net') h c.receiver_alive
          (λ net' chunks same i. recv_turn-same h c.receiver_alive net' chunks i ∙ same i)
          (suc chan_depth) flushed.0 c.from_net
          (flush-keeps S (λ net' out. SameSockets S L net net') h
            (λ net' out same i. send_turn-same h net' out i ∙ same i) (suc (length c.out_buf)) net
            c.out_buf (λ i. refl))
          j

  discard-Tracked :
      (a : Actor S) (h : ℕ) (c : Conn)
      → Tracked S L a.net a.conns
      → Tracked S L (discard S a h c).net (discard S a h c).conns
  unfolding discard answer
  discard-Tracked a h c t = elim (Option-cases c.connect_reply) [
    | inl idle ↦ rw (discard, idle) (Tracked-erase S L a.net a.conns h t)
    | inr (q, waiting) ↦ rw (discard, waiting) (Tracked-erase S L a.net a.conns h t)
  ]

  finish-Tracked :
      (a : Actor S) (h : ℕ) (c0 c : Conn) (remove : Bool)
      → lookup h a.conns ≡ some c0
      → Tracked S L a.net a.conns
      → Tracked S L (finish S a h c remove).net (finish S a h c remove).conns
  unfolding finish
  finish-Tracked a h c0 c remove found t =
      let (net, c') = pump S a.net h c in
      let moved : Tracked S L net a.conns =
        Tracked-move S L a.net net a.conns (pump-same a.net h c) t in
      elim (Bool-cases (remove || is_closed (S.state net h))) [
        | inl gone ↦ rw (finish, gone) (discard-Tracked (record a { net = net }) h c' moved)
        | inr stays ↦ rw (finish, stays) (Tracked-insert S L net a.conns h c0 c' found moved)
      ]

  pub settle-same :
      (a : Actor S) (h : ℕ) (c : Conn)
      → ((settle S a h c).0.net ≡ a.net) × ((settle S a h c).0.conns ≡ a.conns)
  unfolding settle answer
  settle-same a h c = elim (Option-cases (verdict S a.net h c)) [
    | inl waits ↦ rw (settle, waits) (refl, refl)
    | inr ((q, what), done) ↦ rw (settle, done) (refl, refl)
  ]

  service_conn-Tracked :
      (a : Actor S) (h : ℕ) (c : Conn)
      → lookup h a.conns ≡ some c
      → Tracked S L a.net a.conns
      → Tracked S L (service_conn S a h c).net (service_conn S a h c).conns
  unfolding service_conn
  service_conn-Tracked a h c found t =
      let (nets, dicts) = settle-same a h c in
      finish-Tracked (settle S a h c).0 h c (settle S a h c).1 (settle S a h c).2
        (ap (lookup h) dicts ∙ found) (rw (nets, dicts) t)

  pub service_handle-Tracked :
      (a : Actor S) (h : ℕ)
      → Tracked S L a.net a.conns
      → Tracked S L (service_handle S a h).net (service_handle S a h).conns
  unfolding service_handle
  service_handle-Tracked a h t = elim (Option-cases (lookup h a.conns)) [
    | inl missing ↦ rw (service_handle, missing) t
    | inr (c, found) ↦ rw (service_handle, found) (service_conn-Tracked a h c found t)
  ]

  pub service_sockets-Tracked :
      (a : Actor S) (handles : List ℕ)
      → Tracked S L a.net a.conns
      → Tracked S L (service_sockets S a handles).net (service_sockets S a handles).conns
  unfolding service_sockets
  service_sockets-Tracked a [] t = t
  service_sockets-Tracked a (h ∷ handles) t =
      service_sockets-Tracked (service_handle S a h) handles (service_handle-Tracked a h t)
