-- ===== src/Netstack/Actor/Answers/Service.antt =====
-- What a pass over the sockets keeps of the balance between what is owed and what has been answered.
use warp_proxy.Base.{ℕ, ◌+◌, ◌≡◌, refl, ap, ◌∙◌, arith, Bool, ◌||◌, List, [], ◌∷◌, none, some}
use warp_proxy.Base.{Bool-cases, Option-cases, inl, inr}
use warp_proxy.Base.Table.{lookup, insert, erase}
use warp_proxy.Netstack.{Smoltcp, is_closed}
use warp_proxy.Netstack.Actor.{
  finish, Actor, Conn, Reply, dropped, answer, verdict, settle, pump, discard, service_conn,
  service_handle, service_sockets,
}
use warp_proxy.Netstack.Actor.Answers.{
  owes, is_one, balance, move-balance, answer-balance, conns_owe-insert, conns_owe-erase,
}

module _ (S : Smoltcp) where
  verdict-owes :
      (r q : ℕ) (net : S.Net) (h : ℕ) (c : Conn) (what : Reply)
      → verdict S net h c ≡ some (q, what)
      → owes r c ≡ is_one r q
  unfolding verdict owes is_one
  verdict-owes r q net h c what e = ground arith

  settle-balance :
      (r h : ℕ) (a : Actor S) (c : Conn)
      → (balance S r (settle S a h c).0 + owes r (settle S a h c).1 ≡ balance S r a + owes r c)
        × ((settle S a h c).0.conns ≡ a.conns)
  unfolding settle
  settle-balance r h a c = elim (Option-cases (verdict S a.net h c)) [
    | inl waits ↦ rw (settle, waits) (refl, refl)
    | inr ((q, what), done) ↦
        let settled : owes r (record c { connect_reply = none }) ≡ 0 = unfold owes in refl in
        rw (settle, done)
          (
            omega
                (arith, answer-balance S r q what a, verdict-owes r q a.net h c what done, settled),
            unfold answer in refl,
          )
  ]

  unanswered : (r : ℕ) (c : Conn) → c.connect_reply ≡ none → owes r c ≡ 0
  unfolding owes
  unanswered r c e = rw e refl

  one_owed : (r q : ℕ) (c : Conn) → c.connect_reply ≡ some q → owes r c ≡ is_one r q
  unfolding owes is_one
  one_owed r q c e = rw e refl

  -- The connection `c0` of the map, as `c` at its end, on any sockets.
  discard-balance :
      (r h : ℕ) (a : Actor S) (c0 c : Conn)
      → lookup h a.conns ≡ some c0
      → balance S r (discard S a h c) + owes r c0 ≡ balance S r a + owes r c
  unfolding discard
  discard-balance r h a c0 c found =
      let gone : Actor S = record a { net = S.remove a.net h; conns = erase h a.conns } in
      let less : balance S r gone + owes r c0 ≡ balance S r a =
        unfold balance in omega (arith, conns_owe-erase r h c0 a.conns found) in
      elim (Option-cases c.connect_reply) [
        | inl idle ↦
            rw (discard, idle)
              (omega (arith, less, unanswered r (record c { connect_reply = none }) refl))
        | inr (q, waiting) ↦
            rw (discard, waiting)
              (omega (
                arith,
                less,
                answer-balance S r q dropped gone,
                one_owed r q (record c { connect_reply = some q }) refl,
              ))
      ]

  keep-balance :
      (r h : ℕ) (a : Actor S) (net : S.Net) (c0 c : Conn)
      → lookup h a.conns ≡ some c0
      → balance S r (record a { net = net; conns = insert h c a.conns }) + owes r c0
        ≡ balance S r a + owes r c
  unfolding balance
  keep-balance r h a net c0 c found = omega (arith, conns_owe-insert r h c0 c a.conns found)

  pump-owes : (r h : ℕ) (net : S.Net) (c : Conn) → owes r (pump S net h c).1 ≡ owes r c
  unfolding pump owes
  pump-owes r h net c = refl

  finish-balance :
      (r h : ℕ) (a : Actor S) (c0 c : Conn) (remove : Bool)
      → lookup h a.conns ≡ some c0
      → balance S r (finish S a h c remove) + owes r c0 ≡ balance S r a + owes r c
  unfolding finish
  finish-balance r h a c0 c remove found =
      let moved : Actor S = record a { net = (pump S a.net h c).0 } in
      elim (Bool-cases (remove || is_closed (S.state (pump S a.net h c).0 h))) [
        | inl gone ↦
            rw (finish, gone)
              (omega (
                arith,
                discard-balance r h moved c0 (pump S a.net h c).1 found,
                move-balance S r a (pump S a.net h c).0 a.rx,
                pump-owes r h a.net c,
              ))
        | inr stays ↦
            rw (finish, stays)
              (omega (
                arith,
                keep-balance r h a (pump S a.net h c).0 c0 (pump S a.net h c).1 found,
                pump-owes r h a.net c,
              ))
      ]

  service_conn-balance :
      (r h : ℕ) (a : Actor S) (c : Conn)
      → lookup h a.conns ≡ some c
      → balance S r (service_conn S a h c) ≡ balance S r a
  unfolding service_conn
  service_conn-balance r h a c found =
      let (settled, same) = settle-balance r h a c in
      omega (
        arith,
        settled,
        finish-balance r h (settle S a h c).0 c (settle S a h c).1 (settle S a h c).2
            (ap (lookup h) same ∙ found),
      )

  service_handle-balance :
      (r h : ℕ) (a : Actor S) → balance S r (service_handle S a h) ≡ balance S r a
  unfolding service_handle
  service_handle-balance r h a = elim (Option-cases (lookup h a.conns)) [
    | inl missing ↦ rw (service_handle, missing) refl
    | inr (c, found) ↦ rw (service_handle, found) (service_conn-balance r h a c found)
  ]

  pub service_sockets-balance :
      (r : ℕ) (a : Actor S) (handles : List ℕ)
      → balance S r (service_sockets S a handles) ≡ balance S r a
  unfolding service_sockets
  service_sockets-balance r a [] = refl
  service_sockets-balance r a (h ∷ handles) =
      service_sockets-balance r (service_handle S a h) handles ∙ service_handle-balance r h a
