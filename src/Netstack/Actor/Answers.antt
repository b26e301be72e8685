-- ===== src/Netstack/Actor/Answers.antt =====
-- Every request of a client is answered once: what is still owed, and what has been answered.
pub mod Service
use warp_proxy.Base.{
  ℕ, zero, suc, ◌+◌, ◌≡◌, ◌≢◌, refl, subst, ap, sym, ◌∙◌, arith, Bool, true, false, ◌||◌, List, [],
  ◌∷◌, ◌++◌, Option, none, some,
}
use warp_proxy.Base.{◌==◌, Bool-cases, Option-cases, inl, inr, if◌then◌else◌}
use warp_proxy.Base.Table.{Table, lookup, insert, erase}
use warp_proxy.Socks.{IpAddr}
use warp_proxy.Netstack.{Smoltcp, is_closed}
use warp_proxy.Netstack.Actor.{
  start, finish, connect_error, Actor, Conn, Cmd, Reply, inbound, connect, send, close, resolve,
  fresh_conn, answer, adjust, handle_connect, handle_resolve, handle_cmd, verdict, settle, pump,
  discard, service_conn, service_handle, service_sockets,
}
use warp_proxy.Netstack.Actor.Dns.{service_dns, service_dns-sweep, sweep, dns_answer}

-- How often `r` is the sender that an entry holds.
pub is_one : ℕ → ℕ → ℕ
is_one r q = if q == r then 1 else 0

pub owes : ℕ → Conn → ℕ
owes r c = elim c.connect_reply [ none ↦ 0 | some q ↦ if q == r then 1 else 0 ]

pub conns_owe : ℕ → Table Conn → ℕ
conns_owe r [] = 0
conns_owe r ((h, c) ∷ d) = owes r c + conns_owe r d

pub queries_owe : ℕ → List (ℕ × ℕ) → ℕ
queries_owe r [] = 0
queries_owe r ((q, s) ∷ l) = (if s == r then 1 else 0) + queries_owe r l

pub answered : ℕ → List (ℕ × Reply) → ℕ
answered r [] = 0
answered r ((s, what) ∷ l) = (if s == r then 1 else 0) + answered r l

conns_owe-erase :
    (r h : ℕ) (c : Conn) (d : Table Conn)
    → lookup h d ≡ some c
    → conns_owe r (erase h d) + owes r c ≡ conns_owe r d
unfolding conns_owe
conns_owe-erase r h c [] e = cc
conns_owe-erase r h c ((j, b) ∷ d) e = ground (arith, conns_owe-erase r h c d)

conns_owe-erase_missing :
    (r h : ℕ) (d : Table Conn) → lookup h d ≡ none → conns_owe r (erase h d) ≡ conns_owe r d
unfolding conns_owe
conns_owe-erase_missing r h [] e = refl
conns_owe-erase_missing r h ((j, b) ∷ d) e = ground (arith, conns_owe-erase_missing r h d)

conns_owe-insert :
    (r h : ℕ) (c c' : Conn) (d : Table Conn)
    → lookup h d ≡ some c
    → conns_owe r (insert h c' d) + owes r c ≡ conns_owe r d + owes r c'
unfolding conns_owe
conns_owe-insert r h c c' d e = omega (arith, conns_owe-erase r h c d e)

conns_owe-insert_new :
    (r h : ℕ) (c : Conn) (d : Table Conn)
    → lookup h d ≡ none
    → conns_owe r (insert h c d) ≡ conns_owe r d + owes r c
unfolding conns_owe
conns_owe-insert_new r h c d e = omega (arith, conns_owe-erase_missing r h d e)

answered-append :
    (r : ℕ) (l m : List (ℕ × Reply)) → answered r (l ++ m) ≡ answered r l + answered r m
unfolding answered
answered-append r [] m = omega arith
answered-append r ((s, what) ∷ l) m = omega (arith, answered-append r l m)

queries_owe-append :
    (r : ℕ) (l m : List (ℕ × ℕ)) → queries_owe r (l ++ m) ≡ queries_owe r l + queries_owe r m
unfolding queries_owe
queries_owe-append r [] m = omega arith
queries_owe-append r ((q, s) ∷ l) m = omega (arith, queries_owe-append r l m)

module _ (S : Smoltcp) where
  -- What is owed to the sender `r` and what it was sent.
  pub balance : ℕ → Actor S → ℕ
  unfolding conns_owe queries_owe answered
  balance r a = conns_owe r a.conns + queries_owe r a.dns_pending + answered r a.replies

  sweep-owe :
      (r : ℕ) (net : S.Net) (l : List (ℕ × ℕ))
      → queries_owe r (sweep S net l).1 + answered r (sweep S net l).2 ≡ queries_owe r l
  unfolding sweep queries_owe answered
  sweep-owe r net [] = refl
  sweep-owe r net ((q, s) ∷ l) = ground (arith, sweep-owe r (S.get_query_result net q).1 l)

  pub service_dns-balance : (r : ℕ) (a : Actor S) → balance r (service_dns S a) ≡ balance r a
  unfolding balance
  service_dns-balance r a = rw (service_dns-sweep S a) (
      omega (
        arith,
        sweep-owe r a.net a.dns_pending,
        answered-append r a.replies (sweep S a.net a.dns_pending).2,
      ))

  -- What a command asks of `r`.
  pub asks : ℕ → Cmd → ℕ
  asks r (connect remote port s) = if s == r then 1 else 0
  asks r (resolve name s) = if s == r then 1 else 0
  asks r _ = 0

  pub answer-balance :
      (r s : ℕ) (what : Reply) (a : Actor S)
      → balance r (answer S a s what) ≡ balance r a + is_one r s
  unfolding balance answer answered is_one
  answer-balance r s what a = omega (arith, answered-append r a.replies ((s, what) ∷ []))

  adjust-balance :
      (r h : ℕ) (f : Conn → Conn) (a : Actor S)
      → ((c : Conn) → owes r (f c) ≡ owes r c)
      → balance r (adjust S a h f) ≡ balance r a
  unfolding balance adjust
  adjust-balance r h f a same = elim (Option-cases (lookup h a.conns)) [
    | inl missing ↦ rw (adjust, missing) refl
    | inr (c, found) ↦
        rw (adjust, found) (omega (arith, conns_owe-insert r h c (f c) a.conns found, same c))
  ]

  query-balance :
      (r q s : ℕ) (net : S.Net) (a : Actor S)
      → balance r (record a { net = net; dns_pending = a.dns_pending ++ (q, s) ∷ [] })
        ≡ balance r a + is_one r s
  unfolding balance queries_owe is_one
  query-balance r q s net a = omega (arith, queries_owe-append r a.dns_pending ((q, s) ∷ []))

  handle_resolve-balance :
      (r : ℕ) (parse_ip : List ℕ → Option IpAddr) (a : Actor S) (name : List ℕ) (s : ℕ)
      → balance r (handle_resolve S parse_ip a name s) ≡ balance r a + is_one r s
  unfolding handle_resolve
  handle_resolve-balance r parse_ip a name s = elim (Option-cases (parse_ip name)) [
    | inr (ip, literal) ↦ rw (handle_resolve, literal) (answer-balance r s _ a)
    | inl other ↦ elim (Option-cases (S.start_query a.net name)) [
      | inl refused ↦ rw (handle_resolve, other, refused) (answer-balance r s _ a)
      | inr ((q, net), started) ↦ rw (handle_resolve, other, started) (query-balance r q s net a)
    ]
  ]

  -- A connect on a handle that the map does not have.
  handle_connect-balance :
      (r : ℕ) (a : Actor S) (remote : IpAddr) (port s : ℕ)
      → lookup (S.add a.net).0 a.conns ≡ none
      → balance r (handle_connect S a remote port s) ≡ balance r a + is_one r s
  unfolding handle_connect balance answer answered is_one owes
  handle_connect-balance r a remote port s new =
      let h = (S.add a.net).0 in
      elim (Option-cases (S.connect (S.add a.net).1 h remote port a.next_port)) [
        | inl refused ↦
            rw (handle_connect, refused)
              (omega (arith, answered-append r a.replies ((s, connect_error) ∷ [])))
        | inr (net, started) ↦
            rw (handle_connect, started)
              (omega (arith, conns_owe-insert_new r h (fresh_conn s) a.conns new))
      ]

  -- A command adds what it asks for, whichever way it ends.
  pub handle_cmd-balance :
      (r : ℕ) (parse_ip : List ℕ → Option IpAddr) (a : Actor S) (cmd : Cmd)
      → lookup (S.add a.net).0 a.conns ≡ none
      → balance r (handle_cmd S parse_ip a cmd) ≡ balance r a + asks r cmd
  unfolding handle_cmd asks
  handle_cmd-balance r parse_ip a (inbound pkt) new = unfold balance in omega arith
  handle_cmd-balance r parse_ip a (connect remote port s) new =
      unfold is_one in handle_connect-balance r a remote port s new
  handle_cmd-balance r parse_ip a (send h bytes) new =
      let same =
        adjust-balance r h (λ c. record c { out_buf = c.out_buf ++ bytes }) a
          (λ c. unfold owes in refl) in
      omega arith
  handle_cmd-balance r parse_ip a (close h) new =
      let same =
        adjust-balance r h (λ c. record c { closing = true }) a (λ c. unfold owes in refl) in
      omega arith
  handle_cmd-balance r parse_ip a (resolve name s) new =
      unfold is_one in handle_resolve-balance r parse_ip a name s

  pub move-balance :
      (r : ℕ) (a : Actor S) (net : S.Net) (rx : List (List ℕ))
      → balance r (record a { net = net; rx = rx }) ≡ balance r a
  unfolding balance
  move-balance r a net rx = refl

  pub start-balance : (r : ℕ) (net : S.Net) → balance r (start S net) ≡ 0
  unfolding balance start conns_owe queries_owe answered
  start-balance r net = refl
