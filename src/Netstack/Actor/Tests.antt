-- ===== src/Netstack/Actor/Tests.antt =====
-- A small instance of `Smoltcp` and the actor on it.
use warp_proxy.Base.{
  ℕ, suc, ◌≤◌, ◌≡◌, refl, subst, arith, Bool, true, false, ◌&&◌, not, List, [], ◌∷◌, ◌++◌, Option,
  none, some, min, ltb,
}
use warp_proxy.Base.{◌==◌, ==_refl, if◌then◌else◌, length, take, drop}
use warp_proxy.Socks.{IpAddr, v4}
use warp_proxy.Netstack.{Smoltcp, established, closed, addresses}
use warp_proxy.Netstack.Actor.{
  Actor, Conn, Cmd, connect, send, resolve, start, pump, fresh_conn, service_handle, service_conn,
  verdict, finish, discard, answer, settle, flush, receive, send_turn, recv_turn, after_send,
  after_recv, is_empty,
}
use warp_proxy.Netstack.Actor.Dns.{service_dns, sweep, service_dns-sweep}
use warp_proxy.Netstack.Actor.Lifetime.{has}
use warp_proxy.Netstack.Actor.Lifetime.Ends.{Serviced, service_handle_lem}
use warp_proxy.Netstack.Actor.Lifetime.Reuse.{close-reused}
use warp_proxy.Base.Table.{lookup}
use warp_proxy.Netstack.Actor.Streams.{Buffered, Pumped, pump-Pumped}
use warp_proxy.Netstack.Actor.Lifetime.{Handles, Tracked}
use warp_proxy.Netstack.Actor.Rounds.{Run, idle, next, round, handle_cmds}
use warp_proxy.Netstack.Actor.Rounds.Invariant.{Run-Tracked}
use warp_proxy.Netstack.Client.{drop_writer}

pub record Sockets : Type 0 where
  pub next_handle : ℕ
  pub gone : ℕ → Bool
  pub sent : ℕ → List ℕ
  pub taken : ℕ → List ℕ
  pub inbox : ℕ → List ℕ

abbrev pub set : {A : Type 0} → ℕ → A → (ℕ → A) → ℕ → A
set h v f j = if j == h then v else f j

pub set_self : {A : Type 0} (h : ℕ) (v : A) (f : ℕ → A) → set h v f h ≡ v
set_self h v f = rw (==_refl h) refl

-- What a result holds, if it is one.
abbrev pub Holds : {A : Type 0} → (A → Type 0) → Option A → Type 0
Holds P none = Unit
Holds P (some x) = P x

abbrev toy_live : Sockets → ℕ → Bool
toy_live net j = ltb j net.next_handle && not (net.gone j)

-- A socket takes four bytes at a time and hands out what its peer has sent.
abbrev toy_send : Sockets → ℕ → List ℕ → Option (ℕ × Sockets)
toy_send net h bytes =
    let n = min 4 (length bytes) in
    some (n, record net { sent = set h (net.sent h ++ take n bytes) net.sent })

abbrev toy_recv : Sockets → ℕ → ℕ → Option (List ℕ × Sockets)
toy_recv net h most =
    let bytes = take most (net.inbox h) in
    some (
      bytes,
      record net {
        taken = set h (net.taken h ++ bytes) net.taken;
        inbox = set h (drop most (net.inbox h)) net.inbox;
      },
    )

abbrev is_nil : List ℕ → Bool
is_nil [] = true
is_nil (b ∷ bs) = false

abbrev pub toy : Smoltcp
toy = record {
  Net = Sockets;
  poll = λ net rx. (net, [], rx);
  add = λ net. (
    net.next_handle,
    record net {
      next_handle = suc net.next_handle;
      gone = set net.next_handle false net.gone;
      sent = set net.next_handle [] net.sent;
      taken = set net.next_handle [] net.taken;
    },
  );
  remove = λ net h. record net { gone = set h true net.gone };
  connect = λ net h remote port local. some net;
  state = λ net h. if net.gone h then closed else established;
  is_active = λ net h. not (net.gone h);
  can_send = λ net h. true;
  can_recv = λ net h. not (is_nil (net.inbox h));
  send_slice = toy_send;
  recv_slice = toy_recv;
  close = λ net h. net;
  start_query = λ net name. some (0, net);
  get_query_result = λ net q. (addresses (v4 (1 ∷ 2 ∷ 3 ∷ 4 ∷ []) ∷ []), net);
  first_slice = λ net h n. n;
}

abbrev pub toy_Buffered : Buffered toy
toy_Buffered = record {
  sent = λ net h. net.sent h;
  taken = λ net h. net.taken h;
  send_slice-sent = λ net net' h n bytes e.
      subst
        (Holds (λ r.
          (r.1.sent h ≡ net.sent h ++ take r.0 bytes)
          × (r.0 ≤ length bytes)
          × (r.1.taken h ≡ net.taken h)))
        e (set_self h _ net.sent, omega arith, refl);
  recv_slice-taken = λ net net' h most bytes e.
      subst (Holds (λ r. (r.1.taken h ≡ net.taken h ++ r.0) × (r.1.sent h ≡ net.sent h))) e
        (set_self h _ net.taken, refl);
  close-keeps = λ net h. (refl, refl);
}

pub add_toy :
    (net : Sockets) (j : ℕ)
    → toy_live (toy.add net).1 j ≡ (if j == net.next_handle then true else toy_live net j)
add_toy net j = ground arith

pub remove_toy :
    (net : Sockets) (h j : ℕ)
    → toy_live (toy.remove net h) j ≡ (if j == h then false else toy_live net j)
remove_toy net h j = ground arith

abbrev pub toy_Handles : Handles toy
toy_Handles = record {
  live = toy_live;
  add-fresh = λ net. ground arith;
  add-live = add_toy;
  remove-live = remove_toy;
  connect-live =
      λ net net' h remote port local j e. subst (Holds (λ r. toy_live r j ≡ toy_live net j)) e refl;
  send_slice-live =
      λ net net' h n bytes j e. subst (Holds (λ r. toy_live r.1 j ≡ toy_live net j)) e refl;
  recv_slice-live =
      λ net net' h most bytes j e. subst (Holds (λ r. toy_live r.1 j ≡ toy_live net j)) e refl;
  close-live = λ net h j. refl;
  start_query-live =
      λ net net' name q j e. subst (Holds (λ r. toy_live r.1 j ≡ toy_live net j)) e refl;
  get_query_result-live = λ net q j. refl;
  poll-live = λ net rx j. refl;
}

abbrev pub no_sockets : Sockets
no_sockets = record {
  next_handle = 0;
  gone = λ j. false;
  sent = λ j. [];
  taken = λ j. [];
  inbox = λ j. 7 ∷ 8 ∷ 9 ∷ [];
}

abbrev some_data : Sockets
some_data = record no_sockets { next_handle = 1 }

abbrev sending : Conn
sending = record (fresh_conn 5) { connect_reply = none; out_buf = 1 ∷ 2 ∷ 3 ∷ 4 ∷ 5 ∷ 6 ∷ [] }

pump-Pumped_example :
    Pumped toy toy_Buffered 0 some_data
      (pump toy some_data 0 sending).0
      sending
      (pump toy some_data 0 sending).1
pump-Pumped_example = pump-Pumped toy toy_Buffered some_data 0 sending

pump_test :
    ((pump toy some_data 0 sending).1.from_net ≡ (7 ∷ 8 ∷ 9 ∷ []) ∷ [])
    × ((pump toy some_data 0 sending).0.sent 0 ≡ 1 ∷ 2 ∷ 3 ∷ 4 ∷ 5 ∷ 6 ∷ [])
unfolding pump flush receive send_turn recv_turn after_send after_recv is_empty
pump_test = (refl, refl)

abbrev pub no_literal : List ℕ → Option IpAddr
no_literal name = none

-- A connect, data on it, and a lookup.
abbrev commands : List Cmd
commands = connect (v4 (9 ∷ 9 ∷ 9 ∷ 9 ∷ [])) 443 5 ∷ send 0 (1 ∷ 2 ∷ []) ∷ resolve (97 ∷ []) 6 ∷ []

abbrev pub empty_actor : Actor toy
empty_actor = start toy no_sockets

abbrev first_round : Actor toy
first_round = (round toy no_literal empty_actor [] commands).0

abbrev second_round : Actor toy
second_round = (round toy no_literal first_round (0 ∷ []) []).0

abbrev two_rounds : Run toy no_literal empty_actor commands second_round
two_rounds = next (0 ∷ []) [] (next [] commands idle)

pub no_sockets_fresh : (j : ℕ) → toy_live no_sockets j ≡ false
no_sockets_fresh j = ground arith

Run-Tracked_example : Tracked toy toy_Handles second_round.net second_round.conns
Run-Tracked_example = Run-Tracked toy no_literal toy_Handles no_sockets no_sockets_fresh two_rounds

abbrev waiting : Actor toy
waiting = record empty_actor { net = some_data; conns = (0, sending) ∷ [] }

-- A connect that is still pending.
abbrev asking : Conn
asking = record sending { connect_reply = some 5 }

service_handle_lem_example :
    Serviced toy
      (record waiting { conns = (0, asking) ∷ [] })
      (service_handle toy (record waiting { conns = (0, asking) ∷ [] }) 0)
      0
      asking
service_handle_lem_example =
    service_handle_lem toy (record waiting { conns = (0, asking) ∷ [] }) 0 asking refl (refl, tt)

-- The only socket is Closed, and its handle is the next that is given.
abbrev ending : Actor toy
ending = record empty_actor {
  net = record no_sockets { gone = λ j. true };
  conns = (0, sending) ∷ [];
}

close-reused_example :
    (has 0 (service_handle toy ending 0).conns ≡ false)
    × (lookup 0
          (handle_cmds toy no_literal
            (service_handle toy ending 0)
            (drop_writer
              (record { running = true; cmds = connect (v4 (9 ∷ 9 ∷ 9 ∷ 9 ∷ [])) 443 8 ∷ [] })
              0).cmds).conns
        ≡ some (record (fresh_conn 8) { closing = true }))
unfolding service_handle service_conn settle verdict finish discard pump flush receive send_turn
    recv_turn after_send after_recv is_empty answer
close-reused_example =
    close-reused toy no_literal ending sending (toy.add (service_handle toy ending 0).net).1
      (v4 (9 ∷ 9 ∷ 9 ∷ 9 ∷ [])) 443 8 0 refl (refl, tt) refl refl refl

service_dns-sweep_example : service_dns toy (record empty_actor { dns_pending = (0, 6) ∷ [] }) ≡ (
    let (net, kept, replies) = sweep toy no_sockets ((0, 6) ∷ []) in
    record empty_actor { net = net; dns_pending = kept; replies = replies })
unfolding start
service_dns-sweep_example = service_dns-sweep toy (record empty_actor { dns_pending = (0, 6) ∷ [] })
