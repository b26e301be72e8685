-- ===== src/Netstack/Actor/Carried/Tests.antt =====
-- The life of one connection on the small instance of `Smoltcp`.
use warp_proxy.Base.{ℕ, ◌≡◌, ◌≢◌, refl, subst, arith, [], ◌∷◌, none, some}
use warp_proxy.Base.Table.{lookup}
use warp_proxy.Socks.{v4}
use warp_proxy.Netstack.Actor.Dns.{service_dns}
use warp_proxy.Netstack.Actor.{
  Conn, fresh_conn, verdict, send_turn, recv_turn, after_send, after_recv, start, answer, Actor,
  send, adjust, handle_connect, handle_cmd, service_sockets, service_handle, service_conn, settle,
  finish, pump, flush, receive,
}
use warp_proxy.Netstack.Actor.Rounds.{poll_and_service}
use warp_proxy.Netstack.Actor.Lifetime.{Tracked, start-Tracked}
use warp_proxy.Netstack.Actor.Carried.{Apart, Carries}
use warp_proxy.Netstack.Actor.Carried.Commands.{sends}
use warp_proxy.Netstack.Actor.Carried.Life.{
  Life, opened, command, serviced, took, take_chunk, Life-Alive,
}
use warp_proxy.Netstack.Actor.Tests.{
  set, set_self, Holds, toy, toy_Buffered, toy_Handles, no_sockets, no_sockets_fresh, empty_actor,
  no_literal,
}

set_other : {A : Type 0} (h k : ℕ) (v : A) (f : ℕ → A) → h ≢ k → set k v f h ≡ f h
set_other h k v f apart = ground arith

abbrev toy_Apart : Apart toy toy_Buffered
toy_Apart = record {
  add-opens = λ net. (set_self net.next_handle [] net.sent, set_self net.next_handle [] net.taken);
  add-keeps = λ net h apart. (
    set_other h net.next_handle [] net.sent apart,
    set_other h net.next_handle [] net.taken apart,
  );
  connect-keeps = λ net net' k remote port local h e.
      subst (Holds (λ r. (r.sent h ≡ net.sent h) × (r.taken h ≡ net.taken h))) e (refl, refl);
  remove-keeps = λ net k h apart. (refl, refl);
  send_slice-keeps = λ net net' k n bytes h apart e.
      subst (Holds (λ r. (r.1.sent h ≡ net.sent h) × (r.1.taken h ≡ net.taken h))) e
        (set_other h k _ net.sent apart, refl);
  recv_slice-keeps = λ net net' k most bytes h apart e.
      subst (Holds (λ r. (r.1.sent h ≡ net.sent h) × (r.1.taken h ≡ net.taken h))) e
        (refl, set_other h k _ net.taken apart);
  close_other-keeps = λ net k h apart. (refl, refl);
  start_query-keeps = λ net net' name q h e.
      subst (Holds (λ r. (r.1.sent h ≡ net.sent h) × (r.1.taken h ≡ net.taken h))) e (refl, refl);
  get_query_result-keeps = λ net q h. (refl, refl);
  poll-keeps = λ net rx h. (refl, refl);
}

abbrev connected_actor : Actor toy
connected_actor = handle_connect toy empty_actor (v4 (9 ∷ 9 ∷ 9 ∷ 9 ∷ [])) 443 5

abbrev written : Actor toy
written = handle_cmd toy no_literal connected_actor (send 0 (1 ∷ 2 ∷ []))

abbrev carried : Actor toy
carried = (poll_and_service toy no_literal written (0 ∷ [])).0

-- A connect, data on it, a pass, and a chunk that the client takes.
abbrev read : Actor toy
read = adjust toy carried 0 (take_chunk [])

abbrev with_chunk : Conn
with_chunk = record (fresh_conn 5) { connect_reply = none; from_net = (7 ∷ 8 ∷ 9 ∷ []) ∷ [] }

carried_found : lookup 0 carried.conns ≡ some with_chunk
unfolding poll_and_service service_sockets service_handle service_conn settle verdict finish pump
    flush receive send_turn recv_turn after_send after_recv handle_cmd handle_connect adjust
    service_dns start answer
carried_found = refl

sent_and_read : Life toy no_literal 0 (1 ∷ 2 ∷ []) (7 ∷ 8 ∷ 9 ∷ []) empty_actor read
unfolding sends start
sent_and_read = took {c = with_chunk} (7 ∷ 8 ∷ 9 ∷ []) [] carried_found refl (
    serviced (0 ∷ []) (λ gone. absurd (ground (arith, carried_found, gone)))
      (command (send 0 (1 ∷ 2 ∷ [])) (
        opened {a = empty_actor} (v4 (9 ∷ 9 ∷ 9 ∷ 9 ∷ [])) 443 5 {net = (toy.add no_sockets).1} refl
          refl)))

Life-Alive_example :
    Tracked toy toy_Handles read.net read.conns
    × Carries toy toy_Buffered 0 (1 ∷ 2 ∷ []) (7 ∷ 8 ∷ 9 ∷ []) read.net read.conns
Life-Alive_example =
    Life-Alive toy no_literal toy_Buffered toy_Apart toy_Handles 0
      (start-Tracked toy toy_Handles no_sockets no_sockets_fresh) sent_and_read
