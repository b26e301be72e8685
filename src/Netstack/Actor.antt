-- ===== src/Netstack/Actor.antt =====
-- The actor of crates/warp-masque/src/netstack.rs: its commands, and a round of its loop.
--
-- A `HashMap` yields its keys in any order, so that order is an argument. The loops over a socket's
-- buffers run on fuel. Answers on oneshot channels are kept in `replies`; a sender that is dropped
-- unused answers too, since its receiver reports that.
pub mod Flush
pub mod Streams
pub mod Answers
pub mod Ports
pub mod Lifetime
pub mod Dns
pub mod Rounds
pub mod Carried
pub mod Tests
use warp_proxy.Base.{
  ℕ, zero, suc, ◌+◌, ◌-◌, max, min, Bool, true, false, ◌&&◌, ◌||◌, not, List, [], ◌∷◌, ◌++◌, Option,
  none, some,
}
use warp_proxy.Base.{◌==◌, ltb, if◌then◌else◌, length, take, drop}
use warp_proxy.Base.Table.{Table, lookup, insert, erase}
use warp_proxy.Socks.{IpAddr}
use warp_proxy.Netstack.{
  Smoltcp, is_established, is_closed, QueryResult, addresses, pending, failed,
}

abbrev pub recv_chunk : ℕ
recv_chunk = 8192

abbrev pub chan_depth : ℕ
chan_depth = 64

-- `Cmd`
pub data Cmd : Type 0 where
  inbound : List ℕ → Cmd
  connect : IpAddr → ℕ → ℕ → Cmd
  send : ℕ → List ℕ → Cmd
  close : ℕ → Cmd
  resolve : List ℕ → ℕ → Cmd

pub data Reply : Type 0 where
  connected : ℕ → Reply
  connect_error connection_refused : Reply
  resolved : IpAddr → Reply
  query_error no_address resolution_failed : Reply
  dropped : Reply

-- The chunks in the channel to the client and whether the client still holds the receiver, beside the
-- fields of `Conn`.
pub record Conn : Type 0 where
  pub from_net : List (List ℕ)
  pub receiver_alive : Bool
  pub out_buf : List ℕ
  pub connect_reply : Option ℕ
  pub closing : Bool

is_empty : List ℕ → Bool
is_empty [] = true
is_empty (b ∷ bs) = false

abbrev pub fresh_conn : ℕ → Conn
fresh_conn reply = record {
  from_net = [];
  receiver_alive = true;
  out_buf = [];
  connect_reply = some reply;
  closing = false;
}

-- `io.max_ip_packet().clamp(576, 1280)`
unfoldable pub mtu_of : ℕ → ℕ
mtu_of max_ip_packet = min (max max_ip_packet 576) 1280

unfoldable pub next_port_after : ℕ → ℕ
next_port_after port = if port == 65535 then 49152 else port + 1

-- How a turn of a loop ends: the loop stops or goes on.
pub data Turn (N B : Type 0) : Type 0 where
  stop more : N → B → Turn N B

module _ (S : Smoltcp) where
  open S use {Net}

  pub record Actor : Type 0 where
    pub net : Net
    pub rx : List (List ℕ)
    pub next_port : ℕ
    pub conns : Table Conn
    pub dns_pending : List (ℕ × ℕ)
    pub replies : List (ℕ × Reply)

  -- `Actor::new`
  unfoldable pub start : Net → Actor
  start net = record {
    net = net;
    rx = [];
    next_port = 49152;
    conns = [];
    dns_pending = [];
    replies = [];
  }

  unfoldable pub answer : Actor → ℕ → Reply → Actor
  answer a r what = record a { replies = a.replies ++ (r, what) ∷ [] }

  -- `conns.get_mut(&handle)` and a write.
  unfoldable pub adjust : Actor → ℕ → (Conn → Conn) → Actor
  adjust a h f = elim (lookup h a.conns) [
    | none ↦ a
    | some c ↦ record a { conns = insert h (f c) a.conns }
  ]

  unfoldable pub handle_connect : Actor → IpAddr → ℕ → ℕ → Actor
  unfolding answer next_port_after
  handle_connect a remote port reply =
      let (h, added) = S.add a.net in
      let next = record a { net = added; next_port = next_port_after a.next_port } in
      elim (S.connect added h remote port a.next_port) [
        | some net ↦ record next { net = net; conns = insert h (fresh_conn reply) a.conns }
        | none ↦ answer (record next { net = S.remove added h }) reply connect_error
      ]

  unfoldable pub handle_resolve : (List ℕ → Option IpAddr) → Actor → List ℕ → ℕ → Actor
  unfolding answer
  handle_resolve parse_ip a name reply = elim (parse_ip name) [
    | some ip ↦ answer a reply (resolved ip)
    | none ↦ elim (S.start_query a.net name) [
      | none ↦ answer a reply query_error
      | some (query, net) ↦ record a {
        net = net;
        dns_pending = a.dns_pending ++ (query, reply) ∷ [];
      }
    ]
  ]

  unfoldable pub handle_cmd : (List ℕ → Option IpAddr) → Actor → Cmd → Actor
  unfolding adjust handle_connect handle_resolve
  handle_cmd parse_ip a (inbound pkt) = record a { rx = a.rx ++ pkt ∷ [] }
  handle_cmd parse_ip a (connect remote port reply) = handle_connect a remote port reply
  handle_cmd parse_ip a (send h bytes) = adjust a h (λ c. record c { out_buf = c.out_buf ++ bytes })
  handle_cmd parse_ip a (close h) = adjust a h (λ c. record c { closing = true })
  handle_cmd parse_ip a (resolve name reply) = handle_resolve parse_ip a name reply

  unfoldable pub after_send : Net → List ℕ → Option (ℕ × Net) → Turn Net (List ℕ)
  after_send net out none = stop net out
  after_send net out (some (zero, net')) = stop net' out
  after_send net out (some (suc n, net')) = more net' (drop (suc n) out)

  -- A turn of `while sock.can_send() && !conn.out_buf.is_empty()`.
  unfoldable pub send_turn : Net → ℕ → List ℕ → Turn Net (List ℕ)
  unfolding is_empty after_send
  send_turn net h out =
      if S.can_send net h && not (is_empty out)
      then after_send net out (S.send_slice net h (take (S.first_slice net h (length out)) out))
      else stop net out

  -- The sockets and what is left of the buffer.
  unfoldable pub flush : ℕ → Net → ℕ → List ℕ → Net × List ℕ
  unfolding send_turn
  flush zero net h out = (net, out)
  flush (suc fuel) net h out = elim (send_turn net h out) [
    | stop net' out' ↦ (net', out')
    | more net' out' ↦ flush fuel net' h out'
  ]

  -- A turn of `while sock.can_recv()`: `try_reserve` fails where the channel is full or the receiver gone.
  unfoldable pub after_recv : Net → List (List ℕ) → Option (List ℕ × Net) → Turn Net (List (List ℕ))
  after_recv net chunks none = stop net chunks
  after_recv net chunks (some ([], net')) = stop net' chunks
  after_recv net chunks (some (b ∷ bytes, net')) = more net' (chunks ++ (b ∷ bytes) ∷ [])

  unfoldable pub recv_turn : Net → ℕ → Bool → List (List ℕ) → Turn Net (List (List ℕ))
  unfolding after_recv
  recv_turn net h alive chunks =
      if S.can_recv net h && (alive && ltb (length chunks) chan_depth)
      then after_recv net chunks (S.recv_slice net h recv_chunk)
      else stop net chunks

  -- The sockets and the channel.
  unfoldable pub receive : ℕ → Net → ℕ → Bool → List (List ℕ) → Net × List (List ℕ)
  unfolding recv_turn
  receive zero net h alive chunks = (net, chunks)
  receive (suc fuel) net h alive chunks = elim (recv_turn net h alive chunks) [
    | stop net' chunks' ↦ (net', chunks')
    | more net' chunks' ↦ receive fuel net' h alive chunks'
  ]

  -- How the pending connect of a connection ends, if it does.
  unfoldable pub verdict : Net → ℕ → Conn → Option (ℕ × Reply)
  unfolding is_established
  verdict net h c = elim c.connect_reply [
    | none ↦ none
    | some r ↦
        if is_established (S.state net h)
        then some (r, connected h)
        else if S.is_active net h
        then none
        else some (r, connection_refused)
  ]

  is_refusal : Reply → Bool
  is_refusal connection_refused = true
  is_refusal _ = false

  -- "Resolve the pending connect once established or failed": the flag is `remove`.
  unfoldable pub settle : Actor → ℕ → Conn → Actor × Conn × Bool
  unfolding verdict answer is_refusal
  settle a h c = elim (verdict a.net h c) [
    | none ↦ (a, c, false)
    | some (r, what) ↦ (answer a r what, record c { connect_reply = none }, is_refusal what)
  ]

  -- The two loops and the close.
  unfoldable pub pump : Net → ℕ → Conn → Net × Conn
  unfolding flush receive is_empty
  pump net h c =
      let (net1, out) = flush (suc (length c.out_buf)) net h c.out_buf in
      let (net2, chunks) = receive (suc chan_depth) net1 h c.receiver_alive c.from_net in
      (
        if c.closing && is_empty out then S.close net2 h else net2,
        record c { out_buf = out; from_net = chunks },
      )

  -- The connection leaves the map, and a connect that is still unanswered is dropped with it.
  unfoldable pub discard : Actor → ℕ → Conn → Actor
  unfolding answer
  discard a h c =
      let gone = record a { net = S.remove a.net h; conns = erase h a.conns } in
      elim c.connect_reply [ none ↦ gone | some r ↦ answer gone r dropped ]

  -- The transfer, and the end of the connection if it has come.
  unfoldable pub finish : Actor → ℕ → Conn → Bool → Actor
  unfolding pump discard is_closed
  finish a h c remove =
      let (net, c') = pump a.net h c in
      let moved = record a { net = net } in
      if remove || is_closed (S.state net h)
      then discard moved h c'
      else record moved { conns = insert h c' a.conns }

  unfoldable pub service_conn : Actor → ℕ → Conn → Actor
  unfolding settle finish
  service_conn a h c = let (a', c', remove) = settle a h c in finish a' h c' remove

  -- One handle of the pass. The handles are keys of the map, so that the `expect` holds.
  unfoldable pub service_handle : Actor → ℕ → Actor
  unfolding service_conn
  service_handle a h = elim (lookup h a.conns) [ none ↦ a | some c ↦ service_conn a h c ]

  unfoldable pub service_sockets : Actor → List ℕ → Actor
  unfolding service_handle
  service_sockets a [] = a
  service_sockets a (h ∷ handles) = service_sockets (service_handle a h) handles
