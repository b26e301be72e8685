-- ===== src/Netstack/Client.antt =====
-- The client's end of the netstack in crates/warp-masque/src/netstack.rs: `NetHandle`, and the writing
-- half of `TcpConn` with `TcpReader` and `TcpWriter`.
--
-- Every handle writes to the one queue of commands that the actor reads; the queue is closed when the
-- actor is gone. A call that waits for a reply is given it.
pub mod Writes
use warp_proxy.Base.{ℕ, zero, Bool, true, false, List, [], ◌∷◌, ◌++◌, Option, none, some}
use warp_proxy.Base.{if◌then◌else◌, length}
use warp_proxy.Socks.{IpAddr}
use warp_proxy.Netstack.Conn.{TcpConn}
use warp_proxy.Netstack.Actor.{
  Cmd, inbound, connect, send, close, resolve, Reply, connected, resolved, dropped,
}

pub record Queue : Type 0 where
  pub running : Bool
  pub cmds : List Cmd

-- `Sender::send`, and whether it has succeeded.
unfoldable pub send_cmd : Queue → Cmd → Queue × Bool
send_cmd q cmd = if q.running then (record q { cmds = q.cmds ++ cmd ∷ [] }, true) else (q, false)

-- `Result<A, String>` of a request, by the reason of its error.
pub data Asked (A : Type 0) : Type 0 where
  answered : A → Asked A
  netstack_stopped netstack_dropped : Asked A
  failed : Reply → Asked A

-- What the receiver of a `resolve` makes of the reply.
unfoldable pub resolved_as : Reply → Asked IpAddr
resolved_as (resolved ip) = answered ip
resolved_as dropped = netstack_dropped
resolved_as other = failed other

-- The connection by its handle, as `connect` makes it.
abbrev pub new_conn : TcpConn
new_conn = record { from_net = []; sender_alive = true; read_buf = []; read_pos = 0 }

unfoldable pub connected_as : Reply → Asked (ℕ × TcpConn)
connected_as (connected h) = answered (h, new_conn)
connected_as dropped = netstack_dropped
connected_as other = failed other

-- `NetHandle::resolve` and `NetHandle::connect`, with the sender `r` and the reply that comes for it.
unfoldable pub ask_resolve : Queue → List ℕ → ℕ → Reply → Asked IpAddr × Queue
unfolding send_cmd resolved_as
ask_resolve q name r reply =
    let (q', queued) = send_cmd q (resolve name r) in
    (if queued then resolved_as reply else netstack_stopped, q')

unfoldable pub ask_connect : Queue → IpAddr → ℕ → ℕ → Reply → Asked (ℕ × TcpConn) × Queue
unfolding send_cmd connected_as
ask_connect q remote port r reply =
    let (q', queued) = send_cmd q (connect remote port r) in
    (if queued then connected_as reply else netstack_stopped, q')

-- `Poll::Ready` with the length that was written, nothing, or an error.
pub data WritePoll : Type 0 where
  wrote : ℕ → WritePoll
  finished broken_pipe : WritePoll

unfoldable pub poll_write : Queue → ℕ → List ℕ → WritePoll × Queue
unfolding send_cmd
poll_write q h buf =
    let (q', queued) = send_cmd q (send h buf) in
    (if queued then wrote (length buf) else broken_pipe, q')

pub poll_flush : Queue → WritePoll × Queue
poll_flush q = (finished, q)

-- `send` and `close` of `TcpConn` and of `TcpWriter`, whose errors are dropped.
unfoldable pub conn_send : Queue → ℕ → List ℕ → Queue
unfolding send_cmd
conn_send q h bytes = (send_cmd q (send h bytes)).0

unfoldable pub conn_close : Queue → ℕ → Queue
unfolding send_cmd
conn_close q h = (send_cmd q (close h)).0

unfoldable pub poll_shutdown : Queue → ℕ → WritePoll × Queue
unfolding conn_close
poll_shutdown q h = (finished, conn_close q h)

-- `TcpWriter::drop`
unfoldable pub drop_writer : Queue → ℕ → Queue
unfolding conn_close
drop_writer q h = conn_close q h

-- `recv`: the next chunk, the end, or a wait; the end is `some none`.
unfoldable pub recv : TcpConn → Option (Option (List ℕ)) × TcpConn
recv me = elim me.from_net [
  | chunk ∷ later ↦ (some (some chunk), record me { from_net = later })
  | [] ↦ (if me.sender_alive then none else some none, me)
]

-- The feeder's loop over what the tunnel's `recv_ip` gives; `none` is its error.
unfoldable pub feed : Queue → List (Option (List ℕ)) → Queue
unfolding send_cmd
feed q [] = q
feed q (none ∷ packets) = q
feed q (some pkt ∷ packets) =
    let (q', queued) = send_cmd q (inbound pkt) in
    let rest = feed q' packets in if queued then rest else q'
