-- ===== src/Tunnel.antt =====
-- The HTTP/3 datagram half of crates/warp-masque/src/tunnel.rs: `H3Io::max_ip_packet`, what
-- `H3Io::send_ip` hands to QUIC, and `H3Io::recv_ip`.
--
-- A datagram is carried whole or not at all, so what QUIC delivers is a list of events. Of
-- `quinn::Connection` the model has the answer of `max_datagram_size` and that list.
pub mod Datagram
mod Tests
use warp_proxy.Base.{
  ℕ, zero, suc, ◌+◌, ◌-◌, ◌/◌, Bool, ◌&&◌, List, [], ◌∷◌, ◌++◌, Option, none, some,
}
use warp_proxy.Base.{◌==◌, ◌>>=◌, if◌then◌else◌}
use warp_proxy.Varint.{encode_varint, decode_varint, varint_len}

abbrev pub context_id_full_packet : ℕ
context_id_full_packet = 0

-- `stream.id().into_inner() / 4`
pub quarter_stream_id_of : ℕ → ℕ
quarter_stream_id_of stream_id = stream_id / 4

-- The connection enters by the last answer of `quic.max_datagram_size()`.
pub record H3Io : Type 0 where
  pub max_datagram_size : Option ℕ
  pub quarter_stream_id : ℕ

unfoldable pub overhead : H3Io → ℕ
overhead io = varint_len io.quarter_stream_id + varint_len 0

-- `saturating_sub` is the subtraction of ℕ.
unfoldable pub max_ip_packet : H3Io → ℕ
max_ip_packet io = elim io.max_datagram_size [ none ↦ 0 | some m ↦ m - overhead io ]

-- The buffer that `send_ip` passes to `send_datagram`.
pub send_ip : H3Io → List ℕ → List ℕ
send_ip io packet =
    encode_varint (encode_varint [] io.quarter_stream_id) context_id_full_packet ++ packet

-- The body of the loop in `recv_ip`: `none` is `continue`.
pub accept_datagram : H3Io → List ℕ → Option (List ℕ)
accept_datagram io dg = do
  (qsid, rest) ← decode_varint dg
  (ctx, rest') ← decode_varint rest
  if qsid == io.quarter_stream_id && ctx == context_id_full_packet then some rest' else none

-- What `read_datagram` gives: a datagram, or the end of the connection.
pub data Event : Type 0 where
  datagram : List ℕ → Event
  lost : Event

-- How a call of `recv_ip` ends, with the events that it leaves.
pub data Received : Type 0 where
  packet : List ℕ → List Event → Received
  failed : List Event → Received
  pending : Received

unfoldable pub recv_ip : H3Io → List Event → Received
recv_ip io [] = pending
recv_ip io (lost ∷ events) = failed events
recv_ip io (datagram dg ∷ events) =
    let again = recv_ip io events in
    elim (accept_datagram io dg) [ none ↦ again | some p ↦ packet p events ]
