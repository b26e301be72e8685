-- ===== src/Tunnel/Tests.antt =====
-- Concrete datagrams, and the theorems at concrete inputs.
use warp_proxy.Base.{◌≡◌, refl, [], ◌∷◌, some}
use warp_proxy.Varint.{encode_varint, decode_varint, push_bytes, varint_len, be_bytes}
use warp_proxy.Tunnel.{
  H3Io, send_ip, max_ip_packet, accept_datagram, datagram, lost, failed, recv_ip, overhead,
}

abbrev io : H3Io
io = record { max_datagram_size = some 1225; quarter_stream_id = 70 }

send_short : send_ip io (0x45 ∷ 0x00 ∷ []) ≡ 0x40 ∷ 70 ∷ 0 ∷ 0x45 ∷ 0x00 ∷ []
unfolding send_ip encode_varint be_bytes
send_short = refl

budget : max_ip_packet io ≡ 1222
unfolding max_ip_packet overhead varint_len
budget = refl

-- A datagram with another context id is passed over, and the loss of the connection ends the call.
foreign_context : recv_ip io (datagram (0x40 ∷ 70 ∷ 2 ∷ 9 ∷ []) ∷ lost ∷ []) ≡ failed []
unfolding recv_ip accept_datagram decode_varint push_bytes
foreign_context = refl
