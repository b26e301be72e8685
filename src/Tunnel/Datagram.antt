-- ===== src/Tunnel/Datagram.antt =====
-- What is framed is received by its flow and by no other, and fits into a QUIC datagram.
use warp_proxy.Base.{ℕ, ◌+◌, ◌-◌, ◌≤◌, ◌≡◌, ◌≢◌, ◌↔◌, refl, ◌∙◌, arith}
use warp_proxy.Base.{false, List, [], ◌∷◌, ◌++◌, none, some, append_assoc, map}
use warp_proxy.Base.{◌==◌, ==_refl, if◌then◌else◌, length, length-append, All}
use warp_proxy.Varint.{encode_varint, varint_len, IsU64}
use warp_proxy.Varint.Encode.{encode_varint-out, length-encode_varint}
use warp_proxy.Varint.RoundTrip.{Fits, decode_varint-Fits}
use warp_proxy.Tunnel.{
  H3Io, quarter_stream_id_of, overhead, max_ip_packet, send_ip, accept_datagram,
  context_id_full_packet, Event, datagram, packet, recv_ip,
}

-- A stream id is a varint, so its quarter is one too.
quarter_stream_id-Fits : (stream_id : ℕ) → Fits stream_id → Fits (quarter_stream_id_of stream_id)
unfolding quarter_stream_id_of
quarter_stream_id-Fits stream_id h = omega arith

-- A packet is received from the datagram that was made for it exactly by the flow that it was made for.
pub accept_datagram-send_ip :
    (to from : H3Io) (p : List ℕ)
    → Fits from.quarter_stream_id
    → accept_datagram to (send_ip from p)
      ≡ (if from.quarter_stream_id == to.quarter_stream_id then some p else none)
unfolding accept_datagram send_ip
accept_datagram-send_ip to from p h =
    let q = encode_varint [] from.quarter_stream_id in
    let c = encode_varint [] context_id_full_packet in
    rw
      (
        encode_varint-out q context_id_full_packet (omega arith),
        append_assoc q c p,
        decode_varint-Fits from.quarter_stream_id (c ++ p) h,
        decode_varint-Fits context_id_full_packet p (omega arith),
      )
      (ground arith)

-- `max_ip_packet` is exact: where QUIC takes datagrams with room for the two varints, a packet's
-- datagram is within QUIC's limit if and only if the packet is no longer than `max_ip_packet`.
pub length-send_ip_iff :
    (io : H3Io) (m : ℕ) (p : List ℕ)
    → IsU64 io.quarter_stream_id
    → io.max_datagram_size ≡ some m
    → varint_len io.quarter_stream_id + 1 ≤ m
    → (length (send_ip io p) ≤ m) ↔ (length p ≤ max_ip_packet io)
unfolding send_ip max_ip_packet overhead
length-send_ip_iff io m p h e room =
    let q = encode_varint [] io.quarter_stream_id in
    let one : varint_len 0 ≡ 1 = unfold varint_len in refl in
    let len : length (encode_varint q context_id_full_packet ++ p)
        ≡ varint_len io.quarter_stream_id + 1 + length p =
      omega (
        arith,
        one,
        length-append (encode_varint q context_id_full_packet) p,
        length-encode_varint q context_id_full_packet (omega arith),
        length-encode_varint [] io.quarter_stream_id h,
      ) in
    rw (e, len, one) (omega arith)

-- Where a packet has room, so have the two varints.
pub room_for-varints :
    (io : H3Io) (m : ℕ)
    → io.max_datagram_size ≡ some m
    → 1 ≤ max_ip_packet io
    → varint_len io.quarter_stream_id + 1 ≤ m
unfolding max_ip_packet overhead
room_for-varints io m e room =
    let one : varint_len 0 ≡ 1 = unfold varint_len in refl in
    let size : max_ip_packet io ≡ m - (varint_len io.quarter_stream_id + varint_len 0) = rw e in
    omega (arith, one, size)

-- The event of a packet that a flow of the same connection sent.
abbrev pub sent_on : H3Io → ℕ × List ℕ → Event
sent_on io (flow, p) = datagram (send_ip (record io { quarter_stream_id = flow }) p)

abbrev pub OtherFlows : H3Io → List (ℕ × List ℕ) → Type 0
OtherFlows io flows = All (λ f. Fits f.0 × (f.0 ≢ io.quarter_stream_id)) flows

recv_ip_take :
    (io : H3Io) (dg p : List ℕ) (events : List Event)
    → accept_datagram io dg ≡ some p
    → recv_ip io (datagram dg ∷ events) ≡ packet p events
unfolding recv_ip
recv_ip_take io dg p events e = ground arith

recv_ip_skip :
    (io : H3Io) (dg : List ℕ) (events : List Event)
    → accept_datagram io dg ≡ none
    → recv_ip io (datagram dg ∷ events) ≡ recv_ip io events
unfolding recv_ip
recv_ip_skip io dg events e = ground arith

-- `recv_ip` passes over the datagrams of other flows and returns the first packet of its own, leaving
-- what came later.
pub recv_ip_first :
    (io : H3Io) (others : List (ℕ × List ℕ)) (p : List ℕ) (later : List Event)
    → Fits io.quarter_stream_id
    → OtherFlows io others
    → recv_ip io (map (sent_on io) others ++ datagram (send_ip io p) ∷ later) ≡ packet p later
recv_ip_first io [] p later h fit =
    recv_ip_take io (send_ip io p) p later
      (accept_datagram-send_ip io io p h ∙ rw (==_refl io.quarter_stream_id))
recv_ip_first io ((flow, x) ∷ others) p later h ((hf, ne), fit) =
    let sender : H3Io = record io { quarter_stream_id = flow } in
    let differs : (flow == io.quarter_stream_id) ≡ false = ground arith in
    recv_ip_skip io (send_ip sender x) _ (accept_datagram-send_ip io sender x hf ∙ rw differs)
    ∙ recv_ip_first io others p later h fit
