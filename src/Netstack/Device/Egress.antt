-- ===== src/Netstack/Device/Egress.antt =====
-- What smoltcp writes into the device leaves by the tunnel, and reaches the actor at its other end.
use warp_proxy.Base.{
  ℕ, suc, ◌+◌, ◌≤◌, ◌≡◌, refl, ap, sym, ◌∙◌, arith, true, List, [], ◌∷◌, ◌++◌, map, some,
  append_assoc, append-nil,
}
use warp_proxy.Base.{replicate, leb, length, All, All-weaken}
use warp_proxy.Varint.{varint_len}
use warp_proxy.Varint.RoundTrip.{Fits}
use warp_proxy.Tunnel.{H3Io, send_ip, max_ip_packet, Event, datagram, packet, recv_ip}
use warp_proxy.Tunnel.Datagram.{length-send_ip_iff, recv_ip_first, room_for-varints}
use warp_proxy.Netstack.Actor.{inbound, mtu_of}
use warp_proxy.Netstack.Client.{Queue, feed, send_cmd}
use warp_proxy.Netstack.Device.{
  TunDevice, new_device, receive, consume, push_back, send_all, drain_tx, read_packets,
}

-- A history of a device: what smoltcp has taken from it, what the actor has pushed, and what smoltcp
-- has written.
pub data Uses (dev : TunDevice)
    : List (List ℕ) → List (List ℕ) → List (List ℕ) → TunDevice → Type 1 where
  fresh : Uses dev [] [] [] dev
  took :
      {taken pushed written : List (List ℕ)} {d d' : TunDevice} {buf : List ℕ}
      → Uses dev taken pushed written d
      → receive d ≡ some (buf, d')
      → Uses dev (taken ++ buf ∷ []) pushed written d'
  got :
      {taken pushed written : List (List ℕ)} {d : TunDevice} (pkt : List ℕ)
      → Uses dev taken pushed written d
      → Uses dev taken (pushed ++ pkt ∷ []) written (push_back d pkt)
  wrote :
      {taken pushed written : List (List ℕ)} {d : TunDevice} {R : Type 0} (len : ℕ)
      (f : List ℕ → R × List ℕ)
      → Uses dev taken pushed written d
      → Uses dev taken pushed (written ++ (f (replicate len 0)).1 ∷ []) (consume d len f).1

receive-parts :
    (d d' : TunDevice) (buf : List ℕ)
    → receive d ≡ some (buf, d')
    → (d.rx ≡ buf ∷ d'.rx) × (d'.tx ≡ d.tx) × (d'.mtu ≡ d.mtu)
unfolding receive
receive-parts d d' buf e = ground arith

-- Both queues of a device are in order: what was taken and what waits is what was there and was pushed,
-- and what is to be sent is what was there and was written. The MTU stays.
pub Uses-Ordered :
    {dev d : TunDevice} {taken pushed written : List (List ℕ)}
    → Uses dev taken pushed written d
    → (dev.rx ++ pushed ≡ taken ++ d.rx) × (d.tx ≡ dev.tx ++ written) × (d.mtu ≡ dev.mtu)
unfolding push_back consume
Uses-Ordered fresh = (append-nil _, sym (append-nil _), refl)
Uses-Ordered {dev} (took {taken} {pushed} {written} {d} {d'} {buf} u e) =
    let (rx, tx, mtu) = Uses-Ordered u in
    let (front, same, mtu') = receive-parts d d' buf e in
    (
      rx ∙ ap (λ l. taken ++ l) front ∙ sym (append_assoc taken (buf ∷ []) d'.rx),
      same ∙ tx,
      mtu' ∙ mtu,
    )
Uses-Ordered {dev} (got {taken} {pushed} {written} {d} pkt u) =
    let (rx, tx, mtu) = Uses-Ordered u in
    (
      sym (append_assoc dev.rx pushed (pkt ∷ []))
          ∙ ap (λ l. l ++ pkt ∷ []) rx
          ∙ append_assoc taken d.rx (pkt ∷ []),
      tx,
      mtu,
    )
Uses-Ordered {dev} (wrote {taken} {pushed} {written} {d} len f u) =
    let (rx, tx, mtu) = Uses-Ordered u in
    let buf = (f (replicate len 0)).1 in
    (rx, ap (λ l. l ++ buf ∷ []) tx ∙ append_assoc dev.tx written (buf ∷ []), mtu)

-- Packets that are no longer than `max_ip_packet` are all taken.
send_all-fit :
    (io : H3Io) (m : ℕ) (packets : List (List ℕ))
    → Fits io.quarter_stream_id
    → io.max_datagram_size ≡ some m
    → varint_len io.quarter_stream_id + 1 ≤ m
    → All (λ p. length p ≤ max_ip_packet io) packets
    → send_all io (λ dg. leb (length dg) m) packets ≡ map (λ p. datagram (send_ip io p)) packets
unfolding send_all
send_all-fit io m [] h e room fit = refl
send_all-fit io m (p ∷ packets) h e room (hp, fit) =
    let takes : leb (length (send_ip io p)) m ≡ true =
      let ok : length (send_ip io p) ≤ m = (length-send_ip_iff io m p (omega arith) e room).1 hp in
      ground arith in
    rw (takes, send_all-fit io m packets h e room fit)

read_packets-packet :
    (fuel : ℕ) (io : H3Io) (events : List Event) (p : List ℕ) (later : List Event)
    → recv_ip io events ≡ packet p later
    → read_packets (suc fuel) io events ≡ some p ∷ read_packets fuel io later
unfolding read_packets
read_packets-packet fuel io events p later e = ground arith

read_packets-sent :
    (io : H3Io) (packets : List (List ℕ))
    → Fits io.quarter_stream_id
    → read_packets (suc (length packets)) io (map (λ p. datagram (send_ip io p)) packets)
      ≡ map some packets
unfolding read_packets
read_packets-sent io [] h = unfold recv_ip in refl
read_packets-sent io (p ∷ packets) h =
    let later = map (λ x. datagram (send_ip io x)) packets in
    let first : recv_ip io (datagram (send_ip io p) ∷ later) ≡ packet p later =
      recv_ip_first io [] p later h tt in
    read_packets-packet (length (p ∷ packets)) io _ p later first
    ∙ ap (λ l. some p ∷ l) (read_packets-sent io packets h)

feed_running :
    (q : Queue) (packets : List (List ℕ))
    → q.running ≡ true
    → feed q (map some packets) ≡ record q { cmds = q.cmds ++ map inbound packets }
unfolding feed send_cmd
feed_running q [] h = ap (λ l. record q { cmds = l }) (sym (append-nil q.cmds))
feed_running q (p ∷ packets) h = rw (
  h,
  feed_running (record { running = true; cmds = q.cmds ++ inbound p ∷ [] }) packets refl,
  append_assoc q.cmds (inbound p ∷ []) (map inbound packets),
)

-- What smoltcp writes into a fresh device, in packets no longer than its MTU, leaves by the egress loop
-- and reaches a netstack that reads the same flow: where HTTP/3 has room for packets of 576 bytes, QUIC
-- takes every datagram up to its limit, the flow's id fits a varint, and the datagrams that were taken
-- all come in order, the loop sends every packet and leaves none, and a feeder whose actor runs queues
-- each of them once, unchanged and in the order of writing.
pub egress_arrives :
    (io : H3Io) (m : ℕ) {taken pushed written : List (List ℕ)} {dev : TunDevice} (q : Queue)
    → Fits io.quarter_stream_id
    → io.max_datagram_size ≡ some m
    → 576 ≤ max_ip_packet io
    → Uses (new_device (mtu_of (max_ip_packet io))) taken pushed written dev
    → All (λ p. length p ≤ dev.mtu) written
    → q.running ≡ true
    → (feed q (read_packets (suc (length written)) io (drain_tx io (λ dg. leb (length dg) m) dev).0)
        ≡ record q { cmds = q.cmds ++ map inbound written })
      × ((drain_tx io (λ dg. leb (length dg) m) dev).1.tx ≡ [])
unfolding drain_tx new_device mtu_of
egress_arrives io m {written = written} {dev = dev} q h e room uses fit running =
    let (_, tx, mtu) = Uses-Ordered uses in
    let small : All (λ p. length p ≤ max_ip_packet io) written =
      All-weaken (λ p. length p ≤ dev.mtu) (λ p. length p ≤ max_ip_packet io) written
        (λ x short. omega arith) fit in
    let whole : send_all io (λ dg. leb (length dg) m) dev.tx
        ≡ map (λ p. datagram (send_ip io p)) written =
      ap (send_all io (λ dg. leb (length dg) m)) tx
      ∙ send_all-fit io m written h e (room_for-varints io m e (omega arith)) small in
    (rw (whole, read_packets-sent io written h) (feed_running q written running), refl)
