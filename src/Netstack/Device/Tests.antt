-- ===== src/Netstack/Device/Tests.antt =====
-- A device that has taken one packet and has two to send, on a tunnel with the flow 1.
use warp_proxy.Base.{◌≡◌, refl, arith, true, [], ◌∷◌, some, none}
use warp_proxy.Base.{leb, length}
use warp_proxy.Varint.{varint_len}
use warp_proxy.Tunnel.{H3Io, overhead, max_ip_packet}
use warp_proxy.Netstack.Actor.{inbound, mtu_of}
use warp_proxy.Netstack.Client.{Queue, feed}
use warp_proxy.Netstack.Device.{
  TunDevice, new_device, receive, consume, push_back, drain_tx, read_packets,
}
use warp_proxy.Netstack.Device.Egress.{Uses, fresh, took, got, wrote, egress_arrives}

abbrev io : H3Io
io = record { max_datagram_size = some 1202; quarter_stream_id = 1 }

abbrev device : TunDevice
device = record { rx = []; tx = (7 ∷ 8 ∷ []) ∷ (9 ∷ []) ∷ []; mtu = 1200 }

abbrev queue : Queue
queue = record { running = true; cmds = [] }

-- A closure writes into the buffer of zeroes that it is given.
writes :
    consume (new_device 1200) 3 (λ buf. (length buf, 5 ∷ 0 ∷ 0 ∷ []))
    ≡ (3, record { rx = []; tx = (5 ∷ 0 ∷ 0 ∷ []) ∷ []; mtu = 1200 })
unfolding new_device consume
writes = refl

takes_oldest :
    receive (record { rx = (1 ∷ []) ∷ (2 ∷ []) ∷ []; tx = []; mtu = 1200 })
    ≡ some (1 ∷ [], record { rx = (2 ∷ []) ∷ []; tx = []; mtu = 1200 })
unfolding receive
takes_oldest = refl

takes_nothing : receive device ≡ none
unfolding receive
takes_nothing = refl

history :
    Uses
      (new_device (mtu_of (max_ip_packet io)))
      ((4 ∷ []) ∷ [])
      ((4 ∷ []) ∷ [])
      ((7 ∷ 8 ∷ []) ∷ (9 ∷ []) ∷ [])
      device
unfolding new_device push_back receive consume mtu_of max_ip_packet overhead varint_len
history =
    wrote 1 (λ buf. (length buf, 9 ∷ []))
      (wrote 2 (λ buf. (length buf, 7 ∷ 8 ∷ [])) (took {buf = 4 ∷ []} (got (4 ∷ []) fresh) refl))

egress_arrives_example :
    (feed queue (read_packets 3 io (drain_tx io (λ dg. leb (length dg) 1202) device).0)
      ≡ record { running = true; cmds = inbound (7 ∷ 8 ∷ []) ∷ inbound (9 ∷ []) ∷ [] })
    × ((drain_tx io (λ dg. leb (length dg) 1202) device).1.tx ≡ [])
egress_arrives_example =
    egress_arrives io 1202 {written = (7 ∷ 8 ∷ []) ∷ (9 ∷ []) ∷ []} {dev = device} queue
      (omega arith) refl (unfold max_ip_packet overhead varint_len in omega arith) history
      (omega arith, (omega arith, tt)) refl
