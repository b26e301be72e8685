-- ===== src/Netstack/Device.antt =====
-- The device below the netstack in crates/warp-masque/src/netstack.rs: `TunDevice` with its tokens, the
-- egress loop of `Actor::run`, and what the feeder of `spawn` reads from the tunnel.
--
-- A token borrows the device, so that its use is a step on the device. The tunnel is the HTTP/3 one, and
-- what QUIC takes of `send_datagram` is a test on the datagram.
pub mod Egress
mod Tests
use warp_proxy.Base.{ℕ, zero, suc, Bool, List, [], ◌∷◌, ◌++◌, Option, none, some}
use warp_proxy.Base.{if◌then◌else◌, replicate}
use warp_proxy.Tunnel.{H3Io, send_ip, recv_ip, Event, datagram, packet, failed, pending}

pub record TunDevice : Type 0 where
  pub rx : List (List ℕ)
  pub tx : List (List ℕ)
  pub mtu : ℕ

-- The device that `Actor::new` makes.
unfoldable pub new_device : ℕ → TunDevice
new_device mtu = record { rx = []; tx = []; mtu = mtu }

-- `Device::receive` and `RxTok::consume`: the buffer that the closure is given.
unfoldable pub receive : TunDevice → Option (List ℕ × TunDevice)
receive dev = elim dev.rx [ [] ↦ none | buf ∷ later ↦ some (buf, record dev { rx = later }) ]

-- `Device::transmit` and `TxTok::consume`, with the closure's answer and the buffer that it leaves.
unfoldable pub consume : {R : Type 0} → TunDevice → ℕ → (List ℕ → R × List ℕ) → R × TunDevice
consume dev len f =
    let (r, buf) = f (replicate len 0) in (r, record dev { tx = dev.tx ++ buf ∷ [] })

-- `Cmd::Inbound`
unfoldable pub push_back : TunDevice → List ℕ → TunDevice
push_back dev pkt = record dev { rx = dev.rx ++ pkt ∷ [] }

-- The datagrams that QUIC takes of these packets; the error of a packet is dropped.
unfoldable pub send_all : H3Io → (List ℕ → Bool) → List (List ℕ) → List Event
send_all io accepts [] = []
send_all io accepts (pkt ∷ packets) =
    let rest = send_all io accepts packets in
    if accepts (send_ip io pkt) then datagram (send_ip io pkt) ∷ rest else rest

-- `for pkt in self.device.tx.drain(..)`
unfoldable pub drain_tx : H3Io → (List ℕ → Bool) → TunDevice → List Event × TunDevice
unfolding send_all
drain_tx io accepts dev = (send_all io accepts dev.tx, record dev { tx = [] })

-- What the feeder's calls of `recv_ip` give, one after the other, until one fails or waits.
unfoldable pub read_packets : ℕ → H3Io → List Event → List (Option (List ℕ))
read_packets zero io events = []
read_packets (suc fuel) io events = elim (recv_ip io events) [
  | packet p later ↦ some p ∷ read_packets fuel io later
  | failed later ↦ none ∷ []
  | pending ↦ []
]
