-- ===== src/Socks/Handler.antt =====
-- The handlers of crates/warp-masque/src/socks.rs: `handle_single`, `handle_pool`, `via_netstack`.
pub mod Routing
use warp_proxy.Base.{ℕ, Bool, ◌||◌, not, List, Option, none, some, if◌then◌else◌}
use warp_proxy.Pool.{Pool, pick}
use warp_proxy.Socks.{
  IpAddr, Texts, Client, Io, ◌>>=◌, return, write_all, reply, read_request, is_loopback_host,
}

-- What the world answers to a connection: a direct connect, and a netstack's `resolve` and `connect`.
pub record World : Type 0 where
  pub connect_direct : List ℕ → ℕ → Bool
  pub resolve : ℕ → List ℕ → Option IpAddr
  pub connect : ℕ → IpAddr → ℕ → Bool

-- What the handler goes on to relay.
pub data Relay : Type 0 where
  nothing : Relay
  direct : List ℕ → ℕ → Relay
  tunnelled : ℕ → IpAddr → ℕ → Relay

-- A reply, and what follows it.
answer : ℕ → Relay → Client → Io Relay
unfolding write_all reply
answer status relay = do _ ← write_all (reply status); return relay

pub via_netstack : World → ℕ → List ℕ → ℕ → Client → Io Relay
unfolding answer
via_netstack world net host port = elim (world.resolve net host) [
  | none ↦ answer 0x04 nothing
  | some ip ↦
      if world.connect net ip port then answer 0x00 (tunnelled net ip port) else answer 0x05 nothing
]

pub handle_single : Texts → World → ℕ → Client → Io Relay
unfolding read_request via_netstack
handle_single t world net = do
  request ← read_request t
  elim request [ none ↦ return nothing | some (host, port) ↦ via_netstack world net host port ]

connect_out : World → List ℕ → ℕ → Client → Io Relay
unfolding answer
connect_out world host port =
    if world.connect_direct host port then answer 0x00 (direct host port) else answer 0x05 nothing

-- `handle_pool` behind the request.
pub route : Texts → World → Pool → List ℕ → ℕ → Client → Io Relay
unfolding connect_out answer via_netstack is_loopback_host
route t world p host port =
    if not p.enabled || is_loopback_host t host
    then connect_out world host port
    else (elim (pick p).0 [
      | none ↦ answer 0x01 nothing
      | some net ↦ via_netstack world net host port
    ])

-- The pool that a routed connection leaves: `pick` advances its counter.
pub pool_after : Texts → Pool → List ℕ → Pool
unfolding is_loopback_host
pool_after t p host = if not p.enabled || is_loopback_host t host then p else (pick p).1

pub handle_pool : Texts → World → Pool → Client → Io (Relay × Pool)
unfolding read_request route pool_after
handle_pool t world p = do
  request ← read_request t
  elim request [
    | none ↦ return (nothing, p)
    | some (host, port) ↦ (do
      relay ← route t world p host port
      return (relay, pool_after t p host))
  ]
