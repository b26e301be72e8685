-- ===== src/Socks/Handler/Routing.antt =====
-- Where a connection of the SOCKS5 server goes, and what the client is told.
use warp_proxy.Base.{
  ℕ, ◌≡◌, refl, arith, true, false, ◌||◌, not, List, ◌++◌, none, some, inl, inr, ◌⊎◌,
}
use warp_proxy.Base.{Bool-cases, Option-cases, if◌then◌else◌, In}
use warp_proxy.Pool.{Pool, pick, net_of}
use warp_proxy.Pool.Pick.{pick_sound}
use warp_proxy.Socks.{IpAddr, Texts, Client, Io, done, write_all, reply, is_loopback_host}
use warp_proxy.Socks.Handler.{
  World, Relay, nothing, direct, tunnelled, answer, via_netstack, connect_out, route, pool_after,
}

-- The client after a reply.
abbrev pub told : Client → ℕ → Client
told c status = record c { output = c.output ++ reply status }

answer-told : (status : ℕ) (r : Relay) (c : Client) → answer status r c ≡ done r (told c status)
unfolding answer write_all
answer-told status r c = refl

-- How `via_netstack` ends: the name is not resolved, the connection is refused, or it is relayed.
pub data Via (world : World) (net : ℕ) (host : List ℕ) (port : ℕ) (c : Client) (r : Io Relay)
    : Type 0 where
  unresolved :
      world.resolve net host ≡ none → r ≡ done nothing (told c 0x04) → Via world net host port c r
  refused :
      (ip : IpAddr)
      → world.resolve net host ≡ some ip
      → world.connect net ip port ≡ false
      → r ≡ done nothing (told c 0x05)
      → Via world net host port c r
  relayed :
      (ip : IpAddr)
      → world.resolve net host ≡ some ip
      → world.connect net ip port ≡ true
      → r ≡ done (tunnelled net ip port) (told c 0x00)
      → Via world net host port c r

via_netstack-Via :
    (world : World) (net : ℕ) (host : List ℕ) (port : ℕ) (c : Client)
    → Via world net host port c (via_netstack world net host port c)
unfolding via_netstack
via_netstack-Via world net host port c = elim (Option-cases (world.resolve net host)) [
  | inl missing ↦ unresolved missing (rw (via_netstack, missing) (answer-told 0x04 nothing c))
  | inr (ip, found) ↦ elim (Bool-cases (world.connect net ip port)) [
    | inl up ↦ relayed ip found up (rw (via_netstack, found, up) (answer-told 0x00 _ c))
    | inr down ↦ refused ip found down (rw (via_netstack, found, down) (answer-told 0x05 nothing c))
  ]
]

-- With WARP on and a target that is not loopback, nothing ever goes out directly: the connection is
-- refused with reply 1 where `pick` has no netstack, and otherwise it goes through the netstack of a
-- listed worker that is up, which resolves the name as well; and the client gets one reply, which is
-- 0 exactly if the connection is relayed.
pub route_tunnels :
    (t : Texts) (world : World) (p : Pool) (host : List ℕ) (port : ℕ) (c : Client)
    → p.enabled ≡ true
    → is_loopback_host t host ≡ false
    → (((pick p).0 ≡ none) × (route t world p host port c ≡ done nothing (told c 0x01)))
      ⊎ ((id : ℕ) × (net : ℕ) × In id p.workers
          × (net_of p id ≡ some net)
          × Via world net host port c (route t world p host port c))
unfolding route
route_tunnels t world p host port c on far =
    let within : (not p.enabled || is_loopback_host t host) ≡ false = ground (arith, on, far) in
    elim (Option-cases (pick p).0) [
      | inl missing ↦ inl (missing, rw (within, missing) (answer-told 0x01 nothing c))
      | inr (net, found) ↦
          let (id, member, up) = pick_sound p net found in
          inr (id, net, member, up, rw (within, found) (via_netstack-Via world net host port c))
    ]

connect_out-told :
    (world : World) (host : List ℕ) (port : ℕ) (c : Client)
    → connect_out world host port c ≡ (
        if world.connect_direct host port
        then done (direct host port) (told c 0x00)
        else done nothing (told c 0x05))
unfolding connect_out
connect_out-told world host port c = elim (Bool-cases (world.connect_direct host port)) [
  | inl up ↦ rw (connect_out, up) (answer-told 0x00 (direct host port) c)
  | inr down ↦ rw (connect_out, down) (answer-told 0x05 nothing c)
]

-- With WARP off, or for a loopback target, the connection goes out directly and no worker is asked: the
-- reply is 0 or 5 as the connect ends, and the pool stays as it is.
pub route_direct :
    (t : Texts) (world : World) (p : Pool) (host : List ℕ) (port : ℕ) (c : Client)
    → (p.enabled ≡ false) ⊎ (is_loopback_host t host ≡ true)
    → (route t world p host port c ≡ (
        if world.connect_direct host port
        then done (direct host port) (told c 0x00)
        else done nothing (told c 0x05)))
      × (pool_after t p host ≡ p)
unfolding route pool_after connect_out
route_direct t world p host port c h =
    elim (Bool-cases (not p.enabled || is_loopback_host t host)) [
      | inl out ↦ (rw out (connect_out-told world host port c), rw out refl)
      | inr within ↦ absurd (ground (arith, h))
    ]
