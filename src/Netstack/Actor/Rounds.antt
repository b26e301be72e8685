-- ===== src/Netstack/Actor/Rounds.antt =====
-- The loop of the actor: rounds, and what is true after any number of them.
pub mod Invariant
use warp_proxy.Base.{
  ℕ, zero, suc, ◌+◌, ◌≡◌, refl, ap, sym, ◌∙◌, arith, Bool, true, false, List, [], ◌∷◌, ◌++◌, Option,
  none, some,
}
use warp_proxy.Base.{append_assoc, append-nil, Option-cases, inl, inr}
use warp_proxy.Base.Table.{Table, lookup}
use warp_proxy.Socks.{IpAddr}
use warp_proxy.Netstack.{Smoltcp}
use warp_proxy.Netstack.Actor.{Actor, Cmd, start, handle_cmd, service_sockets}
use warp_proxy.Netstack.Actor.Answers.{asks}
use warp_proxy.Netstack.Actor.Dns.{service_dns}

module _ (S : Smoltcp) (parse_ip : List ℕ → Option IpAddr) where
  -- The commands that a round takes from the queue: none when it is empty for the whole delay.
  unfoldable pub handle_cmds : Actor S → List Cmd → Actor S
  handle_cmds a [] = a
  handle_cmds a (cmd ∷ cmds) = handle_cmds (handle_cmd S parse_ip a cmd) cmds

  -- The part of a round before the queue is read, and the packets that it sends through the tunnel.
  unfoldable pub poll_and_service : Actor S → List ℕ → Actor S × List (List ℕ)
  poll_and_service a handles =
      let (net, rx, tx) = S.poll a.net a.rx in
      (service_dns S (service_sockets S (record a { net = net; rx = rx }) handles), tx)

  -- A round of `loop`. `handles` is the order in which the map yields its keys.
  unfoldable pub round : Actor S → List ℕ → List Cmd → Actor S × List (List ℕ)
  unfolding poll_and_service handle_cmds
  round a handles cmds =
      let (driven, tx) = poll_and_service a handles in (handle_cmds driven cmds, tx)

  -- What the loop reaches from `a`, and the commands that it has taken by then.
  pub data Run (a : Actor S) : List Cmd → Actor S → Type 0 where
    idle : Run a [] a
    next :
        {cmds : List Cmd} {b : Actor S} (handles : List ℕ) (new : List Cmd)
        → Run a cmds b
        → Run a (cmds ++ new) (round b handles new).0

  -- How many of the commands ask something of the sender `r`.
  pub requests : ℕ → List Cmd → ℕ
  requests r [] = 0
  requests r (cmd ∷ cmds) = asks S r cmd + requests r cmds

  pub requests-append : (r : ℕ) (l m : List Cmd) → requests r (l ++ m) ≡ requests r l + requests r m
  unfolding requests
  requests-append r [] m = omega arith
  requests-append r (cmd ∷ l) m = omega (arith, requests-append r l m)
