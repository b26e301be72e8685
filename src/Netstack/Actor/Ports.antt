-- ===== src/Netstack/Actor/Ports.antt =====
-- The local ports that the actor gives to its connections.
use warp_proxy.Base.{ℕ, zero, suc, ◌+◌, ◌%◌, ◌≡◌, refl, ap, ◌∙◌, arith, List, [], ◌∷◌, ◌++◌, Option}
use warp_proxy.Base.{Option-cases, inl, inr, Bool, Bool-cases, ◌||◌}
use warp_proxy.Base.Table.{lookup}
use warp_proxy.Socks.{IpAddr}
use warp_proxy.Netstack.{Smoltcp, is_closed}
use warp_proxy.Netstack.Actor.{
  Actor, Conn, Cmd, inbound, connect, send, close, resolve, next_port_after, handle_cmd,
  handle_connect, handle_resolve, adjust, answer, settle, verdict, pump, finish, discard,
  service_conn, service_handle, service_sockets,
}
use warp_proxy.Netstack.Actor.Dns.{service_dns, service_dns-sweep}

-- The port after `k` connects.
pub port_after : ℕ → ℕ → ℕ
port_after zero port = port
port_after (suc k) port = next_port_after (port_after k port)

-- How many of the commands are connects.
pub connects : List Cmd → ℕ
connects [] = 0
connects (connect remote port reply ∷ cmds) = suc (connects cmds)
connects (_ ∷ cmds) = connects cmds

next_port-wraps : (k : ℕ) → next_port_after (49152 + k % 16384) ≡ 49152 + suc k % 16384
unfolding next_port_after
next_port-wraps k = ground arith

-- The ports run through 49152..65535 and start again there.
pub port_after-wraps : (k : ℕ) → port_after k 49152 ≡ 49152 + k % 16384
unfolding port_after
port_after-wraps zero = refl
port_after-wraps (suc k) = ap next_port_after (port_after-wraps k) ∙ next_port-wraps k

connects-snoc :
    (cmds : List Cmd) (cmd : Cmd)
    → connects (cmds ++ cmd ∷ []) ≡ connects cmds + connects (cmd ∷ [])
unfolding connects
connects-snoc [] cmd = omega arith
connects-snoc (inbound pkt ∷ cmds) cmd = connects-snoc cmds cmd
connects-snoc (connect remote port reply ∷ cmds) cmd = omega (arith, connects-snoc cmds cmd)
connects-snoc (send h bytes ∷ cmds) cmd = connects-snoc cmds cmd
connects-snoc (close h ∷ cmds) cmd = connects-snoc cmds cmd
connects-snoc (resolve name reply ∷ cmds) cmd = connects-snoc cmds cmd

pub port_after-none : (port : ℕ) → port_after (connects []) port ≡ port
unfolding port_after connects
port_after-none port = refl

-- One more command.
pub port_after-snoc :
    (cmds : List Cmd) (cmd : Cmd) (port : ℕ)
    → port_after (connects (cmds ++ cmd ∷ [])) port
      ≡ port_after (connects (cmd ∷ [])) (port_after (connects cmds) port)
unfolding connects port_after
port_after-snoc cmds cmd port = ap (λ k. port_after k port) (connects-snoc cmds cmd) ∙ last cmd
  where
    last :
        (cmd : Cmd)
        → port_after (connects cmds + connects (cmd ∷ [])) port
          ≡ port_after (connects (cmd ∷ [])) (port_after (connects cmds) port)
    last (inbound pkt) = ap (λ k. port_after k port) (omega arith)
    last (connect remote local reply) =
        ap (λ k. port_after k port) {y = suc (connects cmds)} (omega arith)
    last (send h bytes) = ap (λ k. port_after k port) (omega arith)
    last (close h) = ap (λ k. port_after k port) (omega arith)
    last (resolve name reply) = ap (λ k. port_after k port) (omega arith)

module _ (S : Smoltcp) where
  adjust-port : (h : ℕ) (f : Conn → Conn) (a : Actor S) → (adjust S a h f).next_port ≡ a.next_port
  unfolding adjust
  adjust-port h f a = ground arith

  handle_resolve-port :
      (parse_ip : List ℕ → Option IpAddr) (a : Actor S) (name : List ℕ) (s : ℕ)
      → (handle_resolve S parse_ip a name s).next_port ≡ a.next_port
  unfolding handle_resolve answer
  handle_resolve-port parse_ip a name s = ground arith

  handle_connect-port :
      (a : Actor S) (remote : IpAddr) (port s : ℕ)
      → (handle_connect S a remote port s).next_port ≡ next_port_after a.next_port
  unfolding handle_connect answer
  handle_connect-port a remote port s = ground arith

  -- The port counter after a command.
  abbrev pub port_after_cmd : Cmd → ℕ → ℕ
  port_after_cmd cmd port = port_after (connects (cmd ∷ [])) port

  pub handle_cmd-port :
      (parse_ip : List ℕ → Option IpAddr) (a : Actor S) (cmd : Cmd)
      → (handle_cmd S parse_ip a cmd).next_port ≡ port_after_cmd cmd a.next_port
  unfolding handle_cmd connects port_after
  handle_cmd-port parse_ip a (inbound pkt) = refl
  handle_cmd-port parse_ip a (connect remote port s) = handle_connect-port a remote port s
  handle_cmd-port parse_ip a (send h bytes) = adjust-port h _ a
  handle_cmd-port parse_ip a (close h) = adjust-port h _ a
  handle_cmd-port parse_ip a (resolve name s) = handle_resolve-port parse_ip a name s

  settle-port : (a : Actor S) (h : ℕ) (c : Conn) → (settle S a h c).0.next_port ≡ a.next_port
  unfolding settle answer
  settle-port a h c = elim (Option-cases (verdict S a.net h c)) [
    | inl waits ↦ rw (settle, waits) refl
    | inr ((q, what), done) ↦ rw (settle, done) refl
  ]

  discard-port : (a : Actor S) (h : ℕ) (c : Conn) → (discard S a h c).next_port ≡ a.next_port
  unfolding discard answer
  discard-port a h c = elim (Option-cases c.connect_reply) [
    | inl idle ↦ rw (discard, idle) refl
    | inr (q, waiting) ↦ rw (discard, waiting) refl
  ]

  finish-port :
      (a : Actor S) (h : ℕ) (c : Conn) (remove : Bool)
      → (finish S a h c remove).next_port ≡ a.next_port
  unfolding finish
  finish-port a h c remove =
      elim (Bool-cases (remove || is_closed (S.state (pump S a.net h c).0 h))) [
        | inl gone ↦
            rw (finish, gone)
              (discard-port (record a { net = (pump S a.net h c).0 }) h (pump S a.net h c).1)
        | inr stays ↦ rw (finish, stays) refl
      ]

  service_handle-port : (a : Actor S) (h : ℕ) → (service_handle S a h).next_port ≡ a.next_port
  unfolding service_handle service_conn
  service_handle-port a h = elim (Option-cases (lookup h a.conns)) [
    | inl missing ↦ rw (service_handle, missing) refl
    | inr (c, found) ↦
        rw (service_handle, found)
          (finish-port (settle S a h c).0 h (settle S a h c).1 (settle S a h c).2
            ∙ settle-port a h c)
  ]

  pub service_sockets-port :
      (a : Actor S) (handles : List ℕ) → (service_sockets S a handles).next_port ≡ a.next_port
  unfolding service_sockets
  service_sockets-port a [] = refl
  service_sockets-port a (h ∷ handles) =
      service_sockets-port (service_handle S a h) handles ∙ service_handle-port a h

  pub service_dns-port : (a : Actor S) → (service_dns S a).next_port ≡ a.next_port
  service_dns-port a = rw (service_dns-sweep S a) refl
