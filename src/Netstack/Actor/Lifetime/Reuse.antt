-- ===== src/Netstack/Actor/Lifetime/Reuse.antt =====
-- Which connection a command on a handle reaches when the handle is given again.
use warp_proxy.Base.{
  ℕ, ◌≡◌, refl, ap, ◌∙◌, Bool, true, false, ◌||◌, not, List, [], ◌∷◌, Option, some,
}
use warp_proxy.Base.Table.{lookup, insert, Unique, lookup-insert_self}
use warp_proxy.Socks.{IpAddr}
use warp_proxy.Netstack.{Smoltcp, is_closed}
use warp_proxy.Netstack.Actor.{
  Actor, Conn, connect, adjust, fresh_conn, handle_connect, handle_cmd, pump, service_handle,
}
use warp_proxy.Netstack.Actor.Lifetime.{has}
use warp_proxy.Netstack.Actor.Rounds.{handle_cmds}
use warp_proxy.Netstack.Client.{Queue, drop_writer, conn_close, send_cmd}
use warp_proxy.Netstack.Actor.Lifetime.Ends.{is_refused, Serviced, service_handle_lem}

module _ (S : Smoltcp) where
  gone_or : (b : Bool) → not (b || true) ≡ false
  gone_or true = refl
  gone_or false = refl

  -- Where the map has each handle once, a connection's socket is Closed behind a transfer, and
  -- smoltcp gives its handle to the connect that comes next: the pass takes the old connection out
  -- of the map, and when the old writer is dropped then, the Close that this queues behind the
  -- connect closes the new connection.
  pub close-reused :
      (parse_ip : List ℕ → Option IpAddr) (a : Actor S) (c : Conn) (net : S.Net) (remote : IpAddr)
      (port reply h : ℕ)
      → lookup h a.conns ≡ some c
      → Unique a.conns
      → is_closed (S.state (pump S a.net h c).0 h) ≡ true
      → (S.add (service_handle S a h).net).0 ≡ h
      → S.connect
          (S.add (service_handle S a h).net).1
          (S.add (service_handle S a h).net).0
          remote
          port
          (service_handle S a h).next_port
        ≡ some net
      → (let queue : Queue = record { running = true; cmds = connect remote port reply ∷ [] } in
          (has h (service_handle S a h).conns ≡ false)
          × (lookup h
                (handle_cmds S parse_ip (service_handle S a h) (drop_writer queue h).cmds).conns
              ≡ some (record (fresh_conn reply) { closing = true })))
  unfolding handle_cmds handle_cmd handle_connect adjust drop_writer conn_close send_cmd Serviced
  close-reused parse_ip a c net remote port reply h found unique closed again started =
      let ended = service_handle S a h in
      let opened : lookup h (handle_connect S ended remote port reply).conns
          ≡ some (fresh_conn reply) =
        rw (handle_connect, started)
          (ap (λ k. lookup h (insert k (fresh_conn reply) ended.conns)) again
            ∙ lookup-insert_self h (fresh_conn reply) ended.conns) in
      (
        (service_handle_lem S a h c found unique).0 ∙ rw closed (gone_or (is_refused S a.net h c)),
        rw (adjust, opened) (lookup-insert_self h _ _),
      )
