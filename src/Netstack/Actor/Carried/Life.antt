-- ===== src/Netstack/Actor/Carried/Life.antt =====
-- A client's connection over the loop: its two streams from end to end.
use warp_proxy.Base.{
  ℕ, ◌≡◌, ◌≢◌, refl, ap, subst, sym, ◌∙◌, List, [], ◌∷◌, ◌++◌, Option, none, some, append_assoc,
  append-nil,
}
use warp_proxy.Base.{false, inl, inr, length, All, ◌≤◌, arith}
use warp_proxy.Base.Table.{lookup, lookup-insert_self}
use warp_proxy.Socks.{IpAddr}
use warp_proxy.Netstack.{Smoltcp}
use warp_proxy.Netstack.Actor.{
  Actor, Conn, Cmd, adjust, fresh_conn, handle_connect, handle_cmd, service_sockets, chan_depth,
}
use warp_proxy.Netstack.Actor.Streams.{Buffered}
use warp_proxy.Netstack.Actor.Lifetime.{
  Handles, Tracked, Tracked-move, handle_cmd-Tracked, adjust-Tracked, handle_connect-Tracked,
}
use warp_proxy.Netstack.Actor.Lifetime.Transfer.{service_sockets-Tracked}
use warp_proxy.Netstack.Actor.Rounds.{handle_cmds, poll_and_service, round}
use warp_proxy.Netstack.Actor.Rounds.Invariant.{service_dns-Tracked}
use warp_proxy.Netstack.Actor.Carried.{Apart, Carries, Carries-move}
use warp_proxy.Netstack.Actor.Carried.Pass.{Goes, service_sockets-Goes, service_dns-Goes}
use warp_proxy.Netstack.Actor.Carried.Commands.{
  sends, sends-nil, sends-cons, Alive, adjust_own, handle_cmd-Alive,
}
use mathlib.Core.List.{flatten}

-- The client takes the chunk at the head of its channel, and gives up its end of it.
pub take_chunk : List (List ℕ) → Conn → Conn
take_chunk later c = record c { from_net = later }

pub hang_up : Conn → Conn
hang_up c = record c { receiver_alive = false }

module _ (S : Smoltcp) (parse_ip : List ℕ → Option IpAddr) where
  -- The life of the connection of `h`, with what its client has sent and what it has taken: the connect
  -- that makes it, commands for any connection, the part of a round that keeps it, and what the client
  -- does at its end of the channel. A start without a connection of that handle is any actor.
  pub data Life (h : ℕ) : List ℕ → List ℕ → Actor S → Actor S → Type 0 where
    opened :
        {a : Actor S} (remote : IpAddr) (port reply : ℕ) {net : S.Net}
        → (S.add a.net).0 ≡ h
        → S.connect (S.add a.net).1 h remote port a.next_port ≡ some net
        → Life h [] [] a (handle_connect S a remote port reply)
    command :
        {out got : List ℕ} {a b : Actor S} (cmd : Cmd)
        → Life h out got a b
        → Life h (out ++ sends h (cmd ∷ [])) got a (handle_cmd S parse_ip b cmd)
    serviced :
        {out got : List ℕ} {a b : Actor S} (handles : List ℕ)
        → lookup h (poll_and_service S parse_ip b handles).0.conns ≢ none
        → Life h out got a b
        → Life h out got a (poll_and_service S parse_ip b handles).0
    took :
        {out got : List ℕ} {a b : Actor S} {c : Conn} (chunk : List ℕ) (later : List (List ℕ))
        → lookup h b.conns ≡ some c
        → c.from_net ≡ chunk ∷ later
        → Life h out got a b
        → Life h out (got ++ chunk) a (adjust S b h (take_chunk later))
    hung_up :
        {out got : List ℕ} {a b : Actor S}
        → Life h out got a b
        → Life h out got a (adjust S b h hang_up)

  -- A round of the loop that keeps the connection is such a part, and the commands behind it.
  handle_cmds-Life :
      (h : ℕ) (cmds : List Cmd) {out got : List ℕ} {a b : Actor S}
      → Life h out got a b
      → Life h (out ++ sends h cmds) got a (handle_cmds S parse_ip b cmds)
  unfolding handle_cmds
  handle_cmds-Life h [] {out} {got} {a} {b} s =
      subst (λ l. Life h l got a b) (sym (ap (λ l. out ++ l) (sends-nil h) ∙ append-nil out)) s
  handle_cmds-Life h (cmd ∷ cmds) {out} {got} {a} {b} s =
      subst (λ l. Life h l got a (handle_cmds S parse_ip (handle_cmd S parse_ip b cmd) cmds))
        (append_assoc out (sends h (cmd ∷ [])) (sends h cmds)
          ∙ ap (λ l. out ++ l) (sym (sends-cons h cmd cmds)))
        (handle_cmds-Life h cmds (command cmd s))

  pub round-Life :
      (h : ℕ) {out got : List ℕ} {a b : Actor S} (handles : List ℕ) (cmds : List Cmd)
      → lookup h (poll_and_service S parse_ip b handles).0.conns ≢ none
      → Life h out got a b
      → Life h (out ++ sends h cmds) got a (round S parse_ip b handles cmds).0
  unfolding round
  round-Life h handles cmds stays s = handle_cmds-Life h cmds (serviced handles stays s)

  module _ (L : Buffered S) (A : Apart S L) (H : Handles S) (h : ℕ) where
    conn_is : (c d : Conn) (o : Option Conn) → o ≡ some c → o ≡ some d → c ≡ d
    conn_is c d o e f = ground (arith, e, f)

    opened-Alive :
        (a : Actor S) (remote : IpAddr) (port reply : ℕ) (net : S.Net)
        → (S.add a.net).0 ≡ h
        → S.connect (S.add a.net).1 h remote port a.next_port ≡ some net
        → Alive S parse_ip L A H h [] [] (handle_connect S a remote port reply)
    unfolding handle_connect flatten
    opened-Alive a remote port reply net is_h started =
        let (k, added) = S.add a.net in
        let started' : S.connect added k remote port a.next_port ≡ some net =
          subst (λ j. S.connect added j remote port a.next_port ≡ some net) (sym is_h) started in
        let (sent_none, taken_none) = A.add-opens a.net in
        let (sent_same, taken_same) =
          A.connect-keeps added net k remote port a.next_port k started' in
        subst
          (λ j.
            Carries S L j [] [] (handle_connect S a remote port reply).net
              (handle_connect S a remote port reply).conns)
          is_h
          (rw (handle_connect, started')
            (record {
              conn = fresh_conn reply;
              found = lookup-insert_self k (fresh_conn reply) a.conns;
              outgoing = append-nil _ ∙ sent_same ∙ sent_none;
              incoming = taken_same ∙ taken_none;
              chunks = tt;
              bounded = omega arith;
            }))

    kept :
        {out got : List ℕ} (b : Actor S)
        → lookup h b.conns ≢ none
        → Goes S L A H h out got b
        → Alive S parse_ip L A H h out got b
    kept b stays (inl i) = i
    kept b stays (inr gone) = absurd (stays gone)

    -- The part of a round before the commands.
    serviced-Alive :
        {out got : List ℕ} (b : Actor S) (handles : List ℕ)
        → Tracked S H b.net b.conns
        → Alive S parse_ip L A H h out got b
        → (Tracked S H
            (poll_and_service S parse_ip b handles).0.net
            (poll_and_service S parse_ip b handles).0.conns)
          × Goes S L A H h out got (poll_and_service S parse_ip b handles).0
    unfolding poll_and_service
    serviced-Alive {out} {got} b handles t i =
        let (net, rx, tx) = S.poll b.net b.rx in
        let polled : Actor S = record b { net = net; rx = rx } in
        let moved = Tracked-move S H b.net net b.conns (H.poll-live b.net b.rx) t in
        let goes =
          Carries-move S L h out got b.net net b.conns b.conns (A.poll-keeps b.net b.rx h) refl i in
        (
          service_dns-Tracked S parse_ip H (service_sockets S polled handles)
              (service_sockets-Tracked S H polled handles moved),
          service_dns-Goes S L A H h out got (service_sockets S polled handles)
              (service_sockets-Goes S L A H h out got polled handles moved (inl goes)),
        )

    -- At every point of a connection's life: what the socket has accepted and what waits for it are together
    -- what the client has sent since the connect, in order, and what the socket has handed out is what the
    -- client has taken and then what waits in its channel, in at most 64 chunks, none of them empty.
    pub Life-Alive :
        {out got : List ℕ} {a b : Actor S}
        → Tracked S H a.net a.conns
        → Life h out got a b
        → Tracked S H b.net b.conns × Alive S parse_ip L A H h out got b
    unfolding take_chunk hang_up flatten
    Life-Alive {a} t (opened remote port reply is_h started) = (
      handle_connect-Tracked S H a remote port reply t,
      opened-Alive a remote port reply _ is_h started,
    )
    Life-Alive t (command {out} {got} {b} cmd s) =
        let (tracked, i) = Life-Alive t s in
        (
          handle_cmd-Tracked S H parse_ip b cmd tracked,
          handle_cmd-Alive S parse_ip L A H h out got b cmd tracked i,
        )
    Life-Alive t (serviced {b} handles stays s) =
        let (tracked, i) = Life-Alive t s in
        let (tracked', goes) = serviced-Alive b handles tracked i in
        (tracked', kept (poll_and_service S parse_ip b handles).0 stays goes)
    Life-Alive t (took {out} {got} {b} {c} chunk later found head s) =
        let (tracked, i) = Life-Alive t s in
        let same : i.conn.from_net ≡ chunk ∷ later =
          ap (λ (d : Conn). d.from_net) (conn_is i.conn c (lookup h b.conns) i.found found)
          ∙ head in
        let full = subst (λ l. All (λ v. 1 ≤ length v) l) same i.chunks in
        let short : length (chunk ∷ later) ≤ chan_depth =
          subst (λ l. length l ≤ chan_depth) same i.bounded in
        (
          adjust-Tracked S H b h (take_chunk later) tracked,
          adjust_own S parse_ip L A H h out got out (got ++ chunk) b (take_chunk later) i i.outgoing
              (i.incoming
                ∙ ap (λ l. got ++ flatten l) same
                ∙ sym (append_assoc got chunk (flatten later)))
              full.1 (omega (arith, short)),
        )
    Life-Alive t (hung_up {out} {got} {b} s) =
        let (tracked, i) = Life-Alive t s in
        (
          adjust-Tracked S H b h hang_up tracked,
          adjust_own S parse_ip L A H h out got out got b hang_up i i.outgoing i.incoming i.chunks
              i.bounded,
        )
