-- ===== src/Netstack/Actor/Rounds/Invariant.antt =====
-- What is true of the actor after any number of rounds.
use warp_proxy.Base.{
  ℕ, ◌+◌, ◌%◌, ◌≡◌, refl, subst, ap, sym, ◌∙◌, arith, false, List, [], ◌∷◌, ◌++◌, Option,
}
use warp_proxy.Base.{append_assoc, append-nil, Option-cases, inl, inr}
use warp_proxy.Socks.{IpAddr}
use warp_proxy.Netstack.{Smoltcp}
use warp_proxy.Netstack.Actor.{Actor, Cmd, start, handle_cmd, service_sockets}
use warp_proxy.Netstack.Actor.Answers.{
  balance, handle_cmd-balance, service_dns-balance, move-balance, start-balance,
}
use warp_proxy.Netstack.Actor.Answers.Service.{service_sockets-balance}
use warp_proxy.Netstack.Actor.Dns.{
  service_dns, service_dns-sweep, sweep, dns_answer, sweep-pending, sweep-answered,
}
use warp_proxy.Netstack.Actor.Lifetime.{
  Handles, Tracked, SameSockets, Tracked-move, start-Tracked, add-new, handle_cmd-Tracked,
}
use warp_proxy.Netstack.Actor.Lifetime.Transfer.{service_sockets-Tracked}
use warp_proxy.Netstack.Actor.Ports.{
  connects, port_after, port_after-snoc, port_after-none, port_after-wraps, handle_cmd-port,
  service_sockets-port, service_dns-port,
}
use warp_proxy.Netstack.Actor.Rounds.{
  handle_cmds, poll_and_service, round, Run, idle, next, requests, requests-append,
}

module _ (S : Smoltcp) (parse_ip : List ℕ → Option IpAddr) (L : Handles S) where
  -- The invariant of the loop, after the commands `cmds`.
  pub record Invariant (cmds : List Cmd) (a : Actor S) : Type 0 where
    pub tracked : Tracked S L a.net a.conns
    pub balanced : (r : ℕ) → balance S r a ≡ requests S parse_ip r cmds
    pub port : a.next_port ≡ port_after (connects cmds) 49152

  sweep-same : (net : S.Net) (queries : List (ℕ × ℕ)) → SameSockets S L net (sweep S net queries).0
  unfolding sweep
  sweep-same net [] j = refl
  sweep-same net ((q, r) ∷ queries) j =
      elim (Option-cases (dns_answer (S.get_query_result net q).0)) [
        | inl wait ↦
            rw (sweep-pending S net q r queries wait)
              (sweep-same (S.get_query_result net q).1 queries j ∙ L.get_query_result-live net q j)
        | inr (what, got) ↦
            rw (sweep-answered S net q r queries what got)
              (sweep-same (S.get_query_result net q).1 queries j ∙ L.get_query_result-live net q j)
      ]

  pub service_dns-Tracked :
      (a : Actor S)
      → Tracked S L a.net a.conns
      → Tracked S L (service_dns S a).net (service_dns S a).conns
  service_dns-Tracked a t =
      rw (service_dns-sweep S a)
        (Tracked-move S L a.net _ a.conns (sweep-same a.net a.dns_pending) t)

  poll_and_service-Invariant :
      (cmds : List Cmd) (a : Actor S) (handles : List ℕ)
      → Invariant cmds a
      → Invariant cmds (poll_and_service S parse_ip a handles).0
  unfolding poll_and_service
  poll_and_service-Invariant cmds a handles i =
      let (net, rx, tx) = S.poll a.net a.rx in
      let polled : Actor S = record a { net = net; rx = rx } in
      let serviced = service_sockets S polled handles in
      record {
        tracked = service_dns-Tracked serviced (
            service_sockets-Tracked S L polled handles
              (Tracked-move S L a.net net a.conns (L.poll-live a.net a.rx) i.tracked));
        balanced = λ r.
            service_dns-balance S r serviced
            ∙ service_sockets-balance S r polled handles
            ∙ move-balance S r a net rx
            ∙ i.balanced r;
        port = service_dns-port S serviced ∙ service_sockets-port S polled handles ∙ i.port;
      }

  handle_cmd-Invariant :
      (cmds : List Cmd) (a : Actor S) (cmd : Cmd)
      → Invariant cmds a
      → Invariant (cmds ++ cmd ∷ []) (handle_cmd S parse_ip a cmd)
  unfolding requests
  handle_cmd-Invariant cmds a cmd i = record {
    tracked = handle_cmd-Tracked S L parse_ip a cmd i.tracked;
    balanced = λ r. omega (
      arith,
      handle_cmd-balance S r parse_ip a cmd (add-new S L a.net a.conns i.tracked),
      i.balanced r,
      requests-append S parse_ip r cmds (cmd ∷ []),
    );
    port =
        handle_cmd-port S parse_ip a cmd
        ∙ ap (port_after (connects (cmd ∷ []))) i.port
        ∙ sym (port_after-snoc cmds cmd 49152);
  }

  handle_cmds-Invariant :
      (cmds : List Cmd) (a : Actor S) (new : List Cmd)
      → Invariant cmds a
      → Invariant (cmds ++ new) (handle_cmds S parse_ip a new)
  unfolding handle_cmds
  handle_cmds-Invariant cmds a [] i = subst (λ l. Invariant l a) (sym (append-nil cmds)) i
  handle_cmds-Invariant cmds a (cmd ∷ new) i =
      subst (λ l. Invariant l (handle_cmds S parse_ip (handle_cmd S parse_ip a cmd) new))
        (append_assoc cmds (cmd ∷ []) new)
        (handle_cmds-Invariant (cmds ++ cmd ∷ []) (handle_cmd S parse_ip a cmd) new
          (handle_cmd-Invariant cmds a cmd i))

  round-Invariant :
      (cmds : List Cmd) (a : Actor S) (handles : List ℕ) (new : List Cmd)
      → Invariant cmds a
      → Invariant (cmds ++ new) (round S parse_ip a handles new).0
  unfolding round
  round-Invariant cmds a handles new i =
      handle_cmds-Invariant cmds (poll_and_service S parse_ip a handles).0 new
        (poll_and_service-Invariant cmds a handles i)

  -- From a start without sockets, whatever the rounds are.
  pub Run-Invariant :
      (net : S.Net)
      → ((j : ℕ) → L.live net j ≡ false)
      → {cmds : List Cmd} {a : Actor S} → Run S parse_ip (start S net) cmds a
      → Invariant cmds a
  unfolding start requests
  Run-Invariant net fresh idle = record {
    tracked = start-Tracked S L net fresh;
    balanced = λ r. start-balance S r net;
    port = sym (port_after-none 49152);
  }
  Run-Invariant net fresh (next handles new run) =
      round-Invariant _ _ handles new (Run-Invariant net fresh run)

  -- After any rounds that start without sockets: a handle stands in the map of connections when it has a
  -- TCP socket, and only then, and it stands there once: the actor forgets no socket.
  pub Run-Tracked :
      (net : S.Net)
      → ((j : ℕ) → L.live net j ≡ false)
      → {cmds : List Cmd} {a : Actor S} → Run S parse_ip (start S net) cmds a
      → Tracked S L a.net a.conns
  Run-Tracked net fresh run = (Run-Invariant net fresh run).tracked

  -- After any rounds that start without sockets, each connect and each resolve has been answered once or
  -- is still owed once: what a sender holds in the map, in the list of queries and among the answers adds
  -- up to what was asked with it.
  pub Run-balance :
      (net : S.Net)
      → ((j : ℕ) → L.live net j ≡ false)
      → {cmds : List Cmd} {a : Actor S} → Run S parse_ip (start S net) cmds a
      → (r : ℕ) → balance S r a ≡ requests S parse_ip r cmds
  Run-balance net fresh run = (Run-Invariant net fresh run).balanced

  -- After any rounds, the port of the next connect is 49152 plus the number of connects so far modulo
  -- 16384: the ports run through the ephemeral range and repeat after 16384 connects, in use or not.
  pub Run-port :
      (net : S.Net)
      → ((j : ℕ) → L.live net j ≡ false)
      → {cmds : List Cmd} {a : Actor S} → Run S parse_ip (start S net) cmds a
      → a.next_port ≡ 49152 + connects cmds % 16384
  Run-port net fresh {cmds} run =
      (Run-Invariant net fresh run).port ∙ port_after-wraps (connects cmds)
