-- ===== src/Netstack/Actor/Carried/Commands.antt =====
-- The commands, seen from one connection.
use warp_proxy.Base.{
  ℕ, ◌≡◌, ◌≢◌, refl, ap, subst, sym, ◌∙◌, arith, true, List, [], ◌∷◌, ◌++◌, Option, append_assoc,
  append-nil,
}
use warp_proxy.Base.{
  ◌==◌, ==_iff, Bool-cases, Option-cases, inl, inr, if◌then◌else◌, length, All, ◌≤◌,
}
use warp_proxy.Base.Table.{lookup, lookup-insert_self, lookup-insert_ne}
use warp_proxy.Socks.{IpAddr}
use warp_proxy.Netstack.{Smoltcp}
use warp_proxy.Netstack.Actor.{
  Actor, Conn, Cmd, inbound, connect, send, close, resolve, answer, adjust, fresh_conn,
  handle_connect, handle_resolve, handle_cmd, chan_depth,
}
use warp_proxy.Netstack.Actor.Streams.{Buffered}
use warp_proxy.Netstack.Actor.Lifetime.{Handles, Tracked, add-new}
use warp_proxy.Netstack.Actor.Carried.{Apart, Untouched-then, Carries, Carries-move}
use mathlib.Core.List.{flatten}

-- What the commands hand over for the connection of `h`.
unfoldable pub sends : ℕ → List Cmd → List ℕ
sends h [] = []
sends h (send k bytes ∷ cmds) = let rest = sends h cmds in if h == k then bytes ++ rest else rest
sends h (_ ∷ cmds) = sends h cmds

pub sends-nil : (h : ℕ) → sends h [] ≡ []
unfolding sends
sends-nil h = refl

pub sends-cons :
    (h : ℕ) (cmd : Cmd) (cmds : List Cmd)
    → sends h (cmd ∷ cmds) ≡ sends h (cmd ∷ []) ++ sends h cmds
unfolding sends
sends-cons h (inbound pkt) cmds = refl
sends-cons h (connect remote port reply) cmds = refl
sends-cons h (close k) cmds = refl
sends-cons h (resolve name reply) cmds = refl
sends-cons h (send k bytes) cmds = elim (Bool-cases (h == k)) [
  | inl own ↦ rw (own, append-nil bytes) refl
  | inr other ↦ rw other refl
]

module _ (S : Smoltcp) (parse_ip : List ℕ → Option IpAddr) (L : Buffered S) (A : Apart S L)
    (H : Handles S) (h : ℕ) where
  abbrev pub Alive : List ℕ → List ℕ → Actor S → Type 0
  Alive out got a = Carries S L h out got a.net a.conns

  connect_other :
      (out got : List ℕ) (a : Actor S) (remote : IpAddr) (port reply : ℕ)
      → Tracked S H a.net a.conns
      → Alive out got a
      → Alive out got (handle_connect S a remote port reply)
  unfolding handle_connect answer
  connect_other out got a remote port reply t i =
      let (k, added) = S.add a.net in
      let apart : h ≢ k =
        λ same. absurd (ground (arith, i.found, add-new S H a.net a.conns t, same)) in
      let grown = A.add-keeps a.net h apart in
      elim (Option-cases (S.connect added k remote port a.next_port)) [
        | inl refused ↦
            rw (handle_connect, refused)
              (Carries-move S L h out got a.net _ a.conns a.conns
                (Untouched-then S L h a.net added _ grown (A.remove-keeps added k h apart)) refl i)
        | inr (net, started) ↦
            rw (handle_connect, started)
              (Carries-move S L h out got a.net net a.conns _
                (Untouched-then S L h a.net added net grown
                  (A.connect-keeps added net k remote port a.next_port h started))
                (lookup-insert_ne h k (fresh_conn reply) a.conns apart) i)
      ]

  resolve_other :
      (out got : List ℕ) (a : Actor S) (name : List ℕ) (reply : ℕ)
      → Alive out got a
      → Alive out got (handle_resolve S parse_ip a name reply)
  unfolding handle_resolve answer
  resolve_other out got a name reply i = elim (Option-cases (parse_ip name)) [
    | inr (ip, literal) ↦
        rw (handle_resolve, literal)
          (Carries-move S L h out got a.net a.net a.conns a.conns (refl, refl) refl i)
    | inl other ↦ elim (Option-cases (S.start_query a.net name)) [
      | inl refused ↦
          rw (handle_resolve, other, refused)
            (Carries-move S L h out got a.net a.net a.conns a.conns (refl, refl) refl i)
      | inr ((q, net), started) ↦
          rw (handle_resolve, other, started)
            (Carries-move S L h out got a.net net a.conns a.conns
              (A.start_query-keeps a.net net name q h started) refl i)
    ]
  ]

  adjust_other :
      (out got : List ℕ) (a : Actor S) (k : ℕ) (f : Conn → Conn)
      → h ≢ k
      → Alive out got a
      → Alive out got (adjust S a k f)
  unfolding adjust
  adjust_other out got a k f apart i = elim (Option-cases (lookup k a.conns)) [
    | inl missing ↦ rw (adjust, missing) i
    | inr (c, found) ↦
        rw (adjust, found)
          (Carries-move S L h out got a.net a.net a.conns _ (refl, refl)
            (lookup-insert_ne h k (f c) a.conns apart) i)
  ]

  -- A write to the connection itself.
  pub adjust_own :
      (out got out' got' : List ℕ) (a : Actor S) (f : Conn → Conn)
      → (i : Alive out got a) → (L.sent a.net h ++ (f i.conn).out_buf ≡ out')
      → (L.taken a.net h ≡ got' ++ flatten (f i.conn).from_net)
      → All (λ v. 1 ≤ length v) (f i.conn).from_net
      → length (f i.conn).from_net ≤ chan_depth
      → Alive out' got' (adjust S a h f)
  unfolding adjust
  adjust_own out got out' got' a f i outgoing incoming chunks bounded =
      rw (adjust, i.found)
        (record {
          conn = f i.conn;
          found = lookup-insert_self h (f i.conn) a.conns;
          outgoing = outgoing;
          incoming = incoming;
          chunks = chunks;
          bounded = bounded;
        })

  handle_send :
      (out got : List ℕ) (a : Actor S) (k : ℕ) (bytes : List ℕ)
      → Alive out got a
      → Alive
          (out ++ sends h (send k bytes ∷ []))
          got
          (adjust S a k (λ c. record c { out_buf = c.out_buf ++ bytes }))
  unfolding sends
  handle_send out got a k bytes i =
      let f : Conn → Conn = λ c. record c { out_buf = c.out_buf ++ bytes } in
      elim (Bool-cases (h == k)) [
        | inr other ↦
            rw (other, append-nil out) (adjust_other out got a k f (ground (arith, other)) i)
        | inl own ↦
            let k_is = (==_iff h k).0 own in
            let written : Alive (out ++ bytes) got (adjust S a h f) =
              adjust_own out got (out ++ bytes) got a f i
                (sym (append_assoc (L.sent a.net h) i.conn.out_buf bytes)
                  ∙ ap (λ l. l ++ bytes) i.outgoing)
                i.incoming i.chunks i.bounded in
            rw (own, append-nil bytes)
              (subst (λ j. Alive (out ++ bytes) got (adjust S a j f)) k_is written)
      ]

  handle_close :
      (out got : List ℕ) (a : Actor S) (k : ℕ)
      → Alive out got a
      → Alive out got (adjust S a k (λ c. record c { closing = true }))
  handle_close out got a k i =
      let f : Conn → Conn = λ c. record c { closing = true } in
      elim (Bool-cases (h == k)) [
        | inr other ↦ adjust_other out got a k f (ground (arith, other)) i
        | inl own ↦
            subst (λ j. Alive out got (adjust S a j f)) ((==_iff h k).0 own)
              (adjust_own out got out got a f i i.outgoing i.incoming i.chunks i.bounded)
      ]

  pub handle_cmd-Alive :
      (out got : List ℕ) (a : Actor S) (cmd : Cmd)
      → Tracked S H a.net a.conns
      → Alive out got a
      → Alive (out ++ sends h (cmd ∷ [])) got (handle_cmd S parse_ip a cmd)
  unfolding handle_cmd sends
  handle_cmd-Alive out got a (inbound pkt) t i =
      rw (append-nil out)
        (Carries-move S L h out got a.net a.net a.conns a.conns (refl, refl) refl i)
  handle_cmd-Alive out got a (connect remote port reply) t i =
      rw (append-nil out) (connect_other out got a remote port reply t i)
  handle_cmd-Alive out got a (send k bytes) t i = handle_send out got a k bytes i
  handle_cmd-Alive out got a (close k) t i = rw (append-nil out) (handle_close out got a k i)
  handle_cmd-Alive out got a (resolve name reply) t i =
      rw (append-nil out) (resolve_other out got a name reply i)
