-- ===== src/Netstack/Actor/Lifetime/Ends.antt =====
-- When a connection ends, and what the sender of its connect is told.
use warp_proxy.Base.{
  ℕ, ◌≡◌, refl, sym, ap, ◌∙◌, Bool, true, false, ◌||◌, ◌&&◌, not, List, [], ◌∷◌, ◌++◌, append-nil,
  none, some, if◌then◌else◌,
}
use warp_proxy.Base.{Bool-cases, Option-cases, inl, inr}
use warp_proxy.Base.Table.{lookup, erase, Unique, lookup-insert_self, lookup-erase_self}
use warp_proxy.Netstack.{Smoltcp, is_closed, is_established}
use warp_proxy.Netstack.Actor.{
  Actor, Conn, answer, Reply, connected, connection_refused, dropped, is_refusal, verdict, settle,
  pump, discard, finish, service_conn, service_handle,
}
use warp_proxy.Netstack.Actor.Lifetime.{has, is_present}

module _ (S : Smoltcp) where
  discard-conns : (a : Actor S) (h : ℕ) (c : Conn) → (discard S a h c).conns ≡ erase h a.conns
  unfolding discard answer
  discard-conns a h c = elim (Option-cases c.connect_reply) [
    | inl idle ↦ rw (discard, idle) refl
    | inr (q, waiting) ↦ rw (discard, waiting) refl
  ]

  finish-has :
      (a : Actor S) (h : ℕ) (c : Conn) (remove : Bool)
      → Unique a.conns
      → has h (finish S a h c remove).conns
        ≡ not (remove || is_closed (S.state (pump S a.net h c).0 h))
  unfolding finish has is_present
  finish-has a h c remove unique =
      let (net, c') = pump S a.net h c in
      elim (Bool-cases (remove || is_closed (S.state net h))) [
        | inl gone ↦
            rw (finish, gone)
              (ap (has h) (discard-conns (record a { net = net }) h c')
                ∙ ap is_present (lookup-erase_self h a.conns unique))
        | inr stays ↦ rw (finish, stays) (ap is_present (lookup-insert_self h c' a.conns))
      ]

  -- What the sender of a pending connect gets when the connection leaves the map.
  unfoldable drop_of : Conn → List (ℕ × Reply)
  drop_of c = elim c.connect_reply [ none ↦ [] | some r ↦ (r, dropped) ∷ [] ]

  discard-replies :
      (a : Actor S) (h : ℕ) (c : Conn) → (discard S a h c).replies ≡ a.replies ++ drop_of c
  unfolding discard answer drop_of
  discard-replies a h c = elim (Option-cases c.connect_reply) [
    | inl idle ↦ rw (discard, idle) (sym (append-nil a.replies))
    | inr (q, waiting) ↦ rw (discard, waiting) refl
  ]

  finish-replies :
      (a : Actor S) (h : ℕ) (c : Conn) (remove : Bool)
      → (finish S a h c remove).replies
        ≡ a.replies
          ++ (if remove || is_closed (S.state (pump S a.net h c).0 h) then drop_of c else [])
  unfolding finish pump drop_of
  finish-replies a h c remove =
      let (net, c') = pump S a.net h c in
      elim (Bool-cases (remove || is_closed (S.state net h))) [
        | inl gone ↦ rw (finish, gone) (discard-replies (record a { net = net }) h c')
        | inr stays ↦ rw (finish, stays) (sym (append-nil a.replies))
      ]

  -- A pending connect is refused when its socket is neither Established nor active.
  pub is_refused : S.Net → ℕ → Conn → Bool
  is_refused net h c = elim c.connect_reply [
    | none ↦ false
    | some r ↦ not (is_established (S.state net h)) && not (S.is_active net h)
  ]

  -- What a pending connect is told on sockets `net`, when the transfer leaves them as `after`.
  pub connect_told : S.Net → S.Net → ℕ → Conn → List (ℕ × Reply)
  connect_told net after h c = elim c.connect_reply [
    | none ↦ []
    | some r ↦
        if is_established (S.state net h)
        then (r, connected h) ∷ []
        else if S.is_active net h
        then (if is_closed (S.state after h) then (r, dropped) ∷ [] else [])
        else (r, connection_refused) ∷ []
  ]

  -- How a pass over the connection `c` ends.
  unfoldable pub Serviced : Actor S → Actor S → ℕ → Conn → Type 0
  Serviced a b h c =
      let after = (pump S a.net h c).0 in
      (has h b.conns ≡ not (is_refused a.net h c || is_closed (S.state after h)))
      × (b.replies ≡ a.replies ++ connect_told a.net after h c)

  -- The end of a pass behind a `settle` that is known.
  settled_ends :
      (a a' : Actor S) (h : ℕ) (c c' : Conn) (remove : Bool)
      → settle S a h c ≡ (a', c', remove)
      → a'.conns ≡ a.conns
      → (pump S a'.net h c').0 ≡ (pump S a.net h c).0
      → remove ≡ is_refused a.net h c
      → (let after = (pump S a.net h c).0 in
          a'.replies
            ++ (if is_refused a.net h c || is_closed (S.state after h) then drop_of c' else [])
          ≡ a.replies ++ connect_told a.net after h c)
      → Unique a.conns
      → Serviced a (service_conn S a h c) h c
  unfolding service_conn Serviced
  settled_ends a a' h c c' remove e conns net removed replies unique =
      let whole : service_conn S a h c ≡ finish S a' h c' remove =
        ap (λ r. finish S r.0 h r.1 r.2) e in
      rw whole (
        finish-has a' h c' remove (rw conns unique)
            ∙ ap (λ r. not (r || is_closed (S.state (pump S a'.net h c').0 h))) removed
            ∙ ap (λ n. not (is_refused a.net h c || is_closed (S.state n h))) net,
        finish-replies a' h c' remove
            ∙ ap
                (λ r.
                  a'.replies
                  ++ (if r || is_closed (S.state (pump S a'.net h c').0 h) then drop_of c' else []))
                removed
            ∙ ap
                (λ n.
                  a'.replies
                  ++ (if is_refused a.net h c || is_closed (S.state n h) then drop_of c' else []))
                net
            ∙ replies,
      )

  -- What `verdict` says of a pending connect.
  verdict_cases :
      (net : S.Net) (h r : ℕ) (c : Conn)
      → c.connect_reply ≡ some r
      → verdict S net h c ≡ (
          if is_established (S.state net h)
          then some (r, connected h)
          else if S.is_active net h
          then none
          else some (r, connection_refused))
  unfolding verdict
  verdict_cases net h r c e = rw (verdict, e) refl

  settle-waits :
      (a : Actor S) (h : ℕ) (c : Conn) → verdict S a.net h c ≡ none → settle S a h c ≡ (a, c, false)
  unfolding settle
  settle-waits a h c e = rw (settle, e) refl

  settle-answers :
      (a : Actor S) (h r : ℕ) (c : Conn) (what : Reply)
      → verdict S a.net h c ≡ some (r, what)
      → settle S a h c ≡ (answer S a r what, record c { connect_reply = none }, is_refusal S what)
  unfolding settle
  settle-answers a h r c what e = rw (settle, e) refl

  refused_cases :
      (net : S.Net) (h r : ℕ) (c : Conn)
      → c.connect_reply ≡ some r
      → is_refused net h c ≡ (not (is_established (S.state net h)) && not (S.is_active net h))
  unfolding is_refused
  refused_cases net h r c e = rw (is_refused, e) refl

  connect_told_cases :
      (net after : S.Net) (h r : ℕ) (c : Conn)
      → c.connect_reply ≡ some r
      → connect_told net after h c ≡ (
          if is_established (S.state net h)
          then (r, connected h) ∷ []
          else if S.is_active net h
          then (if is_closed (S.state after h) then (r, dropped) ∷ [] else [])
          else (r, connection_refused) ∷ [])
  unfolding connect_told
  connect_told_cases net after h r c e = rw (connect_told, e) refl

  drop_cases : (r : ℕ) (c : Conn) → c.connect_reply ≡ some r → drop_of c ≡ (r, dropped) ∷ []
  unfolding drop_of
  drop_cases r c e = rw (drop_of, e) refl

  if_nil : (b : Bool) → ◌≡◌ {A = List (ℕ × Reply)} (if b then [] else []) []
  if_nil true = refl
  if_nil false = refl

  idle_ends :
      (a : Actor S) (h : ℕ) (c : Conn)
      → c.connect_reply ≡ none
      → Unique a.conns
      → Serviced a (service_conn S a h c) h c
  unfolding is_refused connect_told drop_of verdict
  idle_ends a h c idle unique =
      let waits : verdict S a.net h c ≡ none = rw (verdict, idle) refl in
      let stays : is_refused a.net h c ≡ false = rw (is_refused, idle) refl in
      let nothing : connect_told a.net (pump S a.net h c).0 h c ≡ [] =
        rw (connect_told, idle) refl in
      let kept : drop_of c ≡ [] = rw (drop_of, idle) refl in
      settled_ends a a h c c false (settle-waits a h c waits) refl refl (sym stays)
        (rw (nothing, kept, if_nil _) refl) unique

  -- The answer of a connect that is settled is the only one.
  answered_ends :
      (a : Actor S) (h r : ℕ) (c : Conn) (what : Reply)
      → verdict S a.net h c ≡ some (r, what)
      → is_refusal S what ≡ is_refused a.net h c
      → connect_told a.net (pump S a.net h c).0 h c ≡ (r, what) ∷ []
      → Unique a.conns
      → Serviced a (service_conn S a h c) h c
  unfolding answer drop_of
  answered_ends a h r c what e refused only unique =
      settled_ends a (answer S a r what) h c (record c { connect_reply = none }) (is_refusal S what)
        (settle-answers a h r c what e) refl (unfold pump in refl) refused
        (rw (only, if_nil _) (append-nil (a.replies ++ (r, what) ∷ []))) unique

  service_conn_lem :
      (a : Actor S) (h : ℕ) (c : Conn) → Unique a.conns → Serviced a (service_conn S a h c) h c
  unfolding is_refusal
  service_conn_lem a h c unique = elim (Option-cases c.connect_reply) [
    | inl idle ↦ idle_ends a h c idle unique
    | inr (r, waits) ↦
        let said = verdict_cases a.net h r c waits in
        let refusal = refused_cases a.net h r c waits in
        let answers = connect_told_cases a.net (pump S a.net h c).0 h r c waits in
        elim (Bool-cases (is_established (S.state a.net h))) [
          | inl up ↦
              answered_ends a h r c (connected h) (rw up at said) (sym (rw up at refusal))
                (rw up at answers) unique
          | inr pending ↦ elim (Bool-cases (S.is_active a.net h)) [
            | inl active ↦
                settled_ends a a h c c false (settle-waits a h c (rw (pending, active) at said))
                  refl refl (sym (rw (pending, active) at refusal))
                  (rw (answers, refusal, pending, active, drop_cases r c waits) refl) unique
            | inr refused ↦
                answered_ends a h r c connection_refused (rw (pending, refused) at said)
                  (sym (rw (pending, refused) at refusal)) (rw (pending, refused) at answers) unique
          ]
        ]
  ]

  -- A pass over a connection of a map that has each handle once takes it out, its connect pending
  -- or not, which is what its reader sees as the end, exactly when its socket is Closed behind the
  -- transfer, or the connect is pending and the socket neither Established nor active before it: a
  -- socket whose peer has only closed its own side, and is in CloseWait, keeps its connection. A
  -- pending connect is told that it stands exactly when the socket is Established, and that it is
  -- refused exactly when the socket is not active either; its sender is dropped when the socket is
  -- active and Closed behind the transfer. Nothing else is answered.
  pub service_handle_lem :
      (a : Actor S) (h : ℕ) (c : Conn)
      → lookup h a.conns ≡ some c
      → Unique a.conns
      → Serviced a (service_handle S a h) h c
  unfolding service_handle
  service_handle_lem a h c found unique = rw (service_handle, found) (service_conn_lem a h c unique)
