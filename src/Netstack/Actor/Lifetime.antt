-- ===== src/Netstack/Actor/Lifetime.antt =====
-- The sockets and the map of connections: each socket has its entry, and each entry its socket.
pub mod Transfer
pub mod Ends
pub mod Reuse
use warp_proxy.Base.{
  ℕ, zero, suc, ◌+◌, ◌≡◌, ◌⊎◌, refl, ap, sym, ◌∙◌, arith, Bool, true, false, ◌||◌, List, [], ◌∷◌,
  ◌++◌, Option, none, some,
}
use warp_proxy.Base.{◌==◌, ==_iff, Bool-cases, Option-cases, inl, inr, if◌then◌else◌}
use warp_proxy.Base.Table.{
  Table, lookup, insert, erase, Unique, lookup-insert_self, lookup-insert_ne, lookup-erase_self,
  lookup-erase_ne, insert-Unique, erase-Unique,
}
use warp_proxy.Socks.{IpAddr}
use warp_proxy.Netstack.{Smoltcp}
use warp_proxy.Netstack.Actor.{
  Actor, start, Conn, Cmd, inbound, connect, send, close, resolve, answer, adjust, fresh_conn,
  handle_connect, handle_resolve, handle_cmd,
}

-- What the actor relies on in a `SocketSet`: `add` takes a handle that no socket has, `remove` frees the
-- handle, and no other call changes which handles have a socket.
pub record Handles (S : Smoltcp) : Type 0 where
  pub live : S.Net → ℕ → Bool
  pub add-fresh : (net : S.Net) → live net (S.add net).0 ≡ false
  pub add-live :
      (net : S.Net) (j : ℕ)
      → live (S.add net).1 j ≡ (if j == (S.add net).0 then true else live net j)
  pub remove-live :
      (net : S.Net) (h j : ℕ) → live (S.remove net h) j ≡ (if j == h then false else live net j)
  pub connect-live :
      (net net' : S.Net) (h : ℕ) (remote : IpAddr) (port local j : ℕ)
      → S.connect net h remote port local ≡ some net'
      → live net' j ≡ live net j
  pub send_slice-live :
      (net net' : S.Net) (h n : ℕ) (bytes : List ℕ) (j : ℕ)
      → S.send_slice net h bytes ≡ some (n, net')
      → live net' j ≡ live net j
  pub recv_slice-live :
      (net net' : S.Net) (h most : ℕ) (bytes : List ℕ) (j : ℕ)
      → S.recv_slice net h most ≡ some (bytes, net')
      → live net' j ≡ live net j
  pub close-live : (net : S.Net) (h j : ℕ) → live (S.close net h) j ≡ live net j
  pub start_query-live :
      (net net' : S.Net) (name : List ℕ) (q j : ℕ)
      → S.start_query net name ≡ some (q, net')
      → live net' j ≡ live net j
  pub get_query_result-live :
      (net : S.Net) (q j : ℕ) → live (S.get_query_result net q).1 j ≡ live net j
  pub poll-live : (net : S.Net) (rx : List (List ℕ)) (j : ℕ) → live (S.poll net rx).0 j ≡ live net j

-- Whether the map has a handle.
is_present : Option Conn → Bool
is_present none = false
is_present (some c) = true

pub has : ℕ → Table Conn → Bool
unfolding is_present
has j d = is_present (lookup j d)

pub found-has : (h : ℕ) (c : Conn) (d : Table Conn) → lookup h d ≡ some c → has h d ≡ true
unfolding has is_present
found-has h c d e = rw (has, e) refl

pub has-none : (h : ℕ) (d : Table Conn) → has h d ≡ false → lookup h d ≡ none
unfolding has is_present
has-none h d e = elim (Option-cases (lookup h d)) [
  | inl missing ↦ missing
  | inr (c, found) ↦ absurd (ground (arith, found))
]

pub has-insert :
    (j h : ℕ) (c : Conn) (d : Table Conn)
    → has j (insert h c d) ≡ (if j == h then true else has j d)
unfolding has is_present
has-insert j h c d = elim (Bool-cases (j == h)) [
  | inl same ↦ rw same refl
  | inr other ↦ rw other (ap is_present (lookup-erase_ne j h d (ground arith)))
]

pub has-erase :
    (j h : ℕ) (d : Table Conn) → Unique d → has j (erase h d) ≡ (if j == h then false else has j d)
unfolding has is_present
has-erase j h d u = elim (Bool-cases (j == h)) [
  | inl same ↦ rw (same, has, (==_iff j h).0 same, lookup-erase_self h d u) refl
  | inr other ↦ rw (other, has, lookup-erase_ne j h d (ground arith)) refl
]

module _ (S : Smoltcp) (L : Handles S) where
  open L use {live}

  -- The handles of the map are those of the sockets, and a handle stands in it once.
  pub record Tracked (net : S.Net) (conns : Table Conn) : Type 0 where
    pub unique : Unique conns
    pub tracked : (j : ℕ) → has j conns ≡ live net j

  -- Which sockets there are, is the same.
  abbrev pub SameSockets : S.Net → S.Net → Type 0
  SameSockets net net' = (j : ℕ) → live net' j ≡ live net j

  pub Tracked-move :
      (net net' : S.Net) (conns : Table Conn)
      → SameSockets net net'
      → Tracked net conns
      → Tracked net' conns
  Tracked-move net net' conns same t = record {
    unique = t.unique;
    tracked = λ j. t.tracked j ∙ sym (same j);
  }

  pub Tracked-insert :
      (net : S.Net) (conns : Table Conn) (h : ℕ) (c0 c : Conn)
      → lookup h conns ≡ some c0
      → Tracked net conns
      → Tracked net (insert h c conns)
  Tracked-insert net conns h c0 c found t = record {
    unique = insert-Unique h c conns t.unique;
    tracked = λ j. has-insert j h c conns ∙ overwrite h c0 conns found j ∙ t.tracked j;
  }
    where
      overwrite :
          (h : ℕ) (c0 : Conn) (conns : Table Conn)
          → lookup h conns ≡ some c0
          → (j : ℕ) → (if j == h then true else has j conns) ≡ has j conns
      overwrite h c0 conns found j = elim (Bool-cases (j == h)) [
        | inl same ↦ rw (same, (==_iff j h).0 same, found-has h c0 conns found) refl
        | inr other ↦ rw other refl
      ]

  pub Tracked-erase :
      (net : S.Net) (conns : Table Conn) (h : ℕ)
      → Tracked net conns
      → Tracked (S.remove net h) (erase h conns)
  Tracked-erase net conns h t = record {
    unique = erase-Unique h conns t.unique;
    tracked = λ j.
        has-erase j h conns t.unique
        ∙ ap (λ b. if j == h then false else b) (t.tracked j)
        ∙ sym (L.remove-live net h j);
  }

  -- The handle of a new socket is not in the map.
  pub add-new :
      (net : S.Net) (conns : Table Conn) → Tracked net conns → lookup (S.add net).0 conns ≡ none
  add-new net conns t = has-none (S.add net).0 conns (t.tracked (S.add net).0 ∙ L.add-fresh net)

  Tracked-add :
      (net : S.Net) (conns : Table Conn) (c : Conn)
      → Tracked net conns
      → Tracked (S.add net).1 (insert (S.add net).0 c conns)
  Tracked-add net conns c t = record {
    unique = insert-Unique (S.add net).0 c conns t.unique;
    tracked = λ j.
        has-insert j (S.add net).0 c conns
        ∙ ap (λ b. if j == (S.add net).0 then true else b) (t.tracked j)
        ∙ sym (L.add-live net j);
  }

  -- A socket that is added and removed again.
  add-remove : (net : S.Net) → SameSockets net (S.remove (S.add net).1 (S.add net).0)
  add-remove net j =
      L.remove-live (S.add net).1 (S.add net).0 j
      ∙ ap (λ b. if j == (S.add net).0 then false else b) (L.add-live net j)
      ∙ again j (Bool-cases (j == (S.add net).0))
    where
      again :
          (j : ℕ)
          → ((j == (S.add net).0) ≡ true) ⊎ ((j == (S.add net).0) ≡ false)
          → (if j == (S.add net).0 then false else if j == (S.add net).0 then true else live net j)
            ≡ live net j
      again j (inl same) = rw (same, (==_iff j (S.add net).0).0 same) (sym (L.add-fresh net))
      again j (inr other) = rw other refl

  pub handle_connect-Tracked :
      (a : Actor S) (remote : IpAddr) (port s : ℕ)
      → Tracked a.net a.conns
      → Tracked (handle_connect S a remote port s).net (handle_connect S a remote port s).conns
  unfolding handle_connect answer
  handle_connect-Tracked a remote port s t =
      let (h, added) = S.add a.net in
      elim (Option-cases (S.connect added h remote port a.next_port)) [
        | inl refused ↦
            rw (handle_connect, refused) (Tracked-move a.net _ a.conns (add-remove a.net) t)
        | inr (net, started) ↦
            rw (handle_connect, started)
              (Tracked-move added net _
                (λ j. L.connect-live added net h remote port a.next_port j started)
                (Tracked-add a.net a.conns (fresh_conn s) t))
      ]

  pub adjust-Tracked :
      (a : Actor S) (h : ℕ) (f : Conn → Conn)
      → Tracked a.net a.conns
      → Tracked (adjust S a h f).net (adjust S a h f).conns
  unfolding adjust
  adjust-Tracked a h f t = elim (Option-cases (lookup h a.conns)) [
    | inl missing ↦ rw (adjust, missing) t
    | inr (c, found) ↦ rw (adjust, found) (Tracked-insert a.net a.conns h c (f c) found t)
  ]

  handle_resolve-Tracked :
      (parse_ip : List ℕ → Option IpAddr) (a : Actor S) (name : List ℕ) (s : ℕ)
      → Tracked a.net a.conns
      → Tracked (handle_resolve S parse_ip a name s).net (handle_resolve S parse_ip a name s).conns
  unfolding handle_resolve answer
  handle_resolve-Tracked parse_ip a name s t = elim (Option-cases (parse_ip name)) [
    | inr (ip, literal) ↦ rw (handle_resolve, literal) t
    | inl other ↦ elim (Option-cases (S.start_query a.net name)) [
      | inl refused ↦ rw (handle_resolve, other, refused) t
      | inr ((q, net), started) ↦
          rw (handle_resolve, other, started)
            (Tracked-move a.net net a.conns (λ j. L.start_query-live a.net net name q j started) t)
    ]
  ]

  pub handle_cmd-Tracked :
      (parse_ip : List ℕ → Option IpAddr) (a : Actor S) (cmd : Cmd)
      → Tracked a.net a.conns
      → Tracked (handle_cmd S parse_ip a cmd).net (handle_cmd S parse_ip a cmd).conns
  unfolding handle_cmd
  handle_cmd-Tracked parse_ip a (inbound pkt) t = t
  handle_cmd-Tracked parse_ip a (connect remote port s) t = handle_connect-Tracked a remote port s t
  handle_cmd-Tracked parse_ip a (send h bytes) t = adjust-Tracked a h _ t
  handle_cmd-Tracked parse_ip a (close h) t = adjust-Tracked a h _ t
  handle_cmd-Tracked parse_ip a (resolve name s) t = handle_resolve-Tracked parse_ip a name s t

  pub start-Tracked :
      (net : S.Net) → ((j : ℕ) → live net j ≡ false) → Tracked (start S net).net (start S net).conns
  unfolding start has is_present
  start-Tracked net fresh = record { unique = tt; tracked = λ j. sym (fresh j) }
