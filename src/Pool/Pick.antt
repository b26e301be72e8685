-- ===== src/Pool/Pick.antt =====
-- Which netstack `pick` gives a new connection.
use warp_proxy.Base.{
  ℕ, zero, suc, ◌+◌, ◌-◌, ◌*◌, ◌/◌, ◌%◌, ◌^◌, ◌≤◌, ◌<◌, ◌≡◌, ◌≢◌, refl, ap, sym, ◌∙◌, arith,
}
use warp_proxy.Base.{List, [], ◌∷◌, none, some, inl, inr, ◌⊎◌}
use warp_proxy.Base.{
  ltb, ltb→lt, ltb_false→le, ◌==◌, ==_iff, Bool-cases, Option-cases, if◌then◌else◌, length,
  get_elem?, In, get_elem?-In, In-get_elem?, get_elem?-lt,
}
use warp_proxy.Pool.{Pool, net_of, find, wrap, scan, round_robin, pinned_net, pick}
use native.Mathlib.Nat.{add-mul-mod_self_right, mod-eq_of_lt, div-add-mod, mod-lt}

pub find-In : (id : ℕ) (ws : List ℕ) → In id ws → find id ws ≡ some id
unfolding find
find-In id [] h = absurd h
find-In id (w ∷ ws) (inl e) = ground (arith)
find-In id (w ∷ ws) (inr h) = ground (arith, find-In id ws h)

pub find-some : (id w : ℕ) (ws : List ℕ) → find id ws ≡ some w → (w ≡ id) × In id ws
unfolding find
find-some id w [] e = cc
find-some id w (x ∷ ws) e = elim (Bool-cases (x == id)) [
  | inl same ↦ (ground arith, inl ((==_iff x id).0 same))
  | inr other ↦ let later = find-some id w ws (rw other at e) in (later.0, inr later.1)
]

index_pos : (xs : List ℕ) (i a : ℕ) → get_elem? xs i ≡ some a → 0 < length xs
index_pos [] i a e = cc
index_pos (x ∷ xs) i a e = omega arith

around :
    (start i n q o : ℕ)
    → i < n
    → start + o < 2 ^ 64
    → start + o ≡ i + q * n
    → wrap (start + o) % n ≡ i
around start i n q o h small e =
    let fits : wrap (start + o) ≡ i + q * n = omega arith in
    rw (fits, add-mul-mod_self_right i q n) (mod-eq_of_lt h)

module _ (p : Pool) where
  -- One round of the scan, by the worker that it looks at.
  pub scan_ready :
      (start count off id net : ℕ)
      → get_elem? p.workers (wrap (start + off) % length p.workers) ≡ some id
      → net_of p id ≡ some net
      → scan p start (suc count) off ≡ some net
  unfolding scan
  scan_ready start count off id net at up = ground arith

  scan_down :
      (start count off id : ℕ)
      → get_elem? p.workers (wrap (start + off) % length p.workers) ≡ some id
      → net_of p id ≡ none
      → scan p start (suc count) off ≡ scan p start count (off + 1)
  unfolding scan
  scan_down start count off id at down = ground arith

  scan_out :
      (start count off : ℕ)
      → get_elem? p.workers (wrap (start + off) % length p.workers) ≡ none
      → scan p start (suc count) off ≡ none
  unfolding scan
  scan_out start count off out = ground arith

  -- What the scan gives is the netstack of a worker of the pool.
  scan_sound :
      (start count off net : ℕ)
      → scan p start count off ≡ some net
      → (id : ℕ) × In id p.workers × (net_of p id ≡ some net)
  scan_sound start zero off net e = unfold scan in cc
  scan_sound start (suc count) off net e =
      elim (Option-cases (get_elem? p.workers (wrap (start + off) % length p.workers))) [
        | inl out ↦ cc (scan_out start count off out)
        | inr (id, at) ↦ elim (Option-cases (net_of p id)) [
          | inl down ↦
              scan_sound start count (off + 1) net (sym (scan_down start count off id at down) ∙ e)
          | inr (up, is_up) ↦ (
            id,
            get_elem?-In p.workers _ id at,
            is_up ∙ sym (scan_ready start count off id up at is_up) ∙ e,
          )
        ]
      ]

  -- A ready worker at the offset `t`, within the rounds left, makes the scan succeed.
  scan_hits :
      (start count off t id net : ℕ)
      → off ≤ t
      → t < off + count
      → get_elem? p.workers (wrap (start + t) % length p.workers) ≡ some id
      → net_of p id ≡ some net
      → (found : ℕ) × (scan p start count off ≡ some found)
  scan_hits start zero off t id net lo hi at up = absurd (omega arith)
  scan_hits start (suc count) off t id net lo hi at up = elim (Bool-cases (off == t)) [
    | inl same ↦
        let at_off : get_elem? p.workers (wrap (start + off) % length p.workers) ≡ some id =
          rw ((==_iff off t).0 same) at in
        (net, scan_ready start count off id net at_off up)
    | inr other ↦
        let size : 0 < length p.workers = index_pos p.workers _ id at in
        let (w, here) =
          get_elem?-lt p.workers (wrap (start + off) % length p.workers) (mod-lt _ size) in
        elim (Option-cases (net_of p w)) [
          | inr (found, is_up) ↦ (found, scan_ready start count off w found here is_up)
          | inl down ↦
              rw (scan_down start count off w here down)
                (scan_hits start count (off + 1) t id net (ground arith) (omega arith) at up)
        ]
  ]

  -- The offset at which the scan comes to the index `i`.
  pub offset : ℕ → ℕ → ℕ
  offset start i =
      let s = start % length p.workers in if ltb i s then i + length p.workers - s else i - s

  pub offset_lem :
      (start i : ℕ)
      → i < length p.workers
      → start + length p.workers ≤ 2 ^ 64
      → (offset start i < length p.workers) × (wrap (start + offset start i) % length p.workers ≡ i)
  unfolding offset
  offset_lem start i h room =
      let n = length p.workers in
      let s = start % n in
      let small : s < n = mod-lt start (omega arith) in
      elim (Bool-cases (ltb i s)) [
        | inl before ↦
            let lt = ltb→lt i s before in
            rw before (
              omega arith,
              around start i n (start / n + 1) (i + n - s) h (omega arith)
                  (omega (arith, div-add-mod start n)),
            )
        | inr after ↦
            let le = ltb_false→le i s after in
            rw after (
              omega arith,
              around start i n (start / n) (i - s) h (omega arith)
                  (omega (arith, div-add-mod start n)),
            )
      ]

  -- The three ways in which `pick` ends.
  pick_cases :
      ((p.workers ≡ []) × (pick p ≡ (none, p)))
      ⊎ ((net : ℕ) × (pinned_net p ≡ some net) × (pick p ≡ (some net, p)))
      ⊎ (pick p ≡ round_robin p)
  pick_cases = by_workers p.workers refl
    where
      by_workers :
          (ws : List ℕ)
          → p.workers ≡ ws
          → ((p.workers ≡ []) × (pick p ≡ (none, p)))
            ⊎ ((net : ℕ) × (pinned_net p ≡ some net) × (pick p ≡ (some net, p)))
            ⊎ (pick p ≡ round_robin p)
      by_workers [] e = inl (e, unfold pick in ground arith)
      by_workers (w ∷ ws) e = elim (Bool-cases (p.pinned == 0)) [
        | inl auto ↦ inr (inr (unfold pick in ground arith))
        | inr set ↦ elim (Option-cases (pinned_net p)) [
          | inl down ↦ inr (inr (unfold pick in ground arith))
          | inr (net, up) ↦ inr (inl (net, up, unfold pick in ground arith))
        ]
      ]

  pinned_net-some :
      (net : ℕ) → pinned_net p ≡ some net → In p.pinned p.workers × (net_of p p.pinned ≡ some net)
  pinned_net-some net e = elim (Option-cases (find p.pinned p.workers)) [
    | inl missing ↦ unfold pinned_net in ground arith
    | inr (id, found) ↦
        let (same, member) = find-some p.pinned id p.workers found in
        (member, rw (← same) (unfold pinned_net in ground arith))
  ]

  -- `pick` gives a netstack of a worker of the pool that is up.
  pub pick_sound :
      (net : ℕ) → (pick p).0 ≡ some net → (id : ℕ) × In id p.workers × (net_of p id ≡ some net)
  pick_sound net e = elim pick_cases [
    | inl (_, nothing) ↦ cc (ap (λ r. r.0) nothing)
    | inr (inl (up, pin, same)) ↦
        let (member, is_up) = pinned_net-some up pin in
        (p.pinned, member, is_up ∙ sym (ap (λ r. r.0) same) ∙ e)
    | inr (inr robin) ↦
        scan_sound p.rr (length p.workers) 0 net
          (unfold round_robin in sym (ap (λ r. r.0) robin) ∙ e)
  ]

  -- While the pinned worker is up, every connection goes to it, and the round-robin counter stays.
  pub pick_pinned :
      (net : ℕ)
      → p.pinned ≢ 0
      → In p.pinned p.workers
      → net_of p p.pinned ≡ some net
      → pick p ≡ (some net, p)
  pick_pinned net set member up = by_workers p.workers refl
    where
      by_workers : (ws : List ℕ) → p.workers ≡ ws → pick p ≡ (some net, p)
      by_workers [] e = absurd (rw e at member)
      by_workers (w ∷ ws) e = unfold pick in ground (arith, find-In p.pinned p.workers member)

  -- With no pin in force, the round-robin decides.
  pub pick_auto : p.pinned ≡ 0 → 0 < length p.workers → pick p ≡ round_robin p
  pick_auto auto pos = by_workers p.workers refl
    where
      by_workers : (ws : List ℕ) → p.workers ≡ ws → pick p ≡ round_robin p
      by_workers [] e = absurd (omega (arith, ap length e))
      by_workers (w ∷ ws) e = unfold pick in ground arith

  -- One listed worker that is up makes `pick` succeed, whatever the pin is, while the counter has room for
  -- as many steps as there are workers below 2 ^ 64: where it wraps within a scan, workers can be missed.
  pub pick_ready :
      (id net : ℕ)
      → p.rr + length p.workers ≤ 2 ^ 64
      → In id p.workers
      → net_of p id ≡ some net
      → (found : ℕ) × ((pick p).0 ≡ some found)
  pick_ready id net room member up = elim pick_cases [
    | inl (e, _) ↦ absurd (rw e at member)
    | inr (inl (other, pin, same)) ↦ (other, ap (λ r. r.0) same)
    | inr (inr robin) ↦
        let (i, lt, at) = In-get_elem? p.workers id member in
        let (near, index) = offset_lem p.rr i lt room in
        let (found, e) =
          scan_hits p.rr (length p.workers) 0 (offset p.rr i) id net (omega arith) (omega arith)
            (rw index at) up in
        (found, rw robin (unfold round_robin in e))
  ]
