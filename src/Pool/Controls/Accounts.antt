-- ===== src/Pool/Controls/Accounts.antt =====
-- Adding, removing and rotating accounts: every branch of the three operations.
use warp_proxy.Base.{ℕ, ◌+◌, ◌≤◌, ◌<◌, ◌≡◌, ◌≢◌, refl, ap, sym, ◌∙◌, arith, inl, inr, ◌⊎◌, ◌↔◌}
use warp_proxy.Base.{true, false, List, [], ◌∷◌, ◌++◌, Option, none, some}
use warp_proxy.Base.{
  leb, ◌==◌, ==_iff, ==_refl, Bool-cases, Option-cases, if◌then◌else◌, length, In,
}
use warp_proxy.Config.{WarpConfig}
use warp_proxy.Pool.{notify_one, Pool, find, net_of, new_worker, wrap}
use warp_proxy.Pool.Pick.{find-In, find-some}
use warp_proxy.Pool.Controls.{
  update, ok, err, no_such_account, last_account, registration, tunnel, Built, rotate_target,
  rotate, add_account, retain_ne, remove_account,
}

-- `retain_ne id` keeps exactly the other workers.
retain_ne-In : (id a : ℕ) (ws : List ℕ) → In a (retain_ne id ws) → In a ws × (a ≢ id)
unfolding retain_ne
retain_ne-In id a [] h = absurd h
retain_ne-In id a (w ∷ ws) h = elim (Bool-cases (w == id)) [
  | inl same ↦ let (m, ne) = retain_ne-In id a ws (rw same at h) in (inr m, ne)
  | inr other ↦ elim (kept other) [
    | inl e ↦ (inl e, ground arith)
    | inr m ↦ let (n, ne) = retain_ne-In id a ws m in (inr n, ne)
  ]
]
  where
    kept : (w == id) ≡ false → In a (w ∷ retain_ne id ws)
    kept other = rw other at h

In-retain_ne : (id a : ℕ) (ws : List ℕ) → In a ws → a ≢ id → In a (retain_ne id ws)
unfolding retain_ne
In-retain_ne id a [] h ne = h
In-retain_ne id a (w ∷ ws) h ne = elim (Bool-cases (w == id)) [
  | inl same ↦ rw same (elim h [
    | inl e ↦ absurd (ne (sym e ∙ (==_iff w id).0 same))
    | inr m ↦ In-retain_ne id a ws m ne
  ])
  | inr other ↦ rw other (elim h [ inl e ↦ inl e | inr m ↦ inr (In-retain_ne id a ws m ne) ])
]

length-retain_ne : (id : ℕ) (ws : List ℕ) → length (retain_ne id ws) ≤ length ws
unfolding retain_ne
length-retain_ne id [] = omega arith
length-retain_ne id (w ∷ ws) = ground (arith, length-retain_ne id ws)

length-retain_ne-In : (id : ℕ) (ws : List ℕ) → In id ws → length (retain_ne id ws) < length ws
unfolding retain_ne
length-retain_ne-In id [] h = absurd h
length-retain_ne-In id (w ∷ ws) (inl e) = ground (arith, length-retain_ne id ws)
length-retain_ne-In id (w ∷ ws) (inr m) = ground (arith, length-retain_ne-In id ws m)

-- Nothing is lost but the workers that were named.
retain_ne_out : (id : ℕ) (ws : List ℕ) → ¬ In id ws → retain_ne id ws ≡ ws
unfolding retain_ne
retain_ne_out id [] h = refl
retain_ne_out id (w ∷ ws) h =
    ground (arith, retain_ne_out id ws (λ m. h (inr m)), λ (e : w ≡ id). h (inl e))

-- A named worker of a pool of two or more is removed, it alone, and a pin on it is lifted.
pub remove_account_removes :
    (p : Pool) (id a : ℕ)
    → 2 ≤ length p.workers
    → In id p.workers
    → ((remove_account p id).0 ≡ ok tt)
      × (In a (remove_account p id).1.workers ↔ (In a p.workers × (a ≢ id)))
      × ((remove_account p id).1.pinned ≡ (if p.pinned == id then 0 else p.pinned))
      × ((remove_account p id).1.store ≡ p.store)
unfolding remove_account
remove_account_removes p id a two member =
    let shorter = length-retain_ne-In id p.workers member in
    let many : leb (length p.workers) 1 ≡ false = ground arith in
    let found : (length (retain_ne id p.workers) == length p.workers) ≡ false = ground arith in
    rw (many, found)
      (refl, (retain_ne-In id a p.workers, λ h. In-retain_ne id a p.workers h.0 h.1), refl, refl)

-- The last worker is not removed, and neither is one that is not there: an error, and no change.
pub remove_account_refuses :
    (p : Pool) (id : ℕ)
    → (length p.workers ≤ 1) ⊎ (¬ In id p.workers)
    → (remove_account p id ≡ (err last_account, p))
      ⊎ (remove_account p id ≡ (err no_such_account, p))
unfolding remove_account
remove_account_refuses p id h = elim (Bool-cases (leb (length p.workers) 1)) [
  | inl few ↦ inl (rw few)
  | inr many ↦ elim h [
    | inl le ↦ absurd (ground arith)
    | inr out ↦
        let same = retain_ne_out id p.workers out in
        inr (rw (many, same, ==_refl (length p.workers)))
  ]
]

-- A new account gets an id that no other worker has, its tunnel stands, it is supervised, and the
-- other workers keep their state.
pub add_account_adds :
    (p : Pool) (config : WarpConfig) (b : Built) (j : ℕ)
    → j ≢ p.next_id
    → let q = (add_account p (some config) (some b)).1 in
      ((add_account p (some config) (some b)).0 ≡ ok p.next_id)
      × (q.workers ≡ p.workers ++ p.next_id ∷ [])
      × (net_of q p.next_id ≡ some b.net)
      × ((q.store p.next_id).config ≡ config)
      × In p.next_id q.supervised
      × (q.store j ≡ p.store j)
unfolding add_account
add_account_adds p config b j ne = (refl, refl, ground arith, ground arith, inl refl, ground arith)

-- The registered account of a failed dial stays in the pool, and is not supervised.
pub add_account_unsupervised :
    (p : Pool) (config : WarpConfig)
    → let q = (add_account p (some config) none).1 in
      ((add_account p (some config) none).0 ≡ err tunnel)
      × (q.workers ≡ p.workers ++ p.next_id ∷ [])
      × (net_of q p.next_id ≡ none)
      × (q.supervised ≡ p.supervised)
      × (q.next_id ≡ wrap (p.next_id + 1))
unfolding add_account new_worker
add_account_unsupervised p config = (refl, refl, ground arith, refl, refl)

-- `rotate` changes the one worker that it means: a new config, and a request to rebuild. The
-- others, and the pool if registration fails, stay as they are.
pub rotate_one :
    (p : Pool) (id w j : ℕ) (config : WarpConfig)
    → rotate_target p id ≡ some w
    → j ≢ w
    → let q = (rotate p id (some config)).1 in
      ((rotate p id (some config)).0 ≡ ok tt)
      × (q.workers ≡ p.workers)
      × ((q.store w).config ≡ config)
      × ((q.store w).rebuild ≡ true)
      × (net_of q w ≡ net_of p w)
      × (q.store j ≡ p.store j)
      × (rotate p id none ≡ (err registration, p))
unfolding rotate
rotate_one p id w j config target ne = (
  ground arith,
  ground arith,
  ground arith,
  ground arith,
  ground arith,
  ground arith,
  ground arith,
)

-- With no id given `rotate` means the pinned worker if there is one, and otherwise the first.
pub rotate_target_auto :
    (p : Pool) (w : ℕ) (ws : List ℕ)
    → p.workers ≡ w ∷ ws
    → ((In p.pinned p.workers) × (rotate_target p 0 ≡ some p.pinned))
      ⊎ ((¬ In p.pinned p.workers) × (rotate_target p 0 ≡ some w))
unfolding rotate_target
rotate_target_auto p w ws e = elim (Option-cases (find p.pinned p.workers)) [
  | inl missing ↦ inr ((λ m. cc (missing, find-In p.pinned p.workers m)), rw (missing, e) refl)
  | inr (id, found) ↦
      let (same, member) = find-some p.pinned id p.workers found in
      inl (member, rw found (ap some same))
]

pub rotate_target_named :
    (p : Pool) (id : ℕ) → id ≢ 0 → In id p.workers → rotate_target p id ≡ some id
unfolding rotate_target
rotate_target_named p id ne member =
    let named : (id == 0) ≡ false = ground arith in rw (named, find-In id p.workers member) refl

-- A permit that a supervisor has not taken yet stays through a rotation.
pub rotate-rebuild :
    (p : Pool) (id j : ℕ) (fresh : Option WarpConfig)
    → (p.store j).rebuild ≡ true
    → ((rotate p id fresh).1.store j).rebuild ≡ true
unfolding rotate update notify_one
rotate-rebuild p id j fresh h = ground arith

-- What a rotation leaves of a worker's config.
pub rotate-config :
    (p : Pool) (id j : ℕ) (fresh : Option WarpConfig)
    → (some ((rotate p id fresh).1.store j).config ≡ fresh)
      ⊎ (((rotate p id fresh).1.store j).config ≡ (p.store j).config)
unfolding rotate update notify_one
rotate-config p id j none = inr (ground arith)
rotate-config p id j (some config) = elim (Option-cases (rotate_target p id)) [
  | inl missing ↦ inr (ground arith)
  | inr (w, found) ↦ elim (Bool-cases (j == w)) [
    | inl same ↦ inl (ground arith)
    | inr other ↦ inr (ground arith)
  ]
]
