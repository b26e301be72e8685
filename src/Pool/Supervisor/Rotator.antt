-- ===== src/Pool/Supervisor/Rotator.antt =====
-- The rotator reaches every account.
use warp_proxy.Base.{
  ℕ, zero, suc, ◌+◌, ◌%◌, ◌^◌, ◌≤◌, ◌<◌, ◌≡◌, ◌≢◌, refl, subst, sym, arith, inl, inr,
}
use warp_proxy.Base.{
  true, false, List, [], ◌∷◌, Option, some, some-injective, ◌==◌, length, In, get_elem?,
  get_elem?-In, In-get_elem?, get_elem?-lt,
}
use native.Mathlib.Nat.{mod-lt}
use warp_proxy.Config.{WarpConfig}
use warp_proxy.Pool.{Pool, wrap}
use warp_proxy.Pool.Pick.{offset_lem, offset}
use warp_proxy.Pool.Controls.{rotate}
use warp_proxy.Pool.Controls.Calls.{Inv, Rising, rotate-Same}
use warp_proxy.Pool.Controls.Accounts.{
  rotate_target_named, rotate_one, rotate-rebuild, rotate-config,
}
use warp_proxy.Pool.Supervisor.{tick}

-- Several rounds of the rotator, each with what registration gives: a config, or nothing if it fails.
pub ticks : Pool → ℕ → List (Option WarpConfig) → Pool × ℕ
unfolding tick
ticks p idx [] = (p, idx)
ticks p idx (fresh ∷ later) = let r = tick p idx fresh in ticks r.0 r.1 later

-- The rotation is on, there are workers, and no id is 0.
record Running (p : Pool) : Type 0 where
  some_worker : 1 ≤ length p.workers
  turning : p.rotate_secs ≢ 0
  named : (id : ℕ) → In id p.workers → id ≢ 0

tick_at :
    (p : Pool) (idx id : ℕ) (fresh : Option WarpConfig)
    → p.rotate_secs ≢ 0
    → get_elem? p.workers (idx % length p.workers) ≡ some id
    → tick p idx fresh ≡ ((rotate p id fresh).1, wrap (idx + 1))
unfolding tick
tick_at p idx id fresh on at =
    let off : (p.rotate_secs == 0) ≡ false = ground arith in rw (off, at) refl

-- A worker that was rotated: it has one of the configs that were given, and a permit to rebuild.
pub record Rotated (given : List (Option WarpConfig)) (p : Pool) (j : ℕ) : Type 0 where
  pub rebuild : (p.store j).rebuild ≡ true
  pub config : In (some (p.store j).config) given

rotate-Rotated :
    (all : List (Option WarpConfig)) (p : Pool) (id j : ℕ) (fresh : Option WarpConfig)
    → In fresh all
    → Rotated all p j
    → Rotated all (rotate p id fresh).1 j
rotate-Rotated all p id j fresh member r = record {
  rebuild = rotate-rebuild p id j fresh r.rebuild;
  config = elim (rotate-config p id j fresh) [
    | inl e ↦ subst (λ x. In x all) (sym e) member
    | inr e ↦ subst (λ x. In (some x) all) (sym e) r.config
  ];
}

rotate-Running :
    (p : Pool) (id : ℕ) (fresh : Option WarpConfig) → Running p → Running (rotate p id fresh).1
rotate-Running p id fresh r =
    let same = rotate-Same p id fresh in
    record {
      some_worker = rw same.workers r.some_worker;
      turning = rw same.rotate_secs r.turning;
      named = rw same.workers r.named;
    }

-- The account whose turn it is.
turn_of :
    (p : Pool) (idx : ℕ) (fresh : Option WarpConfig)
    → Running p
    → (id : ℕ) × (tick p idx fresh ≡ ((rotate p id fresh).1, wrap (idx + 1)))
turn_of p idx fresh r =
    let some_worker = r.some_worker in
    let (id, at) = get_elem?-lt p.workers (idx % length p.workers) (mod-lt idx (omega arith)) in
    (id, tick_at p idx id fresh r.turning at)

ticks-Rotated :
    (all later : List (Option WarpConfig)) (p : Pool) (idx j : ℕ)
    → Running p
    → ((c : Option WarpConfig) → In c later → In c all)
    → Rotated all p j
    → Rotated all (ticks p idx later).0 j
unfolding ticks
ticks-Rotated all [] p idx j on within r = r
ticks-Rotated all (fresh ∷ later) p idx j on within r =
    let (id, e) = turn_of p idx fresh on in
    subst (λ q. Rotated all (ticks q.0 q.1 later).0 j) (sym e)
      (ticks-Rotated all later _ _ j (rotate-Running p id fresh on) (λ d m. within d (inr m))
        (rotate-Rotated all p id j fresh (within fresh (inl refl)) r))

rotate-Rotated_target :
    (all : List (Option WarpConfig)) (p : Pool) (j : ℕ) (c : WarpConfig)
    → Running p
    → In j p.workers
    → In (some c) all
    → Rotated all (rotate p j (some c)).1 j
rotate-Rotated_target all p j c on member kept =
    let target = rotate_target_named p j (on.named j member) member in
    let (done, list, config, rebuild, net, others, failed) =
      rotate_one p j j (suc j) c target (omega arith) in
    record { rebuild = rebuild; config = subst (λ x. In (some x) all) (sym config) kept }

-- After `k` more rounds it is the turn of the account at index `idx + k`, and registration succeeds.
ticks_reach :
    (all rounds : List (Option WarpConfig)) (k : ℕ) (p : Pool) (idx j : ℕ) (c : WarpConfig)
    → Running p
    → ((x : Option WarpConfig) → In x rounds → In x all)
    → get_elem? rounds k ≡ some (some c)
    → idx < 2 ^ 64
    → get_elem? p.workers (wrap (idx + k) % length p.workers) ≡ some j
    → Rotated all (ticks p idx rounds).0 j
unfolding ticks
ticks_reach all [] k p idx j c on within given fits at = cc
ticks_reach all (fresh ∷ later) zero p idx j c on within given fits at =
    let here : wrap (idx + 0) ≡ idx = omega arith in
    let now : get_elem? p.workers (idx % length p.workers) ≡ some j = rw here at at in
    let registered : fresh ≡ some c = some-injective fresh (some c) given in
    subst (λ q. Rotated all (ticks q.0 q.1 later).0 j) (sym (tick_at p idx j fresh on.turning now))
      (ticks-Rotated all later _ _ j (rotate-Running p j fresh on) (λ d m. within d (inr m))
        (subst (λ x. Rotated all (rotate p j x).1 j) (sym registered)
          (rotate-Rotated_target all p j c on (get_elem?-In p.workers _ j now)
            (subst (λ x. In x all) registered (within fresh (inl refl))))))
ticks_reach all (fresh ∷ later) (suc k) p idx j c on within given fits at =
    let (id, e) = turn_of p idx fresh on in
    let ahead : wrap (idx + suc k) ≡ wrap (wrap (idx + 1) + k) = omega arith in
    let same = (rotate-Same p id fresh).workers in
    let there : get_elem? (rotate p id fresh).1.workers
          (wrap (wrap (idx + 1) + k) % length (rotate p id fresh).1.workers)
        ≡ some j =
      rw (same, ← ahead) at in
    subst (λ q. Rotated all (ticks q.0 q.1 later).0 j) (sym e)
      (ticks_reach all later k _ _ j c (rotate-Running p id fresh on) (λ d m. within d (inr m))
        given (omega arith) there)

Rising-positive : (lo hi a : ℕ) (ws : List ℕ) → 1 ≤ lo → Rising lo ws hi → In a ws → a ≢ 0
Rising-positive lo hi a [] h r m = absurd m
Rising-positive lo hi a (w ∷ ws) h r (inl e) = let le = r.0 in omega arith
Rising-positive lo hi a (w ∷ ws) h r (inr m) = Rising-positive (suc w) hi a ws (omega arith) r.1 m

-- While the rotation is on, the pool satisfies its invariant, and the count has room below 2 ^ 64 for as
-- many rounds as there are workers: if registration succeeds in that one of these rounds that is a
-- worker's turn, then after any rounds from the count on that include it, whether the other
-- registrations succeed or not, the worker has one of the configs that registration gave in these
-- rounds, and a permit to rebuild. The count moves on in a round whose registration fails, too.
pub rotator_reaches_all :
    (p : Pool) (idx j : ℕ) (rounds : List (Option WarpConfig))
    → Inv p
    → p.rotate_secs ≢ 0
    → In j p.workers
    → idx + length p.workers ≤ 2 ^ 64
    → ((k : ℕ)
        → k < length p.workers
        → get_elem? p.workers ((idx + k) % length p.workers) ≡ some j
        → (c : WarpConfig) × (get_elem? rounds k ≡ some (some c)))
    → Rotated rounds (ticks p idx rounds).0 j
rotator_reaches_all p idx j rounds v on member room registered =
    let some_worker = v.some_worker in
    let (i, lt, at) = In-get_elem? p.workers j member in
    let (near, index) = offset_lem p idx i lt room in
    let turn : get_elem? p.workers (wrap (idx + offset p idx i) % length p.workers) ≡ some j =
      rw index at in
    let small : wrap (idx + offset p idx i) ≡ idx + offset p idx i = omega arith in
    let (c, given) = registered (offset p idx i) near (rw small at turn) in
    ticks_reach rounds rounds (offset p idx i) p idx j c
      (record {
        some_worker = some_worker;
        turning = on;
        named = λ a m. Rising-positive 1 p.next_id a p.workers (omega arith) v.ids m;
      })
      (λ d m. m) given (omega arith) turn
