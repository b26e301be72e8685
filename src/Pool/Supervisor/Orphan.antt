-- ===== src/Pool/Supervisor/Orphan.antt =====
-- A worker for which no supervisor runs, through any history of calls, supervisors and traces.
use warp_proxy.Base.{ℕ, ◌+◌, ◌^◌, ◌≤◌, ◌<◌, ◌≡◌, ◌≢◌, refl, subst, sym, ◌∙◌, arith, inl, inr}
use warp_proxy.Base.{bind-some, some-injective, List, [], ◌∷◌, ◌++◌, none, some, length, In}
use warp_proxy.Config.{WarpConfig}
use warp_proxy.Pool.{Pool, Worker, TraceInfo, find, net_of, set_trace}
use warp_proxy.Pool.Pick.{find-some}
use warp_proxy.Pool.Controls.{err, tunnel, update, add_account}
use warp_proxy.Pool.Controls.Calls.{Call, step, step-next_id, adds}
use warp_proxy.Pool.Controls.Down.{step_down, step-supervised}
use warp_proxy.Pool.Controls.Accounts.{add_account_unsupervised}
use warp_proxy.Pool.Supervisor.{
  Phase, Wake, turn, take_permit, System, Move, calls, turns, traced, turned, phases_after, advance,
  drive,
}

-- A worker that is down, has an id that is taken, and no task.
record Orphan (id : ℕ) (p : Pool) : Type 0 where
  known : id < p.next_id
  down : net_of p id ≡ none
  alone : ¬ In id p.supervised

-- A supervisor touches the state of its own worker alone.
record Beside (id : ℕ) (p q : Pool) : Type 0 where
  next_id : q.next_id ≡ p.next_id
  supervised : q.supervised ≡ p.supervised
  others : (j : ℕ) → j ≢ id → net_of q j ≡ net_of p j

update-Beside : (p : Pool) (id : ℕ) (f : Worker → Worker) → Beside id p (update p id f)
unfolding update
update-Beside p id f = record { next_id = refl; supervised = refl; others = λ j ne. ground arith }

turn-Beside :
    (p q : Pool) (id : ℕ) (phase phase' : Phase) (w : Wake)
    → turn p id phase w ≡ some (q, phase')
    → Beside id p q
unfolding turn take_permit update
turn-Beside p q id phase phase' w e = record {
  next_id = ground arith;
  supervised = ground arith;
  others = λ j ne. ground arith;
}

Orphan-Beside :
    {p q : Pool} (id a : ℕ) → In a p.supervised → Beside a p q → Orphan id p → Orphan id q
Orphan-Beside {p} {q} id a member b o = record {
  known = let same = b.next_id in let known = o.known in omega arith;
  down = b.others id (λ e. o.alone (subst (λ k. In k p.supervised) (sym e) member)) ∙ o.down;
  alone = λ h. o.alone (subst (λ l. In id l) b.supervised h);
}

step-Orphan :
    (p : Pool) (c : Call) (id : ℕ) → p.next_id + 1 < 2 ^ 64 → Orphan id p → Orphan id (step p c)
step-Orphan p c id room o = record {
  known = let next = step-next_id p c room in let known = o.known in omega arith;
  down = step_down p c id o.known o.down;
  alone = λ h. o.alone (step-supervised p c id (let known = o.known in omega arith) h);
}

traced-Orphan :
    (p : Pool) (a id : ℕ) (t : TraceInfo)
    → Orphan id p
    → Orphan id (update p a (λ w. set_trace w t))
unfolding update set_trace
traced-Orphan p a id t o = record {
  known = o.known;
  down = (let down = o.down in ground arith);
  alone = o.alone;
}

turns-Orphan :
    (s s' : System) (a id : ℕ) (w : Wake)
    → Orphan id s.pool
    → advance s (turns a w) ≡ some s'
    → Orphan id s'.pool × (s'.pool.next_id ≡ s.pool.next_id)
unfolding advance turned
turns-Orphan s s' a id w o e =
    let (b, found, e1) = bind-some (find a s.pool.supervised) _ s' e in
    let ((q, phase), moved, e2) = bind-some (turn s.pool a (s.phases a) w) _ s' e1 in
    let beside = turn-Beside s.pool q a (s.phases a) phase w moved in
    let (same, member) = find-some a b s.pool.supervised found in
    subst (λ t. Orphan id t.pool × (t.pool.next_id ≡ s.pool.next_id)) (some-injective _ _ e2)
      (Orphan-Beside id a member beside o, beside.next_id)

advance-Orphan :
    (s s' : System) (m : Move) (id : ℕ)
    → s.pool.next_id + 1 < 2 ^ 64
    → Orphan id s.pool
    → advance s m ≡ some s'
    → Orphan id s'.pool × (s'.pool.next_id ≤ s.pool.next_id + 1)
unfolding advance
advance-Orphan s s' (calls c) id room o e =
    subst (λ t. Orphan id t.pool × (t.pool.next_id ≤ s.pool.next_id + 1)) (some-injective _ _ e)
      (step-Orphan s.pool c id room o, (step-next_id s.pool c room).1)
advance-Orphan s s' (turns a w) id room o e =
    let (o', same) = turns-Orphan s s' a id w o e in (o', omega arith)
advance-Orphan s s' (traced a t) id room o e =
    subst (λ t. Orphan id t.pool × (t.pool.next_id ≤ s.pool.next_id + 1)) (some-injective _ _ e)
      (traced-Orphan s.pool a id t o, omega arith)

drive-Orphan :
    (s s' : System) (ms : List Move) (id : ℕ)
    → s.pool.next_id + length ms < 2 ^ 64
    → Orphan id s.pool
    → drive s ms ≡ some s'
    → Orphan id s'.pool
unfolding drive
drive-Orphan s s' [] id room o e = subst (λ t. Orphan id t.pool) (some-injective _ _ e) o
drive-Orphan s s' (m ∷ ms) id room o e =
    let (s1, now, later) = bind-some (advance s m) _ s' e in
    let (o1, next) = advance-Orphan s s1 m id (omega arith) o now in
    drive-Orphan s1 s' ms id (omega arith) o1 later

In-last : (id : ℕ) (ws : List ℕ) → In id (ws ++ id ∷ [])
In-last id [] = inl refl
In-last id (w ∷ ws) = inr (In-last id ws)

-- When registration succeeds and the first dial fails, `add_account` answers with an error but leaves
-- the account in the list, and whatever calls, supervisor moves and traces follow, the account never
-- gets a netstack: no task was started for it, and no call starts one.
pub failed_add_stays_down :
    (s s' : System) (config : WarpConfig) (ms : List Move)
    → (¬ In s.pool.next_id s.pool.supervised)
    → s.pool.next_id + length ms + 1 < 2 ^ 64
    → drive s (calls (adds (some config) none) ∷ ms) ≡ some s'
    → ((add_account s.pool (some config) none).0 ≡ err tunnel)
      × In s.pool.next_id (add_account s.pool (some config) none).1.workers
      × (net_of s'.pool s.pool.next_id ≡ none)
unfolding drive advance step
failed_add_stays_down s s' config ms alone room e =
    let p : Pool = (add_account s.pool (some config) none).1 in
    let (answer, list, down, tasks, next) = add_account_unsupervised s.pool config in
    let o : Orphan s.pool.next_id p = record {
      known = omega arith;
      down = down;
      alone = λ h. alone (subst (λ l. In s.pool.next_id l) tasks h);
    } in
    let s1 : System = record { pool = p; phases = phases_after s (adds (some config) none) } in
    (
      answer,
      subst (λ l. In s.pool.next_id l) (sym list) (In-last s.pool.next_id s.pool.workers),
      (drive-Orphan s1 s' ms s.pool.next_id (omega arith) o e).down,
    )
