-- ===== src/Pool/Controls/Down.antt =====
-- A worker without a netstack under the calls of the pool: none of them brings it up.
use warp_proxy.Base.{ℕ, ◌<◌, ◌≡◌, ◌≢◌, refl, inl, inr, sym, arith}
use warp_proxy.Base.{◌||◌, List, [], ◌∷◌, Option, none, some}
use warp_proxy.Base.{subst, In, ◌==◌, Bool-cases}
use warp_proxy.Config.{WarpConfig}
use warp_proxy.Pool.{Pool, Worker, TraceInfo, net_of, notify_one, set_trace, pick, round_robin}
use warp_proxy.Pool.Controls.{
  Built, update, push_worker, commit, spawn_supervisor, rotate, add_account, remove_account,
  set_rotate_interval, set_enabled, select, for_workers, reconnect, set_http2, refresh_trace,
  refreshed,
}
use warp_proxy.Pool.Controls.Calls.{
  Call, step, picks, toggles, selects, reconnects, rotates, switches, paces, adds, removes, traces,
  pick-Same, rotate-Same, for_workers-Same,
}

-- A write that leaves a missing netstack missing.
Quiet : (Worker → Worker) → Type 0
Quiet f = (w : Worker) → w.net ≡ none → (f w).net ≡ none

update_down :
    (p : Pool) (id w : ℕ) (f : Worker → Worker)
    → Quiet f
    → net_of p id ≡ none
    → net_of (update p w f) id ≡ none
unfolding Quiet update
update_down p id w f quiet down = ground (arith, quiet (p.store id) down)

for_workers_down :
    (p : Pool) (id a : ℕ) (ws : List ℕ) (f : Worker → Worker)
    → Quiet f
    → net_of p id ≡ none
    → net_of (for_workers p a ws f) id ≡ none
unfolding for_workers
for_workers_down p id a [] f quiet down = down
for_workers_down p id a (w ∷ ws) f quiet down = elim (Bool-cases (a == 0 || w == a)) [
  | inl meant ↦
      rw meant (for_workers_down (update p w f) id a ws f quiet (update_down p id w f quiet down))
  | inr other ↦ rw other (for_workers_down p id a ws f quiet down)
]

notify_one-Quiet : Quiet notify_one
unfolding Quiet notify_one
notify_one-Quiet w down = down

refreshed-Quiet : (fetch : ℕ → TraceInfo) → Quiet (refreshed fetch)
unfolding Quiet refreshed set_trace
refreshed-Quiet fetch w down = rw down refl

pick_down : (p : Pool) (id : ℕ) → net_of p id ≡ none → net_of (pick p).1 id ≡ none
unfolding pick round_robin
pick_down p id down = ground arith

rotate_down :
    (p : Pool) (id a : ℕ) (fresh : Option WarpConfig)
    → net_of p id ≡ none
    → net_of (rotate p a fresh).1 id ≡ none
unfolding rotate update notify_one
rotate_down p id a fresh down = ground arith

add_account_down :
    (p : Pool) (id : ℕ) (fresh : Option WarpConfig) (dial : Option Built)
    → id < p.next_id
    → net_of p id ≡ none
    → net_of (add_account p fresh dial).1 id ≡ none
unfolding add_account push_worker commit update spawn_supervisor
add_account_down p id none dial old down = down
add_account_down p id (some config) none old down = ground arith
add_account_down p id (some config) (some b) old down = ground arith

-- No call of the control API brings up a worker that is down.
pub step_down :
    (p : Pool) (c : Call) (id : ℕ)
    → id < p.next_id
    → net_of p id ≡ none
    → net_of (step p c) id ≡ none
unfolding step set_enabled select reconnect set_http2 refresh_trace set_rotate_interval
    remove_account
step_down p picks id old down = pick_down p id down
step_down p (toggles on) id old down = down
step_down p (selects a) id old down = down
step_down p (reconnects a) id old down =
    for_workers_down p id a p.workers notify_one notify_one-Quiet down
step_down p (rotates a fresh) id old down = rotate_down p id a fresh down
step_down p (switches on) id old down =
    for_workers_down (record p { http2 = on }) id 0 p.workers notify_one notify_one-Quiet down
step_down p (paces secs) id old down = down
step_down p (adds fresh dial) id old down = add_account_down p id fresh dial old down
step_down p (removes a) id old down = ground arith
step_down p (traces a fetch) id old down =
    for_workers_down p id a p.workers (refreshed fetch) (refreshed-Quiet fetch) down

-- The tasks that a call starts: at most that of the account which it adds.
pub step-supervised :
    (p : Pool) (c : Call) (id : ℕ)
    → id ≢ p.next_id
    → In id (step p c).supervised
    → In id p.supervised
unfolding step set_enabled select reconnect set_http2 refresh_trace set_rotate_interval
    remove_account add_account spawn_supervisor
step-supervised p picks id ne h = subst (λ l. In id l) (pick-Same p).supervised h
step-supervised p (toggles on) id ne h = h
step-supervised p (selects a) id ne h = h
step-supervised p (reconnects a) id ne h =
    subst (λ l. In id l) (for_workers-Same p a p.workers notify_one).supervised h
step-supervised p (rotates a fresh) id ne h =
    subst (λ l. In id l) (rotate-Same p a fresh).supervised h
step-supervised p (switches on) id ne h =
    subst (λ l. In id l)
      (for_workers-Same (record p { http2 = on }) 0 p.workers notify_one).supervised h
step-supervised p (paces secs) id ne h = h
step-supervised p (adds none dial) id ne h = h
step-supervised p (adds (some config) none) id ne h = h
step-supervised p (adds (some config) (some b)) id ne (inl e) = absurd (ne (sym e))
step-supervised p (adds (some config) (some b)) id ne (inr m) = m
step-supervised p (removes a) id ne h = ground arith
step-supervised p (traces a fetch) id ne h =
    subst (λ l. In id l) (for_workers-Same p a p.workers (refreshed fetch)).supervised h
