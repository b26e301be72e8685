-- ===== src/Pool/Controls/Calls.antt =====
-- Any history of calls of the pool's operations: what always holds, and what a failed `add_account`
-- leaves for good.
use warp_proxy.Base.{ℕ, suc, ◌+◌, ◌^◌, ◌≤◌, ◌<◌, ◌≡◌, refl, arith, inl, inr, ◌⊎◌}
use warp_proxy.Base.{Bool, List, [], ◌∷◌, ◌++◌, Option, none, some}
use warp_proxy.Base.{leb, ◌==◌, Bool-cases, length, length-append}
use warp_proxy.Config.{WarpConfig}
use warp_proxy.Pool.{Pool, Worker, TraceInfo, wrap, notify_one, pick, round_robin}
use warp_proxy.Pool.Controls.{
  Built, update, push_worker, commit, spawn_supervisor, rotate, add_account, retain_ne,
  remove_account, set_rotate_interval, set_enabled, select, for_workers, reconnect, set_http2,
  refresh_trace, push_worker, build_tunnel, empty_pool, add_configs, new, refreshed,
  min_rotate_secs,
}

-- A call with what its environment answers.
pub data Call : Type 0 where
  picks : Call
  toggles : Bool → Call
  selects : ℕ → Call
  reconnects : ℕ → Call
  rotates : ℕ → Option WarpConfig → Call
  switches : Bool → Call
  paces : ℕ → Call
  adds : Option WarpConfig → Option Built → Call
  removes : ℕ → Call
  traces : ℕ → (ℕ → TraceInfo) → Call

unfoldable pub step : Pool → Call → Pool
step p picks = (pick p).1
step p (toggles on) = set_enabled p on
step p (selects id) = select p id
step p (reconnects id) = reconnect p id
step p (rotates id fresh) = (rotate p id fresh).1
step p (switches on) = set_http2 p on
step p (paces secs) = set_rotate_interval p secs
step p (adds fresh dial) = (add_account p fresh dial).1
step p (removes id) = (remove_account p id).1
step p (traces id fetch) = refresh_trace p id fetch

pub run : Pool → List Call → Pool
run p [] = p
run p (c ∷ cs) = run (step p c) cs

-- The ids of the list rise, from `lo` on and below `hi`; so they are distinct.
abbrev pub Rising : ℕ → List ℕ → ℕ → Type 0
Rising lo [] hi = lo ≤ hi
Rising lo (w ∷ ws) hi = (lo ≤ w) × Rising (suc w) ws hi

-- Ids are positive (0 means "auto" or "all"), distinct and below `next_id`, the pool is not empty, and
-- the rotation is off or at least a minute apart.
pub record Inv (p : Pool) : Type 0 where
  pub ids : Rising 1 p.workers p.next_id
  pub some_worker : 1 ≤ length p.workers
  pub cadence : (p.rotate_secs ≡ 0) ⊎ (min_rotate_secs ≤ p.rotate_secs)

-- What every call but `adds` and `removes` leaves alone.
pub record Same (p q : Pool) : Type 0 where
  pub workers : q.workers ≡ p.workers
  pub next_id : q.next_id ≡ p.next_id
  pub rotate_secs : q.rotate_secs ≡ p.rotate_secs
  pub supervised : q.supervised ≡ p.supervised

pub for_workers-Same :
    (p : Pool) (id : ℕ) (ws : List ℕ) (f : Worker → Worker) → Same p (for_workers p id ws f)
unfolding for_workers update
for_workers-Same p id [] f = record {
  workers = refl;
  next_id = refl;
  rotate_secs = refl;
  supervised = refl;
}
for_workers-Same p id (w ∷ ws) f =
    ground (arith, for_workers-Same p id ws f, for_workers-Same (update p w f) id ws f)

pub pick-Same : (p : Pool) → Same p (pick p).1
unfolding pick round_robin
pick-Same p = ground arith

pub rotate-Same : (p : Pool) (id : ℕ) (fresh : Option WarpConfig) → Same p (rotate p id fresh).1
unfolding rotate
rotate-Same p id fresh = ground arith

-- The list of ids under the two operations that change it.
Rising-push : (lo hi : ℕ) (ws : List ℕ) → Rising lo ws hi → Rising lo (ws ++ hi ∷ []) (suc hi)
Rising-push lo hi [] h = (h, omega arith)
Rising-push lo hi (w ∷ ws) h = (h.0, Rising-push (suc w) hi ws h.1)

Rising-wider :
    (lo lo' hi hi' : ℕ) (ws : List ℕ) → lo ≤ lo' → hi ≤ hi' → Rising lo' ws hi → Rising lo ws hi'
Rising-wider lo lo' hi hi' [] h k r = omega arith
Rising-wider lo lo' hi hi' (w ∷ ws) h k r =
    (omega arith, Rising-wider (suc w) (suc w) hi hi' ws (omega arith) k r.1)

retain_ne-Rising : (lo hi id : ℕ) (ws : List ℕ) → Rising lo ws hi → Rising lo (retain_ne id ws) hi
unfolding retain_ne
retain_ne-Rising lo hi id [] r = r
retain_ne-Rising lo hi id (w ∷ ws) r = elim (Bool-cases (w == id)) [
  | inl same ↦ rw same (
      Rising-wider lo (suc w) hi hi _ (omega arith) (omega arith)
        (retain_ne-Rising (suc w) hi id ws r.1))
  | inr other ↦ rw other (r.0, retain_ne-Rising (suc w) hi id ws r.1)
]

retain_ne_below : (lo hi id : ℕ) (ws : List ℕ) → id < lo → Rising lo ws hi → retain_ne id ws ≡ ws
unfolding retain_ne
retain_ne_below lo hi id [] h r = refl
retain_ne_below lo hi id (w ∷ ws) h r = ground (arith, retain_ne_below (suc w) hi id ws)

length-retain_ne-Rising :
    (lo hi id : ℕ) (ws : List ℕ) → Rising lo ws hi → length ws ≤ length (retain_ne id ws) + 1
unfolding retain_ne
length-retain_ne-Rising lo hi id [] r = omega arith
length-retain_ne-Rising lo hi id (w ∷ ws) r =
    ground (arith, retain_ne_below (suc w) hi w ws, length-retain_ne-Rising (suc w) hi id ws)

Same-Inv : {p q : Pool} → Same p q → Inv p → Inv q
Same-Inv {p} {q} s v = record {
  ids = rw (s.workers, s.next_id) v.ids;
  some_worker = rw s.workers v.some_worker;
  cadence = rw s.rotate_secs v.cadence;
}

remove_account-Inv : (p : Pool) (id : ℕ) → Inv p → Inv (remove_account p id).1
unfolding remove_account
remove_account-Inv p id v =
    let fewer = retain_ne-Rising 1 p.next_id id p.workers v.ids in
    let enough = length-retain_ne-Rising 1 p.next_id id p.workers v.ids in
    let ids = v.ids in
    let some_worker = v.some_worker in
    let cadence = v.cadence in
    elim (Bool-cases (leb (length p.workers) 1)) [
      | inl few ↦ rw few v
      | inr many ↦
          let more : 2 ≤ length p.workers = ground arith in
          elim (Bool-cases (length (retain_ne id p.workers) == length p.workers)) [
            | inl same ↦
                rw (many, same)
                  (record { ids = fewer; some_worker = omega arith; cadence = cadence })
            | inr other ↦
                rw (many, other)
                  (record { ids = fewer; some_worker = omega arith; cadence = cadence })
          ]
    ]

pushed :
    (p : Pool)
    → p.next_id + 1 < 2 ^ 64
    → Rising 1 p.workers p.next_id
    → Rising 1 (p.workers ++ p.next_id ∷ []) (wrap (p.next_id + 1))
      × (1 ≤ length (p.workers ++ p.next_id ∷ []))
pushed p room r = (
  Rising-wider 1 1 (suc p.next_id) (wrap (p.next_id + 1)) _ (omega arith) (omega arith)
      (Rising-push 1 p.next_id p.workers r),
  rw (length-append p.workers (p.next_id ∷ [])) (omega arith),
)

add_account-Inv :
    (p : Pool) (fresh : Option WarpConfig) (dial : Option Built)
    → p.next_id + 1 < 2 ^ 64
    → Inv p
    → Inv (add_account p fresh dial).1
unfolding add_account
add_account-Inv p none dial room v = record {
  ids =
      Rising-wider 1 1 p.next_id (wrap (p.next_id + 1)) p.workers (omega arith) (omega arith) v.ids;
  some_worker = v.some_worker;
  cadence = v.cadence;
}
add_account-Inv p (some config) none room v = record {
  ids = (pushed p room v.ids).0;
  some_worker = (pushed p room v.ids).1;
  cadence = v.cadence;
}
add_account-Inv p (some config) (some b) room v = record {
  ids = (pushed p room v.ids).0;
  some_worker = (pushed p room v.ids).1;
  cadence = v.cadence;
}

-- Every call keeps the invariant.
pub step-Inv : (p : Pool) (c : Call) → p.next_id + 1 < 2 ^ 64 → Inv p → Inv (step p c)
unfolding step set_enabled select reconnect set_http2 refresh_trace set_rotate_interval
step-Inv p picks room v = Same-Inv (pick-Same p) v
step-Inv p (toggles on) room v =
    Same-Inv (record { workers = refl; next_id = refl; rotate_secs = refl; supervised = refl }) v
step-Inv p (selects id) room v =
    Same-Inv (record { workers = refl; next_id = refl; rotate_secs = refl; supervised = refl }) v
step-Inv p (reconnects id) room v = Same-Inv (for_workers-Same p id p.workers notify_one) v
step-Inv p (rotates id fresh) room v = Same-Inv (rotate-Same p id fresh) v
step-Inv p (switches on) room v =
    Same-Inv (for_workers-Same (record p { http2 = on }) 0 p.workers notify_one)
      (record { ids = v.ids; some_worker = v.some_worker; cadence = v.cadence })
step-Inv p (paces secs) room v = record {
  ids = v.ids;
  some_worker = v.some_worker;
  cadence = ground arith;
}
step-Inv p (adds fresh dial) room v = add_account-Inv p fresh dial room v
step-Inv p (removes id) room v = remove_account-Inv p id v
step-Inv p (traces id fetch) room v = Same-Inv (for_workers-Same p id p.workers (refreshed fetch)) v

-- The counter of the ids never falls, and grows by one at most.
pub step-next_id :
    (p : Pool) (c : Call)
    → p.next_id + 1 < 2 ^ 64
    → (p.next_id ≤ (step p c).next_id) × ((step p c).next_id ≤ p.next_id + 1)
unfolding step set_enabled select reconnect set_http2 refresh_trace set_rotate_interval add_account
    remove_account
step-next_id p picks room = let same = (pick-Same p).next_id in (omega arith, omega arith)
step-next_id p (toggles on) room = (omega arith, omega arith)
step-next_id p (selects id) room = (omega arith, omega arith)
step-next_id p (reconnects id) room =
    let same = (for_workers-Same p id p.workers notify_one).next_id in (omega arith, omega arith)
step-next_id p (rotates id fresh) room =
    let same = (rotate-Same p id fresh).next_id in (omega arith, omega arith)
step-next_id p (switches on) room =
    let same = (for_workers-Same (record p { http2 = on }) 0 p.workers notify_one).next_id in
    (omega arith, omega arith)
step-next_id p (paces secs) room = (omega arith, omega arith)
step-next_id p (adds fresh dial) room = (ground arith, ground arith)
step-next_id p (removes id) room = (ground arith, ground arith)
step-next_id p (traces id fetch) room =
    let same = (for_workers-Same p id p.workers (refreshed fetch)).next_id in
    (omega arith, omega arith)

-- After any history of calls, shorter than the counter is wide, the invariant holds.
pub run-Inv : (p : Pool) (cs : List Call) → p.next_id + length cs < 2 ^ 64 → Inv p → Inv (run p cs)
unfolding run
run-Inv p [] room v = v
run-Inv p (c ∷ cs) room v =
    let next = step-next_id p c (omega arith) in
    run-Inv (step p c) cs (omega arith) (step-Inv p c (omega arith) v)

-- What `add_configs` builds up.
record Grown (p : Pool) : Type 0 where
  ids : Rising 1 p.workers p.next_id
  cadence : p.rotate_secs ≡ 0

-- One round of the loop over the configs.
joined : Pool → WarpConfig → Option Built → Pool
unfolding push_worker build_tunnel spawn_supervisor
joined p config dial =
    spawn_supervisor
      (build_tunnel (push_worker (record p { next_id = wrap (p.next_id + 1) }) p.next_id config)
        p.next_id dial).1
      p.next_id

joined-Grown :
    (p : Pool) (config : WarpConfig) (dial : Option Built)
    → p.next_id + 1 < 2 ^ 64
    → Grown p
    → Grown (joined p config dial)
      × ((joined p config dial).next_id ≡ wrap (p.next_id + 1))
      × (1 ≤ length (joined p config dial).workers)
unfolding joined commit update
joined-Grown p config none room g =
    (record { ids = (pushed p room g.ids).0; cadence = g.cadence }, refl, (pushed p room g.ids).1)
joined-Grown p config (some b) room g =
    (record { ids = (pushed p room g.ids).0; cadence = g.cadence }, refl, (pushed p room g.ids).1)

add_configs-Grown :
    (p : Pool) (config : WarpConfig) (dial : Option Built) (rest : List (WarpConfig × Option Built))
    → p.next_id + length rest + 1 < 2 ^ 64
    → Grown p
    → Inv (add_configs p ((config, dial) ∷ rest))
unfolding add_configs joined
add_configs-Grown p config dial [] room g =
    let (g1, next, some_worker) = joined-Grown p config dial (omega arith) g in
    record { ids = g1.ids; some_worker = some_worker; cadence = inl g1.cadence }
add_configs-Grown p config dial ((config1, dial1) ∷ rest) room g =
    let (g1, next, some_worker) = joined-Grown p config dial (omega arith) g in
    add_configs-Grown (joined p config dial) config1 dial1 rest (omega arith) g1

-- The pool that starts on at least one config has the invariant, whichever dials fail.
pub new-Inv :
    (http2 : Bool) (store : ℕ → Worker) (config : WarpConfig) (dial : Option Built)
    (rest : List (WarpConfig × Option Built))
    → length rest + 2 < 2 ^ 64
    → Inv (new http2 store ((config, dial) ∷ rest))
unfolding new empty_pool
new-Inv http2 store config dial rest room =
    add_configs-Grown (empty_pool http2 store) config dial rest (omega arith)
      (record { ids = omega arith; cadence = refl })
