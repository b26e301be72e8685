-- ===== src/Pool/Controls.antt =====
-- The operations of `Pool` that the control API and the daemon call. What registration and the tunnel
-- dial answer enters as an argument of the operation: `none` is their error.
pub mod Accounts
pub mod Calls
pub mod Down
use warp_proxy.Base.{
  ℕ, ◌+◌, max, Bool, true, false, ◌||◌, not, List, [], ◌∷◌, ◌++◌, Option, none, some,
}
use warp_proxy.Base.{◌==◌, leb, if◌then◌else◌, length, map}
use warp_proxy.Config.{WarpConfig}
use warp_proxy.Pool.{Pool, Worker, TraceInfo, new_worker, set_trace, notify_one, find, wrap, net_of}

-- The errors of the source by their cause.
pub data Error : Type 0 where
  no_such_account last_account registration tunnel : Error

pub data Result (A : Type 0) : Type 0 where
  ok : A → Result A
  err : Error → Result A

-- What a successful dial and `netstack::spawn` give.
pub record Built : Type 0 where
  pub tunnel : ℕ
  pub net : ℕ
  pub dead : ℕ
  pub assigned_v4 : ℕ

-- A write through the `Arc` of a worker.
unfoldable pub update : Pool → ℕ → (Worker → Worker) → Pool
update p id f = record p { store = λ j. if j == id then f (p.store j) else p.store j }

-- `Worker::new` and the push to the vector.
pub push_worker : Pool → ℕ → WarpConfig → Pool
unfolding update new_worker
push_worker p id config =
    update (record p { workers = p.workers ++ id ∷ [] }) id (λ _. new_worker config)

-- The end of `build_tunnel`, once the tunnel stands.
unfoldable pub commit : Pool → ℕ → Built → Pool
unfolding update
commit p id b = update p id (λ w. record w {
  tunnel = some b.tunnel;
  net = some b.net;
  assigned_v4 = b.assigned_v4;
  dead = some b.dead;
})

pub build_tunnel : Pool → ℕ → Option Built → Result (Unit {0}) × Pool
unfolding commit
build_tunnel p id none = (err tunnel, p)
build_tunnel p id (some b) = (ok tt, commit p id b)

pub spawn_supervisor : Pool → ℕ → Pool
spawn_supervisor p id = record p { supervised = id ∷ p.supervised }

-- `Pool::new` before its loop, and the loop over the configs, each with the answer of its dial.
pub empty_pool : Bool → (ℕ → Worker) → Pool
empty_pool http2 store = record {
  workers = [];
  store = store;
  enabled = true;
  pinned = 0;
  http2 = http2;
  rr = 0;
  next_id = 1;
  rotate_secs = 0;
  supervised = [];
}

pub add_configs : Pool → List (WarpConfig × Option Built) → Pool
unfolding push_worker build_tunnel spawn_supervisor
add_configs p [] = p
add_configs p ((config, dial) ∷ rest) =
    let id = p.next_id in
    let p1 = push_worker (record p { next_id = wrap (id + 1) }) id config in
    add_configs (spawn_supervisor (build_tunnel p1 id dial).1 id) rest

pub new : Bool → (ℕ → Worker) → List (WarpConfig × Option Built) → Pool
unfolding empty_pool add_configs
new http2 store configs = add_configs (empty_pool http2 store) configs

pub set_enabled : Pool → Bool → Pool
set_enabled p on = record p { enabled = on }

pub select : Pool → ℕ → Pool
select p id = record p { pinned = id }

-- `for w in self.snapshot() { if id == 0 || w.id == id { … } }`
pub for_workers : Pool → ℕ → List ℕ → (Worker → Worker) → Pool
unfolding update
for_workers p id [] f = p
for_workers p id (w ∷ ws) f = for_workers (if id == 0 || w == id then update p w f else p) id ws f

pub reconnect : Pool → ℕ → Pool
unfolding for_workers notify_one
reconnect p id = for_workers p id p.workers notify_one

pub set_http2 : Pool → Bool → Pool
unfolding reconnect
set_http2 p on = reconnect (record p { http2 = on }) 0

abbrev pub min_rotate_secs : ℕ
min_rotate_secs = 60

pub set_rotate_interval : Pool → ℕ → Pool
set_rotate_interval p secs = record p {
  rotate_secs = if secs == 0 then 0 else max secs min_rotate_secs;
}

-- `workers.first()`
first : List ℕ → Option ℕ
first [] = none
first (w ∷ ws) = some w

-- The worker that `rotate` means: the one named, or the pinned one, or the first.
pub rotate_target : Pool → ℕ → Option ℕ
unfolding first
rotate_target p id =
    if id == 0
    then (elim (find p.pinned p.workers) [ some w ↦ some w | none ↦ first p.workers ])
    else find id p.workers

pub rotate : Pool → ℕ → Option WarpConfig → Result (Unit {0}) × Pool
unfolding update notify_one
rotate p id fresh = elim (rotate_target p id) [
  | none ↦ (err no_such_account, p)
  | some w ↦ elim fresh [
    | none ↦ (err registration, p)
    | some config ↦ (ok tt, update p w (λ v. notify_one (record v { config = config })))
  ]
]

unfoldable pub add_account : Pool → Option WarpConfig → Option Built → Result ℕ × Pool
unfolding push_worker commit spawn_supervisor
add_account p fresh dial =
    let id = p.next_id in
    let p1 = record p { next_id = wrap (id + 1) } in
    elim fresh [
      | none ↦ (err registration, p1)
      | some config ↦
          let p2 = push_worker p1 id config in
          elim dial [
            | none ↦ (err tunnel, p2)
            | some b ↦ (ok id, spawn_supervisor (commit p2 id b) id)
          ]
    ]

-- `workers.retain(|w| w.id != id)`
pub retain_ne : ℕ → List ℕ → List ℕ
retain_ne id [] = []
retain_ne id (w ∷ ws) = if w == id then retain_ne id ws else w ∷ retain_ne id ws

pub remove_account : Pool → ℕ → Result (Unit {0}) × Pool
unfolding retain_ne
remove_account p id =
    let kept = retain_ne id p.workers in
    if leb (length p.workers) 1
    then (err last_account, p)
    else if length kept == length p.workers
    then (err no_such_account, record p { workers = kept })
    else (ok tt, record p { workers = kept; pinned = if p.pinned == id then 0 else p.pinned })

refreshed : (ℕ → TraceInfo) → Worker → Worker
unfolding set_trace
refreshed fetch w = elim w.net [ none ↦ w | some net ↦ set_trace w (fetch net) ]

-- `refresh_trace`: `fetch` is the answer of `fetch_trace` over a netstack.
pub refresh_trace : Pool → ℕ → (ℕ → TraceInfo) → Pool
unfolding for_workers refreshed
refresh_trace p id fetch = for_workers p id p.workers (refreshed fetch)

pub record AccountStatus : Type 0 where
  pub id : ℕ
  pub ready : Bool
  pub ip : ℕ
  pub trace : Option TraceInfo

-- `mode` is "pinned" where `is_pinned` holds, and "auto" where not.
pub record PoolStatus : Type 0 where
  pub enabled : Bool
  pub is_pinned : Bool
  pub pinned : ℕ
  pub http2 : Bool
  pub rotate_seconds : ℕ
  pub accounts : List AccountStatus

account_status : Pool → ℕ → AccountStatus
account_status p id = record {
  id = id;
  ready = elim (net_of p id) [ none ↦ false | some net ↦ true ];
  ip = (p.store id).assigned_v4;
  trace = (p.store id).trace;
}

pub status : Pool → PoolStatus
unfolding account_status
status p = record {
  enabled = p.enabled;
  is_pinned = not (p.pinned == 0);
  pinned = p.pinned;
  http2 = p.http2;
  rotate_seconds = p.rotate_secs;
  accounts = map (account_status p) p.workers;
}
