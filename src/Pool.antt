-- ===== src/Pool.antt =====
-- The account pool of crates/warp-masque/src/pool.rs: its state, and how a connection picks a worker.
--
-- A worker lives in an `Arc` that the pool's vector, its snapshots and its supervisor share. The
-- vector holds the workers' ids, and `store` is the memory behind them: `next_id` gives each worker
-- an id of its own. A netstack handle, a tunnel and a death signal are numbers that name them.
-- `usize` is 64 bits wide, and its additions wrap as in a release build.
pub mod Controls
pub mod Supervisor
pub mod Pick
pub mod RoundRobin
pub mod Tests
use warp_proxy.Base.{
  ℕ, zero, suc, ◌+◌, ◌%◌, ◌^◌, Bool, true, false, List, [], ◌∷◌, Option, none, some,
}
use warp_proxy.Base.{◌==◌, if◌then◌else◌, length, get_elem?}
use warp_proxy.Config.{WarpConfig}

-- `TraceInfo` of crates/warp-masque/src/trace.rs.
pub record TraceInfo : Type 0 where
  pub ip : List ℕ
  pub colo : List ℕ
  pub warp : List ℕ
  pub err : Option (List ℕ)

-- `Worker` with its `WorkerInner`. `rebuild` is the permit that `notify_one` leaves.
pub record Worker : Type 0 where
  pub rebuild : Bool
  pub config : WarpConfig
  pub net : Option ℕ
  pub tunnel : Option ℕ
  pub dead : Option ℕ
  pub assigned_v4 : ℕ
  pub trace : Option TraceInfo

-- `Ipv4Addr::UNSPECIFIED` is the address 0.
unfoldable pub new_worker : WarpConfig → Worker
new_worker config = record {
  rebuild = false;
  config = config;
  net = none;
  tunnel = none;
  dead = none;
  assigned_v4 = 0;
  trace = none;
}

unfoldable pub clear_net : Worker → Worker
clear_net w = record w { net = none; dead = none }

unfoldable pub set_trace : Worker → TraceInfo → Worker
set_trace w t = record w { trace = some t }

unfoldable pub notify_one : Worker → Worker
notify_one w = record w { rebuild = true }

pub record Pool : Type 0 where
  pub workers : List ℕ
  pub store : ℕ → Worker
  pub enabled : Bool
  pub pinned : ℕ
  pub http2 : Bool
  pub rr : ℕ
  pub next_id : ℕ
  pub rotate_secs : ℕ
  -- The workers for which `spawn_supervisor` has started a task.
  pub supervised : List ℕ

pub data Transport : Type 0 where
  http3 http2 : Transport

pub transport : Pool → Transport
transport p = if p.http2 then Transport.http2 else Transport.http3

-- The netstack of a worker, if it is up.
abbrev pub net_of : Pool → ℕ → Option ℕ
net_of p id = (p.store id).net

-- `workers.iter().find(|w| w.id == id)`
pub find : ℕ → List ℕ → Option ℕ
find id [] = none
find id (w ∷ ws) = if w == id then some w else find id ws

abbrev pub wrap : ℕ → ℕ
wrap n = n % 2 ^ 64

-- The `for off in 0..workers.len()` loop, with `count` rounds left.
pub scan : Pool → ℕ → ℕ → ℕ → Option ℕ
scan p start zero off = none
scan p start (suc count) off =
    let later = scan p start count (off + 1) in
    elim (get_elem? p.workers (wrap (start + off) % length p.workers)) [
      | none ↦ none
      | some id ↦ elim (net_of p id) [ some net ↦ some net | none ↦ later ]
    ]

-- `self.rr.fetch_add(1)` and the loop.
pub round_robin : Pool → Option ℕ × Pool
unfolding scan
round_robin p = (scan p p.rr (length p.workers) 0, record p { rr = wrap (p.rr + 1) })

pinned_net : Pool → Option ℕ
pinned_net p = elim (find p.pinned p.workers) [ none ↦ none | some id ↦ net_of p id ]

pub pick : Pool → Option ℕ × Pool
unfolding pinned_net
pick p = elim p.workers [
  | [] ↦ (none, p)
  | _ ↦
      if p.pinned == 0
      then round_robin p
      else (elim (pinned_net p) [ some net ↦ (some net, p) | none ↦ round_robin p ])
]
