-- ===== src/Pool/Supervisor.antt =====
-- The tasks of crates/warp-masque/src/pool.rs: the supervisor of a worker (`spawn_supervisor`), the
-- rotator (`spawn_rotator`), and the whole pool of them beside the control calls.
--
-- A task moves from one `await` to the next. What an `await` returns enters as a `Wake`, and
-- durations are in seconds. A control call is one step.
pub mod Backoff
pub mod Orphan
pub mod Rotator
mod Tests
use warp_proxy.Base.{ℕ, ◌+◌, ◌*◌, ◌%◌, Bool, true, false, List, [], ◌∷◌, Option, none, some, min}
use warp_proxy.Base.{◌>>=◌, ◌==◌, if◌then◌else◌, length, get_elem?, In}
use warp_proxy.Config.{WarpConfig}
use warp_proxy.Pool.{find, wrap, Pool, TraceInfo, Worker, clear_net, set_trace}
use warp_proxy.Pool.Controls.Calls.{Call, step, adds}
use warp_proxy.Pool.Controls.{Built, update, commit, rotate}

abbrev pub max_backoff : ℕ
max_backoff = 30

-- Where the supervisor's task stands.
pub data Phase : Type 0 where
  watching : Phase
  connecting sleeping : ℕ → Phase
  stopped : Phase

-- What its `await` returns: the death signal, a permit of `rebuild`, the dial, the end of the sleep;
-- `dropped` is a failed `weak.upgrade()`.
pub data Wake : Type 0 where
  died notified : Wake
  dialed : Option Built → Wake
  elapsed dropped : Wake

-- The head of the loop: the task waits for the tunnel's death if there is one, and dials if not.
pub loop_top : Pool → ℕ → Phase
loop_top p id = elim (p.store id).dead [ some d ↦ watching | none ↦ connecting 1 ]

-- `notified()` returns where there is a permit, and takes it.
pub take_permit : Pool → ℕ → Option Pool
unfolding update
take_permit p id =
    if (p.store id).rebuild then some (update p id (λ w. record w { rebuild = false })) else none

pub next_backoff : ℕ → ℕ
next_backoff backoff = min (backoff * 2) max_backoff

-- One move of the supervisor of worker `id`; `none` where its `await` cannot return this.
pub turn : Pool → ℕ → Phase → Wake → Option (Pool × Phase)
unfolding loop_top take_permit next_backoff update commit clear_net
turn p id watching died = some (update p id clear_net, connecting 1)
turn p id watching notified = do q ← take_permit p id; some (update q id clear_net, connecting 1)
turn p id (connecting backoff) (dialed none) = some (p, sleeping backoff)
turn p id (connecting backoff) (dialed (some b)) = some (commit p id b, loop_top (commit p id b) id)
turn p id (connecting backoff) dropped = some (p, stopped)
turn p id (sleeping backoff) elapsed = some (p, connecting (next_backoff backoff))
turn p id (sleeping backoff) notified = do
  q ← take_permit p id
  some (q, connecting (next_backoff backoff))
turn p id _ _ = none

-- A round of the rotator: it stands behind the sleep, with its counter `idx`.
pub tick : Pool → ℕ → Option WarpConfig → Pool × ℕ
tick p idx fresh =
    if p.rotate_secs == 0 then (p, idx) else (elim (get_elem? p.workers (idx % length p.workers)) [
      | none ↦ (p, idx)
      | some id ↦ ((rotate p id fresh).1, wrap (idx + 1))
    ])

-- The pool with the phase of each task; the phase of a worker without a task is not read.
pub record System : Type 0 where
  pub pool : Pool
  pub phases : ℕ → Phase

-- A control call, a move of a supervisor, or the answer to the trace that `spawn_trace` asked for.
pub data Move : Type 0 where
  calls : Call → Move
  turns : ℕ → Wake → Move
  traced : ℕ → TraceInfo → Move

-- The task that `add_account` spawns starts at the head of its loop.
phases_after : System → Call → ℕ → Phase
unfolding loop_top
phases_after s (adds fresh dial) j =
    if j == s.pool.next_id then loop_top (step s.pool (adds fresh dial)) j else s.phases j
phases_after s c j = s.phases j

turned : System → ℕ → Pool × Phase → System
turned s id (p, phase) = record { pool = p; phases = λ j. if j == id then phase else s.phases j }

pub advance : System → Move → Option System
unfolding turn turned phases_after update set_trace
advance s (calls c) = some (record { pool = step s.pool c; phases = phases_after s c })
advance s (turns id wake) = do
  w ← find id s.pool.supervised
  r ← turn s.pool id (s.phases id) wake
  some (turned s id r)
advance s (traced id t) =
    some (record { pool = update s.pool id (λ w. set_trace w t); phases = s.phases })

pub drive : System → List Move → Option System
unfolding advance
drive s [] = some s
drive s (m ∷ ms) = do s' ← advance s m; drive s' ms
