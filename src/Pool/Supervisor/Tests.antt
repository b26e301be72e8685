-- ===== src/Pool/Supervisor/Tests.antt =====
-- The tasks on a concrete pool.
use warp_proxy.Base.{◌≡◌, refl, arith, inl}
use warp_proxy.Base.{List, [], ◌∷◌, ◌++◌, none, some}
use warp_proxy.Base.{In, ℕ, zero, suc, ◌+◌, ◌%◌, ◌<◌, Option, some-injective, get_elem?, length}
use warp_proxy.Config.{WarpConfig}
use warp_proxy.Pool.Tests.{config_of, built, two, two-Inv}
use warp_proxy.Pool.{find, Pool, net_of, clear_net}
use warp_proxy.Pool.Controls.{err, tunnel, update, commit, add_account}
use warp_proxy.Pool.Controls.Calls.{step, adds, rotates}
use warp_proxy.Pool.Supervisor.{
  Move, System, watching, connecting, sleeping, died, dialed, drive, advance, turn, calls, turns,
}
use warp_proxy.Pool.Supervisor.Backoff.{turns_of, failures, reconnects}
use warp_proxy.Pool.Supervisor.Orphan.{failed_add_stays_down}
use warp_proxy.Pool.Supervisor.Rotator.{Rotated, ticks, rotator_reaches_all}

reconnects_example :
    let down : Pool = update two 1 clear_net in
    (turns_of two 1 watching (died ∷ failures 3) ≡ some (down, connecting 8))
    × (turns_of two 1 watching (died ∷ failures 3 ++ dialed none ∷ []) ≡ some (down, sleeping 8))
    × (net_of down 1 ≡ none)
    × (turns_of two 1 watching (died ∷ failures 3 ++ dialed (some built) ∷ [])
        ≡ some (commit down 1 built, watching))
    × (net_of (commit down 1 built) 1 ≡ some 7)
reconnects_example = reconnects two 1 3 built

abbrev start : System
start = record { pool = two; phases = λ j. watching }

abbrev history : List Move
history = turns 1 died ∷ turns 1 (dialed none) ∷ calls (rotates 3 (some (config_of 8))) ∷ []

ended : (s' : System) × (drive start (calls (adds (some (config_of 9)) none) ∷ history) ≡ some s')
unfolding drive advance turn step add_account find
ended = (_, refl)

failed_add_stays_down_example :
    ((add_account two (some (config_of 9)) none).0 ≡ err tunnel)
    × In 3 (add_account two (some (config_of 9)) none).1.workers
    × (net_of ended.0.pool 3 ≡ none)
failed_add_stays_down_example =
    failed_add_stays_down start ended.0 (config_of 9) history (ground arith) (omega arith) ended.1

-- The first of the two registrations fails.
abbrev two_rounds : List (Option WarpConfig)
two_rounds = none ∷ some (config_of 9) ∷ []

turn_of_one :
    (k : ℕ)
    → k < length two.workers
    → get_elem? two.workers ((1 + k) % length two.workers) ≡ some 1
    → (c : WarpConfig) × (get_elem? two_rounds k ≡ some (some c))
turn_of_one zero lt at = absurd (omega (arith, some-injective 2 1 at))
turn_of_one (suc zero) lt at = (config_of 9, refl)
turn_of_one (suc (suc k)) lt at = absurd (omega arith)

rotator_reaches_all_example : Rotated two_rounds (ticks two 1 two_rounds).0 1
rotator_reaches_all_example =
    rotator_reaches_all two 1 1 two_rounds two-Inv (omega arith) (inl refl) (omega arith)
      turn_of_one
