-- ===== src/Pool/Supervisor/Backoff.antt =====
-- How a supervisor reconnects: the delays between its attempts, and what it ends with.
use warp_proxy.Base.{ℕ, zero, suc, ◌^◌, ◌≡◌, refl, ap, ◌∙◌, arith, inl, inr}
use warp_proxy.Base.{List, [], ◌∷◌, ◌++◌, Option, none, some, min, ◌>>=◌, Option-cases}
use native.Mathlib.Numerals.{unary_clauses}
use warp_proxy.Pool.{Pool, net_of, clear_net}
use warp_proxy.Pool.Controls.{Built, update, commit}
use warp_proxy.Pool.Supervisor.{
  Phase, watching, connecting, sleeping, Wake, died, dialed, elapsed, turn, next_backoff,
  max_backoff, loop_top,
}

-- A supervisor alone, through several moves.
pub turns_of : Pool → ℕ → Phase → List Wake → Option (Pool × Phase)
unfolding turn
turns_of p id phase [] = some (p, phase)
turns_of p id phase (w ∷ ws) = do r ← turn p id phase w; turns_of r.0 id r.1 ws

-- `n` attempts that fail, each followed by the whole of its sleep.
pub failures : ℕ → List Wake
failures zero = []
failures (suc n) = failures n ++ dialed none ∷ elapsed ∷ []

turns_of-append :
    (p : Pool) (id : ℕ) (phase : Phase) (ws vs : List Wake)
    → turns_of p id phase (ws ++ vs) ≡ (turns_of p id phase ws >>= λ r. turns_of r.0 id r.1 vs)
unfolding turns_of
turns_of-append p id phase [] vs = refl
turns_of-append p id phase (w ∷ ws) vs = elim (Option-cases (turn p id phase w)) [
  | inl e ↦ rw e refl
  | inr (r, e) ↦ rw e (turns_of-append r.0 id r.1 ws vs)
]

-- The delay of the next failure behind `n` of them: 1, 2, 4, 8, 16, and from then on 30.
pub delay : ℕ → ℕ
delay n = min (2 ^ n) max_backoff

delay-suc : (n : ℕ) → next_backoff (delay n) ≡ delay (suc n)
unfolding delay next_backoff
delay-suc n = simp unary_clauses (omega arith)

failures_sleep :
    (p : Pool) (id n : ℕ)
    → turns_of p id (connecting 1) (failures n) ≡ some (p, connecting (delay n))
unfolding turns_of turn failures delay
failures_sleep p id zero = refl
failures_sleep p id (suc n) =
    turns_of-append p id (connecting 1) (failures n) _
    ∙ rw (failures_sleep p id n) (ap (λ b. some (p, connecting b)) (delay-suc n))

clear_net_down : (p : Pool) (id : ℕ) → net_of (update p id clear_net) id ≡ none
unfolding update clear_net
clear_net_down p id = ground arith

commit_up : (p : Pool) (id : ℕ) (b : Built) → net_of (commit p id b) id ≡ some b.net
unfolding update commit
commit_up p id b = ground arith

commit_watched :
    (p : Pool) (id : ℕ) (b : Built)
    → Path
        (Option (Pool × Phase))
        (some (commit p id b, loop_top (commit p id b) id))
        (some (commit p id b, watching))
unfolding loop_top update commit
commit_watched p id b = ground arith

-- A supervisor whose tunnel dies takes the netstack down and dials again however often the dial fails:
-- when n dials have failed and their sleeps are over it dials once more, and if that one fails, too, the
-- sleep is of min (2 ^ n) 30 seconds, so 1 second after the first failure, 2 after the second. With the
-- first dial that succeeds the worker's netstack is the new one and the supervisor watches it.
pub reconnects :
    (p : Pool) (id n : ℕ) (b : Built)
    → (turns_of p id watching (died ∷ failures n)
        ≡ some (update p id clear_net, connecting (min (2 ^ n) 30)))
      × (turns_of p id watching (died ∷ failures n ++ dialed none ∷ [])
          ≡ some (update p id clear_net, sleeping (min (2 ^ n) 30)))
      × (net_of (update p id clear_net) id ≡ none)
      × (turns_of p id watching (died ∷ failures n ++ dialed (some b) ∷ [])
          ≡ some (commit (update p id clear_net) id b, watching))
      × (net_of (commit (update p id clear_net) id b) id ≡ some b.net)
unfolding turns_of turn delay
reconnects p id n b =
    let q = update p id clear_net in
    (
      failures_sleep q id n,
      turns_of-append q id (connecting 1) (failures n) _ ∙ rw (failures_sleep q id n) refl,
      clear_net_down p id,
      turns_of-append q id (connecting 1) (failures n) _
          ∙ rw (failures_sleep q id n) (commit_watched q id b),
      commit_up q id b,
    )
