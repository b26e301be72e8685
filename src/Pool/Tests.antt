-- ===== src/Pool/Tests.antt =====
-- Concrete pools, and the theorems at them.
use warp_proxy.Base.{ℕ, ◌+◌, ◌≡◌, ◌≢◌, ◌↔◌, refl, arith, inl, inr}
use warp_proxy.Base.{true, false, [], ◌∷◌, none, some}
use warp_proxy.Base.{◌==◌, if◌then◌else◌, In}
use warp_proxy.Config.{WarpConfig}
use warp_proxy.Pool.{Pool, Worker, pick, round_robin}
use warp_proxy.Pool.Pick.{pick_ready}
use warp_proxy.Pool.RoundRobin.{AllUp, picks, picks_fair}
use warp_proxy.Pool.Controls.{ok, Built, rotate_target, remove_account}
use warp_proxy.Pool.Controls.Accounts.{remove_account_removes, rotate_target_named}
use warp_proxy.Pool.Controls.Calls.{Inv, run, run-Inv, adds, removes, paces}

abbrev pub config_of : ℕ → WarpConfig
config_of n = record {
  private_key = n ∷ [];
  endpoint_v4 = [];
  endpoint_v6 = [];
  endpoint_h2_v4 = [];
  endpoint_h2_v6 = [];
  endpoint_pub_key = [];
  id = [];
  access_token = [];
  ipv4 = [];
  ipv6 = [];
}

abbrev pub built : Built
built = record { tunnel = 5; net = 7; dead = 6; assigned_v4 = 0x0a000002 }

abbrev up_store : ℕ → Worker
up_store id = record {
  rebuild = false;
  config = config_of id;
  net = some (10 + id);
  tunnel = some id;
  dead = some id;
  assigned_v4 = 0;
  trace = none;
}

abbrev pub two : Pool
two = record {
  workers = 1 ∷ 2 ∷ [];
  store = up_store;
  enabled = true;
  pinned = 0;
  http2 = false;
  rr = 5;
  next_id = 3;
  rotate_secs = 60;
  supervised = 2 ∷ 1 ∷ [];
}

abbrev pinned_two : Pool
pinned_two = record two { pinned = 2 }

two-AllUp : AllUp two
two-AllUp id member = ground arith

pub two-Inv : Inv two
two-Inv = record {
  ids = (omega arith, (omega arith, omega arith));
  some_worker = omega arith;
  cadence = inr (omega arith);
}

pick_second : (pick two).0 ≡ some 12
unfolding pick round_robin
pick_second = refl

pick_ready_example : (found : ℕ) × ((pick two).0 ≡ some found)
pick_ready_example = pick_ready two 1 11 (omega arith) (inl refl) refl

picks_fair_example : (picks 2 two).0 ≡ some 12 ∷ some 11 ∷ []
picks_fair_example = picks_fair two 1 2 refl two-AllUp (omega arith) (omega arith) (omega arith)

abbrev second : ℕ
second = 2

remove_account_removes_example :
    ((remove_account two 1).0 ≡ ok tt)
    × (In second (remove_account two 1).1.workers ↔ (In second two.workers × (second ≢ 1)))
    × ((remove_account two 1).1.pinned ≡ (if two.pinned == 1 then 0 else two.pinned))
    × ((remove_account two 1).1.store ≡ two.store)
remove_account_removes_example = remove_account_removes two 1 2 (omega arith) (inl refl)

run-Inv_example : Inv (run two (adds (some (config_of 9)) none ∷ removes 1 ∷ paces 5 ∷ []))
run-Inv_example =
    run-Inv two (adds (some (config_of 9)) none ∷ removes 1 ∷ paces 5 ∷ []) (omega arith) two-Inv

rotate_target_one : rotate_target two 1 ≡ some 1
rotate_target_one = rotate_target_named two 1 (omega arith) (inl refl)
