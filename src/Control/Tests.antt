-- ===== src/Control/Tests.antt =====
-- Concrete queries and requests, and the theorems at them.
use warp_proxy.Base.{◌≡◌, refl, true, false, [], ◌∷◌, none, some}
use warp_proxy.Base.Text.{text, same, split, split_once}
use warp_proxy.Pool.Tests.{two, config_of, built}
use warp_proxy.Control.{Answers, int_param, bool_param, as_usize, route}
use warp_proxy.Control.Head.{handle, read_head, presented, tail_lines, split_lines}
use warp_proxy.Control.Head.Guard.{Guarded, handle-Guarded}
use warp_proxy.Base.{ℕ, List, ◌⊎◌}
use warp_proxy.Control.Dispatch.{Served, route-Served}

slot_two :
    int_param (text "on=1&slot=-2") (text "slot") ≡ some (record { negative = true; magnitude = 2 })
unfolding int_param same split split_once
slot_two = refl

minus_two : as_usize (record { negative = true; magnitude = 2 }) ≡ 18446744073709551614
unfolding as_usize
minus_two = refl

switched_off : bool_param (text "on=no") (text "on") true ≡ false
unfolding bool_param same split split_once
switched_off = refl

answers : Answers
answers = record {
  fresh = some (config_of 9);
  dial = some built;
  trace = λ net. record { ip = []; colo = []; warp = []; err = none };
}

route-Served_example :
    Served two (text "/api/account/add") [] answers (route two (text "/api/account/add") [] answers)
route-Served_example = route-Served two (text "/api/account/add") [] answers

handle-Guarded_example :
    ((buf : List ℕ) × (read_head [] (some (text "GET /api/status HTTP/1.1") ∷ []) ≡ some buf)
      × (presented (tail_lines (split_lines buf)) ≡ text "secret"))
    ⊎ Guarded two
        (handle (λ b. b) two answers (text "secret") (some (text "GET /api/status HTTP/1.1") ∷ []))
handle-Guarded_example =
    handle-Guarded (λ b. b) two answers (text "secret")
      (some (text "GET /api/status HTTP/1.1") ∷ [])
