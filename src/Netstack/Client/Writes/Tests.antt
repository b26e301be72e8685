-- ===== src/Netstack/Client/Writes/Tests.antt =====
-- Two writes and a drop, on a queue that runs and on one that is closed.
use warp_proxy.Base.{ℕ, ◌≡◌, ◌≢◌, refl, true, false, List, [], ◌∷◌, ◌++◌, map}
use warp_proxy.Base.{length}
use warp_proxy.Netstack.Actor.{send, close}
use warp_proxy.Netstack.Actor.Carried.Commands.{sends}
use warp_proxy.Netstack.Client.{send_cmd, wrote, broken_pipe, poll_write}
use warp_proxy.Netstack.Client.Writes.{queue, poll_writes, write_and_drop, write_and_drop-open}
use mathlib.Core.List.{flatten}

abbrev buffers : List (List ℕ)
buffers = (1 ∷ 2 ∷ []) ∷ [] ∷ (3 ∷ []) ∷ []

closed_test :
    (poll_writes (queue false []) 4 buffers).0 ≡ broken_pipe ∷ broken_pipe ∷ broken_pipe ∷ []
unfolding poll_writes poll_write send_cmd
closed_test = refl

write_and_drop-open_example :
    (write_and_drop (queue true (close 9 ∷ [])) 4 buffers ≡ (
      map (λ b. wrote (length b)) buffers,
      queue true (close 9 ∷ map (send 4) buffers ++ close 4 ∷ []),
    ))
    × (sends 4 (map (send 4) buffers ++ close 4 ∷ []) ≡ flatten buffers)
    × ((k : ℕ) → k ≢ 4 → sends k (map (send 4) buffers ++ close 4 ∷ []) ≡ [])
write_and_drop-open_example = write_and_drop-open 4 buffers (close 9 ∷ [])
