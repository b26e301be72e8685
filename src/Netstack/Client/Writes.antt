-- ===== src/Netstack/Client/Writes.antt =====
-- What a client's writes put into the queue.
mod Tests
use warp_proxy.Base.{
  ℕ, ◌≡◌, ◌≢◌, refl, ap, sym, ◌∙◌, Bool, true, false, List, [], ◌∷◌, ◌++◌, map, Option, some, none,
  append_assoc, append-nil,
}
use warp_proxy.Base.{if◌then◌else◌, length, ◌==◌, ==_refl, arith, Bool-cases, inl, inr}
use warp_proxy.Netstack.Actor.{Cmd, send, close, inbound}
use warp_proxy.Netstack.Actor.Carried.Commands.{sends}
use warp_proxy.Netstack.Client.{
  Queue, send_cmd, WritePoll, wrote, broken_pipe, poll_write, drop_writer, conn_close, feed,
}
use mathlib.Core.List.{flatten}

-- One write after the other, with what each returns.
unfoldable pub poll_writes : Queue → ℕ → List (List ℕ) → List WritePoll × Queue
poll_writes q h [] = ([], q)
poll_writes q h (buf ∷ bufs) =
    let (r, q') = poll_write q h buf in let (rs, q'') = poll_writes q' h bufs in (r ∷ rs, q'')

-- The writes, and the drop of the writing half behind them.
pub write_and_drop : Queue → ℕ → List (List ℕ) → List WritePoll × Queue
unfolding poll_writes
write_and_drop q h bufs = let (rs, q') = poll_writes q h bufs in (rs, drop_writer q' h)

abbrev pub queue : Bool → List Cmd → Queue
queue running cmds = record { running = running; cmds = cmds }

poll_writes_open :
    (h : ℕ) (bufs : List (List ℕ)) (cmds : List Cmd)
    → poll_writes (queue true cmds) h bufs
      ≡ (map (λ b. wrote (length b)) bufs, queue true (cmds ++ map (send h) bufs))
unfolding poll_writes poll_write send_cmd
poll_writes_open h [] cmds = ap (λ l. ([], queue true l)) (sym (append-nil cmds))
poll_writes_open h (buf ∷ bufs) cmds =
    let rest = poll_writes_open h bufs (cmds ++ send h buf ∷ []) in
    rw (rest, append_assoc cmds (send h buf ∷ []) (map (send h) bufs)) refl

-- Of the commands of a list of writes and the close, the connection's share is the bytes in order, and no
-- other connection has a share.
sends-writes :
    (h k : ℕ) (bufs : List (List ℕ))
    → sends k (map (send h) bufs ++ close h ∷ []) ≡ (if k == h then flatten bufs else [])
unfolding sends flatten
sends-writes h k [] = elim (Bool-cases (k == h)) [
  | inl own ↦ rw own refl
  | inr other ↦ rw other refl
]
sends-writes h k (buf ∷ bufs) = elim (Bool-cases (k == h)) [
  | inl own ↦ rw own (ap (λ l. buf ++ l) (rw own at (sends-writes h k bufs)))
  | inr other ↦ rw other (rw other at (sends-writes h k bufs))
]

-- While the actor runs, every write takes the whole of its buffer, and the commands behind those of the
-- queue hand over the buffers in order, for their connection only, and then close it.
pub write_and_drop-open :
    (h : ℕ) (bufs : List (List ℕ)) (cmds : List Cmd)
    → (let new = map (send h) bufs ++ close h ∷ [] in
        (write_and_drop (queue true cmds) h bufs
          ≡ (map (λ b. wrote (length b)) bufs, queue true (cmds ++ new)))
        × (sends h new ≡ flatten bufs)
        × ((k : ℕ) → k ≢ h → sends k new ≡ []))
unfolding write_and_drop drop_writer conn_close send_cmd
write_and_drop-open h bufs cmds = (
  rw (poll_writes_open h bufs cmds, append_assoc cmds (map (send h) bufs) (close h ∷ [])) refl,
  rw (==_refl h) at (sends-writes h h bufs),
  λ k apart. (let other : (k == h) ≡ false = ground arith in rw other at (sends-writes h k bufs)),
)
