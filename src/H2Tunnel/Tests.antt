-- ===== src/H2Tunnel/Tests.antt =====
-- Concrete runs of the capsule functions, and the theorems at concrete inputs.
use warp_proxy.Base.{ℕ, ◌+◌, ◌-◌, ◌≤◌, ◌≡◌, refl, ap, ◌⊎◌, List, [], ◌∷◌, ◌++◌, none, some, arith}
use warp_proxy.Base.{ltb, length, take, map, sym}
use warp_proxy.H2Tunnel.{
  SendStream, drained, pending, await_capacity, writer_loop, waiting, returned, reader_loop, drain,
  on_bytes, bytes, encode_datagram_capsule, parse_capsule, send_packet,
}
use warp_proxy.Varint.{encode_varint, decode_varint, push_bytes}
use warp_proxy.H2Tunnel.Capsule.{capsule}
use warp_proxy.H2Tunnel.Reader.{drain_ends}
use warp_proxy.H2Tunnel.Delivery.{wire, open_end, reader_loop_delivers}
use warp_proxy.H2Tunnel.Writer.{final}
use warp_proxy.H2Tunnel.Pipe.{reader_loop-writer_loop}
use mathlib.Core.List.{flatten}

-- A stream whose capacity grows by 4 at each poll.
record Slow : Type 0 where
  room : ℕ
  out : List ℕ

abbrev polled : Slow → Slow
polled s = record s { room = s.room + 4 }

abbrev with_data : Slow → List ℕ → Slow
with_data s b = record { room = s.room - length b; out = s.out ++ b }

out-polled : (s t : Slow) → some (polled s) ≡ some t → t.out ≡ s.out
out-polled s t e = ground arith

out-with_data : (s t : Slow) (b : List ℕ) → some (with_data s b) ≡ some t → t.out ≡ s.out ++ b
out-with_data s t b e = ground arith

abbrev slow : SendStream
slow = record {
  State = Slow;
  reserve_capacity = λ s n. s;
  capacity = λ s. s.room;
  poll_capacity = λ s. some (polled s);
  send_data = λ s b. some (with_data s b);
  accepted = λ s. s.out;
  accepted-reserve_capacity = λ s n. refl;
  accepted-poll_capacity = out-polled;
  accepted-send_data = out-with_data;
}

abbrev fresh : Slow
fresh = record { room = 0; out = [] }

abbrev queue : List (List ℕ)
queue = (9 ∷ 8 ∷ []) ∷ (7 ∷ []) ∷ []

abbrev frames : List (List ℕ)
frames = (0 ∷ 2 ∷ 9 ∷ []) ∷ (8 ∷ 0 ∷ 1 ∷ 7 ∷ []) ∷ []

capsule_of_two : encode_datagram_capsule (9 ∷ 8 ∷ []) ≡ 0 ∷ 2 ∷ 9 ∷ 8 ∷ []
unfolding encode_datagram_capsule encode_varint
capsule_of_two = refl

unfinished : parse_capsule (0 ∷ 3 ∷ 1 ∷ []) ≡ none
unfolding parse_capsule decode_varint push_bytes
unfinished = refl

write_queue :
    writer_loop slow 3 fresh queue
    ≡ drained (record { room = 1; out = 0 ∷ 2 ∷ 9 ∷ 8 ∷ 0 ∷ 1 ∷ 7 ∷ [] })
unfolding writer_loop await_capacity encode_datagram_capsule encode_varint
write_queue = refl

-- With no poll left the writer still waits, and has sent nothing.
write_waits : writer_loop slow 0 fresh queue ≡ pending fresh
unfolding writer_loop await_capacity encode_datagram_capsule encode_varint
write_waits = refl

wait_for_four : await_capacity slow 1 fresh 4 ≡ drained (polled fresh)
unfolding await_capacity
wait_for_four = refl

-- A receiver that is gone after one packet.
read_until_gone :
    reader_loop (λ n. ltb n 1) [] [] 0 (map bytes frames) ≡ (returned ((9 ∷ 8 ∷ []) ∷ []), 7)
unfolding reader_loop on_bytes drain parse_capsule send_packet decode_varint push_bytes
read_until_gone = refl

drain_ends_example :
    ((rest : List ℕ) × (sent : List (List ℕ)) × (drain 2 open_end (0 ∷ []) [] ≡ waiting rest sent)
      × (parse_capsule rest ≡ none))
    ⊎ ((sent : List (List ℕ)) × (drain 2 open_end (0 ∷ []) [] ≡ returned sent))
drain_ends_example = drain_ends open_end 2 (0 ∷ []) [] (omega arith)

-- A capsule of type 5 is skipped, and one that is cut off is kept.
reader_loop_delivers_example :
    reader_loop open_end [] [] 0
      (map bytes ((5 ∷ 1 ∷ []) ∷ (0 ∷ 0 ∷ 2 ∷ 9 ∷ 8 ∷ 0 ∷ 3 ∷ 1 ∷ []) ∷ []))
    ≡ (
      waiting (0 ∷ 3 ∷ 1 ∷ []) ((9 ∷ 8 ∷ []) ∷ []),
      length (wire ((5, 0 ∷ []) ∷ (0, 9 ∷ 8 ∷ []) ∷ []) ++ 0 ∷ 3 ∷ 1 ∷ []),
    )
unfolding flatten capsule encode_varint
reader_loop_delivers_example =
    reader_loop_delivers ((5, 0 ∷ []) ∷ (0, 9 ∷ 8 ∷ []) ∷ []) (0 ∷ 3 ∷ 1 ∷ [])
      ((5 ∷ 1 ∷ []) ∷ (0 ∷ 0 ∷ 2 ∷ 9 ∷ 8 ∷ 0 ∷ 3 ∷ 1 ∷ []) ∷ []) (omega arith) unfinished refl

reader_loop-writer_loop_example :
    (k : ℕ) × (k ≤ 2)
    × ((reader_loop open_end [] [] 0 (map bytes frames)).0 ≡ waiting [] (take k queue))
unfolding flatten
reader_loop-writer_loop_example =
    reader_loop-writer_loop slow 3 queue fresh frames (omega arith) refl
      (sym (ap (λ w. slow.accepted (final {S = Slow} w)) write_queue))
