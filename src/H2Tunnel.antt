-- ===== src/H2Tunnel.antt =====
-- The framing of crates/warp-masque/src/h2tunnel.rs: `encode_datagram_capsule`, `parse_capsule`,
-- `writer_loop` and `reader_loop`.
--
-- The two loops run until their channel or stream ends, so each takes the events that it meets as a
-- list. Of the `h2` crate's send stream the model has only what `SendStream` names. `usize` is 64
-- bits wide.
pub mod Capsule
pub mod Reader
pub mod Delivery
pub mod Writer
pub mod Pipe
mod Tests
use warp_proxy.Base.{ℕ, zero, suc, ◌+◌, ◌-◌, ◌≡◌, Bool, List, [], ◌∷◌, ◌++◌, Option, none, some}
use warp_proxy.Base.{ltb, ◌==◌, ◌>>=◌, if◌then◌else◌, length, take, drop}
use warp_proxy.Varint.{encode_varint, decode_varint}

abbrev pub capsule_datagram : ℕ
capsule_datagram = 0x00

pub encode_datagram_capsule : List ℕ → List ℕ
encode_datagram_capsule pkt = encode_varint (encode_varint [] capsule_datagram) (length pkt) ++ pkt

-- The type, the offset of the value and the length of the whole capsule.
pub parse_capsule : List ℕ → Option (ℕ × ℕ × ℕ)
parse_capsule buf = do
  (ctype, p) ← decode_varint buf
  (clen, p') ← decode_varint p
  let header = length buf - length p'
  if ltb (length p') clen then none else some (ctype, header, header + clen)

-- `&buf[from..to]`
abbrev pub slice : List ℕ → ℕ → ℕ → List ℕ
slice buf from to = take (to - from) (drop from buf)

-- The unbounded channel to the tunnel's user: what was sent, in order. `alive n` says whether the
-- receiver still exists when `n` packets have been sent; a send to a dropped receiver fails.
pub send_packet : (ℕ → Bool) → List (List ℕ) → List ℕ → Option (List (List ℕ))
send_packet alive sent pkt = if alive (length sent) then some (sent ++ pkt ∷ []) else none

-- Where the `while let` over the buffer ends: more input is wanted, the task has returned since nobody
-- receives, or the fuel is used up.
pub data Drained : Type 0 where
  waiting : List ℕ → List (List ℕ) → Drained
  returned : List (List ℕ) → Drained
  stuck : Drained

pub drain : ℕ → (ℕ → Bool) → List ℕ → List (List ℕ) → Drained
drain zero alive buf sent = stuck
drain (suc fuel) alive buf sent = elim (parse_capsule buf) [
  | none ↦ waiting buf sent
  | some (ctype, voff, total) ↦
      let others = drain fuel alive (drop total buf) sent in
      if ctype == capsule_datagram
      then (elim (send_packet alive sent (slice buf voff total)) [
        | none ↦ returned sent
        | some sent' ↦ drain fuel alive (drop total buf) sent'
      ])
      else others
]

-- What `recv.data()` yields: the bytes of a DATA frame, or an error.
pub data Chunk : Type 0 where
  bytes : List ℕ → Chunk
  failed : Chunk

-- A capsule takes a byte at least, so that many rounds are enough.
pub on_bytes : (ℕ → Bool) → List ℕ → List (List ℕ) → List ℕ → Drained
on_bytes alive buf sent more = drain (suc (length (buf ++ more))) alive (buf ++ more) sent

-- The end of the list is the end of the stream. The number counts the bytes of flow-control credit
-- that were returned to the peer by `release_capacity`.
pub reader_loop : (ℕ → Bool) → List ℕ → List (List ℕ) → ℕ → List Chunk → Drained × ℕ
reader_loop alive buf sent released [] = (waiting buf sent, released)
reader_loop alive buf sent released (failed ∷ chunks) = (waiting buf sent, released)
reader_loop alive buf sent released (bytes more ∷ chunks) = elim (on_bytes alive buf sent more) [
  | waiting buf' sent' ↦ reader_loop alive buf' sent' (released + length more) chunks
  | returned sent' ↦ (returned sent', released + length more)
  | stuck ↦ (stuck, released + length more)
]

-- What the writer uses of `h2::SendStream<Bytes>`. `poll_capacity` and `send_data` give `none` where
-- the stream or the connection is closed. `accepted` is what the peer is to receive.
pub record SendStream : Type 1 where
  pub State : Type 0
  pub reserve_capacity : State → ℕ → State
  pub capacity : State → ℕ
  pub poll_capacity : State → Option State
  pub send_data : State → List ℕ → Option State
  pub accepted : State → List ℕ
  pub accepted-reserve_capacity : (s : State) (n : ℕ) → accepted (reserve_capacity s n) ≡ accepted s
  pub accepted-poll_capacity : (s t : State) → poll_capacity s ≡ some t → accepted t ≡ accepted s
  pub accepted-send_data :
      (s t : State) (b : List ℕ) → send_data s b ≡ some t → accepted t ≡ accepted s ++ b

-- How the writer ends: every queued packet is written and the queue is closed, the stream is
-- closed, or it still waits for capacity after the polls that it was given.
pub data Written (S : Type 0) : Type 0 where
  drained : S → Written S
  closed : S → Written S
  pending : S → Written S

module _ (h2 : SendStream) where
  open h2 use {State, reserve_capacity, capacity, poll_capacity, send_data}

  -- `while send.capacity() < cap.len()`, with a bound on the polls.
  pub await_capacity : ℕ → State → ℕ → Written State
  await_capacity zero s n = if ltb (capacity s) n then pending s else drained s
  await_capacity (suc polls) s n =
      let polled : Written State = elim (poll_capacity s) [
        | none ↦ closed s
        | some t ↦ await_capacity polls t n
      ] in
      if ltb (capacity s) n then polled else drained s

  pub writer_loop : ℕ → State → List (List ℕ) → Written State
  writer_loop polls s [] = drained s
  writer_loop polls s (pkt ∷ pkts) =
      let cap = encode_datagram_capsule pkt in
      elim (await_capacity polls (reserve_capacity s (length cap)) (length cap)) [
        | pending t ↦ pending t
        | closed t ↦ closed t
        | drained t ↦ elim (send_data t cap) [ none ↦ closed t | some u ↦ writer_loop polls u pkts ]
      ]
