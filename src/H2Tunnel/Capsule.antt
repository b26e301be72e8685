-- ===== src/H2Tunnel/Capsule.antt =====
-- Facts about one capsule: what `parse_capsule` takes, and that it reads back what was framed.
use warp_proxy.Base.{ℕ, ◌+◌, ◌-◌, ◌≤◌, ◌<◌, ◌≡◌, sym, inl, inr, arith}
use warp_proxy.Base.{List, [], ◌++◌, some, append_assoc, Option-cases}
use warp_proxy.Base.{length, length-append, take-append, drop-append}
use warp_proxy.Varint.{encode_varint, decode_varint}
use warp_proxy.Varint.Encode.{encode_varint-out}
use warp_proxy.Varint.Decode.{decode_varint_shorter, decode_varint-append}
use warp_proxy.Varint.RoundTrip.{Fits, decode_varint-Fits}
use warp_proxy.H2Tunnel.{encode_datagram_capsule, parse_capsule, slice, capsule_datagram}

-- A capsule that was found lies within the buffer and is not empty.
pub parse_capsule_takes :
    (buf : List ℕ) (ctype voff total : ℕ)
    → parse_capsule buf ≡ some (ctype, voff, total)
    → (voff ≤ total) × (total ≤ length buf) × (0 < total)
unfolding parse_capsule
parse_capsule_takes buf ctype voff total e = elim (Option-cases (decode_varint buf)) [
  | inl missing ↦ ground arith
  | inr ((t, p), h) ↦ elim (Option-cases (decode_varint p)) [
    | inl missing ↦ ground arith
    | inr ((n, p'), h') ↦
        ground (arith, decode_varint_shorter buf t p h, decode_varint_shorter p n p' h')
  ]
]

-- More input behind a complete capsule does not change what is found.
pub parse_capsule-append :
    (buf more : List ℕ) (ctype voff total : ℕ)
    → parse_capsule buf ≡ some (ctype, voff, total)
    → parse_capsule (buf ++ more) ≡ some (ctype, voff, total)
unfolding parse_capsule
parse_capsule-append buf more ctype voff total e = elim (Option-cases (decode_varint buf)) [
  | inl missing ↦ ground arith
  | inr ((t, p), h) ↦ elim (Option-cases (decode_varint p)) [
    | inl missing ↦ ground arith
    | inr ((n, p'), h') ↦ ground (
      arith,
      decode_varint_shorter buf t p h,
      decode_varint_shorter p n p' h',
      decode_varint-append buf more t p h,
      decode_varint-append p more n p' h',
      length-append buf more,
      length-append p' more,
    )
  ]
]

-- A capsule of any type, as RFC 9297 frames it.
unfoldable pub capsule : ℕ → List ℕ → List ℕ
capsule ctype value = encode_varint [] ctype ++ (encode_varint [] (length value) ++ value)

-- Where the value stands in a capsule.
unfoldable pub header : ℕ → List ℕ → ℕ
header ctype value = length (encode_varint [] ctype) + length (encode_varint [] (length value))

-- What is written for a packet is the DATAGRAM capsule of the packet itself.
pub encode_datagram_capsule-eq :
    (pkt : List ℕ) → Fits (length pkt) → encode_datagram_capsule pkt ≡ capsule capsule_datagram pkt
unfolding encode_datagram_capsule capsule
encode_datagram_capsule-eq pkt h =
    rw (encode_varint-out (encode_varint [] capsule_datagram) (length pkt) (omega arith))
      (append_assoc (encode_varint [] capsule_datagram) (encode_varint [] (length pkt)) pkt)

-- A complete capsule is found, its value is where the offset says, and what follows is left.
pub parse_capsule-capsule :
    (ctype : ℕ) (value rest : List ℕ)
    → Fits ctype
    → Fits (length value)
    → parse_capsule (capsule ctype value ++ rest)
      ≡ some (ctype, header ctype value, header ctype value + length value)
unfolding parse_capsule capsule header
parse_capsule-capsule ctype value rest ht hl =
    let t = encode_varint [] ctype in
    let l = encode_varint [] (length value) in
    rw
      (
        append_assoc t (l ++ value) rest,
        append_assoc l value rest,
        decode_varint-Fits ctype (l ++ (value ++ rest)) ht,
        decode_varint-Fits (length value) (value ++ rest) hl,
      )
      (ground (
        arith,
        length-append t (l ++ (value ++ rest)),
        length-append l (value ++ rest),
        length-append value rest,
      ))

pub slice-capsule :
    (ctype : ℕ) (value rest : List ℕ)
    → slice (capsule ctype value ++ rest) (header ctype value) (header ctype value + length value)
      ≡ value
unfolding capsule header
slice-capsule ctype value rest =
    let t = encode_varint [] ctype in
    let l = encode_varint [] (length value) in
    rw
      (
        append_assoc t (l ++ value) rest,
        append_assoc l value rest,
        sym (append_assoc t l (value ++ rest)),
        drop-append (t ++ l) (value ++ rest) (length t + length l) (sym (length-append t l)),
      )
      (take-append value rest (length t + length l + length value - (length t + length l))
        (omega arith))

pub length-capsule :
    (ctype : ℕ) (value : List ℕ) → length (capsule ctype value) ≡ header ctype value + length value
unfolding capsule header
length-capsule ctype value =
    let t = encode_varint [] ctype in
    let l = encode_varint [] (length value) in
    omega (arith, length-append t (l ++ value), length-append l value)
