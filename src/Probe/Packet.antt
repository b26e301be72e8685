-- ===== src/Probe/Packet.antt =====
-- `build_dns_txt_query`, `build_ipv4_udp` and `extract_udp` of
-- crates/warp-masque/examples/egress_probe.rs. An IPv4 address is the list of its octets.
use warp_proxy.Base.{
  ℕ, ◌+◌, ◌*◌, ◌/◌, ◌%◌, bit_and, not, ◌||◌, List, [], ◌∷◌, ◌++◌, Option, none, some,
}
use warp_proxy.Base.{ltb, ◌==◌, if◌then◌else◌, length, get_elem?, take, drop}
use warp_proxy.Base.Text.{same, split}
use warp_proxy.Probe.Checksum.{u16_bytes, from_be_bytes, checksum, udp_checksum}

-- What an access by index gives: it panics out of range.
pub data Checked {ℓ} (A : Type ℓ) : Type ℓ where
  panic : Checked A
  done : A → Checked A

infixl 5 ◌>>=◌
abbrev pub ◌>>=◌ {ℓ κ} : {A : Type ℓ} {B : Type κ} → Checked A → (A → Checked B) → Checked B
panic >>= f = panic
done a >>= f = f a

-- `bytes[i]`
unfoldable pub index : List ℕ → ℕ → Checked ℕ
index bytes i = elim (get_elem? bytes i) [ none ↦ panic | some b ↦ done b ]

-- `&bytes[from..to]` and `&bytes[from..]`
unfoldable pub slice_range : List ℕ → ℕ → ℕ → Checked (List ℕ)
slice_range bytes from to =
    if ltb to from || ltb (length bytes) to then panic else done (drop from (take to bytes))

unfoldable pub slice_from : List ℕ → ℕ → Checked (List ℕ)
slice_from bytes from = if ltb (length bytes) from then panic else done (drop from bytes)

-- The question's name: each label behind its length, cast to a `u8`.
unfoldable pub name_bytes : List (List ℕ) → List ℕ
name_bytes [] = 0 ∷ []
name_bytes (label ∷ labels) = length label % 256 ∷ label ++ name_bytes labels

unfoldable pub build_dns_txt_query : ℕ → List ℕ → ℕ → List ℕ
unfolding u16_bytes name_bytes
build_dns_txt_query id name qclass =
    u16_bytes id
    ++ u16_bytes 0x0100
    ++ u16_bytes 1
    ++ (0 ∷ 0 ∷ 0 ∷ 0 ∷ 0 ∷ 0 ∷ [])
    ++ name_bytes (split 0x2e name)
    ++ u16_bytes 16
    ++ u16_bytes qclass

-- `bytes[i..i + 2].copy_from_slice(&w.to_be_bytes())`
unfoldable pub put_u16 : ℕ → ℕ → List ℕ → List ℕ
unfolding u16_bytes
put_u16 i w bytes = take i bytes ++ u16_bytes w ++ drop (i + 2) bytes

-- The header and the datagram before their checksums are put in.
unfoldable pub ip_header : List ℕ → List ℕ → ℕ → List ℕ
unfolding u16_bytes
ip_header src dst total_len =
    (0x45 ∷ 0x00 ∷ u16_bytes (total_len % 65536))
    ++ u16_bytes 0
    ++ u16_bytes 0x4000
    ++ (64 ∷ 17 ∷ u16_bytes 0)
    ++ src
    ++ dst

unfoldable pub udp_datagram : ℕ → ℕ → List ℕ → List ℕ
unfolding u16_bytes
udp_datagram sport dport payload =
    u16_bytes sport
    ++ u16_bytes dport
    ++ u16_bytes ((8 + length payload) % 65536)
    ++ u16_bytes 0
    ++ payload

unfoldable pub build_ipv4_udp : List ℕ → List ℕ → ℕ → ℕ → List ℕ → List ℕ
unfolding ip_header udp_datagram put_u16 checksum udp_checksum
build_ipv4_udp src dst sport dport payload =
    let ip = ip_header src dst (20 + (8 + length payload)) in
    let udp = udp_datagram sport dport payload in
    put_u16 10 (checksum ip) ip ++ put_u16 6 (udp_checksum src dst udp) udp

-- The part of `extract_udp` behind the first guard, for the first byte of the packet.
unfoldable pub extract_behind : List ℕ → List ℕ → ℕ → ℕ → Checked (Option (List ℕ))
unfolding index slice_from same
extract_behind pkt src port first =
    let ihl = bit_and first 0x0f * 4 in
    do
      a ← index pkt 12
      b ← index pkt 13
      c ← index pkt 14
      d ← index pkt 15
      if not (same (a ∷ b ∷ c ∷ d ∷ []) src) || ltb (length pkt) (ihl + 8) then done none else (do
        high ← index pkt ihl
        low ← index pkt (ihl + 1)
        if not (from_be_bytes high low == port)
            then done none
            else (do payload ← slice_from pkt (ihl + 8); done (some payload)))

unfoldable pub extract_udp : List ℕ → List ℕ → ℕ → Checked (Option (List ℕ))
unfolding extract_behind index
extract_udp pkt src port = if ltb (length pkt) 20 then done none else (do
  first ← index pkt 0
  if not (first / 16 == 4) then done none else (do
    protocol ← index pkt 9
    if not (protocol == 17) then done none else extract_behind pkt src port first))
