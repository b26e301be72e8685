-- ===== src/Probe/Sent.antt =====
-- What `build_ipv4_udp` builds is found correct by a receiver, and read back by `extract_udp`.
pub mod Sums
use warp_proxy.Base.{ℕ, ◌+◌, ◌-◌, ◌%◌, ◌^◌, ◌≤◌, ◌<◌, ◌≡◌, refl, ap, sym, ◌∙◌, subst, arith}
use warp_proxy.Base.{inl, inr, List, [], ◌∷◌, ◌++◌, append_assoc}
use warp_proxy.Base.{
  ◌==◌, ==_iff, if◌then◌else◌, Bool-cases, length, length-append, All, All-append, take, drop,
  take-append, drop-append,
}
use warp_proxy.Varint.{IsByte}
use warp_proxy.Probe.Checksum.{
  SumsToOnes, u16_bytes, checksum, udp_checksum, pseudo_header, with_word, checksum-with_word,
  total_words, total_words-le, Fills,
}
use warp_proxy.Probe.Packet.{put_u16, ip_header, udp_datagram, build_ipv4_udp}
use warp_proxy.Probe.Sent.Sums.{IsV4, pseudo_header_of, checksum-ip_header, checksum-udp}

length-ip_header :
    (src dst : List ℕ) (n w : ℕ)
    → IsV4 src
    → IsV4 dst
    → length (put_u16 10 w (ip_header src dst n)) ≡ 20
unfolding put_u16 ip_header u16_bytes
length-ip_header src dst n w from to = omega (arith, length-append src dst, from.0, to.0)

-- What a receiver checks of a packet from `src` to `dst`: the length that the header names, the one's
-- complement sum of the header, and the length of the UDP datagram behind it and its sum with the
-- pseudo header. The sums are RFC 1071's.
pub Accepted : List ℕ → List ℕ → List ℕ → Type 0
Accepted src dst packet =
    let udp = drop 20 packet in
    (take 2 (drop 2 packet) ≡ u16_bytes (length packet))
    × SumsToOnes (take 20 packet)
    × (take 2 (drop 4 udp) ≡ u16_bytes (length udp))
    × SumsToOnes (pseudo_header_of src dst (length udp) ++ udp)

header_words :
    (src dst : List ℕ) (n w : ℕ) (udp : List ℕ)
    → n < 65536
    → take 2 (drop 2 (put_u16 10 w (ip_header src dst n) ++ udp)) ≡ u16_bytes n
unfolding put_u16 ip_header u16_bytes
header_words src dst n w udp h = let small : n % 65536 ≡ n = omega arith in rw small refl

udp_words :
    (payload : List ℕ) (sport dport w : ℕ)
    → length payload ≤ 65507
    → (let sent = put_u16 6 w (udp_datagram sport dport payload) in
        (length sent ≡ 8 + length payload)
        × (take 2 (drop 4 sent) ≡ u16_bytes (8 + length payload)))
unfolding put_u16 udp_datagram u16_bytes
udp_words payload sport dport w h =
    let small : (8 + length payload) % 65536 ≡ 8 + length payload = omega arith in
    (omega arith, rw small refl)

-- A packet between two addresses, with a payload that is short enough for one, is accepted.
pub build_ipv4_udp-Accepted :
    (src dst payload : List ℕ) (sport dport : ℕ)
    → IsV4 src
    → IsV4 dst
    → All IsByte payload
    → length payload ≤ 65507
    → Accepted src dst (build_ipv4_udp src dst sport dport payload)
unfolding build_ipv4_udp Accepted
build_ipv4_udp-Accepted src dst payload sport dport from to bytes short =
    let n = 20 + (8 + length payload) in
    let w = checksum (ip_header src dst n) in
    let header = put_u16 10 w (ip_header src dst n) in
    let v = udp_checksum src dst (udp_datagram sport dport payload) in
    let udp = put_u16 6 v (udp_datagram sport dport payload) in
    let twenty = length-ip_header src dst n w from to in
    let (len, words) = udp_words payload sport dport v short in
    let total : length (header ++ udp) ≡ n = omega (arith, length-append header udp, twenty, len) in
    let udp_part : drop 20 (header ++ udp) ≡ udp = drop-append header udp 20 (sym twenty) in
    let header_part : take 20 (header ++ udp) ≡ header = take-append header udp 20 (sym twenty) in
    (
      header_words src dst n w udp (omega arith) ∙ ap u16_bytes (sym total),
      subst SumsToOnes (sym header_part) (checksum-ip_header src dst n from to),
      ap (λ (u : List ℕ). take 2 (drop 4 u)) udp_part
          ∙ words
          ∙ ap u16_bytes (sym len)
          ∙ ap (λ (u : List ℕ). u16_bytes (length u)) (sym udp_part),
      subst (λ (u : List ℕ). SumsToOnes (pseudo_header_of src dst (length u) ++ u)) (sym udp_part)
          (checksum-udp src dst payload sport dport from to bytes short),
    )
