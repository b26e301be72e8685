-- ===== src/Probe/Extract.antt =====
-- What `extract_udp` reads of a packet that `build_ipv4_udp` built.
use warp_proxy.Base.{ℕ, ◌+◌, ◌/◌, ◌%◌, ◌<◌, ◌≡◌, refl, arith}
use warp_proxy.Base.{List, [], ◌∷◌, ◌++◌, none, some}
use warp_proxy.Base.{◌==◌, if◌then◌else◌, ◌&&◌, length}
use warp_proxy.Base.Text.{same}
use warp_proxy.Probe.Checksum.{u16_bytes, from_be_bytes, checksum, udp_checksum}
use warp_proxy.Probe.Packet.{
  done, index, slice_from, extract_behind, extract_udp, put_u16, ip_header, udp_datagram,
  build_ipv4_udp,
}

four_octets : (octets : List ℕ) → length octets ≡ 4 → (a b c d : ℕ) × (octets ≡ a ∷ b ∷ c ∷ d ∷ [])
four_octets [] e = absurd (omega arith)
four_octets (a ∷ []) e = absurd (omega arith)
four_octets (a ∷ b ∷ []) e = absurd (omega arith)
four_octets (a ∷ b ∷ c ∷ []) e = absurd (omega arith)
four_octets (a ∷ b ∷ c ∷ d ∷ []) e = (a, b, c, d, refl)
four_octets (a ∷ b ∷ c ∷ d ∷ x ∷ rest) e = absurd (omega arith)

extract_filled :
    (a b c d : ℕ) (dst from payload : List ℕ) (n sport dport port v w : ℕ)
    → length dst ≡ 4
    → sport < 65536
    → extract_udp
        (put_u16 10 v (ip_header (a ∷ b ∷ c ∷ d ∷ []) dst n)
          ++ put_u16 6 w (udp_datagram sport dport payload))
        from
        port
      ≡ done (if same (a ∷ b ∷ c ∷ d ∷ []) from && sport == port then some payload else none)
unfolding extract_udp extract_behind index slice_from put_u16 ip_header udp_datagram u16_bytes
extract_filled a b c d dst from payload n sport dport port v w four h =
    let (p, q, r, s, e) = four_octets dst four in
    let word : from_be_bytes (sport / 256 % 256) (sport % 256) ≡ sport = omega arith in
    rw (e, word) (ground arith)

-- A packet that was built from `src` and its port is read back for that address and port, and passed over
-- for every other.
pub extract_udp-build_ipv4_udp :
    (src dst from payload : List ℕ) (sport dport port : ℕ)
    → length src ≡ 4
    → length dst ≡ 4
    → sport < 65536
    → extract_udp (build_ipv4_udp src dst sport dport payload) from port
      ≡ done (if same src from && sport == port then some payload else none)
unfolding build_ipv4_udp
extract_udp-build_ipv4_udp src dst from payload sport dport port four four' h =
    let (a, b, c, d, e) = four_octets src four in
    let n = 20 + (8 + length payload) in
    let udp = udp_datagram sport dport payload in
    rw e (
      extract_filled a b c d dst from payload n sport dport port
        (checksum (ip_header (a ∷ b ∷ c ∷ d ∷ []) dst n))
        (udp_checksum (a ∷ b ∷ c ∷ d ∷ []) dst udp) four' h)
