-- ===== src/Probe/Sent/Sums.antt =====
-- The checksums of an IPv4 header and of a UDP datagram, as a receiver sums them.
use warp_proxy.Base.{ℕ, ◌+◌, ◌-◌, ◌%◌, ◌^◌, ◌≤◌, ◌<◌, ◌≡◌, refl, sym, subst, arith}
use warp_proxy.Base.{inl, inr, List, [], ◌∷◌, ◌++◌, append_assoc}
use warp_proxy.Base.{
  ◌==◌, ==_iff, if◌then◌else◌, Bool-cases, length, length-append, All, All-append,
}
use warp_proxy.Varint.{IsByte}
use warp_proxy.Probe.Checksum.{
  u16_bytes, SumsToOnes, checksum, udp_checksum, pseudo_header, with_word, checksum-with_word,
  total_words, total_words-le, Fills,
}
use warp_proxy.Probe.Packet.{put_u16, ip_header, udp_datagram}

u16_bytes-IsByte : (w : ℕ) → All IsByte (u16_bytes w)
unfolding u16_bytes
u16_bytes-IsByte w = (omega arith, (omega arith, tt))

length-u16_bytes : (w : ℕ) → length (u16_bytes w) ≡ 2
unfolding u16_bytes
length-u16_bytes w = refl

-- An address of four octets.
abbrev pub IsV4 : List ℕ → Type 0
IsV4 octets = (length octets ≡ 4) × All IsByte octets

-- A message short enough sums to less than a `u32`, with room for one word more.
short_words :
    (bytes : List ℕ) → All IsByte bytes → length bytes ≤ 65600 → total_words bytes < 2 ^ 32 - 65535
short_words bytes h short = omega (arith, total_words-le bytes h)

pub checksum-ip_header :
    (src dst : List ℕ) (total_len : ℕ)
    → IsV4 src
    → IsV4 dst
    → SumsToOnes (put_u16 10 (checksum (ip_header src dst total_len)) (ip_header src dst total_len))
unfolding put_u16 ip_header u16_bytes
checksum-ip_header src dst total_len (four, bytes) (four', bytes') =
    let len = u16_bytes (total_len % 65536) in
    let before = (0x45 ∷ 0x00 ∷ len) ++ (0 ∷ 0 ∷ 0x40 ∷ 0 ∷ 64 ∷ 17 ∷ []) in
    let (high, (low, end)) = u16_bytes-IsByte (total_len % 65536) in
    let all : All IsByte (with_word before 0 (src ++ dst)) = (
      omega arith,
      (
        omega arith,
        (
          high,
          (
            low,
            (
              omega arith,
              (
                omega arith,
                (
                  omega arith,
                  (
                    omega arith,
                    (
                      omega arith,
                      (
                        omega arith,
                        (omega arith, (omega arith, All-append IsByte src dst bytes bytes')),
                      ),
                    ),
                  ),
                ),
              ),
            ),
          ),
        ),
      ),
    ) in
    let size : length (with_word before 0 (src ++ dst)) ≤ 65600 =
      omega (arith, length-append src dst) in
    checksum-with_word 5 before (checksum (with_word before 0 (src ++ dst))) (src ++ dst) refl
      (short_words (with_word before 0 (src ++ dst)) all size) (inl refl)

or_ones-Fills : (c : ℕ) → Fills c (if c == 0 then 0xffff else c)
or_ones-Fills c = elim (Bool-cases (c == 0)) [
  | inl e ↦ rw e (inr ((==_iff c 0).0 e, refl))
  | inr e ↦ rw e (inl refl)
]

-- A checksum behind a pseudo header of 12 bytes and 6 bytes more.
checksum_behind :
    (pseudo six payload : List ℕ) (w : ℕ)
    → length pseudo ≡ 12
    → length six ≡ 6
    → All IsByte (pseudo ++ six)
    → All IsByte payload
    → length payload ≤ 65507
    → Fills (checksum (pseudo ++ (six ++ (u16_bytes 0 ++ payload)))) w
    → SumsToOnes (pseudo ++ (six ++ (u16_bytes w ++ payload)))
checksum_behind pseudo six payload w twelve len bytes payload_bytes short fills =
    let apart : (v : ℕ)
        → pseudo ++ (six ++ (u16_bytes v ++ payload)) ≡ with_word (pseudo ++ six) v payload =
      λ v. sym (append_assoc pseudo six (u16_bytes v ++ payload)) in
    let zeros = with_word (pseudo ++ six) 0 payload in
    let size : length zeros ≤ 65600 = omega (
      arith,
      length-append (pseudo ++ six) (u16_bytes 0 ++ payload),
      length-append pseudo six,
      length-append (u16_bytes 0) payload,
      length-u16_bytes 0,
    ) in
    let all : All IsByte zeros =
      All-append IsByte (pseudo ++ six) (u16_bytes 0 ++ payload) bytes
        (All-append IsByte (u16_bytes 0) payload (u16_bytes-IsByte 0) payload_bytes) in
    let filled = subst (λ m. Fills (checksum m) w) (apart 0) fills in
    subst SumsToOnes (sym (apart w)) (
      checksum-with_word 9 (pseudo ++ six) w payload (omega (arith, length-append pseudo six))
        (short_words zeros all size) filled)

-- The pseudo header that a receiver makes for a datagram of `n` bytes.
pub pseudo_header_of : List ℕ → List ℕ → ℕ → List ℕ
pseudo_header_of src dst n = src ++ dst ++ 0 ∷ 17 ∷ u16_bytes (n % 65536)

pseudo_header-length :
    (src dst udp : List ℕ) (n : ℕ)
    → length udp ≡ n
    → pseudo_header src dst udp ≡ pseudo_header_of src dst n
unfolding pseudo_header_of pseudo_header
pseudo_header-length src dst udp n e = rw e refl

udp_checksum-Fills :
    (src dst udp : List ℕ)
    → Fills (checksum (pseudo_header src dst udp ++ udp)) (udp_checksum src dst udp)
unfolding udp_checksum checksum
udp_checksum-Fills src dst udp = or_ones-Fills (checksum (pseudo_header src dst udp ++ udp))

pseudo_header_of-Fits :
    (src dst : List ℕ) (n : ℕ)
    → IsV4 src
    → IsV4 dst
    → (length (pseudo_header_of src dst n) ≡ 12) × All IsByte (pseudo_header_of src dst n)
unfolding pseudo_header_of
pseudo_header_of-Fits src dst n (four, bytes) (four', bytes') =
    let end = 0 ∷ 17 ∷ u16_bytes (n % 65536) in
    (
      omega (
        arith,
        length-append (src ++ dst) end,
        length-append src dst,
        length-u16_bytes (n % 65536),
      ),
      All-append IsByte (src ++ dst) end (All-append IsByte src dst bytes bytes')
          (omega arith, (omega arith, u16_bytes-IsByte (n % 65536))),
    )

pub checksum-udp :
    (src dst payload : List ℕ) (sport dport : ℕ)
    → IsV4 src
    → IsV4 dst
    → All IsByte payload
    → length payload ≤ 65507
    → (let udp = udp_datagram sport dport payload in
        let sent = put_u16 6 (udp_checksum src dst udp) udp in
        SumsToOnes (pseudo_header_of src dst (length sent) ++ sent))
unfolding put_u16 udp_datagram u16_bytes
checksum-udp src dst payload sport dport from to payload_bytes short =
    let len = u16_bytes ((8 + length payload) % 65536) in
    let pseudo = pseudo_header_of src dst (8 + length payload) in
    let six = u16_bytes sport ++ u16_bytes dport ++ len in
    let udp = udp_datagram sport dport payload in
    let w = udp_checksum src dst udp in
    let sent = put_u16 6 w udp in
    let header : pseudo_header src dst udp ≡ pseudo =
      pseudo_header-length src dst udp (8 + length payload) (omega arith) in
    let size : length sent ≡ 8 + length payload = omega arith in
    let (twelve, pseudo_bytes) = pseudo_header_of-Fits src dst (8 + length payload) from to in
    let (s, (s', end)) = u16_bytes-IsByte sport in
    let (d, (d', end)) = u16_bytes-IsByte dport in
    let all =
      All-append IsByte pseudo six pseudo_bytes
        (s, (s', (d, (d', u16_bytes-IsByte ((8 + length payload) % 65536))))) in
    subst (λ (n : ℕ). SumsToOnes (pseudo_header_of src dst n ++ sent)) (sym size)
      (checksum_behind pseudo six payload w twelve refl all payload_bytes short
        (subst (λ p. Fills (checksum (p ++ udp)) w) header (udp_checksum-Fills src dst udp)))
