-- ===== src/Varint/Encode.antt =====
-- What `encode_varint` writes, in plain arithmetic.
use warp_proxy.Base.{ℕ, zero, suc, ◌+◌, ◌*◌, ◌%◌, ◌^◌, ◌<◌, bit_or, ◌≡◌, refl, ap}
use warp_proxy.Base.{List, [], ◌∷◌, ◌++◌, arith, ltb, ltb→lt, Bool-cases, inl, inr, if◌then◌else◌}
use warp_proxy.Base.{length, length-append, All, All-append}
use warp_proxy.Base.Bits.{bit_or_tag, bit_or_top}
use warp_proxy.Varint.{IsByte, IsU64, be_bytes, encode_varint, varint_len}
use native.Mathlib.Nat.{mod-lt, pow-suc, div-lt_iff_lt-mul}

-- The word that is written, its tag in the two high bits, and the count of its bytes.
unfoldable pub tagged : ℕ → ℕ
tagged v =
    if ltb v (2 ^ 6)
    then v
    else if ltb v (2 ^ 14)
    then 1 * 2 ^ 14 + v
    else if ltb v (2 ^ 30)
    then 2 * 2 ^ 30 + v
    else 3 * 2 ^ 62 + v % 2 ^ 62

tag_two : (v : ℕ) → v < 2 ^ 14 → bit_or (v % 2 ^ 16) 0x4000 ≡ 1 * 2 ^ 14 + v
tag_two v h = omega (arith, bit_or_tag 14 1 (v % 2 ^ 16) (omega arith))

tag_four : (v : ℕ) → v < 2 ^ 30 → bit_or (v % 2 ^ 32) 0x8000_0000 ≡ 2 * 2 ^ 30 + v
tag_four v h = omega (arith, bit_or_tag 30 2 (v % 2 ^ 32) (omega arith))

one_byte : (v : ℕ) → v < 2 ^ 6 → (v % 256) ∷ [] ≡ be_bytes 1 v
unfolding be_bytes
one_byte v h = ground arith

pub encode_varint-eq :
    (out : List ℕ) (v : ℕ)
    → IsU64 v
    → encode_varint out v ≡ out ++ be_bytes (varint_len v) (tagged v)
unfolding encode_varint varint_len tagged
encode_varint-eq out v h = ground (arith, one_byte v, tag_two v, tag_four v, bit_or_top v)

pub encode_varint-out :
    (out : List ℕ) (v : ℕ) → IsU64 v → encode_varint out v ≡ out ++ encode_varint [] v
encode_varint-out out v h = rw (encode_varint-eq out v h, encode_varint-eq [] v h)

pub length-be_bytes : (k w : ℕ) → length (be_bytes k w) ≡ k
unfolding be_bytes
length-be_bytes zero w = refl
length-be_bytes (suc k) w = ap suc (length-be_bytes k _)

-- `encode_varint` appends exactly as many bytes as `varint_len` announces.
pub length-encode_varint :
    (out : List ℕ) (v : ℕ) → IsU64 v → length (encode_varint out v) ≡ length out + varint_len v
length-encode_varint out v h = rw (encode_varint-eq out v h) (
    omega (
      arith,
      length-append out (be_bytes (varint_len v) (tagged v)),
      length-be_bytes (varint_len v) (tagged v),
    ))

pub pow256-pos : (k : ℕ) → 0 < 256 ^ k
pow256-pos zero = omega arith
pow256-pos (suc k) = omega (arith, pow-suc 256 k, pow256-pos k)

be_bytes-IsByte : (k w : ℕ) → w < 256 ^ k → All IsByte (be_bytes k w)
unfolding be_bytes
be_bytes-IsByte zero w h = tt
be_bytes-IsByte (suc k) w h = (
  (div-lt_iff_lt-mul (pow256-pos k)).1 (omega (arith, pow-suc 256 k)),
  be_bytes-IsByte k _ (mod-lt w (pow256-pos k)),
)

-- The four sizes, each with the range of the tagged word, its first byte and its low bits.
pub data Size (v len word : ℕ) : Type 0 where
  one : v < 2 ^ 6 → len ≡ 1 → word ≡ v → Size v len word
  two : v < 2 ^ 14 → len ≡ 2 → word ≡ 1 * 2 ^ 14 + v → Size v len word
  four : v < 2 ^ 30 → len ≡ 4 → word ≡ 2 * 2 ^ 30 + v → Size v len word
  eight : len ≡ 8 → word ≡ 3 * 2 ^ 62 + v % 2 ^ 62 → Size v len word

pub sizes : (v : ℕ) → Size v (varint_len v) (tagged v)
unfolding varint_len tagged
sizes v = elim (Bool-cases (ltb v (2 ^ 6))) [
  | inl lt ↦ rw lt (one (ltb→lt _ _ lt) refl refl)
  | inr ge ↦ rw ge (elim (Bool-cases (ltb v (2 ^ 14))) [
    | inl lt ↦ rw lt (two (ltb→lt _ _ lt) refl refl)
    | inr ge ↦ rw ge (elim (Bool-cases (ltb v (2 ^ 30))) [
      | inl lt ↦ rw lt (four (ltb→lt _ _ lt) refl refl)
      | inr ge ↦ rw ge (eight refl refl)
    ])
  ])
]

tagged-lt : (v : ℕ) {len word : ℕ} → Size v len word → word < 256 ^ len
tagged-lt v (one h l e) = rw (l, e) (omega arith)
tagged-lt v (two h l e) = rw (l, e) (omega arith)
tagged-lt v (four h l e) = rw (l, e) (omega arith)
tagged-lt v (eight l e) = rw (l, e) (omega arith)

-- Everything that is written is a byte.
pub encode_varint-IsByte :
    (out : List ℕ) (v : ℕ) → IsU64 v → All IsByte out → All IsByte (encode_varint out v)
encode_varint-IsByte out v h bytes =
    rw (encode_varint-eq out v h)
      (All-append IsByte out _ bytes (be_bytes-IsByte _ (tagged v) (tagged-lt v (sizes v))))
