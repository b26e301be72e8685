-- ===== src/Varint.antt =====
-- The QUIC variable-length integers of crates/warp-masque/src/tunnel.rs (RFC 9000, section 16):
-- `encode_varint`, `varint_len` and `decode_varint`. A `u64` is a number below 2 ^ 64, and a byte
-- slice a list of numbers; `decode_varint` returns the slice that `*buf` is moved to.
pub mod Encode
pub mod Decode
pub mod RoundTrip
mod Tests
use warp_proxy.Base.{ℕ, zero, suc, ◌-◌, ◌*◌, ◌/◌, ◌%◌, ◌^◌, ◌<◌, bit_and, bit_or}
use warp_proxy.Base.{List, [], ◌∷◌, ◌++◌, Option, none, some}
use warp_proxy.Base.{ltb, if◌then◌else◌, length, take, drop}

abbrev pub IsByte : ℕ → Type 0
IsByte b = b < 256

abbrev pub IsU64 : ℕ → Type 0
IsU64 v = v < 2 ^ 64

-- `to_be_bytes` of a `k`-byte word: its digits to the base 256, highest first.
unfoldable pub be_bytes : ℕ → ℕ → List ℕ
be_bytes zero v = []
be_bytes (suc k) v = (v / 256 ^ k) ∷ be_bytes k (v % 256 ^ k)

unfoldable pub encode_varint : List ℕ → ℕ → List ℕ
encode_varint out v =
    if ltb v (2 ^ 6)
    then out ++ (v % 256) ∷ []
    else if ltb v (2 ^ 14)
    then out ++ be_bytes 2 (bit_or (v % 2 ^ 16) 0x4000)
    else if ltb v (2 ^ 30)
    then out ++ be_bytes 4 (bit_or (v % 2 ^ 32) 0x8000_0000)
    else out ++ be_bytes 8 (bit_or v 0xc000_0000_0000_0000)

unfoldable pub varint_len : ℕ → ℕ
varint_len v =
    if ltb v (2 ^ 6) then 1 else if ltb v (2 ^ 14) then 2 else if ltb v (2 ^ 30) then 4 else 8

-- `for &b in &buf[1..len] { v = (v << 8) | b as u64; }`
unfoldable pub push_bytes : ℕ → List ℕ → ℕ
push_bytes v [] = v
push_bytes v (b ∷ bs) = push_bytes (bit_or (v * 256 % 2 ^ 64) b) bs

unfoldable pub decode_varint : List ℕ → Option (ℕ × List ℕ)
decode_varint [] = none
decode_varint (first ∷ tail) =
    let len = 2 ^ (first / 64) in
    if ltb (length (first ∷ tail)) len
    then none
    else some (push_bytes (bit_and first 0x3f) (take (len - 1) tail), drop len (first ∷ tail))
