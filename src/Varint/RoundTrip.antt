-- ===== src/Varint/RoundTrip.antt =====
-- `decode_varint` undoes `encode_varint`.
use warp_proxy.Base.{ℕ, suc, ◌+◌, ◌*◌, ◌/◌, ◌%◌, ◌^◌, ◌≤◌, ◌<◌, ◌≡◌, ap, refl, ◌∙◌, arith}
use warp_proxy.Base.{
  List, [], ◌∷◌, ◌++◌, none, some, Option-cases, inl, inr, append-nil, length-append,
}
use warp_proxy.Varint.{IsU64, be_bytes, encode_varint, decode_varint}
use warp_proxy.Varint.Encode.{Size, one, two, four, eight, sizes, encode_varint-eq}
use warp_proxy.Varint.Decode.{decode_varint-be_bytes, decode_varint-append}

-- A word of `k + 1` bytes over the tag `t`.
decode_word :
    (k t w v : ℕ) (rest : List ℕ)
    → w < 256 ^ suc k
    → w / 256 ^ k / 64 ≡ t
    → 2 ^ t ≡ suc k
    → k ≤ 7
    → w / 256 ^ k % 64 * 256 ^ k + w % 256 ^ k ≡ v
    → decode_varint (be_bytes (suc k) w ++ rest) ≡ some (v, rest)
decode_word k t w v rest hw tag len hk value =
    decode_varint-be_bytes k w rest hw (rw tag len) hk ∙ rw value

decode_size :
    (v : ℕ) (rest : List ℕ) (len word : ℕ)
    → Size v len word
    → decode_varint (be_bytes len word ++ rest) ≡ some (v % 2 ^ 62, rest)
decode_size v rest len word (one h l e) =
    rw l (decode_word 0 0 word _ rest (omega arith) (omega arith) refl (omega arith) (omega arith))
decode_size v rest len word (two h l e) =
    rw l (decode_word 1 1 word _ rest (omega arith) (omega arith) refl (omega arith) (omega arith))
decode_size v rest len word (four h l e) =
    rw l (decode_word 3 2 word _ rest (omega arith) (omega arith) refl (omega arith) (omega arith))
decode_size v rest len word (eight l e) =
    rw l (decode_word 7 3 word _ rest (omega arith) (omega arith) refl (omega arith) (omega arith))

-- Decoding what `encode_varint` wrote for a `u64` gives the number modulo 2 ^ 62 and leaves exactly
-- what followed: the number itself if it is below 2 ^ 62, and otherwise its two high bits are lost.
pub decode_varint-encode_varint :
    (v : ℕ) (rest : List ℕ)
    → IsU64 v
    → decode_varint (encode_varint [] v ++ rest) ≡ some (v % 2 ^ 62, rest)
decode_varint-encode_varint v rest h =
    rw (encode_varint-eq [] v h) (decode_size v rest _ _ (sizes v))

-- Numbers that a varint can carry.
abbrev pub Fits : ℕ → Type 0
Fits n = n < 2 ^ 62

pub decode_varint-Fits :
    (v : ℕ) (rest : List ℕ) → Fits v → decode_varint (encode_varint [] v ++ rest) ≡ some (v, rest)
decode_varint-Fits v rest h =
    decode_varint-encode_varint v rest (omega arith) ∙ ap (λ t. some (t, rest)) (omega arith)

-- A proper prefix of an encoding is never taken for a number.
pub decode_varint_truncated :
    (v x : ℕ) (front back : List ℕ)
    → IsU64 v
    → encode_varint [] v ≡ front ++ x ∷ back
    → decode_varint front ≡ none
decode_varint_truncated v x front back h e = elim (Option-cases (decode_varint front)) [
  | inl missing ↦ missing
  | inr ((u, rest), found) ↦ ground (
    arith,
    whole,
    decode_varint-append front (x ∷ back) u rest found,
    length-append rest (x ∷ back),
  )
]
  where
    whole : decode_varint (front ++ x ∷ back) ≡ some (v % 2 ^ 62, [])
    whole = rw (append-nil, e) at (decode_varint-encode_varint v [] h)
