-- ===== src/Varint/Tests.antt =====
-- Concrete runs of the varint functions, and the theorems at concrete inputs.
use warp_proxy.Base.{◌-◌, ◌+◌, ◌^◌, ◌≡◌, refl, [], ◌∷◌, ◌++◌, none, some, arith}
use warp_proxy.Base.{replicate}
use warp_proxy.Varint.{be_bytes, encode_varint, push_bytes, decode_varint}
use warp_proxy.Varint.RoundTrip.{decode_varint-encode_varint}

encode_494878333 : encode_varint [] 494878333 ≡ 0x9d ∷ 0x7f ∷ 0x3e ∷ 0x7d ∷ []
unfolding encode_varint be_bytes
encode_494878333 = refl

encode_largest : encode_varint [] (2 ^ 62 - 1) ≡ replicate 8 255
unfolding encode_varint be_bytes
encode_largest = refl

-- The `decode_varint_rejects_truncated` test of the source.
decode_two_of_four : decode_varint (0x80 ∷ 0x00 ∷ []) ≡ none
unfolding decode_varint
decode_two_of_four = refl

decode_long_zero : decode_varint (0x40 ∷ 0x00 ∷ 7 ∷ []) ≡ some (0, 7 ∷ [])
unfolding decode_varint push_bytes
decode_long_zero = refl

decode_varint-encode_varint_example :
    decode_varint (encode_varint [] 15293 ++ 1 ∷ []) ≡ some (15293, 1 ∷ [])
decode_varint-encode_varint_example = decode_varint-encode_varint 15293 (1 ∷ []) (omega arith)

-- The two high bits of a larger `u64` are lost.
decode_varint-encode_varint_wide :
    decode_varint (encode_varint [] (2 ^ 62 + 5) ++ []) ≡ some (5, [])
decode_varint-encode_varint_wide = decode_varint-encode_varint (2 ^ 62 + 5) [] (omega arith)
