-- ===== src/Daemon/Token.antt =====
-- The hexadecimal texts of `gen_token` and `random_android_serial`.
use warp_proxy.Base.{ℕ, ◌+◌, ◌*◌, ◌-◌, ◌/◌, ◌%◌, ◌≤◌, ◌<◌, ◌≡◌, refl, arith, List, [], ◌∷◌, ◌⊎◌}
use warp_proxy.Base.{ltb, if◌then◌else◌, length, All}
use warp_proxy.Daemon.{hex, hex_digit}

-- The value of a digit or of a lower-case letter.
digit_value : ℕ → ℕ
digit_value c = if ltb c 0x61 then c - 0x30 else c - 0x57

-- A reader of pairs of hexadecimal digits.
pub read_hex : List ℕ → List ℕ
unfolding digit_value
read_hex [] = []
read_hex (c ∷ []) = []
read_hex (c ∷ d ∷ t) = (digit_value c * 16 + digit_value d) ∷ read_hex t

-- A digit, or a letter from a to f.
pub IsHex : ℕ → Type 0
IsHex c = ((0x30 ≤ c) × (c ≤ 0x39)) ⊎ ((0x61 ≤ c) × (c ≤ 0x66))

hex_digit-IsHex : (n : ℕ) → n < 16 → IsHex (hex_digit n)
unfolding hex_digit IsHex
hex_digit-IsHex n h = ground arith

digit_value-hex_digit : (n : ℕ) → n < 16 → digit_value (hex_digit n) ≡ n
unfolding digit_value hex_digit
digit_value-hex_digit n h = ground arith

-- The text of some bytes has two lower-case hexadecimal digits for each, and reads back as the bytes, so
-- that different tokens have different texts.
pub hex-read_hex :
    (bytes : List ℕ)
    → All (λ b. b < 256) bytes
    → (read_hex (hex bytes) ≡ bytes)
      × (length (hex bytes) ≡ 2 * length bytes)
      × All IsHex (hex bytes)
unfolding hex read_hex
hex-read_hex [] h = (refl, omega arith, tt)
hex-read_hex (b ∷ bytes) h =
    let (reads, long, digits) = hex-read_hex bytes h.1 in
    let whole : digit_value (hex_digit (b / 16)) * 16 + digit_value (hex_digit (b % 16)) ≡ b =
      let high = digit_value-hex_digit (b / 16) (omega (arith, h.0)) in
      let low = digit_value-hex_digit (b % 16) (omega arith) in omega arith in
    (
      (λ j. whole j ∷ reads j),
      omega arith,
      (
        hex_digit-IsHex (b / 16) (omega (arith, h.0)),
        (hex_digit-IsHex (b % 16) (omega arith), digits),
      ),
    )
