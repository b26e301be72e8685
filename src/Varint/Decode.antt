-- ===== src/Varint/Decode.antt =====
-- `decode_varint` on any input, well formed or not.
use warp_proxy.Base.{ℕ, zero, suc, ◌+◌, ◌-◌, ◌*◌, ◌/◌, ◌%◌, ◌^◌, ◌≤◌, ◌<◌, bit_or, bit_and}
use warp_proxy.Base.{◌≡◌, ◌∙◌, ◌⊎◌, ap, inl, inr, List, [], ◌∷◌, ◌++◌, none, some, arith}
use warp_proxy.Base.{
  ltb, ltb→lt, lt→ltb, ltb_false→le, le→ltb_false, Bool-cases, length, take, drop, All,
}
use warp_proxy.Base.{
  length-append, length-take, length-drop, take-append, drop-append, take-append_le,
}
use warp_proxy.Base.{drop-append_le}
use warp_proxy.Base.Bits.{low_six, bit_or_byte}
use warp_proxy.Varint.{IsByte, be_bytes, push_bytes, decode_varint, varint_len}
use warp_proxy.Varint.Encode.{pow256-pos, length-be_bytes}
use native.Mathlib.Nat.{mod-lt, pow-suc, pow-le-pow_right, div-lt_iff_lt-mul, div-add-mod}

-- One byte is shifted in with nothing lost while the word has room for it.
push_byte : (v b : ℕ) → b < 256 → v * 256 < 2 ^ 64 → bit_or (v * 256 % 2 ^ 64) b ≡ v * 256 + b
push_byte v b hb hv =
    let fits : v * 256 % 2 ^ 64 ≡ v * 256 = omega arith in rw fits (bit_or_byte v b hb)

-- The room for `k + 1` more bytes, and for `k` after one of them is in.
room_one : (v p : ℕ) → 0 < p → (v + 1) * (p * 256) ≤ 2 ^ 64 → v * 256 < 2 ^ 64
room_one v p hp h = grind arith

room_six : (d p : ℕ) → p ≤ 256 ^ 7 → (d % 64 + 1) * p ≤ 2 ^ 64
room_six d p h = grind arith

six_mono : (v p : ℕ) → v < 64 → (v + 1) * p ≤ 64 * p
six_mono v p h = grind arith

room_ratio : (v b p : ℕ) → b < 256 → (v * 256 + b + 1) * p ≤ (v + 1) * (p * 256)
room_ratio v b p hb = grind arith

room_next : (v b p : ℕ) → b < 256 → (v + 1) * (p * 256) ≤ 2 ^ 64 → (v * 256 + b + 1) * p ≤ 2 ^ 64
room_next v b p hb h = grind arith

push_bytes-cons :
    (v b : ℕ) (bs : List ℕ)
    → b < 256
    → v * 256 < 2 ^ 64
    → push_bytes v (b ∷ bs) ≡ push_bytes (v * 256 + b) bs
unfolding push_bytes
push_bytes-cons v b bs hb hv = ap (λ t. push_bytes t bs) (push_byte v b hb hv)

-- The bytes of a word are shifted in as the word.
push_bytes-be_bytes :
    (k v w : ℕ)
    → w < 256 ^ k
    → (v + 1) * 256 ^ k ≤ 2 ^ 64
    → push_bytes v (be_bytes k w) ≡ v * 256 ^ k + w
push_bytes-be_bytes zero v w hw room = unfold push_bytes be_bytes in omega arith
push_bytes-be_bytes (suc k) v w hw room =
    let p = 256 ^ k in
    let room' : (v + 1) * (p * 256) ≤ 2 ^ 64 =
      omega (arith, ap (λ (t : ℕ). (v + 1) * t) (pow-suc 256 k)) in
    let digit : w / p < 256 = (div-lt_iff_lt-mul (pow256-pos k)).1 (omega (arith, pow-suc 256 k)) in
    let first : push_bytes v (be_bytes (suc k) w)
        ≡ push_bytes (v * 256 + w / p) (be_bytes k (w % p)) =
      unfold be_bytes in push_bytes-cons v (w / p) _ digit (room_one v p (pow256-pos k) room') in
    omega (
      arith,
      first,
      push_bytes-be_bytes k (v * 256 + w / p) (w % p) (mod-lt w (pow256-pos k))
          (room_next v (w / p) p digit room'),
      div-add-mod w p,
      ap (λ (t : ℕ). v * t) (pow-suc 256 k),
    )

-- The value of some bytes is below the room that they take.
push_bytes-lt :
    (v : ℕ) (bs : List ℕ)
    → All IsByte bs
    → (v + 1) * 256 ^ length bs ≤ 2 ^ 64
    → push_bytes v bs < (v + 1) * 256 ^ length bs
push_bytes-lt v [] h room = unfold push_bytes in omega arith
push_bytes-lt v (b ∷ bs) h room =
    let p = 256 ^ length bs in
    let room' : (v + 1) * (p * 256) ≤ 2 ^ 64 =
      omega (arith, ap (λ (t : ℕ). (v + 1) * t) (pow-suc 256 (length bs))) in
    let first : push_bytes v (b ∷ bs) ≡ push_bytes (v * 256 + b) bs =
      push_bytes-cons v b bs h.0 (room_one v p (pow256-pos (length bs)) room') in
    let below : (v * 256 + b + 1) * p ≤ (v + 1) * (p * 256) = room_ratio v b p h.0 in
    omega (
      arith,
      first,
      push_bytes-lt (v * 256 + b) bs h.1 (room_next v b p h.0 room'),
      below,
      ap (λ (t : ℕ). (v + 1) * t) (pow-suc 256 (length bs)),
    )

-- `decode_varint` answers exactly when as many bytes are there as the first one announces.
decode_varint-enough :
    (first : ℕ) (tail : List ℕ)
    → 2 ^ (first / 64) ≤ suc (length tail)
    → decode_varint (first ∷ tail)
      ≡ some (
        push_bytes (bit_and first 0x3f) (take (2 ^ (first / 64) - 1) tail),
        drop (2 ^ (first / 64)) (first ∷ tail),
      )
unfolding decode_varint
decode_varint-enough first tail h = rw (le→ltb_false (suc (length tail)) (2 ^ (first / 64)) h)

-- A word of `k + 1` bytes whose first byte announces that many is read back, its two tag bits
-- dropped, and what follows it is left.
pub decode_varint-be_bytes :
    (k w : ℕ) (rest : List ℕ)
    → w < 256 ^ suc k
    → 2 ^ (w / 256 ^ k / 64) ≡ suc k
    → k ≤ 7
    → decode_varint (be_bytes (suc k) w ++ rest)
      ≡ some (w / 256 ^ k % 64 * 256 ^ k + w % 256 ^ k, rest)
decode_varint-be_bytes k w rest hw tag hk =
    unfold be_bytes in decode_varint-enough d (xs ++ rest) enough ∙ cc (value, left)
  where
    p : ℕ
    p = 256 ^ k

    d : ℕ
    d = w / p

    xs : List ℕ
    xs = be_bytes k (w % p)

    digit : d < 256
    digit = (div-lt_iff_lt-mul (pow256-pos k)).1 (omega (arith, pow-suc 256 k))

    enough : 2 ^ (d / 64) ≤ suc (length (xs ++ rest))
    enough = omega (arith, tag, length-append xs rest, length-be_bytes k (w % p))

    room : (d % 64 + 1) * p ≤ 2 ^ 64
    room =
        let small : p ≤ 256 ^ 7 = pow-le-pow_right {n = 256} (omega arith) hk in room_six d p small

    value : push_bytes (bit_and d 0x3f) (take (2 ^ (d / 64) - 1) (xs ++ rest)) ≡ d % 64 * p + w % p
    value =
        rw
          (
            low_six d digit,
            tag,
            take-append xs rest (suc k - 1) (omega (arith, length-be_bytes k (w % p))),
          )
          (push_bytes-be_bytes k (d % 64) (w % p) (mod-lt w (pow256-pos k)) room)

    left : drop (2 ^ (d / 64)) (d ∷ (xs ++ rest)) ≡ rest
    left = rw tag (drop-append xs rest k (omega (arith, length-be_bytes k (w % p))))

decode_varint-short :
    (first : ℕ) (tail : List ℕ)
    → suc (length tail) < 2 ^ (first / 64)
    → decode_varint (first ∷ tail) ≡ none
unfolding decode_varint
decode_varint-short first tail h = rw (lt→ltb (suc (length tail)) (2 ^ (first / 64)) h)

pow_pos : (t : ℕ) → 0 < 2 ^ t
pow_pos zero = omega arith
pow_pos (suc t) = omega (arith, pow-suc 2 t, pow_pos t)

-- The four counts that a byte announces.
announced : (t : ℕ) → t < 4 → (2 ^ t ≡ 1) ⊎ (2 ^ t ≡ 2) ⊎ (2 ^ t ≡ 4) ⊎ (2 ^ t ≡ 8)
announced zero h = omega arith
announced (suc zero) h = omega arith
announced (suc (suc zero)) h = omega arith
announced (suc (suc (suc zero))) h = omega arith
announced (suc (suc (suc (suc t)))) h = absurd (omega arith)

-- What a successful call takes apart: the value's bytes are those announced by the first one.
decode_varint-inv :
    (first : ℕ) (tail : List ℕ) (v : ℕ) (rest : List ℕ)
    → decode_varint (first ∷ tail) ≡ some (v, rest)
    → (2 ^ (first / 64) ≤ suc (length tail))
      × (push_bytes (bit_and first 0x3f) (take (2 ^ (first / 64) - 1) tail) ≡ v)
      × (drop (2 ^ (first / 64)) (first ∷ tail) ≡ rest)
decode_varint-inv first tail v rest e =
    elim (Bool-cases (ltb (suc (length tail)) (2 ^ (first / 64)))) [
      | inl lt ↦ cc (decode_varint-short first tail (ltb→lt _ _ lt))
      | inr ge ↦
          let le : 2 ^ (first / 64) ≤ suc (length tail) = ltb_false→le _ _ ge in
          let same = decode_varint-enough first tail le in
          (le, ground (arith, same), ground (arith, same))
    ]

-- A value of as many bytes as announced needs no more than that to be written.
value_fits : (t v : ℕ) → t < 4 → v < 64 * 256 ^ (2 ^ t - 1) → (v < 2 ^ 62) × (varint_len v ≤ 2 ^ t)
unfolding varint_len
value_fits zero v ht h = ground arith
value_fits (suc zero) v ht h = ground arith
value_fits (suc (suc zero)) v ht h = ground arith
value_fits (suc (suc (suc zero))) v ht h = ground arith
value_fits (suc (suc (suc (suc t)))) v ht h = absurd (omega arith)

All-take {ℓ κ} : {A : Type ℓ} (P : A → Type κ) (n : ℕ) (xs : List A) → All P xs → All P (take n xs)
All-take P zero xs h = tt
All-take P (suc n) [] h = tt
All-take P (suc n) (x ∷ xs) h = (h.0, All-take P n xs h.1)

push_six-lt :
    (v : ℕ) (bs : List ℕ)
    → v < 64
    → All IsByte bs
    → length bs ≤ 7
    → push_bytes v bs < 64 * 256 ^ length bs
push_six-lt v bs h bytes le =
    let small : 256 ^ length bs ≤ 256 ^ 7 = pow-le-pow_right {n = 256} (omega arith) le in
    let more : (v + 1) * 256 ^ length bs ≤ 64 * 256 ^ length bs = six_mono v _ h in
    omega (arith, push_bytes-lt v bs bytes (omega arith))

-- On bytes, a successful call returns a value below 2 ^ 62, takes at least one byte and at most
-- eight, and takes no fewer than the shortest encoding of the value has.
pub decode_varint_takes :
    (buf : List ℕ) (v : ℕ) (rest : List ℕ)
    → All IsByte buf
    → decode_varint buf ≡ some (v, rest)
    → (v < 2 ^ 62)
      × (length rest < length buf)
      × (length buf ≤ length rest + 8)
      × (length rest + varint_len v ≤ length buf)
decode_varint_takes [] v rest bytes e = unfold decode_varint in cc
decode_varint_takes (first ∷ tail) v rest bytes e =
    let n = 2 ^ (first / 64) in
    let (le, value, left) = decode_varint-inv first tail v rest e in
    let len : length (take (n - 1) tail) ≡ n - 1 = omega (arith, length-take (n - 1) tail) in
    let size = announced (first / 64) (omega arith) in
    let six : bit_and first 0x3f < 64 = omega (arith, low_six first bytes.0) in
    let below : push_bytes (bit_and first 0x3f) (take (n - 1) tail)
        < 64 * 256 ^ length (take (n - 1) tail) =
      push_six-lt _ _ six (All-take IsByte (n - 1) tail bytes.1) (omega arith) in
    let small : v < 64 * 256 ^ (n - 1) = rw (value, len) at below in
    let (fits, shortest) = value_fits (first / 64) v (omega arith) small in
    let gone : length rest ≡ suc (length tail) - n = rw (← left) (length-drop n (first ∷ tail)) in
    (fits, omega arith, omega arith, omega arith)

-- Whatever the input holds, a successful call takes at least one element of it.
pub decode_varint_shorter :
    (buf : List ℕ) (v : ℕ) (rest : List ℕ)
    → decode_varint buf ≡ some (v, rest)
    → length rest < length buf
decode_varint_shorter [] v rest e = unfold decode_varint in cc
decode_varint_shorter (first ∷ tail) v rest e =
    let n = 2 ^ (first / 64) in
    let (le, value, left) = decode_varint-inv first tail v rest e in
    let some_bytes : 0 < n = pow_pos (first / 64) in
    let gone : length rest ≡ suc (length tail) - n = rw (← left) (length-drop n (first ∷ tail)) in
    omega arith

-- It does not look past the number: bytes added behind the input join the rest.
pub decode_varint-append :
    (buf more : List ℕ) (v : ℕ) (rest : List ℕ)
    → decode_varint buf ≡ some (v, rest)
    → decode_varint (buf ++ more) ≡ some (v, rest ++ more)
decode_varint-append [] more v rest e = unfold decode_varint in cc
decode_varint-append (first ∷ tail) more v rest e =
    let n = 2 ^ (first / 64) in
    let (le, value, left) = decode_varint-inv first tail v rest e in
    decode_varint-enough first (tail ++ more) (omega (arith, length-append tail more))
    ∙ cc (
      value,
      left,
      take-append_le (n - 1) tail more (omega arith),
      drop-append_le n (first ∷ tail) more le,
    )
