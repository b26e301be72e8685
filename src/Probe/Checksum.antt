-- ===== src/Probe/Checksum.antt =====
-- `checksum` and `udp_checksum` of crates/warp-masque/examples/egress_probe.rs.
--
-- A sum is a `u32`, so that every addition wraps at 2 ^ 32; `>> 16`, `& 0xffff` and `!` of a `u16` are
-- written as a quotient, a remainder and a difference.
use warp_proxy.Base.{ℕ, zero, suc, ◌+◌, ◌-◌, ◌*◌, ◌/◌, ◌%◌, ◌^◌, ◌≤◌, ◌<◌}
use warp_proxy.Base.{◌≡◌, refl, ap, arith, ◌⊎◌, inl, inr, true, false, List, [], ◌∷◌, ◌++◌}
use warp_proxy.Base.{◌==◌, if◌then◌else◌, Bool-cases, ltb, ltb→lt, ltb_false→le}
use warp_proxy.Base.{length, All}
use warp_proxy.Varint.{IsByte}

-- `u16::to_be_bytes`
unfoldable pub u16_bytes : ℕ → List ℕ
u16_bytes n = n / 256 % 256 ∷ n % 256 ∷ []

-- `u16::from_be_bytes`
abbrev pub from_be_bytes : ℕ → ℕ → ℕ
from_be_bytes a b = a * 256 + b

-- The first loop, from a sum on, and the odd byte behind it.
unfoldable pub add_words : ℕ → List ℕ → ℕ
add_words sum [] = sum
add_words sum (a ∷ []) = (sum + a * 256) % 2 ^ 32
add_words sum (a ∷ b ∷ data_left) = add_words ((sum + from_be_bytes a b) % 2 ^ 32) data_left

-- The second loop; the fuel bounds its rounds.
unfoldable pub fold_carries : ℕ → ℕ → ℕ
fold_carries zero sum = sum
fold_carries (suc fuel) sum =
    let folded = fold_carries fuel (sum % 65536 + sum / 65536) in
    if sum / 65536 == 0 then sum else folded

unfoldable pub checksum : List ℕ → ℕ
unfolding add_words fold_carries
checksum bytes = 65535 - fold_carries 3 (add_words 0 bytes) % 65536

unfoldable pub pseudo_header : List ℕ → List ℕ → List ℕ → List ℕ
unfolding u16_bytes
pseudo_header src dst udp = src ++ dst ++ 0 ∷ 17 ∷ u16_bytes (length udp % 65536)

unfoldable pub udp_checksum : List ℕ → List ℕ → List ℕ → ℕ
unfolding pseudo_header checksum
udp_checksum src dst udp =
    let c = checksum (pseudo_header src dst udp ++ udp) in if c == 0 then 0xffff else c

-- What every round keeps: the sum modulo 65535, and whether it is 0.
abbrev pub Carried : ℕ → ℕ → Type 0
Carried s f = ((k : ℕ) × (s ≡ 65535 * k + f)) × ((f ≡ 0) → s ≡ 0)

pub fold_carries-Carried : (fuel s : ℕ) → Carried s (fold_carries fuel s)
unfolding fold_carries
fold_carries-Carried zero s = ((0, omega arith), λ e. e)
fold_carries-Carried (suc fuel) s =
    let ((k, e), nonzero) = fold_carries-Carried fuel (s % 65536 + s / 65536) in
    elim (Bool-cases (s / 65536 == 0)) [
      | inl small ↦ rw small ((0, omega arith), λ z. z)
      | inr large ↦ rw large ((s / 65536 + k, omega (arith, e)), λ z. omega (arith, nonzero z))
    ]

fold_carries-small : (fuel s : ℕ) → s < 65536 → fold_carries fuel s ≡ s
unfolding fold_carries
fold_carries-small zero s h = refl
fold_carries-small (suc fuel) s h =
    let small : (s / 65536 == 0) ≡ true = ground arith in rw small refl

fold_carries_step :
    (fuel s : ℕ) → 65536 ≤ s → fold_carries (suc fuel) s ≡ fold_carries fuel (s % 65536 + s / 65536)
unfolding fold_carries
fold_carries_step fuel s h = let large : (s / 65536 == 0) ≡ false = ground arith in rw large refl

fold_carries_once :
    (fuel s : ℕ)
    → s < 2 ^ 17 - 1
    → (fold_carries (suc fuel) s ≡ fold_carries 1 s) × (fold_carries 1 s < 65536)
fold_carries_once fuel s h = elim (Bool-cases (ltb s 65536)) [
  | inl small ↦
      let lt = ltb→lt s 65536 small in
      rw (fold_carries-small (suc fuel) s lt, fold_carries-small 1 s lt) (refl, lt)
  | inr large ↦
      let le = ltb_false→le s 65536 large in
      let once : s % 65536 + s / 65536 < 65536 = omega arith in
      rw
        (
          fold_carries_step fuel s le,
          fold_carries_step 0 s le,
          fold_carries-small fuel (s % 65536 + s / 65536) once,
          fold_carries-small 0 (s % 65536 + s / 65536) once,
        )
        (refl, once)
]

-- A `u32` is below 2 ^ 16 after two rounds at most, and further fuel changes nothing.
pub fold_carries-enough :
    (fuel s : ℕ)
    → s < 2 ^ 32
    → (fold_carries (suc (suc fuel)) s ≡ fold_carries 2 s) × (fold_carries 2 s < 65536)
fold_carries-enough fuel s h = elim (Bool-cases (ltb s 65536)) [
  | inl small ↦
      let lt = ltb→lt s 65536 small in
      rw (fold_carries-small (suc (suc fuel)) s lt, fold_carries-small 2 s lt) (refl, lt)
  | inr large ↦
      let le = ltb_false→le s 65536 large in
      rw (fold_carries_step (suc fuel) s le, fold_carries_step 1 s le)
        (fold_carries_once fuel (s % 65536 + s / 65536) (omega arith))
]

-- The words of RFC 1071, added without a bound: an odd byte is the high one of its word.
pub total_words : List ℕ → ℕ
total_words [] = 0
total_words (a ∷ []) = a * 256
total_words (a ∷ b ∷ data_left) = a * 256 + b + total_words data_left

pub total_words-le :
    (bytes : List ℕ) → All IsByte bytes → total_words bytes ≤ 32768 * (length bytes + 1)
unfolding total_words
total_words-le [] h = omega arith
total_words-le (a ∷ []) h = omega (arith, h.0)
total_words-le (a ∷ b ∷ bytes) h = omega (arith, h.0, h.1.0, total_words-le bytes h.1.1)

pub add_words-total :
    (sum : ℕ) (bytes : List ℕ)
    → sum + total_words bytes < 2 ^ 32
    → add_words sum bytes ≡ sum + total_words bytes
unfolding add_words total_words
add_words-total sum [] h = omega arith
add_words-total sum (a ∷ []) h = omega arith
add_words-total sum (a ∷ b ∷ bytes) h =
    let small : (sum + from_be_bytes a b) % 2 ^ 32 ≡ sum + from_be_bytes a b = omega arith in
    rw small (omega (arith, add_words-total (sum + from_be_bytes a b) bytes (omega arith)))

-- What a receiver finds in a message that came unharmed: the one's complement sum of its words, which
-- is their sum modulo 65535 and is written as all ones where it is 0, is all ones.
pub SumsToOnes : List ℕ → Type 0
SumsToOnes bytes = (q : ℕ) × (total_words bytes ≡ 65535 * q) × (0 < q)

total_words-append :
    (n : ℕ) (xs ys : List ℕ)
    → length xs ≡ 2 * n
    → total_words (xs ++ ys) ≡ total_words xs + total_words ys
unfolding total_words
total_words-append n [] ys e = omega arith
total_words-append n (a ∷ []) ys e = absurd (omega arith)
total_words-append zero (a ∷ b ∷ xs) ys e = absurd (omega arith)
total_words-append (suc n) (a ∷ b ∷ xs) ys e =
    omega (arith, total_words-append n xs ys (omega arith))

-- The message with the word `w` where its checksum goes.
abbrev pub with_word : List ℕ → ℕ → List ℕ → List ℕ
with_word before w rest = before ++ (u16_bytes w ++ rest)

total_words-u16_bytes :
    (w : ℕ) (rest : List ℕ) → w < 65536 → total_words (u16_bytes w ++ rest) ≡ w + total_words rest
unfolding total_words u16_bytes
total_words-u16_bytes w rest h = omega arith

total_words-with_word :
    (n : ℕ) (before : List ℕ) (w : ℕ) (rest : List ℕ)
    → length before ≡ 2 * n
    → w < 65536
    → total_words (with_word before w rest) ≡ total_words (with_word before 0 rest) + w
total_words-with_word n before w rest e small =
    let sums : total_words (before ++ (u16_bytes w ++ rest))
        ≡ total_words (before ++ (u16_bytes 0 ++ rest)) + w =
      omega (
        arith,
        total_words-append n before (u16_bytes w ++ rest) e,
        total_words-append n before (u16_bytes 0 ++ rest) e,
        total_words-u16_bytes w rest small,
        total_words-u16_bytes 0 rest (omega arith),
      ) in
    sums

-- The word that is put in: the checksum, or all ones in place of 0.
abbrev pub Fills : ℕ → ℕ → Type 0
Fills c w = (w ≡ c) ⊎ (c ≡ 0) × (w ≡ 65535)

checksum_sum :
    (bytes : List ℕ) (s : ℕ)
    → add_words 0 bytes ≡ s
    → checksum bytes ≡ 65535 - fold_carries 3 s % 65536
unfolding checksum fold_carries
checksum_sum bytes s e = ap (λ (t : ℕ). 65535 - fold_carries 3 t % 65536) e

checksum-total :
    (bytes : List ℕ)
    → total_words bytes < 2 ^ 32
    → checksum bytes + fold_carries 3 (total_words bytes) ≡ 65535
checksum-total bytes h =
    let s = total_words bytes in
    let (more, small) = fold_carries-enough 1 s h in
    let sum : add_words 0 bytes ≡ s = omega (arith, add_words-total 0 bytes (omega arith)) in
    omega (arith, checksum_sum bytes s sum)

filled_small : (c w : ℕ) → Fills c w → c < 65536 → w < 65536
filled_small c w (inl e) h = omega arith
filled_small c w (inr e) h = omega (arith, e.1)

filled_ones :
    (c w s f k : ℕ)
    → Fills c w
    → c + f ≡ 65535
    → s ≡ 65535 * k + f
    → ((f ≡ 0) → s ≡ 0)
    → (q : ℕ) × (s + w ≡ 65535 * q) × (0 < q)
filled_ones c w s f k (inl e) c_f s_f nonzero = (k + 1, omega arith, omega arith)
filled_ones c w s f k (inr e) c_f s_f nonzero = (k + 2, omega (arith, e.0, e.1), omega arith)

-- A message that has its checksum in is found correct.
pub checksum-with_word :
    (n : ℕ) (before : List ℕ) (w : ℕ) (rest : List ℕ)
    → length before ≡ 2 * n
    → total_words (with_word before 0 rest) < 2 ^ 32 - 65535
    → Fills (checksum (with_word before 0 rest)) w
    → SumsToOnes (with_word before w rest)
unfolding SumsToOnes
checksum-with_word n before w rest e bound fills =
    let s = total_words (with_word before 0 rest) in
    let ((k, carried), nonzero) = fold_carries-Carried 3 s in
    let was = checksum-total (with_word before 0 rest) (omega arith) in
    let small : w < 65536 =
      filled_small (checksum (with_word before 0 rest)) w fills (omega arith) in
    let now = total_words-with_word n before w rest e small in
    let (q, multiple, positive) =
      filled_ones (checksum (with_word before 0 rest)) w s (fold_carries 3 s) k fills was carried
        nonzero in
    (q, omega arith, positive)
