-- ===== src/Base/Bits.antt =====
-- `|` and `&` of machine words as arithmetic, at variables.
use Prim.Native.Nat.{ℕ, zero, suc, ◌+◌, ◌*◌, ◌/◌, ◌%◌, ◌^◌, ◌≤◌, ◌<◌, max}
use Prim.Native.Nat.{bit_and, bit_or, digits, bit_or-bitwise}
use mathlib.Core.Path.{◌≡◌, refl, ap}
use mathlib.Core.Bool.{Bool, true, ◌&&◌}
use native.Mathlib.Omega.{arith}
use native.Mathlib.Nat.{pow-suc}
use warp_proxy.Base.Tests.{◌==◌, ==_iff}

-- A test that passes at every number below a bound, checked by evaluation.
holds_below : ℕ → (ℕ → Bool) → Bool
holds_below zero p = true
holds_below (suc n) p = p n && holds_below n p

holds_below→true : (n : ℕ) (p : ℕ → Bool) (x : ℕ) → holds_below n p ≡ true → x < n → p x ≡ true
unfolding holds_below
holds_below→true zero p x h lt = absurd (omega arith)
holds_below→true (suc n) p x h lt = ground (arith, holds_below→true n p x)

low_six_table : holds_below 256 (λ x. bit_and x 0x3f == x % 64) ≡ true
unfolding holds_below
low_six_table = refl

-- `b & 0x3f` keeps the low six bits of a byte.
pub low_six : (b : ℕ) → b < 256 → bit_and b 0x3f ≡ b % 64
low_six b h = (==_iff _ _).0 (holds_below→true 256 _ b low_six_table h)

top_two_table : holds_below 64 (λ x. bit_and x 0xc0 == 0) ≡ true
unfolding holds_below
top_two_table = refl

-- `b & 0xc0` is 0 for a number of six bits.
pub top_two : (b : ℕ) → b < 64 → bit_and b 0xc0 ≡ 0
top_two b h = (==_iff _ _).0 (holds_below→true 64 _ b top_two_table h)

pointer_table : holds_below 64 (λ x. bit_and (0xc0 + x) 0xc0 == 0xc0) ≡ true
unfolding holds_below
pointer_table = refl

-- `b & 0xc0` keeps the two high bits of a byte that has both.
pub top_two_set : (b : ℕ) → b < 64 → (bit_and (0xc0 + b) 0xc0 == 0xc0) ≡ true
top_two_set b h = holds_below→true 64 _ b pointer_table h

or_three_table : holds_below 4 (λ x. bit_or x 3 == 3) ≡ true
unfolding holds_below
or_three_table = refl

pub or_three : (a : ℕ) → a < 4 → bit_or a 3 ≡ 3
or_three a h = (==_iff _ _).0 (holds_below→true 4 _ a or_three_table h)

-- The digit recursion that the native `bit_or` stands for, with its fuel.
abbrev or_fuel : ℕ → ℕ → ℕ → ℕ
or_fuel n a b = digits (λ c. c) max n a b

or_fuel_enough : (n m a b : ℕ) → a ≤ n → a ≤ m → or_fuel n a b ≡ or_fuel m a b
or_fuel_enough zero zero a b p q = refl
or_fuel_enough zero (suc m) zero b p q = refl
or_fuel_enough zero (suc m) (suc a) b p q = absurd (omega arith)
or_fuel_enough (suc n) zero zero b p q = refl
or_fuel_enough (suc n) zero (suc a) b p q = absurd (omega arith)
or_fuel_enough (suc n) (suc m) zero b p q = refl
or_fuel_enough (suc n) (suc m) (suc a) b p q =
    omega (arith, or_fuel_enough n m (suc a / 2) (b / 2) (omega arith) (omega arith))

zero-bit_or : (b : ℕ) → bit_or 0 b ≡ b
zero-bit_or b = bit_or-bitwise 0 b

bit_or_step : (a b : ℕ) → bit_or a b ≡ bit_or (a / 2) (b / 2) * 2 + max (a % 2) (b % 2)
bit_or_step zero b = omega (arith, zero-bit_or b, zero-bit_or (b / 2))
bit_or_step (suc a) b = omega (
  arith,
  bit_or-bitwise (suc a) b,
  bit_or-bitwise (suc a / 2) (b / 2),
  or_fuel_enough a (suc a / 2) (suc a / 2) (b / 2) (omega arith) (omega arith),
)

halves : (x k a : ℕ) → (a * 2 ^ suc k + x) / 2 ≡ a * 2 ^ k + x / 2
halves x k a = omega (arith, ap (λ (t : ℕ). a * t) (pow-suc 2 k))

parity : (x k a : ℕ) → (a * 2 ^ suc k + x) % 2 ≡ x % 2
parity x k a = omega (arith, ap (λ (t : ℕ). a * t) (pow-suc 2 k))

-- `|` works on the bits from position `k` on and on those below it separately.
pub bit_or_split :
    (k a b x y : ℕ)
    → x < 2 ^ k
    → y < 2 ^ k
    → bit_or (a * 2 ^ k + x) (b * 2 ^ k + y) ≡ bit_or a b * 2 ^ k + bit_or x y
bit_or_split zero a b x y hx hy =
    let left : a * 2 ^ 0 + x ≡ a = omega arith in
    let right : b * 2 ^ 0 + y ≡ b = omega arith in
    let no_x : x ≡ 0 = omega arith in
    let no_y : y ≡ 0 = omega arith in rw (left, right, no_x, no_y) (omega arith)
bit_or_split (suc k) a b x y hx hy =
    rw (bit_or_step (a * 2 ^ suc k + x), halves x k a, halves y k b, parity x k a, parity y k b)
      (omega (
        arith,
        bit_or_split k a b (x / 2) (y / 2) (omega (arith, pow-suc 2 k))
            (omega (arith, pow-suc 2 k)),
        bit_or_step x y,
        ap (λ (t : ℕ). bit_or a b * t) (pow-suc 2 k),
      ))

bit_or-zero_fuel : (n a : ℕ) → a ≤ n → bit_or a 0 ≡ a
bit_or-zero_fuel n zero h = refl
bit_or-zero_fuel zero (suc a) h = absurd (omega arith)
bit_or-zero_fuel (suc n) (suc a) h =
    omega (arith, bit_or_step (suc a) 0, bit_or-zero_fuel n (suc a / 2) (omega arith))

bit_or-zero : (a : ℕ) → bit_or a 0 ≡ a
bit_or-zero a = bit_or-zero_fuel a a (omega arith)

-- A tag put above the `k` low bits that a number leaves free.
pub bit_or_tag : (k b x : ℕ) → x < 2 ^ k → bit_or x (b * 2 ^ k) ≡ b * 2 ^ k + x
bit_or_tag k b x h =
    let left : 0 * 2 ^ k + x ≡ x = omega arith in
    let right : b * 2 ^ k + 0 ≡ b * 2 ^ k = omega arith in
    let zero_left : bit_or 0 b ≡ b = zero-bit_or b in
    let split : bit_or (0 * 2 ^ k + x) (b * 2 ^ k + 0) ≡ bit_or 0 b * 2 ^ k + bit_or x 0 =
      bit_or_split k 0 b x 0 h (omega arith) in
    rw (left, right, zero_left, bit_or-zero x) at split

-- `(v << 8) | b` for a byte `b`.
pub bit_or_byte : (v b : ℕ) → b < 256 → bit_or (v * 256) b ≡ v * 256 + b
bit_or_byte v b h =
    let left : v * 256 + 0 ≡ v * 256 = omega arith in
    let right : 0 * 256 + b ≡ b = omega arith in
    let split : bit_or (v * 256 + 0) (0 * 256 + b) ≡ bit_or v 0 * 256 + bit_or 0 b =
      bit_or_split 8 v 0 0 b (omega arith) h in
    rw (left, right, bit_or-zero v, zero-bit_or b) at split

-- `v | 3 << 62` on a `u64`: the two high bits become ones, whatever they were.
pub bit_or_top : (v : ℕ) → v < 2 ^ 64 → bit_or v (3 * 2 ^ 62) ≡ 3 * 2 ^ 62 + v % 2 ^ 62
bit_or_top v h =
    let left : v / 2 ^ 62 * 2 ^ 62 + v % 2 ^ 62 ≡ v = omega arith in
    let right : 3 * 2 ^ 62 + 0 ≡ 3 * 2 ^ 62 = omega arith in
    let split : bit_or (v / 2 ^ 62 * 2 ^ 62 + v % 2 ^ 62) (3 * 2 ^ 62 + 0)
        ≡ bit_or (v / 2 ^ 62) 3 * 2 ^ 62 + bit_or (v % 2 ^ 62) 0 =
      bit_or_split 62 (v / 2 ^ 62) 3 (v % 2 ^ 62) 0 (omega arith) (omega arith) in
    omega (
      arith,
      ap (λ (t : ℕ). bit_or t (3 * 2 ^ 62)) left,
      split,
      or_three (v / 2 ^ 62),
      bit_or-zero (v % 2 ^ 62),
    )
