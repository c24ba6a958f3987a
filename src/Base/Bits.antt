-- ===== src/Base/Bits.antt =====
-- The bits of a word, and what `&`, `|`, `~` and `1 << k` do to each of them.
use Prim.Native.Nat.{min, max, digits, bitwise, bit_and-bitwise, bit_or-bitwise}
use Prim.Native.Nat.{ℕ, zero, suc, ◌+◌, ◌-◌, ◌*◌, ◌/◌, ◌%◌, ◌^◌, ◌≤◌, ◌<◌, bit_and, bit_or}
use mathlib.Core.Path.{◌≡◌, refl, ap}
use native.Mathlib.Nat.{pow-suc, one-le-pow, div-add-mod, div-div-eq-div-mul}
use native.Mathlib.Omega.{arith}
use b0s.Base.Word.{u64, not64}
use b0s.Base.Tests.{◌==◌, if◌then◌else◌}

-- Bit `k` of `w`, 0 or 1.
unfoldable pub bit : ℕ → ℕ → ℕ
bit w zero = w % 2
bit w (suc k) = bit (w / 2) k

-- The lowest digit of a digitwise operation, without its count of rounds.
module _ (z : ℕ → ℕ) (f : ℕ → ℕ → ℕ) where
  digits_enough : (a b k n : ℕ) → a ≤ k → a ≤ n → digits z f k a b ≡ digits z f n a b
  digits_enough zero b zero zero h h' = refl
  digits_enough zero b zero (suc n) h h' = refl
  digits_enough zero b (suc k) zero h h' = refl
  digits_enough zero b (suc k) (suc n) h h' = refl
  digits_enough (suc a) b zero n h h' = absurd (omega arith)
  digits_enough (suc a) b (suc k) zero h h' = absurd (omega arith)
  digits_enough (suc a) b (suc k) (suc n) h h' =
      rw (digits_enough (suc a / 2) (b / 2) k n (omega arith) (omega arith))

  bitwise_digit :
      (a b : ℕ)
      → bitwise z f (suc a) b ≡ bitwise z f (suc a / 2) (b / 2) * 2 + f (suc a % 2) (b % 2)
  bitwise_digit a b =
      let same = digits_enough (suc a / 2) (b / 2) a (suc a / 2) (omega arith) (omega arith) in
      omega (arith, same)

pub bit_and_digit : (a b : ℕ) → bit_and a b ≡ bit_and (a / 2) (b / 2) * 2 + min (a % 2) (b % 2)
bit_and_digit zero b = simp bit_and-bitwise (omega arith)
bit_and_digit (suc a) b = simp bit_and-bitwise (bitwise_digit (λ c. 0) min a b)

pub bit_or_digit : (a b : ℕ) → bit_or a b ≡ bit_or (a / 2) (b / 2) * 2 + max (a % 2) (b % 2)
bit_or_digit zero b = simp bit_or-bitwise (omega arith)
bit_or_digit (suc a) b = simp bit_or-bitwise (bitwise_digit (λ c. c) max a b)

pub bit-lt-two : (w k : ℕ) → bit w k < 2
unfolding bit
bit-lt-two w zero = omega arith
bit-lt-two w (suc k) = bit-lt-two (w / 2) k

pub bit-bit_and : (a b k : ℕ) → bit (bit_and a b) k ≡ min (bit a k) (bit b k)
unfolding bit
bit-bit_and a b zero = omega (arith, bit_and_digit a b)
bit-bit_and a b (suc k) =
    let half : bit_and a b / 2 ≡ bit_and (a / 2) (b / 2) = omega (arith, bit_and_digit a b) in
    rw half (bit-bit_and (a / 2) (b / 2) k)

pub bit-bit_or : (a b k : ℕ) → bit (bit_or a b) k ≡ max (bit a k) (bit b k)
unfolding bit
bit-bit_or a b zero = omega (arith, bit_or_digit a b)
bit-bit_or a b (suc k) =
    let half : bit_or a b / 2 ≡ bit_or (a / 2) (b / 2) = omega (arith, bit_or_digit a b) in
    rw half (bit-bit_or (a / 2) (b / 2) k)

pub bit-zero : (k : ℕ) → bit 0 k ≡ 0
unfolding bit
bit-zero zero = refl
bit-zero (suc k) = bit-zero k

-- The complement within `n` bits.
pub bit_complement : (n a k : ℕ) → a < 2 ^ n → k < n → bit (2 ^ n - 1 - a) k ≡ 1 - bit a k
unfolding bit
bit_complement zero a k h lt = absurd (omega arith)
bit_complement (suc n) a zero h lt = omega (arith, pow-suc 2 n, one-le-pow n 2)
bit_complement (suc n) a (suc k) h lt =
    let half : (2 ^ suc n - 1 - a) / 2 ≡ 2 ^ n - 1 - a / 2 =
      omega (arith, pow-suc 2 n, one-le-pow n 2) in
    rw half (bit_complement n (a / 2) k (omega (arith, pow-suc 2 n)) (omega arith))

pub bit_power : (k j : ℕ) → bit (2 ^ k) j ≡ (if j == k then 1 else 0)
unfolding bit
bit_power zero zero = refl
bit_power zero (suc j) = ground (arith, bit-zero j)
bit_power (suc k) zero = ground (arith, pow-suc 2 k)
bit_power (suc k) (suc j) =
    let half : 2 ^ suc k / 2 ≡ 2 ^ k = omega (arith, pow-suc 2 k) in
    rw half (ground (arith, bit_power k j))

pub half_low : (p w : ℕ) → 0 < p → (w % (2 * p) / 2 ≡ w / 2 % p) × (w % (2 * p) % 2 ≡ w % 2)
half_low p w h =
    let whole = div-add-mod w (2 * p) in
    let halves = div-add-mod (w / 2) p in
    let same : w / 2 / p ≡ w / (2 * p) = div-div-eq-div-mul w 2 p in
    let lifted = ap (λ (t : ℕ). p * t) same in
    (omega (arith, whole, halves, lifted), omega (arith, whole))

-- Cutting a value to `n` bits keeps the bits below `n`.
pub bit_low : (n w k : ℕ) → k < n → bit (w % 2 ^ n) k ≡ bit w k
unfolding bit
bit_low zero w k lt = absurd (omega arith)
bit_low (suc n) w zero lt =
    let e : 2 ^ suc n ≡ 2 * 2 ^ n = omega (arith, pow-suc 2 n) in
    rw e (half_low (2 ^ n) w (one-le-pow n 2 (omega arith))).1
bit_low (suc n) w (suc k) lt =
    let e : 2 ^ suc n ≡ 2 * 2 ^ n = omega (arith, pow-suc 2 n) in
    rw (e, (half_low (2 ^ n) w (one-le-pow n 2 (omega arith))).0)
      (bit_low n (w / 2) k (omega arith))

-- A word whose bits are all 0 is 0.
pub eq-zero_of_bits : (n w : ℕ) → w < 2 ^ n → ((k : ℕ) → k < n → bit w k ≡ 0) → w ≡ 0
unfolding bit
eq-zero_of_bits zero w h z = omega arith
eq-zero_of_bits (suc n) w h z =
    let rest : w / 2 ≡ 0 =
      eq-zero_of_bits n (w / 2) (omega (arith, pow-suc 2 n)) (λ k lt. z (suc k) (omega arith)) in
    omega (arith, z 0 (omega arith))

pub power-lt : (k n : ℕ) → k < n → 2 ^ k < 2 ^ n
power-lt zero zero h = absurd (omega arith)
power-lt zero (suc n) h = omega (arith, pow-suc 2 n, one-le-pow n 2)
power-lt (suc k) zero h = absurd (omega arith)
power-lt (suc k) (suc n) h = omega (arith, pow-suc 2 k, pow-suc 2 n, power-lt k n (omega arith))

-- Clearing and setting one bit of a 64-bit word.
pub bit-clear :
    (w k j : ℕ)
    → k < 64
    → j < 64
    → bit (bit_and w (not64 (2 ^ k))) j ≡ (if j == k then 0 else bit w j)
bit-clear w k j hk hj =
    let fits = power-lt k 64 hk in
    let mask : u64 (2 ^ k) ≡ 2 ^ k = omega arith in
    let flipped : bit (not64 (2 ^ k)) j ≡ 1 - bit (2 ^ k) j =
      rw mask (bit_complement 64 (2 ^ k) j fits hj) in
    ground (arith, bit-bit_and w (not64 (2 ^ k)) j, flipped, bit_power k j, bit-lt-two w j)

pub bit-set_one : (w k j : ℕ) → k < 64 → bit (bit_or w (2 ^ k)) j ≡ (if j == k then 1 else bit w j)
bit-set_one w k j hk = ground (arith, bit-bit_or w (2 ^ k) j, bit_power k j, bit-lt-two w j)
