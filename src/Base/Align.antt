-- ===== src/Base/Align.antt =====
-- The alignment macros of kernel/lib/math/math.h and paging.h as arithmetic, at page size.
use b0s.Base.Bits.{bit_or_digit, bit_and_digit, half_low}
use b0s.Base.Word.{add64, roundup, page_addr, page_size}
use Prim.Native.Nat.{ℕ, zero, suc, ◌+◌, ◌-◌, ◌*◌, ◌/◌, ◌%◌, ◌^◌, ◌<◌, bit_and, bit_or}
use mathlib.Core.Path.{◌≡◌, ap, ◌∙◌}
use native.Mathlib.Nat.{pow-suc, one-le-pow, one-mul, mul_assoc}
use native.Mathlib.Omega.{arith}

bit_and-zero : (n x : ℕ) → x < 2 ^ n → bit_and x 0 ≡ 0
bit_and-zero zero x h = omega (arith, bit_and_digit x 0, ap (λ (t : ℕ). bit_and t 0) (zero_of x h))
  where
    zero_of : (y : ℕ) → y < 1 → y ≡ 0
    zero_of y l = omega arith
bit_and-zero (suc n) x h =
    omega (arith, bit_and_digit x 0, bit_and-zero n (x / 2) (omega (arith, pow-suc 2 n)))

bit_and_ones : (m x : ℕ) → x < 2 ^ m → bit_and x (2 ^ m - 1) ≡ x
bit_and_ones zero x h = omega (arith, bit_and-zero zero x h)
bit_and_ones (suc m) x h =
    let half : (2 ^ suc m - 1) / 2 ≡ 2 ^ m - 1 = omega (arith, pow-suc 2 m, one-le-pow m 2) in
    let same = ap (λ (t : ℕ). bit_and (x / 2) t) half in
    omega (
      arith,
      bit_and_digit x (2 ^ suc m - 1),
      same,
      bit_and_ones m (x / 2) (omega (arith, pow-suc 2 m)),
      pow-suc 2 m,
      one-le-pow m 2,
    )

-- A mask of `m` ones is the remainder by `2 ^ m`.
pub bit_and_low : (n m x : ℕ) → x < 2 ^ n → bit_and x (2 ^ m - 1) ≡ x % 2 ^ m
bit_and_low n zero x h = omega (arith, bit_and-zero n x h)
bit_and_low n (suc m) x h =
    let two : 2 ^ suc m ≡ 2 * 2 ^ m = omega (arith, pow-suc 2 m) in
    let half : (2 ^ suc m - 1) / 2 ≡ 2 ^ m - 1 = omega (arith, pow-suc 2 m, one-le-pow m 2) in
    let same = ap (λ (t : ℕ). bit_and (x / 2) t) half in
    let low = half_low (2 ^ m) x (one-le-pow m 2 (omega arith)) in
    let cut = ap (λ (t : ℕ). x % t) two in
    omega (
      arith,
      bit_and_digit x (2 ^ suc m - 1),
      same,
      bit_and_low n m (x / 2) (omega arith),
      low.0,
      low.1,
      cut,
      pow-suc 2 m,
      one-le-pow m 2,
    )

-- A mask of `m` ones above `k` zeros clears the low bits.
bit_and_high : (k m x : ℕ) → x < 2 ^ k * 2 ^ m → bit_and x (2 ^ k * (2 ^ m - 1)) ≡ x - x % 2 ^ k
bit_and_high zero m x h =
    let same = ap (λ (t : ℕ). bit_and x t) (one-mul (2 ^ m - 1)) in
    omega (arith, same, bit_and_ones m x (omega arith))
bit_and_high (suc k) m x h =
    let p = 2 ^ k in
    let high = 2 ^ k * (2 ^ m - 1) in
    let two : 2 ^ suc k ≡ 2 * p = omega (arith, pow-suc 2 k) in
    let twice : 2 ^ suc k * (2 ^ m - 1) ≡ 2 * high = rw two (mul_assoc 2 p (2 ^ m - 1)) in
    let shifted : 2 * high / 2 ≡ high = omega arith in
    let same = ap (λ (t : ℕ). bit_and (x / 2) t) shifted in
    let low = half_low p x (one-le-pow k 2 (omega arith)) in
    let fits : x / 2 < p * 2 ^ m = omega (arith, ap (λ (t : ℕ). t * 2 ^ m) two) in
    let half = bit_and_high k m (x / 2) fits in
    rw (twice, two) (omega (arith, bit_and_digit x (2 * high), same, half, low.0, low.1))

pub page_addr_lem : (x : ℕ) → x < 2 ^ 64 → page_addr x page_size ≡ x - x % 4096
unfolding page_addr
page_addr_lem x h = bit_and_high 12 52 x h

-- `ROUNDUP` gives the next boundary, also where the number is on one.
pub roundup_lem : (x : ℕ) → x + 4096 < 2 ^ 64 → roundup x page_size ≡ x - x % 4096 + 4096
unfolding roundup
roundup_lem x h = omega (arith, bit_and_high 12 52 (add64 x page_size) (omega arith))

bit_or-zero : (n x : ℕ) → x < 2 ^ n → bit_or x 0 ≡ x
bit_or-zero zero x h = omega (arith, bit_or_digit x 0, ap (λ (t : ℕ). bit_or t 0) (zero_of x h))
  where
    zero_of : (y : ℕ) → y < 1 → y / 2 ≡ 0
    zero_of y l = omega arith
bit_or-zero (suc n) x h =
    omega (arith, bit_or_digit x 0, bit_or-zero n (x / 2) (omega (arith, pow-suc 2 n)))

-- A number below a boundary, put into the low bits that the other leaves 0.
pub bit_or_low : (n m a p : ℕ) → a < 2 ^ n → p < 2 ^ m → bit_or (a * 2 ^ m) p ≡ a * 2 ^ m + p
bit_or_low n zero a p ha hp =
    let none : p ≡ 0 = omega arith in
    let whole : a * 2 ^ 0 ≡ a = omega arith in rw (none, whole) (bit_or-zero n a ha ∙ omega arith)
bit_or_low n (suc m) a p ha hp =
    let two : 2 ^ suc m ≡ 2 ^ m * 2 = omega (arith, pow-suc 2 m) in
    let double : a * 2 ^ suc m ≡ a * 2 ^ m * 2 =
      omega (arith, ap (λ (t : ℕ). a * t) two, mul_assoc a (2 ^ m) 2) in
    let half : a * 2 ^ suc m / 2 ≡ a * 2 ^ m = omega arith in
    let same = ap (λ (t : ℕ). bit_or t (p / 2)) half in
    let rest = bit_or_low n m a (p / 2) ha (omega (arith, pow-suc 2 m)) in
    omega (arith, bit_or_digit (a * 2 ^ suc m) p, same, rest)

-- The same at 16 bytes.
pub roundup-sixteen : (x : ℕ) → x + 16 < 2 ^ 64 → roundup x 16 ≡ x - x % 16 + 16
unfolding roundup
roundup-sixteen x h = omega (arith, bit_and_high 4 60 (add64 x 16) (omega arith))
