-- ===== src/Base/Mask.antt =====
-- The C test of one bit, `w & (1 << k)`.
use Prim.Native.Nat.{ℕ, zero, suc, ◌^◌, ◌<◌, bit_and}
use mathlib.Core.Path.{◌≡◌, ap, ◌∙◌}
use mathlib.Core.Logic.{◌≢◌, inl, inr}
use native.Mathlib.Omega.{arith}
use native.Mathlib.Nat.{pow-suc}
use b0s.Base.Tests.{◌==◌, ==→≡, ≡→==, ≢→==, Bool-cases}
use b0s.Base.Bits.{bit, bit-zero, bit_power, bit-bit_and, bit-lt-two, eq-zero_of_bits}

lt-power : (n : ℕ) → n < 2 ^ n
lt-power zero = omega arith
lt-power (suc n) = omega (arith, lt-power n, pow-suc 2 n)

pub mask-eq-zero : (w k : ℕ) → bit w k ≡ 0 → bit_and w (2 ^ k) ≡ 0
mask-eq-zero w k z = eq-zero_of_bits (bit_and w (2 ^ k)) (bit_and w (2 ^ k)) (lt-power _) λ j lt.
    elim (Bool-cases (j == k)) [
      | inl same ↦
          let e = ==→≡ j k same in
          ground (arith, bit-bit_and w (2 ^ k) j, ap (λ (t : ℕ). bit w t) e, z)
      | inr other ↦ ground (arith, bit-bit_and w (2 ^ k) j, bit_power k j)
    ]

pub mask-ne-zero : (w k : ℕ) → bit w k ≡ 1 → bit_and w (2 ^ k) ≢ 0
mask-ne-zero w k one e =
    let none = ap (λ (t : ℕ). bit t k) e ∙ bit-zero k in
    absurd (ground (arith, none, bit-bit_and w (2 ^ k) k, bit_power k k, one))

pub mask_test : (w k : ℕ) → (bit_and w (2 ^ k) == 0) ≡ (bit w k == 0)
mask_test w k = elim (Bool-cases (bit w k == 0)) [
  | inl z ↦ rw (z, ≡→== _ 0 (mask-eq-zero w k (==→≡ _ 0 z)))
  | inr other ↦
      let one : bit w k ≡ 1 = ground (arith, bit-lt-two w k) in
      rw (other, ≢→== _ 0 (mask-ne-zero w k one))
]
