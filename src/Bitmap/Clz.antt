-- ===== src/Bitmap/Clz.antt =====
-- Counting leading zeros finds the highest one bit.
use b0s.Base.{ℕ, zero, suc, ◌+◌, ◌-◌, ◌<◌, ◌≡◌, ◌≢◌, ap, arith}
use b0s.Base.Bits.{bit, bit-zero}
use b0s.Bitmap.{clz_loop, clz}

clz_loop_at :
    (k w p : ℕ)
    → p < k
    → ((j : ℕ) → p + j + 1 ≡ k → bit w j ≡ 1)
    → ((q j : ℕ) → q < p → q + j + 1 ≡ k → bit w j ≡ 0)
    → clz_loop k w ≡ p
unfolding clz_loop
clz_loop_at zero w p lt one above = absurd (omega arith)
clz_loop_at (suc k) w zero lt one above = ground (arith, one k)
clz_loop_at (suc k) w (suc p) lt one above =
    let rest =
      clz_loop_at k w p (omega arith) (λ j e. one j (omega arith))
        (λ q j l e. above (suc q) j (omega arith) (omega arith)) in
    ground (arith, above 0 k, rest)

pub clz_at :
    (w p : ℕ) → p < 64 → bit w (63 - p) ≡ 1 → ((q : ℕ) → q < p → bit w (63 - q) ≡ 0) → clz w ≡ p
unfolding clz
clz_at w p lt one above =
    clz_loop_at 64 w p lt (λ j e. at_index j p (omega arith) one)
      (λ q j l e. at_index j q (omega arith) (above q l))
  where
    at_index : (j q : ℕ) → j ≡ 63 - q → {v : ℕ} → bit w (63 - q) ≡ v → bit w j ≡ v
    at_index j q e h = rw e h

pub ne-zero_of_bit : (w k : ℕ) → bit w k ≡ 1 → w ≢ 0
ne-zero_of_bit w k one e = omega (arith, bit-zero k, ap (λ (t : ℕ). bit t k) e)
