-- ===== src/Cpu/Hpet/Sleep.antt =====
-- When `hpet_sleep` ends.
use b0s.Base.{ℕ, zero, suc}
use b0s.Cpu.Machine.{Machine, volatile_read64}
use b0s.Cpu.Hpet.{Hpet}

module _ {ℓ} {State : Type ℓ} (hw : Machine State) (counter : ℕ) where
  -- The state after `k` reads of the counter, and what read `k` gives, from 0 on.
  unfoldable pub after_reads : ℕ → State → State
  after_reads zero s = s
  after_reads (suc k) s = after_reads k (volatile_read64 hw counter s).1

  unfoldable pub reading : ℕ → State → ℕ
  reading k s = (volatile_read64 hw counter (after_reads k s)).0
