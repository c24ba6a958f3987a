-- ===== src/Base/Result.antt =====
-- Calls that may end in `panic`, which halts the kernel and does not return.
use mathlib.Core.Bool.{Bool, true, false}
use mathlib.Core.Path.{◌≡◌, refl}
use mathlib.Core.Logic.{◌⊎◌, inl, inr}

-- One reason for each message that the modelled code passes to `panic`; `diverges` stands for a
-- loop of the source that runs on past the rounds that the model gives it, and `null_write` for a
-- write through NULL. `undefined` stands for what C leaves undefined: a signed overflow, a division by
-- 0.
pub data Reason : Type 0 where
  memory_overlap pmap_full no_memory freeing_kernel bad_free : Reason
  region_overlap no_region not_contiguous va_in_use not_mapped : Reason
  invalid_table unknown_pointer heap_impossible heap_init no_boot_process : Reason
  bad_magic unaligned_infos missing_tags no_pids : Reason
  not_same_mapping null_write diverges : Reason
  missing_hardware map_failed page_fault unexpected_interrupt undefined : Reason

pub data Result {ℓ} (A : Type ℓ) : Type ℓ where
  ok : A → Result A
  panic : Reason → Result A

infixl 5 ◌>>=◌
abbrev pub ◌>>=◌ {ℓ κ} : {A : Type ℓ} {B : Type κ} → Result A → (A → Result B) → Result B
ok a >>= f = f a
panic e >>= f = panic e

-- The C idiom `if (bad) panic(…);` before the rest.
abbrev pub panic_if {ℓ} : {A : Type ℓ} → Bool → Reason → Result A → Result A
panic_if true e rest = panic e
panic_if false e rest = rest

-- A call ends in a panic, or it gives a value.
pub Result-cases {ℓ} :
    {A : Type ℓ} (r : Result A) → ((e : Reason) × (r ≡ panic e)) ⊎ ((x : A) × (r ≡ ok x))
Result-cases (panic e) = inl (e, refl)
Result-cases (ok x) = inr (x, refl)
