-- ===== src/Memory/Frame.antt =====
-- What loads read after stores, and what `memset` leaves.
use b0s.Base.{ℕ, zero, suc, ◌+◌, ◌/◌, ◌%◌, ◌^◌, ◌<◌, ◌≤◌, ◌≡◌, refl, ◌⊎◌, arith, ap, ◌∙◌}
use b0s.Base.Digit.{mod_split}
use b0s.Memory.{Memory, write_byte, load, store}
use native.Mathlib.Nat.{pow-suc, mul_comm}

-- A store changes only its own bytes.
pub store_outside : (n : ℕ) (m : Memory) (p v a : ℕ) → (a < p) ⊎ (p + n ≤ a) → store n m p v a ≡ m a
unfolding store
store_outside zero m p v a h = refl
store_outside (suc n) m p v a h =
    ground (arith, store_outside n (write_byte m p v) (p + 1) (v / 256) a)

pub load_ext :
    (n : ℕ) (m m' : Memory) (p : ℕ)
    → ((a : ℕ) → p ≤ a → a < p + n → m a ≡ m' a)
    → load n m p ≡ load n m' p
unfolding load
load_ext zero m m' p same = refl
load_ext (suc n) m m' p same =
    let rest = load_ext n m m' (p + 1) (λ a lo hi. same a (omega arith) (omega arith)) in
    omega (arith, same p (omega arith) (omega arith), rest)

pub load-store_self : (n : ℕ) (m : Memory) (p v : ℕ) → load n (store n m p v) p ≡ v % 256 ^ n
unfolding load store write_byte
load-store_self zero m p v = omega arith
load-store_self (suc n) m p v =
    let m' = write_byte m p v in
    let first = store_outside n m' (p + 1) (v / 256) p (omega arith) in
    ground (
      arith,
      first,
      load-store_self n m' (p + 1) (v / 256),
      mod_split 256 (256 ^ n) v,
      ap (λ (t : ℕ). v % t) (pow-suc 256 n ∙ mul_comm (256 ^ n) 256),
    )

pub load-store_apart :
    (n k : ℕ) (m : Memory) (p q v : ℕ)
    → (q + k ≤ p) ⊎ (p + n ≤ q)
    → load k (store n m p v) q ≡ load k m q
load-store_apart n k m p q v h =
    load_ext k (store n m p v) m q (λ a lo hi. store_outside n m p v a (ground arith))

pub load-lt : (n : ℕ) (m : Memory) (p : ℕ) → load n m p < 256 ^ n
unfolding load
load-lt zero m p = omega arith
load-lt (suc n) m p = omega (arith, load-lt n m (p + 1), pow-suc 256 n)
