-- ===== src/Base/Digit.antt =====
-- The lowest digit of a remainder, in any base.
use Prim.Native.Nat.{ℕ, ◌+◌, ◌*◌, ◌/◌, ◌%◌}
use mathlib.Core.Path.{◌≡◌, ap}
use native.Mathlib.Nat.{div-add-mod, div-div-eq-div-mul}
use native.Mathlib.Omega.{arith}

pub mod_split : (b p v : ℕ) → v % b + b * (v / b % p) ≡ v % (b * p)
mod_split b p v =
    let whole = div-add-mod v (b * p) in
    let first = div-add-mod v b in
    let rest = ap (λ (t : ℕ). b * t) (div-add-mod (v / b) p) in
    let lifted = ap (λ (t : ℕ). b * (p * t)) (div-div-eq-div-mul v b p) in
    omega (arith, whole, first, rest, lifted)
