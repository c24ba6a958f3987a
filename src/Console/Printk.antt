-- ===== src/Console/Printk.antt =====
-- The number printing of kernel/lib/printk/printk.c: `putnbr` and `putptr`, as the digits that go
-- to the console, and `interpret` over a format.
pub mod Digits
use b0s.Base.{ℕ, zero, suc, ◌+◌, ◌-◌, ◌/◌, ◌%◌, ◌==◌, if◌then◌else◌, List, [], ◌∷◌, ◌++◌, get_or}
use b0s.Base.{Bool, true, false}

-- `LOG_LOOKUP[base - 2]`: the room for the digits of a u64 in each base from 2 to 16.
abbrev pub u64_max_log_base : ℕ → ℕ
u64_max_log_base base =
    get_or (64 ∷ 41 ∷ 32 ∷ 28 ∷ 25 ∷ 23 ∷ 22 ∷ 21 ∷ 20 ∷ 19 ∷ 18 ∷ 18 ∷ 17 ∷ 17 ∷ 16 ∷ [])
      (base - 2) 0

-- `HEX_ALPHA[d]`
abbrev pub hex_alpha : ℕ → ℕ
hex_alpha d =
    get_or
      (b'0' ∷ b'1' ∷ b'2' ∷ b'3' ∷ b'4' ∷ b'5' ∷ b'6' ∷ b'7' ∷ b'8' ∷ b'9' ∷ b'a' ∷ b'b' ∷ b'c'
        ∷ b'd' ∷ b'e' ∷ b'f' ∷ [])
      d 0

-- The `do … while (nbr)` loop of `putnbr`: the array is filled from its end, with `room` cells
-- left; the list is the filled part. With no room left the source writes before the array.
pub data Filled : Type 0 where
  chars : List ℕ → Filled
  out_of_bounds : Filled

pub fill_loop : ℕ → ℕ → ℕ → List ℕ → Filled
fill_loop zero base nbr filled = out_of_bounds
fill_loop (suc room) base nbr filled =
    let more = hex_alpha (nbr % base) ∷ filled in
    let further = fill_loop room base (nbr / base) more in
    if nbr / base == 0 then chars more else further

-- The characters that `putnbr` puts.
pub putnbr : ℕ → ℕ → Filled
unfolding fill_loop
putnbr nbr base = fill_loop (u64_max_log_base base) base nbr []

-- The loop of `putptr` fills all 16 cells.
pub ptr_loop : ℕ → ℕ → List ℕ → List ℕ
ptr_loop zero ptr filled = filled
ptr_loop (suc room) ptr filled = ptr_loop room (ptr / 16) (hex_alpha (ptr % 16) ∷ filled)

pub putptr : ℕ → List ℕ
unfolding ptr_loop
putptr ptr = b'0' ∷ b'x' ∷ ptr_loop 16 ptr []
