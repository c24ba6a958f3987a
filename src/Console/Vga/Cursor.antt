-- ===== src/Console/Vga/Cursor.antt =====
-- The cursor stays on the screen.
use b0s.Base.{
  ℕ, zero, suc, ◌+◌, ◌*◌, ◌/◌, ◌%◌, ◌<◌, ◌≡◌, ◌≢◌, refl, inl, inr, arith, ◌==◌, if◌then◌else◌,
  Bool-cases, ==→≡, ==→≢, ≡→==, ≢→==,
}
use b0s.Console.Vga.{
  Vga, vga_putchar, vga_entry, vga_width, vga_height, vga_black, vga_pad, pad_loop,
}
use b0s.Console.Vga.{vga_color_entry}

abbrev pub IsOnScreen : Vga → Type 0
IsOnScreen s = (s.x < vga_width) × (s.y < vga_height)

-- A character put on the screen is written inside the buffer, at the cursor and nowhere else, and
-- the cursor goes on to the next cell, row by row, from the last back to the first.
pub vga_putchar-IsOnScreen :
    (ch color : ℕ) (s : Vga)
    → IsOnScreen s
    → let s' = vga_putchar ch color s in
      IsOnScreen s'
      × (s.y * vga_width + s.x < vga_width * vga_height)
      × ((i : ℕ)
          → s'.buffer i ≡ (if i == s.y * vga_width + s.x then vga_entry ch color else s.buffer i))
      × (s'.y * vga_width + s'.x ≡ (s.y * vga_width + s.x + 1) % (vga_width * vga_height))
unfolding vga_putchar
vga_putchar-IsOnScreen ch color s h = (omega arith, omega arith, λ i. ground arith, omega arith)

pad_loop_lem :
    (rounds _y : ℕ) (s : Vga)
    → IsOnScreen s
    → s.y ≡ _y
    → vga_width < s.x + rounds
    → let s' = pad_loop rounds _y s in (s'.x ≡ 0) × (s'.y ≡ (_y + 1) % vga_height)
unfolding pad_loop vga_putchar
pad_loop_lem zero _y s on e h = absurd (omega arith)
pad_loop_lem (suc zero) _y s on e h = absurd (omega arith)
pad_loop_lem (suc (suc rounds)) _y s on e h = elim (Bool-cases (s.x == 79)) [
  | inl last ↦
      let edge : s.x ≡ 79 = ==→≡ s.x 79 last in
      let moved : (s.y + (s.x + 1) / vga_width) % vga_height ≢ _y = omega arith in
      rw (≡→== s.y _y e, ≢→== _ _y moved) (omega arith, omega arith)
  | inr inside ↦
      let ne : s.x ≢ 79 = ==→≢ s.x 79 inside in
      rw (≡→== s.y _y e) (
        pad_loop_lem (suc rounds) _y (vga_putchar b' ' (vga_color_entry vga_black vga_black) s)
          (omega arith, omega arith) (omega arith) (omega arith))
]

-- `vga_pad` ends at the start of the next line.
pub vga_pad_lem :
    (s : Vga) → IsOnScreen s → let s' = vga_pad s in (s'.x ≡ 0) × (s'.y ≡ (s.y + 1) % vga_height)
unfolding vga_pad
vga_pad_lem s on = pad_loop_lem (vga_width + 1) s.y s on refl (omega arith)
