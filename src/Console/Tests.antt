-- ===== src/Console/Tests.antt =====
-- The console on small inputs.
use b0s.Base.{ℕ, ◌+◌, ◌*◌, ◌%◌, ◌<◌, ◌≤◌, ◌≡◌, ◌≢◌, some, [], ◌==◌, arith, if◌then◌else◌, List}
use b0s.Console.Vga.{Vga, vga_putchar, vga_entry, vga_width, vga_height}
use b0s.Console.Vga.Cursor.{IsOnScreen, vga_putchar-IsOnScreen}
use mathlib.Core.Path.{refl}
use b0s.Memory.{Memory, read_byte}
use b0s.Console.Format.{printk}
use b0s.Console.Format.Plain.{put_text, printk_plain}
use b0s.Console.Printk.{putnbr, chars}
use b0s.Console.Printk.Digits.{value, putnbr-value}

-- An empty screen with the cursor in its last cell.
abbrev screen : Vga
screen = record { buffer = λ i. 0; x = 79; y = 24 }

vga_putchar-IsOnScreen_example :
    let s' = vga_putchar b'x' 15 screen in
    IsOnScreen s'
    × (24 * vga_width + 79 < vga_width * vga_height)
    × ((i : ℕ) → s'.buffer i ≡ (if i == 24 * vga_width + 79 then vga_entry b'x' 15 else 0))
    × (s'.y * vga_width + s'.x ≡ (24 * vga_width + 79 + 1) % (vga_width * vga_height))
vga_putchar-IsOnScreen_example = vga_putchar-IsOnScreen b'x' 15 screen (omega arith, omega arith)

putnbr-value_example : (cs : List ℕ) × (putnbr 255 10 ≡ chars cs) × (value 10 0 cs ≡ 255)
putnbr-value_example = putnbr-value 255 10 (omega arith) (omega arith) (omega arith)

-- "a", a line feed and "b" at 0x10.
abbrev memory : Memory
memory a =
    if a == 0x10 then b'a' else (if a == 0x11 then b'\n' else (if a == 0x12 then b'b' else 0))

text_plain :
    (a : ℕ) → 0x10 ≤ a → a < 0x10 + 3 → (read_byte memory a ≢ 0) × (read_byte memory a ≢ b'%')
unfolding read_byte
text_plain a lo hi = (ground arith, ground arith)

text_end : read_byte memory (0x10 + 3) ≡ 0
unfolding read_byte
text_end = refl

printk_plain_example : printk 4 memory 0x10 [] screen ≡ some (put_text 3 memory 0x10 screen)
printk_plain_example = printk_plain 3 memory 0x10 [] screen (omega arith) text_plain text_end
