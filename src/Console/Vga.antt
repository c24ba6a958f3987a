-- ===== src/Console/Vga.antt =====
-- kernel/drivers/vga/vga.c. The state is the text buffer and the cursor.
pub mod Cursor
use b0s.Base.{ℕ, zero, suc, ◌+◌, ◌*◌, ◌/◌, ◌%◌, ◌==◌, if◌then◌else◌, bit_or}
use b0s.Base.Word.{u8, u16, u32}

abbrev pub vga_width : ℕ
vga_width = 80

abbrev pub vga_height : ℕ
vga_height = 25

abbrev pub vga_black : ℕ
vga_black = 0

abbrev pub vga_white : ℕ
vga_white = 15

pub record Vga : Type 0 where
  pub buffer : ℕ → ℕ
  pub x : ℕ
  pub y : ℕ

pub vga_color_entry : ℕ → ℕ → ℕ
vga_color_entry fg bg = u8 (bit_or fg (bg * 16))

pub vga_entry : ℕ → ℕ → ℕ
vga_entry ch color = bit_or (u16 ch) (u16 (color * 256))

pub vga_putchar : ℕ → ℕ → Vga → Vga
unfolding vga_entry
vga_putchar ch color s =
    let index = u32 (s.y * vga_width + s.x) in
    record {
      buffer = λ i. if i == index then vga_entry ch color else s.buffer i;
      x = (s.x + 1) % vga_width;
      y = (s.y + (s.x + 1) / vga_width) % vga_height;
    }

put_blanks : ℕ → Vga → Vga
unfolding vga_putchar vga_color_entry
put_blanks zero s = s
put_blanks (suc left) s = put_blanks left (vga_putchar b' ' (vga_color_entry vga_black vga_black) s)

pub vga_reset : Vga → Vga
unfolding put_blanks
vga_reset s = record (put_blanks (vga_width * vga_height) s) { x = 0; y = 0 }

-- `vga_pad` writes blanks while the line is `_y`; a row has at most `vga_width` of them left, so
-- that many rounds are enough.
pad_loop : ℕ → ℕ → Vga → Vga
unfolding vga_putchar vga_color_entry
pad_loop zero _y s = s
pad_loop (suc rounds) _y s =
    let further = pad_loop rounds _y (vga_putchar b' ' (vga_color_entry vga_black vga_black) s) in
    if s.y == _y then further else s

pub vga_pad : Vga → Vga
unfolding pad_loop
vga_pad s = pad_loop (vga_width + 1) s.y s

pub vga_newline : Vga → Vga
vga_newline s = record s { x = 0; y = (s.y + 1) % vga_height }
