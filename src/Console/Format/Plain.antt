-- ===== src/Console/Format/Plain.antt =====
-- Formats without specifiers.
use b0s.Base.{
  ℕ, zero, suc, ◌+◌, ◌<◌, ◌≤◌, ◌≡◌, ◌≢◌, inl, inr, Bool-cases, arith, ◌==◌, if◌then◌else◌, some,
  List, ≢→==,
}
use b0s.Memory.{Memory, read_byte}
use b0s.Console.Vga.{Vga, vga_putchar, vga_white, vga_pad}
use b0s.Console.Format.{char_of, interpret, printk}

-- The screen after the bytes of a text: a line feed pads the line, any other is put.
pub put_text : ℕ → Memory → ℕ → Vga → Vga
put_text zero m text s = s
put_text (suc n) m text s =
    let byte = read_byte m text in
    put_text n m (text + 1)
      (if byte == b'\n' then vga_pad s else vga_putchar (char_of byte) vga_white s)

interpret_plain :
    (n rounds : ℕ) (m : Memory) (format : ℕ) (args : List ℕ) (s : Vga)
    → n < rounds
    → ((a : ℕ) → format ≤ a → a < format + n → (read_byte m a ≢ 0) × (read_byte m a ≢ b'%'))
    → read_byte m (format + n) ≡ 0
    → interpret rounds m format args s ≡ some (put_text n m format s)
unfolding interpret put_text
interpret_plain n zero m format args s lt plain end = absurd (omega arith)
interpret_plain zero (suc rounds) m format args s lt plain end =
    let here : format + 0 ≡ format = omega arith in
    let last : read_byte m format ≡ 0 = rw (← here) end in rw last
interpret_plain (suc n) (suc rounds) m format args s lt plain end =
    let byte = plain format (omega arith) (omega arith) in
    let shift : format + suc n ≡ format + 1 + n = omega arith in
    let rest = λ (s' : Vga).
      interpret_plain n rounds m (format + 1) args s' (omega arith)
        (λ a lo hi. plain a (omega arith) (omega arith)) (rw (← shift) end) in
    elim (Bool-cases (read_byte m format == b'\n')) [
      | inl feed ↦ rw (≢→== _ 0 byte.0, ≢→== _ b'%' byte.1, feed) (rest (vga_pad s))
      | inr other ↦
          rw (≢→== _ 0 byte.0, ≢→== _ b'%' byte.1, other)
            (rest (vga_putchar (char_of (read_byte m format)) vga_white s))
    ]

-- A format of `n` bytes before its zero byte, none of them `%`, takes `n + 1` rounds: its bytes are
-- put one after the other, with the line padded at each line feed, and no argument is used.
pub printk_plain :
    (n : ℕ) (m : Memory) (format : ℕ) (args : List ℕ) (s : Vga)
    → format ≢ 0
    → ((a : ℕ) → format ≤ a → a < format + n → (read_byte m a ≢ 0) × (read_byte m a ≢ b'%'))
    → read_byte m (format + n) ≡ 0
    → printk (suc n) m format args s ≡ some (put_text n m format s)
unfolding printk
printk_plain n m format args s there plain end =
    rw (≢→== format 0 there) (interpret_plain n (suc n) m format args s (omega arith) plain end)
