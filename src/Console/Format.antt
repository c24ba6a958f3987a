-- ===== src/Console/Format.antt =====
-- The formatted output of kernel/lib/printk/printk.c on the console: `putstr`, `print_arg`,
-- `interpret` and `_printk`. The `va_list` is the list of its arguments as u64 words, a string by its
-- address. `none` stands for running out of rounds or arguments and for writing outside an array.
pub mod Plain
use b0s.Base.{
  ℕ, zero, suc, ◌+◌, ◌-◌, ◌^◌, ◌==◌, ltb, if◌then◌else◌, Option, none, some, List, [], ◌∷◌,
}
use b0s.Base.Word.{u8}
use b0s.Memory.{Memory, read_byte}
use b0s.Console.Vga.{Vga, vga_putchar, vga_pad, vga_white}
use b0s.Console.Printk.{Filled, chars, out_of_bounds, putnbr, putptr}

-- A byte as a (signed) `char`, widened to 64 bits.
abbrev pub char_of : ℕ → ℕ
char_of byte = if ltb byte 128 then byte else byte + 2 ^ 64 - 256

put_chars : List ℕ → Vga → Vga
put_chars [] s = s
put_chars (ch ∷ rest) s = put_chars rest (vga_putchar ch vga_white s)

put_filled : Filled → Vga → Option Vga
unfolding put_chars
put_filled (chars cs) s = some (put_chars cs s)
put_filled out_of_bounds s = none

pub putstr : ℕ → Memory → ℕ → Vga → Option Vga
putstr zero m str s = none
putstr (suc rounds) m str s =
    let byte = read_byte m str in
    let further = putstr rounds m (str + 1) (vga_putchar (char_of byte) vga_white s) in
    if byte == 0 then some s else further

-- What is left after a specifier: how far the format goes on, the arguments and the screen.
pub record Printed : Type 0 where
  pub step : ℕ
  pub args : List ℕ
  pub screen : Vga

after_arg : List ℕ → Option Vga → Option Printed
after_arg args none = none
after_arg args (some s) = some (record { step = 2; args = args; screen = s })

-- A specifier that takes an argument.
take_arg : ℕ → Memory → ℕ → ℕ → List ℕ → Vga → Option Printed
unfolding put_filled put_chars putstr after_arg
take_arg rounds m specifier arg args s =
    if specifier == b'b'
    then after_arg args (put_filled (putnbr arg 2) s)
    else (if specifier == b'x'
        then after_arg args (put_filled (putnbr arg 16) s)
        else (if specifier == b'u'
            then after_arg args (put_filled (putnbr arg 10) s)
            else (if specifier == b'c'
                then after_arg args (some (vga_putchar (char_of (u8 arg)) vga_white s))
                else (if specifier == b's'
                    then after_arg args (putstr rounds m arg s)
                    else after_arg args (some (put_chars (putptr arg) s))))))

pub print_arg : ℕ → Memory → ℕ → List ℕ → Vga → Option Printed
unfolding take_arg
print_arg rounds m specifier args s =
    let takes : Option Printed = elim args [
      | [] ↦ none
      | arg ∷ rest ↦ take_arg rounds m specifier arg rest s
    ] in
    if specifier == b'%'
    then after_arg args (some (vga_putchar b'%' vga_white s))
    else (if specifier == b'b'
        then takes
        else (if specifier == b'x'
            then takes
            else (if specifier == b'u'
                then takes
                else (if specifier == b'c'
                    then takes
                    else (if specifier == b's'
                        then takes
                        else (if specifier == b'p'
                            then takes
                            else some (record { step = 1; args = args; screen = s })))))))

-- One round for each character or specifier of the format.
pub interpret : ℕ → Memory → ℕ → List ℕ → Vga → Option Vga
unfolding print_arg
interpret zero m format args s = none
interpret (suc rounds) m format args s =
    let byte = read_byte m format in
    let padded = interpret rounds m (format + 1) args (vga_pad s) in
    let put = interpret rounds m (format + 1) args (vga_putchar (char_of byte) vga_white s) in
    let specified : Option Vga = elim (print_arg rounds m (read_byte m (format + 1)) args s) [
      | none ↦ none
      | some p ↦ interpret rounds m (format + p.step) p.args p.screen
    ] in
    if byte == b'%'
    then specified
    else (if byte == 0 then some s else (if byte == b'\n' then padded else put))

-- `_printk`; a null format prints nothing.
pub printk : ℕ → Memory → ℕ → List ℕ → Vga → Option Vga
unfolding interpret
printk rounds m format args s =
    let out = interpret rounds m format args s in if format == 0 then some s else out
