-- ===== src/Cpu/Pic.antt =====
-- kernel/arch/x86_64/interrupts/pic.c: the old interrupt controllers.
pub mod Chips
use b0s.Base.{ℕ}
use b0s.Cpu.Machine.{Machine, outb}

abbrev pub pic_command_master : ℕ
pic_command_master = 0x20

abbrev pub pic_command_slave : ℕ
pic_command_slave = 0xA0

abbrev pub pic_data_master : ℕ
pic_data_master = 0x21

abbrev pub pic_data_slave : ℕ
pic_data_slave = 0xA1

-- `ICW_1`, `ICW_2_M`, `ICW_2_S`, `ICW_3_M`, `ICW_3_S`, `ICW_4`
abbrev icw_1 : ℕ
icw_1 = 0x11

abbrev icw_2_m : ℕ
icw_2_m = 0x20

abbrev icw_2_s : ℕ
icw_2_s = 0x28

abbrev icw_3_m : ℕ
icw_3_m = 0x04

abbrev icw_3_s : ℕ
icw_3_s = 0x02

abbrev icw_4 : ℕ
icw_4 = 0x01

unfoldable pub pic_disable {ℓ} : {State : Type ℓ} → Machine State → State → State
pic_disable hw s =
    let s₁ = outb hw pic_command_master icw_1 s in
    let s₂ = outb hw pic_command_slave icw_1 s₁ in
    let s₃ = outb hw pic_data_master icw_2_m s₂ in
    let s₄ = outb hw pic_data_slave icw_2_s s₃ in
    let s₅ = outb hw pic_data_master icw_3_m s₄ in
    let s₆ = outb hw pic_data_slave icw_3_s s₅ in
    let s₇ = outb hw pic_data_master icw_4 s₆ in
    let s₈ = outb hw pic_data_slave icw_4 s₇ in
    let s₉ = outb hw pic_data_master 0xFF s₈ in outb hw pic_data_slave 0xFF s₉
