-- ===== src/Cpu/Machine/Registers.antt =====
-- What `wrmsr` splits, `rdmsr` joins.
use b0s.Base.{ℕ, ◌*◌, ◌/◌, ◌%◌, ◌^◌, ◌<◌, ◌≡◌, ◌∙◌, arith, bit_or}
use b0s.Base.Align.{bit_and_low, bit_or_low}
use b0s.Cpu.Machine.{Machine, rdmsr, wrmsr}

-- A register that can be read and written: a read after a write gives the two halves written.
abbrev pub IsRegister {ℓ} : {State : Type ℓ} → Machine State → ℕ → Type ℓ
IsRegister {State = State} hw msr =
    (low high : ℕ) (s : State)
    → low < 2 ^ 32
    → high < 2 ^ 32
    → (s' : State) × (hw.read_msr msr (hw.write_msr msr low high s) ≡ ((low, high), s'))

pub wrmsr-halves {ℓ} :
    {State : Type ℓ} (hw : Machine State) (msr value : ℕ) (s : State)
    → msr < 2 ^ 32
    → value < 2 ^ 64
    → wrmsr hw msr value s ≡ hw.write_msr msr (value % 2 ^ 32) (value / 2 ^ 32) s
unfolding wrmsr
wrmsr-halves hw msr value s small lt =
    let number : msr % 2 ^ 32 ≡ msr = omega arith in
    let high : value / 2 ^ 32 % 2 ^ 32 ≡ value / 2 ^ 32 = omega arith in
    let low : value % 2 ^ 32 % 2 ^ 32 ≡ value % 2 ^ 32 = omega arith in
    rw (wrmsr, number, bit_and_low 64 32 value lt, low, high)

pub rdmsr-halves {ℓ} :
    {State : Type ℓ} (hw : Machine State) (msr value : ℕ) (s s' : State)
    → msr < 2 ^ 32
    → value < 2 ^ 64
    → hw.read_msr msr s ≡ ((value % 2 ^ 32, value / 2 ^ 32), s')
    → rdmsr hw msr s ≡ (value, s')
unfolding rdmsr
rdmsr-halves hw msr value s s' small lt e =
    let number : msr % 2 ^ 32 ≡ msr = omega arith in
    let high : value / 2 ^ 32 % 2 ^ 32 * 2 ^ 32 % 2 ^ 64 ≡ value / 2 ^ 32 * 2 ^ 32 = omega arith in
    let low : value % 2 ^ 32 % 2 ^ 32 ≡ value % 2 ^ 32 = omega arith in
    let joined : bit_or (value / 2 ^ 32 * 2 ^ 32) (value % 2 ^ 32) ≡ value =
      bit_or_low 32 32 (value / 2 ^ 32) (value % 2 ^ 32) (omega arith) (omega arith)
      ∙ omega arith in
    rw (number, e, high, low, joined)

-- Of a register that can be read and written, rdmsr gives the 64-bit value that wrmsr wrote.
pub rdmsr-wrmsr {ℓ} :
    {State : Type ℓ} (hw : Machine State) (msr value : ℕ) (s : State)
    → msr < 2 ^ 32
    → value < 2 ^ 64
    → IsRegister hw msr
    → (s' : State) × (rdmsr hw msr (wrmsr hw msr value s) ≡ (value, s'))
rdmsr-wrmsr hw msr value s small lt keeps =
    let (s', e) = keeps (value % 2 ^ 32) (value / 2 ^ 32) s (omega arith) (omega arith) in
    (s', rw (wrmsr-halves hw msr value s small lt) (rdmsr-halves hw msr value _ s' small lt e))
