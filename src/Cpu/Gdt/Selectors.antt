-- ===== src/Cpu/Gdt/Selectors.antt =====
-- What each selector of the kernel leads to in the table that `gdt_reload` loads.
use b0s.Base.{ℕ, ◌+◌, ◌*◌, ◌/◌, ◌%◌, ◌^◌, ◌<◌, ◌≡◌, refl, arith, ap}
use b0s.Base.Bits.{bit}
use b0s.Base.Align.{bit_and_low}
use b0s.Cpu.Machine.{Machine, load_tr}
use b0s.Cpu.Descriptors.{tss_entry}
use b0s.Tasks.Create.{user_cs, user_ss}
use b0s.Cpu.Gdt.{
  Gdt, Segments, gdt_at_start, entry_word, code_segment, data_segment, tss_low, tss_high,
  set_tss_entry, gdt_init_tss, gdt_reload,
}

pub data Kind : Type 0 where
  code data_only : Kind

-- Bit 43 of a segment's word tells code from data, and bit 53 that the code is of 64 bits.
abbrev pub Marks : Kind → ℕ → Type 0
Marks code w = (bit w 43 ≡ 1) × (bit w 53 ≡ 1)
Marks data_only w = bit w 43 ≡ 0

-- The selector names a present segment of the kind, one that can be read or written, with the
-- privilege level of the selector itself.
pub record HasKind (gdt : Gdt) (selector : ℕ) (kind : Kind) : Type 0 where
  pub marks : Marks kind (gdt (selector / 8))
  pub present : bit (gdt (selector / 8)) 47 ≡ 1
  pub no_system : bit (gdt (selector / 8)) 44 ≡ 1
  pub accessible : bit (gdt (selector / 8)) 41 ≡ 1
  pub privilege : gdt (selector / 8) / 2 ^ 45 % 4 ≡ selector % 4

-- The base that the processor reads from the two words of a descriptor.
abbrev pub base_in : ℕ → ℕ → ℕ
base_in low high = low / 2 ^ 16 % 2 ^ 24 + low / 2 ^ 56 % 2 ^ 8 * 2 ^ 24 + high % 2 ^ 32 * 2 ^ 32

-- The selector names the two words of a present task state segment at the address, for 64 bits
-- and not in use, with the last offset.
pub record HasTask (gdt : Gdt) (selector address last : ℕ) : Type 0 where
  pub base : base_in (gdt (selector / 8)) (gdt (selector / 8 + 1)) ≡ address
  pub limit : gdt (selector / 8) % 2 ^ 16 ≡ last
  pub type : gdt (selector / 8) / 2 ^ 40 % 2 ^ 8 ≡ 0x89

tss_words :
    (address : ℕ)
    → address < 2 ^ 64
    → (base_in (tss_low (tss_entry address)) (tss_high (tss_entry address)) ≡ address)
      × (tss_low (tss_entry address) % 2 ^ 16 ≡ 111)
      × (tss_low (tss_entry address) / 2 ^ 40 % 2 ^ 8 ≡ 0x89)
unfolding tss_low tss_high tss_entry
tss_words address lt =
    let first = bit_and_low 64 16 address lt in
    let second = bit_and_low 64 8 (address / 2 ^ 16) (omega arith) in
    let third = bit_and_low 64 8 (address / 2 ^ 24) (omega arith) in
    (
      omega (arith, first, second, third),
      omega (arith, first, second, third),
      omega (arith, first, second, third),
    )

-- The segments that no descriptor of `gdt_init_tss` replaces.
segment-HasKind :
    (g : Gdt) (word selector : ℕ) (kind : Kind)
    → g (selector / 8) ≡ word
    → Marks kind word
    → bit word 47 ≡ 1
    → bit word 44 ≡ 1
    → bit word 41 ≡ 1
    → word / 2 ^ 45 % 4 ≡ selector % 4
    → HasKind g selector kind
segment-HasKind g word selector kind e marks present no_system accessible privilege = record {
  marks = rw e marks;
  present = rw e present;
  no_system = rw e no_system;
  accessible = rw e accessible;
  privilege = rw e privilege;
}

-- After gdt_reload of the table as it is initialised, the selector of the kernel's code (8) names a
-- present code segment of 64 bits and that of its data (16) a present data segment, both of privilege
-- 0; those that a process starts with (27 and 35) name such segments of privilege 3; and the selector
-- that is loaded last (40) names the descriptor of the task state segment, whose 64-bit base is the
-- segment's address and whose last offset is that of the source's structure of 112 bytes. The
-- processor is given the table's address, and 56 as its limit.
pub gdt_reload-HasKind {ℓ} :
    {State : Type ℓ} (hw : Machine State) (stack_top_64 : ℕ) (g : Segments) (s : State)
    → g.tss_address < 2 ^ 64
    → g.gdt_address < 2 ^ 64
    → g.gdt ≡ gdt_at_start
    → let (g', s') = gdt_reload hw stack_top_64 g s in
      HasKind g'.gdt 8 code
      × HasKind g'.gdt 16 data_only
      × HasKind g'.gdt user_cs code
      × HasKind g'.gdt user_ss data_only
      × HasTask g'.gdt 40 g.tss_address 111
      × (g'.tss.rsp0 ≡ stack_top_64)
      × (s' ≡ hw.load_task 40 (hw.load_gdt 56 g.gdt_address s))
unfolding gdt_reload gdt_init_tss set_tss_entry load_tr gdt_at_start entry_word code_segment
    data_segment bit
gdt_reload-HasKind hw stack_top_64 g s fits small e =
    let (base, limit, type) = tss_words g.tss_address fits in
    let at = λ (i : ℕ). ap (λ (t : Gdt). t i) e in
    let cut : g.gdt_address % 2 ^ 64 ≡ g.gdt_address = omega arith in
    (
      segment-HasKind _ _ 8 code (at 1) (refl, refl) refl refl refl refl,
      segment-HasKind _ _ 16 data_only (at 2) refl refl refl refl refl,
      segment-HasKind _ _ user_cs code (at 3) (refl, refl) refl refl refl refl,
      segment-HasKind _ _ user_ss data_only (at 4) refl refl refl refl refl,
      record { base = base; limit = limit; type = type },
      refl,
      ap (λ (a : ℕ). hw.load_task 40 (hw.load_gdt 56 a s)) cut,
    )
