-- ===== src/Cpu/Switch/Back.antt =====
-- A process that the processor left goes on where it was, when it is switched to again.
use b0s.Base.{
  ℕ, ◌+◌, ◌-◌, ◌^◌, ◌≤◌, ◌<◌, ◌≡◌, ◌≢◌, ◌⊎◌, refl, ap, ◌∙◌, sym, arith, List, [], ◌∷◌, All, ≢→==,
  ≡→==, ◌%◌,
}
use mathlib.Core.Path.{subst}
use b0s.Base.Word.{add64, sub64, dm_v2p}
use b0s.Memory.{Memory, load64}
use b0s.Tasks.Create.{kernel_stack_size}
use b0s.Cpu.Machine.{Machine, paging_load}
use b0s.Cpu.Gdt.{gdt_set_tss_rsp}
use b0s.Cpu.Switch.{
  Registers, process_switch_asm, Tasking, leaves, switch_stacks, mmu_switch_space, process_switch,
}
use b0s.Cpu.Switch.Words.{Holds, ext-Holds, push_all-Holds, push_all_outside, pop_lem}

-- In the order of the pushes.
abbrev pushed_registers : Registers → List ℕ
pushed_registers r = r.rbx ∷ r.rbp ∷ r.r15 ∷ r.r14 ∷ r.r13 ∷ r.r12 ∷ []

-- A context of 56 bytes: the registers, and where to go on.
abbrev pub context_words : Registers → ℕ → List ℕ
context_words r ret = r.r12 ∷ r.r13 ∷ r.r14 ∷ r.r15 ∷ r.rbp ∷ r.rbx ∷ ret ∷ []

-- Registers of 64 bits, with room for the pushes on the stack and for the return address above.
pub record CanSwitch (r : Registers) : Type 0 where
  pub words : All (λ v. v < 2 ^ 64) (pushed_registers r)
  pub room : 48 ≤ r.rsp
  pub top : r.rsp + 8 < 2 ^ 64

pub process_switch_asm-saves :
    (next : ℕ) (m : Memory) (r : Registers)
    → CanSwitch r
    → let (saved, m', r') = process_switch_asm next m r in
      (saved ≡ r.rsp - 48) × Holds m' (r.rsp - 48) (context_words r (load64 m r.rsp))
unfolding process_switch_asm
process_switch_asm-saves next m r can =
    push_all-Holds (pushed_registers r) (record { memory = m; rsp = r.rsp }) (load64 m r.rsp ∷ [])
      r.rsp refl can.words can.room (omega (arith, can.top)) (refl, tt)

process_switch_asm_outside :
    (next : ℕ) (m : Memory) (r : Registers) (a : ℕ)
    → CanSwitch r
    → (a < r.rsp - 48) ⊎ (r.rsp ≤ a)
    → (process_switch_asm next m r).1 a ≡ m a
unfolding process_switch_asm
process_switch_asm_outside next m r a can out =
    push_all_outside (pushed_registers r) (record { memory = m; rsp = r.rsp }) r.rsp a refl can.room
      (omega (arith, can.top)) out

process_switch_asm-restores :
    (next : ℕ) (m : Memory) (r r₀ : Registers) (ret : ℕ)
    → next + 56 < 2 ^ 64
    → Holds (process_switch_asm next m r).1 next (context_words r₀ ret)
    → (process_switch_asm next m r).2 ≡ record r₀ { rsp = next + 56; rip = ret }
unfolding process_switch_asm
process_switch_asm-restores next m r r₀ ret fits h =
    let m' = (process_switch_asm next m r).1 in
    let e₁ = pop_lem m' next r₀.r12 (omega arith) h.0 in
    let e₂ = pop_lem m' (next + 8) r₀.r13 (omega arith) h.1.0 in
    let e₃ = pop_lem m' (next + 8 + 8) r₀.r14 (omega arith) h.1.1.0 in
    let e₄ = pop_lem m' (next + 8 + 8 + 8) r₀.r15 (omega arith) h.1.1.1.0 in
    let e₅ = pop_lem m' (next + 8 + 8 + 8 + 8) r₀.rbp (omega arith) h.1.1.1.1.0 in
    let e₆ = pop_lem m' (next + 8 + 8 + 8 + 8 + 8) r₀.rbx (omega arith) h.1.1.1.1.1.0 in
    let e₇ = pop_lem m' (next + 8 + 8 + 8 + 8 + 8 + 8) ret (omega arith) h.1.1.1.1.1.1.0 in
    let up : next + 8 + 8 + 8 + 8 + 8 + 8 + 8 ≡ next + 56 = omega arith in
    rw (e₁, e₂, e₃, e₄, e₅, e₆, e₇, up)

-- The state behind a switch to another process.
unfoldable pub switched {ℓ} :
    {State : Type ℓ} → Machine State → (ℕ → ℕ) → ℕ → ℕ → Tasking State → Tasking State
unfolding switch_stacks mmu_switch_space
switched hw directory cur next t = switch_stacks hw cur next (record t {
  segments = gdt_set_tss_rsp (sub64 (add64 (t.procs next).kstack kernel_stack_size) 1) t.segments;
  state = mmu_switch_space hw (directory (t.procs next).space) t.state;
})

pub process_switch-leaves {ℓ} :
    {State : Type ℓ} (hw : Machine State) (directory : ℕ → ℕ) (cur next : ℕ) (t : Tasking State)
    → cur ≢ next
    → process_switch hw directory cur next t ≡ leaves (switched hw directory cur next t)
unfolding process_switch switched
process_switch-leaves hw directory cur next t other = rw (≢→== cur next other)

leaves-other {ℓ} :
    {State : Type ℓ} (hw : Machine State) (directory : ℕ → ℕ) (cur next : ℕ) (t t' : Tasking State)
    → process_switch hw directory cur next t ≡ leaves t'
    → t' ≡ switched hw directory cur next t
unfolding process_switch switched
leaves-other hw directory cur next t t' e = ground arith

module _ {ℓ} {State : Type ℓ} (hw : Machine State) (directory : ℕ → ℕ) (cur next : ℕ)
    (t : Tasking State) (can : CanSwitch t.registers) where
  pub switched-context :
      ((switched hw directory cur next t).procs cur).context_pointer ≡ t.registers.rsp - 48
  unfolding switched switch_stacks
  switched-context =
      let pointer = (t.procs next).context_pointer in
      rw (≡→== cur cur refl) (process_switch_asm-saves pointer t.memory t.registers can).0

  switched-Holds :
      Holds
        (switched hw directory cur next t).memory
        (t.registers.rsp - 48)
        (context_words t.registers (load64 t.memory t.registers.rsp))
  unfolding switched switch_stacks
  switched-Holds =
      (process_switch_asm-saves (t.procs next).context_pointer t.memory t.registers can).1

-- A switch to a process whose context lies behind a pointer restores it.
pub switched-restores {ℓ} :
    {State : Type ℓ} (hw : Machine State) (directory : ℕ → ℕ) (cur next : ℕ) (t : Tasking State)
    (r₀ : Registers) (ret p : ℕ)
    → CanSwitch t.registers
    → (t.procs next).context_pointer ≡ p
    → p + 56 < 2 ^ 64
    → Holds t.memory p (context_words r₀ ret)
    → (t.registers.rsp ≤ p) ⊎ (p + 56 + 48 ≤ t.registers.rsp)
    → (switched hw directory cur next t).registers ≡ record r₀ { rsp = p + 56; rip = ret }
unfolding switched switch_stacks
switched-restores hw directory cur next t r₀ ret p can e fits holds apart =
    let m' = (process_switch_asm (t.procs next).context_pointer t.memory t.registers).1 in
    let kept : Holds m' p (context_words r₀ ret) =
      ext-Holds t.memory m' p (context_words r₀ ret)
        (λ a lo hi.
          process_switch_asm_outside (t.procs next).context_pointer t.memory t.registers a can
            (omega arith))
        holds in
    let at : Holds m' (t.procs next).context_pointer (context_words r₀ ret) =
      subst (λ (q : ℕ). Holds m' q (context_words r₀ ret)) (sym e) kept in
    process_switch_asm-restores (t.procs next).context_pointer t.memory t.registers r₀ ret
      (omega arith) at
    ∙ ap (λ (q : ℕ). record r₀ { rsp = q + 56; rip = ret }) e

-- A process that process_switch leaves goes on behind that call when another one switches back to it:
-- with the registers and the stack pointer that it had, its kernel stack for the next interrupt, and
-- its space. Until then its context pointer and the 56 bytes on its stack stay, and the other process
-- has its stack elsewhere.
pub process_switch-back {ℓ} :
    {State : Type ℓ} (hw : Machine State) (directory : ℕ → ℕ) (cur next other : ℕ)
    (t t' later : Tasking State)
    → CanSwitch t.registers
    → process_switch hw directory cur next t ≡ leaves t'
    → other ≢ cur
    → (later.procs cur).context_pointer ≡ (t'.procs cur).context_pointer
    → ((a : ℕ) → t.registers.rsp ≤ a + 48 → a < t.registers.rsp + 8 → later.memory a ≡ t'.memory a)
    → CanSwitch later.registers
    → (later.registers.rsp + 48 ≤ t.registers.rsp) ⊎ (t.registers.rsp + 56 ≤ later.registers.rsp)
    → (back : Tasking State) × (process_switch hw directory other cur later ≡ leaves back)
      × (back.registers
          ≡ record t.registers { rsp = t.registers.rsp + 8; rip = load64 t.memory t.registers.rsp })
      × (back.segments.tss.rsp0 ≡ sub64 (add64 (later.procs cur).kstack kernel_stack_size) 1)
      × (back.state ≡ hw.load_directory (dm_v2p (directory (later.procs cur).space)) later.state)
unfolding switched switch_stacks gdt_set_tss_rsp mmu_switch_space paging_load
process_switch-back {State = State} hw directory cur next other t t' later can left ne pointer kept
      can' apart =
    let e = leaves-other hw directory cur next t t' left in
    let p : ℕ = t.registers.rsp - 48 in
    let at : (later.procs cur).context_pointer ≡ p =
      pointer
      ∙ ap (λ (u : Tasking State). (u.procs cur).context_pointer) e
      ∙ switched-context hw directory cur next t can in
    let words = context_words t.registers (load64 t.memory t.registers.rsp) in
    let saved : Holds t'.memory p words =
      subst (λ (u : Tasking State). Holds u.memory p words) (sym e)
        (switched-Holds hw directory cur next t can) in
    let still : Holds later.memory p words =
      ext-Holds t'.memory later.memory p words
        (λ a lo hi. kept a (omega (arith, can.room)) (omega (arith, can.room))) saved in
    let up : p + 56 ≡ t.registers.rsp + 8 = omega (arith, can.room) in
    let restored =
      switched-restores hw directory other cur later t.registers (load64 t.memory t.registers.rsp) p
        can' at (omega (arith, can.top)) still (omega (arith, can.room)) in
    let rsp0 : sub64 (add64 (later.procs cur).kstack kernel_stack_size) 1 % 2 ^ 64
        ≡ sub64 (add64 (later.procs cur).kstack kernel_stack_size) 1 =
      omega arith in
    let cr3 : dm_v2p (directory (later.procs cur).space) % 2 ^ 64
        ≡ dm_v2p (directory (later.procs cur).space) =
      omega arith in
    (
      switched hw directory other cur later,
      process_switch-leaves hw directory other cur later ne,
      restored
          ∙ ap (λ (q : ℕ). record t.registers { rsp = q; rip = load64 t.memory t.registers.rsp })
              up,
      rsp0,
      ap (λ (q : ℕ). hw.load_directory q later.state) cr3,
    )
