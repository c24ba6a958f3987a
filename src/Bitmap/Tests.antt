-- ===== src/Bitmap/Tests.antt =====
-- The bitmap on small inputs.
use b0s.Base.{
  ℕ, ◌+◌, ◌-◌, ◌*◌, ◌%◌, ◌^◌, ◌≡◌, refl, ap, ◌∙◌, false, arith, ltb, ◌==◌, if◌then◌else◌,
}
use b0s.Base.Word.{min64}
use b0s.Base.Bits.{bit-zero}
use b0s.Memory.{Memory, load, read_byte}
use b0s.Bitmap.{Compiler, Bitmap, bitmap_init, bitmap_find_and_set, bitmap_unset}
use b0s.Bitmap.{bitmap_size_in_block}
use b0s.Bitmap.Slot.{slot}
use b0s.Bitmap.Find.{bitmap_find_and_set_least}
use b0s.Bitmap.Unset.{bitmap_unset_defined, FollowsC, ShiftsMod32, bitmap_unset_mod32}
use b0s.Bitmap.Fresh.{bitmap_init-free}
use b0s.Bitmap.Order.{after, bitmap_find_and_set_order}

-- The 32-bit shift of x86, with the sign extended, and 0 for an uninitialised local.
abbrev pub x86_compiler : Compiler
x86_compiler = record {
  uninit = λ m. 0;
  int_one_shl = λ k. if k % 32 == 31 then 2 ^ 64 - 2 ^ 31 else 2 ^ (k % 32);
}

x86-ShiftsMod32 : ShiftsMod32 x86_compiler
x86-ShiftsMod32 k lt = let other : (k % 32 == 31) ≡ false = ground arith in rw other refl

pub x86-FollowsC : FollowsC x86_compiler
x86-FollowsC k lt =
    let same : k % 32 ≡ k = omega arith in
    x86-ShiftsMod32 k (omega arith) ∙ ap (λ (n : ℕ). 2 ^ n) same

abbrev pub blank : Memory
blank = λ a. 0

-- A bitmap of 70 slots at address 0x100.
abbrev bm : Bitmap
bm = record { len = 70; size_in_block = 2; bitmap = 0x100 }

abbrev fresh : Memory
fresh = (bitmap_init blank 70 0x100).memory

fresh_0 : slot fresh bm 0 ≡ 1
unfolding bitmap_init
fresh_0 = (bitmap_init-free blank 70 0x100).0 0 (omega arith)

bitmap_find_and_set_least_example :
    let out = bitmap_find_and_set x86_compiler bm fresh in
    (out.0 ≡ min64 0 70) × ((j : ℕ) → slot out.1 bm j ≡ (if j == 0 then 0 else slot fresh bm j))
bitmap_find_and_set_least_example =
    bitmap_find_and_set_least x86_compiler fresh bm 0 (omega arith) fresh_0
      (λ j lt. absurd (omega arith))

pub blank_word : (b : Bitmap) (j : ℕ) → slot blank b j ≡ 0
unfolding slot load read_byte
blank_word b j = bit-zero (63 - j % 64)

bitmap_unset_defined_example :
    slot (bitmap_unset x86_compiler bm 40 blank) bm 3 ≡ (if 3 == 40 then 1 else slot blank bm 3)
bitmap_unset_defined_example =
    bitmap_unset_defined x86_compiler bm blank x86-FollowsC 40 (omega arith) (omega arith) 3

bitmap_unset_mod32_example :
    slot (bitmap_unset x86_compiler bm 5 blank) bm 37
    ≡ (if 37 == 5 + 32 then 1 else slot blank bm 37)
bitmap_unset_mod32_example =
    bitmap_unset_mod32 x86_compiler bm blank x86-ShiftsMod32 5 (omega arith) (omega arith)
      (omega arith) 37

bitmap_find_and_set_order_example :
    let b = bitmap_init blank 70 0x100 in
    let m' = after x86_compiler b.bm 2 b.memory in
    (bitmap_find_and_set x86_compiler b.bm m').0 ≡ (
      if ltb 2 (bitmap_size_in_block 70 * 64)
      then min64 2 70
      else min64 (x86_compiler.uninit m') 70)
bitmap_find_and_set_order_example =
    bitmap_find_and_set_order x86_compiler blank 70 0x100 2 (omega arith)
