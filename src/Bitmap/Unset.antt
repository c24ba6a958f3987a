-- ===== src/Bitmap/Unset.antt =====
-- `bitmap_unset`, by what the compiler makes of the `int` shift `1 << k`.
use b0s.Base.{
  ℕ, ◌+◌, ◌-◌, ◌*◌, ◌/◌, ◌%◌, ◌^◌, ◌<◌, ◌≤◌, ◌≡◌, inl, inr, arith, ◌==◌, if◌then◌else◌, Bool-cases,
  bit_or, le→leb, gt→leb, ==→≡, ==→≢,
}
use b0s.Base.Bits.{bit-set_one}
use b0s.Memory.{Memory, load64}
use b0s.Bitmap.{Bitmap, Compiler, word_at, bitmap_unset}
use b0s.Bitmap.Slot.{slot, slot_word, slot-store_same, slot-store_other}

-- What the C standard defines of the shift.
abbrev pub FollowsC : Compiler → Type 0
FollowsC c = (k : ℕ) → k < 31 → c.int_one_shl k ≡ 2 ^ k

-- The x86 `shl` on 32 bits: the count is taken modulo 32 (below the sign bit).
abbrev pub ShiftsMod32 : Compiler → Type 0
ShiftsMod32 c = (k : ℕ) → k % 32 < 31 → c.int_one_shl k ≡ 2 ^ (k % 32)

module _ (c : Compiler) (bm : Bitmap) (m : Memory) where
  -- A set bit `k` in the word of slot `i` frees that one slot.
  frees_bit :
      (i k j : ℕ)
      → i < bm.len
      → k < 64
      → c.int_one_shl (63 - i % 64) ≡ 2 ^ k
      → slot (bitmap_unset c bm i m) bm j ≡ (if j == i / 64 * 64 + (63 - k) then 1 else slot m bm j)
  unfolding bitmap_unset
  frees_bit i k j lt hk shift = elim (Bool-cases (j / 64 == i / 64)) [
    | inl same ↦
        let e = ==→≡ (j / 64) (i / 64) same in
        let w = load64 m (word_at bm (i / 64)) in
        let v = bit_or w (2 ^ k) in
        rw (gt→leb bm.len i lt, shift)
          (ground (
            arith,
            slot-store_same m bm (i / 64) v j e,
            bit-set_one w k (63 - j % 64) hk,
            slot_word m bm (i / 64) (63 - j % 64) j (omega arith) (omega arith),
          ))
    | inr other ↦
        let ne = ==→≢ (j / 64) (i / 64) other in
        let v = bit_or (load64 m (word_at bm (i / 64))) (2 ^ k) in
        rw (gt→leb bm.len i lt, shift) (ground (arith, slot-store_other m bm (i / 64) v j ne))
  ]

  -- With a compiler that follows the C standard, a slot `i` of the upper 31 of its word, where the
  -- standard defines the shift, is freed by the call, and every other slot keeps its state.
  pub bitmap_unset_defined :
      FollowsC c
      → (i : ℕ) → i < bm.len
      → 33 ≤ i % 64
      → (j : ℕ) → slot (bitmap_unset c bm i m) bm j ≡ (if j == i then 1 else slot m bm j)
  bitmap_unset_defined std i lt high j =
      let whole : i / 64 * 64 + (63 - (63 - i % 64)) ≡ i = omega arith in
      let shift = std (63 - i % 64) (omega arith) in
      rw (frees_bit i (63 - i % 64) j lt (omega arith) shift, whole)

  -- With the 32-bit shift of x86 a slot `i` in the lower half of its word, other than the first,
  -- stays as it was, and slot `i + 32` is freed in its place.
  pub bitmap_unset_mod32 :
      ShiftsMod32 c
      → (i : ℕ) → i < bm.len
      → 0 < i % 64
      → i % 64 < 32
      → (j : ℕ) → slot (bitmap_unset c bm i m) bm j ≡ (if j == i + 32 then 1 else slot m bm j)
  bitmap_unset_mod32 x86 i lt pos low j =
      let count : (63 - i % 64) % 32 ≡ 31 - i % 64 = omega arith in
      let whole : i / 64 * 64 + (63 - (31 - i % 64)) ≡ i + 32 = omega arith in
      let shift : c.int_one_shl (63 - i % 64) ≡ 2 ^ (31 - i % 64) =
        rw (← count) (x86 (63 - i % 64) (omega arith)) in
      rw (frees_bit i (31 - i % 64) j lt (omega arith) shift, whole)

  -- An index past the end changes nothing.
  pub bitmap_unset_past : (i : ℕ) → bm.len ≤ i → bitmap_unset c bm i m ≡ m
  unfolding bitmap_unset
  bitmap_unset_past i h = rw (le→leb bm.len i h)
