-- ===== src/Bitmap/Order.antt =====
-- Calls of `bitmap_find_and_set` in a row.
use b0s.Base.{
  ℕ, zero, suc, ◌*◌, ◌<◌, ◌≤◌, ◌≡◌, ap, inl, inr, arith, ltb, if◌then◌else◌, Bool-cases, ltb→lt,
  ltb→ge,
}
use b0s.Base.Word.{min64}
use b0s.Memory.{Memory}
use b0s.Bitmap.{Bitmap, Compiler, bitmap_init, bitmap_size_in_block, bitmap_find_and_set}
use b0s.Bitmap.Slot.{slot}
use b0s.Bitmap.Find.{bitmap_find_and_set_least, bitmap_find_and_set_full}
use b0s.Bitmap.Fresh.{bitmap_init-free}

-- The memory after `n` calls.
unfoldable pub after : Compiler → Bitmap → ℕ → Memory → Memory
after c bm zero m = m
after c bm (suc n) m = (bitmap_find_and_set c bm (after c bm n m)).1

module _ (c : Compiler) (bm : Bitmap) (m : Memory) where
  -- `n` calls on a free bitmap take the first `n` slots.
  after_slots :
      ((j : ℕ) → j < bm.size_in_block * 64 → slot m bm j ≡ 1)
      → (n : ℕ) → n ≤ bm.size_in_block * 64
      → (j : ℕ) → j < bm.size_in_block * 64
      → slot (after c bm n m) bm j ≡ (if ltb j n then 0 else 1)
  unfolding after
  after_slots free zero h j lt = ground (arith, free j lt)
  after_slots free (suc n) h j lt =
      let before = after_slots free n (omega arith) in
      let step =
        bitmap_find_and_set_least c (after c bm n m) bm n (omega arith)
          (ground (arith, before n (omega arith)))
          (λ i l. ground (arith, before i (omega arith))) in
      ground (arith, step.1 j, before j lt)

  next_slot :
      ((j : ℕ) → j < bm.size_in_block * 64 → slot m bm j ≡ 1)
      → (n : ℕ) → n ≤ bm.size_in_block * 64
      → (bitmap_find_and_set c bm (after c bm n m)).0 ≡ (
          if ltb n (bm.size_in_block * 64)
          then min64 n bm.len
          else min64 (c.uninit (after c bm n m)) bm.len)
  next_slot free n h = elim (Bool-cases (ltb n (bm.size_in_block * 64))) [
    | inl left ↦
        let lt = ltb→lt n (bm.size_in_block * 64) left in
        let state = after_slots free n h in
        let step =
          bitmap_find_and_set_least c (after c bm n m) bm n lt (ground (arith, state n lt))
            (λ i l. ground (arith, state i (omega arith))) in
        rw left step.0
    | inr gone ↦
        let ge = ltb→ge n (bm.size_in_block * 64) gone in
        let state = after_slots free n h in
        let step =
          bitmap_find_and_set_full c (after c bm n m) bm (λ j lt. ground (arith, state j lt)) in
        rw gone (ap (λ (r : ℕ × Memory). r.0) step)
  ]

-- On a fresh bitmap the calls return the slots in growing order, 0 up to the length, then the
-- length as long as a word has a bit left, and then the uninitialised index cut to the length.
pub bitmap_find_and_set_order :
    (c : Compiler) (m : Memory) (len ptr n : ℕ)
    → n ≤ bitmap_size_in_block len * 64
    → let b = bitmap_init m len ptr in
      let m' = after c b.bm n b.memory in
      (bitmap_find_and_set c b.bm m').0
      ≡ (if ltb n (bitmap_size_in_block len * 64) then min64 n len else min64 (c.uninit m') len)
unfolding bitmap_init
bitmap_find_and_set_order c m len ptr n h =
    next_slot c (bitmap_init m len ptr).bm (bitmap_init m len ptr).memory
      (bitmap_init-free m len ptr).0 n h
