-- ===== src/Bitmap/Find.antt =====
-- `bitmap_find_and_set` takes the lowest free slot.
use b0s.Base.{
  ℕ, zero, suc, ◌+◌, ◌-◌, ◌*◌, ◌/◌, ◌%◌, ◌^◌, ◌<◌, ◌≤◌, ◌≡◌, ◌≢◌, refl, sym, ◌∙◌, inl, inr, arith,
  ◌==◌, if◌then◌else◌, Bool-cases, bit_and, ==→≡, ==→≢, ≡→==, ≢→==,
}
use b0s.Base.Word.{not64, min64}
use b0s.Base.Bits.{bit, bit-clear, eq-zero_of_bits}
use b0s.Memory.{Memory, load64, store64}
use b0s.Memory.Frame.{load-lt}
use b0s.Bitmap.{Bitmap, Compiler, word_at, clz, find_loop, bitmap_find_and_set}
use b0s.Bitmap.Slot.{slot, slot_word, slot-store_same, slot-store_other}
use b0s.Bitmap.Clz.{clz_at, ne-zero_of_bit}

-- No slot from word `i` up to slot `t` is free.
abbrev TakenBetween : Memory → Bitmap → ℕ → ℕ → Type 0
TakenBetween m bm i t = (j : ℕ) → i * 64 ≤ j → j < t → slot m bm j ≡ 0

-- The word of slot `t` with that slot's bit cleared.
abbrev cleared : Memory → Bitmap → ℕ → ℕ
cleared m bm t = bit_and (load64 m (word_at bm (t / 64))) (not64 (2 ^ (63 - t % 64)))

slot-cleared :
    (m : Memory) (bm : Bitmap) (t j : ℕ)
    → slot (store64 m (word_at bm (t / 64)) (cleared m bm t)) bm j
      ≡ (if j == t then 0 else slot m bm j)
slot-cleared m bm t j = elim (Bool-cases (j / 64 == t / 64)) [
  | inl same ↦
      let e = ==→≡ (j / 64) (t / 64) same in
      let w = load64 m (word_at bm (t / 64)) in
      ground (
        arith,
        slot-store_same m bm (t / 64) (cleared m bm t) j e,
        bit-clear w (63 - t % 64) (63 - j % 64) (omega arith) (omega arith),
        slot_word m bm (t / 64) (63 - j % 64) j (omega arith) (omega arith),
      )
  | inr other ↦
      let ne = ==→≢ (j / 64) (t / 64) other in
      ground (arith, slot-store_other m bm (t / 64) (cleared m bm t) j ne)
]

module _ (c : Compiler) (m : Memory) (bm : Bitmap) where
  -- With every slot of a word taken the word is 0.
  word-eq-zero : (i t : ℕ) → TakenBetween m bm i t → i * 64 + 64 ≤ t → load64 m (word_at bm i) ≡ 0
  word-eq-zero i t taken h = eq-zero_of_bits 64 _ (load-lt 8 m (word_at bm i)) all
    where
      all : (k : ℕ) → k < 64 → bit (load64 m (word_at bm i)) k ≡ 0
      all k lt =
          sym (slot_word m bm i k (i * 64 + (63 - k)) lt refl)
          ∙ taken (i * 64 + (63 - k)) (omega arith) (omega arith)

  -- The word of the lowest free slot is not 0, and its leading zeros lead to that slot.
  lowest_in_word :
      (i t : ℕ)
      → t / 64 ≡ i
      → slot m bm t ≡ 1
      → TakenBetween m bm i t
      → (load64 m (word_at bm i) ≢ 0) × (clz (load64 m (word_at bm i)) ≡ t % 64)
  lowest_in_word i t e free taken =
      let w = load64 m (word_at bm i) in
      let own : bit w (63 - t % 64) ≡ 1 =
        sym (slot_word m bm i (63 - t % 64) t (omega arith) (omega arith)) ∙ free in
      (
        ne-zero_of_bit w (63 - t % 64) own,
        clz_at w (t % 64) (omega arith) own λ q lt.
            sym (slot_word m bm i (63 - q) (i * 64 + q) (omega arith) (omega arith))
            ∙ taken (i * 64 + q) (omega arith) (omega arith),
      )

  find_loop_least :
      (left i t : ℕ)
      → i ≤ t / 64
      → t / 64 < i + left
      → slot m bm t ≡ 1
      → TakenBetween m bm i t
      → find_loop c left i bm m ≡ (t, store64 m (word_at bm (t / 64)) (cleared m bm t))
  unfolding find_loop
  find_loop_least zero i t lo hi free taken = absurd (omega arith)
  find_loop_least (suc left) i t lo hi free taken = elim (Bool-cases (t / 64 == i)) [
    | inl same ↦
        let e = ==→≡ (t / 64) i same in
        let found = lowest_in_word i t e free taken in
        let whole : i * 64 + t % 64 ≡ t = omega arith in rw (≢→== _ 0 found.0, found.1, whole, e)
    | inr later ↦
        let ne = ==→≢ (t / 64) i later in
        rw (≡→== _ 0 (word-eq-zero i t taken (omega arith))) (
          find_loop_least left (i + 1) t (omega arith) (omega arith) free
            (λ j lo' hi'. taken j (omega arith) hi'))
  ]

  -- The loop ends with the uninitialised index once every word is 0.
  find_loop_full :
      (left i : ℕ)
      → ((j : ℕ) → i * 64 ≤ j → j < (i + left) * 64 → slot m bm j ≡ 0)
      → find_loop c left i bm m ≡ (c.uninit m, m)
  unfolding find_loop
  find_loop_full zero i taken = refl
  find_loop_full (suc left) i taken =
      let empty =
        word-eq-zero i (i * 64 + 64) (λ j lo hi. taken j lo (omega arith)) (omega arith) in
      rw (≡→== _ 0 empty)
        (find_loop_full left (i + 1) (λ j lo hi. taken j (omega arith) (omega arith)))

  -- With a free slot among the words of the bitmap, and `t` the lowest, the call returns `t`, cut
  -- to the length, and takes that slot; every other slot keeps its state.
  pub bitmap_find_and_set_least :
      (t : ℕ)
      → t < bm.size_in_block * 64
      → slot m bm t ≡ 1
      → ((j : ℕ) → j < t → slot m bm j ≡ 0)
      → let out = bitmap_find_and_set c bm m in
        (out.0 ≡ min64 t bm.len) × ((j : ℕ) → slot out.1 bm j ≡ (if j == t then 0 else slot m bm j))
  unfolding bitmap_find_and_set
  bitmap_find_and_set_least t lt free taken =
      rw
        (find_loop_least bm.size_in_block 0 t (omega arith) (omega arith) free
          (λ j lo hi. taken j hi))
        (refl, slot-cleared m bm t)

  -- With no free slot left in any word, the call returns the uninitialised index, cut to the
  -- length, and leaves the memory.
  pub bitmap_find_and_set_full :
      ((j : ℕ) → j < bm.size_in_block * 64 → slot m bm j ≡ 0)
      → bitmap_find_and_set c bm m ≡ (min64 (c.uninit m) bm.len, m)
  unfolding bitmap_find_and_set
  bitmap_find_and_set_full taken =
      rw (find_loop_full bm.size_in_block 0 (λ j lo hi. taken j (omega arith)))
