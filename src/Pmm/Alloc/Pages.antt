-- ===== src/Pmm/Alloc/Pages.antt =====
-- The pages of the allocator as the bits of its bitmaps, when these do not share memory.
use b0s.Base.{
  ℕ, zero, suc, ◌+◌, ◌*◌, ◌/◌, ◌<◌, ◌≤◌, ◌≡◌, ◌⊎◌, refl, inl, inr, arith, leb, ◌==◌, Bool-cases,
  leb→gt,
}
use b0s.Memory.{Memory, load64}
use b0s.Memory.Frame.{load_ext, store_outside}
use b0s.Bitmap.{Bitmap, Compiler, word_at, bitmap_find_and_set, bitmap_unset, find_loop}
use b0s.Bitmap.Slot.{slot}

-- Address `a` lies in the words of the bitmap.
abbrev pub Inside : Bitmap → ℕ → Type 0
Inside bm a = (bm.bitmap ≤ a) × (a < word_at bm bm.size_in_block)

abbrev pub Outside : Bitmap → ℕ → Type 0
Outside bm a = (a < bm.bitmap) ⊎ (word_at bm bm.size_in_block ≤ a)

-- Two bitmaps share no byte.
abbrev pub Apart : Bitmap → Bitmap → Type 0
Apart b b' = (word_at b b.size_in_block ≤ b'.bitmap) ⊎ (word_at b' b'.size_in_block ≤ b.bitmap)

-- A slot depends on the words of its bitmap alone.
pub slot_ext :
    (m m' : Memory) (bm : Bitmap) (j : ℕ)
    → j < bm.size_in_block * 64
    → ((a : ℕ) → Inside bm a → m' a ≡ m a)
    → slot m' bm j ≡ slot m bm j
unfolding slot
slot_ext m m' bm j lt same =
    rw (load_ext 8 m' m (word_at bm (j / 64)) (λ a lo hi. same a (omega arith, omega arith)))

find_loop-Outside :
    (c : Compiler) (bm : Bitmap) (m : Memory) (left i a : ℕ)
    → i + left ≤ bm.size_in_block
    → Outside bm a
    → (find_loop c left i bm m).1 a ≡ m a
unfolding find_loop
find_loop-Outside c bm m zero i a h out = refl
find_loop-Outside c bm m (suc left) i a h out = elim (Bool-cases (load64 m (word_at bm i) == 0)) [
  | inl zero_word ↦ rw zero_word (find_loop-Outside c bm m left (i + 1) a (omega arith) out)
  | inr some_word ↦ rw some_word (store_outside 8 m (word_at bm i) _ a (ground arith))
]

-- The calls change no byte outside of the words.
pub find-Outside :
    (c : Compiler) (bm : Bitmap) (m : Memory) (a : ℕ)
    → Outside bm a
    → (bitmap_find_and_set c bm m).1 a ≡ m a
unfolding bitmap_find_and_set
find-Outside c bm m a out = find_loop-Outside c bm m bm.size_in_block 0 a (omega arith) out

pub unset-Outside :
    (c : Compiler) (bm : Bitmap) (i : ℕ) (m : Memory) (a : ℕ)
    → bm.len < bm.size_in_block * 64
    → Outside bm a
    → bitmap_unset c bm i m a ≡ m a
unfolding bitmap_unset
unset-Outside c bm i m a fits out = elim (Bool-cases (leb bm.len i)) [
  | inl past ↦ rw past
  | inr within ↦
      let lt = leb→gt bm.len i within in
      rw within (store_outside 8 m (word_at bm (i / 64)) _ a (ground arith))
]
