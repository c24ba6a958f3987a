-- ===== src/Bitmap/Fresh.antt =====
-- A bitmap fresh from `bitmap_init`.
use b0s.Base.{
  ℕ, zero, suc, ◌+◌, ◌-◌, ◌*◌, ◌/◌, ◌%◌, ◌^◌, ◌<◌, ◌≤◌, ◌≡◌, ◌⊎◌, refl, ◌∙◌, arith, ltb, leb,
  if◌then◌else◌, ◌&&◌,
}
use native.Mathlib.Nat.{pow-suc, one-le-pow}
use b0s.Base.Bits.{bit_complement, bit-zero}
use b0s.Memory.{Memory, load, memset, memset_loop, write_byte}
use b0s.Bitmap.{bitmap_init, bitmap_size_in_block, word_at}
use b0s.Bitmap.Slot.{slot}

memset_loop-at :
    (left i : ℕ) (m : Memory) (p v a : ℕ)
    → memset_loop left i m p v a
      ≡ (if leb (p + i) a && ltb a (p + i + left) then v % 2 ^ 8 else m a)
unfolding memset_loop
memset_loop-at zero i m p v a = ground arith
memset_loop-at (suc left) i m p v a =
    ground (arith, memset_loop-at left (i + 1) (write_byte m (p + i) v) p v a)

-- `memset` gives each byte of the range the value, and changes no other.
pub memset-at :
    (m : Memory) (p v n a : ℕ)
    → memset m p v n a ≡ (if leb p a && ltb a (p + n) then v % 2 ^ 8 else m a)
unfolding memset
memset-at m p v n a = ground (arith, memset_loop-at n 0 m p v a)

load_ones :
    (n : ℕ) (m : Memory) (p : ℕ)
    → ((a : ℕ) → p ≤ a → a < p + n → m a ≡ 255)
    → load n m p ≡ 256 ^ n - 1
unfolding load
load_ones zero m p h = refl
load_ones (suc n) m p h = omega (
  arith,
  h p (omega arith) (omega arith),
  load_ones n m (p + 1) (λ a lo hi. h a (omega arith) (omega arith)),
  pow-suc 256 n,
  one-le-pow n 256,
)

-- After `bitmap_init` every slot of every word of the bitmap is free, those past the length too,
-- and no byte outside of the words has changed.
pub bitmap_init-free :
    (m : Memory) (len ptr : ℕ)
    → let out = bitmap_init m len ptr in
      ((j : ℕ) → j < bitmap_size_in_block len * 64 → slot out.memory out.bm j ≡ 1)
      × ((a : ℕ) → (a < ptr) ⊎ (ptr + bitmap_size_in_block len * 8 ≤ a) → out.memory a ≡ m a)
unfolding bitmap_init slot
bitmap_init-free m len ptr = (
  λ j lt.
      let size = bitmap_size_in_block len in
      let full =
        load_ones 8 (memset m ptr 0xff (size * 8)) (ptr + 8 * (j / 64))
          (λ a lo hi. ground (arith, memset-at m ptr 0xff (size * 8) a)) in
      rw full (
        bit_complement 64 0 (63 - j % 64) (omega arith) (omega arith)
        ∙ omega (arith, bit-zero (63 - j % 64))),
  λ a h. ground (arith, memset-at m ptr 0xff (bitmap_size_in_block len * 8) a),
)

-- The address that `bitmap_init` returns as "first unused" lies inside the words that it filled:
-- behind the first byte, before the end, and holding 0xff.
pub bitmap_init-next :
    (m : Memory) (len ptr : ℕ)
    → let out = bitmap_init m len ptr in
      (out.bm.bitmap < out.next)
      × (out.next < word_at out.bm out.bm.size_in_block)
      × (out.memory out.next ≡ 0xff)
unfolding bitmap_init
bitmap_init-next m len ptr =
    let size = bitmap_size_in_block len in
    (omega arith, omega arith, ground (arith, memset-at m ptr 0xff (size * 8) (ptr + size)))
