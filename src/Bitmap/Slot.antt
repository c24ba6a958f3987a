-- ===== src/Bitmap/Slot.antt =====
-- Single slots of a bitmap, and what a store into one word does to them.
use b0s.Base.{ℕ, ◌+◌, ◌-◌, ◌*◌, ◌/◌, ◌%◌, ◌<◌, ◌≡◌, ◌≢◌, arith}
use b0s.Base.Bits.{bit, bit_low}
use b0s.Memory.{Memory, load64, store64}
use b0s.Memory.Frame.{load-store_self, load-store_apart}
use b0s.Bitmap.{Bitmap, word_at}

-- 1 if slot `i` is free, 0 if it is taken.
unfoldable pub slot : Memory → Bitmap → ℕ → ℕ
slot m bm i = bit (load64 m (word_at bm (i / 64))) (63 - i % 64)

pub slot-store_same :
    (m : Memory) (bm : Bitmap) (b v i : ℕ)
    → i / 64 ≡ b
    → slot (store64 m (word_at bm b) v) bm i ≡ bit v (63 - i % 64)
unfolding slot
slot-store_same m bm b v i e =
    rw (e, load-store_self 8 m (word_at bm b) v) (bit_low 64 v (63 - i % 64) (omega arith))

pub slot-store_other :
    (m : Memory) (bm : Bitmap) (b v i : ℕ)
    → i / 64 ≢ b
    → slot (store64 m (word_at bm b) v) bm i ≡ slot m bm i
unfolding slot
slot-store_other m bm b v i ne =
    rw (load-store_apart 8 8 m (word_at bm b) (word_at bm (i / 64)) v (omega arith))

-- Bit `k` of word `i` is a slot.
pub slot_word :
    (m : Memory) (bm : Bitmap) (i k j : ℕ)
    → k < 64
    → j ≡ i * 64 + (63 - k)
    → slot m bm j ≡ bit (load64 m (word_at bm i)) k
unfolding slot
slot_word m bm i k j lt e =
    let word : j / 64 ≡ i = omega arith in
    let place : 63 - j % 64 ≡ k = omega arith in rw (word, place)
