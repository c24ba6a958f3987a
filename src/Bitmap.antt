-- ===== src/Bitmap.antt =====
-- kernel/lib/bitmap/bitmap.c: a bitmap in memory, one bit for each slot, the first slot in the
-- highest bit of the first word. A bit is 1 while its slot is free ("set is 0, unset is 1").
--
-- What C leaves open comes from a `Compiler`: the value that an uninitialised local is read as,
-- and the `int` shift `1 << k`, which the C standard defines for k < 31 only.
pub mod Slot
pub mod Clz
pub mod Find
pub mod Unset
pub mod Fresh
pub mod Order
pub mod Tests
use b0s.Base.{ℕ, zero, suc, ◌+◌, ◌-◌, ◌*◌, ◌/◌, ◌%◌, ◌^◌, bit_and, bit_or, ◌==◌, leb, if◌then◌else◌}
use b0s.Base.Word.{not64, min64}
use b0s.Base.Bits.{bit}
use b0s.Base.Result.{Result, ok, ◌>>=◌}
use b0s.Memory.{Memory, load64, store64, memset}

pub record Compiler : Type 0 where
  -- An uninitialised local u64, as read in the given memory.
  pub uninit : Memory → ℕ
  -- `1 << k` on `int`, converted to u64.
  pub int_one_shl : ℕ → ℕ

-- `struct bitmap`; `bitmap` is the address of the first word.
pub record Bitmap : Type 0 where
  pub len : ℕ
  pub size_in_block : ℕ
  pub bitmap : ℕ

-- `BITMAP_SIZE_IN_BLOCK`
abbrev pub bitmap_size_in_block : ℕ → ℕ
bitmap_size_in_block len = len / 64 + 1

-- What `bitmap_init` sets and returns.
pub record InitResult : Type 0 where
  pub bm : Bitmap
  pub next : ℕ
  pub memory : Memory

unfoldable pub bitmap_init : Memory → ℕ → ℕ → InitResult
bitmap_init m len ptr =
    let size = bitmap_size_in_block len in
    record {
      bm = record { len = len; size_in_block = size; bitmap = ptr };
      next = ptr + size;
      memory = memset m ptr 0xff (size * 8);
    }

-- `__builtin_clzll`: the count of zero bits above the highest one bit.
clz_loop : ℕ → ℕ → ℕ
clz_loop zero w = 0
clz_loop (suc k) w = if bit w k == 1 then 0 else suc (clz_loop k w)

unfoldable pub clz : ℕ → ℕ
unfolding clz_loop bit
clz w = clz_loop 64 w

-- The address of word `i`.
abbrev pub word_at : Bitmap → ℕ → ℕ
word_at bm i = bm.bitmap + 8 * i

-- On a structure whose pointer is set already: with the cast of a `BITMAP_STATIC`, that is the first
-- word of its array.
unfoldable pub bitmap_init_static : ℕ → Bitmap → Memory → Bitmap × Memory
bitmap_init_static len bm m =
    let blocks = bitmap_size_in_block len in
    (record bm { len = len; size_in_block = blocks }, memset m bm.bitmap 0xff (blocks * 8))

-- With memory from `kmalloc`. The first result is the returned pointer, 0 for NULL.
unfoldable pub bitmap_init_kheap {ℓ} :
    {S : Type ℓ}
    → (ℕ → S → Result (ℕ × S))
    → ℕ
    → Bitmap
    → Memory
    → S
    → Result (ℕ × Bitmap × Memory × S)
bitmap_init_kheap kmalloc len bm m st =
    let blocks = bitmap_size_in_block len in
    kmalloc (8 * blocks) st >>= λ (ptr, st').
    let filled : Bitmap = record { len = len; size_in_block = blocks; bitmap = ptr } in
    ok (
      if ptr == 0
      then (0, filled, m, st')
      else (ptr + blocks, filled, memset m ptr 0xff (blocks * 8), st'))

-- The loop of `bitmap_find_and_set` at word `i`, with the words left; gives `index` and memory.
unfoldable pub find_loop : Compiler → ℕ → ℕ → Bitmap → Memory → ℕ × Memory
find_loop c zero i bm m = (c.uninit m, m)
find_loop c (suc left) i bm m =
    let w = load64 m (word_at bm i) in
    let rest = find_loop c left (i + 1) bm m in
    let bit_set_index = clz w in
    let taken = bit_and w (not64 (2 ^ (63 - bit_set_index))) in
    if w == 0 then rest else (i * 64 + bit_set_index, store64 m (word_at bm i) taken)

unfoldable pub bitmap_find_and_set : Compiler → Bitmap → Memory → ℕ × Memory
unfolding find_loop
bitmap_find_and_set c bm m =
    let (index, m') = find_loop c bm.size_in_block 0 bm m in (min64 index bm.len, m')

unfoldable pub bitmap_unset : Compiler → Bitmap → ℕ → Memory → Memory
bitmap_unset c bm i m =
    let j = i / 64 in
    let bit_set_index = i % 64 in
    let given = bit_or (load64 m (word_at bm j)) (c.int_one_shl (63 - bit_set_index)) in
    if leb bm.len i then m else store64 m (word_at bm j) given
