-- ===== src/Memory.antt =====
-- Byte memory: the loads and stores of a u64 (little-endian), and the byte loops of
-- kernel/lib/string (memset.c, memcpy.c, memcmp.c).
pub mod Frame
use b0s.Base.{ℕ, zero, suc, ◌+◌, ◌-◌, ◌*◌, ◌/◌, ◌%◌, ◌==◌, if◌then◌else◌, Bool, ◌&&◌}
use b0s.Base.Word.{u8}

-- The byte at each address; a cell is read modulo 256.
abbrev pub Memory : Type 0
Memory = ℕ → ℕ

unfoldable pub write_byte : Memory → ℕ → ℕ → Memory
write_byte m p v a = if a == p then u8 v else m a

unfoldable pub read_byte : Memory → ℕ → ℕ
read_byte m p = u8 (m p)

-- `n` bytes from the lowest.
unfoldable pub load : ℕ → Memory → ℕ → ℕ
unfolding read_byte
load zero m p = 0
load (suc n) m p = read_byte m p + 256 * load n m (p + 1)

unfoldable pub store : ℕ → Memory → ℕ → ℕ → Memory
unfolding write_byte
store zero m p v = m
store (suc n) m p v = store n (write_byte m p v) (p + 1) (v / 256)

abbrev pub load64 : Memory → ℕ → ℕ
load64 m p = load 8 m p

abbrev pub store64 : Memory → ℕ → ℕ → Memory
store64 m p v = store 8 m p v

-- `memset`: `ptr[i] = val` for each `i`, in order. Returns the memory; the C function also `ptr`.
unfoldable pub memset_loop : ℕ → ℕ → Memory → ℕ → ℕ → Memory
unfolding write_byte
memset_loop zero i m ptr val = m
memset_loop (suc left) i m ptr val = memset_loop left (i + 1) (write_byte m (ptr + i) val) ptr val

unfoldable pub memset : Memory → ℕ → ℕ → ℕ → Memory
unfolding memset_loop
memset m ptr val size = memset_loop size 0 m ptr val

-- `memcpy`; a null pair of pointers copies nothing.
unfoldable pub memcpy_loop : ℕ → ℕ → Memory → ℕ → ℕ → Memory
unfolding write_byte read_byte
memcpy_loop zero i m dst src = m
memcpy_loop (suc left) i m dst src =
    memcpy_loop left (i + 1) (write_byte m (dst + i) (read_byte m (src + i))) dst src

unfoldable pub memcpy : Memory → ℕ → ℕ → ℕ → Memory
unfolding memcpy_loop
memcpy m dst src n = if dst == 0 && src == 0 then m else memcpy_loop n 0 m dst src

-- `memcmp` from the last byte down: 1 at a difference, else 0.
unfoldable pub memcmp : Memory → ℕ → ℕ → ℕ → ℕ
unfolding read_byte
memcmp m a b zero = 0
memcmp m a b (suc size) =
    if read_byte m (a + size) == read_byte m (b + size) then memcmp m a b size else 1
