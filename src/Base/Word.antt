-- ===== src/Base/Word.antt =====
-- The unsigned widths of kernel/types.h with their wrap-around, the macros of
-- kernel/lib/math/math.h and the address macros of kernel/mm/layout.h and
-- kernel/arch/x86_64/mm/paging.h.
use Prim.Native.Nat.{ℕ, ◌+◌, ◌-◌, ◌*◌, ◌/◌, ◌%◌, ◌^◌, bit_and}
use mathlib.Core.Bool.{Bool}
use b0s.Base.Tests.{ltb, ◌==◌, if◌then◌else◌}

abbrev pub u8 : ℕ → ℕ
u8 n = n % 2 ^ 8

abbrev pub u16 : ℕ → ℕ
u16 n = n % 2 ^ 16

abbrev pub u32 : ℕ → ℕ
u32 n = n % 2 ^ 32

abbrev pub u64 : ℕ → ℕ
u64 n = n % 2 ^ 64

abbrev pub add64 : ℕ → ℕ → ℕ
add64 a b = u64 (a + b)

-- `-` on ℕ stops at 0, so the modulus is added first.
abbrev pub sub64 : ℕ → ℕ → ℕ
sub64 a b = u64 (a + 2 ^ 64 - u64 b)

abbrev pub mul64 : ℕ → ℕ → ℕ
mul64 a b = u64 (a * b)

abbrev pub not64 : ℕ → ℕ
not64 a = 2 ^ 64 - 1 - u64 a

abbrev pub shl64 : ℕ → ℕ → ℕ
shl64 a k = u64 (a * 2 ^ k)

abbrev pub shr64 : ℕ → ℕ → ℕ
shr64 a k = a / 2 ^ k

-- `MAX`, `MIN`
abbrev pub max64 : ℕ → ℕ → ℕ
max64 a b = if ltb b a then a else b

abbrev pub min64 : ℕ → ℕ → ℕ
min64 a b = if ltb a b then a else b

-- `ROUNDUP`
unfoldable pub roundup : ℕ → ℕ → ℕ
roundup nb sz = bit_and (add64 nb sz) (not64 (sub64 sz 1))

-- `IS_ALIGNED`
unfoldable pub is_aligned : ℕ → ℕ → Bool
is_aligned a b = bit_and a (sub64 b 1) == 0

-- `PAGE_ADDR`
unfoldable pub page_addr : ℕ → ℕ → ℕ
page_addr addr page_size = bit_and addr (not64 (sub64 page_size 1))

abbrev pub page_size : ℕ
page_size = 4096

abbrev pub kernel_vma : ℕ
kernel_vma = 0xffffffff80000000

abbrev pub higher_half_start : ℕ
higher_half_start = 0xffff800000000000

-- `V2P`, `DM_V2P`, `DM_P2V`
abbrev pub v2p : ℕ → ℕ
v2p x = sub64 x kernel_vma

abbrev pub dm_v2p : ℕ → ℕ
dm_v2p x = sub64 x higher_half_start

abbrev pub dm_p2v : ℕ → ℕ
dm_p2v x = add64 x higher_half_start
