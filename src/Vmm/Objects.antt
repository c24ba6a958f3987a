-- ===== src/Vmm/Objects.antt =====
-- The object allocator of kernel/mm/vmm.c: `create_block`, `block_alloc`, `block_free`. The blocks of
-- a type are a list in the order of their `next` pointers, from `block_heads[type]` on; `prev` is the
-- address that the field holds, 0 for NULL. A block that was freed as the head stays in the list, as
-- `block_heads` still leads to it.
use b0s.Base.{ℕ, ◌+◌, ◌*◌, ◌/◌, ◌==◌, ltb, if◌then◌else◌, ◌||◌, List, [], ◌∷◌}
use b0s.Memory.{load64}
use b0s.Base.Word.{add64, sub64, page_size, dm_p2v, dm_v2p}
use b0s.Base.Result.{Result, ok, panic, ◌>>=◌, unknown_pointer}
use b0s.Bitmap.{Bitmap, Compiler, bitmap_init, bitmap_find_and_set, bitmap_unset}
use b0s.Pmm.State.{Pmm}
use b0s.Pmm.Alloc.{pmm_xalloc, pmm_free}
use b0s.Vmm.Regions.{NodePool}

-- `enum struct_type`
pub data StructType : Type 0 where
  type_vmm_region type_vmm_space : StructType

-- `struct block`, with its address.
pub record Block : Type 0 where
  pub address : ℕ
  pub objects : ℕ
  pub nb_used : ℕ
  pub object_size_in_bytes : ℕ
  pub max_objects : ℕ
  pub bm : Bitmap
  pub prev : ℕ

-- The blocks of each type, and the page allocator.
pub record Objects : Type 0 where
  pub regions : List Block
  pub spaces : List Block
  pub pmm : Pmm

abbrev pub get_struct_size : StructType → ℕ
get_struct_size type_vmm_region = 40
get_struct_size type_vmm_space = 16

abbrev sizeof_block : ℕ
sizeof_block = 72

-- `nb_used` is not set, and is what the page holds in its place.
pub create_block : Compiler → StructType → ℕ → Pmm → Result (Block × Pmm)
create_block c type prev s = pmm_xalloc c s >>= λ (page, s').
    let new_block = dm_p2v page in
    let size = get_struct_size type in
    let max = sub64 page_size sizeof_block / (size + 1) in
    let objects = new_block + sizeof_block in
    let made = bitmap_init s'.memory max (objects + max * size) in
    let block : Block = record {
      address = new_block;
      objects = objects;
      nb_used = load64 s'.memory (new_block + 8);
      object_size_in_bytes = size;
      max_objects = max;
      bm = made.bm;
      prev = prev;
    } in
    ok (block, record s' { memory = made.memory })

-- The loop of `block_alloc` over the blocks, with the address of the block before: a slot of the
-- first block that has one, or the first slot of a new block at the end, which is not full.
pub alloc_object : Compiler → StructType → ℕ → List Block → Pmm → Result (ℕ × List Block × Pmm)
unfolding create_block
alloc_object c type prev [] s = create_block c type prev s >>= λ (block, s').
    let (index, m) = bitmap_find_and_set c block.bm s'.memory in
    let taken = record block { nb_used = add64 block.nb_used 1 } in
    ok (block.objects + index * block.object_size_in_bytes, taken ∷ [], record s' { memory = m })
alloc_object c type prev (b ∷ bs) s =
    let (index, m) = bitmap_find_and_set c b.bm s.memory in
    let s' = record s { memory = m } in
    let further = alloc_object c type b.address bs s' in
    let found : Result (ℕ × List Block × Pmm) = ok (
      b.objects + index * b.object_size_in_bytes,
      record b { nb_used = add64 b.nb_used 1 } ∷ bs,
      s',
    ) in
    let later : Result (ℕ × List Block × Pmm) =
      further >>= λ (object, bs', s''). ok (object, b ∷ bs', s'') in
    if index == b.bm.len then later else found

-- The list after its head's `prev` is set.
abbrev set_prev : ℕ → List Block → List Block
set_prev prev [] = []
set_prev prev (b ∷ bs) = record b { prev = prev } ∷ bs

-- The loop of `block_free` over the blocks: the first one whose objects may hold the pointer gives
-- the slot back, and is freed with its last object.
pub free_object : Compiler → ℕ → List Block → Pmm → Result (List Block × Pmm)
free_object c ptr [] s = panic unknown_pointer
free_object c ptr (b ∷ bs) s =
    let outside =
      ltb ptr b.objects || ltb (b.objects + b.max_objects * b.object_size_in_bytes) ptr in
    let further : Result (List Block × Pmm) =
      free_object c ptr bs s >>= λ (bs', s'). ok (b ∷ bs', s') in
    let index = sub64 ptr b.objects / b.object_size_in_bytes in
    let s' = record s { memory = bitmap_unset c b.bm index s.memory } in
    let left = sub64 b.nb_used 1 in
    let rest = set_prev b.prev bs in
    let kept = if b.prev == 0 then record b { nb_used = left } ∷ rest else rest in
    let freed : Result (List Block × Pmm) =
      pmm_free c (dm_v2p b.address) s' >>= λ s''. ok (kept, s'') in
    if outside
    then further
    else (if left == 0 then freed else ok (record b { nb_used = left } ∷ bs, s'))

pub block_alloc : Compiler → StructType → Objects → Result (ℕ × Objects)
unfolding alloc_object
block_alloc c type_vmm_region o =
    alloc_object c type_vmm_region 0 o.regions o.pmm >>= λ (object, blocks, s).
    ok (object, record o { regions = blocks; pmm = s })
block_alloc c type_vmm_space o =
    alloc_object c type_vmm_space 0 o.spaces o.pmm >>= λ (object, blocks, s).
    ok (object, record o { spaces = blocks; pmm = s })

pub block_free : Compiler → ℕ → StructType → Objects → Result Objects
unfolding free_object
block_free c ptr type_vmm_region o =
    free_object c ptr o.regions o.pmm >>= λ (blocks, s). ok (record o { regions = blocks; pmm = s })
block_free c ptr type_vmm_space o =
    free_object c ptr o.spaces o.pmm >>= λ (blocks, s). ok (record o { spaces = blocks; pmm = s })

-- The nodes of the region lists.
unfoldable pub region_pool : Compiler → NodePool
unfolding block_alloc block_free
region_pool c = record {
  State = Objects;
  block_alloc = block_alloc c type_vmm_region;
  block_free = λ node o. block_free c node type_vmm_region o;
}
