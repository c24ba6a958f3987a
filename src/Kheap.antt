-- ===== src/Kheap.antt =====
-- kernel/mm/kheap.c: the kernel heap. Containers of whole pages form a list from `heap` on, and each
-- holds a list of blocks in the order of their addresses. The nodes are stores by address, with the
-- `prev` pointers in stores of their own, so that a pointer that was left behind can be followed.
pub mod Chain
pub mod Take
pub mod Alloc
pub mod Heap
pub mod Malloc
pub mod Grow
pub mod Kmalloc
pub mod Merge
pub mod Free
pub mod Mark
pub mod Unlink
pub mod Release
pub mod Kfree
mod Tests
use b0s.Base.{ℕ, zero, suc, ◌+◌, ◌/◌, ◌==◌, leb, if◌then◌else◌, Bool, true, false, not, ◌&&◌}
use b0s.Base.{Option, none, some}
use b0s.Base.Word.{add64, sub64, mul64, max64, page_size, roundup}
use b0s.Base.Result.{Result, ok, panic, panic_if, ◌>>=◌, diverges, heap_impossible, heap_init}

-- `KHEAP_MIN_ALLOC_IN_PAGES`
abbrev pub kheap_min_alloc_in_pages : ℕ
kheap_min_alloc_in_pages = 5

-- `KHEAP_ALIGN_IN_BYTES`
abbrev pub kheap_align : ℕ
kheap_align = 16

-- `sizeof(struct block)` and `sizeof(struct container)`
abbrev pub sizeof_block : ℕ
sizeof_block = 40

abbrev pub sizeof_container : ℕ
sizeof_container = 40

-- `BLOCK_DATA`, `DATA_BLOCK`
abbrev pub block_data : ℕ → ℕ
block_data x = add64 x sizeof_block

abbrev pub data_block : ℕ → ℕ
data_block x = sub64 x sizeof_block

-- `struct block`, without `prev`.
pub record Block : Type 0 where
  pub size_in_bytes : ℕ
  pub used : Bool
  pub next : ℕ
  pub container : ℕ

-- `struct container`, without `prev`.
pub record Container : Type 0 where
  pub size_in_bytes : ℕ
  pub used_blocks : ℕ
  pub next : ℕ
  pub block : ℕ

-- The blocks and containers by address, their `prev` pointers, and the static `heap`.
pub record Kheap : Type 0 where
  pub blocks : ℕ → Block
  pub block_prev : ℕ → ℕ
  pub containers : ℕ → Container
  pub container_prev : ℕ → ℕ
  pub heap : ℕ

abbrev pub assign {ℓ} : {A : Type ℓ} → (ℕ → A) → ℕ → A → ℕ → A
assign store p v a = if a == p then v else store a

-- The search of `try_alloc_block` from block `b` on; 0 is NULL.
unfoldable pub find_free : ℕ → (ℕ → Block) → ℕ → ℕ → Result ℕ
find_free zero blocks b size = panic diverges
find_free (suc rounds) blocks b size =
    let further = find_free rounds blocks (blocks b).next size in
    if b == 0
    then ok 0
    else (if not (blocks b).used && leb size (blocks b).size_in_bytes then ok b else further)

-- The end of the header of a block that is split off behind the first `size` bytes of `b`.
unfoldable pub next_struct_end : ℕ → ℕ → ℕ
next_struct_end b size = roundup (add64 (add64 (block_data b) size) sizeof_block) kheap_align

-- What follows `found_block` and the two marks: the split of a block that has room for another.
unfoldable pub split_block : ℕ → ℕ → Kheap → Kheap
unfolding next_struct_end
split_block b size h =
    let block_end = add64 (block_data b) (h.blocks b).size_in_bytes in
    let next_end = next_struct_end b size in
    let next_block = sub64 next_end sizeof_block in
    let after = (h.blocks b).next in
    let new_b : Block = record {
      size_in_bytes = sub64 block_end next_end;
      used = false;
      next = after;
      container = (h.blocks b).container;
    } in
    let with_new = assign h.blocks next_block new_b in
    let linked = assign with_new b (record (with_new b) { next = next_block }) in
    let shrunk = assign linked b (record (linked b) { size_in_bytes = size }) in
    let back = assign h.block_prev next_block b in
    if leb block_end next_end then h else record h {
      blocks = shrunk;
      block_prev = if after == 0 then back else assign back after next_block;
    }

-- `b->used = TRUE; b->container->used_blocks++;`
unfoldable pub mark_used : ℕ → Kheap → Kheap
mark_used b h =
    let c = (h.blocks b).container in
    record h {
      blocks = assign h.blocks b (record (h.blocks b) { used = true });
      containers =
          assign h.containers c
            (record (h.containers c) { used_blocks = add64 (h.containers c).used_blocks 1 });
    }

-- The block, 0 for NULL, and the heap.
unfoldable pub try_alloc_block : ℕ → ℕ → ℕ → Kheap → Result (ℕ × Kheap)
unfolding find_free mark_used split_block
try_alloc_block rounds container size h =
    find_free rounds h.blocks (h.containers container).block size >>= λ b.
    ok (if b == 0 then (0, h) else (b, split_block b size (mark_used b h)))

-- The loop of `kmalloc` from container `c` on: the block, 0 for NULL. `rounds` bounds both loops.
unfoldable pub try_containers : ℕ → ℕ → ℕ → ℕ → Kheap → Result (ℕ × Kheap)
unfolding try_alloc_block
try_containers zero rounds c size h = panic diverges
try_containers (suc left) rounds c size h =
    let next = (h.containers c).next in
    let further = try_containers left rounds next size h in
    let tried =
      try_alloc_block rounds c size h >>= λ (b, h'). if b == 0 then further else ok (b, h') in
    if c == 0 then ok (0, h) else tried

-- The address space that containers are taken from: `vmm_alloc_between` on the kernel's space and
-- heap range, for a number of pages, where `none` is NULL, and `vmm_free` on it.
pub record PagePool : Type 1 where
  pub State : Type 0
  pub vmm_alloc_between : ℕ → State → Result (Option ℕ × State)
  pub vmm_free : ℕ → ℕ → State → Result State

-- The container of so many pages at an address, put before the others, with its one block.
unfoldable pub add_container : ℕ → ℕ → Kheap → Kheap
add_container c pages h =
    let size = sub64 (mul64 pages page_size) sizeof_container in
    let block = add64 c sizeof_container in
    record {
      blocks = assign h.blocks block (record {
        size_in_bytes = sub64 size sizeof_block;
        used = false;
        next = 0;
        container = c;
      });
      block_prev = assign h.block_prev block 0;
      containers =
          assign h.containers c
            (record { size_in_bytes = size; used_blocks = 0; next = h.heap; block = block });
      container_prev =
          let own = assign h.container_prev c 0 in if h.heap == 0 then own else assign own h.heap c;
      heap = c;
    }

-- The merge of block `b` with the one before, if that is free: the block that is left.
unfoldable pub merge_prev : ℕ → ℕ → Kheap → ℕ × Kheap
merge_prev b total_size h =
    let prev = h.block_prev b in
    let longer = record (h.blocks prev) {
      next = (h.blocks b).next;
      size_in_bytes = add64 (h.blocks prev).size_in_bytes total_size;
    } in
    if not (prev == 0) && not (h.blocks prev).used
    then (prev, record h { blocks = assign h.blocks prev longer })
    else (b, h)

-- The merge of block `b` with the one behind, if that is free.
unfoldable pub merge_next : ℕ → Kheap → Kheap
merge_next b h =
    let next = (h.blocks b).next in
    let after = (h.blocks next).next in
    let longer = record (h.blocks b) {
      size_in_bytes =
          add64 (h.blocks b).size_in_bytes (add64 (h.blocks next).size_in_bytes sizeof_block);
      next = after;
    } in
    if not (next == 0) && not (h.blocks next).used
    then record h {
      blocks = assign h.blocks b longer;
      block_prev = if after == 0 then h.block_prev else assign h.block_prev after b;
    }
    else h

-- `b->used = FALSE; b->container->used_blocks--;`
unfoldable pub mark_free : ℕ → Kheap → Kheap
mark_free b h =
    let c = (h.blocks b).container in
    record h {
      blocks = assign h.blocks b (record (h.blocks b) { used = false });
      containers =
          assign h.containers c
            (record (h.containers c) { used_blocks = sub64 (h.containers c).used_blocks 1 });
    }

-- The two merges of `kfree`.
unfoldable pub merge : ℕ → Kheap → Kheap
unfolding merge_prev merge_next
merge b h =
    let (b', h') = merge_prev b (add64 (h.blocks b).size_in_bytes sizeof_block) h in
    merge_next b' h'

-- `remove_container`, without the call of `vmm_free`.
unfoldable pub unlink_container : ℕ → Kheap → Kheap
unlink_container c h =
    let prev = h.container_prev c in
    let next = (h.containers c).next in
    let before = record (h.containers prev) { next = next } in
    record h {
      heap = if prev == 0 then next else h.heap;
      containers = if prev == 0 then h.containers else assign h.containers prev before;
      container_prev = if next == 0 then h.container_prev else assign h.container_prev next prev;
    }

module _ (pool : PagePool) where
  open pool use {State, vmm_alloc_between, vmm_free}

  -- The container, 0 for NULL.
  pub create_container : ℕ → Kheap → State → Result (ℕ × Kheap × State)
  unfolding add_container
  create_container size_in_pages h st =
      let pages = max64 kheap_min_alloc_in_pages size_in_pages in
      vmm_alloc_between pages st >>= λ (va, st'). elim va [
        | none ↦ ok (0, h, st')
        | some c ↦ ok (c, add_container c pages h, st')
      ]

  pub kheap_init : ℕ → Kheap → State → Result (Kheap × State)
  unfolding create_container
  kheap_init size_in_pages h st = create_container size_in_pages h st >>= λ (c, h', st').
      panic_if (c == 0) heap_init (ok (h', st'))

  pub remove_container : ℕ → Kheap → State → Result (Kheap × State)
  unfolding unlink_container
  remove_container c h st =
      let pages = add64 (h.containers c).size_in_bytes sizeof_container / page_size in
      vmm_free c pages st >>= λ st'. ok (unlink_container c h, st')

  -- The returned pointer, 0 for NULL.
  pub kmalloc : ℕ → ℕ → Kheap → State → Result (ℕ × Kheap × State)
  unfolding try_containers create_container try_alloc_block
  kmalloc rounds size h st = try_containers rounds rounds h.heap size h >>= λ (b, h₁).
      let pages = add64 size sizeof_block / page_size + 2 in
      let grown = create_container pages h₁ st >>= λ (c, h₂, st').
      let tried = try_alloc_block rounds c size h₂ >>= λ (b', h₃).
      panic_if (b' == 0) heap_impossible (ok (block_data b', h₃, st')) in
      if c == 0 then ok (0, h₂, st') else tried in
      if b == 0 then grown else ok (block_data b, h₁, st)

  pub kfree : ℕ → Kheap → State → Result (Kheap × State)
  unfolding mark_free merge remove_container
  kfree ptr h st =
      let b = data_block ptr in
      let h' = mark_free b h in
      let c = (h'.blocks b).container in
      let removed = remove_container c h' st in
      if (h'.containers c).used_blocks == 0 then removed else ok (merge b h', st)
