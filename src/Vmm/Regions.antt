-- ===== src/Vmm/Regions.antt =====
-- The list of regions of an address space: `vmm_create_region`, `vmm_remove_region`,
-- `vmm_insert_range`, `vmm_add_range` and `vmm_remove_range`.
--
-- The doubly linked list is a list in its order. A position in it is a pair of lists: the regions
-- before it, nearest first (the head is `prev`), and those from it on (the head is `cur`). The
-- nodes come from a `NodePool`, the object allocator of vmm.c (`block_alloc`, `block_free`).
pub mod Spec
pub mod Adds
pub mod Add
pub mod Overlap
pub mod Remove
use b0s.Base.{ℕ, ◌+◌, ltb, leb, ◌==◌, if◌then◌else◌, Bool, true, false, ◌&&◌, ◌||◌, List, [], ◌∷◌}
use b0s.Base.Result.{Result, ok, panic, panic_if, ◌>>=◌, region_overlap, no_region, not_contiguous}

-- `struct vmm_region`, with the address of its node.
pub record VmmRegion : Type 0 where
  pub node : ℕ
  pub va_start : ℕ
  pub va_stop : ℕ
  pub flags : ℕ

-- The allocator of the nodes: its state, `block_alloc` and `block_free` of a region node.
pub record NodePool : Type 1 where
  pub State : Type 0
  pub block_alloc : State → Result (ℕ × State)
  pub block_free : ℕ → State → Result State

-- The list that a position is in.
abbrev pub unwind : List VmmRegion → List VmmRegion → List VmmRegion
unwind [] after = after
unwind (p ∷ ps) after = unwind ps (p ∷ after)

abbrev pub starts_below : List VmmRegion → ℕ → Bool
starts_below [] va_stop = false
starts_below (next ∷ rest) va_stop = ltb next.va_start va_stop

abbrev pub stops_above : List VmmRegion → ℕ → Bool
stops_above [] va_start = false
stops_above (prev ∷ rest) va_start = ltb va_start prev.va_stop

abbrev pub connects_prev : List VmmRegion → ℕ → ℕ → Bool
connects_prev [] va_start flags = false
connects_prev (prev ∷ rest) va_start flags = va_start == prev.va_stop && flags == prev.flags

abbrev pub connects_next : List VmmRegion → ℕ → ℕ → Bool
connects_next [] va_stop flags = false
connects_next (next ∷ rest) va_stop flags = va_stop == next.va_start && next.flags == flags

-- `prev->va_stop = va_stop` and `next->va_start = va_start`
abbrev pub extend_prev : List VmmRegion → ℕ → List VmmRegion
extend_prev [] va_stop = []
extend_prev (prev ∷ rest) va_stop = record prev { va_stop = va_stop } ∷ rest

abbrev pub extend_next : List VmmRegion → ℕ → List VmmRegion
extend_next [] va_start = []
extend_next (next ∷ rest) va_start = record next { va_start = va_start } ∷ rest

-- The pointer to the region at a position; 0 is NULL.
abbrev pub pointer : List VmmRegion → ℕ
pointer [] = 0
pointer (r ∷ rs) = r.node

-- The loop of `vmm_add_range`.
after_prev : List VmmRegion → ℕ → Bool
after_prev [] va_start = true
after_prev (prev ∷ rest) va_start = ltb prev.va_start va_start

pub find_place : List VmmRegion → List VmmRegion → ℕ → ℕ → List VmmRegion × List VmmRegion
unfolding after_prev
find_place before [] va_start va_stop = (before, [])
find_place before (cur ∷ rest) va_start va_stop =
    let further = find_place (cur ∷ before) rest va_start va_stop in
    if after_prev before va_start && ltb va_stop cur.va_stop then (before, cur ∷ rest) else further

module _ (pool : NodePool) where
  open pool use {State, block_alloc, block_free}

  -- The list, the returned region pointer and the pool after an insertion.
  pub record Inserted : Type 0 where
    pub regions : List VmmRegion
    pub region : ℕ
    pub pool_state : State

  -- A position, `prev` and `cur` as above, with the state of the pool.
  pub vmm_create_region : List VmmRegion → List VmmRegion → ℕ → ℕ → ℕ → State → Result Inserted
  vmm_create_region before after va_start va_stop flags st = block_alloc st >>= λ (node, st').
      let region : VmmRegion = record {
        node = node;
        va_start = va_start;
        va_stop = va_stop;
        flags = flags;
      } in
      ok (record { regions = unwind before (region ∷ after); region = node; pool_state = st' })

  -- The region is the head of the second list.
  pub vmm_remove_region :
      List VmmRegion → VmmRegion → List VmmRegion → State → Result (List VmmRegion × State)
  vmm_remove_region before region after st =
      block_free region.node st >>= λ st'. ok (unwind before after, st')

  -- Both neighbours touch the range: `next` goes, and `prev` stops where it did.
  pub join : List VmmRegion → List VmmRegion → State → Result Inserted
  unfolding vmm_remove_region
  join before [] st =
      ok (record { regions = unwind before []; region = pointer before; pool_state = st })
  join before (next ∷ rest) st =
      vmm_remove_region (extend_prev before next.va_stop) next rest st >>= λ (rs, st').
      ok (record { regions = rs; region = pointer before; pool_state = st' })

  pub vmm_insert_range : List VmmRegion → List VmmRegion → ℕ → ℕ → ℕ → State → Result Inserted
  unfolding vmm_create_region join
  vmm_insert_range before after va_start va_stop flags st =
      let prev_touches = connects_prev before va_start flags in
      let next_touches = connects_next after va_stop flags in
      let longer_prev : Inserted = record {
        regions = unwind (extend_prev before va_stop) after;
        region = pointer before;
        pool_state = st;
      } in
      let longer_next : Inserted = record {
        regions = unwind before (extend_next after va_start);
        region = pointer after;
        pool_state = st;
      } in
      let create = vmm_create_region before after va_start va_stop flags st in
      panic_if (starts_below after va_stop) region_overlap (
        panic_if (stops_above before va_start) region_overlap (
          if prev_touches && next_touches
          then join before after st
          else (if prev_touches
              then ok longer_prev
              else (if next_touches then ok longer_next else create))))

  pub vmm_add_range : List VmmRegion → ℕ → ℕ → ℕ → State → Result Inserted
  unfolding vmm_create_region vmm_insert_range find_place
  vmm_add_range [] va_start va_stop flags st = vmm_create_region [] [] va_start va_stop flags st
  vmm_add_range (r ∷ rs) va_start va_stop flags st =
      let (before, after) = find_place [] (r ∷ rs) va_start va_stop in
      vmm_insert_range before after va_start va_stop flags st

  -- The end of `vmm_remove_range`, with the region that was found.
  pub cut_region :
      List VmmRegion → VmmRegion → List VmmRegion → ℕ → ℕ → State → Result (List VmmRegion × State)
  unfolding vmm_remove_region vmm_add_range
  cut_region before region after va_start va_stop st =
      let shrunk_start = unwind before (record region { va_start = va_stop } ∷ after) in
      let shrunk_stop = unwind before (record region { va_stop = va_start } ∷ after) in
      let split : Result (List VmmRegion × State) =
        vmm_remove_region before region after st >>= λ (rs, st₁).
        vmm_add_range rs region.va_start va_start region.flags st₁ >>= λ left.
        vmm_add_range left.regions va_stop region.va_stop region.flags left.pool_state >>= λ right.
        ok (right.regions, right.pool_state) in
      panic_if (ltb region.va_stop va_stop) not_contiguous (
        if region.va_start == va_start && region.va_stop == va_stop
        then vmm_remove_region before region after st
        else (if region.va_start == va_start
            then ok (shrunk_start, st)
            else (if region.va_stop == va_stop then ok (shrunk_stop, st) else split)))

  -- The loop of `vmm_remove_range`, and what follows it.
  pub remove_from :
      List VmmRegion → List VmmRegion → ℕ → ℕ → State → Result (List VmmRegion × State)
  unfolding cut_region
  remove_from before [] va_start va_stop st = panic no_region
  remove_from before (region ∷ rest) va_start va_stop st =
      let further = remove_from (region ∷ before) rest va_start va_stop st in
      if leb region.va_start va_start && ltb va_start region.va_stop
      then cut_region before region rest va_start va_stop st
      else further

  pub vmm_remove_range : List VmmRegion → ℕ → ℕ → State → Result (List VmmRegion × State)
  unfolding remove_from
  vmm_remove_range rs va_start va_stop st = remove_from [] rs va_start va_stop st
