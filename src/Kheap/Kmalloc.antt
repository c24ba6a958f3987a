-- ===== src/Kheap/Kmalloc.antt =====
-- `kmalloc`: every way in which a call on a whole heap ends.
use b0s.Base.{
  ℕ, ◌+◌, ◌-◌, ◌*◌, ◌/◌, ◌%◌, ◌^◌, ◌<◌, ◌≤◌, ◌≡◌, ◌⊎◌, refl, sym, inl, inr, arith, ◌==◌, le→leb,
  ≢→==, Bool, true, false, Option, none, some, [], ◌∷◌, length,
}
use mathlib.Core.Path.{subst}
use mathlib.Core.List.{Perm}
use b0s.Base.Result.{Result, Reason, ok, panic}
use b0s.Kheap.{Kheap, PagePool, try_alloc_block}
use b0s.Base.Word.{add64, max64, page_size}
use b0s.Kheap.{kmalloc, add_container, block_data, data_block}
use b0s.Kheap.Alloc.{find_free-Allocates}
use b0s.Kheap.Grow.{IsFresh, add_container-IsHeap}
use b0s.Kheap.Heap.{IsHeapFrom, IsHeap, Contents, heap_allocated, stop_of}
use b0s.Kheap.Malloc.{Mallocs, IsFullFor, AreShort, malloc_head, try_containers-Mallocs}

-- What a successful `kmalloc` leaves: an aligned pointer to at least `size` bytes of a block that was
-- not in use, in a heap that is well formed and whose other used blocks are as they were.
pub record Gives (h h' : Kheap) (cs : Contents) (size ptr : ℕ) : Type 0 where
  pub contents : Contents
  pub heap : IsHeap h' contents
  pub given : ℕ
  pub enough : size ≤ given
  pub positive : 0 < ptr
  pub aligned : ptr % 16 ≡ 0
  pub alloc : Perm (heap_allocated h' contents) ((data_block ptr, given) ∷ heap_allocated h cs)

Mallocs-Gives :
    (h h' : Kheap) (size a : ℕ) (cs : Contents)
    → h'.heap ≡ h.heap
    → Mallocs h h' 0 h.heap size a cs
    → Gives h h' cs size (block_data a)
Mallocs-Gives h h' size a cs same t =
    let whole : (a + 40) % 2 ^ 64 ≡ a + 40 = omega (arith, t.small) in
    let back : ((a + 40) % 2 ^ 64 + 2 ^ 64 - 40) % 2 ^ 64 ≡ a = omega (arith, t.small) in
    record {
      contents = t.contents;
      heap = subst (λ n. IsHeapFrom h' 0 n t.contents) (sym same) t.heap;
      given = t.given;
      enough = t.enough;
      positive = omega (arith, t.small);
      aligned = rw whole t.aligned;
      alloc = rw back t.alloc;
    }

-- The pages that `kmalloc` asks for.
abbrev pub pages_for : ℕ → ℕ
pages_for size = max64 5 (add64 size 40 / page_size + 2)

-- The call of `kmalloc` on a heap where no block fits and the pages are given.
grow-Gives :
    (rounds : ℕ) (h : Kheap) (size c : ℕ) (cs : Contents)
    → IsHeap h cs
    → 1 < rounds
    → size + 40 < 2 ^ 64
    → IsFresh h cs c (pages_for size)
    → let h₂ = add_container c (pages_for size) h in
      (a : ℕ) × (h' : Kheap) × (try_alloc_block rounds c size h₂ ≡ ok (a, h'))
      × (0 < a)
      × Gives h h' cs size (block_data a)
unfolding try_alloc_block
grow-Gives rounds h size c cs k more no_wrap f =
    let h₂ = add_container c (pages_for size) h in
    let (k₂, same, new, head) = add_container-IsHeap h cs c (pages_for size) f k in
    let (at, pos, prev, one, others, rest) = k₂ in
    let search =
      find_free-Allocates rounds h₂ c (c + 40) (stop_of h₂ c) (h₂.containers c).block size
        ((c + 40) ∷ []) one.chain one.bound (omega arith) in
    let room : size ≤ pages_for size * 4096 - 80 = ground arith in
    elim search [
      | inl (missed, unfit) ↦ absurd (contradiction (rw new at unfit.0) (le→leb size _ room))
      | inr (a, found, t) ↦
          let some_block : (a == 0) ≡ false = ≢→== a 0 (omega (arith, t.positive)) in
          let m = malloc_head h₂ 0 h₂.heap size a c ((c + 40) ∷ []) cs k₂ t in
          let g = Mallocs-Gives h₂ _ size a (((c, (c + 40) ∷ []) ∷ cs)) m.change.same_heap m in
          (
            a,
            _,
            rw (found, some_block),
            t.positive,
            record {
              contents = g.contents;
              heap = g.heap;
              given = g.given;
              enough = g.enough;
              positive = g.positive;
              aligned = g.aligned;
              alloc = rw same at g.alloc;
            },
          )
    ]
  where
    contradiction : {b : Bool} → b ≡ false → b ≡ true → ⊥
    contradiction e e' = cc

module _ (pool : PagePool) where
  open pool use {State, vmm_alloc_between}

  -- The three ways in which a call of `kmalloc` ends: with a block, with NULL when no block fits and
  -- the address space has no room, or with the panic of the address space.
  pub data Ends (rounds size : ℕ) (h : Kheap) (st : State) (cs : Contents) : Type 0 where
    given :
        (ptr : ℕ) (h' : Kheap) (st' : State)
        → kmalloc pool rounds size h st ≡ ok (ptr, h', st')
        → Gives h h' cs size ptr
        → Ends rounds size h st cs
    refused :
        (st' : State)
        → vmm_alloc_between (pages_for size) st ≡ ok (none, st')
        → IsFullFor h size cs
        → kmalloc pool rounds size h st ≡ ok (0, h, st')
        → Ends rounds size h st cs
    failed :
        (e : Reason)
        → vmm_alloc_between (pages_for size) st ≡ panic e
        → IsFullFor h size cs
        → kmalloc pool rounds size h st ≡ panic e
        → Ends rounds size h st cs

  -- On a whole heap, for a size that leaves 40 bytes below 2 ^ 64, with more rounds than one, than
  -- containers and than blocks of any of them, and where pages that the address space gives touch no
  -- container, `kmalloc` ends in one of three ways: it returns an aligned pointer to at least `size`
  -- bytes of a block that is put to those in use, in a whole heap; it returns NULL with the heap as it
  -- was, when no block fits and the address space gives no pages; or the address space panics.
  pub kmalloc-Ends :
      (rounds size : ℕ) (h : Kheap) (st : State) (cs : Contents)
      → IsHeap h cs
      → length cs < rounds
      → AreShort cs rounds
      → 1 < rounds
      → size + 40 < 2 ^ 64
      → ((c : ℕ) (st' : State)
          → vmm_alloc_between (pages_for size) st ≡ ok (some c, st')
          → IsFresh h cs c (pages_for size))
      → Ends rounds size h st cs
  unfolding kmalloc
  kmalloc-Ends rounds size h st cs k many short more no_wrap fresh =
      elim (try_containers-Mallocs rounds rounds h 0 h.heap size cs k many short) [
        | inr (a, h', found, t) ↦
            let some_block : (a == 0) ≡ false = ≢→== a 0 (omega (arith, t.positive)) in
            given (block_data a) h' st (rw (found, some_block))
              (Mallocs-Gives h h' size a cs t.change.same_heap t)
        | inl (missed, full) ↦ elim (vmm_cases (vmm_alloc_between (pages_for size) st)) [
          | inl (e, failing) ↦ failed e failing full (rw (missed, failing))
          | inr (inl (st', none_left)) ↦ refused st' none_left full (rw (missed, none_left))
          | inr (inr (c, st', got)) ↦
              let f = fresh c st' got in
              let (a, h', found, pos, g) = grow-Gives rounds h size c cs k more no_wrap f in
              let there : (c == 0) ≡ false = ≢→== c 0 (omega (arith, f.positive)) in
              let some_block : (a == 0) ≡ false = ≢→== a 0 (omega arith) in
              given (block_data a) h' st' (rw (missed, got, there, found, some_block)) g
        ]
      ]
    where
      vmm_cases :
          (r : Result (Option ℕ × State))
          → ((e : Reason) × (r ≡ panic e))
            ⊎ ((st' : State) × (r ≡ ok (none, st')))
            ⊎ ((c : ℕ) × (st' : State) × (r ≡ ok (some c, st')))
      vmm_cases (panic e) = inl (e, refl)
      vmm_cases (ok (none, st')) = inr (inl (st', refl))
      vmm_cases (ok (some c, st')) = inr (inr (c, st', refl))
