-- ===== src/Kheap/Malloc.antt =====
-- `kmalloc` on a whole heap.
use b0s.Base.{
  ℕ, zero, suc, ◌+◌, ◌%◌, ◌^◌, ◌<◌, ◌≤◌, ◌≡◌, ◌⊎◌, ap, ◌∙◌, refl, sym, inl, inr, arith, ◌==◌, leb,
  ≢→==, ≡→==, false, Bool-cases, List, [], ◌∷◌, length, All,
}
use mathlib.Core.Path.{subst}
use mathlib.Core.List.{Perm}
use mathlib.Core.List.Perm
use b0s.Base.Result.{ok}
use b0s.Kheap.{Container, Kheap, split_block, mark_used, try_alloc_block}
use b0s.Base.Word.{add64}
use b0s.Kheap.{assign, next_struct_end, try_containers, block_data}
use b0s.Kheap.Chain.{allocated}
use b0s.Kheap.Alloc.{Allocates, IsUnfit, find_free-Allocates}
use b0s.Kheap.Heap.{IsContainer, IsHeapFrom, Contents, AllApart, AreApart, heap_allocated, stop_of}
use mathlib.Core.List.{perm_middle}
use b0s.Kheap.Heap.{ChangesIn, keeps-IsContainer, keeps_heap, AllApart-change, IsChain-length}

-- A split leaves the containers.
split_block_containers :
    (b size : ℕ) (h : Kheap)
    → let h' = split_block b size h in
      (h'.containers ≡ h.containers) × (h'.container_prev ≡ h.container_prev) × (h'.heap ≡ h.heap)
unfolding split_block
split_block_containers b size h =
    elim (Bool-cases
      (leb (add64 (block_data b) (h.blocks b).size_in_bytes) (next_struct_end b size))) [
        | inl small ↦ rw small (refl, refl, refl)
        | inr room ↦ rw room (refl, refl, refl)
      ]

-- The nodes that taking block `a` of container `c` changes.
take-ChangesIn :
    (h : Kheap) (c cur size a : ℕ) (bs : List ℕ)
    → Allocates h (split_block a size (mark_used a h)) c (c + 40) (stop_of h c) cur size a bs
    → let h' = split_block a size (mark_used a h) in
      ChangesIn h h' c × ((h'.containers c).used_blocks ≡ add64 (h.containers c).used_blocks 1)
unfolding mark_used
take-ChangesIn h c cur size a bs t =
    let (same, links, heap) = split_block_containers a size (mark_used a h) in
    let k = h.containers in
    let k' : ℕ → Container =
      assign k c (record (k c) { used_blocks = add64 (k c).used_blocks 1 }) in
    let now : (split_block a size (mark_used a h)).containers ≡ k' = same ∙ rw t.own refl in
    (
      record {
        same_size = λ x. rw now (ground arith);
        same_next = λ x. rw now (ground arith);
        same_first = λ x. rw now (ground arith);
        same_count = λ x n. rw now (ground arith);
        same_links = links;
        same_heap = heap;
        same_block = t.outside.same_block;
        same_prev = t.outside.same_prev;
      },
      rw now (ground arith),
    )

-- The heap after a block of at least `size` bytes was taken: block `a`, which was not in use.
pub record Mallocs (h h' : Kheap) (p cur size a : ℕ) (cs : Contents) : Type 0 where
  pub contents : Contents
  pub heap : IsHeapFrom h' p cur contents
  pub given : ℕ
  pub enough : size ≤ given
  pub positive : 0 < a
  pub small : a + 4096 < 2 ^ 64
  pub aligned : (a + 40) % 16 ≡ 0
  pub alloc : Perm (heap_allocated h' contents) ((a, given) ∷ heap_allocated h cs)
  pub changed : ℕ
  pub change : ChangesIn h h' changed
  pub apart_changed : (d : ℕ) → AllApart h d cs → AreApart h d changed
  pub apart_contents : (d : ℕ) → AllApart h d cs → AllApart h' d contents

module _ (h : Kheap) (p cur size a c : ℕ) (bs : List ℕ) (cs : Contents)
    (k : IsHeapFrom h p cur ((c, bs) ∷ cs)) where
  -- A block of the first container.
  pub malloc_head :
      Allocates h
        (split_block a size (mark_used a h))
        c
        (c + 40)
        (stop_of h c)
        (h.containers c).block
        size
        a
        bs
      → Mallocs h (split_block a size (mark_used a h)) p cur size a ((c, bs) ∷ cs)
  malloc_head t =
      let h' = split_block a size (mark_used a h) in
      let (at, pos, prev, one, others, rest) = k in
      let (ch, used) = take-ChangesIn h c (h.containers c).block size a bs t in
      let (rest', more) = keeps_heap h h' c ch c (h.containers c).next cs others rest in
      let few =
        IsChain-length h.blocks c (c + 40) (stop_of h c) (h.containers c).block bs one.chain in
      let one' : IsContainer h' c t.blocks' = record {
        chain = rw (ch.same_size c, ch.same_first c) t.chain;
        bound = rw (ch.same_size c) one.bound;
        counted = omega (arith, used, one.counted, t.count, few, one.bound);
        back = t.back 0 one.back;
      } in
      record {
        contents = (c, t.blocks') ∷ cs;
        heap = (
          at,
          pos,
          ap (λ (l : ℕ → ℕ). l c) ch.same_links ∙ prev,
          one',
          AllApart-change h h' c ch c cs others,
          subst (λ n. IsHeapFrom h' c n cs) (sym (ch.same_next c)) rest',
        );
        given = t.given;
        enough = t.enough;
        positive = t.positive;
        small = omega (arith, t.inside.1, one.bound);
        aligned = t.aligned;
        alloc = rw more (Perm.append_right (heap_allocated h cs) t.alloc);
        changed = c;
        change = ch;
        apart_changed = λ d apart. apart.0;
        apart_contents = λ d apart. AllApart-change h h' c ch d ((c, bs) ∷ cs) apart;
      }

  -- A block of a later container.
  malloc_later :
      (h' : Kheap)
      → Mallocs h h' c (h.containers c).next size a cs
      → Mallocs h h' p cur size a ((c, bs) ∷ cs)
  malloc_later h' t =
      let (at, pos, prev, one, others, rest) = k in
      let (one', alloc) =
        keeps-IsContainer h h' t.changed t.change c bs (turn (t.apart_changed c others)) one in
      record {
        contents = (c, bs) ∷ t.contents;
        heap = (
          at,
          pos,
          ap (λ (l : ℕ → ℕ). l c) t.change.same_links ∙ prev,
          one',
          t.apart_contents c others,
          subst (λ n. IsHeapFrom h' c n t.contents) (sym (t.change.same_next c)) t.heap,
        );
        given = t.given;
        enough = t.enough;
        positive = t.positive;
        small = t.small;
        aligned = t.aligned;
        alloc = rw alloc (
            Perm.trans (Perm.append_left (allocated h.blocks bs) t.alloc)
              (perm_middle (allocated h.blocks bs) (heap_allocated h cs)));
        changed = t.changed;
        change = t.change;
        apart_changed = λ d apart. t.apart_changed d apart.1;
        apart_contents = λ d apart. (
          (AllApart-change h h' t.changed t.change d ((c, bs) ∷ []) (apart.0, tt)).0,
          t.apart_contents d apart.1,
        );
      }
    where
      turn : {x y : ℕ} → AreApart h x y → AreApart h y x
      turn (inl l) = inr l
      turn (inr l) = inl l

-- As many rounds as there are blocks in any container.
abbrev pub AreShort : Contents → ℕ → Type 0
AreShort cs rounds = All (λ (e : ℕ × List ℕ). length e.1 < rounds) cs

-- No block of the heap is free and large enough.
abbrev pub IsFullFor : Kheap → ℕ → Contents → Type 0
IsFullFor h size cs = All (λ (e : ℕ × List ℕ). All (IsUnfit h.blocks size) e.1) cs

-- The search of the containers ends, with NULL and no change, or with a block taken.
pub try_containers-Mallocs :
    (left rounds : ℕ) (h : Kheap) (p cur size : ℕ) (cs : Contents)
    → IsHeapFrom h p cur cs
    → length cs < left
    → AreShort cs rounds
    → ((try_containers left rounds cur size h ≡ ok (0, h)) × IsFullFor h size cs)
      ⊎ ((a : ℕ) × (h' : Kheap) × (try_containers left rounds cur size h ≡ ok (a, h'))
          × Mallocs h h' p cur size a cs)
unfolding try_containers try_alloc_block
try_containers-Mallocs zero rounds h p cur size cs k lt short = absurd (omega arith)
try_containers-Mallocs (suc left) rounds h p cur size [] k lt short = inl (rw (≡→== cur 0 k), tt)
try_containers-Mallocs (suc left) rounds h p cur size ((c, bs) ∷ cs) k lt short =
    let (at, pos, prev, one, others, rest) = k in
    let there : (cur == 0) ≡ false = ≢→== cur 0 (omega arith) in
    let search =
      find_free-Allocates rounds h c (c + 40) (stop_of h c) (h.containers c).block size bs one.chain
        one.bound short.0 in
    elim search [
      | inr (a, found, t) ↦
          let some_block : (a == 0) ≡ false = ≢→== a 0 (omega (arith, t.positive)) in
          inr (
            a,
            _,
            rw (there, at, found, some_block) (rw some_block),
            malloc_head h p cur size a c bs cs k t,
          )
      | inl (missed, unfit) ↦
          elim (try_containers-Mallocs left rounds h c (h.containers c).next size cs rest
            (omega arith) short.1) [
              | inl (end, full) ↦ inl (rw (there, at, missed) end, (unfit, full))
              | inr (a, h', found, t) ↦
                  inr (
                    a,
                    h',
                    rw (there, at, missed) found,
                    malloc_later h p cur size a c bs cs k h' t,
                  )
            ]
    ]
