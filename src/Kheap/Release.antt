-- ===== src/Kheap/Release.antt =====
-- What the two ways of `kfree` leave of a whole heap: a container with the block merged, or no
-- container.
use b0s.Base.{
  ℕ, ◌+◌, ◌^◌, ◌<◌, ◌≡◌, ◌⊎◌, ap, ◌∙◌, refl, sym, inl, inr, arith, ◌==◌, ≢→==, ≡→==, true, false,
  not, ◌&&◌, Bool-cases, List, [], ◌∷◌, ◌++◌, length,
}
use mathlib.Core.Path.{subst}
use mathlib.Core.List.{Perm}
use mathlib.Core.List.Perm
use b0s.Base.Word.{add64}
use b0s.Kheap.{Block, Kheap, mark_free, merge, merge_prev, merge_next, unlink_container}
use b0s.Kheap.Chain.{IsChain, IsBack, allocated}
use b0s.Kheap.Heap.{IsContainer, IsHeapFrom, IsHeap, Contents, heap_allocated, stop_of, ChangesIn}
use b0s.Kheap.Merge.{KeepsLinks}
use b0s.Kheap.Free.{merge-Merged}
use b0s.Kheap.Mark.{
  IsChain-inside, mark_free-IsContainer, mark_free_fields, marked, change-IsHeapFrom,
  change-heap_allocated,
}
use b0s.Kheap.Unlink.{unlink_container-IsHeap, heap_allocated_same}

-- The merges leave the containers.
merge_next_containers :
    (b : ℕ) (h : Kheap)
    → let h' = merge_next b h in
      (h'.containers ≡ h.containers) × (h'.container_prev ≡ h.container_prev) × (h'.heap ≡ h.heap)
unfolding merge_next
merge_next_containers b h =
    elim (Bool-cases (not ((h.blocks b).next == 0) && not (h.blocks (h.blocks b).next).used)) [
      | inl join ↦ rw join (refl, refl, refl)
      | inr keep ↦ rw keep (refl, refl, refl)
    ]

merge_prev_containers :
    (b total : ℕ) (h : Kheap)
    → let h' = (merge_prev b total h).1 in
      (h'.containers ≡ h.containers) × (h'.container_prev ≡ h.container_prev) × (h'.heap ≡ h.heap)
unfolding merge_prev
merge_prev_containers b total h =
    elim (Bool-cases (not (h.block_prev b == 0) && not (h.blocks (h.block_prev b)).used)) [
      | inl join ↦ rw join (refl, refl, refl)
      | inr keep ↦ rw keep (refl, refl, refl)
    ]

merge_containers :
    (b : ℕ) (h : Kheap)
    → let h' = merge b h in
      (h'.containers ≡ h.containers) × (h'.container_prev ≡ h.container_prev) × (h'.heap ≡ h.heap)
unfolding merge
merge_containers b h =
    let total = add64 (h.blocks b).size_in_bytes 40 in
    let r = merge_prev b total h in
    let first = merge_prev_containers b total h in
    let second = merge_next_containers r.0 r.1 in
    (second.0 ∙ first.0, second.1 ∙ first.1, second.2 ∙ first.2)

-- A block is not its own `prev`.
back_other :
    (blocks : ℕ → Block) (prev : ℕ → ℕ) (p c lo hi cur b : ℕ) (pre post : List ℕ)
    → IsChain blocks c lo hi cur (pre ++ b ∷ post)
    → IsBack prev p (pre ++ b ∷ post)
    → p < lo
    → prev b < b
back_other blocks prev p c lo hi cur b [] post k back lt = omega (arith, k.2, back.0)
back_other blocks prev p c lo hi cur b (x ∷ pre) post k back lt =
    back_other blocks prev x c (x + 40 + (blocks x).size_in_bytes) hi (blocks x).next b pre post k.5
      back.1 (omega arith)

-- The mark leaves the condition on the neighbours.
mark_free-KeepsLinks :
    (h : Kheap) (c b : ℕ) (pre post : List ℕ)
    → IsContainer h c (pre ++ b ∷ post)
    → KeepsLinks h b
    → KeepsLinks (mark_free b h) b
mark_free-KeepsLinks h c b pre post k safe =
    let stop = stop_of h c in
    let first = (h.containers c).block in
    let (l, u, pos, own) = IsChain-inside h.blocks c (c + 40) stop first b pre post k.chain in
    let lt =
      back_other h.blocks h.block_prev 0 c (c + 40) stop first b pre post k.chain k.back
        (omega arith) in
    let (same, blocks_eq, prev_eq, links_eq, heap_eq) = mark_free_fields h c b own in
    let self : (b == b) ≡ true = ≡→== b b refl in
    let apart : (h.block_prev b == b) ≡ false = ≢→== _ b (omega arith) in
    rw (blocks_eq, prev_eq, self, apart) (turned h b safe)
  where
    turned :
        (h : Kheap) (b : ℕ)
        → KeepsLinks h b
        → ((h.block_prev b ≡ 0) ⊎ ((h.blocks (h.block_prev b)).used ≡ true))
          ⊎ (((h.blocks b).next ≡ 0) ⊎ ((marked h.blocks b (h.blocks b).next).used ≡ false))
    turned h b (inl one) = inl one
    turned h b (inr (inl end)) = inr (inl end)
    turned h b (inr (inr idle)) = inr (inr (ground arith))

module _ (h : Kheap) (c b : ℕ) (pre post : List ℕ) (front cs : Contents)
    (heap : IsHeap h (front ++ (c, pre ++ b ∷ post) ∷ cs)) (busy : (h.blocks b).used ≡ true) where
  pub IsContainer-of :
      (p cur : ℕ) (fs : Contents)
      → IsHeapFrom h p cur (fs ++ (c, pre ++ b ∷ post) ∷ cs)
      → IsContainer h c (pre ++ b ∷ post)
  IsContainer-of p cur [] k = k.3
  IsContainer-of p cur ((d, ds) ∷ fs) k = IsContainer-of d (h.containers d).next fs k.5

  abbrev bs : List ℕ
  bs = pre ++ b ∷ post

  abbrev marked_heap : Kheap
  marked_heap = mark_free b h

  -- The heap with the block marked free.
  pub marked-IsHeap :
      IsHeap marked_heap (front ++ (c, bs) ∷ cs)
      × IsContainer marked_heap c bs
      × Perm
          (heap_allocated h (front ++ (c, bs) ∷ cs))
          ((b, (h.blocks b).size_in_bytes) ∷ heap_allocated marked_heap (front ++ (c, bs) ∷ cs))
  marked-IsHeap =
      let k = IsContainer-of 0 h.heap front heap in
      let (k', lost, ch) = mark_free-IsContainer h c b pre post k busy in
      let e : List (ℕ × ℕ) = (b, (h.blocks b).size_in_bytes) ∷ [] in
      (
        subst (λ n. IsHeapFrom marked_heap 0 n (front ++ (c, bs) ∷ cs)) (sym ch.same_heap)
            (change-IsHeapFrom h marked_heap c bs bs cs ch k' 0 h.heap front heap),
        k',
        change-heap_allocated h marked_heap c bs bs cs ch k' 0 h.heap front e heap lost,
      )

  -- What `kfree` reads off the marked heap.
  pub marked_reads :
      ((marked_heap.blocks b).container ≡ c)
      × ((marked_heap.containers c).size_in_bytes ≡ (h.containers c).size_in_bytes)
      × ((h.containers c).used_blocks ≡ 1 → (marked_heap.containers c).used_blocks ≡ 0)
      × (b + 4096 < 2 ^ 64)
  marked_reads =
      let k = IsContainer-of 0 h.heap front heap in
      let stop = stop_of h c in
      let (l, u, pos, own) =
        IsChain-inside h.blocks c (c + 40) stop (h.containers c).block b pre post k.chain in
      let fields = mark_free_fields h c b own in
      (
        rw (fields.1, ≡→== b b refl) own,
        rw (fields.0, ≡→== c c refl) refl,
        λ one. rw (fields.0, ≡→== c c refl, one) refl,
        omega (arith, k.bound),
      )

  -- The heap after the merges.
  pub merged-IsHeap :
      KeepsLinks h b
      → let h' = merge b marked_heap in
        (bs' : List ℕ) × IsHeap h' (front ++ (c, bs') ∷ cs)
        × Perm
            (heap_allocated h (front ++ (c, bs) ∷ cs))
            ((b, (h.blocks b).size_in_bytes) ∷ heap_allocated h' (front ++ (c, bs') ∷ cs))
  merged-IsHeap safe =
      let k₀ = IsContainer-of 0 h.heap front heap in
      let (whole, k, lost) = marked-IsHeap in
      let h' = merge b marked_heap in
      let first = (marked_heap.containers c).block in
      let stop = stop_of marked_heap c in
      let own =
        (IsChain-inside h.blocks c (c + 40) (stop_of h c) (h.containers c).block b pre post
          k₀.chain).3 in
      let fields = mark_free_fields h c b own in
      let idle : (marked_heap.blocks b).used ≡ false = rw (fields.1, ≡→== b b refl) refl in
      let m =
        merge-Merged marked_heap c (c + 40) stop first 0 b pre post k.chain k.bound idle k.back
          (inl refl) in
      let (conts, links, same_first) = merge_containers b marked_heap in
      let ch : ChangesIn marked_heap h' c = record {
        same_size = λ x. rw conts refl;
        same_next = λ x. rw conts refl;
        same_first = λ x. rw conts refl;
        same_count = λ x n. rw conts refl;
        same_links = links;
        same_heap = same_first;
        same_block = m.merges.outside.same_block;
        same_prev = m.merges.outside.same_prev;
      } in
      let one : IsContainer h' c m.blocks' = record {
        chain = rw conts m.merges.chain;
        bound = rw conts k.bound;
        counted = rw (conts, m.merges.alloc) k.counted;
        back = m.back (mark_free-KeepsLinks h c b pre post k₀ safe) 0 k.back;
      } in
      let same_alloc : Perm (allocated marked_heap.blocks bs) (allocated h'.blocks m.blocks') =
        rw m.merges.alloc (Perm.refl _) in
      (
        m.blocks',
        subst (λ n. IsHeapFrom h' 0 n (front ++ (c, m.blocks') ∷ cs)) (sym same_first)
            (change-IsHeapFrom marked_heap h' c bs m.blocks' cs ch one 0 marked_heap.heap front
              whole),
        Perm.trans lost (
            Perm.cons (b, (h.blocks b).size_in_bytes)
              (change-heap_allocated marked_heap h' c bs m.blocks' cs ch one 0 marked_heap.heap
                front [] whole same_alloc)),
      )

  -- An empty container adds nothing to what is allocated.
  drop_empty :
      (k : Kheap) (fs : Contents)
      → length (allocated k.blocks bs) ≡ 0
      → heap_allocated k (fs ++ (c, bs) ∷ cs) ≡ heap_allocated k (fs ++ cs)
  drop_empty k [] zero_left =
      ap (λ (l : List (ℕ × ℕ)). l ++ heap_allocated k cs) (empty _ zero_left)
    where
      empty : (l : List (ℕ × ℕ)) → length l ≡ 0 → l ≡ []
      empty [] e = refl
      empty (x ∷ l) e = absurd (omega arith)
  drop_empty k ((d, ds) ∷ fs) zero_left =
      ap (λ (l : List (ℕ × ℕ)). allocated k.blocks ds ++ l) (drop_empty k fs zero_left)

  -- The heap after its container was taken out with the last block in use.
  pub unlinked-IsHeap :
      (marked_heap.containers c).used_blocks ≡ 0
      → let h' = unlink_container c marked_heap in
        IsHeap h' (front ++ cs)
        × Perm
            (heap_allocated h (front ++ (c, bs) ∷ cs))
            ((b, (h.blocks b).size_in_bytes) ∷ heap_allocated h' (front ++ cs))
  unfolding unlink_container
  unlinked-IsHeap last =
      let (whole, k, lost) = marked-IsHeap in
      let h' = unlink_container c marked_heap in
      let same = heap_allocated_same marked_heap h' (front ++ cs) (unlink_blocks c marked_heap) in
      let empty = drop_empty marked_heap front (sym k.counted ∙ last) in
      (unlink_container-IsHeap marked_heap c bs front cs whole, rw (same, ← empty) lost)
    where
      unlink_blocks : (c : ℕ) (h : Kheap) → (unlink_container c h).blocks ≡ h.blocks
      unlink_blocks c h = refl
