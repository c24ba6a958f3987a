-- ===== src/Kheap/Kfree.antt =====
-- `kfree`: every way in which a call on a used block of a whole heap ends.
use b0s.Base.{
  ℕ, ◌+◌, ◌-◌, ◌/◌, ◌%◌, ◌^◌, ◌<◌, ◌≡◌, ◌⊎◌, ◌∙◌, refl, inl, inr, arith, ◌==◌, ≢→==, ≡→==, ==→≡,
  if◌then◌else◌, Bool, true, false, not, ◌&&◌, Bool-cases, List, ◌∷◌, ◌++◌,
}
use mathlib.Core.List.{Perm}
use b0s.Base.Result.{Result, Reason, ok, panic, ◌>>=◌}
use b0s.Base.Word.{add64, page_size}
use b0s.Kheap.{
  Kheap, PagePool, mark_free, merge, merge_prev, merge_next, unlink_container, kfree, block_data,
}
use b0s.Kheap.Heap.{IsHeap, Contents, heap_allocated}
use b0s.Kheap.Merge.{KeepsLinks}
use b0s.Kheap.Mark.{mark_free_fields}
use b0s.Kheap.Release.{merged-IsHeap, unlinked-IsHeap, marked_reads}

-- The heap `h'` is whole with the contents `cs'`, and `e` is what it has allocated less than `h`.
abbrev pub Releases : Kheap → Kheap → Contents → Contents → ℕ × ℕ → Type 0
Releases h h' cs cs' e = IsHeap h' cs' × Perm (heap_allocated h cs) (e ∷ heap_allocated h' cs')

-- The merge with the block before alone: no link back is written.
merge_stale :
    (h : Kheap) (b q n : ℕ)
    → 0 < q
    → q < b
    → b < n
    → h.block_prev b ≡ q
    → (h.blocks q).used ≡ false
    → (h.blocks b).next ≡ n
    → (h.blocks n).used ≡ true
    → let h' = merge b h in
      ((h'.blocks q).next ≡ n)
      × (h'.block_prev n ≡ h.block_prev n)
      × ((h'.blocks q).size_in_bytes
          ≡ add64 (h.blocks q).size_in_bytes (add64 (h.blocks b).size_in_bytes 40))
unfolding merge merge_prev merge_next
merge_stale h b q n pos low high prev idle next busy =
    let there : (q == 0) ≡ false = ≢→== q 0 (omega arith) in
    let apart : (n == q) ≡ false = ≢→== n q (omega arith) in
    let test : (not (q == 0) && not (h.blocks q).used) ≡ true = rw (there, idle) refl in
    rw (prev, test, ≡→== q q refl, next, apart, busy) (ground arith)

module _ (pool : PagePool) where
  open pool use {State, vmm_free}

  -- The call, step by step.
  kfree_steps :
      (b : ℕ) (h : Kheap) (st : State)
      → (b + 40) % 2 ^ 64 ≡ b + 40
      → b < 2 ^ 64
      → let h' = mark_free b h in
        let c = (h'.blocks b).container in
        kfree pool (block_data b) h st ≡ (
          if (h'.containers c).used_blocks == 0
          then vmm_free c (add64 (h'.containers c).size_in_bytes 40 / page_size) st
            >>= (λ st'. ok (unlink_container c h', st'))
          else ok (merge b h', st))
  unfolding kfree
  kfree_steps b h st whole small =
      let back : (b + 40 + 2 ^ 64 - 40) % 2 ^ 64 ≡ b = omega arith in rw (whole, back) refl

  -- The three ways in which `kfree` of block `b` of container `c` ends.
  pub data FreeEnds (h : Kheap) (st : State) (c b : ℕ) (bs : List ℕ) (front cs : Contents)
      : Type 0 where
    kept :
        (h' : Kheap) (bs' : List ℕ)
        → kfree pool (block_data b) h st ≡ ok (h', st)
        → Releases h h'
            (front ++ (c, bs) ∷ cs)
            (front ++ (c, bs') ∷ cs)
            (b, (h.blocks b).size_in_bytes)
        → FreeEnds h st c b bs front cs
    removed :
        (h' : Kheap) (st' : State)
        → vmm_free c (add64 (h.containers c).size_in_bytes 40 / page_size) st ≡ ok st'
        → kfree pool (block_data b) h st ≡ ok (h', st')
        → Releases h h' (front ++ (c, bs) ∷ cs) (front ++ cs) (b, (h.blocks b).size_in_bytes)
        → FreeEnds h st c b bs front cs
    failed :
        (e : Reason)
        → vmm_free c (add64 (h.containers c).size_in_bytes 40 / page_size) st ≡ panic e
        → kfree pool (block_data b) h st ≡ panic e
        → FreeEnds h st c b bs front cs

  -- For a used block `b` of a whole heap that has no free block before it, or no used one behind it,
  -- or is the last one in use of its container, `kfree` ends in one of three ways: the heap is whole
  -- with `b` and no other block taken off those in use, in its container; so it is without the
  -- container, whose pages are given back; or giving them back panics.
  pub kfree-FreeEnds :
      (h : Kheap) (st : State) (c b : ℕ) (pre post : List ℕ) (front cs : Contents)
      → IsHeap h (front ++ (c, pre ++ b ∷ post) ∷ cs)
      → (h.blocks b).used ≡ true
      → KeepsLinks h b ⊎ ((h.containers c).used_blocks ≡ 1)
      → FreeEnds h st c b (pre ++ b ∷ post) front cs
  kfree-FreeEnds h st c b pre post front cs heap busy safe =
      let (own, size, one_left, small) = marked_reads h c b pre post front cs heap busy in
      let steps = kfree_steps b h st (omega arith) (omega arith) in
      elim (Bool-cases (((mark_free b h).containers c).used_blocks == 0)) [
        | inl last ↦
            let (whole, lost) = unlinked-IsHeap h c b pre post front cs heap busy (==→≡ _ 0 last) in
            elim (vmm_cases (vmm_free c (add64 (h.containers c).size_in_bytes 40 / page_size) st)) [
              | inl (e, failing) ↦ failed e failing (steps ∙ rw (own, last, size, failing) refl)
              | inr (st', done) ↦
                  removed _ st' done (steps ∙ rw (own, last, size, done) refl) (whole, lost)
            ]
        | inr more ↦ elim safe [
          | inl links ↦
              let (bs', whole, lost) = merged-IsHeap h c b pre post front cs heap busy links in
              kept _ bs' (steps ∙ rw (own, more) refl) (whole, lost)
          | inr one ↦ absurd (contradiction more (≡→== _ 0 (one_left one)))
        ]
      ]
    where
      vmm_cases :
          (r : Result State) → ((e : Reason) × (r ≡ panic e)) ⊎ ((st' : State) × (r ≡ ok st'))
      vmm_cases (panic e) = inl (e, refl)
      vmm_cases (ok st') = inr (st', refl)

      contradiction : {t : Bool} → t ≡ false → t ≡ true → ⊥
      contradiction e e' = cc

  -- With a free block `q` that ends where `b` starts, a used block `n` behind `b`, and another block of
  -- the container in use, `kfree` of `b` returns with `next` of `q` leading to `n` and the bytes of `q`
  -- grown over the header and the bytes of `b`, while `prev` of `n` still leads to `b`.
  pub kfree_stale :
      (h : Kheap) (st : State) (b q n : ℕ)
      → b < 2 ^ 63
      → 1 < (h.containers (h.blocks b).container).used_blocks
      → (h.containers (h.blocks b).container).used_blocks < 2 ^ 64
      → 0 < q
      → q < b
      → b < n
      → h.block_prev b ≡ q
      → (h.blocks q).used ≡ false
      → (h.blocks b).next ≡ n
      → (h.blocks n).used ≡ true
      → h.block_prev n ≡ b
      → q + 40 + (h.blocks q).size_in_bytes ≡ b
      → b + 40 + (h.blocks b).size_in_bytes < 2 ^ 64
      → (h' : Kheap) × (kfree pool (block_data b) h st ≡ ok (h', st))
        × ((h'.blocks q).next ≡ n)
        × (block_data q + (h'.blocks q).size_in_bytes ≡ b + 40 + (h.blocks b).size_in_bytes)
        × (h'.block_prev n ≡ b)
  kfree_stale h st b q n small some_left many pos low high prev idle next busy link ends room =
      let c = (h.blocks b).container in
      let h₁ = mark_free b h in
      let (conts, blocks_eq, prev_eq, links, heap) = mark_free_fields h c b refl in
      let own : (h₁.blocks b).container ≡ c = rw (blocks_eq, ≡→== b b refl) refl in
      let more : ((h₁.containers c).used_blocks == 0) ≡ false =
        rw (conts, ≡→== c c refl) (≢→== _ 0 (omega arith)) in
      let size_q : (h₁.blocks q).size_in_bytes ≡ (h.blocks q).size_in_bytes =
        rw (blocks_eq, ≢→== q b (omega arith)) refl in
      let size_b : (h₁.blocks b).size_in_bytes ≡ (h.blocks b).size_in_bytes =
        rw (blocks_eq, ≡→== b b refl) refl in
      let (to_n, stays, grown) =
        merge_stale h₁ b q n pos low high (rw prev_eq prev)
          (rw (blocks_eq, ≢→== q b (omega arith)) idle) (rw (blocks_eq, ≡→== b b refl) next)
          (rw (blocks_eq, ≢→== n b (omega arith)) busy) in
      (
        merge b h₁,
        kfree_steps b h st (omega arith) (omega arith) ∙ rw (own, more) refl,
        to_n,
        omega (arith, grown, size_q, size_b, ends, room),
        stays ∙ rw prev_eq link,
      )
