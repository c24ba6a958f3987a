-- ===== src/Kheap/Grow.antt =====
-- A new container put before those of the heap.
use b0s.Base.{
  ℕ, ◌+◌, ◌-◌, ◌*◌, ◌%◌, ◌^◌, ◌<◌, ◌≤◌, ◌≡◌, ◌≢◌, ◌⊎◌, ◌∙◌, refl, inl, inr, arith, ≢→==, ≡→==,
  false, List, [], ◌∷◌, All,
}
use b0s.Kheap.{Kheap, add_container}
use b0s.Kheap.Chain.{allocated, IsChain-ext, IsBack-ext}
use b0s.Kheap.Heap.{IsContainer, IsHeapFrom, IsHeap, Contents, AllApart, heap_allocated, stop_of}

-- So many pages at `c` share no byte with container `d`.
abbrev pub IsClear : Kheap → ℕ → ℕ → ℕ → Type 0
IsClear h c pages d = (c + pages * 4096 ≤ d) ⊎ (stop_of h d ≤ c)

-- The pages at `c` are a page-aligned range that no container of the heap shares a byte with.
pub record IsFresh (h : Kheap) (cs : Contents) (c pages : ℕ) : Type 0 where
  pub positive : 0 < c
  pub aligned : c % 4096 ≡ 0
  pub some_pages : 0 < pages
  pub bound : c + pages * 4096 + 4096 < 2 ^ 64
  pub clear : All (λ (e : ℕ × List ℕ). IsClear h c pages e.0) cs

module _ (h : Kheap) (c pages : ℕ) (pos : 0 < c) (many : 0 < pages)
    (bound : c + pages * 4096 + 4096 < 2 ^ 64) where
  abbrev grown : Kheap
  grown = add_container c pages h

  -- The stores of the grown heap, without the wrap-around.
  grown_fields :
      ((x : ℕ) → x ≢ c + 40 → grown.blocks x ≡ h.blocks x)
      × (grown.blocks (c + 40)
          ≡ record { size_in_bytes = pages * 4096 - 80; used = false; next = 0; container = c })
      × ((x : ℕ) → x ≢ c + 40 → grown.block_prev x ≡ h.block_prev x)
      × (grown.block_prev (c + 40) ≡ 0)
      × ((x : ℕ) → x ≢ c → grown.containers x ≡ h.containers x)
      × (grown.containers c ≡ record {
        size_in_bytes = pages * 4096 - 40;
        used_blocks = 0;
        next = h.heap;
        block = c + 40;
      })
      × ((x : ℕ) → x ≢ c → x ≢ h.heap → grown.container_prev x ≡ h.container_prev x)
      × (c ≢ h.heap → grown.container_prev c ≡ 0)
      × (h.heap ≢ 0 → grown.container_prev h.heap ≡ c)
      × (grown.heap ≡ c)
  unfolding add_container
  grown_fields =
      let at : (c + 40) % 2 ^ 64 ≡ c + 40 = omega arith in
      let size : (pages * 4096 % 2 ^ 64 + 2 ^ 64 - 40) % 2 ^ 64 ≡ pages * 4096 - 40 = omega arith in
      let room : (pages * 4096 - 40 + 2 ^ 64 - 40) % 2 ^ 64 ≡ pages * 4096 - 80 = omega arith in
      rw (at, size, room)
        (
          λ x n. rw (≢→== x _ n) refl,
          rw (≡→== (c + 40) (c + 40) refl) refl,
          λ x n. rw (≢→== x _ n) refl,
          rw (≡→== (c + 40) (c + 40) refl) refl,
          λ x n. rw (≢→== x _ n) refl,
          rw (≡→== c c refl) refl,
          λ x n n'. ground arith,
          λ n. ground arith,
          λ n. ground arith,
          refl,
        )

  -- A container that is clear of the new pages is as before.
  grown-IsContainer :
      (d : ℕ) (bs : List ℕ)
      → IsClear h c pages d
      → IsContainer h d bs
      → IsContainer grown d bs × (allocated grown.blocks bs ≡ allocated h.blocks bs)
  grown-IsContainer d bs clear k =
      let block = grown_fields.0 in
      let prev = grown_fields.2 in
      let cont = grown_fields.4 in
      let same = cont d (differ clear) in
      let (chain, alloc) =
        IsChain-ext h.blocks grown.blocks d (d + 40) (stop_of h d) (h.containers d).block bs
          (λ x l u. block x (outside x l u clear)) k.chain in
      (
        record {
          chain = rw same chain;
          bound = rw same k.bound;
          counted = rw (same, alloc) k.counted;
          back =
              IsBack-ext h.blocks h.block_prev grown.block_prev 0 d (d + 40) (stop_of h d)
                (h.containers d).block bs (λ x l u. prev x (outside x l u clear)) k.chain k.back;
        },
        alloc,
      )
    where
      outside : (x : ℕ) → d + 40 ≤ x → x < stop_of h d → IsClear h c pages d → x ≢ c + 40
      outside x l u (inl a) = omega arith
      outside x l u (inr a) = omega arith

      differ : IsClear h c pages d → d ≢ c
      differ (inl a) = omega arith
      differ (inr a) = omega arith

  abbrev AllClear : Contents → Type 0
  AllClear cs = All (λ (e : ℕ × List ℕ). IsClear h c pages e.0) cs

  grown_apart :
      (d : ℕ) (cs : Contents)
      → IsClear h c pages d
      → AllClear cs
      → AllApart h d cs
      → AllApart grown d cs
  grown_apart d [] clear all apart = tt
  grown_apart d ((e, bs) ∷ cs) clear all apart =
      let cont = grown_fields.4 in
      let ne : d ≢ c = ground arith in
      let ne' : e ≢ c = ground (arith, all.0) in
      (rw (cont d ne, cont e ne') apart.0, grown_apart d cs clear all.1 apart.1)

  -- The containers behind the first one are as before.
  grown_rest :
      (p cur : ℕ) (cs : Contents)
      → AllClear cs
      → AllApart h h.heap cs
      → IsHeapFrom h p cur cs
      → IsHeapFrom grown p cur cs × (heap_allocated grown cs ≡ heap_allocated h cs)
  grown_rest p cur [] all apart k = (k, refl)
  grown_rest p cur ((d, bs) ∷ cs) all apart (at, low, prev, one, others, rest) =
      let cont = grown_fields.4 in
      let links = grown_fields.6 in
      let ne : d ≢ c = ground (arith, all.0) in
      let ne' : d ≢ h.heap = ground (arith, apart.0) in
      let (one', alloc) = grown-IsContainer d bs all.0 one in
      let (rest', more) = grown_rest d (h.containers d).next cs all.1 apart.1 rest in
      (
        (
          at,
          low,
          links d ne ne' ∙ prev,
          one',
          grown_apart d cs all.0 all.1 others,
          rw (cont d ne) rest',
        ),
        rw (alloc, more),
      )

  -- The new container is apart from those that its pages are clear of.
  AllClear-apart : (cs : Contents) → AllClear cs → AllApart grown c cs
  AllClear-apart [] all = tt
  AllClear-apart ((d, bs) ∷ cs) all =
      let cont = grown_fields.4 in
      let own = grown_fields.5 in
      let ne : d ≢ c = ground (arith, all.0) in
      (rw (cont d ne, own) (ends all.0), AllClear-apart cs all.1)
    where
      ends : {d : ℕ} → IsClear h c pages d → (c + 40 + (pages * 4096 - 40) ≤ d) ⊎ (stop_of h d ≤ c)
      ends (inl l) = inl (omega arith)
      ends (inr l) = inr l

  -- All of them are, but for the link of the first one back to the new container.
  grown_all :
      (cs : Contents)
      → AllClear cs
      → IsHeap h cs
      → IsHeapFrom grown c h.heap cs
        × (heap_allocated grown cs ≡ heap_allocated h cs)
        × (c ≢ h.heap)
  grown_all [] all k = (k, refl, omega (arith, k))
  grown_all ((d, bs) ∷ cs) all (at, low, prev, one, others, rest) =
      let cont = grown_fields.4 in
      let link = grown_fields.8 in
      let ne : d ≢ c = ground (arith, all.0) in
      let (one', alloc) = grown-IsContainer d bs all.0 one in
      let apart : AllApart h h.heap cs = rw at others in
      let (rest', more) = grown_rest d (h.containers d).next cs all.1 apart rest in
      let back : grown.container_prev d ≡ c = rw (← at) (link (omega arith)) in
      (
        (at, low, back, one', grown_apart d cs all.0 all.1 others, rw (cont d ne) rest'),
        rw (alloc, more),
        omega (arith, ne),
      )

  -- The new container with its one block, which is free.
  new-IsContainer : c % 4096 ≡ 0 → IsContainer grown c ((c + 40) ∷ [])
  new-IsContainer aligned =
      let new = grown_fields.1 in
      let own = grown_fields.5 in
      record {
        chain =
            rw (own, new) (refl, omega arith, omega arith, omega arith, refl, (refl, omega arith));
        bound = rw own (omega arith);
        counted = rw (own, new) refl;
        back = (grown_fields.3, tt);
      }

-- A container on fresh pages makes a heap of one container more, with the same blocks in use.
pub add_container-IsHeap :
    (h : Kheap) (cs : Contents) (c pages : ℕ)
    → IsFresh h cs c pages
    → IsHeap h cs
    → let h' = add_container c pages h in
      IsHeap h' ((c, (c + 40) ∷ []) ∷ cs)
      × (heap_allocated h' ((c, (c + 40) ∷ []) ∷ cs) ≡ heap_allocated h cs)
      × (h'.blocks (c + 40)
          ≡ record { size_in_bytes = pages * 4096 - 80; used = false; next = 0; container = c })
      × (h'.heap ≡ c)
add_container-IsHeap h cs c pages f k =
    let fields = grown_fields h c pages f.positive f.some_pages f.bound in
    let (all, same, ne) = grown_all h c pages f.positive f.some_pages f.bound cs f.clear k in
    let one = new-IsContainer h c pages f.positive f.some_pages f.bound f.aligned in
    let apart = AllClear-apart h c pages f.positive f.some_pages f.bound cs f.clear in
    let own = fields.5 in
    (
      (fields.9, f.positive, fields.7 ne, one, apart, rw own all),
      rw (fields.1, same),
      fields.1,
      fields.9,
    )
