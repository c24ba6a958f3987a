-- ===== src/Kheap/Heap.antt =====
-- The containers of the heap as a list, each with its chain of blocks, and what is allocated in it.
use b0s.Base.{
  ℕ, ◌+◌, ◌^◌, ◌<◌, ◌≤◌, ◌≡◌, ◌≢◌, ◌⊎◌, ap, ◌∙◌, refl, sym, inl, inr, arith, Bool-cases, List, [],
  ◌∷◌, ◌++◌, length, All,
}
use mathlib.Core.Path.{subst}
use b0s.Kheap.{Block, Kheap}
use b0s.Kheap.Chain.{IsChain, IsBack, allocated, IsChain-ext, IsBack-ext}

-- The end of a container.
abbrev pub stop_of : Kheap → ℕ → ℕ
stop_of h c = c + 40 + (h.containers c).size_in_bytes

-- Container `c` holds the blocks `bs`, and counts those in use.
pub record IsContainer (h : Kheap) (c : ℕ) (bs : List ℕ) : Type 0 where
  pub chain : IsChain h.blocks c (c + 40) (stop_of h c) (h.containers c).block bs
  pub bound : stop_of h c + 4096 < 2 ^ 64
  pub counted : (h.containers c).used_blocks ≡ length (allocated h.blocks bs)
  pub back : IsBack h.block_prev 0 bs

-- Two containers share no byte.
abbrev pub AreApart : Kheap → ℕ → ℕ → Type 0
AreApart h c d = (stop_of h c ≤ d) ⊎ (stop_of h d ≤ c)

abbrev pub Contents : Type 0
Contents = List (ℕ × List ℕ)

abbrev pub AllApart : Kheap → ℕ → Contents → Type 0
AllApart h c cs = All (λ (e : ℕ × List ℕ). AreApart h c e.0) cs

-- The containers from the pointer `cur` on, the first with the `prev` pointer `p`, are those of the
-- list, each with its blocks.
abbrev pub IsHeapFrom : Kheap → ℕ → ℕ → Contents → Type 0
IsHeapFrom h p cur [] = cur ≡ 0
IsHeapFrom h p cur ((c, bs) ∷ cs) =
    (cur ≡ c)
    × (0 < c)
    × (h.container_prev c ≡ p)
    × IsContainer h c bs
    × AllApart h c cs
    × IsHeapFrom h c (h.containers c).next cs

abbrev pub IsHeap : Kheap → Contents → Type 0
IsHeap h cs = IsHeapFrom h 0 h.heap cs

-- Every used block of the heap, with its size.
abbrev pub heap_allocated : Kheap → Contents → List (ℕ × ℕ)
heap_allocated h [] = []
heap_allocated h ((c, bs) ∷ cs) = allocated h.blocks bs ++ heap_allocated h cs

-- A chain of blocks is no longer than the bytes that it lies in.
pub IsChain-length :
    (blocks : ℕ → Block) (c lo hi cur : ℕ) (bs : List ℕ)
    → IsChain blocks c lo hi cur bs
    → lo + length (allocated blocks bs) ≤ hi
IsChain-length blocks c lo hi cur [] h = omega (arith, h.1)
IsChain-length blocks c lo hi cur (a ∷ bs) (e, pos, low, align, own, rest) =
    let later =
      IsChain-length blocks c (a + 40 + (blocks a).size_in_bytes) hi (blocks a).next bs rest in
    elim (Bool-cases (blocks a).used) [
      | inl busy ↦ rw busy (omega (arith, later))
      | inr idle ↦ rw idle (omega (arith, later))
    ]

-- The heap after a change inside container `c`: the other nodes and every link stay.
pub record ChangesIn (h h' : Kheap) (c : ℕ) : Type 0 where
  pub same_size : (x : ℕ) → (h'.containers x).size_in_bytes ≡ (h.containers x).size_in_bytes
  pub same_next : (x : ℕ) → (h'.containers x).next ≡ (h.containers x).next
  pub same_first : (x : ℕ) → (h'.containers x).block ≡ (h.containers x).block
  pub same_count : (x : ℕ) → x ≢ c → (h'.containers x).used_blocks ≡ (h.containers x).used_blocks
  pub same_links : h'.container_prev ≡ h.container_prev
  pub same_heap : h'.heap ≡ h.heap
  pub same_block : (x : ℕ) → (x < c + 40) ⊎ (stop_of h c ≤ x) → h'.blocks x ≡ h.blocks x
  pub same_prev :
      (x : ℕ) → (x < c + 40) ⊎ (stop_of h c ≤ x) → x ≢ 0 → h'.block_prev x ≡ h.block_prev x

module _ (h h' : Kheap) (c : ℕ) (ch : ChangesIn h h' c) where
  AreApart-change : (a b : ℕ) → AreApart h a b → AreApart h' a b
  AreApart-change a b apart = rw (ch.same_size a, ch.same_size b) apart

  pub AllApart-change : (a : ℕ) (cs : Contents) → AllApart h a cs → AllApart h' a cs
  AllApart-change a [] apart = tt
  AllApart-change a ((d, bs) ∷ cs) apart =
      (AreApart-change a d apart.0, AllApart-change a cs apart.1)

  -- A container apart from the changed one is as before.
  pub keeps-IsContainer :
      (d : ℕ) (bs : List ℕ)
      → AreApart h c d
      → IsContainer h d bs
      → IsContainer h' d bs × (allocated h'.blocks bs ≡ allocated h.blocks bs)
  keeps-IsContainer d bs apart k =
      let (chain, alloc) =
        IsChain-ext h.blocks h'.blocks d (d + 40) (stop_of h d) (h.containers d).block bs
          (λ x l u. ch.same_block x (outside x l u apart)) k.chain in
      let ne : d ≢ c = differ apart in
      (
        record {
          chain = rw (ch.same_size d, ch.same_first d) chain;
          bound = rw (ch.same_size d) k.bound;
          counted = ch.same_count d ne ∙ k.counted ∙ ap length (sym alloc);
          back =
              IsBack-ext h.blocks h.block_prev h'.block_prev 0 d (d + 40) (stop_of h d)
                (h.containers d).block bs
                (λ x l u. ch.same_prev x (outside x l u apart) (omega arith)) k.chain k.back;
        },
        alloc,
      )
    where
      outside :
          (x : ℕ) → d + 40 ≤ x → x < stop_of h d → AreApart h c d → (x < c + 40) ⊎ (stop_of h c ≤ x)
      outside x l u (inl a) = inr (omega arith)
      outside x l u (inr a) = inl (omega arith)

      differ : AreApart h c d → d ≢ c
      differ (inl a) = omega arith
      differ (inr a) = omega arith

  -- The containers of a list that is apart from the changed one are as before.
  pub keeps_heap :
      (p cur : ℕ) (cs : Contents)
      → AllApart h c cs
      → IsHeapFrom h p cur cs
      → IsHeapFrom h' p cur cs × (heap_allocated h' cs ≡ heap_allocated h cs)
  keeps_heap p cur [] apart k = (k, refl)
  keeps_heap p cur ((d, bs) ∷ cs) apart (at, pos, prev, one, others, rest) =
      let (one', alloc) = keeps-IsContainer d bs apart.0 one in
      let (rest', more) = keeps_heap d (h.containers d).next cs apart.1 rest in
      let next = ch.same_next d in
      (
        (
          at,
          pos,
          ap (λ (l : ℕ → ℕ). l d) ch.same_links ∙ prev,
          one',
          AllApart-change d cs others,
          subst (λ n. IsHeapFrom h' d n cs) (sym next) rest',
        ),
        rw (alloc, more),
      )
