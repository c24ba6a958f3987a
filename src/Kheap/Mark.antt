-- ===== src/Kheap/Mark.antt =====
-- Marking a block free, and the containers around a change inside one of them.
use b0s.Base.{
  ℕ, suc, ◌+◌, ◌-◌, ◌%◌, ◌^◌, ◌<◌, ◌≤◌, ◌≡◌, ap, ◌∙◌, refl, sym, inl, inr, arith, ◌==◌, ≢→==, ≡→==,
  true, false, Bool-cases, List, [], ◌∷◌, ◌++◌, length,
}
use mathlib.Core.Path.{subst}
use mathlib.Core.List.{Perm, perm_append_comm, append_assoc}
use mathlib.Core.List.Perm
use b0s.Base.Word.{sub64}
use b0s.Kheap.{Block, Container, Kheap, mark_free, assign}
use b0s.Kheap.Chain.{IsChain, allocated, IsChain-ext, cons_IsChain}
use b0s.Kheap.Heap.{
  IsContainer, IsHeapFrom, Contents, AllApart, AreApart, heap_allocated, stop_of, ChangesIn,
  keeps-IsContainer, keeps_heap, AllApart-change, IsChain-length,
}

-- A block of a chain lies in its bounds.
pub IsChain-inside :
    (blocks : ℕ → Block) (c lo hi cur b : ℕ) (pre post : List ℕ)
    → IsChain blocks c lo hi cur (pre ++ b ∷ post)
    → (lo ≤ b) × (b < hi) × (0 < b) × ((blocks b).container ≡ c)
IsChain-inside blocks c lo hi cur b [] post k =
    let size = (blocks b).size_in_bytes in
    let l = IsChain-length blocks c (b + 40 + size) hi (blocks b).next post k.5 in
    (k.2, omega (arith, l), k.1, k.4)
IsChain-inside blocks c lo hi cur b (x ∷ pre) post k =
    let (l, u, pos, own) =
      IsChain-inside blocks c (x + 40 + (blocks x).size_in_bytes) hi (blocks x).next b pre post
        k.5 in
    (omega (arith, k.2), u, pos, own)

abbrev pub marked : (ℕ → Block) → ℕ → ℕ → Block
marked blocks b = assign blocks b (record (blocks b) { used = false })

-- A used block that is marked free is taken off the used ones of its chain.
pub mark-IsChain :
    (blocks : ℕ → Block) (c lo hi cur b : ℕ) (pre post : List ℕ)
    → IsChain blocks c lo hi cur (pre ++ b ∷ post)
    → (blocks b).used ≡ true
    → IsChain (marked blocks b) c lo hi cur (pre ++ b ∷ post)
      × Perm
          (allocated blocks (pre ++ b ∷ post))
          ((b, (blocks b).size_in_bytes) ∷ allocated (marked blocks b) (pre ++ b ∷ post))
      × (length (allocated blocks (pre ++ b ∷ post))
          ≡ suc (length (allocated (marked blocks b) (pre ++ b ∷ post))))
mark-IsChain blocks c lo hi cur b [] post chain busy =
    let (e, pos, low, align, own, rest) = chain in
    let from = b + 40 + (blocks b).size_in_bytes in
    let free_b : Block = record (blocks b) { used = false } in
    let here : marked blocks b b ≡ free_b = rw (≡→== b b refl) refl in
    let (rest', same) =
      IsChain-ext blocks (marked blocks b) c from hi (blocks b).next post
        (λ x l u. rw (≢→== x b (omega arith)) refl) rest in
    (
      rw here (e, pos, low, align, own, rest'),
      rw (here, busy, same) (Perm.refl _),
      rw (here, busy, same) refl,
    )
mark-IsChain blocks c lo hi cur b (x ∷ pre) post chain busy =
    let next_lo = x + 40 + (blocks x).size_in_bytes in
    let (l, u, pos, own) = IsChain-inside blocks c next_lo hi (blocks x).next b pre post chain.5 in
    let here : marked blocks b x ≡ blocks x = rw (≢→== x b (omega arith)) refl in
    let (tail, taken, count) =
      mark-IsChain blocks c next_lo hi (blocks x).next b pre post chain.5 busy in
    let own_pair : ℕ × ℕ = (x, (blocks x).size_in_bytes) in
    (
      cons_IsChain blocks (marked blocks b) c lo hi cur x (pre ++ b ∷ post) (pre ++ b ∷ post) here
          chain tail,
      elim (Bool-cases (blocks x).used) [
        | inl used_x ↦
            rw (here, used_x)
              (Perm.trans (Perm.cons own_pair taken)
                (Perm.swap (b, (blocks b).size_in_bytes) own_pair _))
        | inr free_x ↦ rw (here, free_x) taken
      ],
      elim (Bool-cases (blocks x).used) [
        | inl used_x ↦ rw (here, used_x) (ap suc count)
        | inr free_x ↦ rw (here, free_x) count
      ],
    )

abbrev pub counted_down : Kheap → ℕ → ℕ → Container
counted_down h c =
    let k = h.containers in assign k c (record (k c) { used_blocks = sub64 (k c).used_blocks 1 })

pub mark_free_fields :
    (h : Kheap) (c b : ℕ)
    → (h.blocks b).container ≡ c
    → let h' = mark_free b h in
      (h'.containers ≡ counted_down h c)
      × (h'.blocks ≡ marked h.blocks b)
      × (h'.block_prev ≡ h.block_prev)
      × (h'.container_prev ≡ h.container_prev)
      × (h'.heap ≡ h.heap)
unfolding mark_free
mark_free_fields h c b own = (
  ap
      (λ (n : ℕ).
        assign h.containers n
          (record (h.containers n) { used_blocks = sub64 (h.containers n).used_blocks 1 }))
      own,
  refl,
  refl,
  refl,
  refl,
)

-- Marking block `b` free in its container.
pub mark_free-IsContainer :
    (h : Kheap) (c b : ℕ) (pre post : List ℕ)
    → IsContainer h c (pre ++ b ∷ post)
    → (h.blocks b).used ≡ true
    → let h' = mark_free b h in
      IsContainer h' c (pre ++ b ∷ post)
      × Perm
          (allocated h.blocks (pre ++ b ∷ post))
          ((b, (h.blocks b).size_in_bytes) ∷ allocated h'.blocks (pre ++ b ∷ post))
      × ChangesIn h h' c
mark_free-IsContainer h c b pre post k busy =
    let stop = stop_of h c in
    let first = (h.containers c).block in
    let (chain, taken, count) =
      mark-IsChain h.blocks c (c + 40) stop first b pre post k.chain busy in
    let (l, u, pos, own) = IsChain-inside h.blocks c (c + 40) stop first b pre post k.chain in
    let few = IsChain-length h.blocks c (c + 40) stop first (pre ++ b ∷ post) k.chain in
    let counted : ((h.containers c).used_blocks + 2 ^ 64 - 1) % 2 ^ 64
        ≡ length (allocated (marked h.blocks b) (pre ++ b ∷ post)) =
      omega (arith, k.counted, count, few, k.bound) in
    let (same, blocks_eq, prev_eq, links_eq, heap_eq) = mark_free_fields h c b own in
    let self : (c == c) ≡ true = ≡→== c c refl in
    (
      record {
        chain = rw (same, self, blocks_eq) chain;
        bound = rw (same, self) k.bound;
        counted = rw (same, self, blocks_eq) counted;
        back = rw prev_eq k.back;
      },
      rw blocks_eq taken,
      record {
        same_size = λ x. rw same (ground arith);
        same_next = λ x. rw same (ground arith);
        same_first = λ x. rw same (ground arith);
        same_count = λ x n. rw same (ground arith);
        same_links = links_eq;
        same_heap = heap_eq;
        same_block = λ x o. rw (blocks_eq, ≢→== x b (omega arith)) refl;
        same_prev = λ x o n. rw prev_eq refl;
      },
    )

turn : (h : Kheap) (x y : ℕ) → AreApart h x y → AreApart h y x
turn h x y (inl l) = inr l
turn h x y (inr l) = inl l

-- A list moved before another.
perm_front : (xs e ys : List (ℕ × ℕ)) → Perm (xs ++ (e ++ ys)) (e ++ (xs ++ ys))
perm_front xs e ys =
    rw (← append_assoc xs e ys, ← append_assoc e xs ys)
      (Perm.append_right ys (perm_append_comm xs e))

module _ (h h' : Kheap) (c : ℕ) (bs bs' : List ℕ) (cs : Contents) (ch : ChangesIn h h' c)
    (one' : IsContainer h' c bs') where
  AllApart-replace :
      (d : ℕ) (front : Contents)
      → AllApart h d (front ++ (c, bs) ∷ cs)
      → AllApart h' d (front ++ (c, bs') ∷ cs)
  AllApart-replace d [] apart = (
    (AllApart-change h h' c ch d ((c, bs) ∷ []) (apart.0, tt)).0,
    AllApart-change h h' c ch d cs apart.1,
  )
  AllApart-replace d ((x, xs) ∷ front) apart = (
    (AllApart-change h h' c ch d ((x, xs) ∷ []) (apart.0, tt)).0,
    AllApart-replace d front apart.1,
  )

  apart_from : (d : ℕ) (front : Contents) → AllApart h d (front ++ (c, bs) ∷ cs) → AreApart h d c
  apart_from d [] apart = apart.0
  apart_from d (x ∷ front) apart = apart_from d front apart.1

  -- A change inside one container of a whole heap leaves a whole heap.
  pub change-IsHeapFrom :
      (p cur : ℕ) (front : Contents)
      → IsHeapFrom h p cur (front ++ (c, bs) ∷ cs)
      → IsHeapFrom h' p cur (front ++ (c, bs') ∷ cs)
  change-IsHeapFrom p cur [] (at, pos, prev, one, others, rest) =
      let (rest', more) = keeps_heap h h' c ch c (h.containers c).next cs others rest in
      (
        at,
        pos,
        ap (λ (l : ℕ → ℕ). l c) ch.same_links ∙ prev,
        one',
        AllApart-change h h' c ch c cs others,
        subst (λ n. IsHeapFrom h' c n cs) (sym (ch.same_next c)) rest',
      )
  change-IsHeapFrom p cur ((d, ds) ∷ front) (at, pos, prev, one, others, rest) =
      let (one'', same) =
        keeps-IsContainer h h' c ch d ds (turn h d c (apart_from d front others)) one in
      (
        at,
        pos,
        ap (λ (l : ℕ → ℕ). l d) ch.same_links ∙ prev,
        one'',
        AllApart-replace d front others,
        subst (λ n. IsHeapFrom h' d n (front ++ (c, bs') ∷ cs)) (sym (ch.same_next d))
            (change-IsHeapFrom d (h.containers d).next front rest),
      )

  -- What is allocated, less `e`, when that is what the container lost.
  pub change-heap_allocated :
      (p cur : ℕ) (front : Contents) (e : List (ℕ × ℕ))
      → IsHeapFrom h p cur (front ++ (c, bs) ∷ cs)
      → Perm (allocated h.blocks bs) (e ++ allocated h'.blocks bs')
      → Perm
          (heap_allocated h (front ++ (c, bs) ∷ cs))
          (e ++ heap_allocated h' (front ++ (c, bs') ∷ cs))
  change-heap_allocated p cur [] e (at, pos, prev, one, others, rest) lost =
      let (rest', more) = keeps_heap h h' c ch c (h.containers c).next cs others rest in
      rw (more, ← append_assoc e (allocated h'.blocks bs') (heap_allocated h cs))
        (Perm.append_right (heap_allocated h cs) lost)
  change-heap_allocated p cur ((d, ds) ∷ front) e (at, pos, prev, one, others, rest) lost =
      let (one'', same) =
        keeps-IsContainer h h' c ch d ds (turn h d c (apart_from d front others)) one in
      let inner = change-heap_allocated d (h.containers d).next front e rest lost in
      rw same (
        Perm.trans (Perm.append_left (allocated h.blocks ds) inner)
          (perm_front (allocated h.blocks ds) e _))
