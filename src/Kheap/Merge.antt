-- ===== src/Kheap/Merge.antt =====
-- The merges of `kfree` on a chain of blocks.
use b0s.Base.{
  ℕ, ◌+◌, ◌%◌, ◌^◌, ◌<◌, ◌≤◌, ◌≡◌, ◌⊎◌, refl, sym, inl, inr, arith, ◌==◌, ≢→==, ≡→==, if◌then◌else◌,
  true, false, Bool-cases, List, [], ◌∷◌,
}
use mathlib.Core.Path.{subst}
use b0s.Kheap.{Block, Kheap, merge_next, assign}
use b0s.Kheap.Chain.{IsChain, IsBack, allocated, IsChain-le, IsChain-ext, IsBack-ext}
use b0s.Kheap.Take.{KeepsOutside}

-- A lower start.
IsChain-lower :
    (blocks : ℕ → Block) (c lo lo' hi cur : ℕ) (bs : List ℕ)
    → lo' ≤ lo
    → IsChain blocks c lo hi cur bs
    → IsChain blocks c lo' hi cur bs
IsChain-lower blocks c lo lo' hi cur [] le k = (k.0, omega (arith, k.1))
IsChain-lower blocks c lo lo' hi cur (a ∷ bs) le (e, pos, low, align, own, rest) =
    (e, pos, omega arith, align, own, rest)

-- Where the pointer that a chain starts from can lead.
pub IsChain-start :
    (blocks : ℕ → Block) (c lo hi cur : ℕ) (bs : List ℕ)
    → IsChain blocks c lo hi cur bs
    → (cur ≡ 0) ⊎ ((lo ≤ cur) × (cur < hi))
IsChain-start blocks c lo hi cur [] k = inl k.0
IsChain-start blocks c lo hi cur (a ∷ bs) (e, pos, low, align, own, rest) =
    let le = IsChain-le blocks c (a + 40 + (blocks a).size_in_bytes) hi (blocks a).next bs rest in
    inr (omega arith, omega arith)

-- The block `b` after it took in the block `n`.
abbrev pub joined : (ℕ → Block) → ℕ → ℕ → Block
joined blocks b n = record (blocks b) {
  size_in_bytes = (blocks b).size_in_bytes + ((blocks n).size_in_bytes + 40);
  next = (blocks n).next;
}

-- A free block that takes in the free block behind it leaves a chain with the same blocks in use.
pub join-IsChain :
    (blocks : ℕ → Block) (c lo hi cur b n : ℕ) (ys : List ℕ)
    → IsChain blocks c lo hi cur (b ∷ n ∷ ys)
    → (blocks b).used ≡ false
    → (blocks n).used ≡ false
    → let blocks' = assign blocks b (joined blocks b n) in
      IsChain blocks' c lo hi cur (b ∷ ys)
      × (allocated blocks' (b ∷ ys) ≡ allocated blocks (b ∷ n ∷ ys))
join-IsChain blocks c lo hi cur b n ys
      (e, pos, low, align, own, (e', pos', low', align', own', rest)) idle idle' =
    let blocks' = assign blocks b (joined blocks b n) in
    let from = n + 40 + (blocks n).size_in_bytes in
    let here : blocks' b ≡ joined blocks b n = rw (≡→== b b refl) refl in
    let (rest', same) =
      IsChain-ext blocks blocks' c from hi (blocks n).next ys
        (λ x l u. rw (≢→== x b (omega arith)) refl) rest in
    let lower =
      IsChain-lower blocks' c from
        (b + 40 + ((blocks b).size_in_bytes + ((blocks n).size_in_bytes + 40))) hi (blocks n).next
        ys (omega arith) rest' in
    (rw here (e, pos, low, align, own, lower), rw (here, idle, idle', same))

-- The links back when the first of the chain takes in the next.
join-IsBack :
    (blocks : ℕ → Block) (prev : ℕ → ℕ) (p c lo hi cur b n : ℕ) (ys : List ℕ)
    → IsChain blocks c lo hi cur (b ∷ n ∷ ys)
    → prev b ≡ p
    → IsBack prev n ys
    → let after = (blocks n).next in
      IsBack (if after == 0 then prev else assign prev after b) p (b ∷ ys)
join-IsBack blocks prev p c lo hi cur b n []
      (e, pos, low, align, own, (e', pos', low', align', own', rest)) first back =
    rw (≡→== (blocks n).next 0 rest.0) (first, tt)
join-IsBack blocks prev p c lo hi cur b n (m ∷ zs)
      (
        e,
        pos,
        low,
        align,
        own,
        (e', pos', low', align', own', (at, pos'', low'', align'', own'', more)),
      )
      first back =
    let after = (blocks n).next in
    let prev' = assign prev after b in
    let there : (after == 0) ≡ false = ≢→== after 0 (omega arith) in
    let to_m : prev' m ≡ b = rw (≡→== m after (sym at)) refl in
    let from = m + 40 + (blocks m).size_in_bytes in
    let zs_back =
      IsBack-ext blocks prev prev' m c from hi (blocks m).next zs
        (λ x l u. rw (≢→== x after (omega arith)) refl) more back.1 in
    let linked : (if after == 0 then prev else prev') ≡ prev' = rw there refl in
    subst (λ (pr : ℕ → ℕ). IsBack pr p (b ∷ m ∷ zs)) (sym linked)
      (rw (≢→== b after (omega arith)) first, (to_m, zs_back))

-- What the merges do to a chain.
pub record Merges (h h' : Kheap) (c lo hi cur : ℕ) (bs bs' : List ℕ) : Type 0 where
  pub chain : IsChain h'.blocks c lo hi cur bs'
  pub alloc : allocated h'.blocks bs' ≡ allocated h.blocks bs
  pub outside : KeepsOutside h h' lo hi

-- Nothing to merge.
pub same-Merges :
    (h : Kheap) (c lo hi cur : ℕ) (bs : List ℕ)
    → IsChain h.blocks c lo hi cur bs
    → Merges h h c lo hi cur bs bs
same-Merges h c lo hi cur bs chain = record {
  chain = chain;
  alloc = refl;
  outside = record { same_block = λ x o. refl; same_prev = λ x o n. refl };
}

module _ (h : Kheap) (c lo hi cur b : ℕ) where
  -- The block behind is in use, or there is none.
  pub merge_next_none :
      (ys : List ℕ)
      → IsChain h.blocks c lo hi cur (b ∷ ys)
      → ((h.blocks b).next ≡ 0) ⊎ ((h.blocks (h.blocks b).next).used ≡ true)
      → merge_next b h ≡ h
  unfolding merge_next
  merge_next_none ys chain (inl end) = rw (≡→== (h.blocks b).next 0 end)
  merge_next_none ys chain (inr busy) = rw busy (ground arith)

  -- The heap in which `b` has taken in `n`.
  abbrev with_joined : ℕ → Kheap
  with_joined n =
      let after = (h.blocks n).next in
      record h {
        blocks = assign h.blocks b (joined h.blocks b n);
        block_prev = if after == 0 then h.block_prev else assign h.block_prev after b;
      }

  module _ (n : ℕ) (ys : List ℕ) (chain : IsChain h.blocks c lo hi cur (b ∷ n ∷ ys))
      (bound : hi + 4096 < 2 ^ 64) (idle : (h.blocks b).used ≡ false)
      (idle' : (h.blocks n).used ≡ false) where
    -- The block behind is free.
    merge_next_some : merge_next b h ≡ with_joined n
    unfolding merge_next
    merge_next_some =
        let (e, pos, low, align, own, (e', pos', low', align', own', rest)) = chain in
        let k = h.blocks in
        let le = IsChain-le k c (n + 40 + (k n).size_in_bytes) hi (k n).next ys rest in
        let there : (n == 0) ≡ false = ≢→== _ 0 (omega arith) in
        let size : ((k b).size_in_bytes + ((k n).size_in_bytes + 40) % 2 ^ 64) % 2 ^ 64
            ≡ (k b).size_in_bytes + ((k n).size_in_bytes + 40) =
          omega arith in
        rw (e', there, idle', size) refl

    pub merge_next-Merges :
        let h' = merge_next b h in
        Merges h h' c lo hi cur (b ∷ n ∷ ys) (b ∷ ys)
        × ((p : ℕ)
            → h.block_prev b ≡ p
            → IsBack h.block_prev n ys
            → IsBack h'.block_prev p (b ∷ ys))
    merge_next-Merges =
        let (e, pos, low, align, own, (e', pos', low', align', own', rest)) = chain in
        let k = h.blocks in
        let from = n + 40 + (k n).size_in_bytes in
        let le = IsChain-le k c from hi (k n).next ys rest in
        let (joined_chain, same) = join-IsChain k c lo hi cur b n ys chain idle idle' in
        let start = IsChain-start k c from hi (k n).next ys rest in
        subst
          (λ (h' : Kheap).
            Merges h h' c lo hi cur (b ∷ n ∷ ys) (b ∷ ys)
            × ((p : ℕ)
                → h.block_prev b ≡ p
                → IsBack h.block_prev n ys
                → IsBack h'.block_prev p (b ∷ ys)))
          (sym merge_next_some)
          (
            record {
              chain = joined_chain;
              alloc = same;
              outside = record {
                same_block = λ x o. rw (≢→== x b (omega arith)) refl;
                same_prev = λ x o nz. ground (arith, start);
              };
            },
            λ p first back. join-IsBack k h.block_prev p c lo hi cur b n ys chain first back,
          )

-- There is no free block before `b`, or no used one behind it.
abbrev pub KeepsLinks : Kheap → ℕ → Type 0
KeepsLinks h b =
    ((h.block_prev b ≡ 0) ⊎ ((h.blocks (h.block_prev b)).used ≡ true))
    ⊎ (((h.blocks b).next ≡ 0) ⊎ ((h.blocks (h.blocks b).next).used ≡ false))

-- The chain after the merges around `b`.
pub record Merged (h h' : Kheap) (c lo hi cur b : ℕ) (bs : List ℕ) : Type 0 where
  pub blocks' : List ℕ
  pub merges : Merges h h' c lo hi cur bs blocks'
  pub back : KeepsLinks h b → (p : ℕ) → IsBack h.block_prev p bs → IsBack h'.block_prev p blocks'

module _ (h : Kheap) (c hi b : ℕ) (post : List ℕ) (bound : hi + 4096 < 2 ^ 64)
    (idle : (h.blocks b).used ≡ false) where
  -- Without a merge with the block before.
  pub merge_next-Merged :
      (lo cur : ℕ)
      → IsChain h.blocks c lo hi cur (b ∷ post)
      → Merged h (merge_next b h) c lo hi cur b (b ∷ post)
  merge_next-Merged lo cur chain = go post chain
    where
      go :
          (ys : List ℕ)
          → IsChain h.blocks c lo hi cur (b ∷ ys)
          → Merged h (merge_next b h) c lo hi cur b (b ∷ ys)
      go [] k = rw (merge_next_none h c lo hi cur b [] k (inl k.5.0)) (record {
        blocks' = b ∷ [];
        merges = same-Merges h c lo hi cur (b ∷ []) k;
        back = λ s p back. back;
      })
      go (n ∷ ys) k = elim (Bool-cases (h.blocks n).used) [
        | inl busy ↦
            let next_busy : (h.blocks (h.blocks b).next).used ≡ true = rw k.5.0 busy in
            rw (merge_next_none h c lo hi cur b (n ∷ ys) k (inr next_busy)) (record {
              blocks' = b ∷ n ∷ ys;
              merges = same-Merges h c lo hi cur (b ∷ n ∷ ys) k;
              back = λ s p back. back;
            })
        | inr free_next ↦
            let (m, links) = merge_next-Merges h c lo hi cur b n ys k bound idle free_next in
            record { blocks' = b ∷ ys; merges = m; back = λ s p back. links p back.0 back.1.1 }
      ]
