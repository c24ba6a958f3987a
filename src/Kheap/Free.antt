-- ===== src/Kheap/Free.antt =====
-- `kfree` on a chain of blocks: the merges around the block that was freed, wherever it stands.
use b0s.Base.{
  ℕ, ◌+◌, ◌%◌, ◌^◌, ◌<◌, ◌≤◌, ◌≡◌, ◌⊎◌, ap, ◌∙◌, refl, sym, inl, inr, arith, ◌==◌, ≢→==, ≡→==, true,
  false, not, ◌&&◌, Bool-cases, List, [], ◌∷◌, ◌++◌, length,
}
use mathlib.Core.Path.{subst}
use b0s.Kheap.{Kheap, merge, merge_next, merge_prev, assign}
use b0s.Kheap.Chain.{IsChain, IsBack, IsChain-le, cons_IsChain}
use b0s.Base.Word.{add64}
use b0s.Kheap.Merge.{
  Merges, Merged, KeepsLinks, joined, join-IsChain, merge_next_none, merge_next-Merges,
  merge_next-Merged,
}

-- No merge with the block before.
merge_prev_none :
    (h : Kheap) (b : ℕ)
    → (h.block_prev b ≡ 0) ⊎ ((h.blocks (h.block_prev b)).used ≡ true)
    → merge b h ≡ merge_next b h
unfolding merge merge_prev
merge_prev_none h b (inl first) = rw (≡→== (h.block_prev b) 0 first) refl
merge_prev_none h b (inr busy) = elim (Bool-cases (h.block_prev b == 0)) [
  | inl first ↦ rw first refl
  | inr later ↦ rw (later, busy) refl
]

-- The heap in which the block `q` has taken in `b`.
abbrev after_prev : Kheap → ℕ → ℕ → Kheap
after_prev h q b = record h { blocks = assign h.blocks q (joined h.blocks q b) }

module _ (h : Kheap) (c lo hi cur q b : ℕ) (post : List ℕ)
    (chain : IsChain h.blocks c lo hi cur (q ∷ b ∷ post)) (bound : hi + 4096 < 2 ^ 64)
    (idle : (h.blocks b).used ≡ false) (prev : h.block_prev b ≡ q)
    (idle' : (h.blocks q).used ≡ false) where
  -- A free block before takes in `b`, and then goes on as `merge_next` on it.
  merge_prev_some : merge b h ≡ merge_next q (after_prev h q b)
  unfolding merge merge_prev
  merge_prev_some =
      let (e, pos, low, align, own, (e', pos', low', align', own', rest)) = chain in
      let k = h.blocks in
      let le = IsChain-le k c (b + 40 + (k b).size_in_bytes) hi (k b).next post rest in
      let there : (q == 0) ≡ false = ≢→== _ 0 (omega arith) in
      let size : ((k q).size_in_bytes + ((k b).size_in_bytes + 40) % 2 ^ 64) % 2 ^ 64
          ≡ (k q).size_in_bytes + ((k b).size_in_bytes + 40) =
        omega arith in
      let test : (not (q == 0) && not (k q).used) ≡ true = rw (there, idle') refl in
      let step : merge_prev b (add64 (k b).size_in_bytes 40) h ≡ (q, after_prev h q b) =
        rw (prev, test, size) refl in
      ap (λ (r : ℕ × Kheap). merge_next r.0 r.1) step

  after_prev-Merges : Merges h (after_prev h q b) c lo hi cur (q ∷ b ∷ post) (q ∷ post)
  after_prev-Merges =
      let (e, pos, low, align, own, (e', pos', low', align', own', rest)) = chain in
      let k = h.blocks in
      let le = IsChain-le k c (b + 40 + (k b).size_in_bytes) hi (k b).next post rest in
      let (joined_chain, same) = join-IsChain k c lo hi cur q b post chain idle' idle in
      record {
        chain = joined_chain;
        alloc = same;
        outside = record {
          same_block = λ x o. rw (≢→== x q (omega arith)) refl;
          same_prev = λ x o nz. refl;
        };
      }

-- One merge after another.
trans-Merges :
    (h h' h'' : Kheap) (c lo hi cur : ℕ) (bs bs' bs'' : List ℕ)
    → Merges h h' c lo hi cur bs bs'
    → Merges h' h'' c lo hi cur bs' bs''
    → Merges h h'' c lo hi cur bs bs''
trans-Merges h h' h'' c lo hi cur bs bs' bs'' m m' = record {
  chain = m'.chain;
  alloc = m'.alloc ∙ m.alloc;
  outside = record {
    same_block = λ x o. m'.outside.same_block x o ∙ m.outside.same_block x o;
    same_prev = λ x o nz. m'.outside.same_prev x o nz ∙ m.outside.same_prev x o nz;
  };
}

-- A merge in the tail of a chain is one in the chain.
later-Merged :
    (h h' : Kheap) (c lo hi cur x b : ℕ) (bs : List ℕ)
    → IsChain h.blocks c lo hi cur (x ∷ bs)
    → Merged h h' c (x + 40 + (h.blocks x).size_in_bytes) hi (h.blocks x).next b bs
    → Merged h h' c lo hi cur b (x ∷ bs)
later-Merged h h' c lo hi cur x b bs chain m =
    let inner = m.merges in
    let here = inner.outside.same_block x (inl (omega arith)) in
    record {
      blocks' = x ∷ m.blocks';
      merges = record {
        chain = cons_IsChain h.blocks h'.blocks c lo hi cur x bs m.blocks' here chain inner.chain;
        alloc = rw (here, inner.alloc);
        outside = record {
          same_block = λ y o. inner.outside.same_block y (wider y o);
          same_prev = λ y o n. inner.outside.same_prev y (wider y o) n;
        };
      };
      back = λ s p b. (
        inner.outside.same_prev x (inl (omega arith)) (omega (arith, chain.1)) ∙ b.0,
        m.back s x b.1,
      );
    }
  where
    wider : (y : ℕ) → (y < lo) ⊎ (hi ≤ y) → (y < x + 40 + (h.blocks x).size_in_bytes) ⊎ (hi ≤ y)
    wider y (inl l) = inl (omega (arith, chain.2))
    wider y (inr l) = inr l

-- The block before is free.
merge_behind_free :
    (h : Kheap) (c lo hi cur q b : ℕ) (post : List ℕ)
    → IsChain h.blocks c lo hi cur (q ∷ b ∷ post)
    → hi + 4096 < 2 ^ 64
    → (h.blocks b).used ≡ false
    → h.block_prev b ≡ q
    → (h.blocks q).used ≡ false
    → Merged h (merge_next q (after_prev h q b)) c lo hi cur b (q ∷ b ∷ post)
merge_behind_free h c lo hi cur q b [] chain bound idle prev idle' =
    let m = after_prev-Merges h c lo hi cur q b [] chain bound idle prev idle' in
    let end = merge_next_none (after_prev h q b) c lo hi cur q [] m.chain (inl m.chain.5.0) in
    subst (λ (h' : Kheap). Merged h h' c lo hi cur b (q ∷ b ∷ [])) (sym end)
      (record { blocks' = q ∷ []; merges = m; back = λ s p back. (back.0, tt) })
merge_behind_free h c lo hi cur q b (n ∷ ys) chain bound idle prev idle' =
    let h₁ = after_prev h q b in
    let m = after_prev-Merges h c lo hi cur q b (n ∷ ys) chain bound idle prev idle' in
    let self : (h₁.blocks q).used ≡ false = rw (≡→== q q refl) idle' in
    let apart : (n == q) ≡ false = ≢→== n q (omega (arith, chain)) in
    elim (Bool-cases (h.blocks n).used) [
      | inl busy ↦
          let next_busy : (h₁.blocks (h₁.blocks q).next).used ≡ true =
            rw (m.chain.5.0, apart) busy in
          let end = merge_next_none h₁ c lo hi cur q (n ∷ ys) m.chain (inr next_busy) in
          subst (λ (h' : Kheap). Merged h h' c lo hi cur b (q ∷ b ∷ n ∷ ys)) (sym end)
            (record { blocks' = q ∷ n ∷ ys; merges = m; back = λ s p back. absurd (broken busy s) })
      | inr free_next ↦
          let idle_next : (h₁.blocks n).used ≡ false = rw apart free_next in
          let (m', links) = merge_next-Merges h₁ c lo hi cur q n ys m.chain bound self idle_next in
          record {
            blocks' = q ∷ ys;
            merges =
                trans-Merges h h₁ (merge_next q h₁) c lo hi cur (q ∷ b ∷ n ∷ ys) (q ∷ n ∷ ys)
                  (q ∷ ys) m m';
            back = λ s p back. links p back.0 back.1.1.1;
          }
    ]
  where
    broken : (h.blocks n).used ≡ true → KeepsLinks h b → ⊥
    broken busy (inl (inl first)) = omega (arith, chain, prev)
    broken busy (inl (inr busy')) = cc (prev, idle')
    broken busy (inr (inl end)) = omega (arith, chain)
    broken busy (inr (inr free_next)) = cc (chain.5.5.0)

-- The merges around a free block `b` of a chain, the first one with no block before it.
pub merge-Merged :
    (h : Kheap) (c lo hi cur p b : ℕ) (pre post : List ℕ)
    → IsChain h.blocks c lo hi cur (pre ++ b ∷ post)
    → hi + 4096 < 2 ^ 64
    → (h.blocks b).used ≡ false
    → IsBack h.block_prev p (pre ++ b ∷ post)
    → (p ≡ 0) ⊎ (0 < length pre)
    → Merged h (merge b h) c lo hi cur b (pre ++ b ∷ post)
merge-Merged h c lo hi cur p b [] post chain bound idle back (inl first) =
    rw (merge_prev_none h b (inl (back.0 ∙ first)))
      (merge_next-Merged h c hi b post bound idle lo cur chain)
merge-Merged h c lo hi cur p b [] post chain bound idle back (inr some_before) =
    absurd (omega arith)
merge-Merged h c lo hi cur p b (q ∷ []) post chain bound idle back first =
    elim (Bool-cases (h.blocks q).used) [
      | inl busy ↦
          let busy' : (h.blocks (h.block_prev b)).used ≡ true = rw back.1.0 busy in
          rw (merge_prev_none h b (inr busy')) (
            later-Merged h (merge_next b h) c lo hi cur q b (b ∷ post) chain (
              merge_next-Merged h c hi b post bound idle (q + 40 + (h.blocks q).size_in_bytes)
                (h.blocks q).next chain.5))
      | inr idle' ↦
          rw (merge_prev_some h c lo hi cur q b post chain bound idle back.1.0 idle')
            (merge_behind_free h c lo hi cur q b post chain bound idle back.1.0 idle')
    ]
merge-Merged h c lo hi cur p b (x ∷ y ∷ pre) post chain bound idle back first =
    later-Merged h (merge b h) c lo hi cur x b (y ∷ pre ++ b ∷ post) chain (
      merge-Merged h c (x + 40 + (h.blocks x).size_in_bytes) hi (h.blocks x).next x b (y ∷ pre) post
        chain.5 bound idle back.1 (inr (omega arith)))
