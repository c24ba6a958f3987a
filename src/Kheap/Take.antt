-- ===== src/Kheap/Take.antt =====
-- The block at the head of a chain is taken, and split if it has room for another.
use b0s.Base.{
  ℕ, ◌+◌, ◌-◌, ◌%◌, ◌^◌, ◌<◌, ◌≤◌, ◌≡◌, ◌≢◌, ◌⊎◌, ◌∙◌, refl, sym, inl, inr, arith, leb, leb→gt,
  ◌==◌, ≢→==, ≡→==, if◌then◌else◌, true, false, Bool-cases, List, [], ◌∷◌,
}
use b0s.Base.Align.{roundup-sixteen}
use mathlib.Core.Path.{subst}
use b0s.Kheap.{Kheap, split_block, mark_used, next_struct_end, assign}
use b0s.Kheap.Chain.{IsChain, IsBack, allocated, IsChain-le, IsChain-ext, IsBack-ext}

-- The stores agree outside of the bounds.
pub record KeepsOutside (h h' : Kheap) (lo hi : ℕ) : Type 0 where
  pub same_block : (x : ℕ) → (x < lo) ⊎ (hi ≤ x) → h'.blocks x ≡ h.blocks x
  pub same_prev : (x : ℕ) → (x < lo) ⊎ (hi ≤ x) → x ≢ 0 → h'.block_prev x ≡ h.block_prev x

-- Where the header of a split-off block ends: aligned, and behind the taken bytes.
next_struct_end_lem :
    (a size : ℕ)
    → a + size + 4096 < 2 ^ 64
    → let e = next_struct_end a size in (e % 16 ≡ 0) × (a + 80 + size < e) × (e ≤ a + 96 + size)
unfolding next_struct_end
next_struct_end_lem a size h =
    let e = roundup-sixteen (a + 80 + size) (omega arith) in
    let x : (a + 40) % 2 ^ 64 + size ≡ a + 40 + size = omega arith in
    let y : ((((a + 40) % 2 ^ 64) + size) % 2 ^ 64 + 40) % 2 ^ 64 ≡ a + 80 + size = omega arith in
    rw (y, e) (omega arith, omega arith, omega arith)

-- Taking the head of a chain.
pub record Takes (h h' : Kheap) (c lo hi cur a size : ℕ) (bs : List ℕ) : Type 0 where
  pub rest : List ℕ
  pub chain : IsChain h'.blocks c lo hi cur (a ∷ rest)
  pub given : ℕ
  pub enough : size ≤ given
  pub alloc : allocated h'.blocks (a ∷ rest) ≡ (a, given) ∷ allocated h.blocks bs
  pub ends : a + 40 + given ≤ hi
  pub back : (p : ℕ) → IsBack h.block_prev p (a ∷ bs) → IsBack h'.block_prev p (a ∷ rest)
  pub outside : KeepsOutside h h' lo hi

module _ (h : Kheap) (c lo hi cur a size : ℕ) (bs : List ℕ)
    (chain : IsChain h.blocks c lo hi cur (a ∷ bs)) (bound : hi + 4096 < 2 ^ 64)
    (fits : size ≤ (h.blocks a).size_in_bytes) where
  abbrev had : ℕ
  had = (h.blocks a).size_in_bytes

  abbrev tail : IsChain h.blocks c (a + 40 + had) hi (h.blocks a).next bs
  tail = chain.5

  -- Without room for another block only the mark changes.
  take_whole :
      leb (a + 40 + had) (next_struct_end a size) ≡ true
      → Takes h (split_block a size (mark_used a h)) c lo hi cur a size bs
  unfolding split_block mark_used
  take_whole small =
      let le = IsChain-le h.blocks c (a + 40 + had) hi (h.blocks a).next bs tail in
      let taken = record (h.blocks a) { used = true } in
      let blocks' = assign h.blocks a taken in
      let here : blocks' a ≡ taken = ground arith in
      let same_end : ((a + 40) % 2 ^ 64 + had) % 2 ^ 64 ≡ a + 40 + had = omega arith in
      let (rest, alloc) =
        IsChain-ext h.blocks blocks' c (a + 40 + had) hi (h.blocks a).next bs
          (λ x l u. ground arith) tail in
      rw (here, same_end, small)
        (record {
          rest = bs;
          chain = rw here (chain.0, chain.1, chain.2, chain.3, chain.4, rest);
          given = had;
          enough = fits;
          alloc = rw (here, alloc);
          ends = le;
          back = λ p b. b;
          outside = record { same_block = λ x o. ground arith; same_prev = λ x o n. refl };
        })

  -- The back pointers behind a block that was split off at `nb`.
  back_behind :
      (nb : ℕ)
      → a < nb
      → nb < a + 40 + had
      → let after = (h.blocks a).next in
        let back = assign h.block_prev nb a in
        let prev' = if after == 0 then back else assign back after nb in
        (prev' a ≡ h.block_prev a)
        × (prev' nb ≡ a)
        × (IsBack h.block_prev a bs → IsBack prev' nb bs)
        × ((x : ℕ) → (x < lo) ⊎ (hi ≤ x) → x ≢ 0 → prev' x ≡ h.block_prev x)
  back_behind nb above below = go bs tail
    where
      after : ℕ
      after = (h.blocks a).next

      prev' : ℕ → ℕ
      prev' =
          if after == 0
          then assign h.block_prev nb a
          else assign (assign h.block_prev nb a) after nb

      go :
          (ys : List ℕ)
          → IsChain h.blocks c (a + 40 + had) hi after ys
          → (prev' a ≡ h.block_prev a)
            × (prev' nb ≡ a)
            × (IsBack h.block_prev a ys → IsBack prev' nb ys)
            × ((x : ℕ) → (x < lo) ⊎ (hi ≤ x) → x ≢ 0 → prev' x ≡ h.block_prev x)
      go [] (end, le) =
          rw (≡→== after 0 end)
            (ground arith, ground arith, λ b. tt, λ x o n. ground (arith, chain.2))
      go (n ∷ ys) (e, pos, low, align, own, rest) =
          let le =
            IsChain-le h.blocks c (n + 40 + (h.blocks n).size_in_bytes) hi (h.blocks n).next ys
              rest in
          let there : after ≢ 0 = omega arith in
          rw (≢→== after 0 there) (
            ground arith,
            ground arith,
            λ b. (
              ground arith,
              IsBack-ext h.blocks h.block_prev prev' n c (n + 40 + (h.blocks n).size_in_bytes) hi
                  (h.blocks n).next ys (λ x l u. ground arith) rest b.1,
            ),
            λ x o nz. ground (arith, chain.2),
          )

  -- The stores after a split: the taken block, the new one, and no other.
  split_fields :
      leb (a + 40 + had) (next_struct_end a size) ≡ false
      → let nb = next_struct_end a size - 40 in
        let h' = split_block a size (mark_used a h) in
        let after = (h.blocks a).next in
        (h'.blocks a ≡ record {
          size_in_bytes = size;
          used = true;
          next = nb;
          container = (h.blocks a).container;
        })
        × (h'.blocks nb ≡ record {
          size_in_bytes = a + 40 + had - next_struct_end a size;
          used = false;
          next = after;
          container = (h.blocks a).container;
        })
        × ((x : ℕ) → x ≢ a → x ≢ nb → h'.blocks x ≡ h.blocks x)
        × (h'.block_prev ≡ (
            if after == 0
            then assign h.block_prev nb a
            else assign (assign h.block_prev nb a) after nb))
  unfolding split_block mark_used
  split_fields room =
      let le = IsChain-le h.blocks c (a + 40 + had) hi (h.blocks a).next bs tail in
      let ends = next_struct_end_lem a size (omega arith) in
      let more = leb→gt (a + 40 + had) (next_struct_end a size) room in
      let self : (a == a) ≡ true = ≡→== a a refl in
      let same_end : ((a + 40) % 2 ^ 64 + had) % 2 ^ 64 ≡ a + 40 + had = omega arith in
      let nb_eq : (next_struct_end a size + 2 ^ 64 - 40) % 2 ^ 64 ≡ next_struct_end a size - 40 =
        omega arith in
      let left_eq : (a + 40 + had + 2 ^ 64 - next_struct_end a size % 2 ^ 64) % 2 ^ 64
          ≡ a + 40 + had - next_struct_end a size =
        omega arith in
      let apart : (a == next_struct_end a size - 40) ≡ false = ≢→== _ _ (omega arith) in
      let apart' : (next_struct_end a size - 40 == a) ≡ false = ≢→== _ _ (omega arith) in
      let self' : (next_struct_end a size - 40 == next_struct_end a size - 40) ≡ true =
        ≡→== _ _ refl in
      rw (self, same_end, room, nb_eq, left_eq, apart)
        (rw self, rw (apart', self'), λ x n n'. rw (≢→== x a n, ≢→== x _ n') (ground arith), refl)

  -- With room for another block, the rest of the bytes become a free block behind the taken ones.
  take_split :
      leb (a + 40 + had) (next_struct_end a size) ≡ false
      → Takes h (split_block a size (mark_used a h)) c lo hi cur a size bs
  take_split room =
      let le = IsChain-le h.blocks c (a + 40 + had) hi (h.blocks a).next bs tail in
      let ends = next_struct_end_lem a size (omega arith) in
      let more = leb→gt (a + 40 + had) (next_struct_end a size) room in
      let nb = next_struct_end a size - 40 in
      let h' = split_block a size (mark_used a h) in
      let (here, new, others, prevs) = split_fields room in
      let (prev_a, prev_nb, behind, outside) = back_behind nb (omega arith) (omega arith) in
      let (rest, alloc) =
        IsChain-ext h.blocks h'.blocks c (a + 40 + had) hi (h.blocks a).next bs
          (λ x l u. others x (omega arith) (omega arith)) tail in
      let whole : nb + 40 + (a + 40 + had - next_struct_end a size) ≡ a + 40 + had = omega arith in
      let from_nb =
        subst (λ (l : ℕ). IsChain h'.blocks c l hi (h.blocks a).next bs) (sym whole) rest in
      record {
        rest = nb ∷ bs;
        chain =
            rw (here, new)
              (
                chain.0,
                chain.1,
                chain.2,
                chain.3,
                chain.4,
                (refl, omega arith, omega arith, omega arith, chain.4, from_nb),
              );
        given = size;
        enough = omega arith;
        alloc = rw (here, new, alloc);
        ends = omega arith;
        back = λ p.
            subst (λ (pr : ℕ → ℕ). IsBack h.block_prev p (a ∷ bs) → IsBack pr p (a ∷ nb ∷ bs))
              (sym prevs) (λ b. (prev_a ∙ b.0, (prev_nb, behind b.1)));
        outside = record {
          same_block = λ x o. others x (omega (arith, chain.2)) (omega (arith, chain.2));
          same_prev = rw prevs outside;
        };
      }

  pub take_head : Takes h (split_block a size (mark_used a h)) c lo hi cur a size bs
  take_head = elim (Bool-cases (leb (a + 40 + had) (next_struct_end a size))) [
    | inl small ↦ take_whole small
    | inr room ↦ take_split room
  ]
