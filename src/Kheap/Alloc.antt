-- ===== src/Kheap/Alloc.antt =====
-- `try_alloc_block` on a chain of blocks: the first block that fits is taken, and split if it has
-- room for another.
use b0s.Base.{
  ℕ, zero, suc, ◌+◌, ◌%◌, ◌^◌, ◌<◌, ◌≤◌, ◌≡◌, ◌≢◌, ◌⊎◌, ap, ◌∙◌, inl, inr, arith, leb, ≢→==, ≡→==,
  false, not, ◌&&◌, Bool-cases, List, [], ◌∷◌, length, All,
}
use b0s.Base.Result.{ok}
use mathlib.Core.List.{Perm}
use mathlib.Core.List.Perm
use b0s.Kheap.{Block, Kheap, find_free, split_block, mark_used}
use b0s.Kheap.Chain.{IsChain, IsBack, allocated, cons_IsChain}
use b0s.Kheap.Take.{Takes, KeepsOutside, take_head}

-- What the search and the taking do to a whole chain: no block fits and nothing is taken, or one is.
pub record Allocates (h h' : Kheap) (c lo hi cur size a : ℕ) (bs : List ℕ) : Type 0 where
  pub blocks' : List ℕ
  pub chain : IsChain h'.blocks c lo hi cur blocks'
  pub given : ℕ
  pub enough : size ≤ given
  pub positive : 0 < a
  pub aligned : (a + 40) % 16 ≡ 0
  pub own : (h.blocks a).container ≡ c
  pub inside : (lo ≤ a) × (a + 40 + given ≤ hi)
  pub alloc : Perm (allocated h'.blocks blocks') ((a, given) ∷ allocated h.blocks bs)
  pub count : length (allocated h'.blocks blocks') ≡ suc (length (allocated h.blocks bs))
  pub back : (p : ℕ) → IsBack h.block_prev p bs → IsBack h'.block_prev p blocks'
  pub outside : KeepsOutside h h' lo hi

-- A block that the search passes over.
abbrev pub IsUnfit : (ℕ → Block) → ℕ → ℕ → Type 0
IsUnfit blocks size a = (not (blocks a).used && leb size (blocks a).size_in_bytes) ≡ false

take-Allocates :
    (h h' : Kheap) (c lo hi cur size x : ℕ) (bs : List ℕ)
    → IsChain h.blocks c lo hi cur (x ∷ bs)
    → (h.blocks x).used ≡ false
    → Takes h h' c lo hi cur x size bs
    → Allocates h h' c lo hi cur size x (x ∷ bs)
take-Allocates h h' c lo hi cur size x bs chain idle t = record {
  blocks' = x ∷ t.rest;
  chain = t.chain;
  given = t.given;
  enough = t.enough;
  positive = chain.1;
  aligned = chain.3;
  own = chain.4;
  inside = (chain.2, t.ends);
  alloc = rw (idle, t.alloc) (Perm.refl _);
  count = rw (idle, t.alloc);
  back = t.back;
  outside = t.outside;
}

-- An allocation in the tail of a chain is one in the chain.
later-Allocates :
    (h h' : Kheap) (c lo hi cur size x a : ℕ) (bs : List ℕ)
    → IsChain h.blocks c lo hi cur (x ∷ bs)
    → Allocates h h' c (x + 40 + (h.blocks x).size_in_bytes) hi (h.blocks x).next size a bs
    → Allocates h h' c lo hi cur size a (x ∷ bs)
later-Allocates h h' c lo hi cur size x a bs chain t =
    let here = t.outside.same_block x (inl (omega arith)) in
    let own : ℕ × ℕ = (x, (h.blocks x).size_in_bytes) in
    record {
      blocks' = x ∷ t.blocks';
      chain = cons_IsChain h.blocks h'.blocks c lo hi cur x bs t.blocks' here chain t.chain;
      given = t.given;
      enough = t.enough;
      positive = t.positive;
      aligned = t.aligned;
      own = t.own;
      inside = (omega (arith, chain.2, t.inside.0), t.inside.1);
      alloc = elim (Bool-cases (h.blocks x).used) [
        | inl busy ↦
            rw (here, busy) (Perm.trans (Perm.cons own t.alloc) (Perm.swap (a, t.given) own _))
        | inr idle ↦ rw (here, idle) t.alloc
      ];
      count = elim (Bool-cases (h.blocks x).used) [
        | inl busy ↦ rw (here, busy) (ap suc t.count)
        | inr idle ↦ rw (here, idle) t.count
      ];
      back = λ p b.
          (t.outside.same_prev x (inl (omega arith)) (omega (arith, chain.1)) ∙ b.0, t.back x b.1);
      outside = record {
        same_block = λ y o. t.outside.same_block y (wider y o);
        same_prev = λ y o n. t.outside.same_prev y (wider y o) n;
      };
    }
  where
    wider : (y : ℕ) → (y < lo) ⊎ (hi ≤ y) → (y < x + 40 + (h.blocks x).size_in_bytes) ⊎ (hi ≤ y)
    wider y (inl l) = inl (omega (arith, chain.2))
    wider y (inr l) = inr l

-- The search of a chain, and what taking the block that it finds does.
pub find_free-Allocates :
    (rounds : ℕ) (h : Kheap) (c lo hi cur size : ℕ) (bs : List ℕ)
    → IsChain h.blocks c lo hi cur bs
    → hi + 4096 < 2 ^ 64
    → length bs < rounds
    → ((find_free rounds h.blocks cur size ≡ ok 0) × All (IsUnfit h.blocks size) bs)
      ⊎ ((a : ℕ) × (find_free rounds h.blocks cur size ≡ ok a)
          × Allocates h (split_block a size (mark_used a h)) c lo hi cur size a bs)
unfolding find_free
find_free-Allocates zero h c lo hi cur size bs chain bound lt = absurd (omega arith)
find_free-Allocates (suc rounds) h c lo hi cur size [] chain bound lt =
    inl (rw (≡→== cur 0 chain.0), tt)
find_free-Allocates (suc rounds) h c lo hi cur size (x ∷ bs) chain bound lt =
    let (at, pos, low, align, own, rest) = chain in
    let there : cur ≢ 0 = omega arith in
    let next_lo = x + 40 + (h.blocks x).size_in_bytes in
    let later =
      find_free-Allocates rounds h c next_lo hi (h.blocks x).next size bs rest bound
        (omega arith) in
    elim (Bool-cases (not (h.blocks x).used && leb size (h.blocks x).size_in_bytes)) [
      | inl fit ↦
          let idle : (h.blocks x).used ≡ false = ground arith in
          let t = take_head h c lo hi cur x size bs chain bound (ground arith) in
          inr (
            x,
            rw (≢→== cur 0 there, at, fit),
            take-Allocates h _ c lo hi cur size x bs chain idle t,
          )
      | inr unfit ↦ elim later [
        | inl (none, all) ↦ inl (rw (≢→== cur 0 there, at, unfit) none, (unfit, all))
        | inr (a, found, t) ↦ inr (
          a,
          rw (≢→== cur 0 there, at, unfit) found,
          later-Allocates h _ c lo hi cur size x a bs chain t,
        )
      ]
    ]
