-- ===== src/Kheap/Tests.antt =====
-- Runs of the heap, and the theorems at concrete heaps.
use b0s.Base.{
  ℕ, ◌+◌, ◌*◌, ◌≡◌, refl, inl, inr, arith, ◌==◌, if◌then◌else◌, true, false, Option, some, [], ◌∷◌,
}
use b0s.Base.Result.{Result, ok, ◌>>=◌}
use b0s.Base.Word.{roundup}
use b0s.Kheap.{Block, Container, Kheap, PagePool, kmalloc, kfree, kheap_init, block_data}
use b0s.Kheap.Heap.{IsHeap}
use b0s.Kheap.Grow.{IsFresh}
use b0s.Kheap.Kmalloc.{Ends, kmalloc-Ends, pages_for}
use b0s.Kheap.Kfree.{FreeEnds, kfree-FreeEnds, kfree_stale}

-- Pages from an address on, one range behind the other.
abbrev counter : PagePool
counter = record {
  State = ℕ;
  vmm_alloc_between = λ pages st. ok (some st, st + pages * 4096);
  vmm_free = λ c pages st. ok st;
}

abbrev no_block : Block
no_block = record { size_in_bytes = 0; used = false; next = 0; container = 0 }

abbrev no_container : Container
no_container = record { size_in_bytes = 0; used_blocks = 0; next = 0; block = 0 }

abbrev empty : Kheap
empty = record {
  blocks = λ x. no_block;
  block_prev = λ x. 0;
  containers = λ x. no_container;
  container_prev = λ x. 0;
  heap = 0;
}

-- Two calls, and the first block given back and taken again.
abbrev run : Result (ℕ × ℕ × ℕ)
run = kheap_init counter 5 empty 4096 >>= λ (h₀, s₀). kmalloc counter 9 24 h₀ s₀ >>= λ (p, h₁, s₁).
    kmalloc counter 9 24 h₁ s₁ >>= λ (q, h₂, s₂).
    kfree counter p h₂ s₂ >>= λ (h₃, s₃). kmalloc counter 9 8 h₃ s₃ >>= λ (r, h₄, s₄). ok (p, q, r)

run_test : run ≡ ok (4176, 4256, 4176)
unfolding kheap_init kmalloc kfree roundup
run_test = refl

-- A container with a used, a used and a free block.
abbrev three : Kheap
three = record {
  blocks = λ x.
      if x == 4136
      then record { size_in_bytes = 24; used = true; next = 4200; container = 4096 }
      else (if x == 4200
          then record { size_in_bytes = 24; used = true; next = 4264; container = 4096 }
          else record { size_in_bytes = 20272; used = false; next = 0; container = 4096 });
  block_prev = λ x. if x == 4264 then 4200 else (if x == 4200 then 4136 else 0);
  containers = λ x. record { size_in_bytes = 20440; used_blocks = 2; next = 0; block = 4136 };
  container_prev = λ x. 0;
  heap = 4096;
}

three-IsHeap : IsHeap three ((4096, 4136 ∷ 4200 ∷ 4264 ∷ []) ∷ [])
three-IsHeap = (
  refl,
  omega arith,
  refl,
  record {
    chain = omega arith;
    bound = omega arith;
    counted = refl;
    back = (refl, (refl, (refl, tt)));
  },
  tt,
  refl,
)

-- A container with a free, a used and two used blocks.
abbrev broken : Kheap
broken = record three {
  blocks = λ x.
      if x == 4136
      then record { size_in_bytes = 24; used = false; next = 4200; container = 4096 }
      else (if x == 4200
          then record { size_in_bytes = 24; used = true; next = 4264; container = 4096 }
          else record { size_in_bytes = 20272; used = true; next = 0; container = 4096 });
}

IsFresh-pages :
    (c st' : ℕ)
    → ◌≡◌ {A = Result (Option ℕ × ℕ)}
        (ok (some 4096, 4096 + pages_for 100 * 4096))
        (ok (some c, st'))
    → IsFresh empty [] c (pages_for 100)
IsFresh-pages c st' e =
    let at : c ≡ 4096 = cc e in
    rw at (record {
      positive = omega arith;
      aligned = refl;
      some_pages = omega arith;
      bound = omega arith;
      clear = tt;
    })

kmalloc-Ends_example : Ends counter 2 100 empty 4096 []
kmalloc-Ends_example =
    kmalloc-Ends counter 2 100 empty 4096 [] refl (omega arith) tt (omega arith) (omega arith)
      IsFresh-pages

kfree-FreeEnds_example : FreeEnds counter three 0 4096 4200 (4136 ∷ 4200 ∷ 4264 ∷ []) [] []
kfree-FreeEnds_example =
    kfree-FreeEnds counter three 0 4096 4200 (4136 ∷ []) (4264 ∷ []) [] [] three-IsHeap refl
      (inl (inl (inr refl)))

kfree_stale_example :
    (h' : Kheap) × (kfree counter (block_data 4200) broken 0 ≡ ok (h', 0))
    × ((h'.blocks 4136).next ≡ 4264)
    × (block_data 4136 + (h'.blocks 4136).size_in_bytes ≡ 4200 + 40 + 24)
    × (h'.block_prev 4264 ≡ 4200)
kfree_stale_example =
    kfree_stale counter broken 0 4200 4136 4264 (omega arith) (omega arith) (omega arith)
      (omega arith) (omega arith) (omega arith) refl refl refl refl refl refl (omega arith)
