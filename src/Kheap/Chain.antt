-- ===== src/Kheap/Chain.antt =====
-- The blocks of a container as a list: in the order of their addresses, without overlap, each with
-- its data aligned, and what is allocated in them.
use b0s.Base.{ℕ, ◌+◌, ◌%◌, ◌<◌, ◌≤◌, ◌≡◌, refl, ◌∙◌, arith, if◌then◌else◌, List, [], ◌∷◌}
use b0s.Kheap.{Block}

-- The blocks `bs` of container `c`, from the pointer `cur` on, lie between `lo` and `hi`.
abbrev pub IsChain : (ℕ → Block) → ℕ → ℕ → ℕ → ℕ → List ℕ → Type 0
IsChain blocks c lo hi cur [] = (cur ≡ 0) × (lo ≤ hi)
IsChain blocks c lo hi cur (a ∷ bs) =
    (cur ≡ a)
    × (0 < a)
    × (lo ≤ a)
    × ((a + 40) % 16 ≡ 0)
    × ((blocks a).container ≡ c)
    × IsChain blocks c (a + 40 + (blocks a).size_in_bytes) hi (blocks a).next bs

-- Each block's `prev` is the block before, the first one's `p`.
abbrev pub IsBack : (ℕ → ℕ) → ℕ → List ℕ → Type 0
IsBack prev p [] = Unit
IsBack prev p (a ∷ bs) = (prev a ≡ p) × IsBack prev a bs

-- The used blocks, each with its size.
abbrev pub allocated : (ℕ → Block) → List ℕ → List (ℕ × ℕ)
allocated blocks [] = []
allocated blocks (a ∷ bs) =
    let rest = allocated blocks bs in
    if (blocks a).used then (a, (blocks a).size_in_bytes) ∷ rest else rest

pub IsChain-le :
    (blocks : ℕ → Block) (c lo hi cur : ℕ) (bs : List ℕ) → IsChain blocks c lo hi cur bs → lo ≤ hi
IsChain-le blocks c lo hi cur [] h = h.1
IsChain-le blocks c lo hi cur (a ∷ bs) (e, pos, le, align, own, rest) =
    let later =
      IsChain-le blocks c (a + 40 + (blocks a).size_in_bytes) hi (blocks a).next bs rest in
    omega arith

-- The same blocks, in a store that agrees between the bounds.
pub IsChain-ext :
    (blocks blocks' : ℕ → Block) (c lo hi cur : ℕ) (bs : List ℕ)
    → ((a : ℕ) → lo ≤ a → a < hi → blocks' a ≡ blocks a)
    → IsChain blocks c lo hi cur bs
    → IsChain blocks' c lo hi cur bs × (allocated blocks' bs ≡ allocated blocks bs)
IsChain-ext blocks blocks' c lo hi cur [] same h = (h, refl)
IsChain-ext blocks blocks' c lo hi cur (a ∷ bs) same (e, pos, le, align, own, rest) =
    let size = (blocks a).size_in_bytes in
    let later = IsChain-le blocks c (a + 40 + size) hi (blocks a).next bs rest in
    let here : blocks' a ≡ blocks a = same a le (omega arith) in
    let (tail, alloc) =
      IsChain-ext blocks blocks' c (a + 40 + size) hi (blocks a).next bs
        (λ x l u. same x (omega arith) u) rest in
    rw (here, alloc) ((e, pos, le, align, own, tail), refl)

-- A chain whose head is put back before a changed tail.
pub cons_IsChain :
    (blocks blocks' : ℕ → Block) (c lo hi cur a : ℕ) (bs bs' : List ℕ)
    → blocks' a ≡ blocks a
    → IsChain blocks c lo hi cur (a ∷ bs)
    → IsChain blocks' c (a + 40 + (blocks a).size_in_bytes) hi (blocks a).next bs'
    → IsChain blocks' c lo hi cur (a ∷ bs')
cons_IsChain blocks blocks' c lo hi cur a bs bs' here (e, pos, le, align, own, rest) tail =
    rw here (e, pos, le, align, own, tail)

-- The back pointers of a chain are those of another store that agrees from the first block on.
pub IsBack-ext :
    (blocks : ℕ → Block) (prev prev' : ℕ → ℕ) (p c lo hi cur : ℕ) (bs : List ℕ)
    → ((a : ℕ) → lo ≤ a → a < hi → prev' a ≡ prev a)
    → IsChain blocks c lo hi cur bs
    → IsBack prev p bs
    → IsBack prev' p bs
IsBack-ext blocks prev prev' p c lo hi cur [] same h b = tt
IsBack-ext blocks prev prev' p c lo hi cur (a ∷ bs) same (e, pos, le, align, own, rest) b =
    let size = (blocks a).size_in_bytes in
    let later = IsChain-le blocks c (a + 40 + size) hi (blocks a).next bs rest in
    (
      same a le (omega arith) ∙ b.0,
      IsBack-ext blocks prev prev' a c (a + 40 + size) hi (blocks a).next bs
          (λ x l u. same x (omega arith) u) rest b.1,
    )
