-- ===== src/Kheap/Unlink.antt =====
-- Taking a container out of the list of containers.
use b0s.Base.{ℕ, ◌<◌, ◌≡◌, ◌≢◌, ◌∙◌, refl, sym, inl, inr, arith, List, [], ◌∷◌, ◌++◌, All}
use mathlib.Core.Path.{subst}
use b0s.Kheap.{Kheap, unlink_container}
use b0s.Kheap.Heap.{IsContainer, IsHeapFrom, IsHeap, Contents, AllApart, AreApart, heap_allocated}

-- What is allocated is read off the blocks alone.
pub heap_allocated_same :
    (h h' : Kheap) (cs : Contents)
    → h'.blocks ≡ h.blocks
    → heap_allocated h' cs ≡ heap_allocated h cs
heap_allocated_same h h' [] same = refl
heap_allocated_same h h' ((c, bs) ∷ cs) same = rw (same, heap_allocated_same h h' cs same) refl

-- No container of the list stands at `x`.
abbrev NoneAt : ℕ → Contents → Type 0
NoneAt x cs = All (λ (e : ℕ × List ℕ). e.0 ≢ x) cs

AllApart-NoneAt : (h : Kheap) (d : ℕ) (cs : Contents) → AllApart h d cs → NoneAt d cs
AllApart-NoneAt h d [] apart = tt
AllApart-NoneAt h d ((e, es) ∷ cs) apart = (differ apart.0, AllApart-NoneAt h d cs apart.1)
  where
    differ : AreApart h d e → e ≢ d
    differ (inl a) = omega arith
    differ (inr a) = omega arith

-- The list without the container in the middle.
AllApart-drop :
    (h : Kheap) (d : ℕ) (e : ℕ × List ℕ) (front cs : Contents)
    → AllApart h d (front ++ e ∷ cs)
    → AllApart h d (front ++ cs)
AllApart-drop h d e [] cs apart = apart.1
AllApart-drop h d e (f ∷ front) cs apart = (apart.0, AllApart-drop h d e front cs apart.1)

module _ (h : Kheap) (c : ℕ) where
  abbrev prev : ℕ
  prev = h.container_prev c

  abbrev next : ℕ
  next = (h.containers c).next

  abbrev left : Kheap
  left = unlink_container c h

  same_node :
      (left.blocks ≡ h.blocks)
      × (left.block_prev ≡ h.block_prev)
      × ((x : ℕ) → (left.containers x).size_in_bytes ≡ (h.containers x).size_in_bytes)
      × ((x : ℕ) → (left.containers x).used_blocks ≡ (h.containers x).used_blocks)
      × ((x : ℕ) → (left.containers x).block ≡ (h.containers x).block)
  unfolding unlink_container
  same_node = (refl, refl, λ x. ground arith, λ x. ground arith, λ x. ground arith)

  link_fields :
      ((x : ℕ) → x ≢ prev → (left.containers x).next ≡ (h.containers x).next)
      × (prev ≢ 0 → (left.containers prev).next ≡ next)
      × ((x : ℕ) → x ≢ next → left.container_prev x ≡ h.container_prev x)
      × (next ≢ 0 → left.container_prev next ≡ prev)
      × (prev ≡ 0 → left.heap ≡ next)
      × (prev ≢ 0 → left.heap ≡ h.heap)
  unfolding unlink_container
  link_fields = (
    λ x n. ground arith,
    λ n. ground arith,
    λ x n. ground arith,
    λ n. ground arith,
    λ e. ground arith,
    λ n. ground arith,
  )

  left-IsContainer : (d : ℕ) (ds : List ℕ) → IsContainer h d ds → IsContainer left d ds
  left-IsContainer d ds k =
      let (blocks_eq, prev_eq, sizes, counts, firsts) = same_node in
      record {
        chain = rw (blocks_eq, sizes d, firsts d) k.chain;
        bound = rw (sizes d) k.bound;
        counted = rw (blocks_eq, counts d) k.counted;
        back = rw prev_eq k.back;
      }

  left_apart : (d : ℕ) (cs : Contents) → AllApart h d cs → AllApart left d cs
  left_apart d [] apart = tt
  left_apart d ((e, es) ∷ cs) apart =
      let sizes = same_node.2 in (rw (sizes d, sizes e) apart.0, left_apart d cs apart.1)

  -- A part of the list away from the removed container is as before.
  left_part :
      (p cur : ℕ) (cs : Contents)
      → NoneAt prev cs
      → NoneAt next cs
      → IsHeapFrom h p cur cs
      → IsHeapFrom left p cur cs
  left_part p cur [] out out' k = k
  left_part p cur ((d, ds) ∷ cs) out out' (at, pos, link, one, others, rest) = (
    at,
    pos,
    link_fields.2 d out'.0 ∙ link,
    left-IsContainer d ds one,
    left_apart d cs others,
    rw (link_fields.0 d out.0) (left_part d (h.containers d).next cs out.1 out'.1 rest),
  )

  -- What follows the removed container hangs on the one before it.
  left_tail :
      (cs : Contents) → NoneAt prev cs → IsHeapFrom h c next cs → IsHeapFrom left prev next cs
  left_tail [] out k = k
  left_tail ((d, ds) ∷ cs) out (at, pos, link, one, others, rest) =
      let out' : NoneAt next cs = rw at (AllApart-NoneAt h d cs others) in
      let link' : left.container_prev d ≡ prev = rw (← at) (link_fields.3 (omega arith)) in
      (
        at,
        pos,
        link',
        left-IsContainer d ds one,
        left_apart d cs others,
        rw (link_fields.0 d out.0) (left_part d (h.containers d).next cs out.1 out' rest),
      )

  -- The neighbours of the removed container are not a container that all are apart from.
  next_other :
      (d p cur : ℕ) (bs : List ℕ) (front cs : Contents)
      → 0 < d
      → AllApart h d (front ++ (c, bs) ∷ cs)
      → IsHeapFrom h p cur (front ++ (c, bs) ∷ cs)
      → d ≢ next
  next_other d p cur bs [] [] pos apart k = omega (arith, k.5)
  next_other d p cur bs [] (e ∷ cs) pos apart k =
      let ne = (AllApart-NoneAt h d (e ∷ cs) apart.1).0 in omega (arith, k.5.0)
  next_other d p cur bs ((f, fs) ∷ front) cs pos apart k =
      next_other d f (h.containers f).next bs front cs pos apart.1 k.5

  prev_other :
      (d p cur e : ℕ) (bs es : List ℕ) (front cs : Contents)
      → AllApart h d ((e, es) ∷ front ++ (c, bs) ∷ cs)
      → IsHeapFrom h p cur ((e, es) ∷ front ++ (c, bs) ∷ cs)
      → d ≢ prev
  prev_other d p cur e bs es [] cs apart k =
      let ne = (AllApart-NoneAt h d ((e, es) ∷ []) (apart.0, tt)).0 in omega (arith, k.5.2)
  prev_other d p cur e bs es ((f, fs) ∷ front) cs apart k =
      prev_other d e (h.containers e).next f bs fs front cs apart.1 k.5

  -- The list without the container, when another one stands before it.
  left_front :
      (p cur d : ℕ) (bs ds : List ℕ) (front cs : Contents)
      → IsHeapFrom h p cur ((d, ds) ∷ front ++ (c, bs) ∷ cs)
      → IsHeapFrom left p cur ((d, ds) ∷ front ++ cs) × (prev ≢ 0)
  left_front p cur d bs ds [] cs (at, pos, link, one, others, rest) =
      let is_prev : prev ≡ d = rest.2 in
      let some_prev : prev ≢ 0 = omega arith in
      let out : NoneAt prev cs = rw is_prev (AllApart-NoneAt h d cs others.1) in
      let apart_next = next_other d d (h.containers d).next bs [] cs pos others rest in
      let tail = left_tail cs out rest.5 in
      let follows : (left.containers d).next ≡ next = rw (← is_prev) (link_fields.1 some_prev) in
      (
        (
          at,
          pos,
          link_fields.2 d apart_next ∙ link,
          left-IsContainer d ds one,
          left_apart d cs others.1,
          rw follows (subst (λ n. IsHeapFrom left n next cs) is_prev tail),
        ),
        some_prev,
      )
  left_front p cur d bs ds ((f, fs) ∷ front) cs (at, pos, link, one, others, rest) =
      let apart_prev = prev_other d d (h.containers d).next f bs fs front cs others rest in
      let apart_next =
        next_other d d (h.containers d).next bs ((f, fs) ∷ front) cs pos others rest in
      let (inner, some_prev) = left_front d (h.containers d).next f bs fs front cs rest in
      (
        (
          at,
          pos,
          link_fields.2 d apart_next ∙ link,
          left-IsContainer d ds one,
          left_apart d ((f, fs) ∷ front ++ cs)
              (AllApart-drop h d (c, bs) ((f, fs) ∷ front) cs others),
          rw (link_fields.0 d apart_prev) inner,
        ),
        some_prev,
      )

  -- The heap without the container, wherever it stood.
  pub unlink_container-IsHeap :
      (bs : List ℕ) (front cs : Contents)
      → IsHeap h (front ++ (c, bs) ∷ cs)
      → IsHeap left (front ++ cs)
  unlink_container-IsHeap bs [] cs (at, pos, link, one, others, rest) =
      let out : NoneAt prev cs = none_at_null cs rest in
      subst (λ n. IsHeapFrom left 0 n cs) (sym (link_fields.4 link))
        (subst (λ n. IsHeapFrom left n next cs) link (left_tail cs out rest))
    where
      positive : (p cur : ℕ) (ds : Contents) → IsHeapFrom h p cur ds → NoneAt prev ds
      positive p cur [] k = tt
      positive p cur ((d, xs) ∷ ds) k =
          (omega (arith, k.1, link), positive d (h.containers d).next ds k.5)

      none_at_null : (ds : Contents) → IsHeapFrom h c next ds → NoneAt prev ds
      none_at_null ds k = positive c next ds k
  unlink_container-IsHeap bs ((d, ds) ∷ front) cs k =
      let (inner, some_prev) = left_front 0 h.heap d bs ds front cs k in
      subst (λ n. IsHeapFrom left 0 n ((d, ds) ∷ front ++ cs)) (sym (link_fields.5 some_prev)) inner
