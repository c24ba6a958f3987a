-- ===== src/Tasks/Ring/Links.antt =====
-- Adding a node to a ring and taking it out.
use b0s.Base.{ℕ, ◌≡◌, ◌≢◌, sym, arith}
use b0s.Tasks.Ring.{Heads, null, list_add, list_del, list_add_between, list_del_between}

-- The links of a node agree with those of its neighbours.
abbrev pub IsLinked : Heads → ℕ → Type 0
IsLinked h a = (h.prev (h.next a) ≡ a) × (h.next (h.prev a) ≡ a)

-- No other node leads to `el`. The node may lead to itself, as `INIT_LIST_HEAD` leaves it.
abbrev pub IsLoose : Heads → ℕ → Type 0
IsLoose h el = (a : ℕ) → a ≢ el → (h.next a ≢ el) × (h.prev a ≢ el)

-- `list_add` of a node that no other node leads to, as `INIT_LIST_HEAD` leaves it, keeps a ring linked
-- at each of its nodes, links the new node, and puts it right behind the head.
pub list_add-IsLinked :
    (el head : ℕ) (h : Heads)
    → el ≢ head
    → IsLoose h el
    → IsLinked h head
    → let h' = list_add el head h in
      (h'.next head ≡ el)
      × (h'.next el ≡ h.next head)
      × IsLinked h' el
      × ((a : ℕ) → a ≢ el → IsLinked h a → IsLinked h' a)
unfolding list_add list_add_between
list_add-IsLinked el head h ne loose ring =
    let out : head ≢ el = λ e. ne (sym e) in
    (
      ground arith,
      ground arith,
      (ground (arith, loose head out), ground (arith, loose head out)),
      λ a other linked. (
        ground (arith, loose head out, loose a other, ring.0, ring.1, linked.0, linked.1),
        ground (arith, loose head out, loose a other, ring.0, ring.1, linked.0, linked.1),
      ),
    )

-- `list_del` of a node that no other node led to before `list_add` put it behind a linked head gives
-- every other node its former links back, and leaves that node without any.
pub list_del-list_add :
    (el head : ℕ) (h : Heads)
    → el ≢ head
    → IsLoose h el
    → IsLinked h head
    → let h' = list_del el (list_add el head h) in
      (h'.next el ≡ null)
      × (h'.prev el ≡ null)
      × ((a : ℕ) → a ≢ el → (h'.next a ≡ h.next a) × (h'.prev a ≡ h.prev a))
unfolding list_add list_del list_add_between list_del_between
list_del-list_add el head h ne loose ring =
    let out : head ≢ el = λ e. ne (sym e) in
    (
      ground arith,
      ground arith,
      λ a other. (
        ground (arith, loose head out, ring.0, ring.1),
        ground (arith, loose head out, ring.0, ring.1),
      ),
    )
