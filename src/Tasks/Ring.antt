-- ===== src/Tasks/Ring.antt =====
-- kernel/lib/list/list.h: rings of nodes with links both ways, in a store of the two links of each
-- node address. Macros: `list_entry` is the address of the structure around a node.
pub mod Links
use b0s.Base.{ℕ, ◌==◌, if◌then◌else◌, Bool}

-- `struct list_head` of each node.
pub record Heads : Type 0 where
  pub next : ℕ → ℕ
  pub prev : ℕ → ℕ

abbrev pub null : ℕ
null = 0

abbrev pub set_link : (ℕ → ℕ) → ℕ → ℕ → ℕ → ℕ
set_link links node target a = if a == node then target else links a

unfoldable pub init_list_head : ℕ → Heads → Heads
init_list_head list h = record {
  next = set_link h.next list list;
  prev = set_link h.prev list list;
}

-- `__list_add`
unfoldable pub list_add_between : ℕ → ℕ → ℕ → Heads → Heads
list_add_between el prev next h = record {
  next = set_link (set_link h.next el next) prev el;
  prev = set_link (set_link h.prev next el) el prev;
}

unfoldable pub list_add : ℕ → ℕ → Heads → Heads
unfolding list_add_between
list_add el head h = list_add_between el head (h.next head) h

unfoldable pub list_add_tail : ℕ → ℕ → Heads → Heads
unfolding list_add_between
list_add_tail el head h = list_add_between el (h.prev head) head h

-- `__list_del`
unfoldable pub list_del_between : ℕ → ℕ → Heads → Heads
list_del_between prev next h = record {
  next = set_link h.next prev next;
  prev = set_link h.prev next prev;
}

unfoldable pub list_del : ℕ → Heads → Heads
unfolding list_del_between
list_del entry h =
    let h' = list_del_between (h.prev entry) (h.next entry) h in
    record { next = set_link h'.next entry null; prev = set_link h'.prev entry null }

unfoldable pub list_empty : ℕ → Heads → Bool
list_empty head h = h.next head == head
