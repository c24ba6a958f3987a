-- ===== src/Paging/Mapped.antt =====
-- Mapping a page whose page tables are there.
use b0s.Base.{
  ℕ, ◌+◌, ◌*◌, ◌/◌, ◌%◌, ◌^◌, ◌<◌, ◌≤◌, ◌≡◌, ◌⊎◌, sym, ap, ◌∙◌, arith, false, bit_and, bit_or,
}
use b0s.Base.Word.{u64, page_addr, page_size}
use b0s.Base.Align.{page_addr_lem, bit_and_low, bit_or_low}
use b0s.Base.Result.{ok}
use b0s.Memory.{Memory, load64, store64}
use b0s.Memory.Frame.{load-store_self, load-store_apart}
use b0s.Bitmap.{Compiler}
use b0s.Pmm.State.{Pmm}
use b0s.Paging.{mmu_translate_4k, mmu_map_page, ensure_table, entry_at, table_of, is_absent}
use b0s.Paging.{pml4e_index, pdpt_index, pdt_index, pt_index}

-- The addresses of the four entries on the way to the page of `va`.
abbrev pub pml4_entry : Memory → ℕ → ℕ → ℕ
pml4_entry m dir va = entry_at dir (pml4e_index va)

abbrev pub pdpt_entry : Memory → ℕ → ℕ → ℕ
pdpt_entry m dir va = entry_at (table_of (load64 m (pml4_entry m dir va))) (pdpt_index va)

abbrev pub pdt_entry : Memory → ℕ → ℕ → ℕ
pdt_entry m dir va = entry_at (table_of (load64 m (pdpt_entry m dir va))) (pdt_index va)

abbrev pub pt_entry : Memory → ℕ → ℕ → ℕ
pt_entry m dir va = entry_at (table_of (load64 m (pdt_entry m dir va))) (pt_index va)

-- Two entries share no byte.
abbrev pub AreApart : ℕ → ℕ → Type 0
AreApart a b = (a + 8 ≤ b) ⊎ (b + 8 ≤ a)

-- The three upper entries are present, and the last one is none of them.
pub record HasTables (m : Memory) (dir va : ℕ) : Type 0 where
  pub pml4_present : is_absent (load64 m (pml4_entry m dir va)) ≡ false
  pub pdpt_present : is_absent (load64 m (pdpt_entry m dir va)) ≡ false
  pub pdt_present : is_absent (load64 m (pdt_entry m dir va)) ≡ false
  pub pml4_apart : AreApart (pt_entry m dir va) (pml4_entry m dir va)
  pub pdpt_apart : AreApart (pt_entry m dir va) (pdpt_entry m dir va)
  pub pdt_apart : AreApart (pt_entry m dir va) (pdt_entry m dir va)

-- With the tables there no page is allocated: the last entry is returned and replaced.
pub mmu_map_page-HasTables :
    (c : Compiler) (dir va pa perm : ℕ) (s : Pmm)
    → HasTables s.memory dir va
    → let entry = pt_entry s.memory dir va in
      mmu_map_page c dir va pa perm s
      ≡ ok (load64 s.memory entry, record s { memory = store64 s.memory entry (bit_or pa perm) })
unfolding mmu_map_page ensure_table
mmu_map_page-HasTables c dir va pa perm s t = rw (t.pml4_present, t.pdpt_present, t.pdt_present)

-- A store into the last entry leaves the way to it.
mmu_translate_4k-store :
    (m : Memory) (dir va v : ℕ)
    → HasTables m dir va
    → mmu_translate_4k (store64 m (pt_entry m dir va) v) dir va
      ≡ bit_or (page_addr (u64 v) page_size) (bit_and va 4095)
unfolding mmu_translate_4k
mmu_translate_4k-store m dir va v t =
    let e = pt_entry m dir va in
    rw (
      load-store_apart 8 8 m e (pml4_entry m dir va) v (turn t.pml4_apart),
      load-store_apart 8 8 m e (pdpt_entry m dir va) v (turn t.pdpt_apart),
      load-store_apart 8 8 m e (pdt_entry m dir va) v (turn t.pdt_apart),
      load-store_self 8 m e v,
      t.pml4_present,
      t.pdpt_present,
      t.pdt_present,
    )
  where
    turn : {a b : ℕ} → AreApart a b → (b + 8 ≤ a) ⊎ (a + 8 ≤ b)
    turn h = omega arith

-- A page number and an offset, put together by `|`.
page_or : (pa low : ℕ) → pa < 2 ^ 64 → pa % 4096 ≡ 0 → low < 4096 → bit_or pa low ≡ pa + low
page_or pa low lt aligned h =
    let whole : pa / 4096 * 2 ^ 12 ≡ pa = omega arith in
    let same = bit_or_low 52 12 (pa / 4096) low (omega arith) h in
    ap (λ (t : ℕ). bit_or t low) (sym whole) ∙ same ∙ omega arith

-- The translation after `mmu_map_page` of an aligned page.
pub mapped_translation :
    (dir va pa perm : ℕ) (s : Pmm)
    → HasTables s.memory dir va
    → va < 2 ^ 64
    → pa < 2 ^ 64
    → pa % 4096 ≡ 0
    → perm < 4096
    → mmu_translate_4k (store64 s.memory (pt_entry s.memory dir va) (bit_or pa perm)) dir va
      ≡ pa + va % 4096
mapped_translation dir va pa perm s t va_lt pa_lt aligned small =
    let entry : u64 (bit_or pa perm) ≡ pa + perm =
      omega (arith, page_or pa perm pa_lt aligned small) in
    let page : page_addr (u64 (bit_or pa perm)) page_size ≡ pa =
      ap (λ (t : ℕ). page_addr t page_size) entry
      ∙ page_addr_lem (pa + perm) (omega arith)
      ∙ omega arith in
    let offset : bit_and va 4095 ≡ va % 4096 = bit_and_low 64 12 va va_lt in
    mmu_translate_4k-store s.memory dir va (bit_or pa perm) t
    ∙ rw (page, offset) (page_or pa (va % 4096) pa_lt aligned (omega arith))
