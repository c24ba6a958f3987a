-- ===== src/Paging/Tests.antt =====
-- The page tables of address 0x5123, one table a page from 0x1000 on.
use b0s.Base.{
  ◌^◌, ◌/◌, ℕ, zero, suc, ◌*◌, ◌<◌, ◌≤◌, ◌∙◌, true, false, ◌+◌, ◌%◌, ◌≡◌, ◌==◌, refl, inr, arith,
  [], List, ◌∷◌, ap, sym, if◌then◌else◌,
}
use b0s.Base.Word.{page_addr, higher_half_start}
use b0s.Base.Result.{ok}
use b0s.Memory.{Memory, load64, load, read_byte}
use b0s.Bitmap.Tests.{x86_compiler}
use b0s.Pmm.State.{Pmm}
use b0s.Paging.{mmu_map_page, mmu_translate_4k, is_absent}
use b0s.Paging.Mapped.{HasTables, pt_entry}
use b0s.Memory.Frame.{load_ext}
use b0s.Paging.Kept.{mmu_map_page-IsTree}
use b0s.Paging.Tree.{IsTree, HasPdpt, HasPdt, HasPt, pdpt_table, pdt_table, pt_table, index-lt}
use b0s.Paging.{table_of, pml4e_index, pdpt_index, pdt_index, entry_at}

-- Entry 0 of the tables at 0x1000, 0x2000 and 0x3000 leads to the next table.
abbrev memory : Memory
memory a =
    if a == higher_half_start + 0x1000
    then 1
    else (if a == higher_half_start + 0x1001
        then 0x20
        else (if a == higher_half_start + 0x2000
            then 1
            else (if a == higher_half_start + 0x2001
                then 0x30
                else (if a == higher_half_start + 0x3000
                    then 1
                    else (if a == higher_half_start + 0x3001 then 0x40 else 0)))))

abbrev state : Pmm
state = record { pmap = []; pmm_vma_stop = 0; memory = memory }

memory-HasTables : HasTables memory (higher_half_start + 0x1000) 0x5123
unfolding load read_byte page_addr
memory-HasTables = record {
  pml4_present = refl;
  pdpt_present = refl;
  pdt_present = refl;
  pml4_apart = inr (omega arith);
  pdpt_apart = inr (omega arith);
  pdt_apart = inr (omega arith);
}

abbrev owner : ℕ → List ℕ
owner t =
    if t == higher_half_start + 0x2000
    then 0 ∷ []
    else (if t == higher_half_start + 0x3000
        then 0 ∷ 0 ∷ []
        else (if t == higher_half_start + 0x4000 then 0 ∷ 0 ∷ 0 ∷ [] else []))

abbrev table_at : ℕ → ℕ
table_at n = higher_half_start + n * 0x1000

blank : (n a : ℕ) → n < 5 → table_at n + 8 ≤ a → a < table_at (n + 1) → memory a ≡ 0
blank n a ln lo hi = ground arith

zeros : (a : ℕ) → load64 (λ b. 0) a ≡ 0
unfolding load read_byte
zeros a = refl

-- Every entry of a table but its first is absent.
entry-zero :
    (n i : ℕ) → n < 5 → i < 512 → is_absent (load64 memory (table_at n + 8 * i)) ≡ false → i ≡ 0
entry-zero n zero ln li present = refl
entry-zero n (suc i) ln li present =
    let none : load64 memory (table_at n + 8 * suc i) ≡ 0 =
      load_ext 8 memory (λ a. 0) _ (λ a lo hi. blank n a ln (omega arith) (omega arith))
      ∙ zeros _ in
    let absent : is_absent (load64 memory (table_at n + 8 * suc i)) ≡ true = rw none refl in
    ground (arith, present, absent)

abbrev dir : ℕ
dir = higher_half_start + 0x1000

-- The entries of an address that are present are the first of their tables.
first_pdpt : (va : ℕ) → va < 2 ^ 64 → HasPdpt memory dir va → pml4e_index va ≡ 0
first_pdpt va lt h =
    entry-zero 1 (pml4e_index va) (omega arith) (index-lt (va / 2 ^ 39) (omega arith)) h

at_pdpt : (va : ℕ) → va < 2 ^ 64 → HasPdpt memory dir va → pdpt_table memory dir va ≡ table_at 2
unfolding load read_byte page_addr
at_pdpt va lt h = ap (λ (i : ℕ). table_of (load64 memory (entry_at dir i))) (first_pdpt va lt h)

first_pdt : (va : ℕ) → va < 2 ^ 64 → HasPdt memory dir va → pdpt_index va ≡ 0
first_pdt va lt (p, h) =
    let moved =
      ap (λ (a : ℕ). is_absent (load64 memory (entry_at a (pdpt_index va)))) (at_pdpt va lt p) in
    entry-zero 2 (pdpt_index va) (omega arith) (index-lt (va / 2 ^ 30) (omega arith))
      (sym moved ∙ h)

at_pdt : (va : ℕ) → va < 2 ^ 64 → HasPdt memory dir va → pdt_table memory dir va ≡ table_at 3
unfolding load read_byte page_addr
at_pdt va lt (p, h) =
    ap (λ (a : ℕ). table_of (load64 memory (entry_at a (pdpt_index va)))) (at_pdpt va lt p)
    ∙ ap (λ (i : ℕ). table_of (load64 memory (entry_at (table_at 2) i))) (first_pdt va lt (p, h))

first_pt : (va : ℕ) → va < 2 ^ 64 → HasPt memory dir va → pdt_index va ≡ 0
first_pt va lt (p, h) =
    let moved =
      ap (λ (a : ℕ). is_absent (load64 memory (entry_at a (pdt_index va)))) (at_pdt va lt p) in
    entry-zero 3 (pdt_index va) (omega arith) (index-lt (va / 2 ^ 21) (omega arith)) (sym moved ∙ h)

at_pt : (va : ℕ) → va < 2 ^ 64 → HasPt memory dir va → pt_table memory dir va ≡ table_at 4
unfolding load read_byte page_addr
at_pt va lt (p, h) =
    ap (λ (a : ℕ). table_of (load64 memory (entry_at a (pdt_index va)))) (at_pdt va lt p)
    ∙ ap (λ (i : ℕ). table_of (load64 memory (entry_at (table_at 3) i))) (first_pt va lt (p, h))

memory-IsTree : IsTree memory dir owner
unfolding load read_byte page_addr
memory-IsTree = record {
  dir_aligned = refl;
  dir_owner = refl;
  pdpt_owner = λ va lt h. let e4 = first_pdpt va lt h in ap owner (at_pdpt va lt h) ∙ (rw e4 refl);
  pdt_owner = λ va lt (p, h).
      let e4 = first_pdpt va lt p in
      let e3 = first_pdt va lt (p, h) in ap owner (at_pdt va lt (p, h)) ∙ rw (e4, e3) refl;
  pt_owner = λ va lt ((q, p), h).
      let e4 = first_pdpt va lt q in
      let e3 = first_pdt va lt (q, p) in
      let e2 = first_pt va lt ((q, p), h) in
      ap owner (at_pt va lt ((q, p), h)) ∙ rw (e4, e3, e2) refl;
}

mmu_map_page-IsTree_example :
    (s' : Pmm) × (mmu_map_page x86_compiler dir 0x5123 0x7000 3 state
      ≡ ok (load64 memory (pt_entry memory dir 0x5123), s'))
    × (mmu_translate_4k s'.memory dir 0x5123 ≡ 0x7000 + 0x5123 % 4096)
    × (mmu_translate_4k s'.memory dir 0x9000 ≡ mmu_translate_4k memory dir 0x9000)
    × IsTree s'.memory dir owner
unfolding load read_byte page_addr
mmu_map_page-IsTree_example =
    mmu_map_page-IsTree x86_compiler dir 0x5123 0x9000 0x7000 3 state owner memory-IsTree
      ((refl, refl), refl) (omega arith) (omega arith) (omega arith) (omega arith) refl
      (omega arith)
