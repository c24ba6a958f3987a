-- ===== src/Paging/Kept.antt =====
-- Mapping a page in page tables that are a tree.
use b0s.Base.{
  ℕ, ◌+◌, ◌*◌, ◌/◌, ◌%◌, ◌^◌, bit_or, ◌<◌, ◌≡◌, ◌≢◌, sym, refl, ap, ◌∙◌, arith, inl, inr, List,
  Bool-cases,
}
use b0s.Base.Result.{ok}
use b0s.Memory.{Memory, load64, store64}
use b0s.Memory.Frame.{load-store_apart}
use b0s.Bitmap.{Compiler}
use b0s.Pmm.State.{Pmm}
use b0s.Paging.{mmu_translate_4k, mmu_map_page, table_of, is_absent, pdpt_index, pdt_index}
use b0s.Paging.Mapped.{
  pml4_entry, pdpt_entry, pdt_entry, pt_entry, AreApart, mmu_map_page-HasTables, mapped_translation,
}
use b0s.Paging.Tree.{
  pdpt_table, pdt_table, pt_table, HasPdpt, HasPdt, HasPt, IsTree, pml4_apart_of, pdpt_apart_of,
  pdt_apart_of, pt_apart_of, tree-HasTables,
}

module _ (m : Memory) (dir : ℕ) (owner : ℕ → List ℕ) (t : IsTree m dir owner) where
  module _ (va v : ℕ) (la : va < 2 ^ 64) (has : HasPt m dir va) where
    abbrev stored : Memory
    stored = store64 m (pt_entry m dir va) v

    kept : (entry : ℕ) → AreApart (pt_entry m dir va) entry → load64 stored entry ≡ load64 m entry
    kept entry apart = load-store_apart 8 8 m (pt_entry m dir va) entry v (ground arith)

    -- A store into the last entry of an address keeps the translation of every other page.
    mmu_translate_4k-other :
        (vb : ℕ)
        → vb < 2 ^ 64
        → va / 4096 % 2 ^ 36 ≢ vb / 4096 % 2 ^ 36
        → mmu_translate_4k stored dir vb ≡ mmu_translate_4k m dir vb
    unfolding mmu_translate_4k
    mmu_translate_4k-other vb lb differ =
        let k4 = kept (pml4_entry m dir vb) (pml4_apart_of m dir owner t va vb la lb has) in
        elim (Bool-cases (is_absent (load64 m (pml4_entry m dir vb)))) [
          | inl none ↦ rw (k4, none) refl
          | inr p4 ↦
              let k3 =
                kept (pdpt_entry m dir vb) (pdpt_apart_of m dir owner t va vb la lb has p4) in
              elim (Bool-cases (is_absent (load64 m (pdpt_entry m dir vb)))) [
                | inl none ↦ rw (k4, k3, none) refl
                | inr p3 ↦
                    let k2 =
                      kept (pdt_entry m dir vb)
                        (pdt_apart_of m dir owner t va vb la lb has (p4, p3)) in
                    elim (Bool-cases (is_absent (load64 m (pdt_entry m dir vb)))) [
                      | inl none ↦ rw (k4, k3, k2, none) refl
                      | inr p2 ↦
                          let k1 =
                            kept (pt_entry m dir vb)
                              (pt_apart_of m dir owner t va vb la lb has ((p4, p3), p2) differ) in
                          rw (k4, k3, k2, k1) refl
                    ]
              ]
        ]

    stored-HasPdpt :
        (w : ℕ)
        → w < 2 ^ 64
        → HasPdpt stored dir w
        → HasPdpt m dir w × (pdpt_table stored dir w ≡ pdpt_table m dir w)
    stored-HasPdpt w lw h =
        let k = kept (pml4_entry m dir w) (pml4_apart_of m dir owner t va w la lw has) in
        (ap is_absent (sym k) ∙ h, ap table_of k)

    stored-HasPdt :
        (w : ℕ)
        → w < 2 ^ 64
        → HasPdt stored dir w
        → HasPdt m dir w × (pdt_table stored dir w ≡ pdt_table m dir w)
    stored-HasPdt w lw (h, h3) =
        let (p4, table) = stored-HasPdpt w lw h in
        let moved = ap (λ (a : ℕ). load64 stored (a + 8 * pdpt_index w)) table in
        let k = moved ∙ kept (pdpt_entry m dir w) (pdpt_apart_of m dir owner t va w la lw has p4) in
        ((p4, ap is_absent (sym k) ∙ h3), ap table_of k)

    stored-HasPt :
        (w : ℕ)
        → w < 2 ^ 64
        → HasPt stored dir w
        → HasPt m dir w × (pt_table stored dir w ≡ pt_table m dir w)
    stored-HasPt w lw (h, h2) =
        let (p3, table) = stored-HasPdt w lw h in
        let moved = ap (λ (a : ℕ). load64 stored (a + 8 * pdt_index w)) table in
        let k = moved ∙ kept (pdt_entry m dir w) (pdt_apart_of m dir owner t va w la lw has p3) in
        ((p3, ap is_absent (sym k) ∙ h2), ap table_of k)

    -- The tree stays: every table is where it was, on its path.
    stored-IsTree : IsTree stored dir owner
    stored-IsTree = record {
      dir_aligned = t.dir_aligned;
      dir_owner = t.dir_owner;
      pdpt_owner =
          λ w lw h. let (p, same) = stored-HasPdpt w lw h in ap owner same ∙ t.pdpt_owner w lw p;
      pdt_owner =
          λ w lw h. let (p, same) = stored-HasPdt w lw h in ap owner same ∙ t.pdt_owner w lw p;
      pt_owner = λ w lw h. let (p, same) = stored-HasPt w lw h in ap owner same ∙ t.pt_owner w lw p;
    }

-- In page tables that are a tree, with the three tables of the address there, `mmu_map_page` of an
-- aligned page succeeds without allocating and returns the former entry. Afterwards the address
-- translates to the page, with its offset; an address of any other page translates as before,
-- whether it is mapped or not; and the tables are the same tree.
pub mmu_map_page-IsTree :
    (c : Compiler) (dir va vb pa perm : ℕ) (s : Pmm) (owner : ℕ → List ℕ)
    → IsTree s.memory dir owner
    → HasPt s.memory dir va
    → va < 2 ^ 64
    → vb < 2 ^ 64
    → va / 4096 % 2 ^ 36 ≢ vb / 4096 % 2 ^ 36
    → pa < 2 ^ 64
    → pa % 4096 ≡ 0
    → perm < 4096
    → (s' : Pmm) × (mmu_map_page c dir va pa perm s
        ≡ ok (load64 s.memory (pt_entry s.memory dir va), s'))
      × (mmu_translate_4k s'.memory dir va ≡ pa + va % 4096)
      × (mmu_translate_4k s'.memory dir vb ≡ mmu_translate_4k s.memory dir vb)
      × IsTree s'.memory dir owner
mmu_map_page-IsTree c dir va vb pa perm s owner t has va_lt vb_lt differ pa_lt aligned small =
    let m = s.memory in
    let tables = tree-HasTables m dir owner t va va_lt has in
    let v = bit_or pa perm in
    (
      record s { memory = store64 m (pt_entry m dir va) v },
      mmu_map_page-HasTables c dir va pa perm s tables,
      mapped_translation dir va pa perm s tables va_lt pa_lt aligned small,
      mmu_translate_4k-other m dir owner t va v va_lt has vb vb_lt differ,
      stored-IsTree m dir owner t va v va_lt has,
    )
