-- ===== src/Paging/Tree.antt =====
-- Page tables that are a tree: each table is reached by one path of indices.
use b0s.Base.{
  ℕ, ◌+◌, ◌*◌, ◌/◌, ◌%◌, ◌^◌, ◌<◌, ◌≡◌, ◌≢◌, ◌⊎◌, sym, ap, ◌∙◌, arith, false, bit_and, inl, inr,
  List, [], ◌∷◌, Bool-cases, ==→≡, ◌==◌,
}
use b0s.Base.Word.{u16, dm_p2v}
use b0s.Base.Align.{page_addr_lem, bit_and_low}
use b0s.Memory.{Memory, load64}
use b0s.Paging.{table_of, is_absent, pml4e_index, pdpt_index, pdt_index, pt_index}
use b0s.Paging.Mapped.{pml4_entry, pdpt_entry, pdt_entry, pt_entry, AreApart, HasTables}

-- The tables at the ends of the three upper entries.
abbrev pub pdpt_table : Memory → ℕ → ℕ → ℕ
pdpt_table m dir va = table_of (load64 m (pml4_entry m dir va))

abbrev pub pdt_table : Memory → ℕ → ℕ → ℕ
pdt_table m dir va = table_of (load64 m (pdpt_entry m dir va))

abbrev pub pt_table : Memory → ℕ → ℕ → ℕ
pt_table m dir va = table_of (load64 m (pdt_entry m dir va))

-- The upper entries of an address that are present, from the first on.
abbrev pub HasPdpt : Memory → ℕ → ℕ → Type 0
HasPdpt m dir va = is_absent (load64 m (pml4_entry m dir va)) ≡ false

abbrev pub HasPdt : Memory → ℕ → ℕ → Type 0
HasPdt m dir va = HasPdpt m dir va × (is_absent (load64 m (pdpt_entry m dir va)) ≡ false)

abbrev pub HasPt : Memory → ℕ → ℕ → Type 0
HasPt m dir va = HasPdt m dir va × (is_absent (load64 m (pdt_entry m dir va)) ≡ false)

-- `owner` tells for a table the indices of the path that leads to it: no two paths share a table.
pub record IsTree (m : Memory) (dir : ℕ) (owner : ℕ → List ℕ) : Type 0 where
  pub dir_aligned : dir % 4096 ≡ 0
  pub dir_owner : owner dir ≡ []
  pub pdpt_owner :
      (va : ℕ) → va < 2 ^ 64 → HasPdpt m dir va → owner (pdpt_table m dir va) ≡ pml4e_index va ∷ []
  pub pdt_owner :
      (va : ℕ)
      → va < 2 ^ 64
      → HasPdt m dir va
      → owner (pdt_table m dir va) ≡ pml4e_index va ∷ pdpt_index va ∷ []
  pub pt_owner :
      (va : ℕ)
      → va < 2 ^ 64
      → HasPt m dir va
      → owner (pt_table m dir va) ≡ pml4e_index va ∷ pdpt_index va ∷ pdt_index va ∷ []

table_of-aligned : (entry : ℕ) → table_of entry % 4096 ≡ 0
table_of-aligned entry = omega (arith, page_addr_lem (dm_p2v entry) (omega arith))

pub index-lt : (x : ℕ) → x < 2 ^ 64 → u16 (bit_and x 0x1ff) < 512
index-lt x lt = omega (arith, bit_and_low 64 9 x lt)

-- Entries of two tables are apart, and so are two entries of one.
entries_apart :
    (a b i j : ℕ)
    → a % 4096 ≡ 0
    → b % 4096 ≡ 0
    → i < 512
    → j < 512
    → (a ≢ b) ⊎ (i ≢ j)
    → AreApart (a + 8 * i) (b + 8 * j)
entries_apart a b i j ha hb hi hj h = ground arith

-- Pages of the 48 bits that are translated, by the four indices.
pages_differ :
    (va vb : ℕ)
    → va < 2 ^ 64
    → vb < 2 ^ 64
    → pml4e_index va ≡ pml4e_index vb
    → pdpt_index va ≡ pdpt_index vb
    → pdt_index va ≡ pdt_index vb
    → pt_index va ≡ pt_index vb
    → va / 4096 % 2 ^ 36 ≡ vb / 4096 % 2 ^ 36
pages_differ va vb la lb e4 e3 e2 e1 =
    let low : (x : ℕ) → x < 2 ^ 64 → bit_and x 0x1ff ≡ x % 512 = λ x lt. bit_and_low 64 9 x lt in
    let f4 : va / 2 ^ 39 % 512 ≡ vb / 2 ^ 39 % 512 =
      omega (arith, e4, low (va / 2 ^ 39) (omega arith), low (vb / 2 ^ 39) (omega arith)) in
    let f3 : va / 2 ^ 30 % 512 ≡ vb / 2 ^ 30 % 512 =
      omega (arith, e3, low (va / 2 ^ 30) (omega arith), low (vb / 2 ^ 30) (omega arith)) in
    let f2 : va / 2 ^ 21 % 512 ≡ vb / 2 ^ 21 % 512 =
      omega (arith, e2, low (va / 2 ^ 21) (omega arith), low (vb / 2 ^ 21) (omega arith)) in
    let f1 : va / 2 ^ 12 % 512 ≡ vb / 2 ^ 12 % 512 =
      omega (arith, e1, low (va / 2 ^ 12) (omega arith), low (vb / 2 ^ 12) (omega arith)) in
    omega (arith, f4, f3, f2, f1)

same_or_not : (a b : ℕ) → (a ≡ b) ⊎ (a ≢ b)
same_or_not a b = elim (Bool-cases (a == b)) [
  | inl same ↦ inl (==→≡ a b same)
  | inr other ↦ inr (λ e. ground (arith, other, e))
]

abbrev path_of : ℕ → List ℕ
path_of va = pml4e_index va ∷ pdpt_index va ∷ pdt_index va ∷ []

module _ (m : Memory) (dir : ℕ) (owner : ℕ → List ℕ) (t : IsTree m dir owner) where
  -- The last entry of an address is in no table of another path.
  last-apart :
      (va table j : ℕ)
      → va < 2 ^ 64
      → HasPt m dir va
      → table % 4096 ≡ 0
      → j < 512
      → (owner table ≢ path_of va) ⊎ (pt_index va ≢ j)
      → AreApart (pt_entry m dir va) (table + 8 * j)
  last-apart va table j lt has ht hj (inl other) =
      entries_apart (pt_table m dir va) table (pt_index va) j (table_of-aligned _) ht
        (index-lt _ (omega arith)) hj (inl (λ e. other (ap owner (sym e) ∙ t.pt_owner va lt has)))
  last-apart va table j lt has ht hj (inr other) =
      entries_apart (pt_table m dir va) table (pt_index va) j (table_of-aligned _) ht
        (index-lt _ (omega arith)) hj (inr other)

  pub pml4_apart_of :
      (va vb : ℕ)
      → va < 2 ^ 64
      → vb < 2 ^ 64
      → HasPt m dir va
      → AreApart (pt_entry m dir va) (pml4_entry m dir vb)
  pml4_apart_of va vb la lb has =
      last-apart va dir (pml4e_index vb) la has t.dir_aligned (index-lt _ (omega arith))
        (inl (λ e. let same = sym t.dir_owner ∙ e in cc))

  pub pdpt_apart_of :
      (va vb : ℕ)
      → va < 2 ^ 64
      → vb < 2 ^ 64
      → HasPt m dir va
      → HasPdpt m dir vb
      → AreApart (pt_entry m dir va) (pdpt_entry m dir vb)
  pdpt_apart_of va vb la lb has hb =
      last-apart va (pdpt_table m dir vb) (pdpt_index vb) la has (table_of-aligned _)
        (index-lt _ (omega arith)) (inl (λ e. let same = sym (t.pdpt_owner vb lb hb) ∙ e in cc))

  pub pdt_apart_of :
      (va vb : ℕ)
      → va < 2 ^ 64
      → vb < 2 ^ 64
      → HasPt m dir va
      → HasPdt m dir vb
      → AreApart (pt_entry m dir va) (pdt_entry m dir vb)
  pdt_apart_of va vb la lb has hb =
      last-apart va (pdt_table m dir vb) (pdt_index vb) la has (table_of-aligned _)
        (index-lt _ (omega arith)) (inl (λ e. let same = sym (t.pdt_owner vb lb hb) ∙ e in cc))

  pub pt_apart_of :
      (va vb : ℕ)
      → va < 2 ^ 64
      → vb < 2 ^ 64
      → HasPt m dir va
      → HasPt m dir vb
      → va / 4096 % 2 ^ 36 ≢ vb / 4096 % 2 ^ 36
      → AreApart (pt_entry m dir va) (pt_entry m dir vb)
  pt_apart_of va vb la lb has hb differ =
      last-apart va (pt_table m dir vb) (pt_index vb) la has (table_of-aligned _)
        (index-lt _ (omega arith))
        (elim (same_or_not (pt_index va) (pt_index vb)) [
          | inr other ↦ inr other
          | inl last ↦ inl (λ e.
              let same : path_of vb ≡ path_of va = sym (t.pt_owner vb lb hb) ∙ e in
              differ (pages_differ va vb la lb (cc) (cc) (cc) last))
        ])

  pub tree-HasTables : (va : ℕ) → va < 2 ^ 64 → HasPt m dir va → HasTables m dir va
  tree-HasTables va lt ((p4, p3), p2) = record {
    pml4_present = p4;
    pdpt_present = p3;
    pdt_present = p2;
    pml4_apart = pml4_apart_of va va lt lt ((p4, p3), p2);
    pdpt_apart = pdpt_apart_of va va lt lt ((p4, p3), p2) p4;
    pdt_apart = pdt_apart_of va va lt lt ((p4, p3), p2) (p4, p3);
  }
