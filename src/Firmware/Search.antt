-- ===== src/Firmware/Search.antt =====
-- What the checksum sums and which tables and entries the searches find.
use b0s.Base.{
  ℕ, zero, suc, ◌+◌, ◌-◌, ◌%◌, ◌<◌, ◌≤◌, ◌≡◌, ◌≢◌, ◌⊎◌, refl, inl, inr, arith, Bool-cases, ◌==◌,
  Option, none, some, ==→≡, ==→≢, lt→ltb, ge→ltb, ◌∙◌,
}
use mathlib.Core.Path.{subst}
use b0s.Base.Result.{ok}
use b0s.Memory.{Memory, read_byte, memcmp}
use b0s.Text.Laws.{memcmp_iff}
use b0s.Firmware.{checksum_loop, checksum, table_at, table_count, find_table_loop, acpi_find_table}
use b0s.Firmware.{madt_loop, entry_type, entry_length, madt_entry_find, table_length}

-- The sum of the bytes of a block.
pub byte_sum : Memory → ℕ → ℕ → ℕ
byte_sum m ptr zero = 0
byte_sum m ptr (suc size) = byte_sum m ptr size + read_byte m (ptr + size)

checksum_loop_lem :
    (size sum : ℕ) (m : Memory) (ptr : ℕ)
    → sum < 256
    → checksum_loop size sum m ptr ≡ (sum + byte_sum m ptr size) % 256
unfolding checksum_loop byte_sum
checksum_loop_lem zero sum m ptr h = omega arith
checksum_loop_lem (suc size) sum m ptr h =
    omega
      (arith, checksum_loop_lem size ((sum + read_byte m (ptr + size)) % 256) m ptr (omega arith))

-- `checksum` is the sum of the bytes modulo 256.
pub checksum_lem : (m : Memory) (ptr size : ℕ) → checksum m ptr size ≡ byte_sum m ptr size % 256
unfolding checksum
checksum_lem m ptr size = checksum_loop_lem size 0 m ptr (omega arith) ∙ omega arith

-- The first four bytes of table `i` are the signature.
abbrev pub HasSignature : Memory → ℕ → ℕ → ℕ → Type 0
HasSignature m rsdt signature i =
    (j : ℕ) → j < 4 → read_byte m (table_at m rsdt i + j) ≡ read_byte m (signature + j)

-- The first table of the signature between two indices, or none of them has it.
abbrev pub FindsFirst : Memory → ℕ → ℕ → ℕ → ℕ → Option ℕ → Type 0
FindsFirst m rsdt signature lo hi none =
    (i : ℕ) → lo ≤ i → i < hi → HasSignature m rsdt signature i → ⊥
FindsFirst m rsdt signature lo hi (some h) =
    (k : ℕ) × (lo ≤ k)
    × (k < hi)
    × (h ≡ table_at m rsdt k)
    × HasSignature m rsdt signature k
    × ((i : ℕ) → lo ≤ i → i < k → HasSignature m rsdt signature i → ⊥)

-- An index without the signature before those searched.
skip_first :
    (m : Memory) (rsdt signature lo hi : ℕ) (r : Option ℕ)
    → (HasSignature m rsdt signature lo → ⊥)
    → FindsFirst m rsdt signature (lo + 1) hi r
    → FindsFirst m rsdt signature lo hi r
skip_first m rsdt signature lo hi none misses f = λ i l h has. elim (Bool-cases (i == lo)) [
  | inl same ↦ let e = ==→≡ i lo same in misses (λ j lt. rw (← e) (has j lt))
  | inr other ↦ let ne = ==→≢ i lo other in f i (omega arith) h has
]
skip_first m rsdt signature lo hi (some h) misses (k, l, u, e, has, first) = (
  k,
  omega arith,
  u,
  e,
  has,
  λ i l' u' has'. elim (Bool-cases (i == lo)) [
    | inl same ↦ let e' = ==→≡ i lo same in misses (λ j lt. rw (← e') (has' j lt))
    | inr other ↦ let ne = ==→≢ i lo other in first i (omega arith) u' has'
  ],
)

find_table_loop-FindsFirst :
    (left i : ℕ) (m : Memory) (rsdt signature : ℕ)
    → FindsFirst m rsdt signature i (i + left) (find_table_loop left i m rsdt signature)
unfolding find_table_loop
find_table_loop-FindsFirst zero i m rsdt signature = λ k lo hi has. absurd (omega arith)
find_table_loop-FindsFirst (suc left) i m rsdt signature =
    let same_bytes = memcmp_iff m (table_at m rsdt i) signature 4 in
    elim (Bool-cases (memcmp m (table_at m rsdt i) signature 4 == 0)) [
      | inl same ↦ rw same (
        i,
        omega arith,
        omega arith,
        refl,
        same_bytes.1.0 (==→≡ _ 0 same),
        λ k lo hi has. absurd (omega arith),
      )
      | inr differ ↦
          let ne = ==→≢ (memcmp m (table_at m rsdt i) signature 4) 0 differ in
          let rest = find_table_loop-FindsFirst left (i + 1) m rsdt signature in
          let shift : i + 1 + left ≡ i + suc left = omega arith in
          rw (differ, ← shift)
            (skip_first m rsdt signature i (i + 1 + left)
              (find_table_loop left (i + 1) m rsdt signature) (λ has. ne (same_bytes.1.1 has)) rest)
    ]

-- `acpi_find_table` gives the first of the tables that the root table lists whose first four bytes
-- are the signature, and NULL exactly when none has it.
pub acpi_find_table-FindsFirst :
    (m : Memory) (rsdt signature : ℕ)
    → FindsFirst m rsdt signature 0 (table_count m rsdt) (acpi_find_table m rsdt signature)
unfolding acpi_find_table
acpi_find_table-FindsFirst m rsdt signature =
    let n = table_count m rsdt in
    let whole : 0 + n ≡ n = omega arith in
    subst (λ hi. FindsFirst m rsdt signature 0 hi (find_table_loop n 0 m rsdt signature)) whole
      (find_table_loop-FindsFirst n 0 m rsdt signature)

-- A run of entries of positive length from an address on, up to an end or over it.
pub data IsChain (m : Memory) (end : ℕ) : ℕ → Type 0 where
  past : (entry : ℕ) → end ≤ entry → IsChain m end entry
  next :
      (entry : ℕ)
      → entry < end
      → 0 < entry_length m entry
      → IsChain m end (entry + entry_length m entry)
      → IsChain m end entry

-- Entry `e` is one of those of a chain.
pub OnChain : (m : Memory) (end : ℕ) {entry : ℕ} → IsChain m end entry → ℕ → Type 0
OnChain m end (past entry h) e = ⊥
OnChain m end (next entry lt pos rest) e = (e ≡ entry) ⊎ OnChain m end rest e

-- An entry of the type, on the chain, or none of the chain has it.
abbrev pub FindsEntry :
    (m : Memory) (end type : ℕ) {entry : ℕ} → IsChain m end entry → Option ℕ → Type 0
FindsEntry m end type chain none = (e : ℕ) → OnChain m end chain e → entry_type m e ≢ type
FindsEntry m end type chain (some e) = OnChain m end chain e × (entry_type m e ≡ type)

madt_loop-FindsEntry :
    (rounds : ℕ) (m : Memory) (type end entry : ℕ) (chain : IsChain m end entry)
    → end - entry < rounds
    → (r : Option ℕ) × (madt_loop rounds m type end entry ≡ ok r) × FindsEntry m end type chain r
unfolding madt_loop OnChain
madt_loop-FindsEntry zero m type end entry (past _ h) enough = absurd (omega arith)
madt_loop-FindsEntry zero m type end entry (next _ lt pos rest) enough = absurd (omega arith)
madt_loop-FindsEntry (suc rounds) m type end entry (past _ h) enough =
    (none, rw (ge→ltb entry end h), λ e on. absurd on)
madt_loop-FindsEntry (suc rounds) m type end entry (next _ lt pos rest) enough =
    elim (Bool-cases (entry_type m entry == type)) [
      | inl same ↦ (some entry, rw (lt→ltb entry end lt, same), (inl refl, ==→≡ _ type same))
      | inr other ↦
          let (r, out, finds) =
            madt_loop-FindsEntry rounds m type end (entry + entry_length m entry) rest
              (omega arith) in
          (r, rw (lt→ltb entry end lt, other) out, widen r (==→≢ _ type other) finds)
    ]
  where
    widen :
        (r : Option ℕ)
        → entry_type m entry ≢ type
        → FindsEntry m end type rest r
        → FindsEntry m end type (next entry lt pos rest) r
    widen none ne finds = λ e on. one e on finds
      where
        one :
            (e : ℕ)
            → OnChain m end (next entry lt pos rest) e
            → ((e' : ℕ) → OnChain m end rest e' → entry_type m e' ≢ type)
            → entry_type m e ≢ type
        one e (inl same) f = rw same ne
        one e (inr on) f = f e on
    widen (some e) ne finds = (inr finds.0, finds.1)

-- If the entries of the interrupt controller table have positive lengths, `acpi_madt_find` ends: it
-- gives an entry of the type, or NULL when no entry has it.
pub madt_entry_find-FindsEntry :
    (m : Memory) (type madt : ℕ) (chain : IsChain m (madt + table_length m madt) (madt + 44))
    → (r : Option ℕ) × (madt_entry_find m type madt ≡ ok r)
      × FindsEntry m (madt + table_length m madt) type chain r
unfolding madt_entry_find
madt_entry_find-FindsEntry m type madt chain =
    madt_loop-FindsEntry (suc (table_length m madt)) m type (madt + table_length m madt) (madt + 44)
      chain (omega arith)
