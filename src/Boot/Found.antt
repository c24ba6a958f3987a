-- ===== src/Boot/Found.antt =====
-- What `read_tags` finds in a list of tags.
use b0s.Base.{
  ℕ, zero, suc, ◌+◌, ◌/◌, ◌^◌, ◌<◌, ◌≤◌, ◌≡◌, ◌⊎◌, ap, refl, inl, inr, arith, bit_and, ◌==◌,
  if◌then◌else◌, Bool, true, false, not, ◌&&◌, Bool-cases, ≢→==, ≡→==, List, [], ◌∷◌, length,
}
use native.Mathlib.Nat.{pow-suc}
use b0s.Base.Word.{u32, add64, mul64, kernel_vma}
use b0s.Base.Bits.{
  bit, bit-lt-two, bit_and_digit, bit-bit_and, bit-bit_or, bit_power, bit-set_one, bit-zero,
  power-lt,
}
use b0s.Base.Result.{ok}
use b0s.Memory.{Memory, load}
use b0s.Bitmap.{Compiler}
use b0s.Boot.{Tags, tag_type, next_tag, note_tag, tags_loop, read_tags, expected_bitmap}

-- Words of `n` bits with the same bits are equal.
eq_of_bits : (n a b : ℕ) → a < 2 ^ n → b < 2 ^ n → ((k : ℕ) → k < n → bit a k ≡ bit b k) → a ≡ b
unfolding bit
eq_of_bits zero a b la lb same = omega arith
eq_of_bits (suc n) a b la lb same =
    let rest : a / 2 ≡ b / 2 =
      eq_of_bits n (a / 2) (b / 2) (omega (arith, pow-suc 2 n)) (omega (arith, pow-suc 2 n))
        (λ k lt. same (suc k) (omega arith)) in
    omega (arith, rest, same 0 (omega arith))

bit_and-zero : (n a : ℕ) → a ≤ n → bit_and a 0 ≡ 0
bit_and-zero zero a le = let e : a ≡ 0 = omega arith in rw e refl
bit_and-zero (suc n) a le = ground (arith, bit_and_digit a 0, bit_and-zero n (a / 2))

bit_and-lt : (n a b : ℕ) → b < 2 ^ n → bit_and a b < 2 ^ n
bit_and-lt zero a b lt =
    let e : b ≡ 0 = omega arith in rw (e, bit_and-zero a a (omega arith)) (omega arith)
bit_and-lt (suc n) a b lt =
    ground (arith, bit_and_digit a b, pow-suc 2 n, bit_and-lt n (a / 2) (b / 2))

expected_bit : (k : ℕ) → bit expected_bitmap k ≡ (if k == 14 then 1 else (if k == 6 then 1 else 0))
expected_bit k = ground (arith, bit-bit_or (2 ^ 14) (2 ^ 6) k, bit_power 14 k, bit_power 6 k)

-- The test of the bitmap is that of the two bits.
expected_iff :
    (b : ℕ) → (bit_and b expected_bitmap == expected_bitmap) ≡ (bit b 14 == 1 && bit b 6 == 1)
expected_iff b = elim (Bool-cases (bit b 14 == 1 && bit b 6 == 1)) [
  | inl both ↦
      let same : bit_and b expected_bitmap ≡ expected_bitmap =
        eq_of_bits 32 _ _ (bit_and-lt 32 b expected_bitmap (omega arith)) (omega arith) (λ k lt.
          ground (arith, bit-bit_and b expected_bitmap k, expected_bit k, bit-lt-two b k)) in
      rw both (≡→== _ _ same)
  | inr missing ↦ rw missing (≢→== _ _ (λ same. differ missing same))
]
  where
    differ :
        (bit b 14 == 1 && bit b 6 == 1) ≡ false → bit_and b expected_bitmap ≡ expected_bitmap → ⊥
    differ missing same =
        let at : (k : ℕ) → bit (bit_and b expected_bitmap) k ≡ bit expected_bitmap k =
          λ k. ap (λ n. bit n k) same in
        ground (
          arith,
          missing,
          at 14,
          at 6,
          bit-bit_and b expected_bitmap 14,
          bit-bit_and b expected_bitmap 6,
          expected_bit 14,
          expected_bit 6,
          bit-lt-two b 14,
          bit-lt-two b 6,
        )

-- The tags from `tag` on, up to the one that ends the list or to the limit: none is the ending one.
abbrev pub IsTags : Memory → ℕ → ℕ → List ℕ → Type 0
IsTags m limit tag [] = (limit ≤ tag) ⊎ ((tag < limit) × (tag_type m tag ≡ 0))
IsTags m limit tag (t ∷ ts) =
    (tag ≡ t)
    × (tag < limit)
    × (0 < tag_type m tag)
    × (tag_type m tag < 31)
    × IsTags m limit (next_tag m tag) ts

-- Whether there is a tag of the type, and the last one, or else `last`.
abbrev pub has_type : Memory → ℕ → List ℕ → Bool
has_type m type [] = false
has_type m type (t ∷ ts) = if tag_type m t == type then true else has_type m type ts

abbrev pub last_by : (ℕ → ℕ) → Memory → ℕ → ℕ → List ℕ → ℕ
last_by f m type last [] = last
last_by f m type last (t ∷ ts) = last_by f m type (if tag_type m t == type then f t else last) ts

-- The pointers that `read_tags` makes of an address.
abbrev pub rsdp_of : ℕ → ℕ
rsdp_of tag = add64 (tag + 8) kernel_vma

abbrev pub mmap_of : ℕ → ℕ
mmap_of tag = add64 tag kernel_vma

module _ (c : Compiler) (m : Memory) (shifts : (k : ℕ) → k < 31 → c.int_one_shl k ≡ 2 ^ k) where
  -- The bits of `bitmap` after one tag.
  note_tag_bits :
      (tag k : ℕ) (t : Tags)
      → tag_type m tag < 31
      → bit (note_tag c m tag t).bitmap k ≡ (if k == tag_type m tag then 1 else bit t.bitmap k)
  unfolding note_tag
  note_tag_bits tag k t small =
      let type = tag_type m tag in
      let fits : u32 (2 ^ type) ≡ 2 ^ type = omega (arith, power-lt type 32) in
      rw (shifts type small, fits) (bit-set_one t.bitmap type k (omega arith))

  record Sees (t t' : Tags) (ts : List ℕ) : Type 0 where
    acpi_bit : bit t'.bitmap 14 ≡ (if has_type m 14 ts then 1 else bit t.bitmap 14)
    mmap_bit : bit t'.bitmap 6 ≡ (if has_type m 6 ts then 1 else bit t.bitmap 6)
    rsdp_last : t'.rsdp ≡ last_by rsdp_of m 14 t.rsdp ts
    mmap_last : t'.mmap ≡ last_by mmap_of m 6 t.mmap ts

  note_tag_fields :
      (tag : ℕ) (t : Tags)
      → let t' = note_tag c m tag t in
        (t'.rsdp ≡ (if tag_type m tag == 14 then rsdp_of tag else t.rsdp))
        × (t'.mmap ≡ (if tag_type m tag == 6 then mmap_of tag else t.mmap))
  unfolding note_tag
  note_tag_fields tag t = (refl, refl)

  tags_loop-IsTags :
      (rounds limit tag : ℕ) (t : Tags) (ts : List ℕ)
      → length ts < rounds
      → IsTags m limit tag ts
      → (t' : Tags) × (tags_loop rounds c m limit tag t ≡ ok t') × Sees t t' ts
  unfolding tags_loop
  tags_loop-IsTags zero limit tag t ts lt k = absurd (omega arith)
  tags_loop-IsTags (suc rounds) limit tag t [] lt (inl past) = (
    t,
    ground arith,
    record { acpi_bit = refl; mmap_bit = refl; rsdp_last = refl; mmap_last = refl },
  )
  tags_loop-IsTags (suc rounds) limit tag t [] lt (inr (below, ends)) =
      let b14 = note_tag_bits tag 14 t (omega arith) in
      let b6 = note_tag_bits tag 6 t (omega arith) in
      let (to_rsdp, to_mmap) = note_tag_fields tag t in
      (
        note_tag c m tag t,
        ground arith,
        record {
          acpi_bit = ground (arith, b14);
          mmap_bit = ground (arith, b6);
          rsdp_last = ground (arith, to_rsdp);
          mmap_last = ground (arith, to_mmap);
        },
      )
  tags_loop-IsTags (suc rounds) limit tag t (x ∷ ts) lt (at, below, more, small, rest) =
      let (t', found, s) =
        tags_loop-IsTags rounds limit (next_tag m tag) (note_tag c m tag t) ts (omega arith) rest in
      let b14 = note_tag_bits tag 14 t small in
      let b6 = note_tag_bits tag 6 t small in
      let (to_rsdp, to_mmap) = note_tag_fields tag t in
      (
        t',
        ground (arith, found),
        record {
          acpi_bit = rw (← at) (ground (arith, b14, s.acpi_bit));
          mmap_bit = rw (← at) (ground (arith, b6, s.mmap_bit));
          rsdp_last = rw (← at, ← to_rsdp) s.rsdp_last;
          mmap_last = rw (← at, ← to_mmap) s.mmap_last;
        },
      )

  -- The tags
  pub read_tags-IsTags :
      (rounds mb_infos : ℕ) (ts : List ℕ)
      → length ts < rounds
      → IsTags m (add64 mb_infos (mul64 (load 4 m mb_infos) 8)) (add64 mb_infos 8) ts
      → read_tags rounds c m mb_infos
        ≡ ok (
          not (has_type m 14 ts && has_type m 6 ts),
          last_by rsdp_of m 14 0 ts,
          last_by mmap_of m 6 0 ts,
        )
  unfolding read_tags
  read_tags-IsTags rounds mb_infos ts lt k =
      let start : Tags = record { bitmap = 0; rsdp = 0; mmap = 0 } in
      let (t', found, s) =
        tags_loop-IsTags rounds (add64 mb_infos (mul64 (load 4 m mb_infos) 8)) (add64 mb_infos 8)
          start ts lt k in
      rw (found, expected_iff t'.bitmap, s.acpi_bit, s.mmap_bit, s.rsdp_last, s.mmap_last)
        (ground (arith, bit-zero 14, bit-zero 6))
