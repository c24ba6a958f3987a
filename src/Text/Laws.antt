-- ===== src/Text/Laws.antt =====
-- What the string functions return.
use b0s.Base.{
  ℕ, zero, suc, ◌+◌, ◌<◌, ◌≤◌, ◌≡◌, ◌≢◌, ◌⊎◌, ◌↔◌, refl, inl, inr, arith, ◌==◌, not, ◌&&◌,
  Bool-cases, some, ==→≡, ==→≢,
}
use b0s.Memory.{Memory, read_byte, memcmp}
use b0s.Text.{strlen_loop, strlen, strmatch_loop, strmatch}

strlen_loop_lem :
    (max i : ℕ) (m : Memory) (str : ℕ)
    → let out = strlen_loop max i m str in
      (i ≤ out)
      × (out ≤ i + max)
      × ((j : ℕ) → i ≤ j → j < out → read_byte m (str + j) ≢ 0)
      × (out < i + max → read_byte m (str + out) ≡ 0)
unfolding strlen_loop
strlen_loop_lem zero i m str =
    (omega arith, omega arith, λ j lo hi. absurd (omega arith), λ h. absurd (omega arith))
strlen_loop_lem (suc max) i m str = elim (Bool-cases (read_byte m (str + i) == 0)) [
  | inl stops ↦ rw stops (
    omega arith,
    omega arith,
    λ j lo hi. absurd (omega arith),
    λ h. ==→≡ (read_byte m (str + i)) 0 stops,
  )
  | inr goes_on ↦
      let rest = strlen_loop_lem max (i + 1) m str in
      let ne = ==→≢ (read_byte m (str + i)) 0 goes_on in
      rw goes_on (
        omega (arith, rest.0),
        omega (arith, rest.1),
        λ j lo hi. elim (Bool-cases (j == i)) [
          | inl same ↦ let e : j ≡ i = ==→≡ j i same in rw e ne
          | inr later ↦ let above : j ≢ i = ==→≢ j i later in rest.2 j (omega arith) hi
        ],
        λ h. rest.3 (omega arith),
      )
]

-- `strlen` is at most `max`; no byte before it is zero, and below `max` the byte at it is.
pub strlen_lem :
    (m : Memory) (str max : ℕ)
    → let out = strlen m str max in
      (out ≤ max)
      × ((j : ℕ) → j < out → read_byte m (str + j) ≢ 0)
      × (out < max → read_byte m (str + out) ≡ 0)
unfolding strlen
strlen_lem m str max =
    let all = strlen_loop_lem max 0 m str in
    (omega (arith, all.1), λ j lt. all.2 j (omega arith) lt, λ h. all.3 (omega arith))

-- `memcmp` is 0 exactly when the two blocks hold the same bytes, and else 1.
pub memcmp_iff :
    (m : Memory) (a b size : ℕ)
    → ((memcmp m a b size ≡ 0) ⊎ (memcmp m a b size ≡ 1))
      × ((memcmp m a b size ≡ 0) ↔ ((j : ℕ) → j < size → read_byte m (a + j) ≡ read_byte m (b + j)))
unfolding memcmp
memcmp_iff m a b zero = (inl refl, (λ e j lt. absurd (omega arith), λ h. refl))
memcmp_iff m a b (suc size) = elim (Bool-cases (read_byte m (a + size) == read_byte m (b + size))) [
  | inl same ↦
      let rest = memcmp_iff m a b size in
      let e = ==→≡ (read_byte m (a + size)) (read_byte m (b + size)) same in
      rw same (
        rest.0,
        (
          λ z j lt. elim (Bool-cases (j == size)) [
            | inl last ↦ let at : j ≡ size = ==→≡ j size last in rw at e
            | inr before ↦ let ne : j ≢ size = ==→≢ j size before in rest.1.0 z j (omega arith)
          ],
          λ h. rest.1.1 (λ j lt. h j (omega arith)),
        ),
      )
  | inr differ ↦
      let ne = ==→≢ (read_byte m (a + size)) (read_byte m (b + size)) differ in
      rw differ (inr refl, (λ z. absurd (omega arith), λ h. absurd (ne (h size (omega arith)))))
]

strmatch_loop_lem :
    (rounds i stop : ℕ) (m : Memory) (a b : ℕ)
    → i ≤ stop
    → stop < i + rounds
    → read_byte m (a + stop) ≡ 0
    → (k : ℕ) × (strmatch_loop rounds i m a b ≡ some k)
      × (i ≤ k)
      × (k ≤ stop)
      × ((j : ℕ) → i ≤ j → j < k → read_byte m (a + j) ≡ read_byte m (b + j))
      × ((read_byte m (a + k) ≡ 0) ⊎ (read_byte m (a + k) ≢ read_byte m (b + k)))
unfolding strmatch_loop
strmatch_loop_lem zero i stop m a b lo hi z = absurd (omega arith)
strmatch_loop_lem (suc rounds) i stop m a b lo hi z =
    let x = read_byte m (a + i) in
    let y = read_byte m (b + i) in
    elim (Bool-cases (not (x == 0) && x == y)) [
      | inl goes_on ↦
          let live : x ≢ 0 = ground arith in
          let eq : x ≡ y = ground arith in
          let further : i ≢ stop = λ e. live (rw e z) in
          let (k, out, lo', hi', same, end) =
            strmatch_loop_lem rounds (i + 1) stop m a b (omega arith) (omega arith) z in
          rw goes_on (
            k,
            out,
            omega arith,
            hi',
            λ j l h. elim (Bool-cases (j == i)) [
              | inl at ↦ let e : j ≡ i = ==→≡ j i at in rw e eq
              | inr later ↦ let ne : j ≢ i = ==→≢ j i later in same j (omega arith) h
            ],
            end,
          )
      | inr stops ↦ rw stops (i, refl, omega arith, lo, λ j l h. absurd (omega arith), ground arith)
    ]

-- With more rounds than the length of `a`, `strmatch` returns the length of the longest common
-- prefix: the strings agree before it, and there `a` ends or they differ.
pub strmatch_lem :
    (rounds stop : ℕ) (m : Memory) (a b : ℕ)
    → stop < rounds
    → read_byte m (a + stop) ≡ 0
    → (k : ℕ) × (strmatch rounds m a b ≡ some k)
      × (k ≤ stop)
      × ((j : ℕ) → j < k → read_byte m (a + j) ≡ read_byte m (b + j))
      × ((read_byte m (a + k) ≡ 0) ⊎ (read_byte m (a + k) ≢ read_byte m (b + k)))
unfolding strmatch
strmatch_lem rounds stop m a b lt z =
    let (k, out, lo, hi, same, end) =
      strmatch_loop_lem rounds 0 stop m a b (omega arith) (omega arith) z in
    (k, out, hi, λ j h. same j (omega arith) h, end)
