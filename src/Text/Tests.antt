-- ===== src/Text/Tests.antt =====
-- The string functions on two short strings.
use b0s.Base.{ℕ, ◌+◌, ◌==◌, ◌<◌, ◌≤◌, ◌≡◌, ◌≢◌, ◌⊎◌, refl, arith, some, if◌then◌else◌}
use b0s.Memory.{Memory, read_byte}
use b0s.Text.{strmatch}
use b0s.Text.Laws.{strmatch_lem}

-- "aab" at 0x10 and "aa" at 0x20.
abbrev memory : Memory
memory = λ a. if a == 0x12 then b'b' else (if a == 0x13 then 0 else (if a == 0x22 then 0 else b'a'))

zero_at_3 : read_byte memory (0x10 + 3) ≡ 0
unfolding read_byte
zero_at_3 = refl

strmatch_lem_example :
    (k : ℕ) × (strmatch 4 memory 0x10 0x20 ≡ some k)
    × (k ≤ 3)
    × ((j : ℕ) → j < k → read_byte memory (0x10 + j) ≡ read_byte memory (0x20 + j))
    × ((read_byte memory (0x10 + k) ≡ 0)
        ⊎ (read_byte memory (0x10 + k) ≢ read_byte memory (0x20 + k)))
strmatch_lem_example = strmatch_lem 4 3 memory 0x10 0x20 (omega arith) zero_at_3
