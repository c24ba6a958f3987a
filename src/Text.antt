-- ===== src/Text.antt =====
-- kernel/lib/string over C strings: the bytes of a string up to its zero byte, read from memory.
pub mod Laws
mod Tests
use b0s.Base.{ℕ, zero, suc, ◌+◌, ◌==◌, if◌then◌else◌, Bool, not, ◌&&◌, Option, none, some}
use b0s.Memory.{Memory, read_byte, write_byte}

-- `strlen(str, max)`, at index `i`, with `max` decremented to what is left.
strlen_loop : ℕ → ℕ → Memory → ℕ → ℕ
strlen_loop zero i m str = i
strlen_loop (suc max) i m str =
    let further = strlen_loop max (i + 1) m str in if read_byte m (str + i) == 0 then i else further

pub strlen : Memory → ℕ → ℕ → ℕ
unfolding strlen_loop read_byte
strlen m str max = strlen_loop max 0 m str

-- `strmatch`: the length of the common prefix. The loop of the source has no bound of its own; it
-- ends at the zero byte of `a`, so a count of rounds above that is enough. `none`: out of rounds.
strmatch_loop : ℕ → ℕ → Memory → ℕ → ℕ → Option ℕ
strmatch_loop zero i m a b = none
strmatch_loop (suc rounds) i m a b =
    let further = strmatch_loop rounds (i + 1) m a b in
    let x = read_byte m (a + i) in
    if not (x == 0) && x == read_byte m (b + i) then further else some i

pub strmatch : ℕ → Memory → ℕ → ℕ → Option ℕ
unfolding strmatch_loop read_byte
strmatch rounds m a b = strmatch_loop rounds 0 m a b

-- `strcpy`: the first byte is copied whatever it is, and the zero byte never; `none`: out of rounds.
strcpy_loop : ℕ → ℕ → Memory → ℕ → ℕ → Option Memory
strcpy_loop zero i m dst src = none
strcpy_loop (suc rounds) i m dst src =
    let m' = write_byte m (dst + i) (read_byte m (src + i)) in
    let further = strcpy_loop rounds (i + 1) m' dst src in
    if read_byte m' (src + (i + 1)) == 0 then some m' else further

pub strcpy : ℕ → Memory → ℕ → ℕ → Option Memory
unfolding strcpy_loop read_byte write_byte
strcpy rounds m dst src = strcpy_loop rounds 0 m dst src
