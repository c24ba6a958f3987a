-- ===== src/Boot/Tests.antt =====
-- Runs of the walk over the tags, and its theorem at a concrete list.
use b0s.Base.{◌+◌, ◌^◌, ◌≡◌, refl, inr, arith, ◌==◌, if◌then◌else◌, false, [], ◌∷◌}
use b0s.Base.Result.{ok, panic, bad_magic}
use b0s.Memory.{Memory, load, read_byte}
use b0s.Bitmap.{Compiler}
use b0s.Boot.{read_tags, kmain_checks, next_tag, note_tag}
use b0s.Boot.Found.{IsTags, read_tags-IsTags, rsdp_of, mmap_of}

abbrev shifting : Compiler
shifting = record { uninit = λ m. 0; int_one_shl = λ k. 2 ^ k }

-- A pointer, a memory map and the ending tag, from 4096 on.
abbrev infos : Memory
infos a =
    if a == 4096
    then 88
    else (if a == 4104
        then 14
        else (if a == 4108 then 28 else (if a == 4136 then 6 else (if a == 4140 then 40 else 0))))

-- The walk finds both.
walk_test : read_tags 5 shifting infos 4096 ≡ ok (false, rsdp_of 4104, mmap_of 4136)
unfolding read_tags note_tag next_tag load read_byte
walk_test = refl

magic_test : kmain_checks 5 shifting infos 1 4096 ≡ panic bad_magic
unfolding kmain_checks
magic_test = refl

infos-IsTags : IsTags infos (4096 + 704) 4104 (4104 ∷ 4136 ∷ [])
unfolding next_tag load read_byte
infos-IsTags = (
  refl,
  omega arith,
  omega arith,
  omega arith,
  (refl, omega arith, omega arith, omega arith, inr (omega arith, refl)),
)

read_tags-IsTags_example : read_tags 5 shifting infos 4096 ≡ ok (false, rsdp_of 4104, mmap_of 4136)
unfolding load read_byte
read_tags-IsTags_example =
    read_tags-IsTags shifting infos (λ k lt. refl) 5 4096 (4104 ∷ 4136 ∷ []) (omega arith)
      infos-IsTags
