-- ===== src/Tasks/Create/Ledger.antt =====
-- What `process_create` holds when it returns: the resources of the process, or none.
pub mod Steps
pub mod Ends
mod Tests
use b0s.Base.{
  ℕ, ◌+◌, ◌<◌, ◌≡◌, ◌≢◌, ◌⊎◌, refl, sym, ap, ◌∙◌, inl, inr, arith, ◌==◌, ≢→==, ≡→==, ==→≡,
  if◌then◌else◌, Bool, true, false, not, ◌&&◌, Bool-cases, List, [], ◌∷◌,
}
use b0s.Base.Word.{u16}
use b0s.Base.Result.{Result, Reason, Result-cases, ok, panic, ◌>>=◌, no_pids}
use b0s.Tasks.Ring.{list_add}
use b0s.Tasks.Process.{ready}
use b0s.Tasks.Create.{
  Services, Store, NewProcess, process_create, set_up_process, process_get_unused_pid,
  prepare_process, link_parent, kernel_stack_size, set_process, give_kstack, give_space,
  give_ustack, fail_kstack, fail_vmm, fail_ustack,
}

-- Memory of the heap, and address spaces: an address space stands for its structure. What
-- `vmm_delete_space` leaves behind of its pages is not on record.
pub data Resource : Type 0 where
  heap_memory : ℕ → Resource
  address_space : ℕ → Resource

abbrev pub with_new : (ℕ → Resource) → ℕ → List Resource → List Resource
with_new make p held = if p == 0 then held else make p ∷ held

pub is_same : Resource → Resource → Bool
is_same (heap_memory p) (heap_memory q) = p == q
is_same (heap_memory p) (address_space q) = false
is_same (address_space p) (heap_memory q) = false
is_same (address_space p) (address_space q) = p == q

-- The list without the first entry of the resource.
pub without : Resource → List Resource → List Resource
unfolding is_same
without x [] = []
without x (y ∷ rest) = let further = y ∷ without x rest in if is_same x y then rest else further

-- The services, with a record of what their calls gave and were given back.
abbrev pub recorded : Services → Services
recorded sv = record sv {
  State = sv.State × List Resource;
  kmalloc =
      λ n (st, held). sv.kmalloc n st >>= λ (p, st'). ok (p, (st', with_new heap_memory p held));
  kfree = λ p (st, held). sv.kfree p st >>= λ st'. ok (st', without (heap_memory p) held);
  vmm_create_space = λ (st, held).
      sv.vmm_create_space st >>= λ (p, st'). ok (p, (st', with_new address_space p held));
  vmm_copy_regions = λ p (st, held). sv.vmm_copy_regions p st >>= λ st'. ok (st', held);
  vmm_alloc_at =
      λ p va pages (st, held). sv.vmm_alloc_at p va pages st >>= λ (a, st'). ok (a, (st', held));
  vmm_delete_space =
      λ p (st, held). sv.vmm_delete_space p st >>= λ st'. ok (st', without (address_space p) held);
  bitmap_find_and_set =
      λ (st, held). let (pid, st') = sv.bitmap_find_and_set st in (pid, (st', held));
}

-- What the calls that return do to a record.
pub record Ledger (sv : Services) : Type 0 where
  pub held : sv.State → List Resource
  pub kmalloc_lem :
      (n : ℕ) (st : sv.State) (p : ℕ) (st' : sv.State)
      → sv.kmalloc n st ≡ ok (p, st')
      → held st' ≡ with_new heap_memory p (held st)
  pub kfree_lem :
      (p : ℕ) (st : sv.State) (rest : List Resource) (st' : sv.State)
      → held st ≡ heap_memory p ∷ rest
      → sv.kfree p st ≡ ok st'
      → held st' ≡ rest
  pub create_lem :
      (st : sv.State) (p : ℕ) (st' : sv.State)
      → sv.vmm_create_space st ≡ ok (p, st')
      → held st' ≡ with_new address_space p (held st)
  pub delete_lem :
      (p : ℕ) (st : sv.State) (rest : List Resource) (st' : sv.State)
      → held st ≡ address_space p ∷ rest
      → sv.vmm_delete_space p st ≡ ok st'
      → held st' ≡ rest
  pub copy_lem :
      (p : ℕ) (st st' : sv.State) → sv.vmm_copy_regions p st ≡ ok st' → held st' ≡ held st
  pub alloc_at_lem :
      (p va pages : ℕ) (st : sv.State) (a : ℕ) (st' : sv.State)
      → sv.vmm_alloc_at p va pages st ≡ ok (a, st')
      → held st' ≡ held st
  pub pid_lem : (st : sv.State) → held (sv.bitmap_find_and_set st).1 ≡ held st

-- A call of one of the services panics.
pub data Panics (sv : Services) (e : Reason) : Type 0 where
  in_kmalloc : (n : ℕ) (st : sv.State) → sv.kmalloc n st ≡ panic e → Panics sv e
  in_kfree : (p : ℕ) (st : sv.State) → sv.kfree p st ≡ panic e → Panics sv e
  in_create : (st : sv.State) → sv.vmm_create_space st ≡ panic e → Panics sv e
  in_copy : (p : ℕ) (st : sv.State) → sv.vmm_copy_regions p st ≡ panic e → Panics sv e
  in_alloc_at :
      (p va pages : ℕ) (st : sv.State) → sv.vmm_alloc_at p va pages st ≡ panic e → Panics sv e
  in_delete : (p : ℕ) (st : sv.State) → sv.vmm_delete_space p st ≡ panic e → Panics sv e

-- The ways in which `process_create`, or a last part of it, ends when `held` was held before it: with
-- a process that holds its structure, its stack and its space; with NULL and nothing more held; with
-- the panic of the process numbers, when there is none left; or with the panic of a service.
pub data EndsIn (sv : Services) (held_in : sv.State → List Resource) (uentry : ℕ)
    (held : List Resource) (result : Result (ℕ × Store × sv.State)) : Type 0 where
  created :
      (proc kstack space : ℕ) (s' : Store) (st' : sv.State)
      → result ≡ ok (proc, s', st')
      → proc ≢ 0
      → held_in st' ≡ address_space space ∷ heap_memory kstack ∷ heap_memory proc ∷ held
      → (s'.procs proc).kstack ≡ kstack
      → (s'.procs proc).space ≡ space
      → (s'.procs proc).state ≡ ready
      → (s'.procs proc).tf.rip ≡ uentry
      → EndsIn sv held_in uentry held result
  refused :
      (s' : Store) (st' : sv.State)
      → result ≡ ok (0, s', st')
      → held_in st' ≡ held
      → EndsIn sv held_in uentry held result
  exhausted :
      (st : sv.State)
      → u16 (sv.bitmap_find_and_set st).0 ≡ sv.pid_bitmap_len
      → result ≡ panic no_pids
      → EndsIn sv held_in uentry held result
  failed : (e : Reason) → result ≡ panic e → Panics sv e → EndsIn sv held_in uentry held result
