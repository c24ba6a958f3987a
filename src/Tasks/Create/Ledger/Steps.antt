-- ===== src/Tasks/Create/Ledger/Steps.antt =====
-- The steps of `process_create` over services whose calls keep a record.
use b0s.Base.{
  ℕ, ◌≡◌, ◌≢◌, ◌⊎◌, refl, ap, ◌∙◌, inl, inr, ◌==◌, ≢→==, ≡→==, ==→≡, Bool, true, false, Bool-cases,
  List, ◌∷◌,
}
use b0s.Base.Word.{u16}
use b0s.Base.Result.{Result-cases, ok, panic, no_pids}
use b0s.Tasks.Ring.{list_add}
use b0s.Tasks.Process.{ready}
use b0s.Tasks.Create.{
  Services, Store, process_create, set_up_process, prepare_process, link_parent, kernel_stack_size,
  set_process, give_kstack, give_space, give_ustack, fail_kstack, fail_vmm, fail_ustack,
}
use b0s.Tasks.Create.Ledger.{
  Resource, heap_memory, address_space, Ledger, in_kmalloc, in_kfree, in_create, in_copy,
  in_alloc_at, in_delete, EndsIn, created, refused, exhausted, failed,
}

-- What the steps after the allocations keep of a process.
abbrev Keeps : Store → Store → ℕ → ℕ → Type 0
Keeps s s' proc uentry =
    ((s'.procs proc).kstack ≡ (s.procs proc).kstack)
    × ((s'.procs proc).space ≡ (s.procs proc).space)
    × ((s'.procs proc).state ≡ ready)
    × ((s'.procs proc).tf.rip ≡ uentry)

prepare-Keeps :
    (sv : Services) (name uentry parent proc pid : ℕ) (s : Store)
    → Keeps s (prepare_process sv name uentry parent proc pid s) proc uentry
unfolding prepare_process
prepare-Keeps sv name uentry parent proc pid s = rw (≡→== proc proc refl) (refl, refl, refl, refl)

link-Keeps :
    (proc parent uentry : ℕ) (s s' : Store)
    → parent ≢ 0
    → Keeps s s' proc uentry
    → (s'' : Store) × (link_parent proc parent s' ≡ ok s'') × Keeps s s'' proc uentry
unfolding link_parent
link-Keeps proc parent uentry s s' some_parent k =
    let there : (parent == 0) ≡ false = ≢→== parent 0 some_parent in
    elim (Bool-cases ((s'.procs parent).child == 0)) [
      | inl first ↦ (
        with_child,
        rw (there, first) refl,
        (elim (Bool-cases (proc == parent)) [
          | inl self ↦ let e = ==→≡ proc parent self in rw self (rw (← e) k)
          | inr other ↦ rw other k
        ]),
      )
      | inr later ↦ (
        record s' { siblings_lists = list_add proc (s'.procs parent).child s'.siblings_lists },
        rw (there, later) refl,
        k,
      )
    ]
  where
    with_child : Store
    with_child = set_process parent (record (s'.procs parent) { child = proc }) s'

set_up_none :
    (sv : Services) (name uentry parent proc : ℕ) (s : Store) (st : sv.State)
    → (u16 (sv.bitmap_find_and_set st).0 == sv.pid_bitmap_len) ≡ true
    → set_up_process sv name uentry parent proc s st ≡ panic no_pids
unfolding set_up_process
set_up_none sv name uentry parent proc s st e = rw e refl

set_up_some :
    (sv : Services) (name uentry parent proc : ℕ) (s s' : Store) (st : sv.State)
    → (u16 (sv.bitmap_find_and_set st).0 == sv.pid_bitmap_len) ≡ false
    → link_parent proc parent
        (prepare_process sv name uentry parent proc (u16 (sv.bitmap_find_and_set st).0) s)
      ≡ ok s'
    → set_up_process sv name uentry parent proc s st
      ≡ ok (
        proc,
        set_process proc (record (s'.procs proc) { child = 0; signals_handlers = λ signum. 0 }) s',
        (sv.bitmap_find_and_set st).1,
      )
unfolding set_up_process
set_up_some sv name uentry parent proc s s' st e linked = rw (e, linked) refl

-- Setting up the process takes a number, and leaves what is held.
set_up-ends :
    (sv : Services) (l : Ledger sv) (name uentry parent proc : ℕ) (s : Store) (st : sv.State)
    → parent ≢ 0
    → ((set_up_process sv name uentry parent proc s st ≡ panic no_pids)
        × (u16 (sv.bitmap_find_and_set st).0 ≡ sv.pid_bitmap_len))
      ⊎ ((s' : Store) × (st' : sv.State) × (set_up_process sv name uentry parent proc s st
            ≡ ok (proc, s', st'))
          × (l.held st' ≡ l.held st)
          × Keeps s s' proc uentry)
set_up-ends sv l name uentry parent proc s st some_parent =
    let pid = u16 (sv.bitmap_find_and_set st).0 in
    let s₁ = prepare_process sv name uentry parent proc pid s in
    let (s₂, linked, k) =
      link-Keeps proc parent uentry s s₁ some_parent
        (prepare-Keeps sv name uentry parent proc pid s) in
    elim (Bool-cases (pid == sv.pid_bitmap_len)) [
      | inl none_left ↦
          inl (set_up_none sv name uentry parent proc s st none_left, ==→≡ _ _ none_left)
      | inr found ↦ inr (
        _,
        (sv.bitmap_find_and_set st).1,
        set_up_some sv name uentry parent proc s s₂ st found linked,
        l.pid_lem st,
        rw (≡→== proc proc refl) k,
      )
    ]

module _ (sv : Services) (l : Ledger sv) (name uentry parent : ℕ) (some_parent : parent ≢ 0)
    (held : List Resource) (proc kstack : ℕ) where
  -- The labels at the end give back what is held.
  vmm_fails :
      (s : Store) (st : sv.State)
      → l.held st ≡ heap_memory kstack ∷ heap_memory proc ∷ held
      → EndsIn sv l.held uentry held (fail_vmm sv proc kstack s st)
  unfolding fail_vmm
  vmm_fails s st has = elim (Result-cases (sv.kfree kstack st)) [
    | inl (e, f) ↦ failed e (rw f refl) (in_kfree kstack st f)
    | inr (st₁, f) ↦
        let has₁ = l.kfree_lem kstack st (heap_memory proc ∷ held) st₁ has f in
        elim (Result-cases (sv.kfree proc st₁)) [
          | inl (e, g) ↦ failed e (rw (f, g) refl) (in_kfree proc st₁ g)
          | inr (st₂, g) ↦ refused s st₂ (rw (f, g) refl) (l.kfree_lem proc st₁ held st₂ has₁ g)
        ]
  ]

  ustack_fails :
      (space : ℕ) (s : Store) (st : sv.State)
      → l.held st ≡ address_space space ∷ heap_memory kstack ∷ heap_memory proc ∷ held
      → EndsIn sv l.held uentry held (fail_ustack sv proc kstack space s st)
  unfolding fail_ustack
  ustack_fails space s st has = elim (Result-cases (sv.vmm_delete_space space st)) [
    | inl (e, f) ↦ failed e (rw f refl) (in_delete space st f)
    | inr (st₁, f) ↦
        let has₁ = l.delete_lem space st (heap_memory kstack ∷ heap_memory proc ∷ held) st₁ has f in
        rw f (vmm_fails s st₁ has₁)
  ]

  set_up_last :
      (space : ℕ) (s : Store) (st : sv.State)
      → proc ≢ 0
      → (s.procs proc).kstack ≡ kstack
      → (s.procs proc).space ≡ space
      → l.held st ≡ address_space space ∷ heap_memory kstack ∷ heap_memory proc ∷ held
      → EndsIn sv l.held uentry held (set_up_process sv name uentry parent proc s st)
  set_up_last space s st some_proc at_stack at_space has =
      elim (set_up-ends sv l name uentry parent proc s st some_parent) [
        | inl (none_left, full) ↦ exhausted st full none_left
        | inr (s', st', found, same, (to_stack, to_space, to_state, to_rip)) ↦
            created proc kstack space s' st' found some_proc (same ∙ has) (to_stack ∙ at_stack)
              (to_space ∙ at_space) to_state to_rip
      ]

  give_ustack-EndsIn :
      (space : ℕ) (s : Store) (st : sv.State)
      → proc ≢ 0
      → (s.procs proc).kstack ≡ kstack
      → (s.procs proc).space ≡ space
      → l.held st ≡ address_space space ∷ heap_memory kstack ∷ heap_memory proc ∷ held
      → EndsIn sv l.held uentry held (give_ustack sv name uentry parent proc kstack space s st)
  unfolding give_ustack
  give_ustack-EndsIn space s st some_proc at_stack at_space has =
      elim (Result-cases (sv.vmm_copy_regions space st)) [
        | inl (e, f) ↦ failed e (rw f refl) (in_copy space st f)
        | inr (st₁, e₁) ↦ elim (Result-cases (sv.vmm_alloc_at space 0xf000 8 st₁)) [
          | inl (e, f) ↦ failed e (rw (e₁, f) refl) (in_alloc_at space 0xf000 8 st₁ f)
          | inr ((ustack, st₂), e₂) ↦
              let has₂ =
                l.alloc_at_lem space 0xf000 8 st₁ ustack st₂ e₂
                ∙ l.copy_lem space st st₁ e₁
                ∙ has in
              elim (Bool-cases (ustack == 0)) [
                | inl no_ustack ↦ rw (e₁, e₂, no_ustack) (ustack_fails space s st₂ has₂)
                | inr some_ustack ↦
                    rw (e₁, e₂, some_ustack)
                      (set_up_last space s st₂ some_proc at_stack at_space has₂)
              ]
        ]
      ]

  give_space-EndsIn :
      (s : Store) (st : sv.State)
      → proc ≢ 0
      → (s.procs proc).kstack ≡ kstack
      → l.held st ≡ heap_memory kstack ∷ heap_memory proc ∷ held
      → EndsIn sv l.held uentry held (give_space sv name uentry parent proc kstack s st)
  unfolding give_space
  give_space-EndsIn s st some_proc at_stack has = elim (Result-cases (sv.vmm_create_space st)) [
    | inl (e, f) ↦ failed e (rw f refl) (in_create st f)
    | inr ((space, st'), e) ↦
        let h = l.create_lem st space st' e in
        let s' = set_process proc (record (s.procs proc) { space = space }) s in
        let self : (proc == proc) ≡ true = ≡→== proc proc refl in
        elim (Bool-cases (space == 0)) [
          | inl no_space ↦ rw (e, no_space) (vmm_fails s' st' ((rw no_space at h) ∙ has))
          | inr some_space ↦
              let more : l.held st' ≡ address_space space ∷ l.held st = rw some_space at h in
              rw (e, some_space)
                (give_ustack-EndsIn space s' st' some_proc (rw self at_stack) (rw self refl)
                  (more ∙ ap (λ r. address_space space ∷ r) has))
        ]
  ]

give_kstack-EndsIn :
    (sv : Services) (l : Ledger sv) (name uentry parent proc : ℕ) (held : List Resource) (s : Store)
    (st : sv.State)
    → parent ≢ 0
    → proc ≢ 0
    → l.held st ≡ heap_memory proc ∷ held
    → EndsIn sv l.held uentry held (give_kstack sv name uentry parent proc s st)
unfolding give_kstack fail_kstack
give_kstack-EndsIn sv l name uentry parent proc held s st some_parent some_proc has =
    elim (Result-cases (sv.kmalloc kernel_stack_size st)) [
      | inl (e, f) ↦ failed e (rw f refl) (in_kmalloc kernel_stack_size st f)
      | inr ((kstack, st'), e) ↦
          let h = l.kmalloc_lem kernel_stack_size st kstack st' e in
          let s' = set_process proc (record (s.procs proc) { kstack = kstack }) s in
          let self : (proc == proc) ≡ true = ≡→== proc proc refl in
          elim (Bool-cases (kstack == 0)) [
            | inl no_kstack ↦ elim (Result-cases (sv.kfree proc st')) [
              | inl (r, f) ↦ failed r (rw (e, no_kstack, f) refl) (in_kfree proc st' f)
              | inr (st'', f) ↦
                  refused s' st'' (rw (e, no_kstack, f) refl)
                    (l.kfree_lem proc st' held st'' ((rw no_kstack at h) ∙ has) f)
            ]
            | inr some_kstack ↦
                let more : l.held st' ≡ heap_memory kstack ∷ l.held st = rw some_kstack at h in
                rw (e, some_kstack)
                  (give_space-EndsIn sv l name uentry parent some_parent held proc kstack s' st'
                    some_proc (rw self refl) (more ∙ ap (λ r. heap_memory kstack ∷ r) has))
          ]
    ]

pub ledger-EndsIn :
    (sv : Services) (l : Ledger sv) (name uentry parent : ℕ) (s : Store) (st : sv.State)
    → parent ≢ 0
    → EndsIn sv l.held uentry (l.held st) (process_create sv name uentry parent s st)
unfolding process_create
ledger-EndsIn sv l name uentry parent s st some_parent =
    elim (Result-cases (sv.kmalloc sv.sizeof_process st)) [
      | inl (e, f) ↦ failed e (rw f refl) (in_kmalloc sv.sizeof_process st f)
      | inr ((proc, st'), e) ↦
          let h = l.kmalloc_lem sv.sizeof_process st proc st' e in
          elim (Bool-cases (proc == 0)) [
            | inl no_proc ↦ refused s st' (rw (e, no_proc) refl) (rw no_proc at h)
            | inr some_proc ↦
                rw (e, some_proc)
                  (give_kstack-EndsIn sv l name uentry parent proc (l.held st) s st' some_parent
                    (λ zero_proc. contradiction some_proc (≡→== proc 0 zero_proc))
                    (rw some_proc at h))
          ]
    ]
  where
    contradiction : {t : Bool} → t ≡ false → t ≡ true → ⊥
    contradiction x y = cc
