-- ===== src/Tasks/Create/Ledger/Ends.antt =====
-- How `process_create` ends, with what it took on record.
use b0s.Base.{ℕ, ◌≡◌, ◌≢◌, refl, ap, ◌∙◌, ≡→==, List, ◌∷◌}
use b0s.Base.Result.{Result, ok, panic, ◌>>=◌}
use b0s.Tasks.Create.{Services, Store, process_create}
use b0s.Tasks.Create.Ledger.{
  Resource, heap_memory, address_space, with_new, without, is_same, recorded, Ledger, EndsIn,
}
use b0s.Tasks.Create.Ledger.Steps.{ledger-EndsIn}

without_first : (x : Resource) (rest : List Resource) → without x (x ∷ rest) ≡ rest
unfolding without is_same
without_first (heap_memory p) rest = rw (≡→== p p refl) refl
without_first (address_space p) rest = rw (≡→== p p refl) refl

-- The record after a call that returned.
after_pair :
    {S : Type 0} (r : Result (ℕ × S)) (record_of : ℕ → List Resource) (p : ℕ)
    (st' : S × List Resource)
    → ◌>>=◌ {B = ℕ × (S × List Resource)} r (λ (q, st). ok (q, (st, record_of q))) ≡ ok (p, st')
    → st'.1 ≡ record_of p
after_pair (panic e) record_of p st' h = cc
after_pair (ok (q, st)) record_of p st' h = cc

after_call :
    {S : Type 0} (r : Result S) (held : List Resource) (st' : S × List Resource)
    → ◌>>=◌ {B = S × List Resource} r (λ st. ok (st, held)) ≡ ok st'
    → st'.1 ≡ held
after_call (panic e) held st' h = cc
after_call (ok st) held st' h = cc

recorded_ledger : (sv : Services) → Ledger (recorded sv)
recorded_ledger sv = record {
  held = λ st. st.1;
  kmalloc_lem = λ n st p st' e. after_pair _ (λ q. with_new heap_memory q st.1) p st' e;
  kfree_lem = λ p st rest st' has e.
      after_call _ (without (heap_memory p) st.1) st' e
      ∙ ap (without (heap_memory p)) has
      ∙ without_first (heap_memory p) rest;
  create_lem = λ st p st' e. after_pair _ (λ q. with_new address_space q st.1) p st' e;
  delete_lem = λ p st rest st' has e.
      after_call _ (without (address_space p) st.1) st' e
      ∙ ap (without (address_space p)) has
      ∙ without_first (address_space p) rest;
  copy_lem = λ p st st' e. after_call _ st.1 st' e;
  alloc_at_lem = λ p va pages st a st' e. after_pair _ (λ q. st.1) a st' e;
  pid_lem = λ st. refl;
}

abbrev pub held_in : (sv : Services) → sv.State × List Resource → List Resource
held_in sv st = st.1

-- With a parent, over any services with a record of what they gave and were given back,
-- `process_create` ends in one of four ways: it returns a ready process that starts at `uentry` and
-- holds its structure, its stack and the structure of its space, and nothing else is held that was not
-- before; it returns NULL and all of these that it took were given back; it panics as no process
-- number is left; or a service panics.
pub process_create-EndsIn :
    (sv : Services) (name uentry parent : ℕ) (s : Store) (st : sv.State) (held : List Resource)
    → parent ≢ 0
    → EndsIn
        (recorded sv)
        (held_in sv)
        uentry
        held
        (process_create (recorded sv) name uentry parent s (st, held))
unfolding recorded_ledger
process_create-EndsIn sv name uentry parent s st held some_parent =
    ledger-EndsIn (recorded sv) (recorded_ledger sv) name uentry parent s (st, held) some_parent
