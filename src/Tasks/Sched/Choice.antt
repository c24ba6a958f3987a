-- ===== src/Tasks/Sched/Choice.antt =====
-- Which process is switched to.
use b0s.Base.{
  ℕ, zero, suc, ◌<◌, ◌≡◌, ◌≢◌, refl, inl, inr, arith, Bool-cases, ◌==◌, if◌then◌else◌, false, List,
  [], ◌∷◌, length, All, ≡→==, ≢→==,
}
use b0s.Base.Result.{ok}
use b0s.Bitmap.{Compiler}
use b0s.Tasks.Ring.{Heads}
use b0s.Tasks.Signal.{signal_deliver}
use b0s.Tasks.Sched.{Sched, is_ready, is_zombie, switch_loop, sched_switch}

-- The nodes from `pos` on up to `end`, in the order of the links.
pub data IsPath (h : Heads) (end : ℕ) : ℕ → List ℕ → Type 0 where
  arrived : IsPath h end end []
  onward :
      (pos : ℕ) (rest : List ℕ)
      → pos ≢ end
      → IsPath h end (h.next pos) rest
      → IsPath h end pos (pos ∷ rest)

-- The first ready process of a list, or the sleeper.
unfoldable pub first_ready : Sched → List ℕ → ℕ
first_ready s [] = s.schleeper
first_ready s (p ∷ ps) = if is_ready (s.procs p).state then p else first_ready s ps

abbrev pub IsLive : Sched → ℕ → Type 0
IsLive s p = is_zombie (s.procs p).state ≡ false

switch_loop-first_ready :
    (rounds : ℕ) (c : Compiler) (pos : ℕ) (s : Sched) (ps : List ℕ)
    → IsPath s.heads s.current pos ps
    → All (IsLive s) ps
    → length ps < rounds
    → (s' : Sched) × (switch_loop rounds c pos (s.heads.next pos) s ≡ ok (first_ready s ps, s'))
unfolding switch_loop first_ready
switch_loop-first_ready zero c pos s ps path live lt = absurd (omega arith)
switch_loop-first_ready (suc rounds) c pos s [] arrived live lt =
    (s, rw (≡→== s.current s.current refl))
switch_loop-first_ready (suc rounds) c pos s (p ∷ ps) (onward _ _ ne rest) live lt =
    elim (Bool-cases (is_ready (s.procs p).state)) [
      | inl chosen ↦ (
        record s { procs = λ a. if a == p then signal_deliver c (s.procs p) else s.procs a },
        rw (≢→== p s.current ne, chosen),
      )
      | inr not_yet ↦
          let (s', out) =
            switch_loop-first_ready rounds c (s.heads.next p) s ps rest live.1 (omega arith) in
          (s', rw (≢→== p s.current ne, not_yet, live.0) out)
    ]

-- With no zombie in the ring and more rounds than it has nodes, `sched_switch` returns: it chooses
-- the first ready process behind the running one, or the sleeper when none is ready.
pub sched_switch-first_ready :
    (rounds : ℕ) (c : Compiler) (s : Sched) (ps : List ℕ)
    → IsPath s.heads s.current (s.heads.next s.current) ps
    → All (IsLive s) ps
    → length ps < rounds
    → (s' : Sched) × (sched_switch rounds c s ≡ ok (first_ready s ps, s'))
unfolding sched_switch
sched_switch-first_ready rounds c s ps path live lt =
    switch_loop-first_ready rounds c (s.heads.next s.current) s ps path live lt
