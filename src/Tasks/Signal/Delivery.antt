-- ===== src/Tasks/Signal/Delivery.antt =====
-- What sending and delivering a signal do to the pending set.
use b0s.Base.{
  ℕ, zero, suc, ◌+◌, ◌^◌, ◌<◌, ◌≤◌, ◌≡◌, ◌≢◌, ◌⊎◌, refl, ap, ◌∙◌, inl, inr, arith, Bool-cases, ◌==◌,
  if◌then◌else◌, ◌&&◌, ◌||◌, Bool, true, false, some, ==→≡, ==→≢, ≡→==, ≢→==, gt→leb,
}
use b0s.Base.Bits.{bit, bit-zero, bit-set_one, bit-clear, bit-lt-two}
use b0s.Base.Mask.{mask-eq-zero, mask-ne-zero}
use b0s.Bitmap.{Compiler}
use b0s.Bitmap.Unset.{FollowsC}
use b0s.Tasks.Process.{Process, ProcessState, running, ready, stopped, zombie}
use b0s.Tasks.Signal.{signal_is_set, signal_set, signal_unset, signal_send, signal_deliver}
use b0s.Tasks.Signal.{first_pending, default_action, process_nsig}

abbrev pub is_stopped : ProcessState → Bool
is_stopped running = false
is_stopped ready = false
is_stopped stopped = true
is_stopped zombie = false

default_state :
    (s : ℕ) (state : ProcessState)
    → default_action s state
      ≡ (if s == 2 then stopped else (if s == 3 && is_stopped state then ready else state))
unfolding default_action
default_state s running = ground arith
default_state s ready = ground arith
default_state s stopped = ground arith
default_state s zombie = ground arith

module _ (c : Compiler) where
  signal_is_set-bit : (w k : ℕ) → c.int_one_shl k ≡ 2 ^ k → signal_is_set c w k ≡ (bit w k == 1)
  unfolding signal_is_set
  signal_is_set-bit w k shift = elim (Bool-cases (bit w k == 1)) [
    | inl one ↦ let e = ==→≡ _ 1 one in rw (one, shift, ≢→== _ 0 (mask-ne-zero w k e))
    | inr other ↦
        let z : bit w k ≡ 0 = ground (arith, bit-lt-two w k) in
        rw (other, shift, ≡→== _ 0 (mask-eq-zero w k z))
  ]

  -- A signal in the range where C defines the shift is accepted; it becomes pending unless it is
  -- masked, and no other signal's state changes.
  pub signal_send_lem :
      FollowsC c
      → (proc : Process) (signum : ℕ) → signum < 31
      → (proc' : Process) × (signal_send c proc signum ≡ some proc')
        × ((j : ℕ)
            → bit proc'.pending_signals j ≡ (
                if j == signum && bit proc.masked_signals signum == 0
                then 1
                else bit proc.pending_signals j))
        × (proc'.masked_signals ≡ proc.masked_signals)
        × (proc'.state ≡ proc.state)
  unfolding signal_send signal_set
  signal_send_lem std proc signum lt =
      let shift = std signum lt in
      let known = gt→leb process_nsig signum (omega arith) in
      let is_set = signal_is_set-bit proc.masked_signals signum shift in
      elim (Bool-cases (bit proc.masked_signals signum == 1)) [
        | inl masked ↦ (proc, rw (known, is_set, masked), λ j. ground arith, refl, refl)
        | inr unmasked ↦
            let z = bit-lt-two proc.masked_signals signum in
            (
              record proc { pending_signals = signal_set c proc.pending_signals signum },
              rw (known, is_set, unmasked),
              λ j.
                  rw shift
                    (ground (arith, z, bit-set_one proc.pending_signals signum j (omega arith))),
              refl,
              refl,
            )
      ]

  -- The search ends at the lowest pending signal.
  first_pending_least :
      FollowsC c
      → (left signum s pending : ℕ) → s < 31
      → signum ≤ s
      → s < signum + left
      → bit pending s ≡ 1
      → ((j : ℕ) → j < s → bit pending j ≡ 0)
      → first_pending c left signum pending ≡ s
  unfolding first_pending
  first_pending_least std zero signum s pending small lo hi one below = absurd (omega arith)
  first_pending_least std (suc left) signum s pending small lo hi one below =
      let is_set = signal_is_set-bit pending signum (std signum (omega arith)) in
      elim (Bool-cases (signum == s)) [
        | inl same ↦
            let e = ==→≡ signum s same in
            let set = ap (λ (t : ℕ). bit pending t) e ∙ one in rw (is_set, ≡→== _ 1 set) e
        | inr other ↦
            let ne = ==→≢ signum s other in
            let z = below signum (omega arith) in
            let unset : bit pending signum ≢ 1 = omega (arith, z) in
            rw (is_set, ≢→== _ 1 unset)
              (first_pending_least std left (signum + 1) s pending small (omega arith) (omega arith)
                one below)
      ]

  -- With the lowest pending signal in the range where C defines the shift, delivery takes that one
  -- signal off the set. With a handler, and unless it is signal 0, the user frame is saved and goes
  -- on in the handler with the signal as its argument. Else the frame stays, and the state changes by
  -- signals 2 and 3 alone: 2 stops the process, and 3 makes it ready if it is stopped. Whether the
  -- signal is masked has no part in it.
  pub signal_deliver_lem :
      FollowsC c
      → (proc : Process) (s : ℕ) → s < 31
      → bit proc.pending_signals s ≡ 1
      → ((j : ℕ) → j < s → bit proc.pending_signals j ≡ 0)
      → let proc' = signal_deliver c proc in
        ((j : ℕ)
          → j < 64
          → bit proc'.pending_signals j ≡ (if j == s then 0 else bit proc.pending_signals j))
        × (proc.signals_handlers s ≢ 0
            → s ≢ 0
            → (proc'.saved_tf ≡ proc.tf)
              × (proc'.tf.rip ≡ proc.signals_handlers s)
              × (proc'.tf.rdi ≡ s)
              × (proc'.state ≡ proc.state))
        × ((proc.signals_handlers s ≡ 0) ⊎ (s ≡ 0)
            → (proc'.tf ≡ proc.tf)
              × (proc'.state ≡ (
                  if s == 2
                  then stopped
                  else (if s == 3 && is_stopped proc.state then ready else proc.state))))
  unfolding signal_deliver signal_unset
  signal_deliver_lem std proc s small one below =
      let found =
        first_pending_least std process_nsig 0 s proc.pending_signals small (omega arith)
          (omega arith) one below in
      let some_pending : proc.pending_signals ≢ 0 =
        λ e. absurd (omega (arith, one, ap (λ (t : ℕ). bit t s) e, bit-zero s)) in
      let shift = std s small in
      let cleared = λ (j : ℕ) (lt : j < 64). bit-clear proc.pending_signals s j (omega arith) lt in
      elim (Bool-cases (proc.signals_handlers s == 0 || s == 0)) [
        | inl default ↦
            rw (≢→== _ 0 some_pending, found, default, shift)
              (cleared, λ h k. absurd (ground arith), λ h. (refl, default_state s proc.state))
        | inr handled ↦
            rw (≢→== _ 0 some_pending, found, handled, shift)
              (cleared, λ h k. (refl, refl, refl, refl), λ h. absurd (ground arith))
      ]
