-- ===== src/Cpu/Switch/Words.antt =====
-- What lies on a stack, and what pushes and pops do to it.
use b0s.Base.{
  ℕ, ◌+◌, ◌-◌, ◌*◌, ◌%◌, ◌^◌, ◌≤◌, ◌<◌, ◌≡◌, ◌⊎◌, refl, ap, ◌∙◌, sym, inr, arith, List, [], ◌∷◌,
  length, All, suc,
}
use b0s.Base.Word.{sub64}
use mathlib.Core.Path.{subst}
use b0s.Memory.{Memory, load64, store64}
use b0s.Memory.Frame.{load_ext, store_outside, load-store_self, load-store_apart}
use b0s.Cpu.Switch.{Stack, push, pop}

-- The words from an address up.
abbrev pub Holds : Memory → ℕ → List ℕ → Type 0
Holds m p [] = Unit
Holds m p (v ∷ vs) = (load64 m p ≡ v) × Holds m (p + 8) vs

-- Two memories that agree on the words hold the same.
pub ext-Holds :
    (m m' : Memory) (p : ℕ) (vs : List ℕ)
    → ((a : ℕ) → p ≤ a → a < p + 8 * length vs → m' a ≡ m a)
    → Holds m p vs
    → Holds m' p vs
ext-Holds m m' p [] same h = tt
ext-Holds m m' p (v ∷ vs) same h = (
  load_ext 8 m' m p (λ a lo hi. same a lo (omega arith)) ∙ h.0,
  ext-Holds m m' (p + 8) vs (λ a lo hi. same a (omega arith) (omega arith)) h.1,
)

-- A word that is stored below the others leaves them.
store_below-Holds :
    (m : Memory) (q v p : ℕ) (vs : List ℕ) → q + 8 ≤ p → Holds m p vs → Holds (store64 m q v) p vs
store_below-Holds m q v p [] below h = tt
store_below-Holds m q v p (w ∷ ws) below h = (
  load-store_apart 8 8 m q p v (inr below) ∙ h.0,
  store_below-Holds m q v (p + 8) ws (omega arith) h.1,
)

push-rsp : (v : ℕ) (s : Stack) (p : ℕ) → s.rsp ≡ p → 8 ≤ p → p < 2 ^ 64 → (push v s).rsp ≡ p - 8
unfolding push
push-rsp v s p at room top = omega arith

push-memory :
    (v : ℕ) (s : Stack) (p : ℕ)
    → s.rsp ≡ p
    → 8 ≤ p
    → p < 2 ^ 64
    → (push v s).memory ≡ store64 s.memory (p - 8) v
unfolding push
push-memory v s p at room top =
    let down : sub64 s.rsp 8 ≡ p - 8 = omega arith in ap (λ (q : ℕ). store64 s.memory q v) down

push-Holds :
    (v : ℕ) (s : Stack) (vs : List ℕ) (p : ℕ)
    → s.rsp ≡ p
    → v < 2 ^ 64
    → 8 ≤ p
    → p < 2 ^ 64
    → Holds s.memory p vs
    → Holds (push v s).memory (p - 8) (v ∷ vs)
push-Holds v s vs p at word room top h =
    let up : p - 8 + 8 ≡ p = omega arith in
    let cut : v % 256 ^ 8 ≡ v = omega arith in
    let below = store_below-Holds s.memory (p - 8) v p vs (omega arith) h in
    let stored : Holds (store64 s.memory (p - 8) v) (p - 8) (v ∷ vs) =
      (load-store_self 8 s.memory (p - 8) v ∙ cut, rw up below) in
    subst (λ (m : Memory). Holds m (p - 8) (v ∷ vs)) (sym (push-memory v s p at room top)) stored

push_outside :
    (v : ℕ) (s : Stack) (p a : ℕ)
    → s.rsp ≡ p
    → 8 ≤ p
    → p < 2 ^ 64
    → (a < p - 8) ⊎ (p ≤ a)
    → (push v s).memory a ≡ s.memory a
push_outside v s p a at room top out =
    ap (λ (m : Memory). m a) (push-memory v s p at room top)
    ∙ store_outside 8 s.memory (p - 8) v a (omega arith)

-- Several pushes, the first of the list first, and the words that they leave above others.
abbrev pub push_all : List ℕ → Stack → Stack
push_all [] s = s
push_all (v ∷ vs) s = push_all vs (push v s)

abbrev pub pushed : List ℕ → List ℕ → List ℕ
pushed [] ws = ws
pushed (v ∷ vs) ws = pushed vs (v ∷ ws)

pub push_all-Holds :
    (vs : List ℕ) (s : Stack) (ws : List ℕ) (p : ℕ)
    → s.rsp ≡ p
    → All (λ v. v < 2 ^ 64) vs
    → 8 * length vs ≤ p
    → p < 2 ^ 64
    → Holds s.memory p ws
    → ((push_all vs s).rsp ≡ p - 8 * length vs)
      × Holds (push_all vs s).memory (p - 8 * length vs) (pushed vs ws)
push_all-Holds [] s ws p at words room top h = let e : p - 0 ≡ p = omega arith in rw e (at, h)
push_all-Holds (v ∷ vs) s ws p at words room top h =
    let at' = push-rsp v s p at (omega arith) top in
    let h' = push-Holds v s ws p at words.0 (omega arith) top h in
    let (last, holds) =
      push_all-Holds vs (push v s) (v ∷ ws) (p - 8) at' words.1 (omega arith) (omega arith) h' in
    let e : p - 8 - 8 * length vs ≡ p - 8 * suc (length vs) = omega arith in rw (← e) (last, holds)

pub push_all_outside :
    (vs : List ℕ) (s : Stack) (p a : ℕ)
    → s.rsp ≡ p
    → 8 * length vs ≤ p
    → p < 2 ^ 64
    → (a < p - 8 * length vs) ⊎ (p ≤ a)
    → (push_all vs s).memory a ≡ s.memory a
push_all_outside [] s p a at room top out = refl
push_all_outside (v ∷ vs) s p a at room top out =
    let at' = push-rsp v s p at (omega arith) top in
    push_all_outside vs (push v s) (p - 8) a at' (omega arith) (omega arith) (omega arith)
    ∙ push_outside v s p a at (omega arith) top (omega arith)

pub pop_lem :
    (m : Memory) (p v : ℕ)
    → p + 8 < 2 ^ 64
    → load64 m p ≡ v
    → pop (record { memory = m; rsp = p }) ≡ (v, record { memory = m; rsp = p + 8 })
unfolding pop
pop_lem m p v fits e = let up : (p + 8) % 2 ^ 64 ≡ p + 8 = omega arith in rw (e, up)
