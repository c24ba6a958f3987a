-- ===== src/Console/Printk/Digits.antt =====
-- The digits that are put stand for the number.
use b0s.Base.{
  ℕ, zero, suc, ◌+◌, ◌-◌, ◌*◌, ◌/◌, ◌%◌, ◌^◌, ◌<◌, ◌≤◌, ◌≡◌, ◌≢◌, refl, ap, ◌∙◌, inl, inr, arith,
  ltb, leb, ◌==◌, if◌then◌else◌, Bool, true, ◌&&◌, Bool-cases, List, [], ◌∷◌, length, leb→le, ==→≡,
  ==→≢,
}
use native.Mathlib.Nat.{pow-suc, div-add-mod, div-lt_iff_lt-mul, div-eq_of_lt, mod-lt, mul_comm}
use Prim.Native.Nat.pow
use b0s.Base.Digit.{mod_split}
use mathlib.Core.Path.{subst}
use b0s.Console.Printk.{u64_max_log_base, hex_alpha, chars, fill_loop}
use b0s.Console.Printk.{putnbr, ptr_loop, putptr}

-- The value of a character as a digit.
abbrev pub digit_of : ℕ → ℕ
digit_of c = if ltb c b'a' then c - b'0' else c - b'a' + 10

-- The number that a text of digits stands for, after the number `acc` so far.
unfoldable pub value : ℕ → ℕ → List ℕ → ℕ
value base acc [] = acc
value base acc (c ∷ cs) = value base (acc * base + digit_of c) cs

-- A test at every number below a bound, by evaluation.
all_below : ℕ → (ℕ → Bool) → Bool
all_below zero test = true
all_below (suc n) test = test n && all_below n test

all_below-at : (d n : ℕ) (test : ℕ → Bool) → all_below n test ≡ true → d < n → test d ≡ true
unfolding all_below
all_below-at d zero test h lt = absurd (omega arith)
all_below-at d (suc n) test h lt = elim (Bool-cases (d == n)) [
  | inl same ↦ let e : d ≡ n = ==→≡ d n same in rw e (and_left _ _ h)
  | inr other ↦
      let ne : d ≢ n = ==→≢ d n other in all_below-at d n test (and_right _ _ h) (omega arith)
]
  where
    and_left : (a b : Bool) → (a && b) ≡ true → a ≡ true
    and_left a b p = ground arith

    and_right : (a b : Bool) → (a && b) ≡ true → b ≡ true
    and_right a b p = ground arith

digits_fit : all_below 16 (λ d. digit_of (hex_alpha d) == d) ≡ true
unfolding all_below
digits_fit = refl

hex_digit : (d : ℕ) → d < 16 → digit_of (hex_alpha d) ≡ d
hex_digit d lt = ==→≡ _ d (all_below-at d 16 _ digits_fit lt)

-- Each base has room for every u64.
room_fits : all_below 15 (λ b. leb (2 ^ 64) ((b + 2) ^ u64_max_log_base (b + 2))) ≡ true
unfolding all_below
room_fits = refl

-- A number with more than one digit needs more than one cell.
room_left : (room base nbr : ℕ) → nbr < base ^ suc room → nbr / base ≢ 0 → 0 < room
room_left zero base nbr fits q = absurd (q (div-eq_of_lt (rw (pow-one base) at fits)))
  where
    pow-one : (b : ℕ) → b ^ 1 ≡ b
    pow-one b = omega (arith, pow-suc b 0, ap (λ (t : ℕ). t * b) (pow.zero b))
room_left (suc room) base nbr fits q = omega arith

-- Filling keeps the value of what was there, behind that of the number.
fill_loop-value :
    (room base nbr : ℕ) (filled : List ℕ)
    → 2 ≤ base
    → base ≤ 16
    → nbr < base ^ room
    → 0 < room
    → (cs : List ℕ) × (fill_loop room base nbr filled ≡ chars cs)
      × (value base 0 cs ≡ value base nbr filled)
unfolding fill_loop value
fill_loop-value zero base nbr filled lo hi fits pos = absurd (omega arith)
fill_loop-value (suc room) base nbr filled lo hi fits pos = elim (Bool-cases (nbr / base == 0)) [
  | inl done ↦
      let q : nbr / base ≡ 0 = ==→≡ _ 0 done in
      let lifted = ap (λ (t : ℕ). base * t) q in
      let digit = hex_digit (nbr % base) (omega (arith, mod-lt nbr {m = base} (omega arith))) in
      let whole : 0 * base + digit_of (hex_alpha (nbr % base)) ≡ nbr =
        omega (arith, digit, div-add-mod nbr base, lifted) in
      rw done (hex_alpha (nbr % base) ∷ filled, refl, ap (λ (t : ℕ). value base t filled) whole)
  | inr goes_on ↦
      let q : nbr / base ≢ 0 = ==→≢ _ 0 goes_on in
      let digit = hex_digit (nbr % base) (omega (arith, mod-lt nbr {m = base} (omega arith))) in
      let whole : nbr / base * base + digit_of (hex_alpha (nbr % base)) ≡ nbr =
        omega (arith, digit, div-add-mod nbr base) in
      let fits' : nbr / base < base ^ room =
        (div-lt_iff_lt-mul {k = base} (omega arith)).1 (rw (← pow-suc base room) fits) in
      let pos' : 0 < room = room_left room base nbr fits q in
      let (cs, filled_ok, same) =
        fill_loop-value room base (nbr / base) (hex_alpha (nbr % base) ∷ filled) lo hi fits' pos' in
      rw goes_on (cs, filled_ok, same ∙ ap (λ (t : ℕ). value base t filled) whole)
]

-- `putnbr` of a u64 in a base from 2 to 16 writes inside its array, and the characters that it
-- puts stand for the number in that base.
pub putnbr-value :
    (nbr base : ℕ)
    → nbr < 2 ^ 64
    → 2 ≤ base
    → base ≤ 16
    → (cs : List ℕ) × (putnbr nbr base ≡ chars cs) × (value base 0 cs ≡ nbr)
unfolding putnbr value
putnbr-value nbr base lt lo hi =
    let known = all_below-at (base - 2) 15 _ room_fits (omega arith) in
    let same : base - 2 + 2 ≡ base = omega arith in
    let room : 2 ^ 64 ≤ base ^ u64_max_log_base base =
      leb→le _ _ (subst (λ b. leb (2 ^ 64) (b ^ u64_max_log_base b) ≡ true) same known) in
    fill_loop-value (u64_max_log_base base) base nbr [] lo hi (omega (arith, room))
      (some_room (u64_max_log_base base) room)
  where
    some_room : (n : ℕ) → 2 ^ 64 ≤ base ^ n → 0 < n
    some_room zero h = absurd (omega (arith, pow.zero base))
    some_room (suc n) h = omega arith

ptr_loop-value :
    (room ptr : ℕ) (filled : List ℕ)
    → (value 16 0 (ptr_loop room ptr filled) ≡ value 16 (ptr % 16 ^ room) filled)
      × (length (ptr_loop room ptr filled) ≡ room + length filled)
unfolding ptr_loop value
ptr_loop-value zero ptr filled = (ap (λ (t : ℕ). value 16 t filled) (omega arith), omega arith)
ptr_loop-value (suc room) ptr filled =
    let rest = ptr_loop-value room (ptr / 16) (hex_alpha (ptr % 16) ∷ filled) in
    let digit = hex_digit (ptr % 16) (omega arith) in
    let split = mod_split 16 (16 ^ room) ptr in
    let base_pow = ap (λ (t : ℕ). ptr % t) (pow-suc 16 room ∙ mul_comm (16 ^ room) 16) in
    (
      rest.0 ∙ ap (λ (t : ℕ). value 16 t filled) (omega (arith, digit, split, base_pow)),
      omega (arith, rest.1),
    )

-- `putptr` of a u64 puts `0x` and 16 hexadecimal digits, which stand for it.
pub putptr-value :
    (ptr : ℕ)
    → ptr < 2 ^ 64
    → (cs : List ℕ) × (putptr ptr ≡ b'0' ∷ b'x' ∷ cs) × (length cs ≡ 16) × (value 16 0 cs ≡ ptr)
unfolding putptr value
putptr-value ptr lt =
    let all = ptr_loop-value 16 ptr [] in
    (ptr_loop 16 ptr [], refl, omega (arith, all.1), all.0 ∙ omega arith)
