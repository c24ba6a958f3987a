-- ===== src/Pmm/Alloc/Outcome.antt =====
-- What `pmm_alloc` does to the pages of the table: it takes the first free one, or finds none.
use b0s.Base.{
  ℕ, zero, suc, ◌*◌, ◌<◌, ◌≤◌, ◌≡◌, ◌≢◌, ◌⊎◌, sym, ◌∙◌, arith, true, Option, none, some, List, [],
  ◌∷◌, get_elem?, All,
}
use mathlib.Core.Path.{subst}
use b0s.Base.Word.{add64, mul64, page_size}
use b0s.Memory.{Memory}
use b0s.Bitmap.{Bitmap}
use b0s.Bitmap.Slot.{slot}
use b0s.Pmm.State.{Region, is_available}
use b0s.Pmm.Alloc.Pages.{Apart}

-- Slot `t` is the lowest free one of the words of the bitmap.
pub record Lowest (m : Memory) (bm : Bitmap) (t : ℕ) : Type 0 where
  pub below : t < bm.size_in_block * 64
  pub free : slot m bm t ≡ 1
  pub first : (j : ℕ) → j < t → slot m bm j ≡ 0

-- A region that the search can be sent to: its length fits its words, and if it is available
-- some bit of them is still 1, if only one past the length.
abbrev pub IsReady : Memory → Region → Type 0
IsReady m r =
    (r.bitmap.len ≤ r.bitmap.size_in_block * 64)
    × (is_available r.type ≡ true → (t : ℕ) × Lowest m r.bitmap t)

-- The bitmaps share no byte.
abbrev pub AreSeparate : List Region → Type 0
AreSeparate [] = Unit
AreSeparate (r ∷ rs) = All (λ r'. Apart r.bitmap r'.bitmap) rs × AreSeparate rs

-- `r` is entry `k` of the table, and `j` one of its pages.
abbrev pub IsPage : List Region → ℕ → Region → ℕ → Type 0
IsPage rs k r j = (get_elem? rs k ≡ some r) × (j < r.bitmap.len)

-- Page `j` of entry `k`, free in `m`, is taken in `m'`; it was the first free page, and no other
-- page has changed.
pub record Took (rs : List Region) (m m' : Memory) (pa : ℕ) : Type 0 where
  pub k : ℕ
  pub r : Region
  pub j : ℕ
  pub page : IsPage rs k r j
  pub usable : is_available r.type ≡ true
  pub address : pa ≡ add64 r.addr (mul64 j page_size)
  pub was_free : slot m r.bitmap j ≡ 1
  pub is_taken : slot m' r.bitmap j ≡ 0
  pub first :
      (k' : ℕ) (r' : Region) (j' : ℕ)
      → IsPage rs k' r' j'
      → is_available r'.type ≡ true
      → (k' < k) ⊎ ((k' ≡ k) × (j' < j))
      → slot m r'.bitmap j' ≡ 0
  pub others :
      (k' : ℕ) (r' : Region) (j' : ℕ)
      → IsPage rs k' r' j'
      → (k' ≢ k) ⊎ (j' ≢ j)
      → slot m' r'.bitmap j' ≡ slot m r'.bitmap j'

-- Every page of an available region is taken, and none has changed.
pub record Full (rs : List Region) (m m' : Memory) : Type 0 where
  pub all_taken :
      (k : ℕ) (r : Region) (j : ℕ)
      → IsPage rs k r j
      → is_available r.type ≡ true
      → slot m r.bitmap j ≡ 0
  pub same : (k : ℕ) (r : Region) (j : ℕ) → IsPage rs k r j → slot m' r.bitmap j ≡ slot m r.bitmap j

abbrev pub TakesFirst : List Region → Memory → Memory → Option ℕ → Type 0
TakesFirst rs m m' none = Full rs m m'
TakesFirst rs m m' (some pa) = Took rs m m' pa

pub All-at {ℓ} :
    {A : Type ℓ} (P : A → Type 0) (xs : List A) (k : ℕ) {x : A}
    → All P xs
    → get_elem? xs k ≡ some x
    → P x
All-at P [] k all e = cc
All-at P (y ∷ ys) zero {x} all e = let same : y ≡ x = cc in subst P same all.0
All-at P (y ∷ ys) (suc k) all e = All-at P ys k all.1 e

pub All-map {ℓ} :
    {A : Type ℓ} (P Q : A → Type 0) (xs : List A) → ((x : A) → P x → Q x) → All P xs → All Q xs
All-map P Q [] f all = tt
All-map P Q (x ∷ xs) f all = (f x all.0, All-map P Q xs f all.1)

-- A fact of the entries of a table from its head and its tail.
pub at_cons :
    (r : Region) (rs : List Region) (Q : ℕ → Region → Type 0)
    → Q 0 r
    → ((k : ℕ) (r' : Region) → get_elem? rs k ≡ some r' → Q (suc k) r')
    → (k : ℕ) (r' : Region) → get_elem? (r ∷ rs) k ≡ some r'
    → Q k r'
at_cons r rs Q head tail zero r' e = let same : r ≡ r' = cc in subst (Q 0) same head
at_cons r rs Q head tail (suc k) r' e = tail k r' e

-- The outcome for the tail of the table is that for the whole, when the head has no free page
-- and keeps its pages.
module _ (r : Region) (rs : List Region) (m m' : Memory)
    (taken : is_available r.type ≡ true → (j : ℕ) → j < r.bitmap.len → slot m r.bitmap j ≡ 0)
    (kept : (j : ℕ) → j < r.bitmap.len → slot m' r.bitmap j ≡ slot m r.bitmap j) where
  lift-Full : Full rs m m' → Full (r ∷ rs) m m'
  lift-Full f = record {
    all_taken = λ k r' j p usable.
        at_cons r rs
          (λ k r'. is_available r'.type ≡ true → j < r'.bitmap.len → slot m r'.bitmap j ≡ 0)
          (λ u lt. taken u j lt) (λ k r' e u lt. f.all_taken k r' j (e, lt) u) k r' p.0 usable p.1;
    same = λ k r' j p.
        at_cons r rs (λ k r'. j < r'.bitmap.len → slot m' r'.bitmap j ≡ slot m r'.bitmap j)
          (λ lt. kept j lt) (λ k r' e lt. f.same k r' j (e, lt)) k r' p.0 p.1;
  }

  lift-Took : (pa : ℕ) → Took rs m m' pa → Took (r ∷ rs) m m' pa
  lift-Took pa t = record {
    k = suc t.k;
    r = t.r;
    j = t.j;
    page = t.page;
    usable = t.usable;
    address = t.address;
    was_free = t.was_free;
    is_taken = t.is_taken;
    first = λ k r' j p usable before.
        at_cons r rs
          (λ k r'.
            is_available r'.type ≡ true
            → j < r'.bitmap.len
            → (k < suc t.k) ⊎ ((k ≡ suc t.k) × (j < t.j))
            → slot m r'.bitmap j ≡ 0)
          (λ u lt b. taken u j lt) (λ k r' e u lt b. t.first k r' j (e, lt) u (omega arith)) k r'
          p.0 usable p.1 before;
    others = λ k r' j p ne.
        at_cons r rs
          (λ k r'.
            j < r'.bitmap.len
            → (k ≢ suc t.k) ⊎ (j ≢ t.j)
            → slot m' r'.bitmap j ≡ slot m r'.bitmap j)
          (λ lt n. kept j lt) (λ k r' e lt n. t.others k r' j (e, lt) (omega arith)) k r' p.0 p.1
          ne;
  }

  pub lift-TakesFirst : (out : Option ℕ) → TakesFirst rs m m' out → TakesFirst (r ∷ rs) m m' out
  lift-TakesFirst none f = lift-Full f
  lift-TakesFirst (some pa) t = lift-Took pa t

-- The outcome from a memory that holds the same pages.
module _ (rs : List Region) (m m₁ m' : Memory)
    (same : (k : ℕ) (r : Region) (j : ℕ)
      → IsPage rs k r j
      → slot m₁ r.bitmap j ≡ slot m r.bitmap j) where
  pub rebase : (out : Option ℕ) → TakesFirst rs m₁ m' out → TakesFirst rs m m' out
  rebase none f = record {
    all_taken = λ k r j p u. sym (same k r j p) ∙ f.all_taken k r j p u;
    same = λ k r j p. f.same k r j p ∙ same k r j p;
  }
  rebase (some pa) t = record {
    k = t.k;
    r = t.r;
    j = t.j;
    page = t.page;
    usable = t.usable;
    address = t.address;
    was_free = sym (same t.k t.r t.j t.page) ∙ t.was_free;
    is_taken = t.is_taken;
    first = λ k r j p u b. sym (same k r j p) ∙ t.first k r j p u b;
    others = λ k r j p ne. t.others k r j p ne ∙ same k r j p;
  }
