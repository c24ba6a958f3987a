-- ===== src/Vmm/Regions/Spec.antt =====
-- The address space as a map: the flags at each address, for a list of regions in order.
use b0s.Base.{
  ℕ, zero, suc, ◌<◌, ◌≤◌, ◌≡◌, ◌⊎◌, refl, inl, inr, arith, ltb, leb, if◌then◌else◌, Bool, true,
  false, ◌&&◌, Bool-cases, Option, none, some, List, [], ◌∷◌, get_elem?, All,
}
use b0s.Base.Result.{Result, Reason, panic}
use b0s.Vmm.Regions.{VmmRegion, NodePool, unwind}

abbrev pub has : VmmRegion → ℕ → Bool
has r a = leb r.va_start a && ltb a r.va_stop

-- The flags of the region that an address lies in.
unfoldable pub flags_at : List VmmRegion → ℕ → Option ℕ
flags_at [] a = none
flags_at (r ∷ rs) a = if has r a then some r.flags else flags_at rs a

-- Regions of at least one byte, in order and apart, from address `lo` on.
abbrev pub IsOrdered : ℕ → List VmmRegion → Type 0
IsOrdered lo [] = Unit
IsOrdered lo (r ∷ rs) = (lo ≤ r.va_start) × (r.va_start < r.va_stop) × IsOrdered r.va_stop rs

-- The same of the regions before a position, nearest first, between `lo` and `hi`.
abbrev pub IsBelow : ℕ → ℕ → List VmmRegion → Type 0
IsBelow lo hi [] = lo ≤ hi
IsBelow lo hi (p ∷ ps) = (p.va_stop ≤ hi) × (p.va_start < p.va_stop) × IsBelow lo p.va_start ps

-- No region shares an address with the range.
abbrev pub IsClear : List VmmRegion → ℕ → ℕ → Type 0
IsClear rs va_start va_stop = All (λ r. (va_stop ≤ r.va_start) ⊎ (r.va_stop ≤ va_start)) rs

-- The call ends in a panic of the pool, at some state of it.
abbrev pub PoolPanics {ℓ} : {A : Type ℓ} (pool : NodePool) → Result A → Type ℓ
PoolPanics {A = A} pool out =
    (e : Reason) × (out ≡ panic e)
    × (st : pool.State) × ((pool.block_alloc st ≡ panic e)
        ⊎ ((node : ℕ) × (pool.block_free node st ≡ panic e)))

pub IsOrdered-weaken : (a b : ℕ) (rs : List VmmRegion) → a ≤ b → IsOrdered b rs → IsOrdered a rs
IsOrdered-weaken a b [] h o = tt
IsOrdered-weaken a b (r ∷ rs) h o = (omega arith, o.1, o.2)

pub IsBelow-weaken : (lo a b : ℕ) (ps : List VmmRegion) → a ≤ b → IsBelow lo a ps → IsBelow lo b ps
IsBelow-weaken lo a b [] h o = omega arith
IsBelow-weaken lo a b (p ∷ ps) h o = (omega arith, o.1, o.2)

pub unwind-IsOrdered :
    (lo hi : ℕ) (before after : List VmmRegion)
    → IsBelow lo hi before
    → IsOrdered hi after
    → IsOrdered lo (unwind before after)
unwind-IsOrdered lo hi [] after b o = IsOrdered-weaken lo hi after b o
unwind-IsOrdered lo hi (p ∷ ps) after b o =
    unwind-IsOrdered lo p.va_start ps (p ∷ after) b.2
      (omega arith, b.1, IsOrdered-weaken p.va_stop hi after b.0 o)

-- The flags that the regions before a position give an address, over those of the rest.
unfoldable pub over : List VmmRegion → ℕ → Option ℕ → Option ℕ
over [] a rest = rest
over (p ∷ ps) a rest = over ps a (if has p a then some p.flags else rest)

pub flags_at-unwind :
    (before after : List VmmRegion) (a : ℕ)
    → flags_at (unwind before after) a ≡ over before a (flags_at after a)
unfolding flags_at over
flags_at-unwind [] after a = refl
flags_at-unwind (p ∷ ps) after a = flags_at-unwind ps (p ∷ after) a

-- At and past the end of the regions before a position only the rest counts.
pub over_past :
    (lo hi a : ℕ) (ps : List VmmRegion) (rest : Option ℕ)
    → IsBelow lo hi ps
    → hi ≤ a
    → over ps a rest ≡ rest
unfolding over
over_past lo hi a [] rest b h = refl
over_past lo hi a (p ∷ ps) rest b h =
    let out : has p a ≡ false = ground arith in
    rw out (over_past lo p.va_start a ps rest b.2 (omega arith))

-- Before a position's end the rest counts for nothing more than what it says there.
pub flags_at_below :
    (lo a : ℕ) (rs : List VmmRegion) → IsOrdered lo rs → a < lo → flags_at rs a ≡ none
unfolding flags_at
flags_at_below lo a [] o h = refl
flags_at_below lo a (r ∷ rs) o h =
    let out : has r a ≡ false = ground arith in
    rw out (flags_at_below r.va_stop a rs o.2 (omega arith))

-- Inside the range the new list says `v`, and outside of it what the old list does.
pub over_maps :
    (before : List VmmRegion) (s e : ℕ) (v : Option ℕ) (a : ℕ) (new old : Option ℕ)
    → IsBelow 0 s before
    → (s ≤ a → a < e → new ≡ v)
    → ((a < s) ⊎ (e ≤ a) → new ≡ old)
    → over before a new ≡ (if leb s a && ltb a e then v else over before a old)
over_maps before s e v a new old b inside outside = elim (Bool-cases (leb s a && ltb a e)) [
  | inl here ↦
      let lo : s ≤ a = ground arith in
      let hi : a < e = ground arith in rw (here, inside lo hi) (over_past 0 s a before v b lo)
  | inr gone ↦ rw (gone, outside (split (Bool-cases (leb s a)) gone))
]
  where
    split : (leb s a ≡ true) ⊎ (leb s a ≡ false) → (leb s a && ltb a e) ≡ false → (a < s) ⊎ (e ≤ a)
    split (inl x) h = inr (ground arith)
    split (inr x) h = inl (ground arith)

-- Every region of an ordered list starts at the lower bound or above.
pub IsOrdered-at :
    (lo k : ℕ) (rs : List VmmRegion) (r : VmmRegion)
    → IsOrdered lo rs
    → get_elem? rs k ≡ some r
    → lo ≤ r.va_start
IsOrdered-at lo k [] r o e = cc
IsOrdered-at lo zero (x ∷ rs) r o e = let same : x ≡ r = cc in rw (← same) o.0
IsOrdered-at lo (suc k) (x ∷ rs) r o e =
    let later = IsOrdered-at x.va_stop k rs r o.2 e in omega arith
