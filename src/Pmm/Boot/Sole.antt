-- ===== src/Pmm/Boot/Sole.antt =====
-- `pmm_init` on a table with one available region.
use b0s.Base.{
  ℕ, ◌+◌, ◌-◌, ◌*◌, ◌/◌, ◌%◌, ◌^◌, ◌<◌, ◌≤◌, ◌≡◌, refl, ap, ◌∙◌, arith, true, false, some, List, [],
  ◌∷◌, ◌++◌, All,
}
use b0s.Base.Word.{add64, sub64, mul64, page_size, kernel_vma, v2p, roundup}
use b0s.Base.Result.{ok}
use b0s.Memory.{Memory}
use b0s.Bitmap.{Compiler, Bitmap, bitmap_init, bitmap_size_in_block}
use b0s.Bitmap.Slot.{slot}
use b0s.Pmm.State.{Pmm, Region, MmapTag, is_available}
use b0s.Pmm.Alloc.{pmm_alloc}
use b0s.Pmm.Alloc.Pages.{Inside}
use b0s.Pmm.Pmap.{pmap_init}
use b0s.Base.Align.{roundup_lem}
use b0s.Bitmap.Fresh.{bitmap_init-free}
use b0s.Pmm.Alloc.Take.{pmm_alloc-head}
use b0s.Pmm.Boot.{pmm_init, create_bitmaps, reserve_loop}
use b0s.Pmm.Boot.Reserve.{IsFreeFrom, free_from-Lowest, reserve_loop-takes}

create_bitmaps-reserved :
    (rs : List Region) (bitmap_alloc pages : ℕ) (m : Memory)
    → All (λ r. is_available r.type ≡ false) rs
    → create_bitmaps rs bitmap_alloc pages m
      ≡ record { pmap = rs; bitmap_alloc = bitmap_alloc; available_pages = pages; memory = m }
unfolding create_bitmaps
create_bitmaps-reserved [] bitmap_alloc pages m h = refl
create_bitmaps-reserved (r ∷ rs) bitmap_alloc pages m (kind, h) =
    rw (kind, create_bitmaps-reserved rs bitmap_alloc pages m h) refl

create_bitmaps-front :
    (front rs : List Region) (bitmap_alloc pages : ℕ) (m : Memory)
    → All (λ r. is_available r.type ≡ false) front
    → let made = create_bitmaps rs bitmap_alloc pages m in
      create_bitmaps (front ++ rs) bitmap_alloc pages m ≡ record made { pmap = front ++ made.pmap }
unfolding create_bitmaps
create_bitmaps-front [] rs bitmap_alloc pages m h = refl
create_bitmaps-front (r ∷ front) rs bitmap_alloc pages m (kind, h) =
    rw (kind, create_bitmaps-front front rs bitmap_alloc pages m h) refl

-- A table of one available region, right behind the kernel, among reserved ones.
pub record IsSole (kernel_vma_stop : ℕ) (front : List Region) (r : Region) (rs : List Region)
    : Type 0 where
  pub usable : is_available r.type ≡ true
  pub none_before : All (λ r'. is_available r'.type ≡ false) front
  pub others : All (λ r'. is_available r'.type ≡ false) rs
  pub behind : r.addr + kernel_vma ≡ kernel_vma_stop
  pub aligned : kernel_vma_stop % 4096 ≡ 0
  pub room : kernel_vma_stop + bitmap_size_in_block r.size_in_pages * 8 + 8192 < 2 ^ 64

-- The bitmap that `pmm_init` gives it, and the pages that it takes for that.
abbrev pub bitmap_of : ℕ → Region → Bitmap
bitmap_of kernel_vma_stop r = record {
  len = r.size_in_pages;
  size_in_block = bitmap_size_in_block r.size_in_pages;
  bitmap = kernel_vma_stop;
}

abbrev pub pages_taken : Region → ℕ
pages_taken r = r.size_in_pages / 64 / 4096 + 1

module _ (kernel_vma_stop : ℕ) (front : List Region) (r : Region) (rs : List Region)
    (sole : IsSole kernel_vma_stop front r rs) (m : Memory) where
  abbrev pub bm : Bitmap
  bm = bitmap_of kernel_vma_stop r

  -- The region with its bitmap.
  abbrev pub made : Region
  made = record r { bitmap = bm }

  abbrev fresh : Memory
  fresh = (bitmap_init m r.size_in_pages kernel_vma_stop).memory

  fresh_free : (j : ℕ) → j < bm.size_in_block * 64 → slot fresh bm j ≡ 1
  unfolding bitmap_init
  fresh_free j lt = (bitmap_init-free m r.size_in_pages kernel_vma_stop).0 j lt

  create_bitmaps-IsSole :
      r.size_in_pages < 2 ^ 50
      → create_bitmaps (front ++ r ∷ rs) kernel_vma_stop 0 m ≡ record {
        pmap = front ++ made ∷ rs;
        bitmap_alloc = kernel_vma_stop + bitmap_size_in_block r.size_in_pages;
        available_pages = r.size_in_pages;
        memory = fresh;
      }
  unfolding create_bitmaps bitmap_init
  create_bitmaps-IsSole small =
      create_bitmaps-front front (r ∷ rs) kernel_vma_stop 0 m sole.none_before
      ∙ (let count : add64 0 r.size_in_pages ≡ r.size_in_pages = omega arith in
          rw
            (
              sole.usable,
              count,
              create_bitmaps-reserved rs (kernel_vma_stop + bitmap_size_in_block r.size_in_pages)
                  r.size_in_pages fresh sole.others,
            )
            refl)

  -- `pmm_vma_stop`, and the physical addresses that the loop runs between.
  stop_lem :
      let stop =
        roundup (sub64 (kernel_vma_stop + bitmap_size_in_block r.size_in_pages) 1) page_size in
      (stop ≡ kernel_vma_stop + pages_taken r * 4096)
      × (v2p stop ≡ r.addr + pages_taken r * 4096)
      × (v2p kernel_vma_stop ≡ r.addr)
  stop_lem =
      let from : sub64 (kernel_vma_stop + bitmap_size_in_block r.size_in_pages) 1
          ≡ kernel_vma_stop + r.size_in_pages / 64 =
        omega (arith, sole.room) in
      let up = roundup_lem (kernel_vma_stop + r.size_in_pages / 64) (omega (arith, sole.room)) in
      let stop : roundup (sub64 (kernel_vma_stop + bitmap_size_in_block r.size_in_pages) 1)
            page_size
          ≡ kernel_vma_stop + pages_taken r * 4096 =
        rw from (up ∙ omega (arith, sole.aligned)) in
      (stop, rw stop (omega (arith, sole.behind, sole.room)), omega (arith, sole.behind, sole.room))

  reserved_pages :
      (c : Compiler) (stop : ℕ)
      → 2 ≤ r.size_in_pages
      → r.size_in_pages < 2 ^ 50
      → (m' : Memory) × (reserve_loop
            (2 ^ 52)
            c
            r.addr
            (r.addr + pages_taken r * 4096)
            r.size_in_pages
            (record { pmap = front ++ made ∷ rs; pmm_vma_stop = stop; memory = fresh })
          ≡ ok (
            r.size_in_pages - pages_taken r,
            record { pmap = front ++ made ∷ rs; pmm_vma_stop = stop; memory = m' },
          ))
        × IsFreeFrom (pages_taken r) m' bm
  reserved_pages c stop many small =
      let (m', done, from) =
        reserve_loop-takes c front made rs stop sole.none_before sole.usable (omega arith) (2 ^ 52)
          (pages_taken r) 0 r.addr r.size_in_pages fresh (omega arith) (omega arith)
          (omega (arith, sole.behind, sole.room)) (omega arith) (omega arith)
          (λ j h. ground (arith, fresh_free j h)) in
      (m', done, λ j h. ground (arith, from j h))

  -- With a table of one available region of 128 MiB or more, right behind the kernel, and reserved
  -- regions before and behind it, `pmm_init` succeeds, with a bitmap of the region's pages at the end
  -- of the kernel. It takes a page for every 4096 words of the bitmap that are begun, counts them off,
  -- and leaves the other pages free. A page holds 512 words, and the next call of `pmm_alloc` gives a
  -- page that starts in the bitmap.
  pub pmm_init-IsSole :
      (c : Compiler) (mmap : MmapTag)
      → pmap_init kernel_vma_stop mmap ≡ ok (front ++ r ∷ rs)
      → 32768 ≤ r.size_in_pages
      → (s : Pmm) × (pmm_init c kernel_vma_stop mmap m ≡ ok (r.size_in_pages - pages_taken r, s))
        × (s.pmap ≡ front ++ made ∷ rs)
        × IsFreeFrom (pages_taken r) s.memory bm
        × ((pmm_alloc c s).0 ≡ some (r.addr + pages_taken r * 4096))
        × Inside bm (r.addr + pages_taken r * 4096 + kernel_vma)
  unfolding pmm_init
  pmm_init-IsSole c mmap table many =
      let small : r.size_in_pages < 2 ^ 50 = omega (arith, sole.behind, sole.room) in
      let stop = kernel_vma_stop + pages_taken r * 4096 in
      let (m', done, from) = reserved_pages c stop (omega arith) small in
      let next =
        pmm_alloc-head c front made rs stop m' (pages_taken r) sole.none_before sole.usable
          (free_from-Lowest (pages_taken r) m' bm (omega arith) from) (omega arith) in
      let page : add64 r.addr (mul64 (pages_taken r) page_size) ≡ r.addr + pages_taken r * 4096 =
        omega (arith, sole.behind, sole.room) in
      let (to, phys_stop, phys) = stop_lem in
      (
        record { pmap = front ++ made ∷ rs; pmm_vma_stop = stop; memory = m' },
        rw (table, create_bitmaps-IsSole small, phys_stop, phys, to) done,
        refl,
        from,
        rw next (ap some page),
        (omega (arith, sole.behind), omega (arith, sole.behind)),
      )
