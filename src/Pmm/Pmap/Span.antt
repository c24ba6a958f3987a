-- ===== src/Pmm/Pmap/Span.antt =====
-- The pages that an entry of the memory map becomes.
use b0s.Base.{
  ℕ, ◌+◌, ◌-◌, ◌*◌, ◌/◌, ◌%◌, ◌^◌, ◌≤◌, ◌<◌, ◌≡◌, ◌∙◌, refl, ap, sym, arith, ◌==◌, if◌then◌else◌,
}
use b0s.Base.Word.{add64, sub64, max64, v2p, roundup, page_size}
use b0s.Base.Align.{page_addr_lem, roundup_lem}
use b0s.Pmm.State.{Region, MmapEntry, region_stop}
use b0s.Pmm.Pmap.{region_of, addr_stop_of}

-- Where the entry's memory starts for the kernel: an available one is cut at the kernel's end.
abbrev pub start_of : ℕ → MmapEntry → ℕ
start_of kernel_vma_stop entry =
    if entry.type == 1 then max64 (v2p kernel_vma_stop) entry.addr else entry.addr

-- Something is left of the entry behind its start, and it ends some pages below 2^64.
pub record HasRoom (kernel_vma_stop : ℕ) (entry : MmapEntry) : Type 0 where
  pub word : entry.addr + entry.len + 8192 < 2 ^ 64
  pub left : start_of kernel_vma_stop entry < entry.addr + entry.len

-- The first page of an entry, and the end of its last.
abbrev pub first_page : ℕ → MmapEntry → ℕ
first_page kernel_vma_stop entry =
    start_of kernel_vma_stop entry - start_of kernel_vma_stop entry % 4096

abbrev pub last_stop : MmapEntry → ℕ
last_stop entry = entry.addr + entry.len - 1 - (entry.addr + entry.len - 1) % 4096 + 4096

addr-le-start_of :
    (kernel_vma_stop : ℕ) (entry : MmapEntry) → entry.addr ≤ start_of kernel_vma_stop entry
addr-le-start_of kernel_vma_stop entry = ground arith

region_of-addr :
    (kernel_vma_stop : ℕ) (entry : MmapEntry)
    → HasRoom kernel_vma_stop entry
    → (region_of kernel_vma_stop entry).addr ≡ first_page kernel_vma_stop entry
unfolding region_of
region_of-addr kernel_vma_stop entry room =
    page_addr_lem (start_of kernel_vma_stop entry) (omega (arith, room.word, room.left))

addr_stop_of-stop :
    (kernel_vma_stop : ℕ) (entry : MmapEntry)
    → HasRoom kernel_vma_stop entry
    → addr_stop_of kernel_vma_stop entry ≡ last_stop entry
unfolding addr_stop_of
addr_stop_of-stop kernel_vma_stop entry room =
    let a = first_page kernel_vma_stop entry in
    let at = region_of-addr kernel_vma_stop entry room in
    let whole : sub64 (add64 a (sub64 entry.len (sub64 a entry.addr))) 1
        ≡ entry.addr + entry.len - 1 =
      omega (arith, room.word, room.left, addr-le-start_of kernel_vma_stop entry) in
    let step : addr_stop_of kernel_vma_stop entry
        ≡ roundup (sub64 (add64 a (sub64 entry.len (sub64 a entry.addr))) 1) page_size =
      ap (λ (q : ℕ). roundup (sub64 (add64 q (sub64 entry.len (sub64 q entry.addr))) 1) page_size)
        at in
    step
    ∙ ap (λ (q : ℕ). roundup q page_size) whole
    ∙ roundup_lem (entry.addr + entry.len - 1) (omega (arith, room.word))

region_of-size :
    (kernel_vma_stop : ℕ) (entry : MmapEntry)
    → let r = region_of kernel_vma_stop entry in
      r.size_in_pages ≡ sub64 (addr_stop_of kernel_vma_stop entry) r.addr / page_size
unfolding region_of addr_stop_of
region_of-size kernel_vma_stop entry = refl

-- A region of one page or more that ends below 2^64.
pub record IsSpan (r : Region) : Type 0 where
  pub pages : 0 < r.size_in_pages
  pub fits : r.addr + r.size_in_pages * 4096 < 2 ^ 64

-- The region of an entry goes from the page of its start to the end of its last page.
pub record IsSpanOf (kernel_vma_stop : ℕ) (entry : MmapEntry) : Type 0 where
  pub span : IsSpan (region_of kernel_vma_stop entry)
  pub addr : (region_of kernel_vma_stop entry).addr ≡ first_page kernel_vma_stop entry
  pub stop : region_stop (region_of kernel_vma_stop entry) ≡ last_stop entry
  pub checked : addr_stop_of kernel_vma_stop entry ≡ region_stop (region_of kernel_vma_stop entry)

pub region_of-IsSpanOf :
    (kernel_vma_stop : ℕ) (entry : MmapEntry)
    → HasRoom kernel_vma_stop entry
    → IsSpanOf kernel_vma_stop entry
region_of-IsSpanOf kernel_vma_stop entry room =
    let at = region_of-addr kernel_vma_stop entry room in
    let end = addr_stop_of-stop kernel_vma_stop entry room in
    let size = region_of-size kernel_vma_stop entry in
    let r = region_of kernel_vma_stop entry in
    let pages : r.size_in_pages * 4096 ≡ last_stop entry - first_page kernel_vma_stop entry =
      omega (arith, at, end, size, room.word, room.left) in
    let stop : region_stop r ≡ last_stop entry = omega (arith, at, pages, room.word, room.left) in
    record {
      span = record {
        pages = omega (arith, pages, room.left);
        fits = omega (arith, at, pages, room.word, room.left);
      };
      addr = at;
      stop = stop;
      checked = end ∙ sym stop;
    }
