-- ===== src/Mmap.antt =====
-- `mmap` and `munmap` on the areas of the current process: kernel/mmap.c and kernel/mmap.h. The
-- outcome of each `kmalloc` is an argument.
pub mod Place
pub mod Map
pub mod Unmap
mod Tests
use talios.Base.{
  ℕ, ◌+◌, ◌-◌, ◌*◌, ◌/◌, ◌%◌, ◌^◌, Bool, true, false, ◌||◌, ◌&&◌, not, Option, none, some, List, [],
  ◌∷◌, ◌++◌, ltb, leb, ◌==◌, if◌then◌else◌, bit_and, bit_or, zero, suc,
}
use talios.Base.Word.{
  Ret, ok, err, ret_word, neg_errno, page_size, page_align_up, page_align_down, enomem, eexist,
  einval, ebadf, eopnotsupp, eoverflow,
}
use talios.Vma.{Vma, Mm, user_limit, range_is_free, find_unmapped_area, insert_vma}

-- PROT_READ, PROT_WRITE, PROT_EXEC
abbrev pub prot_read : ℕ
prot_read = 1

abbrev pub prot_write : ℕ
prot_write = 2

abbrev pub prot_exec : ℕ
prot_exec = 4

-- MAP_SHARED, MAP_PRIVATE, MAP_FIXED, MAP_ANONYMOUS
abbrev pub map_shared : ℕ
map_shared = 1

abbrev pub map_private : ℕ
map_private = 2

abbrev pub map_fixed : ℕ
map_fixed = 0x10

abbrev pub map_anonymous : ℕ
map_anonymous = 0x20

-- `flags & mask`, as a C truth value
abbrev pub has : ℕ → ℕ → Bool
has flags mask = not (bit_and flags mask == 0)

-- `~mask` on 64 bits
abbrev pub complement : ℕ → ℕ
complement mask = 2 ^ 64 - 1 - mask

unfoldable pub get_unmapped_area : Option Mm → (addr len flags : ℕ) → ℕ
get_unmapped_area none addr len flags = neg_errno einval
get_unmapped_area (some mm) addr len flags =
    if len == 0 || not (len % page_size == 0)
    then neg_errno einval
    else if has flags map_fixed
    then (if not (addr % page_size == 0)
        then neg_errno einval
        else if ltb addr page_size || leb user_limit addr || ltb (user_limit - addr) len
        then neg_errno enomem
        else addr)
    else if not (addr == 0) && range_is_free (some mm) (page_align_down addr) len
    then page_align_down addr
    else find_unmapped_area (some mm) len

-- The arguments of one `mmap`.
pub record Request : Type 0 where
  pub file : ℕ
  pub addr : ℕ
  pub len : ℕ
  pub prot : ℕ
  pub flags : ℕ
  pub vm_flags : ℕ
  pub pgoff : ℕ

-- The tests of `do_mmap` up to the check of the raw length, in the order of the code: the error
-- number of the first that fails.
unfoldable pub bad_request : Request → Option ℕ
bad_request q =
    if q.len == 0
    then some einval
    else if has q.prot (complement 7)
    then some einval
    else if has q.flags (complement 0x33)
    then some einval
    else if has q.flags map_shared && has q.flags map_private
    then some einval
    else if not (has q.flags map_shared) && not (has q.flags map_private)
    then some einval
    else if has q.flags map_anonymous && not (q.file == 0)
    then some einval
    else if not (has q.flags map_anonymous) && q.file == 0
    then some ebadf
    else if not (has q.flags map_anonymous)
    then some eopnotsupp
    else if ltb (user_limit - (page_size - 1)) q.len
    then some enomem
    else none

-- The tests on the aligned length `len`.
unfoldable pub bad_length : (len pgoff : ℕ) → Option ℕ
bad_length len pgoff =
    if len == 0 || ltb user_limit len
    then some enomem
    else if ltb (2 ^ 64 - 1 - pgoff) (len / 2 ^ 12)
    then some eoverflow
    else if ltb ((2 ^ 64 - 1) / 2 ^ 12) pgoff
    then some eoverflow
    else none

-- The area that `do_mmap` fills in; `pgoff << 12` stays below 2 ^ 64 by the last test.
unfoldable pub new_area : Mm → Request → (addr len : ℕ) → Vma
new_area mm q addr len = record {
  vm_mm = mm.addr;
  start = addr;
  end = addr + len;
  prot = q.prot;
  flags = q.vm_flags;
  mmap_flags = q.flags;
  file_offset = q.pgoff * 2 ^ 12;
  file = q.file;
}

-- What follows the insertion: the address, or the error that `insert_vma` returned.
unfoldable pub inserted_at : ℕ → Ret × Option Mm → ℕ × Option Mm
inserted_at addr (ok n, mm) = (if n == 1 then addr else neg_errno eexist, mm)
inserted_at addr (err e, mm) = (neg_errno e, mm)

-- `do_mmap` from the choice of the address on. `alloc` says whether `kmalloc` succeeds.
unfoldable pub map_at : Bool → Mm → Request → (len addr : ℕ) → ℕ × Option Mm
unfolding new_area inserted_at
map_at alloc mm q len addr =
    if leb (2 ^ 63) addr
    then (addr, some mm)
    else if has q.flags map_fixed && not (range_is_free (some mm) addr len)
    then (neg_errno eexist, some mm)
    else if not alloc
    then (neg_errno enomem, some mm)
    else inserted_at addr (insert_vma (some mm) (some (new_area mm q addr len)))

pub do_mmap : Bool → Option Mm → Request → ℕ × Option Mm
do_mmap alloc none q = (neg_errno einval, none)
do_mmap alloc (some mm) q =
    let len = page_align_up q.len in
    elim (bad_request q) [
      | some e ↦ (neg_errno e, some mm)
      | none ↦ elim (bad_length len q.pgoff) [
        | some e ↦ (neg_errno e, some mm)
        | none ↦ map_at alloc mm q len (get_unmapped_area (some mm) q.addr len q.flags)
      ]
    ]

-- The loop body of `do_munmap` on one area that meets the range, without the pages.
-- `unmap_start` and `unmap_end`
unfoldable pub unmap_start : ℕ → Vma → ℕ
unmap_start addr vma = if ltb vma.start addr then addr else vma.start

unfoldable pub unmap_end : ℕ → Vma → ℕ
unmap_end end vma = if ltb end vma.end then end else vma.end

-- The range lies inside the area, so that a second area is needed.
unfoldable pub splits : (addr end : ℕ) → Vma → Bool
unfolding unmap_start unmap_end
splits addr end vma = ltb vma.start (unmap_start addr vma) && ltb (unmap_end end vma) vma.end

-- The areas that stay in the place of one.
unfoldable pub remains : (addr end : ℕ) → Vma → List Vma
unfolding unmap_start unmap_end
remains addr end vma =
    let s = unmap_start addr vma in
    let e = unmap_end end vma in
    if s == vma.start && e == vma.end
    then []
    else if s == vma.start
    then record vma { start = e } ∷ []
    else if e == vma.end
    then record vma { end = s } ∷ []
    else record vma { end = s }
      ∷ record vma { start = e; file_offset = (vma.file_offset + (e - vma.start)) % 2 ^ 64 }
      ∷ []

-- `!(mmap_flags & MAP_ANONYMOUS) || file != NULL`
unfoldable pub file_backed : Vma → Bool
file_backed vma = not (has vma.mmap_flags map_anonymous) || not (vma.file == 0)

-- The tests of `do_munmap` on its arguments.
unfoldable pub bad_range : (addr len : ℕ) → Bool
bad_range addr len =
    len == 0
    || not (addr % page_size == 0)
    || ltb (user_limit - (page_size - 1)) len
    || ltb addr page_size
    || leb user_limit addr
    || page_align_up len == 0
    || ltb (user_limit - addr) (page_align_up len)

-- Does the next `kmalloc` succeed? Past the end of the list none does.
abbrev pub head_of : List Bool → Bool
head_of [] = false
head_of (b ∷ bs) = b

abbrev pub tail_of : List Bool → List Bool
tail_of [] = []
tail_of (b ∷ bs) = bs

-- The state of the loop of `do_munmap` when it stops: the error that it returns, if any.
pub record Unmapped (PT : Type 0) : Type 0 where
  pub vmas : List Vma
  pub pages : PT
  pub stop : Option ℕ
  pub unmapped : Bool

abbrev pub stopped : {PT : Type 0} → List Vma → PT → Option ℕ → Bool → Unmapped PT
stopped vs pt e u = record { vmas = vs; pages = pt; stop = e; unmapped = u }

-- `vma` (or what remains of it) stays in front.
abbrev pub keep : {PT : Type 0} → List Vma → Unmapped PT → Unmapped PT
keep vs u = record u { vmas = vs ++ u.vmas }

-- What `do_munmap` returns, the process, the pages, and whether it flushed the TLB.
pub record Munmap (PT : Type 0) : Type 0 where
  pub result : Ret
  pub mm : Option Mm
  pub pages : PT
  pub flushed : Bool

unfoldable pub finish : {PT : Type 0} → Mm → Unmapped PT → Munmap PT
finish mm u = elim (u.stop) [
  | some e ↦ record {
    result = err e;
    mm = some (record mm { vma_list = some u.vmas });
    pages = u.pages;
    flushed = false;
  }
  | none ↦ record {
    result = if u.unmapped then ok 0 else err einval;
    mm = some (record mm { vma_list = some u.vmas });
    pages = u.pages;
    flushed = u.unmapped;
  }
]

-- `PT` is the state of the page tables and of the page allocator, and `unmap_page` what
-- `UnmapPage4K` and `FreePage4K` do to it at one address.
module _ {PT : Type 0} (unmap_page : ℕ → PT → PT) where
  -- `unmap_anonymous_pages` with the number of rounds left.
  unfoldable pub unmap_pages : ℕ → ℕ → PT → PT
  unmap_pages zero address pt = pt
  unmap_pages (suc n) address pt = unmap_pages n (address + page_size) (unmap_page address pt)

  -- Its loop runs once for each page that starts in the range.
  unfoldable pub unmap_anonymous_pages : (start end : ℕ) → PT → PT
  unfolding unmap_pages
  unmap_anonymous_pages start end pt =
      unmap_pages ((end - start + (page_size - 1)) / page_size) start pt

  unfoldable pub unmap_in : (addr end : ℕ) → List Bool → Bool → PT → List Vma → Unmapped PT
  unfolding unmap_anonymous_pages splits remains file_backed
  unmap_in addr end allocs unmapped pt [] = stopped [] pt none unmapped
  unmap_in addr end allocs unmapped pt (vma ∷ vmas) =
      let pt' = unmap_anonymous_pages (unmap_start addr vma) (unmap_end end vma) pt in
      let left = if splits addr end vma then tail_of allocs else allocs in
      let skip = unmap_in addr end allocs unmapped pt vmas in
      let go = unmap_in addr end left true pt' vmas in
      if leb vma.end addr
      then keep (vma ∷ []) skip
      else if leb end vma.start
      then stopped (vma ∷ vmas) pt none unmapped
      else if file_backed vma
      then stopped (vma ∷ vmas) pt (some eopnotsupp) unmapped
      else if splits addr end vma && not (head_of allocs)
      then stopped (vma ∷ vmas) pt (some enomem) unmapped
      else keep (remains addr end vma) go

  unfoldable pub do_munmap : List Bool → Option Mm → (addr len : ℕ) → PT → Munmap PT
  unfolding bad_range unmap_in finish
  do_munmap allocs none addr len pt = record {
    result = err einval;
    mm = none;
    pages = pt;
    flushed = false;
  }
  do_munmap allocs (some mm) addr len pt =
      let refused : Munmap PT = record {
        result = err einval;
        mm = some mm;
        pages = pt;
        flushed = false;
      } in
      if mm.pgd == 0 || bad_range addr len then refused else elim (mm.vma_list) [
        | none ↦ refused
        | some vmas ↦ finish mm (unmap_in addr (addr + page_align_up len) allocs false pt vmas)
      ]
