-- ===== src/Fault.antt =====
-- Page faults and the program break (kernel/memory.c): `handle_page_fault`, `MapUserRange4K` and
-- `do_brk`, with `sys_brk` of kernel/sys.c, over the areas of kernel/vma.c, the page tables and an allocator of frames.
pub mod Same
pub mod Fails
pub mod Access
pub mod Cover
pub mod Demand
pub mod Range
pub mod Unmap
mod Tests
use talios.Base.{
  ℕ, zero, suc, ◌+◌, ◌-◌, ◌*◌, ◌/◌, ◌%◌, ◌^◌, Bool, true, false, ◌||◌, ◌&&◌, not, Option, none,
  some, List, ltb, leb, ◌==◌, if◌then◌else◌, bit_or,
}
use talios.Base.Word.{
  Ret, ok, err, enomem, eacces, efault, eopnotsupp, page_align_down, page_align_up, neg_errno,
}
use talios.Strings.{Memory, memset}
use talios.Vma.{Vma, Mm, find_vma}
use talios.Mmap.{has, prot_read, prot_write, prot_exec, map_anonymous}
use talios.Pages.{Pml4, Step, map_page_4k, unmap_page_4k}
use talios.Frames.{Frames}

-- PEA_PRESENT | PEA_IS_USER and PEA_READ_WRITE; together they are PEA_USER_PAGE.
abbrev pub pea_user_read : ℕ
pea_user_read = 5

abbrev pub pea_read_write : ℕ
pea_read_write = 2

abbrev pub pea_user_page : ℕ
pea_user_page = 7

-- Write faults have bit 1, and instruction fetches bit 4.
pub page_fault_access_allowed : Option Vma → (error_code : ℕ) → Bool
page_fault_access_allowed none error_code = false
page_fault_access_allowed (some vma) error_code =
    if has error_code 2
    then has vma.prot prot_write
    else if has error_code 16
    then has vma.prot prot_exec
    else has vma.prot prot_read

-- The length of the loop of `MapUserRange4K`; `start + size` and its alignment wrap at 64 bits.
abbrev pub range_first : (start : ℕ) → ℕ
range_first start = page_align_down start

abbrev pub range_last : (start size : ℕ) → ℕ
range_last start size = page_align_up ((start + size) % 2 ^ 64)

abbrev pub range_pages : (start size : ℕ) → ℕ
range_pages start size = (range_last start size - range_first start) / 4096

-- The flags of a page of the area.
abbrev pub pte_flags : Vma → ℕ
pte_flags vma =
    if has vma.prot prot_write then bit_or pea_user_read pea_read_write else pea_user_read

module _ (F : Frames) (pages_count : ℕ) where
  -- The page tables, the answers of kmalloc that are left, the allocator and the bytes of the frames.
  pub record World : Type 0 where
    pub tables : Pml4
    pub kmallocs : List (Option ℕ)
    pub frames : F.State
    pub memory : Memory

  -- The page that `MapPage4K` refused is freed.
  unfoldable pub mapped_or_freed : (phy : ℕ) → Step Ret Pml4 → World → Ret × World
  mapped_or_freed phy (ok n, m, rest) w = (ok 0, record w { tables = m; kmallocs = rest })
  mapped_or_freed phy (err e, m, rest) w =
      (err enomem, record w { tables = m; kmallocs = rest; frames = F.free_page_4k phy w.frames })

  unfoldable pub demand_page : (vaddr flags : ℕ) → Option ℕ × F.State → World → Ret × World
  unfolding mapped_or_freed
  demand_page vaddr flags (none, s) w = (err enomem, record w { frames = s })
  demand_page vaddr flags (some phy, s) w =
      mapped_or_freed phy (map_page_4k vaddr (some phy) flags w.tables w.kmallocs)
        (record w { frames = s; memory = memset phy 0 4096 w.memory })

  -- The lines that `handle_page_fault` and `MapUserRange4K` have for one page.
  unfoldable pub new_page : (vaddr flags : ℕ) → World → Ret × World
  unfolding demand_page
  new_page vaddr flags w = demand_page vaddr flags (F.alloc_page_4k w.frames) w

  -- `handle_page_fault` behind the test of the error code.
  unfoldable pub fault_at : (page_address error_code : ℕ) → Option Vma → World → Ret × World
  unfolding new_page page_fault_access_allowed
  fault_at page_address error_code none w = (err efault, w)
  fault_at page_address error_code (some vma) w =
      if ltb page_address vma.start || leb vma.end page_address
      then (err efault, w)
      else if not (page_fault_access_allowed (some vma) error_code)
      then (err eacces, w)
      else if not (has vma.mmap_flags map_anonymous) || not (vma.file == 0)
      then (err eopnotsupp, w)
      else new_page page_address (pte_flags vma) w

  pub handle_page_fault : Option Mm → (address error_code : ℕ) → World → Ret × World
  unfolding fault_at
  handle_page_fault none address error_code w = (err efault, w)
  handle_page_fault (some mm) address error_code w =
      if mm.pgd == 0 || has error_code 8 || has error_code 1
      then (err efault, w)
      else fault_at (page_align_down address) error_code
          (find_vma (some mm) (page_align_down address)) w

  -- The loop body behind `fail`: a page that was unmapped is freed.
  unfoldable pub freed : Option ℕ × Pml4 → World → World
  freed (none, m) w = record w { tables = m }
  freed (some phy, m) w = record w { tables = m; frames = F.free_page_4k phy w.frames }

  -- The loop behind `fail`, with `k` pages from `first` on mapped.
  unfoldable pub roll_back : (first k : ℕ) → World → World
  unfolding freed
  roll_back first zero w = w
  roll_back first (suc k) w =
      roll_back first k (freed (unmap_page_4k pages_count (first + k * 4096) w.tables) w)

  unfoldable pub map_next : (first k : ℕ) → Ret × World → (World → Ret × World) → Ret × World
  unfolding roll_back
  map_next first k (ok n, w) go = go w
  map_next first k (err e, w) go = (err enomem, roll_back first k w)

  -- The loop, with `n` pages to come behind the `k` that are mapped.
  unfoldable pub map_from : (first n k : ℕ) → World → Ret × World
  unfolding map_next new_page
  map_from first zero k w = (ok 0, w)
  map_from first (suc n) k w =
      map_next first k (new_page (first + k * 4096) pea_user_page w) (map_from first n (suc k))

  unfoldable pub map_user_range_4k : (start size : ℕ) → World → Ret × World
  unfolding map_from
  map_user_range_4k start size w = map_from (range_first start) (range_pages start size) 0 w

  -- What follows the call in `do_brk`: the answer, `EndBrk` and the world.
  unfoldable pub brk_to : (end end_brk : ℕ) → Ret × World → ℕ × ℕ × World
  brk_to end end_brk (ok n, w) = (end, end, w)
  brk_to end end_brk (err e, w) = (neg_errno enomem, end_brk, w)

  unfoldable pub do_brk : (start size end_brk : ℕ) → World → ℕ × ℕ × World
  unfolding brk_to map_user_range_4k
  do_brk start size end_brk w =
      brk_to (range_last start size) end_brk (map_user_range_4k start size w)

  -- What follows the call in `sys_brk`: its result is the new `EndBrk`.
  unfoldable pub end_set : ℕ × ℕ × World → ℕ × ℕ × World
  end_set (new_brk, end_brk, w) = (new_brk, new_brk, w)

  -- The answer, `EndBrk` and the world.
  pub sys_brk : (brk start_brk end_brk : ℕ) → World → ℕ × ℕ × World
  unfolding end_set do_brk
  sys_brk brk start_brk end_brk w =
      let new_brk = page_align_up brk in
      if new_brk == 0
      then (start_brk, end_brk, w)
      else if ltb new_brk end_brk
      then (0, end_brk, w)
      else end_set (do_brk end_brk (new_brk - end_brk) end_brk w)
