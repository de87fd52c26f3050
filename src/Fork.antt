-- ===== src/Fork.antt =====
-- The pages of a process that forks (kernel/task.c): `copy_user_range`, over the page tables and an
-- allocator of frames. The parent's memory is read through its page tables.
pub mod Copied
pub mod Files
mod Tests
use talios.Base.{ℕ, zero, suc, ◌+◌, ◌-◌, ◌*◌, ◌/◌, Option, none, some, ltb, if◌then◌else◌}
use talios.Base.Word.{Ret, ok, err, enomem, page_align_down, page_align_up}
use talios.Strings.{memcopy}
use talios.Pages.{Pml4, Step, map_page_4k}
use talios.Pages.Map.{translate}
use talios.Frames.{Frames}
use talios.Fault.{World, pea_user_page}

-- The length of the loop.
abbrev pub copied_pages : (start end : ℕ) → ℕ
copied_pages start end = (page_align_up end - page_align_down start) / 4096

module _ (F : Frames) (pages_count : ℕ) where
  -- Behind `MapPage4K`: the page that it refused is freed, and a page that it mapped gets the bytes of
  -- the parent's page. Reading a page that the parent has not is a fault of the kernel, `none`.
  unfoldable pub copied_or_freed :
      (source : Option ℕ) (phy : ℕ)
      → Step Ret Pml4
      → World F pages_count
      → Option (Ret × World F pages_count)
  copied_or_freed source phy (err e, m, rest) w =
      some
        (err enomem, record w { tables = m; kmallocs = rest; frames = F.free_page_4k phy w.frames })
  copied_or_freed none phy (ok n, m, rest) w = none
  copied_or_freed (some src) phy (ok n, m, rest) w =
      some (ok 0, record w { tables = m; kmallocs = rest; memory = memcopy src phy 4096 w.memory })

  unfoldable pub page_from :
      (source : Option ℕ) (vaddr : ℕ)
      → Option ℕ × F.State
      → World F pages_count
      → Option (Ret × World F pages_count)
  unfolding copied_or_freed
  page_from source vaddr (none, s) w = some (err enomem, record w { frames = s })
  page_from source vaddr (some phy, s) w =
      copied_or_freed source phy (map_page_4k vaddr (some phy) pea_user_page w.tables w.kmallocs)
        (record w { frames = s })

  -- The body of the loop, for the page at `vaddr`.
  unfoldable pub copy_page :
      (parent : Pml4) (vaddr : ℕ) → World F pages_count → Option (Ret × World F pages_count)
  unfolding page_from
  copy_page parent vaddr w = page_from (translate parent vaddr) vaddr (F.alloc_page_4k w.frames) w

  unfoldable pub copy_next :
      Option (Ret × World F pages_count)
      → (World F pages_count → Option (Ret × World F pages_count))
      → Option (Ret × World F pages_count)
  copy_next none go = none
  copy_next (some (ok n, w)) go = go w
  copy_next (some (err e, w)) go = some (err e, w)

  -- The loop, with `n` pages to come behind the `k` that are copied.
  unfoldable pub copy_from :
      (parent : Pml4) (first n k : ℕ) → World F pages_count → Option (Ret × World F pages_count)
  unfolding copy_next copy_page
  copy_from parent first zero k w = some (ok 0, w)
  copy_from parent first (suc n) k w =
      copy_next (copy_page parent (first + k * 4096) w) (copy_from parent first n (suc k))

  unfoldable pub copy_user_range :
      (parent : Pml4) (start end : ℕ) → World F pages_count → Option (Ret × World F pages_count)
  unfolding copy_from
  copy_user_range parent start end w =
      copy_from parent (page_align_down start) (copied_pages start end) 0 w

  -- The two calls in `copy_mm`: the code and stack, and the heap of the parent, if it has one.
  pub copy_ranges :
      (parent : Pml4) (start_brk end_brk : ℕ)
      → World F pages_count
      → Option (Ret × World F pages_count)
  unfolding copy_user_range copy_next
  copy_ranges parent start_brk end_brk w =
      copy_next (copy_user_range parent 0x800000 0xa00000 w) (λ u.
        if ltb start_brk end_brk
        then copy_user_range parent start_brk end_brk u
        else some (ok 0, u))
