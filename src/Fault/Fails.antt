-- ===== src/Fault/Fails.antt =====
-- Why one page of a range fails, and the world before each page of a loop over pages (kernel/memory.c
-- and kernel/task.c).
use talios.Base.{ℕ, suc, ◌≡◌, ◌+◌, ◌*◌, none, some}
use talios.Pages.Walk.{OtherPage}
use talios.Pages.Map.{translate}
use talios.Pages.Refused.{Refused, IsRest}
use talios.Frames.{Frames}
use talios.Base.Word.{ok}
use talios.Pages.{map_page_4k}
use talios.Fault.{World, pea_user_page}

module _ (F : Frames) (pages_count : ℕ) where
  -- The allocator gives no frame, or the page tables or kmalloc have no room for the page.
  pub data Fails (v : ℕ) (w : World F pages_count) : Type 0 where
    no_frame : (F.alloc_page_4k w.frames).0 ≡ none → Fails v w
    not_mapped : Refused v w.tables w.kmallocs → Fails v w

  -- A page at `v` was made: with the frame that the allocator gave, and some answers of kmalloc, by one
  -- call of `MapPage4K`.
  pub record Made (v flags : ℕ) (w u : World F pages_count) : Type 0 where
    pub phy : ℕ
    pub allocated : F.alloc_page_4k w.frames ≡ (some phy, u.frames)
    pub placed : map_page_4k v (some phy) flags w.tables w.kmallocs ≡ (ok 0, u.tables, u.kmallocs)
    pub answers : IsRest u.kmallocs w.kmallocs
    pub frame : translate u.tables v ≡ some phy
    pub others : (x : ℕ) → OtherPage v x → translate u.tables x ≡ translate w.tables x

  -- The world in which `k` pages from `first` on were made, one behind the other.
  pub data Before (first : ℕ) (w : World F pages_count) : ℕ → World F pages_count → Type 0 where
    at_start : Before first w 0 w
    one_more :
        {k : ℕ} {u x : World F pages_count}
        → Before first w k u
        → Made (first + k * 4096) pea_user_page u x
        → Before first w (suc k) x
