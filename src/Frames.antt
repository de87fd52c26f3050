-- ===== src/Frames.antt =====
-- What the users of 4 KiB pages ask of the allocator of kernel/memory.c: `AllocPage4K` and `FreePage4K`
-- of one page. A page is its physical address.
pub mod Zoned
use talios.Base.{ℕ, ◌+◌, ◌/◌, ◌%◌, ◌<◌, ◌≡◌, Option, none, some, ◌==◌}
use talios.Buddy.Count.{one_if}

-- AllocPage4K(ZONE_NORMAL_INDEX, 1, PATTR(PG_PTABLE_MAPPED)), NULL as `none`, and FreePage4K(page, 1).
pub record Frames : Type 1 where
  pub State : Type 0
  pub alloc_page_4k : State → Option ℕ × State
  pub free_page_4k : ℕ → State → State

-- What an allocation gives: `free p s` says in how many free blocks of `s` the frame `p` is.
pub data Given {S : Type 0} (pages_count : ℕ) (Good : S → Type 0) (free : ℕ → S → ℕ) (s : S)
    : Option ℕ × S → Type 0 where
  nothing :
      {t : S} → Good t → ((p : ℕ) → free p t ≡ free p s) → Given pages_count Good free s (none, t)
  given :
      {phy : ℕ} {t : S}
      → phy % 4096 ≡ 0
      → phy / 4096 < pages_count
      → Good t
      → ((p : ℕ) → free p t + one_if (p == phy / 4096) ≡ free p s)
      → Given pages_count Good free s (some phy, t)

-- The laws of such an allocator on a machine with `pages_count` frames.
pub record FrameLaws (F : Frames) (pages_count : ℕ) : Type 1 where
  pub Good : F.State → Type 0
  pub free_blocks : ℕ → F.State → ℕ
  pub alloc_lem : (s : F.State) → Good s → Given pages_count Good free_blocks s (F.alloc_page_4k s)
  pub free-Good :
      (s : F.State) (phy : ℕ) → Good s → phy / 4096 < pages_count → Good (F.free_page_4k phy s)
  pub free-count :
      (s : F.State) (phy p : ℕ)
      → Good s
      → phy / 4096 < pages_count
      → free_blocks p (F.free_page_4k phy s) ≡ free_blocks p s + one_if (p == phy / 4096)
