-- ===== src/Fork/Copied.antt =====
-- What `copy_user_range` (kernel/task.c) gives the child: the parent's bytes in frames of its own.
use talios.Base.{ℕ, ◌≡◌, ◌+◌, ◌*◌, ◌/◌, ◌%◌, ◌<◌, ◌≤◌, Option, none, some, ◌==◌}
use talios.Base.Word.{Ret, ok, err, enomem}
use talios.Buddy.Count.{one_if}
use talios.Pages.{Pml4}
use talios.Pages.Walk.{OtherPage}
use talios.Pages.Map.{translate}
use talios.Frames.{Frames, FrameLaws}
use talios.Strings.Copy.{IsCopied}
use talios.Fault.{World, pea_user_page}
use talios.Fault.Fails.{Fails, Made, Before}
use talios.Pages.Refused.{Refused}

module _ (F : Frames) (pages_count : ℕ) (L : FrameLaws F pages_count) where
  -- In which free blocks the frame of an address is.
  abbrev pub free_at : ℕ → World F pages_count → ℕ
  free_at a w = L.free_blocks (a / 4096) w.frames

  -- The page at `v` of the child, with the bytes that the parent's frame at `src` has in `m`.
  pub record CopiedPage (v src : ℕ) (m : ℕ → ℕ) (u : World F pages_count) : Type 0 where
    pub phy : ℕ
    pub aligned : phy % 4096 ≡ 0
    pub frame : translate u.tables v ≡ some phy
    pub own : free_at phy u ≡ 0
    pub bytes : (j : ℕ) → j < 4096 → u.memory (phy + j) ≡ m (src + j)

  -- The first `k` pages are copied. No byte of a frame that was in use has changed, and such a frame is
  -- still in use.
  pub record CopiedRange (first k : ℕ) (src : ℕ → ℕ) (w u : World F pages_count) : Type 0 where
    pub good : L.Good u.frames
    pub single : (p : ℕ) → L.free_blocks p u.frames ≤ 1
    pub used : (p : ℕ) → L.free_blocks p w.frames ≡ 0 → L.free_blocks p u.frames ≡ 0
    pub kept : (a : ℕ) → free_at a w ≡ 0 → u.memory a ≡ w.memory a
    pub pages : (i : ℕ) → i < k → CopiedPage (first + i * 4096) (src i) w.memory u
    pub others :
        (x : ℕ)
        → ((i : ℕ) → i < k → OtherPage (first + i * 4096) x)
        → translate u.tables x ≡ translate w.tables x

  pub data RangeCopied (first n : ℕ) (src : ℕ → ℕ) (w : World F pages_count)
      : Option (Ret × World F pages_count) → Type 0 where
    copied_range :
        {u : World F pages_count}
        → CopiedRange first n src w u
        → RangeCopied first n src w (some (ok 0, u))
    out_of_memory :
        {x u : World F pages_count} {k : ℕ}
        → k < n
        → Before F pages_count first w k x
        → Fails F pages_count (first + k * 4096) x
        → CopiedRange first k src w u
        → RangeCopied first n src w (some (err enomem, u))

  -- One page, from the frame `src` of the parent.
  record NewPage (v src : ℕ) (w u : World F pages_count) : Type 0 where
    phy : ℕ
    aligned : phy % 4096 ≡ 0
    good : L.Good u.frames
    taken : (p : ℕ) → L.free_blocks p u.frames + one_if (p == phy / 4096) ≡ L.free_blocks p w.frames
    unmapped : translate w.tables v ≡ none
    frame : translate u.tables v ≡ some phy
    others : (x : ℕ) → OtherPage v x → translate u.tables x ≡ translate w.tables x
    bytes : IsCopied src phy 4096 w.memory u.memory

  record Nothing (w u : World F pages_count) : Type 0 where
    good : L.Good u.frames
    free : (p : ℕ) → L.free_blocks p u.frames ≡ L.free_blocks p w.frames
    pages : (x : ℕ) → translate u.tables x ≡ translate w.tables x
    bytes : u.memory ≡ w.memory

  data PageCopied (v src : ℕ) (w : World F pages_count)
      : Option (Ret × World F pages_count) → Type 0 where
    no_page :
        {u : World F pages_count}
        → Fails F pages_count v w
        → Nothing w u
        → PageCopied v src w (some (err enomem, u))
    new_page :
        {u : World F pages_count}
        → NewPage v src w u
        → Made F pages_count v pea_user_page w u
        → PageCopied v src w (some (ok 0, u))

  -- The parent has `n` pages from `first` on, the frame of the `i`-th at `src i`, all of them in use.
  pub record ParentPages (parent : Pml4) (first n : ℕ) (src : ℕ → ℕ) (w : World F pages_count)
      : Type 0 where
    pub frames : (i : ℕ) → i < n → translate parent (first + i * 4096) ≡ some (src i)
    pub aligned : (i : ℕ) → i < n → src i % 4096 ≡ 0
    pub in_use : (i : ℕ) → i < n → free_at (src i) w ≡ 0
