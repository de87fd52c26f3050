-- ===== src/Fork/Tests.antt =====
-- A parent with one page, whose child gets its frame from a zone with one block of four pages, and the
-- theorem of kernel/task.c there.
use talios.Base.{ℕ, ◌≡◌, Option, some, List, [], ◌∷◌, refl, true, ◌==◌, if◌then◌else◌, none}
use talios.Buddy.{Zone}
use talios.Pages.{Pml4, no_entries, table}
use talios.Frames.Zoned.{zoned}
use talios.Fault.{World}
use talios.Base.{false}
use talios.Fork.Files.{Caller, do_fork, copy_files, Forked, do_fork-Forked}

abbrev zone : Zone
zone = record {
  first = 0;
  last = 8;
  free_list = λ o. if o == 2 then 4 ∷ [] else [];
  nr_free = λ o. if o == 2 then 1 else 0;
  page_using_count = 4;
  page_free_count = 4;
  total_pages_link = 4;
  has_zone = λ p. true;
  ref_count = λ p. 0;
  attribute = λ p. 0;
}

abbrev answers : List (Option ℕ)
answers = some 0x100000 ∷ some 0x101000 ∷ some 0x102000 ∷ []

-- The parent's page at 0x400000 is the frame 1.
abbrev parent : Pml4
parent a = table 0x2000 (λ b. table 0x3000 (λ c. table 0x4000 (λ i. if i == 0 then 0x1007 else 0)))

abbrev world : World zoned 8
world = record { tables = no_entries; kmallocs = answers; frames = zone; memory = λ a. a }

-- A caller with two open files; the second copy fails, and the first file's copy and the third slot's
-- file are freed.
abbrev caller : Caller
caller = record {
  handles = some 0x10 ∷ some 0x20 ∷ none ∷ some 0x30 ∷ [];
  next = 0;
  vfork = false;
  clone_vm = false;
  clone_fs = false;
  mm_fails = false;
  global_pid = 7;
}

do_fork-no_file :
    (do_fork caller (some 0x100) (some 0x40 ∷ none ∷ [])).freed ≡ 0x40 ∷ 0x30 ∷ 0x100 ∷ []
unfolding do_fork copy_files
do_fork-no_file = refl

do_fork-Forked_example :
    Forked caller
      (some 0x40 ∷ none ∷ [])
      (some 0x100)
      (do_fork caller (some 0x100) (some 0x40 ∷ none ∷ []))
do_fork-Forked_example = do_fork-Forked caller (some 0x100) (some 0x40 ∷ none ∷ []) refl refl refl
