-- ===== src/Pages/Tests.antt =====
-- The page tables of kernel/memory.c at one address, and their theorems there.
use talios.Base.{List, ℕ, some, [], ◌∷◌, Option}
use talios.Pages.{Pml4, no_entries}

abbrev tables : Pml4
tables = no_entries

abbrev allocs : List (Option ℕ)
allocs = some 0x1000 ∷ some 0x2000 ∷ some 0x3000 ∷ []
