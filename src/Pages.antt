-- ===== src/Pages.antt =====
-- The page tables of a process: `walk_pte`, `MapPage4K` and `UnmapPage4K` of kernel/memory.c. A table
-- is a function of its index, and an entry that names a table holds that table: the code never lets
-- two entries name one. kmalloc is a list of answers, the physical addresses of zeroed pages.
pub mod Walk
pub mod Map
pub mod Refused
mod Tests
use talios.Base.{
  ℕ, ◌+◌, ◌-◌, ◌*◌, ◌/◌, ◌%◌, ◌^◌, Bool, true, false, ◌||◌, ◌&&◌, not, Option, none, some, List, [],
  ◌∷◌, ltb, leb, ◌==◌, if◌then◌else◌, bit_and, bit_or,
}
use talios.Base.Word.{Ret, ok, err, einval, enomem, page_align_down}

-- An entry of one of the three upper tables: zero, with PEA_PAGE_SIZE, or with the address of a table.
pub data Entry (A : Type 0) : Type 0 where
  absent : Entry A
  huge : ℕ → Entry A
  table : ℕ → A → Entry A

-- The 4 KiB table holds the words themselves.
abbrev pub Pt : Type 0
Pt = ℕ → ℕ

abbrev pub Pd : Type 0
Pd = ℕ → Entry Pt

abbrev pub Pdpt : Type 0
Pdpt = ℕ → Entry Pd

abbrev pub Pml4 : Type 0
Pml4 = ℕ → Entry Pdpt

abbrev pub put_entry : {A : Type 0} → (ℕ → A) → ℕ → A → ℕ → A
put_entry f i v j = if j == i then v else f j

abbrev pub no_entries : {A : Type 0} → ℕ → Entry A
no_entries i = absent

abbrev pub no_words : Pt
no_words i = 0

-- GetBits(vaddr, shift, 9) for PAGE_GDT_SHIFT, PAGE_1G_SHIFT, PAGE_2M_SHIFT and PAGE_4K_SHIFT.
abbrev pub index : (shift vaddr : ℕ) → ℕ
index shift vaddr = vaddr / 2 ^ shift % 512

-- The answer of a call, the table after it, and the answers of kmalloc that are left.
abbrev pub Step : Type 0 → Type 0 → Type 0
Step R A = R × A × List (Option ℕ)

abbrev pub next_answer : List (Option ℕ) → Option ℕ × List (Option ℕ)
next_answer [] = (none, [])
next_answer (a ∷ rest) = (a, rest)

module _ {R A : Type 0} where
  -- The table that the entry names, changed in place.
  unfoldable pub in_table : (i addr : ℕ) → (ℕ → Entry A) → Step R A → Step R (ℕ → Entry A)
  in_table i addr d (r, a, rest) = (r, put_entry d i (table addr a), rest)

  unfoldable pub in_new :
      (i : ℕ)
      → R
      → A
      → (A → List (Option ℕ) → Step R A)
      → (ℕ → Entry A)
      → Option ℕ × List (Option ℕ)
      → Step R (ℕ → Entry A)
  unfolding in_table
  in_new i null empty go d (none, rest) = (null, d, rest)
  in_new i null empty go d (some addr, rest) = in_table i addr d (go empty rest)

  -- One of the three blocks of `walk_pte`: `go` is what follows it, on the table that the entry names,
  -- and `null` the answer where the walk gives NULL.
  unfoldable pub in_entry :
      Bool
      → (i : ℕ) → R
      → A
      → (A → List (Option ℕ) → Step R A)
      → (ℕ → Entry A)
      → Entry A
      → List (Option ℕ)
      → Step R (ℕ → Entry A)
  unfolding in_new
  in_entry create i null empty go d (huge w) allocs = (null, d, allocs)
  in_entry create i null empty go d (table addr a) allocs = in_table i addr d (go a allocs)
  in_entry create i null empty go d absent allocs =
      if create then in_new i null empty go d (next_answer allocs) else (null, d, allocs)

  unfoldable pub walk_level :
      Bool
      → (i : ℕ) → R
      → A
      → (A → List (Option ℕ) → Step R A)
      → (ℕ → Entry A)
      → List (Option ℕ)
      → Step R (ℕ → Entry A)
  unfolding in_entry
  walk_level create i null empty go d allocs = in_entry create i null empty go d (d i) allocs

-- The caller reads the word that the pointer of `walk_pte` names, and writes it.
unfoldable pub at_pte : {R : Type 0} → (i : ℕ) → (ℕ → R × ℕ) → Pt → List (Option ℕ) → Step R Pt
at_pte i change t allocs = ((change (t i)).0, put_entry t i (change (t i)).1, allocs)

-- `walk_pte`, with what its caller does: `change` on the word, or `null` as the answer for NULL.
pub walk_pte :
    {R : Type 0}
    → (create : Bool) (vaddr : ℕ) → R
    → (ℕ → R × ℕ)
    → Pml4
    → List (Option ℕ)
    → Step R Pml4
unfolding walk_level at_pte
walk_pte create vaddr null change = walk_level create (index 39 vaddr) null no_entries (
    walk_level create (index 30 vaddr) null no_entries
      (walk_level create (index 21 vaddr) null no_words (at_pte (index 12 vaddr) change)))

-- PEA_PRESENT, bit 0
abbrev pub is_present : ℕ → Bool
is_present word = word % 2 == 1

-- `~PEA_PAGE_SIZE`
abbrev pub not_page_size : ℕ
not_page_size = 2 ^ 64 - 1 - 0x80

-- What `MapPage4K` does to the word.
unfoldable pub set_page : (phy_addr flags word : ℕ) → Ret × ℕ
set_page phy_addr flags word =
    if is_present word
    then (err enomem, word)
    else (ok 0, bit_or phy_addr (bit_and flags not_page_size))

-- The page is its physical address, or NULL.
pub map_page_4k : (vaddr : ℕ) (page : Option ℕ) (flags : ℕ) → Pml4 → List (Option ℕ) → Step Ret Pml4
unfolding set_page
map_page_4k vaddr none flags m allocs = (err einval, m, allocs)
map_page_4k vaddr (some phy_addr) flags m allocs =
    if not (vaddr % 4096 == 0) || not (phy_addr % 4096 == 0)
    then (err einval, m, allocs)
    else walk_pte true vaddr (err enomem) (set_page phy_addr flags) m allocs

-- What `UnmapPage4K` does to the word: the physical address that it held.
unfoldable pub clear_page : ℕ → Option ℕ × ℕ
clear_page word = if is_present word then (some (page_align_down word), 0) else (none, word)

-- The page of a physical address, where the machine has it.
unfoldable pub page_at : (pages_count : ℕ) → Option ℕ → Option ℕ
page_at pages_count none = none
page_at pages_count (some physical) =
    if leb pages_count (physical / 2 ^ 12) then none else some physical

unfoldable pub found_at : (pages_count : ℕ) → Step (Option ℕ) Pml4 → Option ℕ × Pml4
unfolding page_at
found_at pages_count (r, m, rest) = (page_at pages_count r, m)

pub unmap_page_4k : (pages_count vaddr : ℕ) → Pml4 → Option ℕ × Pml4
unfolding clear_page found_at
unmap_page_4k pages_count vaddr m =
    if not (vaddr % 4096 == 0)
    then (none, m)
    else found_at pages_count (walk_pte false vaddr none clear_page m [])
