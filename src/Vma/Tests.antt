-- ===== src/Vma/Tests.antt =====
-- Runs of kernel/vma.c on a process with two areas, and the theorems at it.
use talios.Base.{ℕ, ◌≡◌, ◌⊎◌, ◌↔◌, ◌+◌, ◌≤◌, ◌<◌, refl, arith, true, some, List, [], ◌∷◌, map}
use talios.Base.Word.{ok, err, eexist, enomem, page_size}
use talios.Vma.{Vma, Mm, user_limit, insert_vma, range_is_free, find_unmapped_area, vma_clone_all}
use talios.Vma.Order.{IsOrdered, IsFree}
use talios.Vma.Insert.{Outcome, insert_vma-Outcome}
use talios.Vma.Free.{range_is_free_iff}
use talios.Vma.Clone.{copy_for, vma_clone_all-copies}

abbrev area : ℕ → ℕ → Vma
area s e = record {
  vm_mm = 7;
  start = s;
  end = e;
  prot = 3;
  flags = 0;
  mmap_flags = 0x22;
  file_offset = 0;
  file = 0;
}

abbrev two : List Vma
two = area 0x2000 0x4000 ∷ area 0x5000 0x6000 ∷ []

abbrev mm : Mm
mm = record { addr = 7; pgd = 0x1000; vma_list = some two; mmap_base = 0x1000 }

abbrev child : Mm
child = record { addr = 8; pgd = 0; vma_list = some []; mmap_base = 0x1000 }

two-IsOrdered : IsOrdered two
two-IsOrdered = omega arith

insert_between : insert_vma (some mm) (some (area 0x4000 0x5000)) ≡ (
  ok 1,
  some (record mm {
    vma_list = some (area 0x2000 0x4000 ∷ area 0x4000 0x5000 ∷ area 0x5000 0x6000 ∷ []);
  }),
)
unfolding insert_vma
insert_between = refl

insert_overlap : insert_vma (some mm) (some (area 0x3000 0x5000)) ≡ (err eexist, some mm)
unfolding insert_vma
insert_overlap = refl

first_gap : find_unmapped_area (some mm) 0x1000 ≡ 0x1000
unfolding find_unmapped_area
first_gap = refl

past_all : find_unmapped_area (some mm) 0x2000 ≡ 0x6000
unfolding find_unmapped_area
past_all = refl

insert_vma-Outcome_example :
    (ws : List Vma) × ((insert_vma (some mm) (some (area 0x4000 0x5000))).1
      ≡ some (record mm { vma_list = some ws }))
    × Outcome (area 0x4000 0x5000) two ((insert_vma (some mm) (some (area 0x4000 0x5000))).0, ws)
insert_vma-Outcome_example = insert_vma-Outcome mm (area 0x4000 0x5000) two refl (omega arith)

range_is_free_iff_example : (range_is_free (some mm) 0x4000 0x1000 ≡ true) ↔ (
    (0 < 0x1000)
    × (page_size ≤ 0x4000)
    × (0x4000 + 0x1000 ≤ user_limit)
    × IsFree two 0x4000 (0x4000 + 0x1000))
range_is_free_iff_example = range_is_free_iff mm two 0x4000 0x1000 refl (omega arith)

vma_clone_all-copies_example :
    (vma_clone_all (true ∷ []) (some mm) (some child)
      ≡ (err enomem, some (record child { vma_list = some [] })))
    ⊎ (vma_clone_all (true ∷ []) (some mm) (some child)
        ≡ (ok 0, some (record child { vma_list = some (map (copy_for 8) two) })))
vma_clone_all-copies_example = vma_clone_all-copies (true ∷ []) mm child two (omega arith) refl refl
