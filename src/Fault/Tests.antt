-- ===== src/Fault/Tests.antt =====
-- A page fault and a request for a larger break on a zone with one block of four pages, and the
-- theorems of kernel/memory.c and kernel/sys.c there.
use talios.Base.{
  ◌≡◌, ◌+◌, ◌&&◌, some, [], ◌∷◌, refl, true, Bool-cases, inl, inr, arith, ◌==◌, if◌then◌else◌,
}
use talios.Base.Word.{page_align_up, ok, Ret, page_align_down}
use talios.Buddy.{Zone}
use talios.Buddy.Alloc.{IsCounted}
use talios.Buddy.Count.{blocks_of}
use talios.Vma.{Vma, Mm}
use talios.Pages.{no_entries}
use talios.Frames.Zoned.{zoned, zoned_laws, IsZone}
use talios.Vma.Order.{IsArea, covered, within, IsOrdered}
use talios.Mmap.{
  Munmap, do_munmap, bad_range, unmap_in, finish, splits, unmap_start, unmap_end, file_backed,
  remains,
}
use talios.Fault.Unmap.{Wiped, unmap_one, do_munmap-Wiped}
use talios.Fault.{World, handle_page_fault, sys_brk}
use talios.Fault.Demand.{Faulted, handle_page_fault-Faulted}
use talios.Fault.Range.{BrkOutcome, sys_brk-BrkOutcome}

abbrev zone : Zone
zone = record {
  first = 0;
  last = 8;
  free_list = λ o. if o == 2 then 4 ∷ [] else [];
  nr_free = λ o. if o == 2 then 1 else 0;
  page_using_count = 4;
  page_free_count = 4;
  total_pages_link = 4;
  has_zone = λ p. true;
  ref_count = λ p. 0;
  attribute = λ p. 0;
}

zone-IsCounted : IsCounted zone
zone-IsCounted o = elim (Bool-cases (o == 2)) [ inl two ↦ rw two refl | inr other ↦ rw other refl ]

zone-IsZone : IsZone 8 zone
unfolding blocks_of
zone-IsZone = record {
  counted = zone-IsCounted;
  has_zone = λ p. refl;
  below = λ p h. ground (arith, h);
}

-- Three tables can be made, and no fourth.
abbrev world : World zoned 8
world = record {
  tables = no_entries;
  kmallocs = some 0x100000 ∷ some 0x101000 ∷ some 0x102000 ∷ [];
  frames = zone;
  memory = λ a. 1;
}

-- An anonymous area that can be read and written.
abbrev area : Vma
area = record {
  vm_mm = 1;
  start = 0x400000;
  end = 0x402000;
  prot = 3;
  flags = 0;
  mmap_flags = 0x22;
  file_offset = 0;
  file = 0;
}

abbrev mm : Mm
mm = record { addr = 1; pgd = 0x1000; vma_list = some (area ∷ []); mmap_base = 0x4000000000 }

area-IsOrdered : IsOrdered (area ∷ [])
area-IsOrdered = (
  omega arith,
  record {
    low = omega arith;
    nonempty = omega arith;
    high = omega arith;
    start_aligned = refl;
    end_aligned = refl;
  },
  tt,
)

-- A write to a page that is not there.
abbrev write_fault : Ret × World zoned 8
write_fault = handle_page_fault zoned 8 (some mm) 0x401234 6 world

handle_page_fault-Faulted_example :
    Faulted zoned 8 (zoned_laws 8) mm (area ∷ []) (page_align_down 0x401234) 6 world write_fault
handle_page_fault-Faulted_example =
    handle_page_fault-Faulted zoned 8 (zoned_laws 8) mm (area ∷ []) 0x401234 6 world refl
      area-IsOrdered zone-IsZone

sys_brk-BrkOutcome_example :
    BrkOutcome zoned 8
      (zoned_laws 8)
      0x402000
      0x400000
      0x400000
      world
      (sys_brk zoned 8 0x402000 0x400000 0x400000 world)
sys_brk-BrkOutcome_example =
    sys_brk-BrkOutcome zoned 8 (zoned_laws 8) 0x402000 0x400000 0x400000 world zone-IsZone

-- The second page of the area is unmapped.
abbrev unmapping : Munmap (World zoned 8)
unmapping = do_munmap (unmap_one zoned 8 (zoned_laws 8)) [] (some mm) 0x401000 0x1000 world

unmapping-ok : unmapping.result ≡ ok 0
unfolding do_munmap bad_range unmap_in finish splits unmap_start unmap_end file_backed remains
unmapping-ok = refl

area-IsArea : IsArea area
area-IsArea = record {
  low = omega arith;
  nonempty = omega arith;
  high = omega arith;
  start_aligned = refl;
  end_aligned = refl;
}

do_munmap-Wiped_example :
    Wiped zoned 8
      (zoned_laws 8)
      (λ a. covered a (area ∷ []) && within 0x401000 (0x401000 + page_align_up 0x1000) a)
      world
      unmapping.pages
do_munmap-Wiped_example =
    do_munmap-Wiped zoned 8 (zoned_laws 8) [] mm (area ∷ []) 0x401000 0x1000 world refl
      (omega arith, area-IsArea, tt) zone-IsZone unmapping-ok
