-- ===== src/Buddy/Tests.antt =====
-- The allocator of kernel/memory.c on a zone with one block of four pages, and its theorems at it.
use talios.Base.{refl, arith, true, [], ◌∷◌, ◌==◌, if◌then◌else◌, Bool-cases, inl, inr}
use talios.Buddy.{Zone, free_pages_of, get_page_from_freelist}
use talios.Buddy.Alloc.{IsCounted, Allocated, get_page_from_freelist-Allocated}
use talios.Buddy.Merge.{Returned, free_pages_of-Returned}

abbrev zone : Zone
zone = record {
  first = 0;
  last = 8;
  free_list = λ o. if o == 2 then 4 ∷ [] else [];
  nr_free = λ o. if o == 2 then 1 else 0;
  page_using_count = 4;
  page_free_count = 4;
  total_pages_link = 4;
  has_zone = λ p. true;
  ref_count = λ p. 0;
  attribute = λ p. 0;
}

zone-IsCounted : IsCounted zone
zone-IsCounted o = elim (Bool-cases (o == 2)) [ inl two ↦ rw two refl | inr other ↦ rw other refl ]

get_page_from_freelist-Allocated_example : Allocated 0 zone (get_page_from_freelist 0 1 zone)
get_page_from_freelist-Allocated_example =
    get_page_from_freelist-Allocated 0 1 zone (omega arith) (λ p. refl) zone-IsCounted

free_pages_of-Returned_example : Returned 2 1 zone (free_pages_of 2 1 zone)
free_pages_of-Returned_example = free_pages_of-Returned 2 1 zone (omega arith) refl
