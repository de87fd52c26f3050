-- ===== src/Slab/Tests.antt =====
-- A cache of two slabs, a heap with one cache, and the theorems of the caches of kernel/memory.c there.
use talios.Base.{
  ℕ, ◌≡◌, ◌-◌, ◌*◌, ◌/◌, ◌^◌, ◌<◌, ◌≤◌, true, ltb, arith, refl, Option, none, some, [], ◌∷◌, map,
}
use talios.Slab.{Slab, SlabCache, Heap, alloc_slab, free_from, small_slab, large_slab, kmalloc}
use talios.Slab.Alloc.{
  no_slab, one_slab, CacheCounted, Allocated, alloc_slab-Allocated, clear_bits, free_objects,
  used_objects,
}
use talios.Slab.Free.{Freed, free_from-Freed}
use talios.Slab.Grow.{Overlaps, grown-Overlaps}

-- The second slab has its first 66 objects in use.
abbrev full_slab : Slab
full_slab = record {
  address = 0x1000;
  vaddress = 0x200000;
  map_address = 0x1048;
  color_map = λ i. true;
  using_count = 2;
  free_count = 0;
  color_count = 2;
}

abbrev part_slab : Slab
part_slab = record {
  address = 0x2000;
  vaddress = 0x400000;
  map_address = 0x2048;
  color_map = λ i. ltb i 66;
  using_count = 66;
  free_count = 4;
  color_count = 70;
}

abbrev cache : SlabCache
cache = record { size = 0x80; total_free = 4; total_use = 68; slabs = full_slab ∷ part_slab ∷ [] }

cache-CacheCounted : CacheCounted cache
unfolding clear_bits free_objects used_objects
cache-CacheCounted = record {
  each =
      one_slab {s = full_slab} (record { free_bits = refl; all_bits = refl })
        (one_slab {s = part_slab} (record { free_bits = refl; all_bits = refl }) no_slab);
  free = refl;
  use_ = refl;
}

-- The object 66 of the second slab, behind a full word.
alloc_slab-second : (alloc_slab cache).0 ≡ some 0x402100
unfolding alloc_slab
alloc_slab-second = refl

alloc_slab-Allocated_example : Allocated cache (alloc_slab cache)
alloc_slab-Allocated_example = alloc_slab-Allocated cache cache-CacheCounted (omega arith)

-- An address in the middle of the object 3 of the second slab.
free_from-Freed_example :
    Freed 1 ((0x4001a0 - 0x400000) / 0x80) part_slab cache (free_from 0x4001a0 1 part_slab cache)
free_from-Freed_example =
    free_from-Freed 0x4001a0 1 part_slab cache cache-CacheCounted refl (omega arith) refl
      (omega arith)

-- A heap with the caches of the sizes up to 0x400, all without objects, and two pages to come.
abbrev empty_cache : ℕ → SlabCache
empty_cache size = record { size = size; total_free = 0; total_use = 0; slabs = [] }

abbrev heap : Heap
heap = record {
  caches = map empty_cache (0x20 ∷ 0x40 ∷ 0x80 ∷ 0x100 ∷ 0x200 ∷ 0x400 ∷ []);
  pages = some 0x600000 ∷ some 0x800000 ∷ [];
  freed = [];
}

abbrev address_of : Option (Option ℕ × Heap) → Option ℕ
address_of none = none
address_of (some (a, h)) = a

-- The object of 0x400 bytes in the first page; the slab is in the second.
kmalloc-large : address_of (kmalloc 2 0x300 heap) ≡ some 0x600000
unfolding kmalloc alloc_slab
kmalloc-large = refl

grown-Overlaps_example :
    (2 < 5
      → Overlaps
          (32 * 2 ^ 2)
          (small_slab (32 * 2 ^ 2) 0x600000)
          (small_slab (32 * 2 ^ 2) 0x600000).address)
    × (5 ≤ 2
        → 2 < 16
        → Overlaps
            (32 * 2 ^ 2)
            (large_slab (32 * 2 ^ 2) 0x600000 0)
            (large_slab (32 * 2 ^ 2) 0x600000 0).map_address)
grown-Overlaps_example = grown-Overlaps 2 0x600000 0
