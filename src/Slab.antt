-- ===== src/Slab.antt =====
-- The slab caches of kernel/memory.c: `kmalloc`, `AllocSlab` and `kfree` on `KmallocSlabSet`, whose
-- caches have no constructors. Slabs are listed in the order of their ring, `CachePool` first; a
-- colour map is given by its bits. The pages that `AllocPage` answers are a list.
pub mod Scan
pub mod Alloc
pub mod Free
pub mod Grow
mod Tests
use talios.Base.{
  ℕ, zero, suc, ◌+◌, ◌-◌, ◌*◌, ◌/◌, ◌%◌, ◌^◌, Bool, true, false, not, ◌&&◌, ◌||◌, Option, none,
  some, List, [], ◌∷◌, ltb, leb, ◌==◌, if◌then◌else◌, get_elem?, set,
}

-- `struct Slab`, with its own address and the address of its colour map.
pub record Slab : Type 0 where
  pub address : ℕ
  pub vaddress : ℕ
  pub map_address : ℕ
  pub color_map : ℕ → Bool
  pub using_count : ℕ
  pub free_count : ℕ
  pub color_count : ℕ

pub record SlabCache : Type 0 where
  pub size : ℕ
  pub total_free : ℕ
  pub total_use : ℕ
  pub slabs : List Slab

-- KmallocSlabSet, the answers of `AllocPage` to come, as virtual addresses of the pages, and the pages
-- that `FreePage` got.
pub record Heap : Type 0 where
  pub caches : List SlabCache
  pub pages : List (Option ℕ)
  pub freed : List ℕ

-- PAGE_2M_SIZE, and `sizeof(struct Slab)`
abbrev pub page_2m : ℕ
page_2m = 0x200000

abbrev pub sizeof_slab : ℕ
sizeof_slab = 72

-- The bits of a word from `i` on, all of them set.
unfoldable pub all_set : (map : ℕ → Bool) (i n : ℕ) → Bool
all_set map i zero = true
all_set map i (suc n) = map i && all_set map (i + 1) n

-- `*(slab->ColorMap + (i >> 6)) == 0xffffffffffffffff`
unfoldable pub full_word : (map : ℕ → Bool) (i : ℕ) → Bool
unfolding all_set
full_word map i = all_set map (i / 64 * 64) 64

-- The loop of `AllocSlab` over a colour map from `i` on: the first clear bit.
unfoldable pub scan : (fuel count i : ℕ) (map : ℕ → Bool) → Option ℕ
unfolding full_word
scan zero count i map = none
scan (suc fuel) count i map =
    let rest = scan fuel count (if full_word map i then i + 64 else i + 1) map in
    if ltb i count then (if full_word map i || map i then rest else some i) else none

unfoldable pub put_bit : (map : ℕ → Bool) (i : ℕ) (b : Bool) → ℕ → Bool
put_bit map i b j = if j == i then b else map j

-- What `AllocSlab` does with the bit `i` of a slab.
unfoldable pub take_bit : (i : ℕ) → Slab → Slab
unfolding put_bit
take_bit i s = record s {
  color_map = put_bit s.color_map i true;
  using_count = s.using_count + 1;
  free_count = s.free_count - 1;
}

-- The clear bit of a slab that `AllocSlab` finds; one turn more than the bits is enough.
unfoldable pub clear_bit : Slab → Option ℕ
unfolding scan
clear_bit s =
    if s.free_count == 0 then none else scan (suc s.color_count) s.color_count 0 s.color_map

-- One slab after the other: the address of the object and the slabs behind it.
unfoldable pub choose :
    Slab → (size : ℕ) → List Slab → Option ℕ → Option (ℕ × List Slab) → Option (ℕ × List Slab)
unfolding take_bit
choose s size ss (some i) rest = some (s.vaddress + i * size, take_bit i s ∷ ss)
choose s size ss none (some (a, ss')) = some (a, s ∷ ss')
choose s size ss none none = none

unfoldable pub take_object : (size : ℕ) → List Slab → Option (ℕ × List Slab)
unfolding choose clear_bit
take_object size [] = none
take_object size (s ∷ ss) = choose s size ss (clear_bit s) (take_object size ss)

unfoldable pub object_taken : SlabCache → Option (ℕ × List Slab) → Option ℕ × SlabCache
object_taken sc none = (none, sc)
object_taken sc (some (a, ss)) =
    (some a, record sc { total_free = sc.total_free - 1; total_use = sc.total_use + 1; slabs = ss })

-- `AllocSlab` on a cache that has objects left, as `kmalloc` calls it.
pub alloc_slab : SlabCache → Option ℕ × SlabCache
unfolding take_object object_taken
alloc_slab sc = object_taken sc (take_object sc.size sc.slabs)

-- The sizes with the slab in its own page, behind the objects.
unfoldable pub is_small : (ksize : ℕ) → Bool
is_small ksize = leb ksize 0x200

-- The slab that `kmalloc` sets up in the page at `virtual`, for these sizes: 0xff, with the bits of the
-- objects cleared.
pub small_slab : (ksize virtual : ℕ) → Slab
small_slab ksize virtual =
    let struct_size = sizeof_slab + page_2m / ksize / 8 in
    let slab = virtual + page_2m - struct_size in
    let count = (page_2m - struct_size + ksize - 1) / ksize in
    record {
      address = slab;
      vaddress = virtual;
      map_address = slab + sizeof_slab;
      color_map = λ i. not (ltb i count);
      using_count = 0;
      free_count = count;
      color_count = count;
    }

-- And for the larger ones, with the slab at `slab`.
pub large_slab : (ksize virtual slab : ℕ) → Slab
large_slab ksize virtual slab = record {
  address = slab;
  vaddress = virtual;
  map_address = virtual;
  color_map = λ i. false;
  using_count = 0;
  free_count = page_2m / ksize;
  color_count = page_2m / ksize;
}

-- `ListBackAdd` puts the slab behind `CachePool`.
unfoldable pub add_slab : Slab → SlabCache → SlabCache
add_slab s sc = record sc {
  total_free = sc.total_free + s.free_count;
  slabs = behind_first sc.slabs;
}
  where
    behind_first : List Slab → List Slab
    behind_first [] = s ∷ []
    behind_first (x ∷ xs) = x ∷ s ∷ xs

-- The first cache with objects of at least this size.
unfoldable pub cache_index : (size : ℕ) → List SlabCache → Option ℕ
cache_index size [] = none
cache_index size (sc ∷ scs) =
    let rest = cache_index size scs in if ltb sc.size size then next rest else some 0
  where
    next : Option ℕ → Option ℕ
    next none = none
    next (some i) = some (suc i)

-- AllocPage
unfoldable pub alloc_page : Heap → Option ℕ × Heap
alloc_page h = answer h.pages
  where
    answer : List (Option ℕ) → Option ℕ × Heap
    answer [] = (none, h)
    answer (p ∷ ps) = (p, record h { pages = ps })

unfoldable pub put_cache : ℕ → SlabCache → Heap → Heap
put_cache i sc h = record h { caches = set h.caches i sc }

-- `return AllocSlab(&KmallocSlabSet[i], 0)`
unfoldable pub alloc_at : ℕ → Heap → Option (Option ℕ × Heap)
unfolding put_cache
alloc_at i h = from_cache (get_elem? h.caches i)
  where
    from_cache : Option SlabCache → Option (Option ℕ × Heap)
    from_cache none = none
    from_cache (some sc) = let r = alloc_slab sc in some (r.0, put_cache i r.1 h)

unfoldable pub grow_at : ℕ → Slab → Heap → Heap
unfolding put_cache add_slab
grow_at i s h = grown (get_elem? h.caches i)
  where
    grown : Option SlabCache → Heap
    grown none = h
    grown (some sc) = put_cache i (add_slab s sc) h

-- The slab of a large size is allocated by `kmalloc`, whose result is `nested`; where that is NULL the
-- code writes through it.
unfoldable pub with_large :
    ℕ → (ksize virtual : ℕ) → Option (Option ℕ × Heap) → Option (Option ℕ × Heap)
unfolding alloc_at grow_at large_slab
with_large i ksize virtual none = none
with_large i ksize virtual (some (none, h)) = none
with_large i ksize virtual (some (some slab, h)) =
    alloc_at i (grow_at i (large_slab ksize virtual slab) h)

-- The turn of the loop at the cache `i`, with the inner `kmalloc(sizeof(struct Slab), 0)`.
unfoldable pub kmalloc_at :
    (Heap → Option (Option ℕ × Heap)) → ℕ → SlabCache → Heap → Option (Option ℕ × Heap)
unfolding alloc_page alloc_at grow_at small_slab with_large is_small
kmalloc_at nested i sc h = if sc.total_free == 0 then with_page (alloc_page h) else alloc_at i h
  where
    with_page : Option ℕ × Heap → Option (Option ℕ × Heap)
    with_page (none, h') = some (none, h')
    with_page (some virtual, h') =
        if is_small sc.size
        then alloc_at i (grow_at i (small_slab sc.size virtual) h')
        else with_large i sc.size virtual (nested h')

-- `kmalloc`: the result and the heap, `none` where it writes through NULL or the fuel is out. The inner
-- call is for a small size, so fuel of two is enough.
pub kmalloc : (fuel size : ℕ) → Heap → Option (Option ℕ × Heap)
unfolding cache_index kmalloc_at
kmalloc zero size h = none
kmalloc (suc fuel) size h =
    let nested = kmalloc fuel sizeof_slab in
    if ltb 0x100000 size then some (none, h) else at_index nested (cache_index size h.caches)
  where
    at_cache : (Heap → Option (Option ℕ × Heap)) → ℕ → Option SlabCache → Option (Option ℕ × Heap)
    at_cache nested i none = none
    at_cache nested i (some sc) = kmalloc_at nested i sc h

    at_index : (Heap → Option (Option ℕ × Heap)) → Option ℕ → Option (Option ℕ × Heap)
    at_index nested none = some (none, h)
    at_index nested (some i) = at_cache nested i (get_elem? h.caches i)

-- The bit that `kfree` turns for an address in the page of a slab, and the counts of the slab.
unfoldable pub turn_bit : (i : ℕ) → Slab → Slab
unfolding put_bit
turn_bit i s = record s {
  color_map = put_bit s.color_map i (not (s.color_map i));
  using_count = s.using_count - 1;
  free_count = s.free_count + 1;
}

abbrev pub remove_at : ℕ → List Slab → List Slab
remove_at i [] = []
remove_at zero (s ∷ ss) = ss
remove_at (suc i) (s ∷ ss) = s ∷ remove_at i ss

-- Does the slab go? Not while it is in use, while the cache has fewer objects left than one and a half
-- slabs, or where it is `CachePool`.
unfoldable pub is_released : (place : ℕ) → Slab → SlabCache → Bool
is_released place s sc =
    s.using_count == 0 && leb (s.free_count * 3 / 2) sc.total_free && not (place == 0)

unfoldable pub without_slab : (place : ℕ) → Slab → SlabCache → SlabCache
without_slab place s sc = record sc {
  total_free = sc.total_free - s.free_count;
  slabs = remove_at place sc.slabs;
}

-- What `kfree` makes of the cache in which the slab at `place` has the page, and the slab it releases.
pub free_from : (ptr place : ℕ) → Slab → SlabCache → SlabCache × Option Slab
unfolding turn_bit is_released without_slab
free_from ptr place s sc =
    let s' = turn_bit ((ptr - s.vaddress) / sc.size) s in
    let sc' = record sc {
      total_free = sc.total_free + 1;
      total_use = sc.total_use - 1;
      slabs = set sc.slabs place s';
    } in
    if is_released place s' sc' then (without_slab place s' sc', some s') else (sc', none)

-- The first slab in use with this page, and its place.
unfoldable pub slab_of : (page_addr : ℕ) → List Slab → Option (ℕ × Slab)
slab_of page_addr [] = none
slab_of page_addr (s ∷ ss) =
    let rest = slab_of page_addr ss in
    if not (s.using_count == 0) && s.vaddress == page_addr then some (0, s) else next rest
  where
    next : Option (ℕ × Slab) → Option (ℕ × Slab)
    next none = none
    next (some (i, x)) = some (suc i, x)

-- The loop of `kfree` over the caches: place of the cache, the cache, place of the slab, the slab.
unfoldable pub holder : (page_addr : ℕ) → List SlabCache → Option (ℕ × SlabCache × ℕ × Slab)
unfolding slab_of
holder page_addr [] = none
holder page_addr (sc ∷ scs) =
    let rest = holder page_addr scs in
    if sc.total_use == 0 then next rest else here (slab_of page_addr sc.slabs) (next rest)
  where
    next : Option (ℕ × SlabCache × ℕ × Slab) → Option (ℕ × SlabCache × ℕ × Slab)
    next none = none
    next (some (i, sc', k, s)) = some (suc i, sc', k, s)

    here : Option (ℕ × Slab) → Option (ℕ × SlabCache × ℕ × Slab) → Option (ℕ × SlabCache × ℕ × Slab)
    here none r = r
    here (some (k, s)) r = some (0, sc, k, s)

-- `kfree`: its result and the heap, `none` without fuel. A slab of a large size is freed by an inner
-- call; it is an object of a small size, so fuel of two is enough.
pub kfree : (fuel ptr : ℕ) → Heap → Option (Bool × Heap)
unfolding holder put_cache is_small
kfree zero ptr h = none
kfree (suc fuel) ptr h = at_holder (holder (ptr / page_2m * page_2m) h.caches) (kfree fuel)
  where
    returned : Option (Bool × Heap) → Option (Bool × Heap)
    returned none = none
    returned (some (b, h')) = some (true, h')

    released :
        (ℕ → Heap → Option (Bool × Heap)) → SlabCache → Option Slab → Heap → Option (Bool × Heap)
    released nested sc none h' = some (true, h')
    released nested sc (some s) h' =
        let h'' = record h' { freed = s.vaddress ∷ h'.freed } in
        if is_small sc.size then some (true, h'') else returned (nested s.address h'')

    at_holder :
        Option (ℕ × SlabCache × ℕ × Slab) → (ℕ → Heap → Option (Bool × Heap)) → Option (Bool × Heap)
    at_holder none nested = some (false, h)
    at_holder (some (i, sc, k, s)) nested =
        let r = free_from ptr k s sc in released nested sc r.1 (put_cache i r.0 h)
