-- ===== src/Buddy.antt =====
-- The buddy allocator of kernel/memory.c on one zone. A page is its frame number, the place in
-- `MMS.PagesGroup`, and a free list the frame numbers of its blocks from the front.
pub mod Count
pub mod Alloc
pub mod Order
pub mod Free
pub mod Merge
mod Tests
use talios.Base.{
  ℕ, zero, suc, ◌+◌, ◌-◌, ◌*◌, ◌%◌, ◌^◌, Bool, true, false, ◌||◌, ◌&&◌, Option, none, some, List,
  [], ◌∷◌, ltb, leb, ◌==◌, if◌then◌else◌, bit_or, bit_xor,
}

-- MAX_ORDER
abbrev pub max_order : ℕ
max_order = 11

abbrev pub put_at {ℓ} : {A : Type ℓ} → (ℕ → A) → ℕ → A → ℕ → A
put_at f i v j = if j == i then v else f j

-- `struct Zone` with its free areas, and the fields of its pages. The zone's frame numbers are those
-- from `first` to before `last`; `has_zone` says whether `ZoneStruct` of a page is set.
pub record Zone : Type 0 where
  pub first : ℕ
  pub last : ℕ
  pub free_list : ℕ → List ℕ
  pub nr_free : ℕ → ℕ
  pub page_using_count : ℕ
  pub page_free_count : ℕ
  pub total_pages_link : ℕ
  pub has_zone : ℕ → Bool
  pub ref_count : ℕ → ℕ
  pub attribute : ℕ → ℕ

-- `x + y` and `x - y` in 64 bits
abbrev pub plus : ℕ → ℕ → ℕ
plus x y = (x + y) % 2 ^ 64

abbrev pub minus : ℕ → ℕ → ℕ
minus x y = (x + 2 ^ 64 - y) % 2 ^ 64

-- Is `p` one of the pages of the block of the order at `b`?
abbrev pub in_block : (p b order : ℕ) → Bool
in_block p b order = leb b p && ltb p (b + 2 ^ order)

-- `ListDelete` of the first block of a list whose blocks are `b ∷ bs`.
abbrev pub without_first : (order : ℕ) → List ℕ → Zone → Zone
without_first order bs z = record z {
  free_list = put_at z.free_list order bs;
  nr_free = put_at z.nr_free order (z.nr_free order - 1);
}

-- The body of the loop that splits, from the order `suc ob` to `ob`. An empty list has no first
-- block: there the code would take the list head for one, which is `none`.
abbrev pub halves : (ob b : ℕ) → Zone → Zone
halves ob b z = record z {
  free_list = put_at z.free_list ob (b ∷ (b + 2 ^ ob) ∷ z.free_list ob);
  nr_free = put_at z.nr_free ob (z.nr_free ob + 2);
}

unfoldable pub split_in : (ob : ℕ) → List ℕ → Zone → Option Zone
split_in ob [] z = none
split_in ob (b ∷ bs) z = some (halves ob b (without_first (suc ob) bs z))

unfoldable pub split : (ob : ℕ) → Zone → Option Zone
unfolding split_in
split ob z = split_in ob (z.free_list (suc ob)) z

infixl 5 ◌>>=◌
abbrev pub ◌>>=◌ {ℓ κ} : {A : Type ℓ} {B : Type κ} → Option A → (A → Option B) → Option B
none >>= f = none
some a >>= f = f a

-- The loop that splits, from `order + steps` down to `order`.
unfoldable pub split_down : (steps order : ℕ) → Zone → Option Zone
unfolding split
split_down zero order z = some z
split_down (suc n) order z = split (order + n) z >>= split_down n order

-- The lines that account for a block that is given out.
unfoldable pub give : (order flags b : ℕ) → Zone → Zone
give order flags b z = record z {
  page_free_count = minus z.page_free_count (2 ^ order);
  page_using_count = plus z.page_using_count (2 ^ order);
  total_pages_link = plus z.total_pages_link (2 ^ order);
  ref_count = λ p. if in_block p b order then z.ref_count p + 1 else z.ref_count p;
  attribute = λ p. if in_block p b order then bit_or (z.attribute p) flags else z.attribute p;
}

-- The first block of the order, and the zone without it.
unfoldable pub take_in : (order : ℕ) → List ℕ → Zone → Option (ℕ × Zone)
take_in order [] z = none
take_in order (b ∷ bs) z = some (b, without_first order bs z)

-- The loop of `get_page_from_freelist` from the order `i` on, with `steps` orders to come. The result
-- is NULL as `none`.
unfoldable pub get_from : (steps i order flags : ℕ) → Zone → Option (Option ℕ × Zone)
unfolding split_down give take_in
get_from zero i order flags z = some (none, z)
get_from (suc n) i order flags z =
    let rest = get_from n (i + 1) order flags in
    if z.nr_free i == 0 then rest z else (do
      z1 ← split_down (i - order) order z
      (b, z2) ← take_in order (z1.free_list order) z1
      if z2.has_zone b then some (some b, give order flags b z2) else rest z2)

unfoldable pub get_page_from_freelist : (order flags : ℕ) → Zone → Option (Option ℕ × Zone)
unfolding get_from
get_page_from_freelist order flags z = get_from (max_order - order) order order flags z

-- `list_search` and `ListDelete` on a free list.
unfoldable pub list_search : ℕ → List ℕ → Bool
list_search b [] = false
list_search b (x ∷ xs) = x == b || list_search b xs

unfoldable pub list_delete : ℕ → List ℕ → List ℕ
list_delete b [] = []
list_delete b (x ∷ xs) = let rest = list_delete b xs in if x == b then xs else x ∷ rest

-- The lines behind the loop of `__free_pages_core`.
unfoldable pub add_block : (order b : ℕ) → Zone → Zone
add_block order b z = record z {
  free_list = put_at z.free_list order (b ∷ z.free_list order);
  nr_free = put_at z.nr_free order (z.nr_free order + 1);
}

-- The loop of `__free_pages_core`, with `steps` orders up to the last.
unfoldable pub merge : (steps order page_index : ℕ) → Zone → Zone
unfolding add_block list_search list_delete
merge zero order b z = add_block order b z
merge (suc n) order b z =
    let buddy = bit_xor b (2 ^ order) in
    let joined = merge n (order + 1) (if ltb buddy b then buddy else b) (record z {
      free_list = put_at z.free_list order (list_delete buddy (z.free_list order));
      nr_free = put_at z.nr_free order (z.nr_free order - 1);
    }) in
    if ltb buddy z.first || leb z.last buddy
    then add_block order b z
    else if list_search buddy (z.free_list order)
    then joined
    else add_block order b z

unfoldable pub free_pages_core : (page order : ℕ) → Zone → Zone
unfolding merge
free_pages_core page order z = merge (max_order - 1 - order) order page z

unfoldable pub free_pages_of : (page order : ℕ) → Zone → Zone
unfolding free_pages_core
free_pages_of page order z =
    let r = free_pages_core page order z in
    record r {
      page_free_count = plus r.page_free_count (2 ^ order);
      page_using_count = minus r.page_using_count (2 ^ order);
      total_pages_link = minus r.total_pages_link (2 ^ order);
      ref_count = λ p. if in_block p page order then minus (r.ref_count p) 1 else r.ref_count p;
      attribute = λ p. if in_block p page order then 0 else r.attribute p;
    }

-- The loop of `get_order`, with `steps` orders left.
unfoldable pub order_from : (steps order number : ℕ) → ℕ
order_from zero order number = order
order_from (suc n) order number =
    let rest = order_from n (order + 1) number in if leb number (2 ^ order) then order else rest

unfoldable pub get_order : ℕ → ℕ
unfolding order_from
get_order number = order_from max_order 0 number

-- The zones, and the places of the three that the selectors name.
pub record Zones : Type 0 where
  pub zone_dma_index : ℕ
  pub zone_normal_index : ℕ
  pub zone_unmaped_index : ℕ
  pub zones_group : List Zone

-- ZONE_NORMAL_INDEX, ZONE_UNMAPED_INDEX and ZONE_DMA_INDEX are 0, 1 and 2.
unfoldable pub is_this_zone : (zone_index zone_selector : ℕ) → Zones → Bool
is_this_zone i selector m =
    if selector == 2
    then i == m.zone_dma_index
    else if selector == 0
    then i == m.zone_normal_index
    else if selector == 1
    then i == m.zone_unmaped_index
    else false

-- A zone behind those that the loop has passed.
abbrev pub behind : Zone → Option ℕ × List Zone → Option ℕ × List Zone
behind z (page, zs) = (page, z ∷ zs)

-- The loop of `alloc_pages`, from the zone `i` on. The slow path of `__alloc_pages` gives NULL.
unfoldable pub alloc_in :
    (i selector order attr : ℕ) → Zones → List Zone → Option (Option ℕ × List Zone)
unfolding is_this_zone
alloc_in i selector order attr m [] = some (none, [])
alloc_in i selector order attr m (z ∷ zs) =
    let rest = alloc_in (i + 1) selector order attr m zs in
    if is_this_zone i selector m
    then get_page_from_freelist order attr z >>= found rest
    else rest >>= λ r. some (behind z r)
  where
    found : Option (Option ℕ × List Zone) → Option ℕ × Zone → Option (Option ℕ × List Zone)
    found later (none, z') = later >>= λ r. some (behind z' r)
    found later (some page, z') = some (some page, z' ∷ zs)

-- The page and the zones; PATTR(PG_PTABLE_MAPPED) is 1.
unfoldable pub alloc_pages : (zone_selector number attr : ℕ) → Zones → Option (Option ℕ × List Zone)
unfolding alloc_in
alloc_pages selector number attr m =
    let order = get_order number in
    if leb max_order order
    then some (none, m.zones_group)
    else alloc_in 0 selector order (if selector == 1 then attr else bit_or attr 1) m m.zones_group

-- On the zone of the page.
unfoldable pub free_pages : (page number : ℕ) → Zone → ℕ × Zone
free_pages page number z =
    let order = get_order number in
    if leb max_order order then (0, z) else (1, free_pages_of page order z)
