-- ===== src/Frames/Zoned.antt =====
-- The buddy allocator of kernel/memory.c as an allocator of single frames: the pages of the normal
-- zone.
use talios.Base.{
  ℕ, zero, suc, ◌+◌, ◌-◌, ◌*◌, ◌/◌, ◌%◌, ◌<◌, ◌≡◌, ◌^◌, Option, none, some, List, [], ◌∷◌, true,
  ◌||◌, ◌==◌, ltb, leb, bit_xor, arith, refl, ◌∙◌, ap, Bool-cases, inl, inr,
}
use talios.Buddy.{
  Zone, Zones, max_order, alloc_pages, alloc_in, is_this_zone, free_pages, free_pages_of,
  free_pages_core, merge, add_block, get_order, order_from, get_page_from_freelist, in_block,
  list_search,
}
use talios.Buddy.Count.{one_if, blocks_of}
use talios.Buddy.Alloc.{
  IsCounted, Allocated, exhausted, allocated, get_page_from_freelist-Allocated,
}
use talios.Buddy.Free.{free_pages_of-Freed}
use talios.Buddy.Merge.{free_pages_of-Returned}
use talios.Frames.{Frames, Given, nothing, given, FrameLaws}

abbrev pub zones : Zone → Zones
zones z = record {
  zone_dma_index = 1;
  zone_normal_index = 0;
  zone_unmaped_index = 1;
  zones_group = z ∷ [];
}

-- The physical address of the page, and the zone; a list head taken for a block does not happen in a
-- counted zone.
pub zone_page : Zone → Option (Option ℕ × List Zone) → Option ℕ × Zone
zone_page z none = (none, z)
zone_page z (some (page, [])) = (none, z)
zone_page z (some (none, z' ∷ zs)) = (none, z')
zone_page z (some (some page, z' ∷ zs)) = (some (page * 4096), z')

pub alloc_zoned : Zone → Option ℕ × Zone
unfolding zone_page
alloc_zoned z = zone_page z (alloc_pages 0 1 1 (zones z))

pub free_zoned : ℕ → Zone → Zone
free_zoned phy z = (free_pages (phy / 4096) 1 z).1

abbrev pub zoned : Frames
zoned = record { State = Zone; alloc_page_4k = alloc_zoned; free_page_4k = free_zoned }

-- The lists are counted, every page has its zone, and the free pages are pages of the machine.
pub record IsZone (pages_count : ℕ) (z : Zone) : Type 0 where
  pub counted : IsCounted z
  pub has_zone : (p : ℕ) → z.has_zone p ≡ true
  pub below : (p : ℕ) → 0 < blocks_of p z.free_list → p < pages_count

pub one_page : (p b : ℕ) → one_if (in_block p b 0) ≡ one_if (p == b)
one_page p b = ground arith

multiple : (b : ℕ) → b * 4096 % 4096 ≡ 0
multiple b = omega arith

same_page : (b : ℕ) → b ≡ b * 4096 / 4096
same_page b = omega arith

was_free : (b x : ℕ) {y : ℕ} → x + one_if (in_block b b 0) ≡ y → 0 < y
was_free b x h = omega (arith, h, one_page b b, ap one_if (same b))
  where
    same : (b : ℕ) → (b == b) ≡ true
    same b = ground arith

merge-has_zone : (n order b p : ℕ) (z : Zone) → (merge n order b z).has_zone p ≡ z.has_zone p
unfolding merge add_block
merge-has_zone zero order b p z = refl
merge-has_zone (suc n) order b p z =
    elim (Bool-cases (ltb (bit_xor b (2 ^ order)) z.first || leb z.last (bit_xor b (2 ^ order)))) [
      | inl out ↦ rw (out, merge) refl
      | inr inside ↦ elim (Bool-cases (list_search (bit_xor b (2 ^ order)) (z.free_list order))) [
        | inr absent ↦ rw (inside, absent, merge) refl
        | inl there ↦ rw (inside, there, merge) (merge-has_zone n (order + 1) _ p _)
      ]
    ]

pub free_zoned-page : (phy : ℕ) (z : Zone) → free_zoned phy z ≡ free_pages_of (phy / 4096) 0 z
unfolding free_zoned free_pages get_order order_from
free_zoned-page phy z = refl

module _ (pages_count : ℕ) where
  pub alloc_zoned-Given :
      (z : Zone)
      → IsZone pages_count z
      → Given pages_count (IsZone pages_count) (λ p r. blocks_of p r.free_list) z (alloc_zoned z)
  unfolding alloc_zoned alloc_pages alloc_in is_this_zone get_order order_from zone_page
  alloc_zoned-Given z i =
      go (get_page_from_freelist 0 1 z) refl
        (get_page_from_freelist-Allocated 0 1 z (omega arith) i.has_zone i.counted)
    where
      go :
          (s : Option (Option ℕ × Zone))
          → get_page_from_freelist 0 1 z ≡ s
          → Allocated 0 z s
          → Given pages_count
              (IsZone pages_count)
              (λ p r. blocks_of p r.free_list)
              z
              (alloc_zoned z)
      go _ e (exhausted none_free) = rw e (nothing i (λ p. refl))
      go _ e (allocated {b} {r} counted blocks free refs has) = rw e (
          given (multiple b) (omega (arith, same_page b, i.below b (was_free b _ (blocks b))))
            (record {
              counted = counted;
              has_zone = λ p. has p ∙ i.has_zone p;
              below = λ p lt. i.below p (omega (arith, blocks p, lt));
            })
            (λ p. omega (arith, blocks p, one_page p b, ap (λ x. one_if (p == x)) (same_page b))))

  pub free_zoned-IsZone :
      (z : Zone) (phy : ℕ)
      → IsZone pages_count z
      → phy / 4096 < pages_count
      → IsZone pages_count (free_zoned phy z)
  unfolding free_pages_of free_pages_core
  free_zoned-IsZone z phy i lt = rw (free_zoned-page phy z) record {
    counted = (free_pages_of-Freed (phy / 4096) 0 z (omega arith) i.counted).counted;
    has_zone = λ p. merge-has_zone (max_order - 1 - 0) 0 (phy / 4096) p z ∙ i.has_zone p;
    below = λ p free. elim (Bool-cases (p == phy / 4096)) [
      | inl here ↦ ground (arith, here, lt)
      | inr away ↦ i.below p (
          omega (
            arith,
            free,
            (free_pages_of-Returned (phy / 4096) 0 z (omega arith) (omega arith)).blocks p,
            one_page p (phy / 4096),
            ap one_if away,
          ))
    ];
  }

  abbrev pub zoned_laws : FrameLaws zoned pages_count
  zoned_laws = record {
    Good = IsZone pages_count;
    free_blocks = λ p z. blocks_of p z.free_list;
    alloc_lem = alloc_zoned-Given;
    free-Good = free_zoned-IsZone;
    free-count = λ z phy p i lt. rw (free_zoned-page phy z) (
        (free_pages_of-Returned (phy / 4096) 0 z (omega arith) (omega arith)).blocks p
        ∙ ap (λ x. blocks_of p z.free_list + x) (one_page p (phy / 4096)));
  }
