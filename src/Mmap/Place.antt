-- ===== src/Mmap/Place.antt =====
-- Where `__get_unmapped_area` (kernel/mmap.c) places a mapping.
use talios.Base.{
  ℕ, ◌+◌, ◌-◌, ◌%◌, ◌^◌, ◌≤◌, ◌<◌, ◌≡◌, inl, inr, Bool, true, false, ◌||◌, ◌&&◌, not, Option, none,
  some, List, ltb, leb, ◌==◌, arith, refl, leb→le, Bool-cases, if◌then◌else◌,
}
use talios.Base.Word.{neg_errno, page_size, page_align_down, enomem, einval}
use talios.Vma.{Vma, Mm, user_limit, range_is_free, find_unmapped_area, search_base}
use talios.Vma.Order.{IsOrdered, IsFree}
use talios.Vma.Free.{range_is_free_iff}
use talios.Vma.Search.{
  find_unmapped_area-Fit, find_unmapped_area-too_long, search_base-ge, Fit, fit, address_of,
}
use talios.Mmap.{get_unmapped_area, has, map_fixed}

-- An error word, or an aligned address with room for `len` bytes below the user's limit; unless the
-- address was fixed by the caller, no byte of the room is covered.
pub data Placement (vs : List Vma) (fixed : Bool) (len : ℕ) : ℕ → Type 0 where
  refused : {w : ℕ} → 2 ^ 63 ≤ w → Placement vs fixed len w
  given :
      {w : ℕ}
      → fixed ≡ true
      → w % page_size ≡ 0
      → page_size ≤ w
      → w + len ≤ user_limit
      → Placement vs fixed len w
  chosen :
      {w : ℕ}
      → fixed ≡ false
      → w % page_size ≡ 0
      → page_size ≤ w
      → w + len ≤ user_limit
      → IsFree vs w (w + len)
      → Placement vs fixed len w

Placement-Fit :
    (mm : Mm) (vs : List Vma) (len base : ℕ) (r : Option ℕ)
    → page_size ≤ base
    → Fit vs base len r
    → Placement vs false len (address_of r)
Placement-Fit mm vs len base none h f = refused (omega arith)
Placement-Fit mm vs len base (some r) h (fit above aligned below free least) =
    chosen refl aligned (omega arith) below free

-- The search, with its guard on the length.
search-Placement :
    (mm : Mm) (vs : List Vma) (len : ℕ)
    → mm.vma_list ≡ some vs
    → IsOrdered vs
    → 0 < len
    → len % page_size ≡ 0
    → Placement vs false len (find_unmapped_area (some mm) len)
search-Placement mm vs len e c p q = elim (Bool-cases (leb len (user_limit - page_size))) [
  | inl fits ↦
      let (r, is, f) = find_unmapped_area-Fit mm vs len e c p q (leb→le _ _ fits) in
      rw is (Placement-Fit mm vs len (search_base mm.mmap_base) r (search_base-ge mm.mmap_base) f)
  | inr long ↦ rw (find_unmapped_area-too_long mm vs len e (ground arith)) (refused (omega arith))
]

fixed-Placement :
    (vs : List Vma) (addr len : ℕ)
    → Placement vs true len (
        if not (addr % page_size == 0)
        then neg_errno einval
        else if ltb addr page_size || leb user_limit addr || ltb (user_limit - addr) len
        then neg_errno enomem
        else addr)
fixed-Placement vs addr len = elim (Bool-cases (addr % page_size == 0)) [
  | inr odd ↦ rw odd (refused (omega arith))
  | inl aligned ↦
      elim (Bool-cases (ltb addr page_size || leb user_limit addr || ltb (user_limit - addr) len)) [
        | inl out ↦ rw (aligned, out) (refused (omega arith))
        | inr inside ↦
            rw (aligned, inside) (given refl (ground arith) (ground arith) (ground arith))
      ]
]

-- `__get_unmapped_area` on a process with ordered areas returns an error word, or a place for the
-- mapping: page aligned, above the first page, with its `len` bytes below the user's limit, and
-- (where the caller did not fix the address) covered by no area.
pub get_unmapped_area-Placement :
    (mm : Mm) (vs : List Vma) (addr len flags : ℕ)
    → mm.vma_list ≡ some vs
    → IsOrdered vs
    → Placement vs (has flags map_fixed) len (get_unmapped_area (some mm) addr len flags)
unfolding get_unmapped_area
get_unmapped_area-Placement mm vs addr len flags e c =
    elim (Bool-cases (len == 0 || not (len % page_size == 0))) [
      | inl bad ↦ rw bad (refused (omega arith))
      | inr good ↦ elim (Bool-cases (has flags map_fixed)) [
        | inl fixed ↦ rw (good, fixed) (fixed-Placement vs addr len)
        | inr free ↦
            elim (Bool-cases
              (not (addr == 0) && range_is_free (some mm) (page_align_down addr) len)) [
                | inl hint ↦
                    let p =
                      (range_is_free_iff mm vs (page_align_down addr) len e c).0 (ground arith) in
                    rw (good, free, hint) (chosen refl (omega arith) p.1 p.2 p.3)
                | inr search ↦
                    rw (good, free, search)
                      (search-Placement mm vs len e c (ground arith) (ground arith))
              ]
      ]
    ]
