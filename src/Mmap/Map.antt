-- ===== src/Mmap/Map.antt =====
-- `do_mmap` (kernel/mmap.c) adds exactly one fresh area, or fails and changes nothing.
use talios.Base.{
  ℕ, ◌+◌, ◌%◌, ◌^◌, ◌≤◌, ◌<◌, ◌≡◌, inl, inr, Bool, true, false, ◌||◌, ◌&&◌, not, Option, none, some,
  List, leb, arith, refl, le→leb, Bool-cases, Option-cases,
}
use talios.Base.Word.{Ret, neg_errno, page_size, page_align_up, eexist}
use talios.Vma.{Vma, Mm, user_limit, range_is_free}
use talios.Vma.Order.{IsArea, IsOrdered, IsFree, covered, within}
use talios.Vma.Free.{range_is_free_iff}
use talios.Vma.Insert.{Outcome, invalid, exists, inserted, insert_vma-Outcome}
use talios.Mmap.{
  Request, has, map_fixed, bad_request, bad_length, new_area, inserted_at, map_at, do_mmap,
  get_unmapped_area,
}
use talios.Mmap.Place.{Placement, refused, given, chosen, get_unmapped_area-Placement}

-- What `do_mmap` returns and leaves, for a mapping of `len` bytes.
pub data Mapped (mm : Mm) (vs : List Vma) (len : ℕ) : ℕ × Option Mm → Type 0 where
  failed : {w : ℕ} → 2 ^ 63 ≤ w → Mapped mm vs len (w, some mm)
  mapped :
      {w : ℕ} {ws : List Vma}
      → w % page_size ≡ 0
      → page_size ≤ w
      → w + len ≤ user_limit
      → IsFree vs w (w + len)
      → IsOrdered ws
      → ((a : ℕ) → covered a ws ≡ (within w (w + len) a || covered a vs))
      → Mapped mm vs len (w, some (record mm { vma_list = some ws }))

module _ (mm : Mm) (vs : List Vma) (q : Request) (len : ℕ) (pos : 0 < len)
    (al : len % page_size ≡ 0) where
  new_area-IsArea :
      (w : ℕ)
      → w % page_size ≡ 0
      → page_size ≤ w
      → w + len ≤ user_limit
      → IsArea (new_area mm q w len)
  unfolding new_area
  new_area-IsArea w a b c = omega arith

  -- The insertion of an area where nothing is covered succeeds.
  inserted_at-Mapped :
      (w : ℕ) (r : Ret) (m : Option Mm) (ws : List Vma)
      → w % page_size ≡ 0
      → page_size ≤ w
      → w + len ≤ user_limit
      → IsFree vs w (w + len)
      → m ≡ some (record mm { vma_list = some ws })
      → Outcome (new_area mm q w len) vs (r, ws)
      → Mapped mm vs len (inserted_at w (r, m))
  unfolding inserted_at new_area
  inserted_at-Mapped w r m ws a b c f e (invalid bad) = absurd (bad (new_area-IsArea w a b c))
  inserted_at-Mapped w r m ws a b c f e (exists area (x, i, t)) = absurd (cc (f x, i, t))
  inserted_at-Mapped w r m ws a b c f e (inserted area order cov apart) =
      rw e (mapped a b c f order cov)

  map_at-free :
      (alloc : Bool) (w : ℕ)
      → mm.vma_list ≡ some vs
      → IsOrdered vs
      → w % page_size ≡ 0
      → page_size ≤ w
      → w + len ≤ user_limit
      → IsFree vs w (w + len)
      → (has q.flags map_fixed && not (range_is_free (some mm) w len)) ≡ false
      → Mapped mm vs len (map_at alloc mm q len w)
  unfolding map_at
  map_at-free false w e o a b c f fine = rw (small, fine) (failed (omega arith))
    where
      small : leb (2 ^ 63) w ≡ false
      small = ground arith
  map_at-free true w e o a b c f fine =
      let (ws, is, out) = insert_vma-Outcome mm (new_area mm q w len) vs e o in
      rw (small, fine) (inserted_at-Mapped w _ _ ws a b c f is out)
    where
      small : leb (2 ^ 63) w ≡ false
      small = ground arith

  map_at-refused : (alloc : Bool) (w : ℕ) → 2 ^ 63 ≤ w → map_at alloc mm q len w ≡ (w, some mm)
  unfolding map_at
  map_at-refused alloc w h = rw (le→leb _ _ h)

  map_at-busy :
      (alloc : Bool) (w : ℕ)
      → w < 2 ^ 63
      → has q.flags map_fixed ≡ true
      → range_is_free (some mm) w len ≡ false
      → map_at alloc mm q len w ≡ (neg_errno eexist, some mm)
  unfolding map_at
  map_at-busy alloc w h fixed busy = rw (small, fixed, busy)
    where
      small : leb (2 ^ 63) w ≡ false
      small = ground arith

  map_at-Mapped :
      (alloc : Bool) (w : ℕ)
      → mm.vma_list ≡ some vs
      → IsOrdered vs
      → Placement vs (has q.flags map_fixed) len w
      → Mapped mm vs len (map_at alloc mm q len w)
  map_at-Mapped alloc w e o (refused big) = rw (map_at-refused alloc w big) (failed big)
  map_at-Mapped alloc w e o (chosen loose a b c f) = map_at-free alloc w e o a b c f (rw loose)
  map_at-Mapped alloc w e o (given fixed a b c) =
      elim (Bool-cases (range_is_free (some mm) w len)) [
        | inl free ↦
            map_at-free alloc w e o a b c ((range_is_free_iff mm vs w len e o).0 free).3
              (rw (fixed, free))
        | inr busy ↦ rw (map_at-busy alloc w (omega arith) fixed busy) (failed (omega arith))
      ]

bad_length-none : (len pgoff : ℕ) → bad_length len pgoff ≡ none → 0 < len
unfolding bad_length
bad_length-none len pgoff h = ground arith

bad_length-some : (len pgoff : ℕ) {n : ℕ} → bad_length len pgoff ≡ some n → n ≤ 95
unfolding bad_length
bad_length-some len pgoff h = ground arith

bad_request-some : (q : Request) {n : ℕ} → bad_request q ≡ some n → n ≤ 95
unfolding bad_request
bad_request-some q h = ground arith

-- On a process with ordered areas `do_mmap` either returns an error word and changes nothing, or
-- returns a page-aligned address at which the page-aligned length lies below the user's limit and no
-- byte was covered; then the areas are ordered again and cover exactly those bytes more.
pub do_mmap-Mapped :
    (alloc : Bool) (mm : Mm) (vs : List Vma) (q : Request)
    → mm.vma_list ≡ some vs
    → IsOrdered vs
    → Mapped mm vs (page_align_up q.len) (do_mmap alloc (some mm) q)
unfolding do_mmap
do_mmap-Mapped alloc mm vs q e o = elim (Option-cases (bad_request q)) [
  | inr (n, bad) ↦ rw (bad, do_mmap) (failed (omega (arith, bad_request-some q bad)))
  | inl good ↦ elim (Option-cases (bad_length (page_align_up q.len) q.pgoff)) [
    | inr (n, bad) ↦ rw (good, bad, do_mmap) (failed (omega (arith, bad_length-some _ _ bad)))
    | inl fine ↦
        rw (good, fine, do_mmap)
          (map_at-Mapped mm vs q (page_align_up q.len) (bad_length-none _ _ fine) (omega arith)
            alloc _ e o
            (get_unmapped_area-Placement mm vs q.addr (page_align_up q.len) q.flags e o))
  ]
]

module _ (mm : Mm) (vs : List Vma) (q : Request) (len : ℕ) (pos : 0 < len)
    (al : len % page_size ≡ 0) where
  inserted_at-first :
      (w : ℕ) (r : Ret) (m : Option Mm) (ws : List Vma)
      → w % page_size ≡ 0
      → page_size ≤ w
      → w + len ≤ user_limit
      → IsFree vs w (w + len)
      → Outcome (new_area mm q w len) vs (r, ws)
      → (inserted_at w (r, m)).0 ≡ w
  unfolding inserted_at new_area
  inserted_at-first w r m ws a b c f (invalid bad) =
      absurd (bad (new_area-IsArea mm vs q len pos al w a b c))
  inserted_at-first w r m ws a b c f (exists area (x, i, t)) = absurd (cc (f x, i, t))
  inserted_at-first w r m ws a b c f (inserted area order cov apart) = refl

  map_at-first :
      (w : ℕ)
      → mm.vma_list ≡ some vs
      → IsOrdered vs
      → w % page_size ≡ 0
      → range_is_free (some mm) w len ≡ true
      → (map_at true mm q len w).0 ≡ w
  unfolding map_at
  map_at-first w e o aligned free =
      let (p0, p1, p2, p3) = (range_is_free_iff mm vs w len e o).0 free in
      let (ws, is, out) = insert_vma-Outcome mm (new_area mm q w len) vs e o in
      rw (small p2, fine) (inserted_at-first w _ _ ws aligned p1 p2 p3 out)
    where
      small : w + len ≤ user_limit → leb (2 ^ 63) w ≡ false
      small h = ground arith

      fine : (has q.flags map_fixed && not (range_is_free (some mm) w len)) ≡ false
      fine = ground arith

get_unmapped_area-fixed :
    (mm : Mm) (addr len flags : ℕ)
    → 0 < len
    → len % page_size ≡ 0
    → has flags map_fixed ≡ true
    → addr % page_size ≡ 0
    → page_size ≤ addr
    → addr + len ≤ user_limit
    → get_unmapped_area (some mm) addr len flags ≡ addr
unfolding get_unmapped_area
get_unmapped_area-fixed mm addr len flags a b c d f g = ground arith

-- A MAP_FIXED request that passes the tests on its arguments, for an aligned range that is free, is
-- mapped at exactly the address that it names, if there is memory for the area.
pub do_mmap-fixed :
    (mm : Mm) (vs : List Vma) (q : Request)
    → mm.vma_list ≡ some vs
    → IsOrdered vs
    → bad_request q ≡ none
    → bad_length (page_align_up q.len) q.pgoff ≡ none
    → has q.flags map_fixed ≡ true
    → q.addr % page_size ≡ 0
    → range_is_free (some mm) q.addr (page_align_up q.len) ≡ true
    → (do_mmap true (some mm) q).0 ≡ q.addr
unfolding do_mmap
do_mmap-fixed mm vs q e o good fine fixed aligned free =
    let (p0, p1, p2, p3) = (range_is_free_iff mm vs q.addr (page_align_up q.len) e o).0 free in
    rw
      (
        good,
        fine,
        get_unmapped_area-fixed mm q.addr (page_align_up q.len) q.flags p0 (omega arith) fixed
            aligned p1 p2,
        do_mmap,
      )
      (map_at-first mm vs q (page_align_up q.len) p0 (omega arith) q.addr e o aligned free)
