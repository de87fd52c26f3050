-- ===== src/Mmap/Unmap.antt =====
-- `do_munmap` (kernel/mmap.c) takes exactly the range out of the set of covered addresses.
use talios.Base.{
  ℕ, ◌+◌, ◌-◌, ◌%◌, ◌≤◌, ◌<◌, ◌≡◌, ◌≢◌, inl, inr, Bool, true, false, ◌||◌, ◌&&◌, not, none, some,
  List, [], ◌∷◌, ◌++◌, leb, ◌==◌, arith, refl, max, leb→le, Bool-cases,
}
use talios.Base.Word.{ok, err, page_size, page_align_up, enomem, einval}
use talios.Vma.{Vma, Mm, user_limit}
use talios.Vma.Order.{
  IsArea, Chain, IsOrdered, within, holds, covered, covered-below, IsFree, IsTaken, Chain-weaken,
}
use talios.Mmap.{
  unmap_start, unmap_end, splits, remains, file_backed, Unmapped, unmap_in, bad_range, Munmap,
  finish, do_munmap, head_of, keep, stopped,
}

-- Every area is anonymous.
abbrev pub AllAnonymous : List Vma → Type 0
AllAnonymous [] = Unit {0}
AllAnonymous (v ∷ vs) = (file_backed v ≡ false) × AllAnonymous vs

-- One of the areas begins before the range and ends behind it.
pub data IsInside (addr end : ℕ) : List Vma → Type 0 where
  inside_first :
      {v : Vma} {vs : List Vma} → v.start < addr → end < v.end → IsInside addr end (v ∷ vs)
  inside_later : {v : Vma} {vs : List Vma} → IsInside addr end vs → IsInside addr end (v ∷ vs)

-- The next `kmalloc` fails.
pub data IsOut : List Bool → Type 0 where
  none_left : IsOut []
  next_fails : {bs : List Bool} → IsOut (false ∷ bs)

head_of-IsOut : (bs : List Bool) → head_of bs ≡ false → IsOut bs
head_of-IsOut [] h = none_left
head_of-IsOut (true ∷ bs) h = absurd (ground (arith, h))
head_of-IsOut (false ∷ bs) h = next_fails

covered-append : (a : ℕ) (vs ws : List Vma) → covered a (vs ++ ws) ≡ (covered a vs || covered a ws)
covered-append a [] ws = refl
covered-append a (v ∷ vs) ws = ground (arith, covered-append a vs ws)

module _ (addr end : ℕ) (lt : addr < end) (al : addr % page_size ≡ 0)
    (el : end % page_size ≡ 0) where
  -- What stays of an area that meets the range is ordered,
  remains-Chain :
      (lo : ℕ) (v : Vma) (vs : List Vma)
      → lo ≤ v.start
      → IsArea v
      → addr < v.end
      → v.start < end
      → Chain v.end vs
      → Chain lo (remains addr end v ++ vs)
  unfolding remains unmap_start unmap_end
  remains-Chain lo v vs h area p q c = ground (
    arith,
    Chain-weaken v.end lo vs (omega (arith, area.nonempty)) c,
    Chain-weaken v.end addr vs (omega arith) c,
  )

  -- and covers what is left of it.
  remains-covered :
      (a : ℕ) (v : Vma)
      → IsArea v
      → addr < v.end
      → v.start < end
      → covered a (remains addr end v) ≡ (holds a v && not (within addr end a))
  unfolding remains unmap_start unmap_end
  remains-covered a v area p q = ground arith

  -- From the range on no area is split.
  splits_from : (v : Vma) → addr ≤ v.start → splits addr end v ≡ false
  unfolding splits unmap_start unmap_end
  splits_from v h = ground arith

  splits-IsInside :
      (v : Vma) (vs : List Vma) (allocs : List Bool)
      → (splits addr end v && not (head_of allocs)) ≡ true
      → IsInside addr end (v ∷ vs) × IsOut allocs
  unfolding splits unmap_start unmap_end
  splits-IsInside v vs allocs h = (
    inside_first (ground (arith, h)) (ground (arith, h)),
    head_of-IsOut allocs (ground (arith, h)),
  )

  Chain-apart : (lo : ℕ) (vs : List Vma) → end ≤ lo → Chain lo vs → IsFree vs addr end
  Chain-apart lo vs h c a = ground (arith, covered-below a lo vs c)

  module _ {PT : Type 0} (unmap_page : ℕ → PT → PT) where
    -- The loop after its first cut: it runs to the end of the range.
    data Cut (lo : ℕ) (vs : List Vma) : Unmapped PT → Type 0 where
      cut :
          {ws : List Vma} {pt : PT}
          → Chain lo ws
          → ((a : ℕ) → covered a ws ≡ (covered a vs && not (within addr end a)))
          → Cut lo vs (stopped ws pt none true)

    Cut-untouched :
        (lo : ℕ) (vs : List Vma) (pt : PT)
        → Chain lo vs
        → IsFree vs addr end
        → Cut lo vs (stopped vs pt none true)
    Cut-untouched lo vs pt c f = cut c (λ a. ground (arith, f a))

    Cut-remains :
        (lo : ℕ) (v : Vma) (vs : List Vma) {u : Unmapped PT}
        → lo ≤ v.start
        → IsArea v
        → addr < v.end
        → v.start < end
        → Cut v.end vs u
        → Cut lo (v ∷ vs) (keep (remains addr end v) u)
    Cut-remains lo v vs h area p q (cut {ws} c cov) = cut (remains-Chain lo v ws h area p q c) (λ a.
        ground
          (arith, cov a, covered-append a (remains addr end v) ws, remains-covered a v area p q))

    unmap_in-Cut :
        (lo : ℕ) (allocs : List Bool) (pt : PT) (vs : List Vma)
        → addr ≤ lo
        → Chain lo vs
        → AllAnonymous vs
        → Cut lo vs (unmap_in unmap_page addr end allocs true pt vs)
    unfolding unmap_in
    unmap_in-Cut lo allocs pt [] h c an = Cut-untouched lo [] pt tt (λ a. ground arith)
    unmap_in-Cut lo allocs pt (v ∷ vs) h (low, area, rest) (anon, an) =
        elim (Bool-cases (leb end v.start)) [
          | inl past ↦
              rw (behind, past)
                (Cut-untouched lo (v ∷ vs) pt (low, area, rest)
                  (Chain-apart v.start (v ∷ vs) (leb→le _ _ past) (omega arith, area, rest)))
          | inr meets ↦
              rw (behind, meets, anon, splits_from v (omega arith))
                (Cut-remains lo v vs low area (omega (arith, area.nonempty)) (ground arith)
                  (unmap_in-Cut v.end allocs _ vs (omega (arith, area.nonempty)) rest an))
        ]
      where
        behind : leb v.end addr ≡ false
        behind = ground (arith, area.nonempty)

    -- The whole loop, on an ordered list of anonymous areas.
    data Clear (lo : ℕ) (allocs : List Bool) (vs : List Vma) (pt : PT) : Unmapped PT → Type 0 where
      nothing : IsFree vs addr end → Clear lo allocs vs pt (stopped vs pt none false)
      no_memory :
          IsInside addr end vs
          → IsOut allocs
          → Clear lo allocs vs pt (stopped vs pt (some enomem) false)
      cleared : {u : Unmapped PT} → IsTaken vs addr end → Cut lo vs u → Clear lo allocs vs pt u

    Clear-skip :
        (lo : ℕ) (allocs : List Bool) (v : Vma) (vs : List Vma) (pt : PT) {u : Unmapped PT}
        → lo ≤ v.start
        → IsArea v
        → v.end ≤ addr
        → Clear v.end allocs vs pt u
        → Clear lo allocs (v ∷ vs) pt (keep (v ∷ []) u)
    Clear-skip lo allocs v vs pt h area before (nothing f) = nothing (λ a. ground (arith, f a))
    Clear-skip lo allocs v vs pt h area before (no_memory i o) = no_memory (inside_later i) o
    Clear-skip lo allocs v vs pt h area before (cleared (a, i, t) (cut c cov)) =
        cleared (a, i, ground arith) (cut (h, area, c) (λ b. ground (arith, cov b)))

    unmap_in-Clear :
        (lo : ℕ) (allocs : List Bool) (pt : PT) (vs : List Vma)
        → Chain lo vs
        → AllAnonymous vs
        → Clear lo allocs vs pt (unmap_in unmap_page addr end allocs false pt vs)
    unfolding unmap_in
    unmap_in-Clear lo allocs pt [] c an = nothing (λ a. ground arith)
    unmap_in-Clear lo allocs pt (v ∷ vs) (low, area, rest) (anon, an) =
        elim (Bool-cases (leb v.end addr)) [
          | inl behind ↦ rw behind (
              Clear-skip lo allocs v vs pt low area (leb→le _ _ behind)
                (unmap_in-Clear v.end allocs pt vs rest an))
          | inr ahead ↦ elim (Bool-cases (leb end v.start)) [
            | inl past ↦
                rw (ahead, past)
                  (nothing
                    (Chain-apart v.start (v ∷ vs) (leb→le _ _ past) (omega arith, area, rest)))
            | inr meets ↦ elim (Bool-cases (splits addr end v && not (head_of allocs))) [
              | inl fails ↦
                  rw (ahead, meets, anon, fails)
                    (no_memory (splits-IsInside v vs allocs fails).0
                      (splits-IsInside v vs allocs fails).1)
              | inr goes ↦
                  rw (ahead, meets, anon, goes)
                    (cleared
                      (
                        max addr v.start,
                        ground (arith, area.nonempty),
                        ground (arith, area.nonempty),
                      )
                      (Cut-remains lo v vs low area (ground arith) (ground arith)
                        (unmap_in-Cut v.end _ _ vs (ground arith) rest an)))
            ]
          ]
        ]

-- What `do_munmap` leaves of a process `mm` with the areas `vs`.
pub data Removed {PT : Type 0} (mm : Mm) (vs : List Vma) (allocs : List Bool) (addr end : ℕ)
    (pt : PT) : Munmap PT → Type 0 where
  nothing :
      IsFree vs addr end
      → Removed mm vs allocs addr end pt (record {
        result = err einval;
        mm = some (record mm { vma_list = some vs });
        pages = pt;
        flushed = false;
      })
  no_memory :
      IsInside addr end vs
      → IsOut allocs
      → Removed mm vs allocs addr end pt (record {
        result = err enomem;
        mm = some (record mm { vma_list = some vs });
        pages = pt;
        flushed = false;
      })
  removed :
      {ws : List Vma} {pt' : PT}
      → IsTaken vs addr end
      → IsOrdered ws
      → ((a : ℕ) → covered a ws ≡ (covered a vs && not (within addr end a)))
      → Removed mm vs allocs addr end pt (record {
        result = ok 0;
        mm = some (record mm { vma_list = some ws });
        pages = pt';
        flushed = true;
      })

module _ {PT : Type 0} (unmap_page : ℕ → PT → PT) where
  finish-Removed :
      (mm : Mm) (vs : List Vma) (allocs : List Bool) (addr end : ℕ) (pt : PT) (lt : addr < end)
      (al : addr % page_size ≡ 0) (el : end % page_size ≡ 0) {u : Unmapped PT}
      → Clear addr end lt al el unmap_page 0 allocs vs pt u
      → Removed mm vs allocs addr end pt (finish mm u)
  unfolding finish
  finish-Removed mm vs allocs addr end pt lt al el (nothing f) = nothing f
  finish-Removed mm vs allocs addr end pt lt al el (no_memory i o) = no_memory i o
  finish-Removed mm vs allocs addr end pt lt al el (cleared t (cut c cov)) = removed t c cov

  bad_range-false :
      (addr len : ℕ)
      → 0 < len
      → len ≤ user_limit - (page_size - 1)
      → addr % page_size ≡ 0
      → page_size ≤ addr
      → addr + page_align_up len ≤ user_limit
      → bad_range addr len ≡ false
  unfolding bad_range
  bad_range-false addr len a b c d e = ground arith

  -- On a process with page tables whose areas are ordered and anonymous, `do_munmap` of a valid
  -- range either changes nothing (-EINVAL where no address of the range is covered, -ENOMEM where one
  -- area begins before the range and ends behind it and the next kmalloc fails), or returns 0, flushes the TLB and leaves ordered
  -- areas that cover exactly the addresses covered before which lie outside the page-aligned range.
  pub do_munmap-Removed :
      (allocs : List Bool) (mm : Mm) (vs : List Vma) (addr len : ℕ) (pt : PT)
      → mm.pgd ≢ 0
      → mm.vma_list ≡ some vs
      → IsOrdered vs
      → AllAnonymous vs
      → 0 < len
      → len ≤ user_limit - (page_size - 1)
      → addr % page_size ≡ 0
      → page_size ≤ addr
      → addr + page_align_up len ≤ user_limit
      → Removed mm vs allocs addr
          (addr + page_align_up len)
          pt
          (do_munmap unmap_page allocs (some mm) addr len pt)
  unfolding do_munmap
  do_munmap-Removed allocs mm vs addr len pt pgd e c an a1 a2 a3 a4 a5 =
      simp (guard, e)
        (finish-Removed mm vs allocs addr (addr + page_align_up len) pt (omega arith) a3
          (omega arith)
          (unmap_in-Clear addr _ (omega arith) a3 (omega arith) unmap_page 0 allocs pt vs c an))
    where
      guard : (mm.pgd == 0 || bad_range addr len) ≡ false
      guard = ground (arith, bad_range-false addr len a1 a2 a3 a4 a5)
