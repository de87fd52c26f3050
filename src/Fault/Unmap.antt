-- ===== src/Fault/Unmap.antt =====
-- What `do_munmap` (kernel/mmap.c) leaves of the page tables, with `UnmapPage4K` and `FreePage4K` of
-- kernel/memory.c as what it does to one page.
use talios.Base.{
  ℕ, zero, suc, ◌≡◌, ◌+◌, ◌-◌, ◌*◌, ◌/◌, ◌%◌, ◌^◌, ◌<◌, ◌≤◌, Option, none, some, List, [], ◌∷◌,
  Bool, true, false, ◌&&◌, ◌||◌, not, ◌==◌, leb, if◌then◌else◌, arith, refl, ◌∙◌, ap, sym,
  Bool-cases, inl, inr,
}
use mathlib.Core.Path.{subst}
use talios.Base.Word.{ok, err, page_align_up}
use talios.Vma.{Vma, Mm, user_limit}
use talios.Vma.Order.{IsArea, Chain, IsOrdered, within, holds, covered, covered-below}
use talios.Mmap.{
  unmap_start, unmap_end, splits, file_backed, Unmapped, unmap_pages, unmap_anonymous_pages,
  unmap_in, bad_range, finish, do_munmap, head_of,
}
use talios.Pages.{unmap_page_4k}
use talios.Pages.Walk.{OtherPage}
use talios.Pages.Map.{translate}
use talios.Frames.{Frames, FrameLaws}
use talios.Fault.{World, freed}
use talios.Fault.Same.{Cleared, freed-Cleared}

distribute : (h c r : Bool) → ((h || c) && r) ≡ ((c && r) || (h && r))
distribute false false r = refl
distribute false true false = refl
distribute false true true = refl
distribute true false r = refl
distribute true true false = refl
distribute true true true = refl

module _ (F : Frames) (pages_count : ℕ) (L : FrameLaws F pages_count) where
  -- The body of the loop of `unmap_anonymous_pages`.
  abbrev pub unmap_one : ℕ → World F pages_count → World F pages_count
  unmap_one v w = freed F pages_count (unmap_page_4k pages_count v w.tables) w

  -- The user addresses of a set have no frame, and the others translate as before.
  pub record Wiped (set : ℕ → Bool) (w u : World F pages_count) : Type 0 where
    pub good : L.Good u.frames
    pub pages :
        (a : ℕ)
        → a < user_limit
        → translate u.tables a ≡ (if set a then none else translate w.tables a)

  Wiped-none :
      (w : World F pages_count) {set : ℕ → Bool}
      → L.Good w.frames
      → ((a : ℕ) → set a ≡ false)
      → Wiped set w w
  Wiped-none w {set} g h = record { good = g; pages = λ a lt. rw (h a) refl }

  Wiped-then :
      {s t both : ℕ → Bool} {w u x : World F pages_count}
      → Wiped s w u
      → Wiped t u x
      → ((a : ℕ) → both a ≡ (t a || s a))
      → Wiped both w x
  Wiped-then {s} {t} {both} {w} {u} {x} p q h = record {
    good = q.good;
    pages = λ a lt. elim (Bool-cases (t a)) [
      | inl here ↦ q.pages a lt ∙ rw (h a, here) refl
      | inr away ↦ q.pages a lt ∙ rw (h a, away) (p.pages a lt)
    ];
  }

  unmap_one-Wiped :
      (v : ℕ) (w : World F pages_count)
      → v % 4096 ≡ 0
      → v < user_limit
      → L.Good w.frames
      → Wiped (within v (v + 4096)) w (unmap_one v w)
  unmap_one-Wiped v w aligned low g = record {
    good = c.good;
    pages = λ a lt. elim (Bool-cases (within v (v + 4096) a)) [
      | inl here ↦ rw here (c.gone a (same_number a here))
      | inr away ↦ rw away (c.others a (other_number a lt away))
    ];
  }
    where
      c : Cleared F pages_count L v w (unmap_one v w)
      c = freed-Cleared F pages_count L v w aligned g

      same_number :
          (a : ℕ) → within v (v + 4096) a ≡ true → a / 2 ^ 12 % 2 ^ 36 ≡ v / 2 ^ 12 % 2 ^ 36
      same_number a h = ap (λ x. x % 2 ^ 36) (inside_lem (ground (arith, h)) (ground (arith, h)))
        where
          inside_lem : v ≤ a → a < v + 4096 → a / 2 ^ 12 ≡ v / 2 ^ 12
          inside_lem p q = omega (arith, p, q, aligned)

      other_number : (a : ℕ) → a < user_limit → within v (v + 4096) a ≡ false → OtherPage v a
      other_number a lt h e = ground (arith, h, back (omega (arith, e, lt, low)))
        where
          back : a / 2 ^ 12 ≡ v / 2 ^ 12 → (v ≤ a) × (a < v + 4096)
          back q = (omega (arith, q, aligned), omega (arith, q, aligned))

  unmap_pages-Wiped :
      (n v : ℕ) (w : World F pages_count)
      → v % 4096 ≡ 0
      → v + n * 4096 ≤ user_limit
      → L.Good w.frames
      → Wiped (within v (v + n * 4096)) w (unmap_pages unmap_one n v w)
  unfolding unmap_pages
  unmap_pages-Wiped zero v w aligned low g = Wiped-none w g (λ a. ground arith)
  unmap_pages-Wiped (suc n) v w aligned low g =
      let first = unmap_one-Wiped v w aligned (omega (arith, low)) g in
      Wiped-then first
        (unmap_pages-Wiped n (v + 4096) (unmap_one v w) (omega (arith, aligned))
          (omega (arith, low)) first.good)
        (λ a. ground arith)

  module _ (addr end : ℕ) (range : addr < end) (al : addr % 4096 ≡ 0) (el : end % 4096 ≡ 0) where
    -- The addresses of the areas in the range.
    abbrev pub taken : List Vma → ℕ → Bool
    taken vs a = covered a vs && within addr end a

    area-from :
        (from to : ℕ) (w : World F pages_count) {set : ℕ → Bool}
        → from % 4096 ≡ 0
        → to % 4096 ≡ 0
        → from < to
        → to ≤ user_limit
        → L.Good w.frames
        → ((a : ℕ) → set a ≡ within from to a)
        → Wiped set w (unmap_pages unmap_one ((to - from + 4095) / 4096) from w)
    area-from from to w {set} fa ta lt high g h =
        let whole : from + (to - from + 4095) / 4096 * 4096 ≡ to = omega (arith, fa, ta, lt) in
        let r =
          unmap_pages-Wiped ((to - from + 4095) / 4096) from w fa (omega (arith, whole, high)) g in
        record {
          good = r.good;
          pages = λ a low.
              r.pages a low
              ∙ ap (λ x. if x then none else translate w.tables a)
                  (ap (λ e. within from e a) whole ∙ sym (h a));
        }

    -- The pages of one area.
    area-Wiped :
        (v : Vma) (w : World F pages_count)
        → IsArea v
        → addr < v.end
        → v.start < end
        → L.Good w.frames
        → Wiped
            (λ a. holds a v && within addr end a)
            w
            (unmap_anonymous_pages unmap_one (unmap_start addr v) (unmap_end end v) w)
    unfolding unmap_anonymous_pages unmap_start unmap_end
    area-Wiped v w area p q g =
        area-from (unmap_start addr v) (unmap_end end v) w (ground (arith, area.start_aligned, al))
          (ground (arith, area.end_aligned, el)) (ground (arith, range, area.nonempty, p, q))
          (ground (arith, area.high)) g (λ a. ground arith)

    -- Where the loop ends without an error, it has wiped the areas in the range.
    abbrev Wipes : List Vma → World F pages_count → Unmapped (World F pages_count) → Type 0
    Wipes vs w u = u.stop ≡ none → Wiped (taken vs) w u.pages

    Wipes-stop :
        (vs : List Vma) (w x : World F pages_count) {e : ℕ} → some e ≡ none → Wiped (taken vs) w x
    Wipes-stop vs w x h = absurd (ground (arith, h))

    unmap_in-Wipes :
        (lo : ℕ) (allocs : List Bool) (cut : Bool) (w : World F pages_count) (vs : List Vma)
        → Chain lo vs
        → L.Good w.frames
        → Wipes vs w (unmap_in unmap_one addr end allocs cut w vs)
    unfolding unmap_in
    unmap_in-Wipes lo allocs cut w [] c g = λ h. Wiped-none w g (λ a. refl)
    unmap_in-Wipes lo allocs cut w (v ∷ vs) (low, area, rest) g =
        elim (Bool-cases (leb v.end addr)) [
          | inl behind ↦ rw behind (λ h.
              Wiped-then (Wiped-none w g (λ a. refl))
                (unmap_in-Wipes v.end allocs cut w vs rest g h) (λ a. ground (arith, behind)))
          | inr ahead ↦ elim (Bool-cases (leb end v.start)) [
            | inl past ↦
                rw (ahead, past)
                  (λ h. Wiped-none w g (λ a.
                    ground
                      (arith, past, covered-below a v.start (v ∷ vs) (omega arith, area, rest))))
            | inr meets ↦ elim (Bool-cases (file_backed v)) [
              | inl file ↦ rw (ahead, meets, file) (λ h. Wipes-stop (v ∷ vs) w w h)
              | inr anon ↦ elim (Bool-cases (splits addr end v && not (head_of allocs))) [
                | inl fails ↦ rw (ahead, meets, anon, fails) (λ h. Wipes-stop (v ∷ vs) w w h)
                | inr goes ↦
                    let first =
                      area-Wiped v w area (ground (arith, ahead)) (ground (arith, meets)) g in
                    rw (ahead, meets, anon, goes)
                      (λ h.
                        Wiped-then first (unmap_in-Wipes v.end _ true _ vs rest first.good h)
                          (λ a. distribute (holds a v) (covered a vs) (within addr end a)))
              ]
            ]
          ]
        ]

  finish-err :
      (mm : Mm) (u : Unmapped (World F pages_count)) {x : ℕ}
      → u.stop ≡ some x
      → (finish mm u).result ≡ err x
  unfolding finish
  finish-err mm u e = rw e refl

  finish-pages :
      (mm : Mm) (u : Unmapped (World F pages_count)) → u.stop ≡ none → (finish mm u).pages ≡ u.pages
  unfolding finish
  finish-pages mm u e = rw e refl

  finish-ok :
      (mm : Mm) (u : Unmapped (World F pages_count)) → (finish mm u).result ≡ ok 0 → u.stop ≡ none
  finish-ok mm u h = go u.stop refl
    where
      differ : {x : ℕ} → ¬ (err x ≡ ok 0)
      differ e = ground (arith, e)

      go : (o : Option ℕ) → u.stop ≡ o → u.stop ≡ none
      go none e = e
      go (some x) e = absurd (differ (sym (finish-err mm u e) ∙ h))

  bad_range-ok :
      (addr len : ℕ)
      → bad_range addr len ≡ false
      → (addr < addr + page_align_up len)
        × (addr % 4096 ≡ 0)
        × ((addr + page_align_up len) % 4096 ≡ 0)
  unfolding bad_range
  bad_range-ok addr len h = (ground (arith, h), ground (arith, h), ground (arith, h))

  -- Where `do_munmap` returns 0, no user address of the page-aligned range that an area held has a
  -- frame any more, and every other user address translates as before.
  pub do_munmap-Wiped :
      (allocs : List Bool) (mm : Mm) (vs : List Vma) (addr len : ℕ) (w : World F pages_count)
      → mm.vma_list ≡ some vs
      → IsOrdered vs
      → L.Good w.frames
      → (do_munmap unmap_one allocs (some mm) addr len w).result ≡ ok 0
      → Wiped
          (λ a. covered a vs && within addr (addr + page_align_up len) a)
          w
          (do_munmap unmap_one allocs (some mm) addr len w).pages
  unfolding do_munmap
  do_munmap-Wiped allocs mm vs addr len w e c g =
      elim (Bool-cases (mm.pgd == 0 || bad_range addr len)) [
        | inl bad ↦ simp bad (λ h. absurd (ground (arith, h)))
        | inr good ↦
            let (range, al, el) = bad_range-ok addr len (ground (arith, good)) in
            let end : ℕ = addr + page_align_up len in
            let u = unmap_in unmap_one addr end allocs false w vs in
            simp (good, e)
              (λ h.
                subst (Wiped (λ a. covered a vs && within addr end a) w)
                  (sym (finish-pages mm u (finish-ok mm u h)))
                  (unmap_in-Wipes addr end range al el 0 allocs false w vs c g (finish-ok mm u h)))
      ]
