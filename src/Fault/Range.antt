-- ===== src/Fault/Range.antt =====
-- What `MapUserRange4K` and `do_brk` (kernel/memory.c) leave: all pages of the range, or the world as
-- it was.
use talios.Base.{
  ℕ, zero, suc, ◌≡◌, ◌+◌, ◌-◌, ◌*◌, ◌/◌, ◌%◌, ◌^◌, ◌<◌, ◌≤◌, Option, none, some, ◌==◌, leb, ltb,
  ltb→lt, leb→le, ◌&&◌, false, arith, true, refl, ◌∙◌, ap, sym, Bool-cases, inl, inr, ◌≢◌,
}
use mathlib.Core.Path.{subst}
use talios.Base.Word.{Ret, ok, err, enomem, neg_errno, page_align_up}
use talios.Buddy.Count.{one_if}
use talios.Pages.{page_at}
use talios.Pages.Walk.{OtherPage, look_pml4}
use talios.Pages.Map.{translate, frame_of, look-same}
use talios.Frames.{Frames, FrameLaws}
use talios.Strings.Copy.{IsFilled}
use talios.Fault.{
  World, roll_back, new_page, map_next, map_from, map_user_range_4k, brk_to, do_brk, end_set,
  sys_brk, range_first, range_last, range_pages, pea_user_page,
}
use talios.Fault.Same.{
  is_frame, Same, Cleared, freed-Cleared, roll_back-Same, Same-refl, Same-trans,
}
use talios.Fault.Fails.{Fails, Before, at_start, one_more}
use talios.Fault.Demand.{Served, Demanded, out_of_memory, served, new_page-Demanded}

module _ (F : Frames) (pages_count : ℕ) (L : FrameLaws F pages_count) where
  -- Unmapping a page that has just been made, and freeing it, gives the world of before.
  Served-Cleared :
      (v : ℕ) {w u u' : World F pages_count}
      → Served F pages_count L v pea_user_page w u
      → Cleared F pages_count L v u u'
      → Same F pages_count L w u'
  unfolding page_at
  Served-Cleared v {w} {u} {u'} s c = record {
    good = λ g. c.good;
    pages = λ x. elim (Bool-cases (x / 2 ^ 12 % 2 ^ 36 == v / 2 ^ 12 % 2 ^ 36)) [
      | inl here ↦
          c.gone x (ground (arith, here))
          ∙ sym (ap frame_of (look-same w.tables x v (ground (arith, here))) ∙ s.unmapped)
      | inr away ↦
          let o : OtherPage v x = λ e. ground (arith, away, e) in
          c.others x o ∙ ap frame_of (s.others x o)
    ];
    free = λ p.
        omega (
          arith,
          c.free p,
          s.taken p,
          ap (λ o. is_frame p (page_at pages_count o)) s.frame,
          there p,
        );
  }
    where
      there : (p : ℕ) → is_frame p (page_at pages_count (some s.phy)) ≡ one_if (p == s.phy / 4096)
      there p = rw low refl
        where
          low : leb pages_count (s.phy / 2 ^ 12) ≡ false
          low = ground (arith, s.small)

  -- A page of the range has a frame of zeros, present, writable and the user's by the bits of its word,
  -- and had none.
  pub record Filled (v : ℕ) (w u : World F pages_count) : Type 0 where
    pub phy : ℕ
    pub frame : translate u.tables v ≡ some phy
    pub word : look_pml4 u.tables v ≡ phy + 7
    pub unmapped : translate w.tables v ≡ none
    pub zeros : (j : ℕ) → j < 4096 → u.memory (phy + j) ≡ 0

  -- The first `k` pages from `first` on are new pages of zeros, and the other pages are as before.
  pub record Ranged (first k : ℕ) (w u : World F pages_count) : Type 0 where
    pub good : L.Good u.frames
    pub filled : (i : ℕ) → i < k → Filled (first + i * 4096) w u
    pub others :
        (x : ℕ)
        → ((i : ℕ) → i < k → OtherPage (first + i * 4096) x)
        → look_pml4 u.tables x ≡ look_pml4 w.tables x

  -- Zeros stay zeros.
  zeros_stay : {phy : ℕ} {m r : ℕ → ℕ} → IsFilled phy 0 4096 m r → (a : ℕ) → m a ≡ 0 → r a ≡ 0
  zeros_stay {phy} {m} {r} h a z = elim (Bool-cases (leb phy a && ltb a (phy + 4096))) [
    | inl inside ↦
        ap r {x = a} (
          omega (
            arith,
            ltb→lt a (phy + 4096) (ground (arith, inside)),
            leb→le phy a (ground (arith, inside)),
          ))
        ∙ h.filled (a - phy) (ground (arith, inside))
    | inr out ↦ h.others a (ground (arith, out)) ∙ z
  ]

  Ranged-suc :
      (first k : ℕ) {w u x : World F pages_count}
      → Ranged first k w u
      → Served F pages_count L (first + k * 4096) pea_user_page u x
      → Ranged first (suc k) w x
  Ranged-suc first k {w} {u} {x} r s = record {
    good = s.good;
    filled = λ i lt. elim (Bool-cases (i == k)) [
      | inl last ↦ rw (number last) new_one
      | inr below ↦ old i (ground (arith, below, lt))
    ];
    others = λ y h. s.others y (h k (omega arith)) ∙ r.others y (λ i lt. h i (omega arith));
  }
    where
      number : {a b : ℕ} → (a == b) ≡ true → a ≡ b
      number h = ground (arith, h)

      differ : {phy : ℕ} {o : Option ℕ} → o ≡ some phy → ¬ (o ≡ none)
      differ h e = ground (arith, h, e)

      fresh : (i : ℕ) → i < k → OtherPage (first + i * 4096) (first + k * 4096)
      fresh i lt e = differ (r.filled i lt).frame (
          ap frame_of (sym (look-same u.tables (first + k * 4096) (first + i * 4096) e))
          ∙ s.unmapped)

      new_one : Filled (first + k * 4096) w x
      new_one = record {
        phy = s.phy;
        frame = s.frame;
        word = s.word;
        unmapped = ap frame_of (sym (r.others (first + k * 4096) fresh)) ∙ s.unmapped;
        zeros = s.zeros.filled;
      }

      old : (i : ℕ) → i < k → Filled (first + i * 4096) w x
      old i lt =
          let f = r.filled i lt in
          let kept = s.others (first + i * 4096) (λ e. fresh i lt (sym e)) in
          record {
            phy = f.phy;
            frame = ap frame_of kept ∙ f.frame;
            word = kept ∙ f.word;
            unmapped = f.unmapped;
            zeros = λ j small. zeros_stay s.zeros (f.phy + j) (f.zeros j small);
          }

  -- Either all of the range is new pages, or the world is as before, with the error -ENOMEM.
  pub data RangeMapped (first n : ℕ) (w : World F pages_count)
      : Ret × World F pages_count → Type 0 where
    mapped_range : {u : World F pages_count} → Ranged first n w u → RangeMapped first n w (ok 0, u)
    rolled_back :
        {k : ℕ} {x u : World F pages_count}
        → k < n
        → Before F pages_count first w k x
        → Fails F pages_count (first + k * 4096) x
        → L.Good u.frames
        → Same F pages_count L w u
        → RangeMapped first n w (err enomem, u)

  -- What the loop behind `fail` would leave, with `k` pages made.
  abbrev Undone : (first k : ℕ) → World F pages_count → World F pages_count → Type 0
  Undone first k w0 w = Same F pages_count L w0 (roll_back F pages_count first k w)

  Undone-suc :
      (first k : ℕ) {w0 w u : World F pages_count}
      → first % 4096 ≡ 0
      → L.Good w.frames
      → Undone first k w0 w
      → Served F pages_count L (first + k * 4096) pea_user_page w u
      → Undone first (suc k) w0 u
  unfolding roll_back
  Undone-suc first k {w0} {w} {u} aligned good undone s = Same-trans F pages_count L undone (
      roll_back-Same F pages_count L first k aligned good (
        Served-Cleared (first + k * 4096) s
          (freed-Cleared F pages_count L (first + k * 4096) u (omega arith) s.good)))

  map_from-Range :
      (first n k : ℕ) (w0 w : World F pages_count)
      → first % 4096 ≡ 0
      → L.Good w0.frames
      → Before F pages_count first w0 k w
      → Ranged first k w0 w
      → Undone first k w0 w
      → RangeMapped first (n + k) w0 (map_from F pages_count first n k w)
  unfolding map_from map_next
  map_from-Range first zero k w0 w aligned good before r undone =
      mapped_range (subst (λ m. Ranged first m w0 w) (omega arith) r)
  map_from-Range first (suc n) k w0 w aligned good before r undone =
      next
        (λ u made ranged und.
          subst (λ m. RangeMapped first m w0 (map_from F pages_count first n (suc k) u))
            (omega arith) (map_from-Range first n (suc k) w0 u aligned good made ranged und))
        (new_page F pages_count (first + k * 4096) pea_user_page w)
        (new_page-Demanded F pages_count L (first + k * 4096) pea_user_page w (omega arith)
          (inr refl) r.good)
    where
      next :
          ((u : World F pages_count)
            → Before F pages_count first w0 (suc k) u
            → Ranged first (suc k) w0 u
            → Undone first (suc k) w0 u
            → RangeMapped first (suc n + k) w0 (map_from F pages_count first n (suc k) u))
          → (s : Ret × World F pages_count)
          → Demanded F pages_count L (first + k * 4096) pea_user_page w s
          → RangeMapped first
              (suc n + k)
              w0
              (map_next F pages_count first k s (map_from F pages_count first n (suc k)))
      next rest _ (out_of_memory {u} why g same) =
          let all =
            Same-trans F pages_count L undone
              (roll_back-Same F pages_count L first k aligned r.good same) in
          rolled_back {k = k} (omega arith) before why (all.good good) all
      next rest _ (served {u} s made) =
          rest u (one_more before made) (Ranged-suc first k r s)
            (Undone-suc first k aligned r.good undone s)

  pub map_user_range_4k-RangeMapped :
      (start size : ℕ) (w : World F pages_count)
      → L.Good w.frames
      → RangeMapped
          (range_first start)
          (range_pages start size)
          w
          (map_user_range_4k F pages_count start size w)
  unfolding map_user_range_4k roll_back
  map_user_range_4k-RangeMapped start size w good =
      subst
        (λ m. RangeMapped (range_first start) m w (map_user_range_4k F pages_count start size w))
        (omega arith)
        (map_from-Range (range_first start) (range_pages start size) 0 w w (omega arith) good
          at_start
          (record { good = good; filled = λ i lt. absurd (omega arith); others = λ x h. refl })
          (Same-refl F pages_count L w))

  -- The outcomes of `sys_brk`: the answer, the break and the world.
  pub data BrkOutcome (brk start_brk end_brk : ℕ) (w : World F pages_count)
      : ℕ × ℕ × World F pages_count → Type 0 where
    asked : page_align_up brk ≡ 0 → BrkOutcome brk start_brk end_brk w (start_brk, end_brk, w)
    shrunk :
        page_align_up brk ≢ 0
        → page_align_up brk < end_brk
        → BrkOutcome brk start_brk end_brk w (0, end_brk, w)
    grown :
        {n : ℕ} {u : World F pages_count}
        → end_brk ≤ page_align_up brk
        → range_first end_brk + n * 4096 ≡ page_align_up brk
        → Ranged (range_first end_brk) n w u
        → BrkOutcome brk start_brk end_brk w (page_align_up brk, page_align_up brk, u)
    exhausted :
        {k : ℕ} {x u : World F pages_count}
        → end_brk ≤ page_align_up brk
        → range_first end_brk + k * 4096 < page_align_up brk
        → Before F pages_count (range_first end_brk) w k x
        → Fails F pages_count (range_first end_brk + k * 4096) x
        → L.Good u.frames
        → Same F pages_count L w u
        → BrkOutcome brk start_brk end_brk w (neg_errno enomem, neg_errno enomem, u)

  -- The range of the request ends where it asks.
  last_of :
      (brk end_brk : ℕ)
      → end_brk ≤ page_align_up brk
      → range_last end_brk (page_align_up brk - end_brk) ≡ page_align_up brk
  last_of brk end_brk le = ap page_align_up sum ∙ omega arith
    where
      sum : (end_brk + (page_align_up brk - end_brk)) % 2 ^ 64 ≡ page_align_up brk
      sum = omega arith

  pages_of :
      (brk end_brk : ℕ)
      → end_brk ≤ page_align_up brk
      → range_first end_brk + range_pages end_brk (page_align_up brk - end_brk) * 4096
        ≡ page_align_up brk
  pages_of brk end_brk le =
      ap (λ l. range_first end_brk + (l - range_first end_brk) / 4096 * 4096)
        (last_of brk end_brk le)
      ∙ omega arith

  brk_done :
      {brk start_brk end_brk : ℕ} {w : World F pages_count} {s : Ret × World F pages_count}
      → end_brk ≤ page_align_up brk
      → RangeMapped (range_first end_brk) (range_pages end_brk (page_align_up brk - end_brk)) w s
      → BrkOutcome brk start_brk end_brk w (
          end_set F pages_count
            (brk_to F pages_count (range_last end_brk (page_align_up brk - end_brk)) end_brk s))
  unfolding end_set brk_to
  brk_done {brk} {start_brk} {end_brk} {w} le (mapped_range {u} r) =
      let done : BrkOutcome brk start_brk end_brk w (page_align_up brk, page_align_up brk, u) =
        grown le (pages_of brk end_brk le) r in
      subst (λ l. BrkOutcome brk start_brk end_brk w (l, l, u)) (sym (last_of brk end_brk le)) done
  brk_done {brk} {end_brk = end_brk} le (rolled_back {k} lt before why g same) =
      exhausted {k = k} le (omega (arith, lt, pages_of brk end_brk le)) before why g same

  -- A request to `sys_brk` with a break of 0, or one so large that its alignment wraps to 0, only asks;
  -- one below the break gives 0 and changes nothing. Else every page from that of the break up to the
  -- aligned request is a new page of zeros, and every other page keeps its
  -- word; or one page of these can not be made, because the allocator has no frame for it, a table that
  -- is missing gets no memory, a huge page is in the way, or the page is mapped already. Then every
  -- page made before it is unmapped and its frame freed, so that each address translates as before and each frame is free as before. The
  -- break is then not as before: it is the error number.
  pub sys_brk-BrkOutcome :
      (brk start_brk end_brk : ℕ) (w : World F pages_count)
      → L.Good w.frames
      → BrkOutcome brk start_brk end_brk w (sys_brk F pages_count brk start_brk end_brk w)
  unfolding sys_brk do_brk
  sys_brk-BrkOutcome brk start_brk end_brk w good = elim (Bool-cases (page_align_up brk == 0)) [
    | inl zero_brk ↦ rw zero_brk (asked (ground (arith, zero_brk)))
    | inr some_brk ↦ elim (Bool-cases (ltb (page_align_up brk) end_brk)) [
      | inl low ↦
          rw (some_brk, low) (shrunk (λ e. ground (arith, some_brk, e)) (ground (arith, low)))
      | inr high ↦
          rw (some_brk, high)
            (brk_done (ground (arith, high))
              (map_user_range_4k-RangeMapped end_brk (page_align_up brk - end_brk) w good))
    ]
  ]
