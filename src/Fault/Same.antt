-- ===== src/Fault/Same.antt =====
-- Worlds with the same translation of every address and the same free frames, and what one turn of
-- the loop behind `fail` of `MapUserRange4K` (kernel/memory.c) does to them.
use talios.Base.{
  ℕ, zero, suc, ◌≡◌, ◌+◌, ◌*◌, ◌/◌, ◌%◌, ◌^◌, ◌<◌, Option, none, some, ◌==◌, leb, arith, refl, ◌∙◌,
  ap, sym, Bool-cases, inl, inr,
}
use talios.Buddy.Count.{one_if}
use talios.Pages.{Pml4, page_at, unmap_page_4k}
use talios.Pages.Walk.{OtherPage}
use talios.Pages.Map.{translate, frame_of, look-same, Unmapped, unmap_page_4k-Unmapped}
use talios.Frames.{Frames, FrameLaws}
use talios.Fault.{World, freed, roll_back}

-- Is `p` the frame?
abbrev pub is_frame : (p : ℕ) → Option ℕ → ℕ
is_frame p none = 0
is_frame p (some phy) = one_if (p == phy / 4096)

module _ (F : Frames) (pages_count : ℕ) (L : FrameLaws F pages_count) where
  pub record Same (w u : World F pages_count) : Type 0 where
    pub good : L.Good w.frames → L.Good u.frames
    pub pages : (v : ℕ) → translate u.tables v ≡ translate w.tables v
    pub free : (p : ℕ) → L.free_blocks p u.frames ≡ L.free_blocks p w.frames

  -- What a turn of the loop leaves: no frame at the page of `v`, the other pages as before, and the
  -- frame that was there is free once more.
  pub record Cleared (v : ℕ) (w u : World F pages_count) : Type 0 where
    pub good : L.Good u.frames
    pub gone : (x : ℕ) → x / 2 ^ 12 % 2 ^ 36 ≡ v / 2 ^ 12 % 2 ^ 36 → translate u.tables x ≡ none
    pub others : (x : ℕ) → OtherPage v x → translate u.tables x ≡ translate w.tables x
    pub free :
        (p : ℕ)
        → L.free_blocks p u.frames
          ≡ L.free_blocks p w.frames + is_frame p (page_at pages_count (translate w.tables v))

  pub freed-Cleared :
      (v : ℕ) (w : World F pages_count)
      → v % 4096 ≡ 0
      → L.Good w.frames
      → Cleared v w (freed F pages_count (unmap_page_4k pages_count v w.tables) w)
  unfolding freed page_at
  freed-Cleared v w aligned good =
      go (unmap_page_4k pages_count v w.tables)
        (unmap_page_4k-Unmapped pages_count v w.tables aligned)
    where
      small : (o : Option ℕ) (phy : ℕ) → some phy ≡ page_at pages_count o → phy / 4096 < pages_count
      small none phy h = absurd (ground (arith, h))
      small (some x) phy h = elim (Bool-cases (leb pages_count (x / 2 ^ 12))) [
        | inl high ↦ absurd (ground (arith, h, high))
        | inr low ↦ ground (arith, h, low)
      ]

      go :
          (s : Option ℕ × Pml4)
          → Unmapped pages_count v w.tables s
          → Cleared v w (freed F pages_count s w)
      go (none, m) h = record {
        good = good;
        gone = λ x e. ap frame_of (look-same m x v e) ∙ h.gone;
        others = λ x o. ap frame_of (h.others x o);
        free = λ p. omega (arith, ap (is_frame p) h.answer);
      }
      go (some phy, m) h =
          let lt : phy / 4096 < pages_count = small (translate w.tables v) phy h.answer in
          record {
            good = L.free-Good w.frames phy good lt;
            gone = λ x e. ap frame_of (look-same m x v e) ∙ h.gone;
            others = λ x o. ap frame_of (h.others x o);
            free =
                λ p. omega (arith, L.free-count w.frames phy p good lt, ap (is_frame p) h.answer);
          }

  Same-Cleared :
      (v : ℕ) {w u w' u' : World F pages_count}
      → Same w u
      → Cleared v w w'
      → Cleared v u u'
      → Same w' u'
  Same-Cleared v {w} {u} {w'} {u'} same cw cu = record {
    good = λ g. cu.good;
    pages = λ x. elim (Bool-cases (x / 2 ^ 12 % 2 ^ 36 == v / 2 ^ 12 % 2 ^ 36)) [
      | inl here ↦ cu.gone x (ground (arith, here)) ∙ sym (cw.gone x (ground (arith, here)))
      | inr away ↦
          let o : OtherPage v x = λ e. ground (arith, away, e) in
          cu.others x o ∙ (same.pages x ∙ sym (cw.others x o))
    ];
    free = λ p. omega (
      arith,
      cw.free p,
      cu.free p,
      same.free p,
      ap (λ o. is_frame p (page_at pages_count o)) (same.pages v),
    );
  }

  -- The loop behind `fail` takes such worlds to such worlds.
  pub roll_back-Same :
      (first k : ℕ) {w u : World F pages_count}
      → first % 4096 ≡ 0
      → L.Good w.frames
      → Same w u
      → Same (roll_back F pages_count first k w) (roll_back F pages_count first k u)
  unfolding roll_back
  roll_back-Same first zero aligned good same = same
  roll_back-Same first (suc k) {w} {u} aligned good same =
      let v : ℕ = first + k * 4096 in
      let a : v % 4096 ≡ 0 = omega arith in
      let cw = freed-Cleared v w a good in
      roll_back-Same first k aligned cw.good
        (Same-Cleared v same cw (freed-Cleared v u a (same.good good)))

  pub Same-refl : (w : World F pages_count) → Same w w
  Same-refl w = record { good = λ g. g; pages = λ v. refl; free = λ p. refl }

  pub Same-trans : {w u x : World F pages_count} → Same w u → Same u x → Same w x
  Same-trans a b = record {
    good = λ g. b.good (a.good g);
    pages = λ v. b.pages v ∙ a.pages v;
    free = λ p. b.free p ∙ a.free p;
  }
