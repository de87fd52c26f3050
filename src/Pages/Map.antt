-- ===== src/Pages/Map.antt =====
-- What `MapPage4K` and `UnmapPage4K` (kernel/memory.c) do to the words of the page tables, and so to
-- the frame of each address.
use talios.Base.{
  ℕ, ◌≡◌, ◌≢◌, ◌/◌, ◌%◌, ◌^◌, ◌*◌, ◌+◌, ◌<◌, ◌||◌, not, none, some, true, false, Option, List, ◌==◌,
  arith, refl, ◌∙◌, ap, sym, Bool-cases, inl, inr, [], bit_and, bit_or, if◌then◌else◌,
}
use talios.Base.Bits.{bit_or-add}
use talios.Base.Word.{Ret, ok, err, enomem, page_align_down}
use talios.Pages.{
  Entry, absent, huge, table, Pml4, index, Step, is_present, set_page, map_page_4k, clear_page,
  page_at, found_at, unmap_page_4k, not_page_size,
}
use talios.Pages.Walk.{
  look_in, look_level, look_pt, look_pd, look_pdpt, look_pml4, OtherPage, Walked, missed, reached,
  walk_pte-Walked,
}

-- The frame of an address.
abbrev pub frame_of : ℕ → Option ℕ
frame_of word = if is_present word then some (page_align_down word) else none

abbrev pub translate : Pml4 → ℕ → Option ℕ
translate m u = frame_of (look_pml4 m u)

index_of_page :
    (u : ℕ)
    → (index 39 u ≡ u / 2 ^ 12 % 2 ^ 36 / 2 ^ 27)
      × (index 30 u ≡ u / 2 ^ 12 % 2 ^ 36 / 2 ^ 18 % 2 ^ 9)
      × (index 21 u ≡ u / 2 ^ 12 % 2 ^ 36 / 2 ^ 9 % 2 ^ 9)
      × (index 12 u ≡ u / 2 ^ 12 % 2 ^ 36 % 2 ^ 9)
index_of_page u = (omega arith, omega arith, omega arith, omega arith)

look_level-same :
    {A : Type 0} (shift : ℕ) (look : A → ℕ → ℕ) (u v : ℕ)
    → index shift u ≡ index shift v
    → ((a : A) → look a u ≡ look a v)
    → (d : ℕ → Entry A) → look_level shift look d u ≡ look_level shift look d v
unfolding look_in
look_level-same shift look u v e below d =
    ap (λ i. look_in look (d i) u) e ∙ inside (d (index shift v))
  where
    inside : (x : Entry _) → look_in look x u ≡ look_in look x v
    inside absent = refl
    inside (huge w) = refl
    inside (table addr a) = below a

-- The addresses of a page have one word.
pub look-same :
    (m : Pml4) (u v : ℕ) → u / 2 ^ 12 % 2 ^ 36 ≡ v / 2 ^ 12 % 2 ^ 36 → look_pml4 m u ≡ look_pml4 m v
look-same m u v e =
    let (a, b, c, d) = index_of_page u in
    let (a', b', c', d') = index_of_page v in
    look_level-same 39 look_pdpt u v (a ∙ (ap (λ p. p / 2 ^ 27) e ∙ sym a'))
      (look_level-same 30 look_pd u v (b ∙ (ap (λ p. p / 2 ^ 18 % 2 ^ 9) e ∙ sym b')) (
        look_level-same 21 look_pt u v (c ∙ (ap (λ p. p / 2 ^ 9 % 2 ^ 9) e ∙ sym c'))
          (λ t. ap t (d ∙ (ap (λ p. p % 2 ^ 9) e ∙ sym d')))))
      m

-- Tables that agree outside the page of `v` and on `v` agree.
pub look-all :
    (m m' : Pml4) (v : ℕ)
    → look_pml4 m' v ≡ look_pml4 m v
    → ((u : ℕ) → OtherPage v u → look_pml4 m' u ≡ look_pml4 m u)
    → (u : ℕ) → look_pml4 m' u ≡ look_pml4 m u
look-all m m' v at others u = elim (Bool-cases (u / 2 ^ 12 % 2 ^ 36 == v / 2 ^ 12 % 2 ^ 36)) [
  | inl same ↦ look-same m' u v (number same) ∙ (at ∙ sym (look-same m u v (number same)))
  | inr other ↦ others u (differs other)
]
  where
    number : {x y : ℕ} → (x == y) ≡ true → x ≡ y
    number h = ground (arith, h)

    differs : {x y : ℕ} → (x == y) ≡ false → x ≢ y
    differs h e = ground (arith, h, e)

-- What `MapPage4K` leaves: with an error every word is as before, whatever tables it has made; else
-- the page had no frame, its word is set, and every other page keeps its word.
pub data Mapped (v : ℕ) (page : Option ℕ) (flags : ℕ) (m : Pml4) : Step Ret Pml4 → Type 0 where
  refused :
      {e : ℕ} {m' : Pml4} {rest : List (Option ℕ)}
      → ((u : ℕ) → look_pml4 m' u ≡ look_pml4 m u)
      → Mapped v page flags m (err e, m', rest)
  mapped :
      {phy : ℕ} {m' : Pml4} {rest : List (Option ℕ)}
      → page ≡ some phy
      → v % 4096 ≡ 0
      → phy % 4096 ≡ 0
      → is_present (look_pml4 m v) ≡ false
      → look_pml4 m' v ≡ bit_or phy (bit_and flags not_page_size)
      → ((u : ℕ) → OtherPage v u → look_pml4 m' u ≡ look_pml4 m u)
      → Mapped v page flags m (ok 0, m', rest)

set_page-Mapped :
    (v phy flags : ℕ) (m : Pml4) {s : Step Ret Pml4}
    → v % 4096 ≡ 0
    → phy % 4096 ≡ 0
    → Walked look_pml4 (OtherPage v) v (err enomem) (set_page phy flags) m s
    → Mapped v (some phy) flags m s
unfolding set_page
set_page-Mapped v phy flags m av ap (missed n same) = refused same
set_page-Mapped v phy flags m av ap (reached {a'} {rest} {r} re word others) =
    elim (Bool-cases (is_present (look_pml4 m v))) [
      | inl there ↦
          let e : r ≡ err enomem = re ∙ rw there refl in
          rw e (refused (look-all m a' v (word ∙ rw there refl) others))
      | inr free ↦
          let e : r ≡ ok 0 = re ∙ rw free refl in
          rw e (mapped refl av ap free (word ∙ rw free refl) others)
    ]

pub map_page_4k-Mapped :
    (v : ℕ) (page : Option ℕ) (flags : ℕ) (m : Pml4) (allocs : List (Option ℕ))
    → Mapped v page flags m (map_page_4k v page flags m allocs)
unfolding map_page_4k
map_page_4k-Mapped v none flags m allocs = refused (λ u. refl)
map_page_4k-Mapped v (some phy) flags m allocs =
    elim (Bool-cases (not (v % 4096 == 0) || not (phy % 4096 == 0))) [
      | inl bad ↦ rw bad (refused (λ u. refl))
      | inr good ↦ rw good (
          set_page-Mapped v phy flags m (ground (arith, good)) (ground (arith, good))
            (walk_pte-Walked true v (err enomem) (set_page phy flags) m allocs))
    ]

-- What `UnmapPage4K` leaves at an aligned address: no frame there, the frame of before as its answer
-- where the machine has it, and every other page with its word.
pub record Unmapped (pages_count v : ℕ) (m : Pml4) (s : Option ℕ × Pml4) : Type 0 where
  pub answer : s.0 ≡ page_at pages_count (translate m v)
  pub gone : translate s.1 v ≡ none
  pub others : (u : ℕ) → OtherPage v u → look_pml4 s.1 u ≡ look_pml4 m u

clear_page-frame : (w : ℕ) → ((clear_page w).0 ≡ frame_of w) × (frame_of (clear_page w).1 ≡ none)
unfolding clear_page
clear_page-frame w = elim (Bool-cases (is_present w)) [
  | inl there ↦ rw there (refl, refl)
  | inr free ↦ rw free (refl, rw free refl)
]

clear_page-Unmapped :
    (pages_count v : ℕ) (m : Pml4) {s : Step (Option ℕ) Pml4}
    → Walked look_pml4 (OtherPage v) v none clear_page m s
    → Unmapped pages_count v m (found_at pages_count s)
unfolding found_at
clear_page-Unmapped n v m (missed zero_at same) = record {
  answer = ap (page_at n) (sym (ap frame_of zero_at));
  gone = ap frame_of (same v ∙ zero_at);
  others = λ u other. same u;
}
clear_page-Unmapped n v m (reached {a'} {rest} {r} re word others) = record {
  answer = ap (page_at n) (re ∙ (clear_page-frame (look_pml4 m v)).0);
  gone = ap frame_of word ∙ (clear_page-frame (look_pml4 m v)).1;
  others = others;
}

pub unmap_page_4k-Unmapped :
    (pages_count v : ℕ) (m : Pml4)
    → v % 4096 ≡ 0
    → Unmapped pages_count v m (unmap_page_4k pages_count v m)
unfolding unmap_page_4k
unmap_page_4k-Unmapped n v m aligned =
    rw aligned (clear_page-Unmapped n v m (walk_pte-Walked false v none clear_page m []))

-- The word of a page: its frame and the flags below it.
pub word_add : (phy f : ℕ) → phy % 4096 ≡ 0 → f < 4096 → bit_or phy f ≡ phy + f
word_add phy f aligned small =
    ap (λ x. bit_or x f) split ∙ (bit_or-add 12 (phy / 4096) f small ∙ omega (arith, split))
  where
    split : phy ≡ phy / 4096 * 2 ^ 12
    split = omega arith

pub frame_of-word :
    (phy f : ℕ)
    → phy % 4096 ≡ 0
    → f < 4096
    → is_present f ≡ true
    → frame_of (bit_or phy f) ≡ some phy
frame_of-word phy f aligned small present =
    let e = word_add phy f aligned small in
    let there : is_present (bit_or phy f) ≡ true = ap is_present e ∙ ground arith in
    rw there (ap some (ap page_align_down e ∙ omega arith))

-- A page that is mapped and unmapped: the answer is its frame, and every address translates as before.
pub record Restored (phy : ℕ) (m : Pml4) (s : Option ℕ × Pml4) : Type 0 where
  pub answer : s.0 ≡ some phy
  pub pages : (u : ℕ) → translate s.1 u ≡ translate m u
