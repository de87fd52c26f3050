-- ===== src/Pages/Refused.antt =====
-- Why `MapPage4K` (kernel/memory.c) does not map a page, and which answers of kmalloc it leaves.
use talios.Base.{
  ℕ, ◌≡◌, ◌%◌, ◌||◌, not, Option, none, some, true, false, List, [], ◌∷◌, ◌==◌, arith, refl,
}
use talios.Base.Word.{Ret, err, enomem}
use talios.Pages.{
  Entry, absent, huge, table, Pt, Pd, Pdpt, Pml4, index, Step, no_entries, no_words, is_present,
  in_table, in_new, in_entry, walk_level, at_pte, walk_pte, set_page, map_page_4k,
}

-- kmalloc has no answer left, or its next one is NULL.
pub data IsOut : List (Option ℕ) → Type 0 where
  none_left : IsOut []
  null_next : {ks : List (Option ℕ)} → IsOut (none ∷ ks)

-- The first list is the rest of the second behind some of its answers.
pub data IsRest : (rest ks : List (Option ℕ)) → Type 0 where
  whole : {ks : List (Option ℕ)} → IsRest ks ks
  behind : {a : Option ℕ} {rest ks : List (Option ℕ)} → IsRest rest ks → IsRest rest (a ∷ ks)

-- The way through the entry `i` of an upper table ends: the entry is a huge page; or it is absent and
-- kmalloc is out; or the way ends in the table that it names, or in the new and empty table.
pub data Blocked {A : Type 0} (i : ℕ) (empty : A) (below : A → List (Option ℕ) → Type 0)
    (d : ℕ → Entry A) : List (Option ℕ) → Type 0 where
  is_huge : {w : ℕ} {ks : List (Option ℕ)} → d i ≡ huge w → Blocked i empty below d ks
  no_memory : {ks : List (Option ℕ)} → d i ≡ absent → IsOut ks → Blocked i empty below d ks
  in_named :
      {addr : ℕ} {a : A} {ks : List (Option ℕ)}
      → d i ≡ table addr a
      → below a ks
      → Blocked i empty below d ks
  in_empty :
      {addr : ℕ} {ks : List (Option ℕ)}
      → d i ≡ absent
      → below empty ks
      → Blocked i empty below d (some addr ∷ ks)

-- The page of the address can not be mapped: the way to its word ends, or the word has a page.
abbrev pub Refused : (v : ℕ) → Pml4 → List (Option ℕ) → Type 0
Refused v = Blocked (index 39 v) no_entries (
    Blocked (index 30 v) no_entries
      (Blocked (index 21 v) no_words (λ t ks. is_present (t (index 12 v)) ≡ true)))

module _ {A : Type 0} (i : ℕ) (empty : A) (go : A → List (Option ℕ) → Step Ret A) where
  walk_level-Blocked :
      (below : A → List (Option ℕ) → Type 0)
      → ((a : A) (ks : List (Option ℕ)) (e : ℕ) → (go a ks).0 ≡ err e → below a ks)
      → (d : ℕ → Entry A) (ks : List (Option ℕ)) (e : ℕ)
      → (walk_level true i (err enomem) empty go d ks).0 ≡ err e
      → Blocked i empty below d ks
  unfolding walk_level in_entry in_new in_table
  walk_level-Blocked below inside d ks e = from (d i) ks refl
    where
      from :
          (x : Entry A) (ks : List (Option ℕ))
          → d i ≡ x
          → (in_entry true i (err enomem) empty go d x ks).0 ≡ err e
          → Blocked i empty below d ks
      from (huge w) ks h q = is_huge h
      from (table addr a) ks h q = in_named h (inside a ks e q)
      from absent [] h q = no_memory h none_left
      from absent (none ∷ ks) h q = no_memory h null_next
      from absent (some addr ∷ ks) h q = in_empty h (inside empty ks e q)

  walk_level-IsRest :
      ((a : A) (ks : List (Option ℕ)) → IsRest (go a ks).2 ks)
      → (d : ℕ → Entry A) (ks : List (Option ℕ))
      → IsRest (walk_level true i (err enomem) empty go d ks).2 ks
  unfolding walk_level in_entry in_new in_table
  walk_level-IsRest inside d ks = from (d i) ks
    where
      from :
          (x : Entry A) (ks : List (Option ℕ))
          → IsRest (in_entry true i (err enomem) empty go d x ks).2 ks
      from (huge w) ks = whole
      from (table addr a) ks = inside a ks
      from absent [] = whole
      from absent (none ∷ ks) = behind whole
      from absent (some addr ∷ ks) = behind (inside empty ks)

set_page-present :
    (phy flags word e : ℕ) → (set_page phy flags word).0 ≡ err e → is_present word ≡ true
unfolding set_page
set_page-present phy flags word e h = ground (arith, h)

module _ (v phy flags : ℕ) (va : v % 4096 ≡ 0) (pa : phy % 4096 ≡ 0) where
  -- What follows in each of the lower tables.
  abbrev in_pt : Pt → List (Option ℕ) → Step Ret Pt
  in_pt = at_pte (index 12 v) (set_page phy flags)

  abbrev in_pd : Pd → List (Option ℕ) → Step Ret Pd
  in_pd = walk_level true (index 21 v) (err enomem) no_words in_pt

  abbrev in_pdpt : Pdpt → List (Option ℕ) → Step Ret Pdpt
  in_pdpt = walk_level true (index 30 v) (err enomem) no_entries in_pd

  aligned : (not (v % 4096 == 0) || not (phy % 4096 == 0)) ≡ false
  aligned = ground (arith, va, pa)

  -- An aligned frame is refused for one of these reasons only.
  pub map_page_4k-Refused :
      (m : Pml4) (ks : List (Option ℕ)) (e : ℕ)
      → (map_page_4k v (some phy) flags m ks).0 ≡ err e
      → Refused v m ks
  unfolding map_page_4k walk_pte at_pte
  map_page_4k-Refused m ks e = rw aligned (
      walk_level-Blocked (index 39 v) no_entries in_pdpt _
        (walk_level-Blocked (index 30 v) no_entries in_pd _ (
          walk_level-Blocked (index 21 v) no_words in_pt _
            (λ t k e' h. set_page-present phy flags (t (index 12 v)) e' h)))
        m ks e)

  pub map_page_4k-IsRest :
      (m : Pml4) (ks : List (Option ℕ)) → IsRest (map_page_4k v (some phy) flags m ks).2 ks
  unfolding map_page_4k walk_pte at_pte
  map_page_4k-IsRest m ks = rw aligned (
      walk_level-IsRest (index 39 v) no_entries in_pdpt
        (walk_level-IsRest (index 30 v) no_entries in_pd
          (walk_level-IsRest (index 21 v) no_words in_pt (λ t k. whole)))
        m ks)
