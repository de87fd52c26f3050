-- ===== src/Pages/Walk.antt =====
-- What a walk of the page tables (`walk_pte`, kernel/memory.c) does to the word of each address.
use talios.Base.{
  ℕ, ◌≡◌, ◌≢◌, ◌⊎◌, ◌/◌, ◌%◌, ◌^◌, ◌*◌, ◌+◌, none, true, false, Option, List, ◌==◌, arith, refl,
  ◌∙◌, ap, ap₂, sym, Bool-cases, Bool, inl, inr, some,
}
use talios.Pages.{
  Entry, absent, huge, table, Pt, Pd, Pdpt, Pml4, put_entry, index, Step, in_table, at_pte,
  walk_level, walk_pte, in_new, no_entries, in_entry, no_words, next_answer,
}

-- The word of an address in a table, 0 where an entry on the way names no table.
unfoldable pub look_in : {A : Type 0} → (A → ℕ → ℕ) → Entry A → ℕ → ℕ
look_in look absent v = 0
look_in look (huge w) v = 0
look_in look (table addr a) v = look a v

abbrev pub look_level : {A : Type 0} → (shift : ℕ) → (A → ℕ → ℕ) → (ℕ → Entry A) → ℕ → ℕ
look_level shift look d v = look_in look (d (index shift v)) v

abbrev pub look_pt : Pt → ℕ → ℕ
look_pt t v = t (index 12 v)

abbrev pub look_pd : Pd → ℕ → ℕ
look_pd = look_level 21 look_pt

abbrev pub look_pdpt : Pdpt → ℕ → ℕ
look_pdpt = look_level 30 look_pd

abbrev pub look_pml4 : Pml4 → ℕ → ℕ
look_pml4 = look_level 39 look_pdpt

-- A walk for `v` over a table: either it gave NULL and no address has another word, or the word of
-- `v` was changed and that of every address of another page (`Other`) is as before.
pub data Walked {R A : Type 0} (look : A → ℕ → ℕ) (Other : ℕ → Type 0) (v : ℕ) (null : R)
    (change : ℕ → R × ℕ) (a : A) : Step R A → Type 0 where
  missed :
      {a' : A} {rest : List (Option ℕ)}
      → look a v ≡ 0
      → ((u : ℕ) → look a' u ≡ look a u)
      → Walked look Other v null change a (null, a', rest)
  reached :
      {a' : A} {rest : List (Option ℕ)} {r : R}
      → r ≡ (change (look a v)).0
      → look a' v ≡ (change (look a v)).1
      → ((u : ℕ) → Other u → look a' u ≡ look a u)
      → Walked look Other v null change a (r, a', rest)

put_entry-same : {A : Type 0} → (f : ℕ → A) (i : ℕ) (x : A) → put_entry f i x i ≡ x
put_entry-same f i x = rw (same i)
  where
    same : (j : ℕ) → (j == j) ≡ true
    same j = ground arith

module _ {R : Type 0} (v : ℕ) (null : R) (change : ℕ → R × ℕ) where
  at_pte-Walked :
      (t : Pt) (allocs : List (Option ℕ))
      → Walked look_pt
          (λ u. index 12 u ≢ index 12 v)
          v
          null
          change
          t
          (at_pte (index 12 v) change t allocs)
  unfolding at_pte
  at_pte-Walked t allocs =
      reached refl (put_entry-same t (index 12 v) _) (λ u other. other_word u other)
    where
      other_word :
          (u : ℕ)
          → index 12 u ≢ index 12 v
          → put_entry t (index 12 v) (change (t (index 12 v))).1 (index 12 u) ≡ t (index 12 u)
      other_word u other = rw test
        where
          test : (index 12 u == index 12 v) ≡ false
          test = ground arith

  module _ {A : Type 0} (shift : ℕ) (look : A → ℕ → ℕ) (Other : ℕ → Type 0) (empty : A)
      (empty_lem : (u : ℕ) → look empty u ≡ 0) where
    -- An address of another entry, or of another page below the same one.
    abbrev Above : ℕ → Type 0
    Above u = (index shift u ≢ index shift v) ⊎ Other u

    look_here :
        (d : ℕ → Entry A) (addr : ℕ) (a : A) (u : ℕ)
        → index shift u ≡ index shift v
        → look_level shift look (put_entry d (index shift v) (table addr a)) u ≡ look a u
    unfolding look_in
    look_here d addr a u e =
        ap (λ i. look_in look (put_entry d (index shift v) (table addr a) i) u) e
        ∙ ap (λ x. look_in look x u) (put_entry-same d (index shift v) (table addr a))

    look_away :
        (d : ℕ → Entry A) (x : Entry A) (u : ℕ)
        → index shift u ≢ index shift v
        → look_level shift look (put_entry d (index shift v) x) u ≡ look_level shift look d u
    look_away d x u ne = rw test
      where
        test : (index shift u == index shift v) ≡ false
        test = ground arith

    in_table-Walked :
        (addr : ℕ) (d : ℕ → Entry A) (a : A) {s : Step R A}
        → ((u : ℕ) → look_in look (d (index shift v)) u ≡ look a u)
        → Walked look Other v null change a s
        → Walked (look_level shift look) Above v null change d (in_table (index shift v) addr d s)
    unfolding in_table
    in_table-Walked addr d a was (missed {a'} none_at same) =
        missed {a' = put_entry d (index shift v) (table addr a')} (was v ∙ none_at) (λ u.
          elim (Bool-cases (index shift u == index shift v)) [
            | inl here ↦ inside u (ground arith)
            | inr away ↦ look_away d (table addr a') u (λ e. ground arith)
          ])
      where
        inside :
            (u : ℕ)
            → index shift u ≡ index shift v
            → look_level shift look (put_entry d (index shift v) (table addr a')) u
              ≡ look_level shift look d u
        inside u e =
            look_here d addr a' u e
            ∙ (same u ∙ (sym (was u) ∙ sym (ap (λ i. look_in look (d i) u) e)))
    in_table-Walked addr d a was (reached {a'} r word same) =
        reached {a' = put_entry d (index shift v) (table addr a')}
          (r ∙ ap (λ w. (change w).0) (sym (was v)))
          (look_here d addr a' v refl ∙ (word ∙ ap (λ w. (change w).1) (sym (was v))))
          (λ u other. elim (Bool-cases (index shift u == index shift v)) [
            | inl here ↦ inside u (ground arith) other
            | inr away ↦ look_away d (table addr a') u (λ e. ground arith)
          ])
      where
        inside :
            (u : ℕ)
            → index shift u ≡ index shift v
            → Above u
            → look_level shift look (put_entry d (index shift v) (table addr a')) u
              ≡ look_level shift look d u
        inside u e (inl ne) = absurd (ne e)
        inside u e (inr o) =
            look_here d addr a' u e
            ∙ (same u o ∙ (sym (was u) ∙ sym (ap (λ i. look_in look (d i) u) e)))

    walk_level-Walked :
        (create : Bool) (go : A → List (Option ℕ) → Step R A) (d : ℕ → Entry A)
        (allocs : List (Option ℕ))
        → ((a : A) (rest : List (Option ℕ)) → Walked look Other v null change a (go a rest))
        → Walked
            (look_level shift look)
            Above
            v
            null
            change
            d
            (walk_level create (index shift v) null empty go d allocs)
    unfolding walk_level look_in
    walk_level-Walked create go d allocs ih = at_entry (d (index shift v)) refl
      where
        unset :
            d (index shift v) ≡ absent → (u : ℕ) → look_in look (d (index shift v)) u ≡ look empty u
        unset e u = ap (λ x. look_in look x u) e ∙ sym (empty_lem u)

        new :
            d (index shift v) ≡ absent
            → (answer : Option ℕ × List (Option ℕ))
            → Walked
                (look_level shift look)
                Above
                v
                null
                change
                d
                (in_new (index shift v) null empty go d answer)
        new e (none, rest) = missed (ap (λ x. look_in look x v) e) (λ u. refl)
        new e (some addr, rest) = in_table-Walked addr d empty (unset e) (ih empty rest)

        at_entry :
            (x : Entry A)
            → d (index shift v) ≡ x
            → Walked
                (look_level shift look)
                Above
                v
                null
                change
                d
                (in_entry create (index shift v) null empty go d x allocs)
        at_entry (huge w) e = missed (ap (λ x. look_in look x v) e) (λ u. refl)
        at_entry (table addr a) e =
            in_table-Walked addr d a (λ u. ap (λ x. look_in look x u) e) (ih a allocs)
        at_entry absent e = elim (Bool-cases create) [
          | inl yes_create ↦ rw yes_create (new e (next_answer allocs))
          | inr no_create ↦ rw no_create (missed (ap (λ x. look_in look x v) e) (λ u. refl))
        ]

-- Another page than that of `v`, as far as the 48 bits that a walk reads tell.
abbrev pub OtherPage : ℕ → ℕ → Type 0
OtherPage v u = u / 2 ^ 12 % 2 ^ 36 ≢ v / 2 ^ 12 % 2 ^ 36

-- A walk in which nothing depends on how addresses differ but their page.
pub Walked-weaken :
    {R A : Type 0} {look : A → ℕ → ℕ} {Other Other' : ℕ → Type 0} {v : ℕ} {null : R}
    {change : ℕ → R × ℕ} {a : A} {s : Step R A}
    → ((u : ℕ) → Other' u → Other u)
    → Walked look Other v null change a s
    → Walked look Other' v null change a s
Walked-weaken h (missed n same) = missed n same
Walked-weaken h (reached r w same) = reached r w (λ u o. same u (h u o))

-- The page of an address from its four indexes.
page_number :
    (u : ℕ)
    → u / 2 ^ 12 % 2 ^ 36 ≡ ((index 39 u * 512 + index 30 u) * 512 + index 21 u) * 512 + index 12 u
page_number u = omega arith

same_page :
    (u v : ℕ)
    → index 39 u ≡ index 39 v
    → index 30 u ≡ index 30 v
    → index 21 u ≡ index 21 v
    → index 12 u ≡ index 12 v
    → u / 2 ^ 12 % 2 ^ 36 ≡ v / 2 ^ 12 % 2 ^ 36
same_page u v a b c d =
    page_number u
    ∙ (ap₂ (λ x y. x * 512 + y) (ap₂ (λ x y. x * 512 + y) (ap₂ (λ x y. x * 512 + y) a b) c) d
        ∙ sym (page_number v))

same_index : {x y : ℕ} → (x == y) ≡ true → x ≡ y
same_index h = ground (arith, h)

-- `walk_pte` gives NULL only where the address has no word, and then changes no word, whatever
-- tables it has made; otherwise its caller's change is made to the word of the address, and every
-- address of another page keeps its word.
pub walk_pte-Walked :
    {R : Type 0} (create : Bool) (v : ℕ) (null : R) (change : ℕ → R × ℕ) (m : Pml4)
    (allocs : List (Option ℕ))
    → Walked look_pml4 (OtherPage v) v null change m (walk_pte create v null change m allocs)
unfolding walk_pte look_in
walk_pte-Walked create v null change m allocs = Walked-weaken differ (
    walk_level-Walked v null change 39 look_pdpt _ no_entries (λ u. refl) create _ m allocs
      (λ pdpt rest.
        walk_level-Walked v null change 30 look_pd _ no_entries (λ u. refl) create _ pdpt rest
          (λ pd rest'.
            walk_level-Walked v null change 21 look_pt _ no_words (λ u. refl) create _ pd rest'
              (at_pte-Walked v null change))))
  where
    differ :
        (u : ℕ)
        → OtherPage v u
        → (index 39 u ≢ index 39 v)
          ⊎ ((index 30 u ≢ index 30 v) ⊎ ((index 21 u ≢ index 21 v) ⊎ (index 12 u ≢ index 12 v)))
    differ u h = elim (Bool-cases (index 39 u == index 39 v)) [
      | inr a ↦ inl (λ e. ground arith)
      | inl a ↦ elim (Bool-cases (index 30 u == index 30 v)) [
        | inr b ↦ inr (inl (λ e. ground arith))
        | inl b ↦ elim (Bool-cases (index 21 u == index 21 v)) [
          | inr c ↦ inr (inr (inl (λ e. ground arith)))
          | inl c ↦
              inr
                (inr (inr (λ e. h (same_page u v (same_index a) (same_index b) (same_index c) e))))
        ]
      ]
    ]
