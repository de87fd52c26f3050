-- ===== src/Buddy/Merge.antt =====
-- `__free_pages` (kernel/memory.c): in which free blocks each page is after it.
use talios.Base.{
  ℕ, zero, suc, ◌+◌, ◌-◌, ◌*◌, ◌/◌, ◌%◌, ◌^◌, ◌≤◌, ◌<◌, ◌≡◌, ◌⊎◌, inl, inr, true, ◌||◌, List, [],
  ◌∷◌, ltb, leb, ◌==◌, if◌then◌else◌, bit_xor, arith, refl, sym, ap, ap₂, ◌∙◌, Bool-cases,
}
use mathlib.Core.Path.{subst}
use talios.Buddy.Free.{without}
use talios.Base.Bits.{bit_xor-pow}
use talios.Buddy.{
  max_order, in_block, Zone, add_block, list_search, list_delete, merge, free_pages_core,
  free_pages_of,
}
use talios.Buddy.Count.{one_if, count_in, blocks_of, blocks_of-put_at, halves-count}

count-list_delete :
    (p o b : ℕ) (l : List ℕ)
    → list_search b l ≡ true
    → count_in p o (list_delete b l) + one_if (in_block p b o) ≡ count_in p o l
unfolding list_search list_delete
count-list_delete p o b [] h = absurd (ground arith)
count-list_delete p o b (x ∷ xs) h = elim (Bool-cases (x == b)) [
  | inl same ↦ rw (same, list_delete) (first (ground arith))
  | inr other ↦ rw (other, list_delete) (omega (arith, count-list_delete p o b xs (ground arith)))
]
  where
    first :
        x ≡ b
        → count_in p o xs + one_if (in_block p b o) ≡ one_if (in_block p x o) + count_in p o xs
    first e = rw e (omega arith)

-- One more free block holds `p`, if it is in the block of the order at `b`.
abbrev Adds : (p b order : ℕ) → Zone → Zone → Type 0
Adds p b order z r = blocks_of p r.free_list ≡ blocks_of p z.free_list + one_if (in_block p b order)

add_block-Adds :
    (p order b : ℕ) (z : Zone) → order < max_order → Adds p b order z (add_block order b z)
unfolding add_block
add_block-Adds p order b z h =
    omega (arith, blocks_of-put_at p order (b ∷ z.free_list order) z.free_list h)

-- Of a block and its buddy one is the lower half of the block that they are merged to, and the other
-- its upper half.
halves_of :
    (o a : ℕ)
    → ((a * 2 ^ o ≡ a / 2 * 2 ^ suc o) × (bit_xor (a * 2 ^ o) (2 ^ o) ≡ a / 2 * 2 ^ suc o + 2 ^ o))
      ⊎ ((a * 2 ^ o ≡ a / 2 * 2 ^ suc o + 2 ^ o)
          × (bit_xor (a * 2 ^ o) (2 ^ o) ≡ a / 2 * 2 ^ suc o))
halves_of o a = split (a % 2) refl
  where
    double : 2 ^ suc o ≡ 2 ^ o * 2
    double = omega arith

    upper : a / 2 * 2 ^ suc o ≡ a / 2 * 2 * 2 ^ o
    upper = ap (λ x. a / 2 * x) double ∙ omega arith

    at : {x y : ℕ} → x ≡ y → x * 2 ^ o ≡ y * 2 ^ o
    at e = ap (λ x. x * 2 ^ o) e

    split :
        (r : ℕ)
        → a % 2 ≡ r
        → ((a * 2 ^ o ≡ a / 2 * 2 ^ suc o)
            × (bit_xor (a * 2 ^ o) (2 ^ o) ≡ a / 2 * 2 ^ suc o + 2 ^ o))
          ⊎ ((a * 2 ^ o ≡ a / 2 * 2 ^ suc o + 2 ^ o)
              × (bit_xor (a * 2 ^ o) (2 ^ o) ≡ a / 2 * 2 ^ suc o))
    split zero e = inl (
      omega (arith, upper, at {x = a} {y = a / 2 * 2} (omega arith)),
      omega (
        arith,
        bit_xor-pow o a,
        upper,
        at {x = a / 2 * 2 + (1 - a % 2)} {y = a / 2 * 2 + 1} (omega arith),
      ),
    )
    split (suc zero) e = inr (
      omega (arith, upper, at {x = a} {y = a / 2 * 2 + 1} (omega arith)),
      omega (
        arith,
        bit_xor-pow o a,
        upper,
        at {x = a / 2 * 2 + (1 - a % 2)} {y = a / 2 * 2} (omega arith),
      ),
    )
    split (suc (suc r)) e = absurd (omega arith)

buddies :
    (p o a : ℕ)
    → one_if (in_block p (a * 2 ^ o) o) + one_if (in_block p (bit_xor (a * 2 ^ o) (2 ^ o)) o)
      ≡ one_if (in_block p (a / 2 * 2 ^ suc o) (suc o))
buddies p o a = elim (halves_of o a) [
  | inl (b, y) ↦ both b y ∙ halves-count p (a / 2 * 2 ^ suc o) o
  | inr (b, y) ↦ omega (arith, both b y, halves-count p (a / 2 * 2 ^ suc o) o)
]
  where
    both :
        {b y b' y' : ℕ}
        → b ≡ b'
        → y ≡ y'
        → one_if (in_block p b o) + one_if (in_block p y o)
          ≡ one_if (in_block p b' o) + one_if (in_block p y' o)
    both e d = ap₂ (λ b y. one_if (in_block p b o) + one_if (in_block p y o)) e d

lower :
    (o a : ℕ)
    → (if ltb (bit_xor (a * 2 ^ o) (2 ^ o)) (a * 2 ^ o)
        then bit_xor (a * 2 ^ o) (2 ^ o)
        else a * 2 ^ o)
      ≡ a / 2 * 2 ^ suc o
lower o a = elim (halves_of o a) [
  | inl (b, y) ↦ least (a * 2 ^ o) (bit_xor (a * 2 ^ o) (2 ^ o)) (inl (omega arith)) b
  | inr (b, y) ↦ least' (a * 2 ^ o) (bit_xor (a * 2 ^ o) (2 ^ o)) (omega (arith, one o)) y
]
  where
    one : (k : ℕ) → 0 < 2 ^ k
    one zero = omega arith
    one (suc k) = omega (arith, one k)

    least : (x y : ℕ) {z : ℕ} → (x ≤ y) ⊎ (x ≤ y) → x ≡ z → (if ltb y x then y else x) ≡ z
    least x y h e = ground arith

    least' : (x y : ℕ) {z : ℕ} → y < x → y ≡ z → (if ltb y x then y else x) ≡ z
    least' x y h e = ground arith

next : (o : ℕ) → suc o ≡ o + 1
next o = omega arith

joined-Adds :
    (order a p : ℕ) (z r : Zone)
    → order < max_order
    → list_search (bit_xor (a * 2 ^ order) (2 ^ order)) (z.free_list order) ≡ true
    → Adds p
        (a / 2 * 2 ^ (order + 1))
        (order + 1)
        (without order (bit_xor (a * 2 ^ order) (2 ^ order)) z)
        r
    → Adds p (a * 2 ^ order) order z r
joined-Adds order a p z r h there e =
    let buddy : ℕ = bit_xor (a * 2 ^ order) (2 ^ order) in
    let l : List ℕ = list_delete buddy (z.free_list order) in
    omega (
      arith,
      e,
      blocks_of-put_at p order l z.free_list h,
      count-list_delete p order buddy (z.free_list order) there,
      buddies p order a,
      ap (λ o. one_if (in_block p (a / 2 * 2 ^ o) o)) (next order),
    )

merge-Adds :
    (n order a p : ℕ) (z : Zone)
    → order + n ≡ max_order - 1
    → Adds p (a * 2 ^ order) order z (merge n order (a * 2 ^ order) z)
unfolding merge
merge-Adds zero order a p z e = add_block-Adds p order (a * 2 ^ order) z (omega arith)
merge-Adds (suc n) order a p z e = elim (Bool-cases (ltb buddy z.first || leb z.last buddy)) [
  | inl outside ↦ rw (outside, merge) alone
  | inr inside ↦ elim (Bool-cases (list_search buddy (z.free_list order))) [
    | inr absent ↦ rw (inside, absent, merge) alone
    | inl there ↦
        rw (inside, there, merge)
          (joined-Adds order a p z
            (merge n (order + 1) (if ltb buddy (a * 2 ^ order) then buddy else a * 2 ^ order)
              (without order buddy z))
            (omega arith) there
            (subst
              (λ x.
                Adds p (a / 2 * 2 ^ (order + 1)) (order + 1) (without order buddy z)
                  (merge n (order + 1) x (without order buddy z)))
              (sym (lower order a ∙ ap (λ o. a / 2 * 2 ^ o) (next order)))
              (merge-Adds n (order + 1) (a / 2) p (without order buddy z) (omega arith))))
  ]
]
  where
    buddy : ℕ
    buddy = bit_xor (a * 2 ^ order) (2 ^ order)

    alone : Adds p (a * 2 ^ order) order z (add_block order (a * 2 ^ order) z)
    alone = add_block-Adds p order (a * 2 ^ order) z (omega arith)

-- Every page is in at most one free block.
abbrev pub IsDisjoint : Zone → Type 0
IsDisjoint z = (p : ℕ) → blocks_of p z.free_list ≤ 1

-- What a freed block does to the free blocks that hold each page.
pub record Returned (page order : ℕ) (z r : Zone) : Type 0 where
  pub blocks :
      (p : ℕ) → blocks_of p r.free_list ≡ blocks_of p z.free_list + one_if (in_block p page order)
  pub disjoint :
      IsDisjoint z
      → ((p : ℕ) → in_block p page order ≡ true → blocks_of p z.free_list ≡ 0)
      → IsDisjoint r

-- `__free_pages` of an aligned block puts its pages into one free block more each, and every other
-- page stays in as many as before, however many buddies are merged. So no page is in two free blocks
-- afterwards, if none was before and no page of the block was free.
pub free_pages_of-Returned :
    (page order : ℕ) (z : Zone)
    → order < max_order
    → page % 2 ^ order ≡ 0
    → Returned page order z (free_pages_of page order z)
unfolding free_pages_of free_pages_core
free_pages_of-Returned page order z h aligned = record {
  blocks = adds;
  disjoint = λ one out p. elim (Bool-cases (in_block p page order)) [
    | inl inside ↦ ground (arith, adds p, out p inside)
    | inr other ↦ ground (arith, adds p, one p)
  ];
}
  where
    page_of : page / 2 ^ order * 2 ^ order ≡ page
    page_of = grind arith

    adds : (p : ℕ) → Adds p page order z (free_pages_core page order z)
    adds p =
        subst (λ x. Adds p x order z (merge (max_order - 1 - order) order x z)) page_of
          (merge-Adds (max_order - 1 - order) order (page / 2 ^ order) p z (omega arith))
