-- ===== src/Buddy/Alloc.antt =====
-- `get_page_from_freelist` (kernel/memory.c): what it takes from the free lists.
use talios.Base.{
  ℕ, zero, suc, ◌+◌, ◌-◌, ◌^◌, ◌≤◌, ◌<◌, ◌≡◌, true, Option, none, some, List, [], ◌∷◌, ◌==◌,
  if◌then◌else◌, arith, refl, ap, ◌∙◌, length, Bool-cases, inl, inr,
}
use talios.Buddy.{
  max_order, put_at, in_block, Zone, minus, without_first, split_in, split, ◌>>=◌, split_down, give,
  take_in, get_from, get_page_from_freelist,
}
use talios.Buddy.Count.{one_if, count_in, blocks_of, blocks_of-put_at, halves-count, put_at-same}

-- `nr_free` is the length of each free list.
abbrev pub IsCounted : Zone → Type 0
IsCounted z = (o : ℕ) → z.nr_free o ≡ length (z.free_list o)

pub counted-put_at :
    (nr : ℕ → ℕ) (free : ℕ → List ℕ) (i n : ℕ) (l : List ℕ)
    → ((o : ℕ) → nr o ≡ length (free o))
    → n ≡ length l
    → (o : ℕ) → put_at nr i n o ≡ length (put_at free i l o)
counted-put_at nr free i n l c e o = elim (Bool-cases (o == i)) [
  | inl same ↦ rw same e
  | inr other ↦ rw other (c o)
]

-- What a split leaves alone.
record SamePages (z r : Zone) : Type 0 where
  has_zone : (p : ℕ) → r.has_zone p ≡ z.has_zone p
  page_free_count : r.page_free_count ≡ z.page_free_count
  ref_count : (p : ℕ) → r.ref_count p ≡ z.ref_count p

-- A block of the order is there, and the same pages are free as before.
data Split (ob : ℕ) (z : Zone) : Option Zone → Type 0 where
  split_ok :
      {r : Zone}
      → IsCounted r
      → ((p : ℕ) → blocks_of p r.free_list ≡ blocks_of p z.free_list)
      → 1 ≤ length (r.free_list ob)
      → SamePages z r
      → Split ob z (some r)

-- The first block taken from its list.
taken_first :
    (order b : ℕ) (bs : List ℕ) (z : Zone) (p : ℕ)
    → order < max_order
    → z.free_list order ≡ b ∷ bs
    → blocks_of p (without_first order bs z).free_list + one_if (in_block p b order)
      ≡ blocks_of p z.free_list
taken_first order b bs z p h e =
    omega (arith, blocks_of-put_at p order bs z.free_list h, ap (count_in p order) e)

IsCounted-first :
    (order b : ℕ) (bs : List ℕ) (z : Zone)
    → z.free_list order ≡ b ∷ bs
    → IsCounted z
    → IsCounted (without_first order bs z)
IsCounted-first order b bs z e c =
    counted-put_at z.nr_free z.free_list order (z.nr_free order - 1) bs c
      (omega (arith, c order, ap (length {0}) e))

split_in-Split :
    (ob : ℕ) (l : List ℕ) (z : Zone)
    → suc ob < max_order
    → IsCounted z
    → z.free_list (suc ob) ≡ l
    → 1 ≤ length l
    → Split ob z (split_in ob l z)
unfolding split_in
split_in-Split ob [] z h c e ne = absurd (omega arith)
split_in-Split ob (b ∷ bs) z h c e ne =
    let r = without_first (suc ob) bs z in
    split_ok
      (counted-put_at r.nr_free r.free_list ob (r.nr_free ob + 2)
        (b ∷ (b + 2 ^ ob) ∷ r.free_list ob) (IsCounted-first (suc ob) b bs z e c)
        (omega (arith, IsCounted-first (suc ob) b bs z e c ob)))
      (λ p. omega (
        arith,
        taken_first (suc ob) b bs z p h e,
        blocks_of-put_at p ob (b ∷ (b + 2 ^ ob) ∷ r.free_list ob) r.free_list (omega arith),
        halves-count p b ob,
      ))
      (omega (arith, ap length (put_at-same r.free_list ob (b ∷ (b + 2 ^ ob) ∷ r.free_list ob))))
      (record { has_zone = λ p. refl; page_free_count = refl; ref_count = λ p. refl })

SamePages-trans : {z r u : Zone} → SamePages z r → SamePages r u → SamePages z u
SamePages-trans a b = record {
  has_zone = λ p. b.has_zone p ∙ a.has_zone p;
  page_free_count = b.page_free_count ∙ a.page_free_count;
  ref_count = λ p. b.ref_count p ∙ a.ref_count p;
}

Split-trans :
    {oc : ℕ} {z r : Zone} {o : Option Zone}
    → ((p : ℕ) → blocks_of p r.free_list ≡ blocks_of p z.free_list)
    → SamePages z r
    → Split oc r o
    → Split oc z o
Split-trans count same (split_ok c count' there same') =
    split_ok c (λ p. count' p ∙ count p) there (SamePages-trans same same')

-- The loop that splits, from an order with a block.
split_down-Split :
    (n order : ℕ) (z : Zone)
    → order + n < max_order
    → IsCounted z
    → 1 ≤ length (z.free_list (order + n))
    → Split order z (split_down n order z)
unfolding split_down split
split_down-Split zero order z h c ne =
    split_ok c (λ p. refl) (omega (arith, ne, ap (λ o. length (z.free_list o)) at_order))
      (record { has_zone = λ p. refl; page_free_count = refl; ref_count = λ p. refl })
  where
    at_order : order + 0 ≡ order
    at_order = omega arith
split_down-Split (suc n) order z h c ne =
    next (λ u c' there. split_down-Split n order u (omega arith) c' there)
      (split_in-Split (order + n) (z.free_list (suc (order + n))) z (omega arith) c refl
        (omega (arith, ne, ap (λ o. length (z.free_list o)) at_next)))
  where
    at_next : order + suc n ≡ suc (order + n)
    at_next = omega arith

    next :
        ((u : Zone)
          → IsCounted u
          → 1 ≤ length (u.free_list (order + n))
          → Split order u (split_down n order u))
        → {o : Option Zone} → Split (order + n) z o
        → Split order z (o >>= split_down n order)
    next rec (split_ok {r} c' count there same) =
        Split-trans {oc = order} {z = z} {r = r} count same (rec r c' there)

-- NULL when no list of the order or above has a block. Otherwise a block all of whose pages were free,
-- and every page is in as many free blocks as before, less that block.
pub data Allocated (order : ℕ) (z : Zone) : Option (Option ℕ × Zone) → Type 0 where
  exhausted :
      ((o : ℕ) → order ≤ o → o < max_order → z.free_list o ≡ [])
      → Allocated order z (some (none, z))
  allocated :
      {b : ℕ} {r : Zone}
      → IsCounted r
      → ((p : ℕ) → blocks_of p r.free_list + one_if (in_block p b order) ≡ blocks_of p z.free_list)
      → r.page_free_count ≡ minus z.page_free_count (2 ^ order)
      → ((p : ℕ) → r.ref_count p ≡ z.ref_count p + one_if (in_block p b order))
      → ((p : ℕ) → r.has_zone p ≡ z.has_zone p)
      → Allocated order z (some (some b, r))

given :
    (order flags : ℕ) (l : List ℕ) (z r : Zone) (rest : Zone → Option (Option ℕ × Zone))
    → order < max_order
    → ((p : ℕ) → z.has_zone p ≡ true)
    → IsCounted r
    → ((p : ℕ) → blocks_of p r.free_list ≡ blocks_of p z.free_list)
    → SamePages z r
    → r.free_list order ≡ l
    → 1 ≤ length l
    → Allocated order z (
        take_in order l r >>= λ (b, u).
        if u.has_zone b then some (some b, give order flags b u) else rest u)
unfolding take_in give
given order flags [] z r rest h zone c count same e ne = absurd (omega arith)
given order flags (b ∷ bs) z r rest h zone c count same e ne = rw (same.has_zone b ∙ zone b) (
    allocated {r = give order flags b (without_first order bs r)} (IsCounted-first order b bs r e c)
      (λ p. taken_first order b bs r p h e ∙ count p)
      (ap (λ x. minus x (2 ^ order)) same.page_free_count) (λ p. ground (arith, same.ref_count p))
      same.has_zone)

get_from-Allocated :
    (n i order flags : ℕ) (z : Zone)
    → i + n ≡ max_order
    → order ≤ i
    → ((p : ℕ) → z.has_zone p ≡ true)
    → IsCounted z
    → ((o : ℕ) → order ≤ o → o < i → z.free_list o ≡ [])
    → Allocated order z (get_from n i order flags z)
unfolding get_from
get_from-Allocated zero i order flags z e le zone c none_below =
    exhausted (λ o low high. none_below o low (omega arith))
get_from-Allocated (suc n) i order flags z e le zone c none_below =
    elim (Bool-cases (z.nr_free i == 0)) [
      | inl empty ↦
          rw (empty, get_from)
            (get_from-Allocated n (i + 1) order flags z (omega arith) (omega arith) zone c
              (below (no_block (ground arith))))
      | inr block ↦
          rw (block, get_from)
            (next (
              split_down-Split (i - order) order z (omega arith) c
                (ground (arith, c i, ap (λ o. length (z.free_list o)) up))))
    ]
  where
    up : order + (i - order) ≡ i
    up = omega arith

    empty_list : (l : List ℕ) → length l ≡ 0 → l ≡ []
    empty_list [] h = refl
    empty_list (x ∷ xs) h = absurd (omega arith)

    no_block : z.nr_free i ≡ 0 → z.free_list i ≡ []
    no_block h = empty_list (z.free_list i) (omega (arith, c i))

    below : z.free_list i ≡ [] → (o : ℕ) → order ≤ o → o < i + 1 → z.free_list o ≡ []
    below h o low high = elim (Bool-cases (o == i)) [
      | inl same ↦ ap z.free_list (at same) ∙ h
      | inr other ↦ none_below o low (ground arith)
    ]
      where
        at : (o == i) ≡ true → o ≡ i
        at s = ground arith

    next :
        {q : Option Zone}
        → Split order z q
        → Allocated order z (
            q >>= λ z1. take_in order (z1.free_list order) z1 >>= λ (b, z2).
            if z2.has_zone b
            then some (some b, give order flags b z2)
            else get_from n (i + 1) order flags z2)
    next (split_ok {r} c' count there same) =
        given order flags (r.free_list order) z r (get_from n (i + 1) order flags) (omega arith)
          zone c' count same refl there

-- When every page has its zone and `nr_free` counts the lists, `get_page_from_freelist` returns. It
-- gives NULL, and changes nothing, only where no list of the order or above has a block. Otherwise it
-- gives a block of the order: each page is afterwards in as many free blocks as before, less one for
-- the pages of that block; the lists stay counted, the free pages are 2 ^ order less, and the block's
-- pages alone have one more reference.
pub get_page_from_freelist-Allocated :
    (order flags : ℕ) (z : Zone)
    → order ≤ max_order
    → ((p : ℕ) → z.has_zone p ≡ true)
    → IsCounted z
    → Allocated order z (get_page_from_freelist order flags z)
unfolding get_page_from_freelist
get_page_from_freelist-Allocated order flags z h zone c =
    get_from-Allocated (max_order - order) order order flags z (omega arith) (omega arith) zone c
      (λ o low high. absurd (omega arith))
