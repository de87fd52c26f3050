-- ===== src/Buddy/Free.antt =====
-- `__free_pages` (kernel/memory.c): how much the free lists hold after it.
use talios.Base.{
  ℕ, zero, suc, ◌+◌, ◌-◌, ◌*◌, ◌^◌, ◌<◌, ◌≡◌, true, ◌||◌, List, [], ◌∷◌, ltb, leb, ◌==◌,
  if◌then◌else◌, bit_xor, arith, refl, ap, ◌∙◌, length, Bool-cases, inl, inr,
}
use talios.Buddy.{
  max_order, put_at, Zone, plus, add_block, list_search, list_delete, merge, free_pages_core,
  free_pages_of,
}
use talios.Buddy.Count.{sum, sum-one, put_at-same, put_at-other}
use talios.Buddy.Alloc.{IsCounted, counted-put_at}

-- The pages of all free blocks.
unfoldable pub size : (ℕ → List ℕ) → ℕ
size free = sum max_order (λ o. length (free o) * 2 ^ o)

size-put_at :
    (i : ℕ) (l : List ℕ) (free : ℕ → List ℕ)
    → i < max_order
    → size (put_at free i l) + length (free i) * 2 ^ i ≡ size free + length l * 2 ^ i
unfolding size
size-put_at i l free h = go max_order h
  where
    go :
        (n : ℕ)
        → i < n
        → sum n (λ o. length (put_at free i l o) * 2 ^ o) + length (free i) * 2 ^ i
          ≡ sum n (λ o. length (free o) * 2 ^ o) + length l * 2 ^ i
    go n lt =
        sum-one n i (λ o. length (free o) * 2 ^ o) (λ o. length (put_at free i l o) * 2 ^ o)
          (λ o ne. ap (λ x. length x * 2 ^ o) (put_at-other free i l o ne)) lt
        ∙ ap (λ x. sum n (λ o. length (free o) * 2 ^ o) + length x * 2 ^ i) (put_at-same free i l)

-- The lists are counted and hold `n` pages more.
pub record Grown (n : ℕ) (z r : Zone) : Type 0 where
  pub counted : IsCounted r
  pub pages : size r.free_list ≡ size z.free_list + n
  pub page_free_count : r.page_free_count ≡ z.page_free_count

step : (s t m k : ℕ) → s + m * k ≡ t + suc m * k → s ≡ t + k
step s t m k e = omega (arith, e)

less : (s t m k : ℕ) → s + suc m * k ≡ t + m * k → s + k ≡ t
less s t m k e = omega (arith, e)

both : (a s t o : ℕ) → a ≡ s + 2 ^ (o + 1) → s + 2 ^ o ≡ t → a ≡ t + 2 ^ o
both a s t o p q = omega (arith, p, q, double)
  where
    next : o + 1 ≡ suc o
    next = omega arith

    at_next : 2 ^ suc o ≡ 2 ^ o + 2 ^ o
    at_next = omega arith

    double : 2 ^ (o + 1) ≡ 2 ^ o + 2 ^ o
    double = ap (λ x. 2 ^ x) next ∙ at_next

add_block-Grown :
    (order b : ℕ) (z : Zone)
    → order < max_order
    → IsCounted z
    → Grown (2 ^ order) z (add_block order b z)
unfolding add_block
add_block-Grown order b z h c = record {
  counted =
      counted-put_at z.nr_free z.free_list order (z.nr_free order + 1) (b ∷ z.free_list order) c
        (omega (arith, c order));
  pages = step _ _ _ (2 ^ order) (size-put_at order (b ∷ z.free_list order) z.free_list h);
  page_free_count = refl;
}

length-list_delete :
    (b : ℕ) (l : List ℕ) → list_search b l ≡ true → suc (length (list_delete b l)) ≡ length l
unfolding list_search list_delete
length-list_delete b [] h = absurd (ground arith)
length-list_delete b (x ∷ xs) h = elim (Bool-cases (x == b)) [
  | inl same ↦ rw (same, list_delete) refl
  | inr other ↦ rw (other, list_delete) (ap suc (length-list_delete b xs (ground arith)))
]

-- A buddy taken out of its list.
abbrev pub without : (order buddy : ℕ) → Zone → Zone
without order buddy z = record z {
  free_list = put_at z.free_list order (list_delete buddy (z.free_list order));
  nr_free = put_at z.nr_free order (z.nr_free order - 1);
}

joined-Grown :
    (order buddy : ℕ) (z r : Zone)
    → order < max_order
    → list_search buddy (z.free_list order) ≡ true
    → Grown (2 ^ (order + 1)) (without order buddy z) r
    → Grown (2 ^ order) z r
joined-Grown order buddy z r h there g =
    let l = list_delete buddy (z.free_list order) in
    let len = length-list_delete buddy (z.free_list order) there in
    record {
      counted = g.counted;
      pages =
          both (size r.free_list) (size (put_at z.free_list order l)) (size z.free_list) order
            g.pages
            (less (size (put_at z.free_list order l)) (size z.free_list) (length l) (2 ^ order) (
              ap (λ x. size (put_at z.free_list order l) + x * 2 ^ order) len
              ∙ size-put_at order l z.free_list h));
      page_free_count = g.page_free_count;
    }

merge-Grown :
    (n order b : ℕ) (z : Zone)
    → order + n ≡ max_order - 1
    → IsCounted z
    → Grown (2 ^ order) z (merge n order b z)
unfolding merge
merge-Grown zero order b z e c = add_block-Grown order b z (omega arith) c
merge-Grown (suc n) order b z e c = elim (Bool-cases (ltb buddy z.first || leb z.last buddy)) [
  | inl outside ↦ rw (outside, merge) alone
  | inr inside ↦ elim (Bool-cases (list_search buddy (z.free_list order))) [
    | inr absent ↦ rw (inside, absent, merge) alone
    | inl there ↦
        rw (inside, there, merge)
          (joined-Grown order buddy z _ (omega arith) there (
            merge-Grown n (order + 1) (if ltb buddy b then buddy else b) (without order buddy z)
              (omega arith)
              (counted-put_at z.nr_free z.free_list order (z.nr_free order - 1)
                (list_delete buddy (z.free_list order)) c
                (omega (arith, c order, length-list_delete buddy (z.free_list order) there)))))
  ]
]
  where
    buddy : ℕ
    buddy = bit_xor b (2 ^ order)

    alone : Grown (2 ^ order) z (add_block order b z)
    alone = add_block-Grown order b z (omega arith) c

-- What `__free_pages` does to the counts of a zone.
pub record Freed (order : ℕ) (z r : Zone) : Type 0 where
  pub counted : IsCounted r
  pub pages : size r.free_list ≡ size z.free_list + 2 ^ order
  pub page_free_count : r.page_free_count ≡ plus z.page_free_count (2 ^ order)

-- However many buddies a freed block is merged with, `__free_pages` of a block of an order below
-- MAX_ORDER adds 2 ^ order pages to the free lists, no more and no less, adds as many to the count of
-- free pages, and keeps `nr_free` the length of each list.
pub free_pages_of-Freed :
    (page order : ℕ) (z : Zone)
    → order < max_order
    → IsCounted z
    → Freed order z (free_pages_of page order z)
unfolding free_pages_of free_pages_core
free_pages_of-Freed page order z h c =
    let g = merge-Grown (max_order - 1 - order) order page z (omega arith) c in
    record {
      counted = g.counted;
      pages = g.pages;
      page_free_count = ap (λ x. plus x (2 ^ order)) g.page_free_count;
    }
