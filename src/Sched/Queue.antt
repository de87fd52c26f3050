-- ===== src/Sched/Queue.antt =====
-- The run queue of kernel/schedule.c: in order of `vrun_time`, without repetition, and counted.
use talios.Base.{
  ℕ, ◌+◌, ◌≤◌, ◌<◌, ◌≡◌, inl, inr, Bool, true, false, ◌||◌, List, [], ◌∷◌, leb, ◌==◌, arith, refl,
  leb→le, length, Bool-cases,
}
use talios.Sched.{Walk, placed, present, behind, walk, place, head_vrun_time}

abbrev pub has : ℕ → List ℕ → Bool
has t [] = false
has t (x ∷ xs) = t == x || has t xs

abbrev pub Distinct : List ℕ → Type 0
Distinct [] = Unit {0}
Distinct (t ∷ ts) = (has t ts ≡ false) × Distinct ts

-- In ascending order from `lo` on, and below the list head.
abbrev pub Ascending : (ℕ → ℕ) → ℕ → List ℕ → Type 0
Ascending f lo [] = Unit {0}
Ascending f lo (t ∷ ts) = (lo ≤ f t) × (f t < head_vrun_time) × Ascending f (f t) ts

-- Every task of the list has at least the time `lo`.
abbrev pub AllFrom : (ℕ → ℕ) → ℕ → List ℕ → Type 0
AllFrom f lo [] = Unit {0}
AllFrom f lo (t ∷ ts) = (lo ≤ f t) × AllFrom f lo ts

pub Ascending-AllFrom :
    (f : ℕ → ℕ) (lo m : ℕ) (q : List ℕ) → m ≤ lo → Ascending f lo q → AllFrom f m q
Ascending-AllFrom f lo m [] h a = tt
Ascending-AllFrom f lo m (t ∷ ts) h (low, high, rest) =
    (omega arith, Ascending-AllFrom f (f t) m ts (omega arith) rest)

pub Ascending-weaken :
    (f : ℕ → ℕ) (lo m : ℕ) (q : List ℕ) → m ≤ lo → Ascending f lo q → Ascending f m q
Ascending-weaken f lo m [] h a = tt
Ascending-weaken f lo m (t ∷ ts) h (low, high, rest) = (omega arith, high, rest)

-- A task with less time than all of the list is not in it.
not_in_later : (f : ℕ → ℕ) (lo t : ℕ) (q : List ℕ) → f t < lo → Ascending f lo q → has t q ≡ false
not_in_later f lo t [] h a = refl
not_in_later f lo t (x ∷ xs) h (low, high, rest) =
    ground (arith, not_in_later f (f x) t xs (omega arith) rest, ne)
  where
    ne : (t == x) ≡ false
    ne = elim (Bool-cases (t == x)) [
      | inr d ↦ d
      | inl same ↦ let e : t ≡ x = ground arith in absurd (less e)
    ]
      where
        less : t ≡ x → ⊥
        less e = let g : f t ≡ f x = cc in omega arith

-- How the walk for `t` ends in the list `q` that starts at `lo`.
pub data Insertion (f : ℕ → ℕ) (lo t : ℕ) (q : List ℕ) : Walk → Type 0 where
  was_there : has t q ≡ true → Insertion f lo t q present
  put_in :
      {r : List ℕ}
      → has t q ≡ false
      → Ascending f lo r
      → Distinct r
      → length r ≡ length q + 1
      → ((x : ℕ) → has x r ≡ (x == t || has x q))
      → Insertion f lo t q (placed r)

Insertion-behind :
    (f : ℕ → ℕ) (lo t x : ℕ) (xs : List ℕ) {w : Walk}
    → lo ≤ f x
    → f x < head_vrun_time
    → has x xs ≡ false
    → (x == t) ≡ false
    → Insertion f (f x) t xs w
    → Insertion f lo t (x ∷ xs) (behind x w)
Insertion-behind f lo t x xs a b d ne (was_there i) = was_there (ground arith)
Insertion-behind f lo t x xs a b d ne (put_in {r} out asc dis len mem) =
    put_in (ground arith) (a, b, asc) (ground (arith, mem x), dis) (omega arith)
      (λ y. ground (arith, mem y))

walk-Insertion :
    (f : ℕ → ℕ) (lo t : ℕ) (q : List ℕ)
    → lo ≤ f t
    → f t < head_vrun_time
    → Ascending f lo q
    → Distinct q
    → Insertion f lo t q (walk f t q)
unfolding walk
walk-Insertion f lo t [] a b asc dis = rw below (put_in refl (a, b, tt) (refl, tt) refl (λ x. refl))
  where
    below : leb head_vrun_time (f t) ≡ false
    below = ground arith
walk-Insertion f lo t (x ∷ xs) a b (low, high, rest) (out, dis) =
    elim (Bool-cases (leb (f x) (f t))) [
      | inl goes ↦ elim (Bool-cases (x == t)) [
        | inl same ↦ rw (goes, same) (was_there (ground arith))
        | inr ne ↦
            rw (goes, ne)
              (Insertion-behind f lo t x xs low high out ne
                (walk-Insertion f (f x) t xs (leb→le _ _ goes) b rest dis))
      ]
      | inr stops ↦
          let out' = not_in_later f (f x) t (x ∷ xs) (ground arith) (omega arith, high, rest) in
          rw stops (
            put_in out' (a, b, (ground arith, high, rest)) (out', (out, dis)) (omega arith)
              (λ y. refl))
    ]

pub place-Insertion :
    (f : ℕ → ℕ) (lo t : ℕ) (q : List ℕ)
    → lo ≤ f t
    → f t < head_vrun_time
    → Ascending f lo q
    → Distinct q
    → Insertion f lo t q (place f t q)
unfolding place
place-Insertion f lo t [] a b asc dis = put_in refl (a, b, tt) (refl, tt) refl (λ x. refl)
place-Insertion f lo t (x ∷ xs) a b asc dis = walk-Insertion f lo t (x ∷ xs) a b asc dis
