-- ===== src/Vma/Free.antt =====
-- `range_is_free` and `find_vma` (kernel/vma.c) against the set of covered addresses.
use talios.Base.{
  refl, ℕ, ◌+◌, ◌≤◌, ◌<◌, ◌≡◌, ◌↔◌, inl, inr, Bool, true, false, Option, none, some, List, [], ◌∷◌,
  ltb, leb, arith, refl, max, leb→le, Bool-cases,
}
use talios.Base.Word.{page_size}
use talios.Vma.{Vma, Mm, user_limit, find_in, find_vma, free_in, range_is_free_list, range_is_free}
use talios.Vma.Order.{IsArea, Chain, IsOrdered, covered, covered-below, IsFree, IsTaken}

-- What the loop of `range_is_free` says.
data Freedom (vs : List Vma) (start end : ℕ) : Bool → Type 0 where
  free : IsFree vs start end → Freedom vs start end true
  taken : IsTaken vs start end → Freedom vs start end false

IsFree-above : (lo start end : ℕ) (vs : List Vma) → end ≤ lo → Chain lo vs → IsFree vs start end
IsFree-above lo start end vs h c a = ground (arith, covered-below a lo vs c)

Freedom-cons :
    (v : Vma) (vs : List Vma) (start end : ℕ) {b : Bool}
    → v.end ≤ start
    → Freedom vs start end b
    → Freedom (v ∷ vs) start end b
Freedom-cons v vs start end h (free f) = free (λ a. ground (arith, f a))
Freedom-cons v vs start end h (taken (a, i, t)) = taken (a, i, ground arith)

free_in_lem :
    (lo : ℕ) (vs : List Vma) (start end : ℕ)
    → start < end
    → Chain lo vs
    → Freedom vs start end (free_in vs start end)
unfolding free_in
free_in_lem lo [] start end h c = free (λ a. ground arith)
free_in_lem lo (v ∷ vs) start end h (low, area, rest) = elim (Bool-cases (leb end v.start)) [
  | inl before ↦
      rw before (
        free
          (IsFree-above v.start start end (v ∷ vs) (leb→le _ _ before) (omega arith, area, rest)))
  | inr more ↦ elim (Bool-cases (ltb start v.end)) [
    | inl meets ↦
        rw (more, meets)
          (taken (max start v.start, ground (arith, area.nonempty), ground (arith, area.nonempty)))
    | inr past ↦
        rw (more, past)
          (Freedom-cons v vs start end (ground arith) (free_in_lem v.end vs start end h rest))
  ]
]

Freedom-true :
    (vs : List Vma) (start end : ℕ) {b : Bool}
    → Freedom vs start end b
    → b ≡ true
    → IsFree vs start end
Freedom-true vs start end (free f) e = f
Freedom-true vs start end (taken t) e = absurd (cc)

Freedom-free :
    (vs : List Vma) (start end : ℕ) {b : Bool}
    → Freedom vs start end b
    → IsFree vs start end
    → b ≡ true
Freedom-free vs start end (free f) g = refl
Freedom-free vs start end (taken (a, i, t)) g = absurd (cc (g a, i, t))

range_is_free_list_iff :
    (vs : List Vma) (start len : ℕ)
    → IsOrdered vs
    → (range_is_free_list vs start len ≡ true) ↔ (
        (0 < len)
        × (page_size ≤ start)
        × (start + len ≤ user_limit)
        × IsFree vs start (start + len))
unfolding range_is_free_list
range_is_free_list_iff vs start len c = (
  λ h. (
    ground arith,
    ground arith,
    ground arith,
    Freedom-true vs start (start + len) (free_in_lem 0 vs start (start + len) (ground arith) c)
        (ground arith),
  ),
  λ p. ground (
    arith,
    Freedom-free vs start (start + len) (free_in_lem 0 vs start (start + len) (omega arith) c) p.3,
  ),
)

-- `range_is_free` answers true exactly if the range is not empty, lies between the first page and
-- the user's limit, and no area covers an address of it.
pub range_is_free_iff :
    (mm : Mm) (vs : List Vma) (start len : ℕ)
    → mm.vma_list ≡ some vs
    → IsOrdered vs
    → (range_is_free (some mm) start len ≡ true) ↔ (
        (0 < len)
        × (page_size ≤ start)
        × (start + len ≤ user_limit)
        × IsFree vs start (start + len))
unfolding range_is_free
range_is_free_iff mm vs start len e c = rw e (range_is_free_list_iff vs start len c)

-- What `find_vma` says of an address: the first area that ends after it.
pub data Next (vs : List Vma) (a : ℕ) : Option Vma → Type 0 where
  found :
      {v : Vma}
      → IsArea v
      → a < v.end
      → covered a vs ≡ leb v.start a
      → IsFree vs a v.start
      → Next vs a (some v)
  past : IsFree vs a user_limit → Next vs a none

Next-cons :
    (p : Vma) (vs : List Vma) (a : ℕ) {r : Option Vma} → p.end ≤ a → Next vs a r → Next (p ∷ vs) a r
Next-cons p vs a h (found {v} area lt cov none_between) =
    found area lt (ground (arith, cov)) (λ b. ground (arith, none_between b))
Next-cons p vs a h (past none_above) = past (λ b. ground (arith, none_above b))

find_in-Next : (lo : ℕ) (vs : List Vma) (a : ℕ) → Chain lo vs → Next vs a (find_in vs a)
unfolding find_in
find_in-Next lo [] a c = past (λ b. ground arith)
find_in-Next lo (v ∷ vs) a (low, area, rest) = elim (Bool-cases (ltb a v.end)) [
  | inl here ↦ rw here (
      found area (ground arith) (ground (arith, covered-below a v.end vs rest))
        (IsFree-above v.start a v.start (v ∷ vs) (omega arith) (omega arith, area, rest)))
  | inr later ↦ rw later (Next-cons v vs a (ground arith) (find_in-Next v.end vs a rest))
]

-- In an ordered list `find_vma` returns the first area that ends after the address: it covers the
-- address exactly if it starts at or before it, and no address from there up to its start is
-- covered. Where it returns NULL, nothing from the address up to the user's limit is covered.
pub find_vma-Next :
    (mm : Mm) (vs : List Vma) (a : ℕ)
    → mm.vma_list ≡ some vs
    → IsOrdered vs
    → Next vs a (find_vma (some mm) a)
unfolding find_vma
find_vma-Next mm vs a e c = rw e (find_in-Next 0 vs a c)
