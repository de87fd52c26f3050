-- ===== src/Fault/Cover.antt =====
-- The area of a process that holds an address, and how `find_vma` (kernel/vma.c) finds it.
use talios.Base.{
  ℕ, ◌≡◌, ◌≤◌, ◌<◌, ◌||◌, Bool, true, false, Option, none, some, List, [], ◌∷◌, ltb, leb, arith,
  refl, ap, sym, ◌∙◌, Bool-cases, inl, inr,
}
use mathlib.Core.Path.{subst}
use mathlib.Core.List.{Mem, mem-cons_self, mem-cons_of_mem}
use talios.Vma.{Vma, Mm, find_in, find_vma}
use talios.Vma.Order.{Chain, IsOrdered, covered, covered-below}

-- One of the areas holds the address.
pub record Covers (vs : List Vma) (addr : ℕ) (vma : Vma) : Type 0 where
  pub one_of : Mem vma vs
  pub from : vma.start ≤ addr
  pub to : addr < vma.end

abbrev pub outside : ℕ → Option Vma → Bool
outside addr none = true
outside addr (some vma) = ltb addr vma.start || leb vma.end addr

abbrev or_else : Vma → Option Vma → Vma
or_else v none = v
or_else v (some u) = u

find_in-Mem : (vs : List Vma) (addr : ℕ) (v : Vma) → find_in vs addr ≡ some v → Mem v vs
unfolding find_in
find_in-Mem [] addr v = λ h. absurd (ground (arith, h))
find_in-Mem (u ∷ vs) addr v = elim (Bool-cases (ltb addr u.end)) [
  | inl here ↦ rw here (λ h. subst (λ x. Mem x (u ∷ vs)) (ap (or_else u) h) mem-cons_self)
  | inr later ↦ rw later (λ h. mem-cons_of_mem u (find_in-Mem vs addr v h))
]

find_in-outside :
    (lo : ℕ) (vs : List Vma) (addr : ℕ)
    → Chain lo vs
    → outside addr (find_in vs addr) ≡ true
    → covered addr vs ≡ false
unfolding find_in
find_in-outside lo [] addr c = λ out. refl
find_in-outside lo (v ∷ vs) addr (low, area, rest) = elim (Bool-cases (ltb addr v.end)) [
  | inl here ↦
      rw here
        (λ out. ground (arith, out, here, covered-below addr v.end vs rest (ground (arith, here))))
  | inr later ↦ rw later (λ out. ground (arith, later, find_in-outside v.end vs addr rest out))
]

module _ (mm : Mm) (vs : List Vma) (addr : ℕ) (list : mm.vma_list ≡ some vs) where
  found_in : find_vma (some mm) addr ≡ find_in vs addr
  unfolding find_vma
  found_in = rw list refl

  -- An area that was found and holds the address is one of the list's,
  pub find_vma-Covers :
      (vma : Vma)
      → find_vma (some mm) addr ≡ some vma
      → vma.start ≤ addr
      → addr < vma.end
      → Covers vs addr vma
  find_vma-Covers vma h from to = record {
    one_of = find_in-Mem vs addr vma (sym found_in ∙ h);
    from = from;
    to = to;
  }

  -- and where what was found does not hold it, none of the list's does.
  pub find_vma-covered :
      (o : Option Vma)
      → IsOrdered vs
      → find_vma (some mm) addr ≡ o
      → outside addr o ≡ true
      → covered addr vs ≡ false
  find_vma-covered o ordered h out =
      find_in-outside 0 vs addr ordered (ap (outside addr) (sym found_in ∙ h) ∙ out)
