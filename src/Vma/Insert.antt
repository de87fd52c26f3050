-- ===== src/Vma/Insert.antt =====
-- `insert_vma` (kernel/vma.c) against the invariant and the set of covered addresses.
use talios.Base.{
  ℕ, ◌≤◌, ◌≡◌, inl, inr, true, false, ◌||◌, ◌&&◌, Option, none, some, List, [], ◌∷◌, ltb, leb,
  arith, refl, max, leb→le, Bool-cases,
}
use mathlib.Core.Option
use talios.Base.Word.{Ret, ok, err, einval, eexist}
use talios.Vma.{Vma, Mm, bad_area, insert_in, insert_list, insert_vma}
use talios.Vma.Order.{IsArea, Chain, IsOrdered, holds, covered, covered-below}

-- Some address lies in the area and in one of the list.
abbrev pub Overlaps : Vma → List Vma → Type 0
Overlaps v vs = (a : ℕ) × (holds a v ≡ true) × (covered a vs ≡ true)

pub bad_area-IsArea : (v : Vma) → bad_area v ≡ false → IsArea v
unfolding bad_area
bad_area-IsArea v h = ground arith

pub IsArea-bad_area : (v : Vma) → IsArea v → bad_area v ≡ false
unfolding bad_area
IsArea-bad_area v h = ground arith

-- What the loop of `insert_vma` says of `v` and a list that starts at `lo`.
data Placed (lo : ℕ) (v : Vma) (vs : List Vma) : Option (List Vma) → Type 0 where
  clash : Overlaps v vs → Placed lo v vs none
  placed :
      {ws : List Vma}
      → Chain lo ws
      → ((a : ℕ) → covered a ws ≡ (holds a v || covered a vs))
      → ((a : ℕ) → (holds a v && covered a vs) ≡ false)
      → Placed lo v vs (some ws)

module _ (v : Vma) (area : IsArea v) where
  -- `v` goes before the first area of the list, or the list is empty.
  place_first :
      (lo : ℕ) (vs : List Vma) → lo ≤ v.start → Chain v.end vs → Placed lo v vs (some (v ∷ vs))
  place_first lo vs h c =
      placed (h, area, c) (λ a. refl) (λ a. ground (arith, covered-below a v.end vs c))

  place_later :
      (lo : ℕ) (p : Vma) (ps : List Vma) {r : Option (List Vma)}
      → lo ≤ p.start
      → IsArea p
      → p.end ≤ v.start
      → Placed p.end v ps r
      → Placed lo v (p ∷ ps) (Option.map (λ qs. p ∷ qs) r)
  place_later lo p ps h area_p after (clash (a, in_v, in_ps)) = clash (a, in_v, ground arith)
  place_later lo p ps h area_p after (placed {ws} c cov apart) =
      placed (h, area_p, c) (λ a. ground (arith, cov a)) (λ a. ground (arith, apart a))

  insert_in_lem :
      (lo : ℕ) (vs : List Vma) → lo ≤ v.start → Chain lo vs → Placed lo v vs (insert_in v vs)
  unfolding insert_in
  insert_in_lem lo [] h c = place_first lo [] h tt
  insert_in_lem lo (p ∷ ps) h (low, area_p, rest) = elim (Bool-cases (leb v.end p.start)) [
    | inl before ↦ rw before (place_first lo (p ∷ ps) h (leb→le _ _ before, area_p, rest))
    | inr more ↦ elim (Bool-cases (ltb v.start p.end)) [
      | inl meets ↦
          rw (more, meets)
            (clash (
              max v.start p.start,
              ground (arith, area.nonempty, area_p.nonempty),
              ground (arith, area.nonempty, area_p.nonempty),
            ))
      | inr past ↦
          rw (more, past)
            (place_later lo p ps low area_p (ground arith)
              (insert_in_lem p.end ps (ground arith) rest))
    ]
  ]

-- What `insert_vma` returns and leaves in a list `vs`.
pub data Outcome (v : Vma) (vs : List Vma) : Ret × List Vma → Type 0 where
  invalid : ¬ (IsArea v) → Outcome v vs (err einval, vs)
  exists : IsArea v → Overlaps v vs → Outcome v vs (err eexist, vs)
  inserted :
      {ws : List Vma}
      → IsArea v
      → IsOrdered ws
      → ((a : ℕ) → covered a ws ≡ (holds a v || covered a vs))
      → ((a : ℕ) → (holds a v && covered a vs) ≡ false)
      → Outcome v vs (ok 1, ws)

IsArea-vm_mm : (v : Vma) (m : ℕ) → IsArea v → IsArea (record v { vm_mm = m })
IsArea-vm_mm v m h = record {
  low = h.low;
  nonempty = h.nonempty;
  high = h.high;
  start_aligned = h.start_aligned;
  end_aligned = h.end_aligned;
}

Outcome-Placed :
    (m : ℕ) (v : Vma) (vs : List Vma) (r : Option (List Vma))
    → IsArea v
    → Placed 0 (record v { vm_mm = m }) vs r
    → Outcome v vs (elim r [ none ↦ (err eexist, vs) | some ws ↦ (ok 1, ws) ])
Outcome-Placed m v vs none area (clash o) = exists area o
Outcome-Placed m v vs (some ws) area (placed c cov apart) = inserted area c cov apart

insert_list-Outcome :
    (m : ℕ) (v : Vma) (vs : List Vma) → IsOrdered vs → Outcome v vs (insert_list m v vs)
unfolding insert_list
insert_list-Outcome m v vs c = elim (Bool-cases (bad_area v)) [
  | inl bad ↦ rw bad (invalid (λ area. cc (IsArea-bad_area v area)))
  | inr good ↦
      let area = bad_area-IsArea v good in
      rw good (
        Outcome-Placed m v vs _ area
          (insert_in_lem (record v { vm_mm = m }) (IsArea-vm_mm v m area) 0 vs (omega arith) c))
]

-- In a process whose list of areas is ordered, `insert_vma` takes one of three ways: -EINVAL and no
-- change, where the new area is empty, unaligned or out of the user's range; -EEXIST and no change,
-- where a valid area shares an address with the list; or 1, where the new list is ordered, covers
-- exactly the old addresses and those of the new area, and no address was covered by both.
pub insert_vma-Outcome :
    (mm : Mm) (v : Vma) (vs : List Vma)
    → mm.vma_list ≡ some vs
    → IsOrdered vs
    → (ws : List Vma) × ((insert_vma (some mm) (some v)).1
        ≡ some (record mm { vma_list = some ws }))
      × Outcome v vs ((insert_vma (some mm) (some v)).0, ws)
unfolding insert_vma
insert_vma-Outcome mm v vs e c =
    ((insert_list mm.addr v vs).1, rw e, rw e (insert_list-Outcome mm.addr v vs c))
