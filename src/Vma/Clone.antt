-- ===== src/Vma/Clone.antt =====
-- `vma_clone_all` (kernel/vma.c), which fork uses to copy the list of areas.
use talios.Base.{
  ℕ, ◌≡◌, ◌≢◌, Bool, true, false, none, some, List, [], ◌∷◌, ◌++◌, arith, refl, length, replicate,
  map, ap, ◌∙◌, ◌⊎◌, inl, inr,
}
use mathlib.Core.List.{append_assoc, append-nil}
use talios.Base.Word.{ok, err, enomem}
use talios.Vma.{Vma, Mm, clone_in, vma_clone_all, vma_destroy_all}

-- A copy differs from the original in its owner alone.
abbrev pub copy_for : ℕ → Vma → Vma
copy_for dst v = record v { vm_mm = dst }

-- The outcomes of the loop: the copies in order behind what was there, or a failed allocation.
clone_in_lem :
    (dst : ℕ) (allocs : List Bool) (vs done : List Vma)
    → (clone_in dst allocs vs done ≡ none)
      ⊎ (clone_in dst allocs vs done ≡ some (done ++ map (copy_for dst) vs))
unfolding clone_in
clone_in_lem dst allocs [] done = inr (rw append-nil)
clone_in_lem dst [] (v ∷ vs) done = inl refl
clone_in_lem dst (false ∷ allocs) (v ∷ vs) done = inl refl
clone_in_lem dst (true ∷ allocs) (v ∷ vs) done =
    rw (← append_assoc done (copy_for dst v ∷ []) (map (copy_for dst) vs))
      (clone_in_lem dst allocs vs (done ++ (copy_for dst v ∷ [])))

-- With an allocation for each area the loop copies them all.
clone_in-enough :
    (dst : ℕ) (vs done : List Vma)
    → clone_in dst (replicate (length vs) true) vs done ≡ some (done ++ map (copy_for dst) vs)
unfolding clone_in
clone_in-enough dst [] done = rw append-nil
clone_in-enough dst (v ∷ vs) done =
    clone_in-enough dst vs (done ++ (copy_for dst v ∷ []))
    ∙ ap some (append_assoc done (copy_for dst v ∷ []) (map (copy_for dst) vs))

-- Cloning into a fresh, empty list either fails with -ENOMEM and leaves the list empty, or returns
-- 0 and leaves copies of all areas in the same order, which differ from them in their owner alone.
pub vma_clone_all-copies :
    (allocs : List Bool) (src dst : Mm) (vs : List Vma)
    → src.addr ≢ dst.addr
    → src.vma_list ≡ some vs
    → dst.vma_list ≡ some []
    → (vma_clone_all allocs (some src) (some dst)
        ≡ (err enomem, some (record dst { vma_list = some [] })))
      ⊎ (vma_clone_all allocs (some src) (some dst)
          ≡ (ok 0, some (record dst { vma_list = some (map (copy_for dst.addr) vs) })))
unfolding vma_clone_all vma_destroy_all
vma_clone_all-copies allocs src dst vs ne e f = elim (clone_in_lem dst.addr allocs vs []) [
  | inl failed ↦ inl (ground arith)
  | inr done ↦ inr (ground arith)
]

-- Where every allocation succeeds, the clone succeeds.
pub vma_clone_all-ok :
    (src dst : Mm) (vs : List Vma)
    → src.addr ≢ dst.addr
    → src.vma_list ≡ some vs
    → dst.vma_list ≡ some []
    → vma_clone_all (replicate (length vs) true) (some src) (some dst)
      ≡ (ok 0, some (record dst { vma_list = some (map (copy_for dst.addr) vs) }))
unfolding vma_clone_all
vma_clone_all-ok src dst vs ne e f = ground (arith, clone_in-enough dst.addr vs [])
