-- ===== src/Vma/Order.antt =====
-- The invariant of a list of areas, and what the list says of an address.
use talios.Base.{
  ℕ, ◌%◌, ◌≤◌, ◌<◌, ◌≡◌, Bool, true, false, ◌||◌, ◌&&◌, List, [], ◌∷◌, ltb, leb, arith, refl,
}
use talios.Base.Word.{page_size}
use talios.Vma.{Vma, user_limit}

-- One area: not empty, page aligned, in the user's half.
pub record IsArea (v : Vma) : Type 0 where
  pub low : page_size ≤ v.start
  pub nonempty : v.start < v.end
  pub high : v.end ≤ user_limit
  pub start_aligned : v.start % page_size ≡ 0
  pub end_aligned : v.end % page_size ≡ 0

-- The areas lie in ascending order from `lo` on and do not overlap.
abbrev pub Chain : ℕ → List Vma → Type 0
Chain lo [] = Unit {0}
Chain lo (v ∷ vs) = (lo ≤ v.start) × IsArea v × Chain v.end vs

abbrev pub IsOrdered : List Vma → Type 0
IsOrdered vs = Chain 0 vs

abbrev pub within : ℕ → ℕ → ℕ → Bool
within start end a = leb start a && ltb a end

-- Does the area hold the address?
abbrev pub holds : ℕ → Vma → Bool
holds a v = within v.start v.end a

abbrev pub covered : ℕ → List Vma → Bool
covered a [] = false
covered a (v ∷ vs) = holds a v || covered a vs

-- No address from `start` up to `end` is covered, and some address there is.
abbrev pub IsFree : List Vma → ℕ → ℕ → Type 0
IsFree vs start end = (a : ℕ) → (within start end a && covered a vs) ≡ false

abbrev pub IsTaken : List Vma → ℕ → ℕ → Type 0
IsTaken vs start end = (a : ℕ) × (within start end a ≡ true) × (covered a vs ≡ true)

pub Chain-weaken : (lo lo' : ℕ) (vs : List Vma) → lo' ≤ lo → Chain lo vs → Chain lo' vs
Chain-weaken lo lo' [] h c = tt
Chain-weaken lo lo' (v ∷ vs) h c = (omega arith, c.1, c.2)

-- Nothing below the start of a chain is covered.
pub covered-below : (a lo : ℕ) (vs : List Vma) → Chain lo vs → a < lo → covered a vs ≡ false
covered-below a lo [] c h = refl
covered-below a lo (v ∷ vs) c h =
    ground (arith, covered-below a v.end vs c.2 (omega (arith, c.1.nonempty, c.0)))
