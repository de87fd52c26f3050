-- ===== src/Slab/Scan.antt =====
-- The search of a colour map (kernel/memory.c, `AllocSlab`), which leaves out full words.
use talios.Base.{
  ℕ, zero, suc, ◌+◌, ◌*◌, ◌/◌, ◌%◌, ◌<◌, ◌≤◌, ◌≡◌, ◌⊎◌, Bool, true, false, ◌&&◌, Option, none, some,
  ltb, ◌==◌, arith, refl, ap, ◌∙◌, Bool-cases, inl, inr,
}
use talios.Slab.{all_set, full_word, scan}

all_set-bit :
    (map : ℕ → Bool) (i n j : ℕ) → all_set map i n ≡ true → i ≤ j → j < i + n → map j ≡ true
unfolding all_set
all_set-bit map i zero j h low high = absurd (omega arith)
all_set-bit map i (suc n) j h low high = elim (Bool-cases (j == i)) [
  | inl here ↦ ap map (number here) ∙ left (map i) (all_set map (i + 1) n) h
  | inr later ↦
      all_set-bit map (i + 1) n j (right (map i) (all_set map (i + 1) n) h)
        (omega (arith, other later)) (omega arith)
]
  where
    number : (j == i) ≡ true → j ≡ i
    number e = ground (arith, e)

    other : (j == i) ≡ false → i < j
    other e = ground (arith, e)

    left : (a b : Bool) → (a && b) ≡ true → a ≡ true
    left a b e = ground (arith, e)

    right : (a b : Bool) → (a && b) ≡ true → b ≡ true
    right a b e = ground (arith, e)

-- The bits of the word that `i` is in.
full_word-bit : (map : ℕ → Bool) (i j : ℕ) → full_word map i ≡ true → j / 64 ≡ i / 64 → map j ≡ true
unfolding full_word
full_word-bit map i j h same =
    all_set-bit map (i / 64 * 64) 64 j h (omega (arith, same)) (omega (arith, same))

-- The result of the search: the first clear bit, or that all are set.
pub data Scanned (count : ℕ) (map : ℕ → Bool) : Option ℕ → Type 0 where
  found :
      {k : ℕ}
      → k < count
      → map k ≡ false
      → ((j : ℕ) → j < k → map j ≡ true)
      → Scanned count map (some k)
  all_used : ((j : ℕ) → j < count → map j ≡ true) → Scanned count map none

-- The next bit starts a word or is in the same one.
next_bit :
    (map : ℕ → Bool) (i : ℕ)
    → full_word map i ≡ false
    → ((i + 1) % 64 ≡ 0) ⊎ (full_word map (i + 1) ≡ false)
unfolding full_word
next_bit map i part = elim (Bool-cases ((i + 1) % 64 == 0)) [
  | inl start ↦ inl (ground (arith, start))
  | inr on ↦ inr (ap (λ w. all_set map (w * 64) 64) (inside on) ∙ part)
]
  where
    inside : ((i + 1) % 64 == 0) ≡ false → (i + 1) / 64 ≡ i / 64
    inside e = ground (arith, e)

-- Inside a word the search goes on only where the word is not full.
scan-from :
    (fuel count i : ℕ) (map : ℕ → Bool)
    → count < i + fuel
    → (i % 64 ≡ 0) ⊎ (full_word map i ≡ false)
    → ((j : ℕ) → j < i → map j ≡ true)
    → Scanned count map (scan fuel count i map)
unfolding scan
scan-from zero count i map enough start before = all_used (λ j h. before j (omega arith))
scan-from (suc fuel) count i map enough start before = elim (Bool-cases (ltb i count)) [
  | inr over ↦ rw over (all_used (λ j h. before j (ground (arith, over, h))))
  | inl inside ↦ elim (Bool-cases (full_word map i)) [
    | inl full ↦
        rw (inside, full)
          (scan-from fuel count (i + 64) map (omega arith) (inl (omega (arith, aligned full start)))
            (λ j h. elim (Bool-cases (ltb j i)) [
              | inl less ↦ before j (ground (arith, less))
              | inr more ↦
                  full_word-bit map i j full
                    (same_word j (ground (arith, more)) h (aligned full start))
            ]))
    | inr part ↦ elim (Bool-cases (map i)) [
      | inl used ↦
          rw (inside, part, used)
            (scan-from fuel count (i + 1) map (omega arith) (next_bit map i part) (λ j h.
              elim (Bool-cases (j == i)) [
                | inl here ↦ ap map (same here) ∙ used
                | inr other ↦ before j (ground (arith, other, h))
              ]))
      | inr free ↦ rw (inside, part, free) (found (ground (arith, inside)) free before)
    ]
  ]
]
  where
    aligned : full_word map i ≡ true → (i % 64 ≡ 0) ⊎ (full_word map i ≡ false) → i % 64 ≡ 0
    aligned full (inl zero_rest) = zero_rest
    aligned full (inr part) = absurd (ground (arith, full, part))

    same_word : (j : ℕ) → i ≤ j → j < i + 64 → i % 64 ≡ 0 → j / 64 ≡ i / 64
    same_word j low high a = omega (arith, a)

    same : {j : ℕ} → (j == i) ≡ true → j ≡ i
    same e = ground (arith, e)

pub scan-Scanned : (count : ℕ) (map : ℕ → Bool) → Scanned count map (scan (suc count) count 0 map)
scan-Scanned count map =
    scan-from (suc count) count 0 map (omega arith) (inl refl) (λ j h. absurd (omega arith))
