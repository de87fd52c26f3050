-- ===== src/Buddy/Count.antt =====
-- How many free blocks of a zone (kernel/memory.c) hold a page, and what changes of a list do to it.
use talios.Base.{
  ℕ, zero, suc, ◌+◌, ◌^◌, ◌≤◌, ◌<◌, ◌≡◌, ◌≢◌, Bool, true, false, ◌&&◌, List, [], ◌∷◌, ltb, leb,
  ◌==◌, if◌then◌else◌, arith, refl, Bool-cases, ◌∙◌, inl, inr, ap,
}
use talios.Buddy.{max_order, put_at, in_block}

abbrev pub one_if : Bool → ℕ
one_if b = if b then 1 else 0

abbrev pub count_in : (p order : ℕ) → List ℕ → ℕ
count_in p order [] = 0
count_in p order (b ∷ bs) = one_if (in_block p b order) + count_in p order bs

abbrev pub sum : ℕ → (ℕ → ℕ) → ℕ
sum zero g = 0
sum (suc n) g = sum n g + g n

-- The free blocks that hold the page `p`.
unfoldable pub blocks_of : ℕ → (ℕ → List ℕ) → ℕ
blocks_of p free = sum max_order (λ o. count_in p o (free o))

sum-agree : (n i : ℕ) (g h : ℕ → ℕ) → ((o : ℕ) → o ≢ i → h o ≡ g o) → n ≤ i → sum n h ≡ sum n g
sum-agree zero i g h same le = refl
sum-agree (suc n) i g h same le =
    omega (arith, sum-agree n i g h same (omega arith), same n (λ e. omega arith))

pub sum-one :
    (n i : ℕ) (g h : ℕ → ℕ) → ((o : ℕ) → o ≢ i → h o ≡ g o) → i < n → sum n h + g i ≡ sum n g + h i
sum-one zero i g h same lt = absurd (omega arith)
sum-one (suc n) i g h same lt = elim (Bool-cases (i == n)) [
  | inl last ↦ at_last (ground arith)
  | inr below ↦ omega (arith, sum-one n i g h same (ground arith), same n (λ e. ground arith))
]
  where
    at_last : i ≡ n → sum n h + h n + g i ≡ sum n g + g n + h i
    at_last e =
        rw e (omega (arith, sum-agree n n g h (λ o ne. same o (λ d. ne (d ∙ e))) (omega arith)))

pub put_at-same {ℓ} : {A : Type ℓ} (f : ℕ → A) (i : ℕ) (v : A) → put_at f i v i ≡ v
put_at-same f i v = rw (same i)
  where
    same : (j : ℕ) → (j == j) ≡ true
    same j = ground arith

pub put_at-other {ℓ} :
    {A : Type ℓ} (f : ℕ → A) (i : ℕ) (v : A) (j : ℕ) → j ≢ i → put_at f i v j ≡ f j
put_at-other f i v j ne = rw other
  where
    other : (j == i) ≡ false
    other = ground arith

sum-put_at :
    (n p i : ℕ) (bs : List ℕ) (free : ℕ → List ℕ)
    → i < n
    → sum n (λ o. count_in p o (put_at free i bs o)) + count_in p i (free i)
      ≡ sum n (λ o. count_in p o (free o)) + count_in p i bs
sum-put_at n p i bs free h =
    sum-one n i (λ o. count_in p o (free o)) (λ o. count_in p o (put_at free i bs o))
      (λ o ne. ap (count_in p o) (put_at-other free i bs o ne)) h
    ∙ ap (λ l. sum n (λ o. count_in p o (free o)) + count_in p i l) (put_at-same free i bs)

-- A list put in place of another.
pub blocks_of-put_at :
    (p i : ℕ) (bs : List ℕ) (free : ℕ → List ℕ)
    → i < max_order
    → blocks_of p (put_at free i bs) + count_in p i (free i) ≡ blocks_of p free + count_in p i bs
unfolding blocks_of
blocks_of-put_at p i bs free h = sum-put_at max_order p i bs free h

-- The two halves of a block hold the pages that the block holds.
pub halves-count :
    (p b ob : ℕ)
    → one_if (in_block p b ob) + one_if (in_block p (b + 2 ^ ob) ob)
      ≡ one_if (in_block p b (suc ob))
halves-count p b ob = rw double (go (2 ^ ob))
  where
    double : 2 ^ suc ob ≡ 2 ^ ob + 2 ^ ob
    double = omega arith

    go :
        (k : ℕ)
        → one_if (leb b p && ltb p (b + k)) + one_if (leb (b + k) p && ltb p (b + k + k))
          ≡ one_if (leb b p && ltb p (b + (k + k)))
    go k = ground arith
