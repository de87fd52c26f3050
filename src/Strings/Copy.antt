-- ===== src/Strings/Copy.antt =====
-- `memset` and `memcopy` (kernel/lib.c) against what they leave at each address.
use talios.Base.{
  ap, ℕ, zero, suc, ◌+◌, ◌≤◌, ◌<◌, ◌≡◌, ◌≢◌, ◌⊎◌, inl, inr, ◌==◌, arith, refl, ◌∙◌, Bool-cases,
}
use talios.Strings.{Memory, store, memset, copy_up, copy_down, is_backcopy, memcopy}

-- The `n` bytes from `dst` on are those that `m` has from `src` on, and the others are as in `m`.
pub record IsCopied (src dst n : ℕ) (m r : Memory) : Type 0 where
  pub copied : (i : ℕ) → i < n → r (dst + i) ≡ m (src + i)
  pub others : (a : ℕ) → (a < dst) ⊎ (dst + n ≤ a) → r a ≡ m a

pub store_same : (m : Memory) (p v a : ℕ) → a ≡ p → store m p v a ≡ v
store_same m p v a h = ground arith

pub store_other : (m : Memory) (p v a : ℕ) → a ≢ p → store m p v a ≡ m a
store_other m p v a h = ground arith

copy_up-others :
    (src dst n : ℕ) (m : Memory) (a : ℕ) → (a < dst) ⊎ (dst + n ≤ a) → copy_up src dst n m a ≡ m a
unfolding copy_up
copy_up-others src dst zero m a h = refl
copy_up-others src dst (suc n) m a h =
    copy_up-others (src + 1) (dst + 1) n (store m dst (m src)) a (ground arith)
    ∙ store_other m dst (m src) a (λ e. ground arith)

copy_up-copied :
    (src dst n : ℕ) (m : Memory) (i : ℕ)
    → i < n
    → (dst ≤ src) ⊎ (src + n ≤ dst)
    → copy_up src dst n m (dst + i) ≡ m (src + i)
unfolding copy_up
copy_up-copied src dst zero m i h apart = absurd (omega arith)
copy_up-copied src dst (suc n) m zero h apart =
    copy_up-others (src + 1) (dst + 1) n (store m dst (m src)) (dst + 0) (inl (omega arith))
    ∙ (store_same m dst (m src) (dst + 0) (omega arith) ∙ ap m (omega arith))
copy_up-copied src dst (suc n) m (suc i) h apart =
    ap (copy_up (src + 1) (dst + 1) n (store m dst (m src))) (omega arith)
    ∙ (copy_up-copied (src + 1) (dst + 1) n (store m dst (m src)) i (omega arith) (ground arith)
        ∙ (store_other m dst (m src) (src + 1 + i) (λ e. ground arith) ∙ ap m (omega arith)))

copy_down-others :
    (src dst n : ℕ) (m : Memory) (a : ℕ) → (a < dst) ⊎ (dst + n ≤ a) → copy_down src dst n m a ≡ m a
unfolding copy_down
copy_down-others src dst zero m a h = refl
copy_down-others src dst (suc n) m a h =
    copy_down-others src dst n (store m (dst + n) (m (src + n))) a (ground arith)
    ∙ store_other m (dst + n) (m (src + n)) a (λ e. ground arith)

copy_down-copied :
    (src dst n : ℕ) (m : Memory) (i : ℕ)
    → i < n
    → src < dst
    → copy_down src dst n m (dst + i) ≡ m (src + i)
unfolding copy_down
copy_down-copied src dst zero m i h after = absurd (omega arith)
copy_down-copied src dst (suc n) m i h after = elim (Bool-cases (i == n)) [
  | inl last ↦
      copy_down-others src dst n (store m (dst + n) (m (src + n))) (dst + i) (inr (ground arith))
      ∙ (store_same m (dst + n) (m (src + n)) (dst + i) (ground arith) ∙ same (ground arith))
  | inr earlier ↦
      copy_down-copied src dst n (store m (dst + n) (m (src + n))) i (ground arith) after
      ∙ store_other m (dst + n) (m (src + n)) (src + i) (λ e. ground arith)
]
  where
    same : n ≡ i → m (src + n) ≡ m (src + i)
    same e = rw e

-- `memcopy` copies `n` bytes whatever the two areas share: the bytes at `dst` are afterwards those
-- that were at `src` before, and no byte outside of the target changes.
pub memcopy-IsCopied : (src dst n : ℕ) (m : Memory) → IsCopied src dst n m (memcopy src dst n m)
unfolding memcopy is_backcopy
memcopy-IsCopied src dst n m = elim (Bool-cases (is_backcopy src dst n)) [
  | inl back ↦
      rw (back, memcopy)
        (record {
          copied = λ i h. copy_down-copied src dst n m i h (ground arith);
          others = copy_down-others src dst n m;
        })
  | inr forward ↦
      rw (forward, memcopy)
        (record {
          copied = λ i h. copy_up-copied src dst n m i h (ground arith);
          others = copy_up-others src dst n m;
        })
]

-- The `n` bytes from `src` on are `num`, and the others are as in `m`.
pub record IsFilled (src num n : ℕ) (m r : Memory) : Type 0 where
  pub filled : (i : ℕ) → i < n → r (src + i) ≡ num
  pub others : (a : ℕ) → (a < src) ⊎ (src + n ≤ a) → r a ≡ m a

memset-others :
    (src num n : ℕ) (m : Memory) (a : ℕ) → (a < src) ⊎ (src + n ≤ a) → memset src num n m a ≡ m a
unfolding memset
memset-others src num zero m a h = refl
memset-others src num (suc n) m a h =
    memset-others (src + 1) num n (store m src num) a (ground arith)
    ∙ store_other m src num a (λ e. ground arith)

memset-filled : (src num n : ℕ) (m : Memory) (i : ℕ) → i < n → memset src num n m (src + i) ≡ num
unfolding memset
memset-filled src num zero m i h = absurd (omega arith)
memset-filled src num (suc n) m zero h =
    memset-others (src + 1) num n (store m src num) (src + 0) (inl (omega arith))
    ∙ store_same m src num (src + 0) (omega arith)
memset-filled src num (suc n) m (suc i) h =
    ap (memset (src + 1) num n (store m src num)) (omega arith)
    ∙ memset-filled (src + 1) num n (store m src num) i (omega arith)

-- `memset` sets exactly the `n` bytes from `src` on.
pub memset-IsFilled : (src num n : ℕ) (m : Memory) → IsFilled src num n m (memset src num n m)
memset-IsFilled src num n m = record {
  filled = memset-filled src num n m;
  others = memset-others src num n m;
}
