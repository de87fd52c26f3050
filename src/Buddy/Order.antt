-- ===== src/Buddy/Order.antt =====
-- `get_order` (kernel/memory.c) against the powers of two.
use talios.Base.{
  ◌==◌, ℕ, zero, suc, ◌+◌, ◌^◌, ◌≤◌, ◌<◌, ◌≡◌, ◌⊎◌, inl, inr, leb, arith, refl, Bool-cases, true,
  false,
}
use talios.Buddy.{max_order, order_from, get_order}

-- The least order whose blocks have `number` pages, or MAX_ORDER.
pub record IsLeast (number order : ℕ) : Type 0 where
  pub below : (o : ℕ) → o < order → 2 ^ o < number
  pub enough : (order ≡ max_order) ⊎ (number ≤ 2 ^ order)

order_from-IsLeast :
    (n i number : ℕ)
    → i + n ≡ max_order
    → ((o : ℕ) → o < i → 2 ^ o < number)
    → IsLeast number (order_from n i number)
unfolding order_from
order_from-IsLeast zero i number e below = record { below = below; enough = inl (omega arith) }
order_from-IsLeast (suc n) i number e below = elim (Bool-cases (leb number (2 ^ i))) [
  | inl fits ↦ rw (fits, order_from) (record { below = below; enough = inr (ground arith) })
  | inr more ↦
      rw (more, order_from)
        (order_from-IsLeast n (i + 1) number (omega arith)
          (λ o lt. next (ground arith) o lt (Bool-cases (o == i))))
]
  where
    at : {o : ℕ} → 2 ^ i < number → o ≡ i → 2 ^ o < number
    at h s = rw s h

    next :
        2 ^ i < number
        → (o : ℕ) → o < i + 1
        → ((o == i) ≡ true) ⊎ ((o == i) ≡ false)
        → 2 ^ o < number
    next h o lt (inl same) = at h (ground arith)
    next h o lt (inr other) = below o (ground arith)

-- `get_order` gives the least order whose blocks have at least `number` pages, or MAX_ORDER when no
-- block is as large.
pub get_order-IsLeast : (number : ℕ) → IsLeast number (get_order number)
unfolding get_order
get_order-IsLeast number = order_from-IsLeast max_order 0 number refl (λ o lt. absurd (omega arith))
