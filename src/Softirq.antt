-- ===== src/Softirq.antt =====
-- Soft interrupts: kernel/softirq.c. The status word is given by its bits. What an action does is a
-- parameter; it may raise, register and unregister soft interrupts.
pub mod Pending
mod Tests
use talios.Base.{
  ℕ, zero, suc, ◌+◌, ◌%◌, Bool, true, false, not, ◌&&◌, ◌||◌, Option, none, some, ltb, ◌==◌,
  if◌then◌else◌,
}

-- `struct softirq`: the action, by a number, and its data.
pub record Action : Type 0 where
  pub action : ℕ
  pub data_ : ℕ

-- softirq_status, softirq_vector, whose entries without an action are `none`, and all that actions change.
pub record Softirqs (W : Type 0) : Type 0 where
  pub status : ℕ → Bool
  pub vector : ℕ → Option Action
  pub world : W

module _ {W : Type 0} where
  unfoldable pub add_softirq_status : (status : ℕ → Bool) → Softirqs W → Softirqs W
  add_softirq_status status s = record s { status = λ j. s.status j || status j }

  unfoldable pub register_softirq : (nr action data_ : ℕ) → Softirqs W → Softirqs W
  register_softirq nr action data_ s = record s {
    vector = λ j. if j == nr then some (record { action = action; data_ = data_ }) else s.vector j;
  }

  unfoldable pub unregitser_softirq : (nr : ℕ) → Softirqs W → Softirqs W
  unregitser_softirq nr s = record s { vector = λ j. if j == nr then none else s.vector j }

  unfoldable pub softirq_init : Softirqs W → Softirqs W
  softirq_init s = record s { status = λ j. false; vector = λ j. none }

-- The bit `j` of `~(1 << i)` as `unsigned long`: the shift is that of an `int`, by `i % 32`, and for 31
-- the `int` is negative.
unfoldable pub mask_bit : (i j : ℕ) → Bool
mask_bit i j = if i % 32 == 31 then ltb j 31 else not (j == i % 32)

module _ {W : Type 0} (call : Action → Softirqs W → Softirqs W) where
  -- The call of an action; an entry without one is a call of NULL.
  unfoldable pub act : Option Action → Softirqs W → Option (Softirqs W)
  act none s = none
  act (some a) s = some (call a s)

  -- The body of the loop.
  unfoldable pub turn : (i : ℕ) → Softirqs W → Option (Softirqs W)
  unfolding act mask_bit
  turn i s =
      if s.status i
      then act (s.vector i) (record s { status = λ j. s.status j && mask_bit i j })
      else some s

  unfoldable pub after_turn :
      Option (Softirqs W) → (Softirqs W → Option (Softirqs W)) → Option (Softirqs W)
  after_turn none go = none
  after_turn (some s) go = go s

  -- The loop from `i` on, with `n` turns left.
  unfoldable pub run_from : (n i : ℕ) → Softirqs W → Option (Softirqs W)
  unfolding turn after_turn
  run_from zero i s = some s
  run_from (suc n) i s = after_turn (turn i s) (run_from n (i + 1))

  pub do_softirq : Softirqs W → Option (Softirqs W)
  unfolding run_from
  do_softirq = run_from 64 0
