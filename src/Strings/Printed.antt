-- ===== src/Strings/Printed.antt =====
-- What `NumToString` (kernel/lib.c) prints: the text read as a number again.
use talios.Base.{
  ℕ, ◌+◌, ◌-◌, ◌^◌, ◌<◌, ◌≤◌, ◌≡◌, ◌≢◌, ◌⊎◌, Bool, ◌&&◌, Option, some, leb, ◌==◌, if◌then◌else◌,
}
use talios.Strings.{Memory, store}
use talios.Strings.Numbers.{value_at, low_at}

data Reversed (head tail : ℕ) (m : Memory) : Option Memory → Type 0 where
  reversed :
      {r : Memory}
      → ((i : ℕ) → head ≤ i → i ≤ tail → r i ≡ m (head + tail - i))
      → ((a : ℕ) → (a < head) ⊎ (tail < a) → r a ≡ m a)
      → Reversed head tail m (some r)

-- The characters before the digits: two in base 16, one for a word in base 10 whose highest bit is set.
unfoldable pub prefix_length : (num base : ℕ) → ℕ
prefix_length num base = if base == 16 then 2 else if leb (2 ^ 63) num && base == 10 then 1 else 0

-- A text of `n` digits behind the prefix, from `buffer` on.
pub record Printed (num base : ℕ) (upper : Bool) (buffer n : ℕ) (m r : Memory) : Type 0 where
  pub some_digits : 0 < n
  pub value : value_at base upper r (buffer + prefix_length num base) n ≡ num
  pub no_zero : num ≢ 0 → r (buffer + prefix_length num base) ≢ 48
  pub hex : base ≡ 16 → (r buffer ≡ 48) × (r (buffer + 1) ≡ 120)
  pub minus : base ≡ 10 → 2 ^ 63 ≤ num → r buffer ≡ 45
  pub ended : r (buffer + (prefix_length num base + n)) ≡ 0
  pub others : (a : ℕ) → (a < buffer) ⊎ (buffer + (prefix_length num base + n) < a) → r a ≡ m a

pub data PrintedAs (num base : ℕ) (upper : Bool) (buffer : ℕ) (m : Memory)
    : Option (ℕ × Memory) → Type 0 where
  printed :
      {n : ℕ} {r : Memory}
      → Printed num base upper buffer n m r
      → PrintedAs num base upper buffer m (some (prefix_length num base + n, r))

-- `n` digits at `buffer`, the lowest first, before the prefix.
record Start (num base : ℕ) (upper : Bool) (buffer n : ℕ) (m r : Memory) : Type 0 where
  some_digits : 0 < n
  value : low_at base upper r buffer n ≡ num
  others : (a : ℕ) → (a < buffer) ⊎ (buffer + n ≤ a) → r a ≡ m a
  highest : num ≢ 0 → r (buffer + (n - 1)) ≢ 48

data StartAs (num base : ℕ) (upper : Bool) (buffer : ℕ) (m : Memory)
    : Option (ℕ × Memory) → Type 0 where
  start :
      {n : ℕ} {r : Memory}
      → Start num base upper buffer n m r
      → n ≤ 64
      → StartAs num base upper buffer m (some (buffer + n, r))

-- The prefix behind the digits, as it is before the reversal.
record Prefixed (num base ptr : ℕ) (m : Memory) (o : ℕ × Memory) : Type 0 where
  place : o.0 ≡ ptr + prefix_length num base
  others : (a : ℕ) → (a < ptr) ⊎ (ptr + prefix_length num base ≤ a) → o.1 a ≡ m a
  hex : base ≡ 16 → (o.1 (ptr + 1) ≡ 48) × (o.1 ptr ≡ 120)
  minus : base ≡ 10 → 2 ^ 63 ≤ num → (prefix_length num base ≡ 1) × (o.1 ptr ≡ 45)
  at_most : prefix_length num base ≤ 2

module _ (num base : ℕ) (upper : Bool) (buffer n : ℕ) (m m1 : Memory) (o : ℕ × Memory) (r : Memory)
    (s : Start num base upper buffer n m m1) (x : Prefixed num base (buffer + n) m1 o)
    (inner : (i : ℕ) → buffer ≤ i → i ≤ o.0 - 1 → r i ≡ o.1 (buffer + (o.0 - 1) - i))
    (outer : (a : ℕ) → (a < buffer) ⊎ (o.0 - 1 < a) → r a ≡ o.1 a) where
  abbrev text : Memory
  text = store r o.0 0
