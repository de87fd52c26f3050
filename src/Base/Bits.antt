-- ===== src/Base/Bits.antt =====
-- The bit operations of the code at numbers that are not literals: what a flag or a power of two
-- does to a multiple of a larger power.
use Prim.Native.Nat.{
  ℕ, zero, suc, ◌+◌, ◌-◌, ◌*◌, ◌/◌, ◌%◌, ◌^◌, ◌≤◌, ◌<◌, max, min, differ, bit_and, bit_or, bit_xor,
  digits, bit_and-bitwise, bit_or-bitwise, bit_xor-bitwise,
}
use mathlib.Core.Path.{◌≡◌, refl, ap, ap₂, ◌∙◌}
use native.Mathlib.Omega.{arith}

-- `or` and `xor` go on with the second number where the first has run out.
module _ (f : ℕ → ℕ → ℕ) (f_zero : (x : ℕ) → f 0 x ≡ x) where
  abbrev join_digits : ℕ → ℕ → ℕ → ℕ
  join_digits n a b = digits (λ b. b) f n a b

  digits_enough : (n m a b : ℕ) → a ≤ n → a ≤ m → join_digits n a b ≡ join_digits m a b
  digits_enough zero zero a b p q = refl
  digits_enough zero (suc m) zero b p q = refl
  digits_enough zero (suc m) (suc a) b p q = absurd (omega arith)
  digits_enough (suc n) zero zero b p q = refl
  digits_enough (suc n) zero (suc a) b p q = absurd (omega arith)
  digits_enough (suc n) (suc m) zero b p q = refl
  digits_enough (suc n) (suc m) (suc a) b p q =
      omega (arith, digits_enough n m (suc a / 2) (b / 2) (omega arith) (omega arith))

  digits_step :
      (a b : ℕ) → join_digits a a b ≡ join_digits (a / 2) (a / 2) (b / 2) * 2 + f (a % 2) (b % 2)
  digits_step zero b = omega (arith, f_zero (b % 2))
  digits_step (suc a) b =
      omega (arith, digits_enough a (suc a / 2) (suc a / 2) (b / 2) (omega arith) (omega arith))

bit_or_step : (a b : ℕ) → bit_or a b ≡ bit_or (a / 2) (b / 2) * 2 + max (a % 2) (b % 2)
bit_or_step a b =
    bit_or-bitwise a b
    ∙ (digits_step max (λ x. omega arith) a b
        ∙ ap (λ d. d * 2 + max (a % 2) (b % 2)) (sym_of (bit_or-bitwise (a / 2) (b / 2))))
  where
    sym_of : {x y : ℕ} → x ≡ y → y ≡ x
    sym_of p = omega (arith, p)

bit_xor_step : (a b : ℕ) → bit_xor a b ≡ bit_xor (a / 2) (b / 2) * 2 + differ (a % 2) (b % 2)
bit_xor_step a b =
    bit_xor-bitwise a b
    ∙ (digits_step differ (λ x. refl) a b
        ∙ ap (λ d. d * 2 + differ (a % 2) (b % 2)) (sym_of (bit_xor-bitwise (a / 2) (b / 2))))
  where
    sym_of : {x y : ℕ} → x ≡ y → y ≡ x
    sym_of p = omega (arith, p)

bit_or-zero_fuel : (n a : ℕ) → a ≤ n → bit_or a 0 ≡ a
bit_or-zero_fuel n zero h = refl
bit_or-zero_fuel zero (suc a) h = absurd (omega arith)
bit_or-zero_fuel (suc n) (suc a) h =
    omega (arith, bit_or_step (suc a) 0, bit_or-zero_fuel n (suc a / 2) (omega arith))

bit_xor-zero_fuel : (n a : ℕ) → a ≤ n → bit_xor a 0 ≡ a
bit_xor-zero_fuel n zero h = refl
bit_xor-zero_fuel zero (suc a) h = absurd (omega arith)
bit_xor-zero_fuel (suc n) (suc a) h = omega (
  arith,
  bit_xor_step (suc a) 0,
  bit_xor-zero_fuel n (suc a / 2) (omega arith),
  differ-zero (suc a % 2),
)
  where
    differ-zero : (x : ℕ) → differ x 0 ≡ x
    differ-zero zero = refl
    differ-zero (suc x) = refl

twice : (a k : ℕ) → a * 2 ^ suc k ≡ a * 2 ^ k * 2
twice a k = ap (λ p. a * p) double ∙ omega arith
  where
    double : 2 ^ suc k ≡ 2 ^ k * 2
    double = omega arith

half : (x y : ℕ) → x ≡ y * 2 → (x / 2 ≡ y) × (x % 2 ≡ 0)
half x y h = omega (arith, h)

-- Low bits are added to a multiple of the power above them.
pub bit_or-add : (k a f : ℕ) → f < 2 ^ k → bit_or (a * 2 ^ k) f ≡ a * 2 ^ k + f
bit_or-add zero a f h = rw none_left (bit_or-zero_fuel (a * 1) (a * 1) (omega arith) ∙ omega arith)
  where
    none_left : f ≡ 0
    none_left = omega arith
bit_or-add (suc k) a f h =
    let e = half (a * 2 ^ suc k) (a * 2 ^ k) (twice a k) in
    let step = bit_or_step (a * 2 ^ suc k) f in
    let less : f / 2 < 2 ^ k = omega arith in
    omega (arith, step, ap (λ x. bit_or x (f / 2)) e.0, e.1, bit_or-add k a (f / 2) less, twice a k)

bit_xor-one : (a : ℕ) → bit_xor a 1 ≡ a / 2 * 2 + (1 - a % 2)
bit_xor-one a = omega (
  arith,
  bit_xor_step a 1,
  bit_xor-zero_fuel (a / 2) (a / 2) (omega arith),
  other (a % 2) (omega arith),
)
  where
    other : (x : ℕ) → x < 2 → differ x 1 ≡ 1 - x
    other zero h = refl
    other (suc zero) h = refl
    other (suc (suc x)) h = absurd (omega arith)

-- Turning the bit `k` of a multiple of 2 ^ k turns the lowest bit of the factor.
pub bit_xor-pow : (k a : ℕ) → bit_xor (a * 2 ^ k) (2 ^ k) ≡ (a / 2 * 2 + (1 - a % 2)) * 2 ^ k
bit_xor-pow zero a = ap (λ x. bit_xor x 1) one ∙ (bit_xor-one a ∙ omega arith)
  where
    one : a * 1 ≡ a
    one = omega arith
bit_xor-pow (suc k) a =
    let e = half (a * 2 ^ suc k) (a * 2 ^ k) (twice a k) in
    let p : (2 ^ suc k / 2 ≡ 2 ^ k) × (2 ^ suc k % 2 ≡ 0) =
      half (2 ^ suc k) (2 ^ k) (omega arith) in
    omega (
      arith,
      bit_xor_step (a * 2 ^ suc k) (2 ^ suc k),
      ap₂ (λ x y. bit_xor x y) e.0 p.0,
      ap₂ (λ x y. differ x y) e.1 p.1,
      bit_xor-pow k a,
      twice (a / 2 * 2 + (1 - a % 2)) k,
    )

no_digits : (n a b : ℕ) → b ≡ 0 → digits (λ c. zero) min n a b ≡ 0
no_digits zero zero b e = refl
no_digits zero (suc a) b e = refl
no_digits (suc n) zero b e = refl
no_digits (suc n) (suc a) b e = omega (arith, e, no_digits n (suc a / 2) (b / 2) (omega (arith, e)))

pub bit_and-zero : (a : ℕ) → bit_and a 0 ≡ 0
bit_and-zero a = bit_and-bitwise a 0 ∙ no_digits a a 0 refl
