-- ===== src/Strings/Numbers.antt =====
-- The text of a number (kernel/lib.c, `NumToString`) read as a number again.
use talios.Base.{
  ℕ, zero, suc, ◌+◌, ◌-◌, ◌*◌, ◌/◌, ◌%◌, ◌^◌, ◌<◌, ◌≤◌, ◌≡◌, ◌≢◌, ◌⊎◌, Bool, true, false, Option,
  some, leb, ◌==◌, if◌then◌else◌, arith, refl, sym, ap, ap₂, ◌∙◌, Bool-cases, inl, inr,
}
use mathlib.Core.Path.{subst}
use native.Mathlib.Nat.{mod-lt, div-add-mod', div-lt_iff_lt-mul, mul-le-mul_left}
use talios.Strings.{Memory, store}
use talios.Strings.Copy.{store_same, store_other}
use talios.Strings.Digits.{digit_char, put_digits}

-- The digit of a character.
unfoldable pub digit_value : (upper : Bool) (c : ℕ) → ℕ
digit_value upper c = if leb c 57 then c - 48 else if upper then c - 55 else c - 87

digit_value-char :
    (upper : Bool) (res : ℕ) → res < 36 → digit_value upper (digit_char upper res) ≡ res
unfolding digit_value digit_char
digit_value-char true res h = ground (arith, h)
digit_value-char false res h = ground (arith, h)

-- The number that `n` characters of a base give, from the left.
unfoldable pub value_at : (base : ℕ) (upper : Bool) (m : Memory) (ptr n : ℕ) → ℕ
value_at base upper m ptr zero = 0
value_at base upper m ptr (suc n) =
    value_at base upper m ptr n * base + digit_value upper (m (ptr + n))

-- The number of digits whose lowest is first.
unfoldable pub low_at : (base : ℕ) (upper : Bool) (m : Memory) (ptr n : ℕ) → ℕ
low_at base upper m ptr zero = 0
low_at base upper m ptr (suc n) = low_at base upper m (ptr + 1) n * base + digit_value upper (m ptr)

pub value_at-reversed :
    (base : ℕ) (upper : Bool) (m r : Memory) (from to n : ℕ)
    → ((i : ℕ) → i < n → r (to + i) ≡ m (from + (n - suc i)))
    → value_at base upper r to n ≡ low_at base upper m from n
unfolding value_at low_at
value_at-reversed base upper m r from to zero h = refl
value_at-reversed base upper m r from to (suc n) h =
    ap₂ (λ x y. x * base + digit_value upper y)
      (value_at-reversed base upper m r (from + 1) to n
        (λ i lt. h i (omega arith) ∙ ap m (omega (arith, lt))))
      (h n (omega arith) ∙ ap m (omega arith))

-- The digits lie at `ptr`, and nothing else has changed.
pub record Digits (base : ℕ) (upper : Bool) (num ptr n : ℕ) (m r : Memory) : Type 0 where
  pub value : low_at base upper r ptr n ≡ num
  pub others : (a : ℕ) → (a < ptr) ⊎ (ptr + n ≤ a) → r a ≡ m a
  pub none_for_zero : num ≡ 0 → n ≡ 0
  pub highest : num ≢ 0 → (0 < n) × (r (ptr + (n - 1)) ≢ 48)

pub data PutDigits (base : ℕ) (upper : Bool) (k num ptr : ℕ) (m : Memory)
    : Option (ℕ × Memory) → Type 0 where
  put :
      {n : ℕ} {r : Memory}
      → Digits base upper num ptr n m r
      → n ≤ k
      → PutDigits base upper k num ptr m (some (ptr + n, r))

not_zero_char : (upper : Bool) (res : ℕ) → res < 36 → digit_char upper res ≡ 48 → res ≡ 0
unfolding digit_char
not_zero_char true res h e = ground (arith, h, e)
not_zero_char false res h e = ground (arith, h, e)

smaller : (num base k : ℕ) → num < 2 ^ suc k → 2 ≤ base → num / base < 2 ^ k
smaller num base k h two =
    (div-lt_iff_lt-mul {k = base} {x = num} {y = 2 ^ k} (omega arith)).1
      (omega (arith, h, mul-le-mul_left (2 ^ k) two))

pub low_at-same :
    (base : ℕ) (upper : Bool) (m r : Memory) (ptr n : ℕ)
    → ((i : ℕ) → i < n → r (ptr + i) ≡ m (ptr + i))
    → low_at base upper r ptr n ≡ low_at base upper m ptr n
unfolding low_at
low_at-same base upper m r ptr zero h = refl
low_at-same base upper m r ptr (suc n) h =
    ap₂ (λ x y. x * base + digit_value upper y)
      (low_at-same base upper m r (ptr + 1) n (λ i lt.
        ap r {y = ptr + suc i} (omega arith) ∙ (h (suc i) (omega arith) ∙ ap m (omega arith))))
      (ap r {y = ptr + 0} (omega arith) ∙ (h 0 (omega arith) ∙ ap m (omega arith)))

nothing : (b : ℕ) → 0 * b + 0 ≡ 0
nothing b = omega arith

pub put_digits-PutDigits :
    (fuel k num base : ℕ) (upper : Bool) (ptr : ℕ) (m : Memory)
    → num < 2 ^ k
    → k < fuel
    → 2 ≤ base
    → base ≤ 36
    → PutDigits base upper k num ptr m (put_digits fuel num base upper ptr m)
unfolding put_digits low_at
put_digits-PutDigits zero k num base upper ptr m small enough two max_base = absurd (omega arith)
put_digits-PutDigits (suc fuel) k num base upper ptr m small enough two max_base =
    elim (Bool-cases (num == 0)) [
      | inl none_left ↦ rw none_left (
          subst (λ p. PutDigits base upper k num ptr m (some (p, m))) {x = ptr + 0} (omega arith)
            (put {n = 0}
              (record {
                value = ground (arith, none_left);
                others = λ a h. refl;
                none_for_zero = λ e. refl;
                highest = λ ne. absurd (ne (ground (arith, none_left)));
              })
              (omega arith)))
      | inr more ↦
          let pos : 0 < num = ground (arith, more) in
          let x = exponent k small pos in
          rw more (
            go pos x.0 x.1 (
              put_digits-PutDigits fuel x.0 (num / base) base upper (ptr + 1) m'
                (smaller num base x.0 x.2 two) (omega (arith, x.1, enough)) two max_base))
    ]
  where
    res : ℕ
    res = num % base

    in_base : res < base
    in_base = mod-lt num (omega (arith, two))

    m' : Memory
    m' = store m ptr (digit_char upper res)

    exponent : (k : ℕ) → num < 2 ^ k → 0 < num → (j : ℕ) × (k ≡ suc j) × (num < 2 ^ suc j)
    exponent zero h pos = absurd (omega arith)
    exponent (suc j) h pos = (j, refl, h)

    go :
        0 < num
        → (j : ℕ) → k ≡ suc j
        → {o : Option (ℕ × Memory)} → PutDigits base upper j (num / base) (ptr + 1) m' o
        → PutDigits base upper k num ptr m o
    go positive_num j less (put {n} {r} d at_most) =
        subst (λ p. PutDigits base upper k num ptr m (some (p, r))) {x = ptr + suc n} (omega arith)
          (put {n = suc n}
            (record {
              value =
                  ap₂ (λ x y. x * base + y) d.value
                    (ap (digit_value upper) at_ptr
                      ∙ digit_value-char upper res (omega (arith, in_base, max_base)))
                  ∙ div-add-mod' num base;
              others = λ a out.
                  d.others a (ground (arith, out))
                  ∙ store_other m ptr _ a (λ e. ground (arith, out, e));
              none_for_zero = λ e. absurd (omega (arith, e, positive_num));
              highest = λ ne. (omega arith, λ e. top ne (d.none_for_zero) d.highest e);
            })
            (omega (arith, less, at_most)))
      where
        at_ptr : r ptr ≡ digit_char upper res
        at_ptr = d.others ptr (inl (omega arith)) ∙ store_same m ptr (digit_char upper res) ptr refl

        top :
            num ≢ 0
            → (num / base ≡ 0 → n ≡ 0)
            → (num / base ≢ 0 → (0 < n) × (r (ptr + 1 + (n - 1)) ≢ 48))
            → r (ptr + (suc n - 1)) ≢ 48
        top ne last rest e = elim (Bool-cases (num / base == 0)) [
          | inl end ↦
              let q : num / base ≡ 0 = ground (arith, end) in
              ne (
                sym (div-add-mod' num base)
                ∙ ap₂ (λ x y. x * base + y) q
                    (not_zero_char upper res (omega (arith, in_base, max_base))
                      (sym at_ptr ∙ (ap r (omega (arith, last q)) ∙ e)))
                ∙ nothing base)
          | inr on ↦
              let q = rest (λ z. ground (arith, on, z)) in q.1 (ap r (omega (arith, q.0)) ∙ e)
        ]
