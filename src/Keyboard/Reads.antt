-- ===== src/Keyboard/Reads.antt =====
-- The decoder of user/keyboard.c returns, and how many codes it takes.
use talios.Base.{
  ℕ, suc, ◌+◌, ◌%◌, ◌≤◌, ◌≡◌, inl, inr, Bool, true, false, Option, some, List, [], ◌∷◌, ◌==◌,
  if◌then◌else◌, arith, refl, ap, length, Bool-cases,
}
use talios.Keyboard.{
  Keyboard, code_of, get_scan_code, ◌>>=◌, match_pause, pause_key, pause_break_code,
  print_screen_key, print_screen_end, is_extended, extended_key, plain_key, or_plain, dispatch,
  analyze_key_code,
}

-- An answer that took at most `n` codes.
pub data Reads {A : Type 0} (n : ℕ) (k : Keyboard) : Option (A × Keyboard) → Type 0 where
  reads :
      {a : A} {k' : Keyboard}
      → length k.input ≤ length k'.input + n
      → length k'.input ≤ length k.input
      → Reads n k (some (a, k'))

module _ {A B : Type 0} where
  Reads-bind :
      (m n : ℕ) (k : Keyboard) {r : Option (A × Keyboard)}
      (f : A × Keyboard → Option (B × Keyboard))
      → Reads m k r
      → ((a : A) (k' : Keyboard) → length k.input ≤ length k'.input + m → Reads n k' (f (a, k')))
      → Reads (m + n) k (r >>= f)
  Reads-bind m n k f (reads {a} {k'} low high) next = go (next a k' low)
    where
      go : {r : Option (B × Keyboard)} → Reads n k' r → Reads (m + n) k r
      go (reads {k' = k''} l h) = reads {k' = k''} (omega arith) (omega arith)

module _ {A : Type 0} where
  Reads-mono :
      (m n : ℕ) (k : Keyboard) {r : Option (A × Keyboard)} → m ≤ n → Reads m k r → Reads n k r
  Reads-mono m n k h (reads {k' = k'} l u) = reads {k' = k'} (omega arith) u

  Reads-if :
      (n : ℕ) (k : Keyboard) (b : Bool) {r s : Option (A × Keyboard)}
      → Reads n k r
      → Reads n k s
      → Reads n k (if b then r else s)
  Reads-if n k true p q = p
  Reads-if n k false p q = q

  Reads-done : (n : ℕ) (k k' : Keyboard) (a : A) → k'.input ≡ k.input → Reads n k (some (a, k'))
  Reads-done n k k' a e =
      reads {k' = k'} (omega (arith, ap (length {0}) e)) (omega (arith, ap (length {0}) e))

code_of-Reads :
    (k : Keyboard) (xs : List ℕ) → k.input ≡ xs → 1 ≤ length xs → Reads 1 k (code_of xs k)
unfolding code_of
code_of-Reads k [] e h = absurd (omega arith)
code_of-Reads k (x ∷ xs) e h = rest (ap length e)
  where
    rest : length k.input ≡ suc (length xs) → Reads 1 k (some (x, record k { input = xs }))
    rest p = reads {k' = record k { input = xs }} (omega arith) (omega arith)

get_scan_code-Reads : (k : Keyboard) → 1 ≤ length k.input → Reads 1 k (get_scan_code k)
unfolding get_scan_code
get_scan_code-Reads k h = code_of-Reads k k.input refl h

match_pause-Reads :
    (cs : List ℕ) (k : Keyboard)
    → length cs ≤ length k.input
    → Reads (length cs) k (match_pause cs k)
unfolding match_pause
match_pause-Reads [] k h = Reads-done 0 k k true refl
match_pause-Reads (c ∷ cs) k h = Reads-mono (1 + length cs) (suc (length cs)) k (omega arith) (
    Reads-bind 1 (length cs) k _ (get_scan_code-Reads k (omega arith)) (λ y k' low.
      elim (Bool-cases (y == c)) [
        | inl same ↦ rw same (match_pause-Reads cs k' (omega arith))
        | inr other ↦ rw other (Reads-done (length cs) k' k' false refl)
      ]))

pause_key-Reads : (k : Keyboard) → 5 ≤ length k.input → Reads 5 k (pause_key k)
unfolding pause_key
pause_key-Reads k h =
    Reads-bind 5 0 k _ (match_pause-Reads pause_break_code k h)
      (λ b k' low. Reads-done 0 k' k' _ refl)

print_screen_key-Reads : (k : Keyboard) → 2 ≤ length k.input → Reads 2 k (print_screen_key k)
unfolding print_screen_key print_screen_end
print_screen_key-Reads k h = Reads-bind 1 1 k _ (get_scan_code-Reads k (omega arith)) (λ y k' low.
    elim (Bool-cases (y == 0xe0)) [
      | inl fake ↦ rw fake (
          Reads-bind 1 0 k' _ (get_scan_code-Reads k' (omega arith))
            (λ z k'' l. Reads-done 0 k'' k'' _ refl))
      | inr other ↦ rw other (Reads-done 1 k' k' 0 refl)
    ])

extended_key-Reads : (x : ℕ) (k : Keyboard) → 2 ≤ length k.input → Reads 2 k (extended_key x k)
unfolding extended_key
extended_key-Reads x k h = Reads-if 2 k (x % 128 == 0x2a) (print_screen_key-Reads k h) (
    Reads-if 2 k (x % 128 == 0x1d) (Reads-done 2 k _ _ refl) (
      Reads-if 2 k (x % 128 == 0x38) (Reads-done 2 k _ _ refl)
        (Reads-if 2 k (is_extended (x % 128)) (Reads-done 2 k _ _ refl) (Reads-done 2 k k _ refl))))

plain_key-Reads : (x : ℕ) (k : Keyboard) → 1 ≤ length k.input → Reads 1 k (plain_key x k)
unfolding plain_key
plain_key-Reads x k h = Reads-if 1 k (x % 128 == 0x01) (same _) (
    Reads-if 1 k (x % 128 == 0x0e) (same _) (
      Reads-if 1 k (x % 128 == 0x0f) (same _) (
        Reads-if 1 k (x % 128 == 0x1c)
          (Reads-bind 1 0 k _ (get_scan_code-Reads k h) (λ y k' l. Reads-done 0 k' k' _ refl))
          (Reads-if 1 k (x % 128 == 0x2a) (Reads-done 1 k _ _ refl) (
            Reads-if 1 k (x % 128 == 0x1d) (Reads-done 1 k _ _ refl) (
              Reads-if 1 k (x % 128 == 0x38) (Reads-done 1 k _ _ refl) (
                Reads-if 1 k (x % 128 == 0x36) (Reads-done 1 k _ _ refl)
                  (Reads-if 1 k (x % 128 == 0x3a) (Reads-done 1 k _ _ refl) (same _)))))))))
  where
    same : (key : ℕ) → Reads 1 k (some (key, k))
    same key = Reads-done 1 k k key refl

or_plain-Reads : (x key : ℕ) (k : Keyboard) → 1 ≤ length k.input → Reads 1 k (or_plain x (key, k))
unfolding or_plain
or_plain-Reads x key k h =
    Reads-if 1 k (key == 0) (plain_key-Reads x k h) (Reads-done 1 k k key refl)

dispatch-Reads : (x : ℕ) (k : Keyboard) → 6 ≤ length k.input → Reads 6 k (dispatch x k)
unfolding dispatch
dispatch-Reads x k h =
    Reads-if 6 k (x == 0xe1)
      (Reads-bind 5 1 k _ (pause_key-Reads k (omega arith))
        (λ key k' l. or_plain-Reads x key k' (omega arith)))
      (Reads-if 6 k (x == 0xe0)
        (Reads-mono 4 6 k (omega arith) (
          Reads-bind 1 3 k _ (get_scan_code-Reads k (omega arith)) (λ y k' l.
            Reads-bind 2 1 k' _ (extended_key-Reads y k' (omega arith))
              (λ key k'' l'. or_plain-Reads y key k'' (omega arith)))))
        (Reads-mono 1 6 k (omega arith) (or_plain-Reads x 0 k (omega arith))))

-- With seven codes at hand the decoder never waits: it returns a key, after at most seven codes.
pub analyze_key_code-Reads : (k : Keyboard) → 7 ≤ length k.input → Reads 7 k (analyze_key_code k)
unfolding analyze_key_code
analyze_key_code-Reads k h =
    Reads-bind 1 6 k _ (get_scan_code-Reads k (omega arith))
      (λ x k' l. dispatch-Reads x k' (omega arith))
