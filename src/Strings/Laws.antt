-- ===== src/Strings/Laws.antt =====
-- The string functions of kernel/lib.c on memory that holds a string.
use talios.Base.{
  ℕ, zero, suc, ◌+◌, ◌≤◌, ◌<◌, ◌≡◌, ◌≢◌, ◌⊎◌, inl, false, Option, some, List, [], ◌∷◌, ◌==◌, arith,
  refl, ap, ◌∙◌, length, map,
}
use talios.Strings.{
  Memory, store, string_copy, len_from, string_len, is_char, upper, each_char, upper_case,
}
use talios.Strings.Copy.{store_same, store_other}

-- `m` holds the string `xs` at `p`, with its end.
abbrev pub IsString : Memory → ℕ → List ℕ → Type 0
IsString m p [] = m p ≡ 0
IsString m p (x ∷ xs) = (x ≢ 0) × (m p ≡ x) × IsString m (p + 1) xs

-- The two memories agree outside of the `n` bytes from `p` on.
abbrev pub AgreeBut : ℕ → ℕ → Memory → Memory → Type 0
AgreeBut p n m r = (a : ℕ) → (a < p) ⊎ (p + n ≤ a) → r a ≡ m a

len_from-IsString :
    (f p len : ℕ) (m : Memory) (xs : List ℕ)
    → IsString m p xs
    → length xs < f
    → len_from f p len m ≡ some (len + length xs)
unfolding len_from
len_from-IsString zero p len m xs s h = absurd (omega arith)
len_from-IsString (suc f) p len m [] s h = rw s (ap some (omega arith))
len_from-IsString (suc f) p len m (x ∷ xs) (ne, e, s) h =
    rw (test, len_from)
      (len_from-IsString f (p + 1) (len + 1) m xs s (omega arith) ∙ ap some (omega arith))
  where
    test : (m p == 0) ≡ false
    test = ground arith

-- `StringLen` returns the length of the string, given fuel for one step more than that.
pub string_len-IsString :
    (f p : ℕ) (m : Memory) (xs : List ℕ)
    → IsString m p xs
    → length xs < f
    → string_len f p m ≡ some (length xs)
unfolding string_len
string_len-IsString f p m xs s h = len_from-IsString f p 0 m xs s h ∙ ap some (omega arith)

-- A write elsewhere leaves a string.
IsString-store :
    (m : Memory) (q v p : ℕ) (xs : List ℕ)
    → (q < p) ⊎ (p + length xs < q)
    → IsString m p xs
    → IsString (store m q v) p xs
IsString-store m q v p [] h s = store_other m q v p (λ e. ground arith) ∙ s
IsString-store m q v p (x ∷ xs) h (ne, e, s) = (
  ne,
  store_other m q v p (λ e. ground arith) ∙ e,
  IsString-store m q v (p + 1) xs (ground arith) s,
)

-- A copy of `xs` at `dst`, and memory as before around it.
pub data CopyOf (dst : ℕ) (xs : List ℕ) (m : Memory) : Option Memory → Type 0 where
  copy_of :
      {r : Memory} → IsString r dst xs → AgreeBut dst (length xs + 1) m r → CopyOf dst xs m (some r)

CopyOf-step :
    (dst x : ℕ) (xs : List ℕ) (m : Memory) {o : Option Memory}
    → x ≢ 0
    → CopyOf (dst + 1) xs (store m dst x) o
    → CopyOf dst (x ∷ xs) m o
CopyOf-step dst x xs m ne (copy_of {r} s agree) =
    copy_of (ne, agree dst (inl (omega arith)) ∙ store_same m dst x dst refl, s)
      (λ a h. agree a (ground arith) ∙ store_other m dst x a (λ e. ground arith))

-- `StringCopy` copies a string with its end to a place that starts in front of it or behind it, and
-- changes no other byte. Fuel for one step more than its length is enough.
pub string_copy-CopyOf :
    (f src dst : ℕ) (m : Memory) (xs : List ℕ)
    → IsString m src xs
    → (dst < src) ⊎ (src + length xs < dst)
    → length xs < f
    → CopyOf dst xs m (string_copy f src dst m)
unfolding string_copy
string_copy-CopyOf zero src dst m xs s apart h = absurd (omega arith)
string_copy-CopyOf (suc f) src dst m [] s apart h =
    rw s
      (copy_of (store_same m dst 0 dst refl) (λ a out. store_other m dst 0 a (λ e. ground arith)))
string_copy-CopyOf (suc f) src dst m (x ∷ xs) (ne, e, s) apart h =
    rw (test, string_copy)
      (rw e (
        CopyOf-step dst x xs m ne (
          string_copy-CopyOf f (src + 1) (dst + 1) (store m dst x) xs
            (IsString-store m dst x (src + 1) xs (ground arith) s) (ground arith) (omega arith))))
  where
    test : (m src == 0) ≡ false
    test = ground arith

upper-zero : (x : ℕ) → x ≢ 0 → upper x ≢ 0
unfolding upper is_char
upper-zero x h = ground arith

-- The same string with each byte changed, in place.
upper-step :
    (p x : ℕ) (xs : List ℕ) (m : Memory) {o : Option Memory}
    → x ≢ 0
    → CopyOf (p + 1) (map upper xs) (store m p (upper x)) o
    → CopyOf p (upper x ∷ map upper xs) m o
upper-step p x xs m ne c = CopyOf-step p (upper x) (map upper xs) m (upper-zero x ne) c

each_char-upper :
    (f p : ℕ) (m : Memory) (xs : List ℕ)
    → IsString m p xs
    → length xs < f
    → CopyOf p (map upper xs) m (each_char upper f p m)
unfolding each_char
each_char-upper zero p m xs s h = absurd (omega arith)
each_char-upper (suc f) p m [] s h = rw s (copy_of s (λ a out. refl))
each_char-upper (suc f) p m (x ∷ xs) (ne, e, s) h =
    rw (test, each_char)
      (rw e (
        upper-step p x xs m ne (
          each_char-upper f (p + 1) (store m p (upper x)) xs
            (IsString-store m p (upper x) (p + 1) xs (inl (omega arith)) s) (omega arith))))
  where
    test : (m p == 0) ≡ false
    test = ground arith

-- `upper_case` turns the small letters of a string into capitals in place, keeps its length and its
-- other bytes, and changes nothing outside of it.
pub upper_case-CopyOf :
    (f p : ℕ) (m : Memory) (xs : List ℕ)
    → IsString m p xs
    → length xs < f
    → CopyOf p (map upper xs) m (upper_case f p m)
unfolding upper_case
upper_case-CopyOf f p m xs s h = each_char-upper f p m xs s h
