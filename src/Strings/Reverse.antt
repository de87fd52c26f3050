-- ===== src/Strings/Reverse.antt =====
-- `StringReverse` (kernel/lib.c) on a string of even length: its pointers pass each other.
use talios.Base.{
  ℕ, zero, suc, ◌+◌, ◌-◌, ◌%◌, ◌^◌, ◌<◌, ◌≡◌, false, none, List, ◌==◌, arith, refl, length,
}
use talios.Strings.{Memory, switch_mem, reverse_from, reverse_of, string_reverse}
use talios.Strings.Laws.{IsString, string_len-IsString}

-- Pointers of different parity never meet.
reverse_from-apart :
    (f head tail : ℕ) (m : Memory) → (head + tail) % 2 ≡ 1 → reverse_from f head tail m ≡ none
unfolding reverse_from
reverse_from-apart zero head tail m h = refl
reverse_from-apart (suc f) head tail m h =
    rw (test, reverse_from)
      (reverse_from-apart f ((head + 1) % 2 ^ 64) ((tail + 2 ^ 64 - 1) % 2 ^ 64)
        (switch_mem head tail m) (omega arith))
  where
    test : (tail == head) ≡ false
    test = ground arith

-- `StringReverse` does not return on a string of even length, the empty one included: no number of
-- steps is enough.
pub string_reverse-stuck :
    (f str : ℕ) (m : Memory) (xs : List ℕ)
    → IsString m str xs
    → length xs % 2 ≡ 0
    → length xs < f
    → string_reverse f str m ≡ none
unfolding string_reverse reverse_of
string_reverse-stuck f str m xs s even h =
    rw (string_len-IsString f str m xs s h, reverse_of)
      (reverse_from-apart f str ((length xs + 2 ^ 64 - 1 + str) % 2 ^ 64) m (omega arith))
