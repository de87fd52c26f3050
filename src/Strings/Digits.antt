-- ===== src/Strings/Digits.antt =====
-- `NumToString` of kernel/lib.c. A `long` is its word of 64 bits, which `DoDiv` divides as unsigned.
use talios.Base.{
  ℕ, zero, suc, ◌+◌, ◌-◌, ◌/◌, ◌%◌, ◌^◌, Bool, ◌&&◌, Option, none, some, ltb, leb, ◌==◌,
  if◌then◌else◌,
}
use talios.Strings.{Memory, store, switch_mem}

-- The character of a remainder, as a `char`.
unfoldable pub digit_char : (upper : Bool) (res : ℕ) → ℕ
digit_char upper res =
    if ltb 9 res then (if upper then res - 10 + 65 else res - 10 + 97) % 256 else res + 48

-- `while(Num)`: the digits, the lowest first; `Ptr` and memory behind them. Without fuel it is `none`.
unfoldable pub put_digits :
    (fuel num base : ℕ) (upper : Bool) (ptr : ℕ) → Memory → Option (ℕ × Memory)
unfolding digit_char
put_digits zero num base upper ptr m = none
put_digits (suc fuel) num base upper ptr m =
    let rest =
      put_digits fuel (num / base) base upper (ptr + 1)
        (store m ptr (digit_char upper (num % base))) in
    if num == 0 then some (ptr, m) else rest

-- `while(HeadPtr < TailPtr)`
unfoldable pub reverse_between : (fuel head tail : ℕ) → Memory → Option Memory
unfolding switch_mem
reverse_between zero head tail m = none
reverse_between (suc fuel) head tail m =
    let rest = reverse_between fuel (head + 1) (tail - 1) (switch_mem head tail m) in
    if ltb head tail then rest else some m

-- IsMinus: `Num < 0 && (base == 10)`
unfoldable pub is_minus : (num base : ℕ) → Bool
is_minus num base = leb (2 ^ 63) num && base == 10

-- The sign, and the `x` and `0` of base 16.
unfoldable pub put_prefix : (num base ptr : ℕ) → Memory → ℕ × Memory
unfolding is_minus
put_prefix num base ptr m =
    let signed = if is_minus num base then (ptr + 1, store m ptr 45) else (ptr, m) in
    if base == 16
    then (signed.0 + 2, store (store signed.1 signed.0 120) (signed.0 + 1) 48)
    else signed

-- The lines from the reversal on; the reversed text gets its end at `ptr`.
unfoldable pub put_end : (buffer ptr : ℕ) → Option Memory → Option (ℕ × Memory)
put_end buffer ptr none = none
put_end buffer ptr (some m) = some (ptr - buffer, store m ptr 0)

unfoldable pub finish_number :
    (fuel buffer num base : ℕ) → Option (ℕ × Memory) → Option (ℕ × Memory)
unfolding put_prefix put_end reverse_between
finish_number fuel buffer num base none = none
finish_number fuel buffer num base (some (ptr, m)) =
    let p = put_prefix num base ptr m in
    put_end buffer p.0 (reverse_between fuel buffer (p.0 - 1) p.1)

-- The length of the text and memory.
unfoldable pub num_to_string :
    (fuel buffer num base : ℕ) (upper : Bool) → Memory → Option (ℕ × Memory)
unfolding put_digits finish_number
num_to_string fuel buffer num base upper m = finish_number fuel buffer num base (
    if num == 0
    then put_digits fuel num base upper (buffer + 1) (store m buffer 48)
    else put_digits fuel num base upper buffer m)
