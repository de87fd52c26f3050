-- ===== src/Strings.antt =====
-- Memory and strings of the kernel: kernel/lib.c. Memory gives the byte at each address. A loop
-- that the code does not bound runs on fuel, and `none` says that the fuel is not enough.
pub mod Copy
pub mod Laws
pub mod Reverse
pub mod Digits
pub mod Numbers
pub mod Printed
mod Tests
use talios.Base.{
  ℕ, zero, suc, ◌+◌, ◌-◌, ◌*◌, ◌%◌, ◌^◌, Bool, ◌||◌, ◌&&◌, Option, none, some, ltb, leb, ◌==◌,
  if◌then◌else◌,
}

abbrev pub Memory : Type 0
Memory = ℕ → ℕ

abbrev pub store : Memory → ℕ → ℕ → Memory
store m p v a = if a == p then v else m a

-- `memset`: the loop from `src` on.
pub memset : (src num n : ℕ) → Memory → Memory
memset src num zero m = m
memset src num (suc n) m = memset (src + 1) num n (store m src num)

-- `while (n--) *(dst++) = *(src++)`
unfoldable pub copy_up : (src dst n : ℕ) → Memory → Memory
copy_up src dst zero m = m
copy_up src dst (suc n) m = copy_up (src + 1) (dst + 1) n (store m dst (m src))

-- `while (n--) *(dst--) = *(src--)`, with the pointers at the n-th byte from `src` and `dst`.
unfoldable pub copy_down : (src dst n : ℕ) → Memory → Memory
copy_down src dst zero m = m
copy_down src dst (suc n) m = copy_down src dst n (store m (dst + n) (m (src + n)))

unfoldable pub is_backcopy : (src dst n : ℕ) → Bool
is_backcopy src dst n = ltb src dst && ltb dst (src + n)

pub memcopy : (src dst n : ℕ) → Memory → Memory
unfolding copy_up copy_down is_backcopy
memcopy src dst n m = if is_backcopy src dst n then copy_down src dst n m else copy_up src dst n m

pub string_copy : (fuel src dst : ℕ) → Memory → Option Memory
string_copy zero src dst m = none
string_copy (suc fuel) src dst m =
    let rest = string_copy fuel (src + 1) (dst + 1) (store m dst (m src)) in
    if m src == 0 then some (store m dst 0) else rest

-- The loop of `StringNCopy` and its last line, with `n` bytes of room left.
pub string_n_copy : (src dst n : ℕ) → Memory → Memory
string_n_copy src dst zero m = m
string_n_copy src dst (suc n) m =
    let rest = string_n_copy (src + 1) (dst + 1) n (store m dst (m src)) in
    if m src == 0 then store m dst 0 else rest

-- `Ptr - Str` at the end, where `len` bytes are behind.
unfoldable pub len_from : (fuel ptr len : ℕ) → Memory → Option ℕ
len_from zero ptr len m = none
len_from (suc fuel) ptr len m =
    let rest = len_from fuel (ptr + 1) (len + 1) m in if m ptr == 0 then some len else rest

pub string_len : (fuel str : ℕ) → Memory → Option ℕ
unfolding len_from
string_len fuel str m = len_from fuel str 0 m

-- The two bytes whose difference `strcmp` returns.
pub strcmp : (fuel str1 str2 : ℕ) → Memory → Option (ℕ × ℕ)
strcmp zero str1 str2 m = none
strcmp (suc fuel) str1 str2 m =
    let rest = strcmp fuel (str1 + 1) (str2 + 1) m in
    if m str1 == 0 || m str2 == 0
    then some (m str1, m str2)
    else if m str1 == m str2
    then rest
    else some (m str1, m str2)

-- is_char
unfoldable pub is_char : ℕ → Bool
is_char c = (leb 97 c && leb c 122) || (leb 65 c && leb c 90)

unfoldable pub upper : ℕ → ℕ
unfolding is_char
upper c = if is_char c && leb 97 c then c - 32 else c

unfoldable pub lower : ℕ → ℕ
unfolding is_char
lower c = if is_char c && leb c 90 then c + 32 else c

-- `upper_case` and `lower_case`: the loop, with the change that it makes to a byte.
unfoldable pub each_char : (ℕ → ℕ) → (fuel str : ℕ) → Memory → Option Memory
each_char f zero str m = none
each_char f (suc fuel) str m =
    let rest = each_char f fuel (str + 1) (store m str (f (m str))) in
    if m str == 0 then some m else rest

pub upper_case : (fuel str : ℕ) → Memory → Option Memory
unfolding each_char upper
upper_case = each_char upper

pub lower_case : (fuel str : ℕ) → Memory → Option Memory
unfolding each_char lower
lower_case = each_char lower

-- SwitchMem
unfoldable pub switch_mem : (ptr1 ptr2 : ℕ) → Memory → Memory
switch_mem ptr1 ptr2 m = store (store m ptr1 (m ptr2)) ptr2 (m ptr1)

-- The loop of `StringReverse`, which ends where the pointers meet. They are 64 bits wide.
unfoldable pub reverse_from : (fuel head tail : ℕ) → Memory → Option Memory
unfolding switch_mem
reverse_from zero head tail m = none
reverse_from (suc fuel) head tail m =
    let rest =
      reverse_from fuel ((head + 1) % 2 ^ 64) ((tail + 2 ^ 64 - 1) % 2 ^ 64)
        (switch_mem head tail m) in
    if tail == head then some m else rest

unfoldable pub reverse_of : (fuel str : ℕ) → Memory → Option ℕ → Option Memory
unfolding reverse_from
reverse_of fuel str m none = none
reverse_of fuel str m (some len) = reverse_from fuel str ((len + 2 ^ 64 - 1 + str) % 2 ^ 64) m

pub string_reverse : (fuel str : ℕ) → Memory → Option Memory
unfolding reverse_of
string_reverse fuel str m = reverse_of fuel str m (string_len fuel str m)
