-- ===== src/Strings/Tests.antt =====
-- The functions of kernel/lib.c on a memory with two strings, and the theorems at it.
use talios.Base.{
  ℕ, ◌≡◌, ◌^◌, ◌-◌, refl, arith, none, List, [], ◌∷◌, ◌==◌, if◌then◌else◌, Option, some, false,
}
use talios.Strings.Digits.{num_to_string}
use talios.Strings.{Memory, memcopy}
use talios.Strings.Copy.{IsCopied, memcopy-IsCopied}
use talios.Strings.Laws.{IsString}

-- "ls" at 16
abbrev memory : Memory
memory p = if p == 16 then 108 else if p == 17 then 115 else 0

abbrev ls : List ℕ
ls = 108 ∷ 115 ∷ []

ls-IsString : IsString memory 16 ls
ls-IsString = ((λ e. omega arith), refl, ((λ e. omega arith), refl, refl))

overlapping : memcopy 16 17 2 memory 18 ≡ 115
unfolding memcopy
overlapping = refl

memcopy-IsCopied_example : IsCopied 16 17 2 memory (memcopy 16 17 2 memory)
memcopy-IsCopied_example = memcopy-IsCopied 16 17 2 memory

-- -5 in base 10: the sign and the digits of 2 ^ 64 - 5, 21 characters.
abbrev minus_five : Option (ℕ × Memory)
minus_five = num_to_string 68 100 (2 ^ 64 - 5) 10 false (λ a. 0)

abbrev text_of : Option (ℕ × Memory) → ℕ × ℕ × ℕ × ℕ
text_of none = (0, 0, 0, 0)
text_of (some (l, m)) = (l, m 100, m 101, m 102)

num_to_string-minus_five : text_of minus_five ≡ (21, 45, 49, 56)
unfolding num_to_string
num_to_string-minus_five = refl
