-- ===== src/Base/Word.antt =====
-- 64-bit words (`unsigned long`), page alignment (kernel/memory.h) and the error numbers that the
-- modelled code returns (kernel/errno.h).
use Prim.Native.Nat.{ℕ, ◌+◌, ◌-◌, ◌*◌, ◌/◌, ◌%◌, ◌^◌}

abbrev pub word_mod : ℕ
word_mod = 2 ^ 64

-- PAGE_4K_SIZE
abbrev pub page_size : ℕ
page_size = 4096

-- PAGE_4K_ALIGN_DOWN: `addr & PAGE_4K_MASK` clears the low twelve bits.
abbrev pub page_align_down : ℕ → ℕ
page_align_down addr = addr / 4096 * 4096

-- PAGE_4K_ALIGN_UP: the sum wraps at 64 bits before the mask.
abbrev pub page_align_up : ℕ → ℕ
page_align_up addr = (addr + 4095) % 2 ^ 64 / 4096 * 4096

-- `(unsigned long)-e`
abbrev pub neg_errno : ℕ → ℕ
neg_errno e = 2 ^ 64 - e

-- A returned `int` or `long`: a value that is not negative, or a negated error number.
pub data Ret : Type 0 where
  ok : ℕ → Ret
  err : ℕ → Ret

-- The cast of such an `int` to `unsigned long`.
abbrev pub ret_word : Ret → ℕ
ret_word (ok n) = n
ret_word (err e) = neg_errno e

-- The error numbers.
abbrev pub enoent : ℕ
enoent = 2

abbrev pub eio : ℕ
eio = 5

abbrev pub ebadf : ℕ
ebadf = 9

abbrev pub enomem : ℕ
enomem = 12

abbrev pub eacces : ℕ
eacces = 13

abbrev pub efault : ℕ
efault = 14

abbrev pub eexist : ℕ
eexist = 17

abbrev pub einval : ℕ
einval = 22

abbrev pub enospc : ℕ
enospc = 28

abbrev pub eoverflow : ℕ
eoverflow = 75

abbrev pub eopnotsupp : ℕ
eopnotsupp = 95
