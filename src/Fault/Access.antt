-- ===== src/Fault/Access.antt =====
-- The access of a page fault and the flags of its page, by the bits of the error code and of the area
-- (kernel/memory.c).
use talios.Base.{ℕ, ◌≡◌, ◌<◌, ◌⊎◌, true, false, Bool-cases, inl, inr, refl, arith, bit_and, some}
use talios.Pages.{is_present, not_page_size}
use talios.Vma.{Vma}
use talios.Mmap.{has, prot_write}
use talios.Fault.{page_fault_access_allowed, pte_flags}

-- The two sets of flags that a page of a process has.
abbrev pub IsUser : ℕ → Type 0
IsUser flags = (flags ≡ 5) ⊎ (flags ≡ 7)

pub user_below : {flags : ℕ} → IsUser flags → flags < 4096
user_below h = ground (arith, h)

pub user_present : {flags : ℕ} → IsUser flags → is_present flags ≡ true
user_present (inl e) = rw e refl
user_present (inr e) = rw e refl

pub user_flags : {flags : ℕ} → IsUser flags → bit_and flags not_page_size ≡ flags
user_flags (inl e) = rw e refl
user_flags (inr e) = rw e refl

pub pte_flags-IsUser : (vma : Vma) → IsUser (pte_flags vma)
pte_flags-IsUser vma = elim (Bool-cases (has vma.prot prot_write)) [
  | inl write ↦ rw write (inr refl)
  | inr read ↦ rw read (inl refl)
]

-- The access that the error code says, a write before a fetch before a read: PROT_WRITE, PROT_EXEC
-- and PROT_READ are 2, 4 and 1.
pub data IsAccess (e : ℕ) : (prot : ℕ) → Type 0 where
  to_write : has e 2 ≡ true → IsAccess e 2
  to_fetch : has e 2 ≡ false → has e 16 ≡ true → IsAccess e 4
  to_read : has e 2 ≡ false → has e 16 ≡ false → IsAccess e 1

-- The low bits of the word: 7 with PROT_WRITE, 5 without.
pub data IsWord (vma : Vma) : (flags : ℕ) → Type 0 where
  writable : has vma.prot 2 ≡ true → IsWord vma 7
  read_only : has vma.prot 2 ≡ false → IsWord vma 5

pub pte_flags-IsWord : (vma : Vma) → IsWord vma (pte_flags vma)
pte_flags-IsWord vma = elim (Bool-cases (has vma.prot prot_write)) [
  | inl write ↦ rw write (writable write)
  | inr read ↦ rw read (read_only read)
]

pub page_fault_access_allowed-IsAccess :
    (vma : Vma) (e : ℕ)
    → (prot : ℕ) × IsAccess e prot × (page_fault_access_allowed (some vma) e ≡ has vma.prot prot)
unfolding page_fault_access_allowed
page_fault_access_allowed-IsAccess vma e = elim (Bool-cases (has e 2)) [
  | inl write ↦ rw write (2, to_write write, refl)
  | inr no_write ↦ elim (Bool-cases (has e 16)) [
    | inl fetch ↦ rw (no_write, fetch) (4, to_fetch no_write fetch, refl)
    | inr no_fetch ↦ rw (no_write, no_fetch) (1, to_read no_write no_fetch, refl)
  ]
]
