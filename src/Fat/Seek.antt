-- ===== src/Fat/Seek.antt =====
-- Where `fat32_lseek` (kernel/fat32.c) puts the position of a file.
use talios.Base.{
  ℕ, ◌+◌, ◌%◌, ◌^◌, ◌<◌, ◌≤◌, ◌≡◌, ltb, ◌==◌, if◌then◌else◌, arith, refl, Bool-cases, inl, inr,
}
use talios.Base.Word.{Ret, ok, err, einval, eoverflow}
use talios.Fat.{File, seek_to, fat32_lseek, int_word}

-- The place that an origin and an offset name, on 64 bits.
abbrev pub place : (offset origin : ℕ) → File → ℕ
place offset origin f =
    if origin == 0
    then offset
    else if origin == 1
    then (f.position + offset) % 2 ^ 64
    else (f.file_size + offset) % 2 ^ 64

pub data Sought (offset origin : ℕ) (f : File) : Ret × File → Type 0 where
  moved :
      origin < 3
      → place offset origin f ≤ f.file_size
      → Sought offset origin f
          (ok (int_word (place offset origin f)), record f { position = place offset origin f })
  beyond :
      origin < 3 → f.file_size < place offset origin f → Sought offset origin f (err eoverflow, f)
  unknown : 3 ≤ origin → Sought offset origin f (err einval, f)

seek_to-Sought :
    (offset origin : ℕ) (f : File)
    → origin < 3
    → Sought offset origin f (seek_to (place offset origin f) f)
unfolding seek_to
seek_to-Sought offset origin f h = elim (Bool-cases (ltb f.file_size (place offset origin f))) [
  | inl far ↦ rw far (beyond h (ground (arith, far)))
  | inr near ↦ rw near (moved h (ground (arith, near)))
]

-- `fat32_lseek` moves the position to the place that the origin and the offset name, within the file
-- or at its end, and returns it as an `int`; a place behind the end, also one that a negative offset
-- names in front of the file, gives -EOVERFLOW and an unknown origin -EINVAL, and the position stays.
pub fat32_lseek-Sought :
    (offset origin : ℕ) (f : File) → Sought offset origin f (fat32_lseek offset origin f)
unfolding fat32_lseek
fat32_lseek-Sought offset origin f = elim (Bool-cases (origin == 0)) [
  | inl set ↦ at_place (rw set refl) (ground (arith, set))
  | inr a ↦ elim (Bool-cases (origin == 1)) [
    | inl cur ↦ at_place (rw (a, cur) refl) (ground (arith, cur))
    | inr b ↦ elim (Bool-cases (origin == 2)) [
      | inl end ↦ at_place (rw (a, b, end) refl) (ground (arith, end))
      | inr c ↦ rw (a, b, c) (unknown (ground (arith, a, b, c)))
    ]
  ]
]
  where
    at_place :
        fat32_lseek offset origin f ≡ seek_to (place offset origin f) f
        → origin < 3
        → Sought offset origin f (fat32_lseek offset origin f)
    at_place e h = rw e (seek_to-Sought offset origin f h)
