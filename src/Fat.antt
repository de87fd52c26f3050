-- ===== src/Fat.antt =====
-- FAT32: the allocation table, reading, writing and seeking of kernel/fat32.c. The disk is a parameter, with
-- what `ide_transfer` of kernel/disk.c reads and writes when the controller serves its requests; its
-- result is always 1. kmalloc of the buffers is taken to succeed.
pub mod Table
pub mod Read
pub mod Seek
pub mod Write
pub mod Saved
pub mod Lost
pub mod Again
mod Tests
use talios.Base.{
  ℕ, zero, suc, ◌+◌, ◌-◌, ◌*◌, ◌/◌, ◌%◌, ◌^◌, ◌<◌, ◌≤◌, ◌≡◌, ◌⊎◌, min, Bool, ◌||◌, Option, none,
  some, ltb, leb, ◌==◌, if◌then◌else◌,
}
use talios.Base.Word.{Ret, ok, err, einval, eoverflow}
use talios.Strings.{Memory, store}

-- The transfers of `count` sectors of 512 bytes from the sector `lba` on, from and to a buffer.
pub record Device : Type 1 where
  pub Disk : Type 0
  pub read : (lba count : ℕ) → Disk → ℕ → ℕ
  pub write : (lba count : ℕ) → (ℕ → ℕ) → Disk → Disk

-- What a disk reads, and keeps of a write. Of a write of several sectors only their places are known:
-- `cmd_out` sends the bytes of the first sector, and `write_handler` sends no others.
pub record DeviceLaws (D : Device) : Type 1 where
  pub sector : ℕ → D.Disk → ℕ → ℕ
  pub read_lem :
      (lba count j : ℕ) (d : D.Disk)
      → j < 512 * count
      → D.read lba count d j ≡ sector (lba + j / 512) d (j % 512)
  pub written :
      (lba j : ℕ) (bytes : ℕ → ℕ) (d : D.Disk)
      → j < 512
      → sector lba (D.write lba 1 bytes d) j ≡ bytes j
  pub kept :
      (lba count s j : ℕ) (bytes : ℕ → ℕ) (d : D.Disk)
      → (s < lba) ⊎ (lba + count ≤ s)
      → sector s (D.write lba count bytes d) j ≡ sector s d j

-- The fields of `FAT32_sb_info` that these operations use.
pub record Sb : Type 0 where
  pub byte_per_sec : ℕ
  pub fat1_start_sector : ℕ
  pub fst_data_sector : ℕ
  pub byte_per_clus : ℕ
  pub sec_per_fat : ℕ
  pub sec_per_clus : ℕ

-- CLUS_TO_LBA on 64 bits
abbrev pub clus_to_lba : Sb → (clus : ℕ) → ℕ
clus_to_lba sb clus = (sb.fst_data_sector + (clus + 2 ^ 64 - 2) % 2 ^ 64 * sb.sec_per_clus) % 2 ^ 64

-- The word of 32 bits at the place `k` of an array in the bytes of a buffer, and the store of one.
abbrev pub word_at : (ℕ → ℕ) → ℕ → ℕ
word_at bytes k =
    bytes (4 * k)
    + 256 * bytes (4 * k + 1)
    + 65536 * bytes (4 * k + 2)
    + 16777216 * bytes (4 * k + 3)

abbrev pub store_word : (ℕ → ℕ) → (k v : ℕ) → ℕ → ℕ
store_word bytes k v j = if j / 4 == k then v / 256 ^ (j % 4) % 256 else bytes j

abbrev pub per_sector : Sb → ℕ
per_sector sb = sb.byte_per_sec / 2 ^ 2

-- TASK_SIZE, and the bound of `verify_area`
abbrev pub task_size : ℕ
task_size = 0x7fffffffffff

unfoldable pub verify_area : (area size : ℕ) → Bool
verify_area area size = leb ((area + size) % 2 ^ 64) task_size

-- `length` bytes of a buffer, from its place `from` on, to the address `to`.
unfoldable pub copy_bytes : (ℕ → ℕ) → (from to length : ℕ) → Memory → Memory
copy_bytes bytes from to zero m = m
copy_bytes bytes from to (suc n) m =
    copy_bytes bytes (from + 1) (to + 1) n (store m to (bytes from))

unfoldable pub copy_to_user : (ℕ → ℕ) → (from to size : ℕ) → Memory → Memory
unfolding verify_area copy_bytes
copy_to_user bytes from to size m =
    if verify_area to size then copy_bytes bytes from to size m else m

-- The buffer is none of the memory that the caller has, so `memcopy` copies upwards or downwards alike.
unfoldable pub deliver : (ℕ → ℕ) → (buf offset index length : ℕ) → Memory → Memory
unfolding copy_to_user
deliver bytes buf offset index length m =
    if ltb ((buf + offset) % 2 ^ 64) task_size
    then copy_to_user bytes offset (buf + index) length m
    else copy_bytes bytes offset (buf + index) length m

-- What a `file` has of its inode.
pub record File : Type 0 where
  pub first_cluster : ℕ
  pub file_size : ℕ
  pub position : ℕ

-- `*position + count > file_size` on 64 bits
unfoldable pub remainder_of : File → (count : ℕ) → ℕ
remainder_of f count =
    if ltb f.file_size ((f.position + count) % 2 ^ 64)
    then (f.file_size + 2 ^ 64 - f.position) % 2 ^ 64
    else count

-- What `fat32_read` leaves: the 32 bits of `ret_val`, `none` where it is not set, `*position` and memory.
pub record Reading : Type 0 where
  pub ret_val : Option ℕ
  pub position : ℕ
  pub memory : Memory

module _ (D : Device) (sb : Sb) where
  pub fat32_table_read : (index : ℕ) → D.Disk → ℕ
  fat32_table_read index d =
      let clus =
        word_at (D.read (sb.fat1_start_sector + index / per_sector sb) 1 d)
          (index % per_sector sb) in
      if ltb clus 0xffffff7 then clus else 0

  pub fat32_table_write : (index content : ℕ) → D.Disk → D.Disk
  fat32_table_write index content d =
      let lba = sb.fat1_start_sector + index / per_sector sb in
      let fat_slace = store_word (D.read lba 1 d) (index % per_sector sb) content in
      D.write (lba + sb.sec_per_fat) 1 fat_slace (D.write lba 1 fat_slace d)

  -- The loop of `fat32_read`: `index`, `remainder` and memory behind it, `none` without fuel.
  unfoldable pub read_loop :
      (fuel clus offset index remainder buf : ℕ) → D.Disk → Memory → Option (ℕ × ℕ × Memory)
  unfolding deliver
  read_loop zero clus offset index remainder buf d m = none
  read_loop (suc fuel) clus offset index remainder buf d m =
      let buffer = D.read (clus_to_lba sb clus) sb.sec_per_clus d in
      let length = min (sb.byte_per_clus - offset) (min remainder sb.byte_per_clus) in
      let m' = deliver buffer buf offset index length m in
      let next = fat32_table_read (clus % 2 ^ 32) d in
      let rest = read_loop fuel next 0 (index + length) (remainder - length) buf d m' in
      if remainder - length == 0 || next == 0
      then some (index + length, remainder - length, m')
      else rest

  unfoldable pub read_done : File → Option (ℕ × ℕ × Memory) → Option Reading
  read_done f none = none
  read_done f (some (index, remainder, m)) = some (record {
    ret_val = if remainder == 0 then some (index % 2 ^ 32) else none;
    position = f.position + index;
    memory = m;
  })

  -- On fuel for the turns of the loop.
  pub fat32_read : (fuel : ℕ) → File → (buf count : ℕ) → D.Disk → Memory → Option Reading
  unfolding read_loop read_done remainder_of
  fat32_read fuel f buf count d m = read_done f (
      read_loop fuel (f.first_cluster + f.position / sb.byte_per_clus)
        (f.position % sb.byte_per_clus) 0 (remainder_of f count) buf d m)

-- The word of an `int` with these 64 bits, as `unsigned long`.
abbrev pub int_word : ℕ → ℕ
int_word n = if ltb (n % 2 ^ 32) (2 ^ 31) then n % 2 ^ 32 else 2 ^ 64 - 2 ^ 32 + n % 2 ^ 32

-- The test and the assignment behind the `switch` of `fat32_lseek`.
unfoldable pub seek_to : (pos : ℕ) → File → Ret × File
seek_to pos f =
    if ltb f.file_size pos
    then (err eoverflow, f)
    else (ok (int_word pos), record f { position = pos })

-- SEEK_SET, SEEK_CUR and SEEK_END are 0, 1 and 2; `offset` is the word of a `long`.
pub fat32_lseek : (offset origin : ℕ) → File → Ret × File
unfolding seek_to
fat32_lseek offset origin f =
    if origin == 0
    then seek_to offset f
    else if origin == 1
    then seek_to ((f.position + offset) % 2 ^ 64) f
    else if origin == 2
    then seek_to ((f.file_size + offset) % 2 ^ 64) f
    else (err einval, f)
