-- ===== src/Fat/Write.antt =====
-- Writing files: `fat32_write`, `fat32_write_inode` and `fat32_find_next_avaliale_cluster` of
-- kernel/fat32.c, over the disk, the table and the memory of the parent.
use talios.Base.{
  ℕ, zero, suc, ◌+◌, ◌-◌, ◌*◌, ◌/◌, ◌%◌, ◌^◌, min, Bool, not, ◌&&◌, ◌||◌, Option, none, some, ltb,
  leb, ◌==◌, if◌then◌else◌, bit_and,
}
use talios.Base.Word.{Ret, ok, err, enospc}
use talios.Strings.{Memory}
use talios.Fat.{
  Device, Sb, clus_to_lba, word_at, task_size, verify_area, copy_bytes, fat32_table_read,
  fat32_table_write,
}

-- `index_node` with the fields of its `FAT32_inode_info` that writing uses.
pub record Inode : Type 0 where
  pub file_size : ℕ
  pub first_cluster : ℕ
  pub dentry_location : ℕ
  pub dentry_position : ℕ
  pub write_date : ℕ
  pub write_time : ℕ

-- `fat_slace[j] & 0xfffffff == 0`, where `==` binds first
unfoldable pub is_available : (word : ℕ) → Bool
is_available word = not (bit_and word (if 0xfffffff == 0 then 1 else 0) == 0)

-- The inner loop, from `j` on with `n` words left.
unfoldable pub find_word : (n j : ℕ) (fat_slace : ℕ → ℕ) → Option ℕ
unfolding is_available
find_word zero j fat_slace = none
find_word (suc n) j fat_slace =
    let rest = find_word n (j + 1) fat_slace in
    if is_available (word_at fat_slace j) then some j else rest

-- A store of the low `n` bytes of a number at a place of a buffer.
unfoldable pub put_bytes : (place n v : ℕ) → (ℕ → ℕ) → ℕ → ℕ
put_bytes place n v bytes j =
    if leb place j && ltb j (place + n) then v / 256 ^ (j - place) % 256 else bytes j

-- The five stores of `fat32_write_inode` to the entry at `place`: the size, the two halves of the first
-- cluster, the date and the time.
unfoldable pub put_inode : (place : ℕ) → Inode → (ℕ → ℕ) → ℕ → ℕ
unfolding put_bytes
put_inode place i bytes = put_bytes (place + 22) 2 i.write_time (
    put_bytes (place + 24) 2 i.write_date (
      put_bytes (place + 26) 2 i.first_cluster (
        put_bytes (place + 20) 2 (i.first_cluster / 2 ^ 16)
          (put_bytes (place + 28) 4 i.file_size bytes))))

-- The copy from the user's memory to the buffer: nothing where the area ends above the user's.
unfoldable pub fetch : Memory → (buf offset index length : ℕ) → (ℕ → ℕ) → ℕ → ℕ
unfolding verify_area copy_bytes
fetch m buf offset index length buffer =
    if ltb ((buf + offset) % 2 ^ 64) task_size && not (verify_area (buf + index) length)
    then buffer
    else copy_bytes m (buf + index) offset length buffer

-- What `fat32_write` leaves; the 32 bits of `ret_val` are `none` where it is not set.
pub record Writing (Disk : Type 0) : Type 0 where
  pub ret_val : Option Ret
  pub position : ℕ
  pub inode : Inode
  pub disk : Disk

module _ (D : Device) (sb : Sb) where
  -- The outer loop, from the sector `i` of the table on with `n` sectors left.
  unfoldable pub find_sector : (n i : ℕ) → D.Disk → ℕ
  unfolding find_word
  find_sector zero i d = 0
  find_sector (suc n) i d =
      let rest = find_sector n (i + 1) d in
      at_word rest (find_word 128 0 (D.read (sb.fat1_start_sector + i) 1 d))
    where
      at_word : ℕ → Option ℕ → ℕ
      at_word rest none = rest
      at_word rest (some j) = (i * 2 ^ 7 + j) % 2 ^ 32

  unfoldable pub fat32_find_next_avaliale_cluster : D.Disk → ℕ
  unfolding find_sector
  fat32_find_next_avaliale_cluster = find_sector sb.sec_per_fat 0

  unfoldable pub fat32_write_inode : Inode → D.Disk → D.Disk
  unfolding put_inode
  fat32_write_inode i d =
      let lba = clus_to_lba sb i.dentry_location in
      D.write lba sb.sec_per_clus
        (put_inode (32 * i.dentry_position) i (D.read lba sb.sec_per_clus d)) d

  -- The loop of `fat32_write`, on fuel for its turns: `index`, `remainder` and the disk behind it.
  unfoldable pub write_loop :
      (fuel lba clus offset index remainder buf : ℕ)
      → (ℕ → ℕ)
      → Memory
      → D.Disk
      → Option (ℕ × ℕ × D.Disk)
  unfolding fetch
  write_loop zero lba clus offset index remainder buf buffer m d = none
  write_loop (suc fuel) lba clus offset index remainder buf buffer m d =
      let length = min (sb.byte_per_clus - offset) (min remainder sb.byte_per_clus) in
      let buffer' = fetch m buf offset index length buffer in
      let d' = D.write lba sb.sec_per_clus buffer' d in
      let next = fat32_table_read D sb (clus % 2 ^ 32) d' in
      let rest =
        write_loop fuel lba next 0 (index + length) (remainder - length) buf buffer' m d' in
      if remainder - length == 0 || next == 0
      then some (index + length, remainder - length, d')
      else rest

  -- Behind the loop: the position, and the size of a file that has grown.
  unfoldable pub write_done :
      Inode → (position : ℕ) → Option (ℕ × ℕ × D.Disk) → Option (Writing D.Disk)
  write_done i position none = none
  write_done i position (some (index, remainder, d)) =
      let grown = ltb i.file_size (position + index) in
      let i' = if grown then record i { file_size = position + index } else i in
      some (record {
        ret_val = if remainder == 0 then some (ok (index % 2 ^ 32)) else none;
        position = position + index;
        inode = i';
        disk = if grown then fat32_write_inode i' d else d;
      })

  -- From the line that finds `lba` on.
  unfoldable pub write_at :
      (fuel clus : ℕ) → Inode → (position buf count : ℕ) → Memory → D.Disk → Option (Writing D.Disk)
  unfolding write_loop write_done
  write_at fuel clus i position buf count m d =
      let lba = clus_to_lba sb clus in
      write_done i position (
        write_loop fuel lba clus (position % sb.byte_per_clus) 0 count buf
          (D.read lba sb.sec_per_clus d) m d)

  -- A file without a cluster gets one first.
  unfoldable pub fat32_write :
      (fuel : ℕ) → Inode → (position buf count : ℕ) → Memory → D.Disk → Option (Writing D.Disk)
  unfolding write_at fat32_find_next_avaliale_cluster
  fat32_write fuel i position buf count m d =
      let clus = i.first_cluster + position / sb.byte_per_clus in
      let new = fat32_find_next_avaliale_cluster d in
      let i' = record i { first_cluster = new } in
      if clus == 0
      then if new == 0
        then some (record { ret_val = some (err enospc); position = position; inode = i; disk = d })
        else write_at fuel new i' position buf count m
            (fat32_table_write D sb new 0xffffff8 (fat32_write_inode i' d))
      else write_at fuel clus i position buf count m d
