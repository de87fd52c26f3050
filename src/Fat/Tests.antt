-- ===== src/Fat/Tests.antt =====
-- FAT32 on a disk that is a function from sectors to bytes, with a file of two clusters, and the
-- theorems of kernel/fat32.c there.
use talios.Base.{
  ℕ, ◌≡◌, ◌+◌, ◌-◌, ◌*◌, ◌/◌, ◌%◌, ◌&&◌, ltb, leb, ◌==◌, if◌then◌else◌, arith, refl, ap, Option,
  true, false,
}
use talios.Fat.{
  Device, DeviceLaws, Sb, File, Reading, remainder_of, fat32_table_read, fat32_table_write,
  fat32_read, fat32_lseek,
}
use talios.Fat.Table.{TableWritten, fat32_table_write-TableWritten}
use talios.Fat.Read.{ReadResult, fat32_read-ReadResult}
use talios.Base.{inl}
use talios.Fat.Write.{Inode, Writing, fat32_write}
use talios.Fat.Saved.{SavedAs, fat32_write-SavedAs}
use talios.Fat.Lost.{Wrote, fat32_write-Wrote}
use talios.Fat.Again.{GivesBack, read_behind, fat32_read-write}
use talios.Fat.Seek.{Sought, fat32_lseek-Sought}

abbrev device : Device
device = record {
  Disk = ℕ → ℕ → ℕ;
  read = λ lba count d j. d (lba + j / 512) (j % 512);
  write = λ lba count bytes d s j.
      if leb lba s && ltb s (lba + count) then bytes (512 * (s - lba) + j) else d s j;
}

device_laws : DeviceLaws device
device_laws = record {
  sector = λ s d. d s;
  read_lem = λ lba count j d h. refl;
  written = λ lba j bytes d h.
      let test : (leb lba lba && ltb lba (lba + 1)) ≡ true = ground arith in
      rw test (ap bytes (omega arith));
  kept = λ lba count s j bytes d h.
      let test : (leb lba s && ltb s (lba + count)) ≡ false = ground (arith, h) in rw test refl;
}

-- Clusters of one sector; the table has one sector.
abbrev sb : Sb
sb = record {
  byte_per_sec = 512;
  fat1_start_sector = 32;
  fst_data_sector = 34;
  byte_per_clus = 512;
  sec_per_fat = 1;
  sec_per_clus = 1;
}

-- The table links cluster 2 to cluster 3, and each sector of the data has its number as its bytes.
abbrev disk : ℕ → ℕ → ℕ
disk s j = if s == 32 then (if j == 8 then 3 else 0) else s

abbrev file : File
file = record { first_cluster = 2; file_size = 600; position = 510 }

fat32_table_read-linked : fat32_table_read device sb 2 disk ≡ 3
unfolding fat32_table_read
fat32_table_read-linked = refl

remainder_of-file : remainder_of file 4 ≡ 4
unfolding remainder_of
remainder_of-file = refl

-- Four bytes over the end of the first cluster.
abbrev reading : Option Reading
reading = fat32_read device sb 5 file 0x400000 4 disk (λ a. 0)

fat32_read-ReadResult_example : ReadResult device sb disk file 0x400000 4 (λ a. 0) reading
fat32_read-ReadResult_example =
    fat32_read-ReadResult device sb disk 5 file 0x400000 4 (λ a. 0) (omega arith) (omega arith)
      (omega arith) (omega arith) (omega arith) (omega arith)

fat32_table_write-TableWritten_example :
    TableWritten device device_laws sb 3 0xffffff8 disk
      (fat32_table_write device sb 3 0xffffff8 disk)
fat32_table_write-TableWritten_example =
    fat32_table_write-TableWritten device device_laws sb 3 0xffffff8 disk refl (omega arith)
      (omega arith)

fat32_lseek-Sought_example : Sought 20 2 file (fat32_lseek 20 2 file)
fat32_lseek-Sought_example = fat32_lseek-Sought 20 2 file

-- A file in cluster 2, whose entry is the fourth of cluster 5.
abbrev inode : Inode
inode = record {
  file_size = 20;
  first_cluster = 2;
  dentry_location = 5;
  dentry_position = 3;
  write_date = 0;
  write_time = 0;
}

abbrev memory : ℕ → ℕ
memory a = a % 256

abbrev written : Option (Writing (ℕ → ℕ → ℕ))
written = fat32_write device sb 1 inode 10 0x400000 30 memory disk

fat32_write-SavedAs_example :
    SavedAs device device_laws sb inode 10 10 34 37 0x400000 30 memory disk written
fat32_write-SavedAs_example =
    fat32_write-SavedAs device device_laws sb 1 inode 10 0x400000 30 memory disk
      (λ e. absurd (omega (arith, e))) (omega arith) refl refl (omega arith) (omega arith)
      (omega arith) (inl (omega arith))

-- 600 bytes, over the end of the cluster.
fat32_write-Wrote_example :
    Wrote device device_laws sb inode 10 34 37 600 disk
      (fat32_write device sb 601 inode 10 0x400000 600 memory disk)
fat32_write-Wrote_example =
    fat32_write-Wrote device device_laws sb 601 inode 10 0x400000 600 memory disk
      (λ e. absurd (omega (arith, e))) (omega arith) (omega arith)

fat32_read-write_example :
    GivesBack device device_laws sb 10 0x400000 0x500000 30 memory
      (read_behind device device_laws sb 31 10 0x500000 30 (λ a. 0) written)
fat32_read-write_example =
    fat32_read-write device device_laws sb 1 31 inode 10 0x400000 0x500000 30 memory (λ a. 0) disk
      (λ e. absurd (omega (arith, e))) (omega arith) (omega arith) (omega arith) refl (omega arith)
      (omega arith) (omega arith) (omega arith) (omega arith) (inl (omega arith))
