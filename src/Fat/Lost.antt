-- ===== src/Fat/Lost.antt =====
-- What a write (kernel/fat32.c, `fat32_write`) of any length leaves alone, and a write to an empty file.
use talios.Base.{
  ℕ, zero, suc, ◌+◌, ◌-◌, ◌/◌, ◌%◌, ◌^◌, ◌<◌, ◌≤◌, ◌≡◌, ◌≢◌, ◌⊎◌, min, max, false, ◌||◌, Option,
  none, some, ltb, ◌==◌, arith, refl, ◌∙◌, Bool-cases, inl, inr, if◌then◌else◌, ap₂,
}
use talios.Base.Bits.{bit_and-zero}
use talios.Base.Word.{ok, err, enospc}
use mathlib.Core.Path.{subst}
use native.Mathlib.Nat.{mod-lt}
use talios.Strings.{Memory}
use talios.Fat.{Device, DeviceLaws, Sb, clus_to_lba, fat32_table_read, word_at}
use talios.Fat.Saved.{inode_kept}
use talios.Fat.Write.{
  Inode, Writing, is_available, find_word, find_sector, fat32_find_next_avaliale_cluster, fetch,
  write_loop, write_done, write_at, fat32_write,
}

find_word-none : (n j : ℕ) (fat_slace : ℕ → ℕ) → find_word n j fat_slace ≡ none
unfolding find_word is_available
find_word-none zero j fat_slace = refl
find_word-none (suc n) j fat_slace =
    rw (bit_and-zero (word_at fat_slace j)) (find_word-none n (j + 1) fat_slace)

find_sector-zero : (D : Device) (sb : Sb) (n i : ℕ) (d : D.Disk) → find_sector D sb n i d ≡ 0
unfolding find_sector
find_sector-zero D sb zero i d = refl
find_sector-zero D sb (suc n) i d =
    rw (find_word-none 128 0 (D.read (sb.fat1_start_sector + i) 1 d))
      (find_sector-zero D sb n (i + 1) d)

-- A write to a file without a cluster gives -ENOSPC, whatever clusters the table has free, and changes
-- nothing.
pub fat32_write-no_space :
    (D : Device) (sb : Sb) (fuel : ℕ) (i : Inode) (position buf count : ℕ) (m : Memory) (d : D.Disk)
    → i.first_cluster + position / sb.byte_per_clus ≡ 0
    → fat32_write D sb fuel i position buf count m d
      ≡ some (record { ret_val = some (err enospc); position = position; inode = i; disk = d })
unfolding fat32_write fat32_find_next_avaliale_cluster
fat32_write-no_space D sb fuel i position buf count m d e =
    rw (e, find_sector-zero D sb sb.sec_per_fat 0 d) refl

module _ (D : Device) (L : DeviceLaws D) (sb : Sb) where
  -- The loop ends after `n` bytes, and only the sectors of the first cluster have changed.
  data Looped (lba index rem : ℕ) (d : D.Disk) : Option (ℕ × ℕ × D.Disk) → Type 0 where
    looped :
        {n : ℕ} {r : D.Disk}
        → n ≤ rem
        → ((s j : ℕ) → (s < lba) ⊎ (lba + sb.sec_per_clus ≤ s) → L.sector s r j ≡ L.sector s d j)
        → Looped lba index rem d (some (index + n, rem - n, r))

  write_loop-Looped :
      (fuel lba clus o index rem buf : ℕ) (buffer : ℕ → ℕ) (m : Memory) (d : D.Disk)
      → rem < fuel
      → o < sb.byte_per_clus
      → Looped lba index rem d (write_loop D sb fuel lba clus o index rem buf buffer m d)
  unfolding write_loop
  write_loop-Looped zero lba clus o index rem buf buffer m d enough inside = absurd (omega arith)
  write_loop-Looped (suc fuel) lba clus o index rem buf buffer m d enough inside =
      elim (Bool-cases (rem - piece == 0 || next == 0)) [
        | inl end ↦ rw end (
            looped {n = piece} (omega arith)
              (λ s j out. L.kept lba sb.sec_per_clus s j buffer' d out))
        | inr more ↦ rw more (
            on (
              write_loop-Looped fuel lba next 0 (index + piece) (rem - piece) buf buffer' m d'
                (omega (arith, left (rem - piece) more)) (omega arith)))
      ]
    where
      piece : ℕ
      piece = min (sb.byte_per_clus - o) (min rem sb.byte_per_clus)

      buffer' : ℕ → ℕ
      buffer' = fetch m buf o index piece buffer

      d' : D.Disk
      d' = D.write lba sb.sec_per_clus buffer' d

      next : ℕ
      next = fat32_table_read D sb (clus % 2 ^ 32) d'

      left : (x : ℕ) → (x == 0 || next == 0) ≡ false → 0 < x
      left x h = ground (arith, h)

      on :
          {r : Option (ℕ × ℕ × D.Disk)}
          → Looped lba (index + piece) (rem - piece) d' r
          → Looped lba index rem d r
      on (looped {n} {r} less same) =
          subst (λ (x : ℕ × ℕ). Looped lba index rem d (some (x.0, x.1, r)))
            (ap₂ (λ x y. (x, y)) {x = index + (piece + n)} (omega arith) (omega (arith, less)))
            (looped {n = piece + n} (omega (arith, less))
              (λ s j out. same s j out ∙ L.kept lba sb.sec_per_clus s j buffer' d out))

  -- What any write leaves: the position, the file's size, and the sectors outside the first cluster and
  -- the one with the file's entry.
  pub data Wrote (i : Inode) (position lba dir count : ℕ) (d : D.Disk)
      : Option (Writing D.Disk) → Type 0 where
    wrote :
        {w : Writing D.Disk} {n : ℕ}
        → n ≤ count
        → w.ret_val ≡ (if count - n == 0 then some (ok (n % 2 ^ 32)) else none)
        → w.position ≡ position + n
        → w.inode.file_size ≡ max i.file_size (position + n)
        → ((s j : ℕ)
            → (s < lba) ⊎ (lba + sb.sec_per_clus ≤ s)
            → (s < dir) ⊎ (dir + sb.sec_per_clus ≤ s)
            → L.sector s w.disk j ≡ L.sector s d j)
        → Wrote i position lba dir count d (some w)

  write_done-Wrote :
      (i : Inode) (position lba count n : ℕ) (d r : D.Disk)
      → n ≤ count
      → ((s j : ℕ) → (s < lba) ⊎ (lba + sb.sec_per_clus ≤ s) → L.sector s r j ≡ L.sector s d j)
      → Wrote i position lba
          (clus_to_lba sb i.dentry_location)
          count
          d
          (write_done D sb i position (some (0 + n, count - n, r)))
  unfolding write_done
  write_done-Wrote i position lba count n d r less same =
      let e : 0 + n ≡ n = omega arith in
      elim (Bool-cases (ltb i.file_size (position + n))) [
        | inl grown ↦
            rw (e, grown)
              (wrote less refl refl (ground (arith, grown)) (λ s j p q.
                inode_kept D L sb (record i { file_size = position + n }) s j r q ∙ same s j p))
        | inr kept ↦
            rw (e, kept) (wrote less refl refl (ground (arith, kept)) (λ s j p q. same s j p))
      ]

  -- With a turn of fuel more than the bytes to write, `fat32_write` returns, for a file with a cluster.
  -- It moves the position by the bytes that it counts, and its value is set only where these are all.
  -- However many clusters it counts, no sector changes but those of the first cluster and of the
  -- cluster with the file's entry: nothing that was to go to a later cluster reaches it.
  pub fat32_write-Wrote :
      (fuel : ℕ) (i : Inode) (position buf count : ℕ) (m : Memory) (d : D.Disk)
      → i.first_cluster + position / sb.byte_per_clus ≢ 0
      → 0 < sb.byte_per_clus
      → count < fuel
      → Wrote i position
          (clus_to_lba sb (i.first_cluster + position / sb.byte_per_clus))
          (clus_to_lba sb i.dentry_location)
          count
          d
          (fat32_write D sb fuel i position buf count m d)
  unfolding fat32_write write_at
  fat32_write-Wrote fuel i position buf count m d has some_bytes enough =
      let test : (i.first_cluster + position / sb.byte_per_clus == 0) ≡ false =
        ground (arith, has) in
      rw test (
        done (
          write_loop-Looped fuel lba clus (position % sb.byte_per_clus) 0 count buf
            (D.read lba sb.sec_per_clus d) m d enough (mod-lt position some_bytes)))
    where
      clus : ℕ
      clus = i.first_cluster + position / sb.byte_per_clus

      lba : ℕ
      lba = clus_to_lba sb clus

      done :
          {o : Option (ℕ × ℕ × D.Disk)}
          → Looped lba 0 count d o
          → Wrote i position lba
              (clus_to_lba sb i.dentry_location)
              count
              d
              (write_done D sb i position o)
      done (looped {n} {r} less same) = write_done-Wrote i position lba count n d r less same
