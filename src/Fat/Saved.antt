-- ===== src/Fat/Saved.antt =====
-- What `fat32_write` (kernel/fat32.c) puts on the disk.
use talios.Base.{
  ℕ, zero, suc, ◌+◌, ◌-◌, ◌*◌, ◌/◌, ◌%◌, ◌^◌, ◌<◌, ◌≤◌, ◌≡◌, ◌≢◌, ◌⊎◌, min, max, true, false, not,
  ◌&&◌, Option, some, ltb, leb, ◌==◌, arith, refl, sym, ap, ◌∙◌, Bool-cases, inl, inr,
}
use talios.Base.Word.{ok}
use mathlib.Core.Path.{subst}
use talios.Strings.{Memory}
use talios.Fat.{Device, DeviceLaws, Sb, clus_to_lba, task_size, verify_area}
use talios.Fat.Read.{first_sector, Delivered, copy_bytes-Delivered}
use talios.Fat.Write.{
  Inode, Writing, put_bytes, put_inode, fetch, fat32_write_inode, write_loop, write_done, write_at,
  fat32_write,
}

fetch-Delivered :
    (m : Memory) (buf offset index length : ℕ) (buffer : ℕ → ℕ)
    → buf + index + length ≤ task_size
    → Delivered m (buf + index) offset length buffer (fetch m buf offset index length buffer)
unfolding fetch verify_area
fetch-Delivered m buf offset index length buffer h =
    rw no_refusal (copy_bytes-Delivered m (buf + index) offset length buffer)
  where
    fits : leb ((buf + index + length) % 2 ^ 64) task_size ≡ true
    fits = ground (arith, h)

    no_refusal :
        (ltb ((buf + offset) % 2 ^ 64) task_size
          && not (leb ((buf + index + length) % 2 ^ 64) task_size))
        ≡ false
    no_refusal = ground (arith, fits)

-- The size that an entry gets, and what else of its sectors stays.
put_inode-size :
    (place k : ℕ) (i : Inode) (bytes : ℕ → ℕ)
    → k < 4
    → put_inode place i bytes (place + 28 + k) ≡ i.file_size / 256 ^ k % 256
unfolding put_inode put_bytes
put_inode-size place k i bytes h =
    let a : (leb (place + 22) (place + 28 + k) && ltb (place + 28 + k) (place + 22 + 2)) ≡ false =
      ground arith in
    let b : (leb (place + 24) (place + 28 + k) && ltb (place + 28 + k) (place + 24 + 2)) ≡ false =
      ground arith in
    let c : (leb (place + 26) (place + 28 + k) && ltb (place + 28 + k) (place + 26 + 2)) ≡ false =
      ground arith in
    let e : (leb (place + 20) (place + 28 + k) && ltb (place + 28 + k) (place + 20 + 2)) ≡ false =
      ground arith in
    let f : (leb (place + 28) (place + 28 + k) && ltb (place + 28 + k) (place + 28 + 4)) ≡ true =
      ground (arith, h) in
    let g : place + 28 + k - (place + 28) ≡ k = omega arith in rw (a, b, c, e, f, g) refl

module _ (D : Device) (L : DeviceLaws D) (sb : Sb) where
  -- The byte at a place of a cluster that starts at a sector.
  abbrev pub byte_of : (lba k : ℕ) → D.Disk → ℕ
  byte_of lba k d = L.sector (lba + k / 512) d (k % 512)

  byte_of-write :
      (lba k : ℕ) (bytes : ℕ → ℕ) (d : D.Disk)
      → sb.sec_per_clus ≡ 1
      → k < 512 * sb.sec_per_clus
      → byte_of lba k (D.write lba sb.sec_per_clus bytes d) ≡ bytes k
  byte_of-write lba k bytes d one h = rw one (
      ap (λ s. L.sector s (D.write lba 1 bytes d) (k % 512)) {y = lba} (omega (arith, h, one))
      ∙ (L.written lba (k % 512) bytes d (omega arith) ∙ ap bytes (omega (arith, h, one))))

  -- Two clusters have no sector in common.
  abbrev pub Apart : (lba lba' : ℕ) → Type 0
  Apart lba lba' = (lba + sb.sec_per_clus ≤ lba') ⊎ (lba' + sb.sec_per_clus ≤ lba)

  pub inode_kept :
      (i : Inode) (s j : ℕ) (d : D.Disk)
      → (s < clus_to_lba sb i.dentry_location)
        ⊎ (clus_to_lba sb i.dentry_location + sb.sec_per_clus ≤ s)
      → L.sector s (fat32_write_inode D sb i d) j ≡ L.sector s d j
  unfolding fat32_write_inode
  inode_kept i s j d out = L.kept (clus_to_lba sb i.dentry_location) sb.sec_per_clus s j _ d out

  one_turn :
      (fuel lba clus o count buf : ℕ) (buffer : ℕ → ℕ) (m : Memory) (d : D.Disk)
      → o + count ≤ sb.byte_per_clus
      → write_loop D sb (suc fuel) lba clus o 0 count buf buffer m d
        ≡ some (count, 0, D.write lba sb.sec_per_clus (fetch m buf o 0 count buffer) d)
  unfolding write_loop
  one_turn fuel lba clus o count buf buffer m d fits =
      let e : min (sb.byte_per_clus - o) (min count sb.byte_per_clus) ≡ count = omega arith in
      let z : count - count ≡ 0 = omega arith in
      let n : 0 + count ≡ count = omega arith in rw (e, z, n) refl

  -- A write of `count` bytes from the place `o` of the cluster at `lba`, whose entry is at `entry` of
  -- the cluster at `dir`: the disk `d` before, and what is left.
  pub record Saved (i : Inode) (position o lba dir buf count : ℕ) (m : Memory) (d : D.Disk)
      (w : Writing D.Disk) : Type 0 where
    pub returned : w.ret_val ≡ some (ok (count % 2 ^ 32))
    pub moved : w.position ≡ position + count
    pub size : w.inode.file_size ≡ max i.file_size (position + count)
    pub cluster : w.inode.first_cluster ≡ i.first_cluster
    pub bytes : (k : ℕ) → k < count → byte_of lba (o + k) w.disk ≡ m (buf + k)
    pub rest :
        (k : ℕ)
        → k < 512 * sb.sec_per_clus
        → (k < o) ⊎ (o + count ≤ k)
        → byte_of lba k w.disk ≡ byte_of lba k d
    pub entry :
        (k : ℕ)
        → k < 4
        → i.file_size < position + count
        → byte_of dir (32 * i.dentry_position + 28 + k) w.disk ≡ (position + count) / 256 ^ k % 256
    pub others :
        (s j : ℕ)
        → (s < lba) ⊎ (lba + sb.sec_per_clus ≤ s)
        → (s < dir) ⊎ (dir + sb.sec_per_clus ≤ s)
        → L.sector s w.disk j ≡ L.sector s d j

  pub data SavedAs (i : Inode) (position o lba dir buf count : ℕ) (m : Memory) (d : D.Disk)
      : Option (Writing D.Disk) → Type 0 where
    saved :
        {w : Writing D.Disk}
        → Saved i position o lba dir buf count m d w
        → SavedAs i position o lba dir buf count m d (some w)

  module _ (i : Inode) (position lba buf count : ℕ) (m : Memory) (d : D.Disk)
      (one : sb.sec_per_clus ≡ 1) (whole : sb.byte_per_clus ≡ 512 * sb.sec_per_clus)
      (inside : position % sb.byte_per_clus + count ≤ sb.byte_per_clus)
      (fits : buf + count ≤ task_size) (room : 32 * i.dentry_position + 32 ≤ sb.byte_per_clus)
      (apart : Apart lba (clus_to_lba sb i.dentry_location)) where
    abbrev o : ℕ
    o = position % sb.byte_per_clus

    abbrev dir : ℕ
    dir = clus_to_lba sb i.dentry_location

    abbrev buffer : ℕ → ℕ
    buffer = D.read lba sb.sec_per_clus d

    abbrev after : D.Disk
    after = D.write lba sb.sec_per_clus (fetch m buf o 0 count buffer) d

    copied : Delivered m (buf + 0) o count buffer (fetch m buf o 0 count buffer)
    copied = fetch-Delivered m buf o 0 count buffer (omega (arith, fits))

    after_bytes : (k : ℕ) → k < count → byte_of lba (o + k) after ≡ m (buf + k)
    after_bytes k h =
        byte_of-write lba (o + k) (fetch m buf o 0 count buffer) d one
          (omega (arith, whole, inside))
        ∙ (copied.bytes_at k h ∙ ap m (omega arith))

    after_rest :
        (k : ℕ)
        → k < 512 * sb.sec_per_clus
        → (k < o) ⊎ (o + count ≤ k)
        → byte_of lba k after ≡ byte_of lba k d
    after_rest k h out =
        byte_of-write lba k (fetch m buf o 0 count buffer) d one h
        ∙ (copied.others k out ∙ L.read_lem lba sb.sec_per_clus k d h)

    -- The write of the entry leaves the cluster of the data alone.
    data_kept :
        (i' : Inode) (k : ℕ)
        → i'.dentry_location ≡ i.dentry_location
        → k < 512 * sb.sec_per_clus
        → byte_of lba k (fat32_write_inode D sb i' after) ≡ byte_of lba k after
    data_kept i' k e h = inode_kept i' (lba + k / 512) (k % 512) after (
        subst
          (λ c.
            (lba + k / 512 < clus_to_lba sb c)
            ⊎ (clus_to_lba sb c + sb.sec_per_clus ≤ lba + k / 512))
          (sym e) (outside apart))
      where
        outside : Apart lba dir → (lba + k / 512 < dir) ⊎ (dir + sb.sec_per_clus ≤ lba + k / 512)
        outside (inl low) = inl (omega (arith, h, low))
        outside (inr high) = inr (omega (arith, high))

    size_written :
        (size k : ℕ)
        → k < 4
        → byte_of dir
            (32 * i.dentry_position + 28 + k)
            (fat32_write_inode D sb (record i { file_size = size }) after)
          ≡ size / 256 ^ k % 256
    unfolding fat32_write_inode
    size_written size k h =
        byte_of-write dir (32 * i.dentry_position + 28 + k) _ after one (omega (arith, whole, room))
        ∙ put_inode-size (32 * i.dentry_position) k (record i { file_size = size })
            (D.read dir sb.sec_per_clus after) h

    done-SavedAs :
        SavedAs i position o lba dir buf count m d
          (write_done D sb i position (some (count, 0, after)))
    unfolding write_done
    done-SavedAs = elim (Bool-cases (ltb i.file_size (position + count))) [
      | inl grown ↦ rw grown (
          saved (record {
            returned = refl;
            moved = refl;
            cluster = refl;
            size = ground (arith, grown);
            bytes =
                λ k h. data_kept _ (o + k) refl (omega (arith, whole, inside)) ∙ after_bytes k h;
            rest = λ k h out. data_kept _ k refl h ∙ after_rest k h out;
            entry = λ k h _. size_written (position + count) k h;
            others = λ s j p q. inode_kept _ s j after q ∙ L.kept lba sb.sec_per_clus s j _ d p;
          }))
      | inr same ↦ rw same (
          saved (record {
            returned = refl;
            moved = refl;
            cluster = refl;
            size = ground (arith, same);
            bytes = after_bytes;
            rest = after_rest;
            entry = λ k h more. absurd (ground (arith, same, more));
            others = λ s j p q. L.kept lba sb.sec_per_clus s j _ d p;
          }))
    ]

  -- On a file system whose clusters are single sectors of 512 bytes, a write inside one cluster of a
  -- file that has a cluster, from user memory, with the file's entry
  -- in another cluster, returns its length and moves the position by it. The bytes of the cluster from
  -- the position on are those of memory, its other bytes stay; a file that has grown has the new size
  -- in its inode and in its directory entry; and no sector outside the two clusters changes.
  pub fat32_write-SavedAs :
      (fuel : ℕ) (i : Inode) (position buf count : ℕ) (m : Memory) (d : D.Disk)
      → i.first_cluster + position / sb.byte_per_clus ≢ 0
      → 0 < fuel
      → sb.sec_per_clus ≡ 1
      → sb.byte_per_clus ≡ 512 * sb.sec_per_clus
      → position % sb.byte_per_clus + count ≤ sb.byte_per_clus
      → buf + count ≤ task_size
      → 32 * i.dentry_position + 32 ≤ sb.byte_per_clus
      → Apart
          (first_sector sb (i.first_cluster + position / sb.byte_per_clus))
          (first_sector sb i.dentry_location)
      → SavedAs i position
          (position % sb.byte_per_clus)
          (first_sector sb (i.first_cluster + position / sb.byte_per_clus))
          (first_sector sb i.dentry_location)
          buf
          count
          m
          d
          (fat32_write D sb fuel i position buf count m d)
  unfolding fat32_write write_at
  fat32_write-SavedAs zero i position buf count m d has enough one whole inside fits room apart =
      absurd (omega arith)
  fat32_write-SavedAs (suc fuel) i position buf count m d has enough one whole inside fits room
        apart =
      let test : (i.first_cluster + position / sb.byte_per_clus == 0) ≡ false =
        ground (arith, has) in
      rw
        (
          test,
          one_turn fuel (clus_to_lba sb (i.first_cluster + position / sb.byte_per_clus))
              (i.first_cluster + position / sb.byte_per_clus) (position % sb.byte_per_clus) count
              buf
              (D.read (clus_to_lba sb (i.first_cluster + position / sb.byte_per_clus))
                sb.sec_per_clus d)
              m d inside,
        )
        (done-SavedAs i position (clus_to_lba sb (i.first_cluster + position / sb.byte_per_clus))
          buf count m d one whole inside fits room apart)
