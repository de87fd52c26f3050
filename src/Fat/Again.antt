-- ===== src/Fat/Again.antt =====
-- Reading back what was written (kernel/fat32.c): `fat32_read` behind `fat32_write`.
use talios.Base.{
  ℕ, ◌+◌, ◌*◌, ◌/◌, ◌%◌, ◌^◌, ◌<◌, ◌≤◌, ◌≡◌, ◌≢◌, false, Option, none, some, ltb, arith, refl, ap,
  ◌∙◌,
}
use mathlib.Core.Path.{subst}
use talios.Strings.{Memory}
use talios.Fat.{
  Device, DeviceLaws, Sb, File, Reading, clus_to_lba, task_size, remainder_of, fat32_read,
}
use talios.Fat.Read.{
  first_sector, ReadResult, complete, unset, ChainByte, in_first, in_rest, ChainEnds, last_one,
  one_more, cluster, fat32_read-remainder,
}
use talios.Fat.Write.{Inode, Writing, fat32_write}
use talios.Fat.Saved.{Apart, Saved, SavedAs, saved, fat32_write-SavedAs}

module _ (D : Device) (L : DeviceLaws D) (sb : Sb) where
  first_byte :
      (d : D.Disk) {c k b : ℕ}
      → ChainByte D sb d c k b
      → k < sb.byte_per_clus
      → b ≡ cluster D sb d c k
  first_byte d (in_first inside) h = refl
  first_byte d (in_rest more there) h = absurd (omega (arith, h))

  ends_behind : (d : D.Disk) {c total : ℕ} → ChainEnds D sb d c total → sb.byte_per_clus ≤ total
  ends_behind d (last_one end) = omega arith
  ends_behind d (one_more more rest) = omega arith

  -- The file as it is opened again, at the position of the write.
  abbrev pub opened : Inode → (position : ℕ) → File
  opened i position = record {
    first_cluster = i.first_cluster;
    file_size = i.file_size;
    position = position;
  }

  -- `fat32_read` of as many bytes to `buf'`, with the memory `m'`, behind the write.
  abbrev pub read_behind :
      (fuel position buf' count : ℕ) → Memory → Option (Writing D.Disk) → Option Reading
  read_behind fuel position buf' count m' none = none
  read_behind fuel position buf' count m' (some w) =
      fat32_read D sb fuel (opened w.inode position) buf' count w.disk m'

  pub data GivesBack (position buf buf' count : ℕ) (m : Memory) : Option Reading → Type 0 where
    gives_back :
        {r : Reading}
        → r.ret_val ≡ some (count % 2 ^ 32)
        → r.position ≡ position + count
        → ((k : ℕ) → k < count → r.memory (buf' + k) ≡ m (buf + k))
        → GivesBack position buf buf' count m (some r)

  module _ (i : Inode) (position buf buf' count : ℕ) (m m' : Memory) (d : D.Disk)
      (whole : sb.byte_per_clus ≡ 512 * sb.sec_per_clus)
      (inside : position % sb.byte_per_clus + count ≤ sb.byte_per_clus) where
    abbrev lba : ℕ
    lba = clus_to_lba sb (i.first_cluster + position / sb.byte_per_clus)

    abbrev of_size : ℕ → File
    of_size size = record { first_cluster = i.first_cluster; file_size = size; position = position }

    of_result :
        (w : Writing D.Disk) (rem : ℕ) {o : Option Reading}
        → Saved D L sb i position
            (position % sb.byte_per_clus)
            lba
            (clus_to_lba sb i.dentry_location)
            buf
            count
            m
            d
            w
        → rem ≡ count
        → ReadResult D sb w.disk (of_size w.inode.file_size) buf' rem m' o
        → GivesBack position buf buf' count m o
    of_result w rem s e (complete {r} h) =
        gives_back (ap (λ n. some (n % 2 ^ 32)) e) (ap (λ n. position + n) e) (λ k lt.
          first_byte w.disk (h.bytes_at k (omega (arith, e, lt))) (omega (arith, lt, inside))
          ∙ (L.read_lem lba sb.sec_per_clus (position % sb.byte_per_clus + k) w.disk
                (omega (arith, lt, inside, whole))
              ∙ s.bytes k lt))
    of_result w rem s e (unset less ends up) =
        absurd (omega (arith, e, less, ends_behind w.disk ends, inside))

    in_size :
        (f : File)
        → f.position ≡ position
        → position + count ≤ f.file_size
        → position + count < 2 ^ 64
        → remainder_of f count ≡ count
    unfolding remainder_of
    in_size f e h small =
        let test : ltb f.file_size ((f.position + count) % 2 ^ 64) ≡ false =
          ground (arith, e, h, small) in
        rw test refl

    of_saved :
        (fuel : ℕ) {o : Option (Writing D.Disk)}
        → 0 < sb.byte_per_clus
        → count < fuel
        → buf' + count ≤ task_size
        → position + count < 2 ^ 64
        → SavedAs D L sb i position
            (position % sb.byte_per_clus)
            lba
            (clus_to_lba sb i.dentry_location)
            buf
            count
            m
            d
            o
        → GivesBack position buf buf' count m (read_behind fuel position buf' count m' o)
    of_saved fuel some_bytes enough fits small (saved {w} s) =
        let e = in_size (opened w.inode position) refl (omega (arith, s.size)) small in
        of_result w (remainder_of (opened w.inode position) count) s e (
          subst
            (λ c.
              ReadResult D sb w.disk
                (record { first_cluster = c; file_size = w.inode.file_size; position = position })
                buf' (remainder_of (opened w.inode position) count) m'
                (fat32_read D sb fuel (opened w.inode position) buf' count w.disk m'))
            s.cluster
            (fat32_read-remainder D sb w.disk fuel (opened w.inode position) buf' count m'
              some_bytes (omega (arith, e, enough)) (omega (arith, e, fits))))

  -- On a file system whose clusters are single sectors of 512 bytes: what a write inside one cluster
  -- puts there, with the file's entry in another cluster, the read of
  -- as many bytes at the same position gives back, to other memory: it returns their number, moves the
  -- position by it, and the bytes are those that were written.
  pub fat32_read-write :
      (fuel fuel' : ℕ) (i : Inode) (position buf buf' count : ℕ) (m m' : Memory) (d : D.Disk)
      → i.first_cluster + position / sb.byte_per_clus ≢ 0
      → 0 < fuel
      → count < fuel'
      → sb.sec_per_clus ≡ 1
      → sb.byte_per_clus ≡ 512 * sb.sec_per_clus
      → position % sb.byte_per_clus + count ≤ sb.byte_per_clus
      → buf + count ≤ task_size
      → buf' + count ≤ task_size
      → position + count < 2 ^ 64
      → 32 * i.dentry_position + 32 ≤ sb.byte_per_clus
      → Apart D L sb
          (first_sector sb (i.first_cluster + position / sb.byte_per_clus))
          (first_sector sb i.dentry_location)
      → GivesBack position buf buf' count m (
          read_behind fuel' position buf' count m' (fat32_write D sb fuel i position buf count m d))
  fat32_read-write fuel fuel' i position buf buf' count m m' d has enough enough' one whole inside
        fits fits' small room apart =
      of_saved i position buf buf' count m m' d whole inside fuel' (omega (arith, whole, one))
        enough' fits' small
        (fat32_write-SavedAs D L sb fuel i position buf count m d has enough one whole inside fits
          room apart)
