-- ===== src/Fat/Read.antt =====
-- What `fat32_read` (kernel/fat32.c) delivers: the bytes of the clusters that the table links.
use talios.Base.{
  ℕ, zero, suc, ◌+◌, ◌-◌, ◌*◌, ◌/◌, ◌%◌, ◌^◌, ◌<◌, ◌≤◌, ◌≡◌, ◌≢◌, ◌⊎◌, min, true, false, ◌||◌,
  Option, none, some, ltb, leb, ◌==◌, arith, refl, sym, ap, ap₂, ◌∙◌, Bool-cases, inl, inr,
}
use native.Mathlib.Nat.{mod-lt}
use mathlib.Core.Path.{subst}
use talios.Strings.{Memory, store}
use talios.Strings.Copy.{store_same, store_other}
use talios.Fat.{
  Device, Sb, task_size, verify_area, copy_bytes, copy_to_user, deliver, File, remainder_of,
  Reading, fat32_table_read, read_loop, read_done, fat32_read,
}

-- The bytes of `bytes` from `from` on are those of `r` from `to` on, and the others are as in `m`.
pub record Delivered (bytes : ℕ → ℕ) (from to length : ℕ) (m r : Memory) : Type 0 where
  pub bytes_at : (i : ℕ) → i < length → r (to + i) ≡ bytes (from + i)
  pub others : (a : ℕ) → (a < to) ⊎ (to + length ≤ a) → r a ≡ m a

pub copy_bytes-Delivered :
    (bytes : ℕ → ℕ) (from to length : ℕ) (m : Memory)
    → Delivered bytes from to length m (copy_bytes bytes from to length m)
unfolding copy_bytes
copy_bytes-Delivered bytes from to zero m = record {
  bytes_at = λ i lt. absurd (omega arith);
  others = λ a h. refl;
}
copy_bytes-Delivered bytes from to (suc n) m =
    let ih = copy_bytes-Delivered bytes (from + 1) (to + 1) n (store m to (bytes from)) in
    record {
      bytes_at = first ih;
      others = λ a h.
          ih.others a (ground (arith, h))
          ∙ store_other m to (bytes from) a (λ e. ground (arith, h, e));
    }
  where
    first :
        Delivered bytes
          (from + 1)
          (to + 1)
          n
          (store m to (bytes from))
          (copy_bytes bytes (from + 1) (to + 1) n (store m to (bytes from)))
        → (i : ℕ) → i < suc n
        → copy_bytes bytes (from + 1) (to + 1) n (store m to (bytes from)) (to + i)
          ≡ bytes (from + i)
    first ih zero lt =
        ih.others (to + 0) (inl (omega arith))
        ∙ (store_same m to (bytes from) (to + 0) (omega arith) ∙ ap bytes {x = from} (omega arith))
    first ih (suc i) lt =
        ap (copy_bytes bytes (from + 1) (to + 1) n (store m to (bytes from))) {y = to + 1 + i}
          (omega arith)
        ∙ (ih.bytes_at i (omega arith) ∙ ap bytes {x = from + 1 + i} (omega arith))

deliver-Delivered :
    (bytes : ℕ → ℕ) (buf offset index length : ℕ) (m : Memory)
    → buf + index + length ≤ task_size
    → Delivered bytes offset (buf + index) length m (deliver bytes buf offset index length m)
unfolding deliver copy_to_user verify_area
deliver-Delivered bytes buf offset index length m h =
    elim (Bool-cases (ltb ((buf + offset) % 2 ^ 64) task_size)) [
      | inl user ↦ rw (user, ok) (copy_bytes-Delivered bytes offset (buf + index) length m)
      | inr kernel ↦ rw kernel (copy_bytes-Delivered bytes offset (buf + index) length m)
    ]
  where
    ok : leb ((buf + index + length) % 2 ^ 64) task_size ≡ true
    ok = ground (arith, h)

-- The first sector of a cluster: the clusters are numbered from 2 on.
abbrev pub first_sector : Sb → (clus : ℕ) → ℕ
first_sector sb clus =
    (sb.fst_data_sector + (clus + 2 ^ 64 - 2) % 2 ^ 64 * sb.sec_per_clus) % 2 ^ 64

module _ (D : Device) (sb : Sb) (d : D.Disk) where
  -- The cluster behind a cluster, and the bytes of a cluster.
  abbrev pub next_of : ℕ → ℕ
  next_of c = fat32_table_read D sb (c % 2 ^ 32) d

  abbrev pub cluster : ℕ → ℕ → ℕ
  cluster c = D.read (first_sector sb c) sb.sec_per_clus d

  -- The byte at a place of the clusters that the table links from a cluster on.
  pub data ChainByte : (c i b : ℕ) → Type 0 where
    in_first : {c i : ℕ} → i < sb.byte_per_clus → ChainByte c i (cluster c i)
    in_rest :
        {c i b : ℕ}
        → next_of c ≢ 0
        → ChainByte (next_of c) i b
        → ChainByte c (sb.byte_per_clus + i) b

  -- The clusters linked from a cluster on have `total` bytes.
  pub data ChainEnds : (c total : ℕ) → Type 0 where
    last_one : {c : ℕ} → next_of c ≡ 0 → ChainEnds c sb.byte_per_clus
    one_more :
        {c total : ℕ}
        → next_of c ≢ 0
        → ChainEnds (next_of c) total
        → ChainEnds c (sb.byte_per_clus + total)

  -- The first `n` bytes of the chain from the place `from` on are delivered: all that were asked for,
  -- or all that the chain has.
  pub record ReadUpTo (c from n rem to : ℕ) (m r : Memory) : Type 0 where
    pub at_most : n ≤ rem
    pub bytes_at : (j : ℕ) → j < n → ChainByte c (from + j) (r (to + j))
    pub others : (a : ℕ) → (a < to) ⊎ (to + n ≤ a) → r a ≡ m a
    pub stop : (n ≡ rem) ⊎ ((n < rem) × ChainEnds c (from + n))

  data Looped (c from index rem buf : ℕ) (m : Memory) : Option (ℕ × ℕ × Memory) → Type 0 where
    looped :
        {n : ℕ} {r : Memory}
        → ReadUpTo c from n rem (buf + index) m r
        → Looped c from index rem buf m (some (index + n, rem - n, r))

  module _ (c from index rem buf : ℕ) (m : Memory) where
    abbrev piece : ℕ
    piece = min (sb.byte_per_clus - from) (min rem sb.byte_per_clus)

    abbrev after : Memory
    after = deliver (cluster c) buf from index piece m

    here_byte :
        (r : Memory)
        → buf + index + rem ≤ task_size
        → from < sb.byte_per_clus
        → (j : ℕ) → j < piece
        → r (buf + index + j) ≡ after (buf + index + j)
        → ChainByte c (from + j) (r (buf + index + j))
    here_byte r fits inside j lt same =
        subst (ChainByte c (from + j))
          (sym (
            same
            ∙ (deliver-Delivered (cluster c) buf from index piece m (omega arith)).bytes_at j lt))
          (in_first (omega arith))

    stopped :
        buf + index + rem ≤ task_size
        → from < sb.byte_per_clus
        → (rem - piece == 0 || next_of c == 0) ≡ true
        → Looped c from index rem buf m (some (index + piece, rem - piece, after))
    stopped fits inside test = looped {n = piece} (record {
      at_most = omega arith;
      bytes_at = λ j lt. here_byte after fits inside j lt refl;
      others = (deliver-Delivered (cluster c) buf from index piece m (omega arith)).others;
      stop = elim (Bool-cases (rem - piece == 0)) [
        | inl all ↦ inl (omega (arith, number all))
        | inr part ↦ inr (
          omega (arith, not_number part),
          subst (ChainEnds c) (omega (arith, not_number part))
              (last_one (ground (arith, test, part))),
        )
      ];
    })
      where
        number : {x : ℕ} → (x == 0) ≡ true → x ≡ 0
        number h = ground (arith, h)

        not_number : {x : ℕ} → (x == 0) ≡ false → 0 < x
        not_number h = ground (arith, h)

    went_on :
        buf + index + rem ≤ task_size
        → from < sb.byte_per_clus
        → (rem - piece == 0 || next_of c == 0) ≡ false
        → {o : Option (ℕ × ℕ × Memory)}
        → Looped (next_of c) 0 (index + piece) (rem - piece) buf after o
        → Looped c from index rem buf m o
    went_on fits inside test (looped {n} {r} h) =
        subst (λ (x : ℕ × ℕ). Looped c from index rem buf m (some (x.0, x.1, r)))
          (ap₂ (λ x y. (x, y)) places left)
          (looped {n = piece + n} {r = r} (record {
            at_most = omega (arith, h.at_most);
            bytes_at = λ j lt. elim (Bool-cases (ltb j piece)) [
              | inl here ↦
                  here_byte r fits inside j (number_lt here)
                    (h.others (buf + index + j) (inl (omega (arith, number_lt here))))
              | inr later ↦ there (j - piece) j lt (omega (arith, number_le later))
            ];
            others = λ a out. h.others a (ground (arith, out)) ∙ d'.others a (ground (arith, out));
            stop = elim (h.stop) [
              | inl all ↦ inl (omega (arith, all, h.at_most))
              | inr (less, ends) ↦ inr (
                omega (arith, less),
                subst (ChainEnds c) (omega (arith, whole)) (one_more more ends),
              )
            ];
          }))
      where
        places : index + (piece + n) ≡ index + piece + n
        places = omega arith

        left : rem - (piece + n) ≡ rem - piece - n
        left = omega arith

        whole : from + piece ≡ sb.byte_per_clus
        whole = omega (arith, positive)
          where
            positive : 0 < rem - piece
            positive = ground (arith, test)

        more : next_of c ≢ 0
        more e = ground (arith, test, e)

        number_lt : {x y : ℕ} → ltb x y ≡ true → x < y
        number_lt h' = ground (arith, h')

        number_le : {x y : ℕ} → ltb x y ≡ false → y ≤ x
        number_le h' = ground (arith, h')

        d' : Delivered (cluster c) from (buf + index) piece m after
        d' = deliver-Delivered (cluster c) buf from index piece m (omega arith)

        there :
            (k j : ℕ) → j < piece + n → j ≡ piece + k → ChainByte c (from + j) (r (buf + index + j))
        there k j lt e =
            subst (λ x. ChainByte c x (r (buf + index + j))) (omega (arith, whole, e))
              (subst (λ x. ChainByte c (sb.byte_per_clus + (0 + k)) (r x)) (omega (arith, e))
                (in_rest more (h.bytes_at k (omega (arith, lt, e)))))

  read_loop-Looped :
      (fuel c from index rem buf : ℕ) (m : Memory)
      → rem < fuel
      → buf + index + rem ≤ task_size
      → from < sb.byte_per_clus
      → Looped c from index rem buf m (read_loop D sb fuel c from index rem buf d m)
  unfolding read_loop
  read_loop-Looped zero c from index rem buf m fuel fits inside = absurd (omega arith)
  read_loop-Looped (suc n) c from index rem buf m fuel fits inside =
      elim (Bool-cases (rem - piece c from index rem buf m == 0 || next_of c == 0)) [
        | inl end ↦ rw (end, read_loop) (stopped c from index rem buf m fits inside end)
        | inr more ↦
            rw (more, read_loop)
              (went_on c from index rem buf m fits inside more (
                read_loop-Looped n (next_of c) 0 (index + piece c from index rem buf m)
                  (rem - piece c from index rem buf m) buf _
                  (omega (arith, left (rem - piece c from index rem buf m) more)) (omega arith)
                  (omega arith)))
      ]
    where
      left : (x : ℕ) → (x == 0 || next_of c == 0) ≡ false → 0 < x
      left x h = ground (arith, h)

  -- The outcomes of a read, and what each leaves.
  pub data ReadResult (f : File) (buf rem : ℕ) (m : Memory) : Option Reading → Type 0 where
    complete :
        {r : Memory}
        → ReadUpTo
            (f.first_cluster + f.position / sb.byte_per_clus)
            (f.position % sb.byte_per_clus)
            rem
            rem
            buf
            m
            r
        → ReadResult f buf rem m (
            some
              (record { ret_val = some (rem % 2 ^ 32); position = f.position + rem; memory = r }))
    unset :
        {n : ℕ} {r : Memory}
        → n < rem
        → ChainEnds
            (f.first_cluster + f.position / sb.byte_per_clus)
            (f.position % sb.byte_per_clus + n)
        → ReadUpTo
            (f.first_cluster + f.position / sb.byte_per_clus)
            (f.position % sb.byte_per_clus)
            n
            rem
            buf
            m
            r
        → ReadResult f buf rem m
            (some (record { ret_val = none; position = f.position + n; memory = r }))

  pub fat32_read-remainder :
      (fuel : ℕ) (f : File) (buf count : ℕ) (m : Memory)
      → 0 < sb.byte_per_clus
      → remainder_of f count < fuel
      → buf + remainder_of f count ≤ task_size
      → ReadResult f buf (remainder_of f count) m (fat32_read D sb fuel f buf count d m)
  unfolding fat32_read
  fat32_read-remainder fuel f buf count m some_bytes enough fits = done (
      read_loop-Looped fuel (f.first_cluster + f.position / sb.byte_per_clus)
        (f.position % sb.byte_per_clus) 0 (remainder_of f count) buf m enough (omega (arith, fits))
        (mod-lt f.position some_bytes))
    where
      done :
          {o : Option (ℕ × ℕ × Memory)}
          → Looped
              (f.first_cluster + f.position / sb.byte_per_clus)
              (f.position % sb.byte_per_clus)
              0
              (remainder_of f count)
              buf
              m
              o
          → ReadResult f buf (remainder_of f count) m (read_done D sb f o)
      done (looped {n} {r} h) =
          let from_start =
            subst (λ b. ReadUpTo chain place n rem b m r) {x = buf + 0} (omega arith) h in
          elim (h.stop) [
            | inl all ↦
                rw (result all) (
                  complete {r = r} (subst (λ k. ReadUpTo chain place k rem buf m r) all from_start))
            | inr (less, ends) ↦ rw (short less) (unset {r = r} less ends from_start)
          ]
        where
          chain : ℕ
          chain = f.first_cluster + f.position / sb.byte_per_clus

          place : ℕ
          place = f.position % sb.byte_per_clus

          rem : ℕ
          rem = remainder_of f count

          result :
              n ≡ rem
              → read_done D sb f (some (0 + n, rem - n, r))
                ≡ some (record {
                  ret_val = some (rem % 2 ^ 32);
                  position = f.position + rem;
                  memory = r;
                })
          result e =
              let all : 0 + n ≡ rem = omega (arith, e) in
              let test : (rem - n == 0) ≡ true = ground (arith, e) in rw (all, test) refl

          short :
              n < rem
              → read_done D sb f (some (0 + n, rem - n, r))
                ≡ some (record { ret_val = none; position = f.position + n; memory = r })
          short lt =
              let same : 0 + n ≡ n = omega arith in
              let test : (rem - n == 0) ≡ false = ground (arith, lt) in rw (same, test) refl

  -- In a file, not behind its end, the read is cut at the end.
  cut :
      (f : File) (count : ℕ)
      → f.position ≤ f.file_size
      → f.file_size < 2 ^ 64
      → f.position + count < 2 ^ 64
      → remainder_of f count ≡ min count (f.file_size - f.position)
  unfolding remainder_of
  cut f count inside small_file small = ground arith

  -- From a position in the file or at its end, and with no sum over 64 bits: with a turn of fuel more
  -- than the bytes to read, which are those asked for or those up to the end of the file if they are
  -- less, `fat32_read` into user memory returns. It delivers, to exactly as many bytes from the buffer's
  -- address on, the bytes of the chain of clusters that the table links from first_cluster + position
  -- / byte_per_clus on, from place position % byte_per_clus; it moves the position by as many. It
  -- returns their number where these are all; else the chain has ended, and `ret_val` was never set.
  pub fat32_read-ReadResult :
      (fuel : ℕ) (f : File) (buf count : ℕ) (m : Memory)
      → 0 < sb.byte_per_clus
      → f.position ≤ f.file_size
      → f.file_size < 2 ^ 64
      → f.position + count < 2 ^ 64
      → min count (f.file_size - f.position) < fuel
      → buf + min count (f.file_size - f.position) ≤ task_size
      → ReadResult f buf
          (min count (f.file_size - f.position))
          m
          (fat32_read D sb fuel f buf count d m)
  fat32_read-ReadResult fuel f buf count m some_bytes inside small_file small enough fits =
      let e = cut f count inside small_file small in
      subst (λ n. ReadResult f buf n m (fat32_read D sb fuel f buf count d m)) e
        (fat32_read-remainder fuel f buf count m some_bytes (omega (arith, e, enough))
          (omega (arith, e, fits)))
