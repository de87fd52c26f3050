-- ===== src/Fat/Table.antt =====
-- The allocation table of kernel/fat32.c: what `fat32_table_write` puts where `fat32_table_read` looks.
use talios.Base.{
  ℕ, ◌+◌, ◌*◌, ◌/◌, ◌%◌, ◌^◌, ◌<◌, ◌≡◌, ◌≢◌, true, false, ltb, ◌==◌, if◌then◌else◌, arith, refl,
  sym, ap, ap₂, ◌∙◌, Bool-cases, inl, inr,
}
use mathlib.Core.Path.{subst}
use talios.Fat.{
  Device, DeviceLaws, Sb, word_at, store_word, per_sector, fat32_table_read, fat32_table_write,
}

word_of-bytes :
    (v : ℕ)
    → v < 2 ^ 32
    → v % 256 + 256 * (v / 256 % 256) + 65536 * (v / 65536 % 256) + 16777216 * (v / 16777216 % 256)
      ≡ v
word_of-bytes v h = omega arith

place_of : (k b : ℕ) → b < 4 → ((4 * k + b) / 4 ≡ k) × ((4 * k + b) % 4 ≡ b)
place_of k b h = (omega arith, omega arith)

stored :
    (bytes : ℕ → ℕ) (k v b : ℕ) {j : ℕ}
    → b < 4
    → j ≡ 4 * k + b
    → store_word bytes k v j ≡ v / 256 ^ b % 256
stored bytes k v b {j} h e = rw (test, digit) refl
  where
    test : (j / 4 == k) ≡ true
    test = ground (arith, e, (place_of k b h).0)

    digit : j % 4 ≡ b
    digit = ap (λ x. x % 4) e ∙ (place_of k b h).1

not_stored :
    (bytes : ℕ → ℕ) (k v b i : ℕ) {j : ℕ}
    → b < 4
    → j ≡ 4 * i + b
    → i ≢ k
    → store_word bytes k v j ≡ bytes j
not_stored bytes k v b i {j} h e ne = rw test refl
  where
    there : j / 4 ≡ i
    there = ap (λ x. x / 4) e ∙ (place_of i b h).0

    test : (j / 4 == k) ≡ false
    test = ground (arith, there, ne)

word_at-store_word : (bytes : ℕ → ℕ) (k v : ℕ) → v < 2 ^ 32 → word_at (store_word bytes k v) k ≡ v
word_at-store_word bytes k v h = omega (
  arith,
  stored bytes k v 0 {j = 4 * k} (omega arith) (omega arith),
  stored bytes k v 1 {j = 4 * k + 1} (omega arith) refl,
  stored bytes k v 2 {j = 4 * k + 2} (omega arith) refl,
  stored bytes k v 3 {j = 4 * k + 3} (omega arith) refl,
  word_of-bytes v h,
)

word_at-other :
    (bytes : ℕ → ℕ) (k v i : ℕ) → i ≢ k → word_at (store_word bytes k v) i ≡ word_at bytes i
word_at-other bytes k v i h = omega (
  arith,
  not_stored bytes k v 0 i {j = 4 * i} (omega arith) (omega arith) h,
  not_stored bytes k v 1 i {j = 4 * i + 1} (omega arith) refl h,
  not_stored bytes k v 2 i {j = 4 * i + 2} (omega arith) refl h,
  not_stored bytes k v 3 i {j = 4 * i + 3} (omega arith) refl h,
)

word_at-same :
    (f g : ℕ → ℕ) (k : ℕ) → k < 128 → ((j : ℕ) → j < 512 → f j ≡ g j) → word_at f k ≡ word_at g k
word_at-same f g k h same = omega (
  arith,
  same (4 * k) (omega arith),
  same (4 * k + 1) (omega arith),
  same (4 * k + 2) (omega arith),
  same (4 * k + 3) (omega arith),
)

-- What the table gives for a word.
abbrev pub entry : ℕ → ℕ
entry word = if ltb word 0xffffff7 then word else 0

module _ (D : Device) (L : DeviceLaws D) (sb : Sb) where
  -- What a write leaves: the entry, read back, the other entries of the table, and a second copy of
  -- the sector in the second table; no other sector changes.
  pub record TableWritten (index content : ℕ) (d r : D.Disk) : Type 0 where
    pub written : fat32_table_read D sb index r ≡ entry content
    pub entries :
        (i : ℕ)
        → i < 128 * sb.sec_per_fat
        → i ≢ index
        → fat32_table_read D sb i r ≡ fat32_table_read D sb i d
    pub copies :
        (j : ℕ)
        → j < 512
        → L.sector (sb.fat1_start_sector + index / 128 + sb.sec_per_fat) r j
          ≡ L.sector (sb.fat1_start_sector + index / 128) r j
    pub others :
        (s j : ℕ)
        → s ≢ sb.fat1_start_sector + index / 128
        → s ≢ sb.fat1_start_sector + index / 128 + sb.sec_per_fat
        → L.sector s r j ≡ L.sector s d j

  table_read_lem :
      (index : ℕ) (d : D.Disk)
      → per_sector sb ≡ 128
      → fat32_table_read D sb index d
        ≡ entry (word_at (L.sector (sb.fat1_start_sector + index / 128) d) (index % 128))
  unfolding fat32_table_read
  table_read_lem index d e =
      ap (λ p. entry (word_at (D.read (sb.fat1_start_sector + index / p) 1 d) (index % p))) e
      ∙ ap entry (
          word_at-same (D.read lba 1 d) (L.sector lba d) (index % 128) (omega arith) (λ j h.
            L.read_lem lba 1 j d (omega arith)
            ∙ ap₂ (λ x y. L.sector x d y) (omega arith) (omega arith)))
    where
      lba : ℕ
      lba = sb.fat1_start_sector + index / 128

  module _ (lba : ℕ) (bytes : ℕ → ℕ) (d : D.Disk) where
    abbrev twice : D.Disk
    twice = D.write (lba + sb.sec_per_fat) 1 bytes (D.write lba 1 bytes d)

    first_copy : (j : ℕ) → 0 < sb.sec_per_fat → j < 512 → L.sector lba twice j ≡ bytes j
    first_copy j some_fat h =
        L.kept (lba + sb.sec_per_fat) 1 lba j bytes (D.write lba 1 bytes d) (inl (omega arith))
        ∙ L.written lba j bytes d h

    second_copy : (j : ℕ) → j < 512 → L.sector (lba + sb.sec_per_fat) twice j ≡ bytes j
    second_copy j h = L.written (lba + sb.sec_per_fat) j bytes (D.write lba 1 bytes d) h

    other_sector :
        (s j : ℕ) → s ≢ lba → s ≢ lba + sb.sec_per_fat → L.sector s twice j ≡ L.sector s d j
    other_sector s j a b =
        L.kept (lba + sb.sec_per_fat) 1 s j bytes (D.write lba 1 bytes d) (ground (arith, b))
        ∙ L.kept lba 1 s j bytes d (ground (arith, a))

  -- On a disk of sectors of 512 bytes that keeps what is written, `fat32_table_write` of a word of 32
  -- bits at an entry of the table makes `fat32_table_read` give that word there, or 0 if it is an end
  -- of chain, and leaves every other entry of the table as it was. The second table gets the same
  -- sector, and no sector but these two changes.
  pub fat32_table_write-TableWritten :
      (index content : ℕ) (d : D.Disk)
      → sb.byte_per_sec ≡ 512
      → index < 128 * sb.sec_per_fat
      → content < 2 ^ 32
      → TableWritten index content d (fat32_table_write D sb index content d)
  unfolding fat32_table_write
  fat32_table_write-TableWritten index content d e low small =
      subst
        (λ p. TableWritten index content d (
          D.write (sb.fat1_start_sector + index / p + sb.sec_per_fat) 1
            (store_word (D.read (sb.fat1_start_sector + index / p) 1 d) (index % p) content)
            (D.write (sb.fat1_start_sector + index / p) 1
              (store_word (D.read (sb.fat1_start_sector + index / p) 1 d) (index % p) content) d)))
        (sym ps)
        (record {
          written =
              table_read_lem index r ps
              ∙ ap entry (
                  word_at-same (L.sector lba r) slice (index % 128) (omega arith)
                    (λ j h. first_copy lba slice d j fat h)
                  ∙ word_at-store_word old (index % 128) content small);
          entries = λ i h ne.
              table_read_lem i r ps ∙ (ap entry (words i h ne) ∙ sym (table_read_lem i d ps));
          copies = λ j h. second_copy lba slice d j h ∙ sym (first_copy lba slice d j fat h);
          others = other_sector lba slice d;
        })
    where
      ps : per_sector sb ≡ 128
      ps = ap (λ b. b / 2 ^ 2) e

      lba : ℕ
      lba = sb.fat1_start_sector + index / 128

      old : ℕ → ℕ
      old = D.read lba 1 d

      slice : ℕ → ℕ
      slice = store_word old (index % 128) content

      r : D.Disk
      r = twice lba slice d

      fat : 0 < sb.sec_per_fat
      fat = omega (arith, low)

      words :
          (i : ℕ)
          → i < 128 * sb.sec_per_fat
          → i ≢ index
          → word_at (L.sector (sb.fat1_start_sector + i / 128) r) (i % 128)
            ≡ word_at (L.sector (sb.fat1_start_sector + i / 128) d) (i % 128)
      words i h ne = elim (Bool-cases (i / 128 == index / 128)) [
        | inl same ↦
            let q : i / 128 ≡ index / 128 = ground (arith, same) in
            ap (λ x. word_at (L.sector (sb.fat1_start_sector + x) r) (i % 128)) q
            ∙ (word_at-same (L.sector lba r) slice (i % 128) (omega arith)
                  (λ j k. first_copy lba slice d j fat k)
                ∙ (word_at-other old (index % 128) content (i % 128) (λ m. ne (omega (arith, q, m)))
                    ∙ (word_at-same old (L.sector lba d) (i % 128) (omega arith) (λ j k.
                          L.read_lem lba 1 j d (omega arith)
                          ∙ ap₂ (λ x y. L.sector x d y) (omega arith) (omega arith))
                        ∙ ap (λ x. word_at (L.sector (sb.fat1_start_sector + x) d) (i % 128))
                            (sym q))))
        | inr other ↦
            let q : i / 128 ≢ index / 128 = λ m. ground (arith, other, m) in
            word_at-same (L.sector (sb.fat1_start_sector + i / 128) r)
              (L.sector (sb.fat1_start_sector + i / 128) d) (i % 128) (omega arith)
              (λ j k.
                other_sector lba slice d (sb.fat1_start_sector + i / 128) j
                  (λ m. q (omega (arith, m))) (λ m. omega (arith, m, h)))
      ]
