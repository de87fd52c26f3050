-- ===== src/Disk/Ports.antt =====
-- What the controller reads from the bytes that `cmd_out` (kernel/disk.c) puts out. In 48-bit mode each
-- of its registers keeps the last two bytes written to it, the first of them as the high one.
use talios.Base.{
  ℕ, ◌+◌, ◌*◌, ◌%◌, ◌^◌, ◌≡◌, ◌⊎◌, inl, inr, List, [], ◌∷◌, ◌==◌, if◌then◌else◌, arith, refl,
}
use talios.Disk.{
  Node, Out, byte, words, ata_read_cmd, ata_write_cmd, sector_num_port, sector_port, column1_port,
  column2_port, cmd_port, bits8, address_out, command_out,
}

-- The bytes that a port got, in order.
abbrev pub values : (port : ℕ) → List Out → List ℕ
values p [] = []
values p (words b ∷ os) = values p os
values p (byte q v ∷ os) = let rest = values p os in if q == p then v ∷ rest else rest

-- The high and the low byte of a register.
abbrev pub high : List ℕ → ℕ
high (h ∷ l ∷ []) = h
high _ = 0

abbrev pub low : List ℕ → ℕ
low (h ∷ l ∷ []) = l
low _ = 0

-- The sector, the number of sectors and the commands that the controller was given.
abbrev pub sector_given : List Out → ℕ
sector_given os =
    low (values sector_port os)
    + 2 ^ 8 * low (values column1_port os)
    + 2 ^ 16 * low (values column2_port os)
    + 2 ^ 24 * high (values sector_port os)
    + 2 ^ 32 * high (values column1_port os)
    + 2 ^ 40 * high (values column2_port os)

abbrev pub count_given : List Out → ℕ
count_given os = low (values sector_num_port os) + 2 ^ 8 * high (values sector_num_port os)

pub record Addressed (n : Node) (os : List Out) : Type 0 where
  pub sector : sector_given os ≡ n.lba % 2 ^ 48
  pub count : count_given os ≡ n.count % 2 ^ 16
  pub command : values cmd_port os ≡ n.cmd ∷ []

sector_bytes :
    (x : ℕ)
    → bits8 x 0
        + 2 ^ 8 * bits8 x 8
        + 2 ^ 16 * bits8 x 16
        + 2 ^ 24 * bits8 x 24
        + 2 ^ 32 * bits8 x 32
        + 2 ^ 40 * bits8 x 40
      ≡ x % 2 ^ 48
sector_bytes x = omega arith

count_bytes : (x : ℕ) → bits8 x 0 + 2 ^ 8 * bits8 x 8 ≡ x % 2 ^ 16
count_bytes x = omega arith

-- For a read or a write the controller gets exactly one command, the request's, with its sector and
-- its number of sectors, as far as 48 and 16 bits hold them.
pub command_out-Addressed :
    (n : Node) → (n.cmd ≡ ata_read_cmd) ⊎ (n.cmd ≡ ata_write_cmd) → Addressed n (command_out n)
unfolding command_out address_out
command_out-Addressed n (inl e) =
    rw e record { sector = sector_bytes n.lba; count = count_bytes n.count; command = refl }
command_out-Addressed n (inr e) =
    rw e record { sector = sector_bytes n.lba; count = count_bytes n.count; command = refl }
