-- ===== src/Disk.antt =====
-- The requests to the disk: kernel/disk.c over the scheduler. The queue is the list of the requests
-- that wait, from the next one on. A port is its number; what the controller shows when it interrupts
-- is a parameter of each interrupt. kmalloc of a request is taken to succeed.
pub mod Ports
pub mod Queue
mod Tests
use talios.Base.{
  ℕ, suc, ◌+◌, ◌-◌, ◌/◌, ◌%◌, ◌^◌, Bool, true, false, ◌||◌, ◌&&◌, Option, none, some, List, [], ◌∷◌,
  ◌++◌, ltb, leb, ◌==◌, if◌then◌else◌,
}
use talios.Strings.{Memory}
use talios.Sched.{Cpu, update, wakeup_process, task_uninterruptable}

-- ATA_READ_CMD, ATA_WRITE_CMD and ATA_GET_DISK_ID_CMD
abbrev pub ata_read_cmd : ℕ
ata_read_cmd = 0x24

abbrev pub ata_write_cmd : ℕ
ata_write_cmd = 0x34

abbrev pub ata_get_disk_id_cmd : ℕ
ata_get_disk_id_cmd = 0xec

-- The ports of the secondary channel.
abbrev pub error_port : ℕ
error_port = 0x171

abbrev pub sector_num_port : ℕ
sector_num_port = 0x172

abbrev pub sector_port : ℕ
sector_port = 0x173

abbrev pub column1_port : ℕ
column1_port = 0x174

abbrev pub column2_port : ℕ
column2_port = 0x175

abbrev pub conf_port : ℕ
conf_port = 0x176

abbrev pub cmd_port : ℕ
cmd_port = 0x177

-- A byte to a port, or the 256 words at an address to the data port.
pub data Out : Type 0 where
  byte : (port value : ℕ) → Out
  words : (buffer : ℕ) → Out

-- `end_handler`
pub data Handler : Type 0 where
  read_end : Handler
  write_end : Handler
  other_end : Handler

-- `block_buffer_node`; `count` is an `unsigned int`.
pub record Node : Type 0 where
  pub count : ℕ
  pub cmd : ℕ
  pub lba : ℕ
  pub buffer : ℕ
  pub end_handler : Handler
  pub tsk : ℕ

-- `disk_request_queue`, what has been put out to the ports, and the processor and memory beside it.
pub record Disk : Type 0 where
  pub in_using : Option Node
  pub waiting : List Node
  pub block_request_count : ℕ
  pub outs : List Out
  pub cpu : Cpu
  pub memory : Memory

-- The case of ATA_GET_DISK_ID_CMD has no `break`.
pub make_request : (cmd blocks count buffer tsk : ℕ) → Node
make_request cmd blocks count buffer tsk = record {
  count = count % 2 ^ 32;
  cmd = cmd % 256;
  lba = blocks;
  buffer = buffer;
  end_handler =
      if cmd == ata_read_cmd
      then read_end
      else if cmd == ata_write_cmd
      then write_end
      else other_end;
  tsk = tsk;
}

-- GetBits(value, at, 8)
abbrev pub bits8 : (value at : ℕ) → ℕ
bits8 value at = value / 2 ^ at % 256

-- The first eleven writes of `cmd_out` for a read or a write: the high bytes, then the low bytes.
unfoldable pub address_out : Node → List Out
address_out n =
    byte conf_port 0x40
    ∷ byte error_port 0
    ∷ byte sector_num_port (bits8 n.count 8)
    ∷ byte sector_port (bits8 n.lba 24)
    ∷ byte column1_port (bits8 n.lba 32)
    ∷ byte column2_port (bits8 n.lba 40)
    ∷ byte error_port 0
    ∷ byte sector_num_port (bits8 n.count 0)
    ∷ byte sector_port (bits8 n.lba 0)
    ∷ byte column1_port (bits8 n.lba 8)
    ∷ byte column2_port (bits8 n.lba 16)
    ∷ []

-- What `cmd_out` puts out for a request.
unfoldable pub command_out : Node → List Out
unfolding address_out
command_out n =
    if n.cmd == ata_read_cmd
    then address_out n ++ (byte cmd_port n.cmd ∷ [])
    else if n.cmd == ata_write_cmd
    then address_out n ++ (byte cmd_port n.cmd ∷ words n.buffer ∷ [])
    else if n.cmd == ata_get_disk_id_cmd
    then byte conf_port 0xe0
      ∷ byte error_port 0
      ∷ byte sector_num_port 0
      ∷ byte sector_port 0
      ∷ byte column1_port 0
      ∷ byte column2_port 0
      ∷ byte cmd_port n.cmd
      ∷ []
    else []

-- The next request is started. Without one the code would take the list head for a request: `none`.
unfoldable pub start : List Node → Disk → Option Disk
unfolding command_out
start [] q = none
start (n ∷ ns) q = some (record q {
  in_using = some n;
  waiting = ns;
  block_request_count = q.block_request_count - 1;
  outs = q.outs ++ command_out n;
})

unfoldable pub cmd_out : Disk → Option Disk
unfolding start
cmd_out q = start q.waiting q

pub submit : Node → Disk → Option Disk
unfolding cmd_out
submit n q =
    let q' = record q {
      block_request_count = q.block_request_count + 1;
      waiting = q.waiting ++ (n ∷ []);
    } in
    elim (q.in_using) [ none ↦ cmd_out q' | some m ↦ some q' ]

-- `ide_transfer` up to the wait, which is `schedule` by then.
unfoldable pub ide_request : (cmd blocks count buffer : ℕ) → Disk → Option Disk
unfolding make_request submit
ide_request cmd blocks count buffer q =
    if cmd == ata_read_cmd || cmd == ata_write_cmd
    then submit (make_request cmd blocks count buffer q.cpu.current) (record q {
      cpu = record (q.cpu) { state = update q.cpu.state q.cpu.current task_uninterruptable };
    })
    else some q

unfoldable pub with_cpu : Disk → Option Cpu → Option Disk
with_cpu q none = none
with_cpu q (some k) = some (record q { cpu = k })

-- The last lines of `end_request` are those of `wakeup_process`.
unfoldable pub woken : ℕ → Option Disk → Option Disk
unfolding with_cpu
woken tsk none = none
woken tsk (some q) = with_cpu q (wakeup_process tsk q.cpu)

unfoldable pub end_request : Node → Disk → Option Disk
unfolding woken cmd_out
end_request n q =
    let idle = record q { in_using = none } in
    woken n.tsk (if q.block_request_count == 0 then some idle else cmd_out idle)

-- What the controller shows at an interrupt: its error and data bits, and the 512 bytes of its sector.
pub record Irq : Type 0 where
  pub error : Bool
  pub request : Bool
  pub bytes : ℕ → ℕ

-- port_insw of 256 words
abbrev pub insw : (ℕ → ℕ) → (buffer : ℕ) → Memory → Memory
insw bytes buffer m a = if leb buffer a && ltb a (buffer + 512) then bytes (a - buffer) else m a

-- The tail that the handlers of reads and writes share.
unfoldable pub sector_done : Node → Disk → Option Disk
unfolding end_request
sector_done n q =
    let n' = record n { count = (n.count + 2 ^ 32 - 1) % 2 ^ 32; buffer = n.buffer + 512 } in
    let q' = record q { in_using = some n' } in if n'.count == 0 then end_request n' q' else some q'

unfoldable pub handle : Irq → Node → Handler → Disk → Option Disk
unfolding sector_done
handle i n read_end q =
    if i.error
    then sector_done n q
    else if i.request
    then sector_done n (record q { memory = insw i.bytes n.buffer q.memory })
    else sector_done n q
handle i n write_end q = sector_done n q
handle i n other_end q = some q

-- Without a request in use the handler would follow NULL: `none`.
pub disk_irq_handler : Irq → Disk → Option Disk
unfolding handle
disk_irq_handler i q = elim (q.in_using) [ none ↦ none | some n ↦ handle i n n.end_handler q ]
