-- ===== src/Disk/Tests.antt =====
-- A read of two sectors of the disk and a request behind it, and the theorems of kernel/disk.c there.
use talios.Base.{some, [], ◌∷◌, arith, refl, inl}
use talios.Sched.{Cpu, slice}
use talios.Sched.Run.{IsReady}
use talios.Disk.{Node, Disk, ata_read_cmd, read_end, command_out, submit}
use talios.Disk.Ports.{Addressed, command_out-Addressed}
use talios.Disk.Queue.{
  IsQueue, Submitted, submit-Submitted, Ended, filled, sectors, interrupts, interrupts-Ended,
}

-- The idle task runs and nothing is queued.
abbrev cpu : Cpu
cpu = record {
  idle = 0;
  current = 0;
  queue = [];
  running_task_count = 1;
  exec_jiffies = slice 4;
  min_vrun_time = 0;
  state = λ t. t;
  flags = λ t. 0;
  preempt_count = λ t. 0;
  priority = λ t. 2;
  vrun_time = λ t. 0;
}

-- Task 1 reads two sectors and task 2 waits for another one.
abbrev reader : Node
reader = record {
  count = 2;
  cmd = ata_read_cmd;
  lba = 0x123456789;
  buffer = 0x1000;
  end_handler = read_end;
  tsk = 1;
}

abbrev second : Node
second = record {
  count = 1;
  cmd = ata_read_cmd;
  lba = 7;
  buffer = 0x2000;
  end_handler = read_end;
  tsk = 2;
}

abbrev disk : Disk
disk = record {
  in_using = some reader;
  waiting = second ∷ [];
  block_request_count = 1;
  outs = [];
  cpu = cpu;
  memory = λ a. 0;
}

disk-IsQueue : IsQueue disk
disk-IsQueue = record { counted = refl; busy = λ e. absurd (ground (arith, e)) }

cpu-IsReady : IsReady cpu
cpu-IsReady = record {
  ascending = omega arith;
  distinct = tt;
  counted = refl;
  idle_out = refl;
  idle_time = omega arith;
}

submit-Submitted_example : Submitted second disk (submit second disk)
submit-Submitted_example = submit-Submitted second disk disk-IsQueue

command_out-Addressed_example : Addressed reader (command_out reader)
command_out-Addressed_example = command_out-Addressed reader (inl refl)

interrupts-Ended_example :
    Ended reader disk
      (filled ((λ j. 5) ∷ (λ j. 6) ∷ []) 0x1000 (λ a. 0))
      (interrupts (sectors ((λ j. 5) ∷ (λ j. 6) ∷ [])) disk)
interrupts-Ended_example =
    interrupts-Ended (λ j. 5) ((λ j. 6) ∷ []) reader disk
      (record { queue = disk-IsQueue; node = refl; reads = refl; left = refl; small = omega arith })
      cpu-IsReady refl (omega arith)
