-- ===== src/Sched/Tests.antt =====
-- Runs of kernel/schedule.c on a processor with two queued tasks, and its theorem at it.
use talios.Base.{ℕ, refl, arith, [], ◌∷◌, ◌==◌, if◌then◌else◌}
use talios.Sched.{Cpu, slice, schedule}
use talios.Sched.Run.{IsValid, Scheduled, schedule-Scheduled}

-- Task 1 runs, 2 and 3 wait, 0 is the idle task.
abbrev times : ℕ → ℕ
times t = if t == 1 then 9 else if t == 2 then 5 else if t == 3 then 7 else 0

abbrev cpu : Cpu
cpu = record {
  idle = 0;
  current = 1;
  queue = 2 ∷ 3 ∷ [];
  running_task_count = 3;
  exec_jiffies = slice 0;
  min_vrun_time = 0;
  state = λ t. 0;
  flags = λ t. 0;
  preempt_count = λ t. 0;
  priority = λ t. 0;
  vrun_time = times;
}

cpu-IsValid : IsValid cpu
cpu-IsValid = record {
  ready = record {
    ascending = omega arith;
    distinct = (refl, (refl, tt));
    counted = refl;
    idle_out = refl;
    idle_time = omega arith;
  };
  current_out = refl;
  current_time = omega arith;
}

schedule-Scheduled_example : Scheduled (schedule cpu)
schedule-Scheduled_example = schedule-Scheduled cpu cpu-IsValid
