-- ===== src/Semaphore/Tests.antt =====
-- The theorems on kernel/semaphore.c and kernel/waitqueue.c at a processor with one waiting task.
use talios.Base.{◌≡◌, refl, arith, some, [], ◌∷◌, ◌==◌, if◌then◌else◌}
use talios.Sched.{Cpu, slice}
use talios.Sched.Run.{IsReady}
use talios.Semaphore.{Waiting, Semaphore, semaphore_release}
use talios.Semaphore.Laws.{SameWaiters, semaphore_release-lost}

-- Task 1 runs, 2 is queued, 4 sleeps.
abbrev cpu : Cpu
cpu = record {
  idle = 0;
  current = 1;
  queue = 2 ∷ [];
  running_task_count = 2;
  exec_jiffies = slice 0;
  min_vrun_time = 0;
  state = λ t. if t == 4 then 1 else 0;
  flags = λ t. 0;
  preempt_count = λ t. 0;
  priority = λ t. 0;
  vrun_time = λ t. t;
}

abbrev waiting : Waiting
waiting = record { cpu = cpu; waiters = 4 ∷ [] }

abbrev taken : Semaphore
taken = record { count = 0; wait = waiting }

cpu-IsReady : IsReady cpu
cpu-IsReady = record {
  ascending = omega arith;
  distinct = (refl, tt);
  counted = refl;
  idle_out = refl;
  idle_time = omega arith;
}

semaphore_release-lost_example :
    (r : Semaphore) × (semaphore_release taken ≡ some r) × SameWaiters taken r
semaphore_release-lost_example = semaphore_release-lost taken 4 [] refl
