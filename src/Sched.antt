-- ===== src/Sched.antt =====
-- The scheduler of one processor: kernel/schedule.c, `wakeup_process` of kernel/task.c, the timer
-- tick of kernel/hpet.c, the wait queues of kernel/waitqueue.c and the semaphores of
-- kernel/semaphore.c. A task is its number; the fields of `TaskStruct` are functions of it.
pub mod Queue
pub mod Run
mod Tests
use talios.Base.{
  ℕ, zero, suc, ◌+◌, ◌-◌, ◌*◌, ◌/◌, ◌^◌, Bool, true, false, ◌||◌, ◌&&◌, not, Option, none, some,
  List, [], ◌∷◌, ◌++◌, ltb, leb, ◌==◌, if◌then◌else◌, bit_and, bit_or, min,
}

-- TASK_RUNING and TASK_UNINTERRUPTABLE
abbrev pub task_runing : ℕ
task_runing = 0

abbrev pub task_uninterruptable : ℕ
task_uninterruptable = 1

-- NEED_SCHEDULE
abbrev pub need_schedule : ℕ
need_schedule = 2

-- `vrun_time` of the list head of the run queue
abbrev pub head_vrun_time : ℕ
head_vrun_time = 0x7fffffffffffffff

-- The time slice is a `long` that the tick takes below zero: it is `up - down`.
pub record Slice : Type 0 where
  pub up : ℕ
  pub down : ℕ

abbrev pub expired : Slice → Bool
expired s = leb s.up s.down

abbrev pub is_zero : Slice → Bool
is_zero s = s.up == s.down

abbrev pub slice : ℕ → Slice
slice n = record { up = n; down = 0 }

-- `struct scheduler` of the processor, with the tasks that it names. `idle` is its init task.
pub record Cpu : Type 0 where
  pub idle : ℕ
  pub current : ℕ
  pub queue : List ℕ
  pub running_task_count : ℕ
  pub exec_jiffies : Slice
  pub min_vrun_time : ℕ
  pub state : ℕ → ℕ
  pub flags : ℕ → ℕ
  pub preempt_count : ℕ → ℕ
  pub priority : ℕ → ℕ
  pub vrun_time : ℕ → ℕ

abbrev pub update : (ℕ → ℕ) → ℕ → ℕ → ℕ → ℕ
update f i v j = if j == i then v else f j

-- `get_next_task` on a queue.
unfoldable pub next_of : List ℕ → Cpu → ℕ × Cpu
next_of [] k = (k.idle, record k { min_vrun_time = k.vrun_time k.current })
next_of (t ∷ rest) k = (
  t,
  record k {
    queue = rest;
    running_task_count = k.running_task_count - 1;
    min_vrun_time = min (k.vrun_time t) (k.vrun_time k.current);
  },
)

unfoldable pub get_next_task : Cpu → ℕ × Cpu
unfolding next_of
get_next_task k = next_of k.queue k

-- How the walk of `insert_task_queue` ends.
pub data Walk : Type 0 where
  placed : List ℕ → Walk
  present : Walk
  runs_on : Walk

abbrev pub behind : ℕ → Walk → Walk
behind t (placed q) = placed (t ∷ q)
behind t present = present
behind t runs_on = runs_on

-- The loop, with the link before the task where it stops. Where even the list head's `vrun_time` is
-- not larger it goes round for ever.
unfoldable pub walk : (ℕ → ℕ) → ℕ → List ℕ → Walk
walk vrun task [] = if leb head_vrun_time (vrun task) then runs_on else placed (task ∷ [])
walk vrun task (t ∷ ts) =
    let rest = behind t (walk vrun task ts) in
    if leb (vrun t) (vrun task)
    then (if t == task then present else rest)
    else placed (task ∷ t ∷ ts)

-- An empty queue takes the task with no loop.
unfoldable pub place : (ℕ → ℕ) → ℕ → List ℕ → Walk
unfolding walk
place vrun task [] = placed (task ∷ [])
place vrun task (t ∷ ts) = walk vrun task (t ∷ ts)

-- The lines behind the loop. `none`: the loop does not end.
unfoldable pub queued : ℕ → Cpu → Walk → Option Cpu
queued task k present = some k
queued task k runs_on = none
queued task k (placed q) = some (record k {
  queue = q;
  running_task_count = k.running_task_count + 1;
  min_vrun_time = min k.min_vrun_time (k.vrun_time task);
})

unfoldable pub insert_task_queue : ℕ → Cpu → Option Cpu
unfolding place queued
insert_task_queue task k =
    if task == k.idle then some k else queued task k (place k.vrun_time task k.queue)

-- The `switch` on the priority, when the slice is to be set. A priority of 3 or more keeps the slice
-- in the first of the two places of `schedule`, and is `default` in the second.
unfoldable pub quantum : (default : Slice) → (priority count : ℕ) → Slice
quantum default priority count =
    if leb priority 1
    then slice (4 / count)
    else if priority == 2
    then slice (4 / count * 3)
    else default

-- SWITCH_TO: the processor goes on in `task`, and `__Switch_To` undoes the count of the other.
unfoldable pub switch_to : ℕ → Cpu → Cpu
switch_to task k = record k {
  current = task;
  preempt_count = update k.preempt_count k.current (k.preempt_count k.current - 1);
}

-- `schedule` on its first two lines
unfoldable pub enter : Cpu → Cpu
enter k = record k {
  preempt_count = update k.preempt_count k.current (k.preempt_count k.current + 1);
  flags = update k.flags k.current (bit_and (k.flags k.current) (2 ^ 64 - 1 - need_schedule));
}

unfoldable pub leave : Cpu → Cpu
leave k = record k {
  preempt_count = update k.preempt_count k.current (k.preempt_count k.current - 1);
}

-- What the branch that switches does after the insertion: `task` runs next.
unfoldable pub run_next : ℕ → Option Cpu → Option Cpu
unfolding quantum switch_to
run_next task none = none
run_next task (some r) = some (
    switch_to task
      (record r { exec_jiffies = quantum r.exec_jiffies (r.priority task) r.running_task_count }))

-- A current task that can run goes back to the queue.
unfoldable pub preempt : ℕ → Cpu → Option Cpu
unfolding insert_task_queue run_next
preempt task k =
    let k' = record k { exec_jiffies = slice 0 } in
    run_next task
      (if k.state k.current == task_runing then insert_task_queue k.current k' else some k')

-- What the branch that stays does after the insertion.
unfoldable pub go_on : ℕ → Option Cpu → Option Cpu
unfolding quantum leave
go_on task none = none
go_on task (some r) = some (
    leave (record r {
      exec_jiffies =
          if is_zero r.exec_jiffies
          then quantum (slice (4 / r.running_task_count * 3)) (r.priority task) r.running_task_count
          else r.exec_jiffies;
    }))

-- `task` goes back to the queue.
unfoldable pub stay : ℕ → Cpu → Option Cpu
unfolding insert_task_queue go_on
stay task k = go_on task (insert_task_queue task k)

unfoldable pub decide : ℕ × Cpu → Option Cpu
decide (task, k) =
    if leb (k.vrun_time task) (k.vrun_time k.current) || not (k.state k.current == task_runing)
    then (if k.current == task then some (leave k) else preempt task k)
    else stay task k

pub schedule : Cpu → Option Cpu
schedule k = decide (get_next_task (enter k))

-- The last line of `wakeup_process`
unfoldable pub ask_schedule : Option Cpu → Option Cpu
ask_schedule none = none
ask_schedule (some r) =
    some (record r { flags = update r.flags r.current (bit_or (r.flags r.current) need_schedule) })

unfoldable pub wakeup_process : ℕ → Cpu → Option Cpu
unfolding insert_task_queue ask_schedule
wakeup_process task k =
    ask_schedule (insert_task_queue task (record k { state = update k.state task task_runing }))

-- The part of `hpet_handler` that charges the current task.
unfoldable pub charge : Cpu → Cpu
charge k =
    if leb (k.priority k.current) 1 then tick 1 else if k.priority k.current == 2 then tick 2 else k
  where
    tick : ℕ → Cpu
    tick n = record k {
      exec_jiffies = record (k.exec_jiffies) { down = k.exec_jiffies.down + n };
      vrun_time = update k.vrun_time k.current (k.vrun_time k.current + n);
    }

unfoldable pub request_schedule : Cpu → Cpu
request_schedule k =
    if expired k.exec_jiffies
    then record k { flags = update k.flags k.current (bit_or (k.flags k.current) need_schedule) }
    else k

-- `hpet_handler`, without the timer list.
pub hpet_tick : Cpu → Cpu
unfolding charge request_schedule
hpet_tick k = request_schedule (charge k)
