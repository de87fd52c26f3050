-- ===== src/Sched/Run.antt =====
-- `schedule` (kernel/schedule.c): it ends, keeps the run queue in order, and runs a task of least time.
use talios.Base.{
  ℕ, ◌+◌, ◌≤◌, ◌<◌, ◌≡◌, ◌⊎◌, inl, inr, true, false, ◌||◌, not, Option, some, List, [], ◌∷◌, leb,
  ◌==◌, arith, refl, sym, ap, length, Bool-cases, min,
}
use mathlib.Core.Path.{subst}
use native.Mathlib.Nat.{le_refl, le_of_eq}
use talios.Sched.{
  Slice, Cpu, Walk, insert_task_queue, get_next_task, next_of, head_vrun_time, task_runing, queued,
  run_next, go_on, enter, leave, preempt, stay, decide, schedule, switch_to, slice,
}
use talios.Sched.Queue.{
  has, Distinct, Ascending, AllFrom, Ascending-AllFrom, Ascending-weaken, Insertion, was_there,
  put_in, place-Insertion,
}

-- The run queue by itself: ordered, without repetition or the idle task, and counted with the
-- current task.
pub record IsReady (k : Cpu) : Type 0 where
  pub ascending : Ascending k.vrun_time 0 k.queue
  pub distinct : Distinct k.queue
  pub counted : k.running_task_count ≡ length k.queue + 1
  pub idle_out : has k.idle k.queue ≡ false
  pub idle_time : k.vrun_time k.idle < head_vrun_time

-- The current task is not queued.
pub record IsValid (k : Cpu) : Type 0 where
  pub ready : IsReady k
  pub current_out : has k.current k.queue ≡ false
  pub current_time : k.vrun_time k.current < head_vrun_time

-- What `insert_task_queue` does with `t`, where the queue starts at `lo`.
pub data Inserted (lo t : ℕ) (k : Cpu) : Option Cpu → Type 0 where
  kept : (has t k.queue ≡ true) ⊎ (t ≡ k.idle) → Inserted lo t k (some k)
  added :
      {q : List ℕ}
      → (t == k.idle) ≡ false
      → Ascending k.vrun_time lo q
      → Distinct q
      → length q ≡ length k.queue + 1
      → ((x : ℕ) → has x q ≡ (x == t || has x k.queue))
      → Inserted lo t k (
          some (record k {
            queue = q;
            running_task_count = k.running_task_count + 1;
            min_vrun_time = min k.min_vrun_time (k.vrun_time t);
          }))

queued-Inserted :
    (lo t : ℕ) (k : Cpu) {w : Walk}
    → (t == k.idle) ≡ false
    → Insertion k.vrun_time lo t k.queue w
    → Inserted lo t k (queued t k w)
unfolding queued
queued-Inserted lo t k e (was_there i) = kept (inl i)
queued-Inserted lo t k e (put_in out asc dis len mem) = added e asc dis len mem

pub insert_task_queue-Inserted :
    (lo t : ℕ) (k : Cpu)
    → lo ≤ k.vrun_time t
    → k.vrun_time t < head_vrun_time
    → Ascending k.vrun_time lo k.queue
    → Distinct k.queue
    → Inserted lo t k (insert_task_queue t k)
unfolding insert_task_queue
insert_task_queue-Inserted lo t k a b asc dis = elim (Bool-cases (t == k.idle)) [
  | inl idle ↦ rw idle (kept (inr (ground arith)))
  | inr task ↦
      rw task (queued-Inserted lo t k task (place-Insertion k.vrun_time lo t k.queue a b asc dis))
]

-- What `schedule` leaves: a valid processor whose current task has the least time.
pub data Scheduled : Option Cpu → Type 0 where
  scheduled :
      {k : Cpu}
      → IsValid k
      → AllFrom k.vrun_time (k.vrun_time k.current) k.queue
      → Scheduled (some k)

-- A queue from which `task` was taken, and the current task beside it.
record Chosen (task : ℕ) (k : Cpu) : Type 0 where
  ready : IsReady k
  later : Ascending k.vrun_time (k.vrun_time task) k.queue
  task_out : has task k.queue ≡ false
  task_time : k.vrun_time task < head_vrun_time
  current_out : has k.current k.queue ≡ false
  current_time : k.vrun_time k.current < head_vrun_time

-- The same queue with `task` running.
run_kept : (task : ℕ) (k : Cpu) → Chosen task k → Scheduled (run_next task (some k))
unfolding run_next switch_to
run_kept task k c =
    scheduled
      (record {
        ready = record {
          ascending = c.ready.ascending;
          distinct = c.ready.distinct;
          counted = c.ready.counted;
          idle_out = c.ready.idle_out;
          idle_time = c.ready.idle_time;
        };
        current_out = c.task_out;
        current_time = c.task_time;
      })
      (Ascending-AllFrom k.vrun_time _ _ k.queue (le_refl (k.vrun_time task)) c.later)

-- The time slice plays no part.
Chosen-slice :
    (task : ℕ) (k : Cpu) (x : Slice) → Chosen task k → Chosen task (record k { exec_jiffies = x })
Chosen-slice task k x c = record {
  ready = record {
    ascending = c.ready.ascending;
    distinct = c.ready.distinct;
    counted = c.ready.counted;
    idle_out = c.ready.idle_out;
    idle_time = c.ready.idle_time;
  };
  later = c.later;
  task_out = c.task_out;
  task_time = c.task_time;
  current_out = c.current_out;
  current_time = c.current_time;
}

-- The queue that an insertion leaves, with the current task in it or not.
run_next-Scheduled :
    (task : ℕ) (k : Cpu) {r : Option Cpu}
    → Chosen task k
    → (k.current == task) ≡ false
    → Inserted (k.vrun_time task) k.current k r
    → Scheduled (run_next task r)
unfolding run_next switch_to
run_next-Scheduled task k c other (kept _) = run_kept task k c
run_next-Scheduled task k c other (added {q} e asc dis len mem) =
    scheduled
      (record {
        ready = record {
          ascending = Ascending-weaken k.vrun_time (k.vrun_time task) 0 q (omega arith) asc;
          distinct = dis;
          counted = omega (arith, len, c.ready.counted);
          idle_out = ground (arith, mem k.idle, c.ready.idle_out);
          idle_time = c.ready.idle_time;
        };
        current_out = ground (arith, mem task, c.task_out);
        current_time = c.task_time;
      })
      (Ascending-AllFrom k.vrun_time _ _ q (le_refl (k.vrun_time task)) asc)

preempt-Scheduled :
    (task : ℕ) (k : Cpu)
    → Chosen task k
    → (k.current == task) ≡ false
    → (leb (k.vrun_time task) (k.vrun_time k.current) || not (k.state k.current == task_runing))
      ≡ true
    → Scheduled (preempt task k)
unfolding preempt
preempt-Scheduled task k c other test = elim (Bool-cases (k.state k.current == task_runing)) [
  | inr blocked ↦ rw (blocked, preempt) (run_kept task _ c')
  | inl running ↦
      rw (running, preempt)
        (run_next-Scheduled task _ c' other (
          insert_task_queue-Inserted (k.vrun_time task) k.current
            (record k { exec_jiffies = slice 0 }) (ground arith) c.current_time c.later
            c.ready.distinct))
]
  where
    c' : Chosen task (record k { exec_jiffies = slice 0 })
    c' = Chosen-slice task k (slice 0) c

go_on-Scheduled :
    (task : ℕ) (k : Cpu) {r : Option Cpu}
    → Chosen task k
    → k.vrun_time k.current < k.vrun_time task
    → Inserted (k.vrun_time k.current) task k r
    → Scheduled (go_on task r)
unfolding go_on leave
go_on-Scheduled task k c less (kept _) =
    scheduled
      (record {
        ready = record {
          ascending = c.ready.ascending;
          distinct = c.ready.distinct;
          counted = c.ready.counted;
          idle_out = c.ready.idle_out;
          idle_time = c.ready.idle_time;
        };
        current_out = c.current_out;
        current_time = c.current_time;
      })
      (Ascending-AllFrom k.vrun_time (k.vrun_time task) _ k.queue (omega arith) c.later)
go_on-Scheduled task k c less (added {q} e asc dis len mem) =
    scheduled
      (record {
        ready = record {
          ascending = Ascending-weaken k.vrun_time (k.vrun_time k.current) 0 q (omega arith) asc;
          distinct = dis;
          counted = omega (arith, len, c.ready.counted);
          idle_out = ground (arith, mem k.idle, c.ready.idle_out);
          idle_time = c.ready.idle_time;
        };
        current_out = ground (arith, mem k.current, c.current_out, differ);
        current_time = c.current_time;
      })
      (Ascending-AllFrom k.vrun_time _ _ q (le_refl (k.vrun_time k.current)) asc)
  where
    same_time : k.current ≡ task → k.vrun_time k.current ≡ k.vrun_time task
    same_time h = cc

    differ : (k.current == task) ≡ false
    differ = elim (Bool-cases (k.current == task)) [
      | inr d ↦ d
      | inl same ↦ absurd (omega (arith, same_time (ground arith)))
    ]

stay-Scheduled :
    (task : ℕ) (k : Cpu)
    → Chosen task k
    → k.vrun_time k.current < k.vrun_time task
    → Scheduled (stay task k)
unfolding stay
stay-Scheduled task k c less = go_on-Scheduled task k c less (
    insert_task_queue-Inserted (k.vrun_time k.current) task k (omega arith) c.task_time
      (Ascending-weaken k.vrun_time (k.vrun_time task) (k.vrun_time k.current) k.queue (omega arith)
        c.later)
      c.ready.distinct)

leave-Scheduled :
    {task : ℕ} (k : Cpu) → Chosen task k → k.current ≡ task → Scheduled (some (leave k))
unfolding leave
leave-Scheduled {task} k c same =
    scheduled
      (record {
        ready = record {
          ascending = c.ready.ascending;
          distinct = c.ready.distinct;
          counted = c.ready.counted;
          idle_out = c.ready.idle_out;
          idle_time = c.ready.idle_time;
        };
        current_out = c.current_out;
        current_time = c.current_time;
      })
      (Ascending-AllFrom k.vrun_time (k.vrun_time task) (k.vrun_time k.current) k.queue
        (le_of_eq (ap k.vrun_time same)) c.later)

decide-Scheduled :
    (task : ℕ) (k : Cpu)
    → IsReady k
    → Ascending k.vrun_time (k.vrun_time task) k.queue
    → has task k.queue ≡ false
    → k.vrun_time task < head_vrun_time
    → has k.current k.queue ≡ false
    → k.vrun_time k.current < head_vrun_time
    → Scheduled (decide (task, k))
unfolding decide
decide-Scheduled task k ready later out time cur_out cur_time =
    elim (Bool-cases
      (leb (k.vrun_time task) (k.vrun_time k.current) || not (k.state k.current == task_runing))) [
        | inr less ↦ rw less (stay-Scheduled task k c (ground arith))
        | inl test ↦ elim (Bool-cases (k.current == task)) [
          | inr other ↦ rw (test, other) (preempt-Scheduled task k c other test)
          | inl same ↦ rw (test, same) (leave-Scheduled k c (ground arith))
        ]
      ]
  where
    c : Chosen task k
    c = record {
      ready = ready;
      later = later;
      task_out = out;
      task_time = time;
      current_out = cur_out;
      current_time = cur_time;
    }

enter-IsValid : (k : Cpu) → IsValid k → IsValid (enter k)
unfolding enter
enter-IsValid k v = record {
  ready = record {
    ascending = v.ready.ascending;
    distinct = v.ready.distinct;
    counted = v.ready.counted;
    idle_out = v.ready.idle_out;
    idle_time = v.ready.idle_time;
  };
  current_out = v.current_out;
  current_time = v.current_time;
}

next_of-Scheduled :
    (q : List ℕ) (k : Cpu) → k.queue ≡ q → IsValid k → Scheduled (decide (next_of q k))
unfolding next_of
next_of-Scheduled [] k e v =
    decide-Scheduled k.idle _
      (record {
        ascending = v.ready.ascending;
        distinct = v.ready.distinct;
        counted = v.ready.counted;
        idle_out = v.ready.idle_out;
        idle_time = v.ready.idle_time;
      })
      (subst (λ r. Ascending k.vrun_time (k.vrun_time k.idle) r) (sym e) tt) v.ready.idle_out
      v.ready.idle_time v.current_out v.current_time
next_of-Scheduled (t ∷ rest) k e v =
    let (low, high, later) = subst (λ r. Ascending k.vrun_time 0 r) e v.ready.ascending in
    let (out, dis) = subst Distinct e v.ready.distinct in
    let cur = subst (λ r. has k.current r ≡ false) e v.current_out in
    let idle = subst (λ r. has k.idle r ≡ false) e v.ready.idle_out in
    let count = subst (λ r. k.running_task_count ≡ length r + 1) e v.ready.counted in
    decide-Scheduled t _
      (record {
        ascending = Ascending-weaken k.vrun_time (k.vrun_time t) 0 rest (omega arith) later;
        distinct = dis;
        counted = omega (arith, count);
        idle_out = ground (arith, idle);
        idle_time = v.ready.idle_time;
      })
      later out high (ground (arith, cur)) v.current_time

-- From a valid processor `schedule` ends. It leaves a valid processor: the run queue is in order of
-- `vrun_time`, without repetition, holds neither the current nor the idle task, and with the current
-- task makes up `running_task_count` (so the count it divides by is not 0). No task of the queue
-- has less `vrun_time` than the one that then runs.
pub schedule-Scheduled : (k : Cpu) → IsValid k → Scheduled (schedule k)
unfolding schedule enter get_next_task
schedule-Scheduled k v = next_of-Scheduled k.queue (enter k) refl (enter-IsValid k v)
