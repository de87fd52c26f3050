-- ===== src/Semaphore.antt =====
-- Wait queues (kernel/waitqueue.c) and semaphores (kernel/semaphore.c) over the scheduler. A waiter
-- is its task; the list of waiters is the wait queue from `next` on.
pub mod Laws
mod Tests
use talios.Base.{
  ℕ, ◌+◌, ◌-◌, Bool, Option, none, some, List, [], ◌∷◌, ◌++◌, ltb, ◌==◌, if◌then◌else◌, bit_and,
}
use talios.Sched.{Cpu, update, schedule, wakeup_process, task_runing, task_uninterruptable}

-- A processor beside a wait queue.
pub record Waiting : Type 0 where
  pub cpu : Cpu
  pub waiters : List ℕ

-- The tail of `sleep_on` and of `wake_up`.
unfoldable pub with_waiters : List ℕ → Option Cpu → Option Waiting
with_waiters ws none = none
with_waiters ws (some k) = some (record { cpu = k; waiters = ws })

unfoldable pub sleep_on : Waiting → Option Waiting
unfolding with_waiters
sleep_on w =
    let k = w.cpu in
    with_waiters (w.waiters ++ (k.current ∷ []))
      (schedule (record k { state = update k.state k.current task_uninterruptable }))

-- `wake_up` on a wait queue.
unfoldable pub wake_in : (mask : ℕ) → List ℕ → Cpu → Option Waiting
unfolding with_waiters
wake_in mask [] k = some (record { cpu = k; waiters = [] })
wake_in mask (t ∷ ts) k =
    if bit_and (k.state t) mask == 0
    then some (record { cpu = k; waiters = t ∷ ts })
    else with_waiters ts (wakeup_process t k)

pub wake_up : (mask : ℕ) → Waiting → Option Waiting
unfolding wake_in
wake_up mask w = wake_in mask w.waiters w.cpu

-- `spin_lock` and `spin_unlock` on one processor: the lock is free, and the count of preemptions
-- that they forbid goes up and down.
unfoldable pub spin_lock : Cpu → Cpu
spin_lock k = record k {
  preempt_count = update k.preempt_count k.current (k.preempt_count k.current + 1);
}

unfoldable pub spin_unlock : Cpu → Cpu
spin_unlock k = record k {
  preempt_count = update k.preempt_count k.current (k.preempt_count k.current - 1);
}

-- `semaphore_t` and the processor that uses it.
pub record Semaphore : Type 0 where
  pub count : ℕ
  pub wait : Waiting

unfoldable pub with_count : ℕ → Option Waiting → Option Semaphore
with_count n none = none
with_count n (some w) = some (record { count = n; wait = w })

unfoldable pub locked : (Cpu → Cpu) → Waiting → Waiting
locked f w = record w { cpu = f w.cpu }

pub semaphore_init : ℕ → Cpu → Semaphore
semaphore_init n k = record { count = n; wait = record { cpu = k; waiters = [] } }

pub semaphore_acquire : Semaphore → Option Semaphore
unfolding spin_lock spin_unlock with_count locked sleep_on
semaphore_acquire s =
    let held = locked spin_lock s.wait in
    if ltb 0 s.count
    then some (record { count = s.count - 1; wait = locked spin_unlock held })
    else with_count s.count (sleep_on (locked spin_unlock held))

unfoldable pub unlock_after : Option Semaphore → Option Semaphore
unfolding spin_unlock locked
unlock_after none = none
unlock_after (some s) = some (record s { wait = locked spin_unlock s.wait })

-- `semaphore_release` on the wait queue that it finds.
unfoldable pub release_in : List ℕ → Semaphore → Option Semaphore
unfolding with_count
release_in [] s = some (record s { count = s.count + 1 })
release_in (t ∷ ts) s = with_count s.count (wake_up task_runing s.wait)

pub semaphore_release : Semaphore → Option Semaphore
unfolding spin_lock locked release_in unlock_after
semaphore_release s =
    unlock_after (release_in s.wait.waiters (record s { wait = locked spin_lock s.wait }))
