-- ===== src/Semaphore/Laws.antt =====
-- What `semaphore_acquire`, `semaphore_release` and `wake_up` do to counts, waiters and the run queue.
use talios.Base.{
  ℕ, ◌+◌, ◌-◌, ◌<◌, ◌≡◌, inl, inr, true, false, Option, some, List, [], ◌∷◌, ltb, ◌==◌, bit_and,
  arith, refl, zero, suc, ◌/◌, min, ◌∙◌,
}
use Prim.Native.Nat.{digits, bit_and-bitwise}
use talios.Sched.{
  Cpu, update, wakeup_process, ask_schedule, task_runing, task_uninterruptable, head_vrun_time,
}
use talios.Sched.Queue.{has, Ascending, Distinct}
use talios.Sched.Run.{IsReady, Inserted, kept, added, insert_task_queue-Inserted}
use talios.Semaphore.{
  Waiting, with_waiters, wake_in, wake_up, spin_lock, spin_unlock, Semaphore, with_count, locked,
  semaphore_acquire, unlock_after, release_in, semaphore_release,
}

-- What a release leaves as it found it.
pub record SameWaiters (s s' : Semaphore) : Type 0 where
  pub count : s'.count ≡ s.count
  pub waiters : s'.wait.waiters ≡ s.wait.waiters
  pub queue : s'.wait.cpu.queue ≡ s.wait.cpu.queue
  pub state : s'.wait.cpu.state ≡ s.wait.cpu.state

and_digits-zero : (n a : ℕ) → digits (λ b. zero) min n a 0 ≡ 0
and_digits-zero zero a = refl
and_digits-zero (suc n) zero = refl
and_digits-zero (suc n) (suc a) = omega (arith, and_digits-zero n (suc a / 2))

bit_and-zero : (n : ℕ) → bit_and n 0 ≡ 0
bit_and-zero n = bit_and-bitwise n 0 ∙ and_digits-zero n n

-- A wait queue with the mask TASK_RUNING, which is 0, is left alone.
wake_up-runing : (w : Waiting) → wake_up task_runing w ≡ some w
unfolding wake_up
wake_up-runing w = go w.waiters w.cpu
  where
    go :
        (ts : List ℕ) (k : Cpu) → wake_in task_runing ts k ≡ some (record { cpu = k; waiters = ts })
    go [] k = unfold wake_in in refl
    go (t ∷ ts) k = unfold wake_in in (rw (bit_and-zero (k.state t)))

-- While a task waits, `semaphore_release` gives nothing: no waiter is woken, nothing is queued and
-- the count stays. For `wake_up` is called with TASK_RUNING, which is 0 and matches no state.
pub semaphore_release-lost :
    (s : Semaphore) (t : ℕ) (ts : List ℕ)
    → s.wait.waiters ≡ t ∷ ts
    → (r : Semaphore) × (semaphore_release s ≡ some r) × SameWaiters s r
unfolding semaphore_release spin_lock spin_unlock locked unlock_after
semaphore_release-lost s t ts e = (
  record { count = s.count; wait = locked spin_unlock (locked spin_lock s.wait) },
  lost s.wait.waiters e (record s { wait = locked spin_lock s.wait }),
  record { count = refl; waiters = refl; queue = refl; state = refl },
)
  where
    lost :
        (ws : List ℕ)
        → ws ≡ t ∷ ts
        → (u : Semaphore)
        → unlock_after (release_in ws u)
          ≡ some (record { count = u.count; wait = locked spin_unlock u.wait })
    lost ws h u = rw h (unfold release_in with_count unlock_after in (rw (wake_up-runing u.wait)))

-- With no task waiting `semaphore_release` adds one to the count, and `semaphore_acquire` takes it
-- back: the pair leaves the count, the waiters and the run queue as they were.
pub semaphore_acquire-release :
    (s : Semaphore)
    → s.wait.waiters ≡ []
    → (r r' : Semaphore) × (semaphore_release s ≡ some r)
      × (r.count ≡ s.count + 1)
      × (semaphore_acquire r ≡ some r')
      × SameWaiters s r'
unfolding semaphore_release semaphore_acquire release_in unlock_after locked spin_lock spin_unlock
semaphore_acquire-release s e =
    let w = locked spin_unlock (locked spin_lock s.wait) in
    (
      record { count = s.count + 1; wait = w },
      record { count = s.count + 1 - 1; wait = locked spin_unlock (locked spin_lock w) },
      simp e,
      refl,
      rw positive,
      record { count = omega arith; waiters = refl; queue = refl; state = refl },
    )
  where
    positive : ltb 0 (s.count + 1) ≡ true
    positive = ground arith

-- The task `t` has been woken and the tasks `ts` wait on.
pub data Woken (t : ℕ) (ts : List ℕ) : Option Waiting → Type 0 where
  woken :
      {w : Waiting}
      → w.waiters ≡ ts
      → w.cpu.state t ≡ task_runing
      → has t w.cpu.queue ≡ true
      → Ascending w.cpu.vrun_time 0 w.cpu.queue
      → Distinct w.cpu.queue
      → Woken t ts (some w)

woken_state : (f : ℕ → ℕ) (t : ℕ) → update f t task_runing t ≡ task_runing
woken_state f t = ground arith

insert-Woken :
    (t : ℕ) (ts : List ℕ) (k : Cpu) {r : Option Cpu}
    → k.state t ≡ task_runing
    → (t == k.idle) ≡ false
    → Ascending k.vrun_time 0 k.queue
    → Distinct k.queue
    → Inserted 0 t k r
    → Woken t ts (with_waiters ts (ask_schedule r))
unfolding with_waiters ask_schedule
insert-Woken t ts k runs task asc dis (kept (inl there)) = woken refl runs there asc dis
insert-Woken t ts k runs task asc dis (kept (inr idle)) = absurd (ground arith)
insert-Woken t ts k runs task asc dis (added e asc' dis' len mem) =
    woken refl runs (ground (arith, mem t)) asc' dis'

wake_in-first :
    (k : Cpu) (t : ℕ) (ts : List ℕ)
    → IsReady k
    → k.state t ≡ task_uninterruptable
    → (t == k.idle) ≡ false
    → k.vrun_time t < head_vrun_time
    → Woken t ts (wake_in task_uninterruptable (t ∷ ts) k)
unfolding wake_in wakeup_process
wake_in-first k t ts ready asleep task time = rw asleep (
    insert-Woken t ts _ (woken_state k.state t) task ready.ascending ready.distinct
      (insert_task_queue-Inserted 0 t _ (omega arith) time ready.ascending ready.distinct))

-- `wake_up` for sleeping tasks wakes the first waiter: it leaves the wait queue, can run, and
-- stands in the run queue, which stays in order and without repetition; the others wait on.
pub wake_up-first :
    (w : Waiting) (t : ℕ) (ts : List ℕ)
    → w.waiters ≡ t ∷ ts
    → IsReady w.cpu
    → w.cpu.state t ≡ task_uninterruptable
    → (t == w.cpu.idle) ≡ false
    → w.cpu.vrun_time t < head_vrun_time
    → Woken t ts (wake_up task_uninterruptable w)
unfolding wake_up
wake_up-first w t ts e ready asleep task time =
    rw e (wake_in-first w.cpu t ts ready asleep task time)

-- On a wait queue with no waiter `wake_up` does nothing.
pub wake_up-nobody :
    (mask : ℕ) (w : Waiting)
    → w.waiters ≡ []
    → wake_up mask w ≡ some (record { cpu = w.cpu; waiters = [] })
unfolding wake_up wake_in
wake_up-nobody mask w e = rw e
