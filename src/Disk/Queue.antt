-- ===== src/Disk/Queue.antt =====
-- What the requests to the disk (kernel/disk.c) do: in which order they are started, and what a read
-- leaves once the controller has interrupted for each of its sectors.
use talios.Base.{
  ℕ, suc, ◌+◌, ◌-◌, ◌%◌, ◌^◌, ◌<◌, ◌≡◌, true, false, Option, none, some, List, [], ◌∷◌, ◌++◌,
  length, ◌==◌, arith, refl, sym, ap, ap₂, ◌∙◌, inl, inr,
}
use mathlib.Core.Path.{subst}
use talios.Strings.{Memory}
use talios.Sched.{Cpu, update, ask_schedule, wakeup_process, task_runing, head_vrun_time}
use talios.Sched.Queue.{has, Ascending, Distinct}
use talios.Sched.Run.{IsReady, Inserted, kept, added, insert_task_queue-Inserted}
use talios.Disk.{
  Node, Disk, read_end, Out, command_out, start, cmd_out, submit, with_cpu, woken, end_request, Irq,
  insw, sector_done, handle, disk_irq_handler,
}

-- The requests that are not done, the one in use first.
abbrev pub in_front : Option Node → List Node → List Node
in_front none ws = ws
in_front (some n) ws = n ∷ ws

abbrev pub pending : Disk → List Node
pending q = in_front q.in_using q.waiting

-- The waiting requests are counted, and none waits while the disk is idle.
pub record IsQueue (q : Disk) : Type 0 where
  pub counted : q.block_request_count ≡ length q.waiting
  pub busy : q.in_using ≡ none → q.waiting ≡ []

-- What starting the first of the waiting requests puts out.
abbrev pub first_command : List Node → List Out
first_command [] = []
first_command (n ∷ ns) = command_out n

-- What a new request puts out at once.
abbrev pub own_command : Option Node → Node → List Out
own_command none n = command_out n
own_command (some m) n = []

-- A request has been queued behind the others, and started if there were none.
pub data Submitted (n : Node) (q : Disk) : Option Disk → Type 0 where
  submitted :
      {r : Disk}
      → IsQueue r
      → pending r ≡ pending q ++ (n ∷ [])
      → r.outs ≡ q.outs ++ own_command q.in_using n
      → r.cpu ≡ q.cpu
      → r.memory ≡ q.memory
      → Submitted n q (some r)

append-nil : {A : Type 0} → (xs : List A) → xs ++ [] ≡ xs
append-nil [] = refl
append-nil (x ∷ xs) = ap (λ ys. x ∷ ys) (append-nil xs)

length-snoc : (xs : List Node) (n : Node) → length (xs ++ (n ∷ [])) ≡ length xs + 1
length-snoc [] n = omega arith
length-snoc (x ∷ xs) n = omega (arith, length-snoc xs n)

-- `submit` never takes the list head for a request: it puts the request behind all others, and
-- starts it just if there are none.
pub submit-Submitted : (n : Node) (q : Disk) → IsQueue q → Submitted n q (submit n q)
unfolding submit cmd_out start
submit-Submitted n q i = go q.in_using refl
  where
    go : (u : Option Node) → q.in_using ≡ u → Submitted n q (submit n q)
    go none e =
        let idle : q.waiting ≡ [] = i.busy e in
        rw (e, idle)
          (submitted
            (record { counted = omega (arith, i.counted, ap length idle); busy = λ x. refl }) refl
            refl refl refl)
    go (some m) e = rw e (
        submitted
          (record {
            counted = omega (arith, i.counted, length-snoc q.waiting n);
            busy = λ x. absurd (ground (arith, e, x));
          })
          refl (sym (append-nil q.outs)) refl refl)

-- A task that has been woken can run and is queued.
pub data TaskWoken (t : ℕ) : Option Cpu → Type 0 where
  task_woken :
      {k : Cpu}
      → k.state t ≡ task_runing
      → has t k.queue ≡ true
      → Ascending k.vrun_time 0 k.queue
      → Distinct k.queue
      → TaskWoken t (some k)

wakeup_process-TaskWoken :
    (t : ℕ) (k : Cpu)
    → IsReady k
    → (t == k.idle) ≡ false
    → k.vrun_time t < head_vrun_time
    → TaskWoken t (wakeup_process t k)
unfolding wakeup_process ask_schedule
wakeup_process-TaskWoken t k ready task time = go (
    insert_task_queue-Inserted 0 t (record k { state = update k.state t task_runing }) (omega arith)
      time ready.ascending ready.distinct)
  where
    runs : (x : ℕ) → update k.state x task_runing x ≡ task_runing
    runs x = ground arith

    go :
        {o : Option Cpu}
        → Inserted 0 t (record k { state = update k.state t task_runing }) o
        → TaskWoken t (ask_schedule o)
    go (kept (inl there)) = task_woken (runs t) there ready.ascending ready.distinct
    go (kept (inr idle)) = absurd (ground (arith, task, idle))
    go (added e asc dis len mem) = task_woken (runs t) (ground (arith, mem t)) asc dis

-- A request has ended: its task is woken, and the first that waits is started.
pub data Ended (n : Node) (q : Disk) (m : Memory) : Option Disk → Type 0 where
  ended :
      {r : Disk}
      → IsQueue r
      → pending r ≡ q.waiting
      → r.outs ≡ q.outs ++ first_command q.waiting
      → TaskWoken n.tsk (some r.cpu)
      → r.memory ≡ m
      → Ended n q m (some r)

woken-Ended :
    (n : Node) (q : Disk) (r : Disk)
    → IsQueue r
    → pending r ≡ q.waiting
    → r.outs ≡ q.outs ++ first_command q.waiting
    → TaskWoken n.tsk (wakeup_process n.tsk r.cpu)
    → Ended n q r.memory (woken n.tsk (some r))
unfolding woken with_cpu
woken-Ended n q r i p o w = go (wakeup_process n.tsk r.cpu) w
  where
    go : (k : Option Cpu) → TaskWoken n.tsk k → Ended n q r.memory (with_cpu r k)
    go _ (task_woken {k} a b c d) =
        ended (record { counted = i.counted; busy = i.busy }) p o (task_woken {k = k} a b c d) refl

end_request-Ended :
    (n : Node) (q : Disk)
    → q.block_request_count ≡ length q.waiting
    → TaskWoken n.tsk (wakeup_process n.tsk q.cpu)
    → Ended n q q.memory (end_request n q)
unfolding end_request cmd_out start
end_request-Ended n q counted w = go q.waiting refl
  where
    go : (ws : List Node) → q.waiting ≡ ws → Ended n q q.memory (end_request n q)
    go [] e =
        let none_left : (q.block_request_count == 0) ≡ true =
          ground (arith, counted, ap length e) in
        rw none_left (
          woken-Ended n q (record q { in_using = none })
            (record { counted = counted; busy = λ x. e }) refl (rw e (sym (append-nil q.outs))) w)
    go (x ∷ xs) e =
        let some_left : (q.block_request_count == 0) ≡ false =
          ground (arith, counted, ap length e) in
        rw (some_left, e)
          (woken-Ended n (record q { waiting = x ∷ xs })
            (record q {
              in_using = some x;
              waiting = xs;
              block_request_count = q.block_request_count - 1;
              outs = q.outs ++ command_out x;
            })
            (record {
              counted = omega (arith, counted, ap length e);
              busy = λ y. absurd (ground (arith, y));
            })
            refl refl w)

-- The controller's answers to the sectors of a read, in order.
abbrev pub ready_sector : (ℕ → ℕ) → Irq
ready_sector b = record { error = false; request = true; bytes = b }

abbrev pub sectors : List (ℕ → ℕ) → List Irq
sectors [] = []
sectors (b ∷ bs) = ready_sector b ∷ sectors bs

infixl 5 ◌and_then◌
abbrev pub ◌and_then◌ : Option Disk → (Disk → Option Disk) → Option Disk
none and_then f = none
some q and_then f = f q

-- One interrupt after another.
abbrev pub interrupts : List Irq → Disk → Option Disk
interrupts [] q = some q
interrupts (i ∷ is) q = disk_irq_handler i q and_then interrupts is

-- The memory with those sectors from `buffer` on.
abbrev pub filled : List (ℕ → ℕ) → (buffer : ℕ) → Memory → Memory
filled [] buffer m = m
filled (b ∷ bs) buffer m = filled bs (buffer + 512) (insw b buffer m)

-- A request that is in use, with the number of its sectors that are left.
pub record InUse (n : Node) (k : ℕ) (q : Disk) : Type 0 where
  pub queue : IsQueue q
  pub node : q.in_using ≡ some n
  pub reads : n.end_handler ≡ read_end
  pub left : n.count ≡ k
  pub small : n.count < 2 ^ 32

-- The request behind one of its sectors.
abbrev advance : Node → Node
advance n = record n { count = (n.count + 2 ^ 32 - 1) % 2 ^ 32; buffer = n.buffer + 512 }

disk_irq_handler-read :
    (i : Irq) (n : Node) (q : Disk)
    → i.error ≡ false
    → i.request ≡ true
    → q.in_using ≡ some n
    → n.end_handler ≡ read_end
    → disk_irq_handler i q ≡ sector_done n (record q { memory = insw i.bytes n.buffer q.memory })
unfolding disk_irq_handler handle
disk_irq_handler-read i n q good ready used reads =
    ap (λ u. elim u [ none ↦ none | some m ↦ handle i m m.end_handler q ]) used
    ∙ (ap (λ h. handle i n h q) reads ∙ rw (good, ready) refl)

sector_done-last :
    (n : Node) (q : Disk)
    → ((advance n).count == 0) ≡ true
    → sector_done n q ≡ end_request (advance n) (record q { in_using = some (advance n) })
unfolding sector_done
sector_done-last n q e = rw e refl

sector_done-more :
    (n : Node) (q : Disk)
    → ((advance n).count == 0) ≡ false
    → sector_done n q ≡ some (record q { in_using = some (advance n) })
unfolding sector_done
sector_done-more n q e = rw e refl

-- The outcome speaks of the task, the waiting requests and the ports alone.
Ended-same :
    {n n' : Node} {q q' : Disk} {m : Memory} {o : Option Disk}
    → n'.tsk ≡ n.tsk
    → q'.waiting ≡ q.waiting
    → q'.outs ≡ q.outs
    → Ended n' q' m o
    → Ended n q m o
Ended-same t w e (ended {r} i p o k m) =
    ended i (p ∙ w) (o ∙ ap₂ (λ x y. x ++ first_command y) e w)
      (subst (λ x. TaskWoken x (some r.cpu)) t k) m

Ended-and_then :
    {n : Node} {q : Disk} {m : Memory} {o : Option Disk}
    → Ended n q m o
    → Ended n q m (o and_then interrupts [])
Ended-and_then (ended i p o k m) = ended i p o k m

-- Once the controller has interrupted without an error for each sector of the read request in use,
-- the request has ended: its bytes are at its buffer in order, its task can run and is queued, and the
-- next request is started, if one waits. The requests stay in their order, and they stay counted.
pub interrupts-Ended :
    (b : ℕ → ℕ) (bs : List (ℕ → ℕ)) (n : Node) (q : Disk)
    → InUse n (suc (length bs)) q
    → IsReady q.cpu
    → (n.tsk == q.cpu.idle) ≡ false
    → q.cpu.vrun_time n.tsk < head_vrun_time
    → Ended n q (filled (b ∷ bs) n.buffer q.memory) (interrupts (sectors (b ∷ bs)) q)
interrupts-Ended b [] n q u ready task time =
    let last : ((advance n).count == 0) ≡ true = ground (arith, u.left) in
    let q' : Disk = record q { in_using = some (advance n); memory = insw b n.buffer q.memory } in
    rw
      (disk_irq_handler-read (ready_sector b) n q refl refl u.node u.reads
        ∙ sector_done-last n (record q { memory = insw b n.buffer q.memory }) last)
      (Ended-same refl refl refl (
        Ended-and_then (
          end_request-Ended (advance n) q' (u.queue).counted
            (wakeup_process-TaskWoken n.tsk q.cpu ready task time))))
interrupts-Ended b (c ∷ cs) n q u ready task time =
    let more : ((advance n).count == 0) ≡ false = ground (arith, u.left, u.small) in
    let q' : Disk = record q { in_using = some (advance n); memory = insw b n.buffer q.memory } in
    rw
      (disk_irq_handler-read (ready_sector b) n q refl refl u.node u.reads
        ∙ sector_done-more n (record q { memory = insw b n.buffer q.memory }) more)
      (Ended-same refl refl refl (
        interrupts-Ended c cs (advance n) q'
          (record {
            queue = record { counted = (u.queue).counted; busy = λ y. absurd (ground (arith, y)) };
            node = refl;
            reads = u.reads;
            left = omega (arith, u.left, u.small);
            small = omega arith;
          })
          ready task time))
