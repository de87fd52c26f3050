-- ===== src/Driver/Tests.antt =====
-- A driver with two bytes in its buffer, and the theorems on kernel/keyboard.c at it.
use talios.Base.{◌≡◌, refl, arith, some, [], ◌∷◌, ◌==◌, if◌then◌else◌}
use talios.Sched.{Cpu, slice}
use talios.Driver.{Driver, keyboard_handler, keyboard_read}
use talios.Driver.Laws.{IsQueue, ReadOf, keyboard_handler-IsQueue, keyboard_read-ReadOf}

abbrev cpu : Cpu
cpu = record {
  idle = 0;
  current = 1;
  queue = [];
  running_task_count = 1;
  exec_jiffies = slice 0;
  min_vrun_time = 0;
  state = λ t. 0;
  flags = λ t. 0;
  preempt_count = λ t. 0;
  priority = λ t. 0;
  vrun_time = λ t. 0;
}

abbrev driver : Driver
driver = record {
  p_head = 5;
  p_tail = 3;
  count = 2;
  buf = λ i. if i == 3 then 0x1e else 0x9e;
  wait = record { cpu = cpu; waiters = [] };
}

driver-IsQueue : IsQueue driver (0x1e ∷ 0x9e ∷ [])
driver-IsQueue = record {
  between = refl;
  counted = refl;
  inside = omega arith;
  holds = (refl, (refl, tt));
}

keyboard_handler-IsQueue_example :
    (d : Driver) × (keyboard_handler 0x30 driver ≡ some d) × IsQueue d (0x1e ∷ 0x9e ∷ 0x30 ∷ [])
keyboard_handler-IsQueue_example =
    keyboard_handler-IsQueue 0x30 driver (0x1e ∷ 0x9e ∷ []) driver-IsQueue (omega arith) refl

keyboard_read-ReadOf_example :
    ReadOf 0x400000 1 (0x1e ∷ 0x9e ∷ []) (λ a. 0) (keyboard_read 0x400000 1 (λ a. 0) driver)
keyboard_read-ReadOf_example =
    keyboard_read-ReadOf 0x400000 1 (λ a. 0) driver (0x1e ∷ 0x9e ∷ []) driver-IsQueue (omega arith)
      (omega arith)
