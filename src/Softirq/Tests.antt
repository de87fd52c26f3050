-- ===== src/Softirq/Tests.antt =====
-- Soft interrupts 0 and 5 pending, and the theorem of kernel/softirq.c there. The world is the list of
-- the actions that have run, the last one first.
use talios.Base.{ℕ, ◌≡◌, ◌+◌, ◌||◌, Option, none, some, List, [], ◌∷◌, ◌==◌, arith, refl}
use talios.Softirq.{Action, Softirqs, do_softirq}
use talios.Softirq.Pending.{pending, on_world, Ran, do_softirq-Ran}

abbrev log_action : Action → List ℕ → List ℕ
log_action a log = a.action ∷ log

abbrev state : Softirqs (List ℕ)
state = record {
  status = λ j. j == 0 || j == 5;
  vector = λ j. some (record { action = j + 100; data_ = 0 });
  world = [];
}

abbrev world_of : Option (Softirqs (List ℕ)) → List ℕ
world_of none = []
world_of (some s) = s.world

do_softirq-log : world_of (do_softirq (on_world log_action) state) ≡ 105 ∷ 100 ∷ []
unfolding do_softirq
do_softirq-log = refl

do_softirq-Ran_example :
    Ran log_action state 64 (pending 64 0 state.status) (do_softirq (on_world log_action) state)
do_softirq-Ran_example =
    do_softirq-Ran log_action state (λ j le. ground (arith, le))
      (λ j on. (record { action = j + 100; data_ = 0 }, refl))
