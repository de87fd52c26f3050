-- ===== src/Timer/Tests.antt =====
-- A run of kernel/timer.c with a callback that sets its timer again, and the theorems at it.
use talios.Base.{ℕ, arith, List, [], ◌∷◌}
use talios.Timer.{Timer, add_timer, do_time}
use talios.Timer.Laws.{
  IsSorted, due, IsFair, Fired, due-add_timer, add_timer-IsSorted, do_time-Fired,
}

abbrev at : ℕ → Timer
at e = record { func = 1; data_of = 0; expire_jiffies = e }

abbrev timers : List Timer
timers = at 3 ∷ at 5 ∷ at 9 ∷ []

timers-IsSorted : IsSorted timers
timers-IsSorted = omega arith

-- A timer that runs again at 20.
abbrev again : Timer → List Timer → List Timer
again t q = add_timer (at 20) q

again-IsFair : IsFair again 6
again-IsFair = record {
  sorted = λ t q s. add_timer-IsSorted (at 20) q s;
  later = λ t q. omega (arith, due-add_timer 6 (at 20) q);
}

do_time-Fired_example : Fired 6 (due 6 timers) (do_time again 3 6 timers)
do_time-Fired_example = do_time-Fired again 3 6 timers again-IsFair timers-IsSorted (omega arith)
