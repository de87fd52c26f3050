-- ===== src/Timer.antt =====
-- The timers of kernel/timer.c: the list behind `timer_list_header`, in order of `expire_jiffies`.
-- A callback is code of the timer's owner, a parameter: it may change the list.
pub mod Laws
mod Tests
use talios.Base.{
  ℕ, zero, suc, ◌+◌, ◌*◌, ◌-◌, ◌/◌, ◌%◌, ◌^◌, Bool, ◌&&◌, not, Option, none, some, List, [], ◌∷◌,
  ltb, leb, ◌==◌, if◌then◌else◌,
}

-- `timer_list`; `func` and `data` are what the callback is called by.
pub record Timer : Type 0 where
  pub func : ℕ
  pub data_of : ℕ
  pub expire_jiffies : ℕ

pub init_timer : (func data_of expire_jiffies : ℕ) → Timer
init_timer f d e = record { func = f; data_of = d; expire_jiffies = e }

-- The loop of `add_timer`. It ends at the header, whose time is the largest word.
unfoldable pub add_before : Timer → List Timer → List Timer
add_before t [] = t ∷ []
add_before t (x ∷ xs) =
    let rest = add_before t xs in
    if ltb x.expire_jiffies t.expire_jiffies then x ∷ rest else t ∷ x ∷ xs

unfoldable pub add_timer : Timer → List Timer → List Timer
unfolding add_before
add_timer t [] = t ∷ []
add_timer t (x ∷ xs) = add_before t (x ∷ xs)

-- What the timers that ran were, in order, and the list that is left.
pub record Ran : Type 0 where
  pub log : List Timer
  pub timers : List Timer

abbrev pub and_then : Timer → Option Ran → Option Ran
and_then t none = none
and_then t (some r) = some (record r { log = t ∷ r.log })

-- The loop of `do_time` at the time `jiffies`. `call t` is what `t->func(t->data)` does to the list.
pub do_time : (call : Timer → List Timer → List Timer) (fuel jiffies : ℕ) → List Timer → Option Ran
do_time call zero jiffies q = none
do_time call (suc fuel) jiffies [] = some (record { log = []; timers = [] })
do_time call (suc fuel) jiffies (t ∷ ts) =
    let rest = and_then t (do_time call fuel jiffies (call t ts)) in
    if leb t.expire_jiffies jiffies then rest else some (record { log = []; timers = t ∷ ts })
