-- ===== src/Timer/Laws.antt =====
-- The order of the timer list (kernel/timer.c), and what `do_time` runs.
use talios.Base.{
  ℕ, zero, suc, ◌≤◌, ◌<◌, ◌≡◌, Option, some, List, [], ◌∷◌, ◌++◌, ltb, leb, if◌then◌else◌, arith,
  refl, ap, inl, inr, length, Bool-cases,
}
use talios.Timer.{Timer, add_before, add_timer, Ran, and_then, do_time}

abbrev pub AllBefore : ℕ → List Timer → Type 0
AllBefore e [] = Unit {0}
AllBefore e (t ∷ ts) = (t.expire_jiffies < e) × AllBefore e ts

abbrev pub AllFrom : ℕ → List Timer → Type 0
AllFrom e [] = Unit {0}
AllFrom e (t ∷ ts) = (e ≤ t.expire_jiffies) × AllFrom e ts

-- The times ascend.
abbrev pub IsSorted : List Timer → Type 0
IsSorted [] = Unit {0}
IsSorted (t ∷ ts) = AllFrom t.expire_jiffies ts × IsSorted ts

AllFrom-weaken : (d e : ℕ) (q : List Timer) → d ≤ e → AllFrom e q → AllFrom d q
AllFrom-weaken d e [] h a = tt
AllFrom-weaken d e (t ∷ ts) h (low, rest) = (omega arith, AllFrom-weaken d e ts h rest)

-- `t` in `q`, behind the timers that expire before it and in front of all others.
pub data Added (t : Timer) (q : List Timer) : List Timer → Type 0 where
  added :
      (before after : List Timer)
      → q ≡ before ++ after
      → AllBefore t.expire_jiffies before
      → AllFrom t.expire_jiffies after
      → Added t q (before ++ (t ∷ after))

Added-behind :
    (t x : Timer) (xs : List Timer) {r : List Timer}
    → x.expire_jiffies < t.expire_jiffies
    → Added t xs r
    → Added t (x ∷ xs) (x ∷ r)
Added-behind t x xs h (added before after e a b) =
    added (x ∷ before) after (ap (λ l. x ∷ l) e) (h, a) b

add_before-Added : (t : Timer) (q : List Timer) → IsSorted q → Added t q (add_before t q)
unfolding add_before
add_before-Added t [] s = added [] [] refl tt tt
add_before-Added t (x ∷ xs) (from, s) = elim (Bool-cases (ltb x.expire_jiffies t.expire_jiffies)) [
  | inl less ↦ rw (less, add_before) (Added-behind t x xs (ground arith) (add_before-Added t xs s))
  | inr more ↦
      rw (more, add_before)
        (added [] (x ∷ xs) refl tt
          (ground arith, AllFrom-weaken t.expire_jiffies x.expire_jiffies xs (ground arith) from))
]

-- `add_timer` puts a timer into a sorted list behind exactly those that expire before it.
pub add_timer-Added : (t : Timer) (q : List Timer) → IsSorted q → Added t q (add_timer t q)
unfolding add_timer
add_timer-Added t [] s = added [] [] refl tt tt
add_timer-Added t (x ∷ xs) s = add_before-Added t (x ∷ xs) s

AllFrom-add :
    (d : ℕ) (t : Timer) (q : List Timer)
    → d ≤ t.expire_jiffies
    → AllFrom d q
    → AllFrom d (add_before t q)
unfolding add_before
AllFrom-add d t [] h a = (h, tt)
AllFrom-add d t (x ∷ xs) h (low, rest) = elim (Bool-cases (ltb x.expire_jiffies t.expire_jiffies)) [
  | inl less ↦ rw (less, add_before) (low, AllFrom-add d t xs h rest)
  | inr more ↦ rw (more, add_before) (h, (low, rest))
]

add_before-IsSorted : (t : Timer) (q : List Timer) → IsSorted q → IsSorted (add_before t q)
unfolding add_before
add_before-IsSorted t [] s = (tt, tt)
add_before-IsSorted t (x ∷ xs) (from, s) =
    elim (Bool-cases (ltb x.expire_jiffies t.expire_jiffies)) [
      | inl less ↦
          rw (less, add_before)
            (AllFrom-add x.expire_jiffies t xs (ground arith) from, add_before-IsSorted t xs s)
      | inr more ↦
          rw (more, add_before)
            (
              (
                ground arith,
                AllFrom-weaken t.expire_jiffies x.expire_jiffies xs (ground arith) from,
              ),
              (from, s),
            )
    ]

-- `add_timer` keeps the list sorted.
pub add_timer-IsSorted : (t : Timer) (q : List Timer) → IsSorted q → IsSorted (add_timer t q)
unfolding add_timer
add_timer-IsSorted t [] s = (tt, tt)
add_timer-IsSorted t (x ∷ xs) s = add_before-IsSorted t (x ∷ xs) s

-- How many timers have expired.
abbrev pub due : ℕ → List Timer → ℕ
due j [] = 0
due j (t ∷ ts) = if leb t.expire_jiffies j then suc (due j ts) else due j ts

due-add :
    (j : ℕ) (t : Timer) (q : List Timer) → j < t.expire_jiffies → due j (add_before t q) ≡ due j q
unfolding add_before
due-add j t [] h = ground arith
due-add j t (x ∷ xs) h = elim (Bool-cases (ltb x.expire_jiffies t.expire_jiffies)) [
  | inl less ↦ rw (less, add_before) (ground (arith, due-add j t xs h))
  | inr more ↦ rw (more, add_before) (ground arith)
]

-- A timer for later than `j` leaves the number of those that have expired at `j`.
pub due-add_timer :
    (j : ℕ) (t : Timer) (q : List Timer) → j < t.expire_jiffies → due j (add_timer t q) ≡ due j q
unfolding add_timer
due-add_timer j t [] h = ground arith
due-add_timer j t (x ∷ xs) h = due-add j t (x ∷ xs) h

-- Callbacks that keep the list sorted and add no timer that has expired.
pub record IsFair (call : Timer → List Timer → List Timer) (j : ℕ) : Type 0 where
  pub sorted : (t : Timer) (q : List Timer) → IsSorted q → IsSorted (call t q)
  pub later : (t : Timer) (q : List Timer) → due j (call t q) ≤ due j q

-- Only expired timers ran, at most `n` of them; none that has expired is left.
pub data Fired (j n : ℕ) : Option Ran → Type 0 where
  fired :
      {r : Ran}
      → AllBefore (suc j) r.log
      → length r.log ≤ n
      → IsSorted r.timers
      → AllFrom (suc j) r.timers
      → Fired j n (some r)

Fired-then :
    (j n : ℕ) (t : Timer) {o : Option Ran}
    → t.expire_jiffies ≤ j
    → Fired j n o
    → Fired j (suc n) (and_then t o)
Fired-then j n t h (fired before len sorted later) =
    fired (omega arith, before) (omega arith) sorted later

Fired-mono : (j m n : ℕ) {o : Option Ran} → m ≤ n → Fired j m o → Fired j n o
Fired-mono j m n h (fired before len sorted later) = fired before (omega arith) sorted later

-- `do_time` ends, when callbacks add no timer that has expired already: it runs only expired timers,
-- at most as many as there were, and leaves a sorted list of timers that have not expired.
pub do_time-Fired :
    (call : Timer → List Timer → List Timer) (fuel j : ℕ) (q : List Timer)
    → IsFair call j
    → IsSorted q
    → due j q < fuel
    → Fired j (due j q) (do_time call fuel j q)
unfolding do_time
do_time-Fired call zero j q fair s h = absurd (omega arith)
do_time-Fired call (suc fuel) j [] fair s h = fired tt (omega arith) tt tt
do_time-Fired call (suc fuel) j (t ∷ ts) fair (from, s) h =
    elim (Bool-cases (leb t.expire_jiffies j)) [
      | inl now ↦
          rw (now, do_time)
            (Fired-then j (due j ts) t (ground arith) (
              Fired-mono j _ _ (fair.later t ts) (
                do_time-Fired call fuel j (call t ts) fair (fair.sorted t ts s)
                  (ground (arith, fair.later t ts)))))
      | inr later ↦
          rw (later, do_time)
            (fired tt (omega arith) (from, s)
              (ground arith, AllFrom-weaken (suc j) t.expire_jiffies ts (ground arith) from))
    ]
