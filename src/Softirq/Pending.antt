-- ===== src/Softirq/Pending.antt =====
-- What `do_softirq` (kernel/softirq.c) runs.
use talios.Base.{
  ℕ, zero, suc, ◌+◌, ◌%◌, ◌<◌, ◌≤◌, ◌≡◌, Bool, true, false, not, ◌&&◌, Option, none, some, List, [],
  ◌∷◌, leb, ◌==◌, if◌then◌else◌, arith, refl, sym, ap, ap₂, ◌∙◌, Bool-cases, inl, inr,
}
use mathlib.Core.Path.{subst}
use talios.Softirq.{Action, Softirqs, mask_bit, act, turn, after_turn, run_from, do_softirq}

-- The numbers of the set bits from `i` on, of `n` bits, in order.
unfoldable pub pending : (n i : ℕ) (status : ℕ → Bool) → List ℕ
pending zero i status = []
pending (suc n) i status =
    let rest = pending n (i + 1) status in if status i then i ∷ rest else rest

pending-same :
    (n i : ℕ) (s t : ℕ → Bool) → ((j : ℕ) → i ≤ j → s j ≡ t j) → pending n i s ≡ pending n i t
unfolding pending
pending-same zero i s t h = refl
pending-same (suc n) i s t h =
    ap₂ (λ b xs. if b then i ∷ xs else xs) (h i (omega arith))
      (pending-same n (i + 1) s t (λ j le. h j (omega arith)))

module _ {W : Type 0} (effect : Action → W → W) where
  -- An action that changes only the world.
  abbrev pub on_world : Action → Softirqs W → Softirqs W
  on_world a s = record s { world = effect a s.world }

  -- The world after the actions with these numbers.
  unfoldable pub effects : (vector : ℕ → Option Action) → List ℕ → W → W
  effects vector [] w = w
  effects vector (i ∷ is) w = effects vector is (effect_of (vector i) w)
    where
      effect_of : Option Action → W → W
      effect_of none w = w
      effect_of (some a) w = effect a w

  effects-step :
      (vector : ℕ → Option Action) (i : ℕ) (is : List ℕ) (w : W) {a : Action}
      → vector i ≡ some a
      → effects vector (i ∷ is) w ≡ effects vector is (effect a w)
  unfolding effects
  effects-step vector i is w e = rw e refl

  pub data Ran (s : Softirqs W) (last : ℕ) (numbers : List ℕ) : Option (Softirqs W) → Type 0 where
    ran :
        {r : Softirqs W}
        → r.world ≡ effects s.vector numbers s.world
        → r.vector ≡ s.vector
        → ((j : ℕ) → j < last → r.status j ≡ false)
        → Ran s last numbers (some r)

  record Ready (i : ℕ) (s : Softirqs W) : Type 0 where
    behind : (j : ℕ) → j < i → s.status j ≡ false
    few : (j : ℕ) → 31 ≤ j → s.status j ≡ false
    actions : (j : ℕ) → s.status j ≡ true → (a : Action) × (s.vector j ≡ some a)

  abbrev cleared : (i : ℕ) → Softirqs W → Softirqs W
  cleared i s = record s { status = λ j. s.status j && mask_bit i j }

  -- Below 31 the mask clears the one bit.
  mask_bit-below : (i j : ℕ) → i < 31 → mask_bit i j ≡ not (j == i)
  unfolding mask_bit
  mask_bit-below i j h =
      let a : i % 32 ≡ i = omega (arith, h) in
      let b : (i == 31) ≡ false = ground (arith, h) in rw (a, b) refl

  Ready-next : (i : ℕ) (s : Softirqs W) → s.status i ≡ false → Ready i s → Ready (i + 1) s
  Ready-next i s off r = record {
    behind = λ j h. elim (Bool-cases (j == i)) [
      | inl here ↦ ap s.status {x = j} {y = i} (ground (arith, here)) ∙ off
      | inr other ↦ r.behind j (ground (arith, h, other))
    ];
    few = r.few;
    actions = r.actions;
  }

  Ready-cleared :
      (i : ℕ) (s : Softirqs W) (w : W)
      → i < 31
      → Ready i s
      → Ready (i + 1) (record (cleared i s) { world = w })
  Ready-cleared i s w h r = record {
    behind = λ j lt. elim (Bool-cases (j == i)) [
      | inl here ↦ rw (mask_bit-below i j h, here) (off (s.status j))
      | inr other ↦ rw (r.behind j (ground (arith, lt, other))) refl
    ];
    few = λ j le. rw (r.few j le) refl;
    actions = λ j on. r.actions j (left (s.status j) (mask_bit i j) on);
  }
    where
      off : (b : Bool) → (b && false) ≡ false
      off b = ground arith

      left : (a b : Bool) → (a && b) ≡ true → a ≡ true
      left a b e = ground (arith, e)

  pending-cleared :
      (n i : ℕ) (s : Softirqs W)
      → i < 31
      → pending n (i + 1) (cleared i s).status ≡ pending n (i + 1) s.status
  pending-cleared n i s h =
      pending-same n (i + 1) (cleared i s).status s.status
        (λ j le. ap (λ b. s.status j && b) (mask_bit-below i j h ∙ apart j le) ∙ keep (s.status j))
    where
      apart : (j : ℕ) → i + 1 ≤ j → not (j == i) ≡ true
      apart j le = ground (arith, le)

      keep : (b : Bool) → (b && true) ≡ b
      keep b = ground arith

  run_from-Ran :
      (n i : ℕ) (s : Softirqs W)
      → Ready i s
      → Ran s (i + n) (pending n i s.status) (run_from on_world n i s)
  unfolding run_from turn after_turn act pending effects
  run_from-Ran zero i s r = ran refl refl (λ j lt. r.behind j (omega (arith, lt)))
  run_from-Ran (suc n) i s r = elim (Bool-cases (s.status i)) [
    | inr off ↦ rw off (later (run_from-Ran n (i + 1) s (Ready-next i s off r)))
    | inl on ↦
        let a = r.actions i on in
        let low : i < 31 = small on in
        rw (on, a.1)
          (now a.0 a.1 (pending n (i + 1) s.status) (
            subst (λ xs. Ran (next a.0) (i + 1 + n) xs (run_from on_world n (i + 1) (next a.0)))
              (pending-cleared n i s low)
              (run_from-Ran n (i + 1) (next a.0) (Ready-cleared i s (effect a.0 s.world) low r))))
  ]
    where
      next : Action → Softirqs W
      next a = record (cleared i s) { world = effect a s.world }

      small : s.status i ≡ true → i < 31
      small on = elim (Bool-cases (leb 31 i)) [
        | inl high ↦ absurd (ground (arith, on, r.few i (ground (arith, high))))
        | inr low ↦ ground (arith, low)
      ]

      later :
          {xs : List ℕ} {o : Option (Softirqs W)} → Ran s (i + 1 + n) xs o → Ran s (i + suc n) xs o
      later (ran e v c) = ran e v (λ j lt. c j (omega (arith, lt)))

      now :
          (a : Action)
          → s.vector i ≡ some a
          → (xs : List ℕ) {o : Option (Softirqs W)} → Ran (next a) (i + 1 + n) xs o
          → Ran s (i + suc n) (i ∷ xs) o
      now a e xs (ran w v c) =
          ran (w ∙ sym (effects-step s.vector i xs s.world e)) v (λ j lt. c j (omega (arith, lt)))

  -- Where only the first 31 soft interrupts are pending and each has an action that leaves the status
  -- alone, `do_softirq` returns: the action of each pending one has run, once and in the order of their
  -- numbers, and none of the 64 is pending.
  pub do_softirq-Ran :
      (s : Softirqs W)
      → ((j : ℕ) → 31 ≤ j → s.status j ≡ false)
      → ((j : ℕ) → s.status j ≡ true → (a : Action) × (s.vector j ≡ some a))
      → Ran s 64 (pending 64 0 s.status) (do_softirq on_world s)
  unfolding do_softirq
  do_softirq-Ran s few actions =
      run_from-Ran 64 0 s
        (record { behind = λ j lt. absurd (omega (arith, lt)); few = few; actions = actions })
