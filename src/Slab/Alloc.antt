-- ===== src/Slab/Alloc.antt =====
-- What `AllocSlab` (kernel/memory.c) takes from a cache whose counts are right.
use talios.Base.{
  ℕ, zero, suc, ◌+◌, ◌*◌, ◌<◌, ◌≤◌, ◌≡◌, Bool, true, false, Option, none, some, List, [], ◌∷◌, ◌==◌,
  if◌then◌else◌, arith, refl, ap, ◌∙◌, Bool-cases, inl, inr,
}
use talios.Slab.{
  Slab, SlabCache, put_bit, take_bit, clear_bit, choose, take_object, object_taken, alloc_slab,
}
use talios.Slab.Scan.{Scanned, found, all_used, scan-Scanned}

-- The clear bits among the first `n`.
unfoldable pub clear_bits : (n : ℕ) (map : ℕ → Bool) → ℕ
clear_bits zero map = 0
clear_bits (suc n) map = (if map n then 0 else 1) + clear_bits n map

unfoldable pub free_objects : List Slab → ℕ
free_objects [] = 0
free_objects (s ∷ ss) = s.free_count + free_objects ss

unfoldable pub used_objects : List Slab → ℕ
used_objects [] = 0
used_objects (s ∷ ss) = s.using_count + used_objects ss

pub record SlabCounted (s : Slab) : Type 0 where
  pub free_bits : s.free_count ≡ clear_bits s.color_count s.color_map
  pub all_bits : s.using_count + s.free_count ≡ s.color_count

pub data EachCounted : List Slab → Type 0 where
  no_slab : EachCounted []
  one_slab : {s : Slab} {ss : List Slab} → SlabCounted s → EachCounted ss → EachCounted (s ∷ ss)

-- The counts of a cache are those of its slabs, and those are right.
pub record CacheCounted (sc : SlabCache) : Type 0 where
  pub each : EachCounted sc.slabs
  pub free : sc.total_free ≡ free_objects sc.slabs
  pub use_ : sc.total_use ≡ used_objects sc.slabs

-- One bit that was clear is set, in the first slab that has one; its object is at `a`.
pub data Taken (size : ℕ) : List Slab → List Slab → (a : ℕ) → Type 0 where
  here :
      {s : Slab} {ss : List Slab} {i : ℕ}
      → i < s.color_count
      → s.color_map i ≡ false
      → ((j : ℕ) → j < i → s.color_map j ≡ true)
      → Taken size (s ∷ ss) (take_bit i s ∷ ss) (s.vaddress + i * size)
  there :
      {s : Slab} {ss ss' : List Slab} {a : ℕ}
      → s.free_count ≡ 0
      → Taken size ss ss' a
      → Taken size (s ∷ ss) (s ∷ ss') a

pub clear_bits-put :
    (n i : ℕ) (map : ℕ → Bool) (b : Bool)
    → (i < n
        → clear_bits n (put_bit map i b) + (if map i then 0 else 1)
          ≡ clear_bits n map + (if b then 0 else 1))
      × (n ≤ i → clear_bits n (put_bit map i b) ≡ clear_bits n map)
unfolding clear_bits put_bit
clear_bits-put zero i map b = ((λ h. absurd (omega arith)), (λ h. refl))
clear_bits-put (suc n) i map b =
    let ih = clear_bits-put n i map b in
    (
      (λ h. elim (Bool-cases (n == i)) [
        | inl same ↦
            let e : i ≡ n = ground (arith, same) in
            rw same (ground (arith, ih.1 (omega (arith, e)), ap map e))
        | inr other ↦ rw other (ground (arith, ih.0 (ground (arith, other, h))))
      ]),
      (λ h.
          let ne : (n == i) ≡ false = ground (arith, h) in
          rw ne (ground (arith, ih.1 (omega arith)))),
    )

-- A clear bit in a counted slab is counted.
clear_bits-full : (n : ℕ) (map : ℕ → Bool) → ((j : ℕ) → j < n → map j ≡ true) → clear_bits n map ≡ 0
unfolding clear_bits
clear_bits-full zero map h = refl
clear_bits-full (suc n) map h =
    rw (h n (omega arith)) (omega (arith, clear_bits-full n map (λ j k. h j (omega arith))))

take_bit-SlabCounted :
    (s : Slab) (i : ℕ)
    → SlabCounted s
    → i < s.color_count
    → s.color_map i ≡ false
    → SlabCounted (take_bit i s) × (0 < s.free_count)
unfolding take_bit
take_bit-SlabCounted s i c inside clear =
    let put = (clear_bits-put s.color_count i s.color_map true).0 inside in
    let one : ◌≡◌ {A = ℕ} (if s.color_map i then 0 else 1) 1 = ap (λ b. if b then 0 else 1) clear in
    (
      record {
        free_bits = omega (arith, put, one, c.free_bits);
        all_bits = omega (arith, put, one, c.free_bits, c.all_bits);
      },
      omega (arith, put, one, c.free_bits),
    )

data Cleared (s : Slab) : Option ℕ → Type 0 where
  bit :
      {i : ℕ}
      → i < s.color_count
      → s.color_map i ≡ false
      → ((j : ℕ) → j < i → s.color_map j ≡ true)
      → Cleared s (some i)
  no_bit : s.free_count ≡ 0 → Cleared s none

clear_bit-Cleared : (s : Slab) → SlabCounted s → Cleared s (clear_bit s)
unfolding clear_bit
clear_bit-Cleared s c = elim (Bool-cases (s.free_count == 0)) [
  | inl empty ↦ rw empty (no_bit (ground (arith, empty)))
  | inr some_left ↦ rw some_left (of_scan (scan-Scanned s.color_count s.color_map))
]
  where
    of_scan : {o : Option ℕ} → Scanned s.color_count s.color_map o → Cleared s o
    of_scan (found inside clear first) = bit inside clear first
    of_scan (all_used all) = no_bit (c.free_bits ∙ clear_bits-full s.color_count s.color_map all)

-- What an allocation makes of the slabs: the counts stay right, and one more object is used.
record TakenFrom (size : ℕ) (ss ss' : List Slab) (a : ℕ) : Type 0 where
  taken_one : Taken size ss ss' a
  counted : EachCounted ss'
  one_less : free_objects ss ≡ suc (free_objects ss')
  one_more : used_objects ss' ≡ suc (used_objects ss)

data Tried (size : ℕ) (ss : List Slab) : Option (ℕ × List Slab) → Type 0 where
  got : {a : ℕ} {ss' : List Slab} → TakenFrom size ss ss' a → Tried size ss (some (a, ss'))
  none_left : free_objects ss ≡ 0 → Tried size ss none

choose-Tried :
    (s : Slab) (size : ℕ) (ss : List Slab) {o : Option ℕ} {r : Option (ℕ × List Slab)}
    → SlabCounted s
    → EachCounted ss
    → Cleared s o
    → Tried size ss r
    → Tried size (s ∷ ss) (choose s size ss o r)
unfolding choose free_objects used_objects take_bit
choose-Tried s size ss c cs (bit {i} inside clear first) t =
    let after = take_bit-SlabCounted s i c inside clear in
    got (record {
      taken_one = here inside clear first;
      counted = one_slab (after.0) cs;
      one_less = omega (arith, after.1);
      one_more = omega arith;
    })
choose-Tried s size ss c cs (no_bit empty) (got t) = got (record {
  taken_one = there empty (t.taken_one);
  counted = one_slab c t.counted;
  one_less = omega (arith, t.one_less);
  one_more = omega (arith, t.one_more);
})
choose-Tried s size ss c cs (no_bit empty) (none_left n) = none_left (omega (arith, empty, n))

take_object-Tried :
    (size : ℕ) (ss : List Slab) → EachCounted ss → Tried size ss (take_object size ss)
unfolding take_object free_objects
take_object-Tried size [] cs = none_left refl
take_object-Tried size (s ∷ ss) (one_slab c cs) =
    choose-Tried s size ss c cs (clear_bit-Cleared s c) (take_object-Tried size ss cs)

-- The result of `AllocSlab`: an object at `a`, and the counts of the cache still right.
pub data Allocated (sc : SlabCache) : Option ℕ × SlabCache → Type 0 where
  allocated :
      {a : ℕ} {r : SlabCache}
      → Taken sc.size sc.slabs r.slabs a
      → CacheCounted r
      → r.size ≡ sc.size
      → r.total_use ≡ suc sc.total_use
      → suc r.total_free ≡ sc.total_free
      → Allocated sc (some a, r)

-- From a cache that counts free objects `AllocSlab` always takes one: the first clear bit of the first
-- slab with free objects, found although full words are left out. The counts of the slabs and of the
-- cache stay right, and the cache has one more object in use.
pub alloc_slab-Allocated :
    (sc : SlabCache) → CacheCounted sc → 0 < sc.total_free → Allocated sc (alloc_slab sc)
unfolding alloc_slab object_taken
alloc_slab-Allocated sc c some_left = of_tried (take_object-Tried sc.size sc.slabs c.each)
  where
    of_tried :
        {o : Option (ℕ × List Slab)} → Tried sc.size sc.slabs o → Allocated sc (object_taken sc o)
    of_tried (got t) =
        allocated t.taken_one
          (record {
            each = t.counted;
            free = omega (arith, c.free, t.one_less);
            use_ = omega (arith, c.use_, t.one_more);
          })
          refl (omega arith) (omega (arith, some_left))
    of_tried (none_left n) = absurd (omega (arith, n, c.free, some_left))
