-- ===== src/Slab/Grow.antt =====
-- The slabs that `kmalloc` (kernel/memory.c) sets up: their counts, and where their own data lies.
use talios.Base.{
  ℕ, zero, suc, ◌+◌, ◌*◌, ◌/◌, ◌^◌, ◌<◌, ◌≤◌, ◌≡◌, Bool, true, false, not, ltb, ◌==◌, arith, refl,
  ap, ◌∙◌, ◌&&◌, Bool-cases, inl, inr,
}
use talios.Slab.{Slab, page_2m, small_slab, large_slab}
use talios.Slab.Alloc.{clear_bits, SlabCounted}

-- An object of the slab has the byte `a`.
pub record Overlaps (size : ℕ) (s : Slab) (a : ℕ) : Type 0 where
  pub place : ℕ
  pub inside : place < s.color_count
  pub low : s.vaddress + place * size ≤ a
  pub high : a < s.vaddress + place * size + size

all_below : ℕ → (ℕ → Bool) → Bool
all_below zero p = true
all_below (suc n) p = p n && all_below n p

all_below-at : (n : ℕ) (p : ℕ → Bool) (k : ℕ) → all_below n p ≡ true → k < n → p k ≡ true
unfolding all_below
all_below-at zero p k h lt = absurd (omega arith)
all_below-at (suc n) p k h lt = elim (Bool-cases (k == n)) [
  | inl here ↦ ap p {x = k} {y = n} (ground (arith, here)) ∙ ground (arith, h)
  | inr later ↦ all_below-at n p k (ground (arith, h)) (ground (arith, later, lt))
]

-- The sizes of KmallocSlabSet go into a page.
some_objects : (k : ℕ) → k < 16 → 0 < page_2m / (32 * 2 ^ k)
unfolding all_below
some_objects k h = ground (arith, all_below-at 16 (λ k. ltb 0 (page_2m / (32 * 2 ^ k))) k refl h)

positive : (k : ℕ) → 0 < 2 ^ k
positive zero = omega arith
positive (suc k) = omega (arith, positive k)

-- Both ways to set up a slab let an object lie over the data that manages it. In a page of objects of
-- 32 to 512 bytes the last object reaches into `struct Slab` behind the objects, since their number is
-- rounded up; with larger objects the colour map lies where the first object does.
pub grown-Overlaps :
    (k virtual slab : ℕ)
    → (k < 5
        → Overlaps
            (32 * 2 ^ k)
            (small_slab (32 * 2 ^ k) virtual)
            (small_slab (32 * 2 ^ k) virtual).address)
      × (5 ≤ k
          → k < 16
          → Overlaps
              (32 * 2 ^ k)
              (large_slab (32 * 2 ^ k) virtual slab)
              (large_slab (32 * 2 ^ k) virtual slab).map_address)
unfolding small_slab large_slab
grown-Overlaps k virtual slab = (
  small k,
  λ low high. record {
    place = 0;
    inside = some_objects k high;
    low = omega arith;
    high = omega (arith, positive k);
  },
)
  where
    small :
        (k : ℕ)
        → k < 5
        → Overlaps
            (32 * 2 ^ k)
            (small_slab (32 * 2 ^ k) virtual)
            (small_slab (32 * 2 ^ k) virtual).address
    small zero h = record {
      place = 65277;
      inside = omega arith;
      low = omega arith;
      high = omega arith;
    }
    small (suc zero) h = record {
      place = 32702;
      inside = omega arith;
      low = omega arith;
      high = omega arith;
    }
    small (suc (suc zero)) h = record {
      place = 16367;
      inside = omega arith;
      low = omega arith;
      high = omega arith;
    }
    small (suc (suc (suc zero))) h = record {
      place = 8187;
      inside = omega arith;
      low = omega arith;
      high = omega arith;
    }
    small (suc (suc (suc (suc zero)))) h = record {
      place = 4094;
      inside = omega arith;
      low = omega arith;
      high = omega arith;
    }
    small (suc (suc (suc (suc (suc n))))) h = absurd (omega arith)

clear_bits-below : (n count : ℕ) → n ≤ count → clear_bits n (λ i. not (ltb i count)) ≡ n
unfolding clear_bits
clear_bits-below zero count h = refl
clear_bits-below (suc n) count h =
    let less : ltb n count ≡ true = ground (arith, h) in
    rw less (omega (arith, clear_bits-below n count (omega arith)))

clear_bits-all : (n : ℕ) → clear_bits n (λ i. false) ≡ n
unfolding clear_bits
clear_bits-all zero = refl
clear_bits-all (suc n) = omega (arith, clear_bits-all n)

pub small_slab-SlabCounted : (ksize virtual : ℕ) → SlabCounted (small_slab ksize virtual)
unfolding small_slab
small_slab-SlabCounted ksize virtual = record {
  free_bits = sym_of (clear_bits-below _ _ (omega arith));
  all_bits = omega arith;
}
  where
    sym_of : {x y : ℕ} → x ≡ y → y ≡ x
    sym_of p = omega (arith, p)

pub large_slab-SlabCounted : (ksize virtual slab : ℕ) → SlabCounted (large_slab ksize virtual slab)
unfolding large_slab
large_slab-SlabCounted ksize virtual slab = record {
  free_bits = omega (arith, clear_bits-all (page_2m / ksize));
  all_bits = omega arith;
}
