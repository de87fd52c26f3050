-- ===== src/Slab/Free.antt =====
-- What `kfree` (kernel/memory.c) makes of a cache whose counts are right.
use talios.Base.{
  ℕ, zero, suc, ◌+◌, ◌-◌, ◌/◌, ◌<◌, ◌≡◌, true, false, Option, none, some, List, [], ◌∷◌,
  if◌then◌else◌, arith, refl, sym, ap, Bool-cases, inl, inr, get_elem?, set,
}
use talios.Slab.{
  Slab, SlabCache, put_bit, turn_bit, remove_at, is_released, without_slab, free_from,
}
use talios.Slab.Alloc.{
  clear_bits, clear_bits-put, free_objects, used_objects, SlabCounted, EachCounted, one_slab,
  CacheCounted,
}

-- What a list of slabs has with another slab at a place.
record Replaced (s s' : Slab) (ss ss' : List Slab) : Type 0 where
  each : SlabCounted s' → EachCounted ss'
  free : free_objects ss' + s.free_count ≡ free_objects ss + s'.free_count
  use_ : used_objects ss' + s.using_count ≡ used_objects ss + s'.using_count
  was : SlabCounted s

set-Replaced :
    (ss : List Slab) (k : ℕ) (s s' : Slab)
    → EachCounted ss
    → get_elem? ss k ≡ some s
    → Replaced s s' ss (set ss k s')
unfolding free_objects used_objects
set-Replaced [] k s s' cs e = absurd (ground (arith, e))
set-Replaced (x ∷ xs) zero s s' (one_slab c cs) e =
    let same : x ≡ s = ground (arith, e) in
    rw (sym same)
      (record { each = λ c'. one_slab c' cs; free = omega arith; use_ = omega arith; was = c })
set-Replaced (x ∷ xs) (suc k) s s' (one_slab c cs) e =
    let ih = set-Replaced xs k s s' cs e in
    record {
      each = λ c'. one_slab c (ih.each c');
      free = omega (arith, ih.free);
      use_ = omega (arith, ih.use_);
      was = ih.was;
    }

record Without (s : Slab) (ss ss' : List Slab) : Type 0 where
  each : EachCounted ss'
  free : free_objects ss ≡ free_objects ss' + s.free_count
  use_ : used_objects ss ≡ used_objects ss' + s.using_count

remove_at-Without :
    (ss : List Slab) (k : ℕ) (s : Slab)
    → EachCounted ss
    → get_elem? ss k ≡ some s
    → Without s ss (remove_at k ss)
unfolding free_objects used_objects
remove_at-Without [] k s cs e = absurd (ground (arith, e))
remove_at-Without (x ∷ xs) zero s (one_slab c cs) e =
    let same : x ≡ s = ground (arith, e) in
    rw (sym same) (record { each = cs; free = omega arith; use_ = omega arith })
remove_at-Without (x ∷ xs) (suc k) s (one_slab c cs) e =
    let ih = remove_at-Without xs k s cs e in
    record {
      each = one_slab c ih.each;
      free = omega (arith, ih.free);
      use_ = omega (arith, ih.use_);
    }

get_elem?-set_at :
    (ss : List Slab) (k : ℕ) (s s' : Slab)
    → get_elem? ss k ≡ some s
    → get_elem? (set ss k s') k ≡ some s'
get_elem?-set_at [] k s s' e = absurd (ground (arith, e))
get_elem?-set_at (x ∷ xs) zero s s' e = refl
get_elem?-set_at (x ∷ xs) (suc k) s s' e = get_elem?-set_at xs k s s' e

turn_bit-SlabCounted :
    (s : Slab) (i : ℕ)
    → SlabCounted s
    → i < s.color_count
    → s.color_map i ≡ true
    → 0 < s.using_count
    → SlabCounted (turn_bit i s)
unfolding turn_bit
turn_bit-SlabCounted s i c inside used some_used = rw used (record {
  free_bits = omega (arith, put, one, c.free_bits);
  all_bits = omega (arith, c.all_bits, some_used);
})
  where
    put :
        clear_bits s.color_count (put_bit s.color_map i false) + (if s.color_map i then 0 else 1)
        ≡ clear_bits s.color_count s.color_map + 1
    put = (clear_bits-put s.color_count i s.color_map false).0 inside

    one : ◌≡◌ {A = ℕ} (if s.color_map i then 0 else 1) 0
    one = ap (λ b. if b then 0 else 1) used

-- What becomes of the slab: it stays, with the bit clear, or it goes with all its objects free.
pub data FreedIn (place i : ℕ) (s : Slab) (sc : SlabCache) : SlabCache × Option Slab → Type 0 where
  stays :
      {r : SlabCache}
      → r.slabs ≡ set sc.slabs place (turn_bit i s)
      → r.total_free ≡ suc sc.total_free
      → FreedIn place i s sc (r, none)
  goes :
      {r : SlabCache} {s' : Slab}
      → 0 < place
      → s'.vaddress ≡ s.vaddress
      → s'.using_count ≡ 0
      → r.slabs ≡ remove_at place (set sc.slabs place s')
      → r.total_free + s.color_count ≡ suc sc.total_free
      → FreedIn place i s sc (r, some s')

pub record Freed (place i : ℕ) (s : Slab) (sc : SlabCache) (r : SlabCache × Option Slab)
    : Type 0 where
  pub counted : CacheCounted r.0
  pub one_less : suc r.0.total_use ≡ sc.total_use
  pub slab : FreedIn place i s sc r

-- Freeing an object in use, of the slab in use at a place of a cache whose counts are right: its bit is
-- cleared, all counts stay right, and the cache has one object less in use. The slab stays, or, where
-- it is not the first and none of its objects is in use, the cache gives it up with all its objects.
pub free_from-Freed :
    (ptr place : ℕ) (s : Slab) (sc : SlabCache)
    → CacheCounted sc
    → get_elem? sc.slabs place ≡ some s
    → (ptr - s.vaddress) / sc.size < s.color_count
    → s.color_map ((ptr - s.vaddress) / sc.size) ≡ true
    → 0 < s.using_count
    → Freed place ((ptr - s.vaddress) / sc.size) s sc (free_from ptr place s sc)
unfolding free_from is_released without_slab turn_bit
free_from-Freed ptr place s sc c at inside used some_used =
    elim (Bool-cases (is_released place s' sc')) [
      | inr kept ↦
          rw kept (record { counted = counted'; one_less = less; slab = stays refl (omega arith) })
      | inl released ↦ rw released (
          let unused : s'.using_count ≡ 0 = none_used released in
          let w =
            remove_at-Without sc'.slabs place s' counted'.each
              (get_elem?-set_at sc.slabs place s s' at) in
          record {
            counted = record {
              each = w.each;
              free = omega (arith, w.free, counted'.free);
              use_ = omega (arith, w.use_, counted'.use_, unused);
            };
            one_less = less;
            slab =
                goes (not_first released) refl unused refl
                  (omega (arith, w.free, counted'.free, good.all_bits, unused));
          })
    ]
  where
    i : ℕ
    i = (ptr - s.vaddress) / sc.size

    s' : Slab
    s' = turn_bit i s

    sc' : SlabCache
    sc' = record sc {
      total_free = sc.total_free + 1;
      total_use = sc.total_use - 1;
      slabs = set sc.slabs place s';
    }

    r : Replaced s s' sc.slabs sc'.slabs
    r = set-Replaced sc.slabs place s s' c.each at

    good : SlabCounted s'
    good = turn_bit-SlabCounted s i r.was inside used some_used

    counted' : CacheCounted sc'
    counted' = record {
      each = r.each good;
      free = omega (arith, r.free, c.free);
      use_ = omega (arith, r.use_, c.use_, some_used);
    }

    less : suc (sc.total_use - 1) ≡ sc.total_use
    less = omega (arith, r.use_, c.use_, some_used)

    none_used : is_released place s' sc' ≡ true → s'.using_count ≡ 0
    none_used h = ground (arith, h)

    not_first : is_released place s' sc' ≡ true → 0 < place
    not_first h = ground (arith, h)
