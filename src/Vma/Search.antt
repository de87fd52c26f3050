-- ===== src/Vma/Search.antt =====
-- `find_unmapped_area` (kernel/vma.c): the first fit above the base.
use talios.Base.{
  ℕ, ◌+◌, ◌-◌, ◌%◌, ◌≤◌, ◌<◌, ◌≡◌, inl, inr, true, false, ◌&&◌, Option, none, some, List, [], ◌∷◌,
  ltb, leb, arith, refl, max, leb→le, Bool-cases,
}
use talios.Base.Word.{page_size, page_align_up, neg_errno, enomem}
use talios.Vma.{
  Vma, Mm, bad_len, user_limit, no_room, search_in, search_base, find_unmapped_list,
  find_unmapped_area,
}
use talios.Vma.Order.{IsArea, Chain, IsOrdered, covered-below, IsFree, IsTaken}

-- An aligned address below the limit is its own `PAGE_4K_ALIGN_UP`.
page_align_up-aligned : (a : ℕ) → a % 4096 ≡ 0 → a ≤ user_limit → page_align_up a ≡ a
page_align_up-aligned a h l = omega arith

-- The result of a search from `cur` on for `len` bytes.
pub data Fit (vs : List Vma) (cur len : ℕ) : Option ℕ → Type 0 where
  fit :
      {r : ℕ}
      → cur ≤ r
      → r % page_size ≡ 0
      → r + len ≤ user_limit
      → IsFree vs r (r + len)
      → ((c : ℕ) → cur ≤ c → c < r → IsTaken vs c (c + len))
      → Fit vs cur len (some r)
  none_fits :
      ((c : ℕ) → cur ≤ c → c + len ≤ user_limit → IsTaken vs c (c + len)) → Fit vs cur len none

IsFree-above : (lo start end : ℕ) (vs : List Vma) → end ≤ lo → Chain lo vs → IsFree vs start end
IsFree-above lo start end vs h c a = ground (arith, covered-below a lo vs c)

IsTaken-cons : (v : Vma) (vs : List Vma) (s e : ℕ) → IsTaken vs s e → IsTaken (v ∷ vs) s e
IsTaken-cons v vs s e (a, i, t) = (a, i, ground arith)

-- Areas that end at or before `cur` take no part.
Fit-skip :
    (v : Vma) (vs : List Vma) (cur len : ℕ) {r : Option ℕ}
    → v.end ≤ cur
    → Fit vs cur len r
    → Fit (v ∷ vs) cur len r
Fit-skip v vs cur len h (fit {r} above aligned below free least) =
    fit above aligned below (λ a. ground (arith, free a))
      (λ c p q. IsTaken-cons v vs c (c + len) (least c p q))
Fit-skip v vs cur len h (none_fits all) =
    none_fits (λ c p q. IsTaken-cons v vs c (c + len) (all c p q))

-- A candidate between `cur` and the end of an area that leaves no room before it meets that area.
meets :
    (v : Vma) (vs : List Vma) (cur len c : ℕ)
    → 0 < len
    → v.start < v.end
    → (leb cur v.start && leb len (v.start - cur)) ≡ false
    → cur ≤ c
    → c < v.end
    → IsTaken (v ∷ vs) c (c + len)
meets v vs cur len c pos ne small p q = (max c v.start, ground arith, ground arith)

-- Moving the candidate past such an area loses no fit.
Fit-move :
    (v : Vma) (vs : List Vma) (cur len : ℕ) {r : Option ℕ}
    → 0 < len
    → IsArea v
    → cur ≤ v.end
    → (leb cur v.start && leb len (v.start - cur)) ≡ false
    → Fit vs v.end len r
    → Fit (v ∷ vs) cur len r
Fit-move v vs cur len pos area h small (fit {r} above aligned below free least) =
    fit (omega arith) aligned below (λ a. ground (arith, free a))
      (λ c p q. elim (Bool-cases (ltb c v.end)) [
        | inl inside ↦ meets v vs cur len c pos area.nonempty small p (ground arith)
        | inr after ↦ IsTaken-cons v vs c (c + len) (least c (ground arith) q)
      ])
Fit-move v vs cur len pos area h small (none_fits all) = none_fits (λ c p q.
    elim (Bool-cases (ltb c v.end)) [
      | inl inside ↦ meets v vs cur len c pos area.nonempty small p (ground arith)
      | inr after ↦ IsTaken-cons v vs c (c + len) (all c (ground arith) q)
    ])

Fit-no_room : (vs : List Vma) (cur len : ℕ) → 0 < len → no_room cur len ≡ true → Fit vs cur len none
unfolding no_room
Fit-no_room vs cur len pos h = none_fits (λ c p q. absurd (ground arith))

room_fits : (cur len : ℕ) → no_room cur len ≡ false → leb len (user_limit - cur) ≡ true
unfolding no_room
room_fits cur len h = ground arith

room_below : (cur len : ℕ) → no_room cur len ≡ false → cur + len ≤ user_limit
unfolding no_room
room_below cur len h = ground arith

search_in-Fit :
    (lo : ℕ) (vs : List Vma) (cur len : ℕ)
    → 0 < len
    → cur % page_size ≡ 0
    → no_room cur len ≡ false
    → Chain lo vs
    → Fit vs cur len (search_in vs cur len)
unfolding search_in
search_in-Fit lo [] cur len pos al room c = rw (room_fits cur len room) (
    fit (omega arith) al (ground (arith, room_below cur len room)) (λ a. ground arith)
      (λ c p q. absurd (omega arith)))
search_in-Fit lo (v ∷ vs) cur len pos al room (low, area, rest) =
    elim (Bool-cases (leb v.end cur)) [
      | inl behind ↦ rw behind (
          Fit-skip v vs cur len (leb→le _ _ behind)
            (search_in-Fit v.end vs cur len pos al room rest))
      | inr ahead ↦ elim (Bool-cases (leb cur v.start && leb len (v.start - cur))) [
        | inl gap ↦
            rw (ahead, gap)
              (fit (omega arith) al (ground (arith, area.high, area.nonempty))
                (IsFree-above v.start cur (cur + len) (v ∷ vs) (ground arith)
                  (omega arith, area, rest))
                (λ c p q. absurd (omega arith)))
        | inr small ↦
            rw (ahead, small, page_align_up-aligned v.end area.end_aligned area.high)
              (elim (Bool-cases (no_room v.end len)) [
                | inl full ↦ rw full (
                    Fit-move v vs cur len pos area (ground arith) small
                      (Fit-no_room vs v.end len pos full))
                | inr room' ↦ rw room' (
                    Fit-move v vs cur len pos area (ground arith) small
                      (search_in-Fit v.end vs v.end len pos area.end_aligned room' rest))
              ])
      ]
    ]

search_base-aligned : (b : ℕ) → search_base b % page_size ≡ 0
unfolding search_base
search_base-aligned b = ground arith

find_unmapped_list-Fit :
    (vs : List Vma) (base len : ℕ)
    → 0 < len
    → bad_len len ≡ false
    → IsOrdered vs
    → Fit vs (search_base base) len (find_unmapped_list vs base len)
unfolding find_unmapped_list
find_unmapped_list-Fit vs base len pos good c = elim (Bool-cases (no_room (search_base base) len)) [
  | inl full ↦ rw (good, full) (Fit-no_room vs (search_base base) len pos full)
  | inr room ↦
      rw (good, room)
        (search_in-Fit 0 vs (search_base base) len pos (search_base-aligned base) room c)
]

bad_len-false :
    (len : ℕ) → 0 < len → len % page_size ≡ 0 → len ≤ user_limit - page_size → bad_len len ≡ false
unfolding bad_len
bad_len-false len p q r = ground arith

-- What `find_unmapped_area` returns for a result of its search.
abbrev pub address_of : Option ℕ → ℕ
address_of none = neg_errno enomem
address_of (some r) = r

address_of_lem : (r : Option ℕ) → elim r [ none ↦ neg_errno enomem | some cur ↦ cur ] ≡ address_of r
address_of_lem none = refl
address_of_lem (some r) = refl

pub find_unmapped_area-Fit :
    (mm : Mm) (vs : List Vma) (len : ℕ)
    → mm.vma_list ≡ some vs
    → IsOrdered vs
    → 0 < len
    → len % page_size ≡ 0
    → len ≤ user_limit - page_size
    → (r : Option ℕ) × (find_unmapped_area (some mm) len ≡ address_of r)
      × Fit vs (search_base mm.mmap_base) len r
unfolding find_unmapped_area
find_unmapped_area-Fit mm vs len e c p q r = (
  find_unmapped_list vs mm.mmap_base len,
  rw e (address_of_lem (find_unmapped_list vs mm.mmap_base len)),
  find_unmapped_list-Fit vs mm.mmap_base len p (bad_len-false len p q r) c,
)

pub search_base-ge : (b : ℕ) → page_size ≤ search_base b
unfolding search_base
search_base-ge b = ground arith

pub find_unmapped_area-too_long :
    (mm : Mm) (vs : List Vma) (len : ℕ)
    → mm.vma_list ≡ some vs
    → user_limit - page_size < len
    → find_unmapped_area (some mm) len ≡ neg_errno enomem
unfolding find_unmapped_area find_unmapped_list
find_unmapped_area-too_long mm vs len e h = rw (e, bad) refl
  where
    bad : bad_len len ≡ true
    bad = unfold bad_len in (ground arith)
