-- ===== src/Vma.antt =====
-- The virtual memory areas of a process: kernel/vma.c and kernel/vma.h.
pub mod Order
pub mod Insert
pub mod Free
pub mod Search
pub mod Clone
mod Tests
use talios.Base.{
  ℕ, ◌+◌, ◌-◌, ◌*◌, ◌%◌, ◌^◌, ◌/◌, ◌≡◌, Bool, true, false, ◌||◌, Option, none, some, List, [], ◌∷◌,
  ◌++◌, ltb, leb, ◌==◌, if◌then◌else◌, not, ◌&&◌,
}
use talios.Base.Word.{Ret, ok, err, neg_errno, page_size, page_align_up, enomem, eexist, einval}
use mathlib.Core.Option

-- USER_LIMIT
abbrev pub user_limit : ℕ
user_limit = 0x800000000000

-- DEFAULT_MMAP_BASE
abbrev pub default_mmap_base : ℕ
default_mmap_base = 0x4000000000

-- `vm_area_struct`. A pointer is its address, 0 for NULL; the list links are the list's order.
pub record Vma : Type 0 where
  pub vm_mm : ℕ
  pub start : ℕ
  pub end : ℕ
  pub prot : ℕ
  pub flags : ℕ
  pub mmap_flags : ℕ
  pub file_offset : ℕ
  pub file : ℕ

-- The fields of `struct LocalMemManager` that this file and kernel/mmap.c use. `addr` is the
-- address of the struct, and `vma_list` is `none` while its links are NULL.
pub record Mm : Type 0 where
  pub addr : ℕ
  pub pgd : ℕ
  pub vma_list : Option (List Vma)
  pub mmap_base : ℕ

pub lmm_init : Option Mm → Option Mm
lmm_init none = none
lmm_init (some mm) = some (record mm { vma_list = some []; mmap_base = default_mmap_base })

-- The loop of `find_vma`.
unfoldable pub find_in : List Vma → ℕ → Option Vma
find_in [] addr = none
find_in (vma ∷ vmas) addr = if ltb addr vma.end then some vma else find_in vmas addr

unfoldable pub find_vma : Option Mm → ℕ → Option Vma
unfolding find_in
find_vma none addr = none
find_vma (some mm) addr = elim (mm.vma_list) [ none ↦ none | some vmas ↦ find_in vmas addr ]

-- The guard of `insert_vma` on the new area alone.
unfoldable pub bad_area : Vma → Bool
bad_area vma =
    leb vma.end vma.start
    || ltb vma.start page_size
    || ltb user_limit vma.end
    || not (vma.start % page_size == 0)
    || not (vma.end % page_size == 0)

-- The loop of `insert_vma` with the link that follows it; `none` is its -EEXIST.
unfoldable pub insert_in : Vma → List Vma → Option (List Vma)
insert_in vma [] = some (vma ∷ [])
insert_in vma (p ∷ ps) =
    if leb vma.end p.start
    then some (vma ∷ p ∷ ps)
    else if ltb vma.start p.end
    then none
    else Option.map (λ qs. p ∷ qs) (insert_in vma ps)

-- The result and the new list of `mm`; what is inserted has its `vm_mm` set.
unfoldable pub insert_list : ℕ → Vma → List Vma → Ret × List Vma
unfolding bad_area insert_in
insert_list mm_addr vma vmas =
    if bad_area vma
    then (err einval, vmas)
    else elim (insert_in (record vma { vm_mm = mm_addr }) vmas) [
      | none ↦ (err eexist, vmas)
      | some vmas' ↦ (ok 1, vmas')
    ]

pub insert_vma : Option Mm → Option Vma → Ret × Option Mm
unfolding insert_list
insert_vma none vma = (err einval, none)
insert_vma (some mm) none = (err einval, some mm)
insert_vma (some mm) (some vma) = elim (mm.vma_list) [
  | none ↦ (err einval, some mm)
  | some vmas ↦
      let (r, vmas') = insert_list mm.addr vma vmas in
      (r, some (record mm { vma_list = some vmas' }))
]

-- The loop of `range_is_free`.
unfoldable pub free_in : List Vma → ℕ → ℕ → Bool
free_in [] start end = true
free_in (vma ∷ vmas) start end =
    if leb end vma.start then true else if ltb start vma.end then false else free_in vmas start end

-- `len > USER_LIMIT - start` is read after `start >= USER_LIMIT` failed, so nothing wraps. The C
-- tests `start < vma->end && end > vma->start` where `end <= vma->start` has just failed.
unfoldable pub range_is_free_list : List Vma → ℕ → ℕ → Bool
unfolding free_in
range_is_free_list vmas start len =
    if len == 0 || ltb start page_size || leb user_limit start || ltb (user_limit - start) len
    then false
    else free_in vmas start (start + len)

unfoldable pub range_is_free : Option Mm → ℕ → ℕ → Bool
unfolding range_is_free_list
range_is_free none start len = false
range_is_free (some mm) start len = elim (mm.vma_list) [
  | none ↦ false
  | some vmas ↦ range_is_free_list vmas start len
]

-- `cur >= USER_LIMIT || len > USER_LIMIT - cur`
unfoldable pub no_room : ℕ → ℕ → Bool
no_room cur len = leb user_limit cur || ltb (user_limit - cur) len

-- The loop of `find_unmapped_area`, with the returns that follow it; `none` is its -ENOMEM.
unfoldable pub search_in : List Vma → ℕ → ℕ → Option ℕ
unfolding no_room
search_in [] cur len = if leb len (user_limit - cur) then some cur else none
search_in (vma ∷ vmas) cur len =
    let next = page_align_up vma.end in
    let skipped = search_in vmas cur len in
    let moved = search_in vmas next len in
    if leb vma.end cur
    then skipped
    else if leb cur vma.start && leb len (vma.start - cur)
    then some cur
    else if no_room next len
    then none
    else moved

-- Where the search starts.
unfoldable pub search_base : ℕ → ℕ
search_base mmap_base =
    let cur = if mmap_base == 0 then default_mmap_base else page_align_up mmap_base in
    if ltb cur page_size then page_size else cur

-- `len == 0`, or no multiple of the page size, or too large.
unfoldable pub bad_len : ℕ → Bool
bad_len len = len == 0 || not (len % page_size == 0) || ltb (user_limit - page_size) len

unfoldable pub find_unmapped_list : List Vma → ℕ → ℕ → Option ℕ
unfolding bad_len no_room search_in search_base
find_unmapped_list vmas mmap_base len =
    if bad_len len
    then none
    else if no_room (search_base mmap_base) len
    then none
    else search_in vmas (search_base mmap_base) len

-- An address, or `(unsigned long)-ENOMEM`.
pub find_unmapped_area : Option Mm → ℕ → ℕ
unfolding find_unmapped_list
find_unmapped_area none len = neg_errno enomem
find_unmapped_area (some mm) len = elim (mm.vma_list) [
  | none ↦ neg_errno enomem
  | some vmas ↦ elim (find_unmapped_list vmas mm.mmap_base len) [
    | none ↦ neg_errno enomem
    | some cur ↦ cur
  ]
]

-- `vma_destroy_all` unlinks and frees every area.
pub vma_destroy_all : Option Mm → Option Mm
vma_destroy_all none = none
vma_destroy_all (some mm) = elim (mm.vma_list) [
  | none ↦ some mm
  | some vmas ↦ some (record mm { vma_list = some [] })
]

-- The loop of `vma_clone_all`: the copies go to the tail of `done`. The list of Booleans says of
-- each `kmalloc` in turn whether it succeeds; past its end none does. `none` is -ENOMEM.
unfoldable pub clone_in : ℕ → List Bool → List Vma → List Vma → Option (List Vma)
clone_in dst allocs [] done = some done
clone_in dst [] (vma ∷ vmas) done = none
clone_in dst (false ∷ allocs) (vma ∷ vmas) done = none
clone_in dst (true ∷ allocs) (vma ∷ vmas) done =
    clone_in dst allocs vmas (done ++ (record vma { vm_mm = dst } ∷ []))

-- The result and the destination. The two structs are one if their addresses are.
pub vma_clone_all : List Bool → Option Mm → Option Mm → Ret × Option Mm
unfolding clone_in vma_destroy_all
vma_clone_all allocs none dst = (err einval, dst)
vma_clone_all allocs (some src) none = (err einval, none)
vma_clone_all allocs (some src) (some dst) =
    if src.addr == dst.addr then (err einval, some dst) else elim (src.vma_list) [
      | none ↦ (err einval, some dst)
      | some vmas ↦ elim (dst.vma_list) [
        | none ↦ (err einval, some dst)
        | some old ↦ elim (clone_in dst.addr allocs vmas old) [
          | none ↦ (err enomem, vma_destroy_all (some dst))
          | some copies ↦ (ok 0, some (record dst { vma_list = some copies }))
        ]
      ]
    ]
