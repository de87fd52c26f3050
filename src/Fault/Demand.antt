-- ===== src/Fault/Demand.antt =====
-- What a page that is made on demand leaves, and so a page fault (`handle_page_fault`,
-- kernel/memory.c).
use talios.Base.{
  ℕ, ◌≡◌, ◌+◌, ◌/◌, ◌%◌, ◌<◌, Option, List, none, some, ◌==◌, leb, ltb, arith, ap₂, refl, ◌∙◌, ap,
  Bool-cases, inl, inr, true, false, ◌||◌, not, bit_or,
}
use talios.Base.Word.{Ret, ok, err, enomem, efault, eacces, eopnotsupp, page_align_down}
use talios.Buddy.Count.{one_if}
use talios.Pages.{Pml4, Step, map_page_4k}
use talios.Pages.Walk.{OtherPage, look_pml4}
use talios.Pages.Map.{
  translate, frame_of, frame_of-word, word_add, Mapped, refused, mapped, map_page_4k-Mapped,
}
use talios.Frames.{Frames, FrameLaws, Given, nothing, given}
use talios.Strings.Copy.{IsFilled, memset-IsFilled}
use talios.Strings.{memset}
use talios.Vma.{Vma, Mm, find_vma}
use talios.Mmap.{has, map_anonymous}
use talios.Fault.{
  World, mapped_or_freed, demand_page, new_page, page_fault_access_allowed, pte_flags, fault_at,
  handle_page_fault,
}
use talios.Fault.Same.{Same}
use talios.Vma.Order.{IsOrdered, covered}
use talios.Fault.Cover.{Covers, find_vma-Covers, find_vma-covered}
use talios.Fault.Access.{
  IsUser, user_below, user_present, user_flags, pte_flags-IsUser, IsAccess, IsWord,
  pte_flags-IsWord, page_fault_access_allowed-IsAccess,
}
use talios.Fault.Fails.{Fails, no_frame, not_mapped, Made}
use talios.Pages.Refused.{Refused, IsRest, map_page_4k-Refused, map_page_4k-IsRest}

module _ (F : Frames) (pages_count : ℕ) (L : FrameLaws F pages_count) where
  -- A new page of zeros at `v`, with its frame taken from the allocator.
  pub record Served (v flags : ℕ) (w u : World F pages_count) : Type 0 where
    pub phy : ℕ
    pub aligned : phy % 4096 ≡ 0
    pub small : phy / 4096 < pages_count
    pub good : L.Good u.frames
    pub taken :
        (p : ℕ) → L.free_blocks p u.frames + one_if (p == phy / 4096) ≡ L.free_blocks p w.frames
    pub unmapped : translate w.tables v ≡ none
    pub frame : translate u.tables v ≡ some phy
    pub word : look_pml4 u.tables v ≡ phy + flags
    pub others : (x : ℕ) → OtherPage v x → look_pml4 u.tables x ≡ look_pml4 w.tables x
    pub zeros : IsFilled phy 0 4096 w.memory u.memory

  pub data Demanded (v flags : ℕ) (w : World F pages_count)
      : Ret × World F pages_count → Type 0 where
    out_of_memory :
        {u : World F pages_count}
        → Fails F pages_count v w
        → L.Good u.frames
        → Same F pages_count L w u
        → Demanded v flags w (err enomem, u)
    served :
        {u : World F pages_count}
        → Served v flags w u
        → Made F pages_count v flags w u
        → Demanded v flags w (ok 0, u)

  pub new_page-Demanded :
      (v flags : ℕ) (w : World F pages_count)
      → v % 4096 ≡ 0
      → IsUser flags
      → L.Good w.frames
      → Demanded v flags w (new_page F pages_count v flags w)
  unfolding new_page demand_page mapped_or_freed
  new_page-Demanded v flags w va user good =
      go (F.alloc_page_4k w.frames) refl (L.alloc_lem w.frames good)
    where
      go :
          (a : Option ℕ × F.State)
          → F.alloc_page_4k w.frames ≡ a
          → Given pages_count L.Good L.free_blocks w.frames a
          → Demanded v flags w (demand_page F pages_count v flags a w)
      go _ from (nothing g same) =
          out_of_memory (no_frame (ap (λ a. a.0) from)) g
            (record { good = λ h. g; pages = λ x. refl; free = same })
      go _ from (given {phy} {t} al small g count) =
          at (map_page_4k v (some phy) flags w.tables w.kmallocs) refl
            (map_page_4k-Refused v phy flags va al w.tables w.kmallocs)
            (map_page_4k-IsRest v phy flags va al w.tables w.kmallocs)
            (map_page_4k-Mapped v (some phy) flags w.tables w.kmallocs)
        where
          same_page : {x : ℕ} → some phy ≡ some x → x ≡ phy
          same_page h = ground (arith, h)

          at :
              (s : Step Ret Pml4)
              → map_page_4k v (some phy) flags w.tables w.kmallocs ≡ s
              → ((e : ℕ) → s.0 ≡ err e → Refused v w.tables w.kmallocs)
              → IsRest s.2 w.kmallocs
              → Mapped v (some phy) flags w.tables s
              → Demanded v flags w (
                  mapped_or_freed F pages_count phy s
                    (record w { frames = t; memory = memset phy 0 4096 w.memory }))
          at _ by why rest (refused {e} same) =
              out_of_memory (not_mapped (why e refl)) (L.free-Good t phy g small) (record {
                good = λ h. L.free-Good t phy g small;
                pages = λ x. ap frame_of (same x);
                free = λ p. omega (arith, L.free-count t phy p g small, count p);
              })
          at _ by why rest (mapped e av ap' free word others) =
              let word' = word ∙ ap₂ bit_or (same_page e) (user_flags user) in
              let frame =
                ap frame_of word'
                ∙ frame_of-word phy flags al (user_below user) (user_present user) in
              served
                (record {
                  phy = phy;
                  aligned = al;
                  small = small;
                  good = g;
                  taken = count;
                  unmapped = rw free refl;
                  frame = frame;
                  word = word' ∙ word_add phy flags al (user_below user);
                  others = others;
                  zeros = memset-IsFilled phy 0 4096 w.memory;
                })
                (record {
                  phy = phy;
                  allocated = from;
                  placed = by;
                  answers = rest;
                  frame = frame;
                  others = λ x o. ap frame_of (others x o);
                })

  -- The outcomes of a page fault at the page `addr` with an error code `e`.
  pub data Faulted (mm : Mm) (vs : List Vma) (addr e : ℕ) (w : World F pages_count)
      : Ret × World F pages_count → Type 0 where
    bad_code : (mm.pgd == 0 || has e 8 || has e 1) ≡ true → Faulted mm vs addr e w (err efault, w)
    no_area : covered addr vs ≡ false → Faulted mm vs addr e w (err efault, w)
    forbidden :
        {vma : Vma} {prot : ℕ}
        → Covers vs addr vma
        → IsAccess e prot
        → has vma.prot prot ≡ false
        → Faulted mm vs addr e w (err eacces, w)
    unsupported :
        {vma : Vma}
        → Covers vs addr vma
        → (not (has vma.mmap_flags map_anonymous) || not (vma.file == 0)) ≡ true
        → Faulted mm vs addr e w (err eopnotsupp, w)
    tried :
        {vma : Vma} {prot flags : ℕ} {s : Ret × World F pages_count}
        → (mm.pgd == 0 || has e 8 || has e 1) ≡ false
        → Covers vs addr vma
        → IsAccess e prot
        → has vma.prot prot ≡ true
        → has vma.mmap_flags map_anonymous ≡ true
        → vma.file ≡ 0
        → IsWord vma flags
        → Demanded addr flags w s
        → Faulted mm vs addr e w s

  fault_at-Faulted :
      (mm : Mm) (vs : List Vma) (addr e : ℕ) (w : World F pages_count)
      → mm.vma_list ≡ some vs
      → IsOrdered vs
      → addr % 4096 ≡ 0
      → L.Good w.frames
      → (mm.pgd == 0 || has e 8 || has e 1) ≡ false
      → (o : Option Vma) → find_vma (some mm) addr ≡ o
      → Faulted mm vs addr e w (fault_at F pages_count addr e o w)
  unfolding fault_at
  fault_at-Faulted mm vs addr e w list ordered va good code none h =
      no_area (find_vma-covered mm vs addr list none ordered h refl)
  fault_at-Faulted mm vs addr e w list ordered va good code (some vma) h =
      let (prot, access, may) = page_fault_access_allowed-IsAccess vma e in
      elim (Bool-cases (ltb addr vma.start || leb vma.end addr)) [
        | inl out ↦ rw out (no_area (find_vma-covered mm vs addr list (some vma) ordered h out))
        | inr inside ↦
            let covers : Covers vs addr vma =
              find_vma-Covers mm vs addr list vma h (ground (arith, inside))
                (ground (arith, inside)) in
            elim (Bool-cases (has vma.prot prot)) [
              | inr lacks ↦
                  let no_access : page_fault_access_allowed (some vma) e ≡ false = may ∙ lacks in
                  rw (inside, no_access) (forbidden covers access lacks)
              | inl has_it ↦
                  let allowed : page_fault_access_allowed (some vma) e ≡ true = may ∙ has_it in
                  elim (Bool-cases
                    (not (has vma.mmap_flags map_anonymous) || not (vma.file == 0))) [
                      | inl other ↦ rw (inside, allowed, other) (unsupported covers other)
                      | inr anon ↦
                          rw (inside, allowed, anon)
                            (tried code covers access has_it (ground (arith, anon))
                              (ground (arith, anon)) (pte_flags-IsWord vma)
                              (new_page-Demanded addr (pte_flags vma) w va (pte_flags-IsUser vma)
                                good))
                    ]
            ]
      ]

  -- In a process whose areas are ordered, a page fault makes no page but one of zeros, in one of its
  -- areas, which holds the address, is anonymous and has the access that the error code says; the page
  -- is writable just if the area is.
  -- Every other address keeps its word, one free frame is taken, and the bytes of no other frame
  -- change. Whatever else, the error says why (-ENOMEM where the allocator has no frame, a table that
  -- is missing gets no memory, a huge page is in the way or the page is mapped), and no translation
  -- and no free frame has changed.
  pub handle_page_fault-Faulted :
      (mm : Mm) (vs : List Vma) (address e : ℕ) (w : World F pages_count)
      → mm.vma_list ≡ some vs
      → IsOrdered vs
      → L.Good w.frames
      → Faulted mm vs
          (page_align_down address)
          e
          w
          (handle_page_fault F pages_count (some mm) address e w)
  unfolding handle_page_fault
  handle_page_fault-Faulted mm vs address e w list ordered good =
      elim (Bool-cases (mm.pgd == 0 || has e 8 || has e 1)) [
        | inl bad ↦ rw bad (bad_code bad)
        | inr code ↦ rw code (
            fault_at-Faulted mm vs (page_align_down address) e w list ordered (omega arith) good
              code _ refl)
      ]
