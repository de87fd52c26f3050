-- ===== src/Files/Open.antt =====
-- Which descriptor `sys_open` gives (kernel/sys.c), and what it leaves of the other open files.
use talios.Base.{
  ℕ, zero, suc, ◌+◌, ◌<◌, ◌≤◌, ◌≡◌, ◌≢◌, Bool, ◌&&◌, true, false, not, Option, none, some, leb,
  ◌==◌, if◌then◌else◌, arith, refl, ◌∙◌, ap, sym, Bool-cases, inl, inr,
}
use talios.Base.Word.{neg_errno, enomem, efault, enoent}
use talios.Mmap.{has}
use talios.Files.{
  max_handle, o_directory, fs_attr_dir, emfile, enametoolong, eisdir, enotdir, Filp, Inode, Op,
  Files, first_free, truncated, appended, o_trunc, o_append, entered, open_done, open_entry,
  sys_open,
}

-- How the search for a free descriptor ends.
data Found (i n : ℕ) (t : ℕ → Option Filp) : Option ℕ → Type 0 where
  all_used : ((j : ℕ) → i ≤ j → j < i + n → t j ≢ none) → Found i n t none
  free_at :
      {fd : ℕ}
      → i ≤ fd
      → fd < i + n
      → t fd ≡ none
      → ((j : ℕ) → i ≤ j → j < fd → t j ≢ none)
      → Found i n t (some fd)

first_free-Found : (n i : ℕ) (t : ℕ → Option Filp) → Found i n t (first_free n i t)
unfolding first_free
first_free-Found zero i t = all_used (λ j a b. absurd (omega arith))
first_free-Found (suc n) i t = go (first_free-Found n (i + 1) t) (t i) refl
  where
    used : {f : Filp} → t i ≡ some f → (j : ℕ) → j ≡ i → t j ≢ none
    used e j s h = ground (arith, sym e ∙ (ap t (sym s) ∙ h))

    later : {f : Filp} → t i ≡ some f → {o : Option ℕ} → Found (i + 1) n t o → Found i (suc n) t o
    later e (all_used h) = all_used (λ j a b. elim (Bool-cases (j == i)) [
      | inl here ↦ used e j (ground (arith, here))
      | inr away ↦ h j (ground (arith, away, a)) (omega (arith, b))
    ])
    later e (free_at a b c h) = free_at (omega (arith, a)) (omega (arith, b)) c (λ j x y.
        elim (Bool-cases (j == i)) [
          | inl here ↦ used e j (ground (arith, here))
          | inr away ↦ h j (ground (arith, away, x)) y
        ])

    go :
        Found (i + 1) n t (first_free n (i + 1) t)
        → (o : Option Filp) → t i ≡ o
        → Found i (suc n) t (elim o [ none ↦ some i | some f ↦ first_free n (i + 1) t ])
    go rest none e = free_at (omega arith) (omega arith) e (λ j a b. absurd (omega arith))
    go rest (some f) e = later e rest

-- O_TRUNC among the bits of the mode empties the inode of the file, and no other.
pub record Emptied (f : Filp) (before after : ℕ → Inode) : Type 0 where
  pub on_trunc :
      has f.mode o_trunc ≡ true → after f.dentry ≡ record (before f.dentry) { file_size = 0 }
  pub else_kept : has f.mode o_trunc ≡ false → after f.dentry ≡ before f.dentry
  pub others : (d : ℕ) → d ≢ f.dentry → after d ≡ before d

-- The file with its position at the end for O_APPEND, and where it was otherwise.
pub record Placed (f g : Filp) (inodes : ℕ → Inode) : Type 0 where
  pub on_append : has f.mode o_append ≡ true → g.position ≡ (inodes f.dentry).file_size
  pub else_kept : has f.mode o_append ≡ false → g.position ≡ f.position
  pub same_file : (g.mode ≡ f.mode) × (g.dentry ≡ f.dentry) × (g.on_keyboard ≡ f.on_keyboard)

truncated-Emptied : (f : Filp) (inodes : ℕ → Inode) → Emptied f inodes (truncated f inodes)
unfolding truncated
truncated-Emptied f inodes = record {
  on_trunc = λ h. let same : (f.dentry == f.dentry) ≡ true = ground arith in rw (h, same) refl;
  else_kept = λ h. rw h refl;
  others = λ d ne.
      let other : (has f.mode o_trunc && d == f.dentry) ≡ false = ground (arith, ne) in
      rw other refl;
}

appended-Placed : (f : Filp) (inodes : ℕ → Inode) → Placed f (appended f inodes) inodes
unfolding appended
appended-Placed f inodes = elim (Bool-cases (has f.mode o_append)) [
  | inl on ↦ rw on (record {
    on_append = λ _. refl;
    else_kept = λ h. absurd (ground (arith, h, on));
    same_file = (refl, refl, refl);
  })
  | inr off ↦ rw off (record {
    on_append = λ h. absurd (ground (arith, h, off));
    else_kept = λ _. refl;
    same_file = (refl, refl, refl);
  })
]

module _ {S : Type 0} where
  -- What is left once the file's own `open` has given `errno`, a file and a world.
  pub data Attempt (s : Files S) (errno : ℕ) (f : Filp) (inodes : ℕ → Inode) (rest : S)
      : ℕ × Files S → Type 0 where
    not_opened :
        errno ≢ 1
        → Attempt s errno f inodes rest (neg_errno efault, record s { world = (inodes, rest) })
    no_room :
        {after : ℕ → Inode}
        → errno ≡ 1
        → Emptied f inodes after
        → ((i : ℕ) → i < max_handle → s.handle_array i ≢ none)
        → Attempt s errno f inodes rest (neg_errno emfile, record s { world = (after, rest) })
    opened :
        {fd : ℕ} {t : ℕ → Option Filp} {g : Filp} {after : ℕ → Inode}
        → errno ≡ 1
        → Emptied f inodes after
        → Placed f g after
        → fd < max_handle
        → s.handle_array fd ≡ none
        → ((i : ℕ) → i < fd → s.handle_array i ≢ none)
        → t fd ≡ some g
        → ((i : ℕ) → i ≢ fd → t i ≡ s.handle_array i)
        → Attempt s errno f inodes rest (fd, record { handle_array = t; world = (after, rest) })

  open_done-Attempt :
      (s : Files S) (errno : ℕ) (f : Filp) (inodes : ℕ → Inode) (rest : S)
      → Attempt s errno f inodes rest (open_done s (errno, f, (inodes, rest)))
  unfolding open_done entered
  open_done-Attempt s errno f inodes rest = elim (Bool-cases (errno == 1)) [
    | inr no_open ↦ rw no_open (not_opened (λ e. ground (arith, no_open, e)))
    | inl done ↦ rw done (go (ground (arith, done)) (first_free-Found max_handle 0 s.handle_array))
  ]
    where
      same : (fd : ℕ) → (fd == fd) ≡ true
      same fd = ground arith

      other : {i fd : ℕ} → i ≢ fd → (i == fd) ≡ false
      other h = ground (arith, h)

      go :
          errno ≡ 1
          → {o : Option ℕ} → Found 0 max_handle s.handle_array o
          → Attempt s errno f inodes rest (
              entered
                (appended f (truncated f inodes))
                o
                (record s { world = (truncated f inodes, rest) }))
      go e (all_used h) =
          no_room e (truncated-Emptied f inodes) (λ i lt. h i (omega arith) (omega (arith, lt)))
      go e (free_at {fd} a b c h) =
          opened e (truncated-Emptied f inodes) (appended-Placed f (truncated f inodes))
            (omega (arith, b)) c (λ i lt. h i (omega arith) lt) (rw (same fd) refl)
            (λ i ne. rw (other ne) refl)

  -- The file that `sys_open` makes before it calls `open`.
  abbrev pub new_file : (flag dentry : ℕ) → Files S → Filp
  new_file flag dentry s = record {
    position = 0;
    mode = flag;
    dentry = dentry;
    on_keyboard = has (s.world.0 dentry).attribute 2;
  }

  -- The outcomes of `sys_open`: every early error leaves all as it was.
  pub data Opening (open_op : Op S) (has_path has_file : Bool) (pathlen : ℕ) (dentry : Option ℕ)
      (flag : ℕ) (s : Files S) : Option (ℕ × Files S) → Type 0 where
    no_path :
        has_path ≡ false
        → Opening open_op has_path has_file pathlen dentry flag s (some (neg_errno enomem, s))
    bad_name :
        pathlen ≡ 0
        → Opening open_op has_path has_file pathlen dentry flag s (some (neg_errno efault, s))
    long_name :
        4096 ≤ pathlen
        → Opening open_op has_path has_file pathlen dentry flag s (some (neg_errno enametoolong, s))
    missing :
        dentry ≡ none
        → Opening open_op has_path has_file pathlen dentry flag s (some (neg_errno enoent, s))
    a_directory :
        {d : ℕ}
        → dentry ≡ some d
        → has flag o_directory ≡ false
        → (s.world.0 d).attribute ≡ fs_attr_dir
        → Opening open_op has_path has_file pathlen dentry flag s (some (neg_errno eisdir, s))
    no_directory :
        {d : ℕ}
        → dentry ≡ some d
        → has flag o_directory ≡ true
        → (s.world.0 d).attribute ≢ fs_attr_dir
        → Opening open_op has_path has_file pathlen dentry flag s (some (neg_errno enotdir, s))
    no_file : has_file ≡ false → Opening open_op has_path has_file pathlen dentry flag s none
    tried :
        {d : ℕ} {r : ℕ × Files S}
        → dentry ≡ some d
        → (has flag o_directory ≡ ((s.world.0 d).attribute == fs_attr_dir))
        → Attempt s
            (open_op (new_file flag d s) s.world).0
            (open_op (new_file flag d s) s.world).1
            (open_op (new_file flag d s) s.world).2.0
            (open_op (new_file flag d s) s.world).2.1
            r
        → Opening open_op has_path has_file pathlen dentry flag s (some r)

  -- `sys_open` gives the lowest descriptor that is free, and puts there the file that its own `open`
  -- has made, at the end of the file for O_APPEND and where it was otherwise; O_TRUNC has emptied the
  -- file before, and no other inode changes, nor does another descriptor. With none free it gives
  -- -EMFILE and changes no descriptor, but for O_TRUNC the file is emptied all the same. The errors before the file's own `open` leave all as it was; only where
  -- kmalloc has no room for the file does the code follow NULL.
  pub sys_open-Opening :
      (open_op : Op S) (has_path has_file : Bool) (pathlen : ℕ) (dentry : Option ℕ) (flag : ℕ)
      (s : Files S)
      → Opening open_op has_path has_file pathlen dentry flag s
          (sys_open open_op has_path has_file pathlen dentry flag s)
  unfolding sys_open open_entry
  sys_open-Opening open_op false has_file pathlen dentry flag s = no_path refl
  sys_open-Opening open_op true has_file pathlen dentry flag s = elim (Bool-cases (pathlen == 0)) [
    | inl empty ↦ rw empty (bad_name (ground (arith, empty)))
    | inr named ↦ elim (Bool-cases (leb 4096 pathlen)) [
      | inl long ↦ rw (named, long) (long_name (ground (arith, long)))
      | inr fits ↦ rw (named, fits) (go dentry refl)
    ]
  ]
    where
      number : {x y : ℕ} → (x == y) ≡ true → x ≡ y
      number h = ground (arith, h)

      differ : {x y : ℕ} → (x == y) ≡ false → x ≢ y
      differ h e = ground (arith, h, e)

      made :
          (d : ℕ)
          → dentry ≡ some d
          → has flag o_directory ≡ ((s.world.0 d).attribute == fs_attr_dir)
          → Opening open_op true has_file pathlen dentry flag s (
              if not has_file
              then none
              else some (open_done s (open_op (new_file flag d s) s.world)))
      made d e kind = elim (Bool-cases has_file) [
        | inr no_room_for ↦ rw no_room_for (no_file refl)
        | inl room ↦ rw room (tried e kind (open_done-Attempt s _ _ _ _))
      ]

      go :
          (u : Option ℕ)
          → dentry ≡ u
          → Opening open_op true has_file pathlen dentry flag s (elim u [
            | none ↦ some (neg_errno enoent, s)
            | some d ↦ open_entry open_op has_file flag d s
          ])
      go none e = missing e
      go (some d) e = elim (Bool-cases (has flag o_directory)) [
        | inl dir ↦ elim (Bool-cases ((s.world.0 d).attribute == fs_attr_dir)) [
          | inr file ↦ rw (dir, file) (no_directory e dir (differ file))
          | inl is_dir ↦ rw (dir, is_dir) (made d e (dir ∙ sym is_dir))
        ]
        | inr no_dir ↦ elim (Bool-cases ((s.world.0 d).attribute == fs_attr_dir)) [
          | inl is_dir ↦ rw (no_dir, is_dir) (a_directory e no_dir (number is_dir))
          | inr file ↦ rw (no_dir, file) (made d e (no_dir ∙ sym file))
        ]
      ]
