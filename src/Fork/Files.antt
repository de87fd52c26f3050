-- ===== src/Fork/Files.antt =====
-- The open files of a process that forks (kernel/task.c): `copy_files`, `exit_files` and the error
-- paths of `do_fork`. A file is its address, kmalloc a list of answers; whether `copy_mm` fails is given.
use talios.Base.{
  ℕ, ◌≡◌, Bool, true, false, ◌||◌, Option, none, some, List, [], ◌∷◌, ◌++◌, if◌then◌else◌, refl, ap,
  Bool-cases, inl, inr,
}
use talios.Base.Word.{Ret, ok, err, enomem}

-- EAGAIN
abbrev pub eagain : ℕ
eagain = 11

-- What `copy_files` leaves: its result, the new task's `handle_array`, the answers that are left, and
-- the copies that it made, from the address to the address.
pub record Copying : Type 0 where
  pub failed : Bool
  pub handles : List (Option ℕ)
  pub kmallocs : List (Option ℕ)
  pub copies : List (ℕ × ℕ)

unfoldable pub with_slot : Option ℕ → Copying → Copying
with_slot t c = record c { handles = t ∷ c.handles }

unfoldable pub with_copy : (p q : ℕ) → Copying → Copying
with_copy p q c = record c { handles = some q ∷ c.handles; copies = (p, q) ∷ c.copies }

-- The loop over the slots of CURRENT and of the task, which have the same files at first.
unfoldable pub copy_slots : (current task kmallocs : List (Option ℕ)) → Copying
unfolding with_slot with_copy
copy_slots [] task ks = record { failed = false; handles = task; kmallocs = ks; copies = [] }
copy_slots (c ∷ cs) [] ks = record { failed = false; handles = []; kmallocs = ks; copies = [] }
copy_slots (none ∷ cs) (t ∷ ts) ks = with_slot t (copy_slots cs ts ks)
copy_slots (some p ∷ cs) (t ∷ ts) [] = record {
  failed = true;
  handles = none ∷ ts;
  kmallocs = [];
  copies = [];
}
copy_slots (some p ∷ cs) (t ∷ ts) (none ∷ ks) = record {
  failed = true;
  handles = none ∷ ts;
  kmallocs = ks;
  copies = [];
}
copy_slots (some p ∷ cs) (t ∷ ts) (some q ∷ ks) = with_copy p q (copy_slots cs ts ks)

unfoldable pub copy_files : (clone_fs : Bool) → (current task kmallocs : List (Option ℕ)) → Copying
unfolding copy_slots
copy_files clone_fs current task ks =
    if clone_fs
    then record { failed = false; handles = task; kmallocs = ks; copies = [] }
    else copy_slots current task ks

-- The addresses in an array: what `exit_files` frees, unless the task has PF_VFORK.
unfoldable pub files_of : List (Option ℕ) → List ℕ
files_of [] = []
files_of (none ∷ hs) = files_of hs
files_of (some p ∷ hs) = p ∷ files_of hs

unfoldable pub exit_files : (vfork : Bool) → List (Option ℕ) → List ℕ
unfolding files_of
exit_files vfork handles = if vfork then [] else files_of handles

-- The fields of the caller and of the call that `do_fork` uses here.
pub record Caller : Type 0 where
  pub handles : List (Option ℕ)
  pub next : ℕ
  pub vfork : Bool
  pub clone_vm : Bool
  pub clone_fs : Bool
  pub mm_fails : Bool
  pub global_pid : ℕ

-- Its result, CURRENT->next, the task's handles where there is a task, the copies of files that were
-- made, and what it has freed, in order.
pub record Forking : Type 0 where
  pub result : Ret
  pub next : ℕ
  pub task : Option (List (Option ℕ))
  pub copies : List (ℕ × ℕ)
  pub freed : List ℕ

unfoldable pub files_copied : (tsk : ℕ) → (vfork : Bool) → (global_pid : ℕ) → Copying → Forking
unfolding exit_files
files_copied tsk vfork global_pid c =
    if c.failed
    then record {
      result = err enomem;
      next = tsk;
      task = none;
      copies = c.copies;
      freed = exit_files vfork c.handles ++ (tsk ∷ []);
    }
    else record {
      result = ok global_pid;
      next = tsk;
      task = some c.handles;
      copies = c.copies;
      freed = [];
    }

-- `task` is the answer for the new task, and `kmallocs` those for its files.
unfoldable pub do_fork : Caller → (task : Option ℕ) (kmallocs : List (Option ℕ)) → Forking
unfolding copy_files exit_files files_copied
do_fork c none ks = record {
  result = err eagain;
  next = c.next;
  task = none;
  copies = [];
  freed = [];
}
do_fork c (some tsk) ks =
    let vfork = c.vfork || c.clone_vm in
    if c.mm_fails
    then record {
      result = err enomem;
      next = tsk;
      task = none;
      copies = [];
      freed = exit_files vfork c.handles ++ (tsk ∷ []);
    }
    else files_copied tsk vfork c.global_pid (copy_files c.clone_fs c.handles c.handles ks)

-- The files of an array, in the order of its slots.
pub data OpenFiles : List (Option ℕ) → List ℕ → Type 0 where
  no_slot : OpenFiles [] []
  closed_one : {cs : List (Option ℕ)} {xs : List ℕ} → OpenFiles cs xs → OpenFiles (none ∷ cs) xs
  open_one :
      {cs : List (Option ℕ)} {xs : List ℕ} {p : ℕ}
      → OpenFiles cs xs
      → OpenFiles (some p ∷ cs) (p ∷ xs)

files_of-OpenFiles : (cs : List (Option ℕ)) → OpenFiles cs (files_of cs)
unfolding files_of
files_of-OpenFiles [] = no_slot
files_of-OpenFiles (none ∷ cs) = closed_one (files_of-OpenFiles cs)
files_of-OpenFiles (some p ∷ cs) = open_one (files_of-OpenFiles cs)

-- The slots of the task: closed where the caller's is, and for a file of the caller the next answer of
-- kmalloc, to which that file was copied.
pub data Own : (current kmallocs task : List (Option ℕ)) (copies : List (ℕ × ℕ)) → Type 0 where
  no_slots : {ks : List (Option ℕ)} → Own [] ks [] []
  closed :
      {cs ks ts : List (Option ℕ)} {xs : List (ℕ × ℕ)}
      → Own cs ks ts xs
      → Own (none ∷ cs) ks (none ∷ ts) xs
  copied :
      {cs ks ts : List (Option ℕ)} {xs : List (ℕ × ℕ)} {p q : ℕ}
      → Own cs ks ts xs
      → Own (some p ∷ cs) (some q ∷ ks) (some q ∷ ts) ((p, q) ∷ xs)

-- kmalloc has no answer left, or its next one is NULL.
pub data IsOut : List (Option ℕ) → Type 0 where
  none_left : IsOut []
  null_next : {ks : List (Option ℕ)} → IsOut (none ∷ ks)

-- The answers of kmalloc up to an open slot for which it is out, and the caller's files behind it.
pub data Partly : (current kmallocs task : List (Option ℕ)) (own shared : List ℕ) → Type 0 where
  stopped :
      {p : ℕ} {cs ks : List (Option ℕ)} {xs : List ℕ}
      → IsOut ks
      → OpenFiles cs xs
      → Partly (some p ∷ cs) ks (none ∷ cs) [] xs
  closed_slot :
      {cs ks ts : List (Option ℕ)} {own shared : List ℕ}
      → Partly cs ks ts own shared
      → Partly (none ∷ cs) ks (none ∷ ts) own shared
  copied_slot :
      {cs ks ts : List (Option ℕ)} {own shared : List ℕ} {p q : ℕ}
      → Partly cs ks ts own shared
      → Partly (some p ∷ cs) (some q ∷ ks) (some q ∷ ts) (q ∷ own) shared

pub data CopiedSlots (cs ks : List (Option ℕ)) : Copying → Type 0 where
  all_copied : {c : Copying} → c.failed ≡ false → Own cs ks c.handles c.copies → CopiedSlots cs ks c
  part_copied :
      {c : Copying} {own shared : List ℕ}
      → c.failed ≡ true
      → Partly cs ks c.handles own shared
      → CopiedSlots cs ks c

copy_slots-CopiedSlots : (cs ks : List (Option ℕ)) → CopiedSlots cs ks (copy_slots cs cs ks)
unfolding copy_slots with_slot with_copy
copy_slots-CopiedSlots [] ks = all_copied refl no_slots
copy_slots-CopiedSlots (none ∷ cs) ks = go (copy_slots-CopiedSlots cs ks)
  where
    go : {c : Copying} → CopiedSlots cs ks c → CopiedSlots (none ∷ cs) ks (with_slot none c)
    go (all_copied e o) = all_copied e (closed o)
    go (part_copied e p) = part_copied e (closed_slot p)
copy_slots-CopiedSlots (some p ∷ cs) [] =
    part_copied refl (stopped none_left (files_of-OpenFiles cs))
copy_slots-CopiedSlots (some p ∷ cs) (none ∷ ks) =
    part_copied refl (stopped null_next (files_of-OpenFiles cs))
copy_slots-CopiedSlots (some p ∷ cs) (some q ∷ ks) = go (copy_slots-CopiedSlots cs ks)
  where
    go :
        {c : Copying}
        → CopiedSlots cs ks c
        → CopiedSlots (some p ∷ cs) (some q ∷ ks) (with_copy p q c)
    go (all_copied e o) = all_copied e (copied o)
    go (part_copied e p) = part_copied e (copied_slot p)

-- What the error path frees.
OpenFiles-files_of : {cs : List (Option ℕ)} {xs : List ℕ} → OpenFiles cs xs → files_of cs ≡ xs
unfolding files_of
OpenFiles-files_of no_slot = refl
OpenFiles-files_of (closed_one h) = OpenFiles-files_of h
OpenFiles-files_of (open_one {p} h) = ap (λ xs. p ∷ xs) (OpenFiles-files_of h)

Partly-files_of :
    {cs ks ts : List (Option ℕ)} {own shared : List ℕ}
    → Partly cs ks ts own shared
    → files_of ts ≡ own ++ shared
unfolding files_of
Partly-files_of (stopped out h) = OpenFiles-files_of h
Partly-files_of (closed_slot p) = Partly-files_of p
Partly-files_of (copied_slot {q} p) = ap (λ xs. q ∷ xs) (Partly-files_of p)

-- The outcomes of `do_fork` for a call without CLONE_VM and CLONE_FS.
pub data Forked (c : Caller) (ks : List (Option ℕ)) : Option ℕ → Forking → Type 0 where
  no_task :
      {f : Forking} → f.result ≡ err eagain → f.freed ≡ [] → f.next ≡ c.next → Forked c ks none f
  no_memory :
      {tsk : ℕ} {f : Forking} {xs : List ℕ}
      → c.mm_fails ≡ true
      → f.result ≡ err enomem
      → f.next ≡ tsk
      → OpenFiles c.handles xs
      → f.freed ≡ xs ++ (tsk ∷ [])
      → Forked c ks (some tsk) f
  no_file :
      {tsk : ℕ} {f : Forking} {ts : List (Option ℕ)} {own shared : List ℕ}
      → c.mm_fails ≡ false
      → Partly c.handles ks ts own shared
      → f.result ≡ err enomem
      → f.next ≡ tsk
      → f.freed ≡ (own ++ shared) ++ (tsk ∷ [])
      → Forked c ks (some tsk) f
  forked :
      {tsk : ℕ} {f : Forking} {ts : List (Option ℕ)} {copies : List (ℕ × ℕ)}
      → c.mm_fails ≡ false
      → Own c.handles ks ts copies
      → f.copies ≡ copies
      → f.task ≡ some ts
      → f.result ≡ ok c.global_pid
      → f.next ≡ tsk
      → f.freed ≡ []
      → Forked c ks (some tsk) f

-- A fork with files and memory of its own gives the new task, for each open slot, the next answer of
-- kmalloc, to which the caller's file was copied, leaves the closed slots closed, and returns the pid;
-- or it fails, and then frees files of the caller. Where `copy_mm` failed these are all of its files;
-- where kmalloc had no memory for a file they are those of the slots behind it, besides the copies
-- made so far. The task too is freed, and still `next` of the caller. Without memory for the task
-- nothing changes.
pub do_fork-Forked :
    (c : Caller) (task : Option ℕ) (ks : List (Option ℕ))
    → c.vfork ≡ false
    → c.clone_vm ≡ false
    → c.clone_fs ≡ false
    → Forked c ks task (do_fork c task ks)
unfolding do_fork copy_files exit_files files_copied
do_fork-Forked c none ks v vm fs = no_task refl refl refl
do_fork-Forked c (some tsk) ks v vm fs = elim (Bool-cases c.mm_fails) [
  | inl fails ↦
      simp (fails, v, vm)
        (no_memory {tsk = tsk} fails refl refl (files_of-OpenFiles c.handles) refl)
  | inr goes ↦
      simp (goes, v, vm, fs)
        (copied_all goes (copy_slots c.handles c.handles ks) (copy_slots-CopiedSlots c.handles ks))
]
  where
    copied_all :
        c.mm_fails ≡ false
        → (x : Copying) → CopiedSlots c.handles ks x
        → Forked c ks (some tsk) (files_copied tsk false c.global_pid x)
    copied_all goes x (all_copied e o) = rw e (forked goes o refl refl refl refl refl)
    copied_all goes x (part_copied e p) =
        rw e (no_file goes p refl refl (ap (λ xs. xs ++ (tsk ∷ [])) (Partly-files_of p)))
