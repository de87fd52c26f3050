-- ===== src/Files.antt =====
-- The open files of a process: `sys_open`, `sys_close`, `sys_read`, `sys_write`, `sys_lseek` and
-- `sys_ioctl` of kernel/sys.c. The operations of a file are a parameter, and what `strnlen_user`,
-- `path_walk` and kmalloc give are arguments. A descriptor below 0 is the word of its 32 bits.
pub mod Open
pub mod Close
mod Tests
use talios.Base.{
  ℕ, zero, suc, ◌+◌, ◌-◌, ◌^◌, Bool, true, false, ◌&&◌, ◌||◌, not, Option, none, some, ltb, leb,
  ◌==◌, if◌then◌else◌,
}
use talios.Base.Word.{neg_errno, enomem, efault, enoent, ebadf, einval}
use talios.Mmap.{has}

-- MAX_HANDLE_PER_TASK
abbrev pub max_handle : ℕ
max_handle = 20

-- O_TRUNC, O_APPEND and O_DIRECTORY
abbrev pub o_trunc : ℕ
o_trunc = 0x200

abbrev pub o_append : ℕ
o_append = 0x400

abbrev pub o_directory : ℕ
o_directory = 0x4000

-- FS_ATTR_DIR and FS_ATTR_DEVICE
abbrev pub fs_attr_dir : ℕ
fs_attr_dir = 0

abbrev pub fs_attr_device : ℕ
fs_attr_device = 2

-- ENOTDIR, EISDIR, EMFILE and ENAMETOOLONG
abbrev pub enotdir : ℕ
enotdir = 20

abbrev pub eisdir : ℕ
eisdir = 21

abbrev pub emfile : ℕ
emfile = 24

abbrev pub enametoolong : ℕ
enametoolong = 36

-- SEEK_MAX
abbrev pub seek_max : ℕ
seek_max = 3

-- `file`; `dentry` is the number of an entry with its inode, and `f_ops` are those of the keyboard or
-- of the file system.
pub record Filp : Type 0 where
  pub position : ℕ
  pub mode : ℕ
  pub dentry : ℕ
  pub on_keyboard : Bool

-- The attribute and the size of an inode.
pub record Inode : Type 0 where
  pub attribute : ℕ
  pub file_size : ℕ

-- What the operations of files work on.
abbrev pub World : Type 0 → Type 0
World S = (ℕ → Inode) × S

-- An operation of a file: its result, and the file and the world behind it.
abbrev pub Op : Type 0 → Type 0
Op S = Filp → World S → ℕ × Filp × World S

-- `handle_array` of the process, and the world.
pub record Files (S : Type 0) : Type 0 where
  pub handle_array : ℕ → Option Filp
  pub world : World S

abbrev pub put_file : (ℕ → Option Filp) → ℕ → Option Filp → ℕ → Option Filp
put_file t fd f i = if i == fd then f else t i

-- The search for an entry that is NULL.
unfoldable pub first_free : (n i : ℕ) → (ℕ → Option Filp) → Option ℕ
first_free zero i t = none
first_free (suc n) i t =
    let rest = first_free n (i + 1) t in elim (t i) [ none ↦ some i | some f ↦ rest ]

-- O_TRUNC, then O_APPEND.
unfoldable pub truncated : Filp → (ℕ → Inode) → ℕ → Inode
truncated f inodes d =
    if has f.mode o_trunc && d == f.dentry then record (inodes d) { file_size = 0 } else inodes d

unfoldable pub appended : Filp → (ℕ → Inode) → Filp
appended f inodes =
    if has f.mode o_append then record f { position = (inodes f.dentry).file_size } else f

module _ {S : Type 0} where
  unfoldable pub entered : Filp → Option ℕ → Files S → ℕ × Files S
  entered f none s = (neg_errno emfile, s)
  entered f (some fd) s = (fd, record s { handle_array = put_file s.handle_array fd (some f) })

  -- `sys_open` behind the call of `open`, whose result is `errno`.
  unfoldable pub open_done : Files S → ℕ × Filp × World S → ℕ × Files S
  unfolding truncated appended entered first_free
  open_done s (errno, f, (inodes, rest)) =
      if not (errno == 1)
      then (neg_errno efault, record s { world = (inodes, rest) })
      else entered (appended f (truncated f inodes)) (first_free max_handle 0 s.handle_array)
          (record s { world = (truncated f inodes, rest) })

  -- The entry that was found. kmalloc of the `file` is not tested: `none` where it fails.
  unfoldable pub open_entry :
      (open_op : Op S) (has_file : Bool) (flag dentry : ℕ) → Files S → Option (ℕ × Files S)
  unfolding open_done
  open_entry open_op has_file flag dentry s =
      let attribute = (s.world.0 dentry).attribute in
      if not (has flag o_directory) && attribute == fs_attr_dir
      then some (neg_errno eisdir, s)
      else if has flag o_directory && not (attribute == fs_attr_dir)
      then some (neg_errno enotdir, s)
      else if not has_file
      then none
      else some (
          open_done s (
            open_op
              (record {
                position = 0;
                mode = flag;
                dentry = dentry;
                on_keyboard = has attribute fs_attr_device;
              })
              s.world))

  -- `pathlen` is what `strnlen_user` gives, and `dentry` what `path_walk` gives.
  pub sys_open :
      (open_op : Op S) (has_path has_file : Bool) (pathlen : ℕ) (dentry : Option ℕ) (flag : ℕ)
      → Files S
      → Option (ℕ × Files S)
  unfolding open_entry
  sys_open open_op has_path has_file pathlen dentry flag s =
      if not has_path
      then some (neg_errno enomem, s)
      else if pathlen == 0
      then some (neg_errno efault, s)
      else if leb 4096 pathlen
      then some (neg_errno enametoolong, s)
      else elim dentry [
        | none ↦ some (neg_errno enoent, s)
        | some d ↦ open_entry open_op has_file flag d s
      ]

  -- The operation of an open file, whose file is left in the table. A closed descriptor is NULL, which
  -- the code follows: `none`.
  unfoldable pub operated : (fd : ℕ) → Op S → Option Filp → Files S → Option (ℕ × Files S)
  operated fd op none s = none
  operated fd op (some f) s =
      let (r, f', w) = op f s.world in
      some (r, record s { handle_array = put_file s.handle_array fd (some f'); world = w })

  -- `sys_read`, `sys_write` and `sys_ioctl` with the operation of the file that has the same arguments;
  -- `count` is unsigned, so it is never below 0.
  pub sys_file : (op : Op S) (fd : ℕ) → Files S → Option (ℕ × Files S)
  unfolding operated
  sys_file op fd s =
      if leb max_handle fd then some (neg_errno ebadf, s) else operated fd op (s.handle_array fd) s

  pub sys_lseek :
      (lseek : (offset whence : ℕ) → Op S) (fd offset whence : ℕ) → Files S → Option (ℕ × Files S)
  unfolding operated
  sys_lseek lseek fd offset whence s =
      if leb max_handle fd
      then some (neg_errno ebadf, s)
      else if leb seek_max whence
      then some (neg_errno einval, s)
      else operated fd (lseek offset whence) (s.handle_array fd) s

  unfoldable pub closed : (fd : ℕ) → Op S → Option Filp → Files S → Option (ℕ × Files S)
  closed fd close none s = none
  closed fd close (some f) s =
      let (r, f', w) = close f s.world in
      some (r, record s { handle_array = put_file s.handle_array fd none; world = w })

  pub sys_close : (close : Op S) (fd : ℕ) → Files S → Option (ℕ × Files S)
  unfolding closed
  sys_close close fd s =
      if leb max_handle fd then some (neg_errno ebadf, s) else closed fd close (s.handle_array fd) s
