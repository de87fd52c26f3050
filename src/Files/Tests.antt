-- ===== src/Files/Tests.antt =====
-- A process with one open file that opens another one to append, and the theorem of kernel/sys.c there.
use talios.Base.{◌≡◌, false, arith, refl, ℕ, none, some, true, ◌==◌, if◌then◌else◌}
use talios.Files.{
  Filp, Op, Files, put_file, sys_open, sys_close, open_entry, open_done, truncated, appended,
  entered, first_free,
}
use talios.Files.Close.{ClosedTo, sys_close-ClosedTo}
use talios.Files.Open.{Opening, sys_open-Opening}

-- An `open` as that of FAT32, which gives 1.
abbrev open_ok : Op ℕ
open_ok f w = (1, f, w)

abbrev a_file : Filp
a_file = record { position = 0; mode = 0; dentry = 5; on_keyboard = true }

abbrev files : Files ℕ
files = record {
  handle_array = λ i. if i == 0 then some a_file else none;
  world = ((λ d. record { attribute = 1; file_size = 30 }), 0);
}

sys_open-Opening_example :
    Opening open_ok true true 4
      (some 7)
      0x400
      files
      (sys_open open_ok true true 4 (some 7) 0x400 files)
sys_open-Opening_example = sys_open-Opening open_ok true true 4 (some 7) 0x400 files

-- The process behind it: the new file stands at descriptor 1, at its end.
abbrev log_file : Filp
log_file = record { position = 0; mode = 0x400; dentry = 7; on_keyboard = false }

abbrev after : Files ℕ
after = record {
  handle_array = put_file files.handle_array 1 (some (record log_file { position = 30 }));
  world = (truncated log_file files.world.0, 0);
}

sys_open-appends : sys_open open_ok true true 4 (some 7) 0x400 files ≡ some (1, after)
unfolding sys_open open_entry open_done truncated appended entered first_free
sys_open-appends = refl

sys_close-ClosedTo_example : ClosedTo files (sys_close open_ok 1 after)
sys_close-ClosedTo_example =
    sys_close-ClosedTo open_ok open_ok true true 4 (some 7) 0x400 files after 1 sys_open-appends
      (omega arith)
