-- ===== src/Lib.antt =====
-- Talios, a small x86-64 operating system, and its user programs.
--
-- The parts that are modelled, with the file of each part here and its code in the repository:
--   * Vma: the virtual memory areas of a process, kernel/vma.c. A list of areas stands for the linked
--     list, `none` for a list head that was never set up. `Vma`, `Mm` are `vm_area_struct` and
--     `LocalMemManager`; the operations have the names of the code.
--   * Mmap: `__get_unmapped_area`, `do_mmap` and `do_munmap` of kernel/mmap.c over Vma. `Request` holds
--     the arguments of `do_mmap`.
--   * Buddy: the buddy allocator of kernel/memory.c on one zone, and the choice of the zone. A page is
--     its frame number, `Zone` is `struct Zone` with the fields of its pages.
--   * Pages: the page tables of a process, `walk_pte`, `MapPage4K` and `UnmapPage4K` of
--     kernel/memory.c. A table is a function of its index, and an entry holds the table it names.
--   * Frames: what the users of 4 KiB pages ask of an allocator, as an interface with its laws; the
--     buddy allocator fills it in Frames/Zoned.
--   * Fault: `handle_page_fault`, `MapUserRange4K` and `do_brk` of kernel/memory.c and `sys_brk` of
--     kernel/sys.c, over Vma, Pages and an allocator that is a parameter.
--   * Fork: `copy_user_range`, `copy_files`, `exit_files` and the error paths of `do_fork` of
--     kernel/task.c, over Pages and an allocator that is a parameter. Whether `copy_mm` fails is given.
--   * Slab: `kmalloc`, `AllocSlab` and `kfree` of kernel/memory.c. `SlabCache` and `Slab` are the
--     structures, `Heap` is `KmallocSlabSet` with what `AllocPage` answers.
--   * Fat: the allocation table, `fat32_read`, `fat32_write`, `fat32_write_inode` and `fat32_lseek` of
--     kernel/fat32.c. The disk is a parameter with laws: what `ide_transfer` reads and writes. Of a
--     write of several sectors the laws say only where it is, since just the first sector is sent.
--   * Disk: the requests of kernel/disk.c, `make_request`, `submit`, `cmd_out`, `end_request` and the
--     interrupt handlers, over Sched. `Disk` is `disk_request_queue` with what the ports got.
--   * Files: the table of open files, `sys_open`, `sys_close`, `sys_lseek` and, as `sys_file`,
--     `sys_read`, `sys_write` and `sys_ioctl` of kernel/sys.c.
--   * Sched: `schedule`, the run queue, `wakeup_process` and the timer tick of kernel/schedule.c,
--     kernel/task.c and kernel/hpet.c on one processor. `Cpu` is `struct scheduler` with the fields of
--     the tasks as functions of the task.
--   * Semaphore: kernel/waitqueue.c and kernel/semaphore.c over Sched.
--   * Timer: the timer list of kernel/timer.c, whose callbacks are a parameter.
--   * Softirq: the soft interrupts of kernel/softirq.c, whose actions are a parameter.
--   * Driver: the ring buffer of kernel/keyboard.c, whose interrupt handler wakes readers by Semaphore.
--     What a read copies to the user goes to a memory as in Strings.
--   * Keyboard: the decoder of scan codes of user/keyboard.c, over the codes that `read` gives.
--   * Console: the cursor and the pixels of kernel/printk.c, over the formatted text.
--   * Strings: memory, strings and `NumToString`, kernel/lib.c. Memory is a function from addresses to
--     bytes.
--   * Base: numbers, Boolean tests, lists, machine words and error numbers that the others share.
--
-- A step of the code that calls kmalloc takes a list of answers, except in Slab, which has kmalloc
-- itself; in Fat kmalloc is taken to succeed. The page tables are a parameter of `do_munmap`;
-- Fault/Unmap fills it with those of Pages. A walk of the page tables takes the physical addresses
-- that kmalloc gives; what kmalloc gives and the frames of a process are taken to be disjoint
-- memory. Loops over strings run on fuel: one step more than the length is enough. `do_time` runs on
-- fuel: one step more than the number of expired timers is enough. `fat32_read` runs on fuel for its
-- turns: one more than the bytes to read is enough, as it is for `fat32_write`. 68 steps are enough
-- for `NumToString` of 64 bits; `kmalloc` and `kfree` call themselves once, for a small size, so two
-- are enough. A loop of the run queue that cannot end gives `none`. The loops of Buddy go over the
-- eleven orders and need no fuel.
--
-- Not modelled: port I/O, descriptor tables, assembly and start-up, whose meaning is the hardware's;
-- the set-up of zones and slabs, the directories of FAT32, path walks, the system calls but `sys_brk`
-- and those on open files, the formatting of printk, exec, and the shell.
pub mod Base
pub mod Vma
pub mod Mmap
pub mod Sched
pub mod Semaphore
pub mod Keyboard
pub mod Slab
pub mod Strings
pub mod Buddy
pub mod Pages
pub mod Frames
pub mod Fault
pub mod Fork
pub mod Fat
pub mod Disk
pub mod Files
pub mod Console
pub mod Timer
pub mod Softirq
pub mod Driver
