-- ===== src/Mmap/Tests.antt =====
-- Runs of kernel/mmap.c, and the theorems at them. The pages are a log of the addresses unmapped.
use talios.Base.{ℕ, ◌≡◌, ◌+◌, refl, arith, true, some, List, [], ◌∷◌}
use talios.Base.Word.{ok, page_align_up}
use talios.Vma.{Vma, Mm}
use talios.Mmap.{Request, do_mmap, do_munmap, unmap_in, finish, file_backed}
use talios.Mmap.Map.{Mapped, do_mmap-Mapped}
use talios.Mmap.Unmap.{Removed, do_munmap-Removed}

abbrev big : Vma
big = record {
  vm_mm = 7;
  start = 0x2000;
  end = 0x6000;
  prot = 3;
  flags = 0;
  mmap_flags = 0x22;
  file_offset = 0;
  file = 0;
}

abbrev mm : Mm
mm = record { addr = 7; pgd = 0x1000; vma_list = some (big ∷ []); mmap_base = 0x1000 }

-- a private anonymous mapping of one page at a fixed address
abbrev at_6000 : Request
at_6000 = record {
  file = 0;
  addr = 0x6000;
  len = 100;
  prot = 3;
  flags = 0x32;
  vm_flags = 0;
  pgoff = 0;
}

abbrev log : ℕ → List ℕ → List ℕ
log a seen = a ∷ seen

unmap_middle : do_munmap log (true ∷ []) (some mm) 0x3000 0x1800 [] ≡ record {
  result = ok 0;
  mm = some (record mm {
    vma_list =
        some
          (record big { end = 0x3000 } ∷ record big { start = 0x5000; file_offset = 0x3000 } ∷ []);
  });
  pages = 0x4000 ∷ 0x3000 ∷ [];
  flushed = true;
}
unfolding do_munmap unmap_in finish
unmap_middle = refl

do_mmap-Mapped_example : Mapped mm (big ∷ []) (page_align_up 100) (do_mmap true (some mm) at_6000)
do_mmap-Mapped_example = do_mmap-Mapped true mm (big ∷ []) at_6000 refl (omega arith)

do_munmap-Removed_example :
    Removed mm
      (big ∷ [])
      (true ∷ [])
      0x3000
      (0x3000 + page_align_up 0x1800)
      []
      (do_munmap log (true ∷ []) (some mm) 0x3000 0x1800 [])
unfolding file_backed
do_munmap-Removed_example =
    do_munmap-Removed log (true ∷ []) mm (big ∷ []) 0x3000 0x1800 [] (omega arith) refl
      (omega arith) (refl, tt) (omega arith) (omega arith) (omega arith) (omega arith) (omega arith)
