-- ===== src/Limine/Bump/Tests.antt =====
-- Runs of the bump allocator.
use orionis_os.Base.{◌≡◌, ◌<◌, refl, arith}
use orionis_os.Limine.Memmap.{done, panic}
use orionis_os.Limine.Bump.{Bump, conv_mem_alloc, conv_mem_alloc_aligned}
use orionis_os.Limine.Bump.Laws.{Bumped, conv_mem_alloc-Bumped, conv_mem_alloc_wraps}

-- The heap behind the boot loader, with the table at 0x80000 not looked up yet.
abbrev heap : Bump
heap = record { base = 0x12346; limit = 0; mem = λ a. 0xAA }

abbrev aligned_heap : Bump
aligned_heap = record { base = 0x12348; limit = 0x80000; mem = λ a. 0xAA }

run_full : conv_mem_alloc 0x80000 0x70000 heap ≡ panic
unfolding conv_mem_alloc conv_mem_alloc_aligned
run_full = refl

conv_mem_alloc-Bumped_example : Bumped 0x80000 24 heap (conv_mem_alloc 0x80000 24 heap)
conv_mem_alloc-Bumped_example = conv_mem_alloc-Bumped 0x80000 24 heap (omega arith)

conv_mem_alloc_wraps_run :
    (s' : Bump) × (conv_mem_alloc 0x80000 0xFFFF0000 aligned_heap ≡ done (s', 0x12348))
    × (s'.base < 0x12348)
conv_mem_alloc_wraps_run =
    conv_mem_alloc_wraps 0x80000 0xFFFF0000 aligned_heap refl (omega arith) (omega arith)
      (omega arith) (omega arith)
