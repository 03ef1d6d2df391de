-- ===== src/Tests/Process.antt =====
-- A new address space and the thread of a program, and the theorems on scheduler.c at them.
use willow_os.Prelude.{◌+◌, ◌*◌, ◌^◌, ◌≡◌, ◌<◌, refl, inl, ◌==◌, if◌then◌else◌, arith}
use willow_os.Frame.{Machine, alloc_frame, alloc_regions, scan_region}
use willow_os.Paging.{virt_to_phys}
use willow_os.Process.{System, ThreadBlocks, create_new_userspace_page_table}
use willow_os.Process.Kernel.{virt_to_phys-create_new_userspace_page_table}
use willow_os.Tests.Paging.{machine, space, root}
use willow_os.Tests.Sched.{ring}
use willow_os.Tests.Loader.{memory}

-- The kernel maps 0xffff800000001234 by the tables behind the root.
abbrev kernel : Machine
kernel = record machine {
  words = λ a.
      if a == root + 8 * 256
      then 0x6007
      else if a == 0xffff800000006000
      then 0x7007
      else if a == 0xffff800000007000
      then 0x8007
      else if a == 0xffff800000008008
      then 0x9007
      else 0;
}

new_table : (create_new_userspace_page_table root kernel).0 ≡ 0xffff800000010000
unfolding create_new_userspace_page_table alloc_frame alloc_regions scan_region
new_table = refl

frame_fits : (alloc_frame kernel).0 + kernel.hhdm_offset < 2 ^ 64
unfolding alloc_frame alloc_regions scan_region
frame_fits = omega arith

virt_to_phys-create_new_userspace_page_table_example :
    virt_to_phys 0xffff800000001234
      (create_new_userspace_page_table root kernel).0
      (create_new_userspace_page_table root kernel).1
    ≡ virt_to_phys 0xffff800000001234 root kernel
virt_to_phys-create_new_userspace_page_table_example =
    virt_to_phys-create_new_userspace_page_table root 0xffff800000001234 kernel frame_fits
      (rw new_table (inl (omega arith))) (omega arith) (rw new_table (inl (omega arith)))
      (rw new_table (inl (omega arith))) (rw new_table (inl (omega arith)))

abbrev system : System
system = record { scheduler = ring 0 0; space = space; memory = memory }

abbrev blocks : ThreadBlocks
blocks = record { thread = 400; stack = 0x10000; fd_table = 0x20000 }
