-- ===== src/Process/Kernel.antt =====
-- The kernel's half of the address space that create_new_userspace_page_table of
-- limine-c-template-x86-64/kernel/src/scheduler.c makes.
use willow_os.Prelude.{ℕ, ◌+◌, ◌%◌, ◌^◌, ◌≤◌, ◌<◌, ◌≡◌, ap, refl, arith}
use willow_os.Frame.{Machine, alloc_frame}
use willow_os.Paging.{
  slot, pml4_index, pdpt_index, pd_index, pt_index, page_of, table_of, virt_to_phys,
}
use willow_os.Process.{create_new_userspace_page_table}
use willow_os.Process.Tables.{Separate, Extends, off_page, create_new_userspace_page_table-Extends}

-- The tables that the walk of `virt_address` reads below `pml4`.
abbrev pub pdpt_below : (pml4 virt_address : ℕ) → Machine → ℕ
pdpt_below pml4 virt_address m =
    table_of (m.words (slot pml4 (pml4_index virt_address))) m.hhdm_offset

abbrev pub pd_below : (pml4 virt_address : ℕ) → Machine → ℕ
pd_below pml4 virt_address m =
    table_of (m.words (slot (pdpt_below pml4 virt_address m) (pdpt_index virt_address)))
      m.hhdm_offset

abbrev pub pt_below : (pml4 virt_address : ℕ) → Machine → ℕ
pt_below pml4 virt_address m =
    table_of (m.words (slot (pd_below pml4 virt_address m) (pd_index virt_address))) m.hhdm_offset

-- A table below is the same when its entry above is.
table_same :
    (pdpt pdpt' i : ℕ) (m m' : Machine)
    → m'.words (slot pdpt' i) ≡ m.words (slot pdpt i)
    → m'.hhdm_offset ≡ m.hhdm_offset
    → table_of (m'.words (slot pdpt' i)) m'.hhdm_offset
      ≡ table_of (m.words (slot pdpt i)) m.hhdm_offset
table_same pdpt pdpt' i m m' e h = rw (e, h) refl

module _ (pml4 cr3 virt_address : ℕ) (m m' : Machine) (extends : Extends pml4 m (cr3, m'))
    (kernel : 256 ≤ pml4_index virt_address)
    (pdpt_apart : Separate (pdpt_below pml4 virt_address m) cr3)
    (pd_apart : Separate (pd_below pml4 virt_address m) cr3)
    (pt_apart : Separate (pt_below pml4 virt_address m) cr3) where
  same_word :
      (table table' i : ℕ)
      → table' ≡ table
      → Separate table cr3
      → i < 512
      → m'.words (slot table' i) ≡ m.words (slot table i)
  same_word table table' i e apart small =
      rw e (extends.2 (slot table i) (off_page table cr3 i apart small))

  same_pdpt : pdpt_below cr3 virt_address m' ≡ pdpt_below pml4 virt_address m
  same_pdpt =
      table_same pml4 cr3 (pml4_index virt_address) m m'
        (extends.1 (pml4_index virt_address) kernel (omega arith)) extends.3

  same_pd : pd_below cr3 virt_address m' ≡ pd_below pml4 virt_address m
  same_pd =
      table_same (pdpt_below pml4 virt_address m) (pdpt_below cr3 virt_address m')
        (pdpt_index virt_address) m m'
        (same_word (pdpt_below pml4 virt_address m) (pdpt_below cr3 virt_address m')
          (pdpt_index virt_address) same_pdpt pdpt_apart (omega arith))
        extends.3

  same_pt : pt_below cr3 virt_address m' ≡ pt_below pml4 virt_address m
  same_pt =
      table_same (pd_below pml4 virt_address m) (pd_below cr3 virt_address m')
        (pd_index virt_address) m m'
        (same_word (pd_below pml4 virt_address m) (pd_below cr3 virt_address m')
          (pd_index virt_address) same_pd pd_apart (omega arith))
        extends.3

  same_address : virt_to_phys virt_address cr3 m' ≡ virt_to_phys virt_address pml4 m
  unfolding virt_to_phys
  same_address =
      ap (λ entry. page_of entry + virt_address % 4096)
        (same_word (pt_below pml4 virt_address m) (pt_below cr3 virt_address m')
          (pt_index virt_address) same_pt pt_apart (omega arith))

-- Where the frame of a new table lies in the window apart from the kernel's table and from the three
-- tables below it that lead to an address of the upper half, the address is translated in the new
-- address space as it was in the kernel's.
pub virt_to_phys-create_new_userspace_page_table :
    (pml4 virt_address : ℕ) (m : Machine)
    → (alloc_frame m).0 + m.hhdm_offset < 2 ^ 64
    → Separate pml4 (create_new_userspace_page_table pml4 m).0
    → 256 ≤ pml4_index virt_address
    → Separate (pdpt_below pml4 virt_address m) (create_new_userspace_page_table pml4 m).0
    → Separate (pd_below pml4 virt_address m) (create_new_userspace_page_table pml4 m).0
    → Separate (pt_below pml4 virt_address m) (create_new_userspace_page_table pml4 m).0
    → (let (cr3, m') = create_new_userspace_page_table pml4 m in
        virt_to_phys virt_address cr3 m' ≡ virt_to_phys virt_address pml4 m)
virt_to_phys-create_new_userspace_page_table pml4 virt_address m fits apart kernel a b c =
    same_address pml4 (create_new_userspace_page_table pml4 m).0 virt_address m
      (create_new_userspace_page_table pml4 m).1
      (create_new_userspace_page_table-Extends pml4 m fits apart) kernel a b c
