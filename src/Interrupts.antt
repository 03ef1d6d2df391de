-- ===== src/Interrupts.antt =====
-- The tables of the processor: idt_set_descriptor and idt_init of
-- limine-c-template-x86-64/kernel/src/idt.c, setup_gdt, setup_tss and change_tss of gdt.c, and the
-- selectors that init_syscalls of syscalls.c stores for syscall and sysret.
use willow_os.Prelude.{
  ℕ, zero, suc, ◌+◌, ◌-◌, ◌*◌, ◌/◌, ◌%◌, ◌^◌, bit_or, Bool, true, false, ◌==◌, if◌then◌else◌,
}
use willow_os.Boot.{create_descriptor, create_tss_descriptor}
pub mod Gates
pub mod Segments

pub record IdtEntry : Type 0 where
  pub isr_low : ℕ
  pub kernel_cs : ℕ
  pub ist : ℕ
  pub attributes : ℕ
  pub isr_mid : ℕ
  pub isr_high : ℕ
  pub reserved : ℕ

-- The table, the vectors in use, and the limit of the register that names the table.
pub record Idt : Type 0 where
  pub idt : ℕ → IdtEntry
  pub vectors : ℕ → Bool
  pub limit : ℕ

unfoldable pub idt_set_descriptor : (vector isr flags : ℕ) → Idt → Idt
idt_set_descriptor vector isr flags s = record s {
  idt = λ v.
      if v == vector % 2 ^ 8
      then (record {
        isr_low = isr % 2 ^ 16;
        kernel_cs = 0x08;
        ist = 0;
        attributes = flags;
        isr_mid = isr / 2 ^ 16 % 2 ^ 16;
        isr_high = isr / 2 ^ 32 % 2 ^ 32;
        reserved = 0;
      })
      else s.idt v;
}

unfoldable pub idt_loop : (rounds vector : ℕ) (isr_stub_table : ℕ → ℕ) → Idt → Idt
unfolding idt_set_descriptor
idt_loop zero vector isr_stub_table s = s
idt_loop (suc k) vector isr_stub_table s =
    idt_loop k (vector + 1) isr_stub_table
      (record (idt_set_descriptor vector (isr_stub_table vector) 0x8e s) {
        vectors = λ v. if v == vector then true else s.vectors v;
      })

unfoldable pub idt_init : (isr_stub_table : ℕ → ℕ) → Idt → Idt
unfolding idt_loop
idt_init isr_stub_table s =
    idt_loop 256 0 isr_stub_table (record s { limit = (16 * 256 - 1) % 2 ^ 16 })

abbrev pub put_word : (at word : ℕ) → (ℕ → ℕ) → ℕ → ℕ
put_word at word gdt_table i = if i == at then word else gdt_table i

unfoldable pub setup_gdt : (ℕ → ℕ) → ℕ → ℕ
unfolding create_descriptor
setup_gdt gdt_table = put_word 4 (create_descriptor 0 0xfffff 0xfa 0x0a) (
    put_word 3 (create_descriptor 0 0xfffff 0xf2 0x0c) (
      put_word 2 (create_descriptor 0 0xfffff 0x92 0x0c)
        (put_word 1 (create_descriptor 0 0xfffff 0x9a 0x0a) (put_word 0 0 gdt_table))))

pub record Tss : Type 0 where
  pub reserved : ℕ
  pub rsp : ℕ → ℕ
  pub reserved2 : ℕ
  pub ist : ℕ → ℕ
  pub reserved3 : ℕ
  pub reserved4 : ℕ
  pub iomap_base : ℕ

-- `sizeof(tss)` is that of a pointer, so that memset clears the first 8 bytes.
unfoldable pub clear_tss : Tss → Tss
clear_tss t = record t {
  reserved = 0;
  rsp = λ i. if i == 0 then t.rsp 0 / 2 ^ 32 * 2 ^ 32 else t.rsp i;
}

unfoldable pub setup_tss : (tss : ℕ) → Tss → (ℕ → ℕ) → Tss × (ℕ → ℕ)
unfolding clear_tss create_tss_descriptor
setup_tss tss t gdt_table =
    let c = clear_tss t in
    let (low, high) = create_tss_descriptor tss 104 in
    (
      record c {
        rsp = λ i. if i == 0 then 0x1000000 else c.rsp i;
        ist = λ i. if i == 1 then 0x11000000 else c.ist i;
        iomap_base = 8;
      },
      put_word 6 high (put_word 5 low gdt_table),
    )

unfoldable pub change_tss : (rsp : ℕ) → Tss → Tss
change_tss rsp t = record t { rsp = λ i. if i == 0 then rsp else t.rsp i }

-- What init_syscalls writes to the register MSR_STAR.
unfoldable pub star : ℕ
star = bit_or (0x10 * 2 ^ 48) (0x8 * 2 ^ 32)
