-- ===== src/Tests/Interrupts.antt =====
-- Tables of interrupts and segments, and the theorems on idt.c and gdt.c at them.
use willow_os.Prelude.{ℕ, ◌+◌, ◌*◌, ◌/◌, ◌%◌, ◌^◌, ◌<◌, ◌≤◌, ◌≡◌, true, false, arith}
use willow_os.Interrupts.{IdtEntry, Idt, idt_init, Tss, setup_gdt, setup_tss, star}
use willow_os.Interrupts.Gates.{Gate, idt_init-Gate}
use willow_os.Interrupts.Segments.{
  access, is_long, syscall_cs, syscall_ss, sysret_cs, sysret_ss, setup_tss-segments,
}

abbrev no_gate : IdtEntry
no_gate = record {
  isr_low = 0;
  kernel_cs = 0;
  ist = 0;
  attributes = 0;
  isr_mid = 0;
  isr_high = 0;
  reserved = 0;
}

abbrev empty : Idt
empty = record { idt = λ v. no_gate; vectors = λ v. false; limit = 0 }

-- Every vector has one stub, at an address of the upper half.
abbrev stubs : ℕ → ℕ
stubs v = 0xffffffff80001234

idt_init-Gate_example :
    (14 < 256
      → Gate (stubs 14) ((idt_init stubs empty).idt 14)
        × ((idt_init stubs empty).vectors 14 ≡ true)
        × (16 * 14 + 15 ≤ (idt_init stubs empty).limit))
    × (256 ≤ 14
        → ((idt_init stubs empty).idt 14 ≡ empty.idt 14)
          × ((idt_init stubs empty).vectors 14 ≡ empty.vectors 14))
idt_init-Gate_example = idt_init-Gate stubs empty 14 (λ w. omega arith)

abbrev task : Tss
task = record {
  reserved = 7;
  rsp = λ i. 1;
  reserved2 = 0;
  ist = λ i. 1;
  reserved3 = 0;
  reserved4 = 0;
  iomap_base = 0;
}

abbrev zeros : ℕ → ℕ
zeros i = 0

setup_tss-segments_example :
    (access (setup_tss 0x123456789abcd task (setup_gdt zeros)).1 (syscall_cs star) ≡ 0x9a)
    × (is_long (setup_tss 0x123456789abcd task (setup_gdt zeros)).1 (syscall_cs star) ≡ 1)
    × (access (setup_tss 0x123456789abcd task (setup_gdt zeros)).1 (syscall_ss star) ≡ 0x92)
    × (access (setup_tss 0x123456789abcd task (setup_gdt zeros)).1 (sysret_cs star) ≡ 0xfa)
    × (is_long (setup_tss 0x123456789abcd task (setup_gdt zeros)).1 (sysret_cs star) ≡ 1)
    × (access (setup_tss 0x123456789abcd task (setup_gdt zeros)).1 (sysret_ss star) ≡ 0xf2)
    × ((setup_tss 0x123456789abcd task (setup_gdt zeros)).1 5 / 2 ^ 16 % 2 ^ 24
          + (setup_tss 0x123456789abcd task (setup_gdt zeros)).1 5 / 2 ^ 56 * 2 ^ 24
          + (setup_tss 0x123456789abcd task (setup_gdt zeros)).1 6 * 2 ^ 32
        ≡ 0x123456789abcd)
    × ((setup_tss 0x123456789abcd task (setup_gdt zeros)).1 5 % 2 ^ 16 ≡ 104)
setup_tss-segments_example = setup_tss-segments 0x123456789abcd task zeros (omega arith)
