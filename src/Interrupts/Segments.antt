-- ===== src/Interrupts/Segments.antt =====
-- The segments of setup_gdt and setup_tss of limine-c-template-x86-64/kernel/src/gdt.c, and the
-- selectors of syscall and sysret.
use willow_os.Prelude.{ℕ, ◌+◌, ◌*◌, ◌/◌, ◌%◌, ◌^◌, ◌<◌, ◌≡◌, refl, arith}
use willow_os.Boot.{create_descriptor}
use willow_os.Boot.Descriptor.{create_tss_descriptor-fields}
use willow_os.Interrupts.{Tss, setup_gdt, setup_tss, star}

-- The selectors that the processor forms from MSR_STAR: for the kernel in syscall, for a program in
-- sysret with a 64-bit operand.
abbrev pub syscall_cs : ℕ → ℕ
syscall_cs star_value = star_value / 2 ^ 32 % 2 ^ 16

abbrev pub syscall_ss : ℕ → ℕ
syscall_ss star_value = syscall_cs star_value + 8

abbrev pub sysret_cs : ℕ → ℕ
sysret_cs star_value = star_value / 2 ^ 48 % 2 ^ 16 + 16

abbrev pub sysret_ss : ℕ → ℕ
sysret_ss star_value = star_value / 2 ^ 48 % 2 ^ 16 + 8

-- The descriptor that a selector names, and its access byte.
abbrev pub access : (ℕ → ℕ) → (selector : ℕ) → ℕ
access gdt_table selector = gdt_table (selector / 8) / 2 ^ 40 % 2 ^ 8

-- The flag of 64-bit code.
abbrev pub is_long : (ℕ → ℕ) → (selector : ℕ) → ℕ
is_long gdt_table selector = gdt_table (selector / 8) / 2 ^ 53 % 2

-- The tables that setup_gdt and then setup_tss leave, for every table before: syscall enters the
-- kernel's 64-bit code and its data, sysret a program's 64-bit code and its data, and the address and
-- the size of the task state are read back from its descriptor.
pub setup_tss-segments :
    (tss : ℕ) (t : Tss) (gdt_table : ℕ → ℕ)
    → tss < 2 ^ 64
    → (let (t', table) = setup_tss tss t (setup_gdt gdt_table) in
        (access table (syscall_cs star) ≡ 0x9a)
        × (is_long table (syscall_cs star) ≡ 1)
        × (access table (syscall_ss star) ≡ 0x92)
        × (access table (sysret_cs star) ≡ 0xfa)
        × (is_long table (sysret_cs star) ≡ 1)
        × (access table (sysret_ss star) ≡ 0xf2)
        × (table 5 / 2 ^ 16 % 2 ^ 24 + table 5 / 2 ^ 56 * 2 ^ 24 + table 6 * 2 ^ 32 ≡ tss)
        × (table 5 % 2 ^ 16 ≡ 104))
unfolding setup_tss setup_gdt star create_descriptor
setup_tss-segments tss t gdt_table fits =
    let task = create_tss_descriptor-fields tss 104 fits (omega arith) in
    (refl, refl, refl, refl, refl, refl, task.0, task.1)
