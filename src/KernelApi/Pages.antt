-- ===== src/KernelApi/Pages.antt =====
-- The pages that uacpi_kernel_map of limine-c-template-x86-64/kernel/src/kernel_api.c maps.
