-- ===== src/Tests/KernelApi.antt =====
-- A table across the end of a page, and the theorem on uacpi_kernel_map at it.
