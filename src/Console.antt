-- ===== src/Console.antt =====
-- The text console: kernel/drivers/vga/vga.c and the number printing of kernel/lib/printk.
pub mod Vga
pub mod Printk
pub mod Format
mod Tests
