-- ===== src/Limine.antt =====
-- Limine, the boot loader, as far as it is modelled: the memory it hands out and the map of it.
pub mod Memmap
pub mod Bump
pub mod Disk
pub mod Part
pub mod Print
pub mod Time
pub mod Elf
pub mod Blib
pub mod Config
