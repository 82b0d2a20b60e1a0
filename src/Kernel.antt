-- ===== src/Kernel.antt =====
-- The kernel proper.
pub mod Pmm
pub mod Buddy
pub mod Shell
pub mod Keyboard
pub mod Libc
pub mod Strutils
pub mod Clock
pub mod Pci
pub mod Tty
pub mod PciIds
pub mod Command
pub mod Pic
pub mod Interrupts
