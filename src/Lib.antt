-- ===== src/Lib.antt =====
-- OrionisOS: an x86_64 kernel (kernel/, command/, lib/) and the boot loader Limine (limine/) that
-- loads it.
--
-- The boot loader reads the memory map of the BIOS, cleans it up, takes its own memory from it and
-- hands it to the kernel. The kernel's page allocator and its buddy allocator are both filled from
-- that map. The keyboard driver turns scan codes into characters, of which the shell makes
-- command lines. This development models these parts as written, with state passed explicitly.
--
-- Base: numbers, words (`u32`, `u64` are remainders), Boolean tests and lists.
--
-- Kernel, for kernel/mem/pmm.cpp:
-- * Pmm has the page bitmap. The record `Pmm` holds the globals `pmm_bitmap`, `total_pages` and
--   `last_checked_page`; `pmm_alloc_page`, `pmm_free_page`, `pmm_get_used_pages` and `init_pmm`
--   are named as in the source. The bitmap is a function from the byte's index.
--   Pmm/Bitmap has the bits, Pmm/Alloc, Pmm/Count and Pmm/Passes the operations, Pmm/Init the start.
-- * Buddy has the buddy allocator. The record `Buddy` holds the heads `free_list`, the `next` words
--   that lie in the free blocks, and the three counters; `get_order`, `buddy_alloc`, `buddy_free` and
--   `buddy_init` are named as in the source. A linked list of the store is related to the list of its
--   addresses in Buddy/Lists; Buddy/Order has the orders, Buddy/Bits the address of the buddy,
--   Buddy/Alloc, Buddy/Search, Buddy/Free and Buddy/RoundTrip the operations, Buddy/Region and
--   Buddy/Init the start.
--
-- Kernel, for the input line:
-- * Keyboard has kernel/drivers/keyboard.cpp. `keyboard_handle_scancode` returns the flags and the
--   character that it hands to the shell; `Console` puts the driver and the shell together.
--   Keyboard/State is about the flags, Keyboard/Typing about scan codes and commands,
--   Keyboard/Strokes about the keys on which a text is typed.
-- * Shell has command/shell.cpp. The record `Shell` holds `cmd_buffer` and `cmd_buffer_index`; what goes
--   to the terminal and to `execute_command` is a list of actions. Shell/Editor compares it with a line
--   editor on lists, Shell/Bounds is about the end of the buffer.
--
-- Kernel, for the devices and the library:
-- * Libc has lib/libc.cpp and Strutils lib/strutils.cpp, over a memory of bytes. A string in memory is
--   related to a list of characters in Libc/Strings; Libc/Memory and Libc/Compare follow the functions.
-- * Tty has kernel/drivers/tty.cpp: the cursor, the bytes of the frame buffer and the text of numbers.
--   It scrolls by `memmove` of Libc. Tty/Frame is about the bytes it writes, Tty/Cursor about the place
--   of a character, Tty/Numbers about `print_dec` and `print_hex`.
-- * Clock has kernel/drivers/rtc.cpp and the change of the time zone in `cmd_time` of
--   command/command.cpp; Clock/Bcd and Clock/Shift follow them.
-- * Pci has the scan of kernel/cpu/pci.cpp; Pci/Scan counts the calls of its callback.
-- * Pic has kernel/cpu/pic.cpp, kernel/cpu/pit.cpp and kernel/cpu/timer.cpp; Pic/Masks is about the
--   interrupt masks, Pic/Sleep about the timer.
-- * Interrupts has the table of kernel/cpu/idt.cpp and the dispatch of kernel/cpu/isr.cpp, which hands
--   scan codes to Keyboard and acknowledges through Pic.
-- * Command has command/command.cpp. What a command prints and does is a list of outputs; Command/Replies
--   has the functions `cmd_...`, Command/Dispatch `execute_command`, Command/Debug follows single commands
--   and Command/Render shows the list on the terminal of Tty. PciIds has kernel/cpu/pci_ids.cpp.
-- Base/Digits has the loop with which the number printers write digits, Base/Text the bytes of a text,
-- Base/Printed the text that those digits make.
--
-- Limine, for limine/stage2/mm/pmm.c, the entry of limine/stage2/sys/e820.h, the disk and the library:
-- * Memmap has the memory map: the used part of the array `memmap` is a list of entries, `panic`
--   is an outcome, and so is a run over the end of the array. `align_entry`, `sanitise_entries`, `init_memmap`, `memmap_alloc_range` and the functions
--   `ext_mem_alloc...` are named as in the source. Memmap/Align, Memmap/Trim, Memmap/Sort and
--   Memmap/Range follow them; Memmap/Sorted is about the order of the map, Memmap/Refusal about panics.
-- * Bump has the allocator of memory below 1 MiB, `conv_mem_alloc` and its relatives.
-- * Disk has limine/stage2/drivers/disk.c: the cache of one block and the reads, which Disk/Reading
--   follows; Disk/Stale is about a second drive.
-- * Part has limine/stage2/lib/part.c, over the bytes that Disk reads: the lookup in a table of GUIDs
--   (Part/Gpt) and in a master boot record (Part/Mbr). Part/Index has `part_create_index`, which takes
--   its arrays from Bump, and Part/Index/Filling follows it.
-- * Print has limine/stage2/lib/print.c: the format with a list of arguments, in a buffer of 512 bytes.
--   Print/Expansion says what text a format stands for, Print/Layout and Print/Conversions follow the code.
-- * Time has limine/stage2/lib/time.c, which Time/Epoch compares with the Gregorian calendar.
-- * Elf has limine/stage2/lib/elf.c: sections and relocations, and in Elf/Load the loaders, which take
--   their memory from Memmap. Elf/Segments and Elf/Loaded follow a file into memory, Elf/Relocations is
--   about one relocation and about the 32-bit loader.
-- * Blib has limine/stage2/lib/blib.c; Blib/Root is about the square root, Blib/Numbers about numbers.
--   Blib/Guid reads GUIDs. Blib/Input has `gets`, on a buffer in memory, which Input/Editing, Input/Editor
--   and Input/Runs compare with an editor of the two parts of the line.
-- * Config has limine/stage2/lib/config.c and `uri_open` of blib.c; Config/Values follows the lookup of
--   keys, Config/Resolve the URIs.
--
-- Bounds and fuel. The C types keep their width: addresses and sizes of the kernel wrap at 2 ^ 64,
-- `size_t` of the boot loader at 2 ^ 32. A loop with a counter recurses on the rounds left. The walk
-- along a free list in `buddy_free` takes fuel, since the list in memory could be circular; the
-- theorems on `buddy_free` give the fuel that is enough for a valid state, and the result. `get_order`
-- has 53 rounds, after which the block size has wrapped round to 0, where it stays.
-- Loops over strings take fuel and say so in their result; the digit loop has 64 rounds, enough for 64
-- bits in every base from 2 on; `timer_sleep_ms` takes fuel, too. The reads of a
-- disk take a unit of fuel for each block, and no more than the number of bytes is needed. Texts in the
-- buffer of the shell are read over 256 bytes, its size. The loops over the partitions of a drive take a
-- unit for each entry and one for the end. The loops of `sqrt` have 32 rounds: `one` starts at 4 ^ 31.
--
-- Parameters: the bytes of CMOS registers, the words of the PCI configuration space, what `inb` reads,
-- the addresses of the interrupt stubs, the table of the glyphs, the words that CPUID gives, what the
-- network card answers, what interrupt 0x13 of the BIOS reads and what its clock shows, the bytes of a
-- file as `fread` gives them, whether `fopen` opens a path, and the bytes behind the table of `itob`.
--
-- Not modelled: messages that functions print on the way; assembly and device registers; the kernel's
-- network and disk drivers; the file systems, boot protocols and terminal
-- of the boot loader; the copy of the tinf library in limine/decompressor/gzip. The first two act on
-- hardware only, the others do not touch the state modelled here other than by calling its operations.
pub mod Base
pub mod Kernel
pub mod Limine
