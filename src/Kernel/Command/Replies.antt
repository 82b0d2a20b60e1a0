-- ===== src/Kernel/Command/Replies.antt =====
-- The functions `cmd_...` of command/command.cpp.
use orionis_os.Base.{
  ℕ, zero, suc, ◌+◌, ◌*◌, ◌/◌, ◌%◌, ◌^◌, Bool, List, [], ◌∷◌, ◌++◌, ltb, ◌==◌, ◌&&◌, u64, get_or,
  if◌then◌else◌,
}
use orionis_os.Base.Text.{codes}
use orionis_os.Kernel.Buddy.{
  Buddy, buddy_get_free_pages, buddy_get_total_pages, buddy_get_used_pages,
}
use orionis_os.Kernel.Clock.{Time, rtc_get_time, beijing_time}
use orionis_os.Kernel.Command.{
  Output, tty_print, print_hex, print_dec, tty_clear, outw, outb, breakpoint, wait, hlt, send, Cpu,
}
use orionis_os.Kernel.Pci.{Found, pci_scan_bus}
use orionis_os.Kernel.PciIds.{pci_lookup_vendor, pci_lookup_device}

abbrev white : ℕ
white = 0xFFFFFF

abbrev cyan : ℕ
cyan = 0x00FFFF

abbrev green : ℕ
green = 0x00FF00

pub cmd_help : List Output
cmd_help =
    tty_print (codes "Available commands:\n") white
    ∷ tty_print (codes "  help - Display this message\n") white
    ∷ tty_print (codes "  clear - Clear the screen\n") white
    ∷ tty_print (codes "  debug - Enable debug mode\n") white
    ∷ tty_print (codes "  undebug - Disable debug mode\n") white
    ∷ tty_print (codes "  echo <text> - Echo the input text\n") white
    ∷ tty_print (codes "  shutdown - Power off the system\n") white
    ∷ tty_print (codes "  reboot - Reboot the system\n") white
    ∷ tty_print (codes "  meminfo - Show memory info\n") white
    ∷ tty_print (codes "  cpuinfo - Show CPU info\n") white
    ∷ tty_print (codes "  time - Show now time\n") white
    ∷ tty_print (codes "  panic - Let's make kernel panic\n") white
    ∷ tty_print (codes "  version - Show kernel and command version\n") white
    ∷ tty_print (codes "  nettest - Check Network Status\n") white
    ∷ tty_print (codes "  lspci - List PCI devices\n") white
    ∷ []

pub cmd_clear : List Output
cmd_clear = tty_clear ∷ []

-- The index of the first character from `i` on that is no space, and the string from there on, over
-- `n` bytes of the buffer.
unfoldable pub skip_spaces : ℕ → (ℕ → ℕ) → ℕ → ℕ
skip_spaces zero buffer i = i
skip_spaces (suc n) buffer i =
    let rest = skip_spaces n buffer (i + 1) in if buffer i == b' ' then rest else i

unfoldable pub read_text : ℕ → (ℕ → ℕ) → ℕ → List ℕ
read_text zero buffer i = []
read_text (suc n) buffer i =
    let rest = read_text n buffer (i + 1) in if buffer i == 0 then [] else buffer i ∷ rest

-- An empty message and any other one both end in a line break.
unfoldable pub cmd_echo : (ℕ → ℕ) → List Output
cmd_echo command =
    let msg = skip_spaces 256 command 5 in
    if command msg == 0
    then tty_print (codes "\n") white ∷ []
    else tty_print (read_text 256 command msg) white ∷ tty_print (codes "\n") white ∷ []

pub cmd_shutdown : List Output
cmd_shutdown = outw 0x604 0x2000 ∷ []

abbrev memory_line : List ℕ → ℕ → List Output
memory_line label pages =
    let kb = u64 (pages * 4) in
    tty_print label white
    ∷ print_dec (kb / 1024) white
    ∷ tty_print (codes " MiB (") white
    ∷ print_dec kb 0xAAAAAA
    ∷ tty_print (codes " KiB)\n") white
    ∷ []

pub cmd_meminfo : Buddy → List Output
cmd_meminfo memory =
    tty_print (codes "\n--- Physical Memory Status (Buddy Allocator) ---\n") cyan
    ∷ (memory_line (codes "Total Memory: ") (buddy_get_total_pages memory)
        ++ (memory_line (codes "Used Memory:  ") (buddy_get_used_pages memory)
            ++ memory_line (codes "Free Memory:  ") (buddy_get_free_pages memory)))

abbrev feature : ℕ → ℕ → List ℕ → List Output
feature word bit name = if word / 2 ^ bit % 2 == 1 then tty_print name green ∷ [] else []

abbrev cache_line : List ℕ → ℕ → List ℕ → List Output
cache_line label kb end = tty_print label white ∷ print_dec kb cyan ∷ tty_print end white ∷ []

pub cmd_cpuinfo : Cpu → List Output
cmd_cpuinfo cpu =
    tty_print (codes "\nCPU Vendor: ") white
    ∷ tty_print cpu.vendor cyan
    ∷ tty_print (codes "\nCPU Brand: ") white
    ∷ tty_print cpu.brand cyan
    ∷ tty_print (codes "\nFeatures: ") white
    ∷ (feature cpu.edx 23 (codes " MMX")
        ++ (feature cpu.edx 25 (codes " SSE")
            ++ (feature cpu.edx 26 (codes " SSE2")
                ++ (feature cpu.ecx 0 (codes " SSE3")
                    ++ (feature cpu.ecx 19 (codes " SSE4.1")
                        ++ (feature cpu.ecx 20 (codes " SSE4.2")
                            ++ (feature cpu.ecx 28 (codes " AVX")
                                ++ tty_print (codes "\n") cyan
                                  ∷ (cache_line (codes "L1 Cache: ") cpu.l1 (codes " KB  ")
                                      ++ (cache_line (codes "L2 Cache: ") cpu.l2 (codes " KB  ")
                                          ++ cache_line (codes "L3 Cache: ") cpu.l3
                                              (codes " KB\n"))))))))))

-- A number of two digits, and what stands behind it.
abbrev two_digits : ℕ → List ℕ → List Output
two_digits n end =
    (if ltb n 10 then tty_print (codes "0") white ∷ [] else [])
    ++ print_dec n white ∷ tty_print end white ∷ []

pub print_time : Time → List Output
print_time t =
    tty_print (codes "\n") white
    ∷ print_dec t.year white
    ∷ tty_print (codes "-") white
    ∷ (two_digits t.month (codes "-")
        ++ (two_digits t.day (codes " ")
            ++ (two_digits t.hour (codes ":")
                ++ (two_digits t.minute (codes ":") ++ two_digits t.second (codes "\n")))))

pub cmd_time : (ℕ → ℕ) → List Output
cmd_time cmos = print_time (beijing_time (rtc_get_time cmos))

pub cmd_panic : List Output
cmd_panic = tty_print (codes "\nTriggering kernel panic...") 0xFF6060 ∷ breakpoint ∷ []

pub cmd_memtest : List Output
cmd_memtest =
    tty_print (codes "\n[MemTest] Memory test is currently disabled.\n") 0xFFFF00
    ∷ tty_print (codes "The system is now using Buddy allocator instead of PMM bitmap.\n") 0xFFFF00
    ∷ tty_print (codes "MemTest needs to be updated to work with the new allocator.\n") 0xFFFF00
    ∷ tty_print (codes "Use 'meminfo' to view current memory status.\n") cyan
    ∷ []

-- A request for the address of 10.0.2.2, padded to 60 bytes.
abbrev repeated : ℕ → ℕ → List ℕ
repeated zero byte = []
repeated (suc n) byte = byte ∷ repeated n byte

pub arp_packet : List ℕ → List ℕ
arp_packet mac =
    repeated 6 0xFF
    ++ (mac
        ++ (0x08 ∷ 0x06 ∷ 0x00 ∷ 0x01 ∷ 0x08 ∷ 0x00 ∷ 0x06 ∷ 0x04 ∷ 0x00 ∷ 0x01 ∷ []
            ++ (mac
                ++ (10 ∷ 0 ∷ 2 ∷ 15 ∷ []
                    ++ (repeated 6 0 ++ (10 ∷ 0 ∷ 2 ∷ 2 ∷ [] ++ repeated 18 0))))))

abbrev mac_byte : List ℕ → ℕ → ℕ
mac_byte mac i = get_or mac i 0

-- The bytes of the address from `i` on, `n` of them.
pub print_mac : ℕ → ℕ → List ℕ → List Output
print_mac zero i mac = []
print_mac (suc n) i mac =
    print_hex (mac_byte mac i) green
    ∷ ((if ltb i 5 then tty_print (codes ":") green ∷ [] else []) ++ print_mac n (i + 1) mac)

pub cmd_nettest_virtio : List ℕ → (List ℕ → Bool) → List Output
cmd_nettest_virtio mac can_send =
    tty_print (codes "\n--- VirtIO Network Test ---\n") cyan
    ∷ (if mac_byte mac 0 == 0 && (mac_byte mac 1 == 0 && mac_byte mac 2 == 0)
        then tty_print (codes "VirtIO MAC address is not set. Aborting test.\n") 0xFF0000 ∷ []
        else tty_print (codes "VirtIO MAC: ") white
          ∷ (print_mac 6 0 mac
              ++ tty_print (codes "\n") green
                ∷ send (arp_packet mac)
                ∷ (if can_send (arp_packet mac)
                    then tty_print (codes "ARP Request sent to 10.0.2.2 via VirtIO.\n") green ∷ []
                    else tty_print (codes "Failed to send ARP Request via VirtIO.\n") 0xFF0000
                      ∷ [])))

pub cmd_version : List Output
cmd_version =
    tty_print (codes "Kernel version: ") 0x00FFAA
    ∷ tty_print (codes "1.4.0-dirty+") 0x00FFAA
    ∷ tty_print (codes "\nCommand version: ") 0x00FFAA
    ∷ tty_print (codes "1.12.0-dirty+") 0x00FFAA
    ∷ tty_print (codes "\n") 0x00FFAA
    ∷ []

-- What the callback of `cmd_lspci` prints of a device.
pub print_pci_info : Found → List Output
print_pci_info x =
    tty_print (codes "  Vendor: ") 0xAAAAFF
    ∷ tty_print (codes (pci_lookup_vendor x.vendor_id)) 0xAAAAFF
    ∷ tty_print (codes "  Device: ") 0xAAFFAA
    ∷ tty_print (codes (pci_lookup_device x.vendor_id x.device_id)) 0xAAFFAA
    ∷ tty_print (codes "\n") 0xAAAAAA
    ∷ []

pub print_devices : List Found → List Output
print_devices [] = []
print_devices (x ∷ xs) = print_pci_info x ++ print_devices xs

-- Without what the scan itself prints.
pub cmd_lspci : (ℕ → ℕ) → List Output
cmd_lspci config = print_devices (pci_scan_bus config)

pub cmd_reboot : List Output
cmd_reboot =
    tty_print (codes "\nRebooting system...\n") 0xFF6060
    ∷ wait
    ∷ outb 0x64 0xFE
    ∷ tty_print (codes "Reboot failed. Halting.\n") 0xFF0000
    ∷ hlt
    ∷ []
