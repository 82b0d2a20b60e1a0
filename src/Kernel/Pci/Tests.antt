-- ===== src/Kernel/Pci/Tests.antt =====
-- A scan of a small bus.
use orionis_os.Base.{ℕ, ◌≡◌, refl, ltb, ◌==◌, ◌&&◌, [], ◌∷◌, if◌then◌else◌}
use orionis_os.Kernel.Pci.{
  pci_get_address, pci_read_dword, vendor_of, is_multi, pci_check_function, check_functions,
  pci_check_device, check_devices, pci_scan_bus,
}
use orionis_os.Kernel.Pci.Scan.{calls, answers, calls-scan}

-- A single-function card at 0:3.0 and nothing else.
abbrev one_card : ℕ → ℕ
one_card a = if a == 0x80001800 then 0x100E8086 else if a == 0x8000180C then 0 else 0xFFFFFFFF

check_devices_run :
    check_devices 4 one_card 0 0
    ≡ record { bus = 0; device = 3; function = 0; vendor_id = 0x8086; device_id = 0x100E } ∷ []
unfolding check_devices pci_check_device pci_check_function check_functions vendor_of is_multi
    pci_read_dword pci_get_address
check_devices_run = refl

calls-scan_example :
    calls 0 3 0 (pci_scan_bus one_card)
    ≡ (if ltb 0 255 && (ltb 3 32 && answers one_card 0 3 0) then 1 else 0)
calls-scan_example = calls-scan one_card 0 3 0
