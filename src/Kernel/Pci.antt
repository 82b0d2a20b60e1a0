-- ===== src/Kernel/Pci.antt =====
-- The bus scan of kernel/cpu/pci.cpp. `config` gives the word that the data port shows once an address
-- has been written to the address port; what the scan prints is left out, and the calls of its
-- callback are a list.
mod Scan
mod Tests
use orionis_os.Base.{
  ℕ, zero, suc, ◌+◌, ◌*◌, ◌/◌, ◌%◌, ◌^◌, Bool, List, [], ◌∷◌, ◌++◌, leb, ◌==◌, store, if◌then◌else◌,
}

-- The fields of the address do not overlap, so `|` is a sum: a device number has 5 bits, a function
-- number 3.
pub pci_get_address : ℕ → ℕ → ℕ → ℕ → ℕ
pci_get_address bus device function offset =
    bus * 2 ^ 16 + device * 2 ^ 11 + function * 2 ^ 8 + offset / 4 * 4 + 2 ^ 31

pub pci_read_dword : (ℕ → ℕ) → ℕ → ℕ → ℕ → ℕ → ℕ
pci_read_dword config bus device function offset =
    config (pci_get_address bus device function offset)

-- The arguments of the callback.
pub record Found : Type 0 where
  pub bus : ℕ
  pub device : ℕ
  pub function : ℕ
  pub vendor_id : ℕ
  pub device_id : ℕ

pub vendor_of : (ℕ → ℕ) → ℕ → ℕ → ℕ → ℕ
vendor_of config bus device function = pci_read_dword config bus device function 0 % 2 ^ 16

abbrev pub found : (ℕ → ℕ) → ℕ → ℕ → ℕ → Found
found config bus device function = record {
  bus = bus;
  device = device;
  function = function;
  vendor_id = vendor_of config bus device function;
  device_id = pci_read_dword config bus device function 0 / 2 ^ 16 % 2 ^ 16;
}

pub pci_check_function : (ℕ → ℕ) → ℕ → ℕ → ℕ → List Found
pci_check_function config bus device function =
    if vendor_of config bus device function == 0xFFFF
    then []
    else found config bus device function ∷ []

-- Bit 7 of the header type.
pub is_multi : (ℕ → ℕ) → ℕ → ℕ → Bool
is_multi config bus device = leb 0x80 (pci_read_dword config bus device 0 0x0C / 2 ^ 16 % 2 ^ 8)

-- The loop over the functions from `function` on, `n` of them.
pub check_functions : ℕ → (ℕ → ℕ) → ℕ → ℕ → ℕ → List Found
check_functions zero config bus device function = []
check_functions (suc n) config bus device function =
    pci_check_function config bus device function
    ++ check_functions n config bus device (function + 1)

pub pci_check_device : (ℕ → ℕ) → ℕ → ℕ → List Found
pci_check_device config bus device =
    if vendor_of config bus device 0 == 0xFFFF
    then []
    else if is_multi config bus device
    then check_functions 8 config bus device 0
    else pci_check_function config bus device 0

pub check_devices : ℕ → (ℕ → ℕ) → ℕ → ℕ → List Found
check_devices zero config bus device = []
check_devices (suc n) config bus device =
    pci_check_device config bus device ++ check_devices n config bus (device + 1)

pub check_buses : ℕ → (ℕ → ℕ) → ℕ → List Found
check_buses zero config bus = []
check_buses (suc n) config bus = check_devices 32 config bus 0 ++ check_buses n config (bus + 1)

pub pci_scan_bus : (ℕ → ℕ) → List Found
pci_scan_bus config = check_buses 255 config 0

-- The word behind the address is written.
pub pci_write_dword : (ℕ → ℕ) → ℕ → ℕ → ℕ → ℕ → ℕ → ℕ → ℕ
pci_write_dword config bus device function offset value =
    store config (pci_get_address bus device function offset) value
