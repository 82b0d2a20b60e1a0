-- ===== src/Kernel/PciIds.antt =====
-- The names of PCI devices: kernel/cpu/pci_ids.h and kernel/cpu/pci_ids.cpp.
mod Lookup
use Prim.Native.String.{String}
use orionis_os.Base.{ℕ, Bool, List, [], ◌∷◌, ◌==◌, ◌&&◌, if◌then◌else◌}

pub record Vendor : Type 0 where
  pub id : ℕ
  pub name : String

pub record Device : Type 0 where
  pub vendor_id : ℕ
  pub device_id : ℕ
  pub name : String

abbrev vendor : ℕ → String → Vendor
vendor id name = record { id = id; name = name }

abbrev device : ℕ → ℕ → String → Device
device vendor_id device_id name = record {
  vendor_id = vendor_id;
  device_id = device_id;
  name = name;
}

abbrev pub pci_vendors : List Vendor
pci_vendors =
    vendor 0x8086 "Intel"
    ∷ vendor 0x10DE "NVIDIA"
    ∷ vendor 0x1022 "AMD"
    ∷ vendor 0x1AF4 "Virtio"
    ∷ vendor 0x1234 "QEMU"
    ∷ vendor 0x1B36 "Red Hat"
    ∷ vendor 0xFFFF "Unknown"
    ∷ []

abbrev pub pci_devices : List Device
pci_devices =
    device 0x8086 0x100E "Intel 82540EM Gigabit Ethernet"
    ∷ device 0x8086 0x2922 "Intel ICH9 SATA AHCI Controller"
    ∷ device 0x10DE 0x1CB3 "NVIDIA GeForce GTX 1050"
    ∷ device 0x1AF4 0x1000 "Virtio Network"
    ∷ device 0x1AF4 0x1041 "Virtio Block"
    ∷ device 0x1234 0x1111 "QEMU VGA"
    ∷ device 0x1B36 0x0008 "Red Hat QXL VGA"
    ∷ device 0x1234 0x1111 "QEMU Standard VGA"
    ∷ device 0x1B36 0x0001 "Red Hat Virtio Balloon"
    ∷ device 0x1B36 0x1000 "Red Hat Virtio Network"
    ∷ device 0x1B36 0x1001 "Red Hat Virtio Block"
    ∷ device 0x1B36 0x1002 "Red Hat Virtio Console"
    ∷ device 0x1B36 0x1003 "Red Hat Virtio RNG"
    ∷ device 0x1B36 0x1004 "Red Hat Virtio Entropy"
    ∷ device 0x1B36 0x1005 "Red Hat Virtio SCSI"
    ∷ device 0x1B36 0x1009 "Red Hat Virtio Filesystem"
    ∷ device 0x1B36 0x1050 "Red Hat QXL GPU"
    ∷ device 0x8086 0x1237 "Intel 440FX Host Bridge"
    ∷ device 0x8086 0x7000 "Intel 82371SB PIIX3 ISA Bridge"
    ∷ device 0x8086 0x7010 "Intel 82371SB PIIX3 IDE Controller"
    ∷ device 0x8086 0x7113 "Intel 82371AB PIIX4 ACPI Controller"
    ∷ device 0x8086 0x7190 "Intel 440BX/ZX Host Bridge"
    ∷ device 0x8086 0x7192 "Intel 440BX/ZX AGP Bridge"
    ∷ device 0x8086 0x2415 "Intel 82801AA AC'97 Audio"
    ∷ device 0x8086 0x2829 "Intel ICH9 SATA Controller"
    ∷ device 0x8086 0x2930 "Intel ICH9 USB Controller"
    ∷ device 0x8086 0x29C0 "Intel Q35 Host Bridge"
    ∷ device 0x8086 0x29B0 "Intel Q35 I/O Controller"
    ∷ device 0xFFFF 0xFFFF "Unknown Device"
    ∷ []

-- The loops over the tables, which end at the mark 0xFFFF.
pub vendor_loop : ℕ → List Vendor → String
vendor_loop vendor_id [] = "Unknown Vendor"
vendor_loop vendor_id (v ∷ vs) =
    if v.id == 0xFFFF
    then "Unknown Vendor"
    else if v.id == vendor_id
    then v.name
    else vendor_loop vendor_id vs

pub pci_lookup_vendor : ℕ → String
pci_lookup_vendor vendor_id = vendor_loop vendor_id pci_vendors

pub device_loop : ℕ → ℕ → List Device → String
device_loop vendor_id device_id [] = "Unknown Device"
device_loop vendor_id device_id (d ∷ ds) =
    if d.vendor_id == 0xFFFF && d.device_id == 0xFFFF
    then "Unknown Device"
    else if d.vendor_id == vendor_id && d.device_id == device_id
    then d.name
    else device_loop vendor_id device_id ds

pub pci_lookup_device : ℕ → ℕ → String
pci_lookup_device vendor_id device_id = device_loop vendor_id device_id pci_devices
