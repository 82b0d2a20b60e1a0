-- ===== src/Kernel/PciIds/Lookup.antt =====
-- Runs of the lookups.
use orionis_os.Base.{◌≡◌, refl}
use orionis_os.Kernel.PciIds.{vendor_loop, device_loop, pci_lookup_vendor, pci_lookup_device}

virtio : pci_lookup_vendor 0x1AF4 ≡ "Virtio"
unfolding pci_lookup_vendor vendor_loop
virtio = refl

unknown : pci_lookup_vendor 0xFFFF ≡ "Unknown Vendor"
unfolding pci_lookup_vendor vendor_loop
unknown = refl

-- The table has two entries for this device, and the first one is found.
vga : pci_lookup_device 0x1234 0x1111 ≡ "QEMU VGA"
unfolding pci_lookup_device device_loop
vga = refl
