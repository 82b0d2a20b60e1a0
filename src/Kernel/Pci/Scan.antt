-- ===== src/Kernel/Pci/Scan.antt =====
-- The scan calls back once for each function that answers, on the buses that it visits.
use orionis_os.Base.{
  ◌∙◌, ℕ, zero, suc, ◌+◌, ◌/◌, ◌<◌, ◌≡◌, Bool, List, [], ◌∷◌, ◌++◌, arith, ltb, leb, ◌==◌, ◌&&◌,
  ◌||◌, not, if◌then◌else◌,
}
use orionis_os.Kernel.Pci.{
  Found, pci_get_address, vendor_of, is_multi, pci_check_function, check_functions,
  pci_check_device, check_devices, check_buses, pci_scan_bus,
}

-- How often the function is called back for.
pub calls : ℕ → ℕ → ℕ → List Found → ℕ
calls b d f [] = 0
calls b d f (x ∷ xs) =
    (if x.bus == b && (x.device == d && x.function == f) then 1 else 0) + calls b d f xs

-- The function is there, and its device says so: function 0 answers, and a device with no more than one
-- function has only that one.
abbrev pub answers : (ℕ → ℕ) → ℕ → ℕ → ℕ → Bool
answers config b d f =
    not (vendor_of config b d 0 == 0xFFFF)
    && (not (vendor_of config b d f == 0xFFFF) && (f == 0 || (is_multi config b d && ltb f 8)))

module _ (config : ℕ → ℕ) (b d f : ℕ) where
  calls-append : (xs ys : List Found) → calls b d f (xs ++ ys) ≡ calls b d f xs + calls b d f ys
  unfolding calls
  calls-append [] ys = omega arith
  calls-append (x ∷ xs) ys = omega (arith, calls-append xs ys)

  calls-function :
      (bus device function : ℕ)
      → calls b d f (pci_check_function config bus device function) ≡ (
          if bus == b && (device == d && (function == f && not (vendor_of config b d f == 0xFFFF)))
          then 1
          else 0)
  unfolding calls pci_check_function
  calls-function bus device function = ground arith

  calls-functions :
      (n bus device function : ℕ)
      → calls b d f (check_functions n config bus device function) ≡ (
          if bus == b
            && (device == d
                && (leb function f
                    && (ltb f (function + n) && not (vendor_of config b d f == 0xFFFF))))
          then 1
          else 0)
  unfolding calls check_functions
  calls-functions zero bus device function = ground arith
  calls-functions (suc n) bus device function =
      calls-append (pci_check_function config bus device function)
        (check_functions n config bus device (function + 1))
      ∙ ground
          (arith, calls-function bus device function, calls-functions n bus device (function + 1))

  calls-device :
      (bus device : ℕ)
      → calls b d f (pci_check_device config bus device)
        ≡ (if bus == b && (device == d && answers config b d f) then 1 else 0)
  unfolding calls pci_check_device
  calls-device bus device =
      ground (arith, calls-function bus device 0, calls-functions 8 bus device 0)

  calls-devices :
      (n bus device : ℕ)
      → calls b d f (check_devices n config bus device) ≡ (
          if bus == b && (leb device d && (ltb d (device + n) && answers config b d f))
          then 1
          else 0)
  unfolding calls check_devices
  calls-devices zero bus device = ground arith
  calls-devices (suc n) bus device =
      calls-append (pci_check_device config bus device) (check_devices n config bus (device + 1))
      ∙ ground (arith, calls-device bus device, calls-devices n bus (device + 1))

  calls-buses :
      (n bus : ℕ)
      → calls b d f (check_buses n config bus)
        ≡ (if leb bus b && (ltb b (bus + n) && (ltb d 32 && answers config b d f)) then 1 else 0)
  unfolding calls check_buses
  calls-buses zero bus = ground arith
  calls-buses (suc n) bus =
      calls-append (check_devices 32 config bus 0) (check_buses n config (bus + 1))
      ∙ ground (arith, calls-devices 32 bus 0, calls-buses n (bus + 1))

  -- The scan calls back exactly once for each function that answers on the buses 0 to 254, and for no
  -- other; bus 255 is not visited.
  pub calls-scan :
      calls b d f (pci_scan_bus config)
      ≡ (if ltb b 255 && (ltb d 32 && answers config b d f) then 1 else 0)
  unfolding pci_scan_bus
  calls-scan = calls-buses 255 0 ∙ ground arith

-- Two functions, or two words of one, never have the same address.
pub pci_get_address_inj :
    (b d f o b' d' f' o' : ℕ)
    → (d < 32) × (f < 8) × (o < 256)
    → (d' < 32) × (f' < 8) × (o' < 256)
    → pci_get_address b d f o ≡ pci_get_address b' d' f' o'
    → (b ≡ b') × (d ≡ d') × (f ≡ f') × (o / 4 ≡ o' / 4)
unfolding pci_get_address
pci_get_address_inj b d f o b' d' f' o' (hd, hf, ho) (hd', hf', ho') e =
    (omega (arith, e), omega (arith, e), omega (arith, e), omega (arith, e))
