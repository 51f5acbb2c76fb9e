-- ===== src/Drivers/Pci/Tests.antt =====
-- Runs of drivers/pci/pci.c, and its theorem at concrete hardware.
use relis.Prelude.{ℕ, ◌≡◌, refl, none, some, [], arith}
use relis.Drivers.Pci.{pci_addr, pci_read16, pci_scan_bus, pci_init, pci_find_device}
use relis.Drivers.Pci.Scan.{Grows, pci_scan_bus-Grows}

-- hardware on which every device is the same bridge, to bus 6
abbrev bridges : ℕ → ℕ
bridges a = 0x06040600

-- hardware without devices
abbrev nothing_there : ℕ → ℕ
nothing_there a = 0xffffffff

none_found : pci_init nothing_there 1 ≡ some []
unfolding pci_init
none_found = refl

register : pci_addr 0 2 0 0x10 ≡ 0x80001010
unfolding pci_addr
register = refl

upper_half : pci_read16 bridges 0 0 0 2 ≡ 0x0604
unfolding pci_read16
upper_half = refl

not_found : pci_find_device 1 2 [] ≡ none
unfolding pci_find_device
not_found = refl

pci_scan_bus-Grows_example : Grows [] (pci_scan_bus bridges 33 0 [])
pci_scan_bus-Grows_example = pci_scan_bus-Grows bridges 33 0 [] (omega arith) (omega arith)
