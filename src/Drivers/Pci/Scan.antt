-- ===== src/Drivers/Pci/Scan.antt =====
-- The scan of drivers/pci/pci.c ends on any hardware, and its table does not overflow.
use relis.Prelude.{
  ℕ, zero, suc, ◌+◌, ◌%◌, ◌^◌, ◌≤◌, ◌<◌, bit_and, ◌≡◌, refl, ap, ◌∙◌, inl, inr, not, ◌&&◌, Option,
  none, some, ◌∷◌, arith, leb, ◌==◌, Bool-cases, if_lem, length,
}
use relis.Drivers.Pci.{
  Device, Found, max_pci_devices, pci_scan_function, scan_functions, scan_slots, pci_scan_bus,
  probe, pci_read32, pci_read8,
}

-- A result of a scan that started at `found`: it returns, and the table only grows, within its size.
pub record Grows (found : Found) (r : Option Found) : Type 0 where
  pub table : Found
  pub returns : r ≡ some table
  pub grown : length found ≤ length table
  pub fits : length table ≤ max_pci_devices

-- What the scan of a bridge's bus promises, for tables of at least `low` devices.
unfoldable pub Scans : ℕ → (ℕ → Found → Option Found) → Type 0
Scans low scan_bus =
    (bus : ℕ) (found : Found)
    → low ≤ length found
    → length found ≤ max_pci_devices
    → Grows found (scan_bus bus found)

stay : (found : Found) → length found ≤ max_pci_devices → Grows found (some found)
stay found h = record { table = found; returns = refl; grown = omega arith; fits = h }

-- One step of a loop, and the rest of it from where the step ended.
then_on :
    (found : Found) (r : Option Found) (f : Found → Option Found)
    → Grows found r
    → ((t : Found) → length found ≤ length t → length t ≤ max_pci_devices → Grows t (f t))
    → Grows found (elim r [ none ↦ none | some t ↦ f t ])
then_on found r f g h =
    let next = h g.table g.grown g.fits in
    let a = g.grown in
    let b = next.grown in
    record {
      table = next.table;
      returns =
          ap (λ (o : Option Found). elim o [ none ↦ none | some t ↦ f t ]) g.returns ∙ next.returns;
      grown = omega arith;
      fits = next.fits;
    }

one_more : (found : Found) (dev : Device) (r : Option Found) → Grows (dev ∷ found) r → Grows found r
one_more found dev r g =
    let a = g.grown in
    record { table = g.table; returns = g.returns; grown = omega arith; fits = g.fits }

module _ (config : ℕ → ℕ) where
  scan_function-Grows :
      (scan_bus : ℕ → Found → Option Found) (low bus slot func : ℕ) (found : Found)
      → Scans (suc low) scan_bus
      → low ≤ length found
      → length found ≤ max_pci_devices
      → Grows found (pci_scan_function config scan_bus bus slot func found)
  unfolding pci_scan_function Scans
  scan_function-Grows scan_bus low bus slot func found sb l h =
      let id = pci_read32 config bus slot func 0x00 in
      let dev = probe config bus slot func id in
      let sec_bus = pci_read8 config bus slot func 0x19 in
      elim (Bool-cases (leb max_pci_devices (length found))) [
        | inl e ↦ rw e (stay found h)
        | inr e ↦ rw e (
            if_lem (Grows found) (id % 2 ^ 16 == 0xffff) (stay found h) (
              if_lem (Grows found)
                ((dev.class_code == 0x06) && (dev.subclass == 0x04) && not (sec_bus == 0))
                (one_more found dev (scan_bus sec_bus (dev ∷ found))
                  (sb sec_bus (dev ∷ found) (omega arith) (ground arith)))
                (one_more found dev (some (dev ∷ found)) (stay (dev ∷ found) (ground arith)))))
      ]

  scan_functions-Grows :
      (scan_bus : ℕ → Found → Option Found) (low n bus slot func : ℕ) (found : Found)
      → Scans (suc low) scan_bus
      → low ≤ length found
      → length found ≤ max_pci_devices
      → Grows found (scan_functions config scan_bus n bus slot func found)
  unfolding scan_functions
  scan_functions-Grows scan_bus low zero bus slot func found sb l h = stay found h
  scan_functions-Grows scan_bus low (suc n) bus slot func found sb l h =
      then_on found _ (scan_functions config scan_bus n bus slot (func + 1))
        (if_lem (Grows found) (pci_read32 config bus slot func 0x00 == 0xffffffff) (stay found h)
          (scan_function-Grows scan_bus low bus slot func found sb l h))
        (λ t a b. scan_functions-Grows scan_bus low n bus slot (func + 1) t sb (omega arith) b)

  scan_slots-Grows :
      (scan_bus : ℕ → Found → Option Found) (low n bus slot : ℕ) (found : Found)
      → Scans (suc low) scan_bus
      → low ≤ length found
      → length found ≤ max_pci_devices
      → Grows found (scan_slots config scan_bus n bus slot found)
  unfolding scan_slots
  scan_slots-Grows scan_bus low zero bus slot found sb l h = stay found h
  scan_slots-Grows scan_bus low (suc n) bus slot found sb l h =
      then_on found _ (scan_slots config scan_bus n bus (slot + 1))
        (if_lem (Grows found) (pci_read32 config bus slot 0 0x00 == 0xffffffff) (stay found h) (
          if_lem (Grows found) (not (bit_and (pci_read8 config bus slot 0 0x0e) 0x80 == 0))
            (scan_functions-Grows scan_bus low 8 bus slot 0 found sb l h)
            (scan_function-Grows scan_bus low bus slot 0 found sb l h)))
        (λ t a b. scan_slots-Grows scan_bus low n bus (slot + 1) t sb (omega arith) b)

  -- Whatever the hardware answers, a bridge that leads back to its own bus included, the scan of a
  -- bus returns if the fuel is more than the free entries of the table: each nested scan has used one.
  -- The table never holds more than 32 devices, and does not get shorter.
  pub pci_scan_bus-Grows :
      (fuel bus : ℕ) (found : Found)
      → max_pci_devices < fuel + length found
      → length found ≤ max_pci_devices
      → Grows found (pci_scan_bus config fuel bus found)
  unfolding pci_scan_bus Scans
  pci_scan_bus-Grows zero bus found f h = absurd (omega arith)
  pci_scan_bus-Grows (suc fuel) bus found f h =
      scan_slots-Grows (pci_scan_bus config fuel) (length found) 32 bus 0 found
        (λ b t l k. pci_scan_bus-Grows fuel b t (omega arith) k) (omega arith) h
