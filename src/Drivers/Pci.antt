-- ===== src/Drivers/Pci.antt =====
-- drivers/pci/pci.c: the scan of the buses and the base address registers. The configuration space
-- is the hardware's, a parameter.
pub mod Scan
mod Tests
use relis.Prelude.{
  ℕ, zero, suc, ◌+◌, ◌-◌, ◌*◌, ◌/◌, ◌%◌, ◌^◌, ◌≤◌, ◌<◌, min, bit_and, bit_or, bit_xor, ◌≡◌, refl,
  sym, ap, ◌∙◌, subst, ◌≢◌, ◌↔◌, ◌⊎◌, inl, inr, Bool, true, false, not, ◌&&◌, ◌||◌, Option, none,
  some, List, [], ◌∷◌, ◌++◌, map, append_assoc, append-nil, arith, ltb, leb, ◌==◌, if◌then◌else◌,
  ltb→lt, lt→ltb, leb→le, ==_iff, tests, Bool-cases, Option-cases, if_lem, length, get_elem?,
  get_or, set, take, drop, replicate, length-append, length-set, get_or-set_self, get_or-set_ne,
  length-take, length-drop, take-append-drop, length-replicate, get_or-replicate, update,
  update_self, update_ne, test_bit, not64, bit_and_step, bit_or_step, test_bit-and, test_bit-or,
  test_bit-pow, test_bit-not64, bit_and-zero, bit_and-pow, bit_or-lt, bit_and-le, pow-lt,
  bit_and-ones, test_bit-zero, bit_and_align, bit_and_high, ℤ, pos, negsuc, minus_one, sub_ℕ,
}

abbrev pub max_pci_devices : ℕ
max_pci_devices = 32

-- `pci_device_t`; the arrays `bar` and `bar_type` are functions of the index.
pub record Device : Type 0 where
  pub bus : ℕ
  pub slot : ℕ
  pub func : ℕ
  pub vendor_id : ℕ
  pub device_id : ℕ
  pub class_code : ℕ
  pub subclass : ℕ
  pub prog_if : ℕ
  pub header_type : ℕ
  pub irq : ℕ
  pub bar : ℕ → ℕ
  pub bar_type : ℕ → ℕ

-- `pci_devices` up to `pci_device_count`, the last device found first
abbrev pub Found : Type 0
Found = List Device

-- the address word that selects a register
unfoldable pub pci_addr : ℕ → ℕ → ℕ → ℕ → ℕ
pci_addr bus slot func offset =
    bit_or (bit_or (bit_or (bit_or (2 ^ 31) (bus * 2 ^ 16)) (slot * 2 ^ 11)) (func * 2 ^ 8))
      (bit_and offset 0xfc)
    % 2 ^ 32

-- `config` is the word of 32 bits that the hardware gives for an address word.
module _ (config : ℕ → ℕ) where
  unfoldable pub pci_read32 : ℕ → ℕ → ℕ → ℕ → ℕ
  unfolding pci_addr
  pci_read32 bus slot func off = config (pci_addr bus slot func off)

  unfoldable pub pci_read16 : ℕ → ℕ → ℕ → ℕ → ℕ
  unfolding pci_addr
  pci_read16 bus slot func off =
      config (pci_addr bus slot func off) / 2 ^ (bit_and off 2 * 8) % 2 ^ 16

  unfoldable pub pci_read8 : ℕ → ℕ → ℕ → ℕ → ℕ
  unfolding pci_addr
  pci_read8 bus slot func off =
      config (pci_addr bus slot func off) / 2 ^ (bit_and off 3 * 8) % 2 ^ 8

  -- `dev->bar[i] = b; dev->bar_type[i] = ty`
  abbrev pub set_bar : ℕ → ℕ → ℕ → Device → Device
  set_bar i b ty dev = record dev { bar = update dev.bar i b; bar_type = update dev.bar_type i ty }

  -- One register of pci_decode_bars: the device, and whether the next register is a part of this
  -- one, so that the loop skips it. A memory register of the reserved types is left as it is.
  unfoldable pub decode_bar : ℕ → Device → Device × Bool
  unfolding pci_read32
  decode_bar i dev =
      let reg = 0x10 + i * 4 in
      let bar_lo = pci_read32 dev.bus dev.slot dev.func reg in
      let type = bar_lo / 2 % 4 in
      if bar_lo == 0
      then (set_bar i 0 0 dev, false)
      else if bar_lo % 2 == 1
      then (set_bar i (bit_and bar_lo 0xfffffffc) 1 dev, false)
      else if type == 0
      then (set_bar i (bit_and bar_lo 0xfffffff0) 0 dev, false)
      else if type == 2
      then (
        let bar_hi = pci_read32 dev.bus dev.slot dev.func (reg + 4) in
            set_bar i (bit_or (bar_hi * 2 ^ 32) (bit_and bar_lo 0xfffffff0)) 2 dev,
        true,
      )
      else (dev, false)

  -- The loop over the registers from `i` on, `n` of them, by the flag of the one before.
  unfoldable pub decode_bars_from : ℕ → ℕ → Bool → Device → Device
  unfolding decode_bar
  decode_bars_from zero i skip dev = dev
  decode_bars_from (suc n) i true dev = decode_bars_from n (i + 1) false dev
  decode_bars_from (suc n) i false dev =
      let step = decode_bar i dev in decode_bars_from n (i + 1) step.1 step.0

  unfoldable pub pci_decode_bars : Device → Device
  unfolding decode_bars_from
  pci_decode_bars dev =
      let bar_limit = if dev.header_type % 2 ^ 7 == 1 then 2 else 6 in
      decode_bars_from bar_limit 0 false dev

  -- the device that pci_scan_function writes down, for the word `id` of its register 0
  unfoldable pub probe : ℕ → ℕ → ℕ → ℕ → Device
  unfolding pci_read32 pci_read8 pci_decode_bars
  probe bus slot func id =
      let class_rev = pci_read32 bus slot func 0x08 in
      pci_decode_bars (record {
        bus = bus;
        slot = slot;
        func = func;
        vendor_id = id % 2 ^ 16;
        device_id = id / 2 ^ 16 % 2 ^ 16;
        class_code = class_rev / 2 ^ 24 % 2 ^ 8;
        subclass = class_rev / 2 ^ 16 % 2 ^ 8;
        prog_if = class_rev / 2 ^ 8 % 2 ^ 8;
        header_type = pci_read8 bus slot func 0x0e;
        irq = pci_read8 bus slot func 0x3c;
        bar = λ _. 0;
        bar_type = λ _. 0;
      })

  -- `scan_bus` is pci_scan_bus, for the bus behind a bridge.
  unfoldable pub pci_scan_function : (ℕ → Found → Option Found) → ℕ → ℕ → ℕ → Found → Option Found
  unfolding pci_read32 pci_read8 probe
  pci_scan_function scan_bus bus slot func found =
      let id = pci_read32 bus slot func 0x00 in
      if leb max_pci_devices (length found)
      then some found
      else if id % 2 ^ 16 == 0xffff
      then some found
      else (let dev = probe bus slot func id in
          let sec_bus = pci_read8 bus slot func 0x19 in
          if (dev.class_code == 0x06) && (dev.subclass == 0x04) && not (sec_bus == 0)
          then scan_bus sec_bus (dev ∷ found)
          else some (dev ∷ found))

  -- the loop over the functions of a device from `func` on
  unfoldable pub scan_functions : (ℕ → Found → Option Found) → ℕ → ℕ → ℕ → ℕ → Found → Option Found
  unfolding pci_scan_function
  scan_functions scan_bus zero bus slot func found = some found
  scan_functions scan_bus (suc n) bus slot func found =
      let one =
        if pci_read32 bus slot func 0x00 == 0xffffffff
        then some found
        else pci_scan_function scan_bus bus slot func found in
      elim one [ none ↦ none | some found' ↦ scan_functions scan_bus n bus slot (func + 1) found' ]

  -- the loop over the slots of a bus from `slot` on
  unfoldable pub scan_slots : (ℕ → Found → Option Found) → ℕ → ℕ → ℕ → Found → Option Found
  unfolding pci_scan_function scan_functions
  scan_slots scan_bus zero bus slot found = some found
  scan_slots scan_bus (suc n) bus slot found =
      let multifunc = not (bit_and (pci_read8 bus slot 0 0x0e) 0x80 == 0) in
      let one =
        if pci_read32 bus slot 0 0x00 == 0xffffffff
        then some found
        else if multifunc
        then scan_functions scan_bus 8 bus slot 0 found
        else pci_scan_function scan_bus bus slot 0 found in
      elim one [ none ↦ none | some found' ↦ scan_slots scan_bus n bus (slot + 1) found' ]

  -- A bus, and the buses behind its bridges to the depth of the fuel; `none` if that is not enough.
  unfoldable pub pci_scan_bus : ℕ → ℕ → Found → Option Found
  unfolding scan_slots
  pci_scan_bus zero bus found = none
  pci_scan_bus (suc fuel) bus found = scan_slots (pci_scan_bus fuel) 32 bus 0 found

  unfoldable pub pci_init : ℕ → Option Found
  unfolding pci_scan_bus
  pci_init fuel = pci_scan_bus fuel 0 []

-- The first device of the table with the two numbers; `found` has the last one first.
unfoldable pub pci_find_device : ℕ → ℕ → Found → Option Device
pci_find_device vendor device [] = none
pci_find_device vendor device (dev ∷ found) =
    let earlier = pci_find_device vendor device found in
    elim earlier [
      | some d ↦ some d
      | none ↦ if (dev.vendor_id == vendor) && (dev.device_id == device) then some dev else none
    ]
