-- ===== src/Pci.antt =====
-- kernel/device/pci/pci.c: the configuration space of PCI devices behind two ports. The bridge that answers
-- at the ports is a parameter.
pub mod Address
pub mod Capabilities
mod Tests
use angl_os.Base.{
  ℕ, zero, suc, ◌+◌, ◌-◌, ◌*◌, ◌/◌, ◌%◌, ◌^◌, Bool, true, false, Option, none, some, bit_and,
  bit_or, ◌==◌, if◌then◌else◌, u8, u32, ◌>>>◌, ◌<<<◌, ◌>>=◌, update,
}
use angl_os.CString.{Memory, memcpy}

-- What the data port does once the address port holds an address: a read gives 32 bits and changes
-- nothing.
pub record Bridge : Type 1 where
  pub Config : Type 0
  pub read_data : ℕ → Config → ℕ
  pub write_data : ℕ → ℕ → Config → Config

-- A function of a device
pub record Function : Type 0 where
  pub bus : ℕ
  pub device : ℕ
  pub func : ℕ

-- `addr`
pub config_address : Function → ℕ → ℕ
config_address f offset = u32 (
    bit_or
      (bit_or (bit_or (bit_or (f.bus <<< 16) (f.device <<< 11)) (f.func <<< 8))
        (bit_and offset 0xFC))
      0x80000000)

module _ (bridge : Bridge) where
  -- `pciConfigReadByte`, `pciConfigReadWord` and `pciConfigReadLong`
  pub config_read_byte : Function → ℕ → bridge.Config → ℕ
  config_read_byte f offset s =
      u8 (bit_and (bridge.read_data (config_address f offset) s >>> (bit_and offset 3 * 8)) 0xFF)

  pub config_read_word : Function → ℕ → bridge.Config → ℕ
  config_read_word f offset s =
      bit_and (bridge.read_data (config_address f offset) s >>> (bit_and offset 2 * 8)) 0xFFFF

  pub config_read_long : Function → ℕ → bridge.Config → ℕ
  config_read_long f offset s = bridge.read_data (config_address f offset) s

  -- `pciConfigWriteLong`
  pub config_write_long : Function → ℕ → ℕ → bridge.Config → bridge.Config
  config_write_long f offset value s = bridge.write_data (config_address f offset) value s

  -- `pciGetBaseClass`, `pciGetSubClass`, `pciReadStatus` and `pciReadCommand`
  pub get_base_class : Function → bridge.Config → ℕ
  get_base_class f s = config_read_byte f 0xB s

  pub get_sub_class : Function → bridge.Config → ℕ
  get_sub_class f s = config_read_byte f 0xA s

  pub read_status : Function → bridge.Config → ℕ
  read_status f s = config_read_word f 6 s

  pub read_command : Function → bridge.Config → ℕ
  read_command f s = config_read_word f 4 s

  -- `pciWriteCommand`
  pub write_command : Function → ℕ → bridge.Config → bridge.Config
  write_command f command s =
      config_write_long f 4 (bit_or (u32 (read_status f s <<< 16)) command) s

  -- `pciGetBAR`
  pub get_bar : Function → ℕ → bridge.Config → ℕ
  get_bar f bar s = config_read_long f (u8 (0x10 + bar * 4)) s

  -- `pciGetCapPointer`
  pub get_cap_pointer : Function → bridge.Config → ℕ
  get_cap_pointer f s = config_read_byte f 0x34 s

  -- the loop of `pciGetCapabilityOffset`, at most `fuel` rounds
  pub find_capability : ℕ → Function → ℕ → ℕ → ℕ → bridge.Config → Option ℕ
  find_capability zero f cap cap_base next s = none
  find_capability (suc fuel) f cap cap_base next s =
      let curr_cap = config_read_byte f cap_base s in
      let after = config_read_byte f (u8 (cap_base + 1)) s in
      let rest = find_capability fuel f cap after after s in
      if next == 0 then some 0 else (if curr_cap == cap then some cap_base else rest)

  -- `pciGetCapabilityOffset`
  pub get_capability_offset : ℕ → Function → ℕ → bridge.Config → Option ℕ
  get_capability_offset fuel f cap s = find_capability fuel f cap (get_cap_pointer f s) 255 s

  -- `pciGetMessageTableBaseAddr`
  pub get_message_table_base_addr : ℕ → Function → bridge.Config → Option ℕ
  get_message_table_base_addr fuel f s = do
    msix_base ← get_capability_offset fuel f 0x11 s
    let bar_idx = bit_and (config_read_byte f (u8 (msix_base + 4)) s) 7
    let bar0 = get_bar f bar_idx s
    let bar1 = get_bar f (u8 (bar_idx + 1)) s
    some (
        if msix_base == 0
        then 2 ^ 64 - 1
        else (if bit_and (bar0 >>> 1) 3 == 2
            then bit_and bar0 0xFFFFFFF0 + (bit_and bar1 0xFFFFFFFF <<< 32)
            else bit_and bar0 0xFFFFFFF0))

  -- `pciGetMessageTableOffset` and `pciGetMessageTableSize`
  pub get_message_table_offset : ℕ → Function → bridge.Config → Option ℕ
  get_message_table_offset fuel f s = do
    msix_base ← get_capability_offset fuel f 0x11 s
    some (
        if msix_base == 0
        then 2 ^ 32 - 1
        else bit_and (config_read_long f (u8 (msix_base + 4)) s) 0xFFFFFFF8)

  pub get_message_table_size : ℕ → Function → bridge.Config → Option ℕ
  get_message_table_size fuel f s = do
    msix_base ← get_capability_offset fuel f 0x11 s
    some (
        if msix_base == 0
        then 2 ^ 32 - 1
        else bit_and (config_read_word f (u8 (msix_base + 2)) s) 0x7FF)

  -- `pciEnableMSIX`
  pub enable_msix : ℕ → Function → bridge.Config → Option (ℕ × bridge.Config)
  enable_msix fuel f s = do
    msix_base ← get_capability_offset fuel f 0x11 s
    let reg = config_read_long f msix_base s
    let t = config_write_long f msix_base (bit_or (bit_and reg 0x3FFFFFFF) 0x80000000) s
    some (if msix_base == 0 then (255, s) else (0, t))

-- `pciWriteMSIXEntry` and `pciReadMSIXEntry`, of 16 bytes, and `pciMSIXSetMask`
pub write_msix_entry : ℕ → ℕ → ℕ → Memory → Memory
write_msix_entry msix_base idx entry m = memcpy (msix_base + 16 * idx) entry 16 m

pub read_msix_entry : ℕ → ℕ → ℕ → Memory → Memory
read_msix_entry msix_base idx entry m = memcpy entry (msix_base + 16 * idx) 16 m

pub msix_set_mask : ℕ → ℕ → Bool → Memory → Memory
msix_set_mask msix_base idx mask m =
    let at = msix_base + 16 * idx + 12 in
    update m at (bit_or (bit_and (m at) 0xFE) (if mask then 1 else 0))
