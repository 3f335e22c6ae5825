-- ===== src/Pci/Tests.antt =====
-- A function of a device with two capabilities, and registers that keep what is written.
use angl_os.Base.{ℕ, ◌/◌, ◌≡◌, refl, some, [], ◌∷◌, arith, ◌==◌, if◌then◌else◌, update}
use angl_os.Pci.{
  Bridge, Function, config_address, config_read_byte, get_cap_pointer, get_capability_offset,
}
use angl_os.Pci.Address.{InRange, config_address-injective}
use angl_os.Pci.Capabilities.{Chain, last, more, first_with, get_capability_offset_lem}

abbrev registers : Bridge
registers = record { Config = ℕ → ℕ; read_data = λ a c. c a; write_data = λ a v c. update c a v }

abbrev third : Function
third = record { bus = 0; device = 3; func = 0 }

abbrev two_capabilities : ℕ → ℕ
two_capabilities a =
    if a == 0x80001834
    then 0x40
    else (if a == 0x80001840 then 0x5005 else (if a == 0x80001850 then 0x11 else 0))

two_capabilities-Chain :
    Chain registers third two_capabilities
      (get_cap_pointer registers third two_capabilities)
      (0x50 ∷ [])
unfolding get_cap_pointer config_read_byte config_address
two_capabilities-Chain = more 0x40 0x50 [] refl (λ e. omega arith) (last 0x50 refl)

get_capability_offset_lem_example :
    get_capability_offset registers 3 third 0x11 two_capabilities
    ≡ some (
        first_with
          (λ o. config_read_byte registers third o two_capabilities)
          0x11
          (get_cap_pointer registers third two_capabilities ∷ 0x50 ∷ []))
get_capability_offset_lem_example =
    get_capability_offset_lem registers third two_capabilities 0x11 3 (0x50 ∷ [])
      two_capabilities-Chain (omega arith)

third-InRange : InRange third 0x10
third-InRange = record {
  bus = omega arith;
  device = omega arith;
  func = omega arith;
  byte = omega arith;
}

third-other : InRange third 0x12
third-other = record {
  bus = omega arith;
  device = omega arith;
  func = omega arith;
  byte = omega arith;
}

same_register : config_address third 0x10 ≡ config_address third 0x12
unfolding config_address
same_register = refl

config_address-injective_example :
    (third.bus ≡ third.bus)
    × (third.device ≡ third.device)
    × (third.func ≡ third.func)
    × (◌≡◌ {A = ℕ} (0x10 / 4) (0x12 / 4))
config_address-injective_example =
    config_address-injective third third 0x10 0x12 third-InRange third-other same_register
