-- ===== src/Pci/Address.antt =====
-- The addresses of the registers of kernel/device/pci/pci.c.
use angl_os.Base.{
  ℕ, ◌+◌, ◌*◌, ◌/◌, ◌%◌, ◌^◌, ◌<◌, ◌≡◌, ap, ◌∙◌, sym, arith, bit_and, bit_or, u32, ◌<<<◌,
}
use angl_os.Base.Bits.Fields.{bit_or_fields, bit_or_top, bit_and_fields, bit_and_mask}
use angl_os.Pci.{Function, config_address}

-- The numbers fit their fields.
pub record InRange (f : Function) (offset : ℕ) : Type 0 where
  pub bus : f.bus < 256
  pub device : f.device < 32
  pub func : f.func < 8
  pub byte : offset < 256

aligned : (offset : ℕ) → offset < 256 → bit_and offset 0xFC ≡ offset / 4 * 4
aligned offset small =
    let split : offset ≡ offset / 4 * 2 ^ 2 + offset % 4 = omega arith in
    ap (λ o. bit_and o 0xFC) split
    ∙ bit_and_fields 2 (offset / 4) (offset % 4) 63 (omega arith)
    ∙ ap (λ k. k * 2 ^ 2) (bit_and_mask 6 (offset / 4))
    ∙ omega arith

pub config_address_lem :
    (f : Function) (offset : ℕ)
    → InRange f offset
    → config_address f offset
      ≡ 2 ^ 31 + 2 ^ 16 * f.bus + 2 ^ 11 * f.device + 2 ^ 8 * f.func + offset / 4 * 4
unfolding config_address
config_address_lem f offset r =
    let low = bit_and offset 0xFC in
    let e0 : low ≡ offset / 4 * 4 = aligned offset r.byte in
    let a1 = f.bus * 2 ^ 5 + f.device in
    let a2 = a1 * 2 ^ 3 + f.func in
    let e1 : bit_or (f.bus <<< 16) (f.device <<< 11) ≡ a1 * 2 ^ 11 =
      bit_or_fields 16 f.bus (f.device * 2 ^ 11) (omega (arith, r.device)) ∙ omega arith in
    let e2 : bit_or (a1 * 2 ^ 11) (f.func <<< 8) ≡ a2 * 2 ^ 8 =
      bit_or_fields 11 a1 (f.func * 2 ^ 8) (omega (arith, r.func)) ∙ omega arith in
    let e3 : bit_or (a2 * 2 ^ 8) low ≡ a2 * 2 ^ 8 + low =
      bit_or_fields 8 a2 low (omega (arith, r.byte)) in
    let e4 : bit_or (a2 * 2 ^ 8 + low) 0x80000000 ≡ 2 ^ 31 + (a2 * 2 ^ 8 + low) =
      bit_or_top 31 1 (a2 * 2 ^ 8 + low) (omega (arith, r.bus, r.device, r.func, r.byte)) in
    ap (λ x. u32 (bit_or (bit_or (bit_or x (f.func <<< 8)) low) 0x80000000)) e1
    ∙ ap (λ x. u32 (bit_or (bit_or x low) 0x80000000)) e2
    ∙ ap (λ x. u32 (bit_or x 0x80000000)) e3
    ∙ ap u32 e4
    ∙ omega (arith, r.bus, r.device, r.func, r.byte)

-- Different functions, or different registers of 32 bits of one function, have different addresses, where
-- the numbers fit their fields.
pub config_address-injective :
    (f g : Function) (offset other : ℕ)
    → InRange f offset
    → InRange g other
    → config_address f offset ≡ config_address g other
    → (f.bus ≡ g.bus) × (f.device ≡ g.device) × (f.func ≡ g.func) × (offset / 4 ≡ other / 4)
config_address-injective f g offset other r q e =
    let same = sym (config_address_lem f offset r) ∙ e ∙ config_address_lem g other q in
    (
      omega (arith, r.bus, r.device, r.func, r.byte, q.bus, q.device, q.func, q.byte),
      omega (arith, r.bus, r.device, r.func, r.byte, q.bus, q.device, q.func, q.byte),
      omega (arith, r.bus, r.device, r.func, r.byte, q.bus, q.device, q.func, q.byte),
      omega (arith, r.bus, r.device, r.func, r.byte, q.bus, q.device, q.func, q.byte),
    )
