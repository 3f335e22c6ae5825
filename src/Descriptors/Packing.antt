-- ===== src/Descriptors/Packing.antt =====
-- The fields of the descriptors of kernel/boot/gdt/gdt.c and kernel/boot/interrupts/idt.c, as the processor
-- takes them out of a word.
use angl_os.Base.{
  ℕ, ◌+◌, ◌-◌, ◌*◌, ◌/◌, ◌%◌, ◌^◌, ◌<◌, ◌≡◌, ◌≢◌, ap, ◌∙◌, sym, false, arith, bit_and, bit_or, leb,
  if◌then◌else◌, u16, u32, ◌>>>◌, update, update_self, update_ne,
}
use angl_os.Base.Bits.Fields.{bit_or_fields, bit_and_fields, bit_and_mask}
use angl_os.Descriptors.{
  Gdt, IdtDescriptor, gdt_max_descriptors, pack, slot, set_entry, gdt_add_descriptor,
  gdt_install_tss, idt_set_descriptor,
}
use mathlib.Core.Path.{subst}

abbrev pub base_of : ℕ → ℕ
base_of w = w / 2 ^ 16 % 2 ^ 24 + 2 ^ 24 * (w / 2 ^ 56 % 2 ^ 8)

abbrev pub limit_of : ℕ → ℕ
limit_of w = w % 2 ^ 16 + 2 ^ 16 * (w / 2 ^ 48 % 2 ^ 4)

abbrev pub access_of : ℕ → ℕ
access_of w = w / 2 ^ 40 % 2 ^ 8

abbrev pub granularity_of : ℕ → ℕ
granularity_of w = w / 2 ^ 52 % 2 ^ 4

-- A word holds a descriptor.
abbrev pub Describes : (w base limit access granularity : ℕ) → Type 0
Describes w base limit access granularity =
    (base_of w ≡ base)
    × (limit_of w ≡ limit)
    × (access_of w ≡ access)
    × (granularity_of w ≡ granularity)

pack-Describes :
    (l0 b0 b1 access g l1 b2 : ℕ)
    → l0 < 2 ^ 16
    → b0 < 2 ^ 16
    → b1 < 2 ^ 8
    → access < 2 ^ 8
    → g < 2 ^ 4
    → l1 < 2 ^ 4
    → b2 < 2 ^ 8
    → Describes
        (pack l0 b0 b1 access (g * 2 ^ 4 + l1) b2)
        (b0 + 2 ^ 16 * b1 + 2 ^ 24 * b2)
        (l0 + 2 ^ 16 * l1)
        access
        g
unfolding pack
pack-Describes l0 b0 b1 access g l1 b2 h0 h1 h2 h3 h4 h5 h6 =
    (omega arith, omega arith, omega arith, omega arith)

set_entry-same : (num_cpu i w : ℕ) (s : Gdt) → (set_entry num_cpu i w s).gdt (slot num_cpu i) ≡ w
unfolding set_entry
set_entry-same num_cpu i w s = update_self s.gdt (slot num_cpu i) w

set_entry-other :
    (num_cpu i j w : ℕ) (s : Gdt) → slot num_cpu i ≢ j → (set_entry num_cpu i w s).gdt j ≡ s.gdt j
unfolding set_entry
set_entry-other num_cpu i j w s ne = update_ne s.gdt (slot num_cpu i) j w ne

-- `gdtAddDescriptor`, with room in the table and arguments that fit their fields: the next entry holds the
-- base, the limit, the access byte and the four flags of the arguments, all other entries
-- are kept, and the next free index is one more.
pub gdt_add_descriptor_lem :
    (num_cpu base limit access flags : ℕ) (s : Gdt)
    → s.gindex num_cpu < gdt_max_descriptors
    → base < 2 ^ 32
    → limit < 2 ^ 20
    → access < 2 ^ 8
    → flags < 2 ^ 4
    → Describes
        ((gdt_add_descriptor num_cpu base limit access (flags * 2 ^ 4) s).gdt
          (slot num_cpu (s.gindex num_cpu)))
        base
        limit
        access
        flags
      × ((j : ℕ)
          → slot num_cpu (s.gindex num_cpu) ≢ j
          → (gdt_add_descriptor num_cpu base limit access (flags * 2 ^ 4) s).gdt j ≡ s.gdt j)
      × ((gdt_add_descriptor num_cpu base limit access (flags * 2 ^ 4) s).gindex num_cpu
          ≡ s.gindex num_cpu + 1)
unfolding gdt_add_descriptor
gdt_add_descriptor_lem num_cpu base limit access flags s room hb hl ha hf =
    let i = s.gindex num_cpu in
    let l0 = limit % 2 ^ 16 in
    let l1 = limit / 2 ^ 16 % 2 ^ 4 in
    let b0 = base % 2 ^ 16 in
    let b1 = base / 2 ^ 16 % 2 ^ 8 in
    let b2 = base / 2 ^ 24 % 2 ^ 8 in
    let plain = pack l0 b0 b1 access (flags * 2 ^ 4 + l1) b2 in
    let word =
      pack (bit_and limit 0xFFFF) (bit_and base 0xFFFF) (bit_and (base >>> 16) 0xFF) access
        (bit_or (flags * 2 ^ 4) (bit_and (limit >>> 16) 0xF)) (bit_and (base >>> 24) 0xFF) in
    let e : word ≡ plain =
      ap
        (λ x.
          pack x (bit_and base 0xFFFF) (bit_and (base >>> 16) 0xFF) access
            (bit_or (flags * 2 ^ 4) (bit_and (limit >>> 16) 0xF)) (bit_and (base >>> 24) 0xFF))
        (bit_and_mask 16 limit)
      ∙ ap
          (λ x.
            pack l0 x (bit_and (base >>> 16) 0xFF) access
              (bit_or (flags * 2 ^ 4) (bit_and (limit >>> 16) 0xF)) (bit_and (base >>> 24) 0xFF))
          (bit_and_mask 16 base)
      ∙ ap
          (λ x.
            pack l0 b0 x access (bit_or (flags * 2 ^ 4) (bit_and (limit >>> 16) 0xF))
              (bit_and (base >>> 24) 0xFF))
          (bit_and_mask 8 (base >>> 16))
      ∙ ap (λ x. pack l0 b0 b1 access (bit_or (flags * 2 ^ 4) (bit_and (limit >>> 16) 0xF)) x)
          (bit_and_mask 8 (base >>> 24))
      ∙ ap (λ x. pack l0 b0 b1 access x b2)
          (ap (bit_or (flags * 2 ^ 4)) (bit_and_mask 4 (limit >>> 16))
            ∙ bit_or_fields 4 flags l1 (omega arith)) in
    let t = set_entry num_cpu i word s in
    let done = record t { gindex = update t.gindex num_cpu (u16 (i + 1)) } in
    let open_table : leb gdt_max_descriptors i ≡ false = ground arith in
    let holds : Describes plain (b0 + 2 ^ 16 * b1 + 2 ^ 24 * b2) (l0 + 2 ^ 16 * l1) access flags =
      pack-Describes l0 b0 b1 access flags l1 b2 (omega arith) (omega arith) (omega arith) ha hf
        (omega arith) (omega arith) in
    let eb : b0 + 2 ^ 16 * b1 + 2 ^ 24 * b2 ≡ base = omega arith in
    let el : l0 + 2 ^ 16 * l1 ≡ limit = omega arith in
    let P : Gdt → Type 0 = λ u.
      Describes (u.gdt (slot num_cpu i)) base limit access flags
      × ((j : ℕ) → slot num_cpu i ≢ j → u.gdt j ≡ s.gdt j)
      × (u.gindex num_cpu ≡ i + 1) in
    subst P (sym (ap (λ z. if z then s else done) open_table)) (
      subst (λ w. Describes w base limit access flags) (sym (set_entry-same num_cpu i word s ∙ e))
          (subst (λ x. Describes plain x limit access flags) eb
            (subst (λ x. Describes plain (b0 + 2 ^ 16 * b1 + 2 ^ 24 * b2) x access flags) el
              holds)),
      (λ j ne. set_entry-other num_cpu i j word s ne),
      update_self t.gindex num_cpu (u16 (i + 1)) ∙ omega arith,
    )

-- the byte at `shift` of a word that `&` has kept
byte_16 : (a : ℕ) → bit_and a 0xFF0000 >>> 16 ≡ a / 2 ^ 16 % 2 ^ 8
byte_16 a =
    let split : a ≡ a / 2 ^ 16 * 2 ^ 16 + a % 2 ^ 16 = omega arith in
    ap (λ x. bit_and x (255 * 2 ^ 16) / 2 ^ 16) split
    ∙ ap (λ k. k / 2 ^ 16) (bit_and_fields 16 (a / 2 ^ 16) (a % 2 ^ 16) 255 (omega arith))
    ∙ ap (λ k. k * 2 ^ 16 / 2 ^ 16) (bit_and_mask 8 (a / 2 ^ 16))
    ∙ omega arith

byte_24 : (a : ℕ) → bit_and a 0xFF000000 >>> 24 ≡ a / 2 ^ 24 % 2 ^ 8
byte_24 a =
    let split : a ≡ a / 2 ^ 24 * 2 ^ 24 + a % 2 ^ 24 = omega arith in
    ap (λ x. bit_and x (255 * 2 ^ 24) / 2 ^ 24) split
    ∙ ap (λ k. k / 2 ^ 24) (bit_and_fields 24 (a / 2 ^ 24) (a % 2 ^ 24) 255 (omega arith))
    ∙ ap (λ k. k * 2 ^ 24 / 2 ^ 24) (bit_and_mask 8 (a / 2 ^ 24))
    ∙ omega arith

-- `gdtInstallTSS`, with room for two entries: it returns the selector of the entry, whose base with the
-- word behind it above makes up the address of the TSS, whose limit is 0x70 and whose access byte
-- is that of a 64-bit TSS.
pub gdt_install_tss_lem :
    (tss num_cpu : ℕ) (s : Gdt)
    → s.gindex num_cpu + 1 < gdt_max_descriptors
    → tss < 2 ^ 64
    → ((gdt_install_tss tss num_cpu s).0 ≡ 8 * s.gindex num_cpu)
      × (base_of ((gdt_install_tss tss num_cpu s).1.gdt (slot num_cpu (s.gindex num_cpu)))
            + 2 ^ 32 * (gdt_install_tss tss num_cpu s).1.gdt (slot num_cpu (s.gindex num_cpu + 1))
          ≡ tss)
      × (limit_of ((gdt_install_tss tss num_cpu s).1.gdt (slot num_cpu (s.gindex num_cpu))) ≡ 0x70)
      × (access_of ((gdt_install_tss tss num_cpu s).1.gdt (slot num_cpu (s.gindex num_cpu))) ≡ 0x89)
unfolding gdt_install_tss pack set_entry
gdt_install_tss_lem tss num_cpu s room word =
    let i = s.gindex num_cpu in
    let a = slot num_cpu i in
    let c = slot num_cpu (i + 1) in
    let b1 = bit_and tss 0xFF0000 >>> 16 in
    let b2 = bit_and tss 0xFF000000 >>> 24 in
    let low =
      pack (bit_and 0x70 0xFFFF) (bit_and tss 0xFFFF) b1 0x89 (bit_and 0x70 0xF0000 >>> 16) b2 in
    let high = u32 (tss >>> 32) in
    let e0 : bit_and tss 0xFFFF ≡ tss % 2 ^ 16 = bit_and_mask 16 tss in
    let e1 : b1 ≡ tss / 2 ^ 16 % 2 ^ 8 = byte_16 tss in
    let e2 : b2 ≡ tss / 2 ^ 24 % 2 ^ 8 = byte_24 tss in
    let one = update s.gdt a low in
    let two = update one c high in
    let at_c : two c ≡ high = update_self one c high in
    let at_a : two a ≡ low = update_ne one c a high (λ k. omega arith) ∙ update_self s.gdt a low in
    let low' =
      pack 0x70 (tss % 2 ^ 16) (tss / 2 ^ 16 % 2 ^ 8) 0x89 (0 * 2 ^ 4 + 0) (tss / 2 ^ 24 % 2 ^ 8) in
    let e : low ≡ low' =
      ap (λ x. pack 0x70 x b1 0x89 0 b2) e0
      ∙ ap (λ x. pack 0x70 (tss % 2 ^ 16) x 0x89 0 b2) e1
      ∙ ap (λ x. pack 0x70 (tss % 2 ^ 16) (tss / 2 ^ 16 % 2 ^ 8) 0x89 0 x) e2 in
    let (base, limit, access, flags) =
      pack-Describes 0x70 (tss % 2 ^ 16) (tss / 2 ^ 16 % 2 ^ 8) 0x89 0 0 (tss / 2 ^ 24 % 2 ^ 8)
        (omega arith) (omega arith) (omega arith) (omega arith) (omega arith) (omega arith)
        (omega arith) in
    let next = u16 (i + 2) in
    let done : ℕ × Gdt = (
      u16 ((next - 2) * 8),
      record s {
        gdt = two;
        gindex = update s.gindex num_cpu next;
        cpu_gdt = update s.cpu_gdt num_cpu num_cpu;
      },
    ) in
    let open_table : leb gdt_max_descriptors i ≡ false = ground arith in
    let P : ℕ × Gdt → Type 0 = λ r.
      (r.0 ≡ 8 * i)
      × (base_of (r.1.gdt a) + 2 ^ 32 * r.1.gdt c ≡ tss)
      × (limit_of (r.1.gdt a) ≡ 0x70)
      × (access_of (r.1.gdt a) ≡ 0x89) in
    subst P (sym (ap (λ z. if z then (0, s) else done) open_table)) (
      omega arith,
      ap (λ w. base_of w + 2 ^ 32 * two c) (at_a ∙ e)
          ∙ ap (λ w. base_of low' + 2 ^ 32 * w) at_c
          ∙ omega (arith, base),
      ap limit_of (at_a ∙ e) ∙ limit,
      ap access_of (at_a ∙ e) ∙ access,
    )

-- `idtSetDescriptor`: the three parts of the address of the handler in the vector's entry make up the
-- address, and the entries of other vectors are kept.
pub idt_set_descriptor_lem :
    (vector isr flags ist other : ℕ) (idt : ℕ → IdtDescriptor)
    → isr < 2 ^ 64
    → vector ≢ other
    → ((idt_set_descriptor vector isr flags ist idt vector).base_low
          + 2 ^ 16 * (idt_set_descriptor vector isr flags ist idt vector).base_mid
          + 2 ^ 32 * (idt_set_descriptor vector isr flags ist idt vector).base_high
        ≡ isr)
      × (idt_set_descriptor vector isr flags ist idt other ≡ idt other)
unfolding idt_set_descriptor
idt_set_descriptor_lem vector isr flags ist other idt word ne =
    let d : IdtDescriptor = record {
      base_low = bit_and isr 0xFFFF;
      cs = 5 * 8;
      ist = ist;
      attributes = flags;
      base_mid = bit_and (isr >>> 16) 0xFFFF;
      base_high = bit_and (isr >>> 32) 0xFFFFFFFF;
      rsv0 = 0;
    } in
    let e0 = bit_and_mask 16 isr in
    let e1 = bit_and_mask 16 (isr >>> 16) in
    let e2 = bit_and_mask 32 (isr >>> 32) in
    let sum : d.base_low + 2 ^ 16 * d.base_mid + 2 ^ 32 * d.base_high ≡ isr =
      omega (arith, e0, e1, e2) in
    (
      subst (λ (r : IdtDescriptor). r.base_low + 2 ^ 16 * r.base_mid + 2 ^ 32 * r.base_high ≡ isr)
          (sym (update_self idt vector d)) sum,
      update_ne idt vector other d ne,
    )
