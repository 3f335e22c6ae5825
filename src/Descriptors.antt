-- ===== src/Descriptors.antt =====
-- The descriptor tables of a processor: kernel/boot/gdt/gdt.c, kernel/boot/tss/tss.c over the model of pmalloc, and
-- kernel/boot/interrupts/idt.c. An entry of the GDT is a word of 64 bits; a descriptor of the IDT a record.
pub mod Packing
pub mod Init
mod Tests
use angl_os.Base.{
  ℕ, zero, suc, ◌+◌, ◌-◌, ◌*◌, ◌/◌, ◌%◌, ◌^◌, Bool, true, false, Option, none, some, bit_and,
  bit_or, leb, ◌==◌, if◌then◌else◌, u8, u16, u32, u64, ◌>>>◌, ◌<<<◌, ◌>>=◌, update,
}
use angl_os.Pmm.{Pmm, page_size}
use angl_os.Pmm.Alloc.{pmalloc}

abbrev pub gdt_max_descriptors : ℕ
gdt_max_descriptors = 0x20

-- The tables of the processors one behind the other, `cpus[i].gdt`, the processor whose table `gdtr` holds,
-- and the lock.
pub record Gdt : Type 0 where
  pub gdt : ℕ → ℕ
  pub gindex : ℕ → ℕ
  pub cpu_gdt : ℕ → ℕ
  pub gdtr_limit : ℕ
  pub gdtr_base : ℕ
  pub lock : Bool

-- `gdt_desc_t`, from the lowest byte on
pub pack : (limit base_low base_mid flags granularity base_high : ℕ) → ℕ
pack limit base_low base_mid flags granularity base_high =
    limit
    + 2 ^ 16 * base_low
    + 2 ^ 32 * base_mid
    + 2 ^ 40 * flags
    + 2 ^ 48 * granularity
    + 2 ^ 56 * base_high

-- where `gdt[num_cpu][index]` lies
abbrev pub slot : ℕ → ℕ → ℕ
slot num_cpu index = num_cpu * gdt_max_descriptors + index

-- `gdt[num_cpu][index] = word`
pub set_entry : ℕ → ℕ → ℕ → Gdt → Gdt
set_entry num_cpu index word s = record s { gdt = update s.gdt (slot num_cpu index) word }

-- `gdtAddDescriptor`
pub gdt_add_descriptor : (num_cpu base limit access granularity : ℕ) → Gdt → Gdt
gdt_add_descriptor num_cpu base limit access granularity s =
    let i = s.gindex num_cpu in
    let word =
      pack (bit_and limit 0xFFFF) (bit_and base 0xFFFF) (bit_and (base >>> 16) 0xFF) access
        (bit_or granularity (bit_and (limit >>> 16) 0xF)) (bit_and (base >>> 24) 0xFF) in
    let t = set_entry num_cpu i word s in
    if leb gdt_max_descriptors i
    then s
    else record t { gindex = update t.gindex num_cpu (u16 (i + 1)) }

-- `GDT_BASIC_DESCRIPTOR`
abbrev pub gdt_basic_descriptor : ℕ
gdt_basic_descriptor = bit_or (bit_or 0x80 0x02) 0x10

-- `initGDT`; `none` is a lock that is held
pub init_gdt : ℕ → Gdt → Option Gdt
init_gdt num_cpu s =
    let code = bit_or gdt_basic_descriptor 0x08 in
    let t0 = record s { gdtr_limit = 8 * gdt_max_descriptors - 1; gdtr_base = num_cpu } in
    let t1 = gdt_add_descriptor num_cpu 0 0 0 0 t0 in
    let t2 = gdt_add_descriptor num_cpu 0 0xFFFF code 0 t1 in
    let t3 = gdt_add_descriptor num_cpu 0 0xFFFF gdt_basic_descriptor 0 t2 in
    let t4 = gdt_add_descriptor num_cpu 0 0xFFFFF code (bit_or 0x80 0x40) t3 in
    let t5 = gdt_add_descriptor num_cpu 0 0xFFFFF gdt_basic_descriptor (bit_or 0x80 0x40) t4 in
    let t6 = gdt_add_descriptor num_cpu 0 0 code 0x20 t5 in
    let t7 = gdt_add_descriptor num_cpu 0 0 gdt_basic_descriptor 0 t6 in
    let t8 = gdt_add_descriptor num_cpu 0 0 (bit_or gdt_basic_descriptor 0x60) 0 t7 in
    let t9 =
      gdt_add_descriptor num_cpu 0 0 (bit_or (bit_or gdt_basic_descriptor 0x60) 0x08) 0x20 t8 in
    if s.lock then none else some t9

-- `gdtInstallTSS`: the descriptor of the TSS takes two entries
pub gdt_install_tss : ℕ → ℕ → Gdt → ℕ × Gdt
gdt_install_tss tss num_cpu s =
    let i = s.gindex num_cpu in
    let tss_type = bit_or (bit_or 0x01 0x08) 0x80 in
    let low =
      pack (bit_and 0x70 0xFFFF) (bit_and tss 0xFFFF) (bit_and tss 0xFF0000 >>> 16) tss_type
        (bit_and 0x70 0xF0000 >>> 16) (bit_and tss 0xFF000000 >>> 24) in
    let t = set_entry num_cpu (i + 1) (u32 (tss >>> 32)) (set_entry num_cpu i low s) in
    let next = u16 (i + 2) in
    if leb gdt_max_descriptors i then (0, s) else (
      u16 ((next - 2) * 8),
      record t {
        gindex = update t.gindex num_cpu next;
        cpu_gdt = update t.cpu_gdt num_cpu num_cpu;
      },
    )

-- `tss_t`, the part that is written
pub record Tss : Type 0 where
  pub rsp : ℕ → ℕ
  pub ist : ℕ → ℕ
  pub io_map : ℕ

-- The task states of the processors, and how many stacks each has.
pub record Tasks : Type 0 where
  pub tss_descriptors : ℕ → Tss
  pub ist_index : ℕ → ℕ
  pub pmm : Pmm

-- `tssAddStack`, with the address of the direct map
pub tss_add_stack : ℕ → ℕ → Tasks → ℕ × Tasks
tss_add_stack direct num_cpu s =
    let i = s.ist_index num_cpu in
    let (page, p) = pmalloc 4 s.pmm in
    let stack = u64 (page + direct) in
    let d = s.tss_descriptors num_cpu in
    let e = record d { ist = update d.ist i (u64 (stack + page_size * 4)) } in
    let t = record s {
      tss_descriptors = update s.tss_descriptors num_cpu e;
      ist_index = update s.ist_index num_cpu (u8 (i + 1));
      pmm = p;
    } in
    if leb 7 i then (1, s) else (u8 (i + 1), t)

-- `idt_desc_t`
pub record IdtDescriptor : Type 0 where
  pub base_low : ℕ
  pub cs : ℕ
  pub ist : ℕ
  pub attributes : ℕ
  pub base_mid : ℕ
  pub base_high : ℕ
  pub rsv0 : ℕ

-- `idtSetDescriptor`
pub idt_set_descriptor : (vector isr flags ist : ℕ) → (ℕ → IdtDescriptor) → ℕ → IdtDescriptor
idt_set_descriptor vector isr flags ist idt = update idt vector (record {
  base_low = bit_and isr 0xFFFF;
  cs = 5 * 8;
  ist = ist;
  attributes = flags;
  base_mid = bit_and (isr >>> 16) 0xFFFF;
  base_high = bit_and (isr >>> 32) 0xFFFFFFFF;
  rsv0 = 0;
})
