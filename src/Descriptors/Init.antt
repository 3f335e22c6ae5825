-- ===== src/Descriptors/Init.antt =====
-- `initGDT` of kernel/boot/gdt/gdt.c and the selectors of gdt.h.
use angl_os.Base.{
  ℕ, ◌+◌, ◌-◌, ◌*◌, ◌^◌, ◌<◌, ◌≡◌, ap, ◌∙◌, sym, false, none, some, arith, if◌then◌else◌,
}
use angl_os.Descriptors.{Gdt, gdt_max_descriptors, slot, gdt_add_descriptor, init_gdt}
use angl_os.Descriptors.Packing.{Describes, gdt_add_descriptor_lem}
use mathlib.Core.Path.{subst}

-- The table `t` is `s` with one more entry, at `k`.
record Added (num_cpu k base limit access flags : ℕ) (s t : Gdt) : Type 0 where
  entry : Describes (t.gdt (slot num_cpu k)) base limit access flags
  kept : (j : ℕ) → j < k → t.gdt (slot num_cpu j) ≡ s.gdt (slot num_cpu j)
  index : t.gindex num_cpu ≡ k + 1

add :
    (num_cpu k base limit access flags : ℕ) (s : Gdt)
    → s.gindex num_cpu ≡ k
    → k < gdt_max_descriptors
    → base < 2 ^ 32
    → limit < 2 ^ 20
    → access < 2 ^ 8
    → flags < 2 ^ 4
    → Added num_cpu k base limit access flags s
        (gdt_add_descriptor num_cpu base limit access (flags * 2 ^ 4) s)
add num_cpu k base limit access flags s e room hb hl ha hf =
    let t = gdt_add_descriptor num_cpu base limit access (flags * 2 ^ 4) s in
    let (entry, other, index) =
      gdt_add_descriptor_lem num_cpu base limit access flags s (omega arith) hb hl ha hf in
    record {
      entry = subst (λ i. Describes (t.gdt (slot num_cpu i)) base limit access flags) e entry;
      kept = λ j lt. other (slot num_cpu j) (λ same. omega arith);
      index = index ∙ omega arith;
    }

-- An entry that later ones leave as it is.
stays :
    (num_cpu k base limit access flags j b l a g : ℕ) (s t : Gdt)
    → Added num_cpu k base limit access flags s t
    → j < k
    → Describes (s.gdt (slot num_cpu j)) b l a g
    → Describes (t.gdt (slot num_cpu j)) b l a g
stays num_cpu k base limit access flags j b l a g s t added lt h =
    subst (λ w. Describes w b l a g) (sym (added.kept j lt)) h

-- `initGDT` of a processor whose table is empty, where the lock is free: the four selectors of gdt.h for the
-- kernel's and the user's 64-bit segments (5 to 8, times 8) name descriptors of a present code or
-- data segment with the kernel's or the user's privilege, the code segments are 64-bit ones, and
-- the table has nine entries.
pub init_gdt_lem :
    (num_cpu : ℕ) (s : Gdt)
    → s.gindex num_cpu ≡ 0
    → s.lock ≡ false
    → (t : Gdt) × (init_gdt num_cpu s ≡ some t)
      × Describes (t.gdt (slot num_cpu 5)) 0 0 0x9A 2
      × Describes (t.gdt (slot num_cpu 6)) 0 0 0x92 0
      × Describes (t.gdt (slot num_cpu 7)) 0 0 0xF2 0
      × Describes (t.gdt (slot num_cpu 8)) 0 0 0xFA 2
      × (t.gindex num_cpu ≡ 9)
unfolding init_gdt
init_gdt_lem num_cpu s empty unlocked =
    let t0 = record s { gdtr_limit = 8 * gdt_max_descriptors - 1; gdtr_base = num_cpu } in
    let t1 = gdt_add_descriptor num_cpu 0 0 0 0 t0 in
    let t2 = gdt_add_descriptor num_cpu 0 0xFFFF 0x9A 0 t1 in
    let t3 = gdt_add_descriptor num_cpu 0 0xFFFF 0x92 0 t2 in
    let t4 = gdt_add_descriptor num_cpu 0 0xFFFFF 0x9A 0xC0 t3 in
    let t5 = gdt_add_descriptor num_cpu 0 0xFFFFF 0x92 0xC0 t4 in
    let t6 = gdt_add_descriptor num_cpu 0 0 0x9A 0x20 t5 in
    let t7 = gdt_add_descriptor num_cpu 0 0 0x92 0 t6 in
    let t8 = gdt_add_descriptor num_cpu 0 0 0xF2 0 t7 in
    let t9 = gdt_add_descriptor num_cpu 0 0 0xFA 0x20 t8 in
    let a1 : Added num_cpu 0 0 0 0 0 t0 t1 =
      add num_cpu 0 0 0 0 0 t0 empty (omega arith) (omega arith) (omega arith) (omega arith)
        (omega arith) in
    let a2 : Added num_cpu 1 0 0xFFFF 0x9A 0 t1 t2 =
      add num_cpu 1 0 0xFFFF 0x9A 0 t1 a1.index (omega arith) (omega arith) (omega arith)
        (omega arith) (omega arith) in
    let a3 : Added num_cpu 2 0 0xFFFF 0x92 0 t2 t3 =
      add num_cpu 2 0 0xFFFF 0x92 0 t2 a2.index (omega arith) (omega arith) (omega arith)
        (omega arith) (omega arith) in
    let a4 : Added num_cpu 3 0 0xFFFFF 0x9A 12 t3 t4 =
      add num_cpu 3 0 0xFFFFF 0x9A 12 t3 a3.index (omega arith) (omega arith) (omega arith)
        (omega arith) (omega arith) in
    let a5 : Added num_cpu 4 0 0xFFFFF 0x92 12 t4 t5 =
      add num_cpu 4 0 0xFFFFF 0x92 12 t4 a4.index (omega arith) (omega arith) (omega arith)
        (omega arith) (omega arith) in
    let a6 : Added num_cpu 5 0 0 0x9A 2 t5 t6 =
      add num_cpu 5 0 0 0x9A 2 t5 a5.index (omega arith) (omega arith) (omega arith) (omega arith)
        (omega arith) in
    let a7 : Added num_cpu 6 0 0 0x92 0 t6 t7 =
      add num_cpu 6 0 0 0x92 0 t6 a6.index (omega arith) (omega arith) (omega arith) (omega arith)
        (omega arith) in
    let a8 : Added num_cpu 7 0 0 0xF2 0 t7 t8 =
      add num_cpu 7 0 0 0xF2 0 t7 a7.index (omega arith) (omega arith) (omega arith) (omega arith)
        (omega arith) in
    let a9 : Added num_cpu 8 0 0 0xFA 2 t8 t9 =
      add num_cpu 8 0 0 0xFA 2 t8 a8.index (omega arith) (omega arith) (omega arith) (omega arith)
        (omega arith) in
    (
      t9,
      ap (λ z. if z then none else some t9) unlocked,
      stays num_cpu 8 0 0 0xFA 2 5 0 0 0x9A 2 t8 t9 a9 (omega arith) (
          stays num_cpu 7 0 0 0xF2 0 5 0 0 0x9A 2 t7 t8 a8 (omega arith)
            (stays num_cpu 6 0 0 0x92 0 5 0 0 0x9A 2 t6 t7 a7 (omega arith) a6.entry)),
      stays num_cpu 8 0 0 0xFA 2 6 0 0 0x92 0 t8 t9 a9 (omega arith)
          (stays num_cpu 7 0 0 0xF2 0 6 0 0 0x92 0 t7 t8 a8 (omega arith) a7.entry),
      stays num_cpu 8 0 0 0xFA 2 7 0 0 0xF2 0 t8 t9 a9 (omega arith) a8.entry,
      a9.entry,
      a9.index,
    )
