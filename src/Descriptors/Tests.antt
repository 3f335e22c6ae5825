-- ===== src/Descriptors/Tests.antt =====
-- Empty tables, and a descriptor of each kind.
use angl_os.Base.{◌+◌, ◌*◌, ◌^◌, ◌≡◌, refl, false, some, arith}
use angl_os.Descriptors.{Gdt, slot, gdt_install_tss, init_gdt}
use angl_os.Descriptors.Packing.{Describes, base_of, limit_of, access_of, gdt_install_tss_lem}
use angl_os.Descriptors.Init.{init_gdt_lem}

abbrev no_entries : Gdt
no_entries = record {
  gdt = λ a. 0;
  gindex = λ c. 0;
  cpu_gdt = λ c. 0;
  gdtr_limit = 0;
  gdtr_base = 0;
  lock = false;
}

init_gdt_lem_example :
    (t : Gdt) × (init_gdt 2 no_entries ≡ some t)
    × Describes (t.gdt (slot 2 5)) 0 0 0x9A 2
    × Describes (t.gdt (slot 2 6)) 0 0 0x92 0
    × Describes (t.gdt (slot 2 7)) 0 0 0xF2 0
    × Describes (t.gdt (slot 2 8)) 0 0 0xFA 2
    × (t.gindex 2 ≡ 9)
init_gdt_lem_example = init_gdt_lem 2 no_entries refl refl

gdt_install_tss_lem_example :
    ((gdt_install_tss 0xFFFF800012345678 0 no_entries).0 ≡ 8 * no_entries.gindex 0)
    × (base_of
            ((gdt_install_tss 0xFFFF800012345678 0 no_entries).1.gdt (slot 0 (no_entries.gindex 0)))
          + 2 ^ 32
            * (gdt_install_tss 0xFFFF800012345678 0 no_entries).1.gdt
                (slot 0 (no_entries.gindex 0 + 1))
        ≡ 0xFFFF800012345678)
    × (limit_of
          ((gdt_install_tss 0xFFFF800012345678 0 no_entries).1.gdt (slot 0 (no_entries.gindex 0)))
        ≡ 0x70)
    × (access_of
          ((gdt_install_tss 0xFFFF800012345678 0 no_entries).1.gdt (slot 0 (no_entries.gindex 0)))
        ≡ 0x89)
gdt_install_tss_lem_example =
    gdt_install_tss_lem 0xFFFF800012345678 0 no_entries (omega arith) (omega arith)
