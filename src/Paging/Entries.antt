-- ===== src/Paging/Entries.antt =====
-- Entries and addresses of kernel/mm/paging/paging.h as numbers.
use angl_os.Base.{
  ℕ, ◌+◌, ◌-◌, ◌*◌, ◌%◌, ◌^◌, ◌<◌, ◌≡◌, refl, ap, ◌∙◌, bit_and, arith, u64, not64, ◌>>>◌,
}
use angl_os.Base.Bits.Fields.{bit_or_fields, bit_and_fields, bit_and_mask}
use angl_os.Paging.{
  page_p1e, page_p2e, page_p3e, page_p4e, address_mask, page_direct_base, entry_of, table_of,
}

-- the bits from 12 on, masked by ones from 12 on
masked :
    (width q r : ℕ)
    → r < 2 ^ 12
    → bit_and (q * 2 ^ 12 + r) ((2 ^ width - 1) * 2 ^ 12) ≡ (q % 2 ^ width) * 2 ^ 12
masked width q r h =
    bit_and_fields 12 q r (2 ^ width - 1) h ∙ ap (λ t. t * 2 ^ 12) (bit_and_mask width q)

-- An entry is the physical page number above the flags.
pub entry_of-sum :
    (page flags : ℕ)
    → page < 2 ^ 40
    → flags < 2 ^ 12
    → entry_of (page * 2 ^ 12) flags ≡ page * 2 ^ 12 + flags
unfolding entry_of
entry_of-sum page flags hp hf =
    let e : bit_and (page * 2 ^ 12 + 0) ((2 ^ 52 - 1) * 2 ^ 12) ≡ (page % 2 ^ 52) * 2 ^ 12 =
      masked 52 page 0 (omega arith) in
    let e' : bit_and (page * 2 ^ 12) (not64 0xFFF) ≡ page * 2 ^ 12 =
      ap (λ t. bit_and t (not64 0xFFF)) (omega arith) ∙ e ∙ omega arith in
    rw e' (bit_or_fields 12 page flags hf)

-- The address that the walk reads from an entry that `pagingAddEntry` wrote is that of the page
-- that the entry was written for, at the direct mapping, and the flags are those given; for
-- a physical address of 52 bits and flags of 12.
pub table_of-entry_of :
    (page flags : ℕ)
    → page < 2 ^ 40
    → flags < 2 ^ 12
    → (table_of (entry_of (page * 2 ^ 12) flags) ≡ u64 (page * 2 ^ 12 + page_direct_base))
      × (entry_of (page * 2 ^ 12) flags % 2 ^ 12 ≡ flags)
unfolding table_of
table_of-entry_of page flags hp hf =
    let sum = entry_of-sum page flags hp hf in
    let address : bit_and (page * 2 ^ 12 + flags) address_mask ≡ page * 2 ^ 12 =
      masked 40 page flags hf ∙ omega arith in
    (rw (sum, address) refl, omega (arith, sum))

-- The four indices and the offset of a virtual address are its low 48 bits.
pub page_indices :
    (v : ℕ)
    → page_p4e v * 2 ^ 39
        + page_p3e v * 2 ^ 30
        + page_p2e v * 2 ^ 21
        + page_p1e v * 2 ^ 12
        + v % 2 ^ 12
      ≡ v % 2 ^ 48
page_indices v =
    rw
      (
        bit_and_mask 9 (v >>> 39),
        bit_and_mask 9 (v >>> 30),
        bit_and_mask 9 (v >>> 21),
        bit_and_mask 9 (v >>> 12),
      )
      (omega arith)

-- Every index is one of the 512 entries of a table.
pub page_p1e-lt : (v : ℕ) → page_p1e v < 512
page_p1e-lt v = omega (arith, bit_and_mask 9 (v >>> 12))
