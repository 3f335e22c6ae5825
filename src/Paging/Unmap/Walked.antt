-- ===== src/Paging/Unmap/Walked.antt =====
-- What `vfreeHelper` and `vfree` of kernel/mm/paging/paging.c do to the words of the tables on the
-- way to a page.
use angl_os.Base.{
  ℕ, ◌+◌, ◌*◌, ◌^◌, ◌<◌, ◌≡◌, ◌≢◌, ◌⊎◌, refl, ap, ◌∙◌, sym, inl, inr, Bool, true, false, some, u64,
  Bool-cases, arith, ◌==◌,
}
use angl_os.Pmm.{page_size}
use angl_os.Paging.{
  Paging, slot, table_of, page_p1e, page_p2e, page_p3e, page_p4e, lock_paging, unlock_paging,
  paging_flush_tlb, paging_get_cr3, paging_set_cr3,
}
use angl_os.Paging.Map.{descend}
use angl_os.Paging.Map.Found.{Walks, walk-Walks}
use mathlib.Core.Path.{subst}
use angl_os.Paging.Unmap.{paging_remove_entry, table_is_empty, vfree_helper, vfree_loop, vfree}
use angl_os.Paging.Unmap.Cleared.{
  NoEntry, table_is_empty-NoEntry, AtMost, AtMost-NoEntry, Present, remove_page-AtMost,
  remove_page-Present, remove_table-AtMost,
}

-- The four entries on the way to a page are different words.
pub record Distinct (e1 e2 e3 e4 : ℕ) : Type 0 where
  pub ne12 : e1 ≢ e2
  pub ne13 : e1 ≢ e3
  pub ne14 : e1 ≢ e4
  pub ne23 : e2 ≢ e3
  pub ne24 : e2 ≢ e4
  pub ne34 : e3 ≢ e4

descend-table_of :
    (table num next : ℕ) (s : Paging)
    → descend table num s ≡ some next
    → table_of (s.words (slot table num)) ≡ next
unfolding descend
descend-table_of table num next s h = elim (Bool-cases (s.words (slot table num) == 0)) [
  | inl empty ↦ ground arith
  | inr there ↦ ground arith
]

-- `t` is `s` after a page is taken out of the tables. An entry for a table on the way is cleared
-- only if that table has no entry left; every other word is as it was.
pub record Unmapped (e1 e2 e3 e4 p3tp p2tp p1tp : ℕ) (s t : Paging) : Type 0 where
  pub page : Present e1 s → t.words e1 ≡ 0
  pub level2 : (t.words e2 ≡ s.words e2) ⊎ ((t.words e2 ≡ 0) × NoEntry p1tp t)
  pub level3 : (t.words e3 ≡ s.words e3) ⊎ ((t.words e3 ≡ 0) × NoEntry p2tp t)
  pub level4 : (t.words e4 ≡ s.words e4) ⊎ ((t.words e4 ≡ 0) × NoEntry p3tp t)
  pub others : (a : ℕ) → a ≢ e1 → a ≢ e2 → a ≢ e3 → a ≢ e4 → t.words a ≡ s.words a

module _ {e1 e2 e3 e4 p3tp p2tp p1tp : ℕ} {s : Paging} (d : Distinct e1 e2 e3 e4) where
  Unmapped-one :
      {t : Paging}
      → AtMost e1 s t
      → (Present e1 s → t.words e1 ≡ 0)
      → Unmapped e1 e2 e3 e4 p3tp p2tp p1tp s t
  Unmapped-one m gone = record {
    page = gone;
    level2 = inl (m.others e2 (λ e. d.ne12 (sym e)));
    level3 = inl (m.others e3 (λ e. d.ne13 (sym e)));
    level4 = inl (m.others e4 (λ e. d.ne14 (sym e)));
    others = λ a n1 n2 n3 n4. m.others a n1;
  }

  Unmapped-two :
      {t u : Paging}
      → Unmapped e1 e2 e3 e4 p3tp p2tp p1tp s t
      → t.words e2 ≡ s.words e2
      → t.words e3 ≡ s.words e3
      → t.words e4 ≡ s.words e4
      → NoEntry p1tp t
      → AtMost e2 t u
      → Unmapped e1 e2 e3 e4 p3tp p2tp p1tp s u
  Unmapped-two g same2 same3 same4 none m = record {
    page = λ p. m.others e1 d.ne12 ∙ g.page p;
    level2 = elim m.here [
      | inl same ↦ inl (same ∙ same2)
      | inr clear ↦ inr (clear, AtMost-NoEntry p1tp m none)
    ];
    level3 = inl (m.others e3 (λ e. d.ne23 (sym e)) ∙ same3);
    level4 = inl (m.others e4 (λ e. d.ne24 (sym e)) ∙ same4);
    others = λ a n1 n2 n3 n4. m.others a n2 ∙ g.others a n1 n2 n3 n4;
  }

  Unmapped-three :
      {t u : Paging}
      → Unmapped e1 e2 e3 e4 p3tp p2tp p1tp s t
      → t.words e3 ≡ s.words e3
      → t.words e4 ≡ s.words e4
      → NoEntry p2tp t
      → AtMost e3 t u
      → Unmapped e1 e2 e3 e4 p3tp p2tp p1tp s u
  Unmapped-three g same3 same4 none m = record {
    page = λ p. m.others e1 d.ne13 ∙ g.page p;
    level2 = elim g.level2 [
      | inl same ↦ inl (m.others e2 d.ne23 ∙ same)
      | inr (clear, none1) ↦ inr (m.others e2 d.ne23 ∙ clear, AtMost-NoEntry p1tp m none1)
    ];
    level3 = elim m.here [
      | inl same ↦ inl (same ∙ same3)
      | inr clear ↦ inr (clear, AtMost-NoEntry p2tp m none)
    ];
    level4 = inl (m.others e4 (λ e. d.ne34 (sym e)) ∙ same4);
    others = λ a n1 n2 n3 n4. m.others a n3 ∙ g.others a n1 n2 n3 n4;
  }

  Unmapped-four :
      {t u : Paging}
      → Unmapped e1 e2 e3 e4 p3tp p2tp p1tp s t
      → t.words e4 ≡ s.words e4
      → NoEntry p3tp t
      → AtMost e4 t u
      → Unmapped e1 e2 e3 e4 p3tp p2tp p1tp s u
  Unmapped-four g same4 none m = record {
    page = λ p. m.others e1 d.ne14 ∙ g.page p;
    level2 = elim g.level2 [
      | inl same ↦ inl (m.others e2 d.ne24 ∙ same)
      | inr (clear, none1) ↦ inr (m.others e2 d.ne24 ∙ clear, AtMost-NoEntry p1tp m none1)
    ];
    level3 = elim g.level3 [
      | inl same ↦ inl (m.others e3 d.ne34 ∙ same)
      | inr (clear, none2) ↦ inr (m.others e3 d.ne34 ∙ clear, AtMost-NoEntry p2tp m none2)
    ];
    level4 = elim m.here [
      | inl same ↦ inl (same ∙ same4)
      | inr clear ↦ inr (clear, AtMost-NoEntry p3tp m none)
    ];
    others = λ a n1 n2 n3 n4. m.others a n4 ∙ g.others a n1 n2 n3 n4;
  }

vfree_helper-Unmapped :
    (vptr p4tp p3tp p2tp p1tp : ℕ) (do_pfree : Bool) (s : Paging)
    → Walks vptr p4tp p3tp p2tp p1tp s
    → Distinct
        (slot p1tp (page_p1e vptr))
        (slot p2tp (page_p2e vptr))
        (slot p3tp (page_p3e vptr))
        (slot p4tp (page_p4e vptr))
    → Unmapped
        (slot p1tp (page_p1e vptr))
        (slot p2tp (page_p2e vptr))
        (slot p3tp (page_p3e vptr))
        (slot p4tp (page_p4e vptr))
        p3tp
        p2tp
        p1tp
        s
        (vfree_helper vptr p4tp do_pfree s)
unfolding vfree_helper
vfree_helper-Unmapped vptr p4tp p3tp p2tp p1tp do_pfree s w d =
    let e2 = slot p2tp (page_p2e vptr) in
    let e3 = slot p3tp (page_p3e vptr) in
    let e4 = slot p4tp (page_p4e vptr) in
    let s1 = paging_remove_entry 0 p1tp (page_p1e vptr) do_pfree s in
    let s2 = paging_remove_entry 1 p2tp (page_p2e vptr) do_pfree s1 in
    let s3 = paging_remove_entry 2 p3tp (page_p3e vptr) do_pfree s2 in
    let s4 = paging_remove_entry 3 p4tp (page_p4e vptr) do_pfree s3 in
    let m1 = remove_page-AtMost p1tp (page_p1e vptr) do_pfree s in
    let g1 = Unmapped-one d m1 (remove_page-Present p1tp (page_p1e vptr) do_pfree s) in
    let same2 = m1.others e2 (λ e. d.ne12 (sym e)) in
    let same3 = m1.others e3 (λ e. d.ne13 (sym e)) in
    let same4 = m1.others e4 (λ e. d.ne14 (sym e)) in
    rw (vfree_helper, walk-Walks w)
      (elim (Bool-cases (table_is_empty p1tp s1)) [
        | inr used ↦ rw used g1
        | inl empty1 ↦
            let none1 = table_is_empty-NoEntry p1tp s1 empty1 in
            let m2 =
              remove_table-AtMost 0 p2tp (page_p2e vptr) p1tp do_pfree s1
                (ap table_of same2 ∙ descend-table_of p2tp (page_p2e vptr) p1tp s w.to1) none1 in
            let g2 = Unmapped-two d g1 same2 same3 same4 none1 m2 in
            let same3' = m2.others e3 (λ e. d.ne23 (sym e)) ∙ same3 in
            let same4' = m2.others e4 (λ e. d.ne24 (sym e)) ∙ same4 in
            elim (Bool-cases (table_is_empty p2tp s2)) [
              | inr used ↦ rw (empty1, used) g2
              | inl empty2 ↦
                  let none2 = table_is_empty-NoEntry p2tp s2 empty2 in
                  let m3 =
                    remove_table-AtMost 1 p3tp (page_p3e vptr) p2tp do_pfree s2
                      (ap table_of same3' ∙ descend-table_of p3tp (page_p3e vptr) p2tp s w.to2)
                      none2 in
                  let g3 = Unmapped-three d g2 same3' same4' none2 m3 in
                  let same4'' = m3.others e4 (λ e. d.ne34 (sym e)) ∙ same4' in
                  elim (Bool-cases (table_is_empty p3tp s3)) [
                    | inr used ↦ rw (empty1, empty2, used) g3
                    | inl empty3 ↦
                        let none3 = table_is_empty-NoEntry p3tp s3 empty3 in
                        let m4 =
                          remove_table-AtMost 2 p4tp (page_p4e vptr) p3tp do_pfree s3
                            (ap table_of same4''
                              ∙ descend-table_of p4tp (page_p4e vptr) p3tp s w.to3)
                            none3 in
                        rw (empty1, empty2, empty3) (Unmapped-four d g3 same4'' none3 m4)
                  ]
            ]
      ])

-- `vfree` of one page, where the lock is free, the three tables on the way to the page are there and
-- the entries on the way are four different words, returns with the lock free. The page's entry is
-- cleared if it was present, for a page of the memory. The entry for a table on the way is as it
-- was, or it is cleared and that table has no entry left. Every other word is as it was, so that no
-- other page is unmapped.
pub vfree-Unmapped :
    (vptr p3tp p2tp p1tp : ℕ) (do_pfree : Bool) (s : Paging)
    → vptr < 2 ^ 64
    → s.lock ≡ false
    → Walks vptr (paging_get_cr3 s) p3tp p2tp p1tp s
    → Distinct
        (slot p1tp (page_p1e vptr))
        (slot p2tp (page_p2e vptr))
        (slot p3tp (page_p3e vptr))
        (slot (paging_get_cr3 s) (page_p4e vptr))
    → (t : Paging) × (vfree vptr 1 do_pfree s ≡ some t)
      × (t.lock ≡ false)
      × Unmapped
          (slot p1tp (page_p1e vptr))
          (slot p2tp (page_p2e vptr))
          (slot p3tp (page_p3e vptr))
          (slot (paging_get_cr3 s) (page_p4e vptr))
          p3tp
          p2tp
          p1tp
          s
          t
unfolding vfree vfree_loop lock_paging paging_flush_tlb unlock_paging paging_set_cr3 paging_get_cr3
    descend
vfree-Unmapped vptr p3tp p2tp p1tp do_pfree s word free w d =
    let locked : Paging = record s { lock = true } in
    let there : Walks vptr (paging_get_cr3 locked) p3tp p2tp p1tp locked = record {
      to3 = w.to3;
      to2 = w.to2;
      to1 = w.to1;
    } in
    let same : u64 (vptr + 0 * page_size) ≡ vptr = omega arith in
    let t = vfree_helper (u64 (vptr + 0 * page_size)) (paging_get_cr3 locked) do_pfree locked in
    let g =
      subst
        (λ z.
          Unmapped (slot p1tp (page_p1e vptr)) (slot p2tp (page_p2e vptr))
            (slot p3tp (page_p3e vptr)) (slot (paging_get_cr3 s) (page_p4e vptr)) p3tp p2tp p1tp
            locked (vfree_helper z (paging_get_cr3 locked) do_pfree locked))
        (sym same)
        (vfree_helper-Unmapped vptr (paging_get_cr3 locked) p3tp p2tp p1tp do_pfree locked there
          d) in
    (
      paging_flush_tlb (unlock_paging t),
      rw free refl,
      refl,
      record {
        page = λ p. g.page (record { bit = p.bit; inside = p.inside });
        level2 = g.level2;
        level3 = g.level3;
        level4 = g.level4;
        others = g.others;
      },
    )
