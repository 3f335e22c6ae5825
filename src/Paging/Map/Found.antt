-- ===== src/Paging/Map/Found.antt =====
-- What the walk of the processor finds after kernel/mm/paging/paging.c has mapped a page.
use angl_os.Base.{
  ℕ, ◌≡◌, ◌≢◌, refl, inl, inr, ◌∙◌, some, arith, ◌==◌, Bool-cases, bit_and, bit_or, update_self,
  update_ne,
}
use angl_os.Paging.{
  Paging, slot, write, table_of, entry_of, page_p1e, page_p2e, page_p3e, page_p4e, paging_add_entry,
}
use angl_os.Paging.Map.{descend, walk, descend_alloc, walk_alloc, videntity_helper, vflags_helper}

-- The walk from `p4tp` goes through the three upper tables, whose entries are there.
pub record Walks (vptr p4tp p3tp p2tp p1tp : ℕ) (s : Paging) : Type 0 where
  pub to3 : descend p4tp (page_p4e vptr) s ≡ some p3tp
  pub to2 : descend p3tp (page_p3e vptr) s ≡ some p2tp
  pub to1 : descend p2tp (page_p2e vptr) s ≡ some p1tp

pub walk-Walks :
    {vptr p4tp p3tp p2tp p1tp : ℕ} {s : Paging}
    → Walks vptr p4tp p3tp p2tp p1tp s
    → walk vptr p4tp s ≡ some (p3tp, p2tp, p1tp)
unfolding walk
walk-Walks w = rw (w.to3, w.to2, w.to1) refl

descend_alloc-there :
    (flags table num next : ℕ) (s : Paging)
    → descend table num s ≡ some next
    → descend_alloc flags table num s ≡ (next, s)
unfolding descend descend_alloc
descend_alloc-there flags table num next s h = elim (Bool-cases (s.words (slot table num) == 0)) [
  | inl empty ↦ ground arith
  | inr there ↦
      let e : table_of (s.words (slot table num)) ≡ next = ground arith in rw (there, e) refl
]

-- No table is made where all are there.
pub walk_alloc-there :
    {vptr p4tp p3tp p2tp p1tp : ℕ} {s : Paging} (flags : ℕ)
    → Walks vptr p4tp p3tp p2tp p1tp s
    → walk_alloc flags vptr p4tp s ≡ (p1tp, s)
unfolding walk_alloc
walk_alloc-there {vptr} {p4tp} {p3tp} {p2tp} {s = s} flags w =
    rw
      (
        descend_alloc-there flags p4tp (page_p4e vptr) _ s w.to3,
        descend_alloc-there flags p3tp (page_p3e vptr) _ s w.to2,
        descend_alloc-there flags p2tp (page_p2e vptr) _ s w.to1,
      )
      refl

-- The word at `a` is none of the three entries that the walk reads.
pub record OffWalk (vptr p4tp p3tp p2tp a : ℕ) : Type 0 where
  pub off4 : a ≢ slot p4tp (page_p4e vptr)
  pub off3 : a ≢ slot p3tp (page_p3e vptr)
  pub off2 : a ≢ slot p2tp (page_p2e vptr)

descend-write :
    (table num a v : ℕ) (s : Paging)
    → a ≢ slot table num
    → descend table num (write a v s) ≡ descend table num s
unfolding descend write
descend-write table num a v s ne = rw (update_ne s.words a (slot table num) v ne) refl

pub Walks-write :
    {vptr p4tp p3tp p2tp p1tp : ℕ} {s : Paging} (a v : ℕ)
    → OffWalk vptr p4tp p3tp p2tp a
    → Walks vptr p4tp p3tp p2tp p1tp s
    → Walks vptr p4tp p3tp p2tp p1tp (write a v s)
Walks-write {vptr} {p4tp} {p3tp} {p2tp} {s = s} a v off w = record {
  to3 = descend-write p4tp (page_p4e vptr) a v s off.off4 ∙ w.to3;
  to2 = descend-write p3tp (page_p3e vptr) a v s off.off3 ∙ w.to2;
  to1 = descend-write p2tp (page_p2e vptr) a v s off.off2 ∙ w.to1;
}

write-here : (a v : ℕ) (s : Paging) → (write a v s).words a ≡ v
unfolding write
write-here a v s = update_self s.words a v

-- `t` is `s` but for the entry of page `vptr`, which is `v`, and the walk still leads there.
pub record MappedTo (vptr p4tp p3tp p2tp p1tp v : ℕ) (s t : Paging) : Type 0 where
  pub found : walk vptr p4tp t ≡ some (p3tp, p2tp, p1tp)
  pub entry : t.words (slot p1tp (page_p1e vptr)) ≡ v
  pub others : (a : ℕ) → slot p1tp (page_p1e vptr) ≢ a → t.words a ≡ s.words a

write-MappedTo :
    {vptr p4tp p3tp p2tp p1tp : ℕ} {s : Paging} (v : ℕ)
    → Walks vptr p4tp p3tp p2tp p1tp s
    → OffWalk vptr p4tp p3tp p2tp (slot p1tp (page_p1e vptr))
    → MappedTo vptr p4tp p3tp p2tp p1tp v s (write (slot p1tp (page_p1e vptr)) v s)
write-MappedTo {vptr} {p1tp = p1tp} {s} v w off = record {
  found = walk-Walks (Walks-write (slot p1tp (page_p1e vptr)) v off w);
  entry = write-here (slot p1tp (page_p1e vptr)) v s;
  others = λ a ne. unfold write in update_ne s.words _ a v ne;
}

-- `videntityHelper`, where the three upper tables are there and the page's entry lies in none of
-- the entries on the way, makes the walk end at an entry for the given page and flags, and changes
-- no other word.
pub videntity_helper-MappedTo :
    (vptr pptr p4tp p3tp p2tp p1tp flags : ℕ) (s : Paging)
    → Walks vptr p4tp p3tp p2tp p1tp s
    → OffWalk vptr p4tp p3tp p2tp (slot p1tp (page_p1e vptr))
    → MappedTo vptr p4tp p3tp p2tp p1tp
        (entry_of pptr flags)
        s
        (videntity_helper vptr pptr p4tp flags s).1
unfolding videntity_helper paging_add_entry
videntity_helper-MappedTo vptr pptr p4tp p3tp p2tp p1tp flags s w off =
    rw (walk_alloc-there flags w) (write-MappedTo (entry_of pptr flags) w off)

-- `vflagsHelper`, under the same conditions, replaces the flags of the page's entry and changes no other word.
pub vflags_helper-MappedTo :
    (vptr p4tp p3tp p2tp p1tp flags : ℕ) (s : Paging)
    → Walks vptr p4tp p3tp p2tp p1tp s
    → OffWalk vptr p4tp p3tp p2tp (slot p1tp (page_p1e vptr))
    → MappedTo vptr p4tp p3tp p2tp p1tp
        (bit_or (bit_and (s.words (slot p1tp (page_p1e vptr))) 0x8FFFFFFFFFFFFFE0) flags)
        s
        (vflags_helper vptr p4tp flags s)
unfolding vflags_helper
vflags_helper-MappedTo vptr p4tp p3tp p2tp p1tp flags s w off =
    rw (vflags_helper, walk-Walks w)
      (write-MappedTo
        (bit_or (bit_and (s.words (slot p1tp (page_p1e vptr))) 0x8FFFFFFFFFFFFFE0) flags) w off)
