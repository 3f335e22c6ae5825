-- ===== src/Paging/Unmap/Cleared.antt =====
-- What `pagingRemoveEntry` of kernel/mm/paging/paging.c does to the words of the tables.
use angl_os.Base.{
  ℕ, zero, suc, ◌+◌, ◌≤◌, ◌<◌, ◌≡◌, ◌≢◌, ◌⊎◌, refl, ap, ◌∙◌, sym, inl, inr, Bool, true, false, not,
  ◌||◌, leb, ◌==◌, if◌then◌else◌, u64, bit_and, Bool-cases, arith, ==_iff, if_keeps, update_self,
  update_ne, for_up,
}
use angl_os.Pmm.Alloc.{pfree}
use angl_os.Paging.{
  Paging, address_mask, page_direct_base, slot, write, table_of, paging_free_table,
}
use mathlib.Core.Path.{subst}
use native.Mathlib.Decide.{ℕ_discrete}
use angl_os.Paging.Unmap.{paging_remove_entry, is_empty_from, table_is_empty}

-- No entry of a table is there.
abbrev pub NoEntry : ℕ → Paging → Type 0
NoEntry table s = (k : ℕ) → k < 512 → s.words (slot table k) ≡ 0

is_empty_from-zero :
    (left i table : ℕ) (s : Paging)
    → is_empty_from left i table s ≡ true
    → (k : ℕ) → i ≤ k
    → k < i + left
    → s.words (slot table k) ≡ 0
unfolding is_empty_from
is_empty_from-zero zero i table s e k lo hi = absurd (omega arith)
is_empty_from-zero (suc left) i table s e k lo hi =
    elim (Bool-cases (s.words (slot table i) == 0)) [
      | inr some_entry ↦ ground arith
      | inl nothing ↦ elim (ℕ_discrete i k) [
        | yes here ↦ rw (← here) (ground arith)
        | no later ↦
            is_empty_from-zero left (i + 1) table s (ground arith) k (omega arith) (omega arith)
      ]
    ]

pub table_is_empty-NoEntry :
    (table : ℕ) (s : Paging) → table_is_empty table s ≡ true → NoEntry table s
unfolding table_is_empty
table_is_empty-NoEntry table s e k hk =
    is_empty_from-zero 512 0 table s e k (omega arith) (omega arith)

-- `t` is `s` but for the word at `a`, which may be cleared.
pub record AtMost (a : ℕ) (s t : Paging) : Type 0 where
  pub others : (b : ℕ) → b ≢ a → t.words b ≡ s.words b
  pub here : (t.words a ≡ s.words a) ⊎ (t.words a ≡ 0)

pub AtMost-refl : (a : ℕ) (s : Paging) → AtMost a s s
AtMost-refl a s = record { others = λ b ne. refl; here = inl refl }

cleared-AtMost : (a : ℕ) (s t : Paging) → t.words ≡ s.words → AtMost a s (write a 0 t)
unfolding write
cleared-AtMost a s t e = record {
  others = λ b ne. update_ne t.words a b 0 (λ h. ne (sym h)) ∙ ap (λ f. f b) e;
  here = inr (update_self t.words a 0);
}

-- A word that is clear stays clear.
pub AtMost-NoEntry :
    {a : ℕ} {s t : Paging} (table : ℕ) → AtMost a s t → NoEntry table s → NoEntry table t
AtMost-NoEntry {a} {s} {t} table m h k hk = elim (ℕ_discrete (slot table k) a) [
  | yes e ↦ elim m.here [
    | inl same ↦ ap t.words e ∙ same ∙ ap s.words (sym e) ∙ h k hk
    | inr clear ↦ ap t.words e ∙ clear
  ]
  | no ne ↦ m.others (slot table k) ne ∙ h k hk
]

-- The entry of a page.
pub remove_page-AtMost :
    (table k : ℕ) (do_pfree : Bool) (s : Paging)
    → AtMost (slot table k) s (paging_remove_entry 0 table k do_pfree s)
unfolding paging_remove_entry
remove_page-AtMost table k do_pfree s =
    let a = slot table k in
    let page = bit_and (s.words a) address_mask in
    let freed : Paging = if do_pfree then record s { pmm = pfree page 1 s.pmm } else s in
    let words : freed.words ≡ s.words =
      if_keeps (λ (t : Paging). t.words ≡ s.words) do_pfree
        {x = record s { pmm = pfree page 1 s.pmm }} {y = s} refl refl in
    if_keeps (AtMost a s) (not (bit_and (s.words a) 1 == 1) || leb s.pmm.mem_size page)
      (AtMost-refl a s) (cleared-AtMost a s freed words)

-- The entry at `a` is present, and points to a page of the memory.
pub record Present (a : ℕ) (s : Paging) : Type 0 where
  pub bit : bit_and (s.words a) 1 ≡ 1
  pub inside : bit_and (s.words a) address_mask < s.pmm.mem_size

pub remove_page-Present :
    (table k : ℕ) (do_pfree : Bool) (s : Paging)
    → Present (slot table k) s
    → (paging_remove_entry 0 table k do_pfree s).words (slot table k) ≡ 0
unfolding paging_remove_entry write
remove_page-Present table k do_pfree s p =
    let a = slot table k in
    let page = bit_and (s.words a) address_mask in
    let bit : (bit_and (s.words a) 1 == 1) ≡ true = (==_iff _ 1).1 p.bit in
    let inside : leb s.pmm.mem_size page ≡ false = ground (arith, p.inside) in
    let freed : Paging = if do_pfree then record s { pmm = pfree page 1 s.pmm } else s in
    rw (bit, inside) (update_self freed.words a 0)

-- An entry that is not there.
remove_nothing :
    (depth table k : ℕ) (do_pfree : Bool) (s : Paging)
    → s.words (slot table k) ≡ 0
    → paging_remove_entry depth table k do_pfree s ≡ s
unfolding paging_remove_entry
remove_nothing zero table k do_pfree s e = rw e refl
remove_nothing (suc depth) table k do_pfree s e = rw e refl

-- The loop of `pagingRemoveEntry` over a table without an entry.
remove_all_nothing :
    (n i depth table : ℕ) (do_pfree : Bool) (s : Paging)
    → i + n ≤ 512
    → NoEntry table s
    → for_up (λ k t. paging_remove_entry depth table k do_pfree t) n i s ≡ s
remove_all_nothing zero i depth table do_pfree s le h = refl
remove_all_nothing (suc n) i depth table do_pfree s le h =
    ap (λ t. for_up (λ k u. paging_remove_entry depth table k do_pfree u) n (i + 1) t)
      (remove_nothing depth table i do_pfree s (h i (omega arith)))
    ∙ remove_all_nothing n (i + 1) depth table do_pfree s (omega arith) h

-- The entry of a table that has no entry itself.
pub remove_table-AtMost :
    (depth table k next : ℕ) (do_pfree : Bool) (s : Paging)
    → table_of (s.words (slot table k)) ≡ next
    → NoEntry next s
    → AtMost (slot table k) s (paging_remove_entry (suc depth) table k do_pfree s)
unfolding paging_remove_entry table_of paging_free_table
remove_table-AtMost depth table k next do_pfree s e h =
    let a = slot table k in
    let entry_pptr = bit_and (s.words a) address_mask in
    let emptied =
      for_up (λ i t. paging_remove_entry depth (u64 (entry_pptr + page_direct_base)) i do_pfree t)
        512 0 s in
    let same : emptied ≡ s =
      remove_all_nothing 512 0 depth (u64 (entry_pptr + page_direct_base)) do_pfree s (omega arith)
        (subst (λ t. NoEntry t s) (sym e) h) in
    if_keeps (AtMost a s) (not (bit_and (s.words a) 1 == 1) || leb s.pmm.mem_size entry_pptr)
      (AtMost-refl a s)
      (cleared-AtMost a s (record emptied { pmm = pfree entry_pptr 1 emptied.pmm })
        (ap (λ t. t.words) same))
