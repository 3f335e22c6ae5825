-- ===== src/Paging/User.antt =====
-- `pagingCreateUser` of kernel/mm/paging/paging.c.
use angl_os.Base.{
  ℕ, zero, suc, ◌+◌, ◌*◌, ◌^◌, ◌≤◌, ◌<◌, ◌≡◌, ◌≢◌, refl, ap, ◌∙◌, arith, u64, for_up, update_ne,
  update_self,
}
use angl_os.Paging.{
  Paging, page_direct_base, paging_alloc_table, copy_entry, paging_create_user, write, slot,
}
use angl_os.Paging.Pool.{paging_alloc_table-bsp_cr3, paging_alloc_table_words}
use native.Mathlib.Decide.{ℕ_discrete}

-- The first rounds have copied the entries from 256 on and changed nothing else.
record Copied (p4tp : ℕ) (s : Paging) (n : ℕ) (t : Paging) : Type 0 where
  base : t.bsp_cr3 ≡ s.bsp_cr3
  copied : (i : ℕ) → 256 ≤ i → i < n → t.words (slot p4tp i) ≡ s.words (slot s.bsp_cr3 i)
  source : (i : ℕ) → i < 512 → t.words (slot s.bsp_cr3 i) ≡ s.words (slot s.bsp_cr3 i)
  low : (i : ℕ) → i < 256 → t.words (slot p4tp i) ≡ s.words (slot p4tp i)

-- Two tables of 512 words apart from each other, below the end of the memory.
pub record Apart (a b : ℕ) : Type 0 where
  pub end_a : a + 4096 ≤ 2 ^ 64
  pub end_b : b + 4096 ≤ 2 ^ 64
  pub apart : (i j : ℕ) → i < 512 → j < 512 → a + 8 * i ≢ b + 8 * j

copy_entry-Copied :
    (p4tp : ℕ) (s : Paging)
    → Apart p4tp s.bsp_cr3
    → (k : ℕ) (t : Paging) → 256 ≤ k
    → k < 512
    → Copied p4tp s k t
    → Copied p4tp s (k + 1) (copy_entry p4tp k t)
unfolding copy_entry write
copy_entry-Copied p4tp s apart k t lo hi h = record {
  base = h.base;
  copied = λ i from below. elim (ℕ_discrete k i) [
    | yes e ↦
        rw (← e) (
          update_self t.words (slot p4tp k) _ ∙ ap (λ b. t.words (slot b k)) h.base ∙ h.source k hi)
    | no ne ↦
        update_ne t.words (slot p4tp k) (slot p4tp i) _ (omega (arith, apart.end_a))
        ∙ h.copied i from (omega arith)
  ];
  source = λ i below.
      update_ne t.words (slot p4tp k) (slot s.bsp_cr3 i) _
        (omega (arith, apart.end_a, apart.end_b, apart.apart k i hi below))
      ∙ h.source i below;
  low = λ i below.
      update_ne t.words (slot p4tp k) (slot p4tp i) _ (omega (arith, apart.end_a)) ∙ h.low i below;
}

loop-Copied :
    (p4tp : ℕ) (s : Paging)
    → Apart p4tp s.bsp_cr3
    → (n k : ℕ) (t : Paging) → 256 ≤ k
    → k + n ≡ 512
    → Copied p4tp s k t
    → Copied p4tp s 512 (for_up (copy_entry p4tp) n k t)
loop-Copied p4tp s apart zero k t lo e h = let e' : k ≡ 512 = omega arith in rw (← e') h
loop-Copied p4tp s apart (suc n) k t lo e h =
    loop-Copied p4tp s apart n (k + 1) (copy_entry p4tp k t) (omega arith) (omega arith)
      (copy_entry-Copied p4tp s apart k t lo (omega arith) h)

create_user-Copied :
    (s : Paging)
    → Apart (paging_create_user s).0 (paging_alloc_table s).1.bsp_cr3
    → Copied (paging_create_user s).0 (paging_alloc_table s).1 512 (paging_create_user s).1
unfolding paging_create_user
create_user-Copied s apart =
    let t = (paging_alloc_table s).1 in
    let p4tp = u64 ((paging_alloc_table s).0 + page_direct_base) in
    loop-Copied p4tp t apart 256 256 t (omega arith) refl (record {
      base = refl;
      copied = λ i from below. absurd (omega arith);
      source = λ i b. refl;
      low = λ i b. refl;
    })

-- The upper half of the table that `pagingCreateUser` returns is that of the kernel's table, if
-- the two tables do not overlap.
pub paging_create_user_upper :
    (s : Paging) (i : ℕ)
    → Apart (paging_create_user s).0 s.bsp_cr3
    → 256 ≤ i
    → i < 512
    → (paging_create_user s).1.words (slot (paging_create_user s).0 i) ≡ s.words (slot s.bsp_cr3 i)
paging_create_user_upper s i apart from below =
    let e = paging_alloc_table-bsp_cr3 s in
    let apart' : Apart (paging_create_user s).0 (paging_alloc_table s).1.bsp_cr3 = rw e apart in
    (create_user-Copied s apart').copied i from below
    ∙ ap (λ b. (paging_alloc_table s).1.words (slot b i)) e
    ∙ paging_alloc_table_words s (slot s.bsp_cr3 i) (
        unfold paging_create_user in
        omega (arith, apart.end_a, apart.end_b, apart.apart 0 i (omega arith) below))

-- The lower half of that table, its first entry aside, is whatever the memory held before.
pub paging_create_user_lower :
    (s : Paging) (i : ℕ)
    → Apart (paging_create_user s).0 s.bsp_cr3
    → 0 < i
    → i < 256
    → (paging_create_user s).1.words (slot (paging_create_user s).0 i)
      ≡ s.words (slot (paging_create_user s).0 i)
paging_create_user_lower s i apart pos below =
    let apart' : Apart (paging_create_user s).0 (paging_alloc_table s).1.bsp_cr3 =
      rw (paging_alloc_table-bsp_cr3 s) apart in
    (create_user-Copied s apart').low i below
    ∙ paging_alloc_table_words s (slot (paging_create_user s).0 i)
        (unfold paging_create_user in omega (arith, apart.end_a))
