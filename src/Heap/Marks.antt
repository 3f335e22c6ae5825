-- ===== src/Heap/Marks.antt =====
-- The tags that `set_header_and_footer` of kernel/mm/heap/heap.c writes.
use angl_os.Base.{
  ℕ, ◌+◌, ◌-◌, ◌*◌, ◌^◌, ◌≤◌, ◌<◌, ◌≡◌, ◌≢◌, ◌⊎◌, refl, ap, ◌∙◌, sym, Bool, true, false, [], ◌∷◌,
  arith, update_self, update_ne, update, u64, sub64,
}
use angl_os.KernelLists.{ListOps}
use angl_os.Heap.{
  Tag, Heap, size_field, set_tag, get_footer, set_header_and_footer, mark_block_used,
  mark_block_free,
}
use angl_os.Heap.Segments.{Seg}
use angl_os.Heap.FreeLists.{Lists}
use mathlib.Core.Path.{subst}

-- Block `b` lies at `a` in the tags `u`, which are those of `t` outside it.
pub record Marked (t u : ℕ → Tag) (a : ℕ) (b : Tag) : Type 0 where
  pub head : u a ≡ b
  pub foot : u (a + 8 * b.size - 8) ≡ b
  pub same : (x : ℕ) → (x < a) ⊎ (a + 8 * b.size ≤ x) → u x ≡ t x
  pub inner : (x : ℕ) → a ≢ x → a + 8 * b.size - 8 ≢ x → u x ≡ t x

pub Marked-Seg : (t u : ℕ → Tag) (a : ℕ) (b : Tag) → Marked t u a b → 8 ≤ b.size → Seg u a (b ∷ [])
Marked-Seg t u a b h large = (h.head, h.foot, large, tt)

size_field_small : (n : ℕ) → n < 2 ^ 31 → size_field n ≡ n
unfolding size_field
size_field_small n h = ground arith

-- A header and the same tag at the end of its block.
Marked-updates :
    (t : ℕ → Tag) (a c : ℕ) (b : Tag)
    → 8 ≤ b.size
    → c ≡ a + 8 * b.size - 8
    → Marked t (update (update t a b) c b) a b
Marked-updates t a c b large e = record {
  head = update_ne (update t a b) c a b (λ k. ground arith) ∙ update_self t a b;
  foot = ap (update (update t a b) c b) (sym e) ∙ update_self (update t a b) c b;
  same = λ x out.
      update_ne (update t a b) c x b (λ k. ground arith) ∙ update_ne t a x b (λ k. ground arith);
  inner = λ x head foot.
      update_ne (update t a b) c x b (λ k. foot (sym e ∙ k)) ∙ update_ne t a x b head;
}

module _ (ops : ListOps) where
  pub set_header_and_footer_lem :
      (a n : ℕ) (inuse : Bool) (s : Heap ops)
      → 8 ≤ n
      → n < 2 ^ 31
      → a + 8 * n < 2 ^ 64
      → Marked s.tags
          (set_header_and_footer ops a n inuse s).tags
          a
          (record { size = n; inuse = inuse })
  unfolding set_header_and_footer set_tag get_footer
  set_header_and_footer_lem a n inuse s large small word =
      let b : Tag = record { size = n; inuse = inuse } in
      let b' : Tag = record { size = size_field n; inuse = inuse } in
      let u = update s.tags a b' in
      let head : u a ≡ b' = update_self s.tags a b' in
      let eq : b' ≡ b = ap (λ k. record { size = k; inuse = inuse }) (size_field_small n small) in
      let at_end : sub64 (u64 (a + 8 * (u a).size)) 8 ≡ a + 8 * n - 8 =
        ap (λ g. sub64 (u64 (a + 8 * g.size)) 8) (head ∙ eq) ∙ omega arith in
      rw head (
        subst
          (λ g. Marked s.tags (update (update s.tags a g) (sub64 (u64 (a + 8 * g.size)) 8) g) a b)
          (sym eq) (Marked-updates s.tags a (sub64 (u64 (a + 8 * n)) 8) b large (omega arith)))

  pub mark_block_used_lem :
      (a n : ℕ) (s : Heap ops)
      → 8 ≤ n
      → n < 2 ^ 31
      → a + 8 * n < 2 ^ 64
      → Marked s.tags (mark_block_used ops a n s).tags a (record { size = n; inuse = true })
  unfolding mark_block_used
  mark_block_used_lem a n s large small word = set_header_and_footer_lem a n true s large small word

  pub mark_block_free_lem :
      (a n : ℕ) (s : Heap ops)
      → 8 ≤ n
      → n < 2 ^ 31
      → a + 8 * n < 2 ^ 64
      → Marked s.tags (mark_block_free ops a n s).tags a (record { size = n; inuse = false })
  unfolding mark_block_free
  mark_block_free_lem a n s large small word =
      set_header_and_footer_lem a n false s large small word

  -- Neither changes the lists or where the heap lies.
  pub mark_block_used-frame :
      (P : ℕ → ℕ → Type 0) (a n : ℕ) (s : Heap ops)
      → Lists ops P s
      → Lists ops P (mark_block_used ops a n s) × ((mark_block_used ops a n s).memory ≡ s.memory)
  unfolding mark_block_used set_header_and_footer set_tag
  mark_block_used-frame P a n s h = (h, refl)

  pub mark_block_free-frame :
      (P : ℕ → ℕ → Type 0) (a n : ℕ) (s : Heap ops)
      → Lists ops P s
      → Lists ops P (mark_block_free ops a n s) × ((mark_block_free ops a n s).memory ≡ s.memory)
  unfolding mark_block_free set_header_and_footer set_tag
  mark_block_free-frame P a n s h = (h, refl)
