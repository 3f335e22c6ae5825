-- ===== src/CString/Copies.antt =====
-- `memcpy`, `memmove`, `memset` and `memcmp` of kernel/libc/string.c against what they promise.
use angl_os.Base.{
  ℕ, zero, suc, ◌+◌, ◌-◌, ◌≤◌, ◌<◌, ◌≡◌, ◌≢◌, ◌⊎◌, ◌↔◌, refl, inl, inr, ap, ◌∙◌, true, false, ◌&&◌,
  arith, ltb, leb, ◌==◌, if◌then◌else◌, u8, update, Bool-cases, ==_iff, ==_ne,
}
use angl_os.CString.{
  Memory, memcpy, memmove, memset, memcmp, copy_up, copy_down, sub32, sign_extend,
}
use native.Mathlib.Decide.{ℕ_discrete}

-- the memory with the `n` bytes from `src` on, as they were, also from `dest` on
abbrev pub moved : ℕ → ℕ → ℕ → Memory → Memory
moved dest src n m a = if leb dest a && ltb a (dest + n) then m (src + (a - dest)) else m a

pub moved_next :
    (dest src n : ℕ) (m : Memory) (a : ℕ)
    → (dest ≤ src) ⊎ (src + suc n ≤ dest)
    → moved (dest + 1) (src + 1) n (update m dest (m src)) a ≡ moved dest src (suc n) m a
moved_next dest src n m a apart = elim (ℕ_discrete dest a) [
  | yes e ↦
      let one : (leb (dest + 1) a && ltb a (dest + 1 + n)) ≡ false = ground arith in
      let two : (leb dest a && ltb a (dest + suc n)) ≡ true = ground arith in
      let here : (dest == a) ≡ true = (==_iff dest a).1 e in
      rw (one, two, here) (ap m (omega arith))
  | no ne ↦ elim (Bool-cases (leb (dest + 1) a && ltb a (dest + 1 + n))) [
    | inl inside ↦
        let two : (leb dest a && ltb a (dest + suc n)) ≡ true = ground arith in
        let off : (dest == src + 1 + (a - (dest + 1))) ≡ false = ==_ne _ _ (ground arith) in
        rw (inside, two, off) (ap m (ground arith))
    | inr outside ↦
        let two : (leb dest a && ltb a (dest + suc n)) ≡ false = ground arith in
        rw (outside, two, ==_ne dest a ne) refl
  ]
]

moved_last :
    (dest src n : ℕ) (m : Memory) (a : ℕ)
    → src < dest
    → moved dest src n (update m (dest + n) (m (src + n))) a ≡ moved dest src (suc n) m a
moved_last dest src n m a before = elim (ℕ_discrete (dest + n) a) [
  | yes e ↦
      let one : (leb dest a && ltb a (dest + n)) ≡ false = ground arith in
      let two : (leb dest a && ltb a (dest + suc n)) ≡ true = ground arith in
      let here : (dest + n == a) ≡ true = (==_iff _ a).1 e in
      rw (one, two, here) (ap m (omega arith))
  | no ne ↦ elim (Bool-cases (leb dest a && ltb a (dest + n))) [
    | inl inside ↦
        let two : (leb dest a && ltb a (dest + suc n)) ≡ true = ground arith in
        let off : (dest + n == src + (a - dest)) ≡ false = ==_ne _ _ (ground arith) in
        rw (inside, two, off) refl
    | inr outside ↦
        let two : (leb dest a && ltb a (dest + suc n)) ≡ false = ground arith in
        rw (outside, two, ==_ne (dest + n) a ne) refl
  ]
]

pub moved_none : (dest src : ℕ) (m : Memory) (a : ℕ) → m a ≡ moved dest src 0 m a
moved_none dest src m a =
    let out : (leb dest a && ltb a (dest + 0)) ≡ false = ground arith in rw out refl

copy_up_lem :
    (dest src n : ℕ) (m : Memory) (a : ℕ)
    → (dest ≤ src) ⊎ (src + n ≤ dest)
    → copy_up dest src n m a ≡ moved dest src n m a
unfolding copy_up
copy_up_lem dest src zero m a apart = moved_none dest src m a
copy_up_lem dest src (suc n) m a apart =
    copy_up_lem (dest + 1) (src + 1) n (update m dest (m src)) a (omega arith)
    ∙ moved_next dest src n m a apart

copy_down_lem :
    (dest src n : ℕ) (m : Memory) (a : ℕ)
    → src < dest
    → copy_down dest src n m a ≡ moved dest src n m a
unfolding copy_down
copy_down_lem dest src zero m a before = moved_none dest src m a
copy_down_lem dest src (suc n) m a before =
    copy_down_lem dest src n (update m (dest + n) (m (src + n))) a before
    ∙ moved_last dest src n m a before

-- `memmove` puts the bytes of the source, as they were, at the destination and changes no other
-- byte, however the two overlap.
pub memmove_lem :
    (dest src n : ℕ) (m : Memory) (a : ℕ) → memmove dest src n m a ≡ moved dest src n m a
unfolding memmove
memmove_lem dest src n m a = elim (Bool-cases (ltb src dest)) [
  | inl before ↦ rw before (copy_down_lem dest src n m a (ground arith))
  | inr behind ↦ rw behind (copy_up_lem dest src n m a (inl (ground arith)))
]

-- `memcpy` puts the bytes of the source at the destination and changes no other byte, if the
-- destination does not begin inside the source behind its start.
pub memcpy_lem :
    (dest src n : ℕ) (m : Memory) (a : ℕ)
    → (dest ≤ src) ⊎ (src + n ≤ dest)
    → memcpy dest src n m a ≡ moved dest src n m a
unfolding memcpy
memcpy_lem dest src n m a apart = copy_up_lem dest src n m a apart

-- `memset` fills the range and changes no other byte.
pub memset_lem :
    (s c n : ℕ) (m : Memory) (a : ℕ)
    → memset s c n m a ≡ (if leb s a && ltb a (s + n) then u8 c else m a)
unfolding memset
memset_lem s c zero m a = let out : (leb s a && ltb a (s + 0)) ≡ false = ground arith in rw out refl
memset_lem s c (suc n) m a = memset_lem (s + 1) c n (update m s (u8 c)) a ∙ elim (ℕ_discrete s a) [
  | yes e ↦
      let one : (leb (s + 1) a && ltb a (s + 1 + n)) ≡ false = ground arith in
      let two : (leb s a && ltb a (s + suc n)) ≡ true = ground arith in
      let here : (s == a) ≡ true = (==_iff s a).1 e in rw (one, two, here) refl
  | no ne ↦
      let same : (leb (s + 1) a && ltb a (s + 1 + n)) ≡ (leb s a && ltb a (s + suc n)) =
        ground arith in
      rw (same, ==_ne s a ne) refl
]

differ : (x y : ℕ) → x < 256 → y < 256 → x ≢ y → sub32 (sign_extend x) (sign_extend y) ≢ 0
unfolding sign_extend
differ x y hx hy ne = ground arith

-- `memcmp` of two ranges of bytes is 0 exactly if they hold the same bytes.
pub memcmp-zero :
    (s1 s2 n : ℕ) (m : Memory)
    → ((a : ℕ) → m a < 256)
    → (memcmp s1 s2 n m ≡ 0) ↔ ((i : ℕ) → i < n → m (s1 + i) ≡ m (s2 + i))
unfolding memcmp
memcmp-zero s1 s2 zero m byte = ((λ e i lt. elim lt [ ]), (λ same. refl))
memcmp-zero s1 s2 (suc n) m byte = elim (ℕ_discrete (m s1) (m s2)) [
  | yes e ↦
      let ih = memcmp-zero (s1 + 1) (s2 + 1) n m byte in
      let here : (m s1 == m s2) ≡ true = (==_iff _ _).1 e in
      rw here (
        (λ zero_rest i lt. first_or s1 s2 n m e (ih.0 zero_rest) i lt),
        (λ same.
            ih.1 (λ i lt. ap m (omega arith) ∙ same (i + 1) (omega arith) ∙ ap m (omega arith))),
      )
  | no ne ↦ rw (==_ne _ _ ne) (
    (λ e. absurd (differ (m s1) (m s2) (byte s1) (byte s2) ne e)),
    (λ same. absurd (ne (ap m (omega arith) ∙ same 0 (omega arith) ∙ ap m (omega arith)))),
  )
]
  where
    first_or :
        (s1 s2 n : ℕ) (m : Memory)
        → m s1 ≡ m s2
        → ((i : ℕ) → i < n → m (s1 + 1 + i) ≡ m (s2 + 1 + i))
        → (i : ℕ) → i < suc n
        → m (s1 + i) ≡ m (s2 + i)
    first_or s1 s2 n m e rest zero lt = ap m (omega arith) ∙ e ∙ ap m (omega arith)
    first_or s1 s2 n m e rest (suc i) lt =
        ap m (omega arith) ∙ rest i (omega arith) ∙ ap m (omega arith)
