-- ===== src/CString/Terminated.antt =====
-- The functions of kernel/libc/string.c that run up to a terminator.
use angl_os.Base.{
  ℕ, zero, suc, ◌+◌, ◌<◌, ◌≡◌, ◌≢◌, ◌⊎◌, refl, ap, ◌∙◌, sym, true, arith, ◌==◌, update, ==_iff,
  ==_ne, some, update_ne, min,
}
use angl_os.CString.{Memory, strlen, strnlen, strcpy, strcmp}
use angl_os.CString.Copies.{moved, moved_next, moved_none}

-- The string at `s` has `n` bytes before its terminator.
pub record StringAt (s n : ℕ) (m : Memory) : Type 0 where
  pub bytes : (i : ℕ) → i < n → m (s + i) ≢ 0
  pub stop : m (s + n) ≡ 0

StringAt-zero : {s : ℕ} {m : Memory} → StringAt s 0 m → (m s == 0) ≡ true
StringAt-zero {s} {m} h = (==_iff (m s) 0).1 (ap m (omega arith) ∙ h.stop)

StringAt-ne : {s n : ℕ} {m : Memory} → StringAt s (suc n) m → m s ≢ 0
StringAt-ne {s} {m = m} h e = h.bytes 0 (omega arith) (ap m (omega arith) ∙ e)

StringAt-suc : {s n : ℕ} {m : Memory} → StringAt s (suc n) m → StringAt (s + 1) n m
StringAt-suc {s} {n} {m} h = record {
  bytes = λ i lt e. h.bytes (i + 1) (omega arith) (ap m (omega arith) ∙ e);
  stop = ap m (omega arith) ∙ h.stop;
}

-- `strlen` of a string of `n` bytes returns `n`, with fuel above `n`.
pub strlen-StringAt :
    (n fuel s : ℕ) (m : Memory) → StringAt s n m → n < fuel → strlen fuel s m ≡ some n
unfolding strlen
strlen-StringAt n zero s m h enough = absurd (omega arith)
strlen-StringAt zero (suc fuel) s m h enough = rw (StringAt-zero h) refl
strlen-StringAt (suc n) (suc fuel) s m h enough =
    rw
      (
        ==_ne (m s) 0 (StringAt-ne h),
        strlen-StringAt n fuel (s + 1) m (StringAt-suc h) (omega arith),
      )
      (ap some (omega arith))

-- `strnlen` of such a string returns the smaller of `n` and the limit.
pub strnlen-StringAt :
    (n s maxlen : ℕ) (m : Memory) → StringAt s n m → strnlen s maxlen m ≡ min n maxlen
unfolding strnlen
strnlen-StringAt n s zero m h = omega arith
strnlen-StringAt zero s (suc maxlen) m h = rw (StringAt-zero h) (omega arith)
strnlen-StringAt (suc n) s (suc maxlen) m h =
    rw (==_ne (m s) 0 (StringAt-ne h), strnlen-StringAt n (s + 1) maxlen m (StringAt-suc h))
      (omega arith)

StringAt-update :
    (s n a v : ℕ) (m : Memory)
    → (a < s) ⊎ (s + n < a)
    → StringAt s n m
    → StringAt s n (update m a v)
StringAt-update s n a v m off h = record {
  bytes = λ i lt e. h.bytes i lt (sym (update_ne m a (s + i) v (omega arith)) ∙ e);
  stop = update_ne m a (s + n) v (omega arith) ∙ h.stop;
}

-- `strcpy` of a string of `n` bytes moves `n + 1` bytes and no others, if the destination does not
-- begin inside the source behind its start; with fuel above `n`.
pub strcpy-StringAt :
    (n fuel dest src : ℕ) (m : Memory)
    → StringAt src n m
    → (dest < src) ⊎ (src + n < dest)
    → n < fuel
    → (r : Memory) × (strcpy fuel dest src m ≡ some r)
      × ((a : ℕ) → r a ≡ moved dest src (suc n) m a)
unfolding strcpy
strcpy-StringAt n zero dest src m h apart enough = absurd (omega arith)
strcpy-StringAt zero (suc fuel) dest src m h apart enough =
    let ended : m src ≡ 0 = ap m (omega arith) ∙ h.stop in
    (
      update m dest 0,
      rw (StringAt-zero h) refl,
      (λ a.
          ap (λ v. update m dest v a) (sym ended)
          ∙ moved_none (dest + 1) (src + 1) (update m dest (m src)) a
          ∙ moved_next dest src 0 m a (omega arith)),
    )
strcpy-StringAt (suc n) (suc fuel) dest src m h apart enough =
    let m' = update m dest (m src) in
    let h' = StringAt-update (src + 1) n dest (m src) m (omega arith) (StringAt-suc h) in
    let (r, e, lem) =
      strcpy-StringAt n fuel (dest + 1) (src + 1) m' h' (omega arith) (omega arith) in
    (
      r,
      rw (==_ne (m src) 0 (StringAt-ne h)) e,
      (λ a. lem a ∙ moved_next dest src (suc n) m a (omega arith)),
    )

-- `strcmp` of a string and one that begins with it returns 0, whatever follows in the second.
pub strcmp-prefix :
    (n fuel s1 s2 : ℕ) (m : Memory)
    → StringAt s1 n m
    → ((i : ℕ) → i < n → m (s1 + i) ≡ m (s2 + i))
    → n < fuel
    → strcmp fuel s1 s2 m ≡ some 0
unfolding strcmp
strcmp-prefix n zero s1 s2 m h same enough = absurd (omega arith)
strcmp-prefix zero (suc fuel) s1 s2 m h same enough = rw (StringAt-zero h) refl
strcmp-prefix (suc n) (suc fuel) s1 s2 m h same enough =
    let first : m s1 ≡ m s2 = ap m (omega arith) ∙ same 0 (omega arith) ∙ ap m (omega arith) in
    rw (==_ne (m s1) 0 (StringAt-ne h), (==_iff (m s1) (m s2)).1 first)
      (strcmp-prefix n fuel (s1 + 1) (s2 + 1) m (StringAt-suc h)
        (λ i lt. ap m (omega arith) ∙ same (i + 1) (omega arith) ∙ ap m (omega arith))
        (omega arith))
