-- ===== src/Input/Contents.antt =====
-- The bytes in the ring of kernel/device/input/iqueue.c, oldest first.
use angl_os.Base.{
  ℕ, zero, suc, ◌+◌, ◌-◌, ◌%◌, ◌<◌, ◌≡◌, ◌≢◌, refl, ap, ◌∙◌, false, List, [], ◌∷◌, ◌++◌, arith,
  length, u8, update, update_self, update_ne, ◌==◌,
}
use angl_os.Input.{IQueue, next, init_iqueue, iqueue_empty, iqueue_full, take, store}
use mathlib.Core.Path.{ap₂}

pub record IsValid (q : IQueue) : Type 0 where
  pub head_in : q.head < 32
  pub tail_in : q.tail < 32

-- `n` bytes from index `pos` on
abbrev pub bytes_from : (ℕ → ℕ) → ℕ → ℕ → List ℕ
bytes_from buf pos zero = []
bytes_from buf pos (suc n) = buf pos ∷ bytes_from buf (next pos) n

abbrev pub count : IQueue → ℕ
count q = (q.head + 32 - q.tail) % 32

abbrev pub contents : IQueue → List ℕ
contents q = bytes_from q.buf q.tail (count q)

length-bytes_from : (buf : ℕ → ℕ) (pos n : ℕ) → length (bytes_from buf pos n) ≡ n
length-bytes_from buf pos zero = refl
length-bytes_from buf pos (suc n) = ap suc (length-bytes_from buf (next pos) n)

pub length-contents : (q : IQueue) → length (contents q) ≡ count q
length-contents q = length-bytes_from q.buf q.tail (count q)

-- One byte more.
bytes_from-snoc :
    (buf : ℕ → ℕ) (pos n : ℕ)
    → pos < 32
    → bytes_from buf pos (suc n) ≡ bytes_from buf pos n ++ (buf ((pos + n) % 32) ∷ [])
bytes_from-snoc buf pos zero h = ap (λ k. buf k ∷ []) (omega arith)
bytes_from-snoc buf pos (suc n) h =
    ap (λ l. buf pos ∷ l)
      (bytes_from-snoc buf (next pos) n (omega arith)
        ∙ ap (λ k. bytes_from buf (next pos) n ++ (buf k ∷ [])) (omega arith))

-- A write just behind the bytes leaves them alone.
bytes_from-update :
    (buf : ℕ → ℕ) (pos n h c : ℕ)
    → pos < 32
    → n < 32
    → h ≡ (pos + n) % 32
    → bytes_from (update buf h c) pos n ≡ bytes_from buf pos n
bytes_from-update buf pos zero h c lt small e = refl
bytes_from-update buf pos (suc n) h c lt small e =
    ap₂ ◌∷◌ (update_ne buf h pos c (omega arith))
      (bytes_from-update buf (next pos) n h c (omega arith) (omega arith) (omega arith))

-- `n` counts down by one where there is a byte.
bytes_from_pos :
    (buf : ℕ → ℕ) (pos n : ℕ)
    → n ≢ 0
    → bytes_from buf pos n ≡ buf pos ∷ bytes_from buf (next pos) (n - 1)
bytes_from_pos buf pos zero h = absurd (h refl)
bytes_from_pos buf pos (suc n) h = ap (λ k. buf pos ∷ bytes_from buf (next pos) k) (omega arith)

pub init-IsValid : (q : IQueue) → IsValid (init_iqueue q) × (contents (init_iqueue q) ≡ [])
unfolding init_iqueue
init-IsValid q = (omega arith, refl)

pub take-IsValid : {q : IQueue} → IsValid q → IsValid (take q).1
unfolding take
take-IsValid v = omega arith

pub store-IsValid : (c : ℕ) {q : IQueue} → IsValid q → IsValid (store c q)
unfolding store
store-IsValid c v = omega arith

-- The test for an empty queue means what it says, and the test for a full one means 31 bytes.
pub empty-count : {q : IQueue} → IsValid q → iqueue_empty q ≡ (count q == 0)
unfolding iqueue_empty
empty-count v = ground arith

pub full-count : {q : IQueue} → IsValid q → iqueue_full q ≡ (count q == 31)
unfolding iqueue_full
full-count v = ground arith

-- Taking a byte takes the oldest.
pub take-contents :
    {q : IQueue}
    → IsValid q
    → iqueue_empty q ≡ false
    → contents q ≡ (take q).0 ∷ contents (take q).1
unfolding take iqueue_empty
take-contents {q} v some_byte =
    let n_pos : count q ≢ 0 = ground arith in
    bytes_from_pos q.buf q.tail (count q) n_pos
    ∙ ap (λ k. q.buf q.tail ∷ bytes_from q.buf (next q.tail) k) (omega arith)

-- Moving the tail on drops the oldest byte.
pub tail-contents :
    {q : IQueue}
    → IsValid q
    → iqueue_empty q ≡ false
    → contents q ≡ q.buf q.tail ∷ contents (record q { tail = next q.tail })
unfolding take
tail-contents v some_byte = take-contents v some_byte

-- The write that storing a byte begins with is not seen yet.
pub write-contents :
    (v : ℕ) {q : IQueue}
    → IsValid q
    → contents (record q { buf = update q.buf q.head v }) ≡ contents q
write-contents v {q} ok =
    bytes_from-update q.buf q.tail (count q) q.head v ok.tail_in (omega arith) (omega arith)

-- Moving the head makes the byte that it points to the last.
pub advance-contents :
    {q : IQueue}
    → IsValid q
    → iqueue_full q ≡ false
    → contents (record q { head = next q.head }) ≡ contents q ++ (q.buf q.head ∷ [])
unfolding iqueue_full
advance-contents {q} v room =
    let not_full : count q ≢ 31 = ground arith in
    let more : (next q.head + 32 - q.tail) % 32 ≡ suc (count q) = omega arith in
    let there : (q.tail + count q) % 32 ≡ q.head = omega arith in
    rw more (
      bytes_from-snoc q.buf q.tail (count q) v.tail_in
      ∙ ap (λ k. contents q ++ (q.buf k ∷ [])) there)

-- Storing a byte puts it behind the others.
pub store-contents :
    (c : ℕ) {q : IQueue}
    → IsValid q
    → iqueue_full q ≡ false
    → contents (store c q) ≡ contents q ++ (u8 c ∷ [])
unfolding store iqueue_full
store-contents c {q} v room =
    let written : IQueue = record q { buf = update q.buf q.head (u8 c) } in
    let ok : IsValid written = record { head_in = v.head_in; tail_in = v.tail_in } in
    advance-contents {q = written} ok (unfold iqueue_full in room)
    ∙ ap₂ (λ l (k : ℕ). l ++ (k ∷ [])) (write-contents (u8 c) v) (update_self q.buf q.head (u8 c))
