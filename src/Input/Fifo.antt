-- ===== src/Input/Fifo.antt =====
-- `iqueueGetc` and `iqueuePutc` of kernel/device/input/iqueue.c, with what happens while they halt.
use angl_os.Base.{
  ℕ, ◌≡◌, Bool, true, false, some, List, [], ◌∷◌, ◌++◌, arith, u8, Bool-cases, Option-cases, inl,
  inr,
}
use angl_os.Input.{
  IQueue, Wake, iqueue_lock, iqueue_unlock, iqueue_empty, iqueue_full, take, store, pause,
  iqueue_getc, iqueue_putc, input_putc, input_full,
}
use angl_os.Input.Contents.{
  IsValid, contents, take-IsValid, store-IsValid, take-contents, store-contents,
}

-- A loop that waits while `test` holds, woken by `wakes`, goes on at `r`.
pub data Waited (test : IQueue → Bool) : List Wake → IQueue → IQueue → Type 0 where
  now : {wakes : List Wake} {q : IQueue} → test q ≡ false → Waited test wakes q q
  later :
      {wake : Wake} {wakes : List Wake} {q q' r : IQueue}
      → test q ≡ true
      → pause wake q ≡ some q'
      → Waited test wakes q' r
      → Waited test (wake ∷ wakes) q r

-- Every wake-up leaves a valid queue valid.
abbrev pub AllKeep : List Wake → Type 0
AllKeep [] = Unit {0}
AllKeep (wake ∷ wakes) = ((q : IQueue) → IsValid q → IsValid (wake q)) × AllKeep wakes

pause-IsValid :
    (wake : Wake) (q q' : IQueue)
    → ((r : IQueue) → IsValid r → IsValid (wake r))
    → pause wake q ≡ some q'
    → IsValid q
    → IsValid q'
unfolding pause iqueue_lock iqueue_unlock
pause-IsValid wake q q' keep e v =
    let w =
      keep (record q { lock = false }) (record { head_in = v.head_in; tail_in = v.tail_in }) in
    ground arith

Waited-IsValid :
    {test : IQueue → Bool} {wakes : List Wake} {q r : IQueue}
    → Waited test wakes q r
    → AllKeep wakes
    → IsValid q
    → IsValid r
Waited-IsValid (now h) keep v = v
Waited-IsValid (later {wake} {q} {q'} h p w) keep v =
    Waited-IsValid w keep.1 (pause-IsValid wake q q' keep.0 p v)

Waited-test :
    {test : IQueue → Bool} {wakes : List Wake} {q r : IQueue}
    → Waited test wakes q r
    → test r ≡ false
Waited-test (now h) = h
Waited-test (later h p w) = Waited-test w

getc-Waited :
    {wakes : List Wake} {q r : IQueue}
    → Waited iqueue_empty wakes q r
    → iqueue_getc wakes q ≡ some (take r)
unfolding iqueue_getc
getc-Waited {wakes = []} (now h) = rw h
getc-Waited {wakes = wake ∷ wakes} (now h) = rw h
getc-Waited (later h p w) = rw (h, p) (getc-Waited w)

putc-Waited :
    {wakes : List Wake} (c : ℕ) {q r : IQueue}
    → Waited iqueue_full wakes q r
    → iqueue_putc wakes c q ≡ some (store c r)
unfolding iqueue_putc
putc-Waited {wakes = []} c (now h) = rw h
putc-Waited {wakes = wake ∷ wakes} c (now h) = rw h
putc-Waited c (later h p w) = rw (h, p) (putc-Waited c w)

-- On a valid queue that every wake-up keeps valid, `iqueueGetc` returns as soon as the queue is not
-- empty where it looks, with the oldest byte, and leaves the other bytes in their order.
pub iqueue_getc_lem :
    (wakes : List Wake) (q r : IQueue)
    → AllKeep wakes
    → IsValid q
    → Waited iqueue_empty wakes q r
    → (c : ℕ) × (q' : IQueue) × (iqueue_getc wakes q ≡ some (c, q'))
      × (contents r ≡ c ∷ contents q')
      × IsValid q'
iqueue_getc_lem wakes q r keep v w =
    let v' = Waited-IsValid w keep v in
    ((take r).0, (take r).1, getc-Waited w, take-contents v' (Waited-test w), take-IsValid v')

-- On a valid queue that every wake-up keeps valid, `iqueuePutc` returns as soon as the queue is not
-- full where it looks, with its byte behind the others.
pub iqueue_putc_lem :
    (wakes : List Wake) (c : ℕ) (q r : IQueue)
    → AllKeep wakes
    → IsValid q
    → Waited iqueue_full wakes q r
    → (q' : IQueue) × (iqueue_putc wakes c q ≡ some q')
      × (contents q' ≡ contents r ++ (u8 c ∷ []))
      × IsValid q'
iqueue_putc_lem wakes c q r keep v w =
    let v' = Waited-IsValid w keep v in
    (store c r, putc-Waited c w, store-contents c v' (Waited-test w), store-IsValid c v')

-- Conversely, `iqueueGetc` never returns before the queue has a byte.
pub getc-some :
    (wakes : List Wake) (q : IQueue) {x : ℕ × IQueue}
    → iqueue_getc wakes q ≡ some x
    → (r : IQueue) × Waited iqueue_empty wakes q r × (x ≡ take r)
unfolding iqueue_getc
getc-some [] q h = elim (Bool-cases (iqueue_empty q)) [
  | inl wait ↦ ground arith
  | inr go ↦ (q, now go, ground arith)
]
getc-some (wake ∷ wakes) q h = elim (Bool-cases (iqueue_empty q)) [
  | inr go ↦ (q, now go, ground arith)
  | inl wait ↦ elim (Option-cases (pause wake q)) [
    | inl held ↦ ground arith
    | inr (q', woken) ↦
        let (r, w, e) = getc-some wakes q' (rw (wait, woken) at h) in (r, later wait woken w, e)
  ]
]

pub input_full_lem : (q : IQueue) → input_full q ≡ false → iqueue_full q ≡ false
unfolding input_full
input_full_lem q h = h

-- `inputPutc` does not wait where there is room.
pub input_putc_now :
    (c : ℕ) (q : IQueue) → iqueue_full q ≡ false → input_putc [] c q ≡ some (store c q)
unfolding input_putc
input_putc_now c q h = putc-Waited c (now h)
