-- ===== src/Input.antt =====
-- The input queue, kernel/device/input/iqueue.c and input.c: a ring of 32 bytes behind a spin lock
-- (kernel/threads/spinlock.h).
pub mod Contents
pub mod Fifo
pub mod Race
mod Tests
use angl_os.Base.{
  ℕ, suc, ◌+◌, ◌%◌, Bool, true, false, Option, none, some, List, [], ◌∷◌, ◌==◌, if◌then◌else◌, u8,
  update,
}

-- `IQUEUE_BUFSIZE`
abbrev pub bufsize : ℕ
bufsize = 32

-- `iqueue_t`
pub record IQueue : Type 0 where
  pub lock : Bool
  pub buf : ℕ → ℕ
  pub head : ℕ
  pub tail : ℕ

-- `next`
abbrev pub next : ℕ → ℕ
next pos = (pos + 1) % bufsize

-- `initIQueue`
pub init_iqueue : IQueue → IQueue
init_iqueue q = record q { lock = false; head = 0; tail = 0 }

-- `iqueueLock`: `spinLock` returns when it has changed the lock from free to taken. `none` is a
-- wait for another holder.
pub iqueue_lock : IQueue → Option IQueue
iqueue_lock q = if q.lock then none else some (record q { lock = true })

-- `iqueueUnlock`
pub iqueue_unlock : IQueue → IQueue
iqueue_unlock q = record q { lock = false }

-- `iqueueEmpty`
pub iqueue_empty : IQueue → Bool
iqueue_empty q = q.head == q.tail

-- `iqueueFull`
pub iqueue_full : IQueue → Bool
iqueue_full q = next q.head == q.tail

-- `iqueueGetc` behind its loop
pub take : IQueue → ℕ × IQueue
take q = (q.buf q.tail, record q { tail = next q.tail })

-- `iqueuePutc` behind its loop
pub store : ℕ → IQueue → IQueue
store c q = record q { buf = update q.buf q.head (u8 c); head = next q.head }

-- What other processors and interrupt handlers do to the queue while a processor halts.
abbrev pub Wake : Type 0
Wake = IQueue → IQueue

-- The rounds of a waiting loop: unlock, halt, lock again. `none` where the lock is held by another
-- when the processor wakes.
pub pause : Wake → IQueue → Option IQueue
pause wake q = iqueue_lock (wake (iqueue_unlock q))

-- `iqueueGetc`, woken as often as the list says; `none` while it waits.
pub iqueue_getc : List Wake → IQueue → Option (ℕ × IQueue)
iqueue_getc [] q = if iqueue_empty q then none else some (take q)
iqueue_getc (wake ∷ wakes) q =
    let wait : Option (ℕ × IQueue) = elim (pause wake q) [
      | none ↦ none
      | some q' ↦ iqueue_getc wakes q'
    ] in
    if iqueue_empty q then wait else some (take q)

-- `iqueuePutc`
pub iqueue_putc : List Wake → ℕ → IQueue → Option IQueue
iqueue_putc [] c q = if iqueue_full q then none else some (store c q)
iqueue_putc (wake ∷ wakes) c q =
    let wait : Option IQueue = elim (pause wake q) [
      | none ↦ none
      | some q' ↦ iqueue_putc wakes c q'
    ] in
    if iqueue_full q then wait else some (store c q)

-- `inputGetc`
pub input_getc : List Wake → IQueue → Option (ℕ × IQueue)
input_getc wakes q = elim (iqueue_lock q) [
  | none ↦ none
  | some locked ↦ elim (iqueue_getc wakes locked) [
    | none ↦ none
    | some (c, after) ↦ some (c, iqueue_unlock after)
  ]
]

-- `inputPutc` and `inputFull`
pub input_putc : List Wake → ℕ → IQueue → Option IQueue
input_putc wakes c q = iqueue_putc wakes c q

pub input_full : IQueue → Bool
input_full q = iqueue_full q
