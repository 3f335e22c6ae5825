-- ===== src/Input/Tests.antt =====
-- The input queue of kernel/device/input at concrete queues, and the theorems there.
use angl_os.Base.{ℕ, ◌+◌, ◌%◌, ◌≡◌, refl, true, none, some, [], ◌∷◌, ◌++◌, arith, update}
use angl_os.Input.{
  IQueue, Wake, iqueue_empty, iqueue_full, iqueue_getc, pause, iqueue_lock, iqueue_unlock,
}
use angl_os.Input.Contents.{IsValid, contents}
use angl_os.Input.Fifo.{Waited, AllKeep, now, later, iqueue_getc_lem}
use angl_os.Input.Race.{
  Reach, System, Writer, Reader, here, there, test_full, write, move_head, test_empty, Reach-order,
}

-- 7 and 9, round the end of the ring
abbrev wrapped : IQueue
wrapped = record { lock = true; buf = update (update (λ _. 0) 31 7) 0 9; head = 1; tail = 31 }

abbrev drained : IQueue
drained = record { lock = true; buf = λ _. 0; head = 4; tail = 4 }

wrapped-IsValid : IsValid wrapped
wrapped-IsValid = omega arith

drained-IsValid : IsValid drained
drained-IsValid = omega arith

contents-wrapped : contents wrapped ≡ 7 ∷ 9 ∷ []
contents-wrapped = refl

-- an interrupt puts 65 into the queue while the reader halts
abbrev key_press : Wake
key_press q = record q { buf = update q.buf q.head 65; head = (q.head + 1) % 32 }

-- the queue when the reader has the lock again
abbrev woken : IQueue
woken = record drained { buf = update (λ _. 0) 4 65; head = 5 }

key_press-keeps : AllKeep (key_press ∷ [])
key_press-keeps = ((λ q v. omega arith), tt)

drained-waits : Waited iqueue_empty (key_press ∷ []) drained woken
unfolding iqueue_empty pause iqueue_lock iqueue_unlock
drained-waits = later refl refl (now refl)

getc_waits_forever : iqueue_getc [] drained ≡ none
unfolding iqueue_getc iqueue_empty
getc_waits_forever = refl

iqueue_getc_lem_example :
    (c : ℕ) × (q : IQueue) × (iqueue_getc (key_press ∷ []) drained ≡ some (c, q))
    × (contents woken ≡ c ∷ contents q)
    × IsValid q
iqueue_getc_lem_example =
    iqueue_getc_lem (key_press ∷ []) drained woken key_press-keeps drained-IsValid drained-waits

wrapped-goes_on : Waited iqueue_full [] wrapped wrapped
unfolding iqueue_full
wrapped-goes_on = now refl

-- the reader has passed its test when the writer has put a byte behind the two
abbrev racing : System
racing = record {
  queue = record wrapped { buf = update wrapped.buf 1 5; head = 2 };
  writer = Writer.idle;
  reader = Reader.ready;
  sent = 5 ∷ [];
  received = [];
}

racing-Reach : Reach wrapped racing
unfolding iqueue_full iqueue_empty
racing-Reach =
    there (there (there (there here (test_full 5 refl refl)) (write 5 refl)) (test_empty refl refl))
      (move_head 5 refl)

Reach-order_example :
    (racing.received ++ contents (racing.queue) ≡ contents wrapped ++ racing.sent)
    × IsValid (racing.queue)
Reach-order_example = Reach-order wrapped-IsValid racing-Reach
