-- ===== src/Input/Race.antt =====
-- The input queue of kernel/device/input/iqueue.c between one writer and one reader that run
-- interleaved, a shared access at a time: an interrupt handler that calls `inputPutc` without the
-- lock, and a thread in `inputGetc`.
use angl_os.Base.{ℕ, ◌≡◌, refl, ap, ◌∙◌, sym, false, List, [], ◌∷◌, ◌++◌, arith, u8, update}
use angl_os.Input.{IQueue, next, iqueue_empty, iqueue_full}
use angl_os.Input.Contents.{IsValid, contents, tail-contents, write-contents, advance-contents}
use mathlib.Core.Path.{subst}
use angl_os.Base.{update_ne}
use mathlib.Core.List.{append_assoc, append-nil}

-- where the writer stands in `iqueuePutc`, with its byte
pub data Writer : Type 0 where
  idle : Writer
  ready : ℕ → Writer  -- behind the loop
  written : ℕ → Writer  -- behind the write to `buf`

-- where the reader stands in `iqueueGetc`
pub data Reader : Type 0 where
  idle : Reader
  ready : Reader  -- behind the loop
  loaded : ℕ → Reader  -- behind the read from `buf`

pub record System : Type 0 where
  pub queue : IQueue
  pub writer : Writer
  pub reader : Reader
  pub sent : List ℕ  -- the bytes whose `iqueuePutc` is done
  pub received : List ℕ  -- the bytes that `iqueueGetc` has taken out

-- One shared access of one of the two. A round of a waiting loop changes nothing.
pub data Step (s : System) : System → Type 0 where
  test_full :
      (c : ℕ)
      → s.writer ≡ Writer.idle
      → iqueue_full s.queue ≡ false
      → Step s (record s { writer = Writer.ready c })
  write :
      (c : ℕ)
      → s.writer ≡ Writer.ready c
      → Step s (record s {
        queue = record (s.queue) { buf = update s.queue.buf s.queue.head (u8 c) };
        writer = Writer.written c;
      })
  move_head :
      (c : ℕ)
      → s.writer ≡ Writer.written c
      → Step s (record s {
        queue = record (s.queue) { head = next s.queue.head };
        writer = Writer.idle;
        sent = s.sent ++ (u8 c ∷ []);
      })
  test_empty :
      s.reader ≡ Reader.idle
      → iqueue_empty s.queue ≡ false
      → Step s (record s { reader = Reader.ready })
  read :
      s.reader ≡ Reader.ready
      → Step s (record s { reader = Reader.loaded (s.queue.buf s.queue.tail) })
  move_tail :
      (c : ℕ)
      → s.reader ≡ Reader.loaded c
      → Step s (record s {
        queue = record (s.queue) { tail = next s.queue.tail };
        reader = Reader.idle;
        received = s.received ++ (c ∷ []);
      })

-- both idle, nothing sent yet
abbrev pub start : IQueue → System
start q = record { queue = q; writer = Writer.idle; reader = Reader.idle; sent = []; received = [] }

pub data Reach (q : IQueue) : System → Type 0 where
  here : Reach q (start q)
  there : {s t : System} → Reach q s → Step s t → Reach q t

-- what holds where the writer stands
abbrev WriterOk : IQueue → Writer → Type 0
WriterOk q Writer.idle = Unit {0}
WriterOk q (Writer.ready c) = iqueue_full q ≡ false
WriterOk q (Writer.written c) = (iqueue_full q ≡ false) × (q.buf q.head ≡ u8 c)

-- what holds where the reader stands
abbrev ReaderOk : IQueue → Reader → Type 0
ReaderOk q Reader.idle = Unit {0}
ReaderOk q Reader.ready = iqueue_empty q ≡ false
ReaderOk q (Reader.loaded c) = (iqueue_empty q ≡ false) × (q.buf q.tail ≡ c)

pub record Inv (q₀ : List ℕ) (s : System) : Type 0 where
  pub valid : IsValid s.queue
  pub writer_ok : WriterOk s.queue s.writer
  pub reader_ok : ReaderOk s.queue s.reader
  pub order : s.received ++ contents s.queue ≡ q₀ ++ s.sent

-- Each of the two leaves what the other has found out in place.
ReaderOk-write :
    (q : IQueue) (v : ℕ) (r : Reader)
    → ReaderOk q r
    → ReaderOk (record q { buf = update q.buf q.head v }) r
unfolding iqueue_empty
ReaderOk-write q v Reader.idle h = tt
ReaderOk-write q v Reader.ready h = h
ReaderOk-write q v (Reader.loaded c) h =
    (h.0, update_ne q.buf q.head q.tail v (λ e. ground arith) ∙ h.1)

ReaderOk-move :
    (q : IQueue) (r : Reader)
    → IsValid q
    → iqueue_full q ≡ false
    → ReaderOk q r
    → ReaderOk (record q { head = next q.head }) r
unfolding iqueue_empty iqueue_full
ReaderOk-move q Reader.idle v room h = tt
ReaderOk-move q Reader.ready v room h = room
ReaderOk-move q (Reader.loaded c) v room h = (room, h.1)

WriterOk-move :
    (q : IQueue) (w : Writer)
    → IsValid q
    → iqueue_empty q ≡ false
    → WriterOk q w
    → WriterOk (record q { tail = next q.tail }) w
unfolding iqueue_empty iqueue_full
WriterOk-move q Writer.idle v some_byte h = tt
WriterOk-move q (Writer.ready c) v some_byte h = ground arith
WriterOk-move q (Writer.written c) v some_byte h = (ground arith, h.1)

Step-Inv : {q₀ : List ℕ} {s t : System} → Step s t → Inv q₀ s → Inv q₀ t
Step-Inv (test_full c at room) inv = record {
  valid = inv.valid;
  writer_ok = room;
  reader_ok = inv.reader_ok;
  order = inv.order;
}
Step-Inv {s} (write c at) inv =
    let room : iqueue_full s.queue ≡ false = subst (WriterOk s.queue) at inv.writer_ok in
    record {
      valid = record { head_in = inv.valid.head_in; tail_in = inv.valid.tail_in };
      writer_ok = (unfold iqueue_full in room, ground arith);
      reader_ok = ReaderOk-write s.queue (u8 c) s.reader inv.reader_ok;
      order = ap (λ l. s.received ++ l) (write-contents (u8 c) inv.valid) ∙ inv.order;
    }
Step-Inv {q₀} {s} (move_head c at) inv =
    let (room, byte) : (iqueue_full s.queue ≡ false) × (s.queue.buf s.queue.head ≡ u8 c) =
      subst (WriterOk s.queue) at inv.writer_ok in
    record {
      valid = record { head_in = omega arith; tail_in = inv.valid.tail_in };
      writer_ok = tt;
      reader_ok = ReaderOk-move s.queue s.reader inv.valid room inv.reader_ok;
      order =
          ap (λ l. s.received ++ l)
            (advance-contents inv.valid room ∙ ap (λ b. contents s.queue ++ (b ∷ [])) byte)
          ∙ sym (append_assoc s.received (contents s.queue) (u8 c ∷ []))
          ∙ ap (λ l. l ++ (u8 c ∷ [])) inv.order
          ∙ append_assoc q₀ s.sent (u8 c ∷ []);
    }
Step-Inv (test_empty at some_byte) inv = record {
  valid = inv.valid;
  writer_ok = inv.writer_ok;
  reader_ok = some_byte;
  order = inv.order;
}
Step-Inv {s} (read at) inv =
    let some_byte : iqueue_empty s.queue ≡ false = subst (ReaderOk s.queue) at inv.reader_ok in
    record {
      valid = inv.valid;
      writer_ok = inv.writer_ok;
      reader_ok = (some_byte, refl);
      order = inv.order;
    }
Step-Inv {s} (move_tail c at) inv =
    let (some_byte, byte) : (iqueue_empty s.queue ≡ false) × (s.queue.buf s.queue.tail ≡ c) =
      subst (ReaderOk s.queue) at inv.reader_ok in
    record {
      valid = record { head_in = inv.valid.head_in; tail_in = omega arith };
      writer_ok = WriterOk-move s.queue s.writer inv.valid some_byte inv.writer_ok;
      reader_ok = tt;
      order =
          append_assoc s.received (c ∷ [])
            (contents (record (s.queue) { tail = next s.queue.tail }))
          ∙ ap (λ l. s.received ++ l)
              (ap (λ b. b ∷ contents (record (s.queue) { tail = next s.queue.tail })) (sym byte)
                ∙ sym (tail-contents inv.valid some_byte))
          ∙ inv.order;
    }

Reach-Inv : {q : IQueue} {s : System} → IsValid q → Reach q s → Inv (contents q) s
Reach-Inv {q} v here = record {
  valid = v;
  writer_ok = tt;
  reader_ok = tt;
  order = sym (append-nil (contents q));
}
Reach-Inv v (there r st) = Step-Inv st (Reach-Inv v r)

-- However a writer and a reader interleave, the bytes taken out and then the bytes still in the
-- queue are the bytes that were there at the start and then those sent, in order: none is lost,
-- none doubled, and the queue's indices stay in range.
pub Reach-order :
    {q : IQueue} {s : System}
    → IsValid q
    → Reach q s
    → (s.received ++ contents s.queue ≡ contents q ++ s.sent) × IsValid s.queue
Reach-order v r = let inv = Reach-Inv v r in (inv.order, inv.valid)
