-- ===== src/Nvme/Rings.antt =====
-- The input and output queues of kernel/device/nvme/nvme.c, slot by slot.
use angl_os.Base.{
  ℕ, zero, suc, ◌+◌, ◌-◌, ◌/◌, ◌%◌, ◌≤◌, ◌<◌, ◌≡◌, ◌≢◌, refl, ap, ◌∙◌, some, List, [], ◌∷◌, arith,
  bit_xor, ◌==◌, ==_iff, if_cases, update_self, update_ne, length, get_elem?,
}
use angl_os.Nvme.{Submission, Nvme, put_io_command, ring_io_sub, ring_io_com, io_queue_size}
use mathlib.Core.Option.{some-injective}

-- The commands one after the other, each with its ring of the doorbell.
pub submit_all : List Submission → Nvme → Nvme
submit_all [] s = s
submit_all (c ∷ cs) s = submit_all cs (ring_io_sub 1 (put_io_command c s))

-- Commands behind the tail leave the slots before it.
submit_all-kept :
    (cs : List Submission) (s : Nvme) (slot k : ℕ)
    → s.io_sub_tail < 32
    → slot < 32
    → k + length cs ≤ 32
    → 0 < k
    → (slot + k) % 32 ≡ s.io_sub_tail
    → (submit_all cs s).io_sub slot ≡ s.io_sub slot
unfolding submit_all put_io_command ring_io_sub
submit_all-kept [] s slot k tail lt room some_k e = refl
submit_all-kept (c ∷ cs) s slot k tail lt room some_k e =
    let next = ring_io_sub 1 (put_io_command c s) in
    submit_all-kept cs next slot (k + 1) (omega arith) lt (omega arith) (omega arith) (omega arith)
    ∙ update_ne s.io_sub s.io_sub_tail slot c (λ same. omega arith)

submit_all-slots :
    (cs : List Submission) (s : Nvme)
    → s.io_sub_tail < 32
    → length cs ≤ 32
    → ((i : ℕ) (c : Submission)
        → get_elem? cs i ≡ some c
        → (submit_all cs s).io_sub ((s.io_sub_tail + i) % 32) ≡ c)
      × ((submit_all cs s).io_sub_tail ≡ (s.io_sub_tail + length cs) % 32)
unfolding submit_all put_io_command ring_io_sub
submit_all-slots [] s tail room = ((λ i c e. absurd (cc)), omega arith)
submit_all-slots (c ∷ cs) s tail room =
    let next = ring_io_sub 1 (put_io_command c s) in
    let (slots, end) = submit_all-slots cs next (omega arith) (omega arith) in
    (at_slot c cs s tail room slots, end ∙ omega arith)
  where
    at_slot :
        (c : Submission) (cs : List Submission) (s : Nvme)
        → s.io_sub_tail < 32
        → length (c ∷ cs) ≤ 32
        → ((i : ℕ) (d : Submission)
            → get_elem? cs i ≡ some d
            → (submit_all cs (ring_io_sub 1 (put_io_command c s))).io_sub
                (((ring_io_sub 1 (put_io_command c s)).io_sub_tail + i) % 32)
              ≡ d)
        → (i : ℕ) (d : Submission) → get_elem? (c ∷ cs) i ≡ some d
        → (submit_all cs (ring_io_sub 1 (put_io_command c s))).io_sub ((s.io_sub_tail + i) % 32) ≡ d
    at_slot c cs s tail room slots zero d e =
        let next = ring_io_sub 1 (put_io_command c s) in
        let here : (s.io_sub_tail + 0) % 32 ≡ s.io_sub_tail = omega arith in
        ap (submit_all cs next).io_sub here
        ∙ submit_all-kept cs next s.io_sub_tail 1 (omega arith) tail (omega arith) (omega arith)
            refl
        ∙ update_self s.io_sub s.io_sub_tail c
        ∙ some-injective c d e
    at_slot c cs s tail room slots (suc i) d e =
        let next = ring_io_sub 1 (put_io_command c s) in
        let along : (s.io_sub_tail + suc i) % 32 ≡ ((s.io_sub_tail + 1) % 32 + i) % 32 =
          omega arith in
        ap (submit_all cs next).io_sub along ∙ slots i d e

-- Up to 32 commands, each rung on its own: the command at place `i` among them stands `i` slots behind the
-- tail, around the end of the queue, and the tail has moved on by the number of commands.
pub submit_all_lem :
    (cs : List Submission) (s : Nvme) (i : ℕ) (c : Submission)
    → s.io_sub_tail < 32
    → length cs ≤ 32
    → get_elem? cs i ≡ some c
    → ((submit_all cs s).io_sub ((s.io_sub_tail + i) % 32) ≡ c)
      × ((submit_all cs s).io_sub_tail ≡ (s.io_sub_tail + length cs) % 32)
submit_all_lem cs s i c tail room e =
    let (slots, end) = submit_all-slots cs s tail room in (slots i c e, end)

-- The head of the completion queue and the phase bit of the entries that are new, after `n` entries.
pub record Counts (n : ℕ) (s : Nvme) : Type 0 where
  pub head : s.io_com_head ≡ n % 32
  pub phase : s.io_new_phase ≡ (n / 32 + 1) % 2

flip : (b : ℕ) → b < 2 → bit_xor b 1 ≡ 1 - b
flip zero h = refl
flip (suc zero) h = refl
flip (suc (suc b)) h = absurd (omega arith)

-- `ringIOCom` of one entry: the head goes on, and the phase bit changes exactly when the queue has been gone
-- through once more, as the controller changes it.
pub ring_io_com-Counts : (n : ℕ) (s : Nvme) → Counts n s → Counts (n + 1) (ring_io_com 1 s)
unfolding ring_io_com
ring_io_com-Counts n s h =
    let head = (s.io_com_head + 1) % io_queue_size in
    record {
      head = omega (arith, h.head);
      phase =
          if_cases (λ p. p ≡ ((n + 1) / 32 + 1) % 2) (head == 0)
            (λ e.
              let at_end : head ≡ 0 = (==_iff head 0).0 e in
              flip s.io_new_phase (omega (arith, h.phase)) ∙ omega (arith, h.phase, h.head, at_end))
            (λ e.
              let inside : head ≢ 0 = λ z. let t = (==_iff head 0).1 z in cc in
              omega (arith, h.phase, h.head, inside));
    }
