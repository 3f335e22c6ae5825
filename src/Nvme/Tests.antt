-- ===== src/Nvme/Tests.antt =====
-- Two commands around the end of the queue, and the queue of completions at its last entry.
use angl_os.Base.{◌+◌, ◌%◌, ◌≡◌, refl, [], ◌∷◌, arith, length}
use angl_os.Nvme.{Submission, Completion, Nvme, plain_command, ring_io_com}
use angl_os.Nvme.Rings.{submit_all, submit_all_lem, Counts, ring_io_com-Counts}

abbrev a_read : Submission
a_read = plain_command 2 1 0 0x5000 0 64 0 7

abbrev a_write : Submission
a_write = plain_command 1 1 0 0x6000 0 72 0 7

abbrev no_completion : Completion
no_completion = record { com_spec = 0; sub_head = 0; sub_id = 0; com_id = 0; phase = 0; status = 0 }

abbrev at_end : Nvme
at_end = record {
  admin_sub = λ i. a_read;
  admin_com = λ i. no_completion;
  io_sub = λ i. a_read;
  io_com = λ i. no_completion;
  admin_sub_tail = 0;
  admin_com_head = 0;
  admin_new_phase = 1;
  io_sub_tail = 31;
  io_com_head = 31;
  io_new_phase = 1;
  doorbells = λ i. 0;
}

submit_all_lem_example :
    ((submit_all (a_read ∷ a_write ∷ []) at_end).io_sub ((at_end.io_sub_tail + 1) % 32) ≡ a_write)
    × ((submit_all (a_read ∷ a_write ∷ []) at_end).io_sub_tail
        ≡ (at_end.io_sub_tail + length (a_read ∷ a_write ∷ [])) % 32)
submit_all_lem_example =
    submit_all_lem (a_read ∷ a_write ∷ []) at_end 1 a_write (omega arith) (omega arith) refl

at_end-Counts : Counts 31 at_end
at_end-Counts = record { head = refl; phase = refl }

ring_io_com-Counts_example : Counts (31 + 1) (ring_io_com 1 at_end)
ring_io_com-Counts_example = ring_io_com-Counts 31 at_end at_end-Counts
