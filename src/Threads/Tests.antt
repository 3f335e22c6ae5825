-- ===== src/Threads/Tests.antt =====
-- The scheduler of kernel/threads/thread.c with lists as they are and two ready threads.
use angl_os.Base.{ℕ, ◌-◌, ◌^◌, ◌≡◌, refl, false, some, [], ◌∷◌, ◌++◌, ◌==◌, if◌then◌else◌}
use angl_os.Threads.{
  cleared_registers, Threads, Thread, ThreadState, get_thread_with_min_runtime, get_min_runtime,
  min_runtime_from, thread_create,
}
use angl_os.KernelLists.Plain.{plain_lists}
use angl_os.Threads.Least.{Least, get_thread_with_min_runtime-Least}
use angl_os.Threads.Ready.{thread_create-runtime}

abbrev thread_at : ℕ → Thread
thread_at p = record {
  id = p;
  parent = 0;
  priority = 0;
  state = ThreadState.ready;
  runtime = if p == 100 then 9000 else 4000;
  lock = false;
  usr_stack = 0;
  space = 0;
  gs = record {
    syscall = 0;
    ker_rsp = 0;
    usr_rsp = 0;
    pc = 0;
    cpu = 0;
    ctx = record { registers = cleared_registers; rip = 0; cr3 = 0 };
    thread = p;
    irq_rsp = 0;
    isr_rsp = 0;
  };
  gs_address = 0;
  ker_stack = 0;
  irq_stack = 0;
  isr_stack = 0;
  magic = 0;
}

abbrev two_ready : Threads plain_lists
two_ready = record {
  threads = thread_at;
  threadlist = 100 ∷ 200 ∷ [];
  ready_lists = λ cpu. 100 ∷ 200 ∷ [];
  next_thread_id = 3;
  lock = false;
  timer_ticks = 0;
  tick_microseconds = 5000;
  current_thread = 100;
  context_switches = λ cpu. 0;
  user_gs = 1;
  kern_gs = 0;
  tss_routine = λ cpu. 0;
  tss_exception = λ cpu. 0;
}

get_thread_with_min_runtime-Least_example :
    (r : ℕ) × (get_thread_with_min_runtime plain_lists two_ready ≡ some r)
    × Least plain_lists two_ready (100 ∷ 200 ∷ []) (2 ^ 64 - 1) 0 r
get_thread_with_min_runtime-Least_example =
    get_thread_with_min_runtime-Least plain_lists two_ready refl (λ p m. refl)

least_found : get_min_runtime plain_lists two_ready ≡ some 4000
unfolding get_min_runtime min_runtime_from
least_found = refl

thread_create-runtime_example :
    (t : Threads plain_lists) × (thread_create plain_lists 300 0x7000 0x8000 0x9000 0x400000 0 0
        two_ready
      ≡ some t)
    × ((t.threads 300).runtime ≡ 0)
    × (t.ready_lists 0 ≡ (100 ∷ 200 ∷ []) ++ (300 ∷ []))
thread_create-runtime_example =
    thread_create-runtime plain_lists 300 0x7000 0x8000 0x9000 0x400000 0 0 4000 two_ready
      least_found
