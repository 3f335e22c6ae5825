-- ===== src/Threads.antt =====
-- The threads and their scheduler, kernel/threads/thread.c and thread.h. The kernel's linked lists
-- (kernel/libc/kernel/list.c) are a parameter; a thread is known by its address.
pub mod Least
pub mod Ready
mod Tests
use angl_os.Base.{
  ℕ, zero, suc, ◌+◌, ◌-◌, ◌*◌, ◌%◌, ◌^◌, Bool, true, false, not, ◌&&◌, ◌||◌, Option, none, some,
  List, [], ◌∷◌, ◌++◌, ltb, ◌==◌, if◌then◌else◌, u64, sub64, update, ◌>>=◌, ◌≡◌, ◌≢◌,
}
use angl_os.Paging.{page_direct_base}
use angl_os.KernelLists.{ListOps}

-- `enum thread_state`
pub data ThreadState : Type 0 where
  running : ThreadState
  ready : ThreadState
  blocked : ThreadState
  dying : ThreadState
  new : ThreadState

abbrev pub thread_magic : ℕ
thread_magic = 0xE621CAFEDEADBEEF

abbrev pub usrstack_start : ℕ
usrstack_start = 0x00007FF000FFF000

abbrev pub kerstack_start : ℕ
kerstack_start = 0xFFFFFFF000FFF000

abbrev pub irqstack_start : ℕ
irqstack_start = 0xFFFFFFF100FFF000

abbrev pub isrstack_start : ℕ
isrstack_start = 0xFFFFFFF200FFF000

-- the `registers` of `ctx_t`
pub record Registers : Type 0 where
  pub rax : ℕ
  pub rbx : ℕ
  pub rcx : ℕ
  pub rdx : ℕ
  pub rdi : ℕ
  pub rsi : ℕ
  pub r8 : ℕ
  pub r9 : ℕ
  pub r10 : ℕ
  pub r11 : ℕ
  pub r12 : ℕ
  pub r13 : ℕ
  pub r14 : ℕ
  pub r15 : ℕ

-- `ctx_t`
pub record Ctx : Type 0 where
  pub registers : Registers
  pub rip : ℕ
  pub cr3 : ℕ

abbrev pub cleared_registers : Registers
cleared_registers = record {
  rax = 0;
  rbx = 0;
  rcx = 0;
  rdx = 0;
  rdi = 0;
  rsi = 0;
  r8 = 0;
  r9 = 0;
  r10 = 0;
  r11 = 0;
  r12 = 0;
  r13 = 0;
  r14 = 0;
  r15 = 0;
}

-- `gs_base_t`; the processor is known by its number
pub record GsBase : Type 0 where
  pub syscall : ℕ
  pub ker_rsp : ℕ
  pub usr_rsp : ℕ
  pub pc : ℕ
  pub cpu : ℕ
  pub ctx : Ctx
  pub thread : ℕ
  pub irq_rsp : ℕ
  pub isr_rsp : ℕ

-- `thread_t`; `gs_address` is where its `gs_base_t` lies
pub record Thread : Type 0 where
  pub id : ℕ
  pub parent : ℕ
  pub priority : ℕ
  pub state : ThreadState
  pub runtime : ℕ
  pub lock : Bool
  pub usr_stack : ℕ
  pub space : ℕ
  pub gs : GsBase
  pub gs_address : ℕ
  pub ker_stack : ℕ
  pub irq_stack : ℕ
  pub isr_stack : ℕ
  pub magic : ℕ

module _ (ops : ListOps) where
  -- The static variables of thread.c, the threads, the two GS base registers, and the stacks in
  -- the task state segment.
  pub record Threads : Type 0 where
    pub threads : ℕ → Thread
    pub threadlist : ops.Lst
    pub ready_lists : ℕ → ops.Lst
    pub next_thread_id : ℕ
    pub lock : Bool
    pub timer_ticks : ℕ
    pub tick_microseconds : ℕ
    pub current_thread : ℕ
    pub context_switches : ℕ → ℕ
    pub user_gs : ℕ
    pub kern_gs : ℕ
    pub tss_routine : ℕ → ℕ
    pub tss_exception : ℕ → ℕ

  -- the loop of `getMinRuntime`; `none` waits for a thread's lock
  pub min_runtime_from : List ℕ → ℕ → Threads → Option ℕ
  min_runtime_from [] min s = some min
  min_runtime_from (p ∷ ps) min s =
      let min' = if ltb (s.threads p).runtime min then (s.threads p).runtime else min in
      let rest = min_runtime_from ps min' s in if (s.threads p).lock then none else rest

  -- `getMinRuntime`
  pub get_min_runtime : Threads → Option ℕ
  get_min_runtime s =
      if s.lock then none else min_runtime_from (ops.elements (s.ready_lists 0)) (2 ^ 64 - 1) s

  -- the loop of `getThreadWithMinRuntime`; the address 0 is `NULL`
  pub min_thread_from : List ℕ → ℕ → ℕ → Threads → Option ℕ
  min_thread_from [] min minthread s = some minthread
  min_thread_from (p ∷ ps) min minthread s =
      let less = ltb (s.threads p).runtime min in
      let rest =
        min_thread_from ps (if less then (s.threads p).runtime else min)
          (if less then p else minthread) s in
      if (s.threads p).lock then none else rest

  -- `getThreadWithMinRuntime`
  pub get_thread_with_min_runtime : Threads → Option ℕ
  get_thread_with_min_runtime s =
      if s.lock then none else min_thread_from (ops.elements (s.ready_lists 0)) (2 ^ 64 - 1) 0 s

  -- `getCurrentThread`
  pub get_current_thread : Threads → ℕ
  get_current_thread s = s.current_thread

  -- `setKernGS` and `setUserGS`
  pub set_kern_gs : ℕ → Threads → Threads
  set_kern_gs gs_base s = record s { kern_gs = gs_base }

  pub set_user_gs : ℕ → Threads → Threads
  set_user_gs gs_base s = record s { user_gs = gs_base }

  -- `p->state = st`
  pub set_state : ℕ → ThreadState → Threads → Threads
  set_state p st s = record s { threads = update s.threads p (record (s.threads p) { state = st }) }

  -- the stacks that an interrupt finds: the `tss->ist` entries of the thread's processor
  pub set_tss : ℕ → Threads → Threads
  set_tss p s =
      let t = s.threads p in
      record s {
        tss_routine = update s.tss_routine t.gs.cpu t.irq_stack;
        tss_exception = update s.tss_exception t.gs.cpu t.isr_stack;
      }

  -- `threadSelect` up to `threadContextSwitch`, which does not return; `none` waits for the lock
  pub thread_select : ℕ → Threads → Option Threads
  thread_select p s =
      let t = set_state p ThreadState.running (record s { current_thread = p }) in
      if p == 0
      then some s
      else (if s.lock
          then none
          else some (set_tss p (set_kern_gs (s.threads p).gs_address (set_user_gs 0 t))))

  -- What `threadNext` does: it returns an id, or enters a thread that has never run.
  pub data Next : Type 0 where
    returned : ℕ → Threads → Next
    entered : Threads → Next

  abbrev is_new : ThreadState → Bool
  is_new ThreadState.new = true
  is_new _ = false

  -- `threadNext`; `none` waits for a lock, or follows a `NULL` pointer
  pub thread_next : Threads → Option Next
  thread_next s = do
    let cpu = (s.threads s.current_thread).gs.cpu
    let s1 = record s {
      context_switches = update s.context_switches cpu (u64 (s.context_switches cpu + 1));
    }
    let s2 = set_state s.current_thread ThreadState.ready s1
    p ← get_thread_with_min_runtime s2
    let switched = set_state p ThreadState.running s2
    let s3 = set_tss p (
        set_kern_gs 0
          (set_user_gs (s.threads p).gs_address (record switched { current_thread = p })))
    if p == 0 || s.current_thread == 0
        then none
        else (if is_new (s2.threads p).state
            then (thread_select p s2 >>= λ t. some (Next.entered t))
            else some (Next.returned (s.threads p).id s3))

  -- `irqThreadTimerHandler`; the end-of-interrupt signal to the controller is left out
  pub irq_thread_timer_handler : Threads → Option Next
  irq_thread_timer_handler s =
      let c = s.current_thread in
      let t = record s { timer_ticks = u64 (s.timer_ticks + 1) } in
      let u = if c == 0 then t else record t {
        threads =
            update t.threads c (record (t.threads c) {
              runtime = u64 ((t.threads c).runtime + t.tick_microseconds);
            });
      } in
      let switch = thread_next u in
      if not (u.user_gs == 0) && u.kern_gs == 0 then switch else some (Next.returned 0 u)

  -- what `threadSchedule`, `threadBlock` and `threadKill` share: both locks, a state and a list
  pub move_thread : ThreadState → (ops.Lst → ops.Lst) → ℕ → Threads → Option Threads
  move_thread st change p s =
      let cpu = (s.threads p).gs.cpu in
      let t = set_state p st s in
      if p == 0
      then some s
      else (if s.lock || (s.threads p).lock
          then none
          else some
              (record t { ready_lists = update t.ready_lists cpu (change (t.ready_lists cpu)) }))

  -- `threadSchedule`
  pub thread_schedule : ℕ → Threads → Option Threads
  thread_schedule p s = move_thread ThreadState.ready (λ l. ops.list_push_back l p) p s

  -- `threadBlock`
  pub thread_block : ℕ → Threads → Option Threads
  thread_block p s = move_thread ThreadState.blocked (λ l. ops.list_remove p l) p s

  -- `threadKill`
  pub thread_kill : ℕ → Threads → Option Threads
  thread_kill p s = move_thread ThreadState.dying (λ l. ops.list_remove p l) p s

  -- the state behind `getMinRuntime` in `threadCreate`: `p` and `gs_address` are what `kmalloc`
  -- returned, `cr3` and `space` the new address space, `entry` what `elfLoad` returned. The
  -- assignment in the source's `if` is kept.
  pub created : ℕ → ℕ → ℕ → ℕ → ℕ → ℕ → ℕ → Threads → Threads
  created p gs_address cr3 space entry priority parent s =
      let assigned = 2 ^ 64 - 1 in
      let stack : ℕ → ℕ = λ start. u64 (start + 0x1000000 * s.next_thread_id) in
      let t : Thread = record {
        id = s.next_thread_id;
        parent = parent;
        priority = priority;
        state = ThreadState.new;
        runtime = if not (assigned == 0) then 0 else assigned;
        lock = (s.threads p).lock;
        usr_stack = stack usrstack_start;
        space = space;
        gs = record {
          syscall = 0;
          ker_rsp = stack kerstack_start;
          usr_rsp = stack usrstack_start;
          pc = entry;
          cpu = 0;
          ctx = record {
            registers = cleared_registers;
            rip = entry;
            cr3 = sub64 cr3 page_direct_base;
          };
          thread = p;
          irq_rsp = stack irqstack_start;
          isr_rsp = stack isrstack_start;
        };
        gs_address = gs_address;
        ker_stack = stack kerstack_start;
        irq_stack = stack irqstack_start;
        isr_stack = stack isrstack_start;
        magic = thread_magic;
      } in
      record s {
        next_thread_id = u64 (s.next_thread_id + 1);
        threads = update s.threads p t;
        threadlist = ops.list_push_back s.threadlist p;
        ready_lists = update s.ready_lists 0 (ops.list_push_back (s.ready_lists 0) p);
      }

  -- `threadCreate` behind `elfLoad`
  pub thread_create : ℕ → ℕ → ℕ → ℕ → ℕ → ℕ → ℕ → Threads → Option Threads
  thread_create p gs_address cr3 space entry priority parent s = do
    least ← get_min_runtime s
    some (created p gs_address cr3 space entry priority parent s)
