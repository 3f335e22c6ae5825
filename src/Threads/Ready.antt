-- ===== src/Threads/Ready.antt =====
-- The ready list of kernel/threads/thread.c.
use angl_os.Base.{
  ℕ, ◌≡◌, ◌≢◌, refl, ap, ◌∙◌, false, some, List, [], ◌∷◌, ◌++◌, update, update_self, ==_ne, ==_iff,
}
use angl_os.Threads.{
  Threads, ThreadState, set_state, move_thread, thread_schedule, thread_block, thread_create,
  created, get_min_runtime,
}
use angl_os.KernelLists.{ListOps, Absent}

module _ (ops : ListOps) where
  move_thread-some :
      (st : ThreadState) (change : ops.Lst → ops.Lst) (p : ℕ) (s : Threads ops)
      → p ≢ 0
      → s.lock ≡ false
      → (s.threads p).lock ≡ false
      → (t : Threads ops) × (move_thread ops st change p s ≡ some t)
        × ((t.threads p).state ≡ st)
        × (t.ready_lists (s.threads p).gs.cpu ≡ change (s.ready_lists (s.threads p).gs.cpu))
  unfolding move_thread set_state
  move_thread-some st change p s ne free unlocked =
      let cpu = (s.threads p).gs.cpu in
      let t = set_state ops p st s in
      (
        record t { ready_lists = update t.ready_lists cpu (change (t.ready_lists cpu)) },
        rw (==_ne p 0 ne, free, unlocked) refl,
        ap (λ x. x.state) (update_self s.threads p (record (s.threads p) { state = st })),
        update_self s.ready_lists cpu (change (s.ready_lists cpu)),
      )

  -- `threadBlock` of a ready thread, where no lock is held, marks it blocked and takes it out of
  -- its processor's ready list, which keeps its order.
  pub thread_block_lem :
      (p : ℕ) (s : Threads ops) (xs ys : List ℕ)
      → p ≢ 0
      → s.lock ≡ false
      → (s.threads p).lock ≡ false
      → Absent p xs
      → ops.elements (s.ready_lists (s.threads p).gs.cpu) ≡ xs ++ (p ∷ ys)
      → (t : Threads ops) × (thread_block ops p s ≡ some t)
        × ((t.threads p).state ≡ ThreadState.blocked)
        × (ops.elements (t.ready_lists (s.threads p).gs.cpu) ≡ xs ++ ys)
  unfolding thread_block
  thread_block_lem p s xs ys ne free unlocked absent e =
      let (t, eq, st, l) =
        move_thread-some ThreadState.blocked (λ l. ops.list_remove p l) p s ne free unlocked in
      (
        t,
        eq,
        st,
        ap ops.elements l
            ∙ ops.remove-elements (s.ready_lists (s.threads p).gs.cpu) p xs ys absent e,
      )

  -- `threadSchedule`, where no lock is held, marks the thread ready and puts it at the end of its
  -- processor's ready list, on which it may stand already.
  pub thread_schedule_lem :
      (p : ℕ) (s : Threads ops)
      → p ≢ 0
      → s.lock ≡ false
      → (s.threads p).lock ≡ false
      → (t : Threads ops) × (thread_schedule ops p s ≡ some t)
        × ((t.threads p).state ≡ ThreadState.ready)
        × (ops.elements (t.ready_lists (s.threads p).gs.cpu)
            ≡ ops.elements (s.ready_lists (s.threads p).gs.cpu) ++ (p ∷ []))
  unfolding thread_schedule
  thread_schedule_lem p s ne free unlocked =
      let (t, eq, st, l) =
        move_thread-some ThreadState.ready (λ l. ops.list_push_back l p) p s ne free unlocked in
      (t, eq, st, ap ops.elements l ∙ ops.push_back-elements (s.ready_lists (s.threads p).gs.cpu) p)

  -- A thread that `threadCreate` makes has runtime 0, whatever the least runtime of the ready
  -- threads is.
  pub thread_create-runtime :
      (p gs_address cr3 space entry priority parent least : ℕ) (s : Threads ops)
      → get_min_runtime ops s ≡ some least
      → (t : Threads ops) × (thread_create ops p gs_address cr3 space entry priority parent s
          ≡ some t)
        × ((t.threads p).runtime ≡ 0)
        × (ops.elements (t.ready_lists 0) ≡ ops.elements (s.ready_lists 0) ++ (p ∷ []))
  unfolding thread_create created
  thread_create-runtime p gs_address cr3 space entry priority parent least s e =
      let t = created ops p gs_address cr3 space entry priority parent s in
      (
        t,
        rw e refl,
        rw ((==_iff p p).1 refl) refl,
        ap ops.elements (update_self s.ready_lists 0 (ops.list_push_back (s.ready_lists 0) p))
            ∙ ops.push_back-elements (s.ready_lists 0) p,
      )
