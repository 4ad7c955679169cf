-- ===== src/Sched/Create.antt =====
-- A user thread that is created by kernel/src/sched.rs, on a valid scheduler.
use hxnu.Base.{
  ℕ, ◌+◌, ◌<◌, ◌≡◌, refl, sym, ap, ◌∙◌, subst, true, false, not, inl, inr, arith, length, leb,
  leb_false→lt, get_or-set_self, set-set, Bool-cases, ok, err, sat_add, Result,
}
use hxnu.Sched.{
  Scheduler, Thread, ThreadRole, SchedulerError, ProcessIdentity, TaskContext, max_threads,
  set_thread, enqueue, empty, no_context,
}
use hxnu.Sched.Valid.{IsValid, runnable_at}
use hxnu.Sched.Switching.{fields_IsValid}
use hxnu.Sched.Life
use hxnu.Sched.Threads.{enter-IsValid}

create_thread_full :
    (cr3 : ℕ) (role : ThreadRole) (identity : ProcessIdentity) (s : Scheduler)
    → leb max_threads s.thread_count ≡ true
    → Life.create_thread cr3 role identity s ≡ (s, err SchedulerError.thread_table_full)
unfolding Life.create_thread
create_thread_full cr3 role identity s full = rw full refl

-- A new user thread, before its context is set up.
abbrev pub created : Scheduler → Thread
created s = Life.created_thread s.next_thread_id ThreadRole.user (Life.user_identity s) no_context

abbrev pub counted_up : Scheduler → Scheduler
counted_up s = record s {
  next_thread_id = sat_add s.next_thread_id 1;
  thread_count = s.thread_count + 1;
}

create_thread_room :
    (s : Scheduler)
    → leb max_threads s.thread_count ≡ false
    → Life.create_thread 0 ThreadRole.user (Life.user_identity s) s
      ≡ (set_thread s.thread_count (created s) (counted_up s), ok s.thread_count)
unfolding Life.create_thread
create_thread_room s room = rw room refl

set_context_lem :
    (s : Scheduler) (slot : ℕ) (t : Thread) (f : TaskContext → TaskContext)
    → slot < length s.threads
    → Life.set_context slot f (set_thread slot t s) ≡ set_thread slot (Life.with_context f t) s
set_context_lem s slot t f below =
    let read = get_or-set_self s.threads slot t empty below in
    ap (λ u. set_thread slot (Life.with_context f u) (set_thread slot t s)) read
    ∙ ap (λ ts. record s { threads = ts }) (set-set s.threads slot t (Life.with_context f t))

report_user_lem :
    (slot : ℕ) (out : Scheduler × Result (Unit {0}) SchedulerError)
    → (Life.report_user slot out).0 ≡ out.0
report_user_lem slot (s, ok _) = refl
report_user_lem slot (s, err e) = refl

-- A thread is created in a slot without a thread that waits: it takes the slot, and is queued.
pub create_user_thread-IsValid :
    (user_context : ℕ → TaskContext → TaskContext) (s : Scheduler)
    → runnable_at s s.thread_count ≡ false
    → IsValid s
    → IsValid (Life.create_user_thread user_context s).0
unfolding Life.create_user_thread
create_user_thread-IsValid user_context s idle v = elim (Bool-cases (not s.initialized)) [
  | inl off ↦ rw (Life.create_user_thread, off) v
  | inr on ↦ elim (Bool-cases (leb max_threads s.thread_count)) [
    | inl full ↦
        let refused = create_thread_full 0 ThreadRole.user (Life.user_identity s) s full in
        rw (Life.create_user_thread, on, refused) v
    | inr room ↦
        let slot = s.thread_count in
        let below = leb_false→lt max_threads slot room in
        let t = Life.with_context (user_context slot) (created s) in
        let placed =
          set_context_lem (counted_up s) slot (created s) (user_context slot)
            (omega (arith, v.queued.shaped.table)) in
        let counted =
          fields_IsValid s (sat_add s.next_thread_id 1) (slot + 1) s.context_switches v in
        let made =
          ap (Life.queue_user user_context) (create_thread_room s room)
          ∙ ap (λ w. Life.report_user slot (enqueue slot w)) placed in
        rw (Life.create_user_thread, on, made)
          (subst IsValid
            (sym (report_user_lem slot (enqueue slot (set_thread slot t (counted_up s)))))
            (enter-IsValid (counted_up s) slot t below idle refl counted))
  ]
]
