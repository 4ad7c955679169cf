-- ===== src/Sched/Dispatch.antt =====
-- kernel/src/sched.rs: the operations that choose the thread that runs next. A pointer to the
-- context of a thread is its slot; the write of `prepare_resume_slot` to the task state segment is a
-- result, of which `stacks` is the address of the user stacks. A loop over `0..thread_count` that
-- leaves the thread table stops the kernel.
use mathlib.Core.Option
use hxnu.Base.{
  ℕ, zero, suc, ◌+◌, ◌*◌, Bool, true, false, not, ◌&&◌, ◌||◌, Option, none, some, List, [], ◌∷◌,
  Result, ok, err, leb, ◌==◌, if◌then◌else◌, sat_add, get_or,
}
use hxnu.Sched.{
  Scheduler, Thread, ThreadState, ThreadRole, SchedulerError, max_priorities, max_threads,
  thread_at, set_thread, set_state, is_running, is_blocked, is_exited, is_user, enqueue, dequeue,
  remove, no_bits, trailing_zeros, depth_of, row_of, priority_for_thread,
}

pub record DispatchDecision : Type 0 where
  pub current_thread_id : ℕ
  pub current_thread_role : ThreadRole
  pub context_switches : ℕ

-- Two contexts to switch between, with what else the caller is given.
pub record Switch : Type 0 where
  pub current : ℕ
  pub next : ℕ
  pub rsp0 : Option ℕ

-- What stops the kernel: an index out of bounds, and `unwrap` without a value.
pub data Panic : Type 0 where
  index_out_of_bounds unwrap_none : Panic

abbrev pub kernel_stack_size : ℕ
kernel_stack_size = 16384

abbrev pub is_slot : Option ℕ → ℕ → Bool
is_slot none slot = false
is_slot (some c) slot = c == slot

abbrev pub dispatch_snapshot : Scheduler → ℕ → DispatchDecision
dispatch_snapshot s slot = record {
  current_thread_id = (thread_at s slot).id;
  current_thread_role = (thread_at s slot).role;
  context_switches = s.context_switches;
}

abbrev pub prepare_resume_slot : ℕ → Scheduler → ℕ → Option ℕ
prepare_resume_slot stacks s slot =
    if is_user (thread_at s slot).role
    then some (stacks + slot * kernel_stack_size + kernel_stack_size)
    else none

-- The state becomes `Runnable` and the slot goes to the end of its queue.
unfoldable pub put_back : ℕ → Scheduler → Scheduler
put_back slot s = (enqueue slot (set_state slot ThreadState.runnable s)).0

-- The saturating counters of a thread and of the scheduler.
abbrev pub ticked : Thread → Thread
ticked t = record t { total_ticks = sat_add t.total_ticks 1 }

abbrev pub dispatched : Thread → Thread
dispatched t = record t { dispatch_count = sat_add t.dispatch_count 1 }

abbrev pub count_tick : ℕ → Scheduler → Scheduler
count_tick slot s = set_thread slot (ticked (thread_at s slot)) s

abbrev pub count_dispatch : ℕ → Scheduler → Scheduler
count_dispatch slot s = set_thread slot (dispatched (thread_at s slot)) s

abbrev pub count_switch : Scheduler → Scheduler
count_switch s = record s { context_switches = sat_add s.context_switches 1 }

-- The slot becomes the current one, and its thread runs.
unfoldable pub run_slot : ℕ → Scheduler → Scheduler
run_slot slot s = set_state slot ThreadState.running (record s { current_slot = some slot })

-- The current thread's tick, and its way back to its queue.
unfoldable pub charge_slot : Option ℕ → Scheduler → Scheduler
charge_slot none s = s
charge_slot (some current) s =
    if is_running (thread_at s current).state
    then put_back current (count_tick current s)
    else if is_blocked (thread_at s current).state
    then count_tick current s
    else s

abbrev pub charge_current : Scheduler → Scheduler
charge_current s = charge_slot s.current_slot s

-- A thread that runs goes back to its queue.
unfoldable pub put_back_running_slot : Option ℕ → Scheduler → Scheduler
put_back_running_slot none s = s
put_back_running_slot (some current) s =
    if is_running (thread_at s current).state then put_back current s else s

abbrev pub put_back_current : Scheduler → Scheduler
put_back_current s = put_back_running_slot s.current_slot s

abbrev pub is_none : Option ℕ → Bool
is_none none = true
is_none (some slot) = false

unfoldable pub on_timer_tick : Scheduler → Scheduler × Option DispatchDecision
on_timer_tick s =
    if not s.initialized || no_bits s.runqueue_bitmap && is_none s.current_slot
    then (s, none)
    else let charged = charge_current s in
      if no_bits charged.runqueue_bitmap
      then (record charged { current_slot = none }, none)
      else let best = trailing_zeros charged.runqueue_bitmap in
        if leb max_priorities best
        then (charged, none)
        else let taken = dequeue best charged in
          elim taken.1 [
            | none ↦ (taken.0, none)
            | some next ↦
                let counted =
                  if is_slot taken.0.current_slot next then taken.0 else count_switch taken.0 in
                let after = count_dispatch next (run_slot next counted) in
                (after, some (dispatch_snapshot after next))
          ]

unfoldable pub next_switch_index : Scheduler → Option ℕ
next_switch_index s =
    if not s.initialized || no_bits s.runqueue_bitmap
    then none
    else let best = trailing_zeros s.runqueue_bitmap in
      if leb max_priorities best
      then none
      else if depth_of s best == 0
      then none
      else let next = get_or (row_of s best) 0 0 in
        if is_slot s.current_slot next then none else some next

-- The switch from a current slot to the next one, if there are both.
unfoldable pub switch_slots :
    ℕ → Option ℕ → Option ℕ → Scheduler → Scheduler × Option (Switch × DispatchDecision)
switch_slots stacks none next s = (s, none)
switch_slots stacks (some current) none s = (s, none)
switch_slots stacks (some current) (some next) s =
    let waiting = put_back_running_slot (some current) s in
    let taken = dequeue (priority_for_thread waiting next) waiting in
    elim taken.1 [
      | none ↦ (taken.0, none)
      | some dequeued ↦
          let after = count_switch (count_dispatch dequeued (run_slot dequeued taken.0)) in
          (
            after,
            some (
              record {
                current = current;
                next = dequeued;
                rsp0 = prepare_resume_slot stacks after dequeued;
              },
              dispatch_snapshot after dequeued,
            ),
          )
    ]

abbrev pub context_switch_pair : ℕ → Scheduler → Scheduler × Option (Switch × DispatchDecision)
context_switch_pair stacks s = switch_slots stacks s.current_slot (next_switch_index s) s

abbrev pub saved : ℕ → Thread → Thread
saved user_rsp t = record t { context = record (t.context) { rsp = user_rsp } }

-- The thread in the current slot yields. The result is the slot that is resumed and the stack that
-- is set for it.
unfoldable pub yield_slot :
    ℕ → ℕ → Option ℕ → Scheduler → Scheduler × Result (Option (ℕ × Option ℕ)) Panic
yield_slot stacks saved_user_rsp none s = (s, ok none)
yield_slot stacks saved_user_rsp (some current) s =
    let t = thread_at s current in
    if not s.initialized || not (is_user t.role) || is_exited t.state
    then (s, ok none)
    else let waiting =
        put_back_running_slot (some current) (set_thread current (saved saved_user_rsp t) s) in
      let best = trailing_zeros waiting.runqueue_bitmap in
      if leb max_priorities best
      then (waiting, ok none)
      else let taken = dequeue best waiting in
        elim taken.1 [
          | none ↦ (taken.0, err Panic.unwrap_none)
          | some next ↦
              if next == current
              then (set_state current ThreadState.running taken.0, ok none)
              else let after = count_switch (count_dispatch next (run_slot next taken.0)) in
                (after, ok (some (next, prepare_resume_slot stacks after next)))
        ]

abbrev pub yield_current_user_thread :
    ℕ → ℕ → Scheduler → Scheduler × Result (Option (ℕ × Option ℕ)) Panic
yield_current_user_thread stacks saved_user_rsp s =
    yield_slot stacks saved_user_rsp s.current_slot s

abbrev pub current_context_ptr_for_resume : ℕ → Scheduler → Option (ℕ × Option ℕ)
current_context_ptr_for_resume stacks s =
    if not s.initialized
    then none
    else Option.map (λ slot. (slot, prepare_resume_slot stacks s slot)) s.current_slot

abbrev pub activate_thread_slot : ℕ → Scheduler → Scheduler × Result (Unit {0}) SchedulerError
activate_thread_slot target s =
    if not s.initialized || leb s.thread_count target
    then (s, err SchedulerError.missing_idle_thread)
    else if is_slot s.current_slot target
    then (s, ok tt)
    else (count_switch (run_slot target (remove target (put_back_current s))), ok tt)

-- The first of `count` threads that passes a test.
abbrev pub slot_where : (Thread → Bool) → List Thread → ℕ → Result (Option ℕ) Panic
slot_where test threads zero = ok none
slot_where test [] (suc count) = err Panic.index_out_of_bounds
slot_where test (t ∷ ts) (suc count) =
    let rest = slot_where test ts count in
    if test t
    then ok (some 0)
    else elim rest [ ok found ↦ ok (Option.map suc found) | err e ↦ err e ]

abbrev pub first_runnable_user_slot : Scheduler → Result (Option ℕ) Panic
first_runnable_user_slot s =
    slot_where (λ t. is_user t.role && not (is_exited t.state)) s.threads s.thread_count

abbrev pub idle_slot : Scheduler → Result (Option ℕ) Panic
idle_slot s = slot_where (λ t. t.id == s.idle_thread_id) s.threads s.thread_count

abbrev pub bootstrap_slot : Scheduler → Result (Option ℕ) Panic
bootstrap_slot s = slot_where (λ t. t.id == s.bootstrap_thread_id) s.threads s.thread_count

-- The loop over `slot..slot + n`.
abbrev pub put_back_running : ℕ → ℕ → Scheduler → Result Scheduler Panic
put_back_running zero slot s = ok s
put_back_running (suc n) slot s =
    let next = if is_running (thread_at s slot).state then put_back slot s else s in
    let rest = put_back_running n (slot + 1) next in
    if leb max_threads slot then err Panic.index_out_of_bounds else rest

abbrev pub restore_bootstrap_as_current : Scheduler → Result Scheduler Panic
restore_bootstrap_as_current s = elim (bootstrap_slot s) [
  | err e ↦ err e
  | ok none ↦ ok s
  | ok (some slot) ↦ elim (put_back_running s.thread_count 0 s) [
    | err e ↦ err e
    | ok waiting ↦ ok (count_dispatch slot (run_slot slot (remove slot waiting)))
  ]
]

-- `initial_context_pair` fails, or stops the kernel.
pub data Fault : Type 0 where
  failed : SchedulerError → Fault
  panicked : Panic → Fault

-- The first thread to run in place of the bootstrap thread.
abbrev pub first_target : Scheduler → Result ℕ Fault
first_target s = elim (first_runnable_user_slot s) [
  | err panic ↦ err (Fault.panicked panic)
  | ok (some slot) ↦ ok slot
  | ok none ↦ elim (idle_slot s) [
    | err panic ↦ err (Fault.panicked panic)
    | ok none ↦ err (Fault.failed SchedulerError.missing_idle_thread)
    | ok (some slot) ↦ ok slot
  ]
]

-- The switch to a target; the bootstrap thread's slot must be another, or the second half of the
-- table is split off behind both.
abbrev pub switch_to_target : ℕ → ℕ → Scheduler → Result ℕ Fault → Scheduler × Result Switch Fault
switch_to_target stacks bootstrap s (err fault) = (s, err fault)
switch_to_target stacks bootstrap s (ok target) =
    let activated = activate_thread_slot target s in
    elim activated.1 [
      | err e ↦ (activated.0, err (Fault.failed e))
      | ok _ ↦
          if bootstrap == target
          then (activated.0, err (Fault.panicked Panic.index_out_of_bounds))
          else (
            activated.0,
            ok (record {
              current = bootstrap;
              next = target;
              rsp0 = prepare_resume_slot stacks activated.0 target;
            }),
          )
    ]

abbrev pub initial_context_pair : ℕ → Scheduler → Scheduler × Result Switch Fault
initial_context_pair stacks s = elim (bootstrap_slot s) [
  | err panic ↦ (s, err (Fault.panicked panic))
  | ok none ↦ (s, err (Fault.failed SchedulerError.missing_idle_thread))
  | ok (some bootstrap) ↦
      let ended = set_state bootstrap ThreadState.exited s in
      switch_to_target stacks bootstrap ended (first_target ended)
]
