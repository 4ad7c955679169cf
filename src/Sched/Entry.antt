-- ===== src/Sched/Entry.antt =====
-- kernel/src/sched.rs: the global cells, and the functions that the rest of the kernel calls. The
-- hooks and the messages are left out; a switch of contexts is a result.
use hxnu.Base.{
  ℕ, zero, suc, ◌+◌, ◌%◌, ◌^◌, Bool, true, false, not, ◌&&◌, ◌||◌, Option, none, some, List, [],
  ◌∷◌, Result, ok, err, leb, if◌then◌else◌, sat_add,
}
use hxnu.Sched.{
  Scheduler, TaskContext, SchedulerError, thread_at, empty, Thread, ThreadRole, ThreadState,
}
use hxnu.Sched.Dispatch.{
  DispatchDecision, Switch, Panic, on_timer_tick, next_switch_index, context_switch_pair,
  restore_bootstrap_as_current,
}
use hxnu.Sched.Life.{initialize_bootstrap_threads}
use hxnu.Sched.Groups.{sum}

abbrev pub bootstrap_target_ticks : ℕ
bootstrap_target_ticks = 3

abbrev pub bootstrap_timeout_ns : ℕ
bootstrap_timeout_ns = 500000000

-- The cells of this file: `BOOTSTRAP_ACTIVE`, `SCHEDULER_READY`, `SCHEDULER_TICKS`, `SCHEDULER` and
-- `NEED_RESCHEDULE`.
pub record Cells : Type 0 where
  pub bootstrap_active : Bool
  pub scheduler_ready : Bool
  pub scheduler_ticks : ℕ
  pub scheduler : Scheduler
  pub need_reschedule : Bool

abbrev pub is_some {ℓ} : {A : Type ℓ} → Option A → Bool
is_some none = false
is_some (some a) = true

-- The result is the decision of the tick, if there was one.
abbrev pub on_timer_interrupt : Cells → Cells × Option DispatchDecision
on_timer_interrupt c =
    if not c.bootstrap_active && not c.scheduler_ready
    then (c, none)
    else let counted = record c { scheduler_ticks = (c.scheduler_ticks + 1) % 2 ^ 64 } in
      if not c.bootstrap_active
      then (
        record counted {
          need_reschedule = is_some (next_switch_index c.scheduler) || c.need_reschedule;
        },
        none,
      )
      else let ticked = on_timer_tick c.scheduler in
        (record counted { scheduler = ticked.0 }, ticked.1)

abbrev pub sched_yield_switch : Cells → Cells
sched_yield_switch c = record c {
  need_reschedule = is_some (next_switch_index c.scheduler) || c.need_reschedule;
}

-- The contexts that are switched, if a switch was asked for and there is another thread.
abbrev pub run_idle_cycle : ℕ → Cells → Cells × Option (Switch × DispatchDecision)
run_idle_cycle stacks c =
    if not c.need_reschedule
    then (c, none)
    else let switched = context_switch_pair stacks c.scheduler in
      (record c { need_reschedule = false; scheduler = switched.0 }, switched.1)

-- The loop of `bootstrap`: before each look at the tick counter some interrupts come, and each look
-- that does not end the loop reads the clock. Nothing is returned while the loop waits.
abbrev pub interrupts : ℕ → Cells → Cells
interrupts zero c = c
interrupts (suc n) c = interrupts n (on_timer_interrupt c).0

pub data BootError : Type 0 where
  scheduler_error : SchedulerError → BootError
  timeout : BootError
  panicked : Panic → BootError

abbrev pub wait_for_ticks : ℕ → List (ℕ × ℕ) → Cells → Option (Cells × Result (Unit {0}) BootError)
wait_for_ticks deadline [] c = none
wait_for_ticks deadline ((n, now) ∷ rounds) c =
    let seen = interrupts n c in
    let rest = wait_for_ticks deadline rounds seen in
    if leb bootstrap_target_ticks seen.scheduler_ticks
    then some (seen, ok tt)
    else if leb deadline now
    then some (record seen { bootstrap_active = false }, err BootError.timeout)
    else rest

-- The end of `bootstrap`, after the loop.
abbrev pub finish_bootstrap : Cells → Cells × Result (Unit {0}) BootError
finish_bootstrap c =
    let ready = record c { bootstrap_active = false; scheduler_ready = true } in
    elim (restore_bootstrap_as_current c.scheduler) [
      | err panic ↦ (ready, err (BootError.panicked panic))
      | ok restored ↦ (record ready { scheduler = restored }, ok tt)
    ]

-- `bootstrap`, with a timer that starts: `start` is the clock when it does.
abbrev pub bootstrap :
    ℕ
    → (TaskContext → TaskContext)
    → ℕ
    → List (ℕ × ℕ)
    → Cells
    → Option (Cells × Result (Unit {0}) BootError)
bootstrap loaded_cr3 idle_context start rounds c =
    let threads = initialize_bootstrap_threads loaded_cr3 idle_context in
    let reset = record c {
      bootstrap_active = false;
      scheduler_ready = false;
      scheduler_ticks = 0;
      scheduler = threads.0;
    } in
    elim threads.1 [
      | err e ↦ some (reset, err (BootError.scheduler_error e))
      | ok _ ↦
          let deadline = sat_add start bootstrap_timeout_ns in
          elim (wait_for_ticks deadline rounds (record reset { bootstrap_active = true })) [
            | none ↦ none
            | some (waited, err e) ↦ some (waited, err e)
            | some (waited, ok _) ↦ some (finish_bootstrap waited)
          ]
    ]

pub record SchedulerStats : Type 0 where
  pub thread_count : ℕ
  pub runqueue_depth : ℕ
  pub current_thread_id : ℕ
  pub current_process_id : ℕ
  pub current_parent_process_id : ℕ
  pub current_thread_role : ThreadRole
  pub current_thread_state : ThreadState
  pub total_ticks : ℕ
  pub context_switches : ℕ
  pub bootstrap_thread_id : ℕ
  pub idle_thread_id : ℕ

abbrev pub current_thread : Scheduler → Thread
current_thread s = elim s.current_slot [ none ↦ empty | some slot ↦ thread_at s slot ]

abbrev pub stats : Cells → SchedulerStats
stats c =
    let s = c.scheduler in
    let current = current_thread s in
    record {
      thread_count = s.thread_count;
      runqueue_depth = sum s.runqueue_depths;
      current_thread_id = current.id;
      current_process_id = current.process_id;
      current_parent_process_id = current.parent_process_id;
      current_thread_role = current.role;
      current_thread_state = current.state;
      total_ticks = c.scheduler_ticks;
      context_switches = s.context_switches;
      bootstrap_thread_id = s.bootstrap_thread_id;
      idle_thread_id = s.idle_thread_id;
    }

abbrev pub current_thread_id : Scheduler → ℕ
current_thread_id s = elim s.current_slot [ none ↦ 0 | some slot ↦ (thread_at s slot).id ]

abbrev pub current_process_id : Scheduler → ℕ
current_process_id s = elim s.current_slot [ none ↦ 0 | some slot ↦ (thread_at s slot).process_id ]

abbrev pub current_parent_process_id : Scheduler → ℕ
current_parent_process_id s = elim s.current_slot [
  | none ↦ 0
  | some slot ↦ (thread_at s slot).parent_process_id
]
