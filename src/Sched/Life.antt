-- ===== src/Sched/Life.antt =====
-- kernel/src/sched.rs: how threads come and go. What the code takes from elsewhere is an argument:
-- the page table that is loaded, the contexts that `arch::x86_64` sets up, and the page table that
-- `clone_space` returns. A process identifier of 64 bits with a sign is its bit pattern.
use mathlib.Core.Option
use hxnu.Base.{
  ℕ, suc, ◌+◌, ◌-◌, ◌^◌, Bool, true, false, not, ◌&&◌, ◌||◌, Option, none, some, List, [], ◌∷◌,
  Result, ok, err, leb, ◌==◌, if◌then◌else◌, sat_add,
}
use hxnu.Sched.{
  Scheduler, Thread, ThreadState, ThreadRole, TaskContext, ProcessIdentity, SchedulerError,
  max_threads, no_fds, no_context, empty, new, thread_at, set_thread, set_state, is_running,
  is_blocked, is_exited, is_unused, is_user, enqueue,
}

abbrev pub created_thread : ℕ → ThreadRole → ProcessIdentity → TaskContext → Thread
created_thread id role identity context = record empty {
  id = id;
  process_id = identity.process_id;
  parent_process_id = identity.parent_process_id;
  thread_group_id = identity.thread_group_id;
  role = role;
  state = ThreadState.runnable;
  context = context;
}

unfoldable pub create_thread :
    ℕ → ThreadRole → ProcessIdentity → Scheduler → Scheduler × Result ℕ SchedulerError
create_thread loaded_cr3 role identity s =
    let slot = s.thread_count in
    if leb max_threads slot
    then (s, err SchedulerError.thread_table_full)
    else let counted = record s {
      next_thread_id = sat_add s.next_thread_id 1;
      thread_count = slot + 1;
    } in
      let context = if is_user role then no_context else record no_context { cr3 = loaded_cr3 } in
      (set_thread slot (created_thread s.next_thread_id role identity context) counted, ok slot)

abbrev pub with_context : (TaskContext → TaskContext) → Thread → Thread
with_context change t = record t { context = change (t.context) }

abbrev pub set_context : ℕ → (TaskContext → TaskContext) → Scheduler → Scheduler
set_context slot change s = set_thread slot (with_context change (thread_at s slot)) s

abbrev pub bootstrap_identity : ProcessIdentity
bootstrap_identity = record { process_id = 1; parent_process_id = 0; thread_group_id = 1 }

abbrev pub idle_identity : ProcessIdentity
idle_identity = record { process_id = 0; parent_process_id = 0; thread_group_id = 0 }

-- After the two threads are created and queued.
abbrev pub start_threads : (TaskContext → TaskContext) → ℕ → ℕ → Scheduler → Scheduler
start_threads idle_context bootstrap idle s =
    let t = thread_at s bootstrap in
    let started =
      set_thread bootstrap (record t { state = ThreadState.running; dispatch_count = 1 }) s in
    let ready = set_context idle idle_context (set_state idle ThreadState.runnable started) in
    record ready {
      initialized = true;
      bootstrap_thread_id = (thread_at ready bootstrap).id;
      idle_thread_id = (thread_at ready idle).id;
    }

unfoldable pub initialize_bootstrap_threads :
    ℕ → (TaskContext → TaskContext) → Scheduler × Result (Unit {0}) SchedulerError
initialize_bootstrap_threads loaded_cr3 idle_context =
    let first = create_thread loaded_cr3 ThreadRole.bootstrap bootstrap_identity new in
    elim first.1 [
      | err e ↦ (first.0, err e)
      | ok bootstrap ↦
          let second = create_thread loaded_cr3 ThreadRole.idle idle_identity first.0 in
          elim second.1 [
            | err e ↦ (second.0, err e)
            | ok idle ↦
                let third = enqueue bootstrap second.0 in
                elim third.1 [
                  | err e ↦ (third.0, err e)
                  | ok _ ↦
                      let fourth = enqueue idle third.0 in
                      elim fourth.1 [
                        | err e ↦ (fourth.0, err e)
                        | ok _ ↦ (start_threads idle_context bootstrap idle fourth.0, ok tt)
                      ]
                ]
          ]
    ]

-- The identifiers of the thread that was queued, and of its process.
abbrev pub report_user :
    ℕ → Scheduler × Result (Unit {0}) SchedulerError → Scheduler × Result (ℕ × ℕ) SchedulerError
report_user slot (s, err e) = (s, err e)
report_user slot (s, ok _) = (s, ok ((thread_at s slot).id, (thread_at s slot).process_id))

-- What follows the creation of the thread.
abbrev pub queue_user :
    (ℕ → TaskContext → TaskContext)
    → Scheduler × Result ℕ SchedulerError
    → Scheduler × Result (ℕ × ℕ) SchedulerError
queue_user user_context (s, err e) = (s, err e)
queue_user user_context (s, ok slot) =
    report_user slot (enqueue slot (set_context slot (user_context slot) s))

abbrev pub user_identity : Scheduler → ProcessIdentity
user_identity s = record {
  process_id = s.next_thread_id;
  parent_process_id = 0;
  thread_group_id = s.next_thread_id;
}

unfoldable pub create_user_thread :
    (ℕ → TaskContext → TaskContext) → Scheduler → Scheduler × Result (ℕ × ℕ) SchedulerError
create_user_thread user_context s =
    if not s.initialized
    then (s, err SchedulerError.missing_idle_thread)
    else queue_user user_context (create_thread 0 ThreadRole.user (user_identity s) s)

-- The first slot whose thread passes a test, in a loop over the whole table.
abbrev pub first : (Thread → Bool) → List Thread → Option ℕ
first test [] = none
first test (t ∷ ts) = if test t then some 0 else Option.map suc (first test ts)

abbrev pub any : (Thread → Bool) → List Thread → Bool
any test [] = false
any test (t ∷ ts) = test t || any test ts

abbrev pub unused : Thread → Bool
unused t = is_unused t.state

abbrev pub child_of : Thread → ℕ → ℕ → Thread
child_of parent child_id new_cr3 = record empty {
  id = child_id;
  process_id = child_id;
  parent_process_id = parent.process_id;
  thread_group_id = child_id;
  role = parent.role;
  state = ThreadState.runnable;
  base_priority = parent.base_priority;
  fd_table = parent.fd_table;
  context = record (parent.context) { cr3 = new_cr3 };
}

-- The thread in the current slot forks; `free` is the first slot that is unused.
unfoldable pub fork_slot : ℕ → Option ℕ → Option ℕ → Scheduler → Scheduler × Result ℕ SchedulerError
fork_slot new_cr3 none free s = (s, err SchedulerError.thread_table_full)
fork_slot new_cr3 (some parent) none s = (s, err SchedulerError.thread_table_full)
fork_slot new_cr3 (some parent) (some slot) s =
    if not s.initialized
    then (s, err SchedulerError.thread_table_full)
    else let counted = record s {
      next_thread_id = sat_add s.next_thread_id 1;
      thread_count = s.thread_count + 1;
    } in
      if new_cr3 == 0
      then (counted, err SchedulerError.thread_table_full)
      else let child = child_of (thread_at s parent) s.next_thread_id new_cr3 in
        ((enqueue slot (set_thread slot child counted)).0, ok s.next_thread_id)

abbrev pub fork_current_thread : ℕ → Scheduler → Scheduler × Result ℕ SchedulerError
fork_current_thread new_cr3 s = fork_slot new_cr3 s.current_slot (first unused s.threads) s

abbrev pub any_child : ℕ
any_child = 2 ^ 64 - 1

abbrev pub is_child : ℕ → ℕ → Thread → Bool
is_child parent_pid target_pid t =
    t.parent_process_id == parent_pid && (target_pid == any_child || t.id == target_pid)

abbrev pub exited_child : ℕ → ℕ → Thread → Bool
exited_child parent_pid target_pid t = is_child parent_pid target_pid t && is_exited t.state

unfoldable pub reap_child : ℕ → ℕ → Scheduler → Scheduler × Result (ℕ × ℕ) Bool
reap_child parent_pid target_pid s = elim (first (exited_child parent_pid target_pid) s.threads) [
  | none ↦ (s, err (any (is_child parent_pid target_pid) s.threads))
  | some slot ↦ (
    record (set_state slot ThreadState.unused s) { thread_count = s.thread_count - 1 },
    ok ((thread_at s slot).id, (thread_at s slot).exit_status),
  )
]

unfoldable pub block_slot : Option ℕ → Scheduler → Scheduler
block_slot none s = s
block_slot (some slot) s =
    if is_running (thread_at s slot).state then set_state slot ThreadState.blocked s else s

abbrev pub block_current_thread : Scheduler → Scheduler
block_current_thread s = block_slot s.current_slot s

abbrev pub blocked : ℕ → ℕ → Thread → Bool
blocked target_pid target_tid t =
    t.process_id == target_pid && t.id == target_tid && is_blocked t.state

-- The result is the address of the trap frame and the value that is written to its `rax`.
unfoldable pub unblock_thread_with_result : ℕ → ℕ → ℕ → Scheduler → Scheduler × Option (ℕ × ℕ)
unblock_thread_with_result target_pid target_tid result s =
    elim (first (blocked target_pid target_tid) s.threads) [
      | none ↦ (s, none)
      | some slot ↦ (
        (enqueue slot (set_state slot ThreadState.runnable s)).0,
        some ((thread_at s slot).context.rsp, result),
      )
    ]

abbrev pub get_fd_table : Scheduler → List (Option ℕ)
get_fd_table s = elim s.current_slot [ none ↦ no_fds | some slot ↦ (thread_at s slot).fd_table ]

abbrev pub with_fd_table : List (Option ℕ) → Thread → Thread
with_fd_table table t = record t { fd_table = table }

unfoldable pub set_slot_fd_table : List (Option ℕ) → Option ℕ → Scheduler → Scheduler
set_slot_fd_table table none s = s
set_slot_fd_table table (some slot) s = set_thread slot (with_fd_table table (thread_at s slot)) s

abbrev pub set_fd_table : List (Option ℕ) → Scheduler → Scheduler
set_fd_table table s = set_slot_fd_table table s.current_slot s
