-- ===== src/Sched/History.antt =====
-- Sequences of calls on the scheduler of kernel/src/sched.rs.
use hxnu.Base.{ℕ, ◌≤◌, ◌<◌, ◌≡◌, sym, ◌∙◌, subst, arith, false, Option, some, List, ok}
use hxnu.Sched.{Scheduler, TaskContext, max_threads}
use hxnu.Sched.Valid.{IsValid, runnable_at}
use hxnu.Sched.Tick.{on_timer_tick-IsValid, context_switch_pair-IsValid}
use hxnu.Sched.Yield.{yield_current_user_thread-IsValid}
use hxnu.Sched.Threads.{
  block_current_thread-IsValid, unblock_thread_with_result-IsValid, reap_child-IsValid,
  set_fd_table-IsValid, fork_current_thread-IsValid,
}
use hxnu.Sched.Create.{create_user_thread-IsValid}
use hxnu.Sched.Exit.{request_exit_group-IsValid}
use hxnu.Sched.Resume.{activate_thread_slot-IsValid, restore_bootstrap_as_current-IsValid}
use hxnu.Sched.Dispatch
use hxnu.Sched.Life
use hxnu.Sched.Groups

-- The states that calls lead to from a first one. A thread is created only where none waits, and a
-- group exits, a slot is activated and the bootstrap thread returns only while the count of threads
-- fits the table; for the exit and the return it also covers the current slot.
pub data Reach (s₀ : Scheduler) : Scheduler → Type 0 where
  start : Reach s₀ s₀
  tick : {s : Scheduler} → Reach s₀ s → Reach s₀ (Dispatch.on_timer_tick s).0
  switch :
      {s : Scheduler} (stacks : ℕ) → Reach s₀ s → Reach s₀ (Dispatch.context_switch_pair stacks s).0
  yield :
      {s : Scheduler} (stacks user_rsp : ℕ)
      → Reach s₀ s
      → Reach s₀ (Dispatch.yield_current_user_thread stacks user_rsp s).0
  block : {s : Scheduler} → Reach s₀ s → Reach s₀ (Life.block_current_thread s)
  unblock :
      {s : Scheduler} (pid tid result : ℕ)
      → Reach s₀ s
      → Reach s₀ (Life.unblock_thread_with_result pid tid result s).0
  fork :
      {s : Scheduler} (new_cr3 : ℕ) → Reach s₀ s → Reach s₀ (Life.fork_current_thread new_cr3 s).0
  reap :
      {s : Scheduler} (parent_pid target_pid : ℕ)
      → Reach s₀ s
      → Reach s₀ (Life.reap_child parent_pid target_pid s).0
  set_files :
      {s : Scheduler} (table : List (Option ℕ)) → Reach s₀ s → Reach s₀ (Life.set_fd_table table s)
  create :
      {s : Scheduler} (user_context : ℕ → TaskContext → TaskContext)
      → runnable_at s s.thread_count ≡ false
      → Reach s₀ s
      → Reach s₀ (Life.create_user_thread user_context s).0
  exit :
      {s : Scheduler} (status : ℕ)
      → s.thread_count ≤ max_threads
      → ((c : ℕ) → s.current_slot ≡ some c → c < s.thread_count)
      → Reach s₀ s
      → Reach s₀ (Groups.request_exit_group status s).0
  activate :
      {s : Scheduler} (target : ℕ)
      → s.thread_count ≤ max_threads
      → Reach s₀ s
      → Reach s₀ (Dispatch.activate_thread_slot target s).0
  restore :
      {s s' : Scheduler}
      → s.thread_count ≤ max_threads
      → ((c : ℕ) → s.current_slot ≡ some c → c < s.thread_count)
      → Dispatch.restore_bootstrap_as_current s ≡ ok s'
      → Reach s₀ s
      → Reach s₀ s'

-- The invariant along a history.
pub Reach-IsValid : {s₀ s : Scheduler} → Reach s₀ s → IsValid s₀ → IsValid s
Reach-IsValid start v = v
Reach-IsValid (tick {s = s} r) v = on_timer_tick-IsValid s (Reach-IsValid r v)
Reach-IsValid (switch {s = s} stacks r) v = context_switch_pair-IsValid stacks s (Reach-IsValid r v)
Reach-IsValid (yield {s = s} stacks user_rsp r) v =
    (yield_current_user_thread-IsValid stacks user_rsp s (Reach-IsValid r v)).0
Reach-IsValid (block {s = s} r) v = block_current_thread-IsValid s (Reach-IsValid r v)
Reach-IsValid (unblock {s = s} pid tid result r) v =
    unblock_thread_with_result-IsValid pid tid result s (Reach-IsValid r v)
Reach-IsValid (fork {s = s} new_cr3 r) v = fork_current_thread-IsValid new_cr3 s (Reach-IsValid r v)
Reach-IsValid (reap {s = s} parent_pid target_pid r) v =
    reap_child-IsValid parent_pid target_pid s (Reach-IsValid r v)
Reach-IsValid (set_files {s = s} table r) v = set_fd_table-IsValid table s (Reach-IsValid r v)
Reach-IsValid (create {s = s} user_context free r) v =
    create_user_thread-IsValid user_context s free (Reach-IsValid r v)
Reach-IsValid (exit {s = s} status few inside r) v =
    request_exit_group-IsValid status s few inside (Reach-IsValid r v)
Reach-IsValid (activate {s = s} target few r) v =
    activate_thread_slot-IsValid target s few (Reach-IsValid r v)
Reach-IsValid (restore {s = s} few inside done r) v =
    let (s', result, valid) =
      restore_bootstrap_as_current-IsValid s few inside (Reach-IsValid r v) in
    subst IsValid (ground (arith, sym result ∙ done)) valid
