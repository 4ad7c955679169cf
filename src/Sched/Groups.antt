-- ===== src/Sched/Groups.antt =====
-- kernel/src/sched.rs: the exit of a thread group.
use hxnu.Base.{
  ℕ, zero, suc, ◌+◌, Bool, not, ◌&&◌, ◌||◌, Option, none, some, List, [], ◌∷◌, Result, ok, err, leb,
  ◌==◌, if◌then◌else◌,
}
use hxnu.Sched.{
  Scheduler, Thread, ThreadState, max_threads, thread_at, set_state, is_exited, dequeue, remove,
  no_bits, trailing_zeros,
}
use hxnu.Sched.Dispatch.{Panic, run_slot, count_switch}

pub record ExitGroupRecord : Type 0 where
  pub status : ℕ
  pub exited_thread_id : ℕ
  pub exited_process_id : ℕ
  pub exited_thread_count : ℕ
  pub next_thread_id : ℕ
  pub next_process_id : ℕ
  pub runqueue_depth : ℕ

abbrev pub sum : List ℕ → ℕ
sum [] = 0
sum (x ∷ xs) = x + sum xs

abbrev pub in_group : ℕ → Thread → Bool
in_group group t = t.thread_group_id == group && not (is_exited t.state)

-- A thread of the group exits and leaves its queue.
unfoldable pub exit_slot : ℕ → ℕ → Scheduler → Scheduler
exit_slot group slot s =
    if in_group group (thread_at s slot)
    then remove slot (set_state slot ThreadState.exited s)
    else s

-- The loop over `slot..slot + n`, with the number of threads that exited.
unfoldable pub exit_threads : ℕ → ℕ → ℕ → ℕ → Scheduler → Result (Scheduler × ℕ) Panic
exit_threads group zero slot exited s = ok (s, exited)
exit_threads group (suc n) slot exited s =
    let seen = if in_group group (thread_at s slot) then exited + 1 else exited in
    let rest = exit_threads group n (slot + 1) seen (exit_slot group slot s) in
    if leb max_threads slot then err Panic.index_out_of_bounds else rest

abbrev pub exit_report : ℕ → Thread → ℕ → ℕ → ℕ → Scheduler → ExitGroupRecord
exit_report status t count next_thread next_process s = record {
  status = status;
  exited_thread_id = t.id;
  exited_process_id = t.process_id;
  exited_thread_count = count;
  next_thread_id = next_thread;
  next_process_id = next_process;
  runqueue_depth = sum s.runqueue_depths;
}

-- The end of the group's time: the current slot is given up, and the next thread is taken.
abbrev pub leave_group : ℕ → ℕ → Scheduler → Scheduler
leave_group current group s =
    if (thread_at s current).thread_group_id == group then record s { current_slot = none } else s

abbrev pub run_next : ℕ → Thread → ℕ → Scheduler → Scheduler × Result (Option ExitGroupRecord) Panic
run_next status t count left =
    if no_bits left.runqueue_bitmap
    then (left, ok (some (exit_report status t count 0 0 left)))
    else let taken = dequeue (trailing_zeros left.runqueue_bitmap) left in
      elim taken.1 [
        | none ↦ (taken.0, err Panic.unwrap_none)
        | some next ↦
            let after = count_switch (run_slot next taken.0) in
            let t' = thread_at after next in
            (after, ok (some (exit_report status t count t'.id t'.process_id after)))
      ]

unfoldable pub exit_group_of_slot :
    ℕ → Option ℕ → Scheduler → Scheduler × Result (Option ExitGroupRecord) Panic
exit_group_of_slot status none s = (s, ok none)
exit_group_of_slot status (some current) s =
    let t = thread_at s current in
    if not s.initialized || is_exited t.state || t.thread_group_id == 0
    then (s, ok none)
    else elim (exit_threads t.thread_group_id s.thread_count 0 0 s) [
      | err panic ↦ (s, err panic)
      | ok (exited, count) ↦ run_next status t count (leave_group current t.thread_group_id exited)
    ]

abbrev pub request_exit_group : ℕ → Scheduler → Scheduler × Result (Option ExitGroupRecord) Panic
request_exit_group status s = exit_group_of_slot status s.current_slot s
