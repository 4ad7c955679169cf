-- ===== src/Sched/Examples.antt =====
-- Runs of kernel/src/sched.rs, and its theorems at concrete inputs.
use hxnu.Base.{ℕ, suc, ◌<◌, ◌≡◌, refl, true, some, err}
use hxnu.Sched.{
  Scheduler, TaskContext, max_threads, thread_at, enqueue, dequeue, drop_entry, remove, new, no_fds,
  is_runnable, is_running,
}
use hxnu.Sched.Valid.{state_at}
use hxnu.Sched.Boot.{booted, booted-IsValid, booted_level}
use hxnu.Sched.Rounds.{ticks, ticks-fair}
use hxnu.Sched.Fork.{ForkOutcome, fork_current_thread_outcomes}
use hxnu.Sched.Dispatch
use hxnu.Sched.Life
use hxnu.Sched.Groups

abbrev plain : TaskContext → TaskContext
plain c = c

abbrev first_state : Scheduler
first_state = booted 4096 plain

ticks-fair_example :
    (n : ℕ) × (n < max_threads) × ((ticks (suc n) first_state).current_slot ≡ some 1)
unfolding Life.initialize_bootstrap_threads Life.create_thread Life.create_user_thread enqueue new
    Dispatch.on_timer_tick dequeue drop_entry Dispatch.run_slot Dispatch.put_back
    Dispatch.charge_slot Life.fork_slot Groups.exit_group_of_slot Groups.exit_threads
    Groups.exit_slot remove Life.reap_child no_fds
ticks-fair_example =
    ticks-fair 1 first_state (booted-IsValid 4096 plain) (booted_level 4096 plain) refl refl

fork_current_thread_outcomes_example : ForkOutcome 8192 0 (some 0) (some 2) first_state
unfolding Life.initialize_bootstrap_threads Life.create_thread Life.create_user_thread enqueue new
    Dispatch.on_timer_tick dequeue drop_entry Dispatch.run_slot Dispatch.put_back
    Dispatch.charge_slot Life.fork_slot Groups.exit_group_of_slot Groups.exit_threads
    Groups.exit_slot remove Life.reap_child no_fds
fork_current_thread_outcomes_example =
    fork_current_thread_outcomes 8192 0 first_state refl refl (booted-IsValid 4096 plain)

-- A fork whose address space is not cloned leaves a thread counted that is not there.
failed_fork_count : (Life.fork_current_thread 0 first_state).0.thread_count ≡ 3
unfolding Life.initialize_bootstrap_threads Life.create_thread Life.create_user_thread enqueue new
    Dispatch.on_timer_tick dequeue drop_entry Dispatch.run_slot Dispatch.put_back
    Dispatch.charge_slot Life.fork_slot Groups.exit_group_of_slot Groups.exit_threads
    Groups.exit_slot remove Life.reap_child no_fds
failed_fork_count = refl

abbrev failed_forks : Scheduler
failed_forks =
    let fail = λ (s : Scheduler). (Life.fork_current_thread 0 s).0 in
    fail (fail (fail (fail (fail (fail (fail first_state))))))

-- Seven such forks, and the loops over the counted threads leave the table.
exit_panics : (Groups.request_exit_group 0 failed_forks).1 ≡ err Dispatch.Panic.index_out_of_bounds
unfolding Life.initialize_bootstrap_threads Life.create_thread Life.create_user_thread enqueue new
    Dispatch.on_timer_tick dequeue drop_entry Dispatch.run_slot Dispatch.put_back
    Dispatch.charge_slot Life.fork_slot Groups.exit_group_of_slot Groups.exit_threads
    Groups.exit_slot remove Life.reap_child no_fds
exit_panics = refl

abbrev create : Scheduler → Scheduler
create s = (Life.create_user_thread (λ slot c. c) s).0

-- Two user threads, the first of which exits and is reaped.
abbrev reaped : Scheduler
reaped =
    let ran = ticks 2 (create (create first_state)) in
    (Life.reap_child 0 3 (Groups.request_exit_group 0 ran).0).0

second_thread_runs :
    ((thread_at reaped 3).id ≡ 4)
    × (is_running (state_at reaped 3) ≡ true)
    × (reaped.thread_count ≡ 3)
unfolding Life.initialize_bootstrap_threads Life.create_thread Life.create_user_thread enqueue new
    Dispatch.on_timer_tick dequeue drop_entry Dispatch.run_slot Dispatch.put_back
    Dispatch.charge_slot Life.fork_slot Groups.exit_group_of_slot Groups.exit_threads
    Groups.exit_slot remove Life.reap_child no_fds
second_thread_runs = (refl, refl, refl)

-- The next thread that is created takes the slot of the second, which runs and is lost.
second_thread_lost :
    ((thread_at (create reaped) 3).id ≡ 5)
    × (is_runnable (state_at (create reaped) 3) ≡ true)
    × ((create reaped).current_slot ≡ some 3)
unfolding Life.initialize_bootstrap_threads Life.create_thread Life.create_user_thread enqueue new
    Dispatch.on_timer_tick dequeue drop_entry Dispatch.run_slot Dispatch.put_back
    Dispatch.charge_slot Life.fork_slot Groups.exit_group_of_slot Groups.exit_threads
    Groups.exit_slot remove Life.reap_child no_fds
second_thread_lost = (refl, refl, refl)
