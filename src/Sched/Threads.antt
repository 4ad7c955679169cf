-- ===== src/Sched/Threads.antt =====
-- Threads of kernel/src/sched.rs that come, block, wake up and go, on a valid scheduler.
use hxnu.Base.{
  ℕ, zero, suc, ◌+◌, ◌-◌, ◌<◌, ◌≡◌, refl, sym, ap, ◌∙◌, Bool, true, false, not, inl, inr, Option,
  none, some, List, [], ◌∷◌, arith, length, get_or, ◌==◌, if◌then◌else◌, Bool-cases, Option-cases,
  ==→eq, sat_add,
}
use hxnu.Sched.{
  Scheduler, Thread, ThreadState, max_threads, thread_at, set_state, empty, is_runnable, is_running,
  is_blocked, is_exited, is_unused,
}
use hxnu.Sched.Linked.{Queues-ext, Queues-set_thread}
use hxnu.Sched.Valid.{
  states_apart, IsValid, enter, enter-Enters, state_at, runnable_at, state_at-set_thread,
  slot_bound,
}
use hxnu.Sched.Switching.{fields_IsValid, update_IsValid, not_both}
use hxnu.Sched.Life

pub enter-IsValid :
    (s : Scheduler) (slot : ℕ) (t : Thread)
    → slot < max_threads
    → runnable_at s slot ≡ false
    → t.state ≡ ThreadState.runnable
    → IsValid s
    → IsValid (enter slot t s)
enter-IsValid s slot t below idle can_run v =
    let e = enter-Enters s slot t below idle can_run v.queued in
    record {
      queued = e.queued;
      one_runs = λ x runs. elim (Bool-cases (x == slot)) [
        | inl here ↦ absurd (
            ground (
              arith,
              runs,
              can_run,
              ap is_running
                  (e.states x ∙ ap (λ b. if b then t.state else state_at s x) here ∙ can_run),
            ))
        | inr other ↦
            e.written.same.current
            ∙ v.one_runs x (
                sym
                  (ap is_running (e.states x ∙ ap (λ b. if b then t.state else state_at s x) other))
                ∙ runs)
      ];
      current_in_table = λ x here. v.current_in_table x (sym e.written.same.current ∙ here);
    }

-- A thread that is not queued takes a state in which it does not run.
pub stop_IsValid :
    (s : Scheduler) (slot : ℕ) (state : ThreadState)
    → slot < max_threads
    → runnable_at s slot ≡ false
    → is_runnable state ≡ false
    → is_running state ≡ false
    → IsValid s
    → IsValid (set_state slot state s)
stop_IsValid s slot state below idle no_queue no_run v =
    let t = record (thread_at s slot) { state = state } in
    let states = λ (x : ℕ). state_at-set_thread s slot x t below v.queued.shaped in
    let pick = λ (x : ℕ) (b : Bool). if b then state else state_at s x in
    record {
      queued =
          Queues-ext (runnable_at s) (runnable_at (set_state slot state s))
            (λ x. elim (Bool-cases (x == slot)) [
              | inl here ↦
                  ap (runnable_at s) (==→eq x slot here)
                  ∙ idle
                  ∙ sym (ap is_runnable (states x ∙ ap (pick x) here) ∙ no_queue)
              | inr other ↦ sym (ap is_runnable (states x ∙ ap (pick x) other))
            ])
            (Queues-set_thread s (runnable_at s) slot t below (inl idle) v.queued);
      one_runs = λ x runs. elim (Bool-cases (x == slot)) [
        | inl here ↦
            absurd (ground (arith, runs, no_run, ap is_running (states x ∙ ap (pick x) here)))
        | inr other ↦ v.one_runs x (sym (ap is_running (states x ∙ ap (pick x) other)) ∙ runs)
      ];
      current_in_table = v.current_in_table;
    }

block_slot-IsValid : (o : Option ℕ) (s : Scheduler) → IsValid s → IsValid (Life.block_slot o s)
unfolding Life.block_slot
block_slot-IsValid none s v = v
block_slot-IsValid (some slot) s v = elim (Bool-cases (is_running (state_at s slot))) [
  | inl runs ↦
      rw (Life.block_slot, runs)
        (stop_IsValid s slot ThreadState.blocked
          (slot_bound s slot (λ t. is_running t.state) v.queued.shaped refl runs)
          (not_both (state_at s slot) runs) refl refl v)
  | inr idle ↦ rw (Life.block_slot, idle) v
]

pub block_current_thread-IsValid :
    (s : Scheduler) → IsValid s → IsValid (Life.block_current_thread s)
block_current_thread-IsValid s v = block_slot-IsValid s.current_slot s v

pub first-some :
    (test : Thread → Bool) (ts : List Thread) (slot : ℕ)
    → Life.first test ts ≡ some slot
    → (slot < length ts) × (test (get_or ts slot empty) ≡ true)
first-some test [] slot e = absurd (ground arith)
first-some test (t ∷ ts) zero e = elim (Bool-cases (test t)) [
  | inl here ↦ (omega arith, here)
  | inr other ↦ absurd (ground (arith, other, e))
]
first-some test (t ∷ ts) (suc slot) e = elim (Bool-cases (test t)) [
  | inl here ↦ absurd (ground (arith, here, e))
  | inr other ↦
      let (below, passes) = first-some test ts slot (ground (arith, other, e)) in
      (omega (arith, below), passes)
]

blocked_idle : (state : ThreadState) → is_blocked state ≡ true → is_runnable state ≡ false
blocked_idle state e = ground (arith, states_apart state, e)

pub unused_idle : (state : ThreadState) → is_unused state ≡ true → is_runnable state ≡ false
unused_idle state e = ground (arith, states_apart state, e)

exited_idle : (state : ThreadState) → is_exited state ≡ true → is_runnable state ≡ false
exited_idle state e = ground (arith, states_apart state, e)

pub unblock_thread_with_result-IsValid :
    (pid tid result : ℕ) (s : Scheduler)
    → IsValid s
    → IsValid (Life.unblock_thread_with_result pid tid result s).0
unfolding Life.unblock_thread_with_result
unblock_thread_with_result-IsValid pid tid result s v =
    elim (Option-cases (Life.first (Life.blocked pid tid) s.threads)) [
      | inl gone ↦ rw (Life.unblock_thread_with_result, gone) v
      | inr (slot, found) ↦
          let (below, passes) = first-some (Life.blocked pid tid) s.threads slot found in
          let waits : is_blocked (state_at s slot) ≡ true = ground (arith, passes) in
          rw (Life.unblock_thread_with_result, found)
            (enter-IsValid s slot (record (thread_at s slot) { state = ThreadState.runnable })
              (omega (arith, below, v.queued.shaped.table)) (blocked_idle (state_at s slot) waits)
              refl v)
    ]

pub reap_child-IsValid :
    (parent_pid target_pid : ℕ) (s : Scheduler)
    → IsValid s
    → IsValid (Life.reap_child parent_pid target_pid s).0
unfolding Life.reap_child
reap_child-IsValid parent_pid target_pid s v =
    elim (Option-cases (Life.first (Life.exited_child parent_pid target_pid) s.threads)) [
      | inl gone ↦ rw (Life.reap_child, gone) v
      | inr (slot, found) ↦
          let (below, passes) =
            first-some (Life.exited_child parent_pid target_pid) s.threads slot found in
          let gone : is_exited (state_at s slot) ≡ true = ground (arith, passes) in
          let freed = set_state slot ThreadState.unused s in
          rw (Life.reap_child, found)
            (fields_IsValid freed s.next_thread_id (s.thread_count - 1) s.context_switches (
              stop_IsValid s slot ThreadState.unused (omega (arith, below, v.queued.shaped.table))
                (exited_idle (state_at s slot) gone) refl refl v))
    ]

set_slot_fd_table-IsValid :
    (table : List (Option ℕ)) (o : Option ℕ) (s : Scheduler)
    → ((x : ℕ) → o ≡ some x → x < max_threads)
    → IsValid s
    → IsValid (Life.set_slot_fd_table table o s)
unfolding Life.set_slot_fd_table
set_slot_fd_table-IsValid table none s below v = v
set_slot_fd_table-IsValid table (some slot) s below v =
    update_IsValid s slot (Life.with_fd_table table (thread_at s slot)) (below slot refl) refl refl
      v

pub set_fd_table-IsValid :
    (table : List (Option ℕ)) (s : Scheduler) → IsValid s → IsValid (Life.set_fd_table table s)
set_fd_table-IsValid table s v =
    set_slot_fd_table-IsValid table s.current_slot s v.current_in_table v

fork_slot-IsValid :
    (new_cr3 : ℕ) (o free : Option ℕ) (s : Scheduler)
    → ((x : ℕ) → free ≡ some x → (x < max_threads) × (runnable_at s x ≡ false))
    → IsValid s
    → IsValid (Life.fork_slot new_cr3 o free s).0
unfolding Life.fork_slot
fork_slot-IsValid new_cr3 none free s idle v = v
fork_slot-IsValid new_cr3 (some parent) none s idle v = v
fork_slot-IsValid new_cr3 (some parent) (some slot) s idle v =
    let (below, no_queue) = idle slot refl in
    let counted = record s {
      next_thread_id = sat_add s.next_thread_id 1;
      thread_count = s.thread_count + 1;
    } in
    let valid =
      fields_IsValid s (sat_add s.next_thread_id 1) (s.thread_count + 1) s.context_switches v in
    let child = Life.child_of (thread_at s parent) s.next_thread_id new_cr3 in
    elim (Bool-cases (not s.initialized)) [
      | inl off ↦ rw (Life.fork_slot, off) v
      | inr on ↦ elim (Bool-cases (new_cr3 == 0)) [
        | inl failed ↦ rw (Life.fork_slot, on, failed) valid
        | inr cloned ↦
            rw (Life.fork_slot, on, cloned)
              (enter-IsValid counted slot child below no_queue refl valid)
      ]
    ]

pub fork_current_thread-IsValid :
    (new_cr3 : ℕ) (s : Scheduler) → IsValid s → IsValid (Life.fork_current_thread new_cr3 s).0
fork_current_thread-IsValid new_cr3 s v =
    fork_slot-IsValid new_cr3 s.current_slot (Life.first Life.unused s.threads) s
      (λ x found.
        let (below, passes) = first-some Life.unused s.threads x found in
        (omega (arith, below, v.queued.shaped.table), unused_idle (state_at s x) passes))
      v
