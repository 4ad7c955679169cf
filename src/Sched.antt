-- ===== src/Sched.antt =====
-- kernel/src/sched.rs: the scheduler's state and its run queues. This file holds the threads and the
-- queues, one for each of 64 priorities; `Dispatch` and `Life` hold the operations on top of them.
-- The names of threads, which are only printed, and the hook that is told of each dispatch, are
-- left out.
pub mod Dispatch
pub mod Life
pub mod Groups
pub mod Entry
pub mod Queue
pub mod Linked
pub mod Moves
pub mod Shape
pub mod Valid
pub mod Switching
pub mod Tick
pub mod Yield
pub mod Threads
pub mod Create
pub mod Leaving
pub mod Exit
pub mod Rounds
pub mod Fork
pub mod Resume
pub mod History
pub mod Boot
pub mod Examples
use mathlib.Core.Option
use hxnu.Base.{
  ℕ, zero, suc, ◌+◌, ◌-◌, ◌*◌, Bool, true, false, not, ◌&&◌, ◌||◌, Option, none, some, List, [],
  ◌∷◌, Result, ok, err, ltb, leb, ◌==◌, if◌then◌else◌, get_or, set, replicate, sat_add,
}

abbrev pub max_threads : ℕ
max_threads = 8

abbrev pub max_priorities : ℕ
max_priorities = 64

abbrev pub max_process_fds : ℕ
max_process_fds = 64

-- The errors that this file's functions give; the timer's are its own.
pub data SchedulerError : Type 0 where
  thread_table_full run_queue_full missing_idle_thread : SchedulerError

pub data ThreadRole : Type 0 where
  no_role bootstrap idle user : ThreadRole

pub data ThreadState : Type 0 where
  unused runnable running blocked exited : ThreadState

-- `arch::x86_64::TaskContext`
pub record TaskContext : Type 0 where
  pub rsp : ℕ
  pub rbx : ℕ
  pub rbp : ℕ
  pub r12 : ℕ
  pub r13 : ℕ
  pub r14 : ℕ
  pub r15 : ℕ
  pub cr3 : ℕ
  pub kind : ℕ
  pub kernel_rsp0 : ℕ

abbrev pub no_context : TaskContext
no_context = record {
  rsp = 0;
  rbx = 0;
  rbp = 0;
  r12 = 0;
  r13 = 0;
  r14 = 0;
  r15 = 0;
  cr3 = 0;
  kind = 0;
  kernel_rsp0 = 0;
}

pub record Thread : Type 0 where
  pub id : ℕ
  pub process_id : ℕ
  pub parent_process_id : ℕ
  pub thread_group_id : ℕ
  pub role : ThreadRole
  pub state : ThreadState
  pub base_priority : ℕ
  pub total_ticks : ℕ
  pub dispatch_count : ℕ
  pub context : TaskContext
  pub fd_table : List (Option ℕ)
  pub exit_status : ℕ

unfoldable pub no_fds : List (Option ℕ)
no_fds = replicate max_process_fds none

abbrev pub empty : Thread
empty = record {
  id = 0;
  process_id = 0;
  parent_process_id = 0;
  thread_group_id = 0;
  role = ThreadRole.no_role;
  state = ThreadState.unused;
  base_priority = 0;
  total_ticks = 0;
  dispatch_count = 0;
  context = no_context;
  fd_table = no_fds;
  exit_status = 0;
}

pub record ProcessIdentity : Type 0 where
  pub process_id : ℕ
  pub parent_process_id : ℕ
  pub thread_group_id : ℕ

-- The bitmap is the list of its 64 bits, the lowest first.
pub record Scheduler : Type 0 where
  pub initialized : Bool
  pub next_thread_id : ℕ
  pub thread_count : ℕ
  pub threads : List Thread
  pub runqueues : List (List ℕ)
  pub runqueue_depths : List ℕ
  pub runqueue_bitmap : List Bool
  pub current_slot : Option ℕ
  pub context_switches : ℕ
  pub bootstrap_thread_id : ℕ
  pub idle_thread_id : ℕ

unfoldable pub new : Scheduler
new = record {
  initialized = false;
  next_thread_id = 1;
  thread_count = 0;
  threads = replicate max_threads empty;
  runqueues = replicate max_priorities (replicate max_threads 0);
  runqueue_depths = replicate max_priorities 0;
  runqueue_bitmap = replicate max_priorities false;
  current_slot = none;
  context_switches = 0;
  bootstrap_thread_id = 0;
  idle_thread_id = 0;
}

abbrev pub is_runnable : ThreadState → Bool
is_runnable ThreadState.runnable = true
is_runnable _ = false

abbrev pub is_running : ThreadState → Bool
is_running ThreadState.running = true
is_running _ = false

abbrev pub is_exited : ThreadState → Bool
is_exited ThreadState.exited = true
is_exited _ = false

abbrev pub is_blocked : ThreadState → Bool
is_blocked ThreadState.blocked = true
is_blocked _ = false

abbrev pub is_unused : ThreadState → Bool
is_unused ThreadState.unused = true
is_unused _ = false

abbrev pub is_user : ThreadRole → Bool
is_user ThreadRole.user = true
is_user _ = false

-- `self.threads[slot]`, read and written.
abbrev pub thread_at : Scheduler → ℕ → Thread
thread_at s slot = get_or s.threads slot empty

abbrev pub set_thread : ℕ → Thread → Scheduler → Scheduler
set_thread slot t s = record s { threads = set s.threads slot t }

abbrev pub set_state : ℕ → ThreadState → Scheduler → Scheduler
set_state slot state s = set_thread slot (record (thread_at s slot) { state = state }) s

abbrev pub priority_for_thread : Scheduler → ℕ → ℕ
priority_for_thread s slot =
    if ltb 63 (thread_at s slot).base_priority then 63 else (thread_at s slot).base_priority

abbrev pub depth_of : Scheduler → ℕ → ℕ
depth_of s p = get_or s.runqueue_depths p 0

abbrev pub row_of : Scheduler → ℕ → List ℕ
row_of s p = get_or s.runqueues p []

-- `enqueue`; its error is dropped at most calls.
unfoldable pub enqueue : ℕ → Scheduler → Scheduler × Result (Unit {0}) SchedulerError
enqueue slot s =
    let p = priority_for_thread s slot in
    let depth = depth_of s p in
    if leb max_threads depth then (s, err SchedulerError.run_queue_full) else (
      record s {
        runqueues = set s.runqueues p (set (row_of s p) depth slot);
        runqueue_depths = set s.runqueue_depths p (depth + 1);
        runqueue_bitmap = set s.runqueue_bitmap p true;
      },
      ok tt,
    )

-- `for i in idx..idx + n { row[i] = row[i + 1]; }`
abbrev pub shift_down : ℕ → ℕ → List ℕ → List ℕ
shift_down idx n [] = []
shift_down (suc idx) n (x ∷ xs) = x ∷ shift_down idx n xs
shift_down zero zero (x ∷ xs) = x ∷ xs
shift_down zero (suc n) (x ∷ []) = x ∷ []
shift_down zero (suc n) (x ∷ y ∷ ys) = y ∷ shift_down zero n (y ∷ ys)

-- The entry at `idx` leaves queue `p`.
unfoldable pub drop_entry : ℕ → ℕ → Scheduler → Scheduler
drop_entry p idx s =
    let depth = depth_of s p in
    let left = depth - 1 in
    record s {
      runqueues = set s.runqueues p (shift_down idx (left - idx) (row_of s p));
      runqueue_depths = set s.runqueue_depths p left;
      runqueue_bitmap = if left == 0 then set s.runqueue_bitmap p false else s.runqueue_bitmap;
    }

unfoldable pub dequeue : ℕ → Scheduler → Scheduler × Option ℕ
dequeue p s =
    if depth_of s p == 0 then (s, none) else (drop_entry p 0 s, some (get_or (row_of s p) 0 0))

-- The search of the first `depth` entries of a row.
abbrev pub find_entry : ℕ → List ℕ → ℕ → Option ℕ
find_entry zero row slot = none
find_entry (suc depth) [] slot = none
find_entry (suc depth) (x ∷ xs) slot =
    if x == slot then some 0 else Option.map suc (find_entry depth xs slot)

-- A slot leaves the queue of its priority, if it is there.
unfoldable pub remove : ℕ → Scheduler → Scheduler
remove slot s =
    let p = priority_for_thread s slot in
    elim (find_entry (depth_of s p) (row_of s p) slot) [ none ↦ s | some idx ↦ drop_entry p idx s ]

-- `self.runqueue_bitmap == 0` and `self.runqueue_bitmap.trailing_zeros()`
abbrev pub no_bits : List Bool → Bool
no_bits [] = true
no_bits (b ∷ bs) = not b && no_bits bs

abbrev pub trailing_zeros : List Bool → ℕ
trailing_zeros [] = 0
trailing_zeros (b ∷ bs) = if b then 0 else suc (trailing_zeros bs)
