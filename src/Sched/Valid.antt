-- ===== src/Sched/Valid.antt =====
-- The invariant of the scheduler of kernel/src/sched.rs, and the steps that its operations share:
-- the current thread goes back to its queue, and the next one runs.
use hxnu.Base.{
  ℕ, zero, suc, ◌≤◌, ◌<◌, ◌≡◌, refl, sym, ap, ◌∙◌, Bool, true, false, not, ◌&&◌, ◌||◌, inl, inr,
  some, List, [], ◌∷◌, ◌++◌, arith, length, take, get_or, ltb, ◌==◌, if◌then◌else◌, Bool-cases,
  ==→eq, ok, ltb→lt, ltb_false→le,
}
use hxnu.Sched.{
  is_blocked, is_exited, is_unused, Scheduler, Thread, ThreadState, max_threads, max_priorities,
  thread_at, set_thread, priority_for_thread, enqueue, dequeue, empty, is_runnable, is_running,
  no_bits, trailing_zeros, depth_of, row_of,
}
use hxnu.Sched.Shape.{Shaped, KeepsThreads, Writes, queue, trailing_zeros_first}
use hxnu.Sched.Linked.{Queues, Queues-ext, Queues-fields, Queues-set_thread, thread_at-set_thread}
use hxnu.Sched.Moves.{Queues-enqueue, Queues-dequeue}
use hxnu.Sched.Dispatch.{run_slot}

abbrev pub state_at : Scheduler → ℕ → ThreadState
state_at s x = (thread_at s x).state

abbrev pub runnable_at : Scheduler → ℕ → Bool
runnable_at s x = is_runnable (state_at s x)

-- No thread is in two states.
pub states_apart :
    (state : ThreadState)
    → ((is_runnable state && is_running state) ≡ false)
      × ((is_runnable state && is_blocked state) ≡ false)
      × ((is_runnable state && is_unused state) ≡ false)
      × ((is_runnable state && is_exited state) ≡ false)
      × ((is_running state && is_exited state) ≡ false)
states_apart ThreadState.unused = (refl, refl, refl, refl, refl)
states_apart ThreadState.runnable = (refl, refl, refl, refl, refl)
states_apart ThreadState.running = (refl, refl, refl, refl, refl)
states_apart ThreadState.blocked = (refl, refl, refl, refl, refl)
states_apart ThreadState.exited = (refl, refl, refl, refl, refl)

-- The runnable threads are those that are queued, each once and in the queue of its priority, and
-- only the current thread runs.
pub record IsValid (s : Scheduler) : Type 0 where
  pub queued : Queues s (runnable_at s)
  pub one_runs : (x : ℕ) → is_running (state_at s x) ≡ true → s.current_slot ≡ some x
  pub current_in_table : (x : ℕ) → s.current_slot ≡ some x → x < max_threads

-- No thread runs.
pub record IsParked (s : Scheduler) : Type 0 where
  pub queued : Queues s (runnable_at s)
  pub none_runs : (x : ℕ) → is_running (state_at s x) ≡ false

pub get_or_beyond {ℓ} :
    {A : Type ℓ} (xs : List A) (i : ℕ) (d : A) → length xs ≤ i → get_or xs i d ≡ d
get_or_beyond [] i d h = refl
get_or_beyond (x ∷ xs) zero d h = absurd (omega arith)
get_or_beyond (x ∷ xs) (suc i) d h = get_or_beyond xs i d (omega arith)

pub slot_bound :
    (s : Scheduler) (x : ℕ) (test : Thread → Bool)
    → Shaped s
    → test empty ≡ false
    → test (thread_at s x) ≡ true
    → x < max_threads
slot_bound s x test shaped out inside = elim (Bool-cases (ltb x max_threads)) [
  | inl below ↦ ltb→lt x max_threads below
  | inr beyond ↦
      let far =
        get_or_beyond s.threads x empty
          (omega (arith, shaped.table, ltb_false→le x max_threads beyond)) in
      absurd (ground (arith, ap test far))
]

pub state_at-set_thread :
    (s : Scheduler) (slot x : ℕ) (t : Thread)
    → slot < max_threads
    → Shaped s
    → state_at (set_thread slot t s) x ≡ (if x == slot then t.state else state_at s x)
state_at-set_thread s slot x t below shaped =
    ap (λ u. u.state) (thread_at-set_thread s slot x t below shaped)
    ∙ elim (Bool-cases (x == slot)) [ inl e ↦ rw e refl | inr e ↦ rw e refl ]

pub same_level :
    (s : Scheduler) (slot x : ℕ) (t : Thread)
    → slot < max_threads
    → t.base_priority ≡ (thread_at s slot).base_priority
    → Shaped s
    → (thread_at (set_thread slot t s) x).base_priority ≡ (thread_at s x).base_priority
same_level s slot x t below level shaped =
    ap (λ u. u.base_priority) (thread_at-set_thread s slot x t below shaped)
    ∙ elim (Bool-cases (x == slot)) [
      | inl here ↦
          ap (λ b. (if b then t else thread_at s x).base_priority) here
          ∙ level
          ∙ ap (λ i. (thread_at s i).base_priority) (sym (==→eq x slot here))
      | inr other ↦ ap (λ b. (if b then t else thread_at s x).base_priority) other
    ]

pub same_state : (s s' : Scheduler) (x : ℕ) → KeepsThreads s s' → state_at s' x ≡ state_at s x
same_state s s' x same = ap (λ ts. (get_or ts x empty).state) same.threads

-- A thread that can run takes a slot and enters its queue.
abbrev pub enter : ℕ → Thread → Scheduler → Scheduler
enter slot t s = (enqueue slot (set_thread slot t s)).0

pub record Enters (s s' : Scheduler) (slot : ℕ) (t : Thread) : Type 0 where
  pub done : (enqueue slot (set_thread slot t s)).1 ≡ ok tt
  pub written :
      Writes
        (set_thread slot t s)
        s'
        (priority_for_thread (set_thread slot t s) slot)
        (queue (set_thread slot t s) (priority_for_thread (set_thread slot t s) slot) ++ slot ∷ [])
  pub queued : Queues s' (runnable_at s')
  pub states : (x : ℕ) → state_at s' x ≡ (if x == slot then t.state else state_at s x)

pub enter-Enters :
    (s : Scheduler) (slot : ℕ) (t : Thread)
    → slot < max_threads
    → runnable_at s slot ≡ false
    → t.state ≡ ThreadState.runnable
    → Queues s (runnable_at s)
    → Enters s (enter slot t s) slot t
enter-Enters s slot t below idle can_run q =
    let before = set_thread slot t s in
    let moved = Queues-set_thread s (runnable_at s) slot t below (inl idle) q in
    let (done, written, after) = Queues-enqueue before (runnable_at s) slot below idle moved in
    let states = λ (x : ℕ).
      same_state before (enter slot t s) x written.same
      ∙ state_at-set_thread s slot x t below q.shaped in
    record {
      done = done;
      written = written;
      queued =
          Queues-ext _ (runnable_at (enter slot t s))
            (λ x. elim (Bool-cases (x == slot)) [
              | inl here ↦ rw (here, states x, here, can_run) refl
              | inr other ↦ rw (other, states x, other) refl
            ])
            after;
      states = states;
    }

take_filled :
    (d : ℕ) (row : List ℕ)
    → 0 < d
    → 0 < length row
    → (slot : ℕ) × (rest : List ℕ) × (take d row ≡ slot ∷ rest)
take_filled zero row h k = absurd (omega arith)
take_filled (suc d) [] h k = absurd (omega arith)
take_filled (suc d) (x ∷ xs) h k = (x, take d xs, refl)

-- The queue that the code looks into first.
pub best_queue :
    (s : Scheduler)
    → Shaped s
    → no_bits s.runqueue_bitmap ≡ false
    → (trailing_zeros s.runqueue_bitmap < max_priorities)
      × ((slot : ℕ) × (rest : List ℕ) × (queue s (trailing_zeros s.runqueue_bitmap) ≡ slot ∷ rest))
unfolding queue
best_queue s shaped busy =
    let best = trailing_zeros s.runqueue_bitmap in
    let (below, flag) = trailing_zeros_first s.runqueue_bitmap busy in
    let bound : best < max_priorities = omega (arith, below, shaped.flags) in
    let filled = ltb→lt 0 (depth_of s best) (sym (shaped.bit best bound) ∙ flag) in
    (
      bound,
      take_filled (depth_of s best) (row_of s best) filled (omega (arith, shaped.wide best bound)),
    )

-- The tests after one thread was set to run.
pub runnable_after :
    (b : Bool) (state : ThreadState)
    → (not b && is_runnable state) ≡ is_runnable (if b then ThreadState.running else state)
runnable_after true state = refl
runnable_after false state = refl

pub running_after :
    (b : Bool) (state : ThreadState)
    → is_running (if b then ThreadState.running else state) ≡ (b || is_running state)
running_after true state = refl
running_after false state = refl

-- The thread in front of a queue leaves it and runs.
pub record Runs (s s' : Scheduler) (p slot : ℕ) (rest : List ℕ) : Type 0 where
  pub taken : (dequeue p s).1 ≡ some slot
  pub below : slot < max_threads
  pub could_run : runnable_at s slot ≡ true
  pub queues : (j : ℕ) → queue s' j ≡ (if j == p then rest else queue s j)
  pub current : s'.current_slot ≡ some slot
  pub states : (x : ℕ) → state_at s' x ≡ (if x == slot then ThreadState.running else state_at s x)
  pub valid : IsValid s'
  pub ready : s'.initialized ≡ s.initialized
  pub level : (x : ℕ) → (thread_at s' x).base_priority ≡ (thread_at s x).base_priority

pub run_slot-Runs :
    (s : Scheduler) (p slot : ℕ) (rest : List ℕ)
    → p < max_priorities
    → queue s p ≡ slot ∷ rest
    → IsParked s
    → Runs s (run_slot slot (dequeue p s).0) p slot rest
unfolding run_slot queue
run_slot-Runs s p slot rest bound e parked =
    let left = (dequeue p s).0 in
    let (taken, written, picked, at, after) =
      Queues-dequeue s (runnable_at s) p slot rest bound e parked.queued in
    let below = parked.queued.in_table slot picked in
    let moved =
      Queues-set_thread left (λ x. not (x == slot) && runnable_at s x) slot
        (record (thread_at left slot) { state = ThreadState.running }) below (inr refl) after in
    let states = λ (x : ℕ).
      state_at-set_thread left slot x (record (thread_at left slot) { state = ThreadState.running })
        below after.shaped
      ∙ ap (λ v. if x == slot then ThreadState.running else v) (same_state s left x written.same) in
    record {
      taken = taken;
      below = below;
      could_run = picked;
      queues = written.queues;
      current = refl;
      states = states;
      ready = written.same.ready;
      level = λ x.
          same_level left slot x (record (thread_at left slot) { state = ThreadState.running })
            below refl after.shaped
          ∙ ap (λ ts. (get_or ts x empty).base_priority) written.same.threads;
      valid = record {
        queued =
            Queues-ext _ (runnable_at (run_slot slot left))
              (λ x. runnable_after (x == slot) (state_at s x) ∙ sym (ap is_runnable (states x)))
              (Queues-fields _ _ _ _ _ (some slot) moved);
        one_runs = λ x e'.
            let here =
              sym (running_after (x == slot) (state_at s x))
              ∙ sym (ap is_running (states x))
              ∙ e' in
            ap some (sym (==→eq x slot (ground (arith, here, parked.none_runs x))));
        current_in_table = λ x e'. ground (arith, e');
      };
    }
