-- ===== src/Sched/Linked.antt =====
-- kernel/src/sched.rs: when the run queues hold just the threads that a test picks, each once and
-- in the queue of its priority, and how each write changes the test.
use hxnu.Base.{
  ℕ, ◌<◌, ◌≡◌, refl, sym, ap, ◌∙◌, Bool, true, false, ◌&&◌, inl, inr, ◌⊎◌, Option, [], ◌∷◌, ◌++◌,
  arith, length, length-take, ltb, ◌==◌, if◌then◌else◌, Bool-cases, ==→eq, get_or, get_or-set,
  length-set, has, Distinct, has-append, Distinct-append, length_bounded, length-append,
}
use hxnu.Sched.{
  Scheduler, Thread, max_threads, max_priorities, thread_at, set_thread, priority_for_thread,
  depth_of, row_of, empty,
}
use hxnu.Sched.Shape.{Shaped, KeepsThreads, queue, priority_bound}

pub record Queues (s : Scheduler) (picked : ℕ → Bool) : Type 0 where
  pub shaped : Shaped s
  pub in_table : (x : ℕ) → picked x ≡ true → x < max_threads
  pub entries :
      (p x : ℕ)
      → p < max_priorities
      → has (queue s p) x ≡ (picked x && priority_for_thread s x == p)
  pub once : (p : ℕ) → p < max_priorities → Distinct (queue s p)

pub Queues-ext : {s : Scheduler} (f g : ℕ → Bool) → ((x : ℕ) → f x ≡ g x) → Queues s f → Queues s g
Queues-ext {s = s} f g same q = record {
  shaped = q.shaped;
  in_table = λ x e. q.in_table x (same x ∙ e);
  entries = λ p x b. q.entries p x b ∙ ap (λ v. v && priority_for_thread s x == p) (same x);
  once = q.once;
}

-- The counters and the current slot do not matter to the queues.
pub Queues-fields :
    (s : Scheduler) (f : ℕ → Bool) (next count switches : ℕ) (current : Option ℕ)
    → Queues s f
    → Queues
        (record s {
          next_thread_id = next;
          thread_count = count;
          context_switches = switches;
          current_slot = current;
        })
        f
unfolding queue
Queues-fields s f next count switches current q = record {
  shaped = record {
    table = q.shaped.table;
    rows = q.shaped.rows;
    counts = q.shaped.counts;
    flags = q.shaped.flags;
    wide = q.shaped.wide;
    deep = q.shaped.deep;
    bit = q.shaped.bit;
  };
  in_table = q.in_table;
  entries = q.entries;
  once = q.once;
}

pub thread_at-set_thread :
    (s : Scheduler) (slot x : ℕ) (t : Thread)
    → slot < max_threads
    → Shaped s
    → thread_at (set_thread slot t s) x ≡ (if x == slot then t else thread_at s x)
thread_at-set_thread s slot x t below shaped =
    get_or-set s.threads slot x t empty (omega (arith, shaped.table))

kept_priority :
    (s : Scheduler) (f : ℕ → Bool) (slot x p : ℕ) (t : Thread)
    → slot < max_threads
    → (f slot ≡ false) ⊎ (t.base_priority ≡ (thread_at s slot).base_priority)
    → Shaped s
    → (f x && priority_for_thread s x == p)
      ≡ (f x && priority_for_thread (set_thread slot t s) x == p)
kept_priority s f slot x p t below keeps shaped =
    let read = thread_at-set_thread s slot x t below shaped in
    let clamped = λ (b : ℕ). f x && (if ltb 63 b then 63 else b) == p in
    elim (Bool-cases (x == slot)) [
      | inl here ↦
          let at = ==→eq x slot here in
          elim keeps [
            | inl free ↦ let away = ap f at ∙ free in rw away refl
            | inr same ↦ ap clamped (
                ap (λ i. (thread_at s i).base_priority) at
                ∙ sym same
                ∙ sym (
                    ap (λ u. u.base_priority)
                      (read ∙ ap (λ v. if v then t else thread_at s x) here)))
          ]
      | inr other ↦
          ap clamped (
            sym (ap (λ u. u.base_priority) (read ∙ ap (λ v. if v then t else thread_at s x) other)))
    ]

-- A thread that keeps its priority, if it is picked, keeps its place.
pub Queues-set_thread :
    (s : Scheduler) (f : ℕ → Bool) (slot : ℕ) (t : Thread)
    → slot < max_threads
    → (f slot ≡ false) ⊎ (t.base_priority ≡ (thread_at s slot).base_priority)
    → Queues s f
    → Queues (set_thread slot t s) f
unfolding queue
Queues-set_thread s f slot t below keeps q = record {
  shaped = record {
    table = length-set s.threads slot t ∙ q.shaped.table;
    rows = q.shaped.rows;
    counts = q.shaped.counts;
    flags = q.shaped.flags;
    wide = q.shaped.wide;
    deep = q.shaped.deep;
    bit = q.shaped.bit;
  };
  in_table = q.in_table;
  entries = λ p x b. q.entries p x b ∙ kept_priority s f slot x p t below keeps q.shaped;
  once = q.once;
}

picked_length :
    (s : Scheduler) (f : ℕ → Bool) (p : ℕ)
    → p < max_priorities
    → Queues s f
    → length (queue s p) ≡ depth_of s p
unfolding queue
picked_length s f p bound q =
    omega
      (arith, length-take (depth_of s p) (row_of s p), q.shaped.wide p bound, q.shaped.deep p bound)

pub Queues-room :
    (s : Scheduler) (f : ℕ → Bool) (slot : ℕ)
    → slot < max_threads
    → f slot ≡ false
    → Queues s f
    → depth_of s (priority_for_thread s slot) < max_threads
Queues-room s f slot below free q =
    let p = priority_for_thread s slot in
    let bound = priority_bound s slot in
    let gone : has (queue s p) slot ≡ false =
      q.entries p slot bound ∙ ap (λ v. v && priority_for_thread s slot == p) free in
    let few =
      length_bounded max_threads (queue s p ++ slot ∷ [])
        (λ x e. ground (arith, has-append (queue s p) slot x, q.entries p x bound, q.in_table x))
        (Distinct-append (queue s p) slot (q.once p bound) gone) in
    omega (arith, length-append (queue s p) (slot ∷ []), picked_length s f p bound q)

-- What a test says of the threads of another scheduler that has the same.
pub same_priority :
    (s s' : Scheduler) (x : ℕ)
    → KeepsThreads s s'
    → priority_for_thread s' x ≡ priority_for_thread s x
same_priority s s' x same =
    ap
      (λ ts.
        if ltb 63 (get_or ts x empty).base_priority then 63 else (get_or ts x empty).base_priority)
      same.threads
