-- ===== src/Sched/Boot.antt =====
-- The first states of the scheduler of kernel/src/sched.rs.
use hxnu.Base.{
  ℕ, zero, suc, ◌≡◌, refl, sym, ap, ◌∙◌, subst, Bool, true, false, not, ◌&&◌, ◌||◌, inl, inr, some,
  [], ◌∷◌, arith, length, get_or, ◌==◌, ==→eq, has, Distinct, ok, replicate, length-replicate,
  get_or-replicate, get_or-replicate_same, take,
}
use hxnu.Sched.{
  Scheduler, Thread, ThreadState, ThreadRole, TaskContext, max_threads, max_priorities, thread_at,
  set_thread, set_state, new, empty, enqueue, dequeue, drop_entry, is_running, no_context,
}
use hxnu.Sched.Shape.{Shaped, queue}
use hxnu.Sched.Linked.{Queues, Queues-ext, Queues-fields, Queues-set_thread}
use hxnu.Sched.Moves.{Queues-enqueue, Queues-dequeue}
use hxnu.Sched.Valid.{IsValid, state_at, runnable_at}
use hxnu.Sched.Tick.{counted, counted-IsValid}
use hxnu.Sched.Dispatch
use hxnu.Sched.Life

new-Shaped : Shaped new
unfolding new
new-Shaped = record {
  table = length-replicate max_threads empty;
  rows = length-replicate max_priorities (replicate {A = ℕ} max_threads 0);
  counts = length-replicate {A = ℕ} max_priorities 0;
  flags = length-replicate max_priorities false;
  wide =
      λ p b. ap length (get_or-replicate max_priorities p (replicate {A = ℕ} max_threads 0) [] b);
  deep = λ p b. omega (arith, get_or-replicate_same {A = ℕ} max_priorities p 0);
  bit = λ p b.
      rw
        (
          get_or-replicate_same max_priorities p false,
          get_or-replicate_same {A = ℕ} max_priorities p 0,
        )
        refl;
}

queue-new : (p : ℕ) → queue new p ≡ []
unfolding new queue
queue-new p =
    ap (λ d. take d (get_or new.runqueues p [])) (get_or-replicate_same {A = ℕ} max_priorities p 0)

new-Queues : Queues new (λ x. false)
new-Queues = record {
  shaped = new-Shaped;
  in_table = λ x e. absurd (ground arith);
  entries = λ p x b. ap (λ l. has l x) (queue-new p);
  once = λ p b. subst Distinct (sym (queue-new p)) tt;
}

-- The two first threads are created, and queued.
abbrev first_thread : ℕ → Thread
first_thread cr3 =
    Life.created_thread 1 ThreadRole.bootstrap Life.bootstrap_identity
      (record no_context { cr3 = cr3 })

abbrev second_thread : ℕ → Thread
second_thread cr3 =
    Life.created_thread 2 ThreadRole.idle Life.idle_identity (record no_context { cr3 = cr3 })

abbrev made : ℕ → Scheduler
made cr3 =
    set_thread 1 (second_thread cr3)
      (record (set_thread 0 (first_thread cr3) new) { next_thread_id = 3; thread_count = 2 })

abbrev both_queued : ℕ → Scheduler
both_queued cr3 = (enqueue 1 (enqueue 0 (made cr3)).0).0

both_queued-Queues : (cr3 : ℕ) → Queues (both_queued cr3) (λ x. x == 1 || (x == 0 || false))
both_queued-Queues cr3 =
    let q0 =
      Queues-set_thread new (λ x. false) 0 (first_thread cr3) (omega arith) (inl refl) new-Queues in
    let q1 =
      Queues-fields (set_thread 0 (first_thread cr3) new) (λ x. false) 3 2 new.context_switches
        new.current_slot q0 in
    let q2 = Queues-set_thread _ (λ x. false) 1 (second_thread cr3) (omega arith) (inl refl) q1 in
    let (_, _, q3) = Queues-enqueue (made cr3) (λ x. false) 0 (omega arith) refl q2 in
    let (_, _, q4) =
      Queues-enqueue (enqueue 0 (made cr3)).0 (λ x. x == 0 || false) 1 (omega arith) refl q3 in
    q4

-- `initialize_bootstrap_threads`, which succeeds, by its parts.
initialized_lem :
    (cr3 : ℕ) (f : TaskContext → TaskContext)
    → Life.initialize_bootstrap_threads cr3 f ≡ (Life.start_threads f 0 1 (both_queued cr3), ok tt)
unfolding Life.initialize_bootstrap_threads Life.create_thread enqueue new
initialized_lem cr3 f = refl

-- The fields that only the start of the scheduler writes.
Queues-started :
    (s : Scheduler) (f : ℕ → Bool) (on : Bool) (boot idle : ℕ)
    → Queues s f
    → Queues (record s { initialized = on; bootstrap_thread_id = boot; idle_thread_id = idle }) f
unfolding queue
Queues-started s f on boot idle q = record {
  shaped = record {
    table = q.shaped.table;
    rows = q.shaped.rows;
    counts = q.shaped.counts;
    flags = q.shaped.flags;
    wide = q.shaped.wide;
    deep = q.shaped.deep;
    bit = q.shaped.bit;
  };
  in_table = q.in_table;
  entries = q.entries;
  once = q.once;
}

abbrev started : ℕ → (TaskContext → TaskContext) → Scheduler
started cr3 f = Life.start_threads f 0 1 (both_queued cr3)

started-Queues :
    (cr3 : ℕ) (f : TaskContext → TaskContext)
    → Queues (started cr3 f) (λ x. x == 1 || (x == 0 || false))
started-Queues cr3 f =
    let pick = λ (x : ℕ). x == 1 || (x == 0 || false) in
    let q0 = both_queued-Queues cr3 in
    let s1 =
      set_thread 0
        (record (thread_at (both_queued cr3) 0) { state = ThreadState.running; dispatch_count = 1 })
        (both_queued cr3) in
    let q1 : Queues s1 pick =
      Queues-set_thread (both_queued cr3) pick 0 _ (omega arith) (inr refl) q0 in
    let s2 = set_state 1 ThreadState.runnable s1 in
    let q2 : Queues s2 pick = Queues-set_thread s1 pick 1 _ (omega arith) (inr refl) q1 in
    let q3 : Queues (Life.set_context 1 f s2) pick =
      Queues-set_thread s2 pick 1 _ (omega arith) (inr refl) q2 in
    Queues-started (Life.set_context 1 f s2) pick true _ _ q3

-- The scheduler behind the first tick.
abbrev pub booted : ℕ → (TaskContext → TaskContext) → Scheduler
booted cr3 f = (Dispatch.on_timer_tick (Life.initialize_bootstrap_threads cr3 f).0).0

started-queue : (cr3 : ℕ) (f : TaskContext → TaskContext) → queue (started cr3 f) 0 ≡ 0 ∷ 1 ∷ []
unfolding queue enqueue new
started-queue cr3 f = refl

abbrev left : ℕ → (TaskContext → TaskContext) → Scheduler
left cr3 f = (dequeue 0 (started cr3 f)).0

first_tick :
    (cr3 : ℕ) (f : TaskContext → TaskContext)
    → booted cr3 f ≡ counted false 0 (Dispatch.run_slot 0 (left cr3 f))
unfolding Life.initialize_bootstrap_threads Life.create_thread enqueue new Dispatch.on_timer_tick
    dequeue drop_entry Dispatch.run_slot Dispatch.charge_slot
first_tick cr3 f = refl

booted_states :
    (cr3 : ℕ) (f : TaskContext → TaskContext) (x : ℕ)
    → ((not (x == 0) && (x == 1 || (x == 0 || false)))
        ≡ runnable_at (Dispatch.run_slot 0 (left cr3 f)) x)
      × (is_running (state_at (Dispatch.run_slot 0 (left cr3 f)) x) ≡ x == 0)
unfolding enqueue new dequeue drop_entry Dispatch.run_slot
booted_states cr3 f zero = (refl, refl)
booted_states cr3 f (suc zero) = (refl, refl)
booted_states cr3 f (suc (suc zero)) = (refl, refl)
booted_states cr3 f (suc (suc (suc zero))) = (refl, refl)
booted_states cr3 f (suc (suc (suc (suc zero)))) = (refl, refl)
booted_states cr3 f (suc (suc (suc (suc (suc zero))))) = (refl, refl)
booted_states cr3 f (suc (suc (suc (suc (suc (suc zero)))))) = (refl, refl)
booted_states cr3 f (suc (suc (suc (suc (suc (suc (suc zero))))))) = (refl, refl)
booted_states cr3 f (suc (suc (suc (suc (suc (suc (suc (suc x)))))))) = (ground arith, ground arith)

pub booted-IsValid : (cr3 : ℕ) (f : TaskContext → TaskContext) → IsValid (booted cr3 f)
unfolding Dispatch.run_slot
booted-IsValid cr3 f =
    let s = left cr3 f in
    let (_, written, _, _, q) =
      Queues-dequeue (started cr3 f) _ 0 0 (1 ∷ []) (omega arith) (started-queue cr3 f)
        (started-Queues cr3 f) in
    let pick = λ (x : ℕ). not (x == 0) && (x == 1 || (x == 0 || false)) in
    let q1 = Queues-fields s pick s.next_thread_id s.thread_count s.context_switches (some 0) q in
    let q2 : Queues (Dispatch.run_slot 0 s) pick =
      Queues-set_thread _ pick 0 _ (omega arith) (inr refl) q1 in
    let v : IsValid (Dispatch.run_slot 0 s) = record {
      queued =
          Queues-ext pick (runnable_at (Dispatch.run_slot 0 s)) (λ x. (booted_states cr3 f x).0) q2;
      one_runs = λ x e. ap some (sym (==→eq x 0 (sym (booted_states cr3 f x).1 ∙ e)));
      current_in_table = λ x e. ground (arith, e);
    } in
    subst IsValid (sym (first_tick cr3 f))
      (counted-IsValid false 0 (Dispatch.run_slot 0 s) (omega arith) v)

pub booted_level :
    (cr3 : ℕ) (f : TaskContext → TaskContext) (x : ℕ)
    → (thread_at (booted cr3 f) x).base_priority ≡ 0
unfolding Life.initialize_bootstrap_threads Life.create_thread enqueue new Dispatch.on_timer_tick
    dequeue drop_entry Dispatch.run_slot Dispatch.charge_slot
booted_level cr3 f zero = refl
booted_level cr3 f (suc zero) = refl
booted_level cr3 f (suc (suc zero)) = refl
booted_level cr3 f (suc (suc (suc zero))) = refl
booted_level cr3 f (suc (suc (suc (suc zero)))) = refl
booted_level cr3 f (suc (suc (suc (suc (suc zero))))) = refl
booted_level cr3 f (suc (suc (suc (suc (suc (suc zero)))))) = refl
booted_level cr3 f (suc (suc (suc (suc (suc (suc (suc zero))))))) = refl
booted_level cr3 f (suc (suc (suc (suc (suc (suc (suc (suc x)))))))) = refl
