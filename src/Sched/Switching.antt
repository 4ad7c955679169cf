-- ===== src/Sched/Switching.antt =====
-- The operations of kernel/src/sched.rs that choose the next thread keep the invariant: the tick,
-- the switch and the yield.
use hxnu.Base.{
  ℕ, ◌<◌, ◌≡◌, refl, sym, ap, ◌∙◌, subst, Bool, true, false, inl, inr, ◌⊎◌, Option, none, some,
  List, [], ◌∷◌, ◌++◌, arith, get_or, ◌==◌, if◌then◌else◌, Bool-cases, ==→eq, append-nil,
}
use hxnu.Sched.{
  Scheduler, Thread, ThreadState, max_threads, thread_at, set_thread, priority_for_thread, empty,
  is_runnable, is_running, is_blocked,
}
use hxnu.Sched.Shape.{queue}
use hxnu.Sched.Linked.{Queues, Queues-ext, Queues-fields, Queues-set_thread}
use hxnu.Sched.Valid.{
  Enters, states_apart, IsValid, IsParked, enter-Enters, state_at, runnable_at, state_at-set_thread,
  slot_bound, same_level,
}
use hxnu.Sched.Dispatch

-- Replacing what is not the state of a thread, nor its priority, in the table.
pub update_Queues :
    (s : Scheduler) (slot : ℕ) (t : Thread)
    → slot < max_threads
    → t.state ≡ state_at s slot
    → t.base_priority ≡ (thread_at s slot).base_priority
    → Queues s (runnable_at s)
    → Queues (set_thread slot t s) (runnable_at (set_thread slot t s))
      × ((x : ℕ) → state_at (set_thread slot t s) x ≡ state_at s x)
update_Queues s slot t below same level q =
    let states = λ (x : ℕ).
      state_at-set_thread s slot x t below q.shaped ∙ elim (Bool-cases (x == slot)) [
        | inl e ↦
            ap (λ v. if v then t.state else state_at s x) e
            ∙ same
            ∙ ap (state_at s) (sym (==→eq x slot e))
        | inr e ↦ ap (λ v. if v then t.state else state_at s x) e
      ] in
    (
      Queues-ext (runnable_at s) (runnable_at (set_thread slot t s))
          (λ x. ap is_runnable (sym (states x)))
          (Queues-set_thread s (runnable_at s) slot t below (inr level) q),
      states,
    )

pub update_IsValid :
    (s : Scheduler) (slot : ℕ) (t : Thread)
    → slot < max_threads
    → t.state ≡ state_at s slot
    → t.base_priority ≡ (thread_at s slot).base_priority
    → IsValid s
    → IsValid (set_thread slot t s)
update_IsValid s slot t below same level v =
    let (queued, states) = update_Queues s slot t below same level v.queued in
    record {
      queued = queued;
      one_runs = λ x e. v.one_runs x (sym (ap is_running (states x)) ∙ e);
      current_in_table = v.current_in_table;
    }

-- The counters keep the invariant.
pub count_dispatch-IsValid :
    (slot : ℕ) (s : Scheduler)
    → slot < max_threads
    → IsValid s
    → IsValid (Dispatch.count_dispatch slot s)
count_dispatch-IsValid slot s below v =
    update_IsValid s slot (Dispatch.dispatched (thread_at s slot)) below refl refl v

pub fields_IsValid :
    (s : Scheduler) (next count switches : ℕ)
    → IsValid s
    → IsValid
        (record s { next_thread_id = next; thread_count = count; context_switches = switches })
fields_IsValid s next count switches v = record {
  queued = Queues-fields s (runnable_at s) next count switches s.current_slot v.queued;
  one_runs = v.one_runs;
  current_in_table = v.current_in_table;
}

-- The table does not matter to the queues.
pub table_queue :
    (s : Scheduler) (slot : ℕ) (t : Thread) (p : ℕ) → queue (set_thread slot t s) p ≡ queue s p
unfolding queue
table_queue s slot t p = refl

-- No thread runs once the current one went back to its queue, or does not run.
pub record Parks (s s' : Scheduler) : Type 0 where
  pub parked : IsParked s'
  pub current : s'.current_slot ≡ s.current_slot
  pub ready : s'.initialized ≡ s.initialized
  pub grows : (p : ℕ) → (more : List ℕ) × (queue s' p ≡ queue s p ++ more)
  pub level : (x : ℕ) → (thread_at s' x).base_priority ≡ (thread_at s x).base_priority

pub IsValid-idle :
    (s : Scheduler)
    → ((x : ℕ) → s.current_slot ≡ some x → is_running (state_at s x) ≡ false)
    → IsValid s
    → IsParked s
IsValid-idle s stopped v = record {
  queued = v.queued;
  none_runs = λ x. elim (Bool-cases (is_running (state_at s x))) [
    | inl runs ↦ stopped x (v.one_runs x runs)
    | inr idle ↦ idle
  ];
}

pub not_both : (state : ThreadState) → is_running state ≡ true → is_runnable state ≡ false
not_both state e = ground (arith, states_apart state, e)

-- A thread that enters its queue makes it longer at the end, and no queue else.
enter_grows :
    (s s' : Scheduler) (slot : ℕ) (t : Thread)
    → Enters s s' slot t
    → (p : ℕ) → (more : List ℕ) × (queue s' p ≡ queue s p ++ more)
enter_grows s s' slot t e p =
    let before = set_thread slot t s in
    let written = e.written.queues p in
    let at = priority_for_thread before slot in
    let pick = λ (v : Bool). if v then queue before at ++ slot ∷ [] else queue before p in
    elim (Bool-cases (p == at)) [
      | inl here ↦ (
        slot ∷ [],
        written
            ∙ ap pick here
            ∙ ap (λ l. l ++ slot ∷ [])
                (ap (queue before) (sym (==→eq p at here)) ∙ table_queue s slot t p),
      )
      | inr other ↦
          ([], written ∙ ap pick other ∙ table_queue s slot t p ∙ sym (append-nil (queue s p)))
    ]

pub put_back-Parks :
    (slot : ℕ) (s : Scheduler)
    → is_running (state_at s slot) ≡ true
    → IsValid s
    → Parks s (Dispatch.put_back slot s)
unfolding Dispatch.put_back
put_back-Parks slot s runs v =
    let below = slot_bound s slot (λ t. is_running t.state) v.queued.shaped refl runs in
    let t = record (thread_at s slot) { state = ThreadState.runnable } in
    let e = enter-Enters s slot t below (not_both (state_at s slot) runs) refl v.queued in
    record {
      parked = record {
        queued = e.queued;
        none_runs = λ x. elim (Bool-cases (x == slot)) [
          | inl here ↦
              ap is_running
                (e.states x ∙ ap (λ v. if v then ThreadState.runnable else state_at s x) here)
          | inr other ↦ elim (Bool-cases (is_running (state_at s x))) [
            | inl again ↦ absurd (ground (arith, other, v.one_runs x again, v.one_runs slot runs))
            | inr idle ↦
                ap is_running
                  (e.states x ∙ ap (λ v. if v then ThreadState.runnable else state_at s x) other)
                ∙ idle
          ]
        ];
      };
      current = e.written.same.current;
      ready = e.written.same.ready;
      grows = enter_grows s (Dispatch.put_back slot s) slot t e;
      level = λ x.
          ap (λ ts. (get_or ts x empty).base_priority) e.written.same.threads
          ∙ same_level s slot x t below refl v.queued.shaped;
    }

stopped_Parks :
    (s : Scheduler)
    → ((x : ℕ) → s.current_slot ≡ some x → is_running (state_at s x) ≡ false)
    → IsValid s
    → Parks s s
stopped_Parks s stopped v = record {
  parked = IsValid-idle s stopped v;
  current = refl;
  ready = refl;
  grows = λ p. ([], sym (append-nil (queue s p)));
  level = λ x. refl;
}

-- The branches of the return to the queue.
pub put_back_running_slot_lem :
    (o : Option ℕ) (s : Scheduler)
    → ((Dispatch.put_back_running_slot o s ≡ s)
        × ((x : ℕ) → o ≡ some x → is_running (state_at s x) ≡ false))
      ⊎ ((c : ℕ) × (o ≡ some c)
          × (is_running (state_at s c) ≡ true)
          × (Dispatch.put_back_running_slot o s ≡ Dispatch.put_back c s))
unfolding Dispatch.put_back_running_slot
put_back_running_slot_lem none s = inl (refl, λ x e. absurd (ground arith))
put_back_running_slot_lem (some c) s = elim (Bool-cases (is_running (state_at s c))) [
  | inl runs ↦ inr (c, refl, runs, rw runs refl)
  | inr idle ↦ inl (
    rw idle refl,
    λ x e. let same : x ≡ c = ground (arith, e) in ap (λ i. is_running (state_at s i)) same ∙ idle,
  )
]

pub put_back_current-Parks : (s : Scheduler) → IsValid s → Parks s (Dispatch.put_back_current s)
put_back_current-Parks s v = elim (put_back_running_slot_lem s.current_slot s) [
  | inl (e, stopped) ↦ subst (Parks s) (sym e) (stopped_Parks s stopped v)
  | inr (c, _, runs, e) ↦ subst (Parks s) (sym e) (put_back-Parks c s runs v)
]

-- The branches of the tick of the current thread.
pub charge_slot_lem :
    (o : Option ℕ) (s : Scheduler)
    → ((Dispatch.charge_slot o s ≡ s) × ((x : ℕ) → o ≡ some x → is_running (state_at s x) ≡ false))
      ⊎ ((c : ℕ) × (o ≡ some c)
          × (is_running (state_at s c) ≡ true)
          × (Dispatch.charge_slot o s ≡ Dispatch.put_back c (Dispatch.count_tick c s)))
      ⊎ ((c : ℕ) × (o ≡ some c)
          × (is_running (state_at s c) ≡ false)
          × (Dispatch.charge_slot o s ≡ Dispatch.count_tick c s))
unfolding Dispatch.charge_slot
charge_slot_lem none s = inl (refl, λ x e. absurd (ground arith))
charge_slot_lem (some c) s = elim (Bool-cases (is_running (state_at s c))) [
  | inl runs ↦ inr (inl (c, refl, runs, rw runs refl))
  | inr idle ↦ elim (Bool-cases (is_blocked (state_at s c))) [
    | inl waits ↦ inr (inr (c, refl, idle, rw (idle, waits) refl))
    | inr other ↦ inl (
      rw (idle, other) refl,
      λ x e.
          let same : x ≡ c = ground (arith, e) in ap (λ i. is_running (state_at s i)) same ∙ idle,
    )
  ]
]

pub charge_current-Parks : (s : Scheduler) → IsValid s → Parks s (Dispatch.charge_current s)
charge_current-Parks s v = elim (charge_slot_lem s.current_slot s) [
  | inl (e, stopped) ↦ subst (Parks s) (sym e) (stopped_Parks s stopped v)
  | inr (inl (c, here, runs, e)) ↦
      let t = Dispatch.ticked (thread_at s c) in
      let below = v.current_in_table c here in
      let (queued, states) = update_Queues s c t below refl refl v.queued in
      let still = ap is_running (states c) ∙ runs in
      let p =
        put_back-Parks c (Dispatch.count_tick c s) still (update_IsValid s c t below refl refl v) in
      subst (Parks s) (sym e) (record {
        parked = p.parked;
        current = p.current;
        ready = p.ready;
        grows = λ i.
            let (more, after) = p.grows i in
            (more, after ∙ ap (λ l. l ++ more) (table_queue s c t i));
        level = λ x. p.level x ∙ same_level s c x t below refl v.queued.shaped;
      })
  | inr (inr (c, here, idle, e)) ↦
      let t = Dispatch.ticked (thread_at s c) in
      let below = v.current_in_table c here in
      let (queued, states) = update_Queues s c t below refl refl v.queued in
      let stopped = λ (x : ℕ) (e' : s.current_slot ≡ some x).
        let same : x ≡ c = ground (arith, here, e') in
        ap is_running (states x) ∙ ap (λ i. is_running (state_at s i)) same ∙ idle in
      subst (Parks s) (sym e) (record {
        parked =
            IsValid-idle (Dispatch.count_tick c s) stopped (update_IsValid s c t below refl refl v);
        current = refl;
        ready = refl;
        grows = λ p. ([], table_queue s c t p ∙ sym (append-nil (queue s p)));
        level = λ x. same_level s c x t below refl v.queued.shaped;
      })
]
