-- ===== src/Sched/Tick.antt =====
-- The tick, the switch and the yield of kernel/src/sched.rs on a valid scheduler.
use hxnu.Base.{
  ℕ, ◌<◌, ◌≡◌, refl, sym, ap, ◌∙◌, subst, Bool, true, false, not, ◌&&◌, ◌||◌, inl, inr, ◌⊎◌, Option,
  none, some, List, ◌∷◌, ◌++◌, arith, lt→leb_false, ◌==◌, if◌then◌else◌, Bool-cases, ==→eq, eq→==,
  has, sat_add,
}
use hxnu.Sched.{
  Scheduler, max_threads, max_priorities, priority_for_thread, dequeue, no_bits, trailing_zeros,
  depth_of, row_of,
}
use hxnu.Sched.Queue.{take_front}
use hxnu.Sched.Shape.{Shaped, queue}
use hxnu.Sched.Linked.{Queues, Queues-fields}
use hxnu.Sched.Valid.{IsValid, IsParked, Runs, run_slot-Runs, best_queue, runnable_at}
use hxnu.Sched.Switching.{
  charge_current-Parks, put_back_current-Parks, count_dispatch-IsValid, fields_IsValid,
}
use hxnu.Sched.Dispatch

abbrev pub best : Scheduler → ℕ
best s = trailing_zeros s.runqueue_bitmap

-- The thread that is dispatched, from a scheduler in which none runs.
pub record Picks (s : Scheduler) : Type 0 where
  pub slot : ℕ
  pub rest : List ℕ
  pub bound : best s < max_priorities
  pub front : queue s (best s) ≡ slot ∷ rest
  pub runs : Runs s (Dispatch.run_slot slot (dequeue (best s) s).0) (best s) slot rest

pub pick-Picks : (s : Scheduler) → IsParked s → no_bits s.runqueue_bitmap ≡ false → Picks s
pick-Picks s parked busy =
    let (bound, (slot, rest, front)) = best_queue s parked.queued.shaped busy in
    record {
      slot = slot;
      rest = rest;
      bound = bound;
      front = front;
      runs = run_slot-Runs s (best s) slot rest bound front parked;
    }

-- The counters of a dispatch, when it is a switch and when the thread was current already.
abbrev pub counted : Bool → ℕ → Scheduler → Scheduler
counted same slot s = Dispatch.count_dispatch slot (if same then s else Dispatch.count_switch s)

pub counted-IsValid :
    (same : Bool) (slot : ℕ) (s : Scheduler)
    → slot < max_threads
    → IsValid s
    → IsValid (counted same slot s)
counted-IsValid true slot s below v = count_dispatch-IsValid slot s below v
counted-IsValid false slot s below v =
    count_dispatch-IsValid slot (Dispatch.count_switch s) below
      (fields_IsValid s s.next_thread_id s.thread_count (sat_add s.context_switches 1) v)

pub run_counted :
    (b : Bool) (slot : ℕ) (s : Scheduler)
    → Dispatch.count_dispatch slot
        (Dispatch.run_slot slot (if b then s else Dispatch.count_switch s))
      ≡ counted b slot (Dispatch.run_slot slot s)
unfolding Dispatch.run_slot
run_counted true slot s = refl
run_counted false slot s = refl

-- What a tick does.
pub data Ticks (s : Scheduler) : Scheduler → Type 0 where
  off :
      not s.initialized || no_bits s.runqueue_bitmap && Dispatch.is_none s.current_slot ≡ true
      → Ticks s s
  idles :
      no_bits (Dispatch.charge_current s).runqueue_bitmap ≡ true
      → Ticks s (record (Dispatch.charge_current s) { current_slot = none })
  dispatches :
      (p : Picks (Dispatch.charge_current s)) (same : Bool)
      → Ticks s (
          counted same p.slot (
            Dispatch.run_slot p.slot
              (dequeue (best (Dispatch.charge_current s)) (Dispatch.charge_current s)).0))

pub on_timer_tick-Ticks : (s : Scheduler) → IsValid s → Ticks s (Dispatch.on_timer_tick s).0
unfolding Dispatch.on_timer_tick
on_timer_tick-Ticks s v =
    let charged = Dispatch.charge_current s in
    elim (Bool-cases
      (not s.initialized || no_bits s.runqueue_bitmap && Dispatch.is_none s.current_slot)) [
        | inl stop ↦ rw (Dispatch.on_timer_tick, stop) (off stop)
        | inr on ↦ elim (Bool-cases (no_bits charged.runqueue_bitmap)) [
          | inl clear ↦ rw (Dispatch.on_timer_tick, on, clear) (idles clear)
          | inr busy ↦
              let p = pick-Picks charged (charge_current-Parks s v).parked busy in
              let taken = (dequeue (best charged) charged).0 in
              let same = Dispatch.is_slot taken.current_slot p.slot in
              let below = lt→leb_false max_priorities (best charged) p.bound in
              rw (Dispatch.on_timer_tick, on, busy, below, p.runs.taken)
                (subst (Ticks s) (sym (run_counted same p.slot taken)) (dispatches p same))
        ]
      ]

pub parked_IsValid :
    (s : Scheduler) (o : Option ℕ)
    → ((x : ℕ) → o ≡ some x → x < max_threads)
    → IsParked s
    → IsValid (record s { current_slot = o })
parked_IsValid s o below parked = record {
  queued =
      Queues-fields s (runnable_at s) s.next_thread_id s.thread_count s.context_switches o
        parked.queued;
  one_runs = λ x e. absurd (ground (arith, e, parked.none_runs x));
  current_in_table = below;
}

Ticks-IsValid : {s s' : Scheduler} → Ticks s s' → IsValid s → IsValid s'
Ticks-IsValid (off stop) v = v
Ticks-IsValid {s = s} (idles clear) v =
    parked_IsValid (Dispatch.charge_current s) none (λ x e. absurd (ground (arith, e)))
      (charge_current-Parks s v).parked
Ticks-IsValid (dispatches p same) v = counted-IsValid same p.slot _ p.runs.below p.runs.valid

pub on_timer_tick-IsValid : (s : Scheduler) → IsValid s → IsValid (Dispatch.on_timer_tick s).0
on_timer_tick-IsValid s v = Ticks-IsValid (on_timer_tick-Ticks s v) v

-- The next thread, if it is another than the current one.
next_switch_index_lem :
    (s : Scheduler)
    → Shaped s
    → (Dispatch.next_switch_index s ≡ none)
      ⊎ ((next : ℕ) × (rest : List ℕ) × (Dispatch.next_switch_index s ≡ some next)
          × (best s < max_priorities)
          × (queue s (best s) ≡ next ∷ rest))
unfolding Dispatch.next_switch_index queue
next_switch_index_lem s shaped =
    elim (Bool-cases (not s.initialized || no_bits s.runqueue_bitmap)) [
      | inl stop ↦ inl (rw (Dispatch.next_switch_index, stop) refl)
      | inr on ↦
          let (bound, (slot, rest, front)) = best_queue s shaped (ground (arith, on)) in
          let below = lt→leb_false max_priorities (best s) bound in
          let (filled, head, _) =
            take_front (depth_of s (best s)) (row_of s (best s)) slot rest front in
          let some_left : (depth_of s (best s) == 0) ≡ false = ground arith in
          elim (Bool-cases (Dispatch.is_slot s.current_slot slot)) [
            | inl same ↦
                inl (rw (Dispatch.next_switch_index, on, below, some_left, head, same) refl)
            | inr other ↦ inr (
              slot,
              rest,
              rw (Dispatch.next_switch_index, on, below, some_left, head, other) refl,
              bound,
              front,
            )
          ]
    ]

-- A switch leaves everything as it is, or runs the thread that was in front.
pub data Switches (s : Scheduler) : Scheduler → Type 0 where
  stays : Switches s s
  switches :
      (slot : ℕ) (rest : List ℕ)
      → Runs
          (Dispatch.put_back_current s)
          (Dispatch.run_slot slot (dequeue (best s) (Dispatch.put_back_current s)).0)
          (best s)
          slot
          rest
      → Switches s (
          counted false slot
            (Dispatch.run_slot slot (dequeue (best s) (Dispatch.put_back_current s)).0))

pub front_priority :
    (s : Scheduler) (p slot : ℕ) (rest : List ℕ) (f : ℕ → Bool)
    → p < max_priorities
    → queue s p ≡ slot ∷ rest
    → Queues s f
    → priority_for_thread s slot ≡ p
front_priority s p slot rest f bound front q =
    let head = q.entries p slot bound in
    let here : has (queue s p) slot ≡ true = rw (front, eq→== slot slot refl) refl in
    ==→eq (priority_for_thread s slot) p (ground (arith, sym head ∙ here))

unswitched :
    (stacks : ℕ) (o : Option ℕ) (s : Scheduler) → (Dispatch.switch_slots stacks o none s).0 ≡ s
unfolding Dispatch.switch_slots
unswitched stacks none s = refl
unswitched stacks (some c) s = refl

switched :
    (stacks : ℕ) (o : Option ℕ) (next slot : ℕ) (s : Scheduler)
    → let w = Dispatch.put_back_running_slot o s in
      (dequeue (priority_for_thread w next) w).1 ≡ some slot
      → ((Dispatch.switch_slots stacks o (some next) s).0 ≡ s)
        ⊎ ((Dispatch.switch_slots stacks o (some next) s).0
            ≡ counted false slot
                (Dispatch.run_slot slot (dequeue (priority_for_thread w next) w).0))
unfolding Dispatch.switch_slots
switched stacks none next slot s taken = inl refl
switched stacks (some c) next slot s taken = inr (rw (Dispatch.switch_slots, taken) refl)

pub context_switch_pair-Switches :
    (stacks : ℕ) (s : Scheduler) → IsValid s → Switches s (Dispatch.context_switch_pair stacks s).0
context_switch_pair-Switches stacks s v =
    let step = λ (n : Option ℕ). Switches s (Dispatch.switch_slots stacks s.current_slot n s).0 in
    elim (next_switch_index_lem s v.queued.shaped) [
      | inl e ↦
          subst step (sym e) (subst (Switches s) (sym (unswitched stacks s.current_slot s)) stays)
      | inr (next, rest, e, bound, front) ↦
          let w = Dispatch.put_back_current s in
          let parks = put_back_current-Parks s v in
          let (tail, grown) = parks.grows (best s) in
          let more = rest ++ tail in
          let front' = grown ∙ ap (λ l. l ++ tail) front in
          let runs = run_slot-Runs w (best s) next more bound front' parks.parked in
          let at =
            front_priority w (best s) next more (runnable_at w) bound front' parks.parked.queued in
          subst step (sym e)
            (elim (switched stacks s.current_slot next next s
              (ap (λ p. (dequeue p w).1) at ∙ runs.taken)) [
                | inl same ↦ subst (Switches s) (sym same) stays
                | inr went ↦
                    subst (Switches s)
                      (sym (
                        went
                        ∙ ap (λ p. counted false next (Dispatch.run_slot next (dequeue p w).0)) at))
                      (switches next more runs)
              ])
    ]

Switches-IsValid : {s s' : Scheduler} → Switches s s' → IsValid s → IsValid s'
Switches-IsValid stays v = v
Switches-IsValid (switches slot rest runs) v = counted-IsValid false slot _ runs.below runs.valid

pub context_switch_pair-IsValid :
    (stacks : ℕ) (s : Scheduler) → IsValid s → IsValid (Dispatch.context_switch_pair stacks s).0
context_switch_pair-IsValid stacks s v =
    Switches-IsValid (context_switch_pair-Switches stacks s v) v
