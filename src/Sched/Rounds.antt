-- ===== src/Sched/Rounds.antt =====
-- The turns that the ticks of kernel/src/sched.rs give to threads of one priority.
use hxnu.Base.{
  ℕ, zero, suc, ◌≤◌, ◌<◌, ◌≡◌, refl, sym, ap, ◌∙◌, Bool, true, false, inl, inr, some, List, [], ◌∷◌,
  ◌++◌, arith, length, length-append, length-take, get_or, get_or-append_front, has, position, ltb,
  ◌==◌, if◌then◌else◌, Bool-cases,
}
use hxnu.Sched.{
  Scheduler, max_threads, max_priorities, thread_at, no_bits, depth_of, row_of, dequeue,
  priority_for_thread,
}
use hxnu.Sched.Queue.{take_front}
use hxnu.Sched.Shape.{Shaped, queue, no_bits_clear}
use hxnu.Sched.Valid.{IsValid, IsParked, runnable_at, same_level}
use hxnu.Sched.Switching.{charge_current-Parks}
use hxnu.Sched.Tick.{
  Ticks, off, idles, dispatches, Picks, best, counted, on_timer_tick-Ticks, on_timer_tick-IsValid,
  front_priority,
}
use hxnu.Sched.Dispatch

-- Every thread has the priority that the code gives to new threads.
abbrev pub Level : Scheduler → Type 0
Level s = (x : ℕ) → (thread_at s x).base_priority ≡ 0

-- `n` ticks with nothing between them.
abbrev pub ticks : ℕ → Scheduler → Scheduler
ticks zero s = s
ticks (suc n) s = ticks n (Dispatch.on_timer_tick s).0

busy_bits :
    (s : Scheduler) (p slot : ℕ) (rest : List ℕ)
    → p < max_priorities
    → Shaped s
    → queue s p ≡ slot ∷ rest
    → no_bits s.runqueue_bitmap ≡ false
unfolding queue
busy_bits s p slot rest bound shaped front = elim (Bool-cases (no_bits s.runqueue_bitmap)) [
  | inl clear ↦
      let (filled, _, _) = take_front (depth_of s p) (row_of s p) slot rest front in
      absurd (ground (arith, shaped.bit p bound, no_bits_clear s.runqueue_bitmap p clear))
  | inr busy ↦ busy
]

-- With one priority the queue that is taken from is the first.
best-Level : (s : Scheduler) → Level s → (p : Picks s) → IsParked s → best s ≡ 0
best-Level s level p parked =
    let at =
      front_priority s (best s) p.slot p.rest (runnable_at s) p.bound p.front parked.queued in
    ground (arith, sym at, level p.slot)

-- A tick after which the thread that was in front is the current one.
record Turns (s s' : Scheduler) (slot : ℕ) (rest : List ℕ) : Type 0 where
  current : s'.current_slot ≡ some slot
  valid : IsValid s'
  level : Level s'
  ready : s'.initialized ≡ true
  behind : (more : List ℕ) × (queue s' 0 ≡ rest ++ more)

-- What the counters of a dispatch leave as it is.
counted_rest :
    (same : Bool) (slot : ℕ) (s : Scheduler)
    → slot < max_threads
    → Shaped s
    → ((counted same slot s).current_slot ≡ s.current_slot)
      × ((counted same slot s).initialized ≡ s.initialized)
      × (queue (counted same slot s) 0 ≡ queue s 0)
      × ((x : ℕ)
          → (thread_at (counted same slot s) x).base_priority ≡ (thread_at s x).base_priority)
unfolding queue
counted_rest true slot s below shaped = (
  refl,
  refl,
  refl,
  λ x. same_level s slot x (Dispatch.dispatched (thread_at s slot)) below refl shaped,
)
counted_rest false slot s below shaped = (
  refl,
  refl,
  refl,
  λ x. same_level s slot x (Dispatch.dispatched (thread_at s slot)) below refl shaped,
)

-- The thread that a tick dispatches is the one in front.
dispatches-Turns :
    (s : Scheduler) (slot : ℕ) (rest : List ℕ) (p : Picks (Dispatch.charge_current s)) (same : Bool)
    → let charged = Dispatch.charge_current s in
      let s' = counted same p.slot (Dispatch.run_slot p.slot (dequeue (best charged) charged).0) in
      IsValid s
      → IsValid s'
      → Level s
      → s.initialized ≡ true
      → queue s 0 ≡ slot ∷ rest
      → Turns s s' slot rest
dispatches-Turns s slot rest p same v v' level on front =
    let parks = charge_current-Parks s v in
    let charged = Dispatch.charge_current s in
    let (more, grown) = parks.grows 0 in
    let level' = λ (x : ℕ). parks.level x ∙ level x in
    let at = best-Level charged level' p parks.parked in
    let front' : p.slot ∷ p.rest ≡ slot ∷ (rest ++ more) =
      sym p.front ∙ ap (queue charged) at ∙ grown ∙ ap (λ l. l ++ more) front in
    let ran = Dispatch.run_slot p.slot (dequeue (best charged) charged).0 in
    let (current, ready, queues, levels) =
      counted_rest same p.slot ran p.runs.below p.runs.valid.queued.shaped in
    let same_slot : p.slot ≡ slot = ground (arith, front') in
    let same_rest : p.rest ≡ rest ++ more = ground (arith, front') in
    record {
      current = current ∙ p.runs.current ∙ ap some same_slot;
      valid = v';
      level = λ x. levels x ∙ p.runs.level x ∙ level' x;
      ready = ready ∙ p.runs.ready ∙ parks.ready ∙ on;
      behind = (
        more,
        queues
            ∙ p.runs.queues 0
            ∙ ap (λ b. if 0 == b then p.rest else queue charged 0) at
            ∙ same_rest,
      );
    }

Ticks-Turns :
    {s s' : Scheduler} {slot : ℕ} {rest : List ℕ}
    → Ticks s s'
    → IsValid s
    → IsValid s'
    → Level s
    → s.initialized ≡ true
    → queue s 0 ≡ slot ∷ rest
    → Turns s s' slot rest
Ticks-Turns {s = s} {slot = slot} {rest = rest} (off stop) v v' level on front =
    absurd (ground (arith, stop, on, busy_bits s 0 slot rest (omega arith) v.queued.shaped front))
Ticks-Turns {s = s} {slot = slot} {rest = rest} (idles clear) v v' level on front =
    let parks = charge_current-Parks s v in
    let charged = Dispatch.charge_current s in
    let (more, grown) = parks.grows 0 in
    let front' = grown ∙ ap (λ l. l ++ more) front in
    absurd (
      ground (
        arith,
        clear,
        busy_bits charged 0 slot (rest ++ more) (omega arith) parks.parked.queued.shaped front',
      ))
Ticks-Turns {s = s} {slot = slot} {rest = rest} (dispatches p same) v v' level on front =
    dispatches-Turns s slot rest p same v v' level on front

tick-Turns :
    (s : Scheduler) (slot : ℕ) (rest : List ℕ)
    → IsValid s
    → Level s
    → s.initialized ≡ true
    → queue s 0 ≡ slot ∷ rest
    → Turns s (Dispatch.on_timer_tick s).0 slot rest
tick-Turns s slot rest v level on front =
    Ticks-Turns (on_timer_tick-Ticks s v) v (on_timer_tick-IsValid s v) level on front

turn :
    (k slot : ℕ) (xs : List ℕ) (s : Scheduler)
    → IsValid s
    → Level s
    → s.initialized ≡ true
    → queue s 0 ≡ xs
    → k < length xs
    → get_or xs k 0 ≡ slot
    → (ticks (suc k) s).current_slot ≡ some slot
turn k slot [] s v level on e below at = absurd (omega arith)
turn zero slot (x ∷ xs) s v level on e below at =
    (tick-Turns s x xs v level on e).current ∙ ap some at
turn (suc k) slot (x ∷ xs) s v level on e below at =
    let t = tick-Turns s x xs v level on e in
    let (more, queued) = t.behind in
    turn k slot (xs ++ more) (Dispatch.on_timer_tick s).0 t.valid t.level t.ready queued
      (omega (arith, below, length-append xs more))
      (get_or-append_front xs more k 0 (omega arith) ∙ at)

queue_bound : (s : Scheduler) → Shaped s → length (queue s 0) ≤ max_threads
unfolding queue
queue_bound s shaped =
    omega (arith, length-take (depth_of s 0) (row_of s 0), shaped.deep 0 (omega arith))

-- In a valid, started scheduler whose threads all have priority 0, every thread that can run is the
-- current one after between one and eight ticks in a row.
pub ticks-fair :
    (slot : ℕ) (s : Scheduler)
    → IsValid s
    → Level s
    → s.initialized ≡ true
    → runnable_at s slot ≡ true
    → (n : ℕ) × (n < max_threads) × ((ticks (suc n) s).current_slot ≡ some slot)
ticks-fair slot s v level on can_run =
    let first : priority_for_thread s slot == 0 ≡ true =
      ap (λ b. (if ltb 63 b then 63 else b) == 0) (level slot) in
    let queued : has (queue s 0) slot ≡ true =
      ground (arith, v.queued.entries 0 slot (omega arith), can_run, first) in
    let (k, below, at) = position (queue s 0) slot 0 queued in
    (
      k,
      omega (arith, below, queue_bound s v.queued.shaped),
      turn k slot (queue s 0) s v level on refl below at,
    )
