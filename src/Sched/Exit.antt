-- ===== src/Sched/Exit.antt =====
-- The exit of a thread group of kernel/src/sched.rs on a valid scheduler.
use hxnu.Base.{
  ℕ, ◌≤◌, ◌<◌, ◌≡◌, refl, sym, ap, ◌∙◌, subst, Bool, true, false, not, ◌&&◌, ◌||◌, inl, inr, Option,
  none, some, List, arith, ltb, ◌==◌, if◌then◌else◌, Bool-cases, Option-cases, ==→eq, eq→==, ok,
  sat_add, Result,
}
use hxnu.Sched.{
  Scheduler, Thread, ThreadState, max_threads, thread_at, dequeue, is_runnable, is_running,
  is_exited, no_bits,
}
use hxnu.Sched.Linked.{Queues-fields}
use hxnu.Sched.Valid.{states_apart, IsValid, IsParked, Runs, state_at, runnable_at}
use hxnu.Sched.Switching.{IsValid-idle, fields_IsValid}
use hxnu.Sched.Tick.{pick-Picks, best, parked_IsValid}
use hxnu.Sched.Dispatch
use hxnu.Sched.Groups
use hxnu.Sched.Leaving.{Exits, exit_if, exit_threads-Exits, leaves}

-- The next thread runs, if there is one; threads that have exited stay so.
pub record Continues (s : Scheduler)
    (out : Scheduler × Result (Option Groups.ExitGroupRecord) Dispatch.Panic) : Type 0 where
  pub valid : IsValid out.0
  pub returns : (r : Groups.ExitGroupRecord) × (out.1 ≡ ok (some r))
  pub exited : (x : ℕ) → is_exited (state_at out.0 x) ≡ is_exited (state_at s x)

exited_apart : (state : ThreadState) → is_runnable state ≡ true → is_exited state ≡ false
exited_apart state e = ground (arith, states_apart state, e)

Runs-is_exited :
    {s s' : Scheduler} {p slot : ℕ} {rest : List ℕ}
    → Runs s s' p slot rest
    → (x : ℕ) → is_exited (state_at s' x) ≡ is_exited (state_at s x)
Runs-is_exited {s = s} {slot = slot} runs x = elim (Bool-cases (x == slot)) [
  | inl here ↦
      let same = ==→eq x slot here in
      ap is_exited (runs.states x ∙ ap (λ b. if b then ThreadState.running else state_at s x) here)
      ∙ sym
          (ap (λ i. is_exited (state_at s i)) same ∙ exited_apart (state_at s slot) runs.could_run)
  | inr other ↦
      ap is_exited (runs.states x ∙ ap (λ b. if b then ThreadState.running else state_at s x) other)
]

run_next-Continues :
    (status count : ℕ) (t : Thread) (s : Scheduler)
    → s.current_slot ≡ none
    → IsParked s
    → Continues s (Groups.run_next status t count s)
run_next-Continues status count t s idle parked = elim (Bool-cases (no_bits s.runqueue_bitmap)) [
  | inl clear ↦
      rw (Groups.run_next, clear)
        (record {
          valid = parked_IsValid s s.current_slot (λ x e. absurd (ground (arith, e, idle))) parked;
          returns = (_, refl);
          exited = λ x. refl;
        })
  | inr busy ↦
      let p = pick-Picks s parked busy in
      let ran = Dispatch.run_slot p.slot (dequeue (best s) s).0 in
      rw (Groups.run_next, busy, p.runs.taken)
        (record {
          valid =
              fields_IsValid ran ran.next_thread_id ran.thread_count
                (sat_add ran.context_switches 1) p.runs.valid;
          returns = (_, refl);
          exited = λ x. Runs-is_exited p.runs x;
        })
]

exit_if_group : (b : Bool) (t : Thread) → (exit_if b t).thread_group_id ≡ t.thread_group_id
exit_if_group true t = refl
exit_if_group false t = refl

exit_if_exited : (b : Bool) (t : Thread) → is_exited (exit_if b t).state ≡ (b || is_exited t.state)
exit_if_exited true t = refl
exit_if_exited false t = refl

-- The scheduler behind the loop, with the current slot given up.
abbrev pub vacated : Scheduler → Scheduler
vacated s = record s { current_slot = none }

vacated-IsParked :
    (s : Scheduler) (c : ℕ)
    → s.current_slot ≡ some c
    → is_running (state_at s c) ≡ false
    → IsValid s
    → IsParked (vacated s)
vacated-IsParked s c here stopped v =
    let idle =
      IsValid-idle s
        (λ x e.
          let same : x ≡ c = ground (arith, e, here) in
          ap (λ i. is_running (state_at s i)) same ∙ stopped)
        v in
    record {
      queued =
          Queues-fields s (runnable_at s) s.next_thread_id s.thread_count s.context_switches none
            idle.queued;
      none_runs = idle.none_runs;
    }

exited_still : (state : ThreadState) → is_exited state ≡ true → is_running state ≡ false
exited_still state e = ground (arith, states_apart state, e)

-- The threads that an exit of the group of slot `c` leaves behind.
abbrev pub GroupLeft : Scheduler → ℕ → Scheduler → Type 0
GroupLeft s c s' =
    (x : ℕ)
    → is_exited (state_at s' x) ≡ (
        (ltb x s.thread_count && (thread_at s x).thread_group_id == (thread_at s c).thread_group_id)
        || is_exited (state_at s x))

exit_threads_group :
    (s s' : Scheduler) (c : ℕ)
    → Exits s s' (leaves (thread_at s c).thread_group_id s.thread_count 0 s)
    → GroupLeft s c s'
exit_threads_group s s' c e x =
    let change = leaves (thread_at s c).thread_group_id s.thread_count 0 s x in
    ap (λ t. is_exited t.state) (e.threads x) ∙ exit_if_exited change (thread_at s x) ∙ ground arith

exit_group_of_slot_lem :
    (status c : ℕ) (s : Scheduler)
    → (not s.initialized || is_exited (thread_at s c).state || (thread_at s c).thread_group_id == 0)
      ≡ false
    → s.thread_count ≤ max_threads
    → c < s.thread_count
    → s.current_slot ≡ some c
    → IsValid s
    → (s' : Scheduler) × GroupLeft s c s'
      × Continues (vacated s') (Groups.exit_group_of_slot status (some c) s)
unfolding Groups.exit_group_of_slot
exit_group_of_slot_lem status c s on few inside here v =
    let t = thread_at s c in
    let group = t.thread_group_id in
    let (s', count, result, e) = exit_threads-Exits group s.thread_count 0 0 s (omega arith) v in
    let left = exit_threads_group s s' c e in
    let gone : is_exited (state_at s' c) ≡ true = ground (arith, left c) in
    let same_group : (thread_at s' c).thread_group_id == group ≡ true =
      eq→== (thread_at s' c).thread_group_id group (
        ap (λ u. u.thread_group_id) (e.threads c)
        ∙ exit_if_group (leaves group s.thread_count 0 s c) t) in
    let parked =
      vacated-IsParked s' c (e.current ∙ here) (exited_still (state_at s' c) gone) e.valid in
    let behind : Groups.leave_group c group s' ≡ vacated s' = rw same_group refl in
    (
      s',
      left,
      rw (Groups.exit_group_of_slot, on, result)
          (subst (λ w. Continues (vacated s') (Groups.run_next status t count w)) (sym behind)
            (run_next-Continues status count t (vacated s') refl parked)),
    )

abbrev pub ExitKeeps : ℕ → Scheduler → Option ℕ → Type 0
ExitKeeps status s o = IsValid (Groups.exit_group_of_slot status o s).0

nobody_exits : (status : ℕ) (s : Scheduler) → IsValid s → ExitKeeps status s none
unfolding Groups.exit_group_of_slot
nobody_exits status s v = v

refuses :
    (status c : ℕ) (s : Scheduler)
    → (not s.initialized || is_exited (thread_at s c).state || (thread_at s c).thread_group_id == 0)
      ≡ true
    → IsValid s
    → ExitKeeps status s (some c)
unfolding Groups.exit_group_of_slot
refuses status c s stop v = rw (Groups.exit_group_of_slot, stop) v

pub request_exit_group-IsValid :
    (status : ℕ) (s : Scheduler)
    → s.thread_count ≤ max_threads
    → ((c : ℕ) → s.current_slot ≡ some c → c < s.thread_count)
    → IsValid s
    → IsValid (Groups.request_exit_group status s).0
request_exit_group-IsValid status s few inside v = elim (Option-cases s.current_slot) [
  | inl gone ↦ subst (ExitKeeps status s) (sym gone) (nobody_exits status s v)
  | inr (c, here) ↦
      subst (ExitKeeps status s) (sym here)
        (elim (Bool-cases (
          not s.initialized
          || is_exited (thread_at s c).state
          || (thread_at s c).thread_group_id == 0)) [
            | inl stop ↦ refuses status c s stop v
            | inr on ↦
                let (s', _, continues) =
                  exit_group_of_slot_lem status c s on few (inside c here) here v in
                continues.valid
          ])
]
