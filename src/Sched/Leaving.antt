-- ===== src/Sched/Leaving.antt =====
-- The loop of kernel/src/sched.rs in which the threads of a group exit, on a valid scheduler.
use hxnu.Base.{
  ℕ, zero, suc, ◌+◌, ◌≤◌, ◌<◌, ◌≡◌, refl, sym, ap, ◌∙◌, Bool, true, false, not, ◌&&◌, inl, inr,
  arith, get_or, ltb, leb, lt→leb_false, ◌==◌, if◌then◌else◌, Bool-cases, ==→eq, ok,
}
use hxnu.Sched.{
  Scheduler, Thread, ThreadState, max_threads, thread_at, set_thread, set_state, remove, empty,
  is_runnable, is_running,
}
use hxnu.Sched.Linked.{Queues-ext, Queues-set_thread, thread_at-set_thread}
use hxnu.Sched.Moves.{Queues-remove}
use hxnu.Sched.Valid.{IsValid, runnable_at}
use hxnu.Sched.Groups

abbrev pub exit_if : Bool → Thread → Thread
exit_if b t = if b then record t { state = ThreadState.exited } else t

pub record Exits (s s' : Scheduler) (change : ℕ → Bool) : Type 0 where
  pub valid : IsValid s'
  pub threads : (x : ℕ) → thread_at s' x ≡ exit_if (change x) (thread_at s x)
  pub current : s'.current_slot ≡ s.current_slot
  pub ready : s'.initialized ≡ s.initialized

-- The tests after one thread has exited.
exit_runnable :
    (b : Bool) (t : Thread) → (not b && is_runnable t.state) ≡ is_runnable (exit_if b t).state
exit_runnable true t = refl
exit_runnable false t = refl

exit_running :
    (b : Bool) (t : Thread) → is_running (exit_if b t).state ≡ true → is_running t.state ≡ true
exit_running true t e = absurd (ground arith)
exit_running false t e = e

exit_here :
    (s : Scheduler) (slot x : ℕ)
    → (if x == slot
        then record (thread_at s slot) { state = ThreadState.exited }
        else thread_at s x)
      ≡ exit_if (x == slot) (thread_at s x)
exit_here s slot x = elim (Bool-cases (x == slot)) [
  | inl here ↦
      let same = ==→eq x slot here in
      rw here (ap (λ i. record (thread_at s i) { state = ThreadState.exited }) (sym same))
  | inr other ↦ rw other refl
]

exit_one-Exits :
    (slot : ℕ) (s : Scheduler)
    → slot < max_threads
    → IsValid s
    → Exits s (remove slot (set_state slot ThreadState.exited s)) (λ x. x == slot)
exit_one-Exits slot s below v =
    let t = record (thread_at s slot) { state = ThreadState.exited } in
    let marked = set_thread slot t s in
    let moved = Queues-set_thread s (runnable_at s) slot t below (inr refl) v.queued in
    let (same, after) = Queues-remove marked (runnable_at s) slot moved in
    let out = remove slot marked in
    let threads = λ (x : ℕ).
      ap (λ ts. get_or ts x empty) same.threads
      ∙ thread_at-set_thread s slot x t below v.queued.shaped
      ∙ exit_here s slot x in
    record {
      valid = record {
        queued =
            Queues-ext _ (runnable_at out)
              (λ x.
                exit_runnable (x == slot) (thread_at s x)
                ∙ sym (ap (λ u. is_runnable u.state) (threads x)))
              after;
        one_runs = λ x runs.
            same.current
            ∙ v.one_runs x (
                exit_running (x == slot) (thread_at s x)
                  (sym (ap (λ u. is_running u.state) (threads x)) ∙ runs));
        current_in_table = λ x here. v.current_in_table x (sym same.current ∙ here);
      };
      threads = threads;
      current = same.current;
      ready = same.ready;
    }

picked_here :
    (group slot x : ℕ) (s : Scheduler) (b : Bool)
    → Groups.in_group group (thread_at s slot) ≡ b
    → (x == slot && Groups.in_group group (thread_at s x)) ≡ (x == slot && b)
picked_here group slot x s b e = elim (Bool-cases (x == slot)) [
  | inl here ↦ rw here (ap (λ i. Groups.in_group group (thread_at s i)) (==→eq x slot here) ∙ e)
  | inr other ↦ rw other refl
]

exit_slot-Exits :
    (group slot : ℕ) (s : Scheduler)
    → slot < max_threads
    → IsValid s
    → Exits s
        (Groups.exit_slot group slot s)
        (λ x. x == slot && Groups.in_group group (thread_at s x))
unfolding Groups.exit_slot
exit_slot-Exits group slot s below v =
    elim (Bool-cases (Groups.in_group group (thread_at s slot))) [
      | inl member ↦
          let e = exit_one-Exits slot s below v in
          rw (Groups.exit_slot, member)
            (record {
              valid = e.valid;
              threads = λ x.
                  e.threads x
                  ∙ ap (λ b. exit_if b (thread_at s x))
                      (ground (arith, picked_here group slot x s true member));
              current = e.current;
              ready = e.ready;
            })
      | inr other ↦
          rw (Groups.exit_slot, other)
            (record {
              valid = v;
              threads = λ x.
                  let outside : (x == slot && Groups.in_group group (thread_at s x)) ≡ false =
                    ground (arith, picked_here group slot x s false other) in
                  sym (ap (λ b. exit_if b (thread_at s x)) outside);
              current = refl;
              ready = refl;
            })
    ]

-- The slots of a loop, and their threads that exit.
abbrev pub leaves : ℕ → ℕ → ℕ → Scheduler → ℕ → Bool
leaves group n slot s x = (leb slot x && ltb x (slot + n)) && Groups.in_group group (thread_at s x)

then_exits :
    (group n slot x : ℕ) (s : Scheduler)
    → exit_if
        ((leb (slot + 1) x && ltb x (slot + 1 + n))
          && Groups.in_group group
              (exit_if (x == slot && Groups.in_group group (thread_at s x)) (thread_at s x)))
        (exit_if (x == slot && Groups.in_group group (thread_at s x)) (thread_at s x))
      ≡ exit_if (leaves group (suc n) slot s x) (thread_at s x)
then_exits group n slot x s = elim (Bool-cases (x == slot)) [
  | inl here ↦
      let past : (leb (slot + 1) x && ltb x (slot + 1 + n)) ≡ false = ground arith in
      let now : (leb slot x && ltb x (slot + suc n)) ≡ true = ground arith in
      rw (leaves, past, now, here) refl
  | inr other ↦
      let same : (leb (slot + 1) x && ltb x (slot + 1 + n)) ≡ (leb slot x && ltb x (slot + suc n)) =
        ground arith in
      rw (leaves, other, same) refl
]

pub exit_threads-Exits :
    (group n slot seen : ℕ) (s : Scheduler)
    → slot + n ≤ max_threads
    → IsValid s
    → (s' : Scheduler) × (count : ℕ) × (Groups.exit_threads group n slot seen s ≡ ok (s', count))
      × Exits s s' (leaves group n slot s)
unfolding Groups.exit_threads
exit_threads-Exits group zero slot seen s room v = (
  s,
  seen,
  refl,
  record {
    valid = v;
    threads = λ x.
        let empty_range : (leb slot x && ltb x (slot + 0)) ≡ false = ground arith in
        rw (leaves, empty_range) refl;
    current = refl;
    ready = refl;
  },
)
exit_threads-Exits group (suc n) slot seen s room v =
    let e = exit_slot-Exits group slot s (omega arith) v in
    let next = Groups.exit_slot group slot s in
    let seen' = if Groups.in_group group (thread_at s slot) then seen + 1 else seen in
    let (s', count, result, rest) =
      exit_threads-Exits group n (slot + 1) seen' next (omega arith) e.valid in
    let inside : leb max_threads slot ≡ false = lt→leb_false max_threads slot (omega arith) in
    (
      s',
      count,
      rw inside result,
      record {
        valid = rest.valid;
        threads = λ x.
            rest.threads x
            ∙ ap
                (λ t.
                  exit_if ((leb (slot + 1) x && ltb x (slot + 1 + n)) && Groups.in_group group t) t)
                (e.threads x)
            ∙ then_exits group n slot x s;
        current = rest.current ∙ e.current;
        ready = rest.ready ∙ e.ready;
      },
    )
