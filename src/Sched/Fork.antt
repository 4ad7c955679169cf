-- ===== src/Sched/Fork.antt =====
-- The outcomes of a fork of kernel/src/sched.rs.
use hxnu.Base.{
  ℕ, ◌+◌, ◌<◌, ◌≡◌, ◌≢◌, refl, sym, ap, ◌∙◌, subst, true, false, not, inl, inr, ◌⊎◌, Option, none,
  some, [], ◌∷◌, ◌++◌, arith, get_or, ◌==◌, if◌then◌else◌, Bool-cases, eq→==, ==→eq, ok, err,
  sat_add,
}
use hxnu.Sched.{
  Scheduler, SchedulerError, thread_at, set_thread, max_threads, empty, priority_for_thread,
  is_unused,
}
use hxnu.Sched.Shape.{queue}
use hxnu.Sched.Linked.{thread_at-set_thread, same_priority}
use hxnu.Sched.Valid.{IsValid, enter, enter-Enters, state_at}
use hxnu.Sched.Switching.{fields_IsValid}
use hxnu.Sched.Threads.{first-some, unused_idle}
use hxnu.Sched.Create.{counted_up}
use hxnu.Sched.Life

-- A child was made: it takes an unused slot, as a copy of its parent, and is last in its queue.
pub record Forked (parent new_cr3 : ℕ) (s s' : Scheduler) : Type 0 where
  pub slot : ℕ
  pub was_unused : is_unused (state_at s slot) ≡ true
  pub child : thread_at s' slot ≡ Life.child_of (thread_at s parent) s.next_thread_id new_cr3
  pub others : (x : ℕ) → (x == slot) ≡ false → thread_at s' x ≡ thread_at s x
  pub last :
      queue s' (priority_for_thread s' slot) ≡ queue s (priority_for_thread s' slot) ++ slot ∷ []
  pub counted : s'.thread_count ≡ s.thread_count + 1

fork_slot-Forked :
    (new_cr3 parent slot : ℕ) (s : Scheduler)
    → slot < max_threads
    → is_unused (state_at s slot) ≡ true
    → IsValid s
    → Forked parent new_cr3 s
        (enter slot (Life.child_of (thread_at s parent) s.next_thread_id new_cr3) (counted_up s))
unfolding queue
fork_slot-Forked new_cr3 parent slot s below free v =
    let child = Life.child_of (thread_at s parent) s.next_thread_id new_cr3 in
    let counted =
      fields_IsValid s (sat_add s.next_thread_id 1) (s.thread_count + 1) s.context_switches v in
    let e =
      enter-Enters (counted_up s) slot child below (unused_idle (state_at s slot) free) refl
        counted.queued in
    let out = enter slot child (counted_up s) in
    let threads = λ (x : ℕ).
      ap (λ ts. get_or ts x empty) e.written.same.threads
      ∙ thread_at-set_thread (counted_up s) slot x child below counted.queued.shaped in
    let before = set_thread slot child (counted_up s) in
    let p = priority_for_thread before slot in
    let same_p = same_priority before out slot e.written.same in
    record {
      slot = slot;
      was_unused = free;
      child = threads slot ∙ ap (λ b. if b then child else thread_at s slot) (eq→== slot slot refl);
      others = λ x apart. threads x ∙ ap (λ b. if b then child else thread_at s x) apart;
      last =
          ap (queue out) same_p
          ∙ e.written.queues p
          ∙ ap (λ b. if b then queue before p ++ slot ∷ [] else queue before p) (eq→== p p refl)
          ∙ ap (λ i. queue s i ++ slot ∷ []) (sym same_p);
      counted = e.written.same.count;
    }

-- What a fork by the thread in slot `o` does, where `free` is the unused slot.
abbrev pub ForkOutcome : ℕ → ℕ → Option ℕ → Option ℕ → Scheduler → Type 0
ForkOutcome new_cr3 parent o free s =
    let out = Life.fork_slot new_cr3 o free s in
    ((free ≡ none) × (out ≡ (s, err SchedulerError.thread_table_full)))
    ⊎ ((free ≢ none) × (new_cr3 ≡ 0) × (out ≡ (counted_up s, err SchedulerError.thread_table_full)))
    ⊎ ((free ≢ none)
        × (new_cr3 ≢ 0)
        × (out.1 ≡ ok s.next_thread_id)
        × Forked parent new_cr3 s out.0)

fork_slot_outcomes :
    (new_cr3 parent : ℕ) (free : Option ℕ) (s : Scheduler)
    → ((x : ℕ) → free ≡ some x → (x < max_threads) × (is_unused (state_at s x) ≡ true))
    → IsValid s
    → s.initialized ≡ true
    → ForkOutcome new_cr3 parent (some parent) free s
unfolding Life.fork_slot
fork_slot_outcomes new_cr3 parent none s unused v on = inl (refl, refl)
fork_slot_outcomes new_cr3 parent (some slot) s unused v on =
    let (below, free) = unused slot refl in
    let started = ap not on in
    elim (Bool-cases (new_cr3 == 0)) [
      | inl failed ↦ inr (
          inl (
            (λ e. absurd (ground (arith, e))),
            ==→eq new_cr3 0 failed,
            rw (Life.fork_slot, started, failed) refl,
          ))
      | inr cloned ↦ inr (
          inr (
            (λ e. absurd (ground (arith, e))),
            (λ e. absurd (ground (arith, cloned, e))),
            rw (Life.fork_slot, started, cloned) refl,
            rw (Life.fork_slot, started, cloned)
                (fork_slot-Forked new_cr3 parent slot s below free v),
          ))
    ]

-- On a valid, started scheduler with a current thread a fork has three outcomes. Without an unused
-- slot it fails and changes nothing. If the address space was not cloned it fails, and the next
-- identifier and the thread count are one greater all the same. Else it returns the next
-- identifier: an unused slot holds the child, a copy of the parent with its own address space,
-- which is last in its queue; the other slots stay, and the count is one greater.
pub fork_current_thread_outcomes :
    (new_cr3 parent : ℕ) (s : Scheduler)
    → s.current_slot ≡ some parent
    → s.initialized ≡ true
    → IsValid s
    → ((Life.first Life.unused s.threads ≡ none)
        × (Life.fork_current_thread new_cr3 s ≡ (s, err SchedulerError.thread_table_full)))
      ⊎ ((Life.first Life.unused s.threads ≢ none)
          × (new_cr3 ≡ 0)
          × (Life.fork_current_thread new_cr3 s
              ≡ (counted_up s, err SchedulerError.thread_table_full)))
      ⊎ ((Life.first Life.unused s.threads ≢ none)
          × (new_cr3 ≢ 0)
          × ((Life.fork_current_thread new_cr3 s).1 ≡ ok s.next_thread_id)
          × Forked parent new_cr3 s (Life.fork_current_thread new_cr3 s).0)
fork_current_thread_outcomes new_cr3 parent s here on v =
    let free = Life.first Life.unused s.threads in
    let unused : (x : ℕ) → free ≡ some x → (x < max_threads) × (is_unused (state_at s x) ≡ true) =
      λ x found.
        let (below, passes) = first-some Life.unused s.threads x found in
        (omega (arith, below, v.queued.shaped.table), passes) in
    subst (λ o. ForkOutcome new_cr3 parent o free s) (sym here)
      (fork_slot_outcomes new_cr3 parent free s unused v on)
