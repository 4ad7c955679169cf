-- ===== src/Sched/Moves.antt =====
-- Entries that are appended to the run queues of kernel/src/sched.rs, and that leave them.
use hxnu.Base.{
  ℕ, ◌<◌, ◌≡◌, refl, sym, ap, ◌∙◌, subst, Bool, true, false, not, ◌&&◌, ◌||◌, inl, inr, some, List,
  [], ◌∷◌, ◌++◌, arith, ◌==◌, if◌then◌else◌, Bool-cases, ==→eq, eq→==, has, erase, Distinct,
  has-append, Distinct-append, has-erase_self, has-erase_other, Distinct-erase, ok,
}
use hxnu.Sched.{
  Scheduler, max_threads, max_priorities, priority_for_thread, enqueue, dequeue, remove,
}
use hxnu.Sched.Queue.{erase_front}
use hxnu.Sched.Shape.{
  KeepsThreads, Writes, queue, enqueue-Writes, remove-Writes, dequeue-Writes, priority_bound,
}
use hxnu.Sched.Linked.{Queues, Queues-room, same_priority}

-- An entry in a queue that one was appended to, or that one left.
appended_entry :
    (s : Scheduler) (f : ℕ → Bool) (slot p x : ℕ)
    → p < max_priorities
    → Queues s f
    → has
        (if p == priority_for_thread s slot
          then queue s (priority_for_thread s slot) ++ slot ∷ []
          else queue s p)
        x
      ≡ ((x == slot || f x) && priority_for_thread s x == p)
appended_entry s f slot p x b q =
    let at = priority_for_thread s slot in
    elim (Bool-cases (x == slot)) [
      | inl same ↦
          let slot_priority = ap (priority_for_thread s) (==→eq x slot same) in
          ground (
            arith,
            has-append (queue s at) slot x,
            q.entries p x b,
            slot_priority,
            same,
            eq→== slot x,
          )
      | inr other ↦ ground (
        arith,
        has-append (queue s at) slot x,
        q.entries p x b,
        q.entries at x (priority_bound s slot),
        other,
      )
    ]

erased_entry :
    (s : Scheduler) (f : ℕ → Bool) (slot at p x : ℕ)
    → p < max_priorities
    → at < max_priorities
    → (f slot ≡ true → priority_for_thread s slot ≡ at)
    → Queues s f
    → has (if p == at then erase slot (queue s at) else queue s p) x
      ≡ ((not (x == slot) && f x) && priority_for_thread s x == p)
erased_entry s f slot at p x b bound where_it_is q = elim (Bool-cases (x == slot)) [
  | inl same ↦
      let here = ==→eq x slot same in
      let gone = has-erase_self slot (queue s at) (q.once at bound) in
      rw here (ground (arith, gone, q.entries p slot b, where_it_is, same, eq→== slot slot))
  | inr other ↦
      ground
        (arith, has-erase_other slot x (queue s at), q.entries p x b, q.entries at x bound, other)
]

once_written :
    {s s' : Scheduler} {at : ℕ} {xs : List ℕ}
    → Writes s s' at xs
    → (p : ℕ) → Distinct xs
    → Distinct (queue s p)
    → Distinct (queue s' p)
once_written {s = s} {at = at} {xs = xs} written p new old = elim (Bool-cases (p == at)) [
  | inl here ↦
      subst Distinct (sym (written.queues p ∙ ap (λ v. if v then xs else queue s p) here)) new
  | inr other ↦
      subst Distinct (sym (written.queues p ∙ ap (λ v. if v then xs else queue s p) other)) old
]

pub Queues-enqueue :
    (s : Scheduler) (f : ℕ → Bool) (slot : ℕ)
    → slot < max_threads
    → f slot ≡ false
    → Queues s f
    → ((enqueue slot s).1 ≡ ok tt)
      × Writes s
          (enqueue slot s).0
          (priority_for_thread s slot)
          (queue s (priority_for_thread s slot) ++ slot ∷ [])
      × Queues (enqueue slot s).0 (λ x. x == slot || f x)
Queues-enqueue s f slot below free q =
    let at = priority_for_thread s slot in
    let bound = priority_bound s slot in
    let (done, written) = enqueue-Writes slot s q.shaped (Queues-room s f slot below free q) in
    let gone : has (queue s at) slot ≡ false =
      q.entries at slot bound ∙ ap (λ v. v && at == at) free in
    (
      done,
      written,
      record {
        shaped = written.shaped;
        in_table = λ x e. ground (arith, q.in_table x);
        entries = λ p x b.
            ap (λ l. has l x) (written.queues p)
            ∙ appended_entry s f slot p x b q
            ∙ ap (λ v. (x == slot || f x) && v == p)
                (sym (same_priority s (enqueue slot s).0 x written.same));
        once = λ p b.
            once_written written p (Distinct-append (queue s at) slot (q.once at bound) gone)
              (q.once p b);
      },
    )

Writes-Queues :
    (s s' : Scheduler) (f : ℕ → Bool) (slot at : ℕ)
    → at < max_priorities
    → (f slot ≡ true → priority_for_thread s slot ≡ at)
    → Writes s s' at (erase slot (queue s at))
    → Queues s f
    → Queues s' (λ x. not (x == slot) && f x)
Writes-Queues s s' f slot at bound where_it_is written q = record {
  shaped = written.shaped;
  in_table = λ x e. ground (arith, q.in_table x);
  entries = λ p x b.
      ap (λ l. has l x) (written.queues p)
      ∙ erased_entry s f slot at p x b bound where_it_is q
      ∙ ap (λ v. (not (x == slot) && f x) && v == p) (sym (same_priority s s' x written.same));
  once = λ p b.
      once_written written p (Distinct-erase slot (queue s at) (q.once at bound)) (q.once p b);
}

pub Queues-remove :
    (s : Scheduler) (f : ℕ → Bool) (slot : ℕ)
    → Queues s f
    → KeepsThreads s (remove slot s) × Queues (remove slot s) (λ x. not (x == slot) && f x)
Queues-remove s f slot q =
    let written = remove-Writes slot s q.shaped in
    (
      written.same,
      Writes-Queues s (remove slot s) f slot (priority_for_thread s slot) (priority_bound s slot)
          (λ e. refl) written q,
    )

-- The thread in front of a queue is picked, and leaves.
pub Queues-dequeue :
    (s : Scheduler) (f : ℕ → Bool) (p slot : ℕ) (rest : List ℕ)
    → p < max_priorities
    → queue s p ≡ slot ∷ rest
    → Queues s f
    → ((dequeue p s).1 ≡ some slot)
      × Writes s (dequeue p s).0 p rest
      × (f slot ≡ true)
      × (priority_for_thread s slot ≡ p)
      × Queues (dequeue p s).0 (λ x. not (x == slot) && f x)
Queues-dequeue s f p slot rest bound e q =
    let (taken, written) = dequeue-Writes p slot rest s bound q.shaped e in
    let front : has (queue s p) slot ≡ true = rw (e, eq→== slot slot refl) refl in
    let entry = sym (q.entries p slot bound) ∙ front in
    let picked : f slot ≡ true = ground (arith, entry) in
    let at : priority_for_thread s slot ≡ p =
      ==→eq (priority_for_thread s slot) p (ground (arith, entry)) in
    let erased =
      subst (Writes s (dequeue p s).0 p) (sym (ap (erase slot) e ∙ erase_front slot rest))
        written in
    (taken, written, picked, at, Writes-Queues s (dequeue p s).0 f slot p bound (λ t. at) erased q)
