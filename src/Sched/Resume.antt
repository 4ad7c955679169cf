-- ===== src/Sched/Resume.antt =====
-- The operations of kernel/src/sched.rs that make a given thread the current one, wherever it stands
-- in its queue: the activation of a slot, and the return of the bootstrap thread at the end of boot.
use mathlib.Core.Option
use hxnu.Base.{
  ℕ, zero, suc, ◌+◌, ◌≤◌, ◌<◌, ◌≡◌, refl, sym, ap, ◌∙◌, Bool, true, false, not, ◌&&◌, ◌||◌, inl,
  inr, ◌⊎◌, Option, none, some, List, [], ◌∷◌, arith, length, leb, lt→leb_false, leb_false→lt, ◌==◌,
  if◌then◌else◌, Bool-cases, Option-cases, ==→eq, eq→==, ok, ltb, ltb→lt, ltb_false→le,
}
use hxnu.Sched.{
  Scheduler, Thread, ThreadState, max_threads, thread_at, set_thread, remove, is_runnable,
  is_running,
}
use hxnu.Sched.Linked.{Queues-ext, Queues-fields, Queues-set_thread}
use hxnu.Sched.Moves.{Queues-remove}
use hxnu.Sched.Valid.{
  IsValid, IsParked, state_at, runnable_at, state_at-set_thread, runnable_after, running_after,
  same_state,
}
use hxnu.Sched.Switching.{put_back-Parks, put_back_current-Parks, IsValid-idle, fields_IsValid}
use hxnu.Sched.Tick.{counted-IsValid, parked_IsValid}
use hxnu.Sched.Dispatch

-- A thread that is taken out of its queue, wherever it stands, and runs.
run_removed-IsValid :
    (slot : ℕ) (s : Scheduler)
    → slot < max_threads
    → IsParked s
    → IsValid (Dispatch.run_slot slot (remove slot s))
unfolding Dispatch.run_slot
run_removed-IsValid slot s below parked =
    let left = remove slot s in
    let (same, after) = Queues-remove s (runnable_at s) slot parked.queued in
    let t = record (thread_at left slot) { state = ThreadState.running } in
    let pick = λ (x : ℕ). not (x == slot) && runnable_at s x in
    let moved = Queues-set_thread left pick slot t below (inr refl) after in
    let states = λ (x : ℕ).
      state_at-set_thread left slot x t below after.shaped
      ∙ ap (λ v. if x == slot then ThreadState.running else v) (same_state s left x same) in
    record {
      queued =
          Queues-ext pick (runnable_at (Dispatch.run_slot slot left))
            (λ x. runnable_after (x == slot) (state_at s x) ∙ sym (ap is_runnable (states x)))
            (Queues-fields (set_thread slot t left) pick left.next_thread_id left.thread_count
              left.context_switches (some slot) moved);
      one_runs = λ x e.
          let here =
            sym (running_after (x == slot) (state_at s x)) ∙ sym (ap is_running (states x)) ∙ e in
          ap some (sym (==→eq x slot (ground (arith, here, parked.none_runs x))));
      current_in_table = λ x e. ground (arith, e);
    }

-- The thread of a slot that is in use becomes the current one.
pub activate_thread_slot-IsValid :
    (target : ℕ) (s : Scheduler)
    → s.thread_count ≤ max_threads
    → IsValid s
    → IsValid (Dispatch.activate_thread_slot target s).0
activate_thread_slot-IsValid target s few v =
    elim (Bool-cases (not s.initialized || leb s.thread_count target)) [
      | inl off ↦ rw (Dispatch.activate_thread_slot, off) v
      | inr on ↦ elim (Bool-cases (Dispatch.is_slot s.current_slot target)) [
        | inl same ↦ rw (Dispatch.activate_thread_slot, on, same) v
        | inr other ↦
            let room : leb s.thread_count target ≡ false = ground (arith, on) in
            let low = leb_false→lt s.thread_count target room in
            let below : target < max_threads = omega (arith, low, few) in
            let parked = (put_back_current-Parks s v).parked in
            let ran = run_removed-IsValid target (Dispatch.put_back_current s) below parked in
            rw (Dispatch.activate_thread_slot, on, other) (fields_IsValid _ _ _ _ ran)
      ]
    ]

-- What a loop over slots that puts running threads back leaves running.
record Calms (s s' : Scheduler) (slot n : ℕ) : Type 0 where
  valid : IsValid s'
  outside :
      (x : ℕ)
      → is_running (state_at s' x) ≡ true
      → (is_running (state_at s x) ≡ true) × ((x < slot) ⊎ (slot + n ≤ x))

apart : (x slot : ℕ) → x < slot + 1 → (x == slot) ≡ false → x < slot
apart x slot below other = elim (Bool-cases (ltb x slot)) [
  | inl less ↦ ltb→lt x slot less
  | inr beyond ↦
      let far = ltb_false→le x slot beyond in
      let same : x ≡ slot = omega arith in absurd (ground (arith, eq→== x slot same, other))
]

put_back_running-Calms :
    (n slot : ℕ) (s : Scheduler)
    → slot + n ≤ max_threads
    → IsValid s
    → (s' : Scheduler) × (Dispatch.put_back_running n slot s ≡ ok s') × Calms s s' slot n
put_back_running-Calms zero slot s room v = (
  s,
  refl,
  record {
    valid = v;
    outside = λ x e. (
      e,
      elim (Bool-cases (ltb x slot)) [
        | inl below ↦ inl (ltb→lt x slot below)
        | inr beyond ↦ let far = ltb_false→le x slot beyond in inr (omega arith)
      ],
    );
  },
)
put_back_running-Calms (suc n) slot s room v =
    let inside : leb max_threads slot ≡ false = lt→leb_false max_threads slot (omega arith) in
    elim (Bool-cases (is_running (state_at s slot))) [
      | inl runs ↦
          let next = Dispatch.put_back slot s in
          let parks = put_back-Parks slot s runs v in
          let valid =
            parked_IsValid next next.current_slot
              (λ x e. v.current_in_table x (sym parks.current ∙ e)) parks.parked in
          let (s', result, rest) = put_back_running-Calms n (slot + 1) next (omega arith) valid in
          (
            s',
            rw (Dispatch.put_back_running, inside, runs) result,
            record {
              valid = rest.valid;
              outside =
                  λ x e. absurd (ground (arith, (rest.outside x e).0, parks.parked.none_runs x));
            },
          )
      | inr idle ↦
          let (s', result, rest) = put_back_running-Calms n (slot + 1) s (omega arith) v in
          (
            s',
            rw (Dispatch.put_back_running, inside, idle) result,
            record {
              valid = rest.valid;
              outside = λ x e.
                  let (runs, where_) = rest.outside x e in
                  (
                    runs,
                    elim where_ [
                      | inl before ↦ elim (Bool-cases (x == slot)) [
                        | inl here ↦ absurd (
                            ground (
                              arith,
                              runs,
                              ap (λ i. is_running (state_at s i)) (==→eq x slot here),
                              idle,
                            ))
                        | inr other ↦ inl (apart x slot before other)
                      ]
                      | inr after ↦ inr (omega (arith, after))
                    ],
                  );
            },
          )
    ]

suc_inside :
    (o : Option ℕ) (count : ℕ)
    → ((slot : ℕ) → o ≡ some slot → slot < count)
    → (slot : ℕ) → Option.map suc o ≡ some slot
    → slot < suc count
suc_inside none count inside slot e = absurd (ground (arith, e))
suc_inside (some x) count inside slot e =
    let low = inside x refl in
    let same : suc x ≡ slot = ground (arith, e) in omega (arith, low, same)

-- The search stays in the table while the count does.
slot_where_lem :
    (test : Thread → Bool) (ts : List Thread) (count : ℕ)
    → count ≤ length ts
    → (o : Option ℕ) × (Dispatch.slot_where test ts count ≡ ok o)
      × ((slot : ℕ) → o ≡ some slot → slot < count)
slot_where_lem test ts zero room = (none, refl, λ slot e. absurd (ground arith))
slot_where_lem test [] (suc count) room = absurd (omega arith)
slot_where_lem test (t ∷ ts) (suc count) room =
    let (o, found, inside) = slot_where_lem test ts count (omega (arith, room)) in
    elim (Bool-cases (test t)) [
      | inl here ↦ (some 0, rw here refl, λ slot e. ground (arith, e))
      | inr other ↦ (Option.map suc o, rw (other, found) refl, suc_inside o count inside)
    ]

-- The thread is back in place, whatever ran before.
pub restore_bootstrap_as_current-IsValid :
    (s : Scheduler)
    → s.thread_count ≤ max_threads
    → ((c : ℕ) → s.current_slot ≡ some c → c < s.thread_count)
    → IsValid s
    → (s' : Scheduler) × (Dispatch.restore_bootstrap_as_current s ≡ ok s') × IsValid s'
restore_bootstrap_as_current-IsValid s few inside v =
    let test = λ (t : Thread). t.id == s.bootstrap_thread_id in
    let (o, found, low) =
      slot_where_lem test s.threads s.thread_count (omega (arith, v.queued.shaped.table, few)) in
    elim (Option-cases o) [
      | inl missing ↦ (s, rw (Dispatch.restore_bootstrap_as_current, found, missing) refl, v)
      | inr (slot, here) ↦
          let (waiting, calmed, calms) =
            put_back_running-Calms s.thread_count 0 s (omega (arith, few)) v in
          let below : slot < max_threads = omega (arith, low slot here, few) in
          let quiet =
            IsValid-idle waiting
              (λ x e. elim (Bool-cases (is_running (state_at waiting x))) [
                | inl runs ↦
                    let (ran, out) = calms.outside x runs in
                    let bound = inside x (v.one_runs x ran) in
                    elim out [
                      | inl h ↦ absurd (omega (arith, h))
                      | inr h ↦ absurd (omega (arith, h, bound))
                    ]
                | inr idle ↦ idle
              ])
              calms.valid in
          (
            Dispatch.count_dispatch slot (Dispatch.run_slot slot (remove slot waiting)),
            rw (Dispatch.restore_bootstrap_as_current, found, here, calmed) refl,
            counted-IsValid true slot _ below (run_removed-IsValid slot waiting below quiet),
          )
    ]
