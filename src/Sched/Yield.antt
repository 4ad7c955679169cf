-- ===== src/Sched/Yield.antt =====
-- The yield of kernel/src/sched.rs on a valid scheduler.
use hxnu.Base.{
  ℕ, suc, ◌≡◌, ◌≢◌, refl, sym, ap, ◌∙◌, subst, Bool, true, false, not, ◌||◌, inl, inr, Option, none,
  some, List, [], ◌∷◌, arith, length, leb, lt→leb_false, ◌==◌, Bool-cases, Option-cases, ==→eq,
  eq→==, ok, Result, le→leb,
}
use hxnu.Sched.{
  Scheduler, ThreadState, max_priorities, thread_at, set_thread, set_state, dequeue, is_exited,
  is_user, no_bits, trailing_zeros,
}
use hxnu.Sched.Shape.{dequeue-Writes}
use hxnu.Sched.Valid.{IsValid, IsParked}
use hxnu.Sched.Switching.{Parks, put_back_current-Parks, update_IsValid}
use hxnu.Sched.Tick.{Picks, best, pick-Picks, counted, counted-IsValid, parked_IsValid}
use hxnu.Sched.Dispatch

-- The state in which the current thread has given up its time, with its stack pointer saved.
abbrev pub rested : ℕ → ℕ → Scheduler → Scheduler
rested user_rsp c s =
    Dispatch.put_back_running_slot (some c)
      (set_thread c (Dispatch.saved user_rsp (thread_at s c)) s)

-- What a yield does, and that it returns.
pub data Yields (user_rsp : ℕ) (s : Scheduler) : Scheduler → Type 0 where
  refused : Yields user_rsp s s
  waits :
      (c : ℕ)
      → s.current_slot ≡ some c
      → no_bits (rested user_rsp c s).runqueue_bitmap ≡ true
      → Yields user_rsp s (rested user_rsp c s)
  resumes :
      (c : ℕ)
      → s.current_slot ≡ some c
      → (p : Picks (rested user_rsp c s)) → p.slot ≡ c
      → Yields user_rsp s
          (Dispatch.run_slot c (dequeue (best (rested user_rsp c s)) (rested user_rsp c s)).0)
  yields :
      (c : ℕ)
      → s.current_slot ≡ some c
      → (p : Picks (rested user_rsp c s)) → p.slot ≢ c
      → Yields user_rsp s (
          counted false p.slot (
            Dispatch.run_slot p.slot
              (dequeue (best (rested user_rsp c s)) (rested user_rsp c s)).0))

rested-Parks :
    (user_rsp c : ℕ) (s : Scheduler)
    → s.current_slot ≡ some c
    → IsValid s
    → IsParked (rested user_rsp c s) × ((rested user_rsp c s).current_slot ≡ some c)
rested-Parks user_rsp c s here v =
    let saved = set_thread c (Dispatch.saved user_rsp (thread_at s c)) s in
    let valid =
      update_IsValid s c (Dispatch.saved user_rsp (thread_at s c)) (v.current_in_table c here) refl
        refl v in
    let parks =
      subst (λ o. Parks saved (Dispatch.put_back_running_slot o saved)) here
        (put_back_current-Parks saved valid) in
    (parks.parked, parks.current ∙ here)

trailing_zeros_clear : (bits : List Bool) → no_bits bits ≡ true → trailing_zeros bits ≡ length bits
trailing_zeros_clear [] e = refl
trailing_zeros_clear (true ∷ bs) e = absurd (ground arith)
trailing_zeros_clear (false ∷ bs) e = ap suc (trailing_zeros_clear bs e)

-- A run of the thread that is current already.
run_again :
    (c : ℕ) (s : Scheduler)
    → s.current_slot ≡ some c
    → set_state c ThreadState.running s ≡ Dispatch.run_slot c s
unfolding Dispatch.run_slot
run_again c s here = ap (λ o. set_state c ThreadState.running (record s { current_slot = o })) here

Returns : ℕ → Scheduler → Scheduler × Result (Option (ℕ × Option ℕ)) Dispatch.Panic → Type 0
Returns user_rsp s out = Yields user_rsp s out.0 × ((r : Option (ℕ × Option ℕ)) × (out.1 ≡ ok r))

yield_slot_lem :
    (stacks user_rsp c : ℕ) (s : Scheduler)
    → s.current_slot ≡ some c
    → IsValid s
    → Returns user_rsp s (Dispatch.yield_slot stacks user_rsp (some c) s)
unfolding Dispatch.yield_slot Returns
yield_slot_lem stacks user_rsp c s here v =
    let stops =
      not s.initialized || not (is_user (thread_at s c).role) || is_exited (thread_at s c).state in
    let w = rested user_rsp c s in
    let (parked, current) = rested-Parks user_rsp c s here v in
    elim (Bool-cases stops) [
      | inl stop ↦ rw (Dispatch.yield_slot, stop) (refused, (none, refl))
      | inr on ↦ elim (Bool-cases (no_bits w.runqueue_bitmap)) [
        | inl clear ↦
            let none_left : leb max_priorities (best w) ≡ true = le→leb max_priorities (best w) (
              omega (
                arith,
                trailing_zeros_clear w.runqueue_bitmap clear,
                parked.queued.shaped.flags,
              )) in
            rw (Dispatch.yield_slot, on, none_left) (waits c here clear, (none, refl))
        | inr busy ↦
            let p = pick-Picks w parked busy in
            let below = lt→leb_false max_priorities (best w) p.bound in
            elim (Bool-cases (p.slot == c)) [
              | inl same ↦
                  rw (Dispatch.yield_slot, on, below, p.runs.taken, same)
                    (let left = (dequeue (best w) w).0 in
                      let written =
                        (dequeue-Writes (best w) p.slot p.rest w p.bound parked.queued.shaped
                          p.front).1 in
                      let again = run_again c left (written.same.current ∙ current) in
                      (
                        subst (Yields user_rsp s) (sym again)
                            (resumes c here p (==→eq p.slot c same)),
                        (none, refl),
                      ))
              | inr other ↦
                  rw (Dispatch.yield_slot, on, below, p.runs.taken, other)
                    (
                      yields c here p (λ e. absurd (ground (arith, other, eq→== p.slot c e))),
                      (_, refl),
                    )
            ]
      ]
    ]

Yields-IsValid : {user_rsp : ℕ} {s s' : Scheduler} → Yields user_rsp s s' → IsValid s → IsValid s'
Yields-IsValid refused v = v
Yields-IsValid {user_rsp = user_rsp} {s = s} (waits c here clear) v =
    let w = rested user_rsp c s in
    let (parked, current) = rested-Parks user_rsp c s here v in
    parked_IsValid w w.current_slot (λ x e. v.current_in_table x (here ∙ sym current ∙ e)) parked
Yields-IsValid {user_rsp = user_rsp} {s = s} (resumes c here p same) v =
    let w = rested user_rsp c s in
    subst (λ i. IsValid (Dispatch.run_slot i (dequeue (best w) w).0)) same p.runs.valid
Yields-IsValid (yields c here p other) v = counted-IsValid false p.slot _ p.runs.below p.runs.valid

abbrev YieldKeeps : ℕ → ℕ → Scheduler → Option ℕ → Type 0
YieldKeeps stacks user_rsp s o =
    IsValid (Dispatch.yield_slot stacks user_rsp o s).0
    × ((r : Option (ℕ × Option ℕ)) × ((Dispatch.yield_slot stacks user_rsp o s).1 ≡ ok r))

nobody_yields :
    (stacks user_rsp : ℕ) (s : Scheduler) → IsValid s → YieldKeeps stacks user_rsp s none
unfolding Dispatch.yield_slot
nobody_yields stacks user_rsp s v = (v, (none, refl))

-- On a valid scheduler a yield returns and keeps it valid.
pub yield_current_user_thread-IsValid :
    (stacks user_rsp : ℕ) (s : Scheduler)
    → IsValid s
    → IsValid (Dispatch.yield_current_user_thread stacks user_rsp s).0
      × ((r : Option (ℕ × Option ℕ)) × ((Dispatch.yield_current_user_thread stacks user_rsp s).1
            ≡ ok r))
unfolding Returns
yield_current_user_thread-IsValid stacks user_rsp s v = elim (Option-cases s.current_slot) [
  | inl gone ↦ subst (YieldKeeps stacks user_rsp s) (sym gone) (nobody_yields stacks user_rsp s v)
  | inr (c, here) ↦
      let (does, returns) = yield_slot_lem stacks user_rsp c s here v in
      subst (YieldKeeps stacks user_rsp s) (sym here) (Yields-IsValid does v, returns)
]
