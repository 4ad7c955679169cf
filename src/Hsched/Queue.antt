-- ===== src/Hsched/Queue.antt =====
-- `submit_workload` and `dispatch_pending` of kernel/src/hsched.rs on a ring that holds a queue.
use hxnu.Base.{
  ℕ, suc, ◌+◌, ◌-◌, ◌%◌, ◌^◌, ◌<◌, ◌≡◌, refl, ap, sym, ◌∙◌, inl, inr, true, List, [], ◌∷◌, ◌++◌,
  arith, length, length-set, length-append, get_or, set, ltb, Bool-cases, ltb→lt, ltb_false→le,
  ◌==◌, eq→==, some, ok, err,
}
use hxnu.Hsched.{
  HardwareTask, Node, Scheduler, WorkloadType, encode, node_at, no_node, ring_size, wrapping_add,
  wrapping_sub, submit_loop, submit_workload, target_of, queue_full,
}
use hxnu.Hsched.Ring.{
  Holds, set_node_here, set_node_there, set_node_before, get_or-append, get_or-append_last,
}

-- The ring with one more word at its tail.
abbrev pushed : Scheduler → HardwareTask → Scheduler
pushed s t = record s {
  tail = s.tail + 1;
  buffer = set s.buffer (s.tail % ring_size) (record { sequence = s.tail + 1; word = encode t });
}

pushed-Holds :
    (s : Scheduler) (t : HardwareTask) (q : List ℕ)
    → Holds s q
    → length q < ring_size
    → s.tail + 1 < 2 ^ 62
    → Holds (pushed s t) (q ++ encode t ∷ [])
pushed-Holds s t q v room high = record {
  sized = length-set s.buffer (s.tail % ring_size) node ∙ v.sized;
  count = omega (arith, v.count, longer);
  few = omega (arith, longer);
  room = high;
  pending = λ i h. elim (Bool-cases (ltb i (length q))) [
    | inl old ↦
        let below = ltb→lt i (length q) old in
        let same : node_at (pushed s t) (s.head + i) ≡ node_at s (s.head + i) =
          set_node_before s s.tail (s.head + i) node (omega (arith, v.count))
            (omega (arith, v.count)) in
        let (sequence, word) = v.pending i below in
        (
          ap (λ (n : Node). n.sequence) same ∙ sequence,
          ap (λ (n : Node). n.word) same ∙ word ∙ sym (get_or-append q (encode t) i 0 below),
        )
    | inr last ↦
        let e : i ≡ length q = omega (arith, ltb_false→le i (length q) last, longer) in
        let at_tail : s.head + i ≡ s.tail = omega (arith, v.count) in
        let here : node_at (pushed s t) (s.head + i) ≡ node =
          ap (node_at (pushed s t)) at_tail ∙ set_node_here s s.tail node v.sized in
        (
          ap (λ (n : Node). n.sequence) here ∙ omega arith,
          ap (λ (n : Node). n.word) here
              ∙ sym
                  (ap (λ k. get_or (q ++ encode t ∷ []) k 0) e ∙ get_or-append_last q (encode t) 0),
        )
  ];
  free = λ i from to.
      ap (λ (n : Node). n.sequence)
        (set_node_there s s.tail (s.head + i) node (omega (arith, v.count, longer))
          (omega (arith, v.count)))
      ∙ v.free i (omega (arith, longer)) to;
}
  where
    node : Node
    node = record { sequence = s.tail + 1; word = encode t }

    longer : length (q ++ encode t ∷ []) ≡ length q + 1
    longer = omega (arith, length-append q (encode t ∷ []))

submit_loop-room :
    (fuel : ℕ) (s : Scheduler) (t : HardwareTask) (q : List ℕ)
    → Holds s q
    → length q < ring_size
    → submit_loop (suc fuel) s t ≡ some (pushed s t, ok t.id)
unfolding submit_loop
submit_loop-room fuel s t q v room =
    let ready : (node_at s s.tail).sequence ≡ s.tail =
      ap (λ p. (node_at s p).sequence) v.count
      ∙ v.free (length q) (omega arith) room
      ∙ sym v.count in
    let next : wrapping_add s.tail 1 ≡ s.tail + 1 = omega (arith, v.room) in
    let none_between : (wrapping_sub (node_at s s.tail).sequence s.tail == 0) ≡ true =
      eq→== _ 0 (omega (arith, ready, v.room)) in
    rw (none_between, next, submit_loop) refl

submit_loop_full :
    (fuel : ℕ) (s : Scheduler) (t : HardwareTask) (q : List ℕ)
    → Holds s q
    → length q ≡ ring_size
    → submit_loop (suc fuel) s t ≡ some (s, err queue_full)
unfolding submit_loop
submit_loop_full fuel s t q v full =
    let wrapped : s.tail % ring_size ≡ (s.head + 0) % ring_size = omega (arith, v.count) in
    let behind : (node_at s s.tail).sequence ≡ s.head + 1 =
      ap (λ p. (get_or s.buffer p no_node).sequence) wrapped
      ∙ (v.pending 0 (omega arith)).0
      ∙ omega arith in
    let dif : wrapping_sub (node_at s s.tail).sequence s.tail ≡ 2 ^ 64 - 15 =
      omega (arith, behind, v.room, v.count) in
    rw (dif, submit_loop) refl

-- On a ring that holds fewer than 16 words, with a tail below 2^62 - 1, a workload is submitted in
-- one round: its word follows those that wait, its task has the next identifier, and the head
-- stays.
pub submit_workload-room :
    (fuel : ℕ) (s : Scheduler) (workload : WorkloadType) (q : List ℕ)
    → Holds s q
    → length q < ring_size
    → s.tail + 1 < 2 ^ 62
    → (s' : Scheduler) × (submit_workload (suc fuel) s workload ≡ some (s', ok s.next_id))
      × Holds s' (q ++ encode (record { id = s.next_id; target = target_of workload }) ∷ [])
      × (s'.next_id ≡ (s.next_id + 1) % 2 ^ 32)
      × (s'.head ≡ s.head)
unfolding submit_workload
submit_workload-room fuel s workload q v room high =
    let t : HardwareTask = record { id = s.next_id; target = target_of workload } in
    let counted = record s { next_id = (s.next_id + 1) % 2 ^ 32 } in
    let held : Holds counted q = record {
      sized = v.sized;
      count = v.count;
      few = v.few;
      room = v.room;
      pending = v.pending;
      free = v.free;
    } in
    (
      pushed counted t,
      submit_loop-room fuel counted t q held room,
      pushed-Holds counted t q held room high,
      refl,
      refl,
    )

-- On a ring that holds 16 words a workload is refused in one round and the ring keeps its words
-- and its head; the identifier is used up.
pub submit_workload_full :
    (fuel : ℕ) (s : Scheduler) (workload : WorkloadType) (q : List ℕ)
    → Holds s q
    → length q ≡ ring_size
    → (s' : Scheduler) × (submit_workload (suc fuel) s workload ≡ some (s', err queue_full))
      × Holds s' q
      × (s'.next_id ≡ (s.next_id + 1) % 2 ^ 32)
      × (s'.head ≡ s.head)
unfolding submit_workload
submit_workload_full fuel s workload q v full =
    let t : HardwareTask = record { id = s.next_id; target = target_of workload } in
    let counted = record s { next_id = (s.next_id + 1) % 2 ^ 32 } in
    let held : Holds counted q = record {
      sized = v.sized;
      count = v.count;
      few = v.few;
      room = v.room;
      pending = v.pending;
      free = v.free;
    } in
    (counted, submit_loop_full fuel counted t q held full, held, refl, refl)
