-- ===== src/Hsched/Dispatch.antt =====
-- `dispatch_pending` of kernel/src/hsched.rs on a ring that holds a queue, and the ring at boot.
use hxnu.Base.{
  ℕ, zero, suc, ◌+◌, ◌-◌, ◌%◌, ◌^◌, ◌<◌, ◌≡◌, refl, ap, ◌∙◌, inl, inr, true, List, [], ◌∷◌, arith,
  length, length-set, get_or, set, ltb, Bool-cases, ltb→lt, ltb_false→le, ◌==◌, eq→==, some,
}
use hxnu.Hsched.{
  Node, Scheduler, node_at, no_node, ring_size, wrapping_add, wrapping_sub, dispatch_pending, new,
  numbered,
}
use hxnu.Hsched.Ring.{Holds, set_node_here, set_node_there}

-- The ring with the word at its head taken out.
abbrev popped : Scheduler → Scheduler
popped s = record s {
  head = s.head + 1;
  buffer =
      set s.buffer (s.head % ring_size)
        (record (node_at s s.head) { sequence = s.head + ring_size });
}

popped-Holds : (s : Scheduler) (w : ℕ) (q : List ℕ) → Holds s (w ∷ q) → Holds (popped s) q
popped-Holds s w q v = record {
  sized = length-set s.buffer (s.head % ring_size) node ∙ v.sized;
  count = omega (arith, v.count);
  few = omega (arith, v.few);
  room = v.room;
  pending = λ i h.
      let step : s.head + 1 + i ≡ s.head + suc i = omega arith in
      let same : node_at (popped s) (s.head + 1 + i) ≡ node_at s (s.head + suc i) =
        set_node_there s s.head (s.head + 1 + i) node (omega arith) (omega (arith, v.few))
        ∙ ap (node_at s) step in
      let (sequence, word) = v.pending (suc i) (omega arith) in
      (
        ap (λ (n : Node). n.sequence) same ∙ sequence ∙ omega arith,
        ap (λ (n : Node). n.word) same ∙ word,
      );
  free = λ i from to. elim (Bool-cases (ltb i 15)) [
    | inl inner ↦
        let below = ltb→lt i 15 inner in
        let step : s.head + 1 + i ≡ s.head + suc i = omega arith in
        let same : node_at (popped s) (s.head + 1 + i) ≡ node_at s (s.head + suc i) =
          set_node_there s s.head (s.head + 1 + i) node (omega arith) (omega arith)
          ∙ ap (node_at s) step in
        ap (λ (n : Node). n.sequence) same
        ∙ v.free (suc i) (omega arith) (omega arith)
        ∙ omega arith
    | inr last ↦
        let e : i ≡ 15 = omega (arith, ltb_false→le i 15 last) in
        let around : (s.head + 1 + i) % ring_size ≡ s.head % ring_size = omega arith in
        ap (λ p. (get_or (popped s).buffer p no_node).sequence) around
        ∙ ap (λ (n : Node). n.sequence) (set_node_here s s.head node v.sized)
        ∙ omega arith
  ];
}
  where
    node : Node
    node = record (node_at s s.head) { sequence = s.head + ring_size }

dispatch_empty :
    (fuel : ℕ) (s : Scheduler) → Holds s [] → dispatch_pending (suc fuel) s ≡ some (s, [])
unfolding dispatch_pending
dispatch_empty fuel s v =
    let at_head : (node_at s s.head).sequence ≡ s.head =
      ap (λ p. (node_at s p).sequence) e ∙ v.free 0 (omega arith) (omega arith) ∙ omega arith in
    let dif : wrapping_sub (node_at s s.head).sequence (wrapping_add s.head 1) ≡ 2 ^ 64 - 1 =
      omega (arith, at_head, v.room, v.count) in
    rw (dif, dispatch_pending) refl
  where
    e : s.head ≡ s.head + 0
    e = omega arith

dispatch_one :
    (fuel : ℕ) (s s' : Scheduler) (w : ℕ) (q words : List ℕ)
    → Holds s (w ∷ q)
    → dispatch_pending fuel (popped s) ≡ some (s', words)
    → dispatch_pending (suc fuel) s ≡ some (s', w ∷ words)
unfolding dispatch_pending
dispatch_one fuel s s' w q words v rest =
    let (sequence, word) = v.pending 0 (omega arith) in
    let head_seq : (node_at s s.head).sequence ≡ s.head + 1 =
      ap (λ p. (node_at s p).sequence) e ∙ sequence ∙ omega arith in
    let head_word : (node_at s s.head).word ≡ w = ap (λ p. (node_at s p).word) e ∙ word in
    let next : wrapping_add s.head 1 ≡ s.head + 1 = omega (arith, v.room, v.count) in
    let lap : wrapping_add s.head ring_size ≡ s.head + ring_size = omega (arith, v.room, v.count) in
    let ready : (wrapping_sub (node_at s s.head).sequence (wrapping_add s.head 1) == 0) ≡ true =
      eq→== _ 0 (omega (arith, head_seq, v.room, v.count)) in
    rw (ready, next, lap, rest, head_word, dispatch_pending) refl
  where
    e : s.head ≡ s.head + 0
    e = omega arith

-- With fuel for one round more than words wait, a dispatch on a ring that holds a queue takes out
-- every word, in the order of submission, and leaves an empty ring.
pub dispatch_pending-Holds :
    (fuel : ℕ) (s : Scheduler) (q : List ℕ)
    → Holds s q
    → length q < fuel
    → (s' : Scheduler) × (dispatch_pending fuel s ≡ some (s', q)) × Holds s' []
dispatch_pending-Holds zero s q v enough = absurd (omega arith)
dispatch_pending-Holds (suc fuel) s [] v enough = (s, dispatch_empty fuel s v, v)
dispatch_pending-Holds (suc fuel) s (w ∷ q) v enough =
    let (s', done, empty) =
      dispatch_pending-Holds fuel (popped s) q (popped-Holds s w q v) (omega arith) in
    (s', dispatch_one fuel s s' w q q v done, empty)

numbered-sequence :
    (n from i : ℕ) → i < n → (get_or (numbered n from) i no_node).sequence ≡ from + i
numbered-sequence zero from i h = absurd (omega arith)
numbered-sequence (suc n) from zero h = omega arith
numbered-sequence (suc n) from (suc i) h =
    numbered-sequence n (from + 1) i (omega arith) ∙ omega arith

-- The ring at boot is empty.
pub new-Holds : Holds new []
new-Holds = record {
  sized = refl;
  count = refl;
  few = omega arith;
  room = omega arith;
  pending = λ i h. absurd (omega arith);
  free = λ i from to.
      let e : (0 + i) % ring_size ≡ i = omega arith in
      ap (λ p. (get_or (numbered ring_size 0) p no_node).sequence) e
      ∙ numbered-sequence ring_size 0 i to;
}
