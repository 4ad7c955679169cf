-- ===== src/Sched/Shape.antt =====
-- The run queues of kernel/src/sched.rs as lists of slots: the shape of the arrays, and what an
-- entry that is added or taken out does to each list.
use hxnu.Base.{
  ℕ, zero, suc, ◌+◌, ◌-◌, ◌≤◌, ◌<◌, ◌≡◌, refl, sym, ap, ◌∙◌, subst, Bool, true, false, inl, inr,
  some, List, [], ◌∷◌, ◌++◌, arith, length, take, take-set, set, length-set, get_or, get_or-set,
  set-get_or, ltb, ◌==◌, if◌then◌else◌, Bool-cases, has, erase, erase_absent, ok, Option-cases,
  ==→eq, leb, lt→leb_false, lt→ltb,
}
use hxnu.Sched.{
  Scheduler, max_threads, max_priorities, depth_of, row_of, enqueue, drop_entry,
  priority_for_thread, shift_down, find_entry, no_bits, trailing_zeros, remove, dequeue,
}
use hxnu.Sched.Queue.{
  length-shift_down, find_entry-none, find_entry-some, find_entry_below, take_front, erase_front,
}

-- The arrays have their sizes, and a bit is set exactly when its queue holds an entry.
pub record Shaped (s : Scheduler) : Type 0 where
  pub table : length s.threads ≡ max_threads
  pub rows : length s.runqueues ≡ max_priorities
  pub counts : length s.runqueue_depths ≡ max_priorities
  pub flags : length s.runqueue_bitmap ≡ max_priorities
  pub wide : (p : ℕ) → p < max_priorities → length (row_of s p) ≡ max_threads
  pub deep : (p : ℕ) → p < max_priorities → depth_of s p ≤ max_threads
  pub bit : (p : ℕ) → p < max_priorities → get_or s.runqueue_bitmap p false ≡ ltb 0 (depth_of s p)

-- The entries in use, the next to be taken first.
unfoldable pub queue : Scheduler → ℕ → List ℕ
queue s p = take (depth_of s p) (row_of s p)

-- One queue with its arrays rewritten.
abbrev pub write_queue : ℕ → List ℕ → ℕ → Bool → Scheduler → Scheduler
write_queue p row depth bit s = record s {
  runqueues = set s.runqueues p row;
  runqueue_depths = set s.runqueue_depths p depth;
  runqueue_bitmap = set s.runqueue_bitmap p bit;
}

pub priority_bound : (s : Scheduler) (slot : ℕ) → priority_for_thread s slot < max_priorities
priority_bound s slot = ground arith

pub write_queue-Shaped :
    (p : ℕ) (row : List ℕ) (depth : ℕ) (s : Scheduler)
    → p < max_priorities
    → length row ≡ max_threads
    → depth ≤ max_threads
    → Shaped s
    → Shaped (write_queue p row depth (ltb 0 depth) s)
write_queue-Shaped p row depth s below full few shaped = record {
  table = shaped.table;
  rows = length-set s.runqueues p row ∙ shaped.rows;
  counts = length-set s.runqueue_depths p depth ∙ shaped.counts;
  flags = length-set s.runqueue_bitmap p (ltb 0 depth) ∙ shaped.flags;
  wide = λ j b. ground (arith, get_or-set s.runqueues p j row [], shaped.rows, shaped.wide j b);
  deep = λ j b.
      ground (arith, get_or-set s.runqueue_depths p j depth 0, shaped.counts, shaped.deep j b);
  bit = λ j b. ground (
    arith,
    get_or-set s.runqueue_depths p j depth 0,
    get_or-set s.runqueue_bitmap p j (ltb 0 depth) false,
    shaped.counts,
    shaped.flags,
    shaped.bit j b,
  );
}

pub queue-write_queue :
    (p : ℕ) (row : List ℕ) (depth : ℕ) (bit : Bool) (s : Scheduler) (j : ℕ)
    → p < max_priorities
    → Shaped s
    → queue (write_queue p row depth bit s) j ≡ (if j == p then take depth row else queue s j)
unfolding queue
queue-write_queue p row depth bit s j below shaped =
    let rows = get_or-set s.runqueues p j row [] (omega (arith, shaped.rows)) in
    let depths = get_or-set s.runqueue_depths p j depth 0 (omega (arith, shaped.counts)) in
    elim (Bool-cases (j == p)) [
      | inl e ↦ rw (rows, depths, e) refl
      | inr e ↦ rw (rows, depths, e) refl
    ]

-- What stays when an operation only writes the queues.
pub record KeepsThreads (s s' : Scheduler) : Type 0 where
  pub threads : s'.threads ≡ s.threads
  pub current : s'.current_slot ≡ s.current_slot
  pub ready : s'.initialized ≡ s.initialized
  pub count : s'.thread_count ≡ s.thread_count

-- Queue `p` becomes another list, and nothing else changes.
pub record Writes (s s' : Scheduler) (p : ℕ) (xs : List ℕ) : Type 0 where
  pub shaped : Shaped s'
  pub same : KeepsThreads s s'
  pub queues : (j : ℕ) → queue s' j ≡ (if j == p then xs else queue s j)

pub write_queue-Writes :
    (p : ℕ) (row : List ℕ) (depth : ℕ) (s : Scheduler)
    → p < max_priorities
    → length row ≡ max_threads
    → depth ≤ max_threads
    → Shaped s
    → Writes s (write_queue p row depth (ltb 0 depth) s) p (take depth row)
write_queue-Writes p row depth s below full few shaped = record {
  shaped = write_queue-Shaped p row depth s below full few shaped;
  same = record { threads = refl; current = refl; ready = refl; count = refl };
  queues = λ j. queue-write_queue p row depth (ltb 0 depth) s j below shaped;
}

pub enqueue-Writes :
    (slot : ℕ) (s : Scheduler)
    → Shaped s
    → depth_of s (priority_for_thread s slot) < max_threads
    → ((enqueue slot s).1 ≡ ok tt)
      × Writes s
          (enqueue slot s).0
          (priority_for_thread s slot)
          (queue s (priority_for_thread s slot) ++ slot ∷ [])
unfolding queue enqueue
enqueue-Writes slot s shaped room =
    let p = priority_for_thread s slot in
    let bound = priority_bound s slot in
    let full : leb max_threads (depth_of s p) ≡ false =
      lt→leb_false max_threads (depth_of s p) room in
    let sized = length-set (row_of s p) (depth_of s p) slot ∙ shaped.wide p bound in
    let entries =
      take-set (depth_of s p) (depth_of s p + 1) (row_of s p) slot refl
        (omega (arith, shaped.wide p bound)) in
    let written =
      write_queue-Writes p (set (row_of s p) (depth_of s p) slot) (depth_of s p + 1) s bound sized
        (omega arith) shaped in
    rw full (
      refl,
      subst
          (Writes s (write_queue p (set (row_of s p) (depth_of s p) slot) (depth_of s p + 1) true s)
            p)
          entries
          (subst
            (λ b.
              Writes s (write_queue p (set (row_of s p) (depth_of s p) slot) (depth_of s p + 1) b s)
                p (take (depth_of s p + 1) (set (row_of s p) (depth_of s p) slot)))
            (lt→ltb 0 (depth_of s p + 1) (omega arith)) written),
    )

-- The bit of a queue that had an entry, and has one fewer.
dropped_bit :
    (p : ℕ) (s : Scheduler)
    → p < max_priorities
    → Shaped s
    → 0 < depth_of s p
    → (if depth_of s p - 1 == 0 then set s.runqueue_bitmap p false else s.runqueue_bitmap)
      ≡ set s.runqueue_bitmap p (ltb 0 (depth_of s p - 1))
dropped_bit p s bound shaped some_left = elim (Bool-cases (depth_of s p - 1 == 0)) [
  | inl last ↦ rw (last, ==→eq (depth_of s p - 1) 0 last) refl
  | inr more ↦
      let busy : ltb 0 (depth_of s p - 1) ≡ true = ground arith in
      let held : get_or s.runqueue_bitmap p false ≡ true = ground (arith, shaped.bit p bound) in
      rw (more, busy)
        (sym (set-get_or s.runqueue_bitmap p false) ∙ ap (set s.runqueue_bitmap p) held)
]

pub drop_entry-Writes :
    (p i slot : ℕ) (s : Scheduler)
    → p < max_priorities
    → Shaped s
    → find_entry (depth_of s p) (row_of s p) slot ≡ some i
    → Writes s (drop_entry p i s) p (erase slot (queue s p)) × (has (queue s p) slot ≡ true)
unfolding queue drop_entry
drop_entry-Writes p i slot s bound shaped found =
    let below = find_entry_below (depth_of s p) (row_of s p) slot i found in
    let whole : suc (depth_of s p - 1) ≡ depth_of s p = omega arith in
    let (kept, there) =
      find_entry-some (depth_of s p - 1) (row_of s p) slot i (depth_of s p - 1 - i) (omega arith)
        (omega (arith, shaped.wide p bound, shaped.deep p bound))
        (ap (λ d. find_entry d (row_of s p) slot) whole ∙ found) in
    let sized = length-shift_down i (depth_of s p - 1 - i) (row_of s p) ∙ shaped.wide p bound in
    let written =
      write_queue-Writes p (shift_down i (depth_of s p - 1 - i) (row_of s p)) (depth_of s p - 1) s
        bound sized (omega (arith, shaped.deep p bound)) shaped in
    (
      rw (dropped_bit p s bound shaped (omega arith)) (
          subst
            (Writes s
              (write_queue p (shift_down i (depth_of s p - 1 - i) (row_of s p)) (depth_of s p - 1)
                (ltb 0 (depth_of s p - 1)) s)
              p)
            (kept ∙ ap (λ d. erase slot (take d (row_of s p))) whole) written),
      ap (λ d. has (take d (row_of s p)) slot) (sym whole) ∙ there,
    )

-- A slot leaves the queue of its priority, if it is there.
pub remove-Writes :
    (slot : ℕ) (s : Scheduler)
    → Shaped s
    → Writes s
        (remove slot s)
        (priority_for_thread s slot)
        (erase slot (queue s (priority_for_thread s slot)))
unfolding queue remove
remove-Writes slot s shaped =
    let p = priority_for_thread s slot in
    let bound = priority_bound s slot in
    elim (Option-cases (find_entry (depth_of s p) (row_of s p) slot)) [
      | inl e ↦
          rw (remove, e)
            (record {
              shaped = shaped;
              same = record { threads = refl; current = refl; ready = refl; count = refl };
              queues = λ j. elim (Bool-cases (j == p)) [
                | inl here ↦
                    let gone = find_entry-none (depth_of s p) (row_of s p) slot e in
                    rw (here, erase_absent slot (queue s p) gone) (ap (queue s) (==→eq j p here))
                | inr other ↦ rw other refl
              ];
            })
      | inr (i, e) ↦ rw (remove, e) (drop_entry-Writes p i slot s bound shaped e).0
    ]

pub dequeue-Writes :
    (p slot : ℕ) (rest : List ℕ) (s : Scheduler)
    → p < max_priorities
    → Shaped s
    → queue s p ≡ slot ∷ rest
    → ((dequeue p s).1 ≡ some slot) × Writes s (dequeue p s).0 p rest
unfolding queue dequeue
dequeue-Writes p slot rest s bound shaped e =
    let (some_left, front, found) = take_front (depth_of s p) (row_of s p) slot rest e in
    let kept = ap (erase slot) e ∙ erase_front slot rest in
    let busy : (depth_of s p == 0) ≡ false = ground arith in
    let written = (drop_entry-Writes p 0 slot s bound shaped found).0 in
    rw (dequeue, busy) (ap some front, subst (Writes s (drop_entry p 0 s) p) kept written)

-- The queue that is taken from: the first that has an entry.
pub trailing_zeros_first :
    (bits : List Bool)
    → no_bits bits ≡ false
    → (trailing_zeros bits < length bits) × (get_or bits (trailing_zeros bits) false ≡ true)
trailing_zeros_first [] e = absurd (ground arith)
trailing_zeros_first (true ∷ bs) e = (omega arith, refl)
trailing_zeros_first (false ∷ bs) e =
    let (below, there) = trailing_zeros_first bs e in (omega arith, there)

pub no_bits_clear : (bits : List Bool) (p : ℕ) → no_bits bits ≡ true → get_or bits p false ≡ false
no_bits_clear [] p e = refl
no_bits_clear (true ∷ bs) p e = absurd (ground arith)
no_bits_clear (false ∷ bs) zero e = refl
no_bits_clear (false ∷ bs) (suc p) e = no_bits_clear bs p e
