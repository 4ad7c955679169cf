-- ===== src/Hsched/Examples.antt =====
-- Runs of the ring of kernel/src/hsched.rs, and the theorems at concrete inputs.
use hxnu.Base.{
  ℕ, zero, suc, ◌+◌, ◌≤◌, ◌∙◌, ◌++◌, length-append, ◌%◌, ◌^◌, ◌≡◌, refl, List, [], ◌∷◌, arith, some,
  ok, err, length,
}
use hxnu.Hsched.{
  HardwareTask, Scheduler, encode, decode, gpu_compute, cpu_avx512, submit_workload,
  dispatch_pending, new, queue_full, target_of,
}
use hxnu.Hsched.Task.{decode-encode}
use hxnu.Hsched.Ring.{Holds}
use hxnu.Hsched.Queue.{submit_workload-room, submit_workload_full}
use hxnu.Hsched.Dispatch.{dispatch_pending-Holds, new-Holds}

abbrev task : HardwareTask
task = record { id = 70000; target = 2 }

decode-encode_example : decode (encode task) ≡ some task
decode-encode_example = decode-encode task (omega arith) (omega arith)

abbrev first_word : ℕ
first_word = encode (record { id = 1; target = target_of gpu_compute })

submit_workload-room_example :
    (s' : Scheduler) × (submit_workload 1 new gpu_compute ≡ some (s', ok 1))
    × Holds s' (first_word ∷ [])
    × (s'.next_id ≡ 2)
    × (s'.head ≡ 0)
submit_workload-room_example =
    submit_workload-room 0 new gpu_compute [] new-Holds (omega arith) (omega arith)

-- A ring with `n` words, each submitted at position 0 and on.
filled :
    (n : ℕ) → n ≤ 16 → (s : Scheduler) × (q : List ℕ) × Holds s q × (length q ≡ n) × (s.head ≡ 0)
filled zero h = (new, [], new-Holds, refl, refl)
filled (suc n) h =
    let (s, q, v, size, start) = filled n (omega arith) in
    let (s', _, v', _, same) =
      submit_workload-room 0 s cpu_avx512 q v (omega arith) (omega (arith, v.count)) in
    let word : ℕ = encode (record { id = s.next_id; target = 0 }) in
    (s', q ++ word ∷ [], v', omega (arith, length-append q (word ∷ [])), same ∙ start)

abbrev full_ring : (s : Scheduler) × (q : List ℕ) × Holds s q × (length q ≡ 16) × (s.head ≡ 0)
full_ring = filled 16 (omega arith)

submit_workload_full_example :
    (s' : Scheduler) × (submit_workload 1 full_ring.0 gpu_compute ≡ some (s', err queue_full))
    × Holds s' full_ring.1
    × (s'.next_id ≡ (full_ring.0.next_id + 1) % 2 ^ 32)
    × (s'.head ≡ full_ring.0.head)
submit_workload_full_example =
    submit_workload_full 0 full_ring.0 gpu_compute full_ring.1 full_ring.2 full_ring.3

dispatch_pending-Holds_example :
    (s' : Scheduler) × (dispatch_pending 17 full_ring.0 ≡ some (s', full_ring.1)) × Holds s' []
dispatch_pending-Holds_example =
    dispatch_pending-Holds 17 full_ring.0 full_ring.1 full_ring.2 (omega (arith, full_ring.3))
