-- ===== src/Hsched.antt =====
-- kernel/src/hsched.rs: the scheduler's ring of 16 nodes with sequence numbers, and the words in it
-- (with the payloads of kernel/src/sxrc_core.rs). Calls run one after the other here: the exchange
-- of a position succeeds, as it does when no other processor moves it between the two accesses.
pub mod Task
pub mod Ring
pub mod Queue
pub mod Dispatch
mod Examples
use hxnu.Base.{
  ℕ, zero, suc, ◌+◌, ◌-◌, ◌*◌, ◌/◌, ◌%◌, ◌^◌, Bool, true, false, Option, none, some, List, [], ◌∷◌,
  Result, ok, err, ltb, leb, ◌==◌, if◌then◌else◌, get_or, set, bit_and,
}
use Prim.Native.Nat.{bit_or}

pub record HardwareTask : Type 0 where
  pub id : ℕ
  pub target : ℕ

pub encode : HardwareTask → ℕ
encode t = bit_or (bit_or (2 ^ 63) (t.target * 2 ^ 32 % 2 ^ 64)) t.id

pub decode : ℕ → Option HardwareTask
decode v =
    if bit_and v (2 ^ 63) == 0
    then none
    else some
        (record { id = bit_and v 0xffff_ffff % 2 ^ 32; target = bit_and (v / 2 ^ 32) 0xff % 2 ^ 8 })

-- `Hex2Payload` and `Hex4Payload`: 32 and 64 bytes, of which `size` are valid.
pub record Payload : Type 0 where
  pub bytes : List ℕ
  pub size : ℕ

pub data SxrcPayload : Type 0 where
  hex2 hex4 : Payload → SxrcPayload

pub data WorkloadType : Type 0 where
  cpu_avx512 gpu_compute : WorkloadType
  sxrc : SxrcPayload → WorkloadType
  direct_target : ℕ → WorkloadType

abbrev pub target_of : WorkloadType → ℕ
target_of cpu_avx512 = 0
target_of gpu_compute = 1
target_of (sxrc p) = 1
target_of (direct_target t) = t

pub record Node : Type 0 where
  pub sequence : ℕ
  pub word : ℕ

pub record Scheduler : Type 0 where
  pub next_id : ℕ
  pub buffer : List Node
  pub head : ℕ
  pub tail : ℕ

abbrev pub ring_size : ℕ
ring_size = 16

-- Nodes with the sequence numbers from `i` on.
abbrev pub numbered : ℕ → ℕ → List Node
numbered zero i = []
numbered (suc n) i = record { sequence = i; word = 0 } ∷ numbered n (i + 1)

abbrev pub new : Scheduler
new = record { next_id = 1; buffer = numbered ring_size 0; head = 0; tail = 0 }

abbrev pub wrapping_add : ℕ → ℕ → ℕ
wrapping_add a b = (a + b) % 2 ^ 64

-- `a.wrapping_sub(b)`; as an `isize` it is negative from `2^63` on.
abbrev pub wrapping_sub : ℕ → ℕ → ℕ
wrapping_sub a b = (a + (2 ^ 64 - b)) % 2 ^ 64

abbrev pub no_node : Node
no_node = record { sequence = 0; word = 0 }

abbrev pub node_at : Scheduler → ℕ → Node
node_at s pos = get_or s.buffer (pos % ring_size) no_node

pub data SubmitError : Type 0 where
  queue_full : SubmitError

-- The loop of `submit_workload`; it spins while the position is behind, and `none` is a loop that
-- spins on.
pub submit_loop : ℕ → Scheduler → HardwareTask → Option (Scheduler × Result ℕ SubmitError)
submit_loop zero s t = none
submit_loop (suc fuel) s t =
    let pos = s.tail in
    let dif = wrapping_sub (node_at s pos).sequence pos in
    let rest = submit_loop fuel s t in
    if dif == 0
    then some (
      record s {
        tail = wrapping_add pos 1;
        buffer =
            set s.buffer (pos % ring_size)
              (record { sequence = wrapping_add pos 1; word = encode t });
      },
      ok t.id,
    )
    else if leb (2 ^ 63) dif
    then some (s, err queue_full)
    else rest

pub submit_workload : ℕ → Scheduler → WorkloadType → Option (Scheduler × Result ℕ SubmitError)
submit_workload fuel s workload =
    let t : HardwareTask = record { id = s.next_id; target = target_of workload } in
    submit_loop fuel (record s { next_id = (s.next_id + 1) % 2 ^ 32 }) t

-- The loop of `dispatch_pending`, and the words that it takes out, in order; `none` as above.
pub dispatch_pending : ℕ → Scheduler → Option (Scheduler × List ℕ)
dispatch_pending zero s = none
dispatch_pending (suc fuel) s =
    let pos = s.head in
    let dif = wrapping_sub (node_at s pos).sequence (wrapping_add pos 1) in
    let taken : Scheduler = record s {
      head = wrapping_add pos 1;
      buffer =
          set s.buffer (pos % ring_size)
            (record (node_at s pos) { sequence = wrapping_add pos ring_size });
    } in
    let rest = dispatch_pending fuel taken in
    let again = dispatch_pending fuel s in
    if dif == 0
    then elim rest [ none ↦ none | some (s', words) ↦ some (s', (node_at s pos).word ∷ words) ]
    else if leb (2 ^ 63) dif
    then some (s, [])
    else again
