-- ===== src/Compress/Store/History.antt =====
-- Any sequence of calls of the store (kernel/src/mm/compress/store.rs), against a map of the pages
-- that were stored.
use hxnu.Base.{
  ℕ, zero, suc, ◌≡◌, ◌≢◌, refl, ap, ◌∙◌, ◌⊎◌, inl, inr, true, false, Option, none, some, List, [],
  ◌∷◌, arith, ◌==◌, ==→eq, if◌then◌else◌, Bool-cases, All, subst, length, replicate,
  length-replicate, Result, err,
}
use hxnu.Compress.{CompressionClass, IsPage, page_bytes}
use hxnu.Compress.Runtime.{CompressionRuntime}
use hxnu.Compress.Store.{
  StoreSlot, StoreState, StoreEntry, StoreError, empty, store_page, store_capacity_pages, new,
  initialize,
}
use hxnu.Compress.Store.Load.{load_page, load_missed, load_requested}
use hxnu.Compress.Store.Slots.{lookup, Distinct}
use hxnu.Compress.Store.Totals.{total, Tallied-more, occupied, of_class, held_bytes}
use hxnu.Compress.Store.Valid.{IsValid, SlotOk}
use hxnu.Compress.Store.Put.{Holds, Stored, SlotOk-empty}
use hxnu.Compress.Store.Kept.{store_page-Stored}
use hxnu.Compress.Store.Load.{Loaded, load_page-Holds, load_page-missing}
use hxnu.Base.{All-replicate}

pub data Call : Type 0 where
  put : ℕ → List ℕ → Call
  get : ℕ → List ℕ → Call

-- The runtime and the store after a call.
abbrev pub step : Call → CompressionRuntime × StoreState → CompressionRuntime × StoreState
step (put id page) (c, s) = let (c', s', _) = store_page c s id page in (c', s')
step (get id out) (c, s) = let (c', s', _, _) = load_page c s id out in (c', s')

abbrev pub run : List Call → CompressionRuntime × StoreState → CompressionRuntime × StoreState
run [] m = m
run (call ∷ calls) m = run calls (step call m)

abbrev pub CallOk : Call → Type 0
CallOk (put id page) = IsPage page
CallOk (get id out) = length out ≡ page_bytes

-- The pages that were stored, the latest first.
abbrev pub Log : Type 0
Log = List (ℕ × List ℕ)

abbrev pub logged : Call → Log → Log
logged (put id page) log = (id, page) ∷ log
logged (get id out) log = log

abbrev pub log_after : List Call → Log → Log
log_after [] log = log
log_after (call ∷ calls) log = log_after calls (logged call log)

abbrev pub latest : Log → ℕ → Option (List ℕ)
latest [] id = none
latest ((other, page) ∷ log) id = if other == id then some page else latest log id

-- What the store holds is the latest page of each identifier, or nothing.
abbrev Recall : StoreState → Log → ℕ → Type 0
Recall s log id =
    (lookup s.slots id ≡ none) ⊎ ((page : List ℕ) × (latest log id ≡ some page) × Holds s id page)

record Sound (m : CompressionRuntime × StoreState) (log : Log) : Type 0 where
  ready : m.0.initialized ≡ true
  valid : IsValid m.1
  recalls : (id : ℕ) → Recall m.1 log id

Holds-moved :
    (s s' : StoreState) (id : ℕ) (page : List ℕ)
    → lookup s'.slots id ≡ lookup s.slots id
    → Holds s id page
    → Holds s' id page
Holds-moved s s' id page e h = record {
  slot = h.slot;
  found = e ∙ h.found;
  paged = h.paged;
  codes = h.codes;
}

Recall-moved :
    (s s' : StoreState) (log : Log) (id : ℕ)
    → lookup s'.slots id ≡ lookup s.slots id
    → Recall s log id
    → Recall s' log id
Recall-moved s s' log id e (inl lost) = inl (e ∙ lost)
Recall-moved s s' log id e (inr (page, l, h)) = inr (page, l, Holds-moved s s' id page e h)

differs : (a b : ℕ) → (a == b) ≡ false → b ≢ a
differs a b e same = ground arith

Recall-Stored :
    (s s' : StoreState) (log : Log) (id : ℕ) (page : List ℕ)
    → Stored s id page s'
    → ((other : ℕ) → Recall s log other)
    → (other : ℕ) → Recall s' ((id, page) ∷ log) other
Recall-Stored s s' log id page k r other = elim (Bool-cases (id == other)) [
  | inl same ↦ inr (page, ground arith, Holds-cast (==→eq id other same) k.holds)
  | inr apart ↦ elim (k.keeps other (differs id other apart)) [
    | inl e ↦ rw (apart, latest) (Recall-moved s s' log other e (r other))
    | inr (lost, _, _, _) ↦ inl lost
  ]
]
  where
    Holds-cast : {a b : ℕ} → a ≡ b → Holds s' a page → Holds s' b page
    Holds-cast e h = subst (λ n. Holds s' n page) e h

missed-IsValid : (s : StoreState) → IsValid s → IsValid (load_missed (load_requested s))
missed-IsValid s v = record {
  ready = v.ready;
  sized = v.sized;
  victim = v.victim;
  slots = v.slots;
  distinct = v.distinct;
  tallied = Tallied-more _ _ _ _ _ _ _ _ _ _ _ _ v.tallied;
}

step-Sound :
    (call : Call) (m : CompressionRuntime × StoreState) (log : Log)
    → CallOk call
    → Sound m log
    → Sound (step call m) (logged call log)
step-Sound (put id page) (c, s) log paged v =
    let (entry, done, named, still, stored) = store_page-Stored c s id page v.ready v.valid paged in
    record {
      ready = still;
      valid = stored.valid;
      recalls = Recall-Stored s _ log id page stored v.recalls;
    }
step-Sound (get id out) (c, s) log size v = elim (v.recalls id) [
  | inl lost ↦ rw (load_page-missing c s id out v.valid.ready lost) (record {
    ready = v.ready;
    valid = missed-IsValid s v.valid;
    recalls = λ other. Recall-moved s _ log other refl (v.recalls other);
  })
  | inr (page, l, h) ↦
      let k = load_page-Holds c s id page out v.ready v.valid h size in
      record {
        ready = k.still;
        valid = k.valid;
        recalls = λ other.
            Recall-moved s _ log other (ap (λ xs. lookup xs other) k.slots) (v.recalls other);
      }
]

run-Sound :
    (calls : List Call) (m : CompressionRuntime × StoreState) (log : Log)
    → All CallOk calls
    → Sound m log
    → Sound (run calls m) (log_after calls log)
run-Sound [] m log a v = v
run-Sound (call ∷ calls) m log a v =
    run-Sound calls (step call m) (logged call log) a.1 (step-Sound call m log a.0 v)

lookup-fresh : (n id : ℕ) → lookup (replicate n empty) id ≡ none
lookup-fresh zero id = refl
lookup-fresh (suc n) id = lookup-fresh n id

Distinct-fresh : (n : ℕ) → Distinct (replicate n empty)
Distinct-fresh zero = tt
Distinct-fresh (suc n) = ((λ _. lookup-fresh n 0), Distinct-fresh n)

total-fresh : (f : StoreSlot → ℕ) (n : ℕ) → f empty ≡ 0 → 0 ≡ total f (replicate n empty)
total-fresh f zero e = refl
total-fresh f (suc n) e = omega (arith, total-fresh f n e)

-- The store after `initialize` over an initialised runtime.
abbrev pub fresh : CompressionRuntime → StoreState
fresh c = (initialize c new).0

pub fresh-IsValid : (c : CompressionRuntime) → c.initialized ≡ true → IsValid (fresh c)
unfolding initialize new
fresh-IsValid c on = rw on (record {
  ready = refl;
  sized = length-replicate store_capacity_pages empty;
  victim = omega arith;
  slots = All-replicate SlotOk store_capacity_pages empty SlotOk-empty;
  distinct = Distinct-fresh store_capacity_pages;
  tallied = record {
    pages = total-fresh occupied store_capacity_pages refl;
    zeros = total-fresh (of_class CompressionClass.zero) store_capacity_pages refl;
    sames = total-fresh (of_class CompressionClass.same) store_capacity_pages refl;
    sxrcs = total-fresh (of_class CompressionClass.sxrc) store_capacity_pages refl;
    raws = total-fresh (of_class CompressionClass.raw) store_capacity_pages refl;
    held = total-fresh held_bytes store_capacity_pages refl;
  };
})

pub fresh_holds_none :
    (c : CompressionRuntime) (id : ℕ) → c.initialized ≡ true → lookup (fresh c).slots id ≡ none
unfolding initialize new
fresh_holds_none c id on = rw on (lookup-fresh store_capacity_pages id)

-- What a load into `out` leaves: the page that was stored last, or the error `not_found` and the
-- buffer as it was.
abbrev pub Answers :
    Log
    → ℕ
    → List ℕ
    → StoreState
    → CompressionRuntime × StoreState × List ℕ × Result StoreEntry StoreError
    → Type 0
Answers log id out s r =
    ((r.3 ≡ err StoreError.not_found) × (r.2 ≡ out))
    ⊎ ((page : List ℕ) × (latest log id ≡ some page) × Loaded s id page r)

-- After any sequence of calls on a fresh store over an initialised runtime, a load either gives the
-- page that was stored last under its identifier, or fails as not found and leaves the buffer.
pub load_page-run :
    (c : CompressionRuntime) (calls : List Call) (id : ℕ) (out : List ℕ)
    → c.initialized ≡ true
    → All CallOk calls
    → length out ≡ page_bytes
    → let (c', s') = run calls (c, fresh c) in
      Answers (log_after calls []) id out s' (load_page c' s' id out)
load_page-run c calls id out on fine size =
    let v =
      run-Sound calls (c, fresh c) [] fine
        (record {
          ready = on;
          valid = fresh-IsValid c on;
          recalls = λ other. inl (fresh_holds_none c other on);
        }) in
    let (c', s') = run calls (c, fresh c) in
    elim (v.recalls id) [
      | inl lost ↦
          let e = load_page-missing c' s' id out v.valid.ready lost in
          inl (ap (λ r. r.3) e, ap (λ r. r.2) e)
      | inr (page, l, h) ↦ inr (page, l, load_page-Holds c' s' id page out v.ready v.valid h size)
    ]
