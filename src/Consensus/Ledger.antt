-- ===== src/Consensus/Ledger.antt =====
-- axo_endpoint/core/consensus/concurrency.py: which endpoint owns which pool slot of a function
-- version. `random` is a parameter. The lock makes each method one step.
pub mod Metrics
pub mod Slots
pub mod Choice
pub mod Placement
pub mod Reuse
pub mod Release
pub mod Cap
use activex_endpoint.Prelude.{
  ℕ, zero, suc, ◌+◌, ◌-◌, ◌%◌, max, String, ◌≡◌, Bool, true, false, not, ◌&&◌, ◌||◌, Option, none,
  some, List, [], ◌∷◌, ltb, leb, if◌then◌else◌, length, filter, is_empty, ◌==◌, nat_eq, string_eq,
  pair_eq, option_eq, Eq,
}
use activex_endpoint.Prelude.Dict
use activex_endpoint.Prelude.Dict.{Dict, values, keys}
use activex_endpoint.Prelude.Sets.{contains}
use activex_endpoint.Prelude.Order.{sorted_set, string_ord}
use activex_endpoint.Text.{concat, decimal, to_version, rpartition_colons}

-- (function_id, version)
abbrev pub PoolKey : Type 0
PoolKey = String × ℕ

abbrev pub key_eq : Eq PoolKey
key_eq = pair_eq

-- f"{function_id}::{version}"
unfoldable pub pool_metrics_key : String → ℕ → String
pool_metrics_key function_id version = concat function_id (concat "::" (decimal version))

unfoldable pub parse_pool_metrics_key : String → Option PoolKey
parse_pool_metrics_key key = elim (rpartition_colons key) [
  | none ↦ none
  | some (function_id, version_str) ↦ elim (to_version version_str) [
    | none ↦ none
    | some version ↦ some (function_id, version)
  ]
]

pub data SlotDecision : Type 0 where
  granted : ℕ → SlotDecision
  place : String → SlotDecision
  retry : SlotDecision

pub record ContainerCountEntry : Type 0 where
  pub function_id : String
  pub version : ℕ
  pub slot_index : ℕ

pub data Strategy : Type 0 where
  round_robin random two_choices : Strategy

-- `strategy if strategy in _VALID_STRATEGIES else "round_robin"`
unfoldable pub strategy_of : String → Strategy
strategy_of s =
    if s == "two_choices" then two_choices else if s == "random" then random else round_robin

-- What `random.choice` and `random.sample(_, 2)` pick from a list of at least one, two items.
pub record Rng : Type 0 where
  pub choice : String → List String → String
  pub sample : String → String → List String → String × String
  pub choice_mem : (x : String) (xs : List String) → contains (x ∷ xs) (choice x xs) ≡ true
  pub sample_left :
      (x y : String) (xs : List String) → contains (x ∷ y ∷ xs) (sample x y xs).0 ≡ true
  pub sample_right :
      (x y : String) (xs : List String) → contains (x ∷ y ∷ xs) (sample x y xs).1 ≡ true

pub record ConcurrencyLedger : Type 0 where
  pub strategy : Strategy
  pub ready : Bool
  pub grants : Dict PoolKey (Dict ℕ String)
  pub pool_metrics : Dict PoolKey (Dict String (ℕ × ℕ))
  pub rr_cursor : Dict PoolKey ℕ

-- `__init__`
abbrev pub init : String → ConcurrencyLedger
init strategy = record {
  strategy = strategy_of strategy;
  ready = true;
  grants = [];
  pool_metrics = [];
  rr_cursor = [];
}

-- `d.get(key, default)`
abbrev pub get_or {ℓ} : {A : Type ℓ} → Option A → A → A
get_or none d = d
get_or (some a) d = a

-- The slots of one key: `self._grants.get(key, {})`
unfoldable pub slots : ConcurrencyLedger → PoolKey → Dict ℕ String
slots l key = get_or (Dict.get l.grants key) []

metrics_of : ConcurrencyLedger → PoolKey → String → ℕ × ℕ
metrics_of l key endpoint_id =
    get_or (Dict.get (get_or (Dict.get l.pool_metrics key) []) endpoint_id) (0, 0)

unfoldable pub idle_count : ConcurrencyLedger → PoolKey → String → ℕ
unfolding metrics_of
idle_count l key endpoint_id = (metrics_of l key endpoint_id).1

-- `max(0, live - idle)`
unfoldable pub busy_count : ConcurrencyLedger → PoolKey → String → ℕ
unfolding metrics_of
busy_count l key endpoint_id = (metrics_of l key endpoint_id).0 - (metrics_of l key endpoint_id).1

item_or : List String → ℕ → String → String
item_or [] i d = d
item_or (x ∷ xs) zero d = x
item_or (x ∷ xs) (suc i) d = item_or xs i d

-- The strategies of `_choose`, on two candidates or more.
choose_by :
    Strategy
    → Rng
    → ConcurrencyLedger
    → PoolKey
    → String
    → String
    → List String
    → ConcurrencyLedger × String
unfolding busy_count item_or
choose_by round_robin rng l key c d more =
    let cursor = get_or (Dict.get l.rr_cursor key) 0 in
    (
      record l { rr_cursor = Dict.put l.rr_cursor key (cursor + 1) },
      item_or (c ∷ d ∷ more) (cursor % length (c ∷ d ∷ more)) c,
    )
choose_by two_choices rng l key c d more =
    let (a, b) = rng.sample c d more in
    (l, if leb (busy_count l key a) (busy_count l key b) then a else b)
choose_by random rng l key c d more = (l, rng.choice c (d ∷ more))

-- `_choose`, on candidates that the callers have tested to be non-empty.
unfoldable pub choose :
    Rng → ConcurrencyLedger → PoolKey → String → List String → ConcurrencyLedger × String
unfolding choose_by
choose rng l key c [] = (l, c)
choose rng l key c (d ∷ more) = choose_by l.strategy rng l key c d more

-- The loop of `_smallest_unused_index`, on fuel.
unfoldable pub unused_from : ℕ → ℕ → Dict ℕ String → ℕ
unused_from zero i grants = i
unused_from (suc fuel) i grants =
    let later = unused_from fuel (i + 1) grants in if Dict.has grants i then later else i

-- One round more than there are slots is enough: see `Slots`.
unfoldable pub smallest_unused_index : Dict ℕ String → ℕ
unfolding unused_from
smallest_unused_index grants = unused_from (suc (length grants)) 0 grants

unfoldable pub idle_owners : ConcurrencyLedger → PoolKey → String → List String → List String
unfolding idle_count
idle_owners l key requester_id =
    filter (λ eid. not (eid == requester_id) && ltb 0 (idle_count l key eid))

-- `self._grants.setdefault(key, {})`
unfoldable pub with_entry : ConcurrencyLedger → PoolKey → ConcurrencyLedger
with_entry l key = elim (Dict.get l.grants key) [
  | none ↦ record l { grants = Dict.put l.grants key [] }
  | some _ ↦ l
]

place_on :
    Rng → ConcurrencyLedger → PoolKey → String → List String → ConcurrencyLedger × SlotDecision
place_on rng l key c rest = let (l', target) = choose rng l key c rest in (l', place target)

grant_or_place :
    Rng → ConcurrencyLedger → PoolKey → ℕ → String → List String → ConcurrencyLedger × SlotDecision
unfolding place_on
grant_or_place rng l key max_concurrency requester_id owners =
    let held = slots l key in
    let i = smallest_unused_index held in
    if ltb (length held) (max 1 max_concurrency)
    then (record l { grants = Dict.put l.grants key (Dict.put held i requester_id) }, granted i)
    else (elim owners [ [] ↦ (l, retry) | c ∷ rest ↦ place_on rng l key c rest ])

-- `request_slot` under the lock.
unfoldable pub decide_slot :
    Rng → ConcurrencyLedger → PoolKey → ℕ → String → ConcurrencyLedger × SlotDecision
unfolding place_on grant_or_place
decide_slot rng l key max_concurrency requester_id =
    let l' = with_entry l key in
    let owners = sorted_set (values (slots l' key)) in
    elim (idle_owners l' key requester_id owners) [
      | [] ↦ grant_or_place rng l' key max_concurrency requester_id owners
      | c ∷ rest ↦ place_on rng l' key c rest
    ]

unfoldable pub request_slot :
    Rng → ConcurrencyLedger → String → ℕ → ℕ → String → ConcurrencyLedger × SlotDecision
unfolding decide_slot
request_slot rng l function_id version max_concurrency requester_id =
    if not l.ready
    then (l, retry)
    else decide_slot rng l (function_id, version) max_concurrency requester_id

-- `del grants[i]`, and the key with it when that was the last slot.
without_slot : ConcurrencyLedger → PoolKey → Dict ℕ String → ConcurrencyLedger
without_slot l key held =
    if is_empty held
    then record l { grants = Dict.pop l.grants key }
    else record l { grants = Dict.put l.grants key held }

unfoldable pub release_slot : ConcurrencyLedger → String → ℕ → ℕ → String → ConcurrencyLedger
unfolding without_slot
release_slot l function_id version slot_index endpoint_id =
    let key : PoolKey = (function_id, version) in
    let held = slots l key in
    if Dict.get held slot_index == some endpoint_id
    then without_slot l key (Dict.pop held slot_index)
    else l

known_slots : List String → Dict ℕ String → Dict ℕ String
known_slots known = filter (λ slot. contains known slot.1)

reap_entries : List String → Dict PoolKey (Dict ℕ String) → Dict PoolKey (Dict ℕ String)
unfolding known_slots
reap_entries known [] = []
reap_entries known ((key, held) ∷ d) =
    let rest = reap_entries known d in
    if is_empty (known_slots known held) then rest else (key, known_slots known held) ∷ rest

unfoldable pub reap_unknown_owners : ConcurrencyLedger → List String → ConcurrencyLedger
unfolding reap_entries
reap_unknown_owners l known = record l { grants = reap_entries known l.grants }

unfoldable pub begin_reconciliation : ConcurrencyLedger → ConcurrencyLedger
begin_reconciliation l = record l { ready = false }

-- `new_grants.setdefault(key, {})[entry.slot_index] = endpoint_id`
record_slot : Dict PoolKey (Dict ℕ String) → PoolKey → ℕ → String → Dict PoolKey (Dict ℕ String)
record_slot d key slot_index endpoint_id =
    Dict.put d key (Dict.put (get_or (Dict.get d key) []) slot_index endpoint_id)

record_entries :
    Dict PoolKey (Dict ℕ String) → String → List ContainerCountEntry → Dict PoolKey (Dict ℕ String)
unfolding record_slot
record_entries d endpoint_id [] = d
record_entries d endpoint_id (entry ∷ entries) =
    record_entries (record_slot d (entry.function_id, entry.version) entry.slot_index endpoint_id)
      endpoint_id entries

record_reports :
    Dict PoolKey (Dict ℕ String)
    → Dict String (List ContainerCountEntry)
    → Dict PoolKey (Dict ℕ String)
unfolding record_entries
record_reports d [] = d
record_reports d ((endpoint_id, entries) ∷ reports) =
    record_reports (record_entries d endpoint_id entries) reports

unfoldable pub reconcile :
    ConcurrencyLedger → Dict String (List ContainerCountEntry) → ConcurrencyLedger
unfolding record_reports
reconcile l reports = record l { grants = record_reports [] reports; rr_cursor = []; ready = true }

-- One entry of `container_pools`: the counts are a dict of names.
ingest_entry : ConcurrencyLedger → String → String → Dict String ℕ → ConcurrencyLedger
ingest_entry l endpoint_id raw_key counts = elim (parse_pool_metrics_key raw_key) [
  | none ↦ l
  | some key ↦ record l {
    pool_metrics = Dict.put l.pool_metrics key (
        Dict.put (get_or (Dict.get l.pool_metrics key) []) endpoint_id
          (get_or (Dict.get counts "live") 0, get_or (Dict.get counts "idle") 0));
  }
]

unfoldable pub ingest_peer_metrics :
    ConcurrencyLedger → String → Dict String (Dict String ℕ) → ConcurrencyLedger
unfolding ingest_entry
ingest_peer_metrics l endpoint_id [] = l
ingest_peer_metrics l endpoint_id ((raw_key, counts) ∷ pools) =
    ingest_peer_metrics (ingest_entry l endpoint_id raw_key counts) endpoint_id pools
