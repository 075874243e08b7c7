-- ===== src/Consensus/Ledger/Cap.antt =====
-- Histories of calls to axo_endpoint/core/consensus/concurrency.py, and the number of slots they
-- leave.
use activex_endpoint.Prelude.{
  ℕ, ◌≤◌, max, String, ◌≡◌, refl, ◌∙◌, Bool, true, false, none, List, [], ◌∷◌, if◌then◌else◌,
  length, length-filter-le, arith, nat_eq, string_eq, pair_eq, option_eq, Bool-cases, inl, inr, ltb,
  not,
}
use activex_endpoint.Prelude.Dict
use activex_endpoint.Prelude.Dict.{Dict, values, Distinct}
use activex_endpoint.Prelude.Sets.{contains}
use activex_endpoint.Consensus.Ledger.{
  PoolKey, key_eq, ConcurrencyLedger, SlotDecision, granted, place, retry, Rng, init, slots,
  with_entry, request_slot, release_slot, without_slot, reap_entries, reap_unknown_owners,
  begin_reconciliation, ingest_peer_metrics, ingest_entry, place_on, grant_or_place, decide_slot,
  idle_owners,
}
use activex_endpoint.Consensus.Ledger.Placement.{Explains, request_slot-Explains}
use activex_endpoint.Consensus.Ledger.Choice.{grants-choose}
use activex_endpoint.Consensus.Ledger.Release.{slots-release_slot, slots-reap_unknown_owners}
use activex_endpoint.Prelude.Order.{sorted_set, string_ord}

-- The calls that a leader's ledger takes while it leads.
pub data Call : Type 0 where
  request : Rng → String → ℕ → String → Call
  release : String → ℕ → ℕ → String → Call
  reap : List String → Call
  ingest : String → Dict String (Dict String ℕ) → Call
  begin : Call

module _ (rng : Rng) (key : PoolKey) where
  place_on-Distinct :
      (l : ConcurrencyLedger) (c : String) (rest : List String)
      → Distinct l.grants
      → Distinct (place_on rng l key c rest).0.grants
  unfolding place_on
  place_on-Distinct l c rest h = rw (grants-choose rng l key c rest) h

  by_list-Distinct :
      (l : ConcurrencyLedger) (other : ConcurrencyLedger × SlotDecision) (cs : List String)
      → Distinct l.grants
      → Distinct other.0.grants
      → Distinct (
          (elim cs as (λ _. ConcurrencyLedger × SlotDecision) [
            | [] ↦ other
            | c ∷ rest ↦ place_on rng l key c rest
          ]).0.grants)
  by_list-Distinct l other [] h o = o
  by_list-Distinct l other (c ∷ rest) h o = place_on-Distinct l c rest h

  grant_or_place-Distinct :
      (l : ConcurrencyLedger) (m : ℕ) (r : String) (owners : List String)
      → Distinct l.grants
      → Distinct (grant_or_place rng l key m r owners).0.grants
  unfolding grant_or_place
  grant_or_place-Distinct l m r owners h =
      elim (Bool-cases (ltb (length (slots l key)) (max 1 m))) [
        | inl room ↦ rw room (Dict.put-Distinct l.grants key _ h)
        | inr full ↦ rw full (by_list-Distinct l (l, retry) owners h h)
      ]

with_entry-Distinct :
    (l : ConcurrencyLedger) (key : PoolKey) → Distinct l.grants → Distinct (with_entry l key).grants
unfolding with_entry
with_entry-Distinct l key h = ground (arith, Dict.put-Distinct l.grants key [] h)

request_slot-Distinct :
    (rng : Rng) (l : ConcurrencyLedger) (f : String) (v m : ℕ) (r : String)
    → Distinct l.grants
    → Distinct (request_slot rng l f v m r).0.grants
unfolding request_slot decide_slot
request_slot-Distinct rng l f v m r h =
    let l' = with_entry l (f, v) in
    let h' = with_entry-Distinct l (f, v) h in
    let owners = sorted_set (values (slots l' (f, v))) in
    let decided =
      by_list-Distinct rng (f, v) l' (grant_or_place rng l' (f, v) m r owners)
        (idle_owners l' (f, v) r owners) h' (grant_or_place-Distinct rng (f, v) l' m r owners h') in
    by_ready l.ready _ decided
  where
    by_ready :
        (b : Bool) (d : ConcurrencyLedger × SlotDecision)
        → Distinct d.0.grants
        → Distinct (if not b then (l, retry) else d).0.grants
    by_ready true d x = x
    by_ready false d x = h

release_slot-Distinct :
    (l : ConcurrencyLedger) (f : String) (v i : ℕ) (e : String)
    → Distinct l.grants
    → Distinct (release_slot l f v i e).grants
unfolding release_slot without_slot
release_slot-Distinct l f v i e h =
    let held = Dict.pop (slots l (f, v)) i in
    ground (arith, Dict.put-Distinct l.grants (f, v) held h, Dict.pop-Distinct l.grants (f, v) h)

get-reap_entries-none :
    (known : List String) (d : Dict PoolKey (Dict ℕ String)) (k : PoolKey)
    → Dict.get d k ≡ none
    → Dict.get (reap_entries known d) k ≡ none
unfolding reap_entries Dict.get
get-reap_entries-none known [] k h = refl
get-reap_entries-none known ((key, held) ∷ d) k h = ground (arith, get-reap_entries-none known d k)

reap_entries-Distinct :
    (known : List String) (d : Dict PoolKey (Dict ℕ String))
    → Distinct d
    → Distinct (reap_entries known d)
unfolding reap_entries
reap_entries-Distinct known [] h = tt
reap_entries-Distinct known ((key, held) ∷ d) h =
    ground (arith, reap_entries-Distinct known d h.1, get-reap_entries-none known d key h.0)

module _ (cap : PoolKey → ℕ) where
  -- Each request passes the cap of its function version.
  pub perform : ConcurrencyLedger → Call → ConcurrencyLedger
  perform l (Call.request rng f v r) = (request_slot rng l f v (cap (f, v)) r).0
  perform l (Call.release f v i e) = release_slot l f v i e
  perform l (Call.reap known) = reap_unknown_owners l known
  perform l (Call.ingest e pools) = ingest_peer_metrics l e pools
  perform l Call.begin = begin_reconciliation l

  pub perform_all : ConcurrencyLedger → List Call → ConcurrencyLedger
  perform_all l [] = l
  perform_all l (c ∷ calls) = perform_all (perform l c) calls

  pub record IsCapped (l : ConcurrencyLedger) : Type 0 where
    pub bounded : (k : PoolKey) → length (slots l k) ≤ max 1 (cap k)
    pub distinct : Distinct l.grants

  Explains-bounded :
      (l l' : ConcurrencyLedger) (f : String) (v : ℕ) (r : String) (d : SlotDecision)
      → Explains l (f, v) (cap (f, v)) r l' d
      → ((k : PoolKey) → length (slots l k) ≤ max 1 (cap k))
      → (k : PoolKey) → length (slots l' k) ≤ max 1 (cap k)
  Explains-bounded l l' f v r (granted i) e h k =
      rw (e.3 k) (elim (Bool-cases (key_eq.beq (f, v) k)) [
        | inl same ↦
            rw (same, ← (key_eq.beq_iff (f, v) k).0 same)
              (omega (arith, Dict.length-put-le (slots l (f, v)) i r, e.2))
        | inr apart ↦ rw apart (h k)
      ])
  Explains-bounded l l' f v r (place t) e h k = rw (e.1 k) (h k)
  Explains-bounded l l' f v r retry e h k = rw (e.1) (h k)

  slots-ingest :
      (pools : Dict String (Dict String ℕ)) (l : ConcurrencyLedger) (e : String)
      → (ingest_peer_metrics l e pools).grants ≡ l.grants
  unfolding ingest_peer_metrics
  slots-ingest [] l e = refl
  slots-ingest ((raw, counts) ∷ pools) l e =
      slots-ingest pools (ingest_entry l e raw counts) e ∙ (unfold ingest_entry in ground arith)

  perform-IsCapped : (l : ConcurrencyLedger) (c : Call) → IsCapped l → IsCapped (perform l c)
  unfolding perform
  perform-IsCapped l (Call.request rng f v r) h = record {
    bounded =
        Explains-bounded l _ f v r _ (request_slot-Explains rng l f v (cap (f, v)) r) h.bounded;
    distinct = request_slot-Distinct rng l f v (cap (f, v)) r h.distinct;
  }
  perform-IsCapped l (Call.release f v i e) h = record {
    bounded = λ k.
        ground
          (arith, slots-release_slot l f v i e k, Dict.length-pop-le (slots l k) i, h.bounded k);
    distinct = release_slot-Distinct l f v i e h.distinct;
  }
  perform-IsCapped l (Call.reap known) h = record {
    bounded = λ k. rw (slots-reap_unknown_owners l known k h.distinct) (
        omega (
          arith,
          length-filter-le (λ (slot : ℕ × String). contains known slot.1) (slots l k),
          h.bounded k,
        ));
    distinct = unfold reap_unknown_owners in reap_entries-Distinct known l.grants h.distinct;
  }
  perform-IsCapped l (Call.ingest e pools) h =
      let same = slots-ingest pools l e in
      record { bounded = unfold slots in rw same h.bounded; distinct = rw same h.distinct }
  perform-IsCapped l Call.begin h =
      unfold begin_reconciliation slots in record { bounded = h.bounded; distinct = h.distinct }

  perform_all-IsCapped :
      (l : ConcurrencyLedger) (calls : List Call) → IsCapped l → IsCapped (perform_all l calls)
  unfolding perform_all
  perform_all-IsCapped l [] h = h
  perform_all-IsCapped l (c ∷ calls) h =
      perform_all-IsCapped (perform l c) calls (perform-IsCapped l c h)

  init-IsCapped : (strategy : String) → IsCapped (init strategy)
  unfolding slots Dict.get
  init-IsCapped strategy = record { bounded = λ k. omega arith; distinct = tt }

  -- From a fresh ledger, after any calls in any order, with any random picks and any strategy, no
  -- function version ever holds more slots over all endpoints than its cap (or one, for a cap of
  -- zero).
  pub slots_capped :
      (strategy : String) (calls : List Call) (k : PoolKey)
      → length (slots (perform_all (init strategy) calls) k) ≤ max 1 (cap k)
  slots_capped strategy calls k =
      (perform_all-IsCapped (init strategy) calls (init-IsCapped strategy)).bounded k
