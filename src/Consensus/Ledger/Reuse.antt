-- ===== src/Consensus/Ledger/Reuse.antt =====
-- The choice between reuse and growth in `request_slot` of concurrency.py.
use activex_endpoint.Prelude.{
  ℕ, ◌<◌, String, ◌≡◌, ◌≢◌, refl, ap, ◌∙◌, true, not, ◌&&◌, List, [], ◌∷◌, ltb, arith, ◌==◌, nat_eq,
  string_eq, pair_eq, option_eq,
}
use activex_endpoint.Prelude.Dict.{Dict, values}
use activex_endpoint.Prelude.Sets.{contains, contains-filter}
use activex_endpoint.Prelude.Order.{sorted_set, string_ord, contains-sorted_set}
use activex_endpoint.Consensus.Ledger.{
  PoolKey, ConcurrencyLedger, SlotDecision, place, Rng, slots, idle_count, choose, idle_owners,
  with_entry, place_on, grant_or_place, decide_slot, request_slot,
}
use activex_endpoint.Consensus.Ledger.Choice.{choose-mem, slots-with_entry}
use activex_endpoint.Consensus.Ledger.Placement.{idle_owners-sub, request_slot-ready}

idle_count-with_entry :
    (l : ConcurrencyLedger) (key : PoolKey) (eid : String)
    → idle_count (with_entry l key) key eid ≡ idle_count l key eid
unfolding idle_count with_entry
idle_count-with_entry l key eid = ground arith

-- A placement made because of the idle candidates goes to one of them.
place_idle :
    (rng : Rng) (l l' : ConcurrencyLedger) (key : PoolKey) (r : String)
    (other : ConcurrencyLedger × SlotDecision) (idle : List String)
    → ((a : String) → contains idle a ≡ true → (a ≢ r) × (0 < idle_count l key a))
    → (e : String) → contains idle e ≡ true
    → let d = (elim idle as (λ _. ConcurrencyLedger × SlotDecision) [
      | [] ↦ other
      | c ∷ rest ↦ place_on rng l' key c rest
    ]) in
      (t : String) × (d.1 ≡ place t) × (t ≢ r) × (0 < idle_count l key t)
unfolding place_on
place_idle rng l l' key r other [] good e h = unfold contains in cc
place_idle rng l l' key r other (c ∷ rest) good e h =
    let t = (choose rng l' key c rest).1 in
    let in_idle = choose-mem rng l' key c rest in (t, refl, (good t in_idle).0, (good t in_idle).1)

idle_owners-mem :
    (l : ConcurrencyLedger) (key : PoolKey) (r : String) (owners : List String) (a : String)
    → contains owners a ≡ true
    → a ≢ r
    → 0 < idle_count l key a
    → contains (idle_owners l key r owners) a ≡ true
unfolding idle_owners
idle_owners-mem l key r owners a h ne idle = ground (
  arith,
  contains-filter (λ eid. not (eid == r) && ltb 0 (idle_count l key eid)) owners a,
  string_eq.beq_iff a r,
)

decide_slot_reuse :
    (rng : Rng) (l : ConcurrencyLedger) (key : PoolKey) (m : ℕ) (r e : String)
    → contains (values (slots l key)) e ≡ true
    → e ≢ r
    → 0 < idle_count l key e
    → (t : String) × ((decide_slot rng l key m r).1 ≡ place t) × (t ≢ r) × (0 < idle_count l key t)
unfolding decide_slot
decide_slot_reuse rng l key m r e owner other idle =
    let l' = with_entry l key in
    let owners = sorted_set (values (slots l' key)) in
    let e-in : contains owners e ≡ true =
      contains-sorted_set (values (slots l' key)) e
      ∙ (ap (λ (d : Dict ℕ String). contains (values d) e) (slots-with_entry l key key) ∙ owner) in
    place_idle rng l l' key r (grant_or_place rng l' key m r owners) (idle_owners l' key r owners)
      (λ a h.
        let known = idle_owners-sub l' key r owners a h in
        (known.1, rw (idle_count-with_entry l key a) at (known.2)))
      e (idle_owners-mem l' key r owners e e-in other (rw (idle_count-with_entry l key e) idle))

-- Reuse wins over growth: if an endpoint other than the requester holds a slot of the key and is
-- known to be idle, a ready ledger places the job, on an endpoint that is not the requester and is
-- known to be idle.
pub request_slot_reuse :
    (rng : Rng) (l : ConcurrencyLedger) (f : String) (v m : ℕ) (r e : String)
    → l.ready ≡ true
    → contains (values (slots l (f, v))) e ≡ true
    → e ≢ r
    → 0 < idle_count l (f, v) e
    → (t : String) × ((request_slot rng l f v m r).1 ≡ place t)
      × (t ≢ r)
      × (0 < idle_count l (f, v) t)
request_slot_reuse rng l f v m r e up owner other idle =
    rw (request_slot-ready rng l f v m r up) (decide_slot_reuse rng l (f, v) m r e owner other idle)
