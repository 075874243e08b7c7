-- ===== src/Consensus/Ledger/Placement.antt =====
-- The answers of `request_slot` of axo_endpoint/core/consensus/concurrency.py.
use activex_endpoint.Prelude.{
  ℕ, ◌≤◌, ◌<◌, max, String, ◌≡◌, ◌≢◌, refl, sym, ap, ◌∙◌, Bool, true, false, not, ◌&&◌, none, List,
  [], ◌∷◌, ltb, if◌then◌else◌, length, arith, ◌==◌, nat_eq, string_eq, pair_eq, option_eq,
  Bool-cases, inl, inr, ltb→lt,
}
use activex_endpoint.Prelude.Dict
use activex_endpoint.Prelude.Dict.{Dict, values}
use activex_endpoint.Prelude.Sets.{contains, contains-filter}
use activex_endpoint.Prelude.Order.{sorted_set, string_ord, contains-sorted_set}
use activex_endpoint.Consensus.Ledger.{
  PoolKey, ConcurrencyLedger, SlotDecision, granted, place, retry, Rng, slots, idle_count,
  idle_owners, with_entry, place_on, grant_or_place, decide_slot, request_slot,
}
use activex_endpoint.Consensus.Ledger.Slots.{smallest_unused_index_lem}
use activex_endpoint.Consensus.Ledger.Choice.{choose-mem, slots-with_entry, slots-choose, slots-put}

-- What a decision means for the slots of `key`, from `before` to `after`.
abbrev pub Explains :
    ConcurrencyLedger → PoolKey → ℕ → String → ConcurrencyLedger → SlotDecision → Type 0
Explains l key max_concurrency requester_id l' (granted i) =
    (Dict.get (slots l key) i ≡ none)
    × (i < max 1 max_concurrency)
    × (length (slots l key) < max 1 max_concurrency)
    × ((k : PoolKey)
        → slots l' k ≡ (if key == k then Dict.put (slots l key) i requester_id else slots l k))
Explains l key max_concurrency requester_id l' (place target) =
    (contains (values (slots l key)) target ≡ true) × ((k : PoolKey) → slots l' k ≡ slots l k)
Explains l key max_concurrency requester_id l' retry = (l.ready ≡ false) × (l' ≡ l)

place_on-Explains :
    (rng : Rng) (l : ConcurrencyLedger) (key : PoolKey) (m : ℕ) (r : String)
    (l' : ConcurrencyLedger) (c : String) (rest : List String)
    → ((t : String) → contains (c ∷ rest) t ≡ true → contains (values (slots l key)) t ≡ true)
    → ((k : PoolKey) → slots l' k ≡ slots l k)
    → let d = place_on rng l' key c rest in Explains l key m r d.0 d.1
unfolding place_on
place_on-Explains rng l key m r l' c rest owners same =
    (owners _ (choose-mem rng l' key c rest), λ k. slots-choose rng l' key c rest k ∙ same k)

is_free : (d : Dict ℕ String) (i : ℕ) → Dict.has d i ≡ false → Dict.get d i ≡ none
unfolding Dict.has
is_free d i h = ground arith

no_owners : (held : Dict ℕ String) → sorted_set (values held) ≡ [] → length held ≡ 0
no_owners [] h = refl
no_owners ((i, x) ∷ held) h =
    let x-in : contains (sorted_set (values ((i, x) ∷ held))) x ≡ true =
      contains-sorted_set (values ((i, x) ∷ held)) x
      ∙ (unfold contains in ground (arith, string_eq.beq_iff x x)) in
    absurd (none_in (sorted_set (values ((i, x) ∷ held))) h x-in)
  where
    none_in : (ys : List String) → ys ≡ [] → contains ys x ≡ true → ⊥
    none_in [] e c = unfold contains in cc
    none_in (y ∷ ys) e c = cc

module _ (rng : Rng) (l l' : ConcurrencyLedger) (key : PoolKey) (m : ℕ) (r : String)
    (same : (k : PoolKey) → slots l' k ≡ slots l k) where
  owners_in :
      (ys : List String) (t : String)
      → ((a : String)
          → contains ys a ≡ true
          → contains (sorted_set (values (slots l' key))) a ≡ true)
      → contains ys t ≡ true
      → contains (values (slots l key)) t ≡ true
  owners_in ys t sub h =
      ap (λ (d : Dict ℕ String). contains (values d) t) (sym (same key))
      ∙ (sym (contains-sorted_set (values (slots l' key)) t) ∙ sub t h)

  full-Explains :
      (owners : List String)
      → owners ≡ sorted_set (values (slots l' key))
      → max 1 m ≤ length (slots l' key)
      → let d = (elim owners as (λ _. ConcurrencyLedger × SlotDecision) [
        | [] ↦ (l', retry)
        | c ∷ rest ↦ place_on rng l' key c rest
      ]) in
        Explains l key m r d.0 d.1
  full-Explains [] e full = absurd (omega (arith, no_owners (slots l' key) (sym e)))
  full-Explains (c ∷ rest) e full =
      place_on-Explains rng l key m r l' c rest
        (λ t h. owners_in (c ∷ rest) t (λ a p. rw (← e) p) h) same

  grant_or_place-Explains :
      let d = grant_or_place rng l' key m r (sorted_set (values (slots l' key))) in
      Explains l key m r d.0 d.1
  unfolding grant_or_place
  grant_or_place-Explains =
      let held = slots l' key in
      let least = smallest_unused_index_lem held in
      elim (Bool-cases (ltb (length held) (max 1 m))) [
        | inl room ↦
            let lt : length held < max 1 m = ltb→lt _ _ room in
            rw room (
              rw (← same key) (is_free held _ least.0.free),
              omega (arith, least.1),
              rw (← same key) lt,
              λ k. slots-put l' key k _ ∙ rw (same key, same k),
            )
        | inr full ↦ rw full (full-Explains _ refl (ground arith))
      ]

  by_idle :
      (idle : List String)
      → ((a : String)
          → contains idle a ≡ true
          → contains (sorted_set (values (slots l' key))) a ≡ true)
      → let d = (elim idle as (λ _. ConcurrencyLedger × SlotDecision) [
        | [] ↦ grant_or_place rng l' key m r (sorted_set (values (slots l' key)))
        | c ∷ rest ↦ place_on rng l' key c rest
      ]) in
        Explains l key m r d.0 d.1
  by_idle [] sub = grant_or_place-Explains
  by_idle (c ∷ rest) sub =
      place_on-Explains rng l key m r l' c rest (λ t h. owners_in (c ∷ rest) t sub h) same

pub idle_owners-sub :
    (l : ConcurrencyLedger) (key : PoolKey) (r : String) (owners : List String) (a : String)
    → contains (idle_owners l key r owners) a ≡ true
    → (contains owners a ≡ true) × (a ≢ r) × (0 < idle_count l key a)
unfolding idle_owners
idle_owners-sub l key r owners a h = ground (
  arith,
  contains-filter (λ eid. not (eid == r) && ltb 0 (idle_count l key eid)) owners a,
  string_eq.beq_iff a r,
)

pub request_slot-ready :
    (rng : Rng) (l : ConcurrencyLedger) (f : String) (v m : ℕ) (r : String)
    → l.ready ≡ true
    → request_slot rng l f v m r ≡ decide_slot rng l (f, v) m r
unfolding request_slot
request_slot-ready rng l f v m r up =
    ap (λ (b : Bool). if not b then (l, retry) else decide_slot rng l (f, v) m r) up

request_slot-retry :
    (rng : Rng) (l : ConcurrencyLedger) (f : String) (v m : ℕ) (r : String)
    → l.ready ≡ false
    → request_slot rng l f v m r ≡ (l, retry)
unfolding request_slot
request_slot-retry rng l f v m r down =
    ap (λ (b : Bool). if not b then (l, retry) else decide_slot rng l (f, v) m r) down

decide_slot-Explains :
    (rng : Rng) (l : ConcurrencyLedger) (key : PoolKey) (m : ℕ) (r : String)
    → let d = decide_slot rng l key m r in Explains l key m r d.0 d.1
unfolding decide_slot
decide_slot-Explains rng l key m r =
    let l' = with_entry l key in
    by_idle rng l l' key m r (slots-with_entry l key)
      (idle_owners l' key r (sorted_set (values (slots l' key))))
      (λ a h. (idle_owners-sub l' key r (sorted_set (values (slots l' key))) a h).0)

-- Whatever is asked, the answer is explained by the slots before and after. A grant is of an index
-- that was free and below the cap, was made while fewer slots were held than the cap allows, and
-- gives that slot alone to the requester. A placement names an endpoint that holds a slot of the
-- key, and changes no slot. A retry is given only while the ledger is not ready, and changes nothing.
pub request_slot-Explains :
    (rng : Rng) (l : ConcurrencyLedger) (function_id : String) (version m : ℕ) (r : String)
    → let d = request_slot rng l function_id version m r in
      Explains l (function_id, version) m r d.0 d.1
request_slot-Explains rng l f v m r = elim (Bool-cases l.ready) [
  | inl up ↦ rw (request_slot-ready rng l f v m r up) (decide_slot-Explains rng l (f, v) m r)
  | inr down ↦ rw (request_slot-retry rng l f v m r down) (down, refl)
]
