-- ===== src/Consensus/Ledger/Release.antt =====
-- What a release and a reap do to the slots of a key.
use activex_endpoint.Prelude.{
  ℕ, String, ◌≡◌, refl, some, List, [], ◌∷◌, if◌then◌else◌, filter, arith, ◌==◌, nat_eq, string_eq,
  pair_eq, option_eq, Bool-cases, inl, inr,
}
use activex_endpoint.Prelude.Dict
use activex_endpoint.Prelude.Dict.{Dict, values, Distinct}
use activex_endpoint.Prelude.Sets.{contains}
use activex_endpoint.Consensus.Ledger.{
  PoolKey, key_eq, ConcurrencyLedger, get_or, slots, release_slot, without_slot, known_slots,
  reap_entries, reap_unknown_owners,
}

slots-without_slot :
    (l : ConcurrencyLedger) (key k : PoolKey) (held : Dict ℕ String)
    → slots (without_slot l key held) k ≡ (if key_eq.beq key k then held else slots l k)
unfolding without_slot slots
slots-without_slot l key k [] = ground (arith, Dict.get-pop l.grants key k, key_eq.beq_iff key k)
slots-without_slot l key k (s ∷ held) =
    ground (arith, Dict.get-put l.grants key k (s ∷ held), key_eq.beq_iff key k)

-- The slots of a key after a release: the slot is gone if the releasing endpoint owned it, and
-- nothing else changes.
pub slots-release_slot :
    (l : ConcurrencyLedger) (f : String) (v i : ℕ) (e : String) (k : PoolKey)
    → slots (release_slot l f v i e) k ≡ (
        if key_eq.beq (f, v) k
        then (if Dict.get (slots l k) i == some e then Dict.pop (slots l k) i else slots l k)
        else slots l k)
unfolding release_slot
slots-release_slot l f v i e k =
    let held = slots l (f, v) in
    elim (Bool-cases (option_eq.beq (Dict.get held i) (some e))) [
      | inl owned ↦
          rw (owned, slots-without_slot l (f, v) k (Dict.pop held i))
            (at_key (λ d. Dict.pop held i) (λ d. if Dict.get d i == some e then Dict.pop d i else d)
              (rw owned))
      | inr other ↦
          rw other (at_same (λ d. if Dict.get d i == some e then Dict.pop d i else d) (rw other))
    ]
  where
    at_key :
        (g h : Dict ℕ String → Dict ℕ String)
        → g (slots l (f, v)) ≡ h (slots l (f, v))
        → (if key_eq.beq (f, v) k then g (slots l (f, v)) else slots l k)
          ≡ (if key_eq.beq (f, v) k then h (slots l k) else slots l k)
    at_key g h e = elim (Bool-cases (key_eq.beq (f, v) k)) [
      | inl same ↦ rw (same, ← (key_eq.beq_iff (f, v) k).0 same) e
      | inr apart ↦ rw apart
    ]

    at_same :
        (h : Dict ℕ String → Dict ℕ String)
        → slots l (f, v) ≡ h (slots l (f, v))
        → slots l k ≡ (if key_eq.beq (f, v) k then h (slots l k) else slots l k)
    at_same h e = elim (Bool-cases (key_eq.beq (f, v) k)) [
      | inl same ↦ rw (same, ← (key_eq.beq_iff (f, v) k).0 same) e
      | inr apart ↦ rw apart
    ]

get-reap_entries :
    (known : List String) (d : Dict PoolKey (Dict ℕ String)) (k : PoolKey)
    → Distinct d
    → get_or (Dict.get (reap_entries known d) k) [] ≡ known_slots known (get_or (Dict.get d k) [])
unfolding reap_entries known_slots Dict.get
get-reap_entries known [] k h = refl
get-reap_entries known ((key, held) ∷ d) k h =
    ground (arith, get-reap_entries known d k h.1, key_eq.beq_iff key k)

-- After a reap of a ledger that has no key twice, each key keeps exactly the slots whose owner is known, in their order.
pub slots-reap_unknown_owners :
    (l : ConcurrencyLedger) (known : List String) (k : PoolKey)
    → Distinct l.grants
    → slots (reap_unknown_owners l known) k ≡ filter (λ slot. contains known slot.1) (slots l k)
unfolding reap_unknown_owners slots known_slots
slots-reap_unknown_owners l known k h = get-reap_entries known l.grants k h
