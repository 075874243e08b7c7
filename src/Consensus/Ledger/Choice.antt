-- ===== src/Consensus/Ledger/Choice.antt =====
-- The pick of an endpoint among candidates: `_choose` of concurrency.py.
use native.Mathlib.Nat.{mod-lt}
use activex_endpoint.Prelude.{
  ℕ, zero, suc, ◌<◌, String, ◌≡◌, refl, true, List, [], ◌∷◌, if◌then◌else◌, length, arith, ◌==◌,
  nat_eq, string_eq, pair_eq, option_eq,
}
use activex_endpoint.Prelude.Dict
use activex_endpoint.Prelude.Dict.{Dict, values}
use activex_endpoint.Prelude.Sets.{contains}
use activex_endpoint.Prelude.Order.{string_ord}
use activex_endpoint.Consensus.Ledger.{
  PoolKey, key_eq, ConcurrencyLedger, Strategy, Rng, round_robin, random, two_choices, slots,
  item_or, choose, choose_by, with_entry,
}

item_or-mem :
    (xs : List String) (i : ℕ) (d : String) → i < length xs → contains xs (item_or xs i d) ≡ true
unfolding item_or contains
item_or-mem [] i d h = absurd (omega arith)
item_or-mem (x ∷ xs) zero d h = ground (arith, string_eq.beq_iff x x)
item_or-mem (x ∷ xs) (suc i) d h = ground (arith, item_or-mem xs i d)

choose_by-mem :
    (s : Strategy) (rng : Rng) (l : ConcurrencyLedger) (key : PoolKey) (c d : String)
    (more : List String)
    → contains (c ∷ d ∷ more) (choose_by s rng l key c d more).1 ≡ true
unfolding choose_by
choose_by-mem round_robin rng l key c d more =
    item_or-mem (c ∷ d ∷ more) _ c (mod-lt _ (omega arith))
choose_by-mem two_choices rng l key c d more =
    ground (arith, rng.sample_left c d more, rng.sample_right c d more)
choose_by-mem random rng l key c d more = rng.choice_mem c (d ∷ more)

-- Whatever the strategy, the target is one of the candidates.
pub choose-mem :
    (rng : Rng) (l : ConcurrencyLedger) (key : PoolKey) (c : String) (rest : List String)
    → contains (c ∷ rest) (choose rng l key c rest).1 ≡ true
unfolding choose
choose-mem rng l key c [] = unfold contains in ground (arith, string_eq.beq_iff c c)
choose-mem rng l key c (d ∷ more) = choose_by-mem l.strategy rng l key c d more

grants-choose_by :
    (s : Strategy) (rng : Rng) (l : ConcurrencyLedger) (key : PoolKey) (c d : String)
    (more : List String)
    → (choose_by s rng l key c d more).0.grants ≡ l.grants
unfolding choose_by
grants-choose_by round_robin rng l key c d more = refl
grants-choose_by two_choices rng l key c d more = refl
grants-choose_by random rng l key c d more = refl

pub grants-choose :
    (rng : Rng) (l : ConcurrencyLedger) (key : PoolKey) (c : String) (rest : List String)
    → (choose rng l key c rest).0.grants ≡ l.grants
unfolding choose
grants-choose rng l key c [] = refl
grants-choose rng l key c (d ∷ more) = grants-choose_by l.strategy rng l key c d more

pub slots-with_entry :
    (l : ConcurrencyLedger) (key k : PoolKey) → slots (with_entry l key) k ≡ slots l k
unfolding slots with_entry
slots-with_entry l key k = ground (arith, Dict.get-put l.grants key k [], key_eq.beq_iff key k)

pub slots-choose :
    (rng : Rng) (l : ConcurrencyLedger) (key : PoolKey) (c : String) (rest : List String)
    (k : PoolKey)
    → slots (choose rng l key c rest).0 k ≡ slots l k
unfolding slots
slots-choose rng l key c rest k = rw (grants-choose rng l key c rest)

pub slots-put :
    (l : ConcurrencyLedger) (key k : PoolKey) (held : Dict ℕ String)
    → slots (record l { grants = Dict.put l.grants key held }) k
      ≡ (if key == k then held else slots l k)
unfolding slots
slots-put l key k held = ground (arith, Dict.get-put l.grants key k held, key_eq.beq_iff key k)
