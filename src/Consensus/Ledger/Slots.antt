-- ===== src/Consensus/Ledger/Slots.antt =====
-- The search for a free slot index: `_smallest_unused_index` of concurrency.py.
use activex_endpoint.Prelude.{
  ℕ, zero, suc, ◌+◌, ◌≤◌, ◌<◌, String, ◌≡◌, true, false, [], ◌∷◌, arith, length, nat_eq, Bool-cases,
  inl, inr,
}
use activex_endpoint.Prelude.Dict
use activex_endpoint.Prelude.Dict.{Dict}
use activex_endpoint.Consensus.Ledger.{unused_from, smallest_unused_index}

length-pop-lt :
    (d : Dict ℕ String) (k : ℕ) → Dict.has d k ≡ true → length (Dict.pop d k) + 1 ≤ length d
unfolding Dict.has Dict.get Dict.pop
length-pop-lt [] k h = ground arith
length-pop-lt ((j, w) ∷ d) k h = ground (arith, length-pop-lt d k, Dict.length-pop-le d k)

has-pop : (d : Dict ℕ String) (k j : ℕ) → j < k → Dict.has (Dict.pop d k) j ≡ Dict.has d j
unfolding Dict.has
has-pop d k j h = ground (arith, Dict.get-pop d k j)

-- A dict that has every index below `n` has at least `n` items.
pigeonhole : (n : ℕ) (d : Dict ℕ String) → ((j : ℕ) → j < n → Dict.has d j ≡ true) → n ≤ length d
pigeonhole zero d h = omega arith
pigeonhole (suc n) d h =
    let fewer : n ≤ length (Dict.pop d n) =
      pigeonhole n (Dict.pop d n) (λ j lt. ground (arith, has-pop d n j, h j)) in
    omega (arith, length-pop-lt d n (h n (omega arith)))

-- `i` is free and everything below it is taken.
pub record IsSmallestUnused (d : Dict ℕ String) (i : ℕ) : Type 0 where
  pub free : Dict.has d i ≡ false
  pub taken : (j : ℕ) → j < i → Dict.has d j ≡ true

unused_from-IsSmallestUnused :
    (fuel i : ℕ) (d : Dict ℕ String)
    → length d < i + fuel
    → ((j : ℕ) → j < i → Dict.has d j ≡ true)
    → IsSmallestUnused d (unused_from fuel i d)
unfolding unused_from
unused_from-IsSmallestUnused zero i d h below = absurd (omega (arith, pigeonhole i d below))
unused_from-IsSmallestUnused (suc fuel) i d h below = elim (Bool-cases (Dict.has d i)) [
  | inl taken ↦ rw taken (
      unused_from-IsSmallestUnused fuel (i + 1) d (omega arith) (λ j lt.
        elim (Bool-cases (nat_eq.beq j i)) [
          | inl same ↦ rw ((nat_eq.beq_iff j i).0 same) taken
          | inr other ↦ below j (ground (arith, nat_eq.beq_iff j i))
        ]))
  | inr free ↦ rw free (record { free = free; taken = below })
]

-- The loop ends within its fuel: the index is the smallest that no slot uses, and at most the
-- number of slots.
pub smallest_unused_index_lem :
    (d : Dict ℕ String)
    → IsSmallestUnused d (smallest_unused_index d) × (smallest_unused_index d ≤ length d)
unfolding smallest_unused_index
smallest_unused_index_lem d =
    let found =
      unused_from-IsSmallestUnused (suc (length d)) 0 d (omega arith) (λ j lt. elim lt [ ]) in
    (found, pigeonhole _ d found.taken)
