-- ===== src/Consensus/Sync/Absorb.antt =====
-- What a follower's store holds after `apply_incoming` of registry_sync.py.
use activex_endpoint.Prelude.{
  ℕ, String, ◌≡◌, refl, ap, ◌∙◌, true, Option, none, some, [], ◌∷◌, All, arith, if◌then◌else◌, ◌==◌,
  string_eq, nat_eq, pair_beq, pair_beq_iff, Bool-cases, inl, inr,
}
use activex_endpoint.Prelude.Dict
use activex_endpoint.Prelude.Dict.{Dict, Distinct}
use activex_endpoint.Storage.Backend.{StorageBackend, IsMap, WritesGoThrough}
use activex_endpoint.Functions.Registry.{FunctionRecord}
use activex_endpoint.Consensus.StateMachine.{Bytes}
use activex_endpoint.Consensus.Sync.{WireLib, combined_key, split_key}
use activex_endpoint.Consensus.Sync.Functions.{read_change, read_item, apply_change, apply_incoming}
use activex_endpoint.Consensus.Sync.Records.{split_key-combined_key}

-- The item is a change of a version that can be read.
abbrev pub IsReadable : WireLib → String × Bytes → Type 0
IsReadable w (k, blob) =
    (n : String) × (v : ℕ) × (o : Option FunctionRecord) × (k ≡ combined_key n (some v))
    × (read_change w blob ≡ some o)

-- What a version is after the change, if there is one.
abbrev change_or : Option (Option FunctionRecord) → Option FunctionRecord → Option FunctionRecord
change_or none before = before
change_or (some o) before = o

abbrev pub changed : WireLib → Option Bytes → Option FunctionRecord → Option FunctionRecord
changed w none before = before
changed w (some blob) before = change_or (read_change w blob) before

combined_key-injective :
    (n m : String) (u v : ℕ)
    → combined_key n (some u) ≡ combined_key m (some v)
    → pair_beq (n, u) (m, v) ≡ true
combined_key-injective n m u v h = ground (
  arith,
  split_key-combined_key n u,
  split_key-combined_key m v,
  ap split_key h,
  pair_beq_iff ⦃e = string_eq⦄ ⦃d = nat_eq⦄ (n, u) (m, v),
)

pub combined_key-beq :
    (n m : String) (u v : ℕ)
    → (combined_key n (some u) == combined_key m (some v)) ≡ pair_beq (n, u) (m, v)
combined_key-beq n m u v = ground (
  arith,
  combined_key-injective n m u v,
  string_eq.beq_iff (combined_key n (some u)) (combined_key m (some v)),
  pair_beq_iff ⦃e = string_eq⦄ ⦃d = nat_eq⦄ (n, u) (m, v),
  string_eq.beq_iff n m,
)

-- The first of the changes, made before the others, or found before them.
changed-first :
    (w : WireLib) (changes : Dict String Bytes) (k j : String) (blob : Bytes)
    (o before : Option FunctionRecord)
    → Dict.get changes k ≡ none
    → read_change w blob ≡ some o
    → changed w (Dict.get changes j) (if k == j then o else before)
      ≡ changed w (if k == j then some blob else Dict.get changes j) before
changed-first w changes k j blob o before fresh h = elim (Bool-cases (k == j)) [
  | inl same ↦ rw (same, ← (string_eq.beq_iff k j).0 same, fresh, h)
  | inr apart ↦ rw apart
]

read_item-readable :
    (w : WireLib) (k : String) (blob : Bytes) (n : String) (v : ℕ) (o : Option FunctionRecord)
    → k ≡ combined_key n (some v)
    → read_change w blob ≡ some o
    → read_item w (k, blob) ≡ some (n, v, o)
unfolding read_item
read_item-readable w k blob n v o is_key h = rw (is_key, split_key-combined_key n v, h)

module _ (b : StorageBackend FunctionRecord) (m : IsMap b) (w : WireLib) where
  open m use {IsValid, lookup, put_valid, lookup-put, delete_valid, lookup-delete}

  apply_change-IsValid :
      (s : b.Store) (n : String) (v : ℕ) (o : Option FunctionRecord)
      → IsValid s
      → IsValid (apply_change b w s n v o)
  unfolding apply_change
  apply_change-IsValid s n v none valid = delete_valid s n v valid
  apply_change-IsValid s n v (some x) valid = put_valid s n v x valid

  lookup-apply_change :
      WritesGoThrough b m
      → (s : b.Store) (n : String) (v : ℕ) (o : Option FunctionRecord) (g : String) (u : ℕ)
      → IsValid s
      → lookup (apply_change b w s n v o) g u ≡ (if pair_beq (n, v) (g, u) then o else lookup s g u)
  unfolding apply_change
  lookup-apply_change t s n v none g u valid =
      lookup-delete s n g v u valid (t.delete_ok s n v valid)
  lookup-apply_change t s n v (some x) g u valid =
      lookup-put s n g v u x valid (t.put_ok s n v x valid)

  apply_incoming-step :
      (s : b.Store) (k : String) (blob : Bytes) (n : String) (v : ℕ) (o : Option FunctionRecord)
      (changes : Dict String Bytes)
      → read_item w (k, blob) ≡ some (n, v, o)
      → let a = apply_incoming b w s ((k, blob) ∷ changes) in
        let rest = apply_incoming b w (apply_change b w s n v o) changes in
        (a.store ≡ rest.store) × (a.finished ≡ rest.finished)
  unfolding apply_incoming
  apply_incoming-step s k blob n v o changes h = rw (h, apply_incoming) (refl, refl)

  -- On readable changes that name no key twice, over a backend whose writes go through, the
  -- follower goes through all of them, ends in a valid store, and holds the changed versions as the changes
  -- have them and the others as before.
  pub record Absorbs (s : b.Store) (changes : Dict String Bytes) : Type 0 where
    pub finished : (apply_incoming b w s changes).finished ≡ true
    pub valid : IsValid (apply_incoming b w s changes).store
    pub holds :
        (g : String) (u : ℕ)
        → lookup (apply_incoming b w s changes).store g u
          ≡ changed w (Dict.get changes (combined_key g (some u))) (lookup s g u)

  pub apply_incoming-Absorbs :
      WritesGoThrough b m
      → (s : b.Store) (changes : Dict String Bytes) → IsValid s
      → Distinct changes
      → All (IsReadable w) changes
      → Absorbs s changes
  unfolding apply_incoming Dict.get
  apply_incoming-Absorbs t s [] valid d h = record {
    finished = refl;
    valid = valid;
    holds = λ g u. refl;
  }
  apply_incoming-Absorbs t s ((k, blob) ∷ changes) valid d ((n, v, o, is_key, is_change), h) =
      let s' = apply_change b w s n v o in
      let rest : Absorbs s' changes =
        apply_incoming-Absorbs t s' changes (apply_change-IsValid s n v o valid) d.1 h in
      let is_item = read_item-readable w k blob n v o is_key is_change in
      let (same_store, same_end) = apply_incoming-step s k blob n v o changes is_item in
      record {
        finished = same_end ∙ rest.finished;
        valid = rw same_store rest.valid;
        holds = λ g u.
            rw
              (
                same_store,
                rest.holds g u,
                lookup-apply_change t s n v o g u valid,
                ← combined_key-beq n g v u,
                ← is_key,
              )
              (changed-first w changes k (combined_key g (some u)) blob o (lookup s g u) d.0
                is_change);
      }
