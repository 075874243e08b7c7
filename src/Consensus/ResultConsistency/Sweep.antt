-- ===== src/Consensus/ResultConsistency/Sweep.antt =====
-- The manual pass of the sweeper of result_consistency.py.
use native.Mathlib.Nat.{mod-lt, mod-eq_of_lt, mod-add-mod, add-mod-mod, add-mod_right, div-add-mod}
use activex_endpoint.Prelude.{
  ℕ, zero, suc, ◌+◌, ◌-◌, ◌*◌, ◌/◌, ◌%◌, ◌≤◌, ◌<◌, max, min, String, ◌≡◌, ◌∙◌, sym, ap, refl, true,
  false, ◌||◌, List, [], ◌∷◌, ◌++◌, map, length, length-map, range_from, is_empty, arith, string_eq,
  Bool-cases, inl, inr, ltb, leb, ltb→lt,
}
use activex_endpoint.Prelude.Sets.{contains, contains-append}
use activex_endpoint.Consensus.ResultConsistency.{
  ResultConsistencySweeper, ResultConsistencyStore, all_job_ids, item_or, dedupe, batch, run_step,
  run_steps, run_manual_pass,
}

contains-dedupe :
    (seen xs : List String) (a : String)
    → (contains seen a || contains (dedupe seen xs) a) ≡ (contains seen a || contains xs a)
unfolding dedupe contains
contains-dedupe seen [] a = refl
contains-dedupe seen (x ∷ xs) a =
    ground
      (arith, contains-dedupe (x ∷ seen) xs a, contains-dedupe seen xs a, string_eq.beq_iff x a)

index_of :
    (xs : List String) (a : String)
    → contains xs a ≡ true
    → (p : ℕ) × (p < length xs) × (item_or xs p "" ≡ a)
unfolding contains item_or
index_of [] a h = absurd (ground arith)
index_of (x ∷ xs) a h = elim (Bool-cases (string_eq.beq x a)) [
  | inl same ↦ (0, omega arith, (string_eq.beq_iff x a).0 same)
  | inr apart ↦ let (p, lt, e) = index_of xs a (ground arith) in (suc p, omega arith, e)
]

contains-map_range :
    (f : ℕ → String) (i n j : ℕ)
    → i ≤ j
    → j < i + n
    → contains (map f (range_from i n)) (f j) ≡ true
unfolding contains
contains-map_range f i zero j h k = absurd (omega arith)
contains-map_range f i (suc n) j h k =
    ground (arith, string_eq.beq_iff (f i) (f j), contains-map_range f (i + 1) n j)

length-range_from : (i n : ℕ) → length (range_from i n) ≡ n
length-range_from i zero = refl
length-range_from i (suc n) = ap suc (length-range_from (i + 1) n)

advance : (n b c j : ℕ) → b ≤ j → ((c % n + b) % n + (j - b)) % n ≡ (c + j) % n
advance n b c j le =
    mod-add-mod (c % n + b) n (j - b) ∙ (ap (λ (x : ℕ). x % n) (omega arith) ∙ mod-add-mod c n j)

offset_to : (n c p : ℕ) → p < n → (c + (p + n - c % n) % n) % n ≡ p
offset_to n c p lt =
    let small : c % n < n = mod-lt c (omega arith) in
    sym (mod-add-mod c n _)
    ∙ (add-mod-mod (c % n) (p + n - c % n) n
        ∙ (ap (λ (x : ℕ). x % n) (let e : c % n + (p + n - c % n) ≡ p + n = omega arith in e)
            ∙ (add-mod_right p n ∙ mod-eq_of_lt lt)))

at_least_once : (k n : ℕ) → 1 ≤ k → n ≤ k * n
at_least_once k n h = grind arith

-- `n / c + 1` batches of at most `c` reach `n` items.
enough_steps : (n c : ℕ) → 0 < c → n ≤ max 1 (n / c + 1) * min c n
enough_steps n c pos = elim (Bool-cases (leb n c)) [
  | inl small ↦
      let same : min c n ≡ n = ground arith in
      let k : 1 ≤ max 1 (n / c + 1) = omega arith in rw same (at_least_once (max 1 (n / c + 1)) n k)
  | inr large ↦
      let same : min c n ≡ c = ground arith in
      let k : max 1 (n / c + 1) ≡ n / c + 1 = omega arith in
      rw (same, k) (omega (arith, div-add-mod n c, mod-lt n pos))
]

-- The id `j` places after the cursor, round and round.
abbrev at_offset : List String → ℕ → ℕ → String
at_offset ids cursor j = item_or ids ((cursor + j) % length ids) ""

batch-contains :
    (chunk cursor : ℕ) (ids : List String) (j : ℕ)
    → j < min chunk (length ids)
    → contains (batch chunk cursor ids) (at_offset ids cursor j) ≡ true
unfolding batch
batch-contains chunk cursor ids j lt = rw (← mod-add-mod cursor (length ids) j) (
    contains-map_range (λ i. item_or ids ((cursor % length ids + i) % length ids) "") 0
      (min chunk (length ids)) j (omega arith) (omega arith))

length-batch :
    (chunk cursor : ℕ) (ids : List String)
    → length (batch chunk cursor ids) ≡ min chunk (length ids)
unfolding batch
length-batch chunk cursor ids =
    length-map _ (range_from 0 (min chunk (length ids))) ∙ length-range_from 0 _

not_empty : (ids : List String) → 0 < length ids → is_empty ids ≡ false
not_empty [] h = absurd (omega arith)
not_empty (x ∷ xs) h = refl

module _ (store : ResultConsistencyStore) (pos : 0 < length (all_job_ids store)) where
  abbrev n_ids : ℕ
  n_ids = length (all_job_ids store)

  step_contains :
      (s : ResultConsistencySweeper) (a : String)
      → contains (batch s.chunk_size s.cursor (all_job_ids store)) a ≡ true
      → contains (run_step s store).1 a ≡ true
  unfolding run_step
  step_contains s a h =
      let next = batch s.chunk_size s.cursor (all_job_ids store) in
      rw (not_empty (all_job_ids store) pos) (
        ground (
          arith,
          contains-dedupe [] (s.priority ++ next) a,
          contains-append s.priority next a,
          nothing,
        ))
    where
      nothing : contains [] a ≡ false
      nothing = unfold contains in refl

  step_cursor :
      (s : ResultConsistencySweeper)
      → ((run_step s store).0.cursor ≡ (s.cursor % n_ids + min s.chunk_size n_ids) % n_ids)
        × ((run_step s store).0.chunk_size ≡ s.chunk_size)
  unfolding run_step
  step_cursor s =
      rw (not_empty (all_job_ids store) pos, length-batch s.chunk_size s.cursor (all_job_ids store))
        (refl, refl)

  run_steps-covers :
      (k : ℕ) (s : ResultConsistencySweeper) (j : ℕ)
      → j < k * min s.chunk_size n_ids
      → contains (run_steps k s store).1 (at_offset (all_job_ids store) s.cursor j) ≡ true
  unfolding run_steps
  run_steps-covers zero s j lt = absurd (omega arith)
  run_steps-covers (suc k) s j lt =
      let b = min s.chunk_size n_ids in
      let s' = (run_step s store).0 in
      let ids = all_job_ids store in
      let a = at_offset ids s.cursor j in
      elim (Bool-cases (ltb j b)) [
        | inl now ↦
            let here =
              step_contains s a (batch-contains s.chunk_size s.cursor ids j (ltb→lt j b now)) in
            ground (arith, contains-append (run_step s store).1 (run_steps k s' store).1 a, here)
        | inr later ↦
            let le : b ≤ j = ground arith in
            let room : j - b < k * min s'.chunk_size n_ids = rw ((step_cursor s).1) (omega arith) in
            let same : (s'.cursor + (j - b)) % n_ids ≡ (s.cursor + j) % n_ids =
              rw ((step_cursor s).0) (advance n_ids b s.cursor j le) in
            let there : contains (run_steps k s' store).1 a ≡ true =
              ap (λ (p : ℕ). contains (run_steps k s' store).1 (item_or ids p "")) (sym same)
              ∙ run_steps-covers k s' (j - b) room in
            ground (arith, contains-append (run_step s store).1 (run_steps k s' store).1 a, there)
      ]

-- With a store that stands still and a positive chunk size, a manual pass verifies every known job id again, wherever the
-- cursor stood and whatever was in the priority list, and leaves nothing syncing.
pub run_manual_pass_covers :
    (s : ResultConsistencySweeper) (store : ResultConsistencyStore) (a : String)
    → 0 < s.chunk_size
    → contains (all_job_ids store) a ≡ true
    → (contains (run_manual_pass s store).1 a ≡ true)
      × ((run_manual_pass s store).0.syncing ≡ false)
unfolding run_manual_pass
run_manual_pass_covers s store a chunk h =
    let ids = all_job_ids store in
    let (p, lt, e) = index_of ids a h in
    let n = length ids in
    let j = (p + n - s.cursor % n) % n in
    let j-lt : j < n = mod-lt _ (omega arith) in
    let steps = max 1 (n / s.chunk_size + 1) in
    let reached : j < steps * min s.chunk_size n =
      omega (arith, enough_steps n s.chunk_size chunk) in
    let there = run_steps-covers store (omega arith) steps s j reached in
    (
      sym (
            ap (contains (run_steps steps s store).1)
              (ap (λ (q : ℕ). item_or ids q "") (offset_to n s.cursor p lt) ∙ e))
          ∙ there,
      refl,
    )
