-- ===== src/Service/ResultSync/Healing.antt =====
-- What the handlers of job_result_sync.py do for a follower's copy of a result.
use activex_endpoint.Prelude.{
  ℕ, String, Bool, false, ◌≡◌, refl, sym, ap, ◌∙◌, subst, some, List, [], ◌∷◌, map, All,
  if◌then◌else◌, ◌==◌, ==-refl, arith, string_eq,
}
use activex_endpoint.Prelude.Dict.{get-put}
use activex_endpoint.Prelude.Outcome.{ok}
use activex_endpoint.Consensus.ResultConsistency.{
  ResultConsistencyStore, synced, mark_synced, get_hash, get_state,
}
use activex_endpoint.Consensus.StateMachine.{Bytes}
use activex_endpoint.Consensus.Sync
use activex_endpoint.Data.Results.{FunctionResult, encode_function_result}
use activex_endpoint.Data.Results.RoundTrip.{ArePlain, decode-encode_function_result}
use activex_endpoint.Service.ResultSync.{
  ResultLib, Command, Reply, accepted, hash_or, Endpoint, fanout_result_to_peers, store_copy,
  receive, handle_replicate, handle_sync, reverify, replicate,
}

-- The backend reads back what it wrote, and `json` what it dumped, and no digest is empty.
pub record IsFaithful (l : ResultLib) : Type 0 where
  pub read_back :
      (s : l.Store) (j k : String) (r : FunctionResult)
      → l.get (l.put s j r).0 k ≡ (if j == k then ok (some r) else l.get s k)
  pub json : Sync.IsFaithful l.wire
  pub full_digest : (bs : Bytes) → (l.sha256 bs == "") ≡ false

hash_or-same : (h : String) → hash_or (some h) h ≡ h
hash_or-same h = ground arith

-- Every pushed command is the one for the result.
All-fanout :
    (P : Command → Type 0) (attempts : String → ℕ → Bool) (m b : ℕ) (j : String) (payload : Bytes)
    (h : String) (uris : List String)
    → P (record { job_id = some j; hash = some h; payload = payload })
    → All (λ push. P push.1) (fanout_result_to_peers attempts m b j payload h uris)
unfolding fanout_result_to_peers
All-fanout P attempts m b j payload h [] p = tt
All-fanout P attempts m b j payload h (uri ∷ uris) p =
    (p, All-fanout P attempts m b j payload h uris p)

uris-fanout :
    (attempts : String → ℕ → Bool) (m b : ℕ) (j : String) (payload : Bytes) (h : String)
    (uris : List String)
    → map (λ push. push.0) (fanout_result_to_peers attempts m b j payload h uris) ≡ uris
unfolding fanout_result_to_peers
uris-fanout attempts m b j payload h [] = refl
uris-fanout attempts m b j payload h (uri ∷ uris) =
    ap (λ rest. uri ∷ rest) (uris-fanout attempts m b j payload h uris)

module _ (l : ResultLib) (t : IsFaithful l) where
  abbrev pub holding : Endpoint l → String → FunctionResult → Endpoint l
  holding e j r = record {
    results = (l.put e.results j r).0;
    consistency = mark_synced e.consistency j (l.sha256 (encode_function_result l.wire r));
  }

  abbrev pub command_for : String → FunctionResult → Command
  command_for j r = record {
    job_id = some j;
    hash = some (l.sha256 (encode_function_result l.wire r));
    payload = encode_function_result l.wire r;
  }

  handle_replicate-command :
      (e : Endpoint l) (j : String) (r : FunctionResult)
      → (j == "") ≡ false
      → ArePlain r.refs
      → handle_replicate l e (command_for j r) ≡ (holding e j r, accepted)
  unfolding handle_replicate receive store_copy
  handle_replicate-command e j r named plain =
      rw
        (
          named,
          t.full_digest (encode_function_result l.wire r),
          ==-refl (l.sha256 (encode_function_result l.wire r)),
          decode-encode_function_result l.wire r t.json plain,
        )
        refl

  handle_sync-command :
      (attempts : String → ℕ → Bool) (m b : ℕ) (peers : List String) (e : Endpoint l) (j : String)
      (r : FunctionResult)
      → (j == "") ≡ false
      → ArePlain r.refs
      → (handle_sync l attempts m b peers e (command_for j r)).0 ≡ holding e j r
  unfolding handle_sync receive store_copy
  handle_sync-command attempts m b peers e j r named plain =
      rw
        (
          named,
          t.full_digest (encode_function_result l.wire r),
          ==-refl (l.sha256 (encode_function_result l.wire r)),
          decode-encode_function_result l.wire r t.json plain,
        )
        refl

  marked_hash :
      (c : ResultConsistencyStore) (j h : String) → hash_or (get_hash (mark_synced c j h) j) h ≡ h
  unfolding get_hash mark_synced
  marked_hash c j h =
      let stored : get_hash (mark_synced c j h) j ≡ some h =
        rw (get-put c.hashes j j h, ==-refl j) refl in
      ap (λ o. hash_or o h) stored ∙ hash_or-same h

  reverify-holding :
      (attempts : String → ℕ → Bool) (m b : ℕ) (peers : List String) (e : Endpoint l) (j : String)
      (r : FunctionResult)
      → reverify l attempts m b peers (holding e j r) j
        ≡ fanout_result_to_peers attempts m b j
            (encode_function_result l.wire r)
            (l.sha256 (encode_function_result l.wire r))
            peers
  unfolding reverify
  reverify-holding attempts m b peers e j r =
      rw
        (
          t.read_back e.results j j r,
          ==-refl j,
          marked_hash e.consistency j (l.sha256 (encode_function_result l.wire r)),
        )
        refl

  -- The endpoint took the command, and its copy is the result and marked as synced.
  pub record IsHealed (j : String) (r : FunctionResult) (x : Endpoint l × Reply) : Type 0 where
    pub took : x.1 ≡ accepted
    pub holds : l.get x.0.results j ≡ ok (some r)
    pub is_synced : get_state x.0.consistency j ≡ some synced

  command-Heals :
      (e : Endpoint l) (j : String) (r : FunctionResult)
      → (j == "") ≡ false
      → ArePlain r.refs
      → IsHealed j r (handle_replicate l e (command_for j r))
  unfolding get_state mark_synced
  command-Heals e j r named plain =
      subst (IsHealed j r) (sym (handle_replicate-command e j r named plain)) (record {
        took = refl;
        holds = rw (t.read_back e.results j j r, ==-refl j) refl;
        is_synced = rw (get-put e.consistency.states j j synced, ==-refl j) refl;
      })

  -- Once an executor's result was synced to the leader, a reverification pushes it to the addresses of
  -- the peers, to each once, and each push that arrives is taken and leaves its receiver with the
  -- result, marked as synced, whatever copy it had. The job id is not empty, the references of the
  -- result come back from their strings, the results backend reads back what it wrote, `json` what it
  -- dumped, and no digest is empty.
  pub reverify-Heals :
      (attempt : ℕ → Bool) (attempts : String → ℕ → Bool) (m b : ℕ) (peers : List String)
      (leader follower : Endpoint l) (j : String) (r : FunctionResult)
      → (j == "") ≡ false
      → ArePlain r.refs
      → let command = (replicate l attempt m b j r).0 in
        let after = (handle_sync l attempts m b peers leader command).0 in
        let pushes = reverify l attempts m b peers after j in
        (map (λ push. push.0) pushes ≡ peers)
        × All (λ push. IsHealed j r (handle_replicate l follower push.1)) pushes
  unfolding replicate
  reverify-Heals attempt attempts m b peers leader follower j r named plain =
      let payload = encode_function_result l.wire r in
      rw
        (
          handle_sync-command attempts m b peers leader j r named plain,
          reverify-holding attempts m b peers leader j r,
        )
        (
          uris-fanout attempts m b j payload (l.sha256 payload) peers,
          All-fanout (λ c. IsHealed j r (handle_replicate l follower c)) attempts m b j payload
              (l.sha256 payload) peers (command-Heals follower j r named plain),
        )
