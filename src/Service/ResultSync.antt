-- ===== src/Service/ResultSync.antt =====
-- axo_endpoint/service/handlers/job_result_sync.py. The results backend, the digest and `json` are
-- parameters, and which of a peer's attempts succeed is an argument. An encoding that raises
-- is not modelled.
pub mod Healing
use activex_endpoint.Prelude.{
  ℕ, String, Bool, true, false, not, ◌≡◌, Option, none, some, List, [], ◌∷◌, if◌then◌else◌, ◌==◌,
  string_eq,
}
use activex_endpoint.Prelude.Outcome.{Result, ok, err}
use activex_endpoint.Consensus.StateMachine.{Bytes}
use activex_endpoint.Consensus.Sync.{WireLib}
use activex_endpoint.Data.Results.{FunctionResult, encode_function_result, decode_function_result}
use activex_endpoint.Consensus.ResultConsistency.{
  ResultConsistencyStore, mark_synced, mark_inconsistent, get_hash, push_with_retry,
}

-- `self._results` under `StorageKey(id=job_id)`, `hashlib.sha256(…).hexdigest()`, and the `json`
-- module of the codec.
pub record ResultLib : Type 1 where
  pub Store : Type 0
  pub put : Store → String → FunctionResult → Store × Result String (Unit {0})
  pub get : Store → String → Result String (Option FunctionResult)
  pub sha256 : Bytes → String
  pub wire : WireLib

-- `Command`: the fields of its envelope that may be missing, and its payload.
pub record Command : Type 0 where
  pub job_id : Option String
  pub hash : Option String
  pub payload : Bytes

pub data Reply : Type 0 where
  accepted missing_field hash_mismatch raised : Reply

-- A field that is there and not empty.
abbrev pub given : Option String → Option String
given none = none
given (some s) = if s == "" then none else some s

-- `get_hash(job_id) or sha256(payload)`
abbrev pub hash_or : Option String → String → String
hash_or stored computed = elim (given stored) [ none ↦ computed | some h ↦ h ]

-- The commands that were pushed to peers, with their outcomes.
abbrev pub Pushes : Type 0
Pushes = List (String × Command × Bool)

unfoldable pub fanout_result_to_peers :
    (String → ℕ → Bool) → ℕ → ℕ → String → Bytes → String → List String → Pushes
fanout_result_to_peers attempts max_retries backoff job_id payload result_hash [] = []
fanout_result_to_peers attempts max_retries backoff job_id payload result_hash (uri ∷ uris) =
    let command : Command = record {
      job_id = some job_id;
      hash = some result_hash;
      payload = payload;
    } in
    (uri, command, (push_with_retry (attempts uri) max_retries backoff).0)
    ∷ fanout_result_to_peers attempts max_retries backoff job_id payload result_hash uris

module _ (l : ResultLib) where
  pub record Endpoint : Type 0 where
    pub results : l.Store
    pub consistency : ResultConsistencyStore

  -- The copy is stored and marked; the outcome of the put is not looked at.
  unfoldable pub store_copy : Endpoint → String → String → Option FunctionResult → Endpoint × Reply
  store_copy e job_id actual_hash none = (e, raised)
  store_copy e job_id actual_hash (some result) = (
    record {
      results = (l.put e.results job_id result).0;
      consistency = mark_synced e.consistency job_id actual_hash;
    },
    accepted,
  )

  unfoldable pub receive :
      Endpoint → (Endpoint → Endpoint) → String → String → Bytes → Endpoint × Reply
  unfolding store_copy
  receive e on_mismatch job_id expected_hash payload =
      let actual_hash = l.sha256 payload in
      if actual_hash == expected_hash
      then store_copy e job_id actual_hash (decode_function_result l.wire payload)
      else (on_mismatch e, hash_mismatch)

  abbrev checked :
      Endpoint
      → (String → Endpoint → Endpoint)
      → Bytes
      → Option String
      → Option String
      → Endpoint × Reply
  checked e on_mismatch payload (some job_id) (some expected_hash) =
      receive e (on_mismatch job_id) job_id expected_hash payload
  checked e on_mismatch payload _ _ = (e, missing_field)

  -- `JobResultReplicateHandler.handle`
  unfoldable pub handle_replicate : Endpoint → Command → Endpoint × Reply
  unfolding receive
  handle_replicate e command =
      checked e (λ job_id x. record x { consistency = mark_inconsistent x.consistency job_id })
        command.payload (given command.job_id) (given command.hash)

  abbrev after_sync :
      (String → ℕ → Bool)
      → ℕ
      → ℕ
      → List String
      → Command
      → Option String
      → Endpoint × Reply
      → Endpoint × Reply × Pushes
  after_sync attempts max_retries backoff peers command (some job_id) (e, accepted) = (
    e,
    accepted,
    fanout_result_to_peers attempts max_retries backoff job_id command.payload
        (l.sha256 command.payload) peers,
  )
  after_sync attempts max_retries backoff peers command _ (e, reply) = (e, reply, [])

  -- `JobResultSyncHandler.handle`
  unfoldable pub handle_sync :
      (String → ℕ → Bool) → ℕ → ℕ → List String → Endpoint → Command → Endpoint × Reply × Pushes
  unfolding receive fanout_result_to_peers
  handle_sync attempts max_retries backoff peers e command =
      after_sync attempts max_retries backoff peers command (given command.job_id)
        (checked e (λ job_id x. x) command.payload (given command.job_id) (given command.hash))

  abbrev pushes_of :
      (String → ℕ → Bool)
      → ℕ
      → ℕ
      → List String
      → ResultConsistencyStore
      → String
      → Result String (Option FunctionResult)
      → Pushes
  pushes_of attempts max_retries backoff peers consistency job_id (ok (some result)) =
      let payload = encode_function_result l.wire result in
      fanout_result_to_peers attempts max_retries backoff job_id payload
        (hash_or (get_hash consistency job_id) (l.sha256 payload)) peers
  pushes_of attempts max_retries backoff peers consistency job_id _ = []

  -- `make_reverify_fn`
  unfoldable pub reverify : (String → ℕ → Bool) → ℕ → ℕ → List String → Endpoint → String → Pushes
  unfolding get_hash fanout_result_to_peers
  reverify attempts max_retries backoff peers e job_id =
      pushes_of attempts max_retries backoff peers e.consistency job_id (l.get e.results job_id)

  -- The command of `make_replicate_fn`, and whether an attempt to hand it over succeeded.
  unfoldable pub replicate : (ℕ → Bool) → ℕ → ℕ → String → FunctionResult → Command × Bool
  replicate attempt max_retries backoff job_id result =
      let payload = encode_function_result l.wire result in
      (
        record { job_id = some job_id; hash = some (l.sha256 payload); payload = payload },
        (push_with_retry attempt max_retries backoff).0,
      )
