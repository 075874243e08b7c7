-- ===== src/Examples/Results.antt =====
-- The theorem about replicated results, at a concrete backend and codec.
use activex_endpoint.Prelude.{
  ℕ, ◌≡◌, refl, String, Bool, true, false, none, some, [], ◌∷◌, map, is_empty, All, if◌then◌else◌,
  ◌==◌, ltb, string_eq, arith,
}
use activex_endpoint.Prelude.Dict
use activex_endpoint.Prelude.Dict.{Dict}
use activex_endpoint.Prelude.Outcome.{ok}
use activex_endpoint.Text.Decimal.{NoColon}
use activex_endpoint.Functions.Params.{number, string, close, field}
use activex_endpoint.Consensus.StateMachine.{Bytes}
use activex_endpoint.Data.Results.{FunctionResult}
use activex_endpoint.Examples.Wire.{wire, wire-IsFaithful}
use activex_endpoint.Service.ResultSync.{
  ResultLib, Endpoint, handle_sync, handle_replicate, reverify, replicate,
}
use activex_endpoint.Service.ResultSync.Healing.{IsFaithful, IsHealed, reverify-Heals}

abbrev lib : ResultLib
lib = record {
  Store = Dict String FunctionResult;
  put = λ s j r. (Dict.put s j r, ok tt);
  get = λ s j. ok (Dict.get s j);
  sha256 = λ bs. if is_empty bs then "e3b0" else "9f86";
  wire = wire;
}

digest_full : (bs : Bytes) → (lib.sha256 bs == "") ≡ false
digest_full [] = refl
digest_full (x ∷ bs) = refl

lib-IsFaithful : IsFaithful lib
lib-IsFaithful = record {
  read_back = λ s j k r. ground (arith, Dict.get-put s j k r);
  json = wire-IsFaithful;
  full_digest = digest_full;
}

abbrev empty_endpoint : Endpoint lib
empty_endpoint = record { results = []; consistency = record { states = []; hashes = [] } }

abbrev sum : FunctionResult
sum = record {
  job_id = "job-1";
  succeeded = true;
  output = field "value" (number "42") (field "type" (string "json") close);
  refs = ("value", record { id = "s"; version = some 1; alias = none }) ∷ [];
  error = "";
  duration_ms = some "1.5";
  warnings = [];
}

-- The key's name has no colon.
plain : NoColon "s"
plain = ground arith

-- Peers that answer from the second attempt on.
abbrev attempts : String → ℕ → Bool
attempts uri n = ltb 0 n

reverify-Heals_example :
    let command = (replicate lib (attempts "leader") 3 1 "job-1" sum).0 in
    let after = (handle_sync lib attempts 3 1 ("b" ∷ "c" ∷ []) empty_endpoint command).0 in
    let pushes = reverify lib attempts 3 1 ("b" ∷ "c" ∷ []) after "job-1" in
    (map (λ push. push.0) pushes ≡ "b" ∷ "c" ∷ [])
    × All
        (λ push.
          IsHealed lib lib-IsFaithful "job-1" sum (handle_replicate lib empty_endpoint push.1))
        pushes
reverify-Heals_example =
    reverify-Heals lib lib-IsFaithful (attempts "leader") attempts 3 1 ("b" ∷ "c" ∷ [])
      empty_endpoint empty_endpoint "job-1" sum refl ((plain, tt), tt)
