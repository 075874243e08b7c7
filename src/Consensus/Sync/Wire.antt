-- ===== src/Consensus/Sync/Wire.antt =====
-- The payloads of axo_endpoint/core/consensus/state_machine.py: the changes of a push, and the
-- snapshot of a pull. `none` stands for an exception.
pub mod RoundTrip
use activex_endpoint.Prelude.{
  ℕ, String, ◌≡◌, refl, Bool, true, false, Option, none, some, List, [], ◌∷◌, All, is_empty,
  string_eq, if◌then◌else◌,
}
use activex_endpoint.Prelude.Dict
use activex_endpoint.Prelude.Dict.{Dict}
use activex_endpoint.Prelude.Outcome.{◌>>=◌}
use activex_endpoint.Text.Decimal.{to_version-decimal}
use activex_endpoint.Functions.Params.{
  Json, string, array, object, Items, end, item, Fields, close, field, field_of,
}
use activex_endpoint.Functions.Codec.{
  to_nat, to_string_list, required, get_or, number_of, string_items,
}
use activex_endpoint.Functions.Codec.RoundTrip.{to_strings-string_items}
use activex_endpoint.Consensus.StateMachine.{Bytes, ClusterState}
use activex_endpoint.Consensus.Sync.{WireLib, IsFaithful}

module _ (w : WireLib) where
  -- `{key: json.loads(blob.decode("utf-8")) for key, blob in changes.items()}`
  unfoldable pub parsed : Dict String Bytes → Option Fields
  parsed [] = some close
  parsed ((k, blob) ∷ changes) = do v ← w.loads blob; fs ← parsed changes; some (field k v fs)

  -- `{key: json.dumps(v).encode("utf-8") for key, v in d.items()}`
  unfoldable pub dumped : Fields → Dict String Bytes
  dumped close = []
  dumped (field k v fs) = (k, w.dumps v) ∷ dumped fs

  -- `.items()` of a value: an AttributeError unless it is an object.
  abbrev pub to_changes : Json → Option (Dict String Bytes)
  to_changes (object fs) = some (dumped fs)
  to_changes v = none

  abbrev pub to_object : Option Json → Option Fields
  to_object (some (object fs)) = some fs
  to_object v = none

  unfoldable pub encode_state_changes :
      Dict String Bytes → Dict String Bytes → Dict String Bytes → Option Bytes
  unfolding parsed
  encode_state_changes functions stored buckets = do
    f ← parsed functions
    d ← parsed stored
    b ← parsed buckets
    some (
        w.dumps (
          object (
            field "functions" (object f)
              (field "data" (object d) (field "buckets" (object b) close)))))

  abbrev pub Changes : Type 0
  Changes = Dict String Bytes × Dict String Bytes × Dict String Bytes

  -- The payload of a push that is not empty.
  unfoldable pub decode_changes : Option Fields → Option Changes
  unfolding dumped field_of
  decode_changes o = do
    d ← o
    functions ← get_or to_changes d "functions" []
    stored ← get_or to_changes d "data" []
    buckets ← get_or to_changes d "buckets" []
    some (functions, stored, buckets)

  unfoldable pub decode_state_changes : Bytes → Option Changes
  unfolding decode_changes
  decode_state_changes payload =
      if is_empty payload then some ([], [], []) else decode_changes (to_object (w.loads payload))

  unfoldable pub encode_cluster_state : ClusterState → Option Bytes
  unfolding parsed
  encode_cluster_state s = do
    f ← parsed s.functions
    d ← parsed s.stored
    b ← parsed s.buckets
    some (
        w.dumps (
          object (
            field "term" (number_of s.term) (
              field "leader_ids" (array (string_items s.leader_ids)) (
                field "members" (array (string_items s.members)) (
                  field "functions" (object f) (
                    field "data" (object d) (
                      field "buckets" (object b)
                        (field "version" (number_of s.version) close)))))))))

  unfoldable pub decode_cluster_state : Bytes → Option ClusterState
  unfolding dumped field_of
  decode_cluster_state payload = do
    d ← to_object (w.loads payload)
    term ← required to_nat d "term"
    leader_ids ← required to_string_list d "leader_ids"
    members ← required to_string_list d "members"
    functions ← required to_changes d "functions"
    stored ← get_or to_changes d "data" []
    buckets ← get_or to_changes d "buckets" []
    version ← required to_nat d "version"
    some (record {
      term = term;
      leader_ids = leader_ids;
      members = members;
      functions = functions;
      stored = stored;
      buckets = buckets;
      version = version;
    })
