-- ===== src/Consensus/Sync/Wire/RoundTrip.antt =====
-- Changes and snapshots that are sent and received.
use activex_endpoint.Prelude.{String, ◌≡◌, refl, some, [], ◌∷◌, All, string_eq}
use activex_endpoint.Prelude.Dict.{Dict}
use activex_endpoint.Prelude.Outcome.{◌>>=◌}
use activex_endpoint.Text.Decimal.{to_version-decimal}
use activex_endpoint.Functions.Params.{Json, Fields, field_of}
use activex_endpoint.Functions.Codec.RoundTrip.{to_strings-string_items}
use activex_endpoint.Consensus.StateMachine.{Bytes, ClusterState}
use activex_endpoint.Consensus.Sync.{WireLib, IsFaithful}
use activex_endpoint.Consensus.Sync.Wire.{
  parsed, dumped, encode_state_changes, decode_changes, decode_state_changes, encode_cluster_state,
  decode_cluster_state,
}

module _ (w : WireLib) where
  -- Every blob is a document that was written out.
  abbrev pub AreDocuments : Dict String Bytes → Type 0
  AreDocuments = All (λ item. (v : Json) × (item.1 ≡ w.dumps v))

  module _ (f : IsFaithful w) where
    parsed-dumped :
        (d : Dict String Bytes)
        → AreDocuments d
        → (fs : Fields) × (parsed w d ≡ some fs) × (dumped w fs ≡ d)
    unfolding parsed dumped
    parsed-dumped [] h = (Fields.close, refl, refl)
    parsed-dumped ((k, blob) ∷ d) ((v, is_v), h) =
        let (fs, parses, same) = parsed-dumped d h in
        (Fields.field k v fs, rw (is_v, f.loads-dumps v, parses), rw (is_v, same))

    -- Changes whose blobs are written documents can be encoded, and are decoded as they were.
    pub decode_state_changes-encode_state_changes :
        (functions stored buckets : Dict String Bytes)
        → AreDocuments functions
        → AreDocuments stored
        → AreDocuments buckets
        → (encode_state_changes w functions stored buckets >>= decode_state_changes w)
          ≡ some (functions, stored, buckets)
    unfolding encode_state_changes decode_state_changes decode_changes field_of
    decode_state_changes-encode_state_changes functions stored buckets hf hd hb =
        let (f1, parses1, same1) = parsed-dumped functions hf in
        let (f2, parses2, same2) = parsed-dumped stored hd in
        let (f3, parses3, same3) = parsed-dumped buckets hb in
        rw (parses1, parses2, parses3)
          (rw (f.dumps-nonempty _, f.loads-dumps _, same1, same2, same3))

    -- A snapshot whose blobs are written documents can be encoded, and is decoded as it was.
    pub decode_cluster_state-encode_cluster_state :
        (s : ClusterState)
        → AreDocuments s.functions
        → AreDocuments s.stored
        → AreDocuments s.buckets
        → (encode_cluster_state w s >>= decode_cluster_state w) ≡ some s
    unfolding encode_cluster_state decode_cluster_state field_of
    decode_cluster_state-encode_cluster_state s hf hd hb =
        let (f1, parses1, same1) = parsed-dumped s.functions hf in
        let (f2, parses2, same2) = parsed-dumped s.stored hd in
        let (f3, parses3, same3) = parsed-dumped s.buckets hb in
        rw (parses1, parses2, parses3)
          (rw (
            f.loads-dumps _,
            to_version-decimal s.term,
            to_strings-string_items s.leader_ids,
            to_strings-string_items s.members,
            same1,
            same2,
            same3,
            to_version-decimal s.version,
          ))
