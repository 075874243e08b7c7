-- ===== src/Service/BlobReplication.antt =====
-- axo_endpoint/service/blob_replication.py. Peers' answers are the parameter `query`, which carries
-- the measured latency with it. The one clock of a tick is `now`. Chunks that were pushed stand in
-- the log with the last one first.
pub mod Soundness
use activex_endpoint.Prelude.{
  ℕ, ◌+◌, ◌*◌, String, Bool, true, false, not, ◌&&◌, Option, none, some, List, [], ◌∷◌, filter,
  length, is_empty, ltb, leb, if◌then◌else◌, string_eq, nat_eq, pair_eq, Eq,
}
use activex_endpoint.Prelude.Dict
use activex_endpoint.Prelude.Dict.{Dict}
use activex_endpoint.Prelude.Sets.{contains}
use activex_endpoint.Prelude.Outcome.{ok, err}
use activex_endpoint.Storage.Backend.{StorageBackend}
use activex_endpoint.Data.Models.{Bytes, DataRecord, DataStatus, BlobBackend, HashLib}
use activex_endpoint.Data.Registry.{DataRegistry, read_chunk, upload_eq}
use activex_endpoint.Data.Registry.Status.{status}
use activex_endpoint.Consensus.Elector.{ClusterMember}

pub record PeerSyncInfo : Type 0 where
  pub complete : Bool
  pub present_chunks : ℕ
  pub total_chunks : ℕ
  pub latency_ms : ℕ
  pub last_synced_at : ℕ

abbrev pub PeerStatus : Type 0
PeerStatus = Dict (String × ℕ) (Dict String PeerSyncInfo)

abbrev or_empty : Option (Dict String PeerSyncInfo) → Dict String PeerSyncInfo
or_empty none = []
or_empty (some d) = d

unfoldable pub peer_status_for : PeerStatus → String → ℕ → Dict String PeerSyncInfo
peer_status_for d name version = or_empty (Dict.get ⦃e = upload_eq⦄ d (name, version))

unfoldable pub cached_peer_status : PeerStatus → String → ℕ → String → Option PeerSyncInfo
unfolding peer_status_for
cached_peer_status d name version peer_id = Dict.get (peer_status_for d name version) peer_id

unfoldable pub record_peer_status : PeerStatus → String → ℕ → String → PeerSyncInfo → PeerStatus
unfolding peer_status_for
record_peer_status d name version peer_id info =
    Dict.put ⦃e = upload_eq⦄ d (name, version)
      (Dict.put (peer_status_for d name version) peer_id info)

-- The metadata of a DATA_STATUS reply; the indices are the set that the code makes of them.
pub record PeerMetadata : Type 0 where
  pub present_chunk_indices : List ℕ
  pub complete : Bool
  pub latency_ms : ℕ

pub record PushedChunk : Type 0 where
  pub rpc_uri : String
  pub name : String
  pub version : ℕ
  pub chunk_index : ℕ
  pub chunk : Bytes

-- `BlobReplicator`, as far as a tick reads it, with what the tick is called with.
pub record Settings : Type 0 where
  pub rate_limit : ℕ
  pub enabled_kinds : List String
  pub recheck_seconds : ℕ
  pub members : List ClusterMember
  pub query : String → String → ℕ → Option PeerMetadata
  pub elapsed_seconds : ℕ
  pub now : ℕ

abbrev pub byte_budget : Settings → ℕ
byte_budget s = s.rate_limit * s.elapsed_seconds

-- `self._rate_limit_bytes_per_second > 0 and bytes_sent >= byte_budget`
abbrev pub is_spent : Settings → ℕ → Bool
is_spent s bytes_sent = ltb 0 s.rate_limit && leb (byte_budget s) bytes_sent

-- Known complete and verified recently.
unfoldable pub is_fresh : Settings → Option PeerSyncInfo → Bool
is_fresh s none = false
is_fresh s (some cached) = cached.complete && ltb s.now (cached.last_synced_at + s.recheck_seconds)

module _ (c : StorageBackend DataRecord) (b : BlobBackend) (h : HashLib) where
  pub record Progress : Type 0 where
    pub registry : DataRegistry c b h
    pub peer_status : PeerStatus
    pub bytes_sent : ℕ
    pub pushes : List PushedChunk

  -- The loop over the missing chunks of one peer.
  unfoldable pub push_missing : Settings → ClusterMember → DataRecord → List ℕ → Progress → Progress
  push_missing s m rec [] p = p
  push_missing s m rec (i ∷ is) p = elim (is_spent s p.bytes_sent) [
    | true ↦ p
    | false ↦ elim (read_chunk c b h p.registry rec.name rec.version i) [
      | err e ↦ push_missing s m rec is p
      | ok chunk ↦ push_missing s m rec is (record p {
        bytes_sent = p.bytes_sent + length chunk;
        pushes =
            record {
              rpc_uri = m.rpc_uri;
              name = rec.name;
              version = rec.version;
              chunk_index = i;
              chunk = chunk;
            }
            ∷ p.pushes;
      })
    ]
  ]

  -- One peer that answered. The present indices of a status ascend, so the missing ones do.
  unfoldable pub serve_peer :
      Settings → DataRecord → List ℕ → ClusterMember → PeerMetadata → Progress → Progress
  unfolding push_missing record_peer_status
  serve_peer s rec leader_present m reply p =
      let told = record p {
        peer_status = record_peer_status p.peer_status rec.name rec.version m.peer_id (record {
          complete = reply.complete;
          present_chunks = length reply.present_chunk_indices;
          total_chunks = rec.total_chunks;
          latency_ms = reply.latency_ms;
          last_synced_at = s.now;
        });
      } in
      if reply.complete
      then told
      else push_missing s m rec
          (filter (λ i. not (contains reply.present_chunk_indices i)) leader_present) told

  unfoldable pub serve_members :
      Settings → DataRecord → List ℕ → List ClusterMember → Progress → Progress
  unfolding serve_peer is_fresh cached_peer_status
  serve_members s rec leader_present [] p = p
  serve_members s rec leader_present (m ∷ ms) p =
      elim (is_fresh s (cached_peer_status p.peer_status rec.name rec.version m.peer_id)) [
        | true ↦ serve_members s rec leader_present ms p
        | false ↦ elim (s.query m.rpc_uri rec.name rec.version) [
          | none ↦ serve_members s rec leader_present ms p
          | some reply ↦
              serve_members s rec leader_present ms (serve_peer s rec leader_present m reply p)
        ]
      ]

  -- The loop over the records, and whether it went through: a status can raise a KeyError.
  unfoldable pub serve_records : Settings → List DataRecord → Progress → Progress × Bool
  unfolding serve_members
  serve_records s [] p = (p, true)
  serve_records s (rec ∷ recs) p = elim (contains s.enabled_kinds rec.kind) [
    | false ↦ serve_records s recs p
    | true ↦
        let (r, found) = status c b h p.registry rec.name rec.version in
        let p' = record p { registry = r } in
        elim found [
          | none ↦ (p', false)
          | some leader_status ↦ elim leader_status.complete [
            | false ↦ serve_records s recs p'
            | true ↦
                serve_records s recs
                  (serve_members s rec leader_status.present_chunk_indices s.members p')
          ]
        ]
  ]

  abbrev pub start : DataRegistry c b h → PeerStatus → Progress
  start r peer_status = record {
    registry = r;
    peer_status = peer_status;
    bytes_sent = 0;
    pushes = [];
  }

  -- `run_tick`, on the records that the catalog lists.
  unfoldable pub run_tick :
      Settings → Bool → List DataRecord → DataRegistry c b h → PeerStatus → Progress × Bool
  unfolding serve_records
  run_tick s is_leader records r peer_status =
      let first = start r peer_status in
      if not is_leader
      then (first, true)
      else if is_empty s.members
      then (first, true)
      else serve_records s records first
