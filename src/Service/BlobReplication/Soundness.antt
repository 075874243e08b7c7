-- ===== src/Service/BlobReplication/Soundness.antt =====
-- What a tick of blob_replication.py pushes, and how much.
use mathlib.Core.List.{Memᴰ}
use activex_endpoint.Prelude.{
  ℕ, ◌+◌, ◌<◌, ◌≡◌, refl, ◌⊎◌, inl, inr, String, Bool, true, false, not, some, List, [], ◌∷◌, All,
  arith, filter, length, is_empty, ==-refl, nat_eq, string_eq, Bool-cases, Option-cases,
}
use activex_endpoint.Prelude.Sets.{contains}
use activex_endpoint.Prelude.Outcome.{Result-cases}
use activex_endpoint.Storage.Backend.{StorageBackend}
use activex_endpoint.Data.Models.{DataRecord, DataStatus, BlobBackend, HashLib}
use activex_endpoint.Data.Registry.{DataRegistry, read_chunk}
use activex_endpoint.Data.Registry.Status.{status}
use activex_endpoint.Consensus.Elector.{ClusterMember}
use activex_endpoint.Service.BlobReplication.{
  PeerStatus, PeerMetadata, PushedChunk, Settings, Progress, byte_budget, is_spent, is_fresh,
  cached_peer_status, push_missing, serve_peer, serve_members, serve_records, start, run_tick,
}

-- The bytes of the pushed chunks.
unfoldable pub total : List PushedChunk → ℕ
total [] = 0
total (q ∷ qs) = length q.chunk + total qs

-- Before the last push, less than the budget was sent, if there is a limit.
abbrev pub IsWithin : Settings → List PushedChunk → Type 0
IsWithin s [] = Unit
IsWithin s (q ∷ qs) = (s.rate_limit ≡ 0) ⊎ (total qs < byte_budget s)

All-filter :
    (P : ℕ → Type 0) (q : ℕ → Bool) (xs : List ℕ)
    → ((i : ℕ) → contains xs i ≡ true → q i ≡ true → P i)
    → All P (filter q xs)
unfolding contains
All-filter P q [] h = tt
All-filter P q (x ∷ xs) h =
    let rest = All-filter P q xs (λ i there. h i (ground (arith, there))) in
    elim (Bool-cases (q x)) [
      | inl in_it ↦ rw in_it (h x (ground (arith, ==-refl x)) in_it, rest)
      | inr out ↦ rw out rest
    ]

-- The registries that asking one for statuses leads to.
pub data Looked (c : StorageBackend DataRecord) (b : BlobBackend) (h : HashLib)
    (r : DataRegistry c b h) : DataRegistry c b h → Type 0 where
  not_yet : Looked c b h r r
  asked :
      {q : DataRegistry c b h} (name : String) (version : ℕ)
      → Looked c b h r q
      → Looked c b h r (status c b h q name version).0

module _ (c : StorageBackend DataRecord) (b : BlobBackend) (h : HashLib) (s : Settings)
    (records : List DataRecord) (r : DataRegistry c b h) where
  -- The pushed chunk is of a record of the tick, whose kind is enabled and which the tick's registry
  -- found complete, and is one that the peer, incomplete itself, did not report.
  pub record IsWanted (rpc_uri name : String) (version chunk_index : ℕ) : Type 0 where
    pub data_record : DataRecord
    pub listed : Memᴰ data_record records
    pub named : data_record.name ≡ name
    pub versioned : data_record.version ≡ version
    pub enabled : contains s.enabled_kinds data_record.kind ≡ true
    pub registry : DataRegistry c b h
    pub reached : Looked c b h r registry
    pub leader_status : DataStatus
    pub reported : (status c b h registry name version).1 ≡ some leader_status
    pub complete_here : leader_status.complete ≡ true
    pub present_here : contains leader_status.present_chunk_indices chunk_index ≡ true
    pub reply : PeerMetadata
    pub answered : s.query rpc_uri name version ≡ some reply
    pub incomplete_there : reply.complete ≡ false
    pub missing_there : contains reply.present_chunk_indices chunk_index ≡ false

  pub record IsSound (p : Progress c b h) : Type 0 where
    pub looked : Looked c b h r p.registry
    pub counted : p.bytes_sent ≡ total p.pushes
    pub within : IsWithin s p.pushes
    pub wanted : All (λ q. IsWanted q.rpc_uri q.name q.version q.chunk_index) p.pushes

  push_missing-IsSound :
      (m : ClusterMember) (rec : DataRecord) (is : List ℕ) (p : Progress c b h)
      → IsSound p
      → All (IsWanted m.rpc_uri rec.name rec.version) is
      → IsSound (push_missing c b h s m rec is p)
  unfolding push_missing total
  push_missing-IsSound m rec [] p sound want = sound
  push_missing-IsSound m rec (i ∷ is) p sound want = elim (Bool-cases (is_spent s p.bytes_sent)) [
    | inl spent ↦ rw (spent, push_missing) sound
    | inr left ↦ elim (Result-cases (read_chunk c b h p.registry rec.name rec.version i)) [
      | inl (e, bad) ↦ rw (left, bad, push_missing) (push_missing-IsSound m rec is p sound want.1)
      | inr (chunk, good) ↦
          rw (left, good, push_missing)
            (push_missing-IsSound m rec is _
              (record {
                looked = sound.looked;
                counted = omega (arith, sound.counted);
                within = ground (arith, sound.counted);
                wanted = (want.0, sound.wanted);
              })
              want.1)
    ]
  ]

  serve_peer-IsSound :
      (rec : DataRecord) (present : List ℕ) (m : ClusterMember) (reply : PeerMetadata)
      (p : Progress c b h)
      → IsSound p
      → (reply.complete ≡ false
          → (i : ℕ) → contains present i ≡ true
          → contains reply.present_chunk_indices i ≡ false
          → IsWanted m.rpc_uri rec.name rec.version i)
      → IsSound (serve_peer c b h s rec present m reply p)
  unfolding serve_peer
  serve_peer-IsSound rec present m reply p sound want = elim (Bool-cases reply.complete) [
    | inl done ↦
        rw (done, serve_peer)
          (record {
            looked = sound.looked;
            counted = sound.counted;
            within = sound.within;
            wanted = sound.wanted;
          })
    | inr partial ↦
        let lacks : ℕ → Bool = λ i. not (contains reply.present_chunk_indices i) in
        rw (partial, serve_peer)
          (push_missing-IsSound m rec (filter lacks present) _
            (record {
              looked = sound.looked;
              counted = sound.counted;
              within = sound.within;
              wanted = sound.wanted;
            })
            (All-filter (IsWanted m.rpc_uri rec.name rec.version) lacks present
              (λ i here lack. want partial i here (ground (arith, lack)))))
  ]

  serve_members-IsSound :
      (rec : DataRecord) (present : List ℕ) (ms : List ClusterMember) (p : Progress c b h)
      → IsSound p
      → ((uri : String) (reply : PeerMetadata) (i : ℕ)
          → s.query uri rec.name rec.version ≡ some reply
          → reply.complete ≡ false
          → contains present i ≡ true
          → contains reply.present_chunk_indices i ≡ false
          → IsWanted uri rec.name rec.version i)
      → IsSound (serve_members c b h s rec present ms p)
  unfolding serve_members
  serve_members-IsSound rec present [] p sound want = sound
  serve_members-IsSound rec present (m ∷ ms) p sound want =
      let cached = cached_peer_status p.peer_status rec.name rec.version m.peer_id in
      elim (Bool-cases (is_fresh s cached)) [
        | inl fresh ↦ rw (fresh, serve_members) (serve_members-IsSound rec present ms p sound want)
        | inr stale ↦ elim (Option-cases (s.query m.rpc_uri rec.name rec.version)) [
          | inl silent ↦
              rw (stale, silent, serve_members) (serve_members-IsSound rec present ms p sound want)
          | inr (reply, answer) ↦
              rw (stale, answer, serve_members)
                (serve_members-IsSound rec present ms (serve_peer c b h s rec present m reply p)
                  (serve_peer-IsSound rec present m reply p sound
                    (λ partial i here lacks. want m.rpc_uri reply i answer partial here lacks))
                  want)
        ]
      ]

  serve_records-IsSound :
      (recs : List DataRecord) (p : Progress c b h)
      → ((x : DataRecord) → Memᴰ x recs → Memᴰ x records)
      → IsSound p
      → IsSound (serve_records c b h s recs p).0
  unfolding serve_records
  serve_records-IsSound [] p within sound = sound
  serve_records-IsSound (rec ∷ recs) p within sound =
      let found = (status c b h p.registry rec.name rec.version).1 in
      let p' : Progress c b h = record p {
        registry = (status c b h p.registry rec.name rec.version).0;
      } in
      let tail : (x : DataRecord) → Memᴰ x recs → Memᴰ x records = λ x m. within x (Memᴰ.tail m) in
      let sound' : IsSound p' = record {
        looked = asked rec.name rec.version sound.looked;
        counted = sound.counted;
        within = sound.within;
        wanted = sound.wanted;
      } in
      elim (Bool-cases (contains s.enabled_kinds rec.kind)) [
        | inr other ↦ rw (other, serve_records) (serve_records-IsSound recs p tail sound)
        | inl enabled ↦ elim (Option-cases found) [
          | inl broken ↦ rw (enabled, broken, serve_records) sound'
          | inr (st, reported) ↦ elim (Bool-cases st.complete) [
            | inr partial ↦
                rw (enabled, reported, partial, serve_records)
                  (serve_records-IsSound recs p' tail sound')
            | inl whole ↦
                rw (enabled, reported, whole, serve_records)
                  (serve_records-IsSound recs _ tail (
                    serve_members-IsSound rec st.present_chunk_indices s.members p' sound'
                      (λ uri reply i answer incomplete here lacks. record {
                        data_record = rec;
                        listed = within rec (Memᴰ.head refl);
                        named = refl;
                        versioned = refl;
                        enabled = enabled;
                        registry = p.registry;
                        reached = sound.looked;
                        leader_status = st;
                        reported = reported;
                        complete_here = whole;
                        present_here = here;
                        reply = reply;
                        answered = answer;
                        incomplete_there = incomplete;
                        missing_there = lacks;
                      })))
          ]
        ]
      ]

-- A tick pushes only chunks of records that it was given, that are of an enabled kind and that the
-- tick's registry found complete, to peers that answered that they are incomplete, and only chunks
-- that they did not report. It counts the bytes that it pushed, and where there is a rate limit,
-- everything before the last push was less than the budget of the tick. A node that does not lead
-- pushes nothing.
pub run_tick-IsSound :
    (c : StorageBackend DataRecord) (b : BlobBackend) (h : HashLib) (s : Settings)
    (is_leader : Bool) (records : List DataRecord) (r : DataRegistry c b h) (d : PeerStatus)
    → let p = (run_tick c b h s is_leader records r d).0 in
      IsSound c b h s records r p × ((is_leader ≡ true) ⊎ (p.pushes ≡ []))
unfolding run_tick total
run_tick-IsSound c b h s false records r d =
    (record { looked = not_yet; counted = refl; within = tt; wanted = tt }, inr refl)
run_tick-IsSound c b h s true records r d =
    let sound : IsSound c b h s records r (start c b h r d) = record {
      looked = not_yet;
      counted = refl;
      within = tt;
      wanted = tt;
    } in
    elim (Bool-cases (is_empty s.members)) [
      | inl alone ↦ rw (alone, run_tick) (sound, inl refl)
      | inr peers ↦
          rw (peers, run_tick)
            (
              serve_records-IsSound c b h s records r records (start c b h r d) (λ x m. m) sound,
              inl refl,
            )
    ]
