-- ===== src/Lib.antt =====
-- activex-endpoint runs registered functions on a cluster of endpoints, and orchestrates workflows
-- of them from a virtual environment manager. This library models the deciding logic of its
-- components as pure functions on explicit states, and proves what makes each component correct.
--
-- Consensus: axo_endpoint/core/consensus. Consensus/Ledger.antt is concurrency.py, by which a
-- leader grants pool slots of a function version; Consensus/Elector.antt is bully.py;
-- Consensus/StateMachine.antt and Consensus/DirtyTracker.antt are state_machine.py and
-- dirty_tracker.py, through which a change on the leader reaches the replicated state;
-- Consensus/Sync.antt with its children is registry_sync.py, data_sync.py, bucket_sync.py and the
-- payloads of state_machine.py, by which registered functions, data and buckets reach the
-- followers; Consensus/Loop.antt is a tick of axo_endpoint/service/consensus_loop.py;
-- Consensus/ResultConsistency.antt is result_consistency.py.
--
-- Storage: axo_endpoint/core/storage. Storage/Key.antt and Storage/InMemory.antt are the keys and
-- the in-memory backend. Storage/Backend.antt is the interface that the registries use, with its
-- laws, and Storage/Backend/FromMemory.antt fills it with the in-memory backend.
--
-- Functions: axo_endpoint/core/functions and axo_shared/axo_shared/functions.
-- Functions/Lifecycle.antt is the table of state changes, Functions/Registry.antt the registry of
-- function versions over any backend, Functions/Params.antt the validation of a call's params,
-- Functions/Codec.antt the dict codecs of schemas and runtime specs.
--
-- Data: axo_endpoint/core/data. Data/Registry.antt with its children is registry.py: registration,
-- chunks, streams, status. Data/Chunking.antt, Data/Models.antt and Data/Buckets.antt are the chunk
-- arithmetic, the records, and the buckets with their quota check, and Data/Results.antt the
-- results of functions with their codec, axo_endpoint/core/results/envelope.py. Data/Requests.antt
-- is axo_endpoint/core/dataio/protocol.py.
--
-- Choreography: axo_vem/axo_vem/domain/choreography and axo_vem/axo_vem/application/choreography.
-- Choreography/Graph.antt is graph_ops.py, Choreography/Concurrency.antt is concurrency_check.py,
-- Choreography/Retries.antt the retry loop and its delays, Choreography/Run.antt the wave loop of a
-- run.
--
-- Service: axo_endpoint/service and axo_endpoint/dispatch. Service/BlobReplication.antt is
-- blob_replication.py, Service/ContainerJobs.antt the jobs of runtime/container_runtime.py,
-- Service/ContainerPool.antt is the summoner of container/spawner.py with its pools,
-- Service/ContainerNames.antt the names of container/handle.py, Service/ResultSync.antt is
-- handlers/job_result_sync.py, Service/LeaderProxy.antt is handlers/leader_proxy.py,
-- Service/Dispatcher.antt is in_memory_dispatcher.py.
--
-- The parts meet in Consensus/Sync/Replication.antt: an operation of the function registry emits
-- its event, the bridge marks the record in the tracker, a tick drains the tracker, and the
-- follower's bridge applies the changes to its backend. Consensus/Sync/Leader.antt is the leader's
-- side of that chain.
--
-- Prelude and Text hold what the components share: Python dicts as association lists, sets, orders,
-- results, and the string operations of keys. Examples applies the theorems to concrete inputs;
-- Examples/Wire.antt is a concrete pair of json and base64.
--
-- Numbers are natural numbers, and times are ticks. A lock makes each method one step, and threads
-- that interleave are sequences of such steps. Loops without a bound in the code run on fuel: the
-- waves of a graph get one round for each node, the walk downstream one for each entry that can
-- still be pushed, the search for a slot index one more than there are slots. The modules that are
-- named for these loops hold the bounds.
--
-- Parameters: the random module, hashlib, json and base64, the chunk backend, the replies of peers,
-- the start and the stop of containers, the success of a dispatch and the stop flag. Not modelled:
-- the filesystem backend, the limit that Python sets to the digits of an int, sockets, processes
-- and containers, the event bus beyond the events that are emitted, HTTP and database glue, the
-- aggregates of the manager besides choreographies, the user interface, and axo_endpoint/old, which
-- nothing imports.
pub mod Prelude
pub mod Text
pub mod Storage
pub mod Functions
pub mod Data
pub mod Choreography
pub mod Consensus
pub mod Service
pub mod Examples
