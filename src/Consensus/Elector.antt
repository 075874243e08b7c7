-- ===== src/Consensus/Elector.antt =====
-- axo_endpoint/core/consensus/{membership,elector,bully}.py. A frozenset of ids is a list, compared
-- as a set. Times are ticks.
pub mod Leadership
use activex_endpoint.Prelude.{ℕ, ◌+◌, String, Bool, List, [], ◌∷◌, map, if◌then◌else◌, string_eq}
use activex_endpoint.Prelude.Sets.{contains, set_eq}
use activex_endpoint.Prelude.Order.{max_of, string_ord}

pub record ClusterMember : Type 0 where
  pub peer_id : String
  pub rpc_uri : String

pub record LeaderView : Type 0 where
  pub leader_ids : List String
  pub term : ℕ
  pub decided_at : ℕ

pub record BullyLeaderElector : Type 0 where
  pub self_id : String
  pub view : LeaderView

-- `__init__`
unfoldable pub init : String → BullyLeaderElector
init self_id = record {
  self_id = self_id;
  view = record { leader_ids = self_id ∷ []; term = 0; decided_at = 0 };
}

unfoldable pub current_view : BullyLeaderElector → LeaderView
current_view e = e.view

-- `{m.peer_id for m in members} | {self._self_id}`, the node itself first
abbrev pub all_ids : BullyLeaderElector → List ClusterMember → List String
all_ids e members = e.self_id ∷ map (λ m. m.peer_id) members

unfoldable pub winner : BullyLeaderElector → List ClusterMember → String
winner e members = max_of e.self_id (map (λ m. m.peer_id) members)

decide : LeaderView → String → ℕ → LeaderView
decide view w now =
    if set_eq view.leader_ids (w ∷ [])
    then view
    else record { leader_ids = w ∷ []; term = view.term + 1; decided_at = now }

-- The elector after the call, and the view that the call returns.
unfoldable pub recompute :
    BullyLeaderElector → List ClusterMember → ℕ → BullyLeaderElector × LeaderView
unfolding winner decide
recompute e members now =
    let view = decide e.view (winner e members) now in (record e { view = view }, view)

unfoldable pub is_leader : BullyLeaderElector → String → Bool
unfolding current_view
is_leader e peer_id = contains (current_view e).leader_ids peer_id
