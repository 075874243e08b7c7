-- ===== src/Service/LeaderProxy.antt =====
-- axo_endpoint/service/handlers/leader_proxy.py. The inner handler and the addresses are arguments;
-- a forward goes to the proxy of the node at the address, or fails.
pub mod OneHop
use activex_endpoint.Prelude.{
  ℕ, zero, suc, String, Bool, true, false, Option, none, some, List, [], ◌∷◌, if◌then◌else◌,
  string_eq,
}
use activex_endpoint.Prelude.Outcome.{Result, ok, err}
use activex_endpoint.Consensus.Elector.{BullyLeaderElector, current_view, is_leader}

-- `Command`, with the mark of its envelope.
pub record Command : Type 0 where
  pub operation : String
  pub payload : List ℕ
  pub forwarded : Bool

pub data ProxyResult : Type 0 where
  -- the inner handler's reply, and the node that ran it
  replied : String → List ℕ → ProxyResult
  unreachable : String → ProxyResult

-- `next(iter(leader_ids), "")`
abbrev pub first_or_empty : List String → String
first_or_empty [] = ""
first_or_empty (x ∷ xs) = x

-- What the proxy decides before any message is sent.
pub data Decision : Type 0 where
  run_here : Decision
  refuse : String → Decision
  forward : String → Command → Decision

unfoldable pub on_address : Command → Option String → Decision
on_address command none = refuse "no known address for leader"
on_address command (some rpc_uri) = forward rpc_uri (record command { forwarded = true })

unfoldable pub decide : BullyLeaderElector → String → (String → Option String) → Command → Decision
unfolding on_address
decide elector self_id resolve_leader_rpc_uri command =
    if is_leader elector self_id
    then run_here
    else if command.forwarded
    then refuse "leader view unresolved after one forward hop"
    else on_address command
        (resolve_leader_rpc_uri (first_or_empty (current_view elector).leader_ids))

-- A node of the mesh: its proxy's elector and addresses, and its inner handler.
pub record Endpoint : Type 0 where
  pub self_id : String
  pub elector : BullyLeaderElector
  pub resolve_leader_rpc_uri : String → Option String
  pub inner : Command → List ℕ

unfoldable pub on_reply : Result String ProxyResult → ProxyResult
on_reply (ok reply) = reply
on_reply (err e) = unreachable e

unfoldable pub act :
    (String → Command → Result String ProxyResult) → Endpoint → Command → Decision → ProxyResult
unfolding on_reply
act send n command run_here = replied n.self_id (n.inner command)
act send n command (refuse reason) = unreachable reason
act send n command (forward rpc_uri forwarded) = on_reply (send rpc_uri forwarded)

-- `handle`, where `send` is `forward_fn`.
unfoldable pub handle :
    (String → Command → Result String ProxyResult) → Endpoint → Command → ProxyResult
unfolding decide act
handle send n command =
    act send n command (decide n.elector n.self_id n.resolve_leader_rpc_uri command)
