-- ===== src/Service/LeaderProxy/OneHop.antt =====
-- Commands that travel between the proxies of leader_proxy.py.
use activex_endpoint.Prelude.{
  ℕ, zero, suc, ◌≡◌, refl, ap, String, true, Option, none, some, Bool-cases, Option-cases, inl, inr,
}
use activex_endpoint.Prelude.Outcome.{Result, ok, err}
use activex_endpoint.Consensus.Elector.{is_leader, current_view}
use activex_endpoint.Service.LeaderProxy.{
  Command, ProxyResult, first_or_empty, decide, on_address, Endpoint, on_reply, act, handle,
}

-- The mesh: the node at an address, and the proxies' messages with at most the given number of hops.
unfoldable pub send : ℕ → (String → Option Endpoint) → String → Command → Result String ProxyResult
send zero node_at rpc_uri command = err "too many hops"
send (suc hops) node_at rpc_uri command = elim (node_at rpc_uri) [
  | none ↦ err "timeout"
  | some n ↦ ok (handle (send hops node_at) n command)
]

-- A command that was forwarded is answered without any message.
forwarded-local :
    (f g : String → Command → Result String ProxyResult) (n : Endpoint) (command : Command)
    → command.forwarded ≡ true
    → handle f n command ≡ handle g n command
unfolding handle act decide
forwarded-local f g n command h = elim (Bool-cases (is_leader n.elector n.self_id)) [
  | inl leads ↦ rw (leads, decide)
  | inr follows ↦ rw (follows, h, decide)
]

send-forwarded :
    (hops : ℕ) (node_at : String → Option Endpoint) (rpc_uri : String) (command : Command)
    → command.forwarded ≡ true
    → send (suc hops) node_at rpc_uri command ≡ send 1 node_at rpc_uri command
unfolding send
send-forwarded hops node_at rpc_uri command h = elim (Option-cases (node_at rpc_uri)) [
  | inl nobody ↦ rw (nobody, send)
  | inr (n, there) ↦
      rw (there, send) (ap ok (forwarded-local (send hops node_at) (send zero node_at) n command h))
]

-- In a mesh of proxies, whatever their views of the leadership, one hop is enough: allowing more
-- hops never changes the reply.
pub handle-one_hop :
    (hops : ℕ) (node_at : String → Option Endpoint) (n : Endpoint) (command : Command)
    → handle (send (suc hops) node_at) n command ≡ handle (send 1 node_at) n command
unfolding handle act decide on_address
handle-one_hop hops node_at n command =
    let leader = first_or_empty (current_view n.elector).leader_ids in
    elim (Bool-cases (is_leader n.elector n.self_id)) [
      | inl leads ↦ rw (leads, decide)
      | inr follows ↦ elim (Bool-cases command.forwarded) [
        | inl came ↦ rw (follows, came, decide)
        | inr first ↦ elim (Option-cases (n.resolve_leader_rpc_uri leader)) [
          | inl unknown ↦ rw (follows, first, unknown, decide, on_address)
          | inr (uri, known) ↦
              rw (follows, first, known, decide, on_address)
                (ap on_reply
                  (send-forwarded hops node_at uri (record command { forwarded = true }) refl))
        ]
      ]
    ]
