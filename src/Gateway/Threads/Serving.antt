-- ===== src/Gateway/Threads/Serving.antt =====
-- The calls of the gateway of examples/webapi.py that run beside refreshes.
use iox2_jsonrpc.Base.{
  ℕ, ◌≡◌, refl, ap, subst, ◌∙◌, none, List, [], ◌++◌, append-nil, All, ◌⊎◌, inl, inr, Bool-cases,
  Option, some, sym,
}
use iox2_jsonrpc.Python.Outcome.{Outcome, returned, raised, IfReturned}
use iox2_jsonrpc.Python.Value.{Value, str}
use iox2_jsonrpc.Endpoint.{internal_error, method_not_found}
use iox2_jsonrpc.Models.{JsonRpcId, JsonRpcRequest, JsonRpcResponse, assign_id}
use iox2_jsonrpc.Registry.{DiscoveredRpcService, Iox2RpcRegistry}
use iox2_jsonrpc.Gateway.{DynamicRpcGateway, new_gateway, find_service}
use iox2_jsonrpc.Gateway.Select.{IsCaught, refreshes, refreshes-latest, latest}
use iox2_jsonrpc.Gateway.Replies.{rewrite-Answers}
use iox2_jsonrpc.Models.Payload.{Answers, payload-Answers, fail-Answers}
use iox2_jsonrpc.Gateway.Threads.{
  requesting, asking_unique, after_rpc_snapshot, rpc_reply_of, snapshot_rpc, ask_unique, Call, Job,
  refreshing, calling, selected, asking, answered, after_find, after_snapshot, reply_of, Move, make,
  escape, update, report, find, snapshot, ask, System, IsStart, Run,
}
use iox2_jsonrpc.Gateway.Threads.History.{IsKept, Run-IsKept, Run-refreshes, Run-IsCaught}
use iox2_jsonrpc.Gateway.Threads.Found.{
  latest-IsInstalled, In-append, IsInstalled, IsFound, stays-IsFound, find_service-IsFound,
  after_snapshot-asking,
}

reply_of-Answers :
    (id : JsonRpcId) (o : Outcome JsonRpcResponse) → IfReturned (Answers id) (reply_of id o)
unfolding reply_of
reply_of-Answers id (returned response) = rewrite-Answers response id
reply_of-Answers id (raised e) = elim (Bool-cases e.is_exception) [
  | inl x ↦ rw x (fail-Answers id internal_error "Gateway call failed" (str e.message))
  | inr x ↦ rw x tt
]

rpc_reply_of-Answers :
    (id : JsonRpcId) (o : Outcome JsonRpcResponse) → IfReturned (Answers id) (rpc_reply_of id o)
unfolding rpc_reply_of
rpc_reply_of-Answers id (returned response) = rewrite-Answers response id
rpc_reply_of-Answers id (raised e) = elim (Bool-cases e.is_exception) [
  | inl x ↦ rw x (fail-Answers id method_not_found e.message Value.null)
  | inr x ↦ rw x tt
]

module _ {V K : Type 0} where
  -- What a call knows: its service is found, there is a registry to ask, its answer is its own.
  abbrev pub IsServed : List (Outcome (Iox2RpcRegistry V K)) → Job V K → Type 0
  IsServed os (selected service c) = IsFound os service c
  IsServed os (asking registry service c) = IsInstalled os registry × IsFound os service c
  IsServed os (asking_unique registry request) = IsInstalled os registry
  IsServed os (answered id o) = IfReturned (Answers id) o
  IsServed os _ = Unit

  starts-IsServed : (job : Job V K) → IsStart job → IsServed [] job
  starts-IsServed refreshing h = tt
  starts-IsServed (calling c) h = tt
  starts-IsServed (requesting request) h = tt
  starts-IsServed _ h = absurd h

  stays-IsServed :
      (os new : List (Outcome (Iox2RpcRegistry V K))) (job : Job V K)
      → IsServed os job
      → IsServed (os ++ new) job
  stays-IsServed os new (selected service c) h = stays-IsFound os new service c h
  stays-IsServed os new (asking registry service c) (at, h) =
      (In-append (returned registry) os new at, stays-IsFound os new service c h)
  stays-IsServed os new (asking_unique registry request) at =
      In-append (returned registry) os new at
  stays-IsServed os new _ h = h

  after_find-IsServed :
      (os : List (Outcome (Iox2RpcRegistry V K))) (c : Call)
      (found : Outcome (DiscoveredRpcService V K ⊎ JsonRpcResponse))
      → ((service : DiscoveredRpcService V K)
          → found ≡ returned (inl service)
          → IsFound os service c)
      → IsServed os (after_find c found)
  unfolding after_find assign_id
  after_find-IsServed os c (raised e) h = tt
  after_find-IsServed os c (returned (inl service)) h = h service refl
  after_find-IsServed os c (returned (inr response)) h = payload-Answers _

  after_rpc_snapshot-IsServed :
      (os : List (Outcome (Iox2RpcRegistry V K))) (request : JsonRpcRequest)
      (found : Option (Iox2RpcRegistry V K))
      → found ≡ latest os none
      → IsServed os (after_rpc_snapshot request found)
  unfolding after_rpc_snapshot
  after_rpc_snapshot-IsServed os request none same =
      fail-Answers request.id method_not_found "No RPC registry has been loaded yet." Value.null
  after_rpc_snapshot-IsServed os request (some registry) same =
      elim (latest-IsInstalled os none registry (sym same)) [
        | inl absent ↦ absurd (cc absent)
        | inr at ↦ at
      ]

  now :
      (os : List (Outcome (Iox2RpcRegistry V K))) (gateway : DynamicRpcGateway V K)
      → gateway ≡ refreshes os new_gateway
      → All IsCaught os
      → gateway.registry ≡ latest os none
  now os gateway same caught =
      ap {A = DynamicRpcGateway V K} (λ g. g.registry) same
      ∙ (refreshes-latest os new_gateway caught).0

  moves-IsServed :
      (os new : List (Outcome (Iox2RpcRegistry V K))) (gateway after : DynamicRpcGateway V K)
      (job next : Job V K)
      → gateway ≡ refreshes os new_gateway
      → All IsCaught os
      → IsServed os job
      → Move gateway job after new next
      → IsServed (os ++ new) next
  moves-IsServed os new gateway after job next same caught h (make o) = tt
  moves-IsServed os new gateway after job next same caught h (escape e x) = tt
  moves-IsServed os new gateway after job next same caught h (update o x) = tt
  moves-IsServed os new gateway after job next same caught h (report n) = tt
  moves-IsServed os new gateway after job next same caught h (find c) = rw (append-nil os) (
      after_find-IsServed os c (find_service gateway c.controller c.service_name)
        (λ service e. find_service-IsFound os gateway c service (now os gateway same caught) e))
  moves-IsServed os new gateway after job next same caught h (snapshot service c) =
      let (registry, e, at) =
        after_snapshot-asking os service c gateway.registry (now os gateway same caught) h in
      rw (append-nil os, e) (at, h)
  moves-IsServed os new gateway after job next same caught h (ask registry service c o) =
      reply_of-Answers c.id o
  moves-IsServed os new gateway after job next same caught h (snapshot_rpc request) =
      rw (append-nil os)
        (after_rpc_snapshot-IsServed os request gateway.registry (now os gateway same caught))
  moves-IsServed os new gateway after job next same caught h (ask_unique registry request o) =
      rpc_reply_of-Answers request.id o

  kept-IsServed : IsKept IsServed
  kept-IsServed = record {
    starts = starts-IsServed;
    stays = stays-IsServed;
    moves = moves-IsServed;
  }

  -- In whatever order the threads take their steps, a call that has found a service goes on to ask a
  -- registry, which some refresh has installed, so it never answers that no registry is loaded; its
  -- service is of an installed registry too, and of the call's controller.
  pub Run-selected :
      {os : List (Outcome (Iox2RpcRegistry V K))} {s : System V K} (i : ℕ)
      (service : DiscoveredRpcService V K) (c : Call)
      → Run os s
      → s.jobs i ≡ selected service c
      → IsFound os service c
        × ((registry : Iox2RpcRegistry V K) × (after_snapshot service c s.gateway.registry
              ≡ asking registry service c)
            × IsInstalled os registry)
  Run-selected {os} {s} i service c run h =
      let found = subst (IsServed os) h (Run-IsKept kept-IsServed run i) in
      (
        found,
        after_snapshot-asking os service c s.gateway.registry
            (now os s.gateway (Run-refreshes run) (Run-IsCaught run)) found,
      )
