-- ===== src/Gateway/Threads/Counted.antt =====
-- The status that a refresh of the gateway of examples/webapi.py returns, whatever runs beside it.
use iox2_jsonrpc.Base.{
  ℕ, ◌≤◌, ◌≡◌, refl, ap, subst, Option, none, some, List, [], ◌∷◌, ◌++◌, append_assoc, All, length,
  length-append, arith, ◌⊎◌, inl, inr,
}
use iox2_jsonrpc.Python.Outcome.{Outcome, returned, raised}
use iox2_jsonrpc.Models.{JsonRpcRequest, JsonRpcResponse}
use iox2_jsonrpc.Registry.{DiscoveredRpcService, Iox2RpcRegistry}
use iox2_jsonrpc.Gateway.{
  DynamicRpcGateway, DynamicGatewayStatus, new_gateway, status, refresh, find_service,
}
use iox2_jsonrpc.Gateway.Select.{IsCaught, refreshes, refreshes-latest}
use iox2_jsonrpc.Gateway.Threads.{
  requesting, after_rpc_snapshot, snapshot_rpc, ask_unique, Call, Job, refreshing, updated,
  reported, calling, installed, after_find, after_snapshot, Move, make, escape, update, report,
  find, snapshot, ask, System, IsStart, Run,
}
use iox2_jsonrpc.Gateway.Threads.History.{IsKept, Run-IsKept}

module _ {V K : Type 0} where
  -- What a refresh that has updated the gateway knows of the history: its own update is in it, and its
  -- status is that of a moment after its update.
  abbrev pub IsCounted : List (Outcome (Iox2RpcRegistry V K)) → Job V K → Type 0
  IsCounted os (updated n) = n ≤ length os
  IsCounted os (reported n told) =
      (before : List (Outcome (Iox2RpcRegistry V K))) × (after : List
        (Outcome (Iox2RpcRegistry V K)))
      × (os ≡ before ++ after)
      × (n ≤ length before)
      × (told ≡ status (refreshes before new_gateway))
  IsCounted os _ = Unit

  stays-IsCounted :
      (os new : List (Outcome (Iox2RpcRegistry V K))) (job : Job V K)
      → IsCounted os job
      → IsCounted (os ++ new) job
  stays-IsCounted os new (updated n) h = omega (arith, h, length-append os new)
  stays-IsCounted os new (reported n told) (before, after, e, h, same) =
      (before, after ++ new, rw e (append_assoc before after new), h, same)
  stays-IsCounted os new _ h = h

  count-installed :
      (os : List (Outcome (Iox2RpcRegistry V K))) (o : Outcome (Iox2RpcRegistry V K))
      → All IsCaught os
      → IsCaught o
      → (installed (refreshes os new_gateway) o).refresh_count ≡ length (os ++ o ∷ [])
  unfolding installed refresh status
  count-installed os o hs h =
      let (_, _, before) = refreshes-latest os new_gateway hs in
      let (_, _, now) = refreshes-latest (o ∷ []) (refreshes os new_gateway) (h, tt) in
      omega (arith, before, now, length-append os (o ∷ []))

  after_find-IsCounted :
      (os : List (Outcome (Iox2RpcRegistry V K))) (c : Call)
      (found : Outcome (DiscoveredRpcService V K ⊎ JsonRpcResponse))
      → IsCounted os (after_find c found)
  unfolding after_find
  after_find-IsCounted os c (raised e) = tt
  after_find-IsCounted os c (returned (inl service)) = tt
  after_find-IsCounted os c (returned (inr response)) = tt

  after_snapshot-IsCounted :
      (os : List (Outcome (Iox2RpcRegistry V K))) (service : DiscoveredRpcService V K) (c : Call)
      (registry : Option (Iox2RpcRegistry V K))
      → IsCounted os (after_snapshot service c registry)
  unfolding after_snapshot
  after_snapshot-IsCounted os service c none = tt
  after_snapshot-IsCounted os service c (some registry) = tt

  after_rpc_snapshot-IsCounted :
      (os : List (Outcome (Iox2RpcRegistry V K))) (request : JsonRpcRequest)
      (registry : Option (Iox2RpcRegistry V K))
      → IsCounted os (after_rpc_snapshot request registry)
  unfolding after_rpc_snapshot
  after_rpc_snapshot-IsCounted os request none = tt
  after_rpc_snapshot-IsCounted os request (some registry) = tt

  moves-IsCounted :
      (os new : List (Outcome (Iox2RpcRegistry V K))) (gateway after : DynamicRpcGateway V K)
      (job next : Job V K)
      → gateway ≡ refreshes os new_gateway
      → All IsCaught os
      → IsCounted os job
      → Move gateway job after new next
      → IsCounted (os ++ new) next
  moves-IsCounted os new gateway after job next same caught h (make o) = tt
  moves-IsCounted os new gateway after job next same caught h (escape e x) = tt
  moves-IsCounted os new gateway after job next same caught h (update o x) =
      rw (same, count-installed os o caught x) (omega arith)
  moves-IsCounted os new gateway after job next same caught h (report n) =
      (os, [], refl, h, ap status same)
  moves-IsCounted os new gateway after job next same caught h (find c) =
      after_find-IsCounted (os ++ []) c (find_service gateway c.controller c.service_name)
  moves-IsCounted os new gateway after job next same caught h (snapshot service c) =
      after_snapshot-IsCounted (os ++ []) service c gateway.registry
  moves-IsCounted os new gateway after job next same caught h (ask registry service c o) = tt
  moves-IsCounted os new gateway after job next same caught h (snapshot_rpc request) =
      after_rpc_snapshot-IsCounted (os ++ []) request gateway.registry
  moves-IsCounted os new gateway after job next same caught h (ask_unique registry request o) = tt

  starts-IsCounted : (job : Job V K) → IsStart job → IsCounted [] job
  starts-IsCounted refreshing h = tt
  starts-IsCounted (calling c) h = tt
  starts-IsCounted (requesting request) h = tt
  starts-IsCounted _ h = absurd h

  kept-IsCounted : IsKept IsCounted
  kept-IsCounted = record {
    starts = starts-IsCounted;
    stays = stays-IsCounted;
    moves = moves-IsCounted;
  }

  -- In whatever order the threads take their steps, the status that a refresh returns is the
  -- gateway's after some of the updates so far, its own among them.
  pub Run-reported :
      {os : List (Outcome (Iox2RpcRegistry V K))} {s : System V K} (i n : ℕ)
      (told : DynamicGatewayStatus)
      → Run os s
      → s.jobs i ≡ reported n told
      → (before : List (Outcome (Iox2RpcRegistry V K))) × (after : List
          (Outcome (Iox2RpcRegistry V K)))
        × (os ≡ before ++ after)
        × (n ≤ length before)
        × (told ≡ status (refreshes before new_gateway))
  Run-reported {os} i n told run h = subst (IsCounted os) h (Run-IsKept kept-IsCounted run i)
