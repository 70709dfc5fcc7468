-- ===== src/Gateway/Threads.antt =====
-- The calls of `DynamicRpcGateway` (examples/webapi.py) that `asyncio.to_thread` runs at the same time. A
-- thread's step ends where the lock is released, or where the factory or the registry has answered.
-- A part that holds the lock is one step: Lock has the lock and its waiters, and shows that these are the
-- steps that can be seen. The factory and the registries may answer anything.
-- The request counters of the registries are not followed here.
pub mod History
pub mod Counted
pub mod Found
pub mod Serving
pub mod Alone
pub mod Lock
mod Tests
use iox2_jsonrpc.Base.{
  ℕ, ◌+◌, String, ◌≡◌, true, false, Option, none, some, List, [], ◌∷◌, ◌++◌, ◌&◌, has_char,
  or_default, eqb, ◌⊎◌, inl, inr, if◌then◌else◌,
}
use iox2_jsonrpc.Python.Dict.{Dict}
use iox2_jsonrpc.Python.Value.{Value, str}
use iox2_jsonrpc.Python.Outcome.{Exception, Outcome, returned, raised}
use iox2_jsonrpc.Models.{JsonRpcId, JsonRpcRequest, JsonRpcResponse, fail, assign_id}
use iox2_jsonrpc.Endpoint.{method_not_found, internal_error}
use iox2_jsonrpc.Registry.{DiscoveredRpcService, Iox2RpcRegistry}
use iox2_jsonrpc.Gateway.{
  DynamicRpcGateway, DynamicGatewayStatus, new_gateway, dot, status, refreshed, find_service,
}
use iox2_jsonrpc.Gateway.Calls.{rewrite_response_id}
use iox2_jsonrpc.Gateway.Select.{IsCaught}

-- The arguments of a call of a controller's method; `method` is the full name.
pub record Call : Type 0 where
  pub controller : String
  pub service_name : Option String
  pub id : JsonRpcId
  pub method : String
  pub params : Option (Dict Value)

-- The call that `call_controller_rpc` makes.
unfoldable pub controller_call : String → JsonRpcRequest → Option String → Call
controller_call controller request service_name = record {
  controller = controller;
  service_name = service_name;
  id = request.id;
  method =
      if has_char dot request.method then request.method else controller & "." & request.method;
  params = request.params;
}

-- Where a thread is. The number of an updated refresh is the count that it wrote, which the code
-- does not keep; the number of an answer is the id of its call.
pub data Job (V K : Type 0) : Type 0 where
  refreshing : Job V K
  made : Outcome (Iox2RpcRegistry V K) → Job V K
  updated : ℕ → Job V K
  reported : ℕ → DynamicGatewayStatus → Job V K
  escaped : Exception → Job V K
  calling : Call → Job V K
  selected : DiscoveredRpcService V K → Call → Job V K
  asking : Iox2RpcRegistry V K → DiscoveredRpcService V K → Call → Job V K
  requesting : JsonRpcRequest → Job V K
  asking_unique : Iox2RpcRegistry V K → JsonRpcRequest → Job V K
  answered : JsonRpcId → Outcome JsonRpcResponse → Job V K

-- What follows `registry.call`.
unfoldable pub reply_of : JsonRpcId → Outcome JsonRpcResponse → Outcome JsonRpcResponse
reply_of id (returned response) = rewrite_response_id response id
reply_of id (raised e) =
    if e.is_exception
    then fail id internal_error "Gateway call failed" (str e.message)
    else raised e

-- What follows `registry.call_unique` in `call_rpc`.
unfoldable pub rpc_reply_of : JsonRpcId → Outcome JsonRpcResponse → Outcome JsonRpcResponse
rpc_reply_of id (returned response) = rewrite_response_id response id
rpc_reply_of id (raised e) =
    if e.is_exception then fail id method_not_found e.message Value.null else raised e

-- The gateway, and each thread's place.
pub record System (V K : Type 0) : Type 0 where
  pub gateway : DynamicRpcGateway V K
  pub jobs : ℕ → Job V K

module _ {V K : Type 0} where
  -- The two blocks of `refresh` that hold the lock.
  unfoldable pub installed :
      DynamicRpcGateway V K → Outcome (Iox2RpcRegistry V K) → DynamicRpcGateway V K
  installed gateway o = (refreshed gateway (o, tt)).1.0

  -- What follows `_find_service`.
  unfoldable pub after_find : Call → Outcome (DiscoveredRpcService V K ⊎ JsonRpcResponse) → Job V K
  after_find c (raised e) = answered c.id (raised e)
  after_find c (returned (inr response)) = answered c.id (assign_id response c.id)
  after_find c (returned (inl service)) = selected service c

  -- What follows `_registry_snapshot` in `_call_service`.
  unfoldable pub after_snapshot :
      DiscoveredRpcService V K → Call → Option (Iox2RpcRegistry V K) → Job V K
  after_snapshot service c none =
      answered c.id (fail c.id method_not_found "No RPC registry has been loaded yet." Value.null)
  after_snapshot service c (some registry) = asking registry service c

  -- What follows `_registry_snapshot` in `call_rpc`.
  unfoldable pub after_rpc_snapshot : JsonRpcRequest → Option (Iox2RpcRegistry V K) → Job V K
  after_rpc_snapshot request none =
      answered request.id
        (fail request.id method_not_found "No RPC registry has been loaded yet." Value.null)
  after_rpc_snapshot request (some registry) = asking_unique registry request

  -- One step of one thread, with the outcome that it installs, if it does. A call of
  -- the registry may give anything.
  pub data Move (gateway : DynamicRpcGateway V K)
      : Job V K
        → DynamicRpcGateway V K
        → List (Outcome (Iox2RpcRegistry V K))
        → Job V K
        → Type 0 where
    make : (o : Outcome (Iox2RpcRegistry V K)) → Move gateway refreshing gateway [] (made o)
    escape :
        (e : Exception)
        → e.is_exception ≡ false
        → Move gateway (made (raised e)) gateway [] (escaped e)
    update :
        (o : Outcome (Iox2RpcRegistry V K))
        → IsCaught o
        → Move gateway
            (made o)
            (installed gateway o)
            (o ∷ [])
            (updated (installed gateway o).refresh_count)
    report : (n : ℕ) → Move gateway (updated n) gateway [] (reported n (status gateway))
    find :
        (c : Call)
        → Move gateway
            (calling c)
            gateway
            []
            (after_find c (find_service gateway c.controller c.service_name))
    snapshot :
        (service : DiscoveredRpcService V K) (c : Call)
        → Move gateway (selected service c) gateway [] (after_snapshot service c gateway.registry)
    ask :
        (registry : Iox2RpcRegistry V K) (service : DiscoveredRpcService V K) (c : Call)
        (o : Outcome JsonRpcResponse)
        → Move gateway (asking registry service c) gateway [] (answered c.id (reply_of c.id o))
    snapshot_rpc :
        (request : JsonRpcRequest)
        → Move gateway (requesting request) gateway [] (after_rpc_snapshot request gateway.registry)
    ask_unique :
        (registry : Iox2RpcRegistry V K) (request : JsonRpcRequest) (o : Outcome JsonRpcResponse)
        → Move gateway
            (asking_unique registry request)
            gateway
            []
            (answered request.id (rpc_reply_of request.id o))

  abbrev pub set_job : (ℕ → Job V K) → ℕ → Job V K → ℕ → Job V K
  set_job jobs i job k = if eqb k i then job else jobs k

  -- A thread that has been started.
  abbrev pub IsStart : Job V K → Type 0
  IsStart refreshing = Unit
  IsStart (calling c) = Unit
  IsStart (requesting request) = Unit
  IsStart _ = ⊥

  pub data Step (s : System V K) : List (Outcome (Iox2RpcRegistry V K)) → System V K → Type 0 where
    pick :
        (i : ℕ) (new : List (Outcome (Iox2RpcRegistry V K))) (gateway : DynamicRpcGateway V K)
        (job : Job V K)
        → Move s.gateway (s.jobs i) gateway new job
        → Step s new (record { gateway = gateway; jobs = set_job s.jobs i job })

  -- A run of threads over a new gateway, with the outcomes that were installed, in order.
  pub data Run : List (Outcome (Iox2RpcRegistry V K)) → System V K → Type 0 where
    start :
        (jobs : ℕ → Job V K)
        → ((i : ℕ) → IsStart (jobs i))
        → Run [] (record { gateway = new_gateway; jobs = jobs })
    later :
        (os new : List (Outcome (Iox2RpcRegistry V K))) (s t : System V K)
        → Run os s
        → Step s new t
        → Run (os ++ new) t
