-- ===== src/Gateway/Threads/Alone.antt =====
-- A call of the gateway of examples/webapi.py with nothing between its steps.
use iox2_jsonrpc.Base.{
  ℕ, String, ◌≡◌, refl, Option, none, some, [], or_default, ◌⊎◌, inl, inr, Bool-cases,
}
use iox2_jsonrpc.Python.Dict.{Dict}
use iox2_jsonrpc.Python.Value.{Value, str}
use iox2_jsonrpc.Python.Outcome.{Outcome, Action, returned, raised}
use iox2_jsonrpc.Models.{JsonRpcId, JsonRpcRequest, JsonRpcResponse, fail}
use iox2_jsonrpc.Endpoint.{internal_error, method_not_found}
use iox2_jsonrpc.Registry.{DiscoveredRpcService, Iox2RpcRegistry}
use iox2_jsonrpc.Gateway.{DynamicRpcGateway, find_service}
use iox2_jsonrpc.Gateway.Calls.{
  call_rpc, answered as answered_by, with_registry, call_service, call_selected,
  call_controller_rpc, call_rpc,
}
use iox2_jsonrpc.Gateway.Threads.{
  requesting, after_rpc_snapshot, rpc_reply_of, snapshot_rpc, ask_unique, Call, controller_call,
  Job, calling, answered, after_find, after_snapshot, reply_of, Move, find, snapshot, ask,
}

module _ {V K : Type 0} where
  -- Steps of one thread that leave the gateway as it is.
  pub data Alone (gateway : DynamicRpcGateway V K) : Job V K → Job V K → Type 0 where
    ended : (job : Job V K) → Alone gateway job job
    next :
        (job then end : Job V K)
        → Move gateway job gateway [] then
        → Alone gateway then end
        → Alone gateway job end

module _ {V K W : Type 0}
    (call : DiscoveredRpcService V K
      → String
      → Option (Dict Value)
      → ℕ
      → Action (Iox2RpcRegistry V K × W) JsonRpcResponse) where
  answered-reply_of :
      (c : Call) (gateway : DynamicRpcGateway V K)
      (r : Outcome JsonRpcResponse × (Iox2RpcRegistry V K × W))
      → (answered_by
          (λ e. fail c.id internal_error "Gateway call failed" (str e.message))
          c.id
          gateway
          r).0
        ≡ reply_of c.id r.0
  unfolding answered_by reply_of
  answered-reply_of c gateway (returned response, (registry, w)) = refl
  answered-reply_of c gateway (raised e, (registry, w)) = elim (Bool-cases e.is_exception) [
    | inl x ↦ rw x refl
    | inr x ↦ rw x refl
  ]

  Alone-snapshot :
      (gateway : DynamicRpcGateway V K) (w : W) (c : Call) (service : DiscoveredRpcService V K)
      (timeout : ℕ) (found : Option (Iox2RpcRegistry V K))
      → Alone gateway (after_snapshot service c found) (
          answered c.id
            (with_registry
              (λ e. fail c.id internal_error "Gateway call failed" (str e.message))
              c.id
              found
              (call service c.method (some (or_default c.params [])) timeout)
              (gateway, w)).0)
  unfolding after_snapshot with_registry
  Alone-snapshot gateway w c service timeout none = ended _
  Alone-snapshot gateway w c service timeout (some registry) =
      let r = call service c.method (some (or_default c.params [])) timeout (registry, w) in
      next _ _ _ (ask registry service c r.0) (rw (answered-reply_of c gateway r) (ended _))

  Alone-find :
      (gateway : DynamicRpcGateway V K) (w : W) (c : Call) (timeout : ℕ)
      (found : Outcome (DiscoveredRpcService V K ⊎ JsonRpcResponse))
      → Alone gateway
          (after_find c found)
          (answered c.id (call_selected call found c.id c.method c.params timeout (gateway, w)).0)
  unfolding after_find call_selected call_service
  Alone-find gateway w c timeout (raised e) = ended _
  Alone-find gateway w c timeout (returned (inr response)) = ended _
  Alone-find gateway w c timeout (returned (inl service)) =
      next _ _ _ (snapshot service c) (Alone-snapshot gateway w c service timeout gateway.registry)

  -- A controller's request whose thread is not interrupted takes the steps of a thread to the answer
  -- that `call_controller_rpc` gives.
  pub call_controller_rpc-Alone :
      (gateway : DynamicRpcGateway V K) (w : W) (controller : String) (request : JsonRpcRequest)
      (service_name : Option String) (timeout : ℕ)
      → Alone gateway (calling (controller_call controller request service_name)) (
          answered request.id
            (call_controller_rpc call controller request service_name timeout (gateway, w)).0)
  unfolding controller_call call_controller_rpc
  call_controller_rpc-Alone gateway w controller request service_name timeout =
      let c = controller_call controller request service_name in
      next _ _ _ (find c)
        (Alone-find gateway w c timeout (find_service gateway controller service_name))

module _ {V K W : Type 0}
    (call_unique : String
      → Option (Dict Value)
      → ℕ
      → Action (Iox2RpcRegistry V K × W) JsonRpcResponse) where
  answered-rpc_reply_of :
      (id : JsonRpcId) (gateway : DynamicRpcGateway V K)
      (r : Outcome JsonRpcResponse × (Iox2RpcRegistry V K × W))
      → (answered_by (λ e. fail id method_not_found e.message Value.null) id gateway r).0
        ≡ rpc_reply_of id r.0
  unfolding answered_by rpc_reply_of
  answered-rpc_reply_of id gateway (returned response, (registry, w)) = refl
  answered-rpc_reply_of id gateway (raised e, (registry, w)) = elim (Bool-cases e.is_exception) [
    | inl x ↦ rw x refl
    | inr x ↦ rw x refl
  ]

  Alone-rpc_snapshot :
      (gateway : DynamicRpcGateway V K) (w : W) (request : JsonRpcRequest) (timeout : ℕ)
      (found : Option (Iox2RpcRegistry V K))
      → Alone gateway (after_rpc_snapshot request found) (
          answered request.id
            (with_registry
              (λ e. fail request.id method_not_found e.message Value.null)
              request.id
              found
              (call_unique request.method (some (or_default request.params [])) timeout)
              (gateway, w)).0)
  unfolding with_registry after_rpc_snapshot
  Alone-rpc_snapshot gateway w request timeout none = ended _
  Alone-rpc_snapshot gateway w request timeout (some registry) =
      let r =
        call_unique request.method (some (or_default request.params [])) timeout (registry, w) in
      next _ _ _ (ask_unique registry request r.0)
        (rw (answered-rpc_reply_of request.id gateway r) (ended _))

  -- A request to no controller, uninterrupted, is answered as `call_rpc` answers it.
  pub call_rpc-Alone :
      (gateway : DynamicRpcGateway V K) (w : W) (request : JsonRpcRequest) (timeout : ℕ)
      → Alone gateway
          (requesting request)
          (answered request.id (call_rpc call_unique request timeout (gateway, w)).0)
  unfolding call_rpc
  call_rpc-Alone gateway w request timeout =
      next _ _ _ (snapshot_rpc request)
        (Alone-rpc_snapshot gateway w request timeout gateway.registry)
