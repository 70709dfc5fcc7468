-- ===== src/Gateway/Replies.antt =====
-- What the calls of the gateway of examples/webapi.py answer.
use iox2_jsonrpc.Base.{
  ℕ, String, ◌≡◌, ap, ◌∙◌, false, Option, none, some, ◌&◌, has_char, has_char-separator, ◌⊎◌, inl,
  inr, Bool-cases, if_true, if_false, if◌then◌else◌,
}
use iox2_jsonrpc.Python.Dict.{Dict}
use iox2_jsonrpc.Python.Value.{Value}
use iox2_jsonrpc.Python.Outcome.{Exception, Outcome, Action, returned, raised, IfReturned}
use iox2_jsonrpc.Models.{JsonRpcId, JsonRpcRequest, JsonRpcErrorObject, JsonRpcResponse, assign_id}
use iox2_jsonrpc.Models.Payload.{Answers, payload-Answers, make_response-Answers, fail-Answers}
use iox2_jsonrpc.Registry.{DiscoveredRpcService, Iox2RpcRegistry}
use iox2_jsonrpc.Gateway.{DynamicRpcGateway, dot, find_service}
use iox2_jsonrpc.Gateway.Calls.{
  rewritten, rewrite_response_id, answered, with_registry, call_service, call_selected,
  call_controller_rpc, call_method,
}

rewritten-Answers :
    (failure : Option JsonRpcErrorObject) (result : Value) (id : JsonRpcId)
    → IfReturned (Answers id) (rewritten failure result id)
rewritten-Answers none result id = make_response-Answers id result none
rewritten-Answers (some failure) result id = make_response-Answers id Value.null (some failure)

pub rewrite-Answers :
    (r : JsonRpcResponse) (id : JsonRpcId) → IfReturned (Answers id) (rewrite_response_id r id)
unfolding rewrite_response_id
rewrite-Answers r id = rewritten-Answers r.error r.result id

module _ {V K W : Type 0} where
  answered-Answers :
      (failure : Exception → Outcome JsonRpcResponse) (id : JsonRpcId)
      (gateway : DynamicRpcGateway V K) (r : Outcome JsonRpcResponse × (Iox2RpcRegistry V K × W))
      → ((e : Exception) → IfReturned (Answers id) (failure e))
      → IfReturned (Answers id) (answered failure id gateway r).0
  unfolding answered
  answered-Answers failure id gateway (returned response, (registry, w)) h =
      rewrite-Answers response id
  answered-Answers failure id gateway (raised e, (registry, w)) h =
      elim (Bool-cases e.is_exception) [ inl x ↦ rw x (h _) | inr x ↦ rw x tt ]

  with_registry-Answers :
      (failure : Exception → Outcome JsonRpcResponse) (id : JsonRpcId)
      (found : Option (Iox2RpcRegistry V K))
      (act : Action (Iox2RpcRegistry V K × W) JsonRpcResponse) (s : DynamicRpcGateway V K × W)
      → ((e : Exception) → IfReturned (Answers id) (failure e))
      → IfReturned (Answers id) (with_registry failure id found act s).0
  unfolding with_registry
  with_registry-Answers failure id none act s h = fail-Answers id _ _ _
  with_registry-Answers failure id (some registry) act (gateway, w) h =
      answered-Answers failure id gateway (act (registry, w)) h

module _ {V K W : Type 0}
    (call : DiscoveredRpcService V K
      → String
      → Option (Dict Value)
      → ℕ
      → Action (Iox2RpcRegistry V K × W) JsonRpcResponse) where
  call_selected-Answers :
      (found : Outcome (DiscoveredRpcService V K ⊎ JsonRpcResponse)) (id : JsonRpcId)
      (method : String) (params : Option (Dict Value)) (timeout : ℕ) (s : DynamicRpcGateway V K × W)
      → IfReturned (Answers id) (call_selected call found id method params timeout s).0
  unfolding call_selected call_service assign_id
  call_selected-Answers (raised e) id method params timeout s = tt
  call_selected-Answers (returned (inr r)) id method params timeout s = payload-Answers _
  call_selected-Answers (returned (inl service)) id method params timeout (gateway, w) =
      with_registry-Answers _ id gateway.registry _ (gateway, w) (λ e. fail-Answers id _ _ _)

  -- Whatever the registry's call does, also when it answers for another request, each response that the
  -- gateway returns to a controller's request carries the request's id, and at most one of a result and
  -- an error.
  pub call_controller_rpc-Answers :
      (controller : String) (request : JsonRpcRequest) (service_name : Option String) (timeout : ℕ)
      (s : DynamicRpcGateway V K × W)
      → IfReturned
          (Answers request.id)
          (call_controller_rpc call controller request service_name timeout s).0
  unfolding call_controller_rpc
  call_controller_rpc-Answers controller request service_name timeout (gateway, w) =
      call_selected-Answers (find_service gateway controller service_name) request.id _
        request.params timeout (gateway, w)

  -- A request to a controller whose method has no dot is the call of this method with the request's
  -- parameters and id, and so is one whose method is the controller's name, a dot and this method.
  pub call_controller_rpc-call_method :
      (controller method : String) (request : JsonRpcRequest) (service_name : Option String)
      (timeout : ℕ) (s : DynamicRpcGateway V K × W)
      → ((request.method ≡ method) × (has_char dot method ≡ false))
        ⊎ (request.method ≡ controller & "." & method)
      → call_controller_rpc call controller request service_name timeout s
        ≡ call_method call controller method request.params service_name request.id timeout s
  unfolding call_controller_rpc call_method
  call_controller_rpc-call_method controller method request service_name timeout (gateway, w) h =
      let sent : String → String = λ m. if has_char dot m then m else controller & "." & m in
      ap
        (λ m.
          call_selected call (find_service gateway controller service_name) request.id m
            request.params timeout (gateway, w))
        (elim h [
          | inl (e, undotted) ↦ ap sent e ∙ if_false (has_char dot method) _ _ undotted
          | inr e ↦
              ap sent e
              ∙ if_true (has_char dot (controller & "." & method)) _ _
                  (has_char-separator dot controller method)
        ])
