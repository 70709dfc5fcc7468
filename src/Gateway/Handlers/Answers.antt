-- ===== src/Gateway/Handlers/Answers.antt =====
-- What the handlers of examples/webapi.py change of the gateway, and when they answer 404.
use iox2_jsonrpc.Base.{
  ℕ, String, ◌≡◌, ◌≢◌, refl, Option, none, some, List, [], ◌∷◌, ◌⊎◌, inl, inr, Bool-cases,
}
use iox2_jsonrpc.Python.Dict.{Dict}
use iox2_jsonrpc.Python.Value.{Value}
use iox2_jsonrpc.Python.Outcome.{Exception, Outcome, Action, returned, raised, ◌>>=◌}
use iox2_jsonrpc.Models.{
  JsonRpcId, JsonRpcErrorObject, JsonRpcResponse, fail, make_response, exactly_one_payload,
}
use iox2_jsonrpc.Registry.{DiscoveredRpcService, Iox2RpcRegistry}
use iox2_jsonrpc.Gateway.{DynamicRpcGateway, describe, only_match, matching_services, find_service}
use iox2_jsonrpc.Gateway.Calls.{
  answered, with_registry, call_service, call_selected, call_controller_rpc, call_method, call_rpc,
  methods_of, tell, schema_for_controller, methods_for_controller, Http, body, http_error,
  raise_gateway_response, post_method, get_method,
}
use iox2_jsonrpc.Gateway.Routes
use iox2_jsonrpc.Gateway.Handlers.{
  Payload, description, methods, Arguments, checked, controller_detail, controller_methods,
  run_handler,
}

-- The part of the gateway that only a refresh writes.
abbrev pub IsKept : {V K : Type 0} → DynamicRpcGateway V K → DynamicRpcGateway V K → Type 0
IsKept before after =
    (after.last_error ≡ before.last_error) × (after.refresh_count ≡ before.refresh_count)

module _ {V K W : Type 0} where
  answered-IsKept :
      (failure : Exception → Outcome JsonRpcResponse) (id : JsonRpcId)
      (gateway : DynamicRpcGateway V K) (r : Outcome JsonRpcResponse × (Iox2RpcRegistry V K × W))
      → IsKept gateway (answered failure id gateway r).1.0
  unfolding answered
  answered-IsKept failure id gateway (returned response, (registry, w)) = (refl, refl)
  answered-IsKept failure id gateway (raised e, (registry, w)) = elim (Bool-cases e.is_exception) [
    | inl x ↦ rw x (refl, refl)
    | inr x ↦ rw x (refl, refl)
  ]

  with_registry-IsKept :
      (failure : Exception → Outcome JsonRpcResponse) (id : JsonRpcId)
      (found : Option (Iox2RpcRegistry V K))
      (act : Action (Iox2RpcRegistry V K × W) JsonRpcResponse) (gateway : DynamicRpcGateway V K)
      (w : W)
      → IsKept gateway (with_registry failure id found act (gateway, w)).1.0
  unfolding with_registry
  with_registry-IsKept failure id none act gateway w = (refl, refl)
  with_registry-IsKept failure id (some registry) act gateway w =
      answered-IsKept failure id gateway (act (registry, w))

module _ {V K W : Type 0}
    (call : DiscoveredRpcService V K
      → String
      → Option (Dict Value)
      → ℕ
      → Action (Iox2RpcRegistry V K × W) JsonRpcResponse) where
  call_selected-IsKept :
      (found : Outcome (DiscoveredRpcService V K ⊎ JsonRpcResponse)) (id : JsonRpcId)
      (method : String) (params : Option (Dict Value)) (timeout : ℕ)
      (gateway : DynamicRpcGateway V K) (w : W)
      → IsKept gateway (call_selected call found id method params timeout (gateway, w)).1.0
  unfolding call_selected call_service
  call_selected-IsKept (raised e) id method params timeout gateway w = (refl, refl)
  call_selected-IsKept (returned (inr r)) id method params timeout gateway w = (refl, refl)
  call_selected-IsKept (returned (inl service)) id method params timeout gateway w =
      with_registry-IsKept _ id gateway.registry _ gateway w

module _ {V K W : Type 0} (factory : Action W (Iox2RpcRegistry V K))
    (call : DiscoveredRpcService V K
      → String
      → Option (Dict Value)
      → ℕ
      → Action (Iox2RpcRegistry V K × W) JsonRpcResponse)
    (call_unique : String
      → Option (Dict Value)
      → ℕ
      → Action (Iox2RpcRegistry V K × W) JsonRpcResponse)
    (timeout : ℕ) where
  -- A request that is not sent to the handler of refreshes leaves the count of refreshes and the last
  -- error as they are, also when the call that it makes fails.
  pub run_handler-IsKept :
      (handler : Routes.Handler) (args : Arguments) (gateway : DynamicRpcGateway V K) (w : W)
      → handler ≢ Routes.refresh_now
      → ((run_handler factory call call_unique timeout handler args (gateway, w)).1.0.last_error
          ≡ gateway.last_error)
        × ((run_handler factory call call_unique timeout handler args
              (gateway, w)).1.0.refresh_count
            ≡ gateway.refresh_count)
  unfolding run_handler call_rpc call_controller_rpc post_method get_method call_method
  run_handler-IsKept Routes.root args gateway w h = (refl, refl)
  run_handler-IsKept Routes.health args gateway w h = (refl, refl)
  run_handler-IsKept Routes.refresh_now args gateway w h = absurd (h refl)
  run_handler-IsKept Routes.catalog args gateway w h = (refl, refl)
  run_handler-IsKept Routes.describe_all args gateway w h = (refl, refl)
  run_handler-IsKept Routes.controllers_list args gateway w h = (refl, refl)
  run_handler-IsKept Routes.rpc args gateway w h =
      with_registry-IsKept _ args.request.id gateway.registry _ gateway w
  run_handler-IsKept Routes.controller_methods args gateway w h = (refl, refl)
  run_handler-IsKept Routes.controller_rpc args gateway w h =
      call_selected-IsKept call (find_service gateway args.controller args.service) args.request.id
        _ args.request.params timeout gateway w
  run_handler-IsKept Routes.controller_detail args gateway w h = (refl, refl)
  run_handler-IsKept Routes.post_method args gateway w h =
      call_selected-IsKept call (find_service gateway args.controller args.service) _ _ _ timeout
        gateway w
  run_handler-IsKept Routes.get_method args gateway w h =
      call_selected-IsKept call (find_service gateway args.controller _) _ _ _ timeout gateway w

-- A body, if exactly one service matches, or else an error with the status code 404.
abbrev IsBodyOr404 : {A : Type 0} → List A → (A → Payload) → Outcome (Http Payload) → Type 0
IsBodyOr404 (s ∷ []) view answer = answer ≡ returned (body (view s))
IsBodyOr404 _ view answer =
    (failure : JsonRpcErrorObject) × (answer ≡ returned (http_error 404 failure))

module _ {V K : Type 0} where
  only_match-IsBodyOr404 :
      {A : Type 0} (controller : String) (service : Option String)
      (services : List (DiscoveredRpcService V K)) (view : DiscoveredRpcService V K → A)
      (wrap : A → Payload)
      → IsBodyOr404 services
          (λ s. wrap (view s))
          ((only_match controller service services >>= λ found. returned (tell view found))
            >>= λ result. returned (checked wrap result))
  unfolding only_match fail make_response exactly_one_payload checked raise_gateway_response
  only_match-IsBodyOr404 controller service [] view wrap = (_, refl)
  only_match-IsBodyOr404 controller service (s ∷ []) view wrap = refl
  only_match-IsBodyOr404 controller service (s ∷ t ∷ services) view wrap = (_, refl)

  -- The descriptions of a controller and of its methods are answered with the only service that
  -- matches; if none or several match, with the status code 404, never with another or an exception.
  pub controller_detail-IsBodyOr404 :
      (gateway : DynamicRpcGateway V K) (controller : String) (service : Option String)
      → IsBodyOr404
          (matching_services gateway controller service)
          (λ s. description (describe s))
          (controller_detail gateway controller service)
        × IsBodyOr404
            (matching_services gateway controller service)
            (λ s. methods (methods_of s))
            (controller_methods gateway controller service)
  unfolding controller_detail controller_methods schema_for_controller methods_for_controller
      find_service
  controller_detail-IsBodyOr404 gateway controller service =
      let services = matching_services gateway controller service in
      (
        only_match-IsBodyOr404 controller service services describe description,
        only_match-IsBodyOr404 controller service services methods_of methods,
      )
