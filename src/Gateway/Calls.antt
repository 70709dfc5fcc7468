-- ===== src/Gateway/Calls.antt =====
-- The calls of `DynamicRpcGateway` (examples/webapi.py) and what its HTTP handlers make of them.
use iox2_jsonrpc.Base.{
  ℕ, String, not, Option, none, some, List, [], ◌∷◌, filter, ◌&◌, ◌==◌, has_char, or_default, ◌⊎◌,
  inl, inr, if◌then◌else◌,
}
use iox2_jsonrpc.Python.Int.{ℤ, pos, eq_int}
use iox2_jsonrpc.Python.Dict.{Dict, get}
use iox2_jsonrpc.Python.Value.{Value, str}
use iox2_jsonrpc.Python.Outcome.{Exception, Outcome, Action, returned, raised, ◌>>=◌}
use iox2_jsonrpc.Models.{
  JsonRpcId, JsonRpcRequest, JsonRpcErrorObject, JsonRpcResponse, RpcMethodDescriptor, fail,
  make_response, assign_id,
}
use iox2_jsonrpc.Endpoint.{method_not_found, invalid_params, internal_error}
use iox2_jsonrpc.Registry.{DiscoveredRpcService, Iox2RpcRegistry}
use iox2_jsonrpc.Gateway.{DynamicRpcGateway, Description, describe, dot, find_service}

-- The two constructions, by the error.
abbrev pub rewritten : Option JsonRpcErrorObject → Value → JsonRpcId → Outcome JsonRpcResponse
rewritten none result request_id = make_response request_id result none
rewritten (some failure) result request_id = make_response request_id Value.null (some failure)

unfoldable pub rewrite_response_id : JsonRpcResponse → JsonRpcId → Outcome JsonRpcResponse
rewrite_response_id response request_id = rewritten response.error response.result request_id

module _ {V K : Type 0} where
  -- What the call of the registry gives; `failure` is the answer to an exception. The registry, which
  -- the gateway holds, may have changed.
  unfoldable pub answered :
      {W : Type 0}
      → (Exception → Outcome JsonRpcResponse)
      → JsonRpcId
      → DynamicRpcGateway V K
      → Outcome JsonRpcResponse × (Iox2RpcRegistry V K × W)
      → Outcome JsonRpcResponse × (DynamicRpcGateway V K × W)
  answered failure request_id gateway (returned response, (registry, w)) =
      (rewrite_response_id response request_id, (record gateway { registry = some registry }, w))
  answered failure request_id gateway (raised e, (registry, w)) =
      let after = record gateway { registry = some registry } in
      if e.is_exception then (failure e, (after, w)) else (raised e, (after, w))

  -- `registry` is the snapshot.
  unfoldable pub with_registry :
      {W : Type 0}
      → (Exception → Outcome JsonRpcResponse)
      → JsonRpcId
      → Option (Iox2RpcRegistry V K)
      → Action (Iox2RpcRegistry V K × W) JsonRpcResponse
      → Action (DynamicRpcGateway V K × W) JsonRpcResponse
  with_registry failure request_id none act (gateway, w) = (
    fail request_id method_not_found "No RPC registry has been loaded yet." Value.null,
    (gateway, w),
  )
  with_registry failure request_id (some registry) act (gateway, w) =
      answered failure request_id gateway (act (registry, w))

-- Over the registry's two calls.
module _ {V K W : Type 0}
    (call : DiscoveredRpcService V K
      → String
      → Option (Dict Value)
      → ℕ
      → Action (Iox2RpcRegistry V K × W) JsonRpcResponse) where
  unfoldable pub call_service :
      DiscoveredRpcService V K
      → JsonRpcId
      → String
      → Option (Dict Value)
      → ℕ
      → Action (DynamicRpcGateway V K × W) JsonRpcResponse
  call_service service request_id method params timeout (gateway, w) =
      with_registry (λ e. fail request_id internal_error "Gateway call failed" (str e.message))
        request_id gateway.registry (call service method (some (or_default params [])) timeout)
        (gateway, w)

  -- A response of `_find_service` gets the request's id; a service is called.
  unfoldable pub call_selected :
      Outcome (DiscoveredRpcService V K ⊎ JsonRpcResponse)
      → JsonRpcId
      → String
      → Option (Dict Value)
      → ℕ
      → Action (DynamicRpcGateway V K × W) JsonRpcResponse
  call_selected (raised e) request_id method params timeout s = (raised e, s)
  call_selected (returned (inr response)) request_id method params timeout s =
      (assign_id response request_id, s)
  call_selected (returned (inl service)) request_id method params timeout s =
      call_service service request_id method params timeout s

  unfoldable pub call_controller_rpc :
      String
      → JsonRpcRequest
      → Option String
      → ℕ
      → Action (DynamicRpcGateway V K × W) JsonRpcResponse
  call_controller_rpc controller request service_name timeout (gateway, w) =
      let method =
        if has_char dot request.method then request.method else controller & "." & request.method in
      call_selected (find_service gateway controller service_name) request.id method request.params
        timeout (gateway, w)

  unfoldable pub call_method :
      String
      → String
      → Option (Dict Value)
      → Option String
      → JsonRpcId
      → ℕ
      → Action (DynamicRpcGateway V K × W) JsonRpcResponse
  call_method controller method params service_name request_id timeout (gateway, w) =
      call_selected (find_service gateway controller service_name) request_id
        (controller & "." & method) params timeout (gateway, w)

module _ {V K W : Type 0}
    (call_unique : String
      → Option (Dict Value)
      → ℕ
      → Action (Iox2RpcRegistry V K × W) JsonRpcResponse) where
  unfoldable pub call_rpc : JsonRpcRequest → ℕ → Action (DynamicRpcGateway V K × W) JsonRpcResponse
  call_rpc request timeout (gateway, w) =
      with_registry (λ e. fail request.id method_not_found e.message Value.null) request.id
        gateway.registry (call_unique request.method (some (or_default request.params [])) timeout)
        (gateway, w)

-- The methods of a service: those of its descriptor, or the names that were discovered.
pub data Methods : Type 0 where
  of_descriptor : List RpcMethodDescriptor → Methods
  named : List String → Methods

module _ {V K : Type 0} where
  unfoldable pub methods_of : DiscoveredRpcService V K → Methods
  methods_of s = elim s.descriptor [
    | none ↦ named s.methods
    | some descriptor ↦ of_descriptor descriptor.methods
  ]

  abbrev pub tell :
      {A : Type 0}
      → (DiscoveredRpcService V K → A)
      → DiscoveredRpcService V K ⊎ JsonRpcResponse
      → A ⊎ JsonRpcResponse
  tell view (inl s) = inl (view s)
  tell view (inr response) = inr response

  unfoldable pub schema_for_controller :
      DynamicRpcGateway V K → String → Option String → Outcome (Description ⊎ JsonRpcResponse)
  schema_for_controller gateway controller service_name =
      find_service gateway controller service_name >>= λ found. returned (tell describe found)

  unfoldable pub methods_for_controller :
      DynamicRpcGateway V K → String → Option String → Outcome (Methods ⊎ JsonRpcResponse)
  methods_for_controller gateway controller service_name =
      find_service gateway controller service_name >>= λ found. returned (tell methods_of found)

unfoldable pub query_params_without_service : Dict String → Dict String
query_params_without_service query_params = filter (λ p. not (p.0 == "service")) query_params

-- The texts of the query as values.
abbrev pub as_values : Dict String → Dict Value
as_values [] = []
as_values ((key, text) ∷ d) = (key, str text) ∷ as_values d

-- The default of `request_id`.
abbrev pub default_id : JsonRpcId
default_id = JsonRpcId.number (pos 1)

-- The status code of an error.
unfoldable pub status_code : ℤ → ℕ
status_code code =
    if eq_int code method_not_found
    then 404
    else (if eq_int code invalid_params
        then 422
        else (if eq_int code internal_error then 500 else 400))

-- An HTTP answer: a body, or the status code and the detail of an `HTTPException`.
pub data Http (A : Type 0) : Type 0 where
  body : A → Http A
  http_error : ℕ → JsonRpcErrorObject → Http A

-- `_raise_gateway_response(response)`, and then the given body.
unfoldable pub raise_gateway_response : {A : Type 0} → JsonRpcResponse → A → Http A
unfolding status_code
raise_gateway_response response answer = elim response.error [
  | none ↦ body answer
  | some failure ↦ http_error (status_code failure.code) failure
]

module _ {V K W : Type 0}
    (call : DiscoveredRpcService V K
      → String
      → Option (Dict Value)
      → ℕ
      → Action (Iox2RpcRegistry V K × W) JsonRpcResponse)
    (timeout : ℕ) where
  abbrev pub respond : {S : Type 0} → Outcome JsonRpcResponse × S → Outcome (Http Value) × S
  respond (o, s) = (o >>= λ response. returned (raise_gateway_response response response.result), s)

  unfoldable pub post_method :
      String
      → String
      → Option (Dict Value)
      → Option String
      → Action (DynamicRpcGateway V K × W) (Http Value)
  post_method controller method params service s = respond (
      call_method call controller method (some (or_default params [])) service default_id timeout s)

  unfoldable pub get_method :
      String → String → Dict String → Action (DynamicRpcGateway V K × W) (Http Value)
  get_method controller method query_params s = respond (
      call_method call controller method
        (some (as_values (query_params_without_service query_params))) (get "service" query_params)
        default_id timeout s)
