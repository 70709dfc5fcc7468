-- ===== src/Gateway/Handlers.antt =====
-- The functions inside create_dynamic_rpc_gateway_fastapi_router of examples/webapi.py that the routes name;
-- those of method calls are in the module Calls. FastAPI passes the arguments by their names.
pub mod Answers
mod Tests
use iox2_jsonrpc.Base.{ℕ, String, Option, none, some, List, [], ◌∷◌, ◌⊎◌, inl, inr}
use iox2_jsonrpc.Python.Dict.{Dict}
use iox2_jsonrpc.Python.Value.{Value}
use iox2_jsonrpc.Python.Outcome.{Outcome, Action, returned, raised, ◌>>=◌}
use iox2_jsonrpc.Models.{JsonRpcRequest, JsonRpcResponse}
use iox2_jsonrpc.Registry.{DiscoveredRpcService, Iox2RpcRegistry, CatalogEntry}
use iox2_jsonrpc.Gateway.{
  DynamicRpcGateway, DynamicGatewayStatus, ControllerRouteInfo, Description, status, refresh,
  controllers, gateway_catalog, describe_all,
}
use iox2_jsonrpc.Gateway.Calls.{
  Methods, Http, body, http_error, raise_gateway_response, schema_for_controller,
  methods_for_controller, call_rpc, call_controller_rpc, post_method, get_method,
}
use iox2_jsonrpc.Gateway.Routes

-- What `root` tells.
pub record GatewayInfo : Type 0 where
  pub status : DynamicGatewayStatus
  pub controllers : List ControllerRouteInfo
  pub routes : List String

-- What a handler returns.
pub data Payload : Type 0 where
  info : GatewayInfo → Payload
  told_status : DynamicGatewayStatus → Payload
  entries : List CatalogEntry → Payload
  descriptions : Dict Description → Payload
  route_infos : List ControllerRouteInfo → Payload
  description : Description → Payload
  methods : Methods → Payload
  response : JsonRpcResponse → Payload
  value : Value → Payload

-- The arguments that FastAPI reads from a request; a handler takes those that it declares.
pub record Arguments : Type 0 where
  pub controller : String
  pub method : String
  pub service : Option String
  pub query_params : Dict String
  pub request : JsonRpcRequest
  pub params : Option (Dict Value)

-- `if isinstance(result, JsonRpcResponse): _raise_gateway_response(result)`, and `return result`.
unfoldable pub checked : {A : Type 0} → (A → Payload) → A ⊎ JsonRpcResponse → Http Payload
checked wrap (inl a) = body (wrap a)
checked wrap (inr r) = raise_gateway_response r (response r)

module _ {V K : Type 0} where
  unfoldable pub root : DynamicRpcGateway V K → GatewayInfo
  root gateway = record {
    status = status gateway;
    controllers = controllers gateway;
    routes =
        "GET /health" ∷ "GET /refresh" ∷ "GET /controllers" ∷ "GET /controllers/{controller}"
        ∷ "GET /controllers/{controller}/methods" ∷ "GET /controllers/{controller}/{method}"
        ∷ "POST /controllers/{controller}/{method}" ∷ "POST /rpc" ∷ "POST /refresh" ∷ [];
  }

  unfoldable pub controller_detail :
      DynamicRpcGateway V K → String → Option String → Outcome (Http Payload)
  controller_detail gateway controller service =
      schema_for_controller gateway controller service >>= λ result.
      returned (checked description result)

  unfoldable pub controller_methods :
      DynamicRpcGateway V K → String → Option String → Outcome (Http Payload)
  controller_methods gateway controller service =
      methods_for_controller gateway controller service >>= λ result.
      returned (checked methods result)

-- A handler's answer as FastAPI's.
abbrev pub returns : {A S : Type 0} → (A → Payload) → Outcome A × S → Outcome (Http Payload) × S
returns wrap (o, s) = (o >>= λ a. returned (body (wrap a)), s)

abbrev pub in_http : {A B : Type 0} → (A → B) → Http A → Http B
in_http f (body a) = body (f a)
in_http f (http_error code failure) = http_error code failure

abbrev pub passes : {S : Type 0} → Outcome (Http Value) × S → Outcome (Http Payload) × S
passes (o, s) = (o >>= λ http. returned (in_http value http), s)

-- Over the factory, the registry's two calls, and `default_timeout_s`.
module _ {V K W : Type 0} (factory : Action W (Iox2RpcRegistry V K))
    (call : DiscoveredRpcService V K
      → String
      → Option (Dict Value)
      → ℕ
      → Action (Iox2RpcRegistry V K × W) JsonRpcResponse)
    (call_unique : String
      → Option (Dict Value)
      → ℕ
      → Action (Iox2RpcRegistry V K × W) JsonRpcResponse)
    (timeout : ℕ) where
  -- The handler that a route names, with its arguments.
  unfoldable pub run_handler :
      Routes.Handler → Arguments → Action (DynamicRpcGateway V K × W) (Http Payload)
  run_handler Routes.root args (gateway, w) = (returned (body (info (root gateway))), (gateway, w))
  run_handler Routes.health args (gateway, w) =
      (returned (body (told_status (status gateway))), (gateway, w))
  run_handler Routes.refresh_now args s = returns told_status (refresh factory s)
  run_handler Routes.catalog args (gateway, w) =
      (returned (body (entries (gateway_catalog gateway))), (gateway, w))
  run_handler Routes.describe_all args (gateway, w) =
      (returned (body (descriptions (describe_all gateway))), (gateway, w))
  run_handler Routes.controllers_list args (gateway, w) =
      (returned (body (route_infos (controllers gateway))), (gateway, w))
  run_handler Routes.rpc args s = returns response (call_rpc call_unique args.request timeout s)
  run_handler Routes.controller_methods args (gateway, w) =
      (controller_methods gateway args.controller args.service, (gateway, w))
  run_handler Routes.controller_rpc args s =
      returns response
        (call_controller_rpc call args.controller args.request args.service timeout s)
  run_handler Routes.controller_detail args (gateway, w) =
      (controller_detail gateway args.controller args.service, (gateway, w))
  run_handler Routes.post_method args s =
      passes (post_method call timeout args.controller args.method args.params args.service s)
  run_handler Routes.get_method args s =
      passes (get_method call timeout args.controller args.method args.query_params s)
