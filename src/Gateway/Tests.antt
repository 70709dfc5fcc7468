-- ===== src/Gateway/Tests.antt =====
-- A gateway (examples/webapi.py) over two services, and the theorems at it.
use iox2_jsonrpc.Base.{ℕ, suc, String, ◌≡◌, refl, Option, none, some, [], ◌∷◌, ◌&◌}
use iox2_jsonrpc.Python.Int.{pos}
use iox2_jsonrpc.Python.Value.{Value, int}
use iox2_jsonrpc.Python.Dict.{Dict}
use iox2_jsonrpc.Python.Outcome.{Action, returned, raised, error, IfReturned}
use iox2_jsonrpc.Models.{v2_0, JsonRpcId, JsonRpcRequest, JsonRpcResponse}
use iox2_jsonrpc.Registry.{DiscoveredRpcService, Iox2RpcRegistry}
use iox2_jsonrpc.Gateway.{DynamicRpcGateway, status, new_gateway}
use iox2_jsonrpc.Models.{RpcMethodDescriptor, RpcServiceDescriptor, jsonrpc_2_0}
use iox2_jsonrpc.Python.Dict.{get}
use iox2_jsonrpc.Gateway.Openapi.{add_descriptors, dynamic_openapi_schema_for_method}
use iox2_jsonrpc.Gateway.Openapi.Paths.{add_descriptors-method}
use iox2_jsonrpc.Gateway.Calls.{call_controller_rpc}
use iox2_jsonrpc.Gateway.Select.{refreshes, refreshes-latest}
use iox2_jsonrpc.Gateway.Replies.{call_controller_rpc-Answers}
use iox2_jsonrpc.Models.Payload.{Answers}

abbrev service : String → DiscoveredRpcService ℕ ℕ
service name = record {
  service_name = name;
  controller_name = "lamp";
  rpc_endpoint = name & "/lamp/rpc";
  schema_endpoint = name & "/lamp/schema";
  methods = "lamp.on" ∷ "lamp.off" ∷ [];
  attributes = [];
  descriptor = none;
  rpc_service = some 1;
  rpc_client = some 2;
}

abbrev registry : Iox2RpcRegistry ℕ ℕ
registry = record { services = service "home" ∷ service "office" ∷ []; request_counter = 0 }

abbrev gateway : DynamicRpcGateway ℕ ℕ
gateway = record { registry = some registry; last_error = none; refresh_count = 1 }

refreshes-latest_example :
    ((refreshes
        (returned registry ∷ raised (error "RuntimeError" "no node") ∷ [])
        new_gateway).registry
      ≡ some registry)
    × ((status (
          refreshes
            (returned registry ∷ raised (error "RuntimeError" "no node") ∷ [])
            new_gateway)).last_error
        ≡ some "no node")
    × ((status (
          refreshes
            (returned registry ∷ raised (error "RuntimeError" "no node") ∷ [])
            new_gateway)).refresh_count
        ≡ 2)
refreshes-latest_example =
    refreshes-latest (returned registry ∷ raised (error "RuntimeError" "no node") ∷ []) new_gateway
      (tt, (refl, tt))

-- A registry that answers for another request.
abbrev wrong_id :
    DiscoveredRpcService ℕ ℕ
    → String
    → Option (Dict Value)
    → ℕ
    → Action (Iox2RpcRegistry ℕ ℕ × ℕ) JsonRpcResponse
wrong_id service method params timeout (registry, w) = (
  returned (record {
    jsonrpc = v2_0;
    id = JsonRpcId.number (pos 99);
    result = int (pos 5);
    error = none;
  }),
  (registry, suc w),
)

abbrev request : String → JsonRpcRequest
request method = record { jsonrpc = v2_0; id = JsonRpcId.text "a"; method = method; params = none }

call_controller_rpc-Answers_example :
    IfReturned
      (Answers (JsonRpcId.text "a"))
      (call_controller_rpc wrong_id "lamp" (request "on") (some "home") 500 (gateway, 0)).0
call_controller_rpc-Answers_example =
    call_controller_rpc-Answers wrong_id "lamp" (request "on") (some "home") 500 (gateway, 0)

abbrev method : String → RpcMethodDescriptor
method name = record {
  name = name;
  jsonrpc_method = "lamp." & name;
  params_model = "P";
  result_model = "R";
  params_schema = [];
  result_schema = [];
}

abbrev descriptor : RpcServiceDescriptor
descriptor = record {
  protocol = jsonrpc_2_0;
  service = "home";
  controller = "lamp";
  rpc_endpoint = "home/lamp/rpc";
  schema_endpoint = "home/lamp/schema";
  methods = method "on" ∷ method "off" ∷ [];
}

-- FastAPI's document has an entry at this path already.
add_descriptors-method_example :
    get "/controllers/lamp/on"
      (add_descriptors (descriptor ∷ []) (("/controllers/lamp/on", int (pos 0)) ∷ []))
    ≡ some (dynamic_openapi_schema_for_method (method "on"))
add_descriptors-method_example =
    add_descriptors-method [] [] descriptor [] (method "off" ∷ []) (method "on")
      (("/controllers/lamp/on", int (pos 0)) ∷ []) refl ((λ e. absurd (cc e)), tt) tt
