-- ===== src/Gateway/Handlers/Tests.antt =====
-- The theorems on the handlers of examples/webapi.py at a gateway over two services.
use iox2_jsonrpc.Base.{ℕ, suc, String, ◌≡◌, ◌≢◌, none, some, [], ◌∷◌}
use iox2_jsonrpc.Python.Outcome.{Action, returned, raised, error}
use iox2_jsonrpc.Models.{v2_0, JsonRpcId, JsonRpcResponse}
use iox2_jsonrpc.Registry.{DiscoveredRpcService, Iox2RpcRegistry}
use iox2_jsonrpc.Gateway.{
  DynamicRpcGateway, describe, matching_services, matches, services_snapshot,
}
use iox2_jsonrpc.Gateway.Calls.{methods_of, body}
use iox2_jsonrpc.Gateway.Routes
use iox2_jsonrpc.Gateway.Handlers.{
  Arguments, description, methods, controller_detail, controller_methods, run_handler,
}
use iox2_jsonrpc.Gateway.Handlers.Answers.{run_handler-IsKept, controller_detail-IsBodyOr404}

abbrev service : String → String → DiscoveredRpcService ℕ ℕ
service name controller = record {
  service_name = name;
  controller_name = controller;
  rpc_endpoint = "rpc";
  schema_endpoint = "schema";
  methods = "on" ∷ [];
  attributes = [];
  descriptor = none;
  rpc_service = some 1;
  rpc_client = some 2;
}

abbrev gateway : DynamicRpcGateway ℕ ℕ
gateway = record {
  registry = some (record {
    services = service "home" "lamp" ∷ service "home" "fan" ∷ [];
    request_counter = 0;
  });
  last_error = some "no node";
  refresh_count = 4;
}

abbrev arguments : Arguments
arguments = record {
  controller = "lamp";
  method = "on";
  service = none;
  query_params = [];
  request = record { jsonrpc = v2_0; id = JsonRpcId.null; method = "lamp.on"; params = none };
  params = none;
}

-- A registry whose calls time out.
abbrev late : Action (Iox2RpcRegistry ℕ ℕ × ℕ) JsonRpcResponse
late (registry, w) = (raised (error "TimeoutError" "no response"), (registry, suc w))

abbrev factory : Action ℕ (Iox2RpcRegistry ℕ ℕ)
factory w = (raised (error "RuntimeError" "no node"), w)

post_method_kept : Routes.post_method ≢ Routes.refresh_now
post_method_kept h = cc

run_handler-IsKept_example :
    ((run_handler factory
        (λ _ _ _ _. late)
        (λ _ _ _. late)
        5
        Routes.post_method
        arguments
        (gateway, 0)).1.0.last_error
      ≡ some "no node")
    × ((run_handler factory
          (λ _ _ _ _. late)
          (λ _ _ _. late)
          5
          Routes.post_method
          arguments
          (gateway, 0)).1.0.refresh_count
        ≡ 4)
run_handler-IsKept_example =
    run_handler-IsKept factory (λ _ _ _ _. late) (λ _ _ _. late) 5 Routes.post_method arguments
      gateway 0 post_method_kept

controller_detail-IsBodyOr404_example :
    (controller_detail gateway "lamp" none
      ≡ returned (body (description (describe (service "home" "lamp")))))
    × (controller_methods gateway "lamp" none
        ≡ returned (body (methods (methods_of (service "home" "lamp")))))
unfolding matching_services services_snapshot matches
controller_detail-IsBodyOr404_example = controller_detail-IsBodyOr404 gateway "lamp" none
