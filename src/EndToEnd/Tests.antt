-- ===== src/EndToEnd/Tests.antt =====
-- A controller with one method, called through a registry.
use iox2_jsonrpc.Base.{
  ℕ, zero, suc, ◌≡◌, refl, ◌⊎◌, inl, inr, none, some, [], ◌∷◌, startswith, removeprefix,
}
use iox2_jsonrpc.Python.Int.{pos}
use iox2_jsonrpc.Python.Value.{Value, dict_of}
use iox2_jsonrpc.Python.Dict.{Dict}
use iox2_jsonrpc.Python.Outcome.{Outcome, Action, returned, raised, error}
use iox2_jsonrpc.Models.{v2_0, JsonRpcId, JsonRpcRequest, JsonRpcResponse, Returned, model_instance}
use iox2_jsonrpc.Controller.{function, model_type, Model, valid, iter_rpc_methods}
use iox2_jsonrpc.Endpoint.{ControllerRpcEndpoint, handle, dispatch, invoke, answer}
use iox2_jsonrpc.Helpers.Bytes.{Bytes}
use iox2_jsonrpc.Registry.{DiscoveredRpcService, Iox2RpcRegistry, call_request}

abbrev anything : Model
anything = record { name = "Anything"; model_json_schema = []; model_validate = λ d. valid d }

-- Memory as it is lent.
abbrev pub zeros : ℕ → Bytes
zeros zero = []
zeros (suc n) = let rest = zeros n in 0 ∷ rest

-- `on` counts its calls.
abbrev on : Dict Value → Action ℕ Returned
on params calls = (returned (model_instance []), suc calls)

abbrev pub endpoint : ControllerRpcEndpoint ℕ
endpoint = record {
  controller = record {
    service_name = λ _. some "home";
    controller_name = λ _. some "lamp";
    members = λ _.
        (
          "on",
          function
              (returned
                (record { params = model_type anything; return_type = model_type anything }))
              on,
        )
        ∷ [];
  };
  controller_name = "lamp";
}

abbrev Wire : Type 0
Wire = JsonRpcRequest ⊎ JsonRpcResponse

abbrev read_request : Wire → Outcome JsonRpcRequest
read_request (inl r) = returned r
read_request (inr r) = raised (error "ValidationError" "")

abbrev read_response : Wire → Outcome JsonRpcResponse
read_response (inl r) = raised (error "ValidationError" "")
read_response (inr r) = returned r

abbrev pub service : DiscoveredRpcService ℕ ℕ
service = record {
  service_name = "home";
  controller_name = "lamp";
  rpc_endpoint = "home/lamp/rpc";
  schema_endpoint = "home/lamp/schema";
  methods = "lamp.on" ∷ [];
  attributes = [];
  descriptor = none;
  rpc_service = some 1;
  rpc_client = some 2;
}

abbrev pub registry : Iox2RpcRegistry ℕ ℕ
registry = record { services = service ∷ []; request_counter = 4 }

abbrev pub reply : JsonRpcResponse
reply = record { jsonrpc = v2_0; id = JsonRpcId.number (pos 5); result = dict_of []; error = none }

pub handled : handle endpoint (call_request 5 "lamp.on" none) 0 ≡ (returned reply, 1)
unfolding handle dispatch invoke answer iter_rpc_methods startswith removeprefix call_request
handled = refl
