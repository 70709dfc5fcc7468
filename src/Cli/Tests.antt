-- ===== src/Cli/Tests.antt =====
-- The client of examples/cli.py against the camera of Camera/Tests.antt.
use iox2_jsonrpc.Base.{ℕ, zero, suc, ◌⊎◌, inl, inr, refl, none, some, [], ◌∷◌}
use iox2_jsonrpc.Python.Outcome.{Outcome, Action, returned, raised, error}
use iox2_jsonrpc.Models.{JsonRpcRequest, JsonRpcResponse}
use iox2_jsonrpc.Registry.{DiscoveredRpcService, Iox2RpcRegistry}
use iox2_jsonrpc.Gateway.Select.{IsCaught}

abbrev Wire : Type 0
Wire = JsonRpcRequest ⊎ JsonRpcResponse

abbrev read_request : Wire → Outcome JsonRpcRequest
read_request (inl r) = returned r
read_request (inr r) = raised (error "ValidationError" "")

abbrev read_response : Wire → Outcome JsonRpcResponse
read_response (inl r) = raised (error "ValidationError" "")
read_response (inr r) = returned r

abbrev service : DiscoveredRpcService ℕ ℕ
service = record {
  service_name = "serverCam";
  controller_name = "camera";
  rpc_endpoint = "serverCam/camera/rpc";
  schema_endpoint = "serverCam/camera/schema";
  methods = "camera.capture" ∷ "camera.close" ∷ "camera.open" ∷ "camera.status" ∷ [];
  attributes = [];
  descriptor = none;
  rpc_service = some 1;
  rpc_client = some 2;
}

abbrev registry : Iox2RpcRegistry ℕ ℕ
registry = record { services = service ∷ []; request_counter = 0 }

-- A factory that counts its calls and fails at the first.
abbrev counting : Action ℕ (Iox2RpcRegistry ℕ ℕ)
counting zero = (raised (error "RuntimeError" "no node"), 1)
counting (suc n) = (returned registry, suc (suc n))

counting-IsCaught : (w : ℕ) → IsCaught (counting w).0
counting-IsCaught zero = refl
counting-IsCaught (suc n) = tt
