-- ===== src/Cli/Session.antt =====
-- What the client of examples/cli.py does to the camera of examples/camera.py.
use iox2_jsonrpc.Base.{ℕ, String, Option, List, [], or_default}
use iox2_jsonrpc.Python.Value.{Value, dict_of, IsJson}
use iox2_jsonrpc.Python.Dict.{Dict}
use iox2_jsonrpc.Python.Outcome.{Outcome, Action}
use iox2_jsonrpc.Models.{JsonRpcRequest, JsonRpcResponse}
use iox2_jsonrpc.Controller.{Attribute}
use iox2_jsonrpc.Endpoint.{handle_bytes}
use iox2_jsonrpc.Registry.{Iox2RpcRegistry, call_unique}
use iox2_jsonrpc.Camera.{CameraController, CameraModels}
use iox2_jsonrpc.Camera.Requests.{camera_endpoint}

-- The parameters can be written as JSON.
abbrev pub IsJsonRequest : JsonRpcRequest → Type 0
IsJsonRequest r = IsJson (dict_of (or_default r.params []))

-- The bytes of a call reach the camera's endpoint.
abbrev pub to_camera :
    {K Bytes : Type 0}
    → CameraModels
    → List (String × Attribute CameraController)
    → (Bytes → Outcome JsonRpcRequest)
    → (JsonRpcResponse → Outcome Bytes)
    → K
    → Bytes
    → ℕ
    → Action CameraController Bytes
to_camera models inherited parse_request dump_response client raw timeout =
    handle_bytes parse_request dump_response (camera_endpoint models inherited) raw

module _ {V K Bytes : Type 0} (models : CameraModels)
    (inherited : List (String × Attribute CameraController))
    (parse_request : Bytes → Outcome JsonRpcRequest) (dump_request : JsonRpcRequest → Outcome Bytes)
    (parse_response : Bytes → Outcome JsonRpcResponse)
    (dump_response : JsonRpcResponse → Outcome Bytes) where
  abbrev pub call_camera :
      String
      → Option (Dict Value)
      → ℕ
      → Action (Iox2RpcRegistry V K × CameraController) JsonRpcResponse
  call_camera =
      call_unique (to_camera models inherited parse_request dump_response) dump_request
        parse_response
