-- ===== src/Camera/Requests.antt =====
-- The methods of examples/camera.py that the endpoint finds, and what one request does to the camera.
use iox2_jsonrpc.Base.{
  String, ◌≡◌, refl, ap, inl, inr, true, Option, none, some, List, [], ◌∷◌, ◌++◌, All, ◌==◌,
  startswith, or_default, Bool-cases, if◌then◌else◌,
}
use iox2_jsonrpc.Python.Value.{Value}
use iox2_jsonrpc.Python.Dict.{Dict}
use iox2_jsonrpc.Python.Outcome.{Outcome, Action, IfReturned}
use iox2_jsonrpc.Models.{JsonRpcRequest, JsonRpcResponse, Returned, fail}
use iox2_jsonrpc.Controller.{
  Attribute, RpcMethodBinding, Bindings, done, yields, Model, Validation, valid, invalid, crashed,
  scan_members, iter_rpc_methods, validate_controller, inspect_member,
}
use iox2_jsonrpc.Controller.Scan.{listed}
use iox2_jsonrpc.Endpoint.{ControllerRpcEndpoint, answer, invoke, call_validated, handle}
use iox2_jsonrpc.Endpoint.Dispatch.{serve, find_published, handle-eq-serve}
use iox2_jsonrpc.Camera.{
  CameraController, CameraModels, camera_members, camera_controller, camera_open, camera_close,
  camera_status, camera_capture,
}

-- A call that the camera is asked for and whose parameters are accepted.
pub data Command : Type 0 where
  opening : Command
  closing : Command
  reporting : Command
  capturing : Dict Value → Command

abbrev pub perform : Command → Action CameraController Returned
perform opening = camera_open []
perform closing = camera_close []
perform reporting = camera_status []
perform (capturing params) = camera_capture params

abbrev pub accepted : (Dict Value → Command) → Validation → Option Command
accepted command (valid params) = some (command params)
accepted command _ = none

-- What `dir` lists of an object itself.
abbrev pub IsPrivate : String × Attribute CameraController → Type 0
IsPrivate p = startswith p.0 "_" ≡ true

-- A reply without a result.
abbrev pub IsRefusal : Outcome JsonRpcResponse → Type 0
IsRefusal = IfReturned (λ r. r.result ≡ Value.null)

module _ (models : CameraModels) where
  -- The command that a request is, by its method and the validation of its parameters.
  unfoldable pub command_of : JsonRpcRequest → Option Command
  command_of request =
      let params = or_default request.params [] in
      if "camera.capture" == request.method
      then accepted capturing (models.capture_params.model_validate params)
      else (if "camera.close" == request.method
          then accepted (λ _. closing) (models.empty_params.model_validate params)
          else (if "camera.open" == request.method
              then accepted (λ _. opening) (models.empty_params.model_validate params)
              else (if "camera.status" == request.method
                  then accepted (λ _. reporting) (models.empty_params.model_validate params)
                  else none)))

  abbrev bind :
      String
      → (Dict Value → Action CameraController Returned)
      → Model
      → Model
      → RpcMethodBinding CameraController
  bind name fn params result = record {
    name = name;
    function = fn;
    params_model = params;
    result_model = result;
  }

  abbrev capture_binding : RpcMethodBinding CameraController
  capture_binding = bind "capture" camera_capture models.capture_params models.capture_result

  abbrev close_binding : RpcMethodBinding CameraController
  close_binding = bind "close" camera_close models.empty_params models.camera_status_result

  abbrev open_binding : RpcMethodBinding CameraController
  open_binding = bind "open" camera_open models.empty_params models.camera_status_result

  abbrev status_binding : RpcMethodBinding CameraController
  status_binding = bind "status" camera_status models.empty_params models.camera_status_result

  abbrev pub camera_bindings : Bindings CameraController
  camera_bindings =
      yields capture_binding
        (yields close_binding (yields open_binding (yields status_binding done)))

  scan_members-private :
      (inherited ms : List (String × Attribute CameraController))
      → All IsPrivate inherited
      → scan_members (inherited ++ ms) ≡ scan_members ms
  unfolding scan_members inspect_member
  scan_members-private [] ms h = refl
  scan_members-private ((name, a) ∷ inherited) ms h =
      rw (h.0, scan_members-private inherited ms h.1) refl

  pub iter_rpc_methods-camera :
      (inherited : List (String × Attribute CameraController)) (camera : CameraController)
      → All IsPrivate inherited
      → iter_rpc_methods (camera_controller inherited models) camera ≡ camera_bindings
  unfolding iter_rpc_methods validate_controller camera_controller camera_members startswith
  iter_rpc_methods-camera inherited camera h = scan_members-private inherited _ h

  -- What a request comes to.
  pub data Served (request : JsonRpcRequest) (camera : CameraController)
      (after : Outcome JsonRpcResponse × CameraController) : Type 0 where
    performed :
        (c : Command)
        → command_of request ≡ some c
        → after ≡ (answer request.id (perform c camera).0, (perform c camera).1)
        → Served request camera after
    refused :
        command_of request ≡ none
        → after.1 ≡ camera
        → IsRefusal after.0
        → Served request camera after

  validated-Served :
      (request : JsonRpcRequest) (b : RpcMethodBinding CameraController)
      (command : Dict Value → Command) (v : Validation) (camera : CameraController)
      → ((params : Dict Value) → b.function params camera ≡ perform (command params) camera)
      → command_of request ≡ accepted command v
      → Served request camera (call_validated request b v camera)
  unfolding call_validated fail
  validated-Served request b command (valid params) camera h e =
      performed (command params) e (
        ap {A = Outcome Returned × CameraController} (λ r. (answer request.id r.0, r.1)) (h params))
  validated-Served request b command (invalid errors) camera h e = refused e refl refl
  validated-Served request b command (crashed x) camera h e = refused e refl tt

  invoke-Served :
      (request : JsonRpcRequest) (b : RpcMethodBinding CameraController)
      (command : Dict Value → Command) (camera : CameraController)
      → ((params : Dict Value) → b.function params camera ≡ perform (command params) camera)
      → command_of request
        ≡ accepted command (b.params_model.model_validate (or_default request.params []))
      → Served request camera (invoke request b camera)
  unfolding invoke
  invoke-Served request b command camera h e =
      validated-Served request b command
        (b.params_model.model_validate (or_default request.params [])) camera h e

  serve-Served :
      (request : JsonRpcRequest) (text : String) (camera : CameraController)
      → Served request camera (
          serve request text
            (find_published "camera" request.method (listed camera_bindings))
            camera)
  unfolding command_of find_published listed fail camera_close camera_open camera_status
  serve-Served request text camera = elim (Bool-cases ("camera.capture" == request.method)) [
    | inl e ↦ rw e (invoke-Served request capture_binding capturing camera (λ p. refl) (rw e refl))
    | inr e ↦ rw e (elim (Bool-cases ("camera.close" == request.method)) [
      | inl f ↦
          rw f
            (invoke-Served request close_binding (λ _. closing) camera (λ p. refl) (rw (e, f) refl))
      | inr f ↦ rw f (elim (Bool-cases ("camera.open" == request.method)) [
        | inl g ↦ rw g (
            invoke-Served request open_binding (λ _. opening) camera (λ p. refl)
              (rw (e, f, g) refl))
        | inr g ↦ rw g (elim (Bool-cases ("camera.status" == request.method)) [
          | inl k ↦ rw k (
              invoke-Served request status_binding (λ _. reporting) camera (λ p. refl)
                (rw (e, f, g, k) refl))
          | inr k ↦ rw k (refused (rw (e, f, g, k) refl) refl refl)
        ])
      ])
    ])
  ]

module _ (models : CameraModels) (inherited : List (String × Attribute CameraController)) where
  -- What `ControllerRpcEndpoint` makes of a controller of this name.
  abbrev pub camera_endpoint : ControllerRpcEndpoint CameraController
  camera_endpoint = record {
    controller = camera_controller inherited models;
    controller_name = "camera";
  }

  -- Whatever the request, the camera is asked for one command, performed once, or for none, and then
  -- it stays as it is.
  pub handle-Served :
      (request : JsonRpcRequest) (camera : CameraController)
      → All IsPrivate inherited
      → Served models request camera (handle camera_endpoint request camera)
  handle-Served request camera h =
      let same = iter_rpc_methods-camera models inherited camera h in
      rw (handle-eq-serve camera_endpoint request camera (rw same tt), same)
        (serve-Served models request _ camera)
