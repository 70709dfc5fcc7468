-- ===== src/Camera/Tests.antt =====
-- The camera of examples/camera.py, run through the endpoint, and the theorems at it.
use iox2_jsonrpc.Base.{
  ℕ, ◌≤◌, String, ◌≡◌, refl, none, some, Option, List, [], ◌∷◌, map, All, arith, leb, ◌&&◌,
  Option-cases, inl, inr, startswith, if◌then◌else◌,
}
use iox2_jsonrpc.Python.Int.{pos}
use iox2_jsonrpc.Python.Value.{Value, str, int}
use iox2_jsonrpc.Python.Dict.{Dict, get}
use iox2_jsonrpc.Python.Outcome.{returned}
use iox2_jsonrpc.Models.{v2_0, JsonRpcId, JsonRpcRequest, JsonRpcResponse}
use iox2_jsonrpc.Controller.{
  Attribute, function, missing, Model, Validation, valid, invalid, iter_rpc_methods,
}
use iox2_jsonrpc.Controller.Scan.{listed, Ends}
use iox2_jsonrpc.Endpoint.Series.{handle_each, handle_each-answered}
use iox2_jsonrpc.Endpoint.Total.{IsReported, IsWellBehaved, RaisesOnlyExceptions}
use iox2_jsonrpc.Camera.{
  CameraController, CameraModels, exposure_ms_field, new_camera, camera_open, camera_close,
  camera_status, camera_capture, camera_controller, read_field,
}
use iox2_jsonrpc.Camera.Requests.{
  camera_endpoint, command_of, camera_bindings, iter_rpc_methods-camera,
}
use iox2_jsonrpc.Camera.History.{handle_each-history, commands_of, after_history}
use iox2_jsonrpc.Camera.Told.{IsConstrained, IsWithin}
use iox2_jsonrpc.Camera.Frames.{all_told, exposures_in, handle_each-frames, handle_each-exposures}

abbrev refusal : Validation
refusal = invalid (str "Input should be a valid integer from 1 to 10000" ∷ [])

abbrev exposed : ℕ → Validation
exposed n = valid (("service", str "serverCam") ∷ ("exposure_ms", int (pos n)) ∷ [])

abbrev check_exposure : Option Value → Validation
check_exposure none = exposed 10
check_exposure (some (int (pos n))) = if leb 1 n && leb n 10000 then exposed n else refusal
check_exposure (some _) = refusal

abbrev check_empty : Dict Value → Validation
check_empty [] = valid []
check_empty (p ∷ d) = invalid (str "Extra inputs are not permitted" ∷ [])

abbrev model_of : String → (Dict Value → Validation) → Model
model_of name check = record { name = name; model_json_schema = []; model_validate = check }

abbrev pub models : CameraModels
models = record {
  empty_params = model_of "EmptyParams" check_empty;
  capture_params = model_of "CaptureParams" (λ d. check_exposure (get "exposure_ms" d));
  camera_status_result = model_of "CameraStatusResult" valid;
  capture_result = model_of "CaptureResult" valid;
}

-- One attribute of an object itself, for all of them.
abbrev pub inherited : List (String × Attribute CameraController)
inherited =
    (
      "__init__",
      function (returned (record { params = missing; return_type = missing })) camera_status,
    )
    ∷ []

abbrev request : String → Dict Value → JsonRpcRequest
request method params = record {
  jsonrpc = v2_0;
  id = JsonRpcId.text method;
  method = method;
  params = some params;
}

-- Two captures, with a close and two refusals between them, and a status.
abbrev requests : List JsonRpcRequest
requests =
    request "camera.capture" []
    ∷ request "camera.close" []
    ∷ request "camera.capture" (("exposure_ms", int (pos 0)) ∷ [])
    ∷ request "camera.zoom" []
    ∷ request "camera.capture" (("exposure_ms", int (pos 20)) ∷ [])
    ∷ request "camera.status" []
    ∷ []

check_exposure-IsReported : (o : Option Value) → IsReported (check_exposure o)
check_exposure-IsReported o = ground arith

-- What an instance holds.
abbrev exposure_of : Option Value → ℕ
exposure_of (some (int (pos n))) = n
exposure_of _ = 10

check_exposure-between :
    (o : Option Value) (fields : Dict Value)
    → check_exposure o ≡ valid fields
    → (n : ℕ) × (get "exposure_ms" fields ≡ some (int (pos n))) × (1 ≤ n) × (n ≤ 10000)
unfolding get
check_exposure-between o fields h = (exposure_of o, ground arith, ground arith, ground arith)

pub models-IsConstrained : IsConstrained exposure_ms_field models.capture_params
models-IsConstrained = record { between = λ d. check_exposure-between (get "exposure_ms" d) }

handle_each-history_example :
    (handle_each (camera_endpoint models inherited) requests new_camera).1
    ≡ after_history (commands_of models requests) new_camera
unfolding startswith
handle_each-history_example = handle_each-history models inherited (refl, tt) requests new_camera

handle_each-frames_example :
    all_told "frame_id" (handle_each (camera_endpoint models inherited) requests new_camera).0
    ≡ int (pos 1) ∷ int (pos 2) ∷ []
unfolding startswith command_of get
handle_each-frames_example =
    handle_each-frames models models-IsConstrained inherited (refl, tt) requests new_camera

handle_each-exposures_example :
    let told =
      all_told "exposure_ms"
        (handle_each (camera_endpoint models inherited) requests new_camera).0 in
    (told ≡ exposures_in (commands_of models requests)) × All (IsWithin 1 10000) told
unfolding startswith
handle_each-exposures_example =
    handle_each-exposures models models-IsConstrained inherited (refl, tt) requests new_camera

check_empty-IsReported : (d : Dict Value) → IsReported (check_empty d)
check_empty-IsReported [] = tt
check_empty-IsReported (p ∷ d) = tt

-- The only exception of `capture` is that of a missing field.
capture_raises :
    (params : Dict Value) (camera : CameraController)
    → RaisesOnlyExceptions (camera_capture params camera).0
unfolding camera_capture read_field
capture_raises params camera = elim (Option-cases (get "exposure_ms" params)) [
  | inl e ↦ rw (e, read_field) refl
  | inr (v, e) ↦ rw (e, read_field) tt
]

bindings-IsWellBehaved : All IsWellBehaved (listed (camera_bindings models))
unfolding listed camera_close camera_open camera_status
bindings-IsWellBehaved = (
  record {
    validates = λ d. check_exposure-IsReported (get "exposure_ms" d);
    calls = capture_raises;
  },
  (
    record { validates = check_empty-IsReported; calls = λ d camera. tt },
    (
      record { validates = check_empty-IsReported; calls = λ d camera. tt },
      (record { validates = check_empty-IsReported; calls = λ d camera. tt }, tt),
    ),
  ),
)

camera-Ends :
    (camera : CameraController)
    → Ends (iter_rpc_methods (camera_controller inherited models) camera)
unfolding startswith
camera-Ends camera = rw (iter_rpc_methods-camera models inherited camera (refl, tt)) tt

camera_good :
    (camera : CameraController)
    → All IsWellBehaved (listed (iter_rpc_methods (camera_controller inherited models) camera))
unfolding startswith
camera_good camera =
    rw (iter_rpc_methods-camera models inherited camera (refl, tt)) bindings-IsWellBehaved

handle_each-answered_example :
    (responses : List JsonRpcResponse) × ((handle_each
        (camera_endpoint models inherited)
        requests
        new_camera).0
      ≡ map returned responses)
    × (map (λ r. r.id) responses ≡ map (λ q. q.id) requests)
handle_each-answered_example =
    handle_each-answered (camera_endpoint models inherited) camera-Ends camera_good requests
      new_camera
