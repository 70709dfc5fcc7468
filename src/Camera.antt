-- ===== src/Camera.antt =====
-- examples/camera.py: a controller with a state, as the endpoint of the library sees it. The four Pydantic
-- classes are the parameter `CameraModels`; what the file declares of `exposure_ms` is `exposure_ms_field`.
pub mod Requests
pub mod History
pub mod Told
pub mod Frames
pub mod Tests
use iox2_jsonrpc.Base.{
  ℕ, ◌+◌, ◌≤◌, String, ◌≡◌, Bool, true, false, Option, none, some, List, [], ◌∷◌, ◌++◌, or_default,
  if◌then◌else◌,
}
use iox2_jsonrpc.Python.Int.{pos}
use iox2_jsonrpc.Python.Value.{Value, bool, int, str}
use iox2_jsonrpc.Python.Dict.{Dict, get}
use iox2_jsonrpc.Python.Outcome.{Outcome, Action, returned, raised, error, ◌>>=◌}
use iox2_jsonrpc.Models.{Returned, model_instance}
use iox2_jsonrpc.Controller.{
  Attribute, not_callable, function, Controller, Hints, model_type, Model, valid,
}
use iox2_jsonrpc.Endpoint.{ControllerRpcEndpoint}

pub record CameraController : Type 0 where
  pub opened : Bool
  pub captures : ℕ
  pub service_name : String
  pub controller_name : String

-- `CameraController()`
abbrev pub new_camera : CameraController
new_camera = record {
  opened = false;
  captures = 0;
  service_name = "serverCam";
  controller_name = "camera";
}

-- The classes of the methods' annotations.
pub record CameraModels : Type 0 where
  pub empty_params : Model
  pub capture_params : Model
  pub camera_status_result : Model
  pub capture_result : Model

-- `name: int = Field(default=..., ge=..., le=...)`
pub record IntField : Type 0 where
  pub name : String
  pub default : ℕ
  pub ge : ℕ
  pub le : ℕ

abbrev pub exposure_ms_field : IntField
exposure_ms_field = record { name = "exposure_ms"; default = 10; ge = 1; le = 10000 }

-- The attribute `name` of an instance.
unfoldable pub read_field : String → Dict Value → Outcome Value
read_field name fields = elim (get name fields) [
  | none ↦ raised (error "AttributeError" name)
  | some value ↦ returned value
]

-- `CameraStatusResult(opened=self.opened, captures=self.captures)`
unfoldable pub status_fields : CameraController → Dict Value
status_fields camera =
    ("service", str "serverCam")
    ∷ ("opened", bool camera.opened)
    ∷ ("captures", int (pos camera.captures))
    ∷ []

-- `CaptureResult(...)`; its fields follow those of its base class.
unfoldable pub capture_fields : CameraController → Value → Dict Value
unfolding status_fields
capture_fields camera exposure_ms =
    status_fields camera
    ++ ("frame_id", int (pos camera.captures)) ∷ ("exposure_ms", exposure_ms) ∷ []

unfoldable pub camera_open : Dict Value → Action CameraController Returned
camera_open params camera =
    let camera = record camera { opened = true } in
    (returned (model_instance (status_fields camera)), camera)

unfoldable pub camera_close : Dict Value → Action CameraController Returned
camera_close params camera =
    let camera = record camera { opened = false } in
    (returned (model_instance (status_fields camera)), camera)

unfoldable pub camera_status : Dict Value → Action CameraController Returned
camera_status params camera = (returned (model_instance (status_fields camera)), camera)

unfoldable pub camera_capture : Dict Value → Action CameraController Returned
camera_capture params camera =
    let camera = if camera.opened then camera else record camera { opened = true } in
    let camera = record camera { captures = camera.captures + 1 } in
    (
      read_field "exposure_ms" params >>= λ exposure_ms.
          returned (model_instance (capture_fields camera exposure_ms)),
      camera,
    )

abbrev pub annotated : Model → Model → Outcome Hints
annotated params result =
    returned (record { params = model_type params; return_type = model_type result })

-- `inherited` is what `dir` lists before these names: those that begin with an underscore.
module _ (inherited : List (String × Attribute CameraController)) (models : CameraModels) where
  unfoldable pub camera_members : List (String × Attribute CameraController)
  camera_members =
      inherited
      ++ (
        "capture",
        function (annotated models.capture_params models.capture_result) camera_capture,
      )
        ∷ ("captures", not_callable)
        ∷ (
          "close",
          function (annotated models.empty_params models.camera_status_result) camera_close,
        )
        ∷ ("controller_name", not_callable)
        ∷ ("open", function (annotated models.empty_params models.camera_status_result) camera_open)
        ∷ ("opened", not_callable)
        ∷ ("service_name", not_callable)
        ∷ (
          "status",
          function (annotated models.empty_params models.camera_status_result) camera_status,
        )
        ∷ []

  unfoldable pub camera_controller : Controller CameraController
  camera_controller = record {
    service_name = λ camera. some camera.service_name;
    controller_name = λ camera. some camera.controller_name;
    members = λ camera. camera_members;
  }
