-- ===== src/Camera/Told.antt =====
-- What the reply to one request tells of the camera of examples/camera.py.
use iox2_jsonrpc.Base.{
  ℕ, ◌+◌, ◌≤◌, String, ◌≡◌, refl, ap, subst, ◌∙◌, true, Option, none, some, [], ◌==◌, or_default,
  if-either, if◌then◌else◌,
}
use iox2_jsonrpc.Python.Int.{pos}
use iox2_jsonrpc.Python.Value.{Value, Fields, end, field, dict, int}
use iox2_jsonrpc.Python.Dict.{Dict, get}
use iox2_jsonrpc.Python.Outcome.{Outcome, returned, raised, ◌>>=◌}
use iox2_jsonrpc.Models.{
  JsonRpcId, JsonRpcRequest, JsonRpcResponse, model_instance, ok, make_response,
  exactly_one_payload,
}
use iox2_jsonrpc.Controller.{Model, Validation, valid, invalid, crashed}
use iox2_jsonrpc.Endpoint.{answer}
use iox2_jsonrpc.Camera.{
  CameraController, CameraModels, IntField, exposure_ms_field, read_field, status_fields,
  capture_fields, camera_open, camera_close, camera_status, camera_capture,
}
use iox2_jsonrpc.Camera.Requests.{
  Command, opening, closing, reporting, capturing, accepted, perform, command_of, IsRefusal,
}
use iox2_jsonrpc.Camera.History.{camera_capture-state}

abbrev field_in : String → Fields → Option Value
field_in name end = none
field_in name (field k v fields) =
    let rest = field_in name fields in if k == name then some v else rest

abbrev field_of : String → Value → Option Value
field_of name (dict fields) = field_in name fields
field_of name _ = none

-- A field of the result that a reply carries.
abbrev pub told : String → Outcome JsonRpcResponse → Option Value
told name (returned r) = field_of name r.result
told name (raised e) = none

-- What Pydantic documents of an `int` field with `ge` and `le`: an instance has a value between
-- them.
pub record IsConstrained (f : IntField) (m : Model) : Type 0 where
  pub between :
      (d fields : Dict Value)
      → m.model_validate d ≡ valid fields
      → (n : ℕ) × (get f.name fields ≡ some (int (pos n))) × (f.ge ≤ n) × (n ≤ f.le)

-- A number from `low` to `high`.
abbrev pub IsWithin : ℕ → ℕ → Value → Type 0
IsWithin low high v = (n : ℕ) × (v ≡ int (pos n)) × (low ≤ n) × (n ≤ high)

pub told-Refusal : (name : String) (o : Outcome JsonRpcResponse) → IsRefusal o → told name o ≡ none
told-Refusal name (returned r) h = rw h refl
told-Refusal name (raised e) h = refl

-- A command whose parameters its model has made.
abbrev pub IsMade : CameraModels → Command → Type 0
IsMade models (capturing params) =
    (d : Dict Value) × (models.capture_params.model_validate d ≡ valid params)
IsMade models _ = Unit

module _ (models : CameraModels) where
  accepted-IsMade :
      (command : Dict Value → Command) (v : Validation) (c : Command)
      → ((params : Dict Value) → v ≡ valid params → IsMade models (command params))
      → accepted command v ≡ some c
      → IsMade models c
  accepted-IsMade command (valid params) c h e =
      let same : command params ≡ c = cc in subst (IsMade models) same (h params refl)
  accepted-IsMade command (invalid errors) c h e = cc
  accepted-IsMade command (crashed x) c h e = cc

  pub command_of-IsMade :
      (request : JsonRpcRequest) (c : Command)
      → command_of models request ≡ some c
      → IsMade models c
  unfolding command_of
  command_of-IsMade request c =
      let d = or_default request.params [] in
      let P : Option Command → Type 0 = λ o. o ≡ some c → IsMade models c in
      let empty : (command : Command)
          → IsMade models command
          → P (accepted (λ _. command) (models.empty_params.model_validate d)) =
        λ command made. accepted-IsMade (λ _. command) _ c (λ p v. made) in
      let absent : P none = λ h. cc in
      if-either P _ _ _ (accepted-IsMade capturing _ c (λ p v. (d, v))) (
        if-either P _ _ _ (empty closing tt)
          (if-either P _ _ _ (empty opening tt) (if-either P _ _ _ (empty reporting tt) absent)))

read_field-some :
    (name : String) (fields : Dict Value) (v : Value)
    → get name fields ≡ some v
    → read_field name fields ≡ returned v
unfolding read_field
read_field-some name fields v h = rw (h, read_field) refl

pub camera_capture-returned :
    (params : Dict Value) (camera : CameraController) (v : Value)
    → get "exposure_ms" params ≡ some v
    → (camera_capture params camera).0
      ≡ returned (
          model_instance
            (capture_fields (record camera { opened = true; captures = camera.captures + 1 }) v))
unfolding camera_capture
camera_capture-returned params camera v h =
    ap
      (λ o.
        o >>= λ x. returned (model_instance (capture_fields (camera_capture params camera).1 x)))
      (read_field-some "exposure_ms" params v h)
    ∙ ap (λ c. returned (model_instance (capture_fields c v))) (camera_capture-state params camera)

-- What the reply to a command adds to what is told.
abbrev pub IsTold : Command → CameraController → Outcome JsonRpcResponse → Type 0
IsTold (capturing params) camera reply =
    (told "frame_id" reply ≡ some (int (pos (camera.captures + 1))))
    × ((n : ℕ) × (told "exposure_ms" reply ≡ some (int (pos n)))
        × (get "exposure_ms" params ≡ some (int (pos n)))
        × (1 ≤ n)
        × (n ≤ 10000))
IsTold _ camera reply = (told "frame_id" reply ≡ none) × (told "exposure_ms" reply ≡ none)

abbrev pub counted : Command → CameraController → ℕ
counted (capturing params) camera = camera.captures + 1
counted _ camera = camera.captures

pub perform-counted :
    (c : Command) (camera : CameraController) → (perform c camera).1.captures ≡ counted c camera
unfolding camera_open camera_close camera_status
perform-counted opening camera = refl
perform-counted closing camera = refl
perform-counted reporting camera = refl
perform-counted (capturing params) camera =
    ap {A = CameraController} (λ c. c.captures) (camera_capture-state params camera)

module _ (models : CameraModels)
    (constrained : IsConstrained exposure_ms_field models.capture_params) where
  pub perform-IsTold :
      (id : JsonRpcId) (c : Command) (camera : CameraController)
      → IsMade models c
      → IsTold c camera (answer id (perform c camera).0)
  unfolding answer ok make_response exactly_one_payload capture_fields status_fields camera_open
      camera_close camera_status
  perform-IsTold id opening camera made = (refl, refl)
  perform-IsTold id closing camera made = (refl, refl)
  perform-IsTold id reporting camera made = (refl, refl)
  perform-IsTold id (capturing params) camera (d, v) =
      let (n, e, low, high) = constrained.between d params v in
      rw (camera_capture-returned params camera (int (pos n)) e) (refl, (n, refl, e, low, high))
