-- ===== src/Camera/History.antt =====
-- The camera of examples/camera.py against what has been asked of it: its state is that of the history.
use iox2_jsonrpc.Base.{
  ℕ, suc, ◌+◌, String, ◌≡◌, refl, ap, ◌∙◌, Bool, true, false, Option, none, some, List, [], ◌∷◌,
  All, arith, inl, inr, Bool-cases, if_true, if_false,
}
use iox2_jsonrpc.Python.Outcome.{Outcome}
use iox2_jsonrpc.Python.Dict.{Dict}
use iox2_jsonrpc.Python.Value.{Value}
use iox2_jsonrpc.Models.{JsonRpcRequest, JsonRpcResponse}
use iox2_jsonrpc.Controller.{Attribute}
use iox2_jsonrpc.Endpoint.{handle}
use iox2_jsonrpc.Endpoint.Series.{handle_each}
use iox2_jsonrpc.Camera.{
  CameraController, CameraModels, camera_open, camera_close, camera_status, camera_capture,
}
use iox2_jsonrpc.Camera.Requests.{
  Command, opening, closing, reporting, capturing, perform, command_of, IsPrivate, Served,
  performed, refused, camera_endpoint, handle-Served,
}

abbrev pub with_command : Option Command → List Command → List Command
with_command none commands = commands
with_command (some c) commands = c ∷ commands

-- What the requests ask for, refused ones left out.
abbrev pub commands_of : CameraModels → List JsonRpcRequest → List Command
commands_of models [] = []
commands_of models (request ∷ requests) =
    with_command (command_of models request) (commands_of models requests)

-- Whether the camera is open: as the last command that is no status request says.
abbrev pub opened_after : List Command → Bool → Bool
opened_after [] opened = opened
opened_after (opening ∷ commands) opened = opened_after commands true
opened_after (closing ∷ commands) opened = opened_after commands false
opened_after (reporting ∷ commands) opened = opened_after commands opened
opened_after (capturing params ∷ commands) opened = opened_after commands true

abbrev pub captures_in : List Command → ℕ
captures_in [] = 0
captures_in (capturing params ∷ commands) = suc (captures_in commands)
captures_in (_ ∷ commands) = captures_in commands

-- The state that a history of commands leads to.
abbrev pub after_history : List Command → CameraController → CameraController
after_history commands camera = record camera {
  opened = opened_after commands camera.opened;
  captures = camera.captures + captures_in commands;
}

-- A capture opens the camera and counts itself.
pub camera_capture-state :
    (params : Dict Value) (camera : CameraController)
    → (camera_capture params camera).1
      ≡ record camera { opened = true; captures = camera.captures + 1 }
unfolding camera_capture
camera_capture-state params camera = elim (Bool-cases camera.opened) [
  | inl e ↦
      ap {A = CameraController} (λ c. record c { captures = c.captures + 1 })
        (if_true camera.opened camera _ e)
      ∙ ap (λ b. record camera { opened = b; captures = camera.captures + 1 }) e
  | inr e ↦
      ap {A = CameraController} (λ c. record c { captures = c.captures + 1 })
        (if_false camera.opened camera _ e)
]

perform-history :
    (c : Command) (commands : List Command) (camera : CameraController)
    → after_history commands (perform c camera).1 ≡ after_history (c ∷ commands) camera
unfolding camera_open camera_close camera_status camera_capture
perform-history opening commands camera = refl
perform-history closing commands camera = refl
perform-history reporting commands camera = refl
perform-history (capturing params) commands camera =
    ap (after_history commands) (camera_capture-state params camera)
    ∙ ap (λ n. record camera { opened = opened_after commands true; captures = n }) (omega arith)

module _ (models : CameraModels) (inherited : List (String × Attribute CameraController))
    (private : All IsPrivate inherited) where
  Served-history :
      (request : JsonRpcRequest) (commands : List Command) (camera : CameraController)
      (after : Outcome JsonRpcResponse × CameraController)
      → Served models request camera after
      → after_history commands after.1
        ≡ after_history (with_command (command_of models request) commands) camera
  Served-history request commands camera after (performed c e same) =
      rw (e, same) (perform-history c commands camera)
  Served-history request commands camera after (refused e same r) = rw (e, same) refl

  -- After any requests the camera is open or closed as the last accepted open, close or capture left
  -- it, and has counted the accepted captures; nothing else of it has changed.
  pub handle_each-history :
      (requests : List JsonRpcRequest) (camera : CameraController)
      → (handle_each (camera_endpoint models inherited) requests camera).1
        ≡ after_history (commands_of models requests) camera
  unfolding handle_each
  handle_each-history [] camera = ap (λ n. record camera { captures = n }) (omega arith)
  handle_each-history (request ∷ requests) camera =
      let after = handle (camera_endpoint models inherited) request camera in
      handle_each-history requests after.1
      ∙ Served-history request (commands_of models requests) camera after
          (handle-Served models inherited request camera private)
