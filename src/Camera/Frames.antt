-- ===== src/Camera/Frames.antt =====
-- What the captures of examples/camera.py tell: their frames' numbers and their exposures.
use iox2_jsonrpc.Base.{
  ℕ, zero, suc, ◌+◌, String, ◌≡◌, refl, ap, subst, ◌∙◌, Option, none, some, List, [], ◌∷◌, All,
}
use iox2_jsonrpc.Python.Int.{pos}
use iox2_jsonrpc.Python.Value.{Value, int}
use iox2_jsonrpc.Python.Dict.{get}
use iox2_jsonrpc.Python.Outcome.{Outcome}
use iox2_jsonrpc.Models.{JsonRpcRequest, JsonRpcResponse}
use iox2_jsonrpc.Controller.{Attribute}
use iox2_jsonrpc.Endpoint.{answer, handle}
use iox2_jsonrpc.Endpoint.Series.{handle_each}
use iox2_jsonrpc.Camera.{CameraController, CameraModels, exposure_ms_field}
use iox2_jsonrpc.Camera.Requests.{
  Command, opening, closing, reporting, capturing, perform, command_of, IsPrivate, Served,
  performed, refused, camera_endpoint, handle-Served,
}
use iox2_jsonrpc.Camera.History.{commands_of, captures_in, with_command}
use iox2_jsonrpc.Camera.Told.{
  told, IsConstrained, told-Refusal, command_of-IsMade, IsTold, counted, perform-counted,
  perform-IsTold, IsWithin,
}

abbrev pub with_value : Option Value → List Value → List Value
with_value none values = values
with_value (some v) values = v ∷ values

abbrev pub all_told : String → List (Outcome JsonRpcResponse) → List Value
all_told name [] = []
all_told name (reply ∷ replies) = with_value (told name reply) (all_told name replies)

-- `count` numbers from `first` on.
abbrev pub numbered : ℕ → ℕ → List Value
numbered first zero = []
numbered first (suc count) = int (pos first) ∷ numbered (first + 1) count

-- The exposures of the captures among some commands.
abbrev pub exposures_in : List Command → List Value
exposures_in [] = []
exposures_in (capturing params ∷ commands) =
    with_value (get "exposure_ms" params) (exposures_in commands)
exposures_in (_ ∷ commands) = exposures_in commands

-- The replies to a series of requests: the numbers of frames count on from the camera's counter, and
-- the exposures are those asked for, within the bounds.
abbrev IsNumbered : List Command → ℕ → List (Outcome JsonRpcResponse) → Type 0
IsNumbered commands count replies =
    (all_told "frame_id" replies ≡ numbered (count + 1) (captures_in commands))
    × (all_told "exposure_ms" replies ≡ exposures_in commands)
    × All (IsWithin 1 10000) (all_told "exposure_ms" replies)

next-IsNumbered :
    (c : Command) (commands : List Command) (camera : CameraController)
    (reply : Outcome JsonRpcResponse) (replies : List (Outcome JsonRpcResponse))
    → IsTold c camera reply
    → IsNumbered commands (counted c camera) replies
    → IsNumbered (c ∷ commands) camera.captures (reply ∷ replies)
next-IsNumbered opening commands camera reply replies (f, x) h = rw (f, x) h
next-IsNumbered closing commands camera reply replies (f, x) h = rw (f, x) h
next-IsNumbered reporting commands camera reply replies (f, x) h = rw (f, x) h
next-IsNumbered (capturing params) commands camera reply replies (f, (n, x, asked, low, high))
      (fs, es, xs) =
    rw (f, x, asked)
      (
        ap (λ vs. int (pos (camera.captures + 1)) ∷ vs) fs,
        ap (λ vs. int (pos n) ∷ vs) es,
        ((n, refl, low, high), xs),
      )

module _ (models : CameraModels)
    (constrained : IsConstrained exposure_ms_field models.capture_params) where
  Served-IsNumbered :
      (request : JsonRpcRequest) (commands : List Command) (camera : CameraController)
      (after : Outcome JsonRpcResponse × CameraController)
      (replies : List (Outcome JsonRpcResponse))
      → Served models request camera after
      → IsNumbered commands after.1.captures replies
      → IsNumbered
          (with_command (command_of models request) commands)
          camera.captures
          (after.0 ∷ replies)
  Served-IsNumbered request commands camera after replies (performed c e same) h =
      rw (e, same)
        (next-IsNumbered c commands camera (answer request.id (perform c camera).0) replies
          (perform-IsTold models constrained request.id c camera
            (command_of-IsMade models request c e))
          (subst (λ n. IsNumbered commands n replies)
            (ap {A = Outcome JsonRpcResponse × CameraController} (λ r. r.1.captures) same
              ∙ perform-counted c camera)
            h))
  Served-IsNumbered request commands camera after replies (refused e same r) (fs, es, xs) =
      rw (e, told-Refusal "frame_id" after.0 r, told-Refusal "exposure_ms" after.0 r)
        (subst (λ c. IsNumbered commands c.captures replies) same (fs, es, xs))

  module _ (inherited : List (String × Attribute CameraController))
      (private : All IsPrivate inherited) where
    replies-IsNumbered :
        (requests : List JsonRpcRequest) (camera : CameraController)
        → IsNumbered
            (commands_of models requests)
            camera.captures
            (handle_each (camera_endpoint models inherited) requests camera).0
    unfolding handle_each
    replies-IsNumbered [] camera = (refl, refl, tt)
    replies-IsNumbered (request ∷ requests) camera =
        let after = handle (camera_endpoint models inherited) request camera in
        Served-IsNumbered request (commands_of models requests) camera after
          (handle_each (camera_endpoint models inherited) requests after.1).0
          (handle-Served models inherited request camera private)
          (replies-IsNumbered requests after.1)

    -- If the parameters of captures have the constrained field, the frames that the replies to any
    -- requests report are numbered one after another from the camera's counter on, one for each
    -- accepted capture.
    pub handle_each-frames :
        (requests : List JsonRpcRequest) (camera : CameraController)
        → all_told "frame_id" (handle_each (camera_endpoint models inherited) requests camera).0
          ≡ numbered (camera.captures + 1) (captures_in (commands_of models requests))
    handle_each-frames requests camera = (replies-IsNumbered requests camera).0

    -- If the parameters of captures have the constrained field, the exposures that the replies to any
    -- requests report are those that the accepted captures ask for, in their order, and each one is a
    -- number from 1 to 10000.
    pub handle_each-exposures :
        (requests : List JsonRpcRequest) (camera : CameraController)
        → let told =
            all_told "exposure_ms"
              (handle_each (camera_endpoint models inherited) requests camera).0 in
          (told ≡ exposures_in (commands_of models requests)) × All (IsWithin 1 10000) told
    handle_each-exposures requests camera =
        let (frames, exposures, within) = replies-IsNumbered requests camera in (exposures, within)
