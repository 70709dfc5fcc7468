-- ===== src/Cli.antt =====
-- examples/cli.py: the client of the camera, and the choice of a mode, and the app of its API. What is logged is left out.
pub mod Session
pub mod Api
mod Tests
use iox2_jsonrpc.Base.{ℕ, String, Option, none, some, true, [], ◌∷◌, ◌==◌, if◌then◌else◌}
use iox2_jsonrpc.Python.Int.{pos}
use iox2_jsonrpc.Python.Value.{Value, int}
use iox2_jsonrpc.Python.Dict.{Dict}
use iox2_jsonrpc.Python.Outcome.{Outcome, Action, returned, raised, error}
use iox2_jsonrpc.Python.Action.{pure, raise, ◌>>=◌, ◌>>◌}
use iox2_jsonrpc.Models.{JsonRpcResponse}
use iox2_jsonrpc.Gateway.App.{App, auto_discover_defaults, create_auto_discover_fastapi_app}

-- The default of `timeout_s`.
abbrev pub default_timeout : ℕ
default_timeout = 5000

abbrev pub exposure_25 : Dict Value
exposure_25 = ("exposure_ms", int (pos 25)) ∷ []

-- `S` is the registry with its world.
module _ {S : Type 0}
    (call_unique : String → Option (Dict Value) → ℕ → Action S JsonRpcResponse) where
  -- The calls of `run_client`.
  unfoldable pub client_calls : Action S (Unit {0})
  client_calls =
      call_unique "camera.status" none default_timeout
      >> (call_unique "camera.capture" (some exposure_25) default_timeout
          >> (call_unique "camera.capture" none default_timeout
              >> (call_unique "camera.close" none default_timeout >> pure tt)))

module _ {R W : Type 0} (discover_all : Action W R)
    (call_unique : String → Option (Dict Value) → ℕ → Action (R × W) JsonRpcResponse) where
  -- What follows the discovery.
  unfoldable pub after_discovery : Outcome R × W → Outcome (Unit {0}) × W
  after_discovery (raised e, w) = (raised e, w)
  after_discovery (returned registry, w) =
      let (o, s) = client_calls call_unique (registry, w) in (o, s.1)

  unfoldable pub run_client : Action W (Unit {0})
  run_client w = after_discovery (discover_all w)

-- `create_fastapi_app`
unfoldable pub create_fastapi_app : {V K : Type 0} → App V K
create_fastapi_app = create_auto_discover_fastapi_app (record auto_discover_defaults {
  title = "Auto-discovered RPC API";
  description =
      "Discovers iox2 JSON-RPC services and exposes them through simple /controllers/** routes.";
  refresh_on_startup = true;
  refresh_interval_s = some (pos 1000);
  install_dynamic_openapi = true;
})

-- `main`, after the arguments are read; argparse lets no other mode pass.
unfoldable pub run_mode :
    {W : Type 0} → Action W (Unit {0}) → Action W (Unit {0}) → String → Action W (Unit {0})
run_mode run_client run_api mode w =
    if mode == "client"
    then run_client w
    else (if mode == "api" then run_api w else raise (error "AssertionError" mode) w)
