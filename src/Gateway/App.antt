-- ===== src/Gateway/App.antt =====
-- The apps of examples/webapi.py: create_dynamic_rpc_gateway_fastapi_app and
-- create_auto_discover_fastapi_app, by what FastAPI is given. Times are in milliseconds.
use iox2_jsonrpc.Base.{
  ℕ, String, Bool, true, Option, none, some, List, [], ◌∷◌, or_default, if◌then◌else◌,
}
use iox2_jsonrpc.Python.Int.{ℤ}
use iox2_jsonrpc.Python.Dict.{Dict}
use iox2_jsonrpc.Python.Value.{Value}
use iox2_jsonrpc.Python.Outcome.{Outcome, Action}
use iox2_jsonrpc.Registry.{Iox2RpcRegistry}
use iox2_jsonrpc.Gateway.{DynamicRpcGateway, new_gateway}
use iox2_jsonrpc.Gateway.Openapi.{custom_openapi}
use iox2_jsonrpc.Gateway.Routes.{Route, routes}
use iox2_jsonrpc.Gateway.Lifespan.{lifespan}

-- The keyword arguments.
pub record AppOptions (V K : Type 0) : Type 0 where
  pub gateway : Option (DynamicRpcGateway V K)
  pub title : String
  pub version : String
  pub description : String
  pub refresh_on_startup : Bool
  pub refresh_interval_s : Option ℤ
  pub install_dynamic_openapi : Bool
  pub tags : Option (List String)
  pub default_timeout_s : ℕ

-- What the app consists of.
pub record App (V K : Type 0) : Type 0 where
  pub title : String
  pub version : String
  pub description : String
  pub rpc_gateway : DynamicRpcGateway V K
  pub router : List Route
  pub route_tags : List String
  pub timeout : ℕ
  pub refresh_on_startup : Bool
  pub refresh_interval : Option ℤ
  pub dynamic_openapi : Bool

-- An absent or an empty list of tags.
abbrev tags_or_default : Option (List String) → List String
tags_or_default none = "dynamic-rpc" ∷ []
tags_or_default (some []) = "dynamic-rpc" ∷ []
tags_or_default (some (tag ∷ tags)) = tag ∷ tags

module _ {V K : Type 0} where
  -- The defaults of create_auto_discover_fastapi_app.
  abbrev pub auto_discover_defaults : AppOptions V K
  auto_discover_defaults = record {
    gateway = none;
    title = "Auto-discovered JSON-RPC API";
    version = "1.0.0";
    description = "FastAPI gateway that automatically discovers RPC controllers at runtime.";
    refresh_on_startup = true;
    refresh_interval_s = none;
    install_dynamic_openapi = true;
    tags = none;
    default_timeout_s = 5000;
  }

  unfoldable pub create_dynamic_rpc_gateway_fastapi_app : AppOptions V K → App V K
  create_dynamic_rpc_gateway_fastapi_app options = record {
    title = options.title;
    version = options.version;
    description = options.description;
    rpc_gateway = or_default options.gateway new_gateway;
    router = routes;
    route_tags = tags_or_default options.tags;
    timeout = options.default_timeout_s;
    refresh_on_startup = options.refresh_on_startup;
    refresh_interval = options.refresh_interval_s;
    dynamic_openapi = options.install_dynamic_openapi;
  }

  -- It has no tags of its own.
  unfoldable pub create_auto_discover_fastapi_app : AppOptions V K → App V K
  create_auto_discover_fastapi_app options =
      create_dynamic_rpc_gateway_fastapi_app (record options { tags = none })

  -- `app.openapi()`, of what FastAPI makes of the routes and of the gateway as it is by now.
  unfoldable pub app_openapi : App V K → DynamicRpcGateway V K → Dict Value → Dict Value
  app_openapi app gateway schema =
      if app.dynamic_openapi then custom_openapi gateway schema else schema

module _ {V K W : Type 0} (factory : Action W (Iox2RpcRegistry V K)) where
  -- The app from its start to its end, with the looks of its refresh loop.
  unfoldable pub run_app :
      App V K → List Bool → W → Outcome (Unit {0}) × (DynamicRpcGateway V K × W)
  run_app app looks w =
      lifespan factory app.refresh_on_startup app.refresh_interval looks (app.rpc_gateway, w)
