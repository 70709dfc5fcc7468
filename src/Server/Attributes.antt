-- ===== src/Server/Attributes.antt =====
-- The attributes that a server of iox2_jsonrpc/iceoryx_server.py publishes.
pub mod Recovered
mod Tests
use iox2_jsonrpc.Base.{String, List, [], ◌∷◌, map, join}
use iox2_jsonrpc.Python.Dict.{Dict, union}
use iox2_jsonrpc.Python.Outcome.{Outcome, returned, ◌>>=◌}
use iox2_jsonrpc.Models.{RpcServiceDescriptor}
use iox2_jsonrpc.Controller.{Controller, read_name}
use iox2_jsonrpc.Registry.Discovery.{comma}

module _ {S : Type 0} where
  unfoldable pub base_attributes : Controller S → String → S → Outcome (Dict String)
  base_attributes controller kind s = do
    service ← read_name (controller.service_name s) "service_name"
    name ← read_name (controller.controller_name s) "controller_name"
    returned (
        ("rpc.protocol", "jsonrpc-2.0")
        ∷ ("rpc.service", service)
        ∷ ("rpc.controller", name)
        ∷ ("rpc.kind", kind)
        ∷ [])

  -- `schema_endpoint` and `descriptor` are the server's.
  unfoldable pub rpc_attributes :
      String → RpcServiceDescriptor → Controller S → S → Outcome (Dict String)
  rpc_attributes schema_endpoint descriptor controller s = do
    base ← base_attributes controller "rpc" s
    returned (
        union base (
          ("rpc.schema", schema_endpoint)
          ∷ ("rpc.methods", join comma (map (λ m. m.jsonrpc_method) descriptor.methods))
          ∷ []))

  unfoldable pub schema_attributes : Controller S → S → Outcome (Dict String)
  schema_attributes controller s = base_attributes controller "schema" s
