-- ===== src/Gateway/Factory.antt =====
-- `_default_registry_factory` of examples/webapi.py: a gateway whose registries come from `discover_all`
-- of iox2_jsonrpc/iceoryx_registry.py.
pub mod Found
mod Tests
use iox2_jsonrpc.Base.{ℕ, Bool, List}
use iox2_jsonrpc.Python.Outcome.{Outcome, Action, returned, raised}
use iox2_jsonrpc.Models.{RpcServiceDescriptor}
use iox2_jsonrpc.Helpers.Bytes.{Bytes}
use iox2_jsonrpc.Registry.{DiscoveredRpcService, Iox2RpcRegistry}
use iox2_jsonrpc.Registry.Discovery.Loop.{Discovery, discover_all}
use iox2_jsonrpc.Registry.Discovery.Loading.{Opening, load_all_descriptors}

-- The options of the gateway that the factory takes; the time is in milliseconds.
pub record FactoryOptions : Type 0 where
  pub timeout : ℕ
  pub initial_max_slice_len : ℕ
  pub load_descriptors : Bool

module _ {V K : Type 0} where
  -- The registry, whose services were changed in place.
  unfoldable pub with_loaded :
      {W : Type 0}
      → Iox2RpcRegistry V K
      → Outcome (Unit {0}) × (List (DiscoveredRpcService V K) × W)
      → Outcome (Iox2RpcRegistry V K) × W
  with_loaded registry (returned u, (services, w)) =
      (returned (record registry { services = services }), w)
  with_loaded registry (raised e, (services, w)) = (raised e, w)

module _ {W V K : Type 0} (d : Discovery W) (opening : Opening W V K)
    (request_bytes : K → Bytes → ℕ → Action W Bytes)
    (parse_descriptor : Bytes → Outcome RpcServiceDescriptor) where
  unfoldable pub load_registry :
      FactoryOptions → Iox2RpcRegistry V K → Action W (Iox2RpcRegistry V K)
  load_registry options registry w = with_loaded registry (
      load_all_descriptors opening request_bytes parse_descriptor options.timeout
        options.initial_max_slice_len registry.services w)

  unfoldable pub default_registry_factory : FactoryOptions → ℕ → Action W (Iox2RpcRegistry V K)
  default_registry_factory options fuel =
      discover_all d fuel options.timeout options.load_descriptors (load_registry options)
