-- ===== src/Gateway.antt =====
-- `DynamicRpcGateway` of examples/webapi.py: its state and what it tells of the discovered services. A
-- method that holds the lock is one step; the services are those of the registry's module.
pub mod Calls
pub mod Openapi
pub mod Select
pub mod Replies
pub mod Threads
pub mod Routes
pub mod Handlers
pub mod Lifespan
pub mod App
pub mod Factory
mod Tests
use iox2_jsonrpc.Base.{
  ℕ, ◌+◌, String, Char, Bool, true, not, ◌&&◌, Option, none, some, List, [], ◌∷◌, ◌++◌, map, filter,
  length, is_none, ◌&◌, ◌==◌, has_char, after_first, nonempty, ◌⊎◌, inl, inr, if◌then◌else◌,
}
use iox2_jsonrpc.Python.Dict.{Dict, put}
use iox2_jsonrpc.Python.Repr.{repr, repr_list}
use iox2_jsonrpc.Python.Value.{Value}
use iox2_jsonrpc.Python.Outcome.{Exception, Outcome, Action, returned, raised, ◌>>=◌}
use iox2_jsonrpc.Models.{
  JsonRpcId, JsonRpcResponse, RpcMethodDescriptor, RpcServiceDescriptor, fail,
}
use iox2_jsonrpc.Endpoint.{method_not_found}
use iox2_jsonrpc.Registry.{
  DiscoveredRpcService, Iox2RpcRegistry, CatalogEntry, catalog, catalog_entry,
}

pub record ControllerRouteInfo : Type 0 where
  pub service : String
  pub controller : String
  pub rpc_endpoint : String
  pub schema_endpoint : String
  pub method_routes : List String

pub record DynamicGatewayStatus : Type 0 where
  pub ok : Bool
  pub refresh_count : ℕ
  pub service_count : ℕ
  pub last_error : Option String

pub record DynamicRpcGateway (V K : Type 0) : Type 0 where
  pub registry : Option (Iox2RpcRegistry V K)
  pub last_error : Option String
  pub refresh_count : ℕ

-- What is told of a service: its descriptor, or the summary of `_service_summary`.
pub data Description : Type 0 where
  described : RpcServiceDescriptor → Description
  summary : CatalogEntry → Description

abbrev pub dot : Char
dot = "."

-- `method.split(".", 1)[1] if "." in method else method`
unfoldable pub local_name : String → String
local_name method = if has_char dot method then after_first dot method else method

abbrev pub routes_of : String → List String → List String
routes_of controller [] = []
routes_of controller (method ∷ methods) =
    ("GET /controllers/" & controller & "/" & method)
    ∷ ("POST /controllers/" & controller & "/" & method)
    ∷ routes_of controller methods

abbrev pub for_service : Option String → String
for_service none = ""
for_service (some name) = " for service " & repr name

module _ {V K : Type 0} where
  abbrev pub new_gateway : DynamicRpcGateway V K
  new_gateway = record { registry = none; last_error = none; refresh_count = 0 }

  abbrev pub services_of : Option (Iox2RpcRegistry V K) → List (DiscoveredRpcService V K)
  services_of none = []
  services_of (some registry) = registry.services

  unfoldable pub services_snapshot : DynamicRpcGateway V K → List (DiscoveredRpcService V K)
  services_snapshot gateway = services_of gateway.registry

  unfoldable pub status : DynamicRpcGateway V K → DynamicGatewayStatus
  status gateway = record {
    ok = is_none gateway.last_error;
    refresh_count = gateway.refresh_count;
    service_count = length (services_of gateway.registry);
    last_error = gateway.last_error;
  }

  -- What follows the call of the factory.
  unfoldable pub refreshed :
      {W : Type 0}
      → DynamicRpcGateway V K
      → Outcome (Iox2RpcRegistry V K) × W
      → Outcome DynamicGatewayStatus × (DynamicRpcGateway V K × W)
  refreshed gateway (returned registry, w) =
      let after = record gateway {
        registry = some registry;
        last_error = none;
        refresh_count = gateway.refresh_count + 1;
      } in
      (returned (status after), (after, w))
  refreshed gateway (raised e, w) =
      let after = record gateway {
        last_error = some e.message;
        refresh_count = gateway.refresh_count + 1;
      } in
      if e.is_exception then (returned (status after), (after, w)) else (raised e, (gateway, w))

  unfoldable pub refresh :
      {W : Type 0}
      → Action W (Iox2RpcRegistry V K)
      → Action (DynamicRpcGateway V K × W) DynamicGatewayStatus
  refresh factory (gateway, w) = refreshed gateway (factory w)

  unfoldable pub gateway_catalog : DynamicRpcGateway V K → List CatalogEntry
  gateway_catalog gateway = listed gateway.registry
    where
      listed : Option (Iox2RpcRegistry V K) → List CatalogEntry
      listed none = []
      listed (some registry) = catalog registry

  abbrev pub loaded_descriptors : List (DiscoveredRpcService V K) → List RpcServiceDescriptor
  loaded_descriptors [] = []
  loaded_descriptors (s ∷ services) = elim s.descriptor [
    | none ↦ loaded_descriptors services
    | some descriptor ↦ descriptor ∷ loaded_descriptors services
  ]

  unfoldable pub descriptors : DynamicRpcGateway V K → List RpcServiceDescriptor
  descriptors gateway = loaded_descriptors (services_snapshot gateway)

  unfoldable pub service_key : DiscoveredRpcService V K → String
  service_key s =
      if nonempty s.service_name
      then s.service_name & "/" & s.controller_name
      else s.controller_name

  unfoldable pub describe : DiscoveredRpcService V K → Description
  describe s = elim s.descriptor [
    | none ↦ summary (catalog_entry s)
    | some descriptor ↦ described descriptor
  ]

  abbrev pub describe_each : List (DiscoveredRpcService V K) → Dict Description → Dict Description
  describe_each [] result = result
  describe_each (s ∷ services) result =
      describe_each services (put (service_key s) (describe s) result)

  unfoldable pub describe_all : DynamicRpcGateway V K → Dict Description
  describe_all gateway = describe_each (services_snapshot gateway) []

  unfoldable pub local_methods : DiscoveredRpcService V K → List String
  local_methods s = elim s.descriptor [
    | none ↦ map local_name s.methods
    | some descriptor ↦ map (λ m. m.name) descriptor.methods
  ]

  unfoldable pub route_info : DiscoveredRpcService V K → ControllerRouteInfo
  route_info s = record {
    service = s.service_name;
    controller = s.controller_name;
    rpc_endpoint = "POST /controllers/" & s.controller_name & "/rpc";
    schema_endpoint = "GET /controllers/" & s.controller_name;
    method_routes = routes_of s.controller_name (local_methods s);
  }

  unfoldable pub controllers : DynamicRpcGateway V K → List ControllerRouteInfo
  controllers gateway = map route_info (services_snapshot gateway)

  -- The tests of the loop; a service name that is not given is no restriction.
  unfoldable pub matches : String → Option String → DiscoveredRpcService V K → Bool
  matches controller service_name s = s.controller_name == controller && fits service_name
    where
      fits : Option String → Bool
      fits none = true
      fits (some name) = s.service_name == name

  unfoldable pub matching_services :
      DynamicRpcGateway V K → String → Option String → List (DiscoveredRpcService V K)
  matching_services gateway controller service_name =
      filter (matches controller service_name) (services_snapshot gateway)

  -- What is made of the services that match: the only one, or a response.
  unfoldable pub only_match :
      String
      → Option String
      → List (DiscoveredRpcService V K)
      → Outcome (DiscoveredRpcService V K ⊎ JsonRpcResponse)
  only_match controller service_name [] =
      fail JsonRpcId.null method_not_found
        ("No discovered RPC controller named " & repr controller & for_service service_name)
        Value.null
      >>= λ r. returned (inr r)
  only_match controller service_name (s ∷ []) = returned (inl s)
  only_match controller service_name (s ∷ t ∷ services) =
      fail JsonRpcId.null method_not_found
        ("Controller "
          & repr controller
          & " is ambiguous. Add ?service=... to choose one of: "
          & repr_list (map service_key (s ∷ t ∷ services)))
        Value.null
      >>= λ r. returned (inr r)

  unfoldable pub find_service :
      DynamicRpcGateway V K
      → String
      → Option String
      → Outcome (DiscoveredRpcService V K ⊎ JsonRpcResponse)
  find_service gateway controller service_name =
      only_match controller service_name (matching_services gateway controller service_name)
