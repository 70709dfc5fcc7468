-- ===== src/Registry.antt =====
-- `Iox2RpcRegistry` of iox2_jsonrpc/iceoryx_registry.py: the discovered services and the calls.
-- iceoryx2's services (`V`) and clients (`K`) are types that are only passed on.
pub mod Transport
pub mod Discovery
pub mod Lookup
pub mod Ids
pub mod Threads
pub mod Tests
use iox2_jsonrpc.Base.{
  ℕ, ◌+◌, String, Bool, false, ◌||◌, Option, none, some, List, [], ◌∷◌, map, filter, ◌&◌, ◌==◌,
  or_default, if◌then◌else◌,
}
use iox2_jsonrpc.Python.Int.{pos}
use iox2_jsonrpc.Python.Value.{Value}
use iox2_jsonrpc.Python.Dict.{Dict}
use iox2_jsonrpc.Python.Outcome.{Exception, Outcome, Action, returned, raised, error, ◌>>=◌}
use iox2_jsonrpc.Python.Repr.{repr, repr_list}
use iox2_jsonrpc.Models.{JsonRpcId, JsonRpcRequest, JsonRpcResponse, RpcServiceDescriptor, v2_0}

pub record DiscoveredRpcService (V K : Type 0) : Type 0 where
  pub service_name : String
  pub controller_name : String
  pub rpc_endpoint : String
  pub schema_endpoint : String
  pub methods : List String
  pub attributes : Dict String
  pub descriptor : Option RpcServiceDescriptor
  pub rpc_service : Option V
  pub rpc_client : Option K

-- The node is part of the world that the calls act on.
pub record Iox2RpcRegistry (V K : Type 0) : Type 0 where
  pub services : List (DiscoveredRpcService V K)
  pub request_counter : ℕ

-- The dictionary that `catalog` makes of a service, by its keys.
pub record CatalogEntry : Type 0 where
  pub service : String
  pub controller : String
  pub rpc_endpoint : String
  pub schema_endpoint : String
  pub methods : List String
  pub attributes : Dict String

-- `x in xs`
unfoldable pub contains : String → List String → Bool
contains x [] = false
contains x (y ∷ ys) = y == x || contains x ys

module _ {V K : Type 0} where
  -- `Iox2RpcRegistry(node=…, services=…)`
  unfoldable pub make_registry : List (DiscoveredRpcService V K) → Iox2RpcRegistry V K
  make_registry services = record { services = services; request_counter = 0 }

  unfoldable pub catalog_entry : DiscoveredRpcService V K → CatalogEntry
  catalog_entry s = record {
    service = s.service_name;
    controller = s.controller_name;
    rpc_endpoint = s.rpc_endpoint;
    schema_endpoint = s.schema_endpoint;
    methods = s.methods;
    attributes = s.attributes;
  }

  unfoldable pub catalog : Iox2RpcRegistry V K → List CatalogEntry
  unfolding catalog_entry
  catalog registry = map catalog_entry registry.services

  unfoldable pub find_by_method : Iox2RpcRegistry V K → String → List (DiscoveredRpcService V K)
  find_by_method registry method = filter (λ s. contains method s.methods) registry.services

  unfoldable pub find_endpoint :
      List (DiscoveredRpcService V K) → String → Outcome (DiscoveredRpcService V K)
  find_endpoint [] rpc_endpoint =
      raised (error "RuntimeError" ("No RPC service found at endpoint: " & rpc_endpoint))
  find_endpoint (s ∷ services) rpc_endpoint =
      let later = find_endpoint services rpc_endpoint in
      if s.rpc_endpoint == rpc_endpoint then returned s else later

  unfoldable pub find_by_endpoint :
      Iox2RpcRegistry V K → String → Outcome (DiscoveredRpcService V K)
  unfolding find_endpoint
  find_by_endpoint registry rpc_endpoint = find_endpoint registry.services rpc_endpoint

-- The request that a call sends; `none` for the parameters counts as no parameters.
unfoldable pub call_request : ℕ → String → Option (Dict Value) → JsonRpcRequest
call_request id method params = record {
  jsonrpc = v2_0;
  id = JsonRpcId.number (pos id);
  method = method;
  params = some (or_default params []);
}

abbrev pub no_client : {V K : Type 0} → DiscoveredRpcService V K → Exception
no_client service =
    error "RuntimeError" ("Service " & service.rpc_endpoint & " has no opened RPC client")

-- The calls, over the exchange of one request for the raw response (`_request_bytes`), the writing
-- of a request and the reading of a response. `W` is the state of the world.
module _ {K Bytes W : Type 0} (request_bytes : K → Bytes → ℕ → Action W Bytes)
    (dump_request : JsonRpcRequest → Outcome Bytes)
    (parse_response : Bytes → Outcome JsonRpcResponse) where
  -- What follows the writing of the request.
  unfoldable pub exchange_written : K → Outcome Bytes → ℕ → Action W JsonRpcResponse
  exchange_written client (raised e) timeout w = (raised e, w)
  exchange_written client (returned payload) timeout w =
      let (raw, w') = request_bytes client payload timeout w in (raw >>= parse_response, w')

  unfoldable pub exchange : K → JsonRpcRequest → ℕ → Action W JsonRpcResponse
  unfolding exchange_written
  exchange client request timeout w = exchange_written client (dump_request request) timeout w

module _ {V K Bytes W : Type 0} (request_bytes : K → Bytes → ℕ → Action W Bytes)
    (dump_request : JsonRpcRequest → Outcome Bytes)
    (parse_response : Bytes → Outcome JsonRpcResponse) where
  unfoldable pub call_client :
      Option K
      → DiscoveredRpcService V K
      → String
      → Option (Dict Value)
      → ℕ
      → Action (Iox2RpcRegistry V K × W) JsonRpcResponse
  unfolding exchange call_request
  call_client none service method params timeout s = (raised (no_client service), s)
  call_client (some client) service method params timeout (registry, w) =
      let id = registry.request_counter + 1 in
      let (response, w') =
        exchange request_bytes dump_request parse_response client (call_request id method params)
          timeout w in
      (response, (record registry { request_counter = id }, w'))

  unfoldable pub call :
      DiscoveredRpcService V K
      → String
      → Option (Dict Value)
      → ℕ
      → Action (Iox2RpcRegistry V K × W) JsonRpcResponse
  unfolding call_client
  call service method params timeout s =
      call_client service.rpc_client service method params timeout s

  unfoldable pub call_match :
      List (DiscoveredRpcService V K)
      → String
      → Option (Dict Value)
      → ℕ
      → Action (Iox2RpcRegistry V K × W) JsonRpcResponse
  call_match [] method params timeout s =
      (raised (error "RuntimeError" ("No discovered service provides method: " & method)), s)
  call_match (service ∷ []) method params timeout s = call service method params timeout s
  call_match (service ∷ more ∷ rest) method params timeout s = (
    raised (
        error "RuntimeError" (
          "Method "
          & repr method
          & " is ambiguous. Matching endpoints: "
          & repr_list (map (λ m. m.rpc_endpoint) (service ∷ more ∷ rest)))),
    s,
  )

  unfoldable pub call_unique :
      String → Option (Dict Value) → ℕ → Action (Iox2RpcRegistry V K × W) JsonRpcResponse
  call_unique method params timeout (registry, w) =
      call_match (find_by_method registry method) method params timeout (registry, w)

  -- What follows the search; its `RuntimeError` passes.
  abbrev pub call_found :
      Outcome (DiscoveredRpcService V K)
      → String
      → Option (Dict Value)
      → ℕ
      → Action (Iox2RpcRegistry V K × W) JsonRpcResponse
  call_found (raised e) method params timeout s = (raised e, s)
  call_found (returned service) method params timeout s = call service method params timeout s

  unfoldable pub call_endpoint :
      String → String → Option (Dict Value) → ℕ → Action (Iox2RpcRegistry V K × W) JsonRpcResponse
  call_endpoint rpc_endpoint method params timeout (registry, w) =
      call_found (find_by_endpoint registry rpc_endpoint) method params timeout (registry, w)
