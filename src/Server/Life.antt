-- ===== src/Server/Life.antt =====
-- The state and the closing of `Iox2JsonRpcServer` (iox2_jsonrpc/iceoryx_server.py). What is printed is
-- left out.
pub mod Opening
pub mod Loop
pub mod Closing
pub mod Logged
pub mod Deletions
mod Tests
use iox2_jsonrpc.Base.{ℕ, zero, suc, String, Bool, ◌||◌, Option, none, some, ◌==◌, if◌then◌else◌}
use iox2_jsonrpc.Python.Dict.{Dict}
use iox2_jsonrpc.Python.Outcome.{Exception, Outcome, Action, returned, raised}
use iox2_jsonrpc.Python.Action.{pure, raise, lift, continue, ◌>>=◌, ◌>>◌}
use iox2_jsonrpc.Models.{RpcServiceDescriptor}
use iox2_jsonrpc.Controller.{
  Controller, rpc_endpoint_name, schema_endpoint_name, describe_controller,
}
use iox2_jsonrpc.Endpoint.{ControllerRpcEndpoint, make_endpoint}
use iox2_jsonrpc.Helpers.Attributes.{OrCall, Builder, make_attribute_verifier}
use iox2_jsonrpc.Helpers.Cleanup.{
  CleanupTarget, best_effort_cleanup_dead_nodes, force_remove_request_response_service_if_requested,
  delete_iox2_object, describe_service_nodes, Creation, create_server_with_dead_node_cleanup,
}
use iox2_jsonrpc.Server.{finally}
use iox2_jsonrpc.Server.Attributes.{rpc_attributes, schema_attributes}
use iox2_jsonrpc.Registry.Transport.{out_of_fuel}

-- Services (`V`) and ports (`P`); the node is part of the world. `X` is an attribute verifier and `U` an
-- unfinished service.
pub record Iox2JsonRpcServer (S V P : Type 0) : Type 0 where
  pub endpoint : ControllerRpcEndpoint S
  pub rpc_endpoint : String
  pub schema_endpoint : String
  pub descriptor : RpcServiceDescriptor
  pub rpc_service : Option V
  pub schema_service : Option V
  pub rpc_server : Option P
  pub schema_server : Option P

-- The arguments of the service's builder.
pub record ServiceLimits : Type 0 where
  pub max_servers : ℕ
  pub max_clients : ℕ
  pub max_response_buffer_size : ℕ
  pub max_active_requests_per_client : ℕ

abbrev pub server_limits : ServiceLimits
server_limits = record {
  max_servers = 1;
  max_clients = 32;
  max_response_buffer_size = 4;
  max_active_requests_per_client = 8;
}

-- What iceoryx2 does. The nodes of a service are given by what their `repr` is.
pub record Iceoryx (W V P X U : Type 0) : Type 0 where
  pub set_log_level : Action W (Unit {0})
  pub create_node : Action W (Unit {0})
  pub node_target : CleanupTarget W
  pub service_target : V → CleanupTarget W
  pub force_requested : Bool
  pub force_remove : String → Action W (Unit {0})
  pub service_builder : String → ServiceLimits → Action W U
  pub open_or_create : U → X → Action W V
  pub verifier : Builder X
  pub create_port : V → ℕ → Action W P
  pub sleep : ℕ → Action W (Unit {0})
  pub service_nodes : V → Outcome (OrCall (Outcome String))
  pub delete_service : V → Option (Action W (Unit {0}))
  pub delete_server : P → Option (Action W (Unit {0}))
  pub node_wait : ℕ → Action W (Unit {0})

module _ {W F : Type 0} where
  -- The field is set after the deletion.
  abbrev pub released : F → F → Outcome (Unit {0}) × W → Outcome (Unit {0}) × (F × W)
  released cleared server (returned u, w) = (returned tt, (cleared, w))
  released cleared server (raised e, w) = (raised e, (server, w))

  -- One round of the loop of `close`: the object of a field is deleted and the field set to `None`.
  unfoldable pub release :
      {O : Type 0} → (O → Option (Action W (Unit {0}))) → Option O → F → Action (F × W) (Unit {0})
  release delete none cleared (server, w) = (returned tt, (server, w))
  release delete (some o) cleared (server, w) =
      released cleared server (delete_iox2_object (delete o) w)

  abbrev pub beside : {A : Type 0} → Action W A → Action (F × W) A
  beside act (server, w) = let (o, w') = act w in (o, (server, w'))

module _ {W V P X U : Type 0} (iox : Iceoryx W V P X U) where
  open iox use {
    node_target, service_target, service_builder, open_or_create, verifier, create_port, sleep,
    service_nodes,
  }

  abbrev pub clean_node : Action W (Unit {0})
  clean_node = best_effort_cleanup_dead_nodes (some node_target) none 100

  unfoldable pub create_request_response_service : String → Dict String → Action W V
  create_request_response_service endpoint attr_values =
      service_builder endpoint server_limits >>= λ builder.
      lift (make_attribute_verifier verifier attr_values) >>= λ attributes.
      open_or_create builder attributes >>= λ service.
      best_effort_cleanup_dead_nodes (some node_target) (some (service_target service)) 100
      >> pure service

  abbrev pub creation : V → String → ℕ → Creation W P
  creation service endpoint max_slice_len = record {
    create_port = create_port service max_slice_len;
    cleanup = best_effort_cleanup_dead_nodes (some node_target) (some (service_target service)) 100;
    sleep = sleep;
    nodes_text = describe_service_nodes (λ text. text) (service_nodes service);
    service_name = endpoint;
  }

  -- With the default of 20 attempts.
  unfoldable pub create_server : V → String → ℕ → Action W P
  create_server service endpoint max_slice_len =
      create_server_with_dead_node_cleanup (creation service endpoint max_slice_len) 20

module _ {S W V P X U : Type 0} (iox : Iceoryx W V P X U) where
  open iox use {delete_service, delete_server}

  unfoldable pub close_schema_server : Action (Iox2JsonRpcServer S V P × W) (Unit {0})
  unfolding release
  close_schema_server (s, w) =
      release delete_server s.schema_server (record s { schema_server = none }) (s, w)

  unfoldable pub close_rpc_server : Action (Iox2JsonRpcServer S V P × W) (Unit {0})
  unfolding release
  close_rpc_server (s, w) =
      release delete_server s.rpc_server (record s { rpc_server = none }) (s, w)

  unfoldable pub close_schema_service : Action (Iox2JsonRpcServer S V P × W) (Unit {0})
  unfolding release
  close_schema_service (s, w) =
      release delete_service s.schema_service (record s { schema_service = none }) (s, w)

  unfoldable pub close_rpc_service : Action (Iox2JsonRpcServer S V P × W) (Unit {0})
  unfolding release
  close_rpc_service (s, w) =
      release delete_service s.rpc_service (record s { rpc_service = none }) (s, w)

  unfoldable pub close : Action (Iox2JsonRpcServer S V P × W) (Unit {0})
  close =
      close_schema_server
      >> close_rpc_server
      >> close_schema_service
      >> close_rpc_service
      >> beside (clean_node iox)
