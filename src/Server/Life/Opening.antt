-- ===== src/Server/Life/Opening.antt =====
-- The construction of `Iox2JsonRpcServer` (iox2_jsonrpc/iceoryx_server.py).
use iox2_jsonrpc.Base.{ℕ, String, none, some, if◌then◌else◌}
use iox2_jsonrpc.Python.Outcome.{Outcome, Action, returned, raised}
use iox2_jsonrpc.Python.Action.{raise, lift, ◌>>=◌, ◌>>◌}
use iox2_jsonrpc.Models.{RpcServiceDescriptor}
use iox2_jsonrpc.Controller.{
  Controller, rpc_endpoint_name, schema_endpoint_name, describe_controller,
}
use iox2_jsonrpc.Endpoint.{ControllerRpcEndpoint, make_endpoint}
use iox2_jsonrpc.Helpers.Cleanup.{force_remove_request_response_service_if_requested}
use iox2_jsonrpc.Server.Attributes.{rpc_attributes, schema_attributes}
use iox2_jsonrpc.Server.Life.{
  Iox2JsonRpcServer, Iceoryx, clean_node, create_server, create_request_response_service, close,
}

module _ {S W V P X U : Type 0} (iox : Iceoryx W V P X U) where
  open iox use {set_log_level, create_node, force_requested, force_remove}

  unfoldable pub set_rpc_server : V → ℕ → Action (Iox2JsonRpcServer S V P × W) (Unit {0})
  set_rpc_server service max_slice_len (s, w) =
      set (create_server iox service s.rpc_endpoint max_slice_len w) s
    where
      set :
          Outcome P × W
          → (Iox2JsonRpcServer S V P)
          → Outcome (Unit {0}) × (Iox2JsonRpcServer S V P × W)
      set (returned port, w) s = (returned tt, (record s { rpc_server = some port }, w))
      set (raised e, w) s = (raised e, (s, w))

  unfoldable pub set_schema_server : V → ℕ → Action (Iox2JsonRpcServer S V P × W) (Unit {0})
  set_schema_server service max_slice_len (s, w) =
      set (create_server iox service s.schema_endpoint max_slice_len w) s
    where
      set :
          Outcome P × W
          → (Iox2JsonRpcServer S V P)
          → Outcome (Unit {0}) × (Iox2JsonRpcServer S V P × W)
      set (returned port, w) s = (returned tt, (record s { schema_server = some port }, w))
      set (raised e, w) s = (raised e, (s, w))

  -- `except Exception: self.close(); raise`
  unfoldable pub closing_on_failure :
      Outcome (Unit {0}) × (Iox2JsonRpcServer S V P × W)
      → Outcome (Unit {0}) × (Iox2JsonRpcServer S V P × W)
  closing_on_failure (returned u, q) = (returned u, q)
  closing_on_failure (raised e, q) =
      if e.is_exception then (close iox >> raise e) q else (raised e, q)

  unfoldable pub open_servers : V → V → ℕ → Action (Iox2JsonRpcServer S V P × W) (Unit {0})
  open_servers rpc_service schema_service max_slice_len q = closing_on_failure (
      (set_rpc_server rpc_service max_slice_len >> set_schema_server schema_service max_slice_len)
        q)

  -- The server that the constructor has before the ports are made.
  abbrev pub without_servers :
      ControllerRpcEndpoint S
      → String
      → String
      → RpcServiceDescriptor
      → V
      → V
      → (Iox2JsonRpcServer S V P)
  without_servers endpoint rpc schema descriptor rpc_service schema_service = record {
    endpoint = endpoint;
    rpc_endpoint = rpc;
    schema_endpoint = schema;
    descriptor = descriptor;
    rpc_service = some rpc_service;
    schema_service = some schema_service;
    rpc_server = none;
    schema_server = none;
  }

  -- `server` is returned with the fields that it has after the last step, if the constructor returns.
  unfoldable pub opened_server :
      Outcome (Unit {0}) × (Iox2JsonRpcServer S V P × W) → Outcome (Iox2JsonRpcServer S V P) × W
  opened_server (returned u, (server, w)) = (returned server, w)
  opened_server (raised e, (server, w)) = (raised e, w)

  -- `__init__`, at the state `s` of the controller.
  unfoldable pub make_server : Controller S → ℕ → S → Action W (Iox2JsonRpcServer S V P)
  make_server controller max_slice_len s =
      set_log_level >> lift (make_endpoint controller s) >>= λ endpoint.
      lift (rpc_endpoint_name controller s) >>= λ rpc.
      lift (schema_endpoint_name controller s) >>= λ schema.
      lift (describe_controller controller none none s) >>= λ descriptor.
      create_node
      >> clean_node iox
      >> force_remove_request_response_service_if_requested force_requested (force_remove rpc)
      >> force_remove_request_response_service_if_requested force_requested (force_remove schema)
      >> lift (rpc_attributes schema descriptor controller s)
      >>= λ rpc_values. create_request_response_service iox rpc rpc_values >>= λ rpc_service.
          lift (schema_attributes controller s) >>= λ schema_values.
          create_request_response_service iox schema schema_values >>= λ schema_service w.
          opened_server (
            open_servers rpc_service schema_service max_slice_len
              (without_servers endpoint rpc schema descriptor rpc_service schema_service, w))
