-- ===== src/Server/Life/Tests.antt =====
-- A small server of iox2_jsonrpc/iceoryx_server.py is opened, runs and is closed.
use iox2_jsonrpc.Base.{ℕ, zero, suc, String, ◌≡◌, refl, false, none, some, [], ◌∷◌, ◌++◌}
use iox2_jsonrpc.Python.Dict.{Dict}
use iox2_jsonrpc.Python.Outcome.{Outcome, returned, raised, error}
use iox2_jsonrpc.Models.{RpcServiceDescriptor, jsonrpc_2_0}
use iox2_jsonrpc.Controller.{Controller}
use iox2_jsonrpc.Endpoint.{ControllerRpcEndpoint}
use iox2_jsonrpc.Helpers.Cleanup.{
  CleanupTarget, delete_iox2_object, best_effort_cleanup_dead_nodes, clean_optional, clean_target,
  try_target, after_try,
}
use iox2_jsonrpc.Helpers.Attributes.{value}
use iox2_jsonrpc.Server.Life.{
  Iox2JsonRpcServer, Iceoryx, close, beside, clean_node, close_schema_server, close_rpc_server,
  close_schema_service, close_rpc_service, release,
}
use iox2_jsonrpc.Server.Life.Closing.{IsClosed, close-close}

abbrev lamp : Controller ℕ
lamp = record {
  service_name = λ _. some "home";
  controller_name = λ _. some "lamp";
  members = λ _. [];
}

abbrev endpoint : ControllerRpcEndpoint ℕ
endpoint = record { controller = lamp; controller_name = "lamp" }

abbrev descriptor : RpcServiceDescriptor
descriptor = record {
  protocol = jsonrpc_2_0;
  service = "home";
  controller = "lamp";
  rpc_endpoint = "home/lamp/rpc";
  schema_endpoint = "home/lamp/schema";
  methods = [];
}

abbrev node : CleanupTarget ℕ
node = record {
  blocking_cleanup = none;
  try_cleanup = some (λ w. (returned tt, w));
  try_with_config = λ w. (returned tt, w);
}

-- The world counts deletions; no second port can be made.
abbrev pub iox : Iceoryx ℕ ℕ ℕ (Dict String) ℕ
iox = record {
  set_log_level = λ w. (returned tt, w);
  create_node = λ w. (returned tt, w);
  node_target = node;
  service_target = λ service. node;
  force_requested = false;
  force_remove = λ name w. (returned tt, w);
  service_builder = λ name limits w. (returned 0, w);
  open_or_create = λ builder values w. (returned 1, w);
  verifier = record { new = []; add = λ d k v. returned (none, d ++ (k, v) ∷ []) };
  create_port = λ service max_slice_len. make service;
  sleep = λ ms w. (returned tt, w);
  service_nodes = λ service. returned (value (returned "[]"));
  delete_service = λ service. some (λ w. (returned tt, suc w));
  delete_server = λ server. some (λ w. (returned tt, suc w));
  node_wait = λ ms w. (returned tt, w);
}
  where
    make : ℕ → ℕ → Outcome ℕ × ℕ
    make zero w = (returned 5, w)
    make (suc service) w = (raised (error "ServerCreateError" "InternalFailure"), w)

abbrev pub server : Iox2JsonRpcServer ℕ ℕ ℕ
server = record {
  endpoint = endpoint;
  rpc_endpoint = "home/lamp/rpc";
  schema_endpoint = "home/lamp/schema";
  descriptor = descriptor;
  rpc_service = some 0;
  schema_service = some 1;
  rpc_server = some 5;
  schema_server = none;
}

abbrev pub closed_server : Iox2JsonRpcServer ℕ ℕ ℕ
closed_server = record server { rpc_service = none; schema_service = none; rpc_server = none }

closed : close iox (server, 0) ≡ (returned tt, (closed_server, 3))
unfolding close close_schema_server close_rpc_server close_schema_service close_rpc_service release
    delete_iox2_object best_effort_cleanup_dead_nodes clean_optional clean_target try_target
    after_try
closed = refl

close-close_example :
    IsClosed closed_server
    × (close iox (closed_server, 3) ≡ beside (clean_node iox) (closed_server, 3))
close-close_example = close-close iox server closed_server 0 3 closed
