-- ===== src/Server/Life/Deletions.antt =====
-- The ports that a server of iox2_jsonrpc/iceoryx_server.py makes, and the objects that its `close` deletes.
pub mod Closed
pub mod Made
pub mod Opened
mod Tests
use iox2_jsonrpc.Base.{ℕ, ◌≡◌, refl, Option, none, some, List, [], ◌∷◌, ◌++◌}
use iox2_jsonrpc.Python.Outcome.{Outcome, Action, returned, raised}
use iox2_jsonrpc.Helpers.Cleanup.{CleanupTarget}
use iox2_jsonrpc.Server.Drain.{Keeps}
use iox2_jsonrpc.Server.Life.{Iox2JsonRpcServer, Iceoryx}
use iox2_jsonrpc.Server.Life.Logged.{TargetKeeps, TimedKeeps, OptionKeeps}

-- A port is made, or the `delete` of a port or of a service is called.
pub data Event (V P : Type 0) : Type 0 where
  made : P → Event V P
  server_deleted : P → Event V P
  service_deleted : V → Event V P

module _ {W E : Type 0} where
  -- An action that the log does not show.
  abbrev pub silent : {A : Type 0} → Action W A → Action (W × List E) A
  silent act (w, log) = let (o, w') = act w in (o, (w', log))

  -- A call that the log shows, be it that it raises.
  abbrev pub shown : {A : Type 0} → E → Action W A → Action (W × List E) A
  shown event act (w, log) = let (o, w') = act w in (o, (w', event ∷ log))

  abbrev pub if_made : {A : Type 0} → (A → E) → Outcome A × W → List E → Outcome A × (W × List E)
  if_made event (returned a, w) log = (returned a, (w, event a ∷ log))
  if_made event (raised e, w) log = (raised e, (w, log))

  abbrev pub silent_optional :
      Option (Action W (Unit {0})) → Option (Action (W × List E) (Unit {0}))
  silent_optional none = none
  silent_optional (some act) = some (silent act)

  abbrev pub silent_timed :
      Option (ℕ → Action W (Unit {0})) → Option (ℕ → Action (W × List E) (Unit {0}))
  silent_timed none = none
  silent_timed (some act) = some (λ timeout. silent (act timeout))

  abbrev pub silent_target : CleanupTarget W → CleanupTarget (W × List E)
  silent_target target = record {
    blocking_cleanup = silent_timed target.blocking_cleanup;
    try_cleanup = silent_optional target.try_cleanup;
    try_with_config = silent target.try_with_config;
  }

  abbrev pub shown_optional :
      E → Option (Action W (Unit {0})) → Option (Action (W × List E) (Unit {0}))
  shown_optional event none = none
  shown_optional event (some act) = some (shown event act)

  -- The log.
  abbrev pub log : W × List E → List E
  log q = q.1

  pub silent_target-Keeps : (target : CleanupTarget W) → TargetKeeps log (silent_target target)
  silent_target-Keeps target = record {
    blocking = timed target.blocking_cleanup;
    try_first = optional target.try_cleanup;
    with_config = λ q. refl;
  }
    where
      timed : (call : Option (ℕ → Action W (Unit {0}))) → TimedKeeps log (silent_timed call)
      timed none = tt
      timed (some act) = λ timeout q. refl

      optional : (call : Option (Action W (Unit {0}))) → OptionKeeps log (silent_optional call)
      optional none = tt
      optional (some act) = λ q. refl

-- The same iceoryx2, with a log, the last event first.
abbrev pub traced :
    {W V P X U : Type 0} → Iceoryx W V P X U → Iceoryx (W × List (Event V P)) V P X U
traced iox = record {
  set_log_level = silent iox.set_log_level;
  create_node = silent iox.create_node;
  node_target = silent_target iox.node_target;
  service_target = λ service. silent_target (iox.service_target service);
  force_requested = iox.force_requested;
  force_remove = λ name. silent (iox.force_remove name);
  service_builder = λ name limits. silent (iox.service_builder name limits);
  open_or_create = λ builder values. silent (iox.open_or_create builder values);
  verifier = iox.verifier;
  create_port = λ service n (w, log). if_made made (iox.create_port service n w) log;
  sleep = λ ms. silent (iox.sleep ms);
  service_nodes = iox.service_nodes;
  delete_service = λ service. shown_optional (service_deleted service) (iox.delete_service service);
  delete_server = λ server. shown_optional (server_deleted server) (iox.delete_server server);
  node_wait = λ ms. silent (iox.node_wait ms);
}

module _ {W O E : Type 0} (delete : O → Option (Action W (Unit {0}))) (event : O → E) where
  abbrev pub deletion_of : O → Option (Action W (Unit {0})) → List E
  deletion_of o none = []
  deletion_of o (some act) = event o ∷ []

  -- The deletion of the object that a field holds, if it has a `delete`.
  abbrev pub deletion : Option O → List E
  deletion none = []
  deletion (some o) = deletion_of o (delete o)

-- The log after the deletion of all that a server holds: its ports, then its services.
abbrev pub with_deletions :
    {S W V P X U : Type 0}
    → Iceoryx W V P X U
    → Iox2JsonRpcServer S V P
    → List (Event V P)
    → List (Event V P)
with_deletions iox s before =
    let servers =
      deletion iox.delete_server server_deleted s.rpc_server
      ++ (deletion iox.delete_server server_deleted s.schema_server ++ before) in
    deletion iox.delete_service service_deleted s.rpc_service
    ++ (deletion iox.delete_service service_deleted s.schema_service ++ servers)
