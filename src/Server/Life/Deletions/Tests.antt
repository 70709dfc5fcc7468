-- ===== src/Server/Life/Deletions/Tests.antt =====
-- The small server of Server/Life/Tests.antt, with a log of what is made and deleted
-- (iox2_jsonrpc/iceoryx_server.py).
use iox2_jsonrpc.Base.{ℕ, ◌≡◌, refl, subst, sym, ◌⊎◌, none, some, List, [], ◌∷◌, false, startswith}
use iox2_jsonrpc.Python.Outcome.{Action, returned, raised, error}
use iox2_jsonrpc.Helpers.Cleanup.{
  delete_iox2_object, best_effort_cleanup_dead_nodes, clean_optional, clean_target, try_target,
  after_try, create_server_with_dead_node_cleanup, attempts, after_create,
  is_exceeds_max_supported_servers, occurs,
}
use iox2_jsonrpc.Server.{finally, after_cleanup}
use iox2_jsonrpc.Server.Life.{
  Iox2JsonRpcServer, close, close_schema_server, close_rpc_server, close_schema_service,
  close_rpc_service, release, create_server,
}
use iox2_jsonrpc.Server.Life.Opening.{
  open_servers, closing_on_failure, set_rpc_server, set_schema_server,
}
use iox2_jsonrpc.Server.Life.Loop.{rounds, stopped, run_forever}
use iox2_jsonrpc.Server.Life.Closing.{IsClosed}
use iox2_jsonrpc.Server.Life.Tests.{iox, server, closed_server}
use iox2_jsonrpc.Server.Life.Deletions.{
  Event, made, server_deleted, service_deleted, traced, with_deletions, log,
}
use iox2_jsonrpc.Server.Life.Deletions.Closed.{IsOrdinary, run_forever-Deletes}
use iox2_jsonrpc.Server.Life.Deletions.Opened.{open_servers-Deletes}

abbrev starting : Iox2JsonRpcServer ℕ ℕ ℕ
starting = record server { rpc_server = none }

-- One port has been made when the making of the other fails.
abbrev undone : List (Event ℕ ℕ)
undone = service_deleted 0 ∷ service_deleted 1 ∷ server_deleted 5 ∷ made 5 ∷ []

opening_failed :
    open_servers (traced iox) 0 1 4096 (starting, (0, []))
    ≡ (raised (error "ServerCreateError" "InternalFailure"), (closed_server, (3, undone)))
unfolding open_servers closing_on_failure set_rpc_server set_schema_server create_server
    create_server_with_dead_node_cleanup attempts after_create is_exceeds_max_supported_servers
    occurs startswith close close_schema_server close_rpc_server close_schema_service
    close_rpc_service release delete_iox2_object best_effort_cleanup_dead_nodes clean_optional
    clean_target try_target after_try
opening_failed = refl

open_servers-Deletes_example :
    IsClosed closed_server
    × ((undone ≡ with_deletions iox starting [])
        ⊎ ((port : ℕ) × (undone
              ≡ with_deletions iox (record starting { rpc_server = some port }) (made port ∷ []))))
open_servers-Deletes_example =
    open_servers-Deletes iox 0 1 4096 starting closed_server 0 3 [] undone
      (error "ServerCreateError" "InternalFailure") opening_failed refl

abbrev Q : Type 0
Q = Iox2JsonRpcServer ℕ ℕ ℕ × (ℕ × List (Event ℕ ℕ))

-- The wait is interrupted.
abbrev interrupted : Action Q (Unit {0})
interrupted q =
    (raised (record { type_name = "KeyboardInterrupt"; message = ""; is_exception = false }), q)

abbrev nothing : Action Q (Unit {0})
nothing q = (returned tt, q)

run_ends : run_forever interrupted nothing nothing (close (traced iox)) 1 (server, (0, [])) ≡ (
  returned tt,
  (closed_server, (3, service_deleted 0 ∷ service_deleted 1 ∷ server_deleted 5 ∷ [])),
)
unfolding run_forever finally after_cleanup stopped rounds close close_schema_server
    close_rpc_server close_schema_service close_rpc_service release delete_iox2_object
    best_effort_cleanup_dead_nodes clean_optional clean_target try_target after_try
run_ends = refl

run_forever-Deletes_example :
    let end = (rounds interrupted nothing nothing 1 (server, (0, []))).1 in
    let after =
      (run_forever interrupted nothing nothing (close (traced iox)) 1 (server, (0, []))).1 in
    IsClosed after.0 × (log after.1 ≡ with_deletions iox end.0 (log end.1))
run_forever-Deletes_example =
    run_forever-Deletes iox interrupted nothing nothing 1 (server, (0, []))
      (subst (λ r. IsOrdinary r.0) (sym run_ends) tt)
