-- ===== src/Helpers/Tests.antt =====
-- Runs of iox2_jsonrpc/iceoryx_helpers.py over a memory that is a list, and the theorems at them.
use iox2_jsonrpc.Base.{ℕ, suc, ◌+◌, ◌≡◌, refl, some, List, [], ◌∷◌, arith, startswith}
use iox2_jsonrpc.Python.Outcome.{Exception, returned, raised, error}
use iox2_jsonrpc.Helpers.Bytes.{slice_to_bytes, write_bytes_to_uninit_slice}
use iox2_jsonrpc.Helpers.ListMemory.{list_memory}
use iox2_jsonrpc.Helpers.RoundTrip.{slice_to_bytes-write}
use iox2_jsonrpc.Helpers.Cleanup.{
  CleanupTarget, best_effort_cleanup_dead_nodes, create_server_with_dead_node_cleanup, occurs,
  is_exceeds_max_supported_servers, pause,
}
use iox2_jsonrpc.Helpers.Cleanup.BestEffort.{
  KeepsExceptions, best_effort_cleanup_dead_nodes-KeepsExceptions,
}
use iox2_jsonrpc.Helpers.Cleanup.Retry.{scripted, Exceeds, failures, pauses, create_server-decided}

abbrev zeros : List ℕ
zeros = 0 ∷ 0 ∷ 0 ∷ []

slice_to_bytes-write_example :
    (b' : List ℕ) × (write_bytes_to_uninit_slice list_memory (λ b. b) zeros (7 ∷ 255 ∷ 9 ∷ [])
      ≡ returned b')
    × (slice_to_bytes list_memory b' ≡ returned (7 ∷ 255 ∷ 9 ∷ []))
slice_to_bytes-write_example =
    slice_to_bytes-write list_memory (λ b. b) zeros (7 ∷ 255 ∷ 9 ∷ []) refl
      (omega arith, (omega arith, (omega arith, tt)))

-- A node whose methods all fail.
abbrev failing : CleanupTarget ℕ
failing = record {
  blocking_cleanup = some (λ timeout calls. (raised (error "NodeCleanupFailure" ""), suc calls));
  try_cleanup = some (λ calls. (raised (error "TypeError" ""), suc calls));
  try_with_config = λ calls. (raised (error "NodeCleanupFailure" ""), suc calls);
}

best_effort_cleanup_dead_nodes-KeepsExceptions_example :
    KeepsExceptions (best_effort_cleanup_dead_nodes (some failing) (some failing) 100 0).0
best_effort_cleanup_dead_nodes-KeepsExceptions_example =
    best_effort_cleanup_dead_nodes-KeepsExceptions (some failing) (some failing) 100 0

abbrev exceeds : Exception
exceeds = error "ServerCreateError" "ExceedsMaxSupportedServers"

exceeds-Exceeds : Exceeds exceeds
unfolding is_exceeds_max_supported_servers occurs startswith
exceeds-Exceeds = (refl, refl)

-- The third attempt succeeds, after 50 and 100 milliseconds.
create_server-decided_example :
    create_server_with_dead_node_cleanup {P = ℕ}
      (scripted exceeds "s/c/rpc")
      20
      (failures (exceeds ∷ exceeds ∷ []) (returned 5 ∷ []), 0)
    ≡ (returned 5, ([], 0 + pauses 0 2))
create_server-decided_example =
    create_server-decided exceeds "s/c/rpc" (exceeds ∷ exceeds ∷ []) 20 (returned 5) []
      (omega arith) (exceeds-Exceeds, (exceeds-Exceeds, tt)) tt

-- All the pauses of 20 attempts, in milliseconds.
pauses_default : pauses 0 19 ≡ 7250
unfolding pause
pauses_default = refl
