-- ===== src/Helpers/Cleanup.antt =====
-- The best-effort calls and the retries of iox2_jsonrpc/iceoryx_helpers.py. What is printed is left
-- out; `W` is the world that iceoryx2 acts on.
pub mod BestEffort
pub mod Retry
use iox2_jsonrpc.Base.{
  ℕ, zero, suc, ◌+◌, ◌*◌, String, Bool, true, false, not, ◌||◌, Option, none, some, ltb, ◌&◌, ◌==◌,
  startswith, is_none, if◌then◌else◌,
}
use iox2_jsonrpc.Python.Outcome.{Exception, Outcome, Action, returned, raised, error, ◌>>=◌}
use iox2_jsonrpc.Python.Action.{pure, raise, except, continue, ◌>>◌}
use iox2_jsonrpc.Python.Repr.{repr}
use iox2_jsonrpc.Helpers.Attributes.{OrCall, call_or_value}

-- A node or a service by the clean-up methods that it has; `try_with_config` is a call of the same
-- method as `try_cleanup` with the service type and the node's configuration.
pub record CleanupTarget (W : Type 0) : Type 0 where
  pub blocking_cleanup : Option (ℕ → Action W (Unit {0}))
  pub try_cleanup : Option (Action W (Unit {0}))
  pub try_with_config : Action W (Unit {0})

-- `except Exception: pass`
abbrev pub swallow : {W : Type 0} → Outcome (Unit {0}) × W → Outcome (Unit {0}) × W
swallow = except (λ _. pure tt)

module _ {W : Type 0} where
  -- The handlers of the second `try`; the classes that derive from `TypeError` are not told apart.
  unfoldable pub after_try :
      Bool → Action W (Unit {0}) → Outcome (Unit {0}) × W → Outcome (Unit {0}) × W
  after_try has_node with_config (returned _, w) = (returned tt, w)
  after_try has_node with_config (raised e, w) =
      if e.type_name == "TypeError"
      then (if has_node then swallow (with_config w) else (returned tt, w))
      else swallow (raised e, w)

  unfoldable pub try_target :
      Bool → CleanupTarget W → Option (Action W (Unit {0})) → Action W (Unit {0})
  unfolding after_try
  try_target has_node target none w = (returned tt, w)
  try_target has_node target (some call) w = after_try has_node target.try_with_config (call w)

  -- What follows the blocking call: `continue`, or the second attempt.
  unfoldable pub after_blocking :
      Action W (Unit {0}) → Outcome (Unit {0}) × W → Outcome (Unit {0}) × W
  after_blocking next (returned _, w) = (returned tt, w)
  after_blocking next (raised e, w) = if e.is_exception then next w else (raised e, w)

  unfoldable pub clean_target :
      Bool → ℕ → CleanupTarget W → Option (ℕ → Action W (Unit {0})) → Action W (Unit {0})
  unfolding try_target after_blocking
  clean_target has_node timeout target none w = try_target has_node target target.try_cleanup w
  clean_target has_node timeout target (some call) w =
      after_blocking (try_target has_node target target.try_cleanup) (call timeout w)

  unfoldable pub clean_optional : Bool → ℕ → Option (CleanupTarget W) → Action W (Unit {0})
  unfolding clean_target
  clean_optional has_node timeout none w = (returned tt, w)
  clean_optional has_node timeout (some target) w =
      clean_target has_node timeout target target.blocking_cleanup w

  unfoldable pub best_effort_cleanup_dead_nodes :
      Option (CleanupTarget W) → Option (CleanupTarget W) → ℕ → Action W (Unit {0})
  unfolding clean_optional
  best_effort_cleanup_dead_nodes node service timeout =
      clean_optional (not (is_none node)) timeout service
      >> clean_optional (not (is_none node)) timeout node

  -- `none`: the object has no `delete` that can be called.
  unfoldable pub delete_iox2_object : Option (Action W (Unit {0})) → Action W (Unit {0})
  delete_iox2_object none w = (returned tt, w)
  delete_iox2_object (some delete) w = swallow (delete w)

  -- `requested` tells whether the environment variable is `1`.
  unfoldable pub force_remove_request_response_service_if_requested :
      Bool → Action W (Unit {0}) → Action W (Unit {0})
  force_remove_request_response_service_if_requested requested force_remove w =
      if requested then swallow (force_remove w) else (returned tt, w)

-- `needle in text`
unfoldable pub occurs : String → String → Bool
occurs needle String.[] = startswith "" needle
occurs needle (String.◌∷◌ c text) =
    let later = occurs needle text in startswith (String.◌∷◌ c text) needle || later

unfoldable pub is_exceeds_max_supported_servers : Exception → Bool
is_exceeds_max_supported_servers e =
    occurs "ExceedsMaxSupportedServers" (e.type_name & ": " & e.message)

-- `repr` of the nodes is the binding's.
unfoldable pub describe_service_nodes :
    {N : Type 0} → (N → Outcome String) → Outcome (OrCall N) → Outcome String
describe_service_nodes repr_nodes nodes =
    handled (nodes >>= λ accessor. call_or_value accessor >>= repr_nodes)
  where
    handled : Outcome String → Outcome String
    handled (returned text) = returned text
    handled (raised e) =
        if e.is_exception
        then returned ("<could not inspect service nodes: " & e.message & ">")
        else raised e

-- `min(0.05 * (attempt + 1), 0.5)` in milliseconds.
unfoldable pub pause : ℕ → ℕ
pause attempt = let ms = 50 * (attempt + 1) in if ltb ms 500 then ms else 500

abbrev pub no_server_error : String → String → Exception → Exception
no_server_error service_name nodes last = error "RuntimeError" (
    "Could not create iceoryx2 server port for "
    & repr service_name
    & ": "
    & last.message
    & ".\niceoryx2 still counts an existing Server port against max_servers(1). "
    & "This usually means another server process is still alive, or a crashed process "
    & "is still visible to the OS and cannot be cleaned by iceoryx2 yet.\nKnown nodes for this service: "
    & nodes
    & "\nStop all processes using this endpoint and retry. During local development only, "
    & "you can also set IOX2_JSONRPC_FORCE_REMOVE_SERVICES=1 before starting the server "
    & "to force-remove the RPC/schema services and recreate them.")

-- What one creation needs: the creation of the port, the clean-up between attempts, the sleep, and the
-- text of `describe_service_nodes`.
pub record Creation (W P : Type 0) : Type 0 where
  pub create_port : Action W P
  pub cleanup : Action W (Unit {0})
  pub sleep : ℕ → Action W (Unit {0})
  pub nodes_text : Outcome String
  pub service_name : String

module _ {W P : Type 0} (creation : Creation W P) where
  open creation use {create_port, cleanup, sleep, nodes_text, service_name}

  -- After the loop.
  unfoldable pub give_up : Option Exception → Action W P
  give_up none w = (raised (error "AssertionError" ""), w)
  give_up (some last) w =
      continue nodes_text (λ nodes. raise (no_server_error service_name nodes last)) w

  -- The rest of a round whose creation failed for the number of servers; no more attempts are left
  -- when `remaining` is 0.
  unfoldable pub next_attempt : ℕ → ℕ → Exception → Action W P → Action W P
  next_attempt zero attempt e next = cleanup >> give_up (some e)
  next_attempt (suc remaining) attempt e next = cleanup >> sleep (pause attempt) >> next

  unfoldable pub after_create : ℕ → ℕ → Action W P → Outcome P × W → Outcome P × W
  after_create remaining attempt next (returned port, w) = (returned port, w)
  after_create remaining attempt next (raised e, w) =
      if e.is_exception
      then (if is_exceeds_max_supported_servers e
          then next_attempt remaining attempt e next w
          else (raised e, w))
      else (raised e, w)

  -- The attempts from `attempt` on, `remaining` of them.
  unfoldable pub attempts : ℕ → ℕ → Action W P
  attempts zero attempt w = give_up none w
  attempts (suc remaining) attempt w =
      let next = attempts remaining (attempt + 1) in
      after_create remaining attempt next (create_port w)

  unfoldable pub create_server_with_dead_node_cleanup : ℕ → Action W P
  create_server_with_dead_node_cleanup max_attempts = attempts max_attempts 0
