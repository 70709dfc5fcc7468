-- ===== src/Gateway/Lifespan.antt =====
-- The refreshes that an app of examples/webapi.py makes by itself: _run_gateway_refresh_loop and the
-- lifespan of create_dynamic_rpc_gateway_fastapi_app. The event loop's part is a list: whether `stop` was
-- set each time that the loop looked; at the end of the list the task is cancelled.
pub mod Refreshes
mod Tests
use iox2_jsonrpc.Base.{
  ℕ, zero, suc, String, Bool, true, false, Option, none, some, List, [], ◌∷◌, ◌==◌, if◌then◌else◌,
}
use iox2_jsonrpc.Python.Int.{ℤ, pos, negsuc}
use iox2_jsonrpc.Python.Outcome.{Exception, Outcome, Action, returned, raised}
use iox2_jsonrpc.Python.Action.{pure, raise, ◌>>=◌, ◌>>◌}
use iox2_jsonrpc.Registry.{Iox2RpcRegistry}
use iox2_jsonrpc.Gateway.{DynamicRpcGateway, DynamicGatewayStatus, refresh}

-- `asyncio.CancelledError`, which is no `Exception`.
abbrev pub cancelled : Exception
cancelled = record { type_name = "CancelledError"; message = ""; is_exception = false }

-- `refresh_interval_s is not None and refresh_interval_s > 0`
unfoldable pub has_task : Option ℤ → Bool
has_task none = false
has_task (some (pos zero)) = false
has_task (some (pos (suc n))) = true
has_task (some (negsuc n)) = false

-- `except asyncio.CancelledError: pass`
abbrev pub pass_cancelled : {S : Type 0} → Outcome (Unit {0}) × S → Outcome (Unit {0}) × S
pass_cancelled (returned u, s) = (returned u, s)
pass_cancelled (raised e, s) =
    if e.type_name == "CancelledError" then (returned tt, s) else (raised e, s)

module _ {V K W : Type 0} (factory : Action W (Iox2RpcRegistry V K)) where
  unfoldable pub run_gateway_refresh_loop :
      List Bool → Action (DynamicRpcGateway V K × W) (Unit {0})
  run_gateway_refresh_loop [] s = (raised cancelled, s)
  run_gateway_refresh_loop (true ∷ looks) s = (returned tt, s)
  run_gateway_refresh_loop (false ∷ looks) s = (refresh factory >> run_gateway_refresh_loop looks) s

  -- What comes before `yield`, apart from the task.
  unfoldable pub start_up : Bool → Action (DynamicRpcGateway V K × W) (Unit {0})
  start_up false s = (returned tt, s)
  start_up true s = (refresh factory >>= λ _. pure tt) s

  -- The task, and what comes after `yield`.
  unfoldable pub run_task : Option ℤ → List Bool → Action (DynamicRpcGateway V K × W) (Unit {0})
  run_task refresh_interval looks s =
      if has_task refresh_interval
      then pass_cancelled (run_gateway_refresh_loop looks s)
      else (returned tt, s)

  unfoldable pub lifespan :
      Bool → Option ℤ → List Bool → Action (DynamicRpcGateway V K × W) (Unit {0})
  lifespan refresh_on_startup refresh_interval looks s =
      (start_up refresh_on_startup >> run_task refresh_interval looks) s
