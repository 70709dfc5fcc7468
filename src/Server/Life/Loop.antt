-- ===== src/Server/Life/Loop.antt =====
-- `run_forever`, `__enter__` and `__exit__` of iox2_jsonrpc/iceoryx_server.py. What is printed is left out.
use iox2_jsonrpc.Base.{ℕ, zero, suc, Bool, ◌||◌, ◌==◌, if◌then◌else◌}
use iox2_jsonrpc.Python.Outcome.{Exception, Outcome, Action, returned, raised}
use iox2_jsonrpc.Python.Action.{raise, ◌>>◌}
use iox2_jsonrpc.Server.{finally}
use iox2_jsonrpc.Registry.Transport.{out_of_fuel}

-- `with server: body`: `__enter__` gives the server itself; `__exit__` closes it, be there an exception or
-- not, and lets the exception pass. `close_all` is `self.close()`.
unfoldable pub with_server : {Q A : Type 0} → Action Q (Unit {0}) → Action Q A → Action Q A
with_server close_all body = finally body close_all

-- The exceptions that end the loop in silence.
abbrev pub stops : Exception → Bool
stops e = e.type_name == "KeyboardInterrupt" || e.type_name == "NodeWaitFailure"

unfoldable pub stopped : {Q : Type 0} → Outcome (Unit {0}) × Q → Outcome (Unit {0}) × Q
stopped (returned u, q) = (returned u, q)
stopped (raised e, q) = if stops e then (returned tt, q) else (raised e, q)

module _ {Q : Type 0} (node_wait drain_schema drain_rpc : Action Q (Unit {0})) where
  -- The `while True`, for as many rounds as there is fuel.
  unfoldable pub rounds : ℕ → Action Q (Unit {0})
  rounds zero = raise out_of_fuel
  rounds (suc fuel) = let next = rounds fuel in node_wait >> drain_schema >> drain_rpc >> next

  -- `close_all` is `self.close()`.
  unfoldable pub run_forever : Action Q (Unit {0}) → ℕ → Action Q (Unit {0})
  run_forever close_all fuel = finally (λ q. stopped (rounds fuel q)) close_all
