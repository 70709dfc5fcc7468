-- ===== src/Registry/Threads.antt =====
-- Calls of `Iox2RpcRegistry` (iox2_jsonrpc/iceoryx_registry.py) in several threads, as the gateway of
-- examples/webapi.py makes them: `self.request_counter += 1` reads and writes the counter without a lock,
-- and the request's id is read from it once more.
pub mod Numbered
pub mod Uninterrupted
mod Tests
use iox2_jsonrpc.Base.{ℕ, ◌+◌, ◌≡◌, Option, none, some, List, ◌∷◌, ◌++◌, All}
use iox2_jsonrpc.Python.Outcome.{Exception}
use iox2_jsonrpc.Models.{JsonRpcRequest}
use iox2_jsonrpc.Registry.{call_request, no_client}
use iox2_jsonrpc.Registry.Ids.{Call}

-- Where a thread is in `call`.
pub data Place (V K : Type 0) : Type 0 where
  calling : Call V K → Place V K
  loaded : K → ℕ → Call V K → Place V K
  stored : K → Call V K → Place V K
  requested : K → JsonRpcRequest → ℕ → Place V K
  refused : Exception → Place V K

module _ {V K : Type 0} where
  -- The test of the client, and the first reading of the counter.
  unfoldable pub tested : Option K → ℕ → Call V K → Place V K
  tested none counter (service, method, params, timeout) = refused (no_client service)
  tested (some client) counter c = loaded client counter c

  -- One step of a thread, with the counter before and after it.
  pub data CallStep : ℕ → Place V K → ℕ → Place V K → Type 0 where
    load :
        (counter : ℕ) (c : Call V K)
        → CallStep counter (calling c) counter (tested c.0.rpc_client counter c)
    store :
        (counter k : ℕ) (client : K) (c : Call V K)
        → CallStep counter (loaded client k c) (k + 1) (stored client c)
    number :
        (counter : ℕ) (client : K) (c : Call V K)
        → CallStep counter
            (stored client c)
            counter
            (requested client (call_request counter c.1 c.2) c.3)

  abbrev pub IsCalling : Place V K → Type 0
  IsCalling (calling c) = Unit
  IsCalling _ = ⊥

  -- The runs of some calls on a registry whose counter is `first`, by the counter and the places that
  -- the calls come to.
  pub data CallRun (first : ℕ) : ℕ → List (Place V K) → Type 0 where
    start : (calls : List (Place V K)) → All IsCalling calls → CallRun first first calls
    later :
        (counter after : ℕ) (before : List (Place V K)) (place next : Place V K)
        (rest : List (Place V K))
        → CallRun first counter (before ++ (place ∷ rest))
        → CallStep counter place after next
        → CallRun first after (before ++ (next ∷ rest))
