-- ===== src/Gateway/Lifespan/Tests.antt =====
-- The lifespan of an app of examples/webapi.py whose first discovery fails.
use iox2_jsonrpc.Base.{ℕ, zero, suc, ◌≡◌, refl, true, false, some, [], ◌∷◌}
use iox2_jsonrpc.Python.Int.{pos}
use iox2_jsonrpc.Python.Outcome.{Action, returned, raised, error}
use iox2_jsonrpc.Registry.{Iox2RpcRegistry}
use iox2_jsonrpc.Gateway.{new_gateway}
use iox2_jsonrpc.Gateway.Select.{IsCaught, refreshes}
use iox2_jsonrpc.Gateway.Lifespan.{lifespan, has_task}
use iox2_jsonrpc.Gateway.Lifespan.Refreshes.{lifespan-refreshes}

abbrev registry : Iox2RpcRegistry ℕ ℕ
registry = record { services = []; request_counter = 0 }

-- The world counts the discoveries; the first fails.
abbrev factory : Action ℕ (Iox2RpcRegistry ℕ ℕ)
factory zero = (raised (error "RuntimeError" "no node"), 1)
factory (suc n) = (returned registry, suc (suc n))

factory-IsCaught : (w : ℕ) → IsCaught (factory w).0
factory-IsCaught zero = refl
factory-IsCaught (suc n) = tt

lifespan-refreshes_example :
    lifespan factory true (some (pos 5)) (false ∷ false ∷ []) (new_gateway, 0) ≡ (
      returned tt,
      (
        refreshes
            (raised (error "RuntimeError" "no node") ∷ returned registry ∷ returned registry ∷ [])
            new_gateway,
        3,
      ),
    )
unfolding has_task
lifespan-refreshes_example =
    lifespan-refreshes factory factory-IsCaught true (some (pos 5)) (false ∷ false ∷ []) new_gateway
      0
