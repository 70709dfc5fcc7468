-- ===== src/Cli/Api.antt =====
-- The app that examples/cli.py runs keeps its gateway fresh by itself.
use iox2_jsonrpc.Base.{
  ℕ, zero, suc, ◌≡◌, refl, ap, Bool, true, none, some, List, All, length, arith,
}
use iox2_jsonrpc.Python.Outcome.{Action, returned}
use iox2_jsonrpc.Python.Int.{pos}
use iox2_jsonrpc.Registry.{Iox2RpcRegistry}
use iox2_jsonrpc.Gateway.{new_gateway, status}
use iox2_jsonrpc.Gateway.Select.{IsCaught, latest, refreshes-latest}
use iox2_jsonrpc.Gateway.Lifespan.{has_task}
use iox2_jsonrpc.Gateway.Lifespan.Refreshes.{rounds, made_by, world_after, lifespan-refreshes}
use iox2_jsonrpc.Gateway.App.{
  run_app, create_auto_discover_fastapi_app, create_dynamic_rpc_gateway_fastapi_app,
}
use iox2_jsonrpc.Cli.{create_fastapi_app}

module _ {V K W : Type 0} (factory : Action W (Iox2RpcRegistry V K))
    (caught : (w : W) → IsCaught (factory w).0) where
  made_by-IsCaught : (n : ℕ) (w : W) → All IsCaught (made_by factory n w)
  made_by-IsCaught zero w = tt
  made_by-IsCaught (suc n) w = (caught w, made_by-IsCaught n (factory w).1)

  length-made_by : (n : ℕ) (w : W) → length (made_by factory n w) ≡ n
  length-made_by zero w = refl
  length-made_by (suc n) w = ap suc (length-made_by n (factory w).1)

  -- If the factory raises only exceptions, the app of the command line returns, has refreshed its
  -- gateway at the start and in each round of the loop, and holds the last registry that could be made.
  pub create_fastapi_app-refreshed :
      (looks : List Bool) (w : W)
      → let end = run_app factory create_fastapi_app looks w in
        (end.0 ≡ returned tt)
        × ((status end.1.0).refresh_count ≡ suc (rounds looks))
        × (end.1.0.registry ≡ latest (made_by factory (suc (rounds looks)) w) none)
        × (end.1.1 ≡ world_after factory (suc (rounds looks)) w)
  unfolding run_app create_fastapi_app create_auto_discover_fastapi_app
      create_dynamic_rpc_gateway_fastapi_app has_task status
  create_fastapi_app-refreshed looks w =
      let os = made_by factory (suc (rounds looks)) w in
      let (registry, _, count) =
        refreshes-latest os new_gateway (made_by-IsCaught (suc (rounds looks)) w) in
      rw (lifespan-refreshes factory caught true (some (pos 1000)) looks new_gateway w)
        (refl, omega (arith, count, length-made_by (suc (rounds looks)) w), registry, refl)
