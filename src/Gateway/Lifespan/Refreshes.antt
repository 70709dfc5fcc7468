-- ===== src/Gateway/Lifespan/Refreshes.antt =====
-- The lifespan of an app of examples/webapi.py is a series of refreshes, which no failing one ends.
use iox2_jsonrpc.Base.{
  ℕ, zero, suc, ◌≡◌, refl, Bool, true, false, Option, List, [], ◌∷◌, inl, inr, Bool-cases,
  if◌then◌else◌,
}
use iox2_jsonrpc.Python.Int.{ℤ}
use iox2_jsonrpc.Python.Outcome.{Outcome, Action, returned, raised}
use iox2_jsonrpc.Registry.{Iox2RpcRegistry}
use iox2_jsonrpc.Gateway.{DynamicRpcGateway, refresh, refreshed, status}
use iox2_jsonrpc.Gateway.Select.{IsCaught, refreshes}
use iox2_jsonrpc.Gateway.Lifespan.{
  has_task, pass_cancelled, run_gateway_refresh_loop, start_up, run_task, lifespan,
}

-- The refreshes of the loop: until it sees `stop`, or its task is cancelled.
abbrev pub rounds : List Bool → ℕ
rounds [] = 0
rounds (true ∷ looks) = 0
rounds (false ∷ looks) = suc (rounds looks)

abbrev pub refresh_count_of : Bool → Option ℤ → List Bool → ℕ
refresh_count_of false interval looks = if has_task interval then rounds looks else 0
refresh_count_of true interval looks = suc (if has_task interval then rounds looks else 0)

module _ {V K W : Type 0} where
  refreshed-returned :
      (gateway : DynamicRpcGateway V K) (r : Outcome (Iox2RpcRegistry V K) × W)
      → IsCaught r.0
      → refreshed gateway r
        ≡ (returned (status (refreshes (r.0 ∷ []) gateway)), (refreshes (r.0 ∷ []) gateway, r.1))
  unfolding refreshed refresh
  refreshed-returned gateway (returned registry, w) h = refl
  refreshed-returned gateway (raised e, w) h = rw h refl

module _ {V K W : Type 0} (factory : Action W (Iox2RpcRegistry V K)) where
  -- What `n` calls of the factory give, and the world after them.
  abbrev pub made_by : ℕ → W → List (Outcome (Iox2RpcRegistry V K))
  made_by zero w = []
  made_by (suc n) w = (factory w).0 ∷ made_by n (factory w).1

  abbrev pub world_after : ℕ → W → W
  world_after zero w = w
  world_after (suc n) w = world_after n (factory w).1

  -- A refresh whose factory raises no more than exceptions returns, and leaves this state.
  refresh-returned :
      (gateway : DynamicRpcGateway V K) (w : W)
      → IsCaught (factory w).0
      → refresh factory (gateway, w) ≡ (
        returned (status (refreshes ((factory w).0 ∷ []) gateway)),
        (refreshes ((factory w).0 ∷ []) gateway, (factory w).1),
      )
  unfolding refresh
  refresh-returned gateway w caught = refreshed-returned gateway (factory w) caught

  module _ (caught : (w : W) → IsCaught (factory w).0) where
    loop_refreshes :
        (looks : List Bool) (gateway : DynamicRpcGateway V K) (w : W)
        → pass_cancelled (run_gateway_refresh_loop factory looks (gateway, w)) ≡ (
          returned tt,
          (refreshes (made_by (rounds looks) w) gateway, world_after (rounds looks) w),
        )
    unfolding run_gateway_refresh_loop
    loop_refreshes [] gateway w = refl
    loop_refreshes (true ∷ looks) gateway w = refl
    loop_refreshes (false ∷ looks) gateway w =
        rw (refresh-returned gateway w (caught w))
          (loop_refreshes looks (refreshes ((factory w).0 ∷ []) gateway) (factory w).1)

    task_refreshes :
        (interval : Option ℤ) (looks : List Bool) (gateway : DynamicRpcGateway V K) (w : W)
        → run_task factory interval looks (gateway, w) ≡ (
          returned tt,
          (
            refreshes (made_by (if has_task interval then rounds looks else 0) w) gateway,
            world_after (if has_task interval then rounds looks else 0) w,
          ),
        )
    unfolding run_task
    task_refreshes interval looks gateway w = elim (Bool-cases (has_task interval)) [
      | inl e ↦ rw e (loop_refreshes looks gateway w)
      | inr e ↦ rw e refl
    ]

    -- If the factory raises only exceptions, an app's lifespan returns, also when its task is
    -- cancelled, and has refreshed the gateway once at the start, if this is asked for, and once in
    -- each round of the loop, if the interval is given and positive: no failing refresh ends it.
    pub lifespan-refreshes :
        (at_start : Bool) (interval : Option ℤ) (looks : List Bool)
        (gateway : DynamicRpcGateway V K) (w : W)
        → lifespan factory at_start interval looks (gateway, w) ≡ (
          returned tt,
          (
            refreshes (made_by (refresh_count_of at_start interval looks) w) gateway,
            world_after (refresh_count_of at_start interval looks) w,
          ),
        )
    unfolding lifespan start_up
    lifespan-refreshes false interval looks gateway w = task_refreshes interval looks gateway w
    lifespan-refreshes true interval looks gateway w =
        rw (refresh-returned gateway w (caught w))
          (task_refreshes interval looks (refreshes ((factory w).0 ∷ []) gateway) (factory w).1)
