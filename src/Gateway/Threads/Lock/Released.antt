-- ===== src/Gateway/Threads/Lock/Released.antt =====
-- The thread that has the lock of the gateway of examples/webapi.py can always go on to give it back.
use iox2_jsonrpc.Base.{ℕ, ◌≡◌, List, [], ◌∷◌}
use iox2_jsonrpc.Python.Outcome.{Outcome}
use iox2_jsonrpc.Registry.{Iox2RpcRegistry}
use iox2_jsonrpc.Gateway.{DynamicRpcGateway}
use iox2_jsonrpc.Gateway.Threads.{Job, updated, set_job}
use iox2_jsonrpc.Gateway.Threads.Lock.{free, reading, writing, LockedSystem, LockedStep}

module _ {V K : Type 0} where
  -- Steps of the thread that has the lock, up to the first state in which the lock is free.
  pub data Frees (i : ℕ) : LockedSystem V K → LockedSystem V K → Type 0 where
    freed : (s : LockedSystem V K) → s.holder ≡ free → Frees i s s
    looks :
        (s : LockedSystem V K) (job : Job V K)
        → s.holder ≡ reading i
        → LockedStep s (record s { jobs = set_job s.jobs i job; holder = free })
        → Frees i s (record s { jobs = set_job s.jobs i job; holder = free })
    assigns :
        (s t : LockedSystem V K) (o : Outcome (Iox2RpcRegistry V K)) (found : DynamicRpcGateway V K)
        (f : DynamicRpcGateway V K → DynamicRpcGateway V K)
        (left : List (DynamicRpcGateway V K → DynamicRpcGateway V K))
        → s.holder ≡ writing i o found (f ∷ left)
        → LockedStep s (record s { gateway = f s.gateway; holder = writing i o found left })
        → Frees i (record s { gateway = f s.gateway; holder = writing i o found left }) t
        → Frees i s t
    releases :
        (s : LockedSystem V K) (o : Outcome (Iox2RpcRegistry V K)) (found : DynamicRpcGateway V K)
        → s.holder ≡ writing i o found []
        → LockedStep s
            (record s { jobs = set_job s.jobs i (updated s.gateway.refresh_count); holder = free })
        → Frees i s
            (record s { jobs = set_job s.jobs i (updated s.gateway.refresh_count); holder = free })
