-- ===== src/Gateway/Threads/Lock.antt =====
-- The lock of the gateway of examples/webapi.py. Here a thread that needs the lock takes it only if it is
-- free, `refresh` makes its assignments one by one while it holds it, and other threads go on meanwhile.
pub mod Refines
pub mod Released
mod Tests
use iox2_jsonrpc.Base.{ℕ, ◌+◌, ◌≡◌, false, none, some, List, [], ◌∷◌, eqb}
use iox2_jsonrpc.Python.Outcome.{Outcome, returned, raised}
use iox2_jsonrpc.Registry.{Iox2RpcRegistry}
use iox2_jsonrpc.Gateway.{DynamicRpcGateway, new_gateway}
use iox2_jsonrpc.Gateway.Select.{IsCaught}
use iox2_jsonrpc.Gateway.Threads.{
  Job, made, updated, calling, selected, requesting, Move, IsStart, set_job,
}

module _ {V K : Type 0} where
  -- The assignments of `refresh` under the lock, in order.
  unfoldable pub assignments :
      Outcome (Iox2RpcRegistry V K) → List (DynamicRpcGateway V K → DynamicRpcGateway V K)
  assignments (returned registry) =
      (λ g. record g { registry = some registry })
      ∷ (λ g. record g { last_error = none })
      ∷ (λ g. record g { refresh_count = g.refresh_count + 1 })
      ∷ []
  assignments (raised e) =
      (λ g. record g { last_error = some e.message })
      ∷ (λ g. record g { refresh_count = g.refresh_count + 1 })
      ∷ []

  abbrev pub assign_all :
      List (DynamicRpcGateway V K → DynamicRpcGateway V K)
      → DynamicRpcGateway V K
      → DynamicRpcGateway V K
  assign_all [] gateway = gateway
  assign_all (f ∷ fs) gateway = assign_all fs (f gateway)

-- Who has the lock. A writer is shown with what it installs, the gateway that it found, and the
-- assignments that it has not made yet.
pub data Holder (V K : Type 0) : Type 0 where
  free : Holder V K
  reading : ℕ → Holder V K
  writing :
      ℕ
      → Outcome (Iox2RpcRegistry V K)
      → DynamicRpcGateway V K
      → List (DynamicRpcGateway V K → DynamicRpcGateway V K)
      → Holder V K

-- The fields of the gateway as they are in memory, each thread's place, and the lock.
pub record LockedSystem (V K : Type 0) : Type 0 where
  pub gateway : DynamicRpcGateway V K
  pub jobs : ℕ → Job V K
  pub holder : Holder V K

module _ {V K : Type 0} where
  -- The thread does not have the lock.
  abbrev pub IsAway : ℕ → Holder V K → Type 0
  IsAway i free = Unit
  IsAway i (reading k) = eqb k i ≡ false
  IsAway i (writing k o found left) = eqb k i ≡ false

  -- The thread needs the lock for its next step, and changes nothing under it.
  abbrev pub IsReader : Job V K → Type 0
  IsReader (updated n) = Unit
  IsReader (calling c) = Unit
  IsReader (selected service c) = Unit
  IsReader (requesting request) = Unit
  IsReader _ = ⊥

  pub data LockedStep (s : LockedSystem V K) : LockedSystem V K → Type 0 where
    -- A step that needs no lock is the same whatever the gateway is.
    act :
        (i : ℕ) (job : Job V K)
        → IsAway i s.holder
        → ((gateway : DynamicRpcGateway V K) → Move gateway (s.jobs i) gateway [] job)
        → LockedStep s (record s { jobs = set_job s.jobs i job })
    take_to_read :
        (i : ℕ)
        → s.holder ≡ free
        → IsReader (s.jobs i)
        → LockedStep s (record s { holder = reading i })
    read :
        (i : ℕ) (job : Job V K)
        → s.holder ≡ reading i
        → Move s.gateway (s.jobs i) s.gateway [] job
        → LockedStep s (record s { jobs = set_job s.jobs i job; holder = free })
    take_to_write :
        (i : ℕ) (o : Outcome (Iox2RpcRegistry V K))
        → s.holder ≡ free
        → s.jobs i ≡ made o
        → IsCaught o
        → LockedStep s (record s { holder = writing i o s.gateway (assignments o) })
    assign :
        (i : ℕ) (o : Outcome (Iox2RpcRegistry V K)) (found : DynamicRpcGateway V K)
        (f : DynamicRpcGateway V K → DynamicRpcGateway V K)
        (left : List (DynamicRpcGateway V K → DynamicRpcGateway V K))
        → s.holder ≡ writing i o found (f ∷ left)
        → LockedStep s (record s { gateway = f s.gateway; holder = writing i o found left })
    release :
        (i : ℕ) (o : Outcome (Iox2RpcRegistry V K)) (found : DynamicRpcGateway V K)
        → s.holder ≡ writing i o found []
        → LockedStep s
            (record s { jobs = set_job s.jobs i (updated s.gateway.refresh_count); holder = free })

  -- Runs from a new gateway whose lock is free.
  pub data LockedRun : LockedSystem V K → Type 0 where
    start :
        (jobs : ℕ → Job V K)
        → ((i : ℕ) → IsStart (jobs i))
        → LockedRun (record { gateway = new_gateway; jobs = jobs; holder = free })
    later : (s t : LockedSystem V K) → LockedRun s → LockedStep s t → LockedRun t
