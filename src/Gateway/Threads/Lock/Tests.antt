-- ===== src/Gateway/Threads/Lock/Tests.antt =====
-- A refresh of the gateway of examples/webapi.py that has made one of its assignments, while another thread
-- makes its registry.
use iox2_jsonrpc.Base.{ℕ, ◌+◌, refl, none, some, List, [], ◌∷◌}
use iox2_jsonrpc.Python.Outcome.{Outcome, returned}
use iox2_jsonrpc.Registry.{Iox2RpcRegistry}
use iox2_jsonrpc.Gateway.{DynamicRpcGateway, new_gateway}
use iox2_jsonrpc.Gateway.Threads.{Job, made, make, set_job, Run}
use iox2_jsonrpc.Gateway.Threads.Tests.{jobs, jobs-IsStart, one_service, no_service}
use iox2_jsonrpc.Gateway.Threads.Lock.{
  assignments, free, writing, LockedSystem, LockedRun, act, take_to_write, assign, start, later,
}
use iox2_jsonrpc.Gateway.Threads.Lock.Refines.{LockedRun-Run}

abbrev empty : DynamicRpcGateway ℕ ℕ
empty = new_gateway

abbrev first_jobs : ℕ → Job ℕ ℕ
first_jobs = set_job jobs 0 (made (returned one_service))

abbrev both_jobs : ℕ → Job ℕ ℕ
both_jobs = set_job first_jobs 2 (made (returned no_service))

-- The registry is there, and the count is not yet.
abbrev half : DynamicRpcGateway ℕ ℕ
half = record empty { registry = some one_service }

abbrev left : List (DynamicRpcGateway ℕ ℕ → DynamicRpcGateway ℕ ℕ)
left =
    (λ g. record g { last_error = none })
    ∷ (λ g. record g { refresh_count = g.refresh_count + 1 })
    ∷ []

abbrev half_written : LockedSystem ℕ ℕ
half_written = record {
  gateway = half;
  jobs = both_jobs;
  holder = writing 0 (returned one_service) empty left;
}

half_written-LockedRun : LockedRun half_written
unfolding assignments
half_written-LockedRun =
    let s : LockedSystem ℕ ℕ = record { gateway = empty; jobs = jobs; holder = free } in
    let s₁ : LockedSystem ℕ ℕ = record s { jobs = first_jobs } in
    let s₂ : LockedSystem ℕ ℕ = record s₁ {
      holder = writing 0 (returned one_service) empty (assignments (returned one_service));
    } in
    let s₃ : LockedSystem ℕ ℕ = record half_written { jobs = first_jobs } in
    later s₃ half_written
      (later s₂ s₃
        (later s₁ s₂
          (later s s₁ (start jobs jobs-IsStart)
            (act 0 (made (returned one_service)) tt (λ g. make (returned one_service))))
          (take_to_write 0 (returned one_service) refl refl tt))
        (assign 0 (returned one_service) empty (λ g. record g { registry = some one_service }) left
          refl))
      (act 2 (made (returned no_service)) refl (λ g. make (returned no_service)))

LockedRun-Run_example :
    (os : List (Outcome (Iox2RpcRegistry ℕ ℕ))) × Run os
      (record { gateway = empty; jobs = both_jobs })
LockedRun-Run_example = LockedRun-Run half_written-LockedRun
