-- ===== src/Gateway/Threads/Lock/Refines.antt =====
-- What the lock of the gateway of examples/webapi.py makes of the steps: a refresh is seen wholly or not
-- at all.
use iox2_jsonrpc.Base.{ℕ, ◌≡◌, refl, sym, ap, subst, ◌∙◌, List, [], ◌∷◌, ◌++◌, if_true}
use iox2_jsonrpc.Python.Outcome.{Outcome, returned, raised}
use iox2_jsonrpc.Registry.{Iox2RpcRegistry}
use iox2_jsonrpc.Gateway.{DynamicRpcGateway, DynamicGatewayStatus, refreshed}
use iox2_jsonrpc.Gateway.Select.{IsCaught}
use iox2_jsonrpc.Gateway.Threads.{
  Job, made, updated, installed, Move, update, System, set_job, pick, Run,
}
use iox2_jsonrpc.Gateway.Threads.Lock.{
  assignments, assign_all, Holder, free, reading, writing, LockedSystem, IsAway, IsReader,
  LockedStep, act, take_to_read, read, take_to_write, assign, release, LockedRun, start, later,
}

module _ {V K : Type 0} where
  assignments-installed :
      (gateway : DynamicRpcGateway V K) (o : Outcome (Iox2RpcRegistry V K))
      → IsCaught o
      → assign_all (assignments o) gateway ≡ installed gateway o
  unfolding assignments installed refreshed
  assignments-installed gateway (returned registry) h = refl
  assignments-installed gateway (raised e) h = sym (
      ap {A = Outcome DynamicGatewayStatus × (DynamicRpcGateway V K × Unit {0})} (λ r. r.1.0)
        (if_true e.is_exception _ _ h))

  -- The gateway that threads can see: while one writes, it is the one that the writer found.
  abbrev pub seen : Holder V K → DynamicRpcGateway V K → DynamicRpcGateway V K
  seen (writing i o found left) gateway = found
  seen _ gateway = gateway

  -- A reader has to look at the gateway. A writer has made an outcome, and what is left of its
  -- assignments leads to all of them.
  abbrev pub IsWritten : Holder V K → DynamicRpcGateway V K → (ℕ → Job V K) → Type 0
  IsWritten (writing i o found left) gateway jobs =
      (jobs i ≡ made o) × IsCaught o × (assign_all left gateway ≡ assign_all (assignments o) found)
  IsWritten (reading i) gateway jobs = IsReader (jobs i)
  IsWritten free gateway jobs = Unit

  abbrev pub shown : Holder V K → DynamicRpcGateway V K → (ℕ → Job V K) → System V K
  shown holder gateway jobs = record { gateway = seen holder gateway; jobs = jobs }

  abbrev pub IsRun : Holder V K → DynamicRpcGateway V K → (ℕ → Job V K) → Type 0
  IsRun holder gateway jobs =
      ((os : List (Outcome (Iox2RpcRegistry V K))) × Run os (shown holder gateway jobs))
      × IsWritten holder gateway jobs

  act-IsWritten :
      (i : ℕ) (job : Job V K) (holder : Holder V K) (gateway : DynamicRpcGateway V K)
      (jobs : ℕ → Job V K)
      → IsAway i holder
      → IsWritten holder gateway jobs
      → IsWritten holder gateway (set_job jobs i job)
  act-IsWritten i job free gateway jobs away h = tt
  act-IsWritten i job (reading k) gateway jobs away h = rw away h
  act-IsWritten i job (writing k o found left) gateway jobs away (e, caught, same) =
      (rw away e, caught, same)

  -- One step of a run, seen from outside.
  moved :
      (os new : List (Outcome (Iox2RpcRegistry V K))) (gateway after : DynamicRpcGateway V K)
      (jobs : ℕ → Job V K) (i : ℕ) (job : Job V K)
      → Run os (record { gateway = gateway; jobs = jobs })
      → Move gateway (jobs i) after new job
      → Run (os ++ new) (record { gateway = after; jobs = set_job jobs i job })
  moved os new gateway after jobs i job run move =
      Run.later os new _ _ run (pick i new after job move)

  released :
      (i : ℕ) (o : Outcome (Iox2RpcRegistry V K)) (found gateway : DynamicRpcGateway V K)
      (jobs : ℕ → Job V K)
      → IsRun (writing i o found []) gateway jobs
      → IsRun free gateway (set_job jobs i (updated gateway.refresh_count))
  released i o found gateway jobs ((os, run), (e, caught, same)) =
      let whole : gateway ≡ installed found o = same ∙ assignments-installed found o caught in
      let move : Move found (jobs i) (installed found o) (o ∷ [])
          (updated (installed found o).refresh_count) =
        subst
          (λ job.
            Move found job (installed found o) (o ∷ []) (updated (installed found o).refresh_count))
          (sym e) (update o caught) in
      (
        (
          os ++ (o ∷ []),
          subst
              (λ g.
                Run (os ++ (o ∷ []))
                  (record { gateway = g; jobs = set_job jobs i (updated g.refresh_count) }))
              (sym whole) (moved os (o ∷ []) found (installed found o) jobs i _ run move),
        ),
        tt,
      )

  LockedStep-IsRun :
      (s t : LockedSystem V K)
      → IsRun s.holder s.gateway s.jobs
      → LockedStep s t
      → IsRun t.holder t.gateway t.jobs
  LockedStep-IsRun s t ((os, run), w) (act i job away move) = (
    (os ++ [], moved os [] _ _ s.jobs i job run (move (seen s.holder s.gateway))),
    act-IsWritten i job s.holder s.gateway s.jobs away w,
  )
  LockedStep-IsRun s t r (take_to_read i h reader) =
      let ((os, run), w) = subst (λ x. IsRun x s.gateway s.jobs) h r in ((os, run), reader)
  LockedStep-IsRun s t r (read i job h move) =
      let ((os, run), w) = subst (λ x. IsRun x s.gateway s.jobs) h r in
      ((os ++ [], moved os [] _ _ s.jobs i job run move), tt)
  LockedStep-IsRun s t r (take_to_write i o h e caught) =
      let ((os, run), w) = subst (λ x. IsRun x s.gateway s.jobs) h r in
      ((os, run), (e, caught, refl))
  LockedStep-IsRun s t r (assign i o found f left h) =
      let ((os, run), (e, caught, same)) = subst (λ x. IsRun x s.gateway s.jobs) h r in
      ((os, run), (e, caught, same))
  LockedStep-IsRun s t r (release i o found h) =
      released i o found s.gateway s.jobs (subst (λ x. IsRun x s.gateway s.jobs) h r)

  pub LockedRun-IsRun : {s : LockedSystem V K} → LockedRun s → IsRun s.holder s.gateway s.jobs
  LockedRun-IsRun (start jobs h) = (([], Run.start jobs h), tt)
  LockedRun-IsRun (later s t run step) = LockedStep-IsRun s t (LockedRun-IsRun run) step

  -- However the threads take the lock, make their assignments under it and go on without it, they come
  -- to where a run of whole steps comes to: the gateway is that of the run, or, while a refresh is at its
  -- assignments, the one that this refresh found is.
  pub LockedRun-Run :
      {s : LockedSystem V K}
      → LockedRun s
      → (os : List (Outcome (Iox2RpcRegistry V K))) × Run os
          (record { gateway = seen s.holder s.gateway; jobs = s.jobs })
  LockedRun-Run run = (LockedRun-IsRun run).0
