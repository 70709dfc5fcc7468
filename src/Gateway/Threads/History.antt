-- ===== src/Gateway/Threads/History.antt =====
-- Concurrent refreshes of the gateway of examples/webapi.py are sequential ones, in the order in which
-- they took the lock.
use iox2_jsonrpc.Base.{
  ℕ, ◌≡◌, refl, sym, ap, ◌∙◌, List, [], ◌∷◌, ◌++◌, All, All-append, arith, none, length, eqb, inl,
  inr, Bool-cases,
}
use iox2_jsonrpc.Python.Outcome.{Outcome}
use iox2_jsonrpc.Registry.{Iox2RpcRegistry}
use iox2_jsonrpc.Gateway.{DynamicRpcGateway, new_gateway, refresh, status}
use iox2_jsonrpc.Gateway.Select.{IsCaught, refreshes, latest, last_failure, refreshes-latest}
use iox2_jsonrpc.Gateway.Threads.{
  snapshot_rpc, ask_unique, Job, installed, Move, make, escape, update, report, find, snapshot, ask,
  System, IsStart, pick, Run, start, later,
}

module _ {V K : Type 0} where
  pub refreshes-append :
      (os ps : List (Outcome (Iox2RpcRegistry V K))) (gateway : DynamicRpcGateway V K)
      → refreshes (os ++ ps) gateway ≡ refreshes ps (refreshes os gateway)
  refreshes-append [] ps gateway = refl
  refreshes-append (o ∷ os) ps gateway =
      refreshes-append os ps (refresh (λ w. (o, w)) (gateway, tt)).1.0

  pub Move-refreshes :
      {gateway after : DynamicRpcGateway V K} {new : List (Outcome (Iox2RpcRegistry V K))}
      {job next : Job V K}
      → Move gateway job after new next
      → (after ≡ refreshes new gateway) × All IsCaught new
  unfolding installed refresh
  Move-refreshes (make o) = (refl, tt)
  Move-refreshes (escape e h) = (refl, tt)
  Move-refreshes (update o h) = (refl, (h, tt))
  Move-refreshes (report n) = (refl, tt)
  Move-refreshes (find c) = (refl, tt)
  Move-refreshes (snapshot service c) = (refl, tt)
  Move-refreshes (ask registry service c o) = (refl, tt)
  Move-refreshes (snapshot_rpc request) = (refl, tt)
  Move-refreshes (ask_unique registry request o) = (refl, tt)

  -- The gateway is what the refreshes, one after another in the order of their updates, make of a new one.
  pub Run-refreshes :
      {os : List (Outcome (Iox2RpcRegistry V K))} {s : System V K}
      → Run os s
      → s.gateway ≡ refreshes os new_gateway
  Run-refreshes (start jobs h) = refl
  Run-refreshes (later os new s t run (pick i ps gateway job move)) =
      (Move-refreshes move).0
      ∙ ap (refreshes new) (Run-refreshes run)
      ∙ sym (refreshes-append os new new_gateway)

  pub Run-IsCaught :
      {os : List (Outcome (Iox2RpcRegistry V K))} {s : System V K} → Run os s → All IsCaught os
  Run-IsCaught (start jobs h) = tt
  Run-IsCaught (later os new s t run (pick i ps gateway job move)) =
      All-append IsCaught os new (Run-IsCaught run) (Move-refreshes move).1

  -- A predicate on where a thread is and on what has been installed so far.
  pub record IsKept {κ} (P : List (Outcome (Iox2RpcRegistry V K)) → Job V K → Type κ) : Type κ where
    pub starts : (job : Job V K) → IsStart job → P [] job
    pub stays :
        (os new : List (Outcome (Iox2RpcRegistry V K))) (job : Job V K)
        → P os job
        → P (os ++ new) job
    pub moves :
        (os new : List (Outcome (Iox2RpcRegistry V K))) (gateway after : DynamicRpcGateway V K)
        (job next : Job V K)
        → gateway ≡ refreshes os new_gateway
        → All IsCaught os
        → P os job
        → Move gateway job after new next
        → P (os ++ new) next

  -- What each thread's step keeps holds of every thread of a run.
  pub Run-IsKept {κ} :
      {P : List (Outcome (Iox2RpcRegistry V K)) → Job V K → Type κ} (kept : IsKept P)
      {os : List (Outcome (Iox2RpcRegistry V K))} {s : System V K}
      → Run os s
      → (i : ℕ) → P os (s.jobs i)
  Run-IsKept kept (start jobs h) i = kept.starts (jobs i) (h i)
  Run-IsKept {P = P} kept (later os new s t run (pick k ps gateway job move)) i =
      elim (Bool-cases (eqb i k)) [
        | inl e ↦ rw e (
            kept.moves os new s.gateway gateway (s.jobs k) job (Run-refreshes run)
              (Run-IsCaught run) (Run-IsKept kept run k) move)
        | inr e ↦ rw e (kept.stays os new (s.jobs i) (Run-IsKept kept run i))
      ]

  -- In whatever order the threads take their steps, the gateway has the registry of the last update that
  -- brought one, reports the error of the last update only, and has counted every update.
  pub Run-latest :
      {os : List (Outcome (Iox2RpcRegistry V K))} {s : System V K}
      → Run os s
      → (s.gateway.registry ≡ latest os none)
        × ((status s.gateway).last_error ≡ last_failure os none)
        × ((status s.gateway).refresh_count ≡ length os)
  Run-latest {os = os} run =
      let (registry, failure, counted) = refreshes-latest os new_gateway (Run-IsCaught run) in
      rw (Run-refreshes run) (registry, failure, omega (arith, counted))
