-- ===== src/Gateway/Threads/Tests.antt =====
-- Two refreshes and a call at the same time, over the gateway of examples/webapi.py.
use iox2_jsonrpc.Base.{
  ℕ, ◌≤◌, ◌≡◌, refl, inl, inr, none, some, List, [], ◌∷◌, ◌++◌, eqb, length, Bool-cases,
  if◌then◌else◌,
}
use iox2_jsonrpc.Python.Outcome.{Outcome, returned}
use iox2_jsonrpc.Models.{v2_0, JsonRpcId, JsonRpcRequest}
use iox2_jsonrpc.Registry.{DiscoveredRpcService, Iox2RpcRegistry}
use iox2_jsonrpc.Gateway.{
  DynamicRpcGateway, status, new_gateway, find_service, refreshed, matching_services, only_match,
  matches, services_snapshot,
}
use iox2_jsonrpc.Gateway.Select.{refreshes, latest, last_failure}
use iox2_jsonrpc.Gateway.Threads.{
  Call, controller_call, Job, refreshing, made, updated, reported, calling, selected, asking,
  installed, after_find, after_snapshot, make, update, report, find, System, set_job, IsStart, pick,
  Run, start, later,
}
use iox2_jsonrpc.Gateway.Threads.History.{Run-latest}
use iox2_jsonrpc.Gateway.Threads.Counted.{Run-reported}
use iox2_jsonrpc.Gateway.Threads.Found.{IsInstalled, IsFound}
use iox2_jsonrpc.Gateway.Threads.Serving.{Run-selected}

abbrev lamp : DiscoveredRpcService ℕ ℕ
lamp = record {
  service_name = "home";
  controller_name = "lamp";
  rpc_endpoint = "home/lamp/rpc";
  schema_endpoint = "home/lamp/schema";
  methods = "lamp.on" ∷ [];
  attributes = [];
  descriptor = none;
  rpc_service = some 1;
  rpc_client = some 2;
}

abbrev pub one_service : Iox2RpcRegistry ℕ ℕ
one_service = record { services = lamp ∷ []; request_counter = 0 }

abbrev pub no_service : Iox2RpcRegistry ℕ ℕ
no_service = record { services = []; request_counter = 0 }

abbrev request : JsonRpcRequest
request = record { jsonrpc = v2_0; id = JsonRpcId.text "q"; method = "on"; params = none }

abbrev switch_on : Call
switch_on = controller_call "lamp" request none

abbrev pub jobs : ℕ → Job ℕ ℕ
jobs i = if eqb i 1 then calling switch_on else refreshing

pub jobs-IsStart : (i : ℕ) → IsStart (jobs i)
jobs-IsStart i = elim (Bool-cases (eqb i 1)) [ inl e ↦ rw e tt | inr e ↦ rw e tt ]

abbrev moved : System ℕ ℕ → ℕ → DynamicRpcGateway ℕ ℕ → Job ℕ ℕ → System ℕ ℕ
moved s i gateway job = record { gateway = gateway; jobs = set_job s.jobs i job }

abbrev at_start : System ℕ ℕ
at_start = record { gateway = new_gateway; jobs = jobs }

abbrev first_made : System ℕ ℕ
first_made = moved at_start 0 new_gateway (made (returned one_service))

abbrev first_updated : System ℕ ℕ
first_updated = moved first_made 0 (installed new_gateway (returned one_service)) (updated 1)

-- The call has found the lamp.
abbrev found : System ℕ ℕ
found = moved first_updated 1 first_updated.gateway (selected lamp switch_on)

abbrev second_made : System ℕ ℕ
second_made = moved found 2 found.gateway (made (returned no_service))

-- A registry without the lamp has taken the place of the first.
abbrev second_updated : System ℕ ℕ
second_updated = moved second_made 2 (installed found.gateway (returned no_service)) (updated 2)

-- The first refresh tells the count of the second.
abbrev first_reported : System ℕ ℕ
first_reported =
    moved second_updated 0 second_updated.gateway (reported 1 (status second_updated.gateway))

abbrev installs : List (Outcome (Iox2RpcRegistry ℕ ℕ))
installs = returned one_service ∷ returned no_service ∷ []

updated-Run : Run installs second_updated
unfolding installed refreshed after_find find_service only_match matching_services matches
    services_snapshot controller_call
updated-Run =
    let s1 : Run [] first_made =
      later [] [] at_start first_made (start jobs jobs-IsStart)
        (pick 0 [] _ _ (make (returned one_service))) in
    let s2 : Run (returned one_service ∷ []) first_updated =
      later [] (returned one_service ∷ []) first_made first_updated s1
        (pick 0 (returned one_service ∷ []) _ _ (update (returned one_service) tt)) in
    let s3 : Run (returned one_service ∷ []) found =
      later _ [] first_updated found s2 (pick 1 [] _ _ (find switch_on)) in
    let s4 : Run (returned one_service ∷ []) second_made =
      later _ [] found second_made s3 (pick 2 [] _ _ (make (returned no_service))) in
    later (returned one_service ∷ []) (returned no_service ∷ []) second_made second_updated s4
      (pick 2 (returned no_service ∷ []) _ _ (update (returned no_service) tt))

reported-Run : Run installs first_reported
reported-Run =
    later installs [] second_updated first_reported updated-Run (pick 0 [] _ _ (report 1))

Run-latest_example :
    (first_reported.gateway.registry ≡ latest installs none)
    × ((status first_reported.gateway).last_error ≡ last_failure installs none)
    × ((status first_reported.gateway).refresh_count ≡ 2)
Run-latest_example = Run-latest reported-Run

Run-reported_example :
    (before : List (Outcome (Iox2RpcRegistry ℕ ℕ))) × (after : List (Outcome (Iox2RpcRegistry ℕ ℕ)))
    × (installs ≡ before ++ after)
    × (1 ≤ length before)
    × (status second_updated.gateway ≡ status (refreshes before new_gateway))
Run-reported_example = Run-reported 0 1 (status second_updated.gateway) reported-Run refl

Run-selected_example :
    IsFound installs lamp switch_on
    × ((registry : Iox2RpcRegistry ℕ ℕ) × (after_snapshot lamp switch_on
            second_updated.gateway.registry
          ≡ asking registry lamp switch_on)
        × IsInstalled installs registry)
Run-selected_example = Run-selected 1 lamp switch_on updated-Run refl
