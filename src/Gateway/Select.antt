-- ===== src/Gateway/Select.antt =====
-- Which service the gateway of examples/webapi.py takes, and what its refresh and its routes keep.
use iox2_jsonrpc.Base.{
  suc, ◌+◌, String, ◌≡◌, ◌↔◌, refl, sym, ap, subst, ◌∙◌, true, false, Option, none, some, List, [],
  ◌∷◌, map, All, ◌&◌, has_char, has_char-separator, after_first-append, after_first-here, length,
  inl, arith, if_true,
}
use iox2_jsonrpc.Python.Outcome.{Exception, Outcome, returned, raised}
use iox2_jsonrpc.Models.{fail, make_response, exactly_one_payload}
use iox2_jsonrpc.Registry.{DiscoveredRpcService, Iox2RpcRegistry}
use iox2_jsonrpc.Gateway.{
  DynamicRpcGateway, DynamicGatewayStatus, dot, local_name, local_methods, matching_services,
  only_match, find_service, refresh, refreshed, status,
}

local_name_lem :
    (controller name : String)
    → has_char dot controller ≡ false
    → local_name (controller & "." & name) ≡ name
unfolding local_name
local_name_lem controller name h =
    if_true (has_char dot (controller & "." & name)) _ _ (has_char-separator dot controller name)
    ∙ after_first-append dot controller ("." & name) h
    ∙ after_first-here dot name

local_names :
    (controller : String) (names : List String)
    → has_char dot controller ≡ false
    → map local_name (map (λ name. controller & "." & name) names) ≡ names
local_names controller [] h = refl
local_names controller (name ∷ names) h =
    rw (local_name_lem controller name h, local_names controller names h) refl

module _ {V K : Type 0} where
  only_match-one :
      (controller : String) (name : Option String) (services : List (DiscoveredRpcService V K))
      (s : DiscoveredRpcService V K)
      → (only_match controller name services ≡ returned (inl s)) ↔ (services ≡ s ∷ [])
  unfolding only_match fail make_response exactly_one_payload
  only_match-one controller name [] s = (λ h. absurd (cc h), λ h. absurd (cc h))
  only_match-one controller name (t ∷ []) s = (λ h. cc h, λ h. cc h)
  only_match-one controller name (t ∷ u ∷ services) s = (λ h. absurd (cc h), λ h. absurd (cc h))

  -- A controller's name, with a service's name or without, selects a service exactly when this is the
  -- only one that matches.
  pub find_service_one :
      (gateway : DynamicRpcGateway V K) (controller : String) (name : Option String)
      (s : DiscoveredRpcService V K)
      → (find_service gateway controller name ≡ returned (inl s))
        ↔ (matching_services gateway controller name ≡ s ∷ [])
  unfolding find_service
  find_service_one gateway controller name s =
      only_match-one controller name (matching_services gateway controller name) s

  -- The gateway after refreshes whose factories end like this.
  abbrev pub refreshes :
      List (Outcome (Iox2RpcRegistry V K)) → DynamicRpcGateway V K → DynamicRpcGateway V K
  refreshes [] gateway = gateway
  refreshes (o ∷ os) gateway = refreshes os (refresh (λ w. (o, w)) (gateway, tt)).1.0

  -- The last registry that was made.
  abbrev pub latest :
      List (Outcome (Iox2RpcRegistry V K))
      → Option (Iox2RpcRegistry V K)
      → Option (Iox2RpcRegistry V K)
  latest [] found = found
  latest (returned registry ∷ os) found = latest os (some registry)
  latest (raised e ∷ os) found = latest os found

  -- How the last of the refreshes failed, if it did.
  abbrev pub last_failure : List (Outcome (Iox2RpcRegistry V K)) → Option String → Option String
  last_failure [] failure = failure
  last_failure (returned registry ∷ os) failure = last_failure os none
  last_failure (raised e ∷ os) failure = last_failure os (some e.message)

  abbrev pub IsCaught : Outcome (Iox2RpcRegistry V K) → Type 0
  IsCaught (returned registry) = Unit
  IsCaught (raised e) = e.is_exception ≡ true

  refresh-raised :
      (gateway : DynamicRpcGateway V K) (e : Exception)
      → e.is_exception ≡ true
      → (refresh (λ w. (raised e, w)) (gateway, tt)).1.0
        ≡ record gateway { last_error = some e.message; refresh_count = gateway.refresh_count + 1 }
  unfolding refresh refreshed
  refresh-raised gateway e h =
      ap {A = Outcome DynamicGatewayStatus × (DynamicRpcGateway V K × Unit {0})} (λ r. r.1.0)
        (if_true e.is_exception _ _ h)

  -- Refreshes are counted, whether they fail or not; the gateway has the last registry that could be
  -- made, so that a failing refresh takes no service away, and reports the error of the last refresh
  -- only, until one succeeds.
  pub refreshes-latest :
      (os : List (Outcome (Iox2RpcRegistry V K))) (gateway : DynamicRpcGateway V K)
      → All IsCaught os
      → ((refreshes os gateway).registry ≡ latest os gateway.registry)
        × ((status (refreshes os gateway)).last_error ≡ last_failure os gateway.last_error)
        × ((status (refreshes os gateway)).refresh_count ≡ gateway.refresh_count + length os)
  unfolding refresh refreshed status
  refreshes-latest [] gateway h = (refl, refl, omega arith)
  refreshes-latest (returned registry ∷ os) gateway h =
      let (e, f, n) =
        refreshes-latest os
          (record gateway {
            registry = some registry;
            last_error = none;
            refresh_count = gateway.refresh_count + 1;
          })
          h.1 in
      (e, f, omega (arith, n))
  refreshes-latest (raised e ∷ os) gateway h =
      let after : DynamicRpcGateway V K = record gateway {
        last_error = some e.message;
        refresh_count = gateway.refresh_count + 1;
      } in
      let (f, g, n) = refreshes-latest os after h.1 in
      subst
        (λ next.
          ((refreshes os next).registry ≡ latest os gateway.registry)
          × ((refreshes os next).last_error ≡ last_failure os (some e.message))
          × ((refreshes os next).refresh_count ≡ gateway.refresh_count + suc (length os)))
        (sym (refresh-raised gateway e h.0)) (f, g, omega (arith, n))

  -- If the controller's name has no dot, the routes of a service whose descriptor is not loaded name
  -- the methods as they are without the controller's name.
  pub local_methods_names :
      (s : DiscoveredRpcService V K) (names : List String)
      → s.descriptor ≡ none
      → has_char dot s.controller_name ≡ false
      → s.methods ≡ map (λ name. s.controller_name & "." & name) names
      → local_methods s ≡ names
  unfolding local_methods
  local_methods_names s names e h k = rw (e, k) (local_names s.controller_name names h)
