-- ===== src/Gateway/Threads/Found.antt =====
-- The services that the calls of the gateway of examples/webapi.py find while refreshes run.
use iox2_jsonrpc.Base.{
  ◌≡◌, refl, sym, subst, ◌∙◌, Bool, true, false, Option, none, some, List, [], ◌∷◌, ◌++◌, In, ◌⊎◌,
  inl, inr, Bool-cases, Option-cases, eq_iff, ◌&&◌, filter,
}
use iox2_jsonrpc.Python.Outcome.{Outcome, returned, raised}
use iox2_jsonrpc.Registry.{DiscoveredRpcService, Iox2RpcRegistry}
use iox2_jsonrpc.Gateway.{
  DynamicRpcGateway, find_service, matches, matching_services, services_snapshot, services_of,
}
use iox2_jsonrpc.Gateway.Select.{latest, find_service_one}
use iox2_jsonrpc.Gateway.Threads.{Call, asking, after_snapshot}

and_left : (a b : Bool) → (a && b) ≡ true → a ≡ true
and_left true b h = refl
and_left false b h = h

module _ {V K : Type 0} where
  -- A registry that a refresh has installed.
  abbrev pub IsInstalled : List (Outcome (Iox2RpcRegistry V K)) → Iox2RpcRegistry V K → Type 0
  IsInstalled os registry = In (returned registry) os

  pub In-append :
      (x : Outcome (Iox2RpcRegistry V K)) (xs ys : List (Outcome (Iox2RpcRegistry V K)))
      → In x xs
      → In x (xs ++ ys)
  In-append x [] ys h = absurd h
  In-append x (z ∷ xs) ys (inl h) = inl h
  In-append x (z ∷ xs) ys (inr h) = inr (In-append x xs ys h)

  -- The last registry is the one before all, or one that was installed.
  pub latest-IsInstalled :
      (os : List (Outcome (Iox2RpcRegistry V K))) (first : Option (Iox2RpcRegistry V K))
      (registry : Iox2RpcRegistry V K)
      → latest os first ≡ some registry
      → (first ≡ some registry) ⊎ IsInstalled os registry
  latest-IsInstalled [] first registry h = inl h
  latest-IsInstalled (returned r ∷ os) first registry h =
      elim (latest-IsInstalled os (some r) registry h) [
        | inl e ↦ inr (inl (cc e))
        | inr at ↦ inr (inr at)
      ]
  latest-IsInstalled (raised e ∷ os) first registry h =
      elim (latest-IsInstalled os first registry h) [ inl x ↦ inl x | inr at ↦ inr (inr at) ]

  latest-some :
      (os : List (Outcome (Iox2RpcRegistry V K))) (r : Iox2RpcRegistry V K)
      → (registry : Iox2RpcRegistry V K) × (latest os (some r) ≡ some registry)
  latest-some [] r = (r, refl)
  latest-some (returned q ∷ os) r = latest-some os q
  latest-some (raised e ∷ os) r = latest-some os r

  -- Once a registry has been installed there is one.
  IsInstalled-latest :
      (os : List (Outcome (Iox2RpcRegistry V K))) (first : Option (Iox2RpcRegistry V K))
      (registry : Iox2RpcRegistry V K)
      → IsInstalled os registry
      → (last : Iox2RpcRegistry V K) × (latest os first ≡ some last)
  IsInstalled-latest [] first registry h = absurd h
  IsInstalled-latest (returned r ∷ os) first registry h = latest-some os r
  IsInstalled-latest (raised e ∷ os) first registry (inl h) = absurd (cc h)
  IsInstalled-latest (raised e ∷ os) first registry (inr h) = IsInstalled-latest os first registry h

  -- The service is one of an installed registry, and of the call's controller.
  abbrev pub IsFound :
      List (Outcome (Iox2RpcRegistry V K)) → DiscoveredRpcService V K → Call → Type 0
  IsFound os service c =
      (registry : Iox2RpcRegistry V K) × IsInstalled os registry
      × In service registry.services
      × (service.controller_name ≡ c.controller)

  In-filter :
      (test : DiscoveredRpcService V K → Bool) (service : DiscoveredRpcService V K)
      (services : List (DiscoveredRpcService V K))
      → In service (filter test services)
      → In service services × (test service ≡ true)
  In-filter test service [] = λ h. absurd h
  In-filter test service (t ∷ services) = elim (Bool-cases (test t)) [
    | inl e ↦ rw e (λ h. elim h [
      | inl same ↦ (inl same, rw same e)
      | inr at ↦ let (there, passes) = In-filter test service services at in (inr there, passes)
    ])
    | inr e ↦
        rw e (λ h. let (there, passes) = In-filter test service services h in (inr there, passes))
  ]

  pub find_service-IsFound :
      (os : List (Outcome (Iox2RpcRegistry V K))) (gateway : DynamicRpcGateway V K) (c : Call)
      (service : DiscoveredRpcService V K)
      → gateway.registry ≡ latest os none
      → find_service gateway c.controller c.service_name ≡ returned (inl service)
      → IsFound os service c
  unfolding matching_services services_snapshot matches
  find_service-IsFound os gateway c service same h =
      let one = (find_service_one gateway c.controller c.service_name service).0 h in
      let (at, passes) =
        In-filter (matches c.controller c.service_name) service (services_of gateway.registry)
          (rw one (inl refl)) in
      elim (Option-cases gateway.registry) [
        | inl e ↦ absurd (subst (λ o. In service (services_of o)) e at)
        | inr (registry, e) ↦ elim (latest-IsInstalled os none registry (sym same ∙ e)) [
          | inl absent ↦ absurd (cc absent)
          | inr installed ↦ (
            registry,
            installed,
            subst (λ o. In service (services_of o)) e at,
            (eq_iff service.controller_name c.controller).0 (and_left _ _ passes),
          )
        ]
      ]

  pub stays-IsFound :
      (os new : List (Outcome (Iox2RpcRegistry V K))) (service : DiscoveredRpcService V K)
      (c : Call)
      → IsFound os service c
      → IsFound (os ++ new) service c
  stays-IsFound os new service c (registry, at, here, named) =
      (registry, In-append (returned registry) os new at, here, named)

  -- The registry that the second look at the gateway gives.
  pub after_snapshot-asking :
      (os : List (Outcome (Iox2RpcRegistry V K))) (service : DiscoveredRpcService V K) (c : Call)
      (found : Option (Iox2RpcRegistry V K))
      → found ≡ latest os none
      → IsFound os service c
      → (registry : Iox2RpcRegistry V K) × (after_snapshot service c found
          ≡ asking registry service c)
        × IsInstalled os registry
  unfolding after_snapshot
  after_snapshot-asking os service c none same (registry, at, here, named) =
      let (last, e) = IsInstalled-latest os none registry at in absurd (cc (same, e))
  after_snapshot-asking os service c (some registry) same h =
      elim (latest-IsInstalled os none registry (sym same)) [
        | inl absent ↦ absurd (cc absent)
        | inr at ↦ (registry, refl, at)
      ]
