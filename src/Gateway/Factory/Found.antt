-- ===== src/Gateway/Factory/Found.antt =====
-- The services of a gateway of examples/webapi.py that refreshes itself by `discover_all`.
use iox2_jsonrpc.Base.{
  ℕ, Bool, true, false, ◌≡◌, refl, ◌<◌, ◌⊎◌, inl, inr, List, [], Bool-cases, ◌+◌, if◌then◌else◌,
  arith,
}
use iox2_jsonrpc.Python.Outcome.{Exception, Outcome, Action, returned, raised, IfReturned}
use iox2_jsonrpc.Python.Action.{pure, continue, ◌>>◌}
use iox2_jsonrpc.Models.{RpcServiceDescriptor}
use iox2_jsonrpc.Helpers.Bytes.{Bytes}
use iox2_jsonrpc.Registry.{DiscoveredRpcService, Iox2RpcRegistry, make_registry}
use iox2_jsonrpc.Registry.Discovery.{Discovered}
use iox2_jsonrpc.Registry.Discovery.Loop.{Discovery, discover, discover_all, values}
use iox2_jsonrpc.Registry.Discovery.Searching.{Ticks, Searches, discover-Searches}
use iox2_jsonrpc.Registry.Discovery.Loading.{
  Opening, load_all_descriptors, EachLoads, load_all_descriptors-EachLoads,
}
use iox2_jsonrpc.Gateway.{DynamicRpcGateway, services_snapshot, refresh, refreshed}
use iox2_jsonrpc.Gateway.Factory.{
  FactoryOptions, with_loaded, load_registry, default_registry_factory,
}

-- What comes before the search.
abbrev pub ready : {W : Type 0} → Discovery W → Action W (Unit {0})
ready d = d.set_log_level >> d.create_node >> d.try_cleanup_dead_nodes

module _ {W V K : Type 0} (d : Discovery W) (opening : Opening W V K)
    (request_bytes : K → Bytes → ℕ → Action W Bytes)
    (parse_descriptor : Bytes → Outcome RpcServiceDescriptor) (options : FactoryOptions) where
  -- Where descriptors are loaded, the services are what the loading leaves in the world `w`, each as it
  -- was found or wholly loaded; else all are as they were found.
  abbrev pub Loaded :
      W → Bool → List (DiscoveredRpcService V K) → List (DiscoveredRpcService V K) → Type 0
  Loaded w true before after =
      (after
        ≡ (load_all_descriptors opening request_bytes parse_descriptor options.timeout
            options.initial_max_slice_len before w).1.0)
      × EachLoads opening request_bytes parse_descriptor options.timeout
          options.initial_max_slice_len before after
  Loaded w false before after = after ≡ before

  -- The services are those of a search from the world `w` on.
  pub record Offers (w : W) (services : List (DiscoveredRpcService V K)) : Type 0 where
    pub w₁ : W
    pub w₂ : W
    pub found : Discovered V K
    pub prepared : ready d w ≡ (returned tt, w₁)
    pub searched : Searches d (d.monotonic w₁ + options.timeout) w₁ (returned found, w₂)
    pub loaded : Loaded w₂ options.load_descriptors (values d found) services

  abbrev LoadedIn : W → Discovered V K → Bool → Iox2RpcRegistry V K → Type 0
  LoadedIn w found load registry = Loaded w load (values d found) registry.services

  abbrev OffersIn : W → Iox2RpcRegistry V K → Type 0
  OffersIn w registry = Offers w registry.services

  with_loaded-services :
      (P : List (DiscoveredRpcService V K) → Type 0) (registry : Iox2RpcRegistry V K)
      (x : Outcome (Unit {0}) × (List (DiscoveredRpcService V K) × W))
      → P x.1.0
      → IfReturned (λ r. P r.services) (with_loaded registry x).0
  unfolding with_loaded
  with_loaded-services P registry (returned u, (services, w)) h = h
  with_loaded-services P registry (raised e, (services, w)) h = tt

  -- What follows the search.
  abbrev make : Bool → Discovered V K → Action W (Iox2RpcRegistry V K)
  make load found =
      if load
      then load_registry d opening request_bytes parse_descriptor options
          (make_registry (values d found))
      else pure (make_registry (values d found))

  make-LoadedIn :
      (load : Bool) (found : Discovered V K) (w : W)
      → IfReturned (LoadedIn w found load) (make load found w).0
  unfolding load_registry make_registry
  make-LoadedIn true found w =
      with_loaded-services (Loaded w true (values d found)) (make_registry (values d found))
        (load_all_descriptors opening request_bytes parse_descriptor options.timeout
          options.initial_max_slice_len (values d found) w)
        (
          refl,
          load_all_descriptors-EachLoads opening request_bytes parse_descriptor options.timeout
              options.initial_max_slice_len (values d found) w,
        )
  make-LoadedIn false found w = refl

  module _ (w : W) where
    offered :
        (w₁ w₂ : W) (found : Discovered V K) (o : Outcome (Iox2RpcRegistry V K))
        → ready d w ≡ (returned tt, w₁)
        → Searches d (d.monotonic w₁ + options.timeout) w₁ (returned found, w₂)
        → IfReturned (LoadedIn w₂ found options.load_descriptors) o
        → IfReturned (OffersIn w) o
    offered w₁ w₂ found (returned registry) p h k = record {
      w₁ = w₁;
      w₂ = w₂;
      found = found;
      prepared = p;
      searched = h;
      loaded = k;
    }
    offered w₁ w₂ found (raised e) p h k = tt

    searched :
        (w₁ : W) (x : Outcome (Discovered V K) × W)
        → ready d w ≡ (returned tt, w₁)
        → Searches d (d.monotonic w₁ + options.timeout) w₁ x
        → IfReturned (OffersIn w) (continue x.0 (make options.load_descriptors) x.1).0
    searched w₁ (returned found, w₂) p h =
        offered w₁ w₂ found (make options.load_descriptors found w₂).0 p h
          (make-LoadedIn options.load_descriptors found w₂)
    searched w₁ (raised e, w₂) p h = tt

    prepared :
        (fuel : ℕ) (x : Outcome (Unit {0}) × W)
        → Ticks d
        → options.timeout < fuel
        → ready d w ≡ x
        → let r : Outcome (Discovered V K) × W =
            continue x.0 (λ _ w. discover d fuel (d.monotonic w + options.timeout) [] w) x.1 in
          IfReturned (OffersIn w) (continue r.0 (make options.load_descriptors) r.1).0
    prepared fuel (returned tt, w₁) ticks enough p =
        searched w₁ (discover d fuel (d.monotonic w₁ + options.timeout) [] w₁) p (
          discover-Searches d (d.monotonic w₁ + options.timeout) V K ticks fuel w₁
            (omega (arith, enough)))
    prepared fuel (raised e, w₁) ticks enough p = tt

    default_registry_factory-OffersIn :
        (fuel : ℕ)
        → Ticks d
        → options.timeout < fuel
        → IfReturned
            (OffersIn w)
            (default_registry_factory d opening request_bytes parse_descriptor options fuel w).0
    unfolding default_registry_factory discover_all
    default_registry_factory-OffersIn fuel ticks enough =
        prepared fuel (ready d w) ticks enough refl

  refreshed-Offers :
      (w₀ : W) (gateway : DynamicRpcGateway V K) (x : Outcome (Iox2RpcRegistry V K) × W)
      → IfReturned (OffersIn w₀) x.0
      → let after = (refreshed gateway x).1.0 in
        ((e : Exception) × (x.0 ≡ raised e) × (after.registry ≡ gateway.registry))
        ⊎ Offers w₀ (services_snapshot after)
  unfolding refreshed services_snapshot
  refreshed-Offers w₀ gateway (returned registry, w) offers = inr offers
  refreshed-Offers w₀ gateway (raised e, w) offers =
      inl (e, refl, elim (Bool-cases e.is_exception) [ inl x ↦ rw x refl | inr x ↦ rw x refl ])

  -- If each wait moves the clock, a refresh by `discover_all` gives a gateway exactly the services that
  -- the search found: all those of the first listing by iceoryx2 that held any, in their order, or none if
  -- the time went by; each as the listing shows it or, where descriptors are loaded, with all that its
  -- descriptor gives. If `discover_all` raises, the gateway keeps the registry that it has.
  pub refresh-Offers :
      (fuel : ℕ) (gateway : DynamicRpcGateway V K) (w : W)
      → Ticks d
      → options.timeout < fuel
      → let factory =
          default_registry_factory d opening request_bytes parse_descriptor options fuel in
        let after = (refresh factory (gateway, w)).1.0 in
        ((e : Exception) × ((factory w).0 ≡ raised e) × (after.registry ≡ gateway.registry))
        ⊎ Offers w (services_snapshot after)
  unfolding refresh
  refresh-Offers fuel gateway w ticks enough =
      refreshed-Offers w gateway
        (default_registry_factory d opening request_bytes parse_descriptor options fuel w)
        (default_registry_factory-OffersIn w fuel ticks enough)
