-- ===== src/Registry/Discovery/Loading.antt =====
-- `load_all_descriptors` of iox2_jsonrpc/iceoryx_registry.py, and what it leaves of each service. What is
-- printed is left out.
use iox2_jsonrpc.Base.{ℕ, String, ◌≡◌, refl, ◌⊎◌, inl, inr, some, List, [], ◌∷◌, map, Bool-cases}
use iox2_jsonrpc.Python.Outcome.{Outcome, Action, returned, raised, IfReturned}
use iox2_jsonrpc.Python.Action.{pure, lift, except, >>=-IfReturned, ◌>>=◌, ◌>>◌}
use iox2_jsonrpc.Models.{RpcServiceDescriptor}
use iox2_jsonrpc.Helpers.Bytes.{Bytes}
use iox2_jsonrpc.Registry.{DiscoveredRpcService}

-- What opens a service and makes a client for it.
pub record Opening (W V K : Type 0) : Type 0 where
  pub open_service : String → Action W V
  pub try_cleanup : V → Action W (Unit {0})
  pub create_client : ℕ → V → Action W K

module _ {W V K : Type 0} (opening : Opening W V K) (request_bytes : K → Bytes → ℕ → Action W Bytes)
    (parse_descriptor : Bytes → Outcome RpcServiceDescriptor) (timeout : ℕ)
    (max_slice_len : ℕ) where
  open opening use {open_service, try_cleanup, create_client}

  -- A service opened at an endpoint, with a client; the node's dead peers are cleaned up between.
  abbrev pub open_client : String → Action W (V × K)
  open_client endpoint = open_service endpoint >>= λ service.
      try_cleanup service >> create_client max_slice_len service >>= λ client.
      pure (service, client)

  abbrev pub loaded :
      DiscoveredRpcService V K → RpcServiceDescriptor → V → K → DiscoveredRpcService V K
  loaded s descriptor service client = record s {
    descriptor = some descriptor;
    rpc_service = some service;
    rpc_client = some client;
    methods = map (λ m. m.jsonrpc_method) descriptor.methods;
  }

  unfoldable pub read_descriptor : DiscoveredRpcService V K → Action W RpcServiceDescriptor
  read_descriptor s = open_client s.schema_endpoint >>= λ (_, schema_client).
      request_bytes schema_client (123 ∷ 125 ∷ []) timeout >>= λ bytes.
      lift (parse_descriptor bytes)

  -- The body of the `try`. Its four assignments are the last that it does, and cannot raise.
  unfoldable pub load_descriptor : DiscoveredRpcService V K → Action W (DiscoveredRpcService V K)
  load_descriptor s = read_descriptor s >>= λ descriptor.
      open_client descriptor.rpc_endpoint >>= λ (service, client).
      pure (loaded s descriptor service client)

  -- What leaves the handler ends the loop.
  abbrev load_next :
      Outcome (DiscoveredRpcService V K)
      → DiscoveredRpcService V K
      → List (DiscoveredRpcService V K)
      → W
      → Outcome (Unit {0}) × (List (DiscoveredRpcService V K) × W)
      → Outcome (Unit {0}) × (List (DiscoveredRpcService V K) × W)
  load_next (returned s') s services w rest = (rest.0, (s' ∷ rest.1.0, rest.1.1))
  load_next (raised e) s services w rest = (raised e, (s ∷ services, w))

  -- The services of the registry are changed in place, so they come back beside an exception too.
  unfoldable pub load_all_descriptors :
      List (DiscoveredRpcService V K)
      → W
      → Outcome (Unit {0}) × (List (DiscoveredRpcService V K) × W)
  load_all_descriptors [] w = (returned tt, ([], w))
  load_all_descriptors (s ∷ services) w =
      let (tried, w') = except (λ _. pure s) (load_descriptor s w) in
      let rest = load_all_descriptors services w' in load_next tried s services w' rest

  -- The service is as it was, or it has all that loading gives: a descriptor, an opened service and
  -- client, and the methods of the descriptor.
  abbrev pub Loads : DiscoveredRpcService V K → DiscoveredRpcService V K → Type 0
  Loads s s' =
      (s' ≡ s)
      ⊎ ((descriptor : RpcServiceDescriptor) × (service : V) × (client : K) × (s'
            ≡ loaded s descriptor service client))

  abbrev pub EachLoads : List (DiscoveredRpcService V K) → List (DiscoveredRpcService V K) → Type 0
  EachLoads [] [] = Unit
  EachLoads (s ∷ services) (s' ∷ services') = Loads s s' × EachLoads services services'
  EachLoads _ _ = ⊥

  pub unchanged : (services : List (DiscoveredRpcService V K)) → EachLoads services services
  unchanged [] = tt
  unchanged (s ∷ services) = (inl refl, unchanged services)

  load_descriptor-Loads :
      (s : DiscoveredRpcService V K) (w : W) → IfReturned (Loads s) (load_descriptor s w).0
  unfolding load_descriptor
  load_descriptor-Loads s w =
      let opened : RpcServiceDescriptor → Action W (V × K) = λ d. open_client d.rpc_endpoint in
      let done : RpcServiceDescriptor → V × K → Action W (DiscoveredRpcService V K) =
        λ d (service, client). pure (loaded s d service client) in
      >>=-IfReturned (Loads s) (read_descriptor s) (λ d. opened d >>= done d)
        (λ d w₁.
          >>=-IfReturned (Loads s) (opened d) (done d)
            (λ (service, client) w₂. inr (d, service, client, refl)) w₁)
        w

  load_next-EachLoads :
      (tried : Outcome (DiscoveredRpcService V K)) (s : DiscoveredRpcService V K)
      (services : List (DiscoveredRpcService V K)) (w : W)
      (rest : Outcome (Unit {0}) × (List (DiscoveredRpcService V K) × W))
      → IfReturned (Loads s) tried
      → EachLoads services rest.1.0
      → EachLoads (s ∷ services) (load_next tried s services w rest).1.0
  load_next-EachLoads (returned s') s services w rest h k = (h, k)
  load_next-EachLoads (raised e) s services w rest h k = (inl refl, unchanged services)

  except-Loads :
      (s : DiscoveredRpcService V K) (tried : Outcome (DiscoveredRpcService V K)) (w : W)
      → IfReturned (Loads s) tried
      → IfReturned (Loads s) (except (λ _. pure s) (tried, w)).0
  except-Loads s (returned s') w h = h
  except-Loads s (raised e) w h = elim (Bool-cases e.is_exception) [
    | inl x ↦ rw x (inl refl)
    | inr x ↦ rw x tt
  ]

  -- Whatever raises on the way, each service that is loaded is as it was or wholly loaded, and the
  -- services keep their places.
  pub load_all_descriptors-EachLoads :
      (services : List (DiscoveredRpcService V K)) (w : W)
      → EachLoads services (load_all_descriptors services w).1.0
  unfolding load_all_descriptors
  load_all_descriptors-EachLoads [] w = tt
  load_all_descriptors-EachLoads (s ∷ services) w =
      let (tried, w₁) = load_descriptor s w in
      let (kept, w₂) = except (λ _. pure s) (tried, w₁) in
      load_next-EachLoads kept s services w₂ (load_all_descriptors services w₂)
        (except-Loads s tried w₁ (load_descriptor-Loads s w))
        (load_all_descriptors-EachLoads services w₂)
