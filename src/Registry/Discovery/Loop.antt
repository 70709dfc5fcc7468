-- ===== src/Registry/Discovery/Loop.antt =====
-- The search of `discover_all` (iox2_jsonrpc/iceoryx_registry.py) until a service is found.
use iox2_jsonrpc.Base.{ℕ, zero, suc, ◌+◌, Bool, List, [], ◌∷◌, map, ltb, if◌then◌else◌}
use iox2_jsonrpc.Python.Outcome.{Action, returned, raised}
use iox2_jsonrpc.Python.Action.{pure, lift, ◌>>=◌, ◌>>◌}
use iox2_jsonrpc.Registry.{DiscoveredRpcService, Iox2RpcRegistry, make_registry}
use iox2_jsonrpc.Registry.Transport.{out_of_fuel}
use iox2_jsonrpc.Registry.Discovery.{ServiceDetails, Discovered, discover_services}

-- The node, the listing of services, and the clock.
pub record Discovery (W : Type 0) : Type 0 where
  pub set_log_level : Action W (Unit {0})
  pub create_node : Action W (Unit {0})
  pub try_cleanup_dead_nodes : Action W (Unit {0})
  pub list_services : Action W (List ServiceDetails)
  pub monotonic : W → ℕ
  pub node_wait : ℕ → Action W (Unit {0})

module _ {W V K : Type 0} (d : Discovery W) where
  open d use {
    set_log_level, create_node, try_cleanup_dead_nodes, list_services, monotonic, node_wait,
  }

  -- `if discovered: break`, and the wait.
  unfoldable pub after_round :
      (Discovered V K → Action W (Discovered V K)) → Discovered V K → Action W (Discovered V K)
  after_round next [] = node_wait 100 >> next []
  after_round next (entry ∷ discovered) = pure (entry ∷ discovered)

  unfoldable pub discover_round :
      ℕ → (Discovered V K → Action W (Discovered V K)) → Discovered V K → Action W (Discovered V K)
  discover_round deadline next discovered w =
      if ltb (monotonic w) deadline
      then (list_services >>= λ services.
            lift (discover_services services discovered) >>= after_round next)
          w
      else (returned discovered, w)

  unfoldable pub discover : ℕ → ℕ → Discovered V K → Action W (Discovered V K)
  discover zero deadline discovered w = (raised out_of_fuel, w)
  discover (suc fuel) deadline discovered w =
      let next = discover fuel deadline in discover_round deadline next discovered w

  -- The services in the order of the dictionary.
  abbrev pub values : Discovered V K → List (DiscoveredRpcService V K)
  values discovered = map (λ p. p.1) discovered

  -- `load` is `load_all_descriptors` of the registry with the same timeout.
  unfoldable pub discover_all :
      ℕ
      → ℕ
      → Bool
      → (Iox2RpcRegistry V K → Action W (Iox2RpcRegistry V K))
      → Action W (Iox2RpcRegistry V K)
  discover_all fuel timeout load_descriptors load =
      set_log_level
      >> create_node
      >> try_cleanup_dead_nodes
      >> (λ w. discover fuel (monotonic w + timeout) [] w)
      >>= λ discovered.
          if load_descriptors
          then load (make_registry (values discovered))
          else pure (make_registry (values discovered))
