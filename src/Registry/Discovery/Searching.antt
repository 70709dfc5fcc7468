-- ===== src/Registry/Discovery/Searching.antt =====
-- The search of `discover_all` (iox2_jsonrpc/iceoryx_registry.py) against a relation that has no fuel.
use iox2_jsonrpc.Base.{
  ℕ, zero, suc, String, ◌-◌, ◌<◌, ◌≤◌, ◌≡◌, refl, inl, inr, List, [], ◌∷◌, ltb, ltb→lt, ltb→le,
  Bool-cases, arith,
}
use iox2_jsonrpc.Python.Outcome.{Exception, Outcome, Action, returned, raised}
use iox2_jsonrpc.Python.Action.{continue, lift, ◌>>=◌}
use iox2_jsonrpc.Registry.{DiscoveredRpcService}
use iox2_jsonrpc.Registry.Discovery.{ServiceDetails, Discovered, discover_services}
use iox2_jsonrpc.Registry.Discovery.Loop.{Discovery, after_round, discover_round, discover}

module _ {W : Type 0} (d : Discovery W) where
  open d use {list_services, monotonic, node_wait}

  -- A round that finds nothing moves the clock by its wait.
  abbrev pub Ticks : Type 0
  Ticks =
      (w : W) (services : List ServiceDetails) (w' w'' : W)
      → list_services w ≡ (returned services, w')
      → node_wait 100 w' ≡ (returned tt, w'')
      → monotonic w < monotonic w''

module _ {W V K : Type 0} (d : Discovery W) (deadline : ℕ) where
  open d use {list_services, monotonic, node_wait}

  -- How a search from a world ends, and in which world. What it returns is all that its last listing
  -- holds, or nothing when the time is over.
  pub data Searches : W → Outcome (Discovered V K) × W → Type 0 where
    too_late : (w : W) → deadline ≤ monotonic w → Searches w (returned [], w)
    listing_raised :
        (w w' : W) (e : Exception)
        → monotonic w < deadline
        → list_services w ≡ (raised e, w')
        → Searches w (raised e, w')
    inspection_raised :
        (w w' : W) (services : List ServiceDetails) (e : Exception)
        → monotonic w < deadline
        → list_services w ≡ (returned services, w')
        → discover_services {V = V} {K = K} services [] ≡ raised e
        → Searches w (raised e, w')
    found :
        (w w' : W) (services : List ServiceDetails) (entry : String × DiscoveredRpcService V K)
        (more : Discovered V K)
        → monotonic w < deadline
        → list_services w ≡ (returned services, w')
        → discover_services services [] ≡ returned (entry ∷ more)
        → Searches w (returned (entry ∷ more), w')
    wait_raised :
        (w w' w'' : W) (services : List ServiceDetails) (e : Exception)
        → monotonic w < deadline
        → list_services w ≡ (returned services, w')
        → discover_services {V = V} {K = K} services [] ≡ returned []
        → node_wait 100 w' ≡ (raised e, w'')
        → Searches w (raised e, w'')
    again :
        (w w' w'' : W) (services : List ServiceDetails) (r : Outcome (Discovered V K) × W)
        → monotonic w < deadline
        → list_services w ≡ (returned services, w')
        → discover_services {V = V} {K = K} services [] ≡ returned []
        → node_wait 100 w' ≡ (returned tt, w'')
        → Searches w'' r
        → Searches w r

  module _ (next : Discovered V K → Action W (Discovered V K)) (w : W)
      (early : monotonic w < deadline) where
    abbrev Goes : Type 0
    Goes =
        (services : List ServiceDetails) (w' w'' : W)
        → list_services w ≡ (returned services, w')
        → node_wait 100 w' ≡ (returned tt, w'')
        → Searches w'' (next [] w'')

    waited :
        (services : List ServiceDetails) (w' : W) (x : Outcome (Unit {0}) × W)
        → Goes
        → list_services w ≡ (returned services, w')
        → discover_services {V = V} {K = K} services [] ≡ returned []
        → node_wait 100 w' ≡ x
        → Searches w (continue x.0 (λ _. next []) x.1)
    waited services w' (returned tt, w'') go e n g =
        again w w' w'' services (next [] w'') early e n g (go services w' w'' e g)
    waited services w' (raised x, w'') go e n g = wait_raised w w' w'' services x early e n g

    looked :
        (services : List ServiceDetails) (w' : W) (o : Outcome (Discovered V K))
        → Goes
        → list_services w ≡ (returned services, w')
        → discover_services services [] ≡ o
        → Searches w (continue o (after_round d next) w')
    unfolding after_round
    looked services w' (returned []) go e g = waited services w' (node_wait 100 w') go e g refl
    looked services w' (returned (entry ∷ more)) go e g = found w w' services entry more early e g
    looked services w' (raised x) go e g = inspection_raised w w' services x early e g

    listed :
        (x : Outcome (List ServiceDetails) × W)
        → Goes
        → list_services w ≡ x
        → Searches w (
            continue x.0
              (λ services. lift (discover_services services []) >>= after_round d next)
              x.1)
    listed (returned services, w') go e =
        looked services w' (discover_services services []) go e refl
    listed (raised x, w') go e = listing_raised w w' x early e

module _ {W : Type 0} (d : Discovery W) (deadline : ℕ) (V K : Type 0) where
  open d use {list_services, monotonic}

  -- With more fuel than there are milliseconds to the deadline, the search ends as the relation says:
  -- with all the services of the first listing that holds any, with none when a look at the clock finds
  -- the time over, or with the first exception of a listing, of its inspection or of a wait.
  pub discover-Searches :
      Ticks d
      → (fuel : ℕ) (w : W) → deadline - monotonic w < fuel
      → Searches {V = V} {K = K} d deadline w (discover d fuel deadline [] w)
  unfolding discover discover_round
  discover-Searches ticks zero w f = elim f [ ]
  discover-Searches ticks (suc fuel) w f = elim (Bool-cases (ltb (monotonic w) deadline)) [
    | inr late ↦ rw late (too_late w (ltb→le _ _ late))
    | inl early ↦ rw early (
        listed d deadline (discover d fuel deadline) w (ltb→lt _ _ early) (list_services w)
          (λ services w' w'' e g.
            let tick = ticks w services w' w'' e g in
            let lt = ltb→lt _ _ early in
            discover-Searches ticks fuel w'' (omega (arith, tick, lt, f)))
          refl)
  ]
