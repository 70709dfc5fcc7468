-- ===== src/Registry/Discovery/Keys.antt =====
-- The dictionary of discovered services of iox2_jsonrpc/iceoryx_registry.py and its keys.
use iox2_jsonrpc.Base.{
  String, ◌≡◌, refl, sym, subst, inl, inr, false, Option, none, some, List, [], ◌∷◌, map, All, In,
  ◌==◌, eq_iff, eq_refl, arith, Bool-cases,
}
use iox2_jsonrpc.Python.Dict.{put, IsDict, IsNew, put-IsDict}
use iox2_jsonrpc.Python.Outcome.{
  Outcome, returned, raised, Outcome-cases, IfReturned, IfReturned-at,
}
use iox2_jsonrpc.Registry.{DiscoveredRpcService, find_endpoint}
use iox2_jsonrpc.Registry.Discovery.{
  ServiceDetails, Discovered, inspect_details, note_details, discover_services,
}

module _ {V K : Type 0} where
  -- Every service stands under its own endpoint, and no endpoint twice.
  abbrev pub IsKeyed : Discovered V K → Type 0
  IsKeyed d = IsDict d × All (λ p. p.0 ≡ p.1.rpc_endpoint) d

  put-keys :
      (s : DiscoveredRpcService V K) (d : Discovered V K)
      → All (λ p. p.0 ≡ p.1.rpc_endpoint) d
      → All (λ p. p.0 ≡ p.1.rpc_endpoint) (put s.rpc_endpoint s d)
  unfolding put
  put-keys s [] h = (refl, tt)
  put-keys s ((k, t) ∷ d) h = elim (Bool-cases (k == s.rpc_endpoint)) [
    | inl e ↦ rw e (refl, h.1)
    | inr e ↦ rw e (h.0, put-keys s d h.1)
  ]

  note_details-IsKeyed :
      (o : Outcome (Option (DiscoveredRpcService V K))) (d : Discovered V K)
      → IsKeyed d
      → IfReturned IsKeyed (note_details o d)
  note_details-IsKeyed (returned none) d h = h
  note_details-IsKeyed (returned (some s)) d h =
      (put-IsDict s.rpc_endpoint s d h.0, put-keys s d h.1)
  note_details-IsKeyed (raised e) d h = elim (Bool-cases e.is_exception) [
    | inl x ↦ rw x h
    | inr x ↦ rw x tt
  ]

  discover-IsKeyed :
      (services : List ServiceDetails) (d : Discovered V K)
      → IsKeyed d
      → IfReturned IsKeyed (discover_services services d)
  unfolding discover_services
  discover-IsKeyed [] d h = h
  discover-IsKeyed (x ∷ services) d h = elim (Outcome-cases (note_details (inspect_details x) d)) [
    | inl (d', e) ↦ rw e (
        discover-IsKeyed services d'
          (IfReturned-at IsKeyed _ (note_details-IsKeyed (inspect_details x) d h) e))
    | inr (x', e) ↦ rw e tt
  ]

  later_endpoint :
      (k : String) (s : DiscoveredRpcService V K) (d : Discovered V K)
      → IsNew k d
      → All (λ p. p.0 ≡ p.1.rpc_endpoint) d
      → In s (map (λ p. p.1) d)
      → (k == s.rpc_endpoint) ≡ false
  later_endpoint k s [] n h i = absurd i
  later_endpoint k s ((j, t) ∷ d) n h (inl e) =
      ground (arith, n.0, h.0, e, eq_iff j k, eq_iff k s.rpc_endpoint)
  later_endpoint k s ((j, t) ∷ d) n h (inr i) = later_endpoint k s d n.1 h.1 i

  find_endpoint-IsKeyed :
      (d : Discovered V K) (s : DiscoveredRpcService V K)
      → IsKeyed d
      → In s (map (λ p. p.1) d)
      → find_endpoint (map (λ p. p.1) d) s.rpc_endpoint ≡ returned s
  unfolding find_endpoint
  find_endpoint-IsKeyed [] s h i = absurd i
  find_endpoint-IsKeyed ((k, t) ∷ d) s h (inl e) = rw (sym e, eq_refl) refl
  find_endpoint-IsKeyed ((k, t) ∷ d) s h (inr i) =
      let apart = later_endpoint k s d h.0.0 h.1.1 i in
      let other = subst (λ x. (x == s.rpc_endpoint) ≡ false) h.1.0 apart in
      rw other (find_endpoint-IsKeyed d s (h.0.1, h.1.1) i)

  -- However often an endpoint is listed, each service that the search keeps is the one that a look-up
  -- of its endpoint finds: no discovered service hides another.
  pub discover_services-find :
      (services : List ServiceDetails) (d : Discovered V K) (s : DiscoveredRpcService V K)
      → discover_services services [] ≡ returned d
      → In s (map (λ p. p.1) d)
      → find_endpoint (map (λ p. p.1) d) s.rpc_endpoint ≡ returned s
  discover_services-find services d s e i =
      find_endpoint-IsKeyed d s (IfReturned-at IsKeyed _ (discover-IsKeyed services [] (tt, tt)) e)
        i
