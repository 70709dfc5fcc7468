-- ===== src/Registry/Lookup.antt =====
-- Which service a call of iox2_jsonrpc/iceoryx_registry.py reaches.
use iox2_jsonrpc.Base.{
  ℕ, String, ◌≡◌, ◌⊎◌, inl, inr, refl, sym, ap, ◌∙◌, Bool, true, Option, List, [], ◌∷◌, ◌++◌,
  filter, All, In, ◌==◌, eq_iff, arith, Bool-cases,
}
use iox2_jsonrpc.Python.Value.{Value}
use iox2_jsonrpc.Python.Dict.{Dict}
use iox2_jsonrpc.Python.Outcome.{Outcome, Action, raised, error}
use iox2_jsonrpc.Models.{JsonRpcRequest, JsonRpcResponse}
use iox2_jsonrpc.Registry.{
  DiscoveredRpcService, Iox2RpcRegistry, contains, find_by_method, call, call_match, call_unique,
}

contains_iff :
    (x : String) (xs : List String)
    → (contains x xs ≡ true → In x xs) × (In x xs → contains x xs ≡ true)
unfolding contains
contains_iff x [] = (λ h. cc, λ h. absurd h)
contains_iff x (y ∷ ys) = elim (Bool-cases (y == x)) [
  | inl e ↦ rw e (λ _. inl (sym ((eq_iff y x).0 e)), λ _. refl)
  | inr e ↦ rw e (
    λ h. inr ((contains_iff x ys).0 h),
    λ h. elim h [
      | inl same ↦ cc ((eq_iff y x).1 (sym same))
      | inr there ↦ (contains_iff x ys).1 there
    ],
  )
]

module _ {V K : Type 0} where
  -- The service lists the method.
  abbrev pub Provides : String → DiscoveredRpcService V K → Type 0
  Provides method s = In method s.methods

  filter_none :
      (m : String) (xs : List (DiscoveredRpcService V K))
      → All (λ s. ¬ Provides m s) xs
      → filter (λ s. contains m s.methods) xs ≡ []
  filter_none m [] h = refl
  filter_none m (s ∷ xs) h = elim (Bool-cases (contains m s.methods)) [
    | inl e ↦ absurd (h.0 ((contains_iff m s.methods).0 e))
    | inr e ↦ rw e (filter_none m xs h.1)
  ]

  filter_one :
      (m : String) (xs ys : List (DiscoveredRpcService V K)) (s : DiscoveredRpcService V K)
      → All (λ s. ¬ Provides m s) xs
      → Provides m s
      → All (λ s. ¬ Provides m s) ys
      → filter (λ s. contains m s.methods) (xs ++ s ∷ ys) ≡ s ∷ []
  filter_one m [] ys s hx p hy = rw ((contains_iff m s.methods).1 p, filter_none m ys hy)
  filter_one m (x ∷ xs) ys s hx p hy = elim (Bool-cases (contains m x.methods)) [
    | inl e ↦ absurd (hx.0 ((contains_iff m x.methods).0 e))
    | inr e ↦ rw e (filter_one m xs ys s hx.1 p hy)
  ]

  abbrev providers : String → List (DiscoveredRpcService V K) → List (DiscoveredRpcService V K)
  providers m xs = filter (λ s. contains m s.methods) xs

  filter-append :
      (test : DiscoveredRpcService V K → Bool) (xs ys : List (DiscoveredRpcService V K))
      → filter test (xs ++ ys) ≡ filter test xs ++ filter test ys
  filter-append test [] ys = refl
  filter-append test (x ∷ xs) ys = ground (arith, filter-append test xs ys)

  filter-two :
      (m : String) (xs ys zs : List (DiscoveredRpcService V K)) (s t : DiscoveredRpcService V K)
      → Provides m s
      → Provides m t
      → providers m (xs ++ s ∷ (ys ++ t ∷ zs))
        ≡ providers m xs ++ s ∷ (providers m ys ++ t ∷ providers m zs)
  filter-two m xs ys zs s t p q =
      let test : DiscoveredRpcService V K → Bool = λ x. contains m x.methods in
      filter-append test xs (s ∷ (ys ++ t ∷ zs))
      ∙ rw (
        (contains_iff m s.methods).1 p,
        filter-append test ys (t ∷ zs),
        (contains_iff m t.methods).1 q,
      )

module _ {V K Bytes W : Type 0} (request_bytes : K → Bytes → ℕ → Action W Bytes)
    (dump_request : JsonRpcRequest → Outcome Bytes)
    (parse_response : Bytes → Outcome JsonRpcResponse) (registry : Iox2RpcRegistry V K) (m : String)
    (params : Option (Dict Value)) (timeout : ℕ) (w : W) where
  -- A method that one service alone provides is called on this service.
  pub call_unique-provided :
      (xs ys : List (DiscoveredRpcService V K)) (s : DiscoveredRpcService V K)
      → registry.services ≡ xs ++ s ∷ ys
      → All (λ x. ¬ Provides m x) xs
      → Provides m s
      → All (λ x. ¬ Provides m x) ys
      → call_unique request_bytes dump_request parse_response m params timeout (registry, w)
        ≡ call request_bytes dump_request parse_response s m params timeout (registry, w)
  unfolding call_unique find_by_method call_match
  call_unique-provided xs ys s e hx p hy = rw (e, filter_one m xs ys s hx p hy)

  call_match-two :
      (us vs ws : List (DiscoveredRpcService V K)) (s t : DiscoveredRpcService V K)
      → (text : String) × (call_match request_bytes dump_request parse_response
            (us ++ s ∷ (vs ++ t ∷ ws))
            m
            params
            timeout
            (registry, w)
          ≡ (raised (error "RuntimeError" text), (registry, w)))
  unfolding call_match
  call_match-two [] [] ws s t = (_, refl)
  call_match-two [] (v ∷ vs) ws s t = (_, refl)
  call_match-two (u ∷ []) vs ws s t = (_, refl)
  call_match-two (u ∷ u' ∷ us) vs ws s t = (_, refl)

  -- A method that no service provides, or that two provide, raises a `RuntimeError`; nothing is sent
  -- and no request id is used.
  pub call_unique-refused :
      (All (λ x. ¬ Provides m x) registry.services)
        ⊎ ((xs : List (DiscoveredRpcService V K)) × (ys : List (DiscoveredRpcService V K))
            × (zs : List (DiscoveredRpcService V K)) × (s : DiscoveredRpcService V K)
            × (t : DiscoveredRpcService V K) × (registry.services ≡ xs ++ s ∷ (ys ++ t ∷ zs))
            × Provides m s
            × Provides m t)
      → (text : String) × (call_unique request_bytes dump_request parse_response m params timeout
            (registry, w)
          ≡ (raised (error "RuntimeError" text), (registry, w)))
  unfolding call_unique find_by_method
  call_unique-refused (inl absent) =
      rw (filter_none m registry.services absent) (unfold call_match in (_, refl))
  call_unique-refused (inr (xs, ys, zs, s, t, e, p, q)) =
      let found = ap (providers m) e ∙ filter-two m xs ys zs s t p q in
      rw found (call_match-two (providers m xs) (providers m ys) (providers m zs) s t)
