-- ===== src/Endpoint/Dispatch.antt =====
-- `handle` of iox2_jsonrpc/endpoint.py against the table of published methods: what is served is
-- what `describe_controller` publishes.
use iox2_jsonrpc.Base.{
  String, ◌≡◌, ◌≢◌, ◌↔◌, inl, inr, refl, sym, ap, subst, subst₂, ◌∙◌, Option, none, some, true,
  false, List, [], ◌∷◌, map, arith, In, ◌&◌, ◌&&◌, ◌==◌, eq_iff, startswith, removeprefix,
  append-==, text_append_assoc, Bool-cases, if◌then◌else◌,
}
use mathlib.Core.Option
use iox2_jsonrpc.Python.Int.{ℤ}
use iox2_jsonrpc.Python.Value.{Value}
use iox2_jsonrpc.Python.Outcome.{Outcome, Action, returned, raised}
use iox2_jsonrpc.Models.{
  JsonRpcRequest, JsonRpcResponse, RpcServiceDescriptor, RpcMethodDescriptor, fail,
}
use iox2_jsonrpc.Controller.{
  Controller, RpcMethodBinding, Bindings, done, fails, yields, iter_rpc_methods, describe_binding,
  describe_controller,
}
use iox2_jsonrpc.Controller.Scan.{listed, Ends}
use iox2_jsonrpc.Controller.Describe.{describe_controller-returned}
use iox2_jsonrpc.Endpoint.{
  ControllerRpcEndpoint, make_endpoint, invoke, dispatch, handle, method_not_found,
}

published_test :
    (c n m : String)
    → (c & "." & n == m) ≡ (startswith m (c & ".") && (n == removeprefix m (c & ".")))
published_test c n m = ap (λ t. t == m) (sym (text_append_assoc c "." n)) ∙ append-== (c & ".") n m

-- The error code of a reply, if it has one.
abbrev pub reply_code : Outcome JsonRpcResponse → Option ℤ
reply_code (returned response) = Option.map (λ failure. failure.code) response.error
reply_code (raised e) = none

module _ {S : Type 0} where
  -- The first binding of a name.
  unfoldable pub find_named : String → List (RpcMethodBinding S) → Option (RpcMethodBinding S)
  find_named name [] = none
  find_named name (b ∷ bs) =
      let rest = find_named name bs in if b.name == name then some b else rest

  -- The first binding whose published name is `method`.
  unfoldable pub find_published :
      String → String → List (RpcMethodBinding S) → Option (RpcMethodBinding S)
  find_published controller method [] = none
  find_published controller method (b ∷ bs) =
      let rest = find_published controller method bs in
      if controller & "." & b.name == method then some b else rest

  -- Serving by a table: call what was found, or answer that there is no such method.
  abbrev pub serve :
      JsonRpcRequest → String → Option (RpcMethodBinding S) → Action S JsonRpcResponse
  serve request text (some b) s = invoke request b s
  serve request text none s = (fail request.id method_not_found text Value.null, s)

  dispatch-eq-serve :
      (request : JsonRpcRequest) (name : String) (bs : Bindings S) (s : S)
      → Ends bs
      → dispatch request name bs s
        ≡ serve request ("Method not found: " & request.method) (find_named name (listed bs)) s
  unfolding dispatch listed find_named
  dispatch-eq-serve request name done s h = refl
  dispatch-eq-serve request name (fails e) s h = absurd h
  dispatch-eq-serve request name (yields b rest) s h = elim (Bool-cases (b.name == name)) [
    | inl e ↦ rw e
    | inr e ↦ rw e (dispatch-eq-serve request name rest s h)
  ]

  find_published-prefixed :
      (c m : String) (bs : List (RpcMethodBinding S))
      → startswith m (c & ".") ≡ true
      → find_published c m bs ≡ find_named (removeprefix m (c & ".")) bs
  unfolding find_published find_named
  find_published-prefixed c m [] h = refl
  find_published-prefixed c m (b ∷ bs) h = rw (published_test, h, find_published-prefixed c m bs h)

  find_published-other :
      (c m : String) (bs : List (RpcMethodBinding S))
      → startswith m (c & ".") ≡ false
      → find_published c m bs ≡ none
  unfolding find_published
  find_published-other c m [] h = refl
  find_published-other c m (b ∷ bs) h = rw (published_test, h) (find_published-other c m bs h)

  -- The text of the answer to a request for a method that is not served.
  abbrev pub unknown_text : ControllerRpcEndpoint S → JsonRpcRequest → String
  unknown_text endpoint request =
      if startswith request.method (endpoint.controller_name & ".")
      then "Method not found: " & request.method
      else "Unknown controller for method: " & request.method

  -- If the generator of methods ends without an exception, `handle` calls the first binding whose
  -- name `controller.method` is the request's method, and answers METHOD_NOT_FOUND, with the
  -- controller's state as it was, if there is none.
  pub handle-eq-serve :
      (endpoint : ControllerRpcEndpoint S) (request : JsonRpcRequest) (s : S)
      → Ends (iter_rpc_methods endpoint.controller s)
      → handle endpoint request s
        ≡ serve request
            (unknown_text endpoint request)
            (find_published endpoint.controller_name request.method
              (listed (iter_rpc_methods endpoint.controller s)))
            s
  unfolding handle
  handle-eq-serve ep request s ends =
      let bs = iter_rpc_methods ep.controller s in
      let prefix = ep.controller_name & "." in
      elim (Bool-cases (startswith request.method (ep.controller_name & "."))) [
        | inl h ↦
            rw (h, find_published-prefixed ep.controller_name request.method (listed bs) h)
              (dispatch-eq-serve request (removeprefix request.method prefix) bs s ends)
        | inr h ↦ rw (h, find_published-other ep.controller_name request.method (listed bs) h) refl
      ]

  invoke-code :
      (request : JsonRpcRequest) (b : RpcMethodBinding S) (s : S)
      → reply_code (invoke request b s).0 ≢ some method_not_found
  unfolding invoke
  invoke-code request b s h = ground arith

  serve-code :
      (request : JsonRpcRequest) (text : String) (o : Option (RpcMethodBinding S)) (s : S)
      → (reply_code (serve request text o s).0 ≡ some method_not_found) ↔ (o ≡ none)
  unfolding fail
  serve-code request text none s = (λ _. refl, λ _. refl)
  serve-code request text (some b) s = (λ h. absurd (invoke-code request b s h), λ h. cc)

  not_published_iff :
      (c m : String) (bs : List (RpcMethodBinding S))
      → (find_published c m bs ≡ none)
        ↔ ¬ In m (map (λ d. d.jsonrpc_method) (map (describe_binding c) bs))
  unfolding find_published describe_binding
  not_published_iff c m [] = (λ _ h. h, λ _. refl)
  not_published_iff c m (b ∷ bs) = elim (Bool-cases (c & "." & b.name == m)) [
    | inl h ↦ rw h (λ e. cc, λ absent. absurd (absent (inl (sym ((eq_iff _ m).0 h)))))
    | inr h ↦ rw h (
      λ e at. elim at [
        | inl here ↦ cc ((eq_iff (c & "." & b.name) m).1 (sym here))
        | inr there ↦ (not_published_iff c m bs).0 e there
      ],
      λ absent. (not_published_iff c m bs).1 (λ there. absent (inr there)),
    )
  ]

  handle-not_found :
      (ep : ControllerRpcEndpoint S) (ms : List RpcMethodDescriptor) (request : JsonRpcRequest)
      (s : S)
      → Ends (iter_rpc_methods ep.controller s)
      → ms ≡ map (describe_binding ep.controller_name) (listed (iter_rpc_methods ep.controller s))
      → (reply_code (handle ep request s).0 ≡ some method_not_found)
        ↔ ¬ In request.method (map (λ m. m.jsonrpc_method) ms)
  handle-not_found ep ms request s ends methods =
      let bs = listed (iter_rpc_methods ep.controller s) in
      let found = find_published ep.controller_name request.method bs in
      let served = serve-code request (unknown_text ep request) found s in
      let published = not_published_iff ep.controller_name request.method bs in
      rw (handle-eq-serve ep request s ends, methods)
        (λ h. published.0 (served.0 h), λ h. served.1 (published.1 h))

  make_endpoint-returned :
      (c : Controller S) (s : S) (ep : ControllerRpcEndpoint S) (name : String)
      → c.controller_name s ≡ some name
      → make_endpoint c s ≡ returned ep
      → (ep.controller ≡ c) × (ep.controller_name ≡ name)
  unfolding make_endpoint
  make_endpoint-returned c s ep name named h = ground arith

  -- A request is answered by METHOD_NOT_FOUND exactly when the descriptor of the same controller, in
  -- the same state, does not list its method.
  pub handle-not_found_iff :
      (c : Controller S) (ep : ControllerRpcEndpoint S) (d : RpcServiceDescriptor)
      (request : JsonRpcRequest) (s : S)
      → make_endpoint c s ≡ returned ep
      → describe_controller c none none s ≡ returned d
      → (reply_code (handle ep request s).0 ≡ some method_not_found)
        ↔ ¬ In request.method (map (λ m. m.jsonrpc_method) d.methods)
  handle-not_found_iff c ep d request s made described =
      let (ends, _, named, methods, _, _) =
        describe_controller-returned c none none s d described in
      let (same, name) = make_endpoint-returned c s ep d.controller named made in
      let at_ep : d.methods
          ≡ map (describe_binding ep.controller_name) (listed (iter_rpc_methods ep.controller s)) =
        subst₂ (λ x n. d.methods ≡ map (describe_binding n) (listed (iter_rpc_methods x s)))
          (sym same) (sym name) methods in
      handle-not_found ep d.methods request s
        (subst (λ x. Ends (iter_rpc_methods x s)) (sym same) ends) at_ep
