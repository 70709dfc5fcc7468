-- ===== src/Controller/Scan.antt =====
-- What `iter_rpc_methods` of iox2_jsonrpc/controller.py yields: exactly the typed public methods.
use iox2_jsonrpc.Base.{
  String, ◌≡◌, refl, subst, ◌↔◌, ◌⊎◌, inl, inr, false, Option, none, some, List, [], ◌∷◌, arith, In,
  startswith,
}
use iox2_jsonrpc.Python.Outcome.{Outcome, returned, raised}
use iox2_jsonrpc.Controller.{
  Model, Attribute, failing, not_callable, function, Controller, RpcMethodBinding, Bindings, done,
  fails, yields, Hints, Hint, missing, not_a_type, other_type, model_type, as_model, emit,
  inspect_member, scan_members, after_check, iter_rpc_methods, validate_controller,
}

as_model-eq-some : (h : Hint) {m : Model} → as_model h ≡ some m → h ≡ model_type m
as_model-eq-some missing e = cc
as_model-eq-some not_a_type e = cc
as_model-eq-some (other_type t) e = cc
as_model-eq-some (model_type m) e = cc

module _ {S : Type 0} where
  -- The bindings that come out before the end or the exception.
  unfoldable pub listed : Bindings S → List (RpcMethodBinding S)
  listed done = []
  listed (fails e) = []
  listed (yields b rest) = b ∷ listed rest

  -- The generator ends and does not raise.
  abbrev pub Ends : Bindings S → Type 0
  Ends done = Unit
  Ends (fails e) = ⊥
  Ends (yields b rest) = Ends rest

  -- A member is an RPC method, with this binding: it has a public name, it is callable, and its
  -- hints for `params` and the result are Pydantic models.
  pub record IsRpcMethod (name : String) (attribute : Attribute S) (b : RpcMethodBinding S)
      : Type 0 where
    pub is_public : startswith name "_" ≡ false
    pub hints : Hints
    pub is_function : attribute ≡ function (returned hints) b.function
    pub params_hint : hints.params ≡ model_type b.params_model
    pub result_hint : hints.return_type ≡ model_type b.result_model
    pub same_name : b.name ≡ name

  pub inspect_member_sound :
      (name : String) (a : Attribute S) {b : RpcMethodBinding S}
      → inspect_member name a ≡ returned (some b)
      → IsRpcMethod name a b
  unfolding inspect_member
  inspect_member_sound name (failing e) h = ground arith
  inspect_member_sound name not_callable h = ground arith
  inspect_member_sound name (function (raised e) fn) h = ground arith
  inspect_member_sound name (function (returned hints) fn) h = record {
    is_public = ground arith;
    hints = hints;
    is_function = ground arith;
    params_hint = as_model-eq-some hints.params (ground arith);
    result_hint = as_model-eq-some hints.return_type (ground arith);
    same_name = ground arith;
  }

  inspect_member_complete :
      (name : String) (a : Attribute S) (b : RpcMethodBinding S)
      → IsRpcMethod name a b
      → inspect_member name a ≡ returned (some b)
  unfolding inspect_member
  inspect_member_complete name a b h = ground arith

  emit_sound :
      (r : Outcome (Option (RpcMethodBinding S))) (rest : Bindings S) {b : RpcMethodBinding S}
      → In b (listed (emit r rest))
      → (r ≡ returned (some b)) ⊎ In b (listed rest)
  unfolding listed
  emit_sound (raised e) rest h = absurd h
  emit_sound (returned none) rest h = inr h
  emit_sound (returned (some c)) rest (inl e) = inl (rw e refl)
  emit_sound (returned (some c)) rest (inr h) = inr h

  emit_complete :
      (r : Outcome (Option (RpcMethodBinding S))) (rest : Bindings S) {b : RpcMethodBinding S}
      → Ends (emit r rest)
      → (r ≡ returned (some b)) ⊎ In b (listed rest)
      → In b (listed (emit r rest))
  unfolding listed
  emit_complete (raised e) rest ends h = absurd ends
  emit_complete (returned none) rest ends (inl e) = cc
  emit_complete (returned none) rest ends (inr h) = h
  emit_complete (returned (some c)) rest ends (inl e) = inl (ground arith)
  emit_complete (returned (some c)) rest ends (inr h) = inr h

  Ends-emit :
      (r : Outcome (Option (RpcMethodBinding S))) (rest : Bindings S)
      → Ends (emit r rest)
      → Ends rest
  Ends-emit (raised e) rest h = absurd h
  Ends-emit (returned none) rest h = h
  Ends-emit (returned (some c)) rest h = h

  scan_members_sound :
      (ms : List (String × Attribute S)) {b : RpcMethodBinding S}
      → In b (listed (scan_members ms))
      → (m : String × Attribute S) × In m ms × IsRpcMethod m.0 m.1 b
  unfolding scan_members listed
  scan_members_sound [] h = absurd h
  scan_members_sound ((name, a) ∷ ms) {b} h =
      elim (emit_sound (inspect_member name a) (scan_members ms) h) [
        | inl found ↦ ((name, a), inl refl, inspect_member_sound name a found)
        | inr later ↦ let (m, at, is) = scan_members_sound ms {b = b} later in (m, inr at, is)
      ]

  scan_members_complete :
      (ms : List (String × Attribute S)) {b : RpcMethodBinding S} (m : String × Attribute S)
      → Ends (scan_members ms)
      → In m ms
      → IsRpcMethod m.0 m.1 b
      → In b (listed (scan_members ms))
  unfolding scan_members listed
  scan_members_complete [] m ends at is = absurd at
  scan_members_complete ((name, a) ∷ ms) {b} m ends (inl e) is =
      emit_complete (inspect_member name a) (scan_members ms) ends
        (inl (inspect_member_complete name a b (subst (λ p. IsRpcMethod p.0 p.1 b) e is)))
  scan_members_complete ((name, a) ∷ ms) {b} m ends (inr at) is =
      emit_complete (inspect_member name a) (scan_members ms) ends (
        inr (
          scan_members_complete ms {b = b} m
            (Ends-emit (inspect_member name a) (scan_members ms) ends) at is))

  after_check-eq :
      (r : Outcome Unit) (bs : Bindings S) → Ends (after_check r bs) → after_check r bs ≡ bs
  after_check-eq (raised e) bs h = absurd h
  after_check-eq (returned u) bs h = refl

  pub iter-eq-scan :
      (c : Controller S) (s : S)
      → Ends (iter_rpc_methods c s)
      → iter_rpc_methods c s ≡ scan_members (c.members s)
  unfolding iter_rpc_methods
  iter-eq-scan c s h = after_check-eq (validate_controller c s) (scan_members (c.members s)) h

  -- If `iter_rpc_methods` ends without an exception, it yields a binding exactly when some member
  -- of the controller is an RPC method with that binding.
  pub iter_rpc_methods_exact :
      (c : Controller S) (s : S) (b : RpcMethodBinding S)
      → Ends (iter_rpc_methods c s)
      → In b (listed (iter_rpc_methods c s))
        ↔ ((m : String × Attribute S) × In m (c.members s) × IsRpcMethod m.0 m.1 b)
  iter_rpc_methods_exact c s b ends =
      let same = iter-eq-scan c s ends in
      let scan_ends = subst Ends same ends in
      rw same (
        scan_members_sound (c.members s) {b = b},
        λ (m, at, is). scan_members_complete (c.members s) {b = b} m scan_ends at is,
      )
