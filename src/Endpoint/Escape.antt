-- ===== src/Endpoint/Escape.antt =====
-- Exceptions that leave `handle` and `handle_bytes` of iox2_jsonrpc/endpoint.py: the loop over the
-- generator stands outside every `try`.
use iox2_jsonrpc.Base.{
  String, ◌≡◌, ◌≢◌, refl, sym, ◌∙◌, inl, inr, ◌&◌, ◌==◌, eq_iff, startswith, removeprefix,
  Bool-cases, true, false, Option, none, some, List, [], ◌∷◌, ◌++◌, map, In,
}
use iox2_jsonrpc.Python.Value.{Value}
use iox2_jsonrpc.Python.Dict.{Dict}
use iox2_jsonrpc.Python.Outcome.{Exception, Outcome, Action, returned, raised}
use iox2_jsonrpc.Models.{JsonRpcRequest, Returned}
use iox2_jsonrpc.Controller.{
  Attribute, function, RpcMethodBinding, Bindings, fails, yields, emit, inspect_member,
  scan_members, after_check, validate_controller, iter_rpc_methods,
}
use iox2_jsonrpc.Controller.Scan.{inspect_member_sound}
use iox2_jsonrpc.Endpoint.{ControllerRpcEndpoint, dispatch, handle}

module _ {S : Type 0} where
  -- The generator raises before it yields a binding of this name.
  pub data FailsBefore (name : String) (e : Exception) : Bindings S → Type 0 where
    now : FailsBefore name e (fails e)
    later :
        {b : RpcMethodBinding S} {rest : Bindings S}
        → b.name ≢ name
        → FailsBefore name e rest
        → FailsBefore name e (yields b rest)

  dispatch-raised :
      (request : JsonRpcRequest) (name : String) (e : Exception) {bs : Bindings S} (s : S)
      → FailsBefore name e bs
      → dispatch request name bs s ≡ (raised e, s)
  unfolding dispatch
  dispatch-raised request name e s now = refl
  dispatch-raised request name e s (later {b = b} {rest = rest} ne f) =
      elim (Bool-cases (b.name == name)) [
        | inl same ↦ absurd (ne ((eq_iff b.name name).0 same))
        | inr other ↦ rw other (dispatch-raised request name e {bs = rest} s f)
      ]

  emit-FailsBefore :
      (name member : String) (attribute : Attribute S) (rest : Bindings S)
      (o : Outcome (Option (RpcMethodBinding S)))
      → inspect_member member attribute ≡ o
      → member ≢ name
      → ((e : Exception) × FailsBefore name e rest)
      → (e : Exception) × FailsBefore name e (emit o rest)
  emit-FailsBefore name member attribute rest (raised e) h ne f = (e, now)
  emit-FailsBefore name member attribute rest (returned none) h ne f = f
  emit-FailsBefore name member attribute rest (returned (some b)) h ne (e, f) =
      let same = (inspect_member_sound member attribute h).same_name in
      (e, later (λ k. ne (sym same ∙ k)) f)

  scan_members-FailsBefore :
      (name member : String) (attribute : Attribute S) (e : Exception)
      (before after : List (String × Attribute S))
      → inspect_member member attribute ≡ raised e
      → ¬ In name (map (λ m. m.0) before)
      → (e' : Exception) × FailsBefore name e'
          (scan_members (before ++ ((member, attribute) ∷ after)))
  unfolding scan_members
  scan_members-FailsBefore name member attribute e [] after h away = rw h (e, now)
  scan_members-FailsBefore name member attribute e ((first, a) ∷ before) after h away =
      emit-FailsBefore name first a (scan_members (before ++ ((member, attribute) ∷ after)))
        (inspect_member first a) refl (λ k. away (inl (sym k)))
        (scan_members-FailsBefore name member attribute e before after h (λ k. away (inr k)))

  after_check-FailsBefore :
      (name : String) (check : Outcome (Unit {0})) (bs : Bindings S)
      → ((e : Exception) × FailsBefore name e bs)
      → (e : Exception) × FailsBefore name e (after_check check bs)
  after_check-FailsBefore name (returned u) bs f = f
  after_check-FailsBefore name (raised e) bs f = (e, now)

  unresolved-raised :
      (member : String) (call : Dict Value → Action S Returned) (e : Exception)
      → startswith member "_" ≡ false
      → inspect_member member (function (raised e) call) ≡ raised e
  unfolding inspect_member
  unresolved-raised member call e h = rw h refl

  -- If the type hints of one public callable attribute cannot be resolved, a request for any method of
  -- the controller that is not listed before this attribute makes `handle` raise, whatever else is
  -- listed: no response is made, and the controller's state stays as it is.
  pub handle-unresolved :
      (ep : ControllerRpcEndpoint S) (request : JsonRpcRequest) (s : S) (name member : String)
      (call : Dict Value → Action S Returned) (e : Exception)
      (before after : List (String × Attribute S))
      → startswith request.method (ep.controller_name & ".") ≡ true
      → removeprefix request.method (ep.controller_name & ".") ≡ name
      → ep.controller.members s ≡ before ++ ((member, function (raised e) call) ∷ after)
      → startswith member "_" ≡ false
      → ¬ In name (map (λ m. m.0) before)
      → (e' : Exception) × (handle ep request s ≡ (raised e', s))
  unfolding handle iter_rpc_methods
  handle-unresolved ep request s name member call e before after p q m public away =
      let (e', f) =
        after_check-FailsBefore name (validate_controller ep.controller s)
          (scan_members (before ++ ((member, function (raised e) call) ∷ after)))
          (scan_members-FailsBefore name member (function (raised e) call) e before after
            (unresolved-raised member call e public) away) in
      (e', rw (p, q, m) (dispatch-raised request name e' s f))
