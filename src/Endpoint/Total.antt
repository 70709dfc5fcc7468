-- ===== src/Endpoint/Total.antt =====
-- When the endpoint of iox2_jsonrpc/endpoint.py answers, and when an exception leaves it.
use iox2_jsonrpc.Base.{
  String, ◌≡◌, inl, inr, refl, Option, none, some, true, [], arith, ◌&◌, All, ◌==◌, startswith,
  removeprefix, Bool-cases, or_default,
}
use iox2_jsonrpc.Python.Value.{Value, str, IsJson}
use iox2_jsonrpc.Python.Dict.{Dict}
use iox2_jsonrpc.Python.Outcome.{Action, Outcome, returned, raised}
use iox2_jsonrpc.Models.{
  JsonRpcErrorObject, JsonRpcId, JsonRpcRequest, JsonRpcResponse, Returned, model_instance, plain,
  fail,
}
use iox2_jsonrpc.Controller.{
  RpcMethodBinding, Bindings, done, fails, yields, valid, invalid, crashed, Validation,
  iter_rpc_methods,
}
use iox2_jsonrpc.Controller.Scan.{listed, Ends}
use iox2_jsonrpc.Endpoint.{
  ControllerRpcEndpoint, answer, answer_parsed, call_validated, invoke, dispatch, handle,
  handle_bytes, parse_error,
}

-- An outcome with a value.
abbrev pub Succeeds {ℓ} : {A : Type ℓ} → Outcome A → Type 0
Succeeds (returned a) = Unit
Succeeds (raised e) = ⊥

pub Succeeds-value {ℓ} : {A : Type ℓ} (o : Outcome A) → Succeeds o → (a : A) × (o ≡ returned a)
Succeeds-value (returned a) h = (a, refl)
Succeeds-value (raised e) h = absurd h

-- An exception that `except Exception` catches, if there is one.
abbrev pub RaisesOnlyExceptions {ℓ} : {A : Type ℓ} → Outcome A → Type 0
RaisesOnlyExceptions (returned a) = Unit
RaisesOnlyExceptions (raised e) = e.is_exception ≡ true

-- The validator of the model reports every refusal as a `ValidationError`.
abbrev pub IsReported : Validation → Type 0
IsReported (crashed e) = ⊥
IsReported _ = Unit

answer_total :
    (id : JsonRpcId) (o : Outcome Returned) → RaisesOnlyExceptions o → Succeeds (answer id o)
unfolding answer
answer_total id (returned (model_instance fields)) h = tt
answer_total id (returned (plain v)) h = ground arith
answer_total id (raised e) h = rw h tt

module _ {S : Type 0} where
  -- The two conditions on a method: on its model and on its body.
  pub record IsWellBehaved (b : RpcMethodBinding S) : Type 0 where
    pub validates : (params : Dict Value) → IsReported (b.params_model.model_validate params)
    pub calls : (params : Dict Value) (s : S) → RaisesOnlyExceptions (b.function params s).0

  call_validated_total :
      (request : JsonRpcRequest) (b : RpcMethodBinding S) (v : Validation) (s : S)
      → IsWellBehaved b
      → IsReported v
      → Succeeds (call_validated request b v s).0
  unfolding call_validated
  call_validated_total request b (valid params) s w h =
      answer_total request.id (b.function params s).0 (w.calls params s)
  call_validated_total request b (invalid errors) s w h = tt
  call_validated_total request b (crashed e) s w h = absurd h

  dispatch_total :
      (request : JsonRpcRequest) (name : String) (bs : Bindings S) (s : S)
      → Ends bs
      → All IsWellBehaved (listed bs)
      → Succeeds (dispatch request name bs s).0
  unfolding dispatch invoke listed fail
  dispatch_total request name done s ends w = tt
  dispatch_total request name (fails e) s ends w = absurd ends
  dispatch_total request name (yields b rest) s ends w = elim (Bool-cases (b.name == name)) [
    | inl e ↦
        let args = or_default request.params [] in
        rw e (
          call_validated_total request b (b.params_model.model_validate args) s w.0
            (w.0.validates args))
    | inr e ↦ rw e (dispatch_total request name rest s ends w.1)
  ]

  handle-Succeeds :
      (ep : ControllerRpcEndpoint S) (request : JsonRpcRequest) (s : S)
      → Ends (iter_rpc_methods ep.controller s)
      → All IsWellBehaved (listed (iter_rpc_methods ep.controller s))
      → Succeeds (handle ep request s).0
  unfolding handle fail
  handle-Succeeds ep request s ends w =
      elim (Bool-cases (startswith request.method (ep.controller_name & "."))) [
        | inl p ↦ rw p (
            dispatch_total request (removeprefix request.method (ep.controller_name & "."))
              (iter_rpc_methods ep.controller s) s ends w)
        | inr p ↦ rw p tt
      ]

  -- `handle` returns a response to every request, if the listing of methods raises nothing and each
  -- listed method is well behaved: its model raises only `ValidationError`, its body only
  -- instances of `Exception`.
  pub handle_total :
      (ep : ControllerRpcEndpoint S) (request : JsonRpcRequest) (s : S)
      → Ends (iter_rpc_methods ep.controller s)
      → All IsWellBehaved (listed (iter_rpc_methods ep.controller s))
      → (r : JsonRpcResponse) × ((handle ep request s).0 ≡ returned r)
  handle_total ep request s ends w =
      Succeeds-value (handle ep request s).0 (handle-Succeeds ep request s ends w)

-- Both payloads can be written as JSON.
abbrev pub IsJsonResponse : JsonRpcResponse → Type 0
IsJsonResponse r = IsJson r.result × IsJson (failure_details r.error)
  where
    failure_details : Option JsonRpcErrorObject → Value
    failure_details none = Value.null
    failure_details (some failure) = failure.details

-- What the bytes of an answer mean: to a readable request, the outcome of `handle`; to any other
-- bytes, a parse error with no id.
abbrev pub expected :
    {S : Type 0} → ControllerRpcEndpoint S → Outcome JsonRpcRequest → Action S JsonRpcResponse
expected ep (returned request) s = handle ep request s
expected ep (raised e) s = (fail JsonRpcId.null parse_error "Parse error" (str e.message), s)

module _ {Bytes : Type 0} (parse_request : Bytes → Outcome JsonRpcRequest)
    (dump_response : JsonRpcResponse → Outcome Bytes)
    (parse_response : Bytes → Outcome JsonRpcResponse)
    (round_trip : (r : JsonRpcResponse)
      → IsJsonResponse r
      → (raw : Bytes) × (dump_response r ≡ returned raw) × (parse_response raw ≡ returned r))
    (refusals : (raw : Bytes) → RaisesOnlyExceptions (parse_request raw)) {S : Type 0}
    (ep : ControllerRpcEndpoint S) where
  answer_parsed-expected :
      (o : Outcome JsonRpcRequest) (s : S) (r : JsonRpcResponse)
      → RaisesOnlyExceptions o
      → (expected ep o s).0 ≡ returned r
      → IsJsonResponse r
      → ((answer_parsed parse_request dump_response ep o s).1 ≡ (expected ep o s).1)
        × ((answer : Bytes) × ((answer_parsed parse_request dump_response ep o s).0
              ≡ returned answer)
            × (parse_response answer ≡ returned r))
  unfolding answer_parsed
  answer_parsed-expected (returned request) s r c e json =
      let (raw, dumped, read) = round_trip r json in (refl, (raw, rw e dumped, read))
  answer_parsed-expected (raised x) s r c e json =
      let (raw, dumped, read) = round_trip r json in (refl, (raw, rw (c, e) dumped, read))

  -- If JSON responses survive being written and read, and the parser refuses by instances of
  -- `Exception`, then `handle_bytes` changes the controller as `expected` does, and where this has a
  -- JSON response it returns bytes that are read back as this response.
  pub handle_bytes-expected :
      (raw : Bytes) (s : S) (r : JsonRpcResponse)
      → (expected ep (parse_request raw) s).0 ≡ returned r
      → IsJsonResponse r
      → ((handle_bytes parse_request dump_response ep raw s).1
          ≡ (expected ep (parse_request raw) s).1)
        × ((answer : Bytes) × ((handle_bytes parse_request dump_response ep raw s).0
              ≡ returned answer)
            × (parse_response answer ≡ returned r))
  unfolding handle_bytes
  handle_bytes-expected raw s r = answer_parsed-expected (parse_request raw) s r (refusals raw)
