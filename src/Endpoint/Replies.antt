-- ===== src/Endpoint/Replies.antt =====
-- What a reply of iox2_jsonrpc/endpoint.py is made of: the request's id, one payload, one call.
use iox2_jsonrpc.Base.{
  String, ◌≡◌, inl, inr, refl, sym, ap, ◌∙◌, text_append_assoc, [], ◌∷◌, arith, In, ◌&◌, ◌==◌,
  eq_iff, startswith, removeprefix, append-removeprefix, Bool-cases, or_default, List,
}
use iox2_jsonrpc.Python.Value.{Value}
use iox2_jsonrpc.Python.Dict.{Dict}
use iox2_jsonrpc.Python.Outcome.{Outcome, returned, raised, IfReturned, IfReturned-at}
use iox2_jsonrpc.Models.{JsonRpcId, JsonRpcRequest, JsonRpcResponse, Returned, fail}
use iox2_jsonrpc.Models.Payload.{IsValid, Answers}
use iox2_jsonrpc.Controller.{
  RpcMethodBinding, Bindings, done, fails, yields, valid, invalid, crashed, Validation,
  iter_rpc_methods,
}
use iox2_jsonrpc.Controller.Scan.{listed}
use iox2_jsonrpc.Endpoint.{ControllerRpcEndpoint, answer, call_validated, invoke, dispatch, handle}

answer-Answers : (id : JsonRpcId) (o : Outcome Returned) → IfReturned (Answers id) (answer id o)
unfolding answer
answer-Answers id (returned x) = ground arith
answer-Answers id (raised e) = ground arith

module _ {S : Type 0} where
  call_validated-Answers :
      (request : JsonRpcRequest) (b : RpcMethodBinding S) (v : Validation) (s : S)
      → IfReturned (Answers request.id) (call_validated request b v s).0
  unfolding call_validated
  call_validated-Answers request b (valid params) s =
      answer-Answers request.id (b.function params s).0
  call_validated-Answers request b (invalid errors) s = ground arith
  call_validated-Answers request b (crashed e) s = tt

  dispatch-Answers :
      (request : JsonRpcRequest) (name : String) (bs : Bindings S) (s : S)
      → IfReturned (Answers request.id) (dispatch request name bs s).0
  unfolding dispatch invoke fail
  dispatch-Answers request name done s = ground arith
  dispatch-Answers request name (fails e) s = tt
  dispatch-Answers request name (yields b rest) s = elim (Bool-cases (b.name == name)) [
    | inl e ↦ rw e (
        call_validated-Answers request b
          (b.params_model.model_validate (or_default request.params [])) s)
    | inr e ↦ rw e (dispatch-Answers request name rest s)
  ]

  handle-IfReturned :
      (ep : ControllerRpcEndpoint S) (request : JsonRpcRequest) (s : S)
      → IfReturned (Answers request.id) (handle ep request s).0
  unfolding handle fail
  handle-IfReturned ep request s =
      elim (Bool-cases (startswith request.method (ep.controller_name & "."))) [
        | inl p ↦ rw p (
            dispatch-Answers request (removeprefix request.method (ep.controller_name & "."))
              (iter_rpc_methods ep.controller s) s)
        | inr p ↦ rw p (ground arith)
      ]

  -- Every response that `handle` returns carries the id of its request, and at most one of a result
  -- and an error.
  pub handle-Answers :
      (ep : ControllerRpcEndpoint S) (request : JsonRpcRequest) (s : S) (r : JsonRpcResponse)
      → (handle ep request s).0 ≡ returned r
      → (r.id ≡ request.id) × IsValid r
  handle-Answers ep request s r h =
      IfReturned-at (Answers request.id) (handle ep request s).0 (handle-IfReturned ep request s) h

  -- What one request does to the controller: nothing, or one call of one of its methods, with
  -- parameters that its model has accepted; the reply is then made of what this call gives.
  pub data Effect (controller method : String) (request : JsonRpcRequest)
      (bs : List (RpcMethodBinding S)) (s : S) (after : Outcome JsonRpcResponse × S) : Type 0 where
    untouched : after.1 ≡ s → Effect controller method request bs s after
    called :
        (b : RpcMethodBinding S) (params : Dict Value)
        → In b bs
        → controller & "." & b.name ≡ method
        → b.params_model.model_validate (or_default request.params []) ≡ valid params
        → after ≡ (answer request.id (b.function params s).0, (b.function params s).1)
        → Effect controller method request bs s after

  invoke-Effect :
      (c m : String) (request : JsonRpcRequest) (bs : List (RpcMethodBinding S))
      (b : RpcMethodBinding S) (v : Validation) (s : S)
      → In b bs
      → c & "." & b.name ≡ m
      → b.params_model.model_validate (or_default request.params []) ≡ v
      → Effect c m request bs s (call_validated request b v s)
  unfolding call_validated
  invoke-Effect c m request bs b (valid params) s at named e = called b params at named e refl
  invoke-Effect c m request bs b (invalid errors) s at named e = untouched refl
  invoke-Effect c m request bs b (crashed x) s at named e = untouched refl

  Effect-later :
      (c m : String) (request : JsonRpcRequest) (bs : List (RpcMethodBinding S))
      (b : RpcMethodBinding S) (s : S) (after : Outcome JsonRpcResponse × S)
      → Effect c m request bs s after
      → Effect c m request (b ∷ bs) s after
  Effect-later c m request bs b s after (untouched e) = untouched e
  Effect-later c m request bs b s after (called d params at named v e) =
      called d params (inr at) named v e

  dispatch-Effect :
      (c m name : String) (request : JsonRpcRequest) (bs : Bindings S) (s : S)
      → (c & ".") & name ≡ m
      → Effect c m request (listed bs) s (dispatch request name bs s)
  unfolding dispatch invoke listed
  dispatch-Effect c m name request done s e = untouched refl
  dispatch-Effect c m name request (fails x) s e = untouched refl
  dispatch-Effect c m name request (yields b rest) s e = elim (Bool-cases (b.name == name)) [
    | inl same ↦
        let named : c & "." & b.name ≡ m =
          ap (λ n. c & "." & n) ((eq_iff b.name name).0 same)
          ∙ sym (text_append_assoc c "." name)
          ∙ e in
        rw same (
          invoke-Effect c m request (b ∷ listed rest) b
            (b.params_model.model_validate (or_default request.params [])) s (inl refl) named refl)
    | inr other ↦ rw other (
        Effect-later c m request (listed rest) b s (dispatch request name rest s)
          (dispatch-Effect c m name request rest s e))
  ]

  -- A request leaves the controller's state alone, or calls one listed method, once, whose published
  -- name is the request's method, with parameters that its model accepted; then state and reply
  -- are those of this call.
  pub handle-Effect :
      (ep : ControllerRpcEndpoint S) (request : JsonRpcRequest) (s : S)
      → Effect ep.controller_name request.method request
          (listed (iter_rpc_methods ep.controller s))
          s
          (handle ep request s)
  unfolding handle
  handle-Effect ep request s =
      elim (Bool-cases (startswith request.method (ep.controller_name & "."))) [
        | inl p ↦
            let name = removeprefix request.method (ep.controller_name & ".") in
            rw p (
              dispatch-Effect ep.controller_name request.method name request
                (iter_rpc_methods ep.controller s) s
                (append-removeprefix request.method (ep.controller_name & ".") p))
        | inr p ↦ rw p (untouched refl)
      ]
