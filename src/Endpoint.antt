-- ===== src/Endpoint.antt =====
-- iox2_jsonrpc/endpoint.py: the in-process JSON-RPC endpoint of a controller. Pydantic's reading of
-- a request and writing of a response are the parameters `parse_request` and `dump_response`.
pub mod Dispatch
pub mod Replies
pub mod Total
pub mod Escape
pub mod Series
pub mod Tests
use iox2_jsonrpc.Base.{
  ℕ, String, ◌≡◌, Option, none, some, Bool, List, [], ◌&◌, ◌==◌, startswith, removeprefix,
  or_default, if◌then◌else◌,
}
use iox2_jsonrpc.Python.Int.{ℤ, minus}
use iox2_jsonrpc.Python.Value.{Value, str, list_of}
use iox2_jsonrpc.Python.Dict.{Dict}
use iox2_jsonrpc.Python.Outcome.{Exception, Outcome, Action, returned, raised, ◌>>=◌}
use iox2_jsonrpc.Models
use iox2_jsonrpc.Models.{JsonRpcId, JsonRpcRequest, JsonRpcResponse, Returned, ok, fail}
use iox2_jsonrpc.Controller.{
  Validation, Controller, RpcMethodBinding, Bindings, done, fails, yields, valid, invalid, crashed,
  read_name, iter_rpc_methods,
}

abbrev pub parse_error : ℤ
parse_error = minus 32700

abbrev pub method_not_found : ℤ
method_not_found = minus 32601

abbrev pub invalid_params : ℤ
invalid_params = minus 32602

abbrev pub internal_error : ℤ
internal_error = minus 32603

pub record ControllerRpcEndpoint (S : Type 0) : Type 0 where
  pub controller : Controller S
  pub controller_name : String

-- What is made of a call of the method: `except Exception`, or the result.
unfoldable pub answer : JsonRpcId → Outcome Returned → Outcome JsonRpcResponse
unfolding ok fail
answer id (returned result) = ok id result
answer id (raised e) =
    if e.is_exception then fail id internal_error "Internal error" (str e.message) else raised e

module _ {S : Type 0} where
  -- `ControllerRpcEndpoint(controller)`: the name is read once, here.
  unfoldable pub make_endpoint : Controller S → S → Outcome (ControllerRpcEndpoint S)
  make_endpoint controller s = do
    name ← read_name (controller.controller_name s) "controller_name"
    returned (record { controller = controller; controller_name = name })

  -- What follows `model_validate`: its handler, or the call.
  unfoldable pub call_validated :
      JsonRpcRequest → RpcMethodBinding S → Validation → Action S JsonRpcResponse
  unfolding answer fail
  call_validated request binding (valid params) s =
      let (result, s') = binding.function params s in (answer request.id result, s')
  call_validated request binding (invalid errors) s =
      (fail request.id invalid_params "Invalid params" (list_of errors), s)
  call_validated request binding (crashed e) s = (raised e, s)

  -- The loop's body for the binding of the name.
  unfoldable pub invoke : JsonRpcRequest → RpcMethodBinding S → Action S JsonRpcResponse
  unfolding call_validated
  invoke request binding s =
      call_validated request binding
        (binding.params_model.model_validate (or_default request.params [])) s

  -- The loop over the generator, and the answer after its end.
  unfoldable pub dispatch : JsonRpcRequest → String → Bindings S → Action S JsonRpcResponse
  dispatch request name done s =
      (fail request.id method_not_found ("Method not found: " & request.method) Value.null, s)
  dispatch request name (fails e) s = (raised e, s)
  dispatch request name (yields binding rest) s =
      let later = dispatch request name rest s in
      if binding.name == name then invoke request binding s else later

  unfoldable pub handle : ControllerRpcEndpoint S → JsonRpcRequest → Action S JsonRpcResponse
  handle endpoint request s =
      let expected_prefix = endpoint.controller_name & "." in
      if startswith request.method expected_prefix
      then dispatch request (removeprefix request.method expected_prefix)
          (iter_rpc_methods endpoint.controller s) s
      else (
        fail request.id method_not_found ("Unknown controller for method: " & request.method)
            Value.null,
        s,
      )

-- `Bytes` is the type of the raw messages, which this file only passes on.
module _ {Bytes : Type 0} (parse_request : Bytes → Outcome JsonRpcRequest)
    (dump_response : JsonRpcResponse → Outcome Bytes) {S : Type 0}
    (endpoint : ControllerRpcEndpoint S) where
  -- What follows `model_validate_json`: its handler, or the request's way.
  unfoldable pub answer_parsed : Outcome JsonRpcRequest → Action S Bytes
  answer_parsed (returned request) s =
      let (response, s') = handle endpoint request s in (response >>= dump_response, s')
  answer_parsed (raised e) s = (
    if e.is_exception
        then fail JsonRpcId.null parse_error "Parse error" (str e.message) >>= dump_response
        else raised e,
    s,
  )

  unfoldable pub handle_bytes : Bytes → Action S Bytes
  unfolding answer_parsed
  handle_bytes raw s = answer_parsed (parse_request raw) s
