-- ===== src/Endpoint/Tests.antt =====
-- The calculator of the repository's tests, run through the endpoint, and the theorems at it.
use iox2_jsonrpc.Base.{
  ℕ, suc, String, ◌≡◌, ◌↔◌, ◌⊎◌, inl, inr, refl, ap, none, some, List, [], ◌∷◌, map, In, startswith,
  removeprefix, ◌==◌, ◌++◌, if◌then◌else◌,
}
use iox2_jsonrpc.Python.Int.{pos}
use iox2_jsonrpc.Python.Value.{Value, str, int, dict_of}
use iox2_jsonrpc.Python.Dict.{Dict}
use iox2_jsonrpc.Python.Outcome.{Exception, Outcome, Action, returned, raised, error}
use iox2_jsonrpc.Models.{
  v2_0, JsonRpcId, JsonRpcRequest, JsonRpcResponse, RpcServiceDescriptor, jsonrpc_2_0, Returned,
  model_instance,
}
use iox2_jsonrpc.Controller.{
  Attribute, not_callable, function, Controller, RpcMethodBinding, Hints, missing, other_type,
  model_type, Model, Validation, valid, invalid, iter_rpc_methods, describe_controller,
  describe_methods, rpc_endpoint_name, schema_endpoint_name, describe_binding,
}
use iox2_jsonrpc.Controller.Scan.{listed, Ends, IsRpcMethod, iter_rpc_methods_exact}
use iox2_jsonrpc.Endpoint.{
  ControllerRpcEndpoint, make_endpoint, handle, dispatch, invoke, answer, handle_bytes,
  invalid_params, method_not_found, internal_error,
}
use iox2_jsonrpc.Endpoint.Dispatch.{
  reply_code, serve, find_published, handle-eq-serve, handle-not_found_iff,
}
use iox2_jsonrpc.Endpoint.Replies.{Effect, handle-Effect}
use iox2_jsonrpc.Endpoint.Total.{RaisesOnlyExceptions, handle_bytes-expected}
use iox2_jsonrpc.Endpoint.Escape.{handle-unresolved}

-- A model whose first field must be `left`.
abbrev check_left : Dict Value → Validation
check_left [] = invalid (str "Field required" ∷ [])
check_left ((k, v) ∷ d) =
    if k == "left" then valid ((k, v) ∷ d) else invalid (str "Field required" ∷ [])

abbrev add_params : Model
add_params = record { name = "AddParams"; model_json_schema = []; model_validate = check_left }

abbrev empty_params : Model
empty_params = record {
  name = "EmptyParams";
  model_json_schema = [];
  model_validate = λ d. valid d;
}

abbrev value_result : Model
value_result = record {
  name = "ValueResult";
  model_json_schema = [];
  model_validate = λ d. valid d;
}

-- The state counts the calls of `add`.
abbrev add : Dict Value → Action ℕ Returned
add params calls = (returned (model_instance params), suc calls)

abbrev boom : Dict Value → Action ℕ Returned
boom params calls = (raised (error "RuntimeError" "boom"), calls)

abbrev typed : Model → Outcome Hints
typed m = returned (record { params = model_type m; return_type = model_type value_result })

abbrev members : List (String × Attribute ℕ)
members =
    ("__init__", function (returned (record { params = missing; return_type = missing })) boom)
    ∷ ("add", function (typed add_params) add)
    ∷ ("controller_name", not_callable)
    ∷ ("fail", function (typed empty_params) boom)
    ∷ (
      "helper",
      function (returned (record { params = missing; return_type = other_type "int" })) boom,
    )
    ∷ []

abbrev calculator : Controller ℕ
calculator = record {
  service_name = λ _. some "mathService";
  controller_name = λ _. some "calculator";
  members = λ _. members;
}

abbrev endpoint : ControllerRpcEndpoint ℕ
endpoint = record { controller = calculator; controller_name = "calculator" }

abbrev request : String → JsonRpcRequest
request method = record {
  jsonrpc = v2_0;
  id = JsonRpcId.number (pos 7);
  method = method;
  params = some (("left", int (pos 2)) ∷ []);
}

abbrev add_reply : JsonRpcResponse
add_reply = record {
  jsonrpc = v2_0;
  id = JsonRpcId.number (pos 7);
  result = dict_of (("left", int (pos 2)) ∷ []);
  error = none;
}

handle_add : handle endpoint (request "calculator.add") 3 ≡ (returned add_reply, 4)
unfolding handle dispatch invoke answer iter_rpc_methods startswith removeprefix
handle_add = refl

handle_codes :
    (reply_code (handle endpoint (request "calculator.sub") 3).0 ≡ some method_not_found)
    × (reply_code (handle endpoint (request "other.add") 3).0 ≡ some method_not_found)
    × (reply_code (handle endpoint (request "calculator.fail") 3).0 ≡ some internal_error)
    × (reply_code (handle endpoint (record (request "calculator.add") { params = none }) 3).0
        ≡ some invalid_params)
unfolding handle dispatch invoke answer iter_rpc_methods startswith removeprefix
handle_codes = (refl, refl, refl, refl)

-- What the generator yields for the calculator.
abbrev bindings : List (RpcMethodBinding ℕ)
bindings =
    record { name = "add"; function = add; params_model = add_params; result_model = value_result }
    ∷ record {
      name = "fail";
      function = boom;
      params_model = empty_params;
      result_model = value_result;
    }
    ∷ []

calculator-Ends : Ends (iter_rpc_methods calculator 3)
unfolding iter_rpc_methods startswith
calculator-Ends = tt

calculator-listed : listed (iter_rpc_methods calculator 3) ≡ bindings
unfolding iter_rpc_methods startswith listed
calculator-listed = refl

abbrev descriptor : RpcServiceDescriptor
descriptor = record {
  protocol = jsonrpc_2_0;
  service = "mathService";
  controller = "calculator";
  rpc_endpoint = "mathService/calculator/rpc";
  schema_endpoint = "mathService/calculator/schema";
  methods = map (describe_binding "calculator") bindings;
}

calculator-descriptor : describe_controller calculator none none 3 ≡ returned descriptor
unfolding describe_controller describe_methods iter_rpc_methods startswith rpc_endpoint_name
    schema_endpoint_name
calculator-descriptor = refl

iter_rpc_methods_exact_example :
    In
      (record {
        name = "add";
        function = add;
        params_model = add_params;
        result_model = value_result;
      })
      (listed (iter_rpc_methods calculator 3))
    ↔ ((m : String × Attribute ℕ) × In m (calculator.members 3)
        × IsRpcMethod m.0 m.1 (record {
          name = "add";
          function = add;
          params_model = add_params;
          result_model = value_result;
        }))
iter_rpc_methods_exact_example =
    iter_rpc_methods_exact calculator 3
      (record {
        name = "add";
        function = add;
        params_model = add_params;
        result_model = value_result;
      })
      calculator-Ends

handle-eq-serve_example :
    handle endpoint (request "calculator.add") 3
    ≡ serve
        (request "calculator.add")
        "Method not found: calculator.add"
        (find_published "calculator" "calculator.add" (listed (iter_rpc_methods calculator 3)))
        3
unfolding startswith
handle-eq-serve_example = handle-eq-serve endpoint (request "calculator.add") 3 calculator-Ends

handle-not_found_iff_example :
    (reply_code (handle endpoint (request "calculator.sub") 3).0 ≡ some method_not_found)
    ↔ ¬ In "calculator.sub" (map (λ m. m.jsonrpc_method) descriptor.methods)
unfolding make_endpoint
handle-not_found_iff_example =
    handle-not_found_iff calculator endpoint descriptor (request "calculator.sub") 3 refl
      calculator-descriptor

handle-Effect_example :
    Effect "calculator" "calculator.add"
      (request "calculator.add")
      (listed (iter_rpc_methods calculator 3))
      3
      (handle endpoint (request "calculator.add") 3)
handle-Effect_example = handle-Effect endpoint (request "calculator.add") 3

-- Messages that need no reading: a request or a response.
abbrev Wire : Type 0
Wire = JsonRpcRequest ⊎ JsonRpcResponse

abbrev parse_request : Wire → Outcome JsonRpcRequest
parse_request (inl r) = returned r
parse_request (inr r) = raised (error "ValidationError" "not a request")

abbrev parse_response : Wire → Outcome JsonRpcResponse
parse_response (inl r) = raised (error "ValidationError" "not a response")
parse_response (inr r) = returned r

abbrev dump_response : JsonRpcResponse → Outcome Wire
dump_response r = returned (inr r)

wire_refusals : (raw : Wire) → RaisesOnlyExceptions (parse_request raw)
wire_refusals (inl r) = tt
wire_refusals (inr r) = refl

handle_bytes-expected_example :
    ((handle_bytes parse_request dump_response endpoint (inl (request "calculator.add")) 3).1
      ≡ (handle endpoint (request "calculator.add") 3).1)
    × ((answer : Wire) × ((handle_bytes parse_request dump_response endpoint
            (inl (request "calculator.add"))
            3).0
          ≡ returned answer)
        × (parse_response answer ≡ returned add_reply))
handle_bytes-expected_example =
    handle_bytes-expected parse_request dump_response parse_response (λ r json. (inr r, refl, refl))
      wire_refusals endpoint (inl (request "calculator.add")) 3 add_reply (ap (λ p. p.0) handle_add)
      ((tt, tt), tt)

-- The calculator with one more public attribute, whose hints name what cannot be resolved.
abbrev unresolved : Exception
unresolved = error "NameError" "name 'Frame' is not defined"

abbrev initial : List (String × Attribute ℕ)
initial =
    ("__init__", function (returned (record { params = missing; return_type = missing })) boom) ∷ []

abbrev broken : ControllerRpcEndpoint ℕ
broken = record {
  controller = record calculator {
    members = λ _. initial ++ (("aaa", function (raised unresolved) boom) ∷ members);
  };
  controller_name = "calculator";
}

not_initial : ¬ In "add" (map (λ m. m.0) initial)
not_initial (inl k) = absurd (cc (ap (λ name. name == "__init__") k))
not_initial (inr h) = h

handle-unresolved_example :
    (e : Exception) × (handle broken (request "calculator.add") 3 ≡ (raised e, 3))
unfolding startswith removeprefix
handle-unresolved_example =
    handle-unresolved broken (request "calculator.add") 3 "add" "aaa" boom unresolved initial
      members refl refl refl refl not_initial
