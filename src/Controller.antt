-- ===== src/Controller.antt =====
-- iox2_jsonrpc/controller.py: which methods of a controller object are RPC methods, and the
-- descriptor made of them. A controller is an object whose state is an `S`.
pub mod Scan
pub mod Names
pub mod Describe
mod Tests
use iox2_jsonrpc.Base.{
  String, ◌≡◌, Option, none, some, List, [], ◌∷◌, ◌&◌, ◌==◌, startswith, or_default, if◌then◌else◌,
}
use iox2_jsonrpc.Python.Value.{Value}
use iox2_jsonrpc.Python.Dict.{Dict}
use iox2_jsonrpc.Python.Outcome.{Exception, Outcome, Action, returned, raised, error, ◌>>=◌}
use iox2_jsonrpc.Models.{
  Returned, RpcMethodDescriptor, RpcServiceDescriptor, DescriptorProtocol, jsonrpc_2_0,
}

-- `model_validate`: an instance by its fields, a `ValidationError` by its `errors()`, or any other
-- exception.
pub data Validation : Type 0 where
  valid : Dict Value → Validation
  invalid : List Value → Validation
  crashed : Exception → Validation

-- A subclass of Pydantic's `BaseModel`.
pub record Model : Type 0 where
  pub name : String
  pub model_json_schema : Dict Value
  pub model_validate : Dict Value → Validation

-- What `hints.get(...)` gives: nothing, something that is no class, a class, a `BaseModel` class.
pub data Hint : Type 0 where
  missing : Hint
  not_a_type : Hint
  other_type : String → Hint
  model_type : Model → Hint

pub record Hints : Type 0 where
  pub params : Hint
  pub return_type : Hint

-- What `getattr(controller, name)` gives: it raises, or it is no callable, or a callable with the
-- outcome of `get_type_hints` and the effect of a call with one argument.
pub data Attribute (S : Type 0) : Type 0 where
  failing : Exception → Attribute S
  not_callable : Attribute S
  function : Outcome Hints → (Dict Value → Action S Returned) → Attribute S

-- `members` is `dir(controller)` with the attribute of each name.
pub record Controller (S : Type 0) : Type 0 where
  pub service_name : S → Option String
  pub controller_name : S → Option String
  pub members : S → List (String × Attribute S)

pub record RpcMethodBinding (S : Type 0) : Type 0 where
  pub name : String
  pub function : Dict Value → Action S Returned
  pub params_model : Model
  pub result_model : Model

-- What a generator yields, up to its end or to the exception that it raises.
pub data Bindings (S : Type 0) : Type 0 where
  done : Bindings S
  fails : Exception → Bindings S
  yields : RpcMethodBinding S → Bindings S → Bindings S

abbrev pub as_model : Hint → Option Model
as_model (model_type m) = some m
as_model _ = none

abbrev pub read_name : Option String → String → Outcome String
read_name (some name) attribute = returned name
read_name none attribute = raised (error "AttributeError" attribute)

module _ {S : Type 0} where
  -- `binding.jsonrpc_method`
  unfoldable pub binding_jsonrpc_method : RpcMethodBinding S → String
  binding_jsonrpc_method binding = binding.name

  -- `_validate_controller`
  unfoldable pub validate_controller : Controller S → S → Outcome (Unit {0})
  validate_controller controller s = elim (controller.service_name s) [
    | none ↦ raised (error "TypeError" "RPC controller must define service_name")
    | some _ ↦ elim (controller.controller_name s) [
      | none ↦ raised (error "TypeError" "RPC controller must define controller_name")
      | some _ ↦ returned tt
    ]
  ]

  -- The tests on the type hints.
  unfoldable pub bind_models :
      String
      → (Dict Value → Action S Returned)
      → Option Model
      → Option Model
      → Option (RpcMethodBinding S)
  bind_models name fn (some params) (some result) =
      some (record { name = name; function = fn; params_model = params; result_model = result })
  bind_models name fn _ _ = none

  -- What follows `fn = getattr(...)` in the loop's body; `none` is `continue`.
  unfoldable pub inspect_attribute : String → Attribute S → Outcome (Option (RpcMethodBinding S))
  unfolding bind_models
  inspect_attribute name (failing e) = raised e
  inspect_attribute name not_callable = returned none
  inspect_attribute name (function hints fn) =
      hints >>= λ h. returned (bind_models name fn (as_model h.params) (as_model h.return_type))

  -- The loop's body.
  unfoldable pub inspect_member : String → Attribute S → Outcome (Option (RpcMethodBinding S))
  unfolding inspect_attribute
  inspect_member name attribute =
      if startswith name "_" then returned none else inspect_attribute name attribute

  abbrev pub emit : Outcome (Option (RpcMethodBinding S)) → Bindings S → Bindings S
  emit (raised e) rest = fails e
  emit (returned none) rest = rest
  emit (returned (some binding)) rest = yields binding rest

  unfoldable pub scan_members : List (String × Attribute S) → Bindings S
  unfolding inspect_member
  scan_members [] = done
  scan_members ((name, attribute) ∷ members) =
      let rest = scan_members members in emit (inspect_member name attribute) rest

  -- An exception of the first line comes out at the first `next()`.
  abbrev pub after_check : Outcome (Unit {0}) → Bindings S → Bindings S
  after_check (raised e) rest = fails e
  after_check (returned _) rest = rest

  unfoldable pub iter_rpc_methods : Controller S → S → Bindings S
  unfolding validate_controller scan_members
  iter_rpc_methods controller s =
      after_check (validate_controller controller s) (scan_members (controller.members s))

  unfoldable pub rpc_endpoint_name : Controller S → S → Outcome String
  rpc_endpoint_name c s = do
    service ← read_name (c.service_name s) "service_name"
    controller ← read_name (c.controller_name s) "controller_name"
    returned (service & "/" & controller & "/rpc")

  unfoldable pub schema_endpoint_name : Controller S → S → Outcome String
  schema_endpoint_name c s = do
    service ← read_name (c.service_name s) "service_name"
    controller ← read_name (c.controller_name s) "controller_name"
    returned (service & "/" & controller & "/schema")

  unfoldable pub describe_binding : String → RpcMethodBinding S → RpcMethodDescriptor
  describe_binding controller_name binding = record {
    name = binding.name;
    jsonrpc_method = controller_name & "." & binding.name;
    params_model = binding.params_model.name;
    result_model = binding.result_model.name;
    params_schema = binding.params_model.model_json_schema;
    result_schema = binding.result_model.model_json_schema;
  }

  -- The loop of `describe_controller`, over what the generator yields.
  unfoldable pub describe_methods : Option String → Bindings S → Outcome (List RpcMethodDescriptor)
  unfolding describe_binding
  describe_methods name done = returned []
  describe_methods name (fails e) = raised e
  describe_methods name (yields binding rest) =
      let methods = describe_methods name rest in
      do
        controller ← read_name name "controller_name"
        described ← methods
        returned (describe_binding controller binding ∷ described)

-- `given or default`: an empty text counts as absent.
abbrev pub given_or : Option String → Outcome String → Outcome String
given_or none default = default
given_or (some given) default = if given == "" then default else returned given

unfoldable pub describe_controller :
    {S : Type 0} → Controller S → Option String → Option String → S → Outcome RpcServiceDescriptor
describe_controller c rpc schema s = do
  methods ← describe_methods (c.controller_name s) (iter_rpc_methods c s)
  service ← read_name (c.service_name s) "service_name"
  controller ← read_name (c.controller_name s) "controller_name"
  rpc_endpoint ← given_or rpc (rpc_endpoint_name c s)
  schema_endpoint ← given_or schema (schema_endpoint_name c s)
  returned (record {
    protocol = jsonrpc_2_0;
    service = service;
    controller = controller;
    rpc_endpoint = rpc_endpoint;
    schema_endpoint = schema_endpoint;
    methods = methods;
  })
