-- ===== src/Models.antt =====
-- iox2_jsonrpc/models.py: the JSON-RPC messages and the service descriptor.
pub mod Payload
use iox2_jsonrpc.Base.{
  String, Option, none, some, Bool, true, false, List, ◌&&◌, not, is_none, if◌then◌else◌,
}
use iox2_jsonrpc.Python.Int.{ℤ}
use iox2_jsonrpc.Python.Value.{Value, is_not_none, dict_of}
use iox2_jsonrpc.Python.Dict.{Dict}
use iox2_jsonrpc.Python.Outcome.{Outcome, returned, raised, error}

-- `Literal["2.0"]`
pub data JsonRpcVersion : Type 0 where
  v2_0 : JsonRpcVersion

-- `str | int | None`
pub data JsonRpcId : Type 0 where
  null : JsonRpcId
  text : String → JsonRpcId
  number : ℤ → JsonRpcId

pub record JsonRpcRequest : Type 0 where
  pub jsonrpc : JsonRpcVersion
  pub id : JsonRpcId
  pub method : String
  pub params : Option (Dict Value)

-- `details` is the field `data`, whose default `None` is `null`.
pub record JsonRpcErrorObject : Type 0 where
  pub code : ℤ
  pub message : String
  pub details : Value

-- A `result` that is `None` is `null`.
pub record JsonRpcResponse : Type 0 where
  pub jsonrpc : JsonRpcVersion
  pub id : JsonRpcId
  pub result : Value
  pub error : Option JsonRpcErrorObject

-- The validator that runs after the fields of a response are set, at construction and (since
-- `validate_assignment` is on) at each assignment to a field.
unfoldable pub exactly_one_payload : JsonRpcResponse → Outcome JsonRpcResponse
exactly_one_payload response =
    if is_not_none response.result && not (is_none response.error)
    then raised (error "ValidationError" "JSON-RPC response cannot contain both result and error")
    else returned response

-- `JsonRpcResponse(id=id, result=result, error=failure)`
unfoldable pub make_response :
    JsonRpcId → Value → Option JsonRpcErrorObject → Outcome JsonRpcResponse
unfolding exactly_one_payload
make_response id result failure =
    exactly_one_payload (record { jsonrpc = v2_0; id = id; result = result; error = failure })

-- `response.id = id`
unfoldable pub assign_id : JsonRpcResponse → JsonRpcId → Outcome JsonRpcResponse
unfolding exactly_one_payload
assign_id response id = exactly_one_payload (record response { id = id })

-- What a method gives back: a Pydantic model, by the dictionary that `model_dump` makes of it, or
-- any other value.
pub data Returned : Type 0 where
  model_instance : Dict Value → Returned
  plain : Value → Returned

abbrev pub dumped : Returned → Value
dumped (model_instance fields) = dict_of fields
dumped (plain v) = v

-- `JsonRpcResponse.ok`
unfoldable pub ok : JsonRpcId → Returned → Outcome JsonRpcResponse
unfolding make_response
ok id result = make_response id (dumped result) none

-- `JsonRpcResponse.fail`; `null` is the default of `details`.
unfoldable pub fail : JsonRpcId → ℤ → String → Value → Outcome JsonRpcResponse
unfolding make_response
fail id code message details =
    make_response id Value.null
      (some (record { code = code; message = message; details = details }))

pub record RpcMethodDescriptor : Type 0 where
  pub name : String
  pub jsonrpc_method : String
  pub params_model : String
  pub result_model : String
  pub params_schema : Dict Value
  pub result_schema : Dict Value

-- `Literal["jsonrpc-2.0"]`
pub data DescriptorProtocol : Type 0 where
  jsonrpc_2_0 : DescriptorProtocol

pub record RpcServiceDescriptor : Type 0 where
  pub protocol : DescriptorProtocol
  pub service : String
  pub controller : String
  pub rpc_endpoint : String
  pub schema_endpoint : String
  pub methods : List RpcMethodDescriptor
