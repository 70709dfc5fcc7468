-- ===== src/Models/Payload.antt =====
-- Which responses `JsonRpcResponse` of iox2_jsonrpc/models.py lets be built.
use iox2_jsonrpc.Base.{String, ◌≡◌, ◌⊎◌, ◌↔◌, Option, none, arith}
use iox2_jsonrpc.Python.Int.{ℤ}
use iox2_jsonrpc.Python.Value.{Value}
use iox2_jsonrpc.Python.Outcome.{returned, IfReturned}
use iox2_jsonrpc.Models.{
  JsonRpcId, JsonRpcErrorObject, JsonRpcResponse, v2_0, exactly_one_payload, make_response,
  assign_id, fail,
}

-- At most one of the two payloads is set.
abbrev pub IsValid : JsonRpcResponse → Type 0
IsValid r = (r.result ≡ Value.null) ⊎ (r.error ≡ none)

-- The response carries this id and at most one of a result and an error.
abbrev pub Answers : JsonRpcId → JsonRpcResponse → Type 0
Answers id r = (r.id ≡ id) × IsValid r

pub payload-Answers : (r : JsonRpcResponse) → IfReturned (Answers r.id) (exactly_one_payload r)
unfolding exactly_one_payload
payload-Answers r = ground arith

pub make_response-Answers :
    (id : JsonRpcId) (result : Value) (failure : Option JsonRpcErrorObject)
    → IfReturned (Answers id) (make_response id result failure)
unfolding make_response
make_response-Answers id result failure = payload-Answers _

pub fail-Answers :
    (id : JsonRpcId) (code : ℤ) (message : String) (details : Value)
    → IfReturned (Answers id) (fail id code message details)
unfolding fail
fail-Answers id code message details = make_response-Answers id Value.null _

-- The constructor returns a response with the given fields exactly when at most one of result and
-- error is set; a response with neither is accepted.
pub make_response-returns_iff :
    (id : JsonRpcId) (result : Value) (failure : Option JsonRpcErrorObject)
    → (make_response id result failure
        ≡ returned (record { jsonrpc = v2_0; id = id; result = result; error = failure }))
      ↔ ((result ≡ Value.null) ⊎ (failure ≡ none))
unfolding make_response
make_response-returns_iff id result failure = ground arith

-- Setting the id of a valid response succeeds and changes nothing else.
pub assign_id-IsValid :
    (r : JsonRpcResponse) (id : JsonRpcId)
    → IsValid r
    → assign_id r id ≡ returned (record r { id = id })
unfolding assign_id
assign_id-IsValid r id h = ground arith
