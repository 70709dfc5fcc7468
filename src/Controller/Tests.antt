-- ===== src/Controller/Tests.antt =====
-- A response of iox2_jsonrpc/models.py whose id is assigned.
use iox2_jsonrpc.Base.{◌≡◌, inr, refl, none}
use iox2_jsonrpc.Python.Int.{pos}
use iox2_jsonrpc.Python.Value.{Value}
use iox2_jsonrpc.Python.Outcome.{returned}
use iox2_jsonrpc.Models.{v2_0, JsonRpcId, JsonRpcResponse, assign_id}
use iox2_jsonrpc.Models.Payload.{assign_id-IsValid}

-- A response with neither payload.
abbrev empty_response : JsonRpcResponse
empty_response = record { jsonrpc = v2_0; id = JsonRpcId.null; result = Value.null; error = none }

assign_id-IsValid_example :
    assign_id empty_response (JsonRpcId.number (pos 1))
    ≡ returned (record empty_response { id = JsonRpcId.number (pos 1) })
assign_id-IsValid_example = assign_id-IsValid empty_response (JsonRpcId.number (pos 1)) (inr refl)
