-- ===== src/EndToEnd.antt =====
-- A call of iox2_jsonrpc/iceoryx_registry.py whose bytes reach iox2_jsonrpc/endpoint.py, as they do
-- when the server's loop drains its requests.
pub mod Backlog
pub mod Delivery
pub mod Served
mod Tests
use iox2_jsonrpc.Base.{ℕ, ◌+◌, String, ◌≡◌, refl, ap, ◌∙◌, Option, some}
use iox2_jsonrpc.Python.Value.{Value}
use iox2_jsonrpc.Python.Dict.{Dict}
use iox2_jsonrpc.Python.Outcome.{Outcome, Action, returned, ◌>>=◌}
use iox2_jsonrpc.Models.{JsonRpcRequest, JsonRpcResponse}
use iox2_jsonrpc.Endpoint.{ControllerRpcEndpoint, handle, handle_bytes, answer_parsed}
use iox2_jsonrpc.Registry.{
  DiscoveredRpcService, Iox2RpcRegistry, call, call_client, call_request, exchange,
  exchange_written,
}

-- The bytes of a request that `handle` answers become the bytes of the response.
pub handle_bytes-returned :
    {S Bytes : Type 0} (parse_request : Bytes → Outcome JsonRpcRequest)
    (dump_response : JsonRpcResponse → Outcome Bytes) (endpoint : ControllerRpcEndpoint S)
    (r : JsonRpcRequest) (s s' : S) (response : JsonRpcResponse) (raw_request raw_response : Bytes)
    → parse_request raw_request ≡ returned r
    → handle endpoint r s ≡ (returned response, s')
    → dump_response response ≡ returned raw_response
    → handle_bytes parse_request dump_response endpoint raw_request s ≡ (returned raw_response, s')
unfolding handle_bytes answer_parsed
handle_bytes-returned parse_request dump_response endpoint r s s' response rq rs p h d' =
    rw (p, h, d') refl

-- A call whose request is written and exchanged for a response that can be read.
pub call-exchanged :
    {V K Bytes W : Type 0} (request_bytes : K → Bytes → ℕ → Action W Bytes)
    (dump_request : JsonRpcRequest → Outcome Bytes)
    (parse_response : Bytes → Outcome JsonRpcResponse) (service : DiscoveredRpcService V K)
    (client : K) (method : String) (params : Option (Dict Value)) (timeout : ℕ)
    (registry : Iox2RpcRegistry V K) (w w' : W) (response : JsonRpcResponse)
    (raw_request raw_response : Bytes)
    → service.rpc_client ≡ some client
    → dump_request (call_request (registry.request_counter + 1) method params)
      ≡ returned raw_request
    → request_bytes client raw_request timeout w ≡ (returned raw_response, w')
    → parse_response raw_response ≡ returned response
    → call request_bytes dump_request parse_response service method params timeout (registry, w) ≡ (
      returned response,
      (record registry { request_counter = registry.request_counter + 1 }, w'),
    )
unfolding call call_client exchange exchange_written
call-exchanged request_bytes dump_request parse_response service client method params timeout
      registry w w' response rq rs c d e p =
    ap
      (λ k.
        call_client request_bytes dump_request parse_response k service method params timeout
          (registry, w))
      c
    ∙ rw (d, e, p) refl

module _ {S K Bytes : Type 0} (parse_request : Bytes → Outcome JsonRpcRequest)
    (dump_request : JsonRpcRequest → Outcome Bytes)
    (parse_response : Bytes → Outcome JsonRpcResponse)
    (dump_response : JsonRpcResponse → Outcome Bytes) (endpoint : ControllerRpcEndpoint S) where
  -- The transport gives the bytes to the endpoint and brings its answer back.
  abbrev pub direct_call :
      {V : Type 0}
      → DiscoveredRpcService V K
      → String
      → Option (Dict Value)
      → ℕ
      → Iox2RpcRegistry V K × S
      → Outcome JsonRpcResponse × (Iox2RpcRegistry V K × S)
  direct_call service method params timeout s =
      call (λ client raw timeout. handle_bytes parse_request dump_response endpoint raw)
        dump_request parse_response service method params timeout s

  -- If the request and the response survive being written and read, a call through an opened client
  -- gives the response that the endpoint makes of the request with the registry's next id, and leaves
  -- the controller's state as the endpoint leaves it.
  pub direct_call-handle :
      {V : Type 0} (service : DiscoveredRpcService V K) (client : K) (method : String)
      (params : Option (Dict Value)) (timeout : ℕ) (registry : Iox2RpcRegistry V K) (s s' : S)
      (response : JsonRpcResponse) (raw_request raw_response : Bytes)
      → service.rpc_client ≡ some client
      → dump_request (call_request (registry.request_counter + 1) method params)
        ≡ returned raw_request
      → parse_request raw_request
        ≡ returned (call_request (registry.request_counter + 1) method params)
      → handle endpoint (call_request (registry.request_counter + 1) method params) s
        ≡ (returned response, s')
      → dump_response response ≡ returned raw_response
      → parse_response raw_response ≡ returned response
      → direct_call service method params timeout (registry, s) ≡ (
        returned response,
        (record registry { request_counter = registry.request_counter + 1 }, s'),
      )
  direct_call-handle service client method params timeout registry s s' response rq rs c d p h d'
        p' =
      call-exchanged (λ client raw timeout. handle_bytes parse_request dump_response endpoint raw)
        dump_request parse_response service client method params timeout registry s s' response rq
        rs c d
        (handle_bytes-returned parse_request dump_response endpoint
          (call_request (registry.request_counter + 1) method params) s s' response rq rs p h d')
        p'
