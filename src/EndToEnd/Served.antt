-- ===== src/EndToEnd/Served.antt =====
-- A call of iox2_jsonrpc/iceoryx_registry.py over shared memory is answered by the endpoint that
-- iox2_jsonrpc/iceoryx_server.py serves.
mod Tests
use iox2_jsonrpc.Base.{ℕ, suc, ◌+◌, ◌<◌, String, ◌≡◌, Option, some, All}
use iox2_jsonrpc.Python.Value.{Value}
use iox2_jsonrpc.Python.Dict.{Dict}
use iox2_jsonrpc.Python.Outcome.{Outcome, Action, returned}
use iox2_jsonrpc.Models.{JsonRpcRequest, JsonRpcResponse}
use iox2_jsonrpc.Endpoint.{ControllerRpcEndpoint, handle}
use iox2_jsonrpc.Helpers.Bytes.{Bytes}
use iox2_jsonrpc.Registry.{DiscoveredRpcService, Iox2RpcRegistry, call, call_request}
use iox2_jsonrpc.Registry.Transport.{Transport, request_bytes}
use iox2_jsonrpc.Server.{Ports, drain_requests, rpc_response}
use iox2_jsonrpc.Server.Exchanged.{rpc_response-Exchanged}
use iox2_jsonrpc.EndToEnd.{handle_bytes-returned, call-exchanged}
use iox2_jsonrpc.EndToEnd.Delivery.{
  Delivery, with_turns, drain_server-Delivery, request_bytes-Delivery,
}

module _ {S W B R P K P' A B' R' : Type 0} (t : Transport W B R P K) (ports : Ports W P' A B' R')
    (parse_request : Bytes → Outcome JsonRpcRequest) (dump_request : JsonRpcRequest → Outcome Bytes)
    (parse_response : Bytes → Outcome JsonRpcResponse)
    (dump_response : JsonRpcResponse → Outcome Bytes) (endpoint : ControllerRpcEndpoint S)
    (server : P') (m n : ℕ) where
  -- The turn of the server: it drains its requests.
  abbrev pub serving : Action (S × W) (Unit {0})
  serving =
      drain_requests ports (suc (suc m)) (some server)
        (rpc_response ports parse_request dump_response endpoint)

  -- A call whose exchange of bytes runs against the server.
  abbrev pub served_call :
      {V : Type 0}
      → DiscoveredRpcService V K
      → String
      → Option (Dict Value)
      → ℕ
      → Action (Iox2RpcRegistry V K × (S × W)) JsonRpcResponse
  served_call service method params timeout s =
      call (request_bytes (with_turns t serving) (suc (suc n))) dump_request parse_response service
        method params timeout s

  -- If iceoryx2 delivers a request's bytes to the server, whose turn is while the client waits,
  -- and the response's bytes back in time, and both are written from and read as these messages,
  -- then a call returns what the endpoint answers to its request and leaves the controller as the
  -- endpoint does.
  pub served_call-handle :
      {V : Type 0} (service : DiscoveredRpcService V K) (client : K) (method : String)
      (params : Option (Dict Value)) (timeout : ℕ) (registry : Iox2RpcRegistry V K) (s s' : S)
      (w w' : W) (response : JsonRpcResponse) (raw_request raw_response : Bytes)
      → service.rpc_client ≡ some client
      → Delivery t ports client server raw_request raw_response timeout w w'
      → All (λ x. x < 256) raw_request
      → All (λ x. x < 256) raw_response
      → dump_request (call_request (registry.request_counter + 1) method params)
        ≡ returned raw_request
      → parse_request raw_request
        ≡ returned (call_request (registry.request_counter + 1) method params)
      → handle endpoint (call_request (registry.request_counter + 1) method params) s
        ≡ (returned response, s')
      → dump_response response ≡ returned raw_response
      → parse_response raw_response ≡ returned response
      → served_call service method params timeout (registry, (s, w)) ≡ (
        returned response,
        (record registry { request_counter = registry.request_counter + 1 }, (s', w')),
      )
  unfolding drain_requests
  served_call-handle service client method params timeout registry s s' w w' response rq rs c d
        small small' written read handled written' read' =
      let request = call_request (registry.request_counter + 1) method params in
      let bytes =
        handle_bytes-returned parse_request dump_response endpoint request s s' response rq rs read
          handled written' in
      let built =
        rpc_response-Exchanged ports server rq rs d.w₄ d.w₅ d.answered parse_request dump_response
          endpoint s s' bytes in
      let turn =
        drain_server-Delivery t ports client server rq rs timeout w w' d
          (rpc_response ports parse_request dump_response endpoint) m s s' built small' in
      call-exchanged (request_bytes (with_turns t serving) (suc (suc n))) dump_request
        parse_response service client method params timeout registry (s, w) (s', w') response rq rs
        c written
        (request_bytes-Delivery t ports client server rq rs timeout w w' d serving n s s' turn
          small)
        read'
