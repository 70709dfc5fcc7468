-- ===== src/EndToEnd/Backlog.antt =====
-- The requests that wait when iox2_jsonrpc/iceoryx_server.py drains them, and what the controller comes
-- to.
mod Tests
use iox2_jsonrpc.Base.{
  ℕ, zero, suc, ◌<◌, ◌≡◌, refl, ap, ◌∙◌, none, some, List, [], ◌∷◌, map, length, All, arith,
}
use iox2_jsonrpc.Python.Outcome.{Outcome, returned}
use iox2_jsonrpc.Models.{JsonRpcRequest, JsonRpcResponse}
use iox2_jsonrpc.Endpoint.{ControllerRpcEndpoint, handle}
use iox2_jsonrpc.Endpoint.Series.{handle_each}
use iox2_jsonrpc.Helpers.Bytes.{Bytes}
use iox2_jsonrpc.Server.{Ports, drain_requests, drain_server, rpc_response}
use iox2_jsonrpc.Server.Exchanged.{
  Exchanged, drain_server-emptied, drain_server-Exchanged, rpc_response-Exchanged,
}
use iox2_jsonrpc.EndToEnd.{handle_bytes-returned}

module _ {W P A B R : Type 0} (ports : Ports W P A B R) (server : P)
    (parse_request : Bytes → Outcome JsonRpcRequest)
    (dump_response : JsonRpcResponse → Outcome Bytes) where
  -- The server receives these requests, sends these responses, and then finds no request.
  pub data Backlog : List JsonRpcRequest → List JsonRpcResponse → W → W → Type 0 where
    emptied : (w w' : W) → ports.receive server w ≡ (returned none, w') → Backlog [] [] w w'
    waiting :
        (request : JsonRpcRequest) (response : JsonRpcResponse) (requests : List JsonRpcRequest)
        (responses : List JsonRpcResponse) (xs ys : Bytes) (w w₁ w' : W)
        → Exchanged ports server xs ys w w₁
        → parse_request xs ≡ returned request
        → dump_response response ≡ returned ys
        → All (λ y. y < 256) ys
        → Backlog requests responses w₁ w'
        → Backlog (request ∷ requests) (response ∷ responses) w w'

  module _ {S : Type 0} (endpoint : ControllerRpcEndpoint S) where
    drain_server-handle_each :
        (fuel : ℕ) (requests : List JsonRpcRequest) (responses : List JsonRpcResponse) (w w' : W)
        (s : S)
        → length requests < fuel
        → Backlog requests responses w w'
        → (handle_each endpoint requests s).0 ≡ map returned responses
        → drain_server ports fuel server
            (rpc_response ports parse_request dump_response endpoint)
            (s, w)
          ≡ (returned tt, ((handle_each endpoint requests s).1, w'))
    unfolding handle_each
    drain_server-handle_each zero requests responses w w' s enough backlog answered =
        elim enough [ ]
    drain_server-handle_each (suc fuel) _ _ w w' s enough (emptied _ _ h) answered =
        drain_server-emptied ports server w w' h _ fuel s
    drain_server-handle_each (suc fuel) _ _ w w' s enough
          (waiting request response requests responses xs ys _ w₁ _ e read written small rest)
          answered =
        let s' = (handle endpoint request s).1 in
        let replied : (handle endpoint request s).0 ≡ returned response = cc in
        let replies : (handle_each endpoint requests s').0 ≡ map returned responses = cc in
        let bytes =
          handle_bytes-returned parse_request dump_response endpoint request s s' response xs ys
            read (ap (λ r. (r, s')) replied) written in
        drain_server-Exchanged ports server xs ys w w₁ e _ fuel s s'
          (rpc_response-Exchanged ports server xs ys w w₁ e parse_request dump_response endpoint s
            s' bytes)
          small
        ∙ drain_server-handle_each fuel requests responses w₁ w' s' (omega (arith, enough)) rest
            replies

    -- If the server receives these requests one after another and then finds none, each one's bytes
    -- are read as it, and the endpoint answers them with responses whose bytes are sent back, then
    -- draining with more fuel than there are requests returns, and leaves the controller as handling
    -- the requests one after another does.
    pub drain_requests-handle_each :
        (fuel : ℕ) (requests : List JsonRpcRequest) (responses : List JsonRpcResponse) (w w' : W)
        (s : S)
        → length requests < fuel
        → Backlog requests responses w w'
        → (handle_each endpoint requests s).0 ≡ map returned responses
        → drain_requests ports fuel
            (some server)
            (rpc_response ports parse_request dump_response endpoint)
            (s, w)
          ≡ (returned tt, ((handle_each endpoint requests s).1, w'))
    unfolding drain_requests
    drain_requests-handle_each = drain_server-handle_each
