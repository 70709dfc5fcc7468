-- ===== src/Server/Exchanged.antt =====
-- One request of iox2_jsonrpc/iceoryx_server.py between its reception and its deletion.
use iox2_jsonrpc.Base.{ℕ, suc, ◌<◌, ◌≡◌, refl, none, some, All, length}
use iox2_jsonrpc.Python.Outcome.{Outcome, Action, returned}
use iox2_jsonrpc.Models.{JsonRpcRequest, JsonRpcResponse}
use iox2_jsonrpc.Endpoint.{ControllerRpcEndpoint, handle_bytes}
use iox2_jsonrpc.Helpers.Bytes.{Bytes, slice_to_bytes}
use iox2_jsonrpc.Helpers.RoundTrip.{slice_to_bytes-write}
use iox2_jsonrpc.Server.{
  Ports, finally, after_cleanup, send_response, serve_request, after_received, drain_server,
  rpc_response,
}

-- What iceoryx2 does with the request `xs` that is answered with `ys`, from the world `w` to `w'`: it is
-- received, memory of the length asked for is lent, what is sent has the same bytes, and the request
-- is deleted.
pub record Exchanged {W P A B R : Type 0} (ports : Ports W P A B R) (server : P) (xs ys : Bytes)
    (w w' : W) : Type 0 where
  pub w₁ : W
  pub w₂ : W
  pub w₃ : W
  pub w₄ : W
  pub active : A
  pub slice : B
  pub lent : B
  pub receives : ports.receive server w ≡ (returned (some active), w₁)
  pub payload : ports.payload active w₁ ≡ (returned slice, w₂)
  pub same_request : slice_to_bytes ports.memory slice ≡ returned xs
  pub loans : ports.loan_slice_uninit active (length ys) w₂ ≡ (returned lent, w₃)
  pub lent_length : ports.memory.len lent ≡ length ys
  pub sends :
      (b : B)
      → slice_to_bytes ports.memory b ≡ returned ys
      → ports.send (ports.assume_init b) w₃ ≡ (returned tt, w₄)
  pub deletes : ports.delete active w₄ ≡ (returned tt, w')

-- The loop ends when no request waits.
pub drain_server-emptied :
    {S W P A B R : Type 0} (ports : Ports W P A B R) (server : P) (w w' : W)
    → ports.receive server w ≡ (returned none, w')
    → (build : A → Action (S × W) Bytes) (fuel : ℕ) (s : S)
    → drain_server ports (suc fuel) server build (s, w) ≡ (returned tt, (s, w'))
unfolding drain_server after_received
drain_server-emptied ports server w w' h build fuel s = rw h refl

module _ {W P A B R : Type 0} (ports : Ports W P A B R) (server : P) (xs ys : Bytes) (w w' : W)
    (d : Exchanged ports server xs ys w w') where
  open d use {w₁, w₂, w₄, active}

  send_response-Exchanged :
      All (λ x. x < 256) ys → send_response ports active ys w₂ ≡ (returned tt, w₄)
  unfolding send_response
  send_response-Exchanged small =
      let (b, wrote, read) =
        slice_to_bytes-write ports.memory ports.assume_init d.lent ys d.lent_length small in
      rw (d.loans, wrote) (d.sends b read)

  module _ {S : Type 0} where
    -- One round of the loop.
    pub drain_server-Exchanged :
        (build : A → Action (S × W) Bytes) (fuel : ℕ) (s s' : S)
        → build active (s, w₁) ≡ (returned ys, (s', w₂))
        → All (λ x. x < 256) ys
        → drain_server ports (suc fuel) server build (s, w)
          ≡ drain_server ports fuel server build (s', w')
    unfolding drain_server after_received serve_request finally after_cleanup
    drain_server-Exchanged build fuel s s' built small =
        rw (d.receives, built, send_response-Exchanged small, d.deletes) refl

    -- What the round makes of the request is what the endpoint makes of its bytes.
    pub rpc_response-Exchanged :
        (parse_request : Bytes → Outcome JsonRpcRequest)
        (dump_response : JsonRpcResponse → Outcome Bytes) (endpoint : ControllerRpcEndpoint S)
        (s s' : S)
        → handle_bytes parse_request dump_response endpoint xs s ≡ (returned ys, s')
        → rpc_response ports parse_request dump_response endpoint active (s, w₁)
          ≡ (returned ys, (s', w₂))
    unfolding rpc_response
    rpc_response-Exchanged parse_request dump_response endpoint s s' h =
        rw (d.payload, d.same_request, h) refl
