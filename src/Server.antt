-- ===== src/Server.antt =====
-- `Iox2JsonRpcServer` of iox2_jsonrpc/iceoryx_server.py: its requests. What is printed is left out.
pub mod Attributes
pub mod Drain
pub mod Exchanged
pub mod Finish
pub mod Life
mod Tests
use iox2_jsonrpc.Base.{ℕ, zero, suc, String, Option, none, some, length}
use iox2_jsonrpc.Python.Outcome.{Exception, Outcome, Action, returned, raised}
use iox2_jsonrpc.Python.Action.{pure, raise, lift, continue, ◌>>=◌, ◌>>◌}
use iox2_jsonrpc.Models.{JsonRpcRequest, JsonRpcResponse, RpcServiceDescriptor}
use iox2_jsonrpc.Helpers.Bytes.{Bytes, Memory, slice_to_bytes, write_bytes_to_uninit_slice}
use iox2_jsonrpc.Endpoint.{ControllerRpcEndpoint, handle_bytes}
use iox2_jsonrpc.Registry.Transport.{out_of_fuel}

-- iceoryx2's server ports (`P`) and active requests (`A`), over shared memory (`B`) and responses that
-- are ready to be sent (`R`); `W` is the world.
pub record Ports (W P A B R : Type 0) : Type 0 where
  pub memory : Memory B
  pub assume_init : B → R
  pub receive : P → Action W (Option A)
  pub payload : A → Action W B
  pub loan_slice_uninit : A → ℕ → Action W B
  pub send : R → Action W (Unit {0})
  pub delete : A → Action W (Unit {0})

-- `finally`: the exception of the clean-up, if there is one, replaces what the body ended with.
unfoldable pub after_cleanup : {A : Type 0} → Outcome A → Outcome (Unit {0}) → Outcome A
after_cleanup o (returned _) = o
after_cleanup o (raised e) = raised e

unfoldable pub finally : {Q A : Type 0} → Action Q A → Action Q (Unit {0}) → Action Q A
unfolding after_cleanup
finally body cleanup q = let (o, q₁) = body q in let (c, q₂) = cleanup q₁ in (after_cleanup o c, q₂)

-- The state of the server's loop: the controller's, and the world.
abbrev pub on_world : {S W A : Type 0} → Action W A → Action (S × W) A
on_world act (s, w) = let (o, w') = act w in (o, (s, w'))

abbrev pub on_controller : {S W A : Type 0} → Action S A → Action (S × W) A
on_controller act (s, w) = let (o, s') = act s in (o, (s', w))

-- `dump_descriptor` is the descriptor's JSON with an indent of 2.
unfoldable pub schema_response :
    {Q A : Type 0}
    → (RpcServiceDescriptor → Outcome Bytes)
    → RpcServiceDescriptor
    → A
    → Action Q Bytes
schema_response dump_descriptor descriptor active_request = lift (dump_descriptor descriptor)

module _ {W P A B R : Type 0} (ports : Ports W P A B R) where
  open ports use {memory, assume_init, loan_slice_uninit, send}

  unfoldable pub send_response : A → Bytes → Action W (Unit {0})
  send_response active_request bytes =
      loan_slice_uninit active_request (length bytes) >>= λ response.
      lift (write_bytes_to_uninit_slice memory assume_init response bytes) >>= λ sender. send sender

module _ {S W P A B R : Type 0} (ports : Ports W P A B R) where
  open ports use {memory, receive, payload, delete}

  -- The body of the loop for one request.
  unfoldable pub serve_request : (A → Action (S × W) Bytes) → A → Action (S × W) (Unit {0})
  serve_request build_response active_request =
      finally
        (build_response active_request >>= λ bytes.
          on_world (send_response ports active_request bytes))
        (on_world (delete active_request))

  unfoldable pub after_received :
      (A → Action (S × W) Bytes) → Action (S × W) (Unit {0}) → Option A → Action (S × W) (Unit {0})
  after_received build_response next none = pure tt
  after_received build_response next (some active_request) =
      serve_request build_response active_request >> next

  unfoldable pub drain_server : ℕ → P → (A → Action (S × W) Bytes) → Action (S × W) (Unit {0})
  drain_server zero server build_response = raise out_of_fuel
  drain_server (suc fuel) server build_response =
      let next = drain_server fuel server build_response in
      on_world (receive server) >>= after_received build_response next

  unfoldable pub drain_requests :
      ℕ → Option P → (A → Action (S × W) Bytes) → Action (S × W) (Unit {0})
  drain_requests fuel none build_response = pure tt
  drain_requests fuel (some server) build_response = drain_server fuel server build_response

  unfoldable pub rpc_response :
      (Bytes → Outcome JsonRpcRequest)
      → (JsonRpcResponse → Outcome Bytes)
      → ControllerRpcEndpoint S
      → A
      → Action (S × W) Bytes
  rpc_response parse_request dump_response endpoint active_request =
      on_world (payload active_request) >>= λ slice. lift (slice_to_bytes memory slice) >>= λ bytes.
      on_controller (handle_bytes parse_request dump_response endpoint bytes)
