-- ===== src/Server/Tests.antt =====
-- A small server of iox2_jsonrpc/iceoryx_server.py drains its requests.
use iox2_jsonrpc.Base.{arith, ap, ℕ, zero, suc, Option, none, some, List, [], ◌∷◌}
use iox2_jsonrpc.Python.Outcome.{Outcome, Action, returned, raised, error}
use iox2_jsonrpc.Models.{JsonRpcRequest, JsonRpcResponse}
use iox2_jsonrpc.Controller.{Controller}
use iox2_jsonrpc.Endpoint.{ControllerRpcEndpoint}
use iox2_jsonrpc.Helpers.ListMemory.{list_memory}
use iox2_jsonrpc.Server.{
  Ports, drain_requests, rpc_response, drain_server, serve_request, finally, after_cleanup,
  send_response,
}
use iox2_jsonrpc.Server.Finish.{Drains, Shrinks, drain_server-Drains}
use iox2_jsonrpc.Helpers.Bytes.{write_bytes_to_uninit_slice, write_from}
use iox2_jsonrpc.Server.Drain.{traced, log, EachDeleted, drain_rpc_requests-EachDeleted}

abbrev lamp : Controller ℕ
lamp = record {
  service_name = λ _. some "home";
  controller_name = λ _. some "lamp";
  members = λ _. [];
}

-- The world is the number of requests that wait; the deletion of the last one fails.
abbrev ports : Ports ℕ ℕ ℕ (List ℕ) (List ℕ)
ports = record {
  memory = list_memory;
  assume_init = λ b. b;
  receive = take;
  payload = λ a w. (returned (a ∷ []), w);
  loan_slice_uninit = λ a n w. (returned (0 ∷ []), w);
  send = λ r w. (returned tt, w);
  delete = remove;
}
  where
    take : ℕ → ℕ → Outcome (Option ℕ) × ℕ
    take server zero = (returned none, zero)
    take server (suc n) = (returned (some n), n)

    remove : ℕ → ℕ → Outcome (Unit {0}) × ℕ
    remove zero w = (raised (error "DeleteError" ""), w)
    remove (suc a) w = (returned tt, w)

abbrev refuse : List ℕ → Outcome JsonRpcRequest
refuse raw = raised (error "ValidationError" "")

abbrev one_byte : JsonRpcResponse → Outcome (List ℕ)
one_byte r = returned (9 ∷ [])

abbrev endpoint : ControllerRpcEndpoint ℕ
endpoint = record { controller = lamp; controller_name = "lamp" }

drain_rpc_requests-EachDeleted_example : EachDeleted (
    log
      (drain_requests
        (traced ports)
        9
        (some 1)
        (rpc_response (traced ports) refuse one_byte endpoint)
        (0, (3, []))).1)
drain_rpc_requests-EachDeleted_example =
    drain_rpc_requests-EachDeleted ports refuse one_byte endpoint 9 (some 1) 0 3

-- Requests whose deletion works, and a response that needs no reading.
abbrev queue : Ports ℕ ℕ ℕ (List ℕ) (List ℕ)
queue = record ports { delete = λ a w. (returned tt, w) }

abbrev fixed : ℕ → Action (ℕ × ℕ) (List ℕ)
fixed a q = (returned (9 ∷ []), q)

queue-Shrinks : Shrinks queue 1 fixed (λ w. w)
unfolding serve_request finally after_cleanup send_response write_bytes_to_uninit_slice write_from
queue-Shrinks s zero w' a q e g = absurd (cc e)
queue-Shrinks s (suc n) w' a q e g = omega (arith, ap (λ r. r.1) e, ap (λ r. r.1.1) g)

drain_server-Drains_example : Drains queue 1 fixed (0, 3) (drain_server queue 4 1 fixed (0, 3))
drain_server-Drains_example =
    drain_server-Drains queue 1 fixed (λ w. w) queue-Shrinks 4 0 3 (omega arith)
