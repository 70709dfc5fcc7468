-- ===== src/EndToEnd/Backlog/Tests.antt =====
-- Two requests that wait for the controller of EndToEnd/Tests.antt.
use iox2_jsonrpc.Base.{
  ℕ, ◌≡◌, refl, ap, Option, none, some, List, [], ◌∷◌, ◌++◌, startswith, removeprefix, arith, ltb,
  true,
}
use iox2_jsonrpc.Python.Int.{pos}
use iox2_jsonrpc.Python.Value.{dict_of}
use iox2_jsonrpc.Python.Outcome.{Outcome, Action, returned, raised, error}
use iox2_jsonrpc.Models.{v2_0, JsonRpcId, JsonRpcRequest, JsonRpcResponse}
use iox2_jsonrpc.Controller.{iter_rpc_methods}
use iox2_jsonrpc.Endpoint.{dispatch, invoke, answer, handle}
use iox2_jsonrpc.Endpoint.Series.{handle_each}
use iox2_jsonrpc.Helpers.Bytes.{Bytes, slice_to_bytes, read_from}
use iox2_jsonrpc.Helpers.ListMemory.{list_memory}
use iox2_jsonrpc.Registry.{call_request}
use iox2_jsonrpc.Server.{Ports, drain_requests, rpc_response}
use iox2_jsonrpc.Server.Exchanged.{Exchanged}
use iox2_jsonrpc.EndToEnd.Backlog.{Backlog, emptied, waiting, drain_requests-handle_each}
use iox2_jsonrpc.EndToEnd.Tests.{endpoint, zeros}

-- The requests that wait, and the responses sent.
pub record Mail : Type 0 where
  pub requests : List Bytes
  pub responses : List Bytes

abbrev take_request : List Bytes → List Bytes → Outcome (Option Bytes) × Mail
take_request [] sent = (returned none, record { requests = []; responses = sent })
take_request (xs ∷ rest) sent = (returned (some xs), record { requests = rest; responses = sent })

abbrev keep_response : Outcome Bytes → Action Mail (Unit {0})
keep_response (returned ys) w = (returned tt, record w { responses = w.responses ++ (ys ∷ []) })
keep_response (raised e) w = (raised e, w)

abbrev ports : Ports Mail (Unit {0}) Bytes Bytes Bytes
ports = record {
  memory = list_memory;
  assume_init = λ b. b;
  receive = λ server w. take_request w.requests w.responses;
  payload = λ active w. (returned active, w);
  loan_slice_uninit = λ active n w. (returned (zeros n), w);
  send = λ b. keep_response (slice_to_bytes list_memory b);
  delete = λ active w. (returned tt, w);
}

-- A request and a response are written as their ids.
abbrev lamp_on : ℕ → JsonRpcRequest
lamp_on n = call_request n "lamp.on" none

abbrev done : ℕ → JsonRpcResponse
done n = record { jsonrpc = v2_0; id = JsonRpcId.number (pos n); result = dict_of []; error = none }

abbrev read_request : Bytes → Outcome JsonRpcRequest
read_request (n ∷ []) = returned (lamp_on n)
read_request _ = raised (error "ValidationError" "")

abbrev write_id : JsonRpcId → Outcome Bytes
write_id (JsonRpcId.number (pos n)) = returned (n ∷ [])
write_id _ = raised (error "PydanticSerializationError" "")

abbrev write_response : JsonRpcResponse → Outcome Bytes
write_response r = write_id r.id

abbrev mail : List Bytes → List Bytes → Mail
mail requests responses = record { requests = requests; responses = responses }

exchanged :
    (n : ℕ) (rest sent : List Bytes)
    → ltb n 256 ≡ true
    → Exchanged ports tt
        (n ∷ [])
        (n ∷ [])
        (mail ((n ∷ []) ∷ rest) sent)
        (mail rest (sent ++ ((n ∷ []) ∷ [])))
unfolding slice_to_bytes read_from
exchanged n rest sent small = record {
  w₁ = mail rest sent;
  w₂ = mail rest sent;
  w₃ = mail rest sent;
  w₄ = mail rest (sent ++ ((n ∷ []) ∷ []));
  active = n ∷ [];
  slice = n ∷ [];
  lent = 0 ∷ [];
  receives = refl;
  payload = refl;
  same_request = rw small refl;
  loans = refl;
  lent_length = refl;
  sends = λ b h. rw h refl;
  deletes = refl;
}

backlog :
    Backlog ports tt read_request write_response
      (lamp_on 5 ∷ lamp_on 6 ∷ [])
      (done 5 ∷ done 6 ∷ [])
      (mail ((5 ∷ []) ∷ (6 ∷ []) ∷ []) [])
      (mail [] ((5 ∷ []) ∷ (6 ∷ []) ∷ []))
backlog =
    waiting (lamp_on 5) (done 5) (lamp_on 6 ∷ []) (done 6 ∷ []) (5 ∷ []) (5 ∷ []) _ _ _
      (exchanged 5 ((6 ∷ []) ∷ []) [] refl) refl refl (omega arith, tt)
      (waiting (lamp_on 6) (done 6) [] [] (6 ∷ []) (6 ∷ []) _ _ _
        (exchanged 6 [] ((5 ∷ []) ∷ []) refl) refl refl (omega arith, tt) (emptied _ _ refl))

both_done :
    handle_each endpoint (lamp_on 5 ∷ lamp_on 6 ∷ []) 0
    ≡ (returned (done 5) ∷ returned (done 6) ∷ [], 2)
unfolding handle_each handle dispatch invoke answer iter_rpc_methods startswith removeprefix
    call_request
both_done = refl

drain_requests-handle_each_example :
    drain_requests ports 3
      (some tt)
      (rpc_response ports read_request write_response endpoint)
      (0, mail ((5 ∷ []) ∷ (6 ∷ []) ∷ []) [])
    ≡ (
      returned tt,
      ((handle_each endpoint (lamp_on 5 ∷ lamp_on 6 ∷ []) 0).1, mail [] ((5 ∷ []) ∷ (6 ∷ []) ∷ [])),
    )
drain_requests-handle_each_example =
    drain_requests-handle_each ports tt read_request write_response endpoint 3
      (lamp_on 5 ∷ lamp_on 6 ∷ []) (done 5 ∷ done 6 ∷ []) (mail ((5 ∷ []) ∷ (6 ∷ []) ∷ []) [])
      (mail [] ((5 ∷ []) ∷ (6 ∷ []) ∷ [])) 0 (omega arith) backlog (ap (λ r. r.0) both_done)
