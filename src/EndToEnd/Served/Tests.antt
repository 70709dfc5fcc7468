-- ===== src/EndToEnd/Served/Tests.antt =====
-- A shared memory of one slot each way, and a call of the controller of EndToEnd/Tests.antt over it.
use iox2_jsonrpc.Base.{ℕ, ◌+◌, ◌≡◌, refl, Option, none, some, [], ◌∷◌, arith, eqb, if◌then◌else◌}
use iox2_jsonrpc.Python.Outcome.{Outcome, Action, returned, raised, error}
use iox2_jsonrpc.Models.{JsonRpcRequest, JsonRpcResponse}
use iox2_jsonrpc.Helpers.Bytes.{Bytes, slice_to_bytes, read_from}
use iox2_jsonrpc.Helpers.ListMemory.{list_memory}
use iox2_jsonrpc.Registry.{call_request}
use iox2_jsonrpc.Registry.Transport.{Transport}
use iox2_jsonrpc.Server.{Ports}
use iox2_jsonrpc.Server.Exchanged.{Exchanged}
use iox2_jsonrpc.EndToEnd.Delivery.{Delivery}
use iox2_jsonrpc.EndToEnd.Served.{served_call, served_call-handle}
use iox2_jsonrpc.EndToEnd.Tests.{endpoint, zeros, service, registry, reply, handled}

-- The request and the response under way, and the time.
pub record Slots : Type 0 where
  pub request : Option Bytes
  pub response : Option Bytes
  pub time : ℕ

abbrev keep_request : Outcome Bytes → Action Slots (Unit {0})
keep_request (returned bytes) w = (returned tt, record w { request = some bytes })
keep_request (raised e) w = (raised e, w)

abbrev keep_response : Outcome Bytes → Action Slots (Unit {0})
keep_response (returned bytes) w = (returned tt, record w { response = some bytes })
keep_response (raised e) w = (raised e, w)

abbrev transport : Transport Slots Bytes Bytes (Unit {0}) ℕ
transport = record {
  memory = list_memory;
  loan_slice_uninit = λ client n w. (returned (zeros n), w);
  assume_init = λ b. b;
  send = λ b. keep_request (slice_to_bytes list_memory b);
  receive = λ pending w. (returned w.response, record w { response = none });
  monotonic = λ w. w.time;
  node_wait = λ n w. (returned tt, record w { time = w.time + n });
}

abbrev ports : Ports Slots (Unit {0}) Bytes Bytes Bytes
ports = record {
  memory = list_memory;
  assume_init = λ b. b;
  receive = λ server w. (returned w.request, record w { request = none });
  payload = λ active w. (returned active, w);
  loan_slice_uninit = λ active n w. (returned (zeros n), w);
  send = λ b. keep_response (slice_to_bytes list_memory b);
  delete = λ active w. (returned tt, w);
}

abbrev slots : Option Bytes → Option Bytes → ℕ → Slots
slots request response time = record { request = request; response = response; time = time }

abbrev asked : Bytes
asked = 81 ∷ []

abbrev told : Bytes
told = 65 ∷ 66 ∷ []

answered : Exchanged ports tt asked told (slots (some asked) none 10) (slots none (some told) 10)
unfolding slice_to_bytes read_from
answered = record {
  w₁ = slots none none 10;
  w₂ = slots none none 10;
  w₃ = slots none none 10;
  w₄ = slots none (some told) 10;
  active = asked;
  slice = asked;
  lent = 0 ∷ 0 ∷ [];
  receives = refl;
  payload = refl;
  same_request = refl;
  loans = refl;
  lent_length = refl;
  sends = λ b h. rw h refl;
  deletes = refl;
}

delivery : Delivery transport ports 2 tt asked told 500 (slots none none 0) (slots none none 10)
unfolding slice_to_bytes read_from
delivery = record {
  w₁ = slots none none 0;
  w₂ = slots (some asked) none 0;
  w₃ = slots (some asked) none 0;
  w₄ = slots (some asked) none 10;
  w₅ = slots none (some told) 10;
  w₆ = slots none (some told) 10;
  lent = 0 ∷ [];
  pending = tt;
  back = told;
  loans = refl;
  lent_length = refl;
  sends = λ b h. rw h refl;
  nothing_yet = refl;
  waits = refl;
  answered = answered;
  no_more = refl;
  clock = omega arith;
  in_time = omega arith;
  receives_back = refl;
  same_response = refl;
}

-- Messages by their bytes: one request, one response.
abbrev read_request : Bytes → Outcome JsonRpcRequest
read_request (a ∷ []) =
    if eqb a 81
    then returned (call_request 5 "lamp.on" none)
    else raised (error "ValidationError" "")
read_request _ = raised (error "ValidationError" "")

abbrev read_response : Bytes → Outcome JsonRpcResponse
read_response (a ∷ b ∷ []) =
    if eqb a 65 then returned reply else raised (error "ValidationError" "")
read_response _ = raised (error "ValidationError" "")

served_call-handle_example :
    served_call transport ports read_request
      (λ r. returned asked)
      read_response
      (λ r. returned told)
      endpoint
      tt
      0
      0
      service
      "lamp.on"
      none
      500
      (registry, (0, slots none none 0))
    ≡ (returned reply, (record registry { request_counter = 5 }, (1, slots none none 10)))
served_call-handle_example =
    served_call-handle transport ports read_request (λ r. returned asked) read_response
      (λ r. returned told) endpoint tt 0 0 service 2 "lamp.on" none 500 registry 0 1
      (slots none none 0) (slots none none 10) reply asked told refl delivery (omega arith, tt)
      (omega arith, (omega arith, tt)) refl refl handled refl refl
