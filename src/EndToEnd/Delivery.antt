-- ===== src/EndToEnd/Delivery.antt =====
-- A call of iox2_jsonrpc/iceoryx_registry.py over shared memory, served by the loop of
-- iox2_jsonrpc/iceoryx_server.py: the server has its turn while the client waits.
use iox2_jsonrpc.Base.{
  ℕ, suc, ◌+◌, ◌<◌, ◌≤◌, ◌≡◌, refl, true, none, some, All, length, ltb, lt→ltb, arith, ◌∙◌,
}
use iox2_jsonrpc.Python.Outcome.{Action, returned}
use iox2_jsonrpc.Python.Action.{◌>>◌}
use iox2_jsonrpc.Helpers.Bytes.{Bytes, slice_to_bytes}
use iox2_jsonrpc.Helpers.RoundTrip.{slice_to_bytes-write}
use iox2_jsonrpc.Registry.Transport.{Transport, request_bytes, poll, poll_round, after_receive}
use iox2_jsonrpc.Server.{Ports, on_world, drain_server}
use iox2_jsonrpc.Server.Exchanged.{Exchanged, drain_server-Exchanged, drain_server-emptied}

-- What iceoryx2 and the clock do in one exchange of the request `xs` for the response `ys`, from the
-- world `w` to `w'`: memory of the length asked for is lent, what is sent is received once by the
-- other side with the same bytes, and the time is not over when the client looks again.
pub record Delivery {W B R P K P' A B' R' : Type 0} (t : Transport W B R P K)
    (ports : Ports W P' A B' R') (client : K) (server : P') (xs ys : Bytes) (timeout : ℕ) (w w' : W)
    : Type 0 where
  pub w₁ : W
  pub w₂ : W
  pub w₃ : W
  pub w₄ : W
  pub w₅ : W
  pub w₆ : W
  pub lent : B
  pub pending : P
  pub back : B
  pub loans : t.loan_slice_uninit client (length xs) w ≡ (returned lent, w₁)
  pub lent_length : t.memory.len lent ≡ length xs
  pub sends :
      (b : B)
      → slice_to_bytes t.memory b ≡ returned xs
      → t.send (t.assume_init b) w₁ ≡ (returned pending, w₂)
  pub nothing_yet : t.receive pending w₂ ≡ (returned none, w₃)
  pub waits : t.node_wait 10 w₃ ≡ (returned tt, w₄)
  pub answered : Exchanged ports server xs ys w₄ w₅
  pub no_more : ports.receive server w₅ ≡ (returned none, w₆)
  pub clock : t.monotonic w₂ ≤ t.monotonic w₆
  pub in_time : t.monotonic w₆ < t.monotonic w₂ + timeout
  pub receives_back : t.receive pending w₆ ≡ (returned (some back), w')
  pub same_response : slice_to_bytes t.memory back ≡ returned ys

-- A client whose waits are the turns of another process.
abbrev pub with_turns :
    {S W B R P K : Type 0}
    → Transport W B R P K
    → Action (S × W) (Unit {0})
    → Transport (S × W) B R P K
with_turns t turn = record {
  memory = t.memory;
  loan_slice_uninit = λ client n. on_world (t.loan_slice_uninit client n);
  assume_init = t.assume_init;
  send = λ request. on_world (t.send request);
  receive = λ pending. on_world (t.receive pending);
  monotonic = λ sw. t.monotonic sw.1;
  node_wait = λ n. on_world (t.node_wait n) >> turn;
}

module _ {S W B R P K P' A B' R' : Type 0} (t : Transport W B R P K) (ports : Ports W P' A B' R')
    (client : K) (server : P') (xs ys : Bytes) (timeout : ℕ) (w w' : W)
    (d : Delivery t ports client server xs ys timeout w w') where
  open d use {w₄, w₆}

  -- One turn of the server: it receives the request, answers it, and finds no other.
  pub drain_server-Delivery :
      (build : A → Action (S × W) Bytes) (fuel : ℕ) (s s' : S)
      → build d.answered.active (s, d.answered.w₁) ≡ (returned ys, (s', d.answered.w₂))
      → All (λ x. x < 256) ys
      → drain_server ports (suc (suc fuel)) server build (s, w₄) ≡ (returned tt, (s', w₆))
  drain_server-Delivery build fuel s s' built small =
      drain_server-Exchanged ports server xs ys w₄ d.w₅ d.answered build (suc fuel) s s' built small
      ∙ drain_server-emptied ports server d.w₅ w₆ d.no_more build fuel s'

  -- The client sends the request, waits once, and has the response.
  pub request_bytes-Delivery :
      (turn : Action (S × W) (Unit {0})) (fuel : ℕ) (s s' : S)
      → turn (s, w₄) ≡ (returned tt, (s', w₆))
      → All (λ x. x < 256) xs
      → request_bytes (with_turns t turn) (suc (suc fuel)) client xs timeout (s, w)
        ≡ (returned ys, (s', w'))
  unfolding request_bytes poll poll_round after_receive
  request_bytes-Delivery turn fuel s s' h small =
      let (b, wrote, read) =
        slice_to_bytes-write t.memory t.assume_init d.lent xs d.lent_length small in
      let now : ltb (t.monotonic d.w₂) (t.monotonic d.w₂ + timeout) ≡ true =
        lt→ltb _ _ (omega (arith, d.clock, d.in_time)) in
      let later : ltb (t.monotonic d.w₆) (t.monotonic d.w₂ + timeout) ≡ true =
        lt→ltb _ _ d.in_time in
      rw
        (
          d.loans,
          wrote,
          d.sends b read,
          now,
          d.nothing_yet,
          d.waits,
          h,
          later,
          d.receives_back,
          d.same_response,
        )
        refl
