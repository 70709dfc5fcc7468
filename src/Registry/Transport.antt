-- ===== src/Registry/Transport.antt =====
-- `_request_bytes` of iox2_jsonrpc/iceoryx_registry.py: one request and the wait for its response.
pub mod Polling
use iox2_jsonrpc.Base.{ℕ, zero, suc, ◌+◌, false, Option, none, some, ltb, length, if◌then◌else◌}
use iox2_jsonrpc.Python.Outcome.{Exception, Action, returned, raised, error}
use iox2_jsonrpc.Python.Action.{lift, pure, raise, ◌>>=◌, ◌>>◌}
use iox2_jsonrpc.Helpers.Bytes.{Bytes, Memory, slice_to_bytes, write_bytes_to_uninit_slice}

-- What iceoryx2 and the clock do: `W` is the world, `B` shared memory, `R` a request that is ready to
-- be sent, `P` a pending response, `K` a client. Times are in milliseconds.
pub record Transport (W B R P K : Type 0) : Type 0 where
  pub memory : Memory B
  pub loan_slice_uninit : K → ℕ → Action W B
  pub assume_init : B → R
  pub send : R → Action W P
  pub receive : P → Action W (Option B)
  pub monotonic : W → ℕ
  pub node_wait : ℕ → Action W (Unit {0})

abbrev pub timeout_error : Exception
timeout_error = error "TimeoutError" "Timed out waiting for iceoryx2 response"

-- A marker of the model: the loop was given too little fuel. It is no exception of the program.
abbrev pub out_of_fuel : Exception
out_of_fuel = record { type_name = "OutOfFuel"; message = ""; is_exception = false }

module _ {W B R P K : Type 0} (t : Transport W B R P K) where
  open t use {memory, loan_slice_uninit, assume_init, send, receive, monotonic, node_wait}

  -- What follows `receive`: the return, or the wait and the next round.
  unfoldable pub after_receive : Action W Bytes → Option B → Action W Bytes
  after_receive next (some payload) w = (slice_to_bytes memory payload, w)
  after_receive next none w = (node_wait 10 >> next) w

  unfoldable pub poll_round : P → ℕ → Action W Bytes → Action W Bytes
  unfolding after_receive
  poll_round pending deadline next w =
      if ltb (monotonic w) deadline
      then (receive pending >>= after_receive next) w
      else (raised timeout_error, w)

  -- The loops; the inner one leaves after one `receive` in any case.
  unfoldable pub poll : ℕ → P → ℕ → Action W Bytes
  poll zero pending deadline w = (raised out_of_fuel, w)
  poll (suc fuel) pending deadline w =
      let next = poll fuel pending deadline in poll_round pending deadline next w

  unfoldable pub request_bytes : ℕ → K → Bytes → ℕ → Action W Bytes
  request_bytes fuel client payload timeout =
      loan_slice_uninit client (length payload) >>= λ request.
      lift (write_bytes_to_uninit_slice memory assume_init request payload) >>= λ sender.
      send sender >>= λ pending w. poll fuel pending (monotonic w + timeout) w
