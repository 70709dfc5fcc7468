-- ===== src/Registry/Ids.antt =====
-- The ids of the requests that a registry of iox2_jsonrpc/iceoryx_registry.py sends.
use iox2_jsonrpc.Base.{
  ℕ, ◌+◌, ◌≤◌, String, ◌≡◌, refl, Option, none, some, List, [], ◌∷◌, arith, inl, inr, ◌⊎◌,
}
use iox2_jsonrpc.Python.Int.{pos}
use iox2_jsonrpc.Python.Value.{Value}
use iox2_jsonrpc.Python.Dict.{Dict}
use iox2_jsonrpc.Python.Outcome.{Outcome, Action, returned, raised}
use iox2_jsonrpc.Models.{JsonRpcId, JsonRpcRequest, JsonRpcResponse}
use iox2_jsonrpc.Registry.{
  DiscoveredRpcService, Iox2RpcRegistry, call, call_client, call_request, exchange_written,
}

abbrev pub Log : Type 0
Log = List JsonRpcRequest

abbrev pub Call : Type 0 → Type 0 → Type 0
Call V K = DiscoveredRpcService V K × String × Option (Dict Value) × ℕ

-- What travels: a request, or the raw response `B` to one.
abbrev pub Wire : Type 0 → Type 0
Wire B = JsonRpcRequest ⊎ B

-- Writing a request may raise.
abbrev pub written : {B : Type 0} → Outcome (Unit {0}) → JsonRpcRequest → Outcome (Wire B)
written (returned _) request = returned (inl request)
written (raised e) request = raised e

-- A world that records the requests sent, the last one first; what else happens is `reply`.
abbrev pub recorded :
    {K B : Type 0}
    → (K → JsonRpcRequest → ℕ → Log → Outcome (Wire B))
    → K
    → Wire B
    → ℕ
    → Action Log (Wire B)
recorded reply client (inl request) timeout log = (reply client request timeout log, request ∷ log)
recorded reply client (inr raw) timeout log = (returned (inr raw), log)

-- Every id is a number from 1 to `n`, and each one is less than those of the later requests.
abbrev pub IdsTo : ℕ → Log → Type 0
IdsTo n [] = Unit
IdsTo n (r ∷ log) = (k : ℕ) × (r.id ≡ JsonRpcId.number (pos (k + 1))) × (k + 1 ≤ n) × IdsTo k log

IdsTo-mono : (m n : ℕ) (log : Log) → m ≤ n → IdsTo m log → IdsTo n log
IdsTo-mono m n [] h ids = tt
IdsTo-mono m n (r ∷ log) h (k, e, le, ids) = (k, e, omega arith, ids)

exchange_written-IdsTo :
    {K B : Type 0} (reply : K → JsonRpcRequest → ℕ → Log → Outcome (Wire B))
    (dump : JsonRpcRequest → Outcome (Wire B)) (parse : Wire B → Outcome JsonRpcResponse)
    (client : K) (r : JsonRpcRequest) (o : Outcome (Unit {0})) (n timeout : ℕ) (log : Log)
    → r.id ≡ JsonRpcId.number (pos (n + 1))
    → IdsTo n log
    → IdsTo
        (n + 1)
        (exchange_written (recorded reply) dump parse client (written o r) timeout log).1
unfolding exchange_written
exchange_written-IdsTo reply dump parse client r (returned u) n timeout log e h =
    (n, e, omega arith, h)
exchange_written-IdsTo reply dump parse client r (raised x) n timeout log e h =
    IdsTo-mono n (n + 1) log (omega arith) h

module _ {V K B : Type 0} (reply : K → JsonRpcRequest → ℕ → Log → Outcome (Wire B))
    (write : JsonRpcRequest → Outcome (Unit {0}))
    (parse_response : Wire B → Outcome JsonRpcResponse) where
  abbrev pub recorded_call : Call V K → Action (Iox2RpcRegistry V K × Log) JsonRpcResponse
  recorded_call (service, method, params, timeout) s =
      call (recorded reply) (λ r. written (write r) r) parse_response service method params timeout
        s

  -- A sequence of calls, whatever becomes of each.
  abbrev pub run_calls : List (Call V K) → Iox2RpcRegistry V K × Log → Iox2RpcRegistry V K × Log
  run_calls [] s = s
  run_calls (c ∷ calls) s = run_calls calls (recorded_call c s).1

  abbrev IsNumbered : Iox2RpcRegistry V K × Log → Type 0
  IsNumbered (registry, log) = IdsTo registry.request_counter log

  call_client-IsNumbered :
      (client : Option K) (service : DiscoveredRpcService V K) (method : String)
      (params : Option (Dict Value)) (timeout : ℕ) (s : Iox2RpcRegistry V K × Log)
      → IsNumbered s
      → IsNumbered
          (call_client
            (recorded reply)
            (λ r. written (write r) r)
            parse_response
            client
            service
            method
            params
            timeout
            s).1
  unfolding call_client
  call_client-IsNumbered none service method params timeout s h = h
  call_client-IsNumbered (some client) service method params timeout (registry, log) h =
      let request = call_request (registry.request_counter + 1) method params in
      exchange_written-IdsTo reply (λ r. written (write r) r) parse_response client request
        (write request) registry.request_counter timeout log refl h

  -- If calls of a registry are made one after another, then whatever they are and however they end, the
  -- requests that it sends carry ids that grow from one to the next, so that no two have the same.
  pub run_calls-IdsTo :
      (calls : List (Call V K)) (registry : Iox2RpcRegistry V K) (log : Log)
      → IdsTo registry.request_counter log
      → let (registry', log') = run_calls calls (registry, log) in
        IdsTo registry'.request_counter log'
  unfolding call
  run_calls-IdsTo [] registry log h = h
  run_calls-IdsTo ((service, method, params, timeout) ∷ calls) registry log h =
      let after = (recorded_call (service, method, params, timeout) (registry, log)).1 in
      run_calls-IdsTo calls after.0 after.1
        (call_client-IsNumbered service.rpc_client service method params timeout (registry, log) h)
