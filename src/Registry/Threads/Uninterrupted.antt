-- ===== src/Registry/Threads/Uninterrupted.antt =====
-- A thread of iox2_jsonrpc/iceoryx_registry.py that is not interrupted makes the call of a single thread.
use iox2_jsonrpc.Base.{ℕ, ◌+◌, String, ◌≡◌, refl, subst, Option, none, some}
use iox2_jsonrpc.Python.Value.{Value}
use iox2_jsonrpc.Python.Dict.{Dict}
use iox2_jsonrpc.Python.Outcome.{Exception, Outcome, Action, raised}
use iox2_jsonrpc.Models.{JsonRpcRequest, JsonRpcResponse}
use iox2_jsonrpc.Registry.{
  DiscoveredRpcService, Iox2RpcRegistry, call, call_client, call_request, exchange, no_client,
}
use iox2_jsonrpc.Registry.Ids.{Call}
use iox2_jsonrpc.Registry.Threads.{
  Place, calling, loaded, stored, requested, refused, tested, CallStep, load, store, number,
}

-- Steps of one thread with none of another between them.
pub data Alone {V K : Type 0} : ℕ → Place V K → ℕ → Place V K → Type 0 where
  stop : (counter : ℕ) (place : Place V K) → Alone counter place counter place
  step :
      (counter after end : ℕ) (place next last : Place V K)
      → CallStep counter place after next
      → Alone after next end last
      → Alone counter place end last

module _ {V K Bytes W : Type 0} (request_bytes : K → Bytes → ℕ → Action W Bytes)
    (dump_request : JsonRpcRequest → Outcome Bytes)
    (parse_response : Bytes → Outcome JsonRpcResponse) where
  -- How the call ends from a place at which the counter is not used any more.
  pub data EndsBy : Place V K → Action W JsonRpcResponse → Type 0 where
    by_refusal : (e : Exception) → EndsBy (refused e) (λ w. (raised e, w))
    by_exchange :
        (client : K) (request : JsonRpcRequest) (timeout : ℕ)
        → EndsBy
            (requested client request timeout)
            (exchange request_bytes dump_request parse_response client request timeout)

  -- A place that the thread comes to, and what the call does from there.
  abbrev pub ComesTo :
      Call V K
      → Iox2RpcRegistry V K
      → W
      → Outcome JsonRpcResponse × (Iox2RpcRegistry V K × W)
      → Type 0
  ComesTo c registry w (o, (registry', w')) =
      (place : Place V K) × (act : Action W JsonRpcResponse) × Alone registry.request_counter
        (calling c) registry'.request_counter place
      × EndsBy place act
      × (act w ≡ (o, w'))
      × (registry' ≡ record registry { request_counter = registry'.request_counter })

  call_client-Alone :
      (client : Option K) (service : DiscoveredRpcService V K) (method : String)
      (params : Option (Dict Value)) (timeout : ℕ) (registry : Iox2RpcRegistry V K) (w : W)
      → service.rpc_client ≡ client
      → ComesTo
          (service, method, params, timeout)
          registry
          w
          (call_client request_bytes dump_request parse_response client service method params
            timeout
            (registry, w))
  unfolding call_client tested
  call_client-Alone none service method params timeout registry w h =
      let counter = registry.request_counter in
      let c : Call V K = (service, method, params, timeout) in
      (
        refused (no_client service),
        _,
        step counter counter counter (calling c) (refused (no_client service)) _
            (subst (λ x. CallStep counter (calling c) counter (tested x counter c)) h
              (load counter c))
            (stop _ _),
        by_refusal (no_client service),
        refl,
        refl,
      )
  call_client-Alone (some client) service method params timeout registry w h =
      let counter = registry.request_counter in
      let c : Call V K = (service, method, params, timeout) in
      (
        requested client (call_request (counter + 1) method params) timeout,
        _,
        step counter counter (counter + 1) (calling c) (loaded client counter c) _
            (subst (λ x. CallStep counter (calling c) counter (tested x counter c)) h
              (load counter c))
            (step counter (counter + 1) (counter + 1) _ (stored client c) _
              (store counter counter client c)
              (step (counter + 1) (counter + 1) (counter + 1) _ _ _ (number (counter + 1) client c)
                (stop _ _))),
        by_exchange client (call_request (counter + 1) method params) timeout,
        refl,
        refl,
      )

  -- A call whose thread is not interrupted takes the steps of a thread, with the counter, to the place
  -- from which it ends as `call` does.
  pub call-Alone :
      (service : DiscoveredRpcService V K) (method : String) (params : Option (Dict Value))
      (timeout : ℕ) (registry : Iox2RpcRegistry V K) (w : W)
      → ComesTo
          (service, method, params, timeout)
          registry
          w
          (call request_bytes dump_request parse_response service method params timeout
            (registry, w))
  unfolding call
  call-Alone service method params timeout registry w =
      call_client-Alone service.rpc_client service method params timeout registry w refl
