-- ===== src/Registry/Threads/Tests.antt =====
-- Two threads that call the service of one registry (iox2_jsonrpc/iceoryx_registry.py) at the same time:
-- both read the counter before either writes it, so that their requests have the same id.
use iox2_jsonrpc.Base.{ℕ, ◌+◌, String, ◌≡◌, refl, subst, none, some, [], ◌∷◌, All}
use iox2_jsonrpc.Python.Outcome.{Outcome, Action, returned}
use iox2_jsonrpc.Python.Value.{dict_of}
use iox2_jsonrpc.Models.{v2_0, JsonRpcRequest, JsonRpcResponse}
use iox2_jsonrpc.Registry.{DiscoveredRpcService, Iox2RpcRegistry, call, call_request}
use iox2_jsonrpc.Registry.Ids.{Call}
use iox2_jsonrpc.Registry.Threads.{
  Place, calling, loaded, stored, requested, tested, CallStep, load, store, number, CallRun, start,
  later,
}
use iox2_jsonrpc.Registry.Threads.Numbered.{stores, IsNumbered, CallRun-IsNumbered}
use iox2_jsonrpc.Registry.Threads.Uninterrupted.{ComesTo, call-Alone}

abbrev lamp : DiscoveredRpcService ℕ ℕ
lamp = record {
  service_name = "home";
  controller_name = "lamp";
  rpc_endpoint = "home/lamp/rpc";
  schema_endpoint = "home/lamp/schema";
  methods = "lamp.on" ∷ [];
  attributes = [];
  descriptor = none;
  rpc_service = some 1;
  rpc_client = some 2;
}

abbrev on : Call ℕ ℕ
on = (lamp, "lamp.on", none, 100)

abbrev off : Call ℕ ℕ
off = (lamp, "lamp.off", none, 100)

abbrev asked : String → Place ℕ ℕ
asked method = requested 2 (call_request 5 method none) 100

loads : (c : Call ℕ ℕ) → c.0 ≡ lamp → CallStep 4 (calling c) 4 (loaded 2 4 c)
unfolding tested
loads c h = subst (λ s. CallStep 4 (calling c) 4 (tested s.rpc_client 4 c)) h (load 4 c)

both : CallRun 4 5 (asked "lamp.on" ∷ asked "lamp.off" ∷ [])
both =
    later 5 5 (asked "lamp.on" ∷ []) (stored 2 off) (asked "lamp.off") []
      (later 5 5 [] (stored 2 on) (asked "lamp.on") (stored 2 off ∷ [])
        (later 5 5 (stored 2 on ∷ []) (loaded 2 4 off) (stored 2 off) []
          (later 4 5 [] (loaded 2 4 on) (stored 2 on) (loaded 2 4 off ∷ [])
            (later 4 4 (loaded 2 4 on ∷ []) (calling off) (loaded 2 4 off) []
              (later 4 4 [] (calling on) (loaded 2 4 on) (calling off ∷ [])
                (start (calling on ∷ calling off ∷ []) (tt, (tt, tt))) (loads on refl))
              (loads off refl))
            (store 4 4 2 on))
          (store 5 4 2 off))
        (number 5 2 on))
      (number 5 2 off)

CallRun-IsNumbered_example :
    All
      (IsNumbered 4 (4 + stores (asked "lamp.on" ∷ asked "lamp.off" ∷ [])))
      (asked "lamp.on" ∷ asked "lamp.off" ∷ [])
CallRun-IsNumbered_example = CallRun-IsNumbered both

abbrev registry : Iox2RpcRegistry ℕ ℕ
registry = record { services = lamp ∷ []; request_counter = 4 }

abbrev sends : ℕ → JsonRpcRequest → ℕ → Action ℕ JsonRpcRequest
sends client request timeout sent = (returned request, sent + 1)

abbrev reply : JsonRpcRequest → Outcome JsonRpcResponse
reply request =
    returned (record { jsonrpc = v2_0; id = request.id; result = dict_of []; error = none })

call-Alone_run :
    ComesTo sends
      (λ r. returned r)
      reply
      on
      registry
      0
      (call sends (λ r. returned r) reply lamp "lamp.on" none 100 (registry, 0))
call-Alone_run = call-Alone sends (λ r. returned r) reply lamp "lamp.on" none 100 registry 0
