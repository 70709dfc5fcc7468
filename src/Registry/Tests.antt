-- ===== src/Registry/Tests.antt =====
-- Small registries of iox2_jsonrpc/iceoryx_registry.py, and the theorems at them.
use iox2_jsonrpc.Base.{
  ℕ, suc, ◌+◌, String, ◌≡◌, ◌↔◌, refl, ap, inl, inr, true, none, some, List, [], ◌∷◌, ltb, split,
  arith, if◌then◌else◌,
}
use iox2_jsonrpc.Python.Int.{pos}
use iox2_jsonrpc.Python.Value.{int}
use iox2_jsonrpc.Python.Dict.{Dict, get, put}
use iox2_jsonrpc.Python.Outcome.{Outcome, Action, returned, raised, error}
use iox2_jsonrpc.Models.{
  v2_0, JsonRpcId, JsonRpcRequest, JsonRpcResponse, RpcServiceDescriptor, jsonrpc_2_0,
}
use iox2_jsonrpc.Helpers.Attributes.{
  OrCall, value, absent, Printable, AttributeItem, attribute_set_to_dict, collect_attributes,
  call_or_value, to_str, text_of,
}
use iox2_jsonrpc.Helpers.Bytes.{slice_to_bytes, read_from}
use iox2_jsonrpc.Helpers.ListMemory.{list_memory}
use iox2_jsonrpc.Registry.{DiscoveredRpcService, Iox2RpcRegistry, make_registry, find_endpoint}
use iox2_jsonrpc.Registry.Ids.{Log, Call, Wire, IdsTo, run_calls, run_calls-IdsTo}
use iox2_jsonrpc.Registry.Transport.{Transport, poll, poll_round, after_receive, timeout_error}
use iox2_jsonrpc.Registry.Transport.Polling.{Polls, Ticks, poll-Polls}
use iox2_jsonrpc.Registry.Discovery.{
  ServiceDetails, discover_services, inspect_details, inspect_attributes, with_schema, has_text,
}
use iox2_jsonrpc.Registry.Discovery.Loop.{Discovery, discover}
use iox2_jsonrpc.Registry.Discovery.Searching
use iox2_jsonrpc.Registry.Discovery.Searching.{Searches, discover-Searches}
use iox2_jsonrpc.Registry.Discovery.Keys.{discover_services-find}
use iox2_jsonrpc.Registry.Discovery.Loading.{Opening}

-- Services and clients are numbers.
abbrev service : String → List String → DiscoveredRpcService ℕ ℕ
service endpoint methods = record {
  service_name = "s";
  controller_name = "c";
  rpc_endpoint = endpoint;
  schema_endpoint = "s/c/schema";
  methods = methods;
  attributes = [];
  descriptor = none;
  rpc_service = some 1;
  rpc_client = some 2;
}

abbrev camera : DiscoveredRpcService ℕ ℕ
camera = service "s/camera/rpc" ("camera.capture" ∷ [])

abbrev lamp : DiscoveredRpcService ℕ ℕ
lamp = service "s/lamp/rpc" ("lamp.on" ∷ "lamp.off" ∷ [])

abbrev registry : Iox2RpcRegistry ℕ ℕ
registry = make_registry (camera ∷ lamp ∷ [])

abbrev reply : ℕ → Outcome JsonRpcResponse
reply raw =
    returned (record {
      jsonrpc = v2_0;
      id = JsonRpcId.number (pos 1);
      result = int (pos raw);
      error = none;
    })

-- Two calls, the second of which times out.
abbrev slow : ℕ → JsonRpcRequest → ℕ → Log → Outcome (Wire ℕ)
slow client request timeout [] = returned (inr 1)
slow client request timeout (r ∷ log) = raised timeout_error

abbrev two_calls : List (Call ℕ ℕ)
two_calls = (lamp, "lamp.on", none, 500) ∷ (lamp, "lamp.off", none, 500) ∷ []

abbrev read_reply : Wire ℕ → Outcome JsonRpcResponse
read_reply w = reply 1

run_calls-IdsTo_example :
    let (registry', log') = run_calls slow (λ r. returned tt) read_reply two_calls (registry, []) in
    IdsTo registry'.request_counter log'
unfolding make_registry
run_calls-IdsTo_example =
    run_calls-IdsTo slow (λ r. returned tt) read_reply two_calls registry [] tt

-- A clock as the world; the response is there after 15 milliseconds.
abbrev clock : Transport ℕ (List ℕ) (List ℕ) ℕ ℕ
clock = record {
  memory = list_memory;
  loan_slice_uninit = λ client n w. (returned (0 ∷ 0 ∷ []), w);
  assume_init = λ b. b;
  send = λ request w. (returned 1, w);
  receive = λ pending w. (if ltb w 15 then returned none else returned (some (123 ∷ 125 ∷ [])), w);
  monotonic = λ w. w;
  node_wait = λ ms w. (returned tt, w + ms);
}

clock-Ticks : Ticks clock 1 40
clock-Ticks w w' w'' e g = omega (arith, ap (λ p. p.1) e, ap (λ p. p.1) g)

poll-Polls_example :
    (poll clock 41 1 40 0 ≡ (returned (123 ∷ 125 ∷ []), 20))
    ↔ Polls clock 1 40 0 (returned (123 ∷ 125 ∷ []), 20)
poll-Polls_example =
    poll-Polls clock 1 40 clock-Ticks 41 0 (returned (123 ∷ 125 ∷ []), 20) (omega arith)

poll_run : poll clock 41 1 40 0 ≡ (returned (123 ∷ 125 ∷ []), 20)
unfolding poll poll_round after_receive slice_to_bytes read_from
poll_run = refl

abbrev shown : String → OrCall Printable
shown s = value (record { to_string = absent; as_str = absent; text = returned s })

abbrev attribute : String → String → AttributeItem
attribute key text = record { key = returned (shown key); item_value = returned (shown text) }

-- A listed service, another with the same name and other methods, and one that cannot be inspected.
abbrev pub details : String → ServiceDetails
details methods = record {
  is_request_response = returned true;
  attributes = returned (
      value (
        attribute "rpc.protocol" "jsonrpc-2.0"
        ∷ attribute "rpc.kind" "rpc"
        ∷ attribute "rpc.schema" "s/c/schema"
        ∷ attribute "rpc.methods" methods
        ∷ []));
  name = shown "s/c/rpc";
}

abbrev pub unreadable : ServiceDetails
unreadable = record {
  is_request_response = raised (error "ServiceDetailsError" "");
  attributes = returned (value []);
  name = shown "";
}

abbrev found_attributes : Dict String
found_attributes =
    ("rpc.protocol", "jsonrpc-2.0")
    ∷ ("rpc.kind", "rpc")
    ∷ ("rpc.schema", "s/c/schema")
    ∷ ("rpc.methods", ",c.b")
    ∷ []

abbrev found : DiscoveredRpcService ℕ ℕ
found = record {
  service_name = "";
  controller_name = "";
  rpc_endpoint = "s/c/rpc";
  schema_endpoint = "s/c/schema";
  methods = "c.b" ∷ [];
  attributes = found_attributes;
  descriptor = none;
  rpc_service = none;
  rpc_client = none;
}

search :
    discover_services (details "c.a,c.b" ∷ unreadable ∷ details ",c.b" ∷ []) []
    ≡ returned (("s/c/rpc", found) ∷ [])
unfolding discover_services inspect_details inspect_attributes with_schema has_text get put
    attribute_set_to_dict collect_attributes call_or_value to_str text_of split
search = refl

discover_services-find_example : find_endpoint (found ∷ []) "s/c/rpc" ≡ returned found
discover_services-find_example =
    discover_services-find (details "c.a,c.b" ∷ unreadable ∷ details ",c.b" ∷ [])
      (("s/c/rpc", found) ∷ []) found search (inl refl)

-- The first service can be opened and the second cannot.
abbrev pub opening : Opening ℕ ℕ ℕ
opening = record {
  open_service =
      λ endpoint w. ((if ltb w 2 then returned 7 else raised (error "OpenError" "")), suc w);
  try_cleanup = λ service w. (returned tt, w);
  create_client = λ n service w. (returned 8, w);
}

abbrev pub descriptor : RpcServiceDescriptor
descriptor = record {
  protocol = jsonrpc_2_0;
  service = "s";
  controller = "lamp";
  rpc_endpoint = "s/lamp/rpc";
  schema_endpoint = "s/lamp/schema";
  methods = [];
}

abbrev pub ask : ℕ → List ℕ → ℕ → Action ℕ (List ℕ)
ask client payload timeout w = (returned payload, w)

-- A world whose clock is its state, and in which a service is listed from 150 milliseconds on.
abbrev pub discovery : Discovery ℕ
discovery = record {
  set_log_level = λ w. (returned tt, w);
  create_node = λ w. (returned tt, w);
  try_cleanup_dead_nodes = λ w. (returned tt, w);
  list_services = λ w. (returned (if ltb w 150 then unreadable ∷ [] else details "c.a" ∷ []), w);
  monotonic = λ w. w;
  node_wait = λ ms w. (returned tt, w + ms);
}

pub discovery-Ticks : Searching.Ticks discovery
discovery-Ticks w services w' w'' e g = omega (arith, ap (λ r. r.1) e, ap (λ r. r.1) g)

discover-Searches_example :
    Searches {V = ℕ} {K = ℕ} discovery 2000 0 (discover discovery 2001 2000 [] 0)
discover-Searches_example =
    discover-Searches discovery 2000 ℕ ℕ discovery-Ticks 2001 0 (omega arith)
