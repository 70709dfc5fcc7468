-- ===== src/Registry/Discovery.antt =====
-- `discover_all` and `load_all_descriptors` of iox2_jsonrpc/iceoryx_registry.py. What is printed is
-- left out; `W` is the world that iceoryx2 and the clock make up, with times in milliseconds.
pub mod Keys
pub mod Loop
pub mod Loading
pub mod Searching
use iox2_jsonrpc.Base.{
  ℕ, zero, suc, ◌+◌, String, Char, Bool, true, false, not, Option, none, some, List, [], ◌∷◌, map,
  filter, ltb, ◌==◌, or_default, split, nonempty, if◌then◌else◌,
}
use iox2_jsonrpc.Python.Dict.{Dict, get, put}
use iox2_jsonrpc.Python.Outcome.{Outcome, Action, returned, raised, ◌>>=◌}
use iox2_jsonrpc.Python.Action.{pure, lift, except, continue, ◌>>◌}
use iox2_jsonrpc.Models.{RpcServiceDescriptor}
use iox2_jsonrpc.Helpers.Bytes.{Bytes}
use iox2_jsonrpc.Helpers.Attributes.{
  OrCall, Printable, to_str, AttributeItem, attribute_set_to_dict,
}
use iox2_jsonrpc.Registry.{DiscoveredRpcService, Iox2RpcRegistry, make_registry}
use iox2_jsonrpc.Registry.Transport.{out_of_fuel}

-- What `Service.list` gives of a service. `attributes` is the `values` of its attribute set.
pub record ServiceDetails : Type 0 where
  pub is_request_response : Outcome Bool
  pub attributes : Outcome (OrCall (List AttributeItem))
  pub name : OrCall Printable

abbrev pub comma : Char
comma = ","

-- `attrs.get(key) == text`
unfoldable pub has_text : String → String → Dict String → Bool
has_text key text attrs = elim (get key attrs) [ none ↦ false | some found ↦ found == text ]

-- `attrs.get(key, "")`
abbrev pub get_or_empty : String → Dict String → String
get_or_empty key attrs = or_default (get key attrs) ""

abbrev pub Discovered : Type 0 → Type 0 → Type 0
Discovered V K = Dict (DiscoveredRpcService V K)

module _ {V K : Type 0} where
  abbrev pub discovered_service : Dict String → String → DiscoveredRpcService V K
  discovered_service attrs rpc_endpoint = record {
    service_name = get_or_empty "rpc.service" attrs;
    controller_name = get_or_empty "rpc.controller" attrs;
    rpc_endpoint = rpc_endpoint;
    schema_endpoint = get_or_empty "rpc.schema" attrs;
    methods = filter nonempty (split comma (get_or_empty "rpc.methods" attrs));
    attributes = attrs;
    descriptor = none;
    rpc_service = none;
    rpc_client = none;
  }

  -- A service without a schema endpoint, or with an empty one, is skipped.
  unfoldable pub with_schema : Dict String → String → Option (DiscoveredRpcService V K)
  with_schema attrs rpc_endpoint =
      if nonempty (get_or_empty "rpc.schema" attrs)
      then some (discovered_service attrs rpc_endpoint)
      else none

  unfoldable pub inspect_attributes :
      OrCall Printable → Dict String → Outcome (Option (DiscoveredRpcService V K))
  unfolding with_schema
  inspect_attributes name attrs =
      if not (has_text "rpc.protocol" "jsonrpc-2.0" attrs)
      then returned none
      else (if not (has_text "rpc.kind" "rpc" attrs)
          then returned none
          else (to_str name >>= λ rpc_endpoint. returned (with_schema attrs rpc_endpoint)))

  -- The body of the inner `try`; `none` is `continue`.
  unfoldable pub inspect_details : ServiceDetails → Outcome (Option (DiscoveredRpcService V K))
  inspect_details details = details.is_request_response >>= λ fits.
      if fits
      then (attribute_set_to_dict details.attributes >>= inspect_attributes details.name)
      else returned none

  -- The end of the body, with its handler.
  abbrev pub note_details :
      Outcome (Option (DiscoveredRpcService V K)) → Discovered V K → Outcome (Discovered V K)
  note_details (returned none) discovered = returned discovered
  note_details (returned (some s)) discovered = returned (put s.rpc_endpoint s discovered)
  note_details (raised e) discovered = if e.is_exception then returned discovered else raised e

  unfoldable pub discover_services : List ServiceDetails → Discovered V K → Outcome (Discovered V K)
  discover_services [] discovered = returned discovered
  discover_services (details ∷ services) discovered =
      note_details (inspect_details details) discovered >>= discover_services services
