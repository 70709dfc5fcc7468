-- ===== src/Server/Attributes/Tests.antt =====
-- The attributes of a small server (iox2_jsonrpc/iceoryx_server.py), and the theorems at them.
use iox2_jsonrpc.Base.{ℕ, String, ◌≡◌, refl, true, some, [], ◌∷◌, map, join, has_char}
use iox2_jsonrpc.Python.Dict.{Dict, put, union}
use iox2_jsonrpc.Python.Outcome.{returned}
use iox2_jsonrpc.Models.{RpcMethodDescriptor, RpcServiceDescriptor, jsonrpc_2_0}
use iox2_jsonrpc.Controller.{Controller}
use iox2_jsonrpc.Helpers.Attributes.{
  OrCall, value, absent, Printable, AttributeItem, to_str, text_of, call_or_value,
}
use iox2_jsonrpc.Helpers.Published.{Shows}
use iox2_jsonrpc.Registry.Discovery.{ServiceDetails, inspect_details}
use iox2_jsonrpc.Server.Attributes.{rpc_attributes, schema_attributes, base_attributes}
use iox2_jsonrpc.Server.Attributes.Recovered.{
  Presents, found_service, inspect_details-rpc_attributes,
}

abbrev lamp : Controller ℕ
lamp = record {
  service_name = λ _. some "home";
  controller_name = λ _. some "lamp";
  members = λ _. [];
}

abbrev method : String → RpcMethodDescriptor
method name = record {
  name = name;
  jsonrpc_method = name;
  params_model = "P";
  result_model = "R";
  params_schema = [];
  result_schema = [];
}

abbrev descriptor : RpcServiceDescriptor
descriptor = record {
  protocol = jsonrpc_2_0;
  service = "home";
  controller = "lamp";
  rpc_endpoint = "home/lamp/rpc";
  schema_endpoint = "home/lamp/schema";
  methods = method "lamp.on" ∷ method "lamp.off" ∷ [];
}

abbrev shown : String → OrCall Printable
shown s = value (record { to_string = absent; as_str = absent; text = returned s })

abbrev item : String × String → AttributeItem
item (key, text) = record { key = returned (shown key); item_value = returned (shown text) }

abbrev details : String → Dict String → ServiceDetails
details name attrs = record {
  is_request_response = returned true;
  attributes = returned (value (map item attrs));
  name = shown name;
}

abbrev attrs : Dict String
attrs =
    ("rpc.protocol", "jsonrpc-2.0")
    ∷ ("rpc.service", "home")
    ∷ ("rpc.controller", "lamp")
    ∷ ("rpc.kind", "rpc")
    ∷ ("rpc.schema", "home/lamp/schema")
    ∷ ("rpc.methods", "lamp.on,lamp.off")
    ∷ []

published : rpc_attributes "home/lamp/schema" descriptor lamp 0 ≡ returned attrs
unfolding rpc_attributes base_attributes union put join
published = refl

presented : (p : String × String) → Shows (item p) p
unfolding to_str text_of call_or_value
presented p = record { key_text = refl; value_text = refl }

presents : Presents (details "home/lamp/rpc" attrs) "home/lamp/rpc" attrs
unfolding to_str text_of call_or_value
presents = record {
  fits = refl;
  named = refl;
  listed = value (map item attrs);
  items = map item attrs;
  reads = refl;
  gives = refl;
  shows =
      (presented _, (presented _, (presented _, (presented _, (presented _, (presented _, tt))))));
}

inspect_details-rpc_attributes_example :
    inspect_details {V = ℕ} {K = ℕ} (details "home/lamp/rpc" attrs)
    ≡ returned
        (some (found_service "home" "lamp" "home/lamp/rpc" "home/lamp/schema" descriptor attrs))
unfolding has_char
inspect_details-rpc_attributes_example =
    inspect_details-rpc_attributes lamp 0 "home" "lamp" "home/lamp/rpc"
      (details "home/lamp/rpc" attrs) refl refl "home/lamp/schema" descriptor attrs published
      presents refl (refl, (refl, tt)) (refl, (refl, tt))

abbrev schema_attrs : Dict String
schema_attrs =
    ("rpc.protocol", "jsonrpc-2.0")
    ∷ ("rpc.service", "home")
    ∷ ("rpc.controller", "lamp")
    ∷ ("rpc.kind", "schema")
    ∷ []

schema_published : schema_attributes lamp 0 ≡ returned schema_attrs
unfolding schema_attributes base_attributes
schema_published = refl

schema-Presents : Presents (details "home/lamp/schema" schema_attrs) "home/lamp/schema" schema_attrs
unfolding to_str text_of call_or_value
schema-Presents = record {
  fits = refl;
  named = refl;
  listed = value (map item schema_attrs);
  items = map item schema_attrs;
  reads = refl;
  gives = refl;
  shows = (presented _, (presented _, (presented _, (presented _, tt))));
}
