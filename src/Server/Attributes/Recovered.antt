-- ===== src/Server/Attributes/Recovered.antt =====
-- What the registry (iox2_jsonrpc/iceoryx_registry.py) finds out from a server's attributes
-- (iox2_jsonrpc/iceoryx_server.py).
use iox2_jsonrpc.Base.{
  String, ◌≡◌, refl, sym, subst, ◌∙◌, true, false, none, some, List, [], ◌∷◌, map, All, join,
  nonempty, filter-split-join, has_char,
}
use iox2_jsonrpc.Python.Dict.{Dict, get, put, union, IsDict}
use iox2_jsonrpc.Python.Outcome.{returned}
use iox2_jsonrpc.Models.{RpcServiceDescriptor}
use iox2_jsonrpc.Controller.{Controller}
use iox2_jsonrpc.Helpers.Attributes.{OrCall, Printable, call_or_value, to_str, AttributeItem}
use iox2_jsonrpc.Helpers.Published.{ShowsAll, attribute_set_to_dict_shown}
use iox2_jsonrpc.Registry.{DiscoveredRpcService}
use iox2_jsonrpc.Registry.Discovery.{
  ServiceDetails, comma, has_text, inspect_details, inspect_attributes, with_schema,
}
use iox2_jsonrpc.Server.Attributes.{base_attributes, rpc_attributes, schema_attributes}

-- What a service shows to the registry: that it is of the request-response kind, its name, and these
-- attributes, in their order.
pub record Presents (details : ServiceDetails) (endpoint : String) (attrs : Dict String)
    : Type 0 where
  pub fits : details.is_request_response ≡ returned true
  pub named : to_str details.name ≡ returned endpoint
  pub listed : OrCall (List AttributeItem)
  pub items : List AttributeItem
  pub reads : details.attributes ≡ returned listed
  pub gives : call_or_value listed ≡ returned items
  pub shows : ShowsAll items attrs

abbrev kind_attributes : String → String → String → Dict String
kind_attributes service controller kind =
    ("rpc.protocol", "jsonrpc-2.0")
    ∷ ("rpc.service", service)
    ∷ ("rpc.controller", controller)
    ∷ ("rpc.kind", kind)
    ∷ []

abbrev method_names : RpcServiceDescriptor → List String
method_names descriptor = map (λ m. m.jsonrpc_method) descriptor.methods

abbrev published : String → String → String → RpcServiceDescriptor → Dict String
published service controller schema descriptor =
    ("rpc.protocol", "jsonrpc-2.0")
    ∷ ("rpc.service", service)
    ∷ ("rpc.controller", controller)
    ∷ ("rpc.kind", "rpc")
    ∷ ("rpc.schema", schema)
    ∷ ("rpc.methods", join comma (method_names descriptor))
    ∷ []

published-IsDict :
    (service controller schema : String) (descriptor : RpcServiceDescriptor)
    → IsDict (published service controller schema descriptor)
published-IsDict service controller schema descriptor = (
  (refl, (refl, (refl, (refl, (refl, tt))))),
  (
    (refl, (refl, (refl, (refl, tt)))),
    ((refl, (refl, (refl, tt))), ((refl, (refl, tt)), ((refl, tt), (tt, tt)))),
  ),
)

kind_attributes-IsDict :
    (service controller kind : String) → IsDict (kind_attributes service controller kind)
kind_attributes-IsDict service controller kind =
    ((refl, (refl, (refl, tt))), ((refl, (refl, tt)), ((refl, tt), (tt, tt))))

-- What the registry keeps of a service, before its descriptor is loaded.
abbrev pub found_service :
    {V K : Type 0}
    → String
    → String
    → String
    → String
    → RpcServiceDescriptor
    → Dict String
    → DiscoveredRpcService V K
found_service service controller endpoint schema descriptor attrs = record {
  service_name = service;
  controller_name = controller;
  rpc_endpoint = endpoint;
  schema_endpoint = schema;
  methods = method_names descriptor;
  attributes = attrs;
  descriptor = none;
  rpc_service = none;
  rpc_client = none;
}

module _ {S : Type 0} (c : Controller S) (s : S) (service controller : String)
    (e : c.service_name s ≡ some service) (e' : c.controller_name s ≡ some controller) where
  base_attributes-returned :
      (kind : String)
      → base_attributes c kind s ≡ returned (kind_attributes service controller kind)
  unfolding base_attributes
  base_attributes-returned kind = rw (e, e') refl

  rpc_attributes-returned :
      (schema : String) (descriptor : RpcServiceDescriptor)
      → rpc_attributes schema descriptor c s
        ≡ returned (published service controller schema descriptor)
  unfolding rpc_attributes union put
  rpc_attributes-returned schema descriptor = rw (base_attributes-returned "rpc") refl

module _ {V K : Type 0} (service controller endpoint schema : String)
    (name : OrCall Printable) where
  inspect_attributes-published :
      (descriptor : RpcServiceDescriptor)
      → to_str name ≡ returned endpoint
      → nonempty schema ≡ true
      → All (λ m. has_char comma m ≡ false) (method_names descriptor)
      → All (λ m. nonempty m ≡ true) (method_names descriptor)
      → inspect_attributes {V = V} {K = K} name (published service controller schema descriptor)
        ≡ returned (
            some (
              found_service service controller endpoint schema descriptor
                (published service controller schema descriptor)))
  unfolding inspect_attributes with_schema has_text get
  inspect_attributes-published descriptor named full commas texts =
      rw (named, full, filter-split-join comma (method_names descriptor) commas texts) refl

  inspect_attributes-schema :
      inspect_attributes {V = V} {K = K} name (kind_attributes service controller "schema")
      ≡ returned none
  unfolding inspect_attributes has_text get
  inspect_attributes-schema = refl

module _ {V K S : Type 0} (c : Controller S) (s : S) (service controller endpoint : String)
    (details : ServiceDetails) (e : c.service_name s ≡ some service)
    (e' : c.controller_name s ≡ some controller) where
  inspect_details-presented :
      (attrs : Dict String)
      → Presents details endpoint attrs
      → IsDict attrs
      → inspect_details {V = V} {K = K} details ≡ inspect_attributes details.name attrs
  unfolding inspect_details
  inspect_details-presented attrs p i =
      rw (p.fits, p.reads, attribute_set_to_dict_shown p.listed p.items attrs p.gives p.shows i)
        refl

  -- If the names of the methods are not empty and have no comma, and the schema endpoint is not empty,
  -- the registry's reading of the attributes that a server publishes for its RPC service gives the
  -- server's service and controller names, both endpoints and the methods, in their order.
  pub inspect_details-rpc_attributes :
      (schema : String) (descriptor : RpcServiceDescriptor) (attrs : Dict String)
      → rpc_attributes schema descriptor c s ≡ returned attrs
      → Presents details endpoint attrs
      → nonempty schema ≡ true
      → All (λ m. has_char comma m ≡ false) (method_names descriptor)
      → All (λ m. nonempty m ≡ true) (method_names descriptor)
      → inspect_details {V = V} {K = K} details
        ≡ returned (some (found_service service controller endpoint schema descriptor attrs))
  inspect_details-rpc_attributes schema descriptor attrs made p full commas texts =
      let e₁ : attrs ≡ published service controller schema descriptor =
        cc (made, rpc_attributes-returned c s service controller e e' schema descriptor) in
      inspect_details-presented attrs p
        (subst IsDict (sym e₁) (published-IsDict service controller schema descriptor))
      ∙ subst
          (λ d.
            inspect_attributes {V = V} {K = K} details.name d
            ≡ returned (some (found_service service controller endpoint schema descriptor d)))
          (sym e₁)
          (inspect_attributes-published service controller endpoint schema details.name descriptor
            p.named full commas texts)

  -- The attributes of a schema service make the registry skip it.
  pub inspect_details-schema_attributes :
      (attrs : Dict String)
      → schema_attributes c s ≡ returned attrs
      → Presents details endpoint attrs
      → inspect_details {V = V} {K = K} details ≡ returned none
  unfolding schema_attributes
  inspect_details-schema_attributes attrs made p =
      let e₁ : attrs ≡ kind_attributes service controller "schema" =
        cc (made, base_attributes-returned c s service controller e e' "schema") in
      inspect_details-presented attrs p
        (subst IsDict (sym e₁) (kind_attributes-IsDict service controller "schema"))
      ∙ subst (λ d. inspect_attributes {V = V} {K = K} details.name d ≡ returned none) (sym e₁)
          (inspect_attributes-schema service controller endpoint "" details.name)
