-- ===== src/Gateway/Openapi.antt =====
-- The OpenAPI paths that the gateway of examples/webapi.py adds for the discovered methods. FastAPI's own
-- document is an argument.
pub mod Paths
use iox2_jsonrpc.Base.{
  String, Char, code, Bool, true, false, Option, none, some, List, [], ◌∷◌, ◌++◌, ◌&◌, ◌==◌, eqb,
  if◌then◌else◌,
}
use iox2_jsonrpc.Python.Dict.{Dict, get, put, contains}
use iox2_jsonrpc.Python.Value.{
  Value, Items, Fields, nil, cons, end, field, bool, str, list, dict, list_of, dict_of,
}
use iox2_jsonrpc.Models.{RpcMethodDescriptor, RpcServiceDescriptor}
use iox2_jsonrpc.Registry
use iox2_jsonrpc.Gateway.{DynamicRpcGateway, descriptors}

-- The strings of a list, and the entries of a dictionary; nothing for what JSON Schema has not here.
abbrev pub item_texts : Items → List String
item_texts nil = []
item_texts (cons (str s) xs) = s ∷ item_texts xs
item_texts (cons v xs) = item_texts xs

abbrev pub texts_of : Option Value → List String
texts_of (some (list xs)) = item_texts xs
texts_of _ = []

abbrev pub field_entries : Fields → Dict Value
field_entries end = []
field_entries (field key v fs) = (key, v) ∷ field_entries fs

abbrev pub entries_of : Option Value → Dict Value
entries_of (some (dict fs)) = field_entries fs
entries_of _ = []

abbrev pub parameter : String → Bool → Value → Value
parameter name required schema = dict_of (
    ("name", str name)
    ∷ ("in", str "query")
    ∷ ("required", bool required)
    ∷ ("schema", schema)
    ∷ [])

abbrev pub service_parameter : Value
service_parameter = dict_of (
    ("name", str "service")
    ∷ ("in", str "query")
    ∷ ("required", bool false)
    ∷ ("schema", dict_of (("type", str "string") ∷ []))
    ∷ (
      "description",
      str "Optional service_name when multiple discovered services expose the same controller.",
    )
    ∷ [])

unfoldable pub query_parameters : List String → Dict Value → List Value
query_parameters required [] = service_parameter ∷ []
query_parameters required ((name, schema) ∷ properties) =
    let rest = query_parameters required properties in
    if name == "service"
    then rest
    else parameter name (Registry.contains name required) schema ∷ rest

unfoldable pub openapi_query_parameters : Dict Value → List Value
openapi_query_parameters params_schema =
    query_parameters (texts_of (get "required" params_schema))
      (entries_of (get "properties" params_schema))

-- `text.replace(old, new)` for single characters.
unfoldable pub replace_char : Char → Char → String → String
replace_char old new String.[] = ""
replace_char old new (String.◌∷◌ c text) =
    let rest = replace_char old new text in
    String.◌∷◌ (if eqb (code c) (code old) then new else c) rest

abbrev pub responses : Dict Value → Value
responses schema = dict_of (
    (
      "200",
      dict_of (
          ("description", str "Successful Response")
          ∷ (
            "content",
            dict_of (("application/json", dict_of (("schema", dict_of schema) ∷ [])) ∷ []),
          )
          ∷ []),
    )
    ∷ [])

abbrev pub plain_responses : Value
plain_responses = dict_of (("200", dict_of (("description", str "Successful Response") ∷ [])) ∷ [])

abbrev pub tags : Value
tags = list_of (str "dynamic-rpc" ∷ [])

unfoldable pub dynamic_openapi_schema_for_method : RpcMethodDescriptor → Value
dynamic_openapi_schema_for_method method =
    let id = "dynamic_" & replace_char "." "_" method.jsonrpc_method in
    dict_of (
      (
        "post",
        dict_of (
            ("tags", tags)
            ∷ ("summary", str ("Call " & method.jsonrpc_method))
            ∷ ("operationId", str (id & "_post"))
            ∷ (
              "requestBody",
              dict_of (
                  ("required", bool false)
                  ∷ (
                    "content",
                    dict_of (
                        (
                          "application/json",
                          dict_of (("schema", dict_of method.params_schema) ∷ []),
                        )
                        ∷ []),
                  )
                  ∷ []),
            )
            ∷ ("responses", responses method.result_schema)
            ∷ []),
      )
      ∷ (
        "get",
        dict_of (
            ("tags", tags)
            ∷ ("summary", str ("Call " & method.jsonrpc_method & " with query parameters"))
            ∷ ("operationId", str (id & "_get"))
            ∷ ("parameters", list_of (openapi_query_parameters method.params_schema))
            ∷ ("responses", responses method.result_schema)
            ∷ []),
      )
      ∷ [])

abbrev pub get_operation : String → String → Value
get_operation summary id = dict_of (
    (
      "get",
      dict_of (
          ("tags", tags)
          ∷ ("summary", str summary)
          ∷ ("operationId", str id)
          ∷ ("responses", plain_responses)
          ∷ []),
    )
    ∷ [])

abbrev pub rpc_operation : String → Value
rpc_operation controller = dict_of (
    (
      "post",
      dict_of (
          ("tags", tags)
          ∷ ("summary", str ("JSON-RPC bridge for " & controller))
          ∷ ("operationId", str ("dynamic_" & controller & "_rpc_post"))
          ∷ (
            "requestBody",
            dict_of (
                ("required", bool true)
                ∷ (
                  "content",
                  dict_of (
                      (
                        "application/json",
                        dict_of (
                            (
                              "schema",
                              dict_of (("$ref", str "#/components/schemas/JsonRpcRequest") ∷ []),
                            )
                            ∷ []),
                      )
                      ∷ []),
                )
                ∷ []),
          )
          ∷ ("responses", plain_responses)
          ∷ []),
    )
    ∷ [])

-- `paths.setdefault(key, item)`
unfoldable pub set_default : String → Value → Dict Value → Dict Value
set_default key item paths = if contains key paths then paths else put key item paths

abbrev pub method_path : String → String → String
method_path controller name = "/controllers/" & controller & "/" & name

unfoldable pub add_methods : String → List RpcMethodDescriptor → Dict Value → Dict Value
add_methods controller [] paths = paths
add_methods controller (method ∷ methods) paths =
    add_methods controller methods
      (put (method_path controller method.name) (dynamic_openapi_schema_for_method method) paths)

unfoldable pub add_fixed : String → Dict Value → Dict Value
add_fixed controller paths =
    set_default ("/controllers/" & controller & "/rpc") (rpc_operation controller) (
      set_default ("/controllers/" & controller & "/methods")
        (get_operation ("List " & controller & " methods")
          ("dynamic_" & controller & "_methods_get"))
        (set_default ("/controllers/" & controller)
          (get_operation ("Describe " & controller) ("dynamic_" & controller & "_detail_get"))
          paths))

unfoldable pub add_descriptors : List RpcServiceDescriptor → Dict Value → Dict Value
add_descriptors [] paths = paths
add_descriptors (d ∷ ds) paths =
    add_descriptors ds (add_methods d.controller d.methods (add_fixed d.controller paths))

-- `schema` is what `get_openapi` gives.
unfoldable pub custom_openapi : {V K : Type 0} → DynamicRpcGateway V K → Dict Value → Dict Value
custom_openapi gateway schema =
    put "paths" (dict_of (add_descriptors (descriptors gateway) (entries_of (get "paths" schema))))
      schema
