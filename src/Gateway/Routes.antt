-- ===== src/Gateway/Routes.antt =====
-- The routes that create_dynamic_rpc_gateway_fastapi_router of examples/webapi.py registers, in order, and
-- what FastAPI documents of finding one: the parameters of the children.
pub mod Taken
pub mod Reached
mod Tests
use iox2_jsonrpc.Base.{
  ℕ, String, Char, ◌≡◌, Bool, true, false, Option, none, some, List, [], ◌∷◌, map, All, ◌&◌, ◌==◌,
  split, join, nonempty, is_none, not, ◌||◌, if◌then◌else◌,
}
use iox2_jsonrpc.Python.Dict.{Dict}

-- The functions inside the router's.
pub data Handler : Type 0 where
  root : Handler
  health : Handler
  refresh_now : Handler
  catalog : Handler
  describe_all : Handler
  controllers_list : Handler
  rpc : Handler
  controller_methods : Handler
  controller_rpc : Handler
  controller_detail : Handler
  post_method : Handler
  get_method : Handler

-- One call of `add_api_route`.
pub record Route : Type 0 where
  pub path : String
  pub handler : Handler
  pub methods : List String
  pub include_in_schema : Bool

abbrev shown : String → Handler → List String → Route
shown path handler methods = record {
  path = path;
  handler = handler;
  methods = methods;
  include_in_schema = true;
}

abbrev hidden : String → Handler → List String → Route
hidden path handler methods = record {
  path = path;
  handler = handler;
  methods = methods;
  include_in_schema = false;
}

unfoldable pub routes : List Route
routes =
    shown "/" root ("GET" ∷ [])
    ∷ shown "/health" health ("GET" ∷ [])
    ∷ shown "/refresh" refresh_now ("GET" ∷ "POST" ∷ [])
    ∷ hidden "/controllers/refresh" refresh_now ("GET" ∷ "POST" ∷ [])
    ∷ hidden "/catalog" catalog ("GET" ∷ [])
    ∷ hidden "/describe" describe_all ("GET" ∷ [])
    ∷ shown "/controllers" controllers_list ("GET" ∷ [])
    ∷ shown "/rpc" rpc ("POST" ∷ [])
    ∷ shown "/controllers/{controller}/methods" controller_methods ("GET" ∷ [])
    ∷ shown "/controllers/{controller}/rpc" controller_rpc ("POST" ∷ [])
    ∷ hidden "/controllers/{controller}/schema" controller_detail ("GET" ∷ [])
    ∷ shown "/controllers/{controller}" controller_detail ("GET" ∷ [])
    ∷ shown "/controllers/{controller}/{method}" post_method ("POST" ∷ [])
    ∷ shown "/controllers/{controller}/{method}" get_method ("GET" ∷ [])
    ∷ hidden "/controllers/{controller}/methods/{method}" post_method ("POST" ∷ [])
    ∷ hidden "/controllers/{controller}/methods/{method}" get_method ("GET" ∷ [])
    ∷ []

-- Where a request goes, with the path's parameters.
pub data Resolution : Type 0 where
  reached : Handler → Dict String → Resolution
  method_not_allowed : Resolution
  not_found : Resolution

-- A part of a path's template: a text, or `{name}`.
pub data Segment : Type 0 where
  fixed : String → Segment
  parameter : String → Segment

abbrev pub slash : Char
slash = "/"

abbrev written : Segment → String
written (fixed text) = text
written (parameter name) = "{" & name & "}"

abbrev pub template_text : List Segment → String
template_text template = join slash (map written template)

abbrev allowed : String → List String → Bool
allowed verb [] = false
allowed verb (m ∷ methods) = let rest = allowed verb methods in if m == verb then true else rest

-- A segment against a part of a path, with what the rest gives.
abbrev take_part : Segment → String → Option (Dict String) → Option (Dict String)
take_part segment part none = none
take_part (fixed text) part (some values) = if text == part then some values else none
take_part (parameter name) part (some values) =
    if nonempty part then some ((name, part) ∷ values) else none

-- The parameters of a path that fits a template, part by part; a parameter takes one part, which is
-- not empty.
abbrev pub fit : List Segment → List String → Option (Dict String)
fit [] [] = some []
fit (segment ∷ template) (part ∷ parts) = take_part segment part (fit template parts)
fit _ _ = none

-- A route's handler with the values of its path, or what the later routes give.
abbrev pub take_route :
    Route
    → String
    → Option (Dict String)
    → Option (Handler × Dict String)
    → Option (Handler × Dict String)
take_route route verb none later = later
take_route route verb (some values) later =
    if allowed verb route.methods then some (route.handler, values) else later

-- The first route that has the path and the verb.
unfoldable pub full_match :
    (String → String → Option (Dict String))
    → List Route
    → String
    → String
    → Option (Handler × Dict String)
full_match match_path [] verb path = none
full_match match_path (route ∷ rs) verb path =
    take_route route verb (match_path route.path path) (full_match match_path rs verb path)

-- Whether some route has the path.
unfoldable pub has_path : (String → String → Option (Dict String)) → List Route → String → Bool
has_path match_path [] path = false
has_path match_path (route ∷ rs) path =
    not (is_none (match_path route.path path)) || has_path match_path rs path

abbrev pub resolution : Option (Handler × Dict String) → Bool → Resolution
resolution (some (handler, values)) known = reached handler values
resolution none known = if known then method_not_allowed else not_found

-- The templates of the routes.
abbrev pub templates : List (List Segment)
templates =
    (fixed "" ∷ fixed "" ∷ [])
    ∷ (fixed "" ∷ fixed "health" ∷ [])
    ∷ (fixed "" ∷ fixed "refresh" ∷ [])
    ∷ (fixed "" ∷ fixed "controllers" ∷ fixed "refresh" ∷ [])
    ∷ (fixed "" ∷ fixed "catalog" ∷ [])
    ∷ (fixed "" ∷ fixed "describe" ∷ [])
    ∷ (fixed "" ∷ fixed "controllers" ∷ [])
    ∷ (fixed "" ∷ fixed "rpc" ∷ [])
    ∷ (fixed "" ∷ fixed "controllers" ∷ parameter "controller" ∷ fixed "methods" ∷ [])
    ∷ (fixed "" ∷ fixed "controllers" ∷ parameter "controller" ∷ fixed "rpc" ∷ [])
    ∷ (fixed "" ∷ fixed "controllers" ∷ parameter "controller" ∷ fixed "schema" ∷ [])
    ∷ (fixed "" ∷ fixed "controllers" ∷ parameter "controller" ∷ [])
    ∷ (fixed "" ∷ fixed "controllers" ∷ parameter "controller" ∷ parameter "method" ∷ [])
    ∷ (fixed ""
        ∷ fixed "controllers"
        ∷ parameter "controller"
        ∷ fixed "methods"
        ∷ parameter "method"
        ∷ [])
    ∷ []

-- What Starlette documents of a path's template, for those of the routes.
abbrev pub FollowsTemplates : (String → String → Option (Dict String)) → Type 0
FollowsTemplates match_path =
    All
      (λ template.
        (path : String)
        → match_path (template_text template) path ≡ fit template (split slash path))
      templates

-- What Starlette documents of a router: the first match, 405 if only the verb does not fit, or 404.
abbrev pub TakesFirst :
    (String → String → Option (Dict String)) → (List Route → String → String → Resolution) → Type 0
TakesFirst match_path resolve =
    (rs : List Route) (verb path : String)
    → resolve rs verb path
      ≡ resolution (full_match match_path rs verb path) (has_path match_path rs path)
