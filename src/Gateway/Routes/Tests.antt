-- ===== src/Gateway/Routes/Tests.antt =====
-- The routes of examples/webapi.py at a matching by templates.
use iox2_jsonrpc.Base.{
  String, ◌≡◌, ◌≢◌, ◌↔◌, refl, Option, none, List, [], ◌∷◌, ◌==◌, has_char, split, join,
  if◌then◌else◌,
}
use iox2_jsonrpc.Python.Dict.{Dict}
use iox2_jsonrpc.Gateway.Routes.{
  refresh_now, get_method, post_method, controller_detail, Route, routes, Resolution, reached,
  method_not_allowed, not_found, Segment, slash, template_text, fit, full_match, has_path,
  resolution, templates, FollowsTemplates,
}
use iox2_jsonrpc.Gateway.Routes.Taken.{advertised_path, arguments}
use iox2_jsonrpc.Gateway.Routes.Reached.{routes-method_iff}

abbrev match_template : List (List Segment) → String → String → Option (Dict String)
match_template [] text path = none
match_template (template ∷ ts) text path =
    let rest = match_template ts text path in
    if template_text template == text then fit template (split slash path) else rest

abbrev match_path : String → String → Option (Dict String)
match_path = match_template templates

abbrev resolve : List Route → String → String → Resolution
resolve rs verb path = resolution (full_match match_path rs verb path) (has_path match_path rs path)

match_path-FollowsTemplates : FollowsTemplates match_path
unfolding join
match_path-FollowsTemplates = (
  λ p. refl,
  (
    λ p. refl,
    (
      λ p. refl,
      (
        λ p. refl,
        (
          λ p. refl,
          (
            λ p. refl,
            (
              λ p. refl,
              (
                λ p. refl,
                (λ p. refl, (λ p. refl, (λ p. refl, (λ p. refl, (λ p. refl, (λ p. refl, tt)))))),
              ),
            ),
          ),
        ),
      ),
    ),
  ),
)

abbrev method : String
method = "on"

-- A controller named `refresh` cannot be described by its own path, a verb that no route has is refused.
resolve_examples :
    (resolve routes "GET" "/controllers/refresh" ≡ reached refresh_now [])
    × (resolve routes "GET" "/controllers/lamp"
        ≡ reached controller_detail (("controller", "lamp") ∷ []))
    × (resolve routes "DELETE" "/controllers/lamp/on" ≡ method_not_allowed)
    × (resolve routes "GET" "/lamps" ≡ not_found)
unfolding full_match has_path routes join split
resolve_examples = (refl, refl, refl, refl)

routes-method_iff_example :
    ((resolve routes "GET" (advertised_path "lamp" "on")
        ≡ reached get_method (arguments "lamp" "on"))
      ↔ ((method ≢ "methods") × (method ≢ "schema")))
    × ((resolve routes "POST" (advertised_path "lamp" "on")
          ≡ reached post_method (arguments "lamp" "on"))
        ↔ (method ≢ "rpc"))
unfolding has_char
routes-method_iff_example =
    routes-method_iff match_path resolve match_path-FollowsTemplates (λ rs verb path. refl) "lamp"
      "on" refl refl refl refl
