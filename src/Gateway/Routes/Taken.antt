-- ===== src/Gateway/Routes/Taken.antt =====
-- How the templates of the routes of examples/webapi.py take a path with a controller and a method.
use iox2_jsonrpc.Base.{
  String, ◌≡◌, refl, sym, ap, ◌∙◌, false, Option, none, some, List, [], ◌∷◌, All, ◌&◌, ◌==◌,
  cons-append, nil-append, text_append_assoc, split-append, split_plain, split, join, has_char,
  Bool-cases, inl, inr, if◌then◌else◌,
}
use iox2_jsonrpc.Python.Dict.{Dict}
use iox2_jsonrpc.Gateway.Routes.{
  Segment, fixed, parameter, slash, template_text, fit, templates, FollowsTemplates,
}

-- The parts of a path of a controller's method.
abbrev pub parts : String → String → List String
parts controller method = "" ∷ "controllers" ∷ controller ∷ method ∷ []

abbrev pub arguments : String → String → Dict String
arguments controller method = ("controller", controller) ∷ ("method", method) ∷ []

fit-fixed :
    (text c m : String)
    → (c == "") ≡ false
    → fit (fixed "" ∷ fixed "controllers" ∷ parameter "controller" ∷ fixed text ∷ []) (parts c m)
      ≡ (if text == m then some (("controller", c) ∷ []) else none)
fit-fixed text c m hc = elim (Bool-cases (text == m)) [
  | inl e ↦ rw (e, hc) refl
  | inr e ↦ rw e refl
]

fit-method :
    (c m : String)
    → (c == "") ≡ false
    → (m == "") ≡ false
    → fit
        (fixed "" ∷ fixed "controllers" ∷ parameter "controller" ∷ parameter "method" ∷ [])
        (parts c m)
      ≡ some (arguments c m)
fit-method c m hc hm = rw hm (rw hc refl)

module _ (match_path : String → String → Option (Dict String)) where
  All-at :
      (ts : List (List Segment)) (path : String) (ps : List String)
      → split slash path ≡ ps
      → All (λ t. (path : String) → match_path (template_text t) path ≡ fit t (split slash path)) ts
      → All (λ t. match_path (template_text t) path ≡ fit t ps) ts
  All-at [] path ps e h = tt
  All-at (t ∷ ts) path ps e h = (h.0 path ∙ ap (fit t) e, All-at ts path ps e h.1)

  -- How the templates of the routes take a path with a controller and a method.
  abbrev pub IsTaken : String → String → String → Type 0
  IsTaken c m path =
      (match_path "/" path ≡ none)
      × (match_path "/health" path ≡ none)
      × (match_path "/refresh" path ≡ none)
      × (match_path "/controllers/refresh" path ≡ none)
      × (match_path "/catalog" path ≡ none)
      × (match_path "/describe" path ≡ none)
      × (match_path "/controllers" path ≡ none)
      × (match_path "/rpc" path ≡ none)
      × (match_path "/controllers/{controller}/methods" path
          ≡ (if "methods" == m then some (("controller", c) ∷ []) else none))
      × (match_path "/controllers/{controller}/rpc" path
          ≡ (if "rpc" == m then some (("controller", c) ∷ []) else none))
      × (match_path "/controllers/{controller}/schema" path
          ≡ (if "schema" == m then some (("controller", c) ∷ []) else none))
      × (match_path "/controllers/{controller}" path ≡ none)
      × (match_path "/controllers/{controller}/{method}" path ≡ some (arguments c m))
      × (match_path "/controllers/{controller}/methods/{method}" path ≡ none)

  pub path-IsTaken :
      (c m path : String)
      → FollowsTemplates match_path
      → split slash path ≡ parts c m
      → (c == "") ≡ false
      → (m == "") ≡ false
      → IsTaken c m path
  unfolding join
  path-IsTaken c m path follows e hc hm =
      let taken = All-at templates path (parts c m) e follows in
      (
        taken.0,
        taken.1.0,
        taken.1.1.0,
        taken.1.1.1.0,
        taken.1.1.1.1.0,
        taken.1.1.1.1.1.0,
        taken.1.1.1.1.1.1.0,
        taken.1.1.1.1.1.1.1.0,
        taken.1.1.1.1.1.1.1.1.0 ∙ fit-fixed "methods" c m hc,
        taken.1.1.1.1.1.1.1.1.1.0 ∙ fit-fixed "rpc" c m hc,
        taken.1.1.1.1.1.1.1.1.1.1.0 ∙ fit-fixed "schema" c m hc,
        taken.1.1.1.1.1.1.1.1.1.1.1.0,
        taken.1.1.1.1.1.1.1.1.1.1.1.1.0 ∙ fit-method c m hc hm,
        taken.1.1.1.1.1.1.1.1.1.1.1.1.1.0,
      )

-- The path that the gateway advertises for a controller's method.
abbrev pub advertised_path : String → String → String
advertised_path controller method = "/controllers/" & controller & "/" & method

slash-append : (x : String) → "/" & x ≡ String.◌∷◌ slash x
slash-append x = cons-append slash "" x ∙ ap (λ t. String.◌∷◌ slash t) (nil-append x)

-- The same text, written with the separators of `split`.
advertised_path-join :
    (c m : String)
    → advertised_path c m
      ≡ "" & String.◌∷◌ slash ("controllers" & String.◌∷◌ slash (c & String.◌∷◌ slash m))
advertised_path-join c m =
    text_append_assoc "/" "controllers/" (c & "/" & m)
    ∙ slash-append ("controllers/" & c & "/" & m)
    ∙ ap (λ t. String.◌∷◌ slash t)
        (text_append_assoc "controllers" "/" (c & "/" & m)
          ∙ ap (λ t. "controllers" & t)
              (slash-append (c & "/" & m) ∙ ap (λ t. String.◌∷◌ slash (c & t)) (slash-append m)))
    ∙ sym (nil-append _)

pub split-advertised_path :
    (c m : String)
    → has_char slash c ≡ false
    → has_char slash m ≡ false
    → split slash (advertised_path c m) ≡ parts c m
unfolding has_char
split-advertised_path c m hc hm =
    ap (split slash) (advertised_path-join c m)
    ∙ split-append slash "" ("controllers" & String.◌∷◌ slash (c & String.◌∷◌ slash m)) refl
    ∙ ap (λ r. "" ∷ r) (split-append slash "controllers" (c & String.◌∷◌ slash m) refl)
    ∙ ap (λ r. "" ∷ "controllers" ∷ r) (split-append slash c m hc)
    ∙ ap (λ r. "" ∷ "controllers" ∷ c ∷ r) (split_plain slash m hm)
