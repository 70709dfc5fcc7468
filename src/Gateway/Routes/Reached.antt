-- ===== src/Gateway/Routes/Reached.antt =====
-- Which handler of examples/webapi.py a path with a controller and a method reaches.
use iox2_jsonrpc.Base.{
  String, ◌≡◌, ◌≢◌, ◌↔◌, refl, sym, Bool, false, Option, some, List, [], ◌∷◌, ◌==◌, eq_iff,
  has_char, Bool-cases, inl, inr, if◌then◌else◌,
}
use iox2_jsonrpc.Python.Dict.{Dict}
use iox2_jsonrpc.Gateway.Routes.{
  controller_methods, controller_rpc, controller_detail, post_method, get_method, Route, routes,
  Resolution, reached, slash, full_match, resolution, FollowsTemplates, TakesFirst,
}
use iox2_jsonrpc.Gateway.Routes.Taken.{
  arguments, IsTaken, path-IsTaken, advertised_path, split-advertised_path,
}

module _ (match_path : String → String → Option (Dict String)) where
  get_match :
      (c m path : String)
      → IsTaken match_path c m path
      → full_match match_path routes "GET" path ≡ (
          if "methods" == m
          then some (controller_methods, ("controller", c) ∷ [])
          else (if "schema" == m
              then some (controller_detail, ("controller", c) ∷ [])
              else some (get_method, arguments c m)))
  unfolding routes full_match
  get_match c m path (e1, e2, e3, e4, e5, e6, e7, e8, e9, e10, e11, e12, e13, _) =
      rw (e1, e2, e3, e4, e5, e6, e7, e8, e9, e10, e11, e12, e13)
        (elim (Bool-cases ("methods" == m)) [
          | inl x ↦ rw x refl
          | inr x ↦ rw x (elim (Bool-cases ("rpc" == m)) [
            | inl y ↦
                rw y (elim (Bool-cases ("schema" == m)) [ inl z ↦ rw z refl | inr z ↦ rw z refl ])
            | inr y ↦
                rw y (elim (Bool-cases ("schema" == m)) [ inl z ↦ rw z refl | inr z ↦ rw z refl ])
          ])
        ])

  post_match :
      (c m path : String)
      → IsTaken match_path c m path
      → full_match match_path routes "POST" path ≡ (
          if "rpc" == m
          then some (controller_rpc, ("controller", c) ∷ [])
          else some (post_method, arguments c m))
  unfolding routes full_match
  post_match c m path (e1, e2, e3, e4, e5, e6, e7, e8, e9, e10, e11, e12, e13, _) =
      rw (e1, e2, e3, e4, e5, e6, e7, e8, e9, e10, e11, e12, e13)
        (elim (Bool-cases ("methods" == m)) [
          | inl x ↦ rw x (elim (Bool-cases ("rpc" == m)) [
            | inl y ↦ rw y refl
            | inr y ↦
                rw y (elim (Bool-cases ("schema" == m)) [ inl z ↦ rw z refl | inr z ↦ rw z refl ])
          ])
          | inr x ↦ rw x (elim (Bool-cases ("rpc" == m)) [
            | inl y ↦ rw y refl
            | inr y ↦
                rw y (elim (Bool-cases ("schema" == m)) [ inl z ↦ rw z refl | inr z ↦ rw z refl ])
          ])
        ])

differs : (text m : String) → (text == m) ≡ false → m ≢ text
differs text m h e = absurd (cc (h, (eq_iff text m).1 (sym e)))

get_iff :
    (c m : String) (known : Bool)
    → (resolution
          (if "methods" == m
            then some (controller_methods, ("controller", c) ∷ [])
            else (if "schema" == m
                then some (controller_detail, ("controller", c) ∷ [])
                else some (get_method, arguments c m)))
          known
        ≡ reached get_method (arguments c m))
      ↔ ((m ≢ "methods") × (m ≢ "schema"))
get_iff c m known = elim (Bool-cases ("methods" == m)) [
  | inl x ↦ rw x (λ e. absurd (cc e), λ h. absurd (h.0 (sym ((eq_iff "methods" m).0 x))))
  | inr x ↦ rw x (elim (Bool-cases ("schema" == m)) [
    | inl y ↦ rw y (λ e. absurd (cc e), λ h. absurd (h.1 (sym ((eq_iff "schema" m).0 y))))
    | inr y ↦ rw y (λ e. (differs "methods" m x, differs "schema" m y), λ h. refl)
  ])
]

post_iff :
    (c m : String) (known : Bool)
    → (resolution
          (if "rpc" == m
            then some (controller_rpc, ("controller", c) ∷ [])
            else some (post_method, arguments c m))
          known
        ≡ reached post_method (arguments c m))
      ↔ (m ≢ "rpc")
post_iff c m known = elim (Bool-cases ("rpc" == m)) [
  | inl x ↦ rw x (λ e. absurd (cc e), λ h. absurd (h (sym ((eq_iff "rpc" m).0 x))))
  | inr x ↦ rw x (λ e. differs "rpc" m x, λ h. refl)
]

-- If FastAPI takes the first route that has a request's path and verb, and a parameter of a path is one
-- part of it that is not empty, then GET /controllers/c/m reaches get_method with c and m exactly if m
-- is neither methods nor schema, and POST reaches post_method exactly if m is not rpc.
pub routes-method_iff :
    (match_path : String → String → Option (Dict String))
    (resolve : List Route → String → String → Resolution)
    → FollowsTemplates match_path
    → TakesFirst match_path resolve
    → (c m : String) → (c == "") ≡ false
    → (m == "") ≡ false
    → has_char slash c ≡ false
    → has_char slash m ≡ false
    → ((resolve routes "GET" (advertised_path c m) ≡ reached get_method (arguments c m))
        ↔ ((m ≢ "methods") × (m ≢ "schema")))
      × ((resolve routes "POST" (advertised_path c m) ≡ reached post_method (arguments c m))
          ↔ (m ≢ "rpc"))
routes-method_iff match_path resolve follows first c m ec em hc hm =
    let path = advertised_path c m in
    let taken = path-IsTaken match_path c m path follows (split-advertised_path c m hc hm) ec em in
    (
      rw (first routes "GET" path, get_match match_path c m path taken) (get_iff c m _),
      rw (first routes "POST" path, post_match match_path c m path taken) (post_iff c m _),
    )
