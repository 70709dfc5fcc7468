-- ===== src/Gateway/Openapi/Paths.antt =====
-- Which entry of the OpenAPI paths of examples/webapi.py a discovered method has.
use iox2_jsonrpc.Base.{
  String, ◌≡◌, ◌≢◌, refl, ap, subst, ◌∙◌, false, some, List, [], ◌∷◌, ◌++◌, All, ◌==◌, eq_iff,
  eq_refl, Bool-cases, inl, inr, if_true, if_false, is_none, not,
}
use iox2_jsonrpc.Python.Dict.{Dict, get, put, get-put, contains}
use iox2_jsonrpc.Python.Value.{Value}
use iox2_jsonrpc.Models.{RpcMethodDescriptor, RpcServiceDescriptor}
use iox2_jsonrpc.Gateway.Openapi.{
  dynamic_openapi_schema_for_method, set_default, method_path, add_methods, add_fixed,
  add_descriptors,
}

put-other :
    (k j : String) (item : Value) (paths : Dict Value)
    → j ≢ k
    → get k (put j item paths) ≡ get k paths
put-other k j item paths ne = elim (Bool-cases (j == k)) [
  | inl e ↦ absurd (ne ((eq_iff j k).0 e))
  | inr e ↦ get-put j k item paths ∙ if_false (j == k) _ _ e
]

set_default-keeps :
    (k j : String) (item x : Value) (paths : Dict Value)
    → get k paths ≡ some x
    → get k (set_default j item paths) ≡ some x
unfolding set_default
set_default-keeps k j item x paths h = elim (Bool-cases (contains j paths)) [
  | inl e ↦ ap (get k) (if_true (contains j paths) _ _ e) ∙ h
  | inr e ↦
      ap (get k) (if_false (contains j paths) _ _ e)
      ∙ put-other k j item paths (λ same.
        absurd (cc (subst (λ i. contains i paths ≡ false) same e, ap (λ o. not (is_none o)) h)))
      ∙ h
]

add_fixed-keeps :
    (k controller : String) (x : Value) (paths : Dict Value)
    → get k paths ≡ some x
    → get k (add_fixed controller paths) ≡ some x
unfolding add_fixed
add_fixed-keeps k controller x paths h =
    set_default-keeps k _ _ x _ (set_default-keeps k _ _ x _ (set_default-keeps k _ _ x paths h))

-- No method of the list has the path.
abbrev pub NoPath : String → String → List RpcMethodDescriptor → Type 0
NoPath k controller methods = All (λ m. method_path controller m.name ≢ k) methods

add_methods-keeps :
    (k controller : String) (methods : List RpcMethodDescriptor) (paths : Dict Value)
    → NoPath k controller methods
    → get k (add_methods controller methods paths) ≡ get k paths
unfolding add_methods
add_methods-keeps k controller [] paths h = refl
add_methods-keeps k controller (m ∷ methods) paths h =
    add_methods-keeps k controller methods _ h.1
    ∙ put-other k (method_path controller m.name) (dynamic_openapi_schema_for_method m) paths h.0

add_methods-has :
    (controller : String) (ms ns : List RpcMethodDescriptor) (m : RpcMethodDescriptor)
    (paths : Dict Value)
    → NoPath (method_path controller m.name) controller ns
    → get (method_path controller m.name) (add_methods controller (ms ++ m ∷ ns) paths)
      ≡ some (dynamic_openapi_schema_for_method m)
unfolding add_methods
add_methods-has controller [] ns m paths h =
    let k = method_path controller m.name in
    add_methods-keeps k controller ns _ h
    ∙ get-put k k (dynamic_openapi_schema_for_method m) paths
    ∙ if_true (k == k) _ _ (eq_refl k)
add_methods-has controller (x ∷ ms) ns m paths h = add_methods-has controller ms ns m _ h

add_descriptors-keeps :
    (k : String) (x : Value) (ds : List RpcServiceDescriptor) (paths : Dict Value)
    → All (λ d. NoPath k d.controller d.methods) ds
    → get k paths ≡ some x
    → get k (add_descriptors ds paths) ≡ some x
unfolding add_descriptors
add_descriptors-keeps k x [] paths h e = e
add_descriptors-keeps k x (d ∷ ds) paths h e =
    add_descriptors-keeps k x ds _ h.1
      (add_methods-keeps k d.controller d.methods _ h.0 ∙ add_fixed-keeps k d.controller x paths e)

-- Under the path of its controller and its name, a method of a loaded descriptor has the entry made of
-- its own schemas, whatever FastAPI lists there, if no later method of this descriptor or of a later one
-- has the same path.
pub add_descriptors-method :
    (ds es : List RpcServiceDescriptor) (d : RpcServiceDescriptor)
    (ms ns : List RpcMethodDescriptor) (m : RpcMethodDescriptor) (paths : Dict Value)
    → d.methods ≡ ms ++ m ∷ ns
    → NoPath (method_path d.controller m.name) d.controller ns
    → All (λ e. NoPath (method_path d.controller m.name) e.controller e.methods) es
    → get (method_path d.controller m.name) (add_descriptors (ds ++ d ∷ es) paths)
      ≡ some (dynamic_openapi_schema_for_method m)
unfolding add_descriptors
add_descriptors-method [] es d ms ns m paths e h hs =
    add_descriptors-keeps (method_path d.controller m.name) _ es _ hs (
      ap
        (λ l.
          get (method_path d.controller m.name)
            (add_methods d.controller l (add_fixed d.controller paths)))
        e
      ∙ add_methods-has d.controller ms ns m _ h)
add_descriptors-method (x ∷ ds) es d ms ns m paths e h hs =
    add_descriptors-method ds es d ms ns m _ e h hs
