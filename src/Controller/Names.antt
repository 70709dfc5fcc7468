-- ===== src/Controller/Names.antt =====
-- Endpoint names of iox2_jsonrpc/controller.py: when two of them are the same text.
use iox2_jsonrpc.Base.{
  String, Char, ◌≡◌, ◌≢◌, refl, sym, ap, ◌∙◌, Option, none, some, false, arith, ◌&◌, has_char,
  last_code, last_code-append, separator_inj, append_cancel_right, cons-append, nil-append,
  text_append_assoc as append_assoc,
}
use iox2_jsonrpc.Python.Outcome.{Outcome, returned, ◌>>=◌}
use iox2_jsonrpc.Controller.{Controller, rpc_endpoint_name, schema_endpoint_name, read_name}

abbrev pub slash : Char
slash = "/"

-- The two names, of the texts that they are made of.
abbrev pub rpc_name : String → String → String
rpc_name service controller = service & "/" & controller & "/rpc"

abbrev pub schema_name : String → String → String
schema_name service controller = service & "/" & controller & "/schema"

last_code-rpc_name : (a b : String) → last_code 0 (rpc_name a b) ≡ b'c'
unfolding last_code
last_code-rpc_name a b = simp last_code-append

last_code-schema_name : (a b : String) → last_code 0 (schema_name a b) ≡ b'a'
unfolding last_code
last_code-schema_name a b = simp last_code-append

rpc_name-ne-schema_name : (a b c d : String) → rpc_name a b ≢ schema_name c d
rpc_name-ne-schema_name a b c d e =
    omega (arith, last_code-rpc_name a b, last_code-schema_name c d, ap (last_code 0) e)

slash-append : (x : String) → "/" & x ≡ String.◌∷◌ slash x
slash-append x = cons-append slash "" x ∙ ap (λ t. String.◌∷◌ slash t) (nil-append x)

rpc_name_inj :
    (a b c d : String)
    → has_char slash a ≡ false
    → has_char slash c ≡ false
    → rpc_name a b ≡ rpc_name c d
    → (a ≡ c) × (b ≡ d)
rpc_name_inj a b c d p q e =
    let (same, rests) =
      separator_inj slash a c (b & "/rpc") (d & "/rpc") p q (simp (← slash-append) e) in
    (same, append_cancel_right b d "/rpc" rests)

-- The shape of both functions.
abbrev joined : String → Option String → Option String → Outcome String
joined end service controller = read_name service "service_name" >>= λ a.
    read_name controller "controller_name" >>= λ b. returned (a & "/" & b & end)

joined-returned :
    (end : String) (service controller : Option String) {x : String}
    → joined end service controller ≡ returned x
    → (a : String) × (b : String) × (service ≡ some a)
      × (controller ≡ some b)
      × (x ≡ a & "/" & b & end)
joined-returned end (some a) (some b) h = (a, b, refl, refl, ground arith)
joined-returned end (some a) none h = cc
joined-returned end none o h = cc

module _ {S T : Type 0} where
  -- No RPC endpoint has the name of a schema endpoint, be it of the same controller or of another.
  pub rpc_endpoint_name-ne-schema_endpoint_name :
      (c : Controller S) (s : S) (d : Controller T) (t : T) (x y : String)
      → rpc_endpoint_name c s ≡ returned x
      → schema_endpoint_name d t ≡ returned y
      → x ≢ y
  unfolding rpc_endpoint_name schema_endpoint_name
  rpc_endpoint_name-ne-schema_endpoint_name c s d t x y h k e =
      let (a, b, _, _, ex) = joined-returned "/rpc" (c.service_name s) (c.controller_name s) h in
      let (a', b', _, _, ey) =
        joined-returned "/schema" (d.service_name t) (d.controller_name t) k in
      rpc_name-ne-schema_name a b a' b' (sym ex ∙ e ∙ ey)

  -- Two controllers whose service names have no slash share an RPC endpoint name only if they have
  -- the same service name and the same controller name.
  pub rpc_endpoint_name_inj :
      (c : Controller S) (s : S) (d : Controller T) (t : T) (a b : String) {x : String}
      → c.service_name s ≡ some a
      → d.service_name t ≡ some b
      → has_char slash a ≡ false
      → has_char slash b ≡ false
      → rpc_endpoint_name c s ≡ returned x
      → rpc_endpoint_name d t ≡ returned x
      → (a ≡ b) × (c.controller_name s ≡ d.controller_name t)
  unfolding rpc_endpoint_name
  rpc_endpoint_name_inj c s d t a b hc hd p q h k =
      let (a', u, ea, eu, ex) = joined-returned "/rpc" (c.service_name s) (c.controller_name s) h in
      let (b', v, eb, ev, ey) = joined-returned "/rpc" (d.service_name t) (d.controller_name t) k in
      let aa : a' ≡ a = ground arith in
      let bb : b' ≡ b = ground arith in
      let (same, names) = rpc_name_inj a' u b' v (rw aa p) (rw bb q) (sym ex ∙ ey) in
      (sym aa ∙ same ∙ bb, eu ∙ ap some names ∙ sym ev)

  -- Without that condition names collide: a service `a/b` with the controller `c` and a service `a`
  -- with the controller `b/c` have one RPC endpoint name.
  pub rpc_endpoint_name_collides :
      (c : Controller S) (s : S) (d : Controller T) (t : T) (x y z : String)
      → c.service_name s ≡ some (x & "/" & y)
      → c.controller_name s ≡ some z
      → d.service_name t ≡ some x
      → d.controller_name t ≡ some (y & "/" & z)
      → rpc_endpoint_name c s ≡ rpc_endpoint_name d t
  unfolding rpc_endpoint_name
  rpc_endpoint_name_collides c s d t x y z ha hb hc hd =
      rw (ha, hb, hc, hd) (ap returned (simp append_assoc))
