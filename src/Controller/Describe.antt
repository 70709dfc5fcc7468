-- ===== src/Controller/Describe.antt =====
-- `describe_controller` of iox2_jsonrpc/controller.py publishes what `iter_rpc_methods` yields.
use iox2_jsonrpc.Base.{String, ◌≡◌, refl, subst, Option, none, some, List, map, arith}
use iox2_jsonrpc.Python.Outcome.{Outcome, returned, ◌>>=◌, >>=-returned}
use iox2_jsonrpc.Models.{RpcMethodDescriptor, RpcServiceDescriptor, jsonrpc_2_0}
use iox2_jsonrpc.Controller.{
  Controller, Bindings, done, fails, yields, read_name, iter_rpc_methods, rpc_endpoint_name,
  schema_endpoint_name, describe_binding, describe_methods, describe_controller, given_or,
}
use iox2_jsonrpc.Controller.Scan.{listed, Ends}

pub read_name-returned :
    (o : Option String) (attribute : String) {name : String}
    → read_name o attribute ≡ returned name
    → o ≡ some name
read_name-returned (some n) attribute h = ground arith
read_name-returned none attribute h = cc

-- The last steps of `describe_controller`, over the outcomes that they use.
abbrev assemble :
    Outcome (List RpcMethodDescriptor)
    → Outcome String
    → Outcome String
    → Outcome String
    → Outcome String
    → Outcome RpcServiceDescriptor
assemble methods service controller rpc schema = methods >>= λ ms. service >>= λ a.
    controller >>= λ b. rpc >>= λ x. schema >>= λ y. returned (record {
      protocol = jsonrpc_2_0;
      service = a;
      controller = b;
      rpc_endpoint = x;
      schema_endpoint = y;
      methods = ms;
    })

assemble-returned :
    (methods : Outcome (List RpcMethodDescriptor)) (service controller rpc schema : Outcome String)
    (d : RpcServiceDescriptor)
    → assemble methods service controller rpc schema ≡ returned d
    → (methods ≡ returned d.methods)
      × (service ≡ returned d.service)
      × (controller ≡ returned d.controller)
      × (rpc ≡ returned d.rpc_endpoint)
      × (schema ≡ returned d.schema_endpoint)
assemble-returned methods service controller rpc schema d h = ground arith

module _ {S : Type 0} where
  -- The loop returns only if the generator ends, and then one descriptor for each binding.
  pub describe_methods-returned :
      (name : String) (bs : Bindings S) {ms : List RpcMethodDescriptor}
      → describe_methods (some name) bs ≡ returned ms
      → Ends bs × (ms ≡ map (describe_binding name) (listed bs))
  unfolding describe_methods listed
  describe_methods-returned name done h = (tt, ground arith)
  describe_methods-returned name (fails e) h = cc
  describe_methods-returned name (yields b rest) h =
      let (ms, e, q) = >>=-returned (describe_methods (some name) rest) _ h in
      let (ends, same) = describe_methods-returned name rest e in (ends, ground arith)

  pub describe_methods_total :
      (name : String) (bs : Bindings S)
      → Ends bs
      → describe_methods (some name) bs ≡ returned (map (describe_binding name) (listed bs))
  unfolding describe_methods listed
  describe_methods_total name done h = refl
  describe_methods_total name (fails e) h = absurd h
  describe_methods_total name (yields b rest) h = rw (describe_methods_total name rest h)

  -- A descriptor carries the controller's two names and the given or derived endpoint names, and
  -- lists the methods that the generator yields, in its order, under their names with the
  -- controller's name in front.
  pub describe_controller-returned :
      (c : Controller S) (rpc schema : Option String) (s : S) (d : RpcServiceDescriptor)
      → describe_controller c rpc schema s ≡ returned d
      → Ends (iter_rpc_methods c s)
        × (c.service_name s ≡ some d.service)
        × (c.controller_name s ≡ some d.controller)
        × (d.methods ≡ map (describe_binding d.controller) (listed (iter_rpc_methods c s)))
        × (given_or rpc (rpc_endpoint_name c s) ≡ returned d.rpc_endpoint)
        × (given_or schema (schema_endpoint_name c s) ≡ returned d.schema_endpoint)
  unfolding describe_controller
  describe_controller-returned c rpc schema s d h =
      let (e, ea, eb, ex, ey) =
        assemble-returned (describe_methods (c.controller_name s) (iter_rpc_methods c s))
          (read_name (c.service_name s) "service_name")
          (read_name (c.controller_name s) "controller_name") (given_or rpc (rpc_endpoint_name c s))
          (given_or schema (schema_endpoint_name c s)) d h in
      let name = read_name-returned (c.controller_name s) "controller_name" eb in
      let (ends, same) =
        describe_methods-returned d.controller (iter_rpc_methods c s)
          (subst (λ o. describe_methods o (iter_rpc_methods c s) ≡ returned d.methods) name e) in
      (ends, read_name-returned (c.service_name s) "service_name" ea, name, same, ex, ey)
