-- ===== src/Endpoint/Series.antt =====
-- Requests that reach the endpoint of iox2_jsonrpc/endpoint.py one after another.
use iox2_jsonrpc.Base.{◌≡◌, refl, List, [], ◌∷◌, map, All}
use iox2_jsonrpc.Python.Outcome.{Outcome, returned}
use iox2_jsonrpc.Models.{JsonRpcRequest, JsonRpcResponse}
use iox2_jsonrpc.Controller.{iter_rpc_methods}
use iox2_jsonrpc.Controller.Scan.{listed, Ends}
use iox2_jsonrpc.Endpoint.{ControllerRpcEndpoint, handle}
use iox2_jsonrpc.Endpoint.Replies.{handle-Answers}
use iox2_jsonrpc.Endpoint.Total.{IsWellBehaved, handle_total}

module _ {S : Type 0} where
  -- The replies, and the controller's state after the last of them.
  unfoldable pub handle_each :
      ControllerRpcEndpoint S → List JsonRpcRequest → S → List (Outcome JsonRpcResponse) × S
  handle_each ep [] s = ([], s)
  handle_each ep (request ∷ requests) s =
      let (reply, s') = handle ep request s in
      let (replies, end) = handle_each ep requests s' in (reply ∷ replies, end)

  -- Where the listing of methods raises nothing and each listed method is well behaved, whatever
  -- state the controller has come to, every request of a series is answered, in order, by a response
  -- with its id.
  pub handle_each-answered :
      (ep : ControllerRpcEndpoint S)
      → ((s : S) → Ends (iter_rpc_methods ep.controller s))
      → ((s : S) → All IsWellBehaved (listed (iter_rpc_methods ep.controller s)))
      → (requests : List JsonRpcRequest) (s : S)
      → (responses : List JsonRpcResponse) × ((handle_each ep requests s).0
          ≡ map returned responses)
        × (map (λ r. r.id) responses ≡ map (λ q. q.id) requests)
  unfolding handle_each
  handle_each-answered ep ends good [] s = ([], refl, refl)
  handle_each-answered ep ends good (request ∷ requests) s =
      let (r, e) = handle_total ep request s (ends s) (good s) in
      let (answers, _) = handle-Answers ep request s r e in
      let (rs, replies, ids) = handle_each-answered ep ends good requests (handle ep request s).1 in
      (r ∷ rs, rw (e, replies) refl, rw (answers, ids) refl)
