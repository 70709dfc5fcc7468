-- ===== src/Server/Life/Closing.antt =====
-- The fields that `close` of iox2_jsonrpc/iceoryx_server.py leaves; which deletions it calls is in
-- Deletions.
use iox2_jsonrpc.Base.{
  ◌≡◌, refl, sym, ap, subst, ◌∙◌, true, false, Option, none, some, if_true, if_false,
}
use iox2_jsonrpc.Python.Outcome.{Exception, Outcome, Action, returned, raised}
use iox2_jsonrpc.Python.Action.{raise, continue}
use iox2_jsonrpc.Helpers.Cleanup.{delete_iox2_object}
use iox2_jsonrpc.Helpers.Cleanup.BestEffort.{
  KeepsExceptions, best_effort_cleanup_dead_nodes-KeepsExceptions,
  delete_iox2_object-KeepsExceptions,
}
use iox2_jsonrpc.Server.Life.{
  Iox2JsonRpcServer, Iceoryx, release, released, close, close_schema_server, close_rpc_server,
  close_schema_service, close_rpc_service, clean_node, beside,
}
use iox2_jsonrpc.Server.Life.Opening.{closing_on_failure}

-- The server holds no port and no service.
pub record IsClosed {S V P : Type 0} (s : Iox2JsonRpcServer S V P) : Type 0 where
  pub no_rpc_service : s.rpc_service ≡ none
  pub no_schema_service : s.schema_service ≡ none
  pub no_rpc_server : s.rpc_server ≡ none
  pub no_schema_server : s.schema_server ≡ none

module _ {F W : Type 0} where
  -- The step returns with this property of the object, or raises what is no `Exception`.
  abbrev pub Ends : (F → Type 0) → Outcome (Unit {0}) × (F × W) → Type 0
  Ends P (returned u, q) = P q.0
  Ends P (raised e, q) = e.is_exception ≡ false

  >>-Ends :
      (P P' : F → Type 0) (r : Outcome (Unit {0}) × (F × W)) (n : Action (F × W) (Unit {0}))
      → Ends P r
      → ((s : F) (w : W) → P s → Ends P' (n (s, w)))
      → Ends P' (continue r.0 (λ _. n) r.1)
  >>-Ends P P' (returned u, (s, w)) n h k = k s w h
  >>-Ends P P' (raised e, q) n h k = h

  released-Ends :
      (P : F → Type 0) (cleared s : F) (o : Outcome (Unit {0})) (w : W)
      → KeepsExceptions o
      → P cleared
      → Ends P (released cleared s (o, w))
  released-Ends P cleared s (returned u) w k h = h
  released-Ends P cleared s (raised e) w k h = k

  release-Ends :
      {O : Type 0} (P : F → Type 0) (delete : O → Option (Action W (Unit {0}))) (o : Option O)
      (cleared s : F) (w : W)
      → (o ≡ none → P s)
      → P cleared
      → Ends P (release delete o cleared (s, w))
  unfolding release
  release-Ends P delete none cleared s w h k = h refl
  release-Ends P delete (some o) cleared s w h k =
      released-Ends P cleared s (delete_iox2_object (delete o) w).0
        (delete_iox2_object (delete o) w).1 (delete_iox2_object-KeepsExceptions (delete o) w) k

  beside-Ends :
      (P : F → Type 0) (o : Outcome (Unit {0})) (s : F) (w : W)
      → KeepsExceptions o
      → P s
      → Ends P (o, (s, w))
  beside-Ends P (returned u) s w k h = h
  beside-Ends P (raised e) s w k h = k

  Ends-returned :
      (P : F → Type 0) (r : Outcome (Unit {0}) × (F × W)) (s : F) (w : W)
      → Ends P r
      → r ≡ (returned tt, (s, w))
      → P s
  Ends-returned P r s w h e = subst (Ends P) e h

module _ {S W V P X U : Type 0} (iox : Iceoryx W V P X U) where
  pub close-Ends : (s : Iox2JsonRpcServer S V P) (w : W) → Ends IsClosed (close iox (s, w))
  unfolding close close_schema_server close_rpc_server close_schema_service close_rpc_service
  close-Ends s w =
      let both : Iox2JsonRpcServer S V P → Type 0 =
        λ s. (s.schema_server ≡ none) × (s.rpc_server ≡ none) in
      let three : Iox2JsonRpcServer S V P → Type 0 = λ s. both s × (s.schema_service ≡ none) in
      >>-Ends IsClosed IsClosed _ (beside (clean_node iox))
        (>>-Ends three IsClosed _ (close_rpc_service iox)
          (>>-Ends both three _ (close_schema_service iox)
            (>>-Ends (λ s. s.schema_server ≡ none) both _ (close_rpc_server iox)
              (release-Ends (λ s. s.schema_server ≡ none) iox.delete_server s.schema_server
                (record s { schema_server = none }) s w (λ e. e) refl)
              (λ s w h.
                release-Ends both iox.delete_server s.rpc_server (record s { rpc_server = none }) s
                  w (λ e. (h, e)) (h, refl)))
            (λ s w h.
              release-Ends three iox.delete_service s.schema_service
                (record s { schema_service = none }) s w (λ e. (h, e)) (h, refl)))
          (λ s w h.
            release-Ends IsClosed iox.delete_service s.rpc_service (record s { rpc_service = none })
              s w
              (λ e. record {
                no_rpc_service = e;
                no_schema_service = h.1;
                no_rpc_server = h.0.1;
                no_schema_server = h.0.0;
              })
              (record {
                no_rpc_service = refl;
                no_schema_service = h.1;
                no_rpc_server = h.0.1;
                no_schema_server = h.0.0;
              })))
        (λ s w h.
          beside-Ends IsClosed (clean_node iox w).0 s (clean_node iox w).1
            (best_effort_cleanup_dead_nodes-KeepsExceptions (some iox.node_target) none 100 w) h)

  closed-close :
      (s : Iox2JsonRpcServer S V P) (w : W)
      → IsClosed s
      → close iox (s, w) ≡ beside (clean_node iox) (s, w)
  unfolding close close_schema_server close_rpc_server close_schema_service close_rpc_service
      release
  closed-close s w c =
      rw (c.no_schema_server, c.no_rpc_server, c.no_schema_service, c.no_rpc_service) refl

  pub closed_raise :
      (e : Exception) (s : Iox2JsonRpcServer S V P) (w : W)
      → e.is_exception ≡ true
      → (let r = close iox (s, w) in continue {B = Unit {0}} r.0 (λ _. raise e) r.1)
        ≡ closing_on_failure iox (raised e, (s, w))
  unfolding closing_on_failure
  closed_raise e s w y = sym (if_true e.is_exception _ _ y)

  pub not_closed :
      (e : Exception) (s : Iox2JsonRpcServer S V P) (w : W)
      → e.is_exception ≡ false
      → (e' : Exception) (s' : Iox2JsonRpcServer S V P) (w' : W)
      → closing_on_failure iox (raised e, (s, w)) ≡ (raised e', (s', w'))
      → e'.is_exception ≡ true
      → ⊥
  unfolding closing_on_failure
  not_closed e s w y e' s' w' h x =
      let same : e ≡ e' = cc (sym (if_false e.is_exception _ (raised e, (s, w)) y) ∙ h) in
      absurd (cc (y, x, ap (λ e. e.is_exception) same))

  -- A server that `close` has closed without raising has no port and no service any more, and another
  -- `close` deletes nothing: it cleans up the node's dead peers, and leaves the server as it is.
  pub close-close :
      (s s' : Iox2JsonRpcServer S V P) (w w' : W)
      → close iox (s, w) ≡ (returned tt, (s', w'))
      → IsClosed s' × (close iox (s', w') ≡ beside (clean_node iox) (s', w'))
  close-close s s' w w' e =
      let c = Ends-returned IsClosed _ s' w' (close-Ends s w) e in (c, closed-close s' w' c)
