-- ===== src/Server/Life/Deletions/Closed.antt =====
-- `close` of iox2_jsonrpc/iceoryx_server.py deletes all that the server holds, and so do a `with` and
-- `run_forever` when they end.
use iox2_jsonrpc.Base.{
  ℕ, ◌≡◌, refl, sym, ap, subst, Option, none, some, List, ◌∷◌, ◌++◌, true, Bool-cases, inl, inr,
}
use iox2_jsonrpc.Python.Outcome.{Outcome, Action, returned, raised}
use iox2_jsonrpc.Python.Action.{continue}
use iox2_jsonrpc.Helpers.Cleanup.{delete_iox2_object}
use iox2_jsonrpc.Helpers.Cleanup.BestEffort.{
  KeepsExceptions, best_effort_cleanup_dead_nodes-KeepsExceptions,
  delete_iox2_object-KeepsExceptions,
}
use iox2_jsonrpc.Server.{after_cleanup, finally}
use iox2_jsonrpc.Server.Life.{
  Iox2JsonRpcServer, Iceoryx, release, released, close, close_schema_server, close_rpc_server,
  close_schema_service, close_rpc_service, clean_node, beside,
}
use iox2_jsonrpc.Server.Life.Loop.{stops, rounds, stopped, run_forever, with_server}
use iox2_jsonrpc.Server.Life.Closing.{IsClosed}
use iox2_jsonrpc.Server.Life.Logged.{swallow-Keeps, clean_node-Keeps}
use iox2_jsonrpc.Server.Life.Deletions.{
  Event, server_deleted, service_deleted, shown_optional, log, silent_target-Keeps, traced,
  deletion, deletion_of, with_deletions,
}

module _ {W E O : Type 0} (delete : O → Option (Action W (Unit {0}))) (event : O → E) where
  deleted-log :
      (o : O) (act : Option (Action W (Unit {0}))) (w : W) (l : List E)
      → log (delete_iox2_object (shown_optional (event o) act) (w, l)).1
        ≡ deletion_of delete event o act ++ l
  unfolding delete_iox2_object
  deleted-log o none w l = refl
  deleted-log o (some act) w l = swallow-Keeps log (act w).0 ((act w).1, event o ∷ l)

module _ {F W E : Type 0} where
  -- The step returns with this object and this log, or raises what is no `Exception`.
  abbrev pub EndsWith : F → List E → Outcome (Unit {0}) × (F × (W × List E)) → Type 0
  EndsWith s l (returned u, (s', (w, l'))) = (s' ≡ s) × (l' ≡ l)
  EndsWith s l (raised e, q) = KeepsExceptions (raised e)

  >>-EndsWith :
      (s s' : F) (l l' : List E) (r : Outcome (Unit {0}) × (F × (W × List E)))
      (n : Action (F × (W × List E)) (Unit {0}))
      → EndsWith s l r
      → ((w : W) → EndsWith s' l' (n (s, (w, l))))
      → EndsWith s' l' (continue r.0 (λ _. n) r.1)
  >>-EndsWith s s' l l' (returned u, (s₁, (w, l₁))) n (e, f) k = rw (e, f) (k w)
  >>-EndsWith s s' l l' (raised e, q) n h k = h

  released-EndsWith :
      (cleared s : F) (l : List E) (o : Outcome (Unit {0})) (q : W × List E)
      → KeepsExceptions o
      → log q ≡ l
      → EndsWith cleared l (released cleared s (o, q))
  released-EndsWith cleared s l (returned u) q k h = (refl, h)
  released-EndsWith cleared s l (raised e) q k h = k

  beside-EndsWith :
      (s : F) (l : List E) (o : Outcome (Unit {0})) (q : W × List E)
      → KeepsExceptions o
      → log q ≡ l
      → EndsWith s l (o, (s, q))
  beside-EndsWith s l (returned u) q k h = (refl, h)
  beside-EndsWith s l (raised e) q k h = k

  module _ {O : Type 0} (delete : O → Option (Action W (Unit {0}))) (event : O → E) where
    release-EndsWith :
        (o : Option O) (cleared s : F) (w : W) (l : List E)
        → (o ≡ none → s ≡ cleared)
        → EndsWith cleared
            (deletion delete event o ++ l)
            (release (λ o. shown_optional (event o) (delete o)) o cleared (s, (w, l)))
    unfolding release
    release-EndsWith none cleared s w l h = (h refl, refl)
    release-EndsWith (some o) cleared s w l h =
        let r = delete_iox2_object (shown_optional (event o) (delete o)) (w, l) in
        released-EndsWith cleared s (deletion_of delete event o (delete o) ++ l) r.0 r.1
          (delete_iox2_object-KeepsExceptions (shown_optional (event o) (delete o)) (w, l))
          (deleted-log delete event o (delete o) w l)

-- The server without ports and services.
abbrev pub emptied : {S V P : Type 0} → Iox2JsonRpcServer S V P → Iox2JsonRpcServer S V P
emptied s = record s {
  schema_server = none;
  rpc_server = none;
  schema_service = none;
  rpc_service = none;
}

pub emptied-IsClosed : {S V P : Type 0} (s : Iox2JsonRpcServer S V P) → IsClosed (emptied s)
emptied-IsClosed s = record {
  no_rpc_service = refl;
  no_schema_service = refl;
  no_rpc_server = refl;
  no_schema_server = refl;
}

-- A return, or an instance of `Exception`.
abbrev pub IsOrdinary : Outcome (Unit {0}) → Type 0
IsOrdinary (returned u) = Unit
IsOrdinary (raised e) = e.is_exception ≡ true

stopped_state : {Q : Type 0} (o : Outcome (Unit {0})) (q : Q) → (stopped (o, q)).1 ≡ q
unfolding stopped
stopped_state (returned u) q = refl
stopped_state (raised e) q = elim (Bool-cases (stops e)) [ inl x ↦ rw x refl | inr x ↦ rw x refl ]

module _ {S W V P X U : Type 0} (iox : Iceoryx W V P X U) where
  pub close-EndsWith :
      (s : Iox2JsonRpcServer S V P) (w : W) (l : List (Event V P))
      → EndsWith (emptied s) (with_deletions iox s l) (close (traced iox) (s, (w, l)))
  unfolding close close_schema_server close_rpc_server close_schema_service close_rpc_service
  close-EndsWith s w l =
      let s₁ : Iox2JsonRpcServer S V P = record s { schema_server = none } in
      let s₂ : Iox2JsonRpcServer S V P = record s₁ { rpc_server = none } in
      let s₃ : Iox2JsonRpcServer S V P = record s₂ { schema_service = none } in
      let l₁ = deletion iox.delete_server server_deleted s.schema_server ++ l in
      let l₂ = deletion iox.delete_server server_deleted s.rpc_server ++ l₁ in
      let l₃ = deletion iox.delete_service service_deleted s.schema_service ++ l₂ in
      let l₄ = deletion iox.delete_service service_deleted s.rpc_service ++ l₃ in
      >>-EndsWith (emptied s) (emptied s) l₄ l₄ _ (beside (clean_node (traced iox)))
        (>>-EndsWith s₃ (emptied s) l₃ l₄ _ (close_rpc_service (traced iox))
          (>>-EndsWith s₂ s₃ l₂ l₃ _ (close_schema_service (traced iox))
            (>>-EndsWith s₁ s₂ l₁ l₂ _ (close_rpc_server (traced iox))
              (release-EndsWith iox.delete_server server_deleted s.schema_server s₁ s w l
                (λ e. ap (λ x. record s { schema_server = x }) e))
              (λ w.
                release-EndsWith iox.delete_server server_deleted s.rpc_server s₂ s₁ w l₁
                  (λ e. ap (λ x. record s₁ { rpc_server = x }) e)))
            (λ w.
              release-EndsWith iox.delete_service service_deleted s.schema_service s₃ s₂ w l₂
                (λ e. ap (λ x. record s₂ { schema_service = x }) e)))
          (λ w.
            release-EndsWith iox.delete_service service_deleted s.rpc_service (emptied s) s₃ w l₃
              (λ e. ap (λ x. record s₃ { rpc_service = x }) e)))
        (λ w.
          beside-EndsWith (emptied s) l₄ (clean_node (traced iox) (w, l₄)).0
            (clean_node (traced iox) (w, l₄)).1
            (best_effort_cleanup_dead_nodes-KeepsExceptions (some (traced iox).node_target) none 100
              (w, l₄))
            (clean_node-Keeps log (traced iox).node_target 100 (silent_target-Keeps iox.node_target)
              (w, l₄)))

  after_cleanup-EndsWith :
      (s : Iox2JsonRpcServer S V P) (l : List (Event V P)) (o : Outcome (Unit {0}))
      (r : Outcome (Unit {0}) × (Iox2JsonRpcServer S V P × (W × List (Event V P))))
      → EndsWith (emptied s) l r
      → IsOrdinary (after_cleanup o r.0)
      → IsClosed r.1.0 × (log r.1.1 ≡ l)
  unfolding after_cleanup
  after_cleanup-EndsWith s l o (returned u, (s', q)) (e, f) x =
      (subst IsClosed (sym e) (emptied-IsClosed s), f)
  after_cleanup-EndsWith s l o (raised e, q) h x = absurd (cc (h, x))

  -- However the body of a `with` ends, if the statement then returns or raises an `Exception`, the
  -- deletion of everything that the server held at the end of the body has been called, and the server
  -- holds nothing.
  with_server-Deletes :
      (body : Action (Iox2JsonRpcServer S V P × (W × List (Event V P))) (Unit {0}))
      (q : Iox2JsonRpcServer S V P × (W × List (Event V P)))
      → IsOrdinary (with_server (close (traced iox)) body q).0
      → let end = (body q).1 in
        let after = (with_server (close (traced iox)) body q).1 in
        IsClosed after.0 × (log after.1 ≡ with_deletions iox end.0 (log end.1))
  unfolding with_server finally
  with_server-Deletes body q h =
      let (o, (s, (w, l))) = body q in
      after_cleanup-EndsWith s (with_deletions iox s l) o (close (traced iox) (s, (w, l)))
        (close-EndsWith s w l) h

  -- However the loop of `run_forever` ends, by an interrupt, by a failing wait or by an exception of the
  -- serving, if it then returns or raises an `Exception`, the deletion of every port and service that the
  -- server held when the loop ended has been called, ports first, and the server holds none of them.
  pub run_forever-Deletes :
      (node_wait drain_schema drain_rpc : Action
        (Iox2JsonRpcServer S V P × (W × List (Event V P)))
        (Unit {0}))
      (fuel : ℕ) (q : Iox2JsonRpcServer S V P × (W × List (Event V P)))
      → IsOrdinary (run_forever node_wait drain_schema drain_rpc (close (traced iox)) fuel q).0
      → let end = (rounds node_wait drain_schema drain_rpc fuel q).1 in
        let after = (run_forever node_wait drain_schema drain_rpc (close (traced iox)) fuel q).1 in
        IsClosed after.0 × (log after.1 ≡ with_deletions iox end.0 (log end.1))
  unfolding run_forever with_server
  run_forever-Deletes node_wait drain_schema drain_rpc fuel q h =
      let r = rounds node_wait drain_schema drain_rpc fuel q in
      subst
        (λ end.
          let after =
            (run_forever node_wait drain_schema drain_rpc (close (traced iox)) fuel q).1 in
          IsClosed after.0 × (log after.1 ≡ with_deletions iox end.0 (log end.1)))
        (stopped_state r.0 r.1)
        (with_server-Deletes (λ q. stopped (rounds node_wait drain_schema drain_rpc fuel q)) q h)
