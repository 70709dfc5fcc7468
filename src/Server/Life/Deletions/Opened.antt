-- ===== src/Server/Life/Deletions/Opened.antt =====
-- A constructor of iox2_jsonrpc/iceoryx_server.py that fails deletes what it has made.
use iox2_jsonrpc.Base.{
  ℕ, ◌≡◌, refl, sym, ap, subst, ◌∙◌, ◌⊎◌, inl, inr, true, some, List, ◌∷◌, Bool-cases, arith,
}
use iox2_jsonrpc.Python.Outcome.{Exception, Outcome, Action, returned, raised}
use iox2_jsonrpc.Python.Action.{raise, continue, ◌>>◌}
use iox2_jsonrpc.Server.Life.{Iox2JsonRpcServer, Iceoryx, create_server, close}
use iox2_jsonrpc.Server.Life.Opening.{
  set_rpc_server, set_schema_server, closing_on_failure, open_servers,
}
use iox2_jsonrpc.Server.Life.Closing.{IsClosed, closed_raise, not_closed}
use iox2_jsonrpc.Server.Life.Deletions.{Event, made, log, traced, with_deletions}
use iox2_jsonrpc.Server.Life.Deletions.Made.{Makes, create_server-Makes}
use iox2_jsonrpc.Server.Life.Deletions.Closed.{EndsWith, emptied, emptied-IsClosed, close-EndsWith}

module _ {S W V P X U : Type 0} (iox : Iceoryx W V P X U) where
  -- A constructor's failure at this server and log.
  raise-Deletes :
      (e e' : Exception) (s s' : Iox2JsonRpcServer S V P) (l l' : List (Event V P)) (w' : W)
      (r : Outcome (Unit {0}) × (Iox2JsonRpcServer S V P × (W × List (Event V P))))
      → EndsWith (emptied s) l r
      → continue {B = Unit {0}} r.0 (λ _. raise e) r.1 ≡ (raised e', (s', (w', l')))
      → e'.is_exception ≡ true
      → IsClosed s' × (l' ≡ l)
  raise-Deletes e e' s s' l l' w' (returned u, (s₁, (w₁, l₁))) (f, g) k x = (
    subst IsClosed (sym f ∙ ap (λ r. r.1.0) k) (emptied-IsClosed s),
    sym (ap (λ r. r.1.1.1) k) ∙ g,
  )
  raise-Deletes e e' s s' l l' w' (raised e'', q) h k x = absurd (ground (arith, h, x, k))

  closing_on_failure-Deletes :
      (e e' : Exception) (s s' : Iox2JsonRpcServer S V P) (w w' : W) (l l' : List (Event V P))
      → closing_on_failure (traced iox) (raised e, (s, (w, l))) ≡ (raised e', (s', (w', l')))
      → e'.is_exception ≡ true
      → IsClosed s' × (l' ≡ with_deletions iox s l)
  closing_on_failure-Deletes e e' s s' w w' l l' h x = elim (Bool-cases e.is_exception) [
    | inl y ↦
        raise-Deletes e e' s s' (with_deletions iox s l) l' w' (close (traced iox) (s, (w, l)))
          (close-EndsWith iox s w l) (closed_raise (traced iox) e s (w, l) y ∙ h) x
    | inr y ↦ absurd (not_closed (traced iox) e s (w, l) y e' s' (w', l') h x)
  ]

  -- The two makings of ports from a server and a log.
  abbrev making : V → V → ℕ → Action (Iox2JsonRpcServer S V P × (W × List (Event V P))) (Unit {0})
  making rpc_service schema_service n =
      set_rpc_server (traced iox) rpc_service n >> set_schema_server (traced iox) schema_service n

  making-first :
      (rpc_service schema_service : V) (n : ℕ) (s : Iox2JsonRpcServer S V P) (e : Exception)
      (q q₁ : W × List (Event V P))
      → create_server (traced iox) rpc_service s.rpc_endpoint n q ≡ (raised e, q₁)
      → making rpc_service schema_service n (s, q) ≡ (raised e, (s, q₁))
  unfolding set_rpc_server
  making-first rpc_service schema_service n s e q q₁ h = rw h refl

  making-second :
      (rpc_service schema_service : V) (n : ℕ) (s : Iox2JsonRpcServer S V P) (e : Exception)
      (port : P) (q q₁ q₂ : W × List (Event V P))
      → create_server (traced iox) rpc_service s.rpc_endpoint n q ≡ (returned port, q₁)
      → create_server (traced iox) schema_service s.schema_endpoint n q₁ ≡ (raised e, q₂)
      → making rpc_service schema_service n (s, q)
        ≡ (raised e, (record s { rpc_server = some port }, q₂))
  unfolding set_rpc_server set_schema_server
  making-second rpc_service schema_service n s e port q q₁ q₂ h k = rw (h, k) refl

  making-both :
      (rpc_service schema_service : V) (n : ℕ) (s : Iox2JsonRpcServer S V P) (port port' : P)
      (q q₁ q₂ : W × List (Event V P))
      → create_server (traced iox) rpc_service s.rpc_endpoint n q ≡ (returned port, q₁)
      → create_server (traced iox) schema_service s.schema_endpoint n q₁ ≡ (returned port', q₂)
      → (making rpc_service schema_service n (s, q)).0 ≡ returned tt
  unfolding set_rpc_server set_schema_server
  making-both rpc_service schema_service n s port port' q q₁ q₂ h k = rw (h, k) refl

  returned_closing :
      (r : Outcome (Unit {0}) × (Iox2JsonRpcServer S V P × (W × List (Event V P))))
      → r.0 ≡ returned tt
      → (closing_on_failure (traced iox) r).0 ≡ returned tt
  unfolding closing_on_failure
  returned_closing (returned u, q) h = refl
  returned_closing (raised e, q) h = absurd (cc h)

  module _ (rpc_service schema_service : V) (n : ℕ) (s s' : Iox2JsonRpcServer S V P) (w w' : W)
      (l l' : List (Event V P)) (e : Exception)
      (fails : closing_on_failure (traced iox) (making rpc_service schema_service n (s, (w, l)))
        ≡ (raised e, (s', (w', l'))))
      (ordinary : e.is_exception ≡ true) where
    -- What was made was no port, or one port.
    abbrev pub IsUndone : Type 0
    IsUndone =
        IsClosed s'
        × ((l' ≡ with_deletions iox s l)
            ⊎ ((port : P) × (l'
                  ≡ with_deletions iox (record s { rpc_server = some port }) (made port ∷ l))))

    second :
        (port : P) (q : W × List (Event V P)) (x : Outcome P × (W × List (Event V P)))
        → create_server (traced iox) rpc_service s.rpc_endpoint n (w, l) ≡ (returned port, q)
        → create_server (traced iox) schema_service s.schema_endpoint n q ≡ x
        → log q ≡ made port ∷ l
        → Makes (log q) x
        → IsUndone
    second port q (returned port', q₂) h k same m = absurd (
        cc (
          returned_closing (making rpc_service schema_service n (s, (w, l)))
              (making-both rpc_service schema_service n s port port' (w, l) q q₂ h k),
          ap (λ r. r.0) fails,
        ))
    second port q (raised e₀, (w₂, l₂)) h k same m =
        let (closed, undone) =
          closing_on_failure-Deletes e₀ e (record s { rpc_server = some port }) s' w₂ w' l₂ l'
            (sym (
                ap (closing_on_failure (traced iox))
                  (making-second rpc_service schema_service n s e₀ port (w, l) q (w₂, l₂) h k))
              ∙ fails)
            ordinary in
        (
          closed,
          inr (
            port,
            undone ∙ ap (with_deletions iox (record s { rpc_server = some port })) (m ∙ same),
          ),
        )

    first :
        (x : Outcome P × (W × List (Event V P)))
        → create_server (traced iox) rpc_service s.rpc_endpoint n (w, l) ≡ x
        → Makes l x
        → IsUndone
    first (returned port, q) h m =
        second port q (create_server (traced iox) schema_service s.schema_endpoint n q) h refl m
          (create_server-Makes iox schema_service s.schema_endpoint n q.0 q.1)
    first (raised e₀, (w₁, l₁)) h m =
        let (closed, undone) =
          closing_on_failure-Deletes e₀ e s s' w₁ w' l₁ l'
            (sym (
                ap (closing_on_failure (traced iox))
                  (making-first rpc_service schema_service n s e₀ (w, l) (w₁, l₁) h))
              ∙ fails)
            ordinary in
        (closed, inl (undone ∙ ap (with_deletions iox s) m))

  -- If the making of the ports raises an `Exception`, the server holds nothing, and the deletion of its
  -- services has been called, after that of the one port that was made before, if there is one.
  pub open_servers-Deletes :
      (rpc_service schema_service : V) (n : ℕ) (s s' : Iox2JsonRpcServer S V P) (w w' : W)
      (l l' : List (Event V P)) (e : Exception)
      → open_servers (traced iox) rpc_service schema_service n (s, (w, l))
        ≡ (raised e, (s', (w', l')))
      → e.is_exception ≡ true
      → IsClosed s'
        × ((l' ≡ with_deletions iox s l)
            ⊎ ((port : P) × (l'
                  ≡ with_deletions iox (record s { rpc_server = some port }) (made port ∷ l))))
  unfolding open_servers
  open_servers-Deletes rpc_service schema_service n s s' w w' l l' e h x =
      first rpc_service schema_service n s s' w w' l l' e h x
        (create_server (traced iox) rpc_service s.rpc_endpoint n (w, l)) refl
        (create_server-Makes iox rpc_service s.rpc_endpoint n w l)
