-- ===== src/Server/Life/Deletions/Made.antt =====
-- The making of one port (iox2_jsonrpc/iceoryx_helpers.py): a retry makes no second one.
use iox2_jsonrpc.Base.{
  ℕ, zero, suc, ◌+◌, String, ◌≡◌, refl, subst, ◌∙◌, Option, none, some, List, ◌∷◌, if-either,
}
use iox2_jsonrpc.Python.Outcome.{Exception, Outcome, Action, returned, raised}
use iox2_jsonrpc.Python.Action.{raise, continue, ◌>>◌}
use iox2_jsonrpc.Helpers.Cleanup.{
  Creation, give_up, next_attempt, after_create, attempts, create_server_with_dead_node_cleanup,
  is_exceeds_max_supported_servers, pause, no_server_error,
}
use iox2_jsonrpc.Server.Drain.{Keeps, >>=-Keeps}
use iox2_jsonrpc.Server.Life.{Iceoryx, creation, create_server}
use iox2_jsonrpc.Server.Life.Logged.{clean_both-Keeps}
use iox2_jsonrpc.Server.Life.Deletions.{Event, made, if_made, log, silent_target-Keeps, traced}

module _ {W V P : Type 0} where
  -- A port that is made is the only event; a failure shows nothing.
  abbrev pub Makes : List (Event V P) → Outcome P × (W × List (Event V P)) → Type 0
  Makes l (returned port, q) = log q ≡ made port ∷ l
  Makes l (raised e, q) = log q ≡ l

  >>-Makes :
      (l : List (Event V P)) (o : Outcome (Unit {0})) (next : Action (W × List (Event V P)) P)
      (q : W × List (Event V P))
      → log q ≡ l
      → ((q : W × List (Event V P)) → log q ≡ l → Makes l (next q))
      → Makes l (continue o (λ _. next) q)
  >>-Makes l (returned u) next q h k = k q h
  >>-Makes l (raised e) next q h k = h

  module _ (c : Creation (W × List (Event V P)) P) (l : List (Event V P))
      (cleans : Keeps log c.cleanup) (sleeps : (n : ℕ) → Keeps log (c.sleep n))
      (makes : (q : W × List (Event V P)) → log q ≡ l → Makes l (c.create_port q)) where
    give_up-Makes :
        (last : Option Exception) (q : W × List (Event V P))
        → log q ≡ l
        → Makes l (give_up c last q)
    unfolding give_up
    give_up-Makes none q h = h
    give_up-Makes (some last) q h = texts c.nodes_text
      where
        texts :
            (o : Outcome String)
            → Makes l (continue o (λ nodes. raise (no_server_error c.service_name nodes last)) q)
        texts (returned nodes) = h
        texts (raised e) = h

    next_attempt-Makes :
        (remaining attempt : ℕ) (e : Exception) (next : Action (W × List (Event V P)) P)
        (q : W × List (Event V P))
        → log q ≡ l
        → ((q : W × List (Event V P)) → log q ≡ l → Makes l (next q))
        → Makes l (next_attempt c remaining attempt e next q)
    unfolding next_attempt
    next_attempt-Makes zero attempt e next q h k =
        >>-Makes l (c.cleanup q).0 (give_up c (some e)) (c.cleanup q).1 (cleans q ∙ h)
          (give_up-Makes (some e))
    next_attempt-Makes (suc remaining) attempt e next q h k =
        let pauses = c.cleanup >> c.sleep (pause attempt) in
        >>-Makes l (pauses q).0 next (pauses q).1
          (>>=-Keeps log c.cleanup (λ _. c.sleep (pause attempt)) cleans
              (λ _. sleeps (pause attempt)) q
            ∙ h)
          k

    after_create-Makes :
        (remaining attempt : ℕ) (next : Action (W × List (Event V P)) P)
        (r : Outcome P × (W × List (Event V P)))
        → Makes l r
        → ((q : W × List (Event V P)) → log q ≡ l → Makes l (next q))
        → Makes l (after_create c remaining attempt next r)
    unfolding after_create
    after_create-Makes remaining attempt next (returned port, q) h k = h
    after_create-Makes remaining attempt next (raised e, q) h k =
        if-either (Makes l) e.is_exception _ _
          (if-either (Makes l) (is_exceeds_max_supported_servers e) _ _
            (next_attempt-Makes remaining attempt e next q h k) h)
          h

    attempts-Makes :
        (remaining attempt : ℕ) (q : W × List (Event V P))
        → log q ≡ l
        → Makes l (attempts c remaining attempt q)
    unfolding attempts
    attempts-Makes zero attempt q h = give_up-Makes none q h
    attempts-Makes (suc remaining) attempt q h =
        after_create-Makes remaining attempt (attempts c remaining (attempt + 1)) (c.create_port q)
          (makes q h) (attempts-Makes remaining (attempt + 1))

module _ {W V P X U : Type 0} (iox : Iceoryx W V P X U) where
  created : (o : Outcome P × W) (l : List (Event V P)) → Makes l (if_made made o l)
  created (returned port, w) l = refl
  created (raised e, w) l = refl

  pub create_server-Makes :
      (service : V) (endpoint : String) (n : ℕ) (w : W) (l : List (Event V P))
      → Makes l (create_server (traced iox) service endpoint n (w, l))
  unfolding create_server create_server_with_dead_node_cleanup
  create_server-Makes service endpoint n w l =
      attempts-Makes (creation (traced iox) service endpoint n) l
        (clean_both-Keeps log (traced iox).node_target ((traced iox).service_target service) 100
          (silent_target-Keeps iox.node_target) (silent_target-Keeps (iox.service_target service)))
        (λ ms q. refl)
        (λ (w, l') h.
          subst (λ l. Makes l (if_made made (iox.create_port service n w) l')) h
            (created (iox.create_port service n w) l'))
        20 0 (w, l) refl
