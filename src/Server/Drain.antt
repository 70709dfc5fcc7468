-- ===== src/Server/Drain.antt =====
-- How `_drain_requests` of iox2_jsonrpc/iceoryx_server.py treats the requests.
use iox2_jsonrpc.Base.{
  ℕ, zero, suc, ◌≡◌, refl, sym, ap, subst, ◌∙◌, Option, none, some, List, [], ◌∷◌, length,
}
use iox2_jsonrpc.Python.Outcome.{Outcome, Action, returned, raised}
use iox2_jsonrpc.Python.Action.{lift, continue, ◌>>=◌}
use iox2_jsonrpc.Helpers.Bytes.{Bytes, slice_to_bytes, write_bytes_to_uninit_slice}
use iox2_jsonrpc.Server.{
  Ports, finally, on_world, send_response, serve_request, after_received, drain_server,
  drain_requests, rpc_response, on_controller,
}
use iox2_jsonrpc.Models.{JsonRpcRequest, JsonRpcResponse}
use iox2_jsonrpc.Endpoint.{ControllerRpcEndpoint, handle_bytes}

-- What happens to an active request.
pub data Event (A : Type 0) : Type 0 where
  received : A → Event A
  deleted : A → Event A

abbrev noted : {W E : Type 0} {X : Type 0} → List E → Outcome X × W → Outcome X × (W × List E)
noted events (o, w) = (o, (w, events))

abbrev pub note : {A : Type 0} → Outcome (Option A) → List (Event A) → List (Event A)
note (returned (some a)) log = received a ∷ log
note _ log = log

-- The same ports, with a log of the receptions and deletions, the last one first.
abbrev pub traced : {W P A B R : Type 0} → Ports W P A B R → Ports (W × List (Event A)) P A B R
traced {W = W} {A = A} ports = record {
  memory = ports.memory;
  assume_init = ports.assume_init;
  receive = λ server (w, log). let (o, w') = ports.receive server w in (o, (w', note o log));
  payload = λ a (w, log). noted log (ports.payload a w);
  loan_slice_uninit = λ a n (w, log). noted log (ports.loan_slice_uninit a n w);
  send = λ r (w, log). noted log (ports.send r w);
  delete = λ a (w, log). noted (deleted a ∷ log) (ports.delete a w);
}

-- The last request received is deleted, and before it each one was deleted before the next was
-- received.
abbrev pub EachDeleted : {A : Type 0} → List (Event A) → Type 0
EachDeleted [] = Unit
EachDeleted (deleted a ∷ received b ∷ log) = (a ≡ b) × EachDeleted log
EachDeleted _ = ⊥

-- An action that leaves a part of the state as it is.
abbrev pub Keeps : {Q L X : Type 0} → (Q → L) → Action Q X → Type 0
Keeps part act = (q : _) → part (act q).1 ≡ part q

module _ {Q L X Y : Type 0} (part : Q → L) where
  pub continue-Keeps :
      (o : Outcome X) (f : X → Action Q Y) (q : Q)
      → ((x : X) → Keeps part (f x))
      → part (continue o f q).1 ≡ part q
  continue-Keeps (returned x) f q h = h x q
  continue-Keeps (raised e) f q h = refl

  pub >>=-Keeps :
      (m : Action Q X) (f : X → Action Q Y)
      → Keeps part m
      → ((x : X) → Keeps part (f x))
      → Keeps part (m >>= f)
  >>=-Keeps m f h k q = continue-Keeps (m q).0 f (m q).1 k ∙ h q

module _ {W P A B R : Type 0} (ports : Ports W P A B R) where
  send_response-Keeps :
      (a : A) (bytes : Bytes) → Keeps (λ q. q.1) (send_response (traced ports) a bytes)
  unfolding send_response
  send_response-Keeps a bytes =
      let fill : B → Action (W × List (Event A)) R = λ response.
        lift (write_bytes_to_uninit_slice ports.memory ports.assume_init response bytes) in
      let loan : Action (W × List (Event A)) B =
        (traced ports).loan_slice_uninit a (length bytes) in
      >>=-Keeps (λ q. q.1) loan (λ x. fill x >>= (traced ports).send) (λ q. refl)
        (λ x. >>=-Keeps (λ q. q.1) (fill x) (traced ports).send (λ q. refl) (λ y q. refl))

-- The log of the traced ports.
abbrev pub log : {S W E : Type 0} → S × (W × List E) → List E
log q = q.1.1

module _ {S W P A B R : Type 0} (ports : Ports W P A B R) where
  module _ (build : A → Action (S × (W × List (Event A))) Bytes)
      (build-Keeps : (a : A) → Keeps log (build a)) where
    serve_request-log :
        (a : A) (q : S × (W × List (Event A)))
        → log (serve_request (traced ports) build a q).1 ≡ deleted a ∷ log q
    unfolding serve_request finally
    serve_request-log a q =
        ap (λ l. deleted a ∷ l)
          (>>=-Keeps log (build a) (λ bytes. on_world (send_response (traced ports) a bytes))
            (build-Keeps a) (λ bytes q'. send_response-Keeps ports a bytes q'.1) q)

    module _ (next : Action (S × (W × List (Event A))) (Unit {0}))
        (go : (q : S × (W × List (Event A)))
          → EachDeleted (log q)
          → EachDeleted (log (next q).1)) where
      served :
          (o : Outcome (Unit {0})) (q : S × (W × List (Event A)))
          → EachDeleted (log q)
          → EachDeleted (log (continue o (λ _. next) q).1)
      served (returned u) q h = go q h
      served (raised e) q h = h

      after_receive-EachDeleted :
          (o : Outcome (Option A)) (s : S) (w : W) (events : List (Event A))
          → EachDeleted events
          → EachDeleted (
              log (continue o (after_received (traced ports) build next) (s, (w, note o events))).1)
      unfolding after_received
      after_receive-EachDeleted (raised e) s w events h = h
      after_receive-EachDeleted (returned none) s w events h = h
      after_receive-EachDeleted (returned (some a)) s w events h =
          let q : S × (W × List (Event A)) = (s, (w, received a ∷ events)) in
          served (serve_request (traced ports) build a q).0
            (serve_request (traced ports) build a q).1
            (subst EachDeleted (sym (serve_request-log a q)) (refl, h))

    drain_server-EachDeleted :
        (fuel : ℕ) (server : P) (q : S × (W × List (Event A)))
        → EachDeleted (log q)
        → EachDeleted (log (drain_server (traced ports) fuel server build q).1)
    unfolding drain_server
    drain_server-EachDeleted zero server q h = h
    drain_server-EachDeleted (suc fuel) server (s, (w, events)) h =
        after_receive-EachDeleted (drain_server (traced ports) fuel server build)
          (drain_server-EachDeleted fuel server) (ports.receive server w).0 s
          (ports.receive server w).1 events h

    drain_requests-EachDeleted :
        (fuel : ℕ) (server : Option P) (q : S × (W × List (Event A)))
        → EachDeleted (log q)
        → EachDeleted (log (drain_requests (traced ports) fuel server build q).1)
    unfolding drain_requests
    drain_requests-EachDeleted fuel none q h = h
    drain_requests-EachDeleted fuel (some server) q h = drain_server-EachDeleted fuel server q h

  module _ (parse_request : Bytes → Outcome JsonRpcRequest)
      (dump_response : JsonRpcResponse → Outcome Bytes) (endpoint : ControllerRpcEndpoint S) where
    rpc_response-Keeps :
        (a : A) → Keeps log (rpc_response (traced ports) parse_request dump_response endpoint a)
    unfolding rpc_response
    rpc_response-Keeps a =
        let read : Action (S × (W × List (Event A))) B = on_world ((traced ports).payload a) in
        let convert : B → Action (S × (W × List (Event A))) Bytes =
          λ slice. lift (slice_to_bytes ports.memory slice) in
        let respond : Bytes → Action (S × (W × List (Event A))) Bytes =
          λ bytes. on_controller (handle_bytes parse_request dump_response endpoint bytes) in
        >>=-Keeps log read (λ x. convert x >>= respond) (λ q. refl)
          (λ x. >>=-Keeps log (convert x) respond (λ q. refl) (λ y q. refl))

    -- However serving ends, also by an exception of the controller, of the sending or of the deletion,
    -- every request that the server receives is deleted, once and before the next is received.
    pub drain_rpc_requests-EachDeleted :
        (fuel : ℕ) (server : Option P) (s : S) (w : W)
        → EachDeleted (
            log
              (drain_requests
                (traced ports)
                fuel
                server
                (rpc_response (traced ports) parse_request dump_response endpoint)
                (s, (w, []))).1)
    drain_rpc_requests-EachDeleted fuel server s w =
        drain_requests-EachDeleted _ rpc_response-Keeps fuel server (s, (w, [])) tt
