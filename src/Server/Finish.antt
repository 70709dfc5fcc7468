-- ===== src/Server/Finish.antt =====
-- The loop of `_drain_requests` (iox2_jsonrpc/iceoryx_server.py) against a relation that has no fuel.
use iox2_jsonrpc.Base.{ℕ, zero, suc, ◌<◌, ◌≡◌, refl, Option, none, some, arith}
use iox2_jsonrpc.Python.Outcome.{Exception, Outcome, Action, returned, raised}
use iox2_jsonrpc.Python.Action.{continue}
use iox2_jsonrpc.Helpers.Bytes.{Bytes}
use iox2_jsonrpc.Server.{Ports, serve_request, after_received, drain_server}

module _ {S W P A B R : Type 0} (ports : Ports W P A B R) (server : P)
    (build_response : A → Action (S × W) Bytes) where
  open ports use {receive}

  -- How draining a server ends, and in which state.
  pub data Drains : S × W → Outcome (Unit {0}) × (S × W) → Type 0 where
    emptied :
        (s : S) (w w' : W)
        → receive server w ≡ (returned none, w')
        → Drains (s, w) (returned tt, (s, w'))
    receive_raised :
        (s : S) (w w' : W) (e : Exception)
        → receive server w ≡ (raised e, w')
        → Drains (s, w) (raised e, (s, w'))
    serve_raised :
        (s : S) (w w' : W) (a : A) (e : Exception) (q : S × W)
        → receive server w ≡ (returned (some a), w')
        → serve_request ports build_response a (s, w') ≡ (raised e, q)
        → Drains (s, w) (raised e, q)
    again :
        (s : S) (w w' : W) (a : A) (q : S × W) (r : Outcome (Unit {0}) × (S × W))
        → receive server w ≡ (returned (some a), w')
        → serve_request ports build_response a (s, w') ≡ (returned tt, q)
        → Drains q r
        → Drains (s, w) r

  -- The requests that wait, by a measure which goes down with each one that is served.
  abbrev pub Shrinks : (W → ℕ) → Type 0
  Shrinks waiting =
      (s : S) (w w' : W) (a : A) (q : S × W)
      → receive server w ≡ (returned (some a), w')
      → serve_request ports build_response a (s, w') ≡ (returned tt, q)
      → waiting q.1 < waiting w

  module _ (next : Action (S × W) (Unit {0})) (s : S) (w : W) where
    served_sound :
        (w' : W) (a : A) (x : Outcome (Unit {0}) × (S × W))
        → receive server w ≡ (returned (some a), w')
        → serve_request ports build_response a (s, w') ≡ x
        → ((q : S × W)
            → serve_request ports build_response a (s, w') ≡ (returned tt, q)
            → Drains q (next q))
        → Drains (s, w) (continue x.0 (λ _. next) x.1)
    served_sound w' a (returned tt, q) e g go = again s w w' a q (next q) e g (go q g)
    served_sound w' a (raised x, q) e g go = serve_raised s w w' a x q e g

    received_sound :
        (x : Outcome (Option A) × W)
        → receive server w ≡ x
        → ((w' : W) (a : A) (q : S × W)
            → receive server w ≡ (returned (some a), w')
            → serve_request ports build_response a (s, w') ≡ (returned tt, q)
            → Drains q (next q))
        → Drains (s, w) (continue x.0 (after_received ports build_response next) (s, x.1))
    unfolding after_received
    received_sound (raised e, w') h go = receive_raised s w w' e h
    received_sound (returned none, w') h go = emptied s w w' h
    received_sound (returned (some a), w') h go =
        served_sound w' a (serve_request ports build_response a (s, w')) h refl
          (λ q g. go w' a q h g)

  -- With more fuel than there are requests waiting, the loop ends as the relation says: when a look for
  -- a request finds none, or with the first exception of a reception or of a request's serving.
  pub drain_server-Drains :
      (waiting : W → ℕ)
      → Shrinks waiting
      → (fuel : ℕ) (s : S) (w : W) → waiting w < fuel
      → Drains (s, w) (drain_server ports fuel server build_response (s, w))
  unfolding drain_server
  drain_server-Drains waiting shrinks zero s w f = elim f [ ]
  drain_server-Drains waiting shrinks (suc fuel) s w f =
      received_sound (drain_server ports fuel server build_response) s w (receive server w) refl
        (λ w' a q e g.
          let less = shrinks s w w' a q e g in
          drain_server-Drains waiting shrinks fuel q.0 q.1 (omega (arith, less, f)))
