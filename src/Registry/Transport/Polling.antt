-- ===== src/Registry/Transport/Polling.antt =====
-- The waiting loop of `_request_bytes` (iox2_jsonrpc/iceoryx_registry.py) against a relation that has
-- no fuel.
use iox2_jsonrpc.Base.{
  ℕ, zero, suc, ◌<◌, ◌≤◌, ◌≡◌, ◌↔◌, refl, subst, inl, inr, ◌-◌, lt→ltb, ltb→lt, le→ltb, ltb→le,
  Option, none, some, arith, ltb, Bool-cases,
}
use iox2_jsonrpc.Python.Outcome.{Exception, Outcome, Action, returned, raised}
use iox2_jsonrpc.Python.Action.{continue}
use iox2_jsonrpc.Helpers.Bytes.{Bytes, slice_to_bytes}
use iox2_jsonrpc.Registry.Transport.{Transport, timeout_error, after_receive, poll_round, poll}

module _ {W B R P K : Type 0} (t : Transport W B R P K) (pending : P) (deadline : ℕ) where
  open t use {memory, receive, monotonic, node_wait}

  -- How the wait for a response ends, and in which world.
  pub data Polls : W → Outcome Bytes × W → Type 0 where
    timed_out : (w : W) → deadline ≤ monotonic w → Polls w (raised timeout_error, w)
    answered :
        (w w' : W) (payload : B)
        → monotonic w < deadline
        → receive pending w ≡ (returned (some payload), w')
        → Polls w (slice_to_bytes memory payload, w')
    receive_raised :
        (w w' : W) (e : Exception)
        → monotonic w < deadline
        → receive pending w ≡ (raised e, w')
        → Polls w (raised e, w')
    wait_raised :
        (w w' w'' : W) (e : Exception)
        → monotonic w < deadline
        → receive pending w ≡ (returned none, w')
        → node_wait 10 w' ≡ (raised e, w'')
        → Polls w (raised e, w'')
    again :
        (w w' w'' : W) (r : Outcome Bytes × W)
        → monotonic w < deadline
        → receive pending w ≡ (returned none, w')
        → node_wait 10 w' ≡ (returned tt, w'')
        → Polls w'' r
        → Polls w r

  -- Every round that ends in a wait moves the clock.
  abbrev pub Ticks : Type 0
  Ticks =
      (w w' w'' : W)
      → receive pending w ≡ (returned none, w')
      → node_wait 10 w' ≡ (returned tt, w'')
      → monotonic w < monotonic w''

  module _ (next : Action W Bytes) (w : W) (early : monotonic w < deadline) where
    waited_sound :
        (w' : W) (x : Outcome (Unit {0}) × W)
        → receive pending w ≡ (returned none, w')
        → node_wait 10 w' ≡ x
        → ((w'' : W) → node_wait 10 w' ≡ (returned tt, w'') → Polls w'' (next w''))
        → Polls w (continue x.0 (λ _. next) x.1)
    waited_sound w' (returned tt, w'') e g go = again w w' w'' (next w'') early e g (go w'' g)
    waited_sound w' (raised x, w'') e g go = wait_raised w w' w'' x early e g

    received_sound :
        (x : Outcome (Option B) × W)
        → receive pending w ≡ x
        → ((w' w'' : W)
            → receive pending w ≡ (returned none, w')
            → node_wait 10 w' ≡ (returned tt, w'')
            → Polls w'' (next w''))
        → Polls w (continue x.0 (after_receive t next) x.1)
    unfolding after_receive
    received_sound (raised e, w') h go = receive_raised w w' e early h
    received_sound (returned (some payload), w') h go = answered w w' payload early h
    received_sound (returned none, w') h go =
        waited_sound w' (node_wait 10 w') h refl (λ w'' g. go w' w'' h g)

  module _ (ticks : Ticks) where
    poll_complete :
        (fuel : ℕ) (w : W) {r : Outcome Bytes × W}
        → deadline - monotonic w < fuel
        → Polls w r
        → poll t fuel pending deadline w ≡ r
    unfolding poll poll_round after_receive
    poll_complete zero w f p = elim f [ ]
    poll_complete (suc fuel) w f (timed_out _ le) = rw (le→ltb _ _ le)
    poll_complete (suc fuel) w f (answered _ w' payload lt e) = rw (lt→ltb _ _ lt, e)
    poll_complete (suc fuel) w f (receive_raised _ w' x lt e) = rw (lt→ltb _ _ lt, e)
    poll_complete (suc fuel) w f (wait_raised _ w' w'' x lt e g) = rw (lt→ltb _ _ lt, e, g)
    poll_complete (suc fuel) w f (again _ w' w'' r lt e g p) =
        let tick = ticks w w' w'' e g in
        rw (lt→ltb _ _ lt, e, g) (poll_complete fuel w'' (omega arith) p)

    poll_sound :
        (fuel : ℕ) (w : W)
        → deadline - monotonic w < fuel
        → Polls w (poll t fuel pending deadline w)
    unfolding poll poll_round
    poll_sound zero w f = elim f [ ]
    poll_sound (suc fuel) w f = elim (Bool-cases (ltb (monotonic w) deadline)) [
      | inr late ↦ rw late (timed_out w (ltb→le _ _ late))
      | inl early ↦ rw early (
          received_sound (poll t fuel pending deadline) w (ltb→lt _ _ early) (receive pending w)
            refl
            (λ w' w'' e g.
              let tick = ticks w w' w'' e g in
              let lt = ltb→lt _ _ early in poll_sound fuel w'' (omega arith)))
    ]

    -- With more fuel than there are milliseconds to the deadline, the loop ends as the relation says,
    -- and only so: it returns the bytes of the first response that comes before the deadline, passes on
    -- an exception, or raises the timeout.
    pub poll-Polls :
        (fuel : ℕ) (w : W) (r : Outcome Bytes × W)
        → deadline - monotonic w < fuel
        → (poll t fuel pending deadline w ≡ r) ↔ Polls w r
    poll-Polls fuel w r f =
        (λ e. subst (Polls w) e (poll_sound fuel w f), λ p. poll_complete fuel w f p)
