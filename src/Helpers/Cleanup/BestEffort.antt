-- ===== src/Helpers/Cleanup/BestEffort.antt =====
-- That the best-effort calls of iox2_jsonrpc/iceoryx_helpers.py keep exceptions to themselves.
use iox2_jsonrpc.Base.{
  ◌≡◌, refl, inl, inr, Bool, false, not, Option, none, some, Bool-cases, ◌==◌, is_none, ℕ,
}
use iox2_jsonrpc.Python.Outcome.{Outcome, Action, returned, raised}
use iox2_jsonrpc.Python.Action.{continue}
use iox2_jsonrpc.Helpers.Cleanup.{
  CleanupTarget, swallow, after_try, try_target, after_blocking, clean_target, clean_optional,
  best_effort_cleanup_dead_nodes, delete_iox2_object,
}

-- No instance of `Exception` comes out, such as a failure of iceoryx2; `KeyboardInterrupt` may.
abbrev pub KeepsExceptions : Outcome (Unit {0}) → Type 0
KeepsExceptions (returned _) = Unit
KeepsExceptions (raised e) = e.is_exception ≡ false

module _ {W : Type 0} where
  swallow-KeepsExceptions : (o : Outcome (Unit {0})) (w : W) → KeepsExceptions (swallow (o, w)).0
  swallow-KeepsExceptions (returned u) w = tt
  swallow-KeepsExceptions (raised e) w = elim (Bool-cases e.is_exception) [
    | inl x ↦ rw x tt
    | inr x ↦ rw x refl
  ]

  after_try-KeepsExceptions :
      (has_node : Bool) (call : Action W (Unit {0})) (o : Outcome (Unit {0})) (w : W)
      → KeepsExceptions (after_try has_node call (o, w)).0
  unfolding after_try
  after_try-KeepsExceptions has_node call (returned u) w = tt
  after_try-KeepsExceptions has_node call (raised e) w =
      elim (Bool-cases (e.type_name == "TypeError")) [
        | inl x ↦ rw x (elim (Bool-cases has_node) [
          | inl y ↦ rw y (swallow-KeepsExceptions (call w).0 (call w).1)
          | inr y ↦ rw y tt
        ])
        | inr x ↦ rw x (swallow-KeepsExceptions (raised e) w)
      ]

  try_target-KeepsExceptions :
      (has_node : Bool) (target : CleanupTarget W) (call : Option (Action W (Unit {0}))) (w : W)
      → KeepsExceptions (try_target has_node target call w).0
  unfolding try_target
  try_target-KeepsExceptions has_node target none w = tt
  try_target-KeepsExceptions has_node target (some call) w =
      after_try-KeepsExceptions has_node target.try_with_config (call w).0 (call w).1

  after_blocking-KeepsExceptions :
      (next : Action W (Unit {0})) (o : Outcome (Unit {0})) (w : W)
      → ((w : W) → KeepsExceptions (next w).0)
      → KeepsExceptions (after_blocking next (o, w)).0
  unfolding after_blocking
  after_blocking-KeepsExceptions next (returned u) w h = tt
  after_blocking-KeepsExceptions next (raised e) w h = elim (Bool-cases e.is_exception) [
    | inl x ↦ rw x (h w)
    | inr x ↦ rw x refl
  ]

  clean_target-KeepsExceptions :
      (has_node : Bool) (timeout : ℕ) (target : CleanupTarget W)
      (call : Option (ℕ → Action W (Unit {0}))) (w : W)
      → KeepsExceptions (clean_target has_node timeout target call w).0
  unfolding clean_target
  clean_target-KeepsExceptions has_node timeout target none w =
      try_target-KeepsExceptions has_node target target.try_cleanup w
  clean_target-KeepsExceptions has_node timeout target (some call) w =
      after_blocking-KeepsExceptions _ (call timeout w).0 (call timeout w).1
        (try_target-KeepsExceptions has_node target target.try_cleanup)

  clean_optional-KeepsExceptions :
      (has_node : Bool) (timeout : ℕ) (target : Option (CleanupTarget W)) (w : W)
      → KeepsExceptions (clean_optional has_node timeout target w).0
  unfolding clean_optional
  clean_optional-KeepsExceptions has_node timeout none w = tt
  clean_optional-KeepsExceptions has_node timeout (some target) w =
      clean_target-KeepsExceptions has_node timeout target target.blocking_cleanup w

  both :
      (o : Outcome (Unit {0})) (next : Action W (Unit {0})) (w : W)
      → KeepsExceptions o
      → ((w : W) → KeepsExceptions (next w).0)
      → KeepsExceptions (continue o (λ _. next) w).0
  both (returned u) next w h k = k w
  both (raised e) next w h k = h

  -- Whatever the clean-up methods of the service and of the node raise, no `Exception` comes out.
  pub best_effort_cleanup_dead_nodes-KeepsExceptions :
      (node service : Option (CleanupTarget W)) (timeout : ℕ) (w : W)
      → KeepsExceptions (best_effort_cleanup_dead_nodes node service timeout w).0
  unfolding best_effort_cleanup_dead_nodes
  best_effort_cleanup_dead_nodes-KeepsExceptions node service timeout w =
      let has_node = not (is_none node) in
      both (clean_optional has_node timeout service w).0 (clean_optional has_node timeout node) _
        (clean_optional-KeepsExceptions has_node timeout service w)
        (clean_optional-KeepsExceptions has_node timeout node)

  pub delete_iox2_object-KeepsExceptions :
      (delete : Option (Action W (Unit {0}))) (w : W)
      → KeepsExceptions (delete_iox2_object delete w).0
  unfolding delete_iox2_object
  delete_iox2_object-KeepsExceptions none w = tt
  delete_iox2_object-KeepsExceptions (some delete) w =
      swallow-KeepsExceptions (delete w).0 (delete w).1
