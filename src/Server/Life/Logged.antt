-- ===== src/Server/Life/Logged.antt =====
-- The clean-up of dead nodes (iox2_jsonrpc/iceoryx_helpers.py) in a world with a part that its calls leave
-- as it is.
use iox2_jsonrpc.Base.{
  ℕ, ◌≡◌, refl, ◌∙◌, inl, inr, Bool, true, false, Option, none, some, ◌==◌, Bool-cases,
}
use iox2_jsonrpc.Python.Outcome.{Outcome, Action, returned, raised}
use iox2_jsonrpc.Helpers.Cleanup.{
  CleanupTarget, swallow, after_try, try_target, after_blocking, clean_target, clean_optional,
  best_effort_cleanup_dead_nodes,
}
use iox2_jsonrpc.Server.Drain.{Keeps, >>=-Keeps}

module _ {W L : Type 0} (part : W → L) where
  abbrev pub OptionKeeps : Option (Action W (Unit {0})) → Type 0
  OptionKeeps none = Unit
  OptionKeeps (some act) = Keeps part act

  abbrev pub TimedKeeps : Option (ℕ → Action W (Unit {0})) → Type 0
  TimedKeeps none = Unit
  TimedKeeps (some act) = (timeout : ℕ) → Keeps part (act timeout)

  -- The methods of a target leave the part as it is.
  pub record TargetKeeps (target : CleanupTarget W) : Type 0 where
    pub blocking : TimedKeeps target.blocking_cleanup
    pub try_first : OptionKeeps target.try_cleanup
    pub with_config : Keeps part target.try_with_config

  pub swallow-Keeps : (o : Outcome (Unit {0})) (w : W) → part (swallow (o, w)).1 ≡ part w
  swallow-Keeps (returned u) w = refl
  swallow-Keeps (raised e) w = elim (Bool-cases e.is_exception) [
    | inl x ↦ rw x refl
    | inr x ↦ rw x refl
  ]

  after_try-Keeps :
      (has_node : Bool) (act : Action W (Unit {0})) (o : Outcome (Unit {0})) (w : W)
      → Keeps part act
      → part (after_try has_node act (o, w)).1 ≡ part w
  unfolding after_try
  after_try-Keeps has_node act (returned u) w h = refl
  after_try-Keeps true act (raised e) w h = elim (Bool-cases (e.type_name == "TypeError")) [
    | inl x ↦ rw x (swallow-Keeps (act w).0 (act w).1 ∙ h w)
    | inr x ↦ rw x (swallow-Keeps (raised e) w)
  ]
  after_try-Keeps false act (raised e) w h = elim (Bool-cases (e.type_name == "TypeError")) [
    | inl x ↦ rw x refl
    | inr x ↦ rw x (swallow-Keeps (raised e) w)
  ]

  try_target-Keeps :
      (has_node : Bool) (target : CleanupTarget W) (call : Option (Action W (Unit {0})))
      → TargetKeeps target
      → OptionKeeps call
      → Keeps part (try_target has_node target call)
  unfolding try_target
  try_target-Keeps has_node target none t h w = refl
  try_target-Keeps has_node target (some call) t h w =
      after_try-Keeps has_node target.try_with_config (call w).0 (call w).1 t.with_config ∙ h w

  after_blocking-Keeps :
      (next : Action W (Unit {0})) (o : Outcome (Unit {0})) (w : W)
      → Keeps part next
      → part (after_blocking next (o, w)).1 ≡ part w
  unfolding after_blocking
  after_blocking-Keeps next (returned u) w h = refl
  after_blocking-Keeps next (raised e) w h = elim (Bool-cases e.is_exception) [
    | inl x ↦ rw x (h w)
    | inr x ↦ rw x refl
  ]

  clean_target-Keeps :
      (has_node : Bool) (timeout : ℕ) (target : CleanupTarget W)
      (call : Option (ℕ → Action W (Unit {0})))
      → TargetKeeps target
      → TimedKeeps call
      → Keeps part (clean_target has_node timeout target call)
  unfolding clean_target
  clean_target-Keeps has_node timeout target none t h w =
      try_target-Keeps has_node target target.try_cleanup t t.try_first w
  clean_target-Keeps has_node timeout target (some call) t h w =
      after_blocking-Keeps (try_target has_node target target.try_cleanup) (call timeout w).0
        (call timeout w).1 (try_target-Keeps has_node target target.try_cleanup t t.try_first)
      ∙ h timeout w

  -- A node's clean-up leaves the part as it is.
  pub clean_node-Keeps :
      (target : CleanupTarget W) (timeout : ℕ)
      → TargetKeeps target
      → Keeps part (best_effort_cleanup_dead_nodes (some target) none timeout)
  unfolding best_effort_cleanup_dead_nodes clean_optional
  clean_node-Keeps target timeout t =
      clean_target-Keeps true timeout target target.blocking_cleanup t t.blocking

  -- So does the clean-up of a node and a service.
  pub clean_both-Keeps :
      (node service : CleanupTarget W) (timeout : ℕ)
      → TargetKeeps node
      → TargetKeeps service
      → Keeps part (best_effort_cleanup_dead_nodes (some node) (some service) timeout)
  unfolding best_effort_cleanup_dead_nodes clean_optional
  clean_both-Keeps node service timeout n s =
      >>=-Keeps part (clean_target true timeout service service.blocking_cleanup)
        (λ _. clean_target true timeout node node.blocking_cleanup)
        (clean_target-Keeps true timeout service service.blocking_cleanup s s.blocking)
        (λ _. clean_target-Keeps true timeout node node.blocking_cleanup n n.blocking)
