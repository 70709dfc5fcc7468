-- ===== src/Helpers/Cleanup/Retry.antt =====
-- The attempts of `create_server_with_dead_node_cleanup` (iox2_jsonrpc/iceoryx_helpers.py).
use iox2_jsonrpc.Base.{
  ℕ, zero, suc, ◌+◌, ◌<◌, String, ◌≡◌, refl, ap, ◌∙◌, ◌⊎◌, inl, inr, true, false, List, [], ◌∷◌,
  All, length, arith,
}
use iox2_jsonrpc.Python.Outcome.{Exception, Outcome, returned, raised}
use iox2_jsonrpc.Helpers.Cleanup.{
  Creation, no_server_error, pause, give_up, next_attempt, after_create, attempts,
  create_server_with_dead_node_cleanup, is_exceeds_max_supported_servers,
}

-- A world in which the creations end as a list says, and that adds up the sleeps; when the list is used
-- up they end in `spent`.
abbrev take : {P : Type 0} → Exception → List (Outcome P) × ℕ → Outcome P × (List (Outcome P) × ℕ)
take spent ([], slept) = (raised spent, ([], slept))
take spent (result ∷ results, slept) = (result, (results, slept))

abbrev pub scripted : {P : Type 0} → Exception → String → Creation (List (Outcome P) × ℕ) P
scripted spent service_name = record {
  create_port = take spent;
  cleanup = λ w. (returned tt, w);
  sleep = λ ms (results, slept). (returned tt, (results, slept + ms));
  nodes_text = returned "[]";
  service_name = service_name;
}

abbrev pub Exceeds : Exception → Type 0
Exceeds e = (e.is_exception ≡ true) × (is_exceeds_max_supported_servers e ≡ true)

-- A result that ends the attempts.
abbrev pub Decides : {P : Type 0} → Outcome P → Type 0
Decides (returned port) = Unit
Decides (raised e) = (e.is_exception ≡ false) ⊎ (is_exceeds_max_supported_servers e ≡ false)

-- The pauses from an attempt on.
abbrev pub pauses : ℕ → ℕ → ℕ
pauses attempt zero = 0
pauses attempt (suc n) = pause attempt + pauses (attempt + 1) n

abbrev pub failures : {P : Type 0} → List Exception → List (Outcome P) → List (Outcome P)
failures [] results = results
failures (e ∷ es) results = raised e ∷ failures es results

module _ {P : Type 0} (spent : Exception) (name : String) where
  decided :
      (remaining attempt slept : ℕ) (r : Outcome P) (results : List (Outcome P))
      → Decides r
      → attempts (scripted spent name) (suc remaining) attempt (r ∷ results, slept)
        ≡ (r, (results, slept))
  unfolding attempts after_create
  decided remaining attempt slept (returned port) results h = refl
  decided remaining attempt slept (raised e) results (inl h) = rw h refl
  decided remaining attempt slept (raised e) results (inr h) = ground arith

  retried :
      (remaining attempt slept : ℕ) (e : Exception) (results : List (Outcome P))
      → Exceeds e
      → attempts (scripted spent name) (suc (suc remaining)) attempt (raised e ∷ results, slept)
        ≡ attempts
            (scripted spent name)
            (suc remaining)
            (attempt + 1)
            (results, slept + pause attempt)
  unfolding attempts after_create next_attempt is_exceeds_max_supported_servers pause
  retried remaining attempt slept e results h = rw (h.0, h.1) refl

  attempts-decided :
      (es : List Exception) (n attempt slept : ℕ) (r : Outcome P) (results : List (Outcome P))
      → length es < n
      → All Exceeds es
      → Decides r
      → attempts (scripted spent name) n attempt (failures es (r ∷ results), slept)
        ≡ (r, (results, slept + pauses attempt (length es)))
  attempts-decided [] zero attempt slept r results lt h d = absurd (omega (arith, lt))
  attempts-decided [] (suc n) attempt slept r results lt h d =
      decided n attempt slept r results d ∙ ap (λ k. (r, (results, k))) (omega arith)
  attempts-decided (e ∷ es) zero attempt slept r results lt h d = absurd (omega (arith, lt))
  attempts-decided (e ∷ es) (suc zero) attempt slept r results lt h d = absurd (omega (arith, lt))
  attempts-decided (e ∷ es) (suc (suc n)) attempt slept r results lt h d =
      retried n attempt slept e (failures es (r ∷ results)) h.0
      ∙ attempts-decided es (suc n) (attempt + 1) (slept + pause attempt) r results
          (omega (arith, lt)) h.1 d
      ∙ ap (λ k. (r, (results, k))) (omega arith)

  attempts-exhausted :
      (es : List Exception) (e : Exception) (n attempt slept : ℕ) (results : List (Outcome P))
      → length es + 1 ≡ n
      → All Exceeds es
      → Exceeds e
      → attempts (scripted spent name) n attempt (failures es (raised e ∷ results), slept)
        ≡ (raised (no_server_error name "[]" e), (results, slept + pauses attempt (length es)))
  unfolding attempts after_create next_attempt is_exceeds_max_supported_servers give_up
  attempts-exhausted [] e zero attempt slept results l h d = absurd (omega (arith, l))
  attempts-exhausted [] e (suc zero) attempt slept results l h d =
      rw (d.0, d.1) (ap (λ k. (raised (no_server_error name "[]" e), (results, k))) (omega arith))
  attempts-exhausted [] e (suc (suc n)) attempt slept results l h d = absurd (omega (arith, l))
  attempts-exhausted (x ∷ es) e zero attempt slept results l h d = absurd (omega (arith, l))
  attempts-exhausted (x ∷ es) e (suc zero) attempt slept results l h d = absurd (omega (arith, l))
  attempts-exhausted (x ∷ es) e (suc (suc n)) attempt slept results l h d =
      retried n attempt slept x (failures es (raised e ∷ results)) h.0
      ∙ attempts-exhausted es e (suc n) (attempt + 1) (slept + pause attempt) results
          (omega (arith, l)) h.1 d
      ∙ ap (λ k. (raised (no_server_error name "[]" e), (results, k))) (omega arith)

  -- If a creation within the allowed attempts succeeds, or fails for another reason than the number of
  -- servers, after failures for this reason only, then it decides how the call ends, and the call has
  -- slept once after each of the failures.
  pub create_server-decided :
      (es : List Exception) (max_attempts : ℕ) (r : Outcome P) (results : List (Outcome P))
      → length es < max_attempts
      → All Exceeds es
      → Decides r
      → create_server_with_dead_node_cleanup
          (scripted spent name)
          max_attempts
          (failures es (r ∷ results), 0)
        ≡ (r, (results, 0 + pauses 0 (length es)))
  unfolding create_server_with_dead_node_cleanup
  create_server-decided es n r results lt h d = attempts-decided es n 0 0 r results lt h d

  -- If every allowed attempt fails for the number of servers, the call raises the `RuntimeError` that
  -- quotes the last failure, makes no further attempt, and does not sleep after the last one.
  pub create_server-exhausted :
      (es : List Exception) (e : Exception) (max_attempts : ℕ) (results : List (Outcome P))
      → length es + 1 ≡ max_attempts
      → All Exceeds es
      → Exceeds e
      → create_server_with_dead_node_cleanup
          (scripted spent name)
          max_attempts
          (failures es (raised e ∷ results), 0)
        ≡ (raised (no_server_error name "[]" e), (results, 0 + pauses 0 (length es)))
  unfolding create_server_with_dead_node_cleanup
  create_server-exhausted es e n results l h d = attempts-exhausted es e n 0 0 results l h d
