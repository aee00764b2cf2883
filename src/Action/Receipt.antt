-- ===== src/Action/Receipt.antt =====
-- links/action_decisions.py: evaluate_action with its receipt, and the receipt's check. The bytes of
-- canonical JSON, sha256 and `str` on a value that is no text are parameters.
pub mod Laws
use policy_mesh.Action.{
  some, ActionPolicy, ActionDecision, RuleEvaluation, Contexts, Evaluated, evaluate_rules,
  decide_action,
}
use policy_mesh.Json.{Value, Entries, null, str, get}
use policy_mesh.Update.{Result, ok, raise, validation_error, ◌>>=◌}
use policy_mesh.Prelude.{none, [], ◌==◌, Bool, List, Option, String, ℕ}

-- The dict whose hash is the identifier of the receipt.
pub record ActionSeed : Type 0 where
  pub format : String
  pub decided_at : ℕ
  pub decision : ActionDecision
  pub request_id : String
  pub action : String
  pub principal : Option String
  pub actor : Option String
  pub policy_id : String
  pub policy_version : String
  pub policy_hash : String
  pub request_digest : String
  pub evidence_digest : String
  pub authority_context_digest : String
  pub reason_codes : List String
  pub evaluations : List RuleEvaluation

pub record ActionDecisionReceipt : Type 0 where
  pub format : String
  pub receipt_id : String
  pub decided_at : ℕ
  pub decision : ActionDecision
  pub request_id : String
  pub action : String
  pub principal : Option String
  pub actor : Option String
  pub policy_id : String
  pub policy_version : String
  pub policy_hash : String
  pub request_digest : String
  pub evidence_digest : String
  pub authority_context_digest : String
  pub reason_codes : List String
  pub evaluations : List RuleEvaluation

-- `canonical_json` of the three kinds of documents, `sha256_hex`, and `str`
pub record Canonical : Type 0 where
  pub sha256_hex : List ℕ → String
  pub seed_json : ActionSeed → List ℕ
  pub policy_json : ActionPolicy → List ℕ
  pub dict_json : Entries → List ℕ
  pub python_str : Value → String

-- `receipt.model_dump(mode="json")` without `receipt_id`
unfoldable pub seed_of : ActionDecisionReceipt → ActionSeed
seed_of r = record {
  format = r.format;
  decided_at = r.decided_at;
  decision = r.decision;
  request_id = r.request_id;
  action = r.action;
  principal = r.principal;
  actor = r.actor;
  policy_id = r.policy_id;
  policy_version = r.policy_version;
  policy_hash = r.policy_hash;
  request_digest = r.request_digest;
  evidence_digest = r.evidence_digest;
  authority_context_digest = r.authority_context_digest;
  reason_codes = r.reason_codes;
  evaluations = r.evaluations;
}

-- `ActionDecisionReceipt(receipt_id=receipt_id, decided_at=ts, **seed)`
unfoldable pub receipt_of : String → ActionSeed → ActionDecisionReceipt
receipt_of receipt_id s = record {
  format = "policymesh.action_decision_receipt.v1";
  receipt_id = receipt_id;
  decided_at = s.decided_at;
  decision = s.decision;
  request_id = s.request_id;
  action = s.action;
  principal = s.principal;
  actor = s.actor;
  policy_id = s.policy_id;
  policy_version = s.policy_version;
  policy_hash = s.policy_hash;
  request_digest = s.request_digest;
  evidence_digest = s.evidence_digest;
  authority_context_digest = s.authority_context_digest;
  reason_codes = s.reason_codes;
  evaluations = s.evaluations;
}

-- `request.get(key)`, which the receipt's model takes as a text or None
unfoldable pub optional_text : Option Value → Result (Option String)
optional_text none = ok none
optional_text (some null) = ok none
optional_text (some (str s)) = ok (some s)
optional_text (some _) = raise validation_error

abbrev pub nothing_yet : Evaluated
nothing_yet = record { evaluations = []; failed_deny = []; failed_defer = [] }

module _ (J : Canonical) where
  -- `str(request.get(key, "unknown"))`
  unfoldable pub text_of : Option Value → String
  text_of none = "unknown"
  text_of (some (str s)) = s
  text_of (some v) = J.python_str v

  unfoldable pub policy_hash_of : ActionPolicy → String
  policy_hash_of policy = J.sha256_hex (J.policy_json policy)

  unfoldable pub receipt_id_of : ActionSeed → String
  receipt_id_of seed = J.sha256_hex (J.seed_json seed)

  unfoldable pub seed_for :
      ActionPolicy → Contexts → ℕ → Evaluated → Option String → Option String → ActionSeed
  unfolding decide_action get text_of policy_hash_of
  seed_for policy c now e principal actor =
      let answer = decide_action e.failed_deny e.failed_defer in
      record {
        format = "policymesh.action_decision_receipt.v1";
        decided_at = now;
        decision = answer.0;
        request_id = text_of (get "request_id" c.request);
        action = text_of (get "action" c.request);
        principal = principal;
        actor = actor;
        policy_id = policy.policy_id;
        policy_version = policy.version;
        policy_hash = policy_hash_of policy;
        request_digest = J.sha256_hex (J.dict_json c.request);
        evidence_digest = J.sha256_hex (J.dict_json c.evidence);
        authority_context_digest = J.sha256_hex (J.dict_json c.authority_context);
        reason_codes = answer.1;
        evaluations = e.evaluations;
      }

  unfoldable pub evaluate_action : ActionPolicy → Contexts → ℕ → Result ActionDecisionReceipt
  unfolding evaluate_rules get receipt_id_of receipt_of optional_text seed_for
  evaluate_action policy c now = do
    e ← evaluate_rules c nothing_yet policy.rules
    principal ← optional_text (get "principal" c.request)
    actor ← optional_text (get "actor" c.request)
    let seed = seed_for policy c now e principal actor
    ok (receipt_of (receipt_id_of seed) seed)

  unfoldable pub verify_action_receipt : ActionDecisionReceipt → Bool
  unfolding seed_of receipt_id_of
  verify_action_receipt receipt = receipt.receipt_id == receipt_id_of (seed_of receipt)
