-- ===== src/Tests/Action.antt =====
-- Tests of links/action_decisions.py.
use policy_mesh.Json.{dict, get}
use policy_mesh.Action.{
  evaluation, get_path, ActionRule, ActionPolicy, Contexts, from_evidence, from_request, eq, neq,
  in_, not_in, deny_on_fail, defer_on_fail, permit, deny, check_rule, actual_for, expected_for,
}
use policy_mesh.Json.{entry, no_entries, str, null, list, element, no_elements}
use policy_mesh.Action.Receipt.{
  verify_action_receipt, seed_for, receipt_of, ActionDecisionReceipt, Canonical, evaluate_action,
}
use policy_mesh.Action.Missing.{missing-Open_iff, Open}
use policy_mesh.Prelude.{false, ◌≢◌, All, true, [], refl, ◌↔◌, ◌∷◌, List, none, ◌≡◌}
use policy_mesh.Update.{type_error, ok, raise}
use policy_mesh.Action.Raises.{evaluate-Ok_iff, is_text_or_none, looks_in_text}
use policy_mesh.Action.Receipt.Laws.{evaluate_action_lem, Holds, EntriesOf}

abbrev canon : Canonical
canon = record {
  sha256_hex = λ _. "d";
  seed_json = λ _. [];
  policy_json = λ _. [];
  dict_json = λ _. [];
  python_str = λ _. "";
}

-- The mandate's status has to be active.
abbrev active : ActionRule
active = record {
  rule_id = "active";
  description = "";
  source = from_evidence;
  path = "mandate.status";
  operator = eq;
  expected = str "active";
  expected_path = none;
  on_fail = deny_on_fail;
  reason_code = "inactive";
}

-- The buyer is not the one that is blocked.
abbrev unblocked : ActionRule
unblocked = record {
  rule_id = "unblocked";
  description = "";
  source = from_request;
  path = "buyer";
  operator = neq;
  expected = str "mallory";
  expected_path = none;
  on_fail = deny_on_fail;
  reason_code = "blocked";
}

-- The region is one of a text.
abbrev regional : ActionRule
regional = record {
  rule_id = "regional";
  description = "";
  source = from_request;
  path = "region";
  operator = in_;
  expected = str "eu us";
  expected_path = none;
  on_fail = defer_on_fail;
  reason_code = "region";
}

abbrev policy_with : List ActionRule → ActionPolicy
policy_with rules = record {
  format = "policymesh.action_policy.v1";
  policy_id = "p";
  version = "1";
  title = "";
  description = "";
  rules = rules;
}

abbrev contexts : Contexts
contexts = record {
  request = entry "request_id" (str "r1") no_entries;
  evidence = entry "mandate" (dict (entry "status" (str "active") no_entries)) no_entries;
  authority_context = no_entries;
}

-- Without a buyer the request passes the rule on the buyer.
permitted :
    evaluate_action canon (policy_with (active ∷ unblocked ∷ [])) contexts 7
    ≡ ok (
        receipt_of "d" (
          seed_for canon
            (policy_with (active ∷ unblocked ∷ []))
            contexts
            7
            (record {
              evaluations =
                  evaluation contexts active true ∷ evaluation contexts unblocked true ∷ [];
              failed_deny = [];
              failed_defer = [];
            })
            none
            none))
unfolding evaluate_action
permitted = refl

abbrev receipt : ActionDecisionReceipt
receipt = receipt_of "d" (
    seed_for canon (policy_with (active ∷ unblocked ∷ [])) contexts 7
      (record {
        evaluations = evaluation contexts active true ∷ evaluation contexts unblocked true ∷ [];
        failed_deny = [];
        failed_defer = [];
      })
      none none)

evaluate_action_lem_example :
    ((receipt.decision ≡ permit) ↔ All (Holds contexts) (active ∷ unblocked ∷ []))
    × ((receipt.decision ≢ deny)
        ↔ All (λ rule. rule.on_fail ≡ deny_on_fail → Holds contexts rule) (active ∷ unblocked ∷ []))
    × EntriesOf contexts (active ∷ unblocked ∷ []) receipt.evaluations
    × (verify_action_receipt canon receipt ≡ true)
evaluate_action_lem_example =
    evaluate_action_lem canon (policy_with (active ∷ unblocked ∷ [])) contexts 7 receipt permitted

-- Without a region the rule on the region raises TypeError, and no decision is made.
missing_region : check_rule contexts regional ≡ raise type_error
unfolding check_rule
missing_region = refl

evaluate-Ok_iff_example :
    ((r : ActionDecisionReceipt) × (evaluate_action canon (policy_with (regional ∷ [])) contexts 7
        ≡ ok r))
    ↔ (All
          (λ rule.
            looks_in_text (actual_for contexts rule) (expected_for contexts rule) rule.operator
            ≡ false)
          (regional ∷ [])
        × (is_text_or_none (get "principal" contexts.request) ≡ true)
        × (is_text_or_none (get "actor" contexts.request) ≡ true))
evaluate-Ok_iff_example = evaluate-Ok_iff canon (policy_with (regional ∷ [])) contexts 7

-- The region is none of the two.
abbrev elsewhere : ActionRule
elsewhere = record regional {
  operator = not_in;
  expected = list (element (str "eu") (element (str "us") no_elements));
}

no_region : actual_for contexts elsewhere ≡ null
unfolding get_path
no_region = refl

region_passes : check_rule contexts elsewhere ≡ ok true
unfolding check_rule
region_passes = refl

missing-Open_iff_example :
    (check_rule contexts elsewhere ≡ ok true)
    ↔ Open (expected_for contexts elsewhere) elsewhere.operator
missing-Open_iff_example = missing-Open_iff contexts elsewhere no_region
