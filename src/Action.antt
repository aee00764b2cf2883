-- ===== src/Action.antt =====
-- links/action_decisions.py: the rules of an action policy, and the decision on a request.
pub mod Receipt
pub mod Raises
pub mod Missing
use policy_mesh.Json.{bool, Value, Entries, null, str, dict, list, entry, no_entries, get}
use policy_mesh.Json.Compare.{Order, less, same, greater, order, eq_value, among, is_infix}
use policy_mesh.Update.{Result, ok, raise, type_error, value_error, ◌>>=◌}
use policy_mesh.Prelude.{
  split_on, minus, ◌||◌, nat_eq, [], none, ◌&&◌, codes, false, not, some, true, truthy, ◌++◌, ◌∷◌,
  Bool, List, Option, String, if◌then◌else◌,
}
use Prim.Native.Char.{code}

pub data Operator : Type 0 where
  eq : Operator
  neq : Operator
  lt : Operator
  lte : Operator
  gt : Operator
  gte : Operator
  in_ : Operator
  not_in : Operator
  exists : Operator

pub data Source : Type 0 where
  from_request : Source
  from_evidence : Source
  from_authority_context : Source

pub data OnFail : Type 0 where
  deny_on_fail : OnFail
  defer_on_fail : OnFail

-- `None` is null.
pub record ActionRule : Type 0 where
  pub rule_id : String
  pub description : String
  pub source : Source
  pub path : String
  pub operator : Operator
  pub expected : Value
  pub expected_path : Option String
  pub on_fail : OnFail
  pub reason_code : String

pub record ActionPolicy : Type 0 where
  pub format : String
  pub policy_id : String
  pub version : String
  pub title : String
  pub description : String
  pub rules : List ActionRule

abbrev pub is_null : Value → Bool
is_null null = true
is_null _ = false

abbrev pub is_exists : Operator → Bool
is_exists exists = true
is_exists _ = false

abbrev pub given : Option String → Bool
given none = false
given (some p) = true

unfoldable pub validate_expected : ActionRule → Result ActionRule
validate_expected rule =
    if is_exists rule.operator
    then ok rule
    else if not (given rule.expected_path) && is_null rule.expected
    then raise value_error
    else if given rule.expected_path && not (is_null rule.expected)
    then raise value_error
    else ok rule

pub data RuleResult : Type 0 where
  pass : RuleResult
  fail : RuleResult

pub record RuleEvaluation : Type 0 where
  pub rule_id : String
  pub description : String
  pub result : RuleResult
  pub actual : Value
  pub expected : Value
  pub operator : Operator
  pub on_fail : OnFail
  pub reason_code : String

-- `path.split(".")`
unfoldable pub split_dots : String → List String
unfolding split_on
split_dots path = split_on b'.' path

unfoldable pub follow : Value → List String → Value
unfolding get
follow current [] = current
follow (dict d) (part ∷ parts) = elim (get part d) [ none ↦ null | some v ↦ follow v parts ]
follow _ (part ∷ parts) = null

unfoldable pub get_path : Value → String → Value
unfolding follow split_dots
get_path obj path = if truthy path then follow obj (split_dots path) else obj

-- `actual in expected`; a value that is no text is not looked for in one
unfoldable pub contained : Value → Value → Result Bool
unfolding among is_infix
contained actual (list xs) = ok (among actual xs)
contained (str s) (str t) = ok (is_infix (codes s) (codes t))
contained _ (str t) = raise type_error
contained _ _ = ok false

-- `isinstance(expected, (list, tuple, set, str))`
abbrev pub is_collection : Value → Bool
is_collection (list xs) = true
is_collection (str t) = true
is_collection _ = false

-- The operators of the order; a TypeError is caught.
unfoldable pub compare_order : Operator → Option Order → Bool
compare_order lt (some less) = true
compare_order lte (some less) = true
compare_order lte (some same) = true
compare_order gt (some greater) = true
compare_order gte (some greater) = true
compare_order gte (some same) = true
compare_order _ _ = false

unfoldable pub compare : Value → Value → Operator → Result Bool
unfolding eq_value contained compare_order order
compare actual expected exists = ok (not (is_null actual))
compare actual expected eq = ok (eq_value actual expected)
compare actual expected neq = ok (not (eq_value actual expected))
compare actual expected in_ = if is_collection expected then contained actual expected else ok false
compare actual expected not_in =
    if is_collection expected
    then (do found ← contained actual expected; ok (not found))
    else ok false
compare actual expected op =
    ok (not (is_null actual || is_null expected) && compare_order op (order actual expected))

-- The request, the evidence and the context of the authority.
pub record Contexts : Type 0 where
  pub request : Entries
  pub evidence : Entries
  pub authority_context : Entries

abbrev pub context_of : Contexts → Source → Value
context_of c from_request = dict c.request
context_of c from_evidence = dict c.evidence
context_of c from_authority_context = dict c.authority_context

abbrev pub combined : Contexts → Value
combined c = dict (
    entry "request" (dict c.request) (
      entry "evidence" (dict c.evidence)
        (entry "authority_context" (dict c.authority_context) no_entries)))

-- `_get_path(combined, rule.expected_path) if rule.expected_path else rule.expected`
abbrev pub expected_of : Contexts → Value → Option String → Value
expected_of c expected none = expected
expected_of c expected (some path) = if truthy path then get_path (combined c) path else expected

abbrev pub actual_for : Contexts → ActionRule → Value
actual_for c rule = get_path (context_of c rule.source) rule.path

abbrev pub expected_for : Contexts → ActionRule → Value
expected_for c rule = expected_of c rule.expected rule.expected_path

-- what the loop over the rules has collected
pub record Evaluated : Type 0 where
  pub evaluations : List RuleEvaluation
  pub failed_deny : List String
  pub failed_defer : List String

abbrev pub evaluation : Contexts → ActionRule → Bool → RuleEvaluation
evaluation c rule passed = record {
  rule_id = rule.rule_id;
  description = rule.description;
  result = if passed then pass else fail;
  actual = actual_for c rule;
  expected = expected_for c rule;
  operator = rule.operator;
  on_fail = rule.on_fail;
  reason_code = rule.reason_code;
}

abbrev pub failing : OnFail → String → Evaluated → Evaluated
failing deny_on_fail code e = record e { failed_deny = e.failed_deny ++ (code ∷ []) }
failing defer_on_fail code e = record e { failed_defer = e.failed_defer ++ (code ∷ []) }

unfoldable pub add_rule : Contexts → Evaluated → ActionRule → Bool → Evaluated
add_rule c e rule passed =
    let noted = record e { evaluations = e.evaluations ++ (evaluation c rule passed ∷ []) } in
    if passed then noted else failing rule.on_fail rule.reason_code noted

unfoldable pub check_rule : Contexts → ActionRule → Result Bool
unfolding compare get_path
check_rule c rule = compare (actual_for c rule) (expected_for c rule) rule.operator

unfoldable pub evaluate_rules : Contexts → Evaluated → List ActionRule → Result Evaluated
unfolding check_rule add_rule
evaluate_rules c e [] = ok e
evaluate_rules c e (rule ∷ rules) = do
  passed ← check_rule c rule
  evaluate_rules c (add_rule c e rule passed) rules

pub data ActionDecision : Type 0 where
  permit : ActionDecision
  deny : ActionDecision
  defer : ActionDecision

unfoldable pub decide_action : List String → List String → ActionDecision × List String
unfolding minus
decide_action [] [] = (permit, "all_applicable_rules_passed" ∷ [])
decide_action [] (r ∷ rs) = (defer, r ∷ rs)
decide_action (d ∷ ds) rs = (deny, (d ∷ ds) ++ minus rs (d ∷ ds))
