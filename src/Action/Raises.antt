-- ===== src/Action/Raises.antt =====
-- Where the evaluation of an action ends in an exception.
use policy_mesh.Action.{
  add_rule, some, Operator, in_, not_in, eq, neq, lt, lte, gt, gte, exists, compare, contained,
  is_collection, Contexts, ActionRule, ActionPolicy, Evaluated, evaluate_rules, check_rule,
  actual_for, expected_for,
}
use policy_mesh.Action.Receipt.{
  seed_for, receipt_id_of, receipt_of, evaluate_action, Canonical, ActionDecisionReceipt,
  optional_text, nothing_yet,
}
use policy_mesh.Json.{Value, null, bool, int, str, list, dict, get}
use policy_mesh.Update.{Error, validation_error, ok, raise, Result, type_error, bind-returns}
use policy_mesh.Prelude.{
  ◌∙◌, sym, [], inr, none, refl, ◌∷◌, All, inl, not, Bool-cases, List, Option, ℕ, ◌&&◌, true, false,
  ◌↔◌, Bool, ◌≡◌,
}

abbrev pub is_text : Value → Bool
is_text (str s) = true
is_text _ = false

abbrev pub is_in : Operator → Bool
is_in in_ = true
is_in not_in = true
is_in _ = false

-- A value that is no text is looked for in a text.
abbrev pub looks_in_text : Value → Value → Operator → Bool
looks_in_text a e op = is_in op && (is_text e && not (is_text a))

abbrev pub is_text_or_none : Option Value → Bool
is_text_or_none none = true
is_text_or_none (some null) = true
is_text_or_none (some v) = is_text v

abbrev pub IsOk : {A : Type 0} → Result A → Type 0
IsOk {A} r = (x : A) × (r ≡ ok x)

contained_lem : (a e : Value) → (is_text e && not (is_text a)) ≡ false → IsOk (contained a e)
unfolding contained
contained_lem a null h = (_, refl)
contained_lem a (bool b) h = (_, refl)
contained_lem a (int n) h = (_, refl)
contained_lem a (list xs) h = (_, refl)
contained_lem a (dict d) h = (_, refl)
contained_lem (str s) (str t) h = (_, refl)
contained_lem a (str t) h = cc

contained_trap :
    (a e : Value) → (is_text e && not (is_text a)) ≡ true → contained a e ≡ raise type_error
unfolding contained
contained_trap (str s) (str t) h = cc
contained_trap a (str t) h = refl
contained_trap a e h = cc

compare_lem : (a e : Value) (op : Operator) → looks_in_text a e op ≡ false → IsOk (compare a e op)
unfolding compare
compare_lem a e exists h = (_, refl)
compare_lem a e eq h = (_, refl)
compare_lem a e neq h = (_, refl)
compare_lem a e lt h = (_, refl)
compare_lem a e lte h = (_, refl)
compare_lem a e gt h = (_, refl)
compare_lem a e gte h = (_, refl)
compare_lem a e in_ h = elim (Bool-cases (is_collection e)) [
  | inl c ↦ rw c (contained_lem a e h)
  | inr c ↦ (false, rw c refl)
]
compare_lem a e not_in h = elim (Bool-cases (is_collection e)) [
  | inl c ↦ let (x, ex) = contained_lem a e h in (not x, rw (c, ex) refl)
  | inr c ↦ (false, rw c refl)
]

text-collection : (e : Value) (b : Bool) → (is_text e && b) ≡ true → is_collection e ≡ true
text-collection (str t) b h = refl
text-collection (list xs) b h = refl
text-collection null b h = cc
text-collection (bool x) b h = cc
text-collection (int n) b h = cc
text-collection (dict d) b h = cc

compare_trap :
    (a e : Value) (op : Operator) → looks_in_text a e op ≡ true → compare a e op ≡ raise type_error
unfolding compare
compare_trap a e in_ h = rw (text-collection e (not (is_text a)) h) (contained_trap a e h)
compare_trap a e not_in h = rw (text-collection e (not (is_text a)) h, contained_trap a e h) refl
compare_trap a e exists h = cc
compare_trap a e eq h = cc
compare_trap a e neq h = cc
compare_trap a e lt h = cc
compare_trap a e lte h = cc
compare_trap a e gt h = cc
compare_trap a e gte h = cc

not_ok : {A B : Type 0} (problem : Error) → IsOk {A = A} (raise problem) → B
not_ok problem h = cc

optional_text_iff : (o : Option Value) → IsOk (optional_text o) ↔ (is_text_or_none o ≡ true)
unfolding optional_text
optional_text_iff none = (λ h. refl, λ h. (_, refl))
optional_text_iff (some null) = (λ h. refl, λ h. (_, refl))
optional_text_iff (some (str s)) = (λ h. refl, λ h. (_, refl))
optional_text_iff (some v) = (λ h. not_ok validation_error h, λ h. cc)

module _ (c : Contexts) where
  abbrev pub Comparable : ActionRule → Type 0
  Comparable rule = looks_in_text (actual_for c rule) (expected_for c rule) rule.operator ≡ false

  check_iff : (rule : ActionRule) → IsOk (check_rule c rule) ↔ Comparable rule
  unfolding check_rule
  check_iff rule = (
    λ h. elim (Bool-cases (looks_in_text (actual_for c rule) (expected_for c rule) rule.operator)) [
      | inl t ↦ not_ok type_error (h.0, sym (compare_trap _ _ _ t) ∙ h.1)
      | inr f ↦ f
    ],
    λ h. compare_lem (actual_for c rule) (expected_for c rule) rule.operator h,
  )

  rules_iff :
      (e : Evaluated) (rules : List ActionRule)
      → IsOk (evaluate_rules c e rules) ↔ All Comparable rules
  unfolding evaluate_rules
  rules_iff e [] = (λ h. tt, λ h. (e, refl))
  rules_iff e (rule ∷ rules) = (
    λ h.
        let (passed, ep, rest) = bind-returns (check_rule c rule) _ h.1 in
        (
          (check_iff rule).0 (passed, ep),
          (rules_iff (add_rule c e rule passed) rules).0 (h.0, rest),
        ),
    λ w.
        let (passed, ep) = (check_iff rule).1 w.0 in
        let (e', ee) = (rules_iff (add_rule c e rule passed) rules).1 w.1 in (e', rw ep ee),
  )

-- The evaluation of an action comes to a decision exactly when no rule looks for a value that is no
-- text in a text, and the request's principal and actor are texts or missing; else it raises.
pub evaluate-Ok_iff :
    (canon : Canonical) (policy : ActionPolicy) (c : Contexts) (now : ℕ)
    → ((r : ActionDecisionReceipt) × (evaluate_action canon policy c now ≡ ok r)) ↔ (
        All
          (λ rule. looks_in_text (actual_for c rule) (expected_for c rule) rule.operator ≡ false)
          policy.rules
        × (is_text_or_none (get "principal" c.request) ≡ true)
        × (is_text_or_none (get "actor" c.request) ≡ true))
unfolding evaluate_action
evaluate-Ok_iff canon policy c now = (
  λ h.
      let (e, ee, h₁) = bind-returns (evaluate_rules c nothing_yet policy.rules) _ h.1 in
      let (principal, ep, h₂) = bind-returns (optional_text (get "principal" c.request)) _ h₁ in
      let (actor, ea, h₃) = bind-returns (optional_text (get "actor" c.request)) _ h₂ in
      (
        (rules_iff c nothing_yet policy.rules).0 (e, ee),
        (optional_text_iff (get "principal" c.request)).0 (principal, ep),
        (optional_text_iff (get "actor" c.request)).0 (actor, ea),
      ),
  λ w.
      let (e, ee) = (rules_iff c nothing_yet policy.rules).1 w.0 in
      let (principal, ep) = (optional_text_iff (get "principal" c.request)).1 w.1 in
      let (actor, ea) = (optional_text_iff (get "actor" c.request)).1 w.2 in
      (
        receipt_of (receipt_id_of canon (seed_for canon policy c now e principal actor))
            (seed_for canon policy c now e principal actor),
        rw (ee, ep, ea) refl,
      ),
)
