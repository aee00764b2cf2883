-- ===== src/Action/Receipt/Laws.antt =====
-- What the receipt of an evaluated action says.
use policy_mesh.Json.{get}
use policy_mesh.Action.{
  expected_for, actual_for, pass, RuleEvaluation, failing, evaluation, ActionRule, ActionPolicy,
  Contexts, Evaluated, evaluate_rules, decide_action, check_rule, permit, deny, deny_on_fail,
  defer_on_fail, add_rule, OnFail,
}
use policy_mesh.Action.Receipt.{
  receipt_id_of, seed_of, optional_text, receipt_of, nothing_yet, seed_for, evaluate_action,
  verify_action_receipt, ActionDecisionReceipt, Canonical,
}
use policy_mesh.Update.{ok, Result, bind-returns}
use policy_mesh.Prelude.{
  eq_refl, Option, All-map, arith, append_assoc, ap, append-nil, ◌≢◌, String, false, sym, ℕ, ◌∙◌,
  refl, inr, inl, Bool, ◌⊎◌, All, ◌↔◌, [], ◌++◌, true, ◌∷◌, List, ◌≡◌,
}
use mathlib.Core.Path.{subst}

ok-injective : (x y : Evaluated) → ◌≡◌ {A = Result Evaluated} (ok x) (ok y) → x ≡ y
ok-injective x y e = cc

receipt-injective :
    (x y : ActionDecisionReceipt) → ◌≡◌ {A = Result ActionDecisionReceipt} (ok x) (ok y) → x ≡ y
receipt-injective x y e = cc

snoc_full : {A : Type 0} (xs : List A) (x : A) → ¬ (xs ++ (x ∷ []) ≡ [])
snoc_full [] x e = cc
snoc_full (y ∷ xs) x e = cc

OnFail-cases : (f : OnFail) → (f ≡ deny_on_fail) ⊎ (f ≡ defer_on_fail)
OnFail-cases deny_on_fail = inl refl
OnFail-cases defer_on_fail = inr refl

module _ (c : Contexts) where
  -- The rule is met.
  abbrev pub Holds : ActionRule → Type 0
  Holds rule = check_rule c rule ≡ ok true

  abbrev Denies : ActionRule → Type 0
  Denies rule = rule.on_fail ≡ deny_on_fail → Holds rule

  abbrev Defers : ActionRule → Type 0
  Defers rule = rule.on_fail ≡ defer_on_fail → Holds rule

  -- The entry is that of the rule: it passes exactly where the rule holds, and it has the two values
  -- that were compared.
  pub record EntryOf (rule : ActionRule) (x : RuleEvaluation) : Type 0 where
    pub same_rule : x.rule_id ≡ rule.rule_id
    pub passes_iff : (x.result ≡ pass) ↔ Holds rule
    pub actual_value : x.actual ≡ actual_for c rule
    pub expected_value : x.expected ≡ expected_for c rule
    pub same_operator : x.operator ≡ rule.operator
    pub same_on_fail : x.on_fail ≡ rule.on_fail
    pub same_reason : x.reason_code ≡ rule.reason_code

  -- One entry for each rule, in their order.
  pub data EntriesOf : List ActionRule → List RuleEvaluation → Type 0 where
    no_entry : EntriesOf [] []
    one_entry :
        {rule : ActionRule} {x : RuleEvaluation} {rules : List ActionRule}
        {xs : List RuleEvaluation}
        → EntryOf rule x
        → EntriesOf rules xs
        → EntriesOf (rule ∷ rules) (x ∷ xs)

  evaluation_lem :
      (rule : ActionRule) (passed : Bool)
      → check_rule c rule ≡ ok passed
      → EntryOf rule (evaluation c rule passed)
  evaluation_lem rule true h = record {
    same_rule = refl;
    passes_iff = (λ _. h, λ _. refl);
    actual_value = refl;
    expected_value = refl;
    same_operator = refl;
    same_on_fail = refl;
    same_reason = refl;
  }
  evaluation_lem rule false h = record {
    same_rule = refl;
    passes_iff = (λ w. cc, λ w. ground (arith, h, w));
    actual_value = refl;
    expected_value = refl;
    same_operator = refl;
    same_on_fail = refl;
    same_reason = refl;
  }

  -- What one rule adds to what was collected.
  record Added (e e' : Evaluated) (rule : ActionRule) : Type 0 where
    one_more : (x : RuleEvaluation) × (e'.evaluations ≡ e.evaluations ++ (x ∷ [])) × EntryOf rule x
    denied : (e'.failed_deny ≡ []) ↔ ((e.failed_deny ≡ []) × Denies rule)
    deferred : (e'.failed_defer ≡ []) ↔ ((e.failed_defer ≡ []) × Defers rule)

  add_lem :
      (e : Evaluated) (rule : ActionRule) (passed : Bool)
      → check_rule c rule ≡ ok passed
      → Added e (add_rule c e rule passed) rule
  unfolding add_rule
  add_lem e rule true h = record {
    one_more = (evaluation c rule true, refl, evaluation_lem rule true h);
    denied = (λ w. (w, λ _. h), λ w. w.0);
    deferred = (λ w. (w, λ _. h), λ w. w.0);
  }
  add_lem e rule false h =
      let noted : Evaluated = record e {
        evaluations = e.evaluations ++ (evaluation c rule false ∷ []);
      } in
      elim (OnFail-cases rule.on_fail) [
        | inl f ↦
            subst (λ x. Added e x rule) (ap (λ z. failing z rule.reason_code noted) (sym f))
              (record {
                one_more = (evaluation c rule false, refl, evaluation_lem rule false h);
                denied = (λ w. absurd (snoc_full _ _ w), λ w. ground (arith, h, w.1 f));
                deferred = (λ w. (w, λ g. ground (arith, f, g)), λ w. w.0);
              })
        | inr f ↦
            subst (λ x. Added e x rule) (ap (λ z. failing z rule.reason_code noted) (sym f))
              (record {
                one_more = (evaluation c rule false, refl, evaluation_lem rule false h);
                denied = (λ w. (w, λ g. ground (arith, f, g)), λ w. w.0);
                deferred = (λ w. absurd (snoc_full _ _ w), λ w. ground (arith, h, w.1 f));
              })
      ]

  -- What a run of rules adds to what was collected.
  pub record Ran (e e' : Evaluated) (rules : List ActionRule) : Type 0 where
    pub all_run :
        (xs : List RuleEvaluation) × (e'.evaluations ≡ e.evaluations ++ xs) × EntriesOf rules xs
    pub none_denied :
        (e'.failed_deny ≡ [])
        ↔ ((e.failed_deny ≡ []) × All (λ r. r.on_fail ≡ deny_on_fail → Holds r) rules)
    pub none_deferred :
        (e'.failed_defer ≡ [])
        ↔ ((e.failed_defer ≡ []) × All (λ r. r.on_fail ≡ defer_on_fail → Holds r) rules)

  nothing_run : (e : Evaluated) → Ran e e []
  nothing_run e = record {
    all_run = ([], sym (append-nil _), no_entry);
    none_denied = (λ w. (w, tt), λ w. w.0);
    none_deferred = (λ w. (w, tt), λ w. w.0);
  }

  prepend :
      (e f g : Evaluated) (rule : ActionRule) (rules : List ActionRule)
      → Added e f rule
      → Ran f g rules
      → Ran e g (rule ∷ rules)
  prepend e f g rule rules a r = record {
    all_run =
        let (x, added, entry) = a.one_more in
        let (xs, all, entries) = r.all_run in
        (
          x ∷ xs,
          all ∙ ap (λ z. z ++ xs) added ∙ append_assoc e.evaluations (x ∷ []) xs,
          one_entry entry entries,
        );
    none_denied = (
      λ w. let (x, y) = r.none_denied.0 w in let (p, q) = a.denied.0 x in (p, (q, y)),
      λ w. r.none_denied.1 (a.denied.1 (w.0, w.1.0), w.1.1),
    );
    none_deferred = (
      λ w. let (x, y) = r.none_deferred.0 w in let (p, q) = a.deferred.0 x in (p, (q, y)),
      λ w. r.none_deferred.1 (a.deferred.1 (w.0, w.1.0), w.1.1),
    );
  }

  evaluate_rules_lem :
      (e e' : Evaluated) (rules : List ActionRule)
      → evaluate_rules c e rules ≡ ok e'
      → Ran e e' rules
  unfolding evaluate_rules
  evaluate_rules_lem e e' [] h = subst (λ x. Ran e x []) (ok-injective e e' h) (nothing_run e)
  evaluate_rules_lem e e' (rule ∷ rules) h =
      let (passed, ep, rest) = bind-returns (check_rule c rule) _ h in
      let ran = evaluate_rules_lem (add_rule c e rule passed) e' rules rest in
      prepend e (add_rule c e rule passed) e' rule rules (add_lem e rule passed ep) ran

decide_lem :
    (ds rs : List String)
    → let decision = (decide_action ds rs).0 in
      ((decision ≢ deny) ↔ (ds ≡ [])) × ((decision ≡ permit) ↔ ((ds ≡ []) × (rs ≡ [])))
unfolding decide_action
decide_lem [] [] = ((λ n. refl, λ e d. cc), (λ e. (refl, refl), λ e. refl))
decide_lem [] (r ∷ rs) = ((λ n. refl, λ e d. cc), (λ e. cc, λ e. cc))
decide_lem (d ∷ ds) rs = ((λ n. absurd (n refl), λ e. cc), (λ e. cc, λ e. cc))

All-denying :
    (c : Contexts) (rules : List ActionRule)
    → All (Holds c) rules ↔ (All (Denies c) rules × All (Defers c) rules)
All-denying c rules = (
  λ w. (All-map rules (λ r h f. h) w, All-map rules (λ r h f. h) w),
  λ w. both_ways rules w.0 w.1,
)
  where
    both_ways : (rs : List ActionRule) → All (Denies c) rs → All (Defers c) rs → All (Holds c) rs
    both_ways [] a b = tt
    both_ways (r ∷ rs) a b =
        (elim (OnFail-cases r.on_fail) [ inl f ↦ a.0 f | inr f ↦ b.0 f ], both_ways rs a.1 b.1)

module _ (J : Canonical) (policy : ActionPolicy) (c : Contexts) where
  abbrev Says : ActionDecisionReceipt → Type 0
  Says r =
      ((r.decision ≡ permit) ↔ All (Holds c) policy.rules)
      × ((r.decision ≢ deny)
          ↔ All (λ rule. rule.on_fail ≡ deny_on_fail → Holds c rule) policy.rules)
      × EntriesOf c policy.rules r.evaluations
      × (verify_action_receipt J r ≡ true)

  seed-Says :
      (now : ℕ) (e : Evaluated) (principal actor : Option String)
      → Ran c nothing_yet e policy.rules
      → let s = seed_for J policy c now e principal actor in Says (receipt_of (receipt_id_of J s) s)
  unfolding seed_for verify_action_receipt receipt_of seed_of
  seed-Says now e principal actor ran =
      let (deny_lem, permit_lem) = decide_lem e.failed_deny e.failed_defer in
      (
        (
          λ p. (All-denying c policy.rules).1 (
            (ran.none_denied.0 (permit_lem.0 p).0).1,
            (ran.none_deferred.0 (permit_lem.0 p).1).1,
          ),
          λ w.
              let (a, b) = (All-denying c policy.rules).0 w in
              permit_lem.1 (ran.none_denied.1 (refl, a), ran.none_deferred.1 (refl, b)),
        ),
        (λ n. (ran.none_denied.0 (deny_lem.0 n)).1, λ w. deny_lem.1 (ran.none_denied.1 (refl, w))),
        (let (xs, all, entries) = ran.all_run in
            subst (EntriesOf c policy.rules) (sym all) entries),
        eq_refl (receipt_id_of J (seed_for J policy c now e principal actor)),
      )

  -- An action is permitted exactly when every rule holds, and it is denied but when every rule that
  -- denies on failure holds; the receipt has one entry for each of the policy's rules, in their order,
  -- which passes exactly where the rule holds and has the values that were compared; and the receipt
  -- verifies.
  pub evaluate_action_lem :
      (now : ℕ) (r : ActionDecisionReceipt)
      → evaluate_action J policy c now ≡ ok r
      → ((r.decision ≡ permit) ↔ All (Holds c) policy.rules)
        × ((r.decision ≢ deny)
            ↔ All (λ rule. rule.on_fail ≡ deny_on_fail → Holds c rule) policy.rules)
        × EntriesOf c policy.rules r.evaluations
        × (verify_action_receipt J r ≡ true)
  unfolding evaluate_action
  evaluate_action_lem now r h =
      let (e, ee, h₁) = bind-returns (evaluate_rules c nothing_yet policy.rules) _ h in
      let (principal, ep, h₂) = bind-returns (optional_text (get "principal" c.request)) _ h₁ in
      let (actor, ea, h₃) = bind-returns (optional_text (get "actor" c.request)) _ h₂ in
      subst Says (receipt-injective _ _ h₃)
        (seed-Says now e principal actor (evaluate_rules_lem c nothing_yet e policy.rules ee))
