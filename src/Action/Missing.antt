-- ===== src/Action/Missing.antt =====
-- Rules whose value is missing from what they look at.
use mathlib.Core.Path.{subst}
use policy_mesh.Action.{
  Operator, in_, not_in, eq, neq, lt, lte, gt, gte, exists, compare, contained, Contexts,
  ActionRule, check_rule, actual_for, expected_for,
}
use policy_mesh.Json.{Value, Elements, null, list, element, no_elements}
use policy_mesh.Json.Compare.{eq_value, among}
use policy_mesh.Update.{ok, Result}
use policy_mesh.Prelude.{
  inr, ◌∙◌, arith, sym, ap, ◌↔◌, Bool-cases, false, inl, refl, ◌≢◌, Bool, true, ◌⊎◌, not, ◌≡◌,
}

-- One of the values is None.
pub data HasNull : Elements → Type 0 where
  at_head : {xs : Elements} → HasNull (element null xs)
  further : {v : Value} {xs : Elements} → HasNull xs → HasNull (element v xs)

-- What a missing value passes.
abbrev pub Open : Value → Operator → Type 0
Open e op =
    ((op ≡ eq) × (e ≡ null))
    ⊎ (((op ≡ neq) × (e ≢ null))
        ⊎ ((xs : Elements) × (e ≡ list xs)
            × (((op ≡ in_) × HasNull xs) ⊎ ((op ≡ not_in) × ¬ HasNull xs))))

eq_null : (e : Value) → eq_value null e ≡ true → e ≡ null
unfolding eq_value
eq_null null h = refl
eq_null e h = cc

neq_null : (e : Value) → eq_value null e ≡ false → e ≢ null
unfolding eq_value
neq_null null h n = cc
neq_null e h n = cc

null_eq : (e : Value) → e ≡ null → eq_value null e ≡ true
unfolding eq_value
null_eq null n = refl
null_eq e n = cc

null_neq : (e : Value) → e ≢ null → eq_value null e ≡ false
unfolding eq_value
null_neq null n = absurd (n refl)
null_neq e n = refl

head_or_further : {v : Value} {xs : Elements} → HasNull (element v xs) → (v ≡ null) ⊎ HasNull xs
head_or_further at_head = inl refl
head_or_further (further h) = inr h

at_null : (v : Value) (xs : Elements) → v ≡ null → HasNull (element v xs)
at_null v xs e = subst (λ w. HasNull (element w xs)) (sym e) at_head

among-HasNull : (xs : Elements) → among null xs ≡ true → HasNull xs
unfolding among
among-HasNull no_elements h = cc
among-HasNull (element v xs) h = elim (Bool-cases (eq_value null v)) [
  | inl e ↦ at_null v xs (eq_null v e)
  | inr n ↦ further (among-HasNull xs (ground (arith, h, n)))
]

HasNull-among : (xs : Elements) → HasNull xs → among null xs ≡ true
unfolding among
HasNull-among no_elements h = elim h [ ]
HasNull-among (element v xs) h = elim (head_or_further h) [
  | inl e ↦ ground (arith, null_eq v e)
  | inr h' ↦ ground (arith, HasNull-among xs h')
]

fails : {A : Type 0} → ◌≡◌ {A = Result Bool} (ok false) (ok true) → A
fails h = cc

ok-Bool : (a b : Bool) → ◌≡◌ {A = Result Bool} (ok a) (ok b) → a ≡ b
ok-Bool a b h = cc

compare-Open : (e : Value) (op : Operator) → compare null e op ≡ ok true → Open e op
unfolding compare contained
compare-Open e exists h = fails h
compare-Open e eq h = inl (refl, eq_null e (ok-Bool _ _ h))
compare-Open e neq h = inr (inl (refl, neq_null e (ground (arith, h))))
compare-Open e lt h = fails h
compare-Open e lte h = fails h
compare-Open e gt h = fails h
compare-Open e gte h = fails h
compare-Open (list xs) in_ h = inr (inr (xs, refl, inl (refl, among-HasNull xs (ok-Bool _ _ h))))
compare-Open (list xs) not_in h =
    inr (inr (xs, refl, inr (refl, λ n. ground (arith, h, HasNull-among xs n))))
compare-Open e in_ h = cc
compare-Open e not_in h = cc

Open-compare : (e : Value) (op : Operator) → Open e op → compare null e op ≡ ok true
unfolding compare contained
Open-compare e op (inl (o, n)) = rw o (ap ok (null_eq e n))
Open-compare e op (inr (inl (o, n))) = rw o (ap (λ b. ok (not b)) (null_neq e n))
Open-compare e op (inr (inr (xs, l, inl (o, n)))) = rw (o, l) (ap ok (HasNull-among xs n))
Open-compare e op (inr (inr (xs, l, inr (o, n)))) =
    rw (o, l)
      (elim (Bool-cases (among null xs)) [
        | inl a ↦ absurd (n (among-HasNull xs a))
        | inr a ↦ ap (λ b. ok (not b)) a
      ])

-- A rule whose value is missing holds exactly where its operator is eq and None is expected, where it is
-- neq and anything else is expected, where it is in and None is in the list, or where it is not_in and
-- None is not in the list; so no order, no text and no exists is met by a missing value.
pub missing-Open_iff :
    (c : Contexts) (rule : ActionRule)
    → actual_for c rule ≡ null
    → (check_rule c rule ≡ ok true) ↔ Open (expected_for c rule) rule.operator
unfolding check_rule
missing-Open_iff c rule missing =
    let same = ap (λ a. compare a (expected_for c rule) rule.operator) missing in
    (
      λ h. compare-Open (expected_for c rule) rule.operator (sym same ∙ h),
      λ o. same ∙ Open-compare (expected_for c rule) rule.operator o,
    )
