-- ===== src/CryptoPolicy.antt =====
-- links/crypto_policy.py: which signature algorithms a policy permits. The names are ASCII; the
-- constant `format` is left out.
use policy_mesh.Prelude.{
  inr, [], inl, sym, Bool-cases, if◌then◌else◌, refl, ◌∙◌, eq_ignoring_case, false, ◌↔◌, ◌∷◌, ◌≢◌,
  List, true, Bool, String, ◌≡◌,
}

pub data AlgorithmState : Type 0 where
  supported : AlgorithmState
  deprecated : AlgorithmState
  prohibited : AlgorithmState

pub record AlgorithmRule : Type 0 where
  pub name : String
  pub state : AlgorithmState
  pub reason : String

pub record CryptographicPolicy : Type 0 where
  pub default : String
  pub algorithms : List AlgorithmRule

pub data PermitMessage : Type 0 where
  is_supported : PermitMessage
  is_deprecated : PermitMessage
  prohibited_or_unknown : PermitMessage

-- the loop over the rules
unfoldable pub state_among : String → List AlgorithmRule → AlgorithmState
state_among algorithm [] = prohibited
state_among algorithm (rule ∷ rules) =
    let later = state_among algorithm rules in
    if eq_ignoring_case rule.name algorithm then rule.state else later

unfoldable pub state_for : CryptographicPolicy → String → AlgorithmState
unfolding state_among
state_for policy algorithm = state_among algorithm policy.algorithms

unfoldable permits_state : AlgorithmState → Bool × PermitMessage
permits_state supported = (true, is_supported)
permits_state deprecated = (true, is_deprecated)
permits_state prohibited = (false, prohibited_or_unknown)

unfoldable pub permits : CryptographicPolicy → String → Bool × PermitMessage
unfolding permits_state
permits policy algorithm = permits_state (state_for policy algorithm)

-- The first rule for the algorithm, with its name in any case.
pub data FirstRule (algorithm : String) : List AlgorithmRule → AlgorithmRule → Type 0 where
  at_head :
      {r : AlgorithmRule} {rules : List AlgorithmRule}
      → eq_ignoring_case r.name algorithm ≡ true
      → FirstRule algorithm (r ∷ rules) r
  in_tail :
      {x r : AlgorithmRule} {rules : List AlgorithmRule}
      → eq_ignoring_case x.name algorithm ≡ false
      → FirstRule algorithm rules r
      → FirstRule algorithm (x ∷ rules) r

state_first :
    {algorithm : String} {rules : List AlgorithmRule} {r : AlgorithmRule}
    → FirstRule algorithm rules r
    → state_among algorithm rules ≡ r.state
unfolding state_among
state_first (at_head e) = rw e refl
state_first (in_tail e f) = rw e (state_first f)

find_first :
    (algorithm : String) (rules : List AlgorithmRule)
    → state_among algorithm rules ≢ prohibited
    → (r : AlgorithmRule) × FirstRule algorithm rules r
unfolding state_among
find_first algorithm [] h = absurd (h refl)
find_first algorithm (x ∷ rules) h = elim (Bool-cases (eq_ignoring_case x.name algorithm)) [
  | inl e ↦ (x, at_head e)
  | inr e ↦ let (r, f) = find_first algorithm rules (rw e at h) in (r, in_tail e f)
]

permits_state_iff : (s : AlgorithmState) → ((permits_state s).0 ≡ true) ↔ (s ≢ prohibited)
unfolding permits_state
permits_state_iff supported = (λ _ p. cc p, λ _. refl)
permits_state_iff deprecated = (λ _ p. cc p, λ _. refl)
permits_state_iff prohibited = (λ e. cc e, λ h. absurd (h refl))

-- An algorithm is permitted exactly when the policy has a rule for its name, upper and lower case
-- aside, and the first such rule does not prohibit it.
pub permits_iff :
    (policy : CryptographicPolicy) (algorithm : String)
    → ((permits policy algorithm).0 ≡ true)
      ↔ ((r : AlgorithmRule) × FirstRule algorithm policy.algorithms r × (r.state ≢ prohibited))
unfolding permits state_for
permits_iff policy algorithm =
    let (to, from) = permits_state_iff (state_among algorithm policy.algorithms) in
    (
      λ e.
          let (r, f) = find_first algorithm policy.algorithms (to e) in
          (r, f, λ p. to e (state_first f ∙ p)),
      λ w. let (r, f, h) = w in from (λ p. h (sym (state_first f) ∙ p)),
    )
