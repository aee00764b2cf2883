-- ===== src/Norms/Rules.antt =====
-- links/norms.py: the rules that norms compile to, what each sets in the policy, and what is refused.

use policy_mesh.Json.Dict.{set_key}
use policy_mesh.Json.{Value, Entries, bool, int, str, list, truth}
use policy_mesh.Json.Compare.{bit}
use policy_mesh.Prelude.Int.{ℤ, pos, negsuc, ltb_ℤ}
use policy_mesh.Prelude.{
  leb, ◌-◌, is_empty, ◌+◌, nat_eq, not, zero, ◌*◌, [], none, some, suc, ◌&&◌, ◌==◌, ◌∷◌, List,
  Option, String, codes, if◌then◌else◌, ℕ,
}

pub record NormRule : Type 0 where
  pub key : String
  pub value : Value

-- What is wrong with a set of norms.
pub data NormProblem : Type 0 where
  unsupported_category : String → NormProblem
  unsupported_rule : String → NormProblem
  conflicting_values : String → Value → Value → String → NormProblem
  below_one : String → NormProblem
  no_number : NormProblem
  no_list : NormProblem
  unsigned_threshold : NormProblem
  unsigned_manifests : NormProblem

pub data Checked {ℓ} (T : Type ℓ) : Type ℓ where
  refused : NormProblem → Checked T
  passed : T → Checked T

infixl 5 ◌>>=◌
abbrev pub ◌>>=◌ {ℓ κ} : {S : Type ℓ} {T : Type κ} → Checked S → (S → Checked T) → Checked T
refused problem >>= next = refused problem
passed value >>= next = next value

abbrev pub supported_templates : List String
supported_templates =
    "quarantine_external_bundles" ∷ "review_min_approvals" ∷ "require_policy_signature"
    ∷ "policy_signature_threshold_m" ∷ "trust_anchor_allowlist" ∷ "enable_transparency_checkpoints"
    ∷ "require_manifest_signature" ∷ "require_trusted_manifest_signer" ∷ []

-- `int` on a text of digits
unfoldable pub digits : List ℕ → ℕ → Option ℕ
digits [] n = some n
digits (d ∷ ds) n =
    let rest = digits ds (n * 10 + (d - 48)) in if leb 48 d && leb d 57 then rest else none

abbrev pub negated : ℕ → ℤ
negated zero = pos 0
negated (suc n) = negsuc n

abbrev pub number_of : (ℕ → ℤ) → Option ℕ → Option ℤ
number_of f none = none
number_of f (some n) = some (f n)

unfoldable pub parse_int : List ℕ → Option ℤ
unfolding digits
parse_int [] = none
parse_int (c ∷ cs) =
    if nat_eq c 45 && not (is_empty cs)
    then number_of negated (digits cs 0)
    else if nat_eq c 43 && not (is_empty cs)
    then number_of pos (digits cs 0)
    else number_of pos (digits (c ∷ cs) 0)

unfoldable pub to_int : Value → Checked ℤ
unfolding parse_int codes
to_int (int n) = passed n
to_int (bool b) = passed (bit b)
to_int (str s) = elim (parse_int (codes s)) [ none ↦ refused no_number | some n ↦ passed n ]
to_int _ = refused no_number

-- `int(value)`, which must be one at least
unfoldable pub at_least_one : String → Value → Checked ℤ
unfolding to_int
at_least_one key value = do
  iv ← to_int value
  if ltb_ℤ iv (pos 1) then refused (below_one key) else passed iv

abbrev pub to_list : Value → Checked Value
to_list (list xs) = passed (list xs)
to_list _ = refused no_list

-- What the rule sets in the policy.
unfoldable pub set_rule : String → Value → Entries → Checked Entries
unfolding set_key truth at_least_one
set_rule key value policy =
    if key == "quarantine_external_bundles"
    then passed (set_key "quarantine_external_bundles" (bool (truth value)) policy)
    else if key == "review_min_approvals"
    then (do
      iv ← at_least_one key value
      passed (set_key "quarantine_review_min_approvals" (int iv) policy))
    else if key == "require_policy_signature"
    then passed (set_key "require_policy_signature" (bool (truth value)) policy)
    else if key == "policy_signature_threshold_m"
    then (do
      iv ← at_least_one key value
      passed (set_key "policy_signature_threshold_m" (int iv) policy))
    else if key == "trust_anchor_allowlist"
    then (do xs ← to_list value; passed (set_key "trusted_manifest_signer_allowlist" xs policy))
    else if key == "enable_transparency_checkpoints"
    then passed (set_key "transparency_checkpoints_enabled" (bool (truth value)) policy)
    else if key == "require_manifest_signature"
    then passed (set_key "require_manifest_signature" (bool (truth value)) policy)
    else if key == "require_trusted_manifest_signer"
    then passed (set_key "require_trusted_manifest_signer" (bool (truth value)) policy)
    else refused (unsupported_rule key)
